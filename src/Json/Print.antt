-- ===== src/Json/Print.antt =====
-- A printer of values, which the examples pass for the one of the JSON library. It escapes nothing.
use aegis_cpp.Common.{true, false, [], ◌∷◌, ◌++◌}
use aegis_cpp.Common.Text.{Text, bytes, to_text}
use aegis_cpp.Json.{
  Value, Items, Fields, null, boolean, number, string, array, object, nil, cons, end, field,
}

abbrev quoted : Text → Text
quoted t = b'"' ∷ t ++ b'"' ∷ []

unfoldable mutual
  pub print : Value → Text
  print null = bytes "null"
  print (boolean true) = bytes "true"
  print (boolean false) = bytes "false"
  print (number z) = to_text z
  print (string t) = quoted t
  print (array i) = b'[' ∷ print_items i
  print (object f) = b'{' ∷ print_fields f

  pub print_items : Items → Text
  print_items nil = bytes "]"
  print_items (cons v i) = print v ++ b',' ∷ print_items i

  pub print_fields : Fields → Text
  print_fields end = bytes "}"
  print_fields (field k v f) = quoted k ++ b':' ∷ print v ++ b',' ∷ print_fields f
