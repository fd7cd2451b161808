-- ===== src/Objects/Activities.antt =====
-- The parts of an activity as JSON: include/aegis/gateway/objects/party.hpp, asset.hpp and secret.hpp.
pub mod Kept
pub mod Whole
use aegis_cpp.Common.{
  ℕ, ◌==◌, ◌||◌, Bool, true, false, not, List, [], ◌∷◌, Option, none, some, ◌>>=◌, if◌then◌else◌,
}
use aegis_cpp.Common.Int.{ℤ, pos, ◌==ℤ◌}
use aegis_cpp.Common.Text.{Text, bytes, to_text, is_empty_text}
use aegis_cpp.Json.{
  Value, Fields, null, boolean, number, string, array, object, end, field, at, signed,
  snowflake_to_json, snowflake_from_json,
}
use aegis_cpp.Objects.{
  given, text_or, int32_or, word_or, bool_or, object_or, read_list, read_items, read_values,
  field_if, list_field, items,
}

-- The value after the writing of fields into a new one, which is null until then.
abbrev pub built : Fields → Value
built end = null
built (field k v fs) = object (field k v fs)

pub record Party : Type 0 where
  pub id : Text
  pub current_size : ℤ
  pub max_size : ℤ

-- The sizes are read only from an array, which has no field, so that they are never read.
unfoldable pub party_from_json : Value → Option Party
party_from_json j = do
  id ← text_or [] (given (bytes "id") j)
  some (record { id = id; current_size = pos 0; max_size = pos 0 })

-- The sizes are stored into an empty array with `at`, which throws.
unfoldable pub party_to_json : Party → Option Value
unfolding field_if
party_to_json p =
    if p.current_size ==ℤ pos 0 || p.max_size ==ℤ pos 0
    then some (built (field_if (not (is_empty_text p.id)) (bytes "id") (string p.id) end))
    else none

pub record Asset : Type 0 where
  pub large_image : Text
  pub large_text : Text
  pub small_image : Text
  pub small_text : Text

unfoldable pub asset_from_json : Value → Option Asset
asset_from_json j = do
  large_image ← text_or [] (given (bytes "large_image") j)
  large_text ← text_or [] (given (bytes "large_text") j)
  small_image ← text_or [] (given (bytes "small_image") j)
  small_text ← text_or [] (given (bytes "small_text") j)
  some (record {
    large_image = large_image;
    large_text = large_text;
    small_image = small_image;
    small_text = small_text;
  })

-- Each text is written if it is not empty.
unfoldable pub asset_fields : Asset → Fields
unfolding field_if
asset_fields a =
    field_if (not (is_empty_text a.large_image)) (bytes "large_image") (string a.large_image) (
      field_if (not (is_empty_text a.large_text)) (bytes "large_text") (string a.large_text) (
        field_if (not (is_empty_text a.small_image)) (bytes "small_image") (string a.small_image) (
          field_if (not (is_empty_text a.small_text)) (bytes "small_text") (string a.small_text)
            end)))

unfoldable pub asset_to_json : Asset → Value
unfolding asset_fields
asset_to_json a = built (asset_fields a)

pub record Secret : Type 0 where
  pub join : Text
  pub spectate : Text
  pub match : Text

unfoldable pub secret_from_json : Value → Option Secret
secret_from_json j = do
  join ← text_or [] (given (bytes "join") j)
  spectate ← text_or [] (given (bytes "spectate") j)
  match ← text_or [] (given (bytes "match") j)
  some (record { join = join; spectate = spectate; match = match })

-- Each text is written if it is not empty.
unfoldable pub secret_fields : Secret → Fields
unfolding field_if
secret_fields s = field_if (not (is_empty_text s.join)) (bytes "join") (string s.join) (
    field_if (not (is_empty_text s.spectate)) (bytes "spectate") (string s.spectate)
      (field_if (not (is_empty_text s.match)) (bytes "match") (string s.match) end))

unfoldable pub secret_to_json : Secret → Value
unfolding secret_fields
secret_to_json s = built (secret_fields s)
