-- ===== src/Objects.antt =====
-- The objects of include/aegis/gateway/objects/ as JSON: reading the fields of an object, and writing them. The
-- fields of an object are found by their names, so that their order has no meaning. `none` is an exception of
-- the JSON library.
pub mod Embed
pub mod Things
pub mod Messages
pub mod Activities
pub mod Guilds
mod Examples
use aegis_cpp.Common.{
  ℕ, suc, ◌-◌, ◌^◌, ◌%◌, ◌≡◌, refl, ◌∙◌, ap, Bool, true, false, not, List, [], ◌∷◌, Option, none,
  some, ◌>>=◌, if◌then◌else◌,
}
use aegis_cpp.Common.Int.{ℤ, pos, negsuc, to_signed}
use aegis_cpp.Common.Text.{Text, eq_text}
use aegis_cpp.Json.{
  Value, Items, Fields, null, boolean, number, string, array, object, nil, cons, end, field, at,
  get_field,
}

-- The low bits of an integer.
abbrev pub low_word : ℕ → ℤ → ℕ
low_word w (pos n) = n % 2 ^ w
low_word w (negsuc n) = 2 ^ w - suc (n % 2 ^ w)

-- static_cast<int32_t>
abbrev pub int32 : ℤ → ℤ
int32 z = to_signed 32 (low_word 32 z)

abbrev pub IsInt32 : ℤ → Type 0
IsInt32 z = int32 z ≡ z

abbrev pub drop_null : Option Value → Option Value
drop_null none = none
drop_null (some null) = none
drop_null (some v) = some v

-- `j.count(key) && !j[key].is_null()`, and the value.
abbrev pub given : Text → Value → Option Value
given k j = drop_null (at k j)

-- A field that is read over `old`.
abbrev pub text_or : Text → Option Value → Option Text
text_or old none = some old
text_or old (some (string t)) = some t
text_or old (some _) = none

-- A Boolean is converted to a number.
abbrev pub int32_or : ℤ → Option Value → Option ℤ
int32_or old none = some old
int32_or old (some (number z)) = some (int32 z)
int32_or old (some (boolean b)) = some (pos (if b then 1 else 0))
int32_or old (some _) = none

abbrev pub word_or : ℕ → ℕ → Option Value → Option ℕ
word_or w old none = some old
word_or w old (some (number z)) = some (low_word w z)
word_or w old (some (boolean b)) = some (if b then 1 else 0)
word_or w old (some _) = none

abbrev pub bool_or : Bool → Option Value → Option Bool
bool_or old none = some old
bool_or old (some (boolean b)) = some b
bool_or old (some _) = none

abbrev pub object_or {ℓ} : {A : Type ℓ} → (Value → Option A) → A → Option Value → Option A
object_or from old none = some old
object_or from old (some v) = from v

-- The loop `for (const auto & i : v)` that reads each element.
module _ {ℓ} {A : Type ℓ} (from : Value → Option A) where
  unfoldable pub read_items : Items → Option (List A)
  read_items nil = some []
  read_items (cons v vs) = do a ← from v; rest ← read_items vs; some (a ∷ rest)

  unfoldable pub read_values : Fields → Option (List A)
  read_values end = some []
  read_values (field k v fs) = do a ← from v; rest ← read_values fs; some (a ∷ rest)

  abbrev pub read_list : Option Value → Option (List A)
  read_list none = some []
  read_list (some null) = some []
  read_list (some (array vs)) = read_items vs
  read_list (some (object fs)) = read_values fs
  read_list (some v) = do a ← from v; some (a ∷ [])

-- `j[key].push_back(a)` for each element
unfoldable pub items {ℓ} : {A : Type ℓ} → (A → Value) → List A → Items
items to [] = nil
items to (a ∷ rest) = cons (to a) (items to rest)

-- A field that is written under a condition.
unfoldable pub field_if : Bool → Text → Value → Fields → Fields
field_if c k v fs = if c then field k v fs else fs

-- The elements under a key, which is there if something was pushed.
unfoldable pub list_field {ℓ} : {A : Type ℓ} → (A → Value) → Text → List A → Fields → Fields
unfolding items
list_field to k [] fs = fs
list_field to k (a ∷ rest) fs = field k (array (items to (a ∷ rest))) fs

pub get_field-field_if :
    (c : Bool) (k j : Text) (v : Value) (fs : Fields)
    → get_field j (field_if c k v fs)
      ≡ (if c then if eq_text k j then some v else get_field j fs else get_field j fs)
unfolding field_if
get_field-field_if true k j v fs = refl
get_field-field_if false k j v fs = refl

pub get_field-field_if_other :
    (c : Bool) (k j : Text) (v : Value) (fs : Fields)
    → eq_text k j ≡ false
    → get_field j (field_if c k v fs) ≡ get_field j fs
unfolding field_if
get_field-field_if_other true k j v fs h = rw h refl
get_field-field_if_other false k j v fs h = refl

pub get_field-list_field_other {ℓ} :
    {A : Type ℓ} (to : A → Value) (k j : Text) (xs : List A) (fs : Fields)
    → eq_text k j ≡ false
    → get_field j (list_field to k xs fs) ≡ get_field j fs
unfolding list_field
get_field-list_field_other to k j [] fs h = refl
get_field-list_field_other to k j (a ∷ rest) fs h = rw h refl

-- A list that is written is read again, if its elements are.
pub read_items-items {ℓ} :
    {A : Type ℓ} (from : Value → Option A) (to : A → Value) (xs : List A)
    → ((a : A) → from (to a) ≡ some a)
    → read_items from (items to xs) ≡ some xs
unfolding read_items items
read_items-items from to [] h = refl
read_items-items from to (a ∷ rest) h = rw (h a, read_items-items from to rest h) refl
