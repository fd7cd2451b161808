-- ===== src/Objects/Activities/Whole.antt =====
-- An activity as JSON: include/aegis/gateway/objects/activity.hpp and timestamp.hpp. `blank` is a new object before
-- its fields are read; the fields without an initializer hold some value in it.
use aegis_cpp.Common.{
  ℕ, ◌==◌, ◌||◌, ◌&&◌, ◌≡◌, refl, Bool, true, false, not, Option, some, ◌>>=◌, if◌then◌else◌, zero,
  suc, ◌∷◌, ◌<◌, ◌^◌, ◌%◌, ◌-◌, ltb, arith,
}
use aegis_cpp.Common.Int.{ℤ, pos, negsuc, to_signed, ◌==ℤ◌}
use aegis_cpp.Common.Text.{Text, bytes, stoul, is_empty_text}
use aegis_cpp.Json.{
  Value, Fields, boolean, number, string, object, end, field, signed, snowflake_to_json,
}
use aegis_cpp.Objects.{low_word, given, text_or, int32_or, word_or, bool_or, object_or, field_if}
use aegis_cpp.Objects.Things.{snowflake}
use aegis_cpp.Objects.Activities.{
  built, Party, party_from_json, party_to_json, Asset, asset_from_json, asset_to_json, Secret,
  secret_from_json, secret_to_json,
}

pub record Timestamp : Type 0 where
  pub start : ℤ
  pub end : ℤ

-- A time: an integer, or a text with one; what else there is leaves the time as it is.
abbrev pub time_or : ℤ → Option Value → Option ℤ
time_or old (some (number z)) = some z
time_or old (some (string t)) = do n ← stoul t; some (signed n)
time_or old _ = some old

unfoldable pub timestamp_from_json : Timestamp → Value → Option Timestamp
timestamp_from_json blank j = do
  start ← time_or blank.start (given (bytes "start") j)
  finish ← time_or blank.end (given (bytes "end") j)
  some (record { start = start; end = finish })

unfoldable pub timestamp_to_json : Timestamp → Value
unfolding field_if
timestamp_to_json t = built (
    field_if (not (t.start ==ℤ pos 0)) (bytes "start") (number t.start)
      (field_if (not (t.end ==ℤ pos 0)) (bytes "end") (number t.end) end))

-- `type` and `flags` keep the number of the enumerator.
pub record Activity : Type 0 where
  pub name : Text
  pub type : ℤ
  pub url : Text
  pub timestamps : Timestamp
  pub application_id : ℕ
  pub details : Text
  pub state : Text
  pub party_data : Party
  pub assets : Asset
  pub secrets : Secret
  pub instance_flag : Bool
  pub flags : ℕ

unfoldable pub activity_from_json : Activity → Value → Option Activity
unfolding timestamp_from_json party_from_json asset_from_json secret_from_json
activity_from_json blank j = do
  name ← text_or blank.name (given (bytes "name") j)
  type ← int32_or blank.type (given (bytes "type") j)
  url ← text_or blank.url (given (bytes "url") j)
  timestamps ←
      object_or (timestamp_from_json blank.timestamps) blank.timestamps
        (given (bytes "timestamps") j)
  party_data ← object_or party_from_json blank.party_data (given (bytes "party") j)
  assets ← object_or asset_from_json blank.assets (given (bytes "assets") j)
  secrets ← object_or secret_from_json blank.secrets (given (bytes "secrets") j)
  application_id ← object_or snowflake blank.application_id (given (bytes "application_id") j)
  details ← text_or blank.details (given (bytes "details") j)
  state ← text_or blank.state (given (bytes "state") j)
  instance_flag ← bool_or blank.instance_flag (given (bytes "instance") j)
  flags ← word_or 32 blank.flags (given (bytes "flags") j)
  some (record {
    name = name;
    type = type;
    url = url;
    timestamps = timestamps;
    application_id = application_id;
    details = details;
    state = state;
    party_data = party_data;
    assets = assets;
    secrets = secrets;
    instance_flag = instance_flag;
    flags = flags;
  })

-- The fields of a game. A party that cannot be written throws.
unfoldable pub game_fields : Activity → Option Fields
unfolding party_to_json asset_to_json secret_to_json field_if
game_fields a = do
  party ← party_to_json a.party_data
  some (
      field_if (not (is_empty_text a.details)) (bytes "details") (string a.details) (
        field_if (not (is_empty_text a.state)) (bytes "state") (string a.state) (
          field (bytes "party") party (
            field (bytes "assets") (asset_to_json a.assets) (
              field (bytes "secrets") (secret_to_json a.secrets) (
                field (bytes "application_id") (snowflake_to_json a.application_id)
                  (field (bytes "instance") (boolean a.instance_flag) end)))))))

-- The fields of an activity with a name: 0 is Game, 1 Streaming, 3 Watching.
unfoldable pub named_fields : Activity → Option Fields
unfolding game_fields field_if
named_fields a =
    let has_url : Bool = not (is_empty_text a.url) && (a.type ==ℤ pos 1 || a.type ==ℤ pos 3) in
    do
      rest ← (if a.type ==ℤ pos 0 then game_fields a else some end)
      some (
          field (bytes "flags") (number (to_signed 32 a.flags))
            (field_if has_url (bytes "url") (string a.url) rest))

unfoldable pub activity_to_json : Activity → Option Value
unfolding named_fields
activity_to_json a = do
  rest ← (if is_empty_text a.name then some end else named_fields a)
  some (object (field (bytes "name") (string a.name) (field (bytes "type") (number a.type) rest)))

suc-is_not_zero : (n : ℕ) → (suc n == 0) ≡ false
suc-is_not_zero n = ground arith

-- A time is read as it was written, and as 0 if it was 0.
pub timestamp_from_json-to_json :
    (t : Timestamp)
    → timestamp_from_json (record { start = pos 0; end = pos 0 }) (timestamp_to_json t) ≡ some t
unfolding timestamp_from_json timestamp_to_json
timestamp_from_json-to_json t = both t.start t.end
  where
    both :
        (a b : ℤ)
        → timestamp_from_json
            (record { start = pos 0; end = pos 0 })
            (timestamp_to_json (record { start = a; end = b }))
          ≡ some (record { start = a; end = b })
    both (pos zero) (pos zero) = refl
    both (pos zero) (pos (suc m)) = rw (suc-is_not_zero m) refl
    both (pos zero) (negsuc m) = rw (suc-is_not_zero m) refl
    both (pos (suc n)) (pos zero) = rw (suc-is_not_zero n) refl
    both (pos (suc n)) (pos (suc m)) = rw (suc-is_not_zero n, suc-is_not_zero m) refl
    both (pos (suc n)) (negsuc m) = rw (suc-is_not_zero n, suc-is_not_zero m) refl
    both (negsuc n) (pos zero) = rw (suc-is_not_zero n) refl
    both (negsuc n) (pos (suc m)) = rw (suc-is_not_zero n, suc-is_not_zero m) refl
    both (negsuc n) (negsuc m) = rw (suc-is_not_zero n, suc-is_not_zero m) refl

read_flags : (f : ℕ) → f < 2 ^ 31 → low_word 32 (to_signed 32 f) ≡ f
read_flags f h = rw (low_flags, is_low) low_flags
  where
    small : (n m : ℕ) → n < m → n % m ≡ n
    small n m h = grind arith

    low_flags : f % 2 ^ 32 ≡ f
    low_flags = small f (2 ^ 32) omega arith

    is_low : ltb f (2 ^ (32 - 1)) ≡ true
    is_low = ground (arith, h)

and_false : (b : Bool) → (b && false) ≡ false
and_false true = refl
and_false false = refl

listening_to_json :
    (a : Activity) (c : ℕ) (cs : Text)
    → a.name ≡ c ∷ cs
    → a.type ≡ pos 2
    → activity_to_json a
      ≡ some (
          object (
            field (bytes "name") (string (c ∷ cs)) (
              field
                (bytes "type")
                (number (pos 2))
                (field (bytes "flags") (number (to_signed 32 a.flags)) end))))
unfolding activity_to_json named_fields
listening_to_json a c cs n t = rw (n, t, and_false (not (is_empty_text a.url))) refl

-- An activity with a name that is neither a game, nor a stream, nor watched keeps its name, its type and its
-- flags, and loses everything else, if the type is an enumerator and the flags have 31 bits.
pub activity_from_json-to_json_listening :
    (blank a : Activity) (c : ℕ) (cs : Text)
    → a.name ≡ c ∷ cs
    → a.type ≡ pos 2
    → a.flags < 2 ^ 31
    → (activity_to_json a >>= activity_from_json blank)
      ≡ some (record blank { name = a.name; type = pos 2; flags = a.flags })
unfolding activity_from_json
activity_from_json-to_json_listening blank a c cs n t f =
    rw (listening_to_json a c cs n t, n, read_flags a.flags f) refl
