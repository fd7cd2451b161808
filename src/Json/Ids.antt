-- ===== src/Json/Ids.antt =====
-- What the conversions to JSON write is read back.
use aegis_cpp.Common.{ℕ, ◌^◌, ◌<◌, ◌≡◌, refl, ap, ◌∙◌, some, arith}
use aegis_cpp.Common.Text.{in_range}
use aegis_cpp.Common.Text.Numbers.{stoll-to_text}
use aegis_cpp.Permission.{Permission, permission}
use aegis_cpp.Channel.{PermissionOverwrite, OverwriteType}
use aegis_cpp.Json.{
  string, type_of, type_text, signed, pattern_of, snowflake_to_json, snowflake_from_json,
  permission_to_json, permission_from_json, overwrite_to_json, overwrite_from_json,
}

pub pattern_of-signed : (n : ℕ) → n < 2 ^ 64 → pattern_of (signed n) ≡ n
pattern_of-signed n h = ground arith

pub in_range-signed : (n : ℕ) → n < 2 ^ 64 → in_range (signed n) ≡ some (signed n)
in_range-signed n h = ground arith

-- A permission of 64 bits is written as a decimal text and read back as it was, whatever the object
-- held that it is read into, also where it is negative as an `int64_t`.
pub permission_from_json-to_json :
    (p old : Permission)
    → p.allow_permissions < 2 ^ 64
    → permission_from_json (permission_to_json p) old ≡ some p
unfolding permission_to_json permission_from_json
permission_from_json-to_json p old h =
    rw (stoll-to_text (signed p.allow_permissions) ∙ in_range-signed p.allow_permissions h)
      (ap (λ n. some (permission n)) (pattern_of-signed p.allow_permissions h))

pub snowflake_from_json-to_json :
    (s old : ℕ) → s < 2 ^ 64 → snowflake_from_json (snowflake_to_json s) old ≡ some s
unfolding snowflake_to_json snowflake_from_json
snowflake_from_json-to_json s old h = ap some (pattern_of-signed s h)

type_of-type_text : (t : OverwriteType) → type_of (string (type_text t)) ≡ t
type_of-type_text OverwriteType.role = refl
type_of-type_text OverwriteType.user = refl

-- An overwrite of words of 64 bits is read back from the JSON that is written of it.
pub overwrite_from_json-to_json :
    (o : PermissionOverwrite)
    → o.id < 2 ^ 64
    → o.allow < 2 ^ 64
    → o.deny < 2 ^ 64
    → overwrite_from_json (overwrite_to_json o) ≡ some o
unfolding overwrite_to_json overwrite_from_json
overwrite_from_json-to_json o hi ha hd = λ i. some (record {
  id = pattern_of-signed o.id hi i;
  type = type_of-type_text o.type i;
  allow = pattern_of-signed o.allow ha i;
  deny = pattern_of-signed o.deny hd i;
})
