-- ===== src/Json.antt =====
-- The values of the JSON library, as far as the code builds and reads them, and the conversions of
-- include/aegis/impl/snowflake.cpp, include/aegis/impl/permission.cpp and
-- include/aegis/gateway/objects/permission_overwrite.hpp. An `int64_t` with 64 bits is kept as the
-- pattern of its bits. `none` is an exception, or `operator[]` of a constant object on a key that it
-- does not have, which is undefined.
pub mod Ids
pub mod Print
mod Examples
use aegis_cpp.Common.{
  ℕ, suc, ◌-◌, ◌^◌, ◌&&◌, Bool, true, false, List, [], ◌∷◌, Option, none, some, if◌then◌else◌,
  ◌>>=◌,
}
use aegis_cpp.Common.Int.{ℤ, pos, negsuc, to_signed}
use aegis_cpp.Common.Text.{Text, bytes, to_text, stoll, eq_text}
use aegis_cpp.Permission.{Permission, permission}
use aegis_cpp.Channel.{PermissionOverwrite, OverwriteType}

mutual
  pub data Value : Type 0 where
    null : Value
    boolean : Bool → Value
    number : ℤ → Value
    string : Text → Value
    array : Items → Value
    object : Fields → Value

  pub data Items : Type 0 where
    nil : Items
    cons : Value → Items → Items

  pub data Fields : Type 0 where
    end : Fields
    field : Text → Value → Fields → Fields

abbrev pub get_field : Text → Fields → Option Value
get_field k end = none
get_field k (field j v fs) = if eq_text j k then some v else get_field k fs

-- `j.at(key)` and the constant `j[key]`.
abbrev pub at : Text → Value → Option Value
at k (object fs) = get_field k fs
at k _ = none

-- static_cast<int64_t> of a pattern, and back.
abbrev pub signed : ℕ → ℤ
signed = to_signed 64

abbrev pub pattern_of : ℤ → ℕ
pattern_of (pos n) = n
pattern_of (negsuc n) = 2 ^ 64 - suc n

-- to_json of a snowflake: a number.
unfoldable pub snowflake_to_json : ℕ → Value
snowflake_to_json s = number (signed s)

-- from_json of a snowflake that was `old`.
unfoldable pub snowflake_from_json : Value → ℕ → Option ℕ
snowflake_from_json (string t) old = do z ← stoll t; some (pattern_of z)
snowflake_from_json (number z) old = some (pattern_of z)
snowflake_from_json _ old = some old

-- to_json of a permission: a text.
unfoldable pub permission_to_json : Permission → Value
permission_to_json p = string (to_text (signed p.allow_permissions))

-- from_json of a permission that was `old`.
unfoldable pub permission_from_json : Value → Permission → Option Permission
permission_from_json (string t) old = do z ← stoll t; some (permission (pattern_of z))
permission_from_json (number z) old = some (permission (pattern_of z))
permission_from_json _ old = some old

-- j.get<int64_t>() of a value that must be a number.
abbrev pub get_int64 : Value → Option ℕ
get_int64 (number z) = some (pattern_of z)
get_int64 _ = none

abbrev pub type_text : OverwriteType → Text
type_text OverwriteType.role = bytes "role"
type_text OverwriteType.user = bytes "member"

-- to_json of an overwrite.
unfoldable pub overwrite_to_json : PermissionOverwrite → Value
unfolding snowflake_to_json
overwrite_to_json o = object (
    field (bytes "id") (snowflake_to_json o.id) (
      field (bytes "type") (string (type_text o.type)) (
        field (bytes "allow") (number (signed o.allow))
          (field (bytes "deny") (number (signed o.deny)) end))))

-- `(j == "role") ? Role : User`
abbrev pub type_of : Value → OverwriteType
type_of (string t) = if eq_text t (bytes "role") then OverwriteType.role else OverwriteType.user
type_of _ = OverwriteType.user

abbrev pub type_or : OverwriteType → Option Value → OverwriteType
type_or t none = t
type_or t (some v) = type_of v

-- from_json of an overwrite, on one that was made by its default initialisers.
unfoldable pub overwrite_from_json : Value → Option PermissionOverwrite
unfolding snowflake_from_json
overwrite_from_json j = do
  i ← at (bytes "id") j
  id ← snowflake_from_json i 0
  a ← at (bytes "allow") j
  allow ← get_int64 a
  d ← at (bytes "deny") j
  deny ← get_int64 d
  some (record {
    id = id;
    type = type_or OverwriteType.user (at (bytes "type") j);
    allow = allow;
    deny = deny;
  })
