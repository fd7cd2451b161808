-- ===== src/Json/Examples.antt =====
-- Runs of the conversions to and from JSON.
use aegis_cpp.Common.{
  ℕ, suc, ◌+◌, ◌-◌, ◌^◌, ◌<◌, ◌≡◌, refl, Option, none, some, arith, Bool, true, false,
}
use aegis_cpp.Common.Text.{bytes}
use aegis_cpp.Permission.{Permission, permission}
use aegis_cpp.Channel.{PermissionOverwrite, OverwriteType}
use aegis_cpp.Json.{string, permission_to_json}

abbrev highest : Permission
highest = permission (2 ^ 63 + 5)

negative : permission_to_json highest ≡ string (bytes "-9223372036854775803")
unfolding permission_to_json aegis_cpp.Common.Text.to_text
negative = refl

abbrev ow : PermissionOverwrite
ow = record { id = 2 ^ 63 + 1; type = OverwriteType.user; allow = 2048; deny = 8 }
