-- ===== src/Objects/Guilds/Invited.antt =====
-- An invitation that was written cannot be read.
use aegis_cpp.Common.{◌≡◌, refl, none}
use aegis_cpp.Json.{snowflake_to_json}
use aegis_cpp.Objects.Guilds.{Invite, invite_from_json, invite_to_json}

-- The guild is written as a number, of which the reader takes a field, so that the JSON library throws.
pub invite_from_json-to_json : (v old : Invite) → invite_from_json old (invite_to_json v) ≡ none
unfolding invite_from_json invite_to_json snowflake_to_json
invite_from_json-to_json v old = refl
