-- ===== src/Objects/Things/Kept.antt =====
-- What is read of an object of a guild that was written.
use aegis_cpp.Common.{ℕ, ◌<◌, ◌^◌, ◌≡◌, refl, ap, ◌∙◌, false, [], none, some, arith}
use aegis_cpp.Common.Int.{pos}
use aegis_cpp.Common.Text.{to_text, stoll, stoul}
use aegis_cpp.Common.Text.Numbers.{stoll-to_text, stoul-to_text, as_unsigned}
use aegis_cpp.Permission.{permission}
use aegis_cpp.Guild.{Emoji, VoiceState, Role}
use aegis_cpp.Json.{string, signed, snowflake_to_json, snowflake_from_json, permission_to_json}
use aegis_cpp.Json.Ids.{pattern_of-signed, in_range-signed, permission_from_json-to_json}
use aegis_cpp.Objects.{IsInt32, low_word}
use aegis_cpp.Objects.Things.{
  emoji_from_json, emoji_to_json, voice_state_from_json, voice_state_to_json, role_from_json,
  role_to_json, GatewayUser, user_from_json, user_to_json, Attachment, attachment_from_json,
  attachment_to_json,
}

-- Words of 64 bits, and numbers of 32 and of 16.
abbrev pub IsWord : ℕ → Type 0
IsWord n = n < 2 ^ 64

stoll-signed : (n : ℕ) → IsWord n → stoll (to_text (signed n)) ≡ some (signed n)
stoll-signed n h = stoll-to_text (signed n) ∙ in_range-signed n h

as_unsigned-signed : (n : ℕ) → IsWord n → as_unsigned (signed n) ≡ some n
as_unsigned-signed n h = ground arith

stoul-signed : (n : ℕ) → IsWord n → stoul (to_text (signed n)) ≡ some n
stoul-signed n h = stoul-to_text (signed n) ∙ as_unsigned-signed n h

snowflake-to_text :
    (n : ℕ) → IsWord n → snowflake_from_json (string (to_text (signed n))) 0 ≡ some n
unfolding snowflake_from_json
snowflake-to_text n h = rw (stoll-signed n h) (ap some (pattern_of-signed n h))

low_word-color : (n : ℕ) → n < 2 ^ 32 → low_word 32 (pos n) ≡ n
low_word-color n h = omega arith

low_word-position : (n : ℕ) → n < 2 ^ 16 → low_word 16 (pos n) ≡ n
low_word-position n h = omega arith

-- An emoji that is written as JSON cannot be read again: its user is written as a number, of which the reader
-- takes a field, so that the JSON library throws.
pub emoji_from_json-to_json : (e : Emoji) → IsWord e.id → emoji_from_json (emoji_to_json e) ≡ none
unfolding emoji_from_json emoji_to_json snowflake_to_json
emoji_from_json-to_json e h = rw (snowflake-to_text e.id h) refl

-- A voice state of words is read again but for its channel.
pub voice_state_from_json-to_json :
    (v : VoiceState)
    → IsWord v.guild_id
    → IsWord v.user_id
    → voice_state_from_json (voice_state_to_json v) ≡ some (record v { channel_id = 0 })
unfolding voice_state_from_json voice_state_to_json snowflake_to_json snowflake_from_json
voice_state_from_json-to_json v g u =
    rw (pattern_of-signed v.guild_id g, pattern_of-signed v.user_id u) refl

-- A user with words for its identifiers is read again but for its avatar.
pub user_from_json-to_json :
    (u : GatewayUser)
    → IsWord u.id
    → IsWord u.guild_id
    → user_from_json (user_to_json u) ≡ some (record u { avatar = [] })
unfolding user_from_json user_to_json
user_from_json-to_json u i g = rw (stoul-signed u.id i, stoul-signed u.guild_id g) refl

-- A role is read again, with its identifier for the deprecated one, but for whether it is managed, if its numbers
-- have the widths of their types.
pub role_from_json-to_json :
    (r : Role)
    → IsWord r.id
    → IsWord r.permission.allow_permissions
    → r.color < 2 ^ 32
    → r.position < 2 ^ 16
    → role_from_json (role_to_json r) ≡ some (record r { role_id = r.id; managed = false })
unfolding role_from_json role_to_json permission_to_json
role_from_json-to_json r i a c p =
    rw
      (
        snowflake-to_text r.id i,
        permission_from_json-to_json r.permission (permission 0) a,
        low_word-color r.color c,
        low_word-position r.position p,
      )
      refl

-- An attachment is read again, if its numbers have the widths of their types.
pub attachment_from_json-to_json :
    (a : Attachment)
    → IsWord a.id
    → IsInt32 a.size
    → IsInt32 a.height
    → IsInt32 a.width
    → attachment_from_json (attachment_to_json a) ≡ some a
unfolding attachment_from_json attachment_to_json snowflake_to_json snowflake_from_json
attachment_from_json-to_json a i s h w = rw (pattern_of-signed a.id i, s, h, w) refl
