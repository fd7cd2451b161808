-- ===== src/Objects/Things.antt =====
-- Objects of a guild as JSON: include/aegis/gateway/objects/emoji.hpp, voice_state.hpp, role.hpp, user.hpp and
-- attachment.hpp. An identifier that is missing where it is not tested for is undefined, which is `none` too.
pub mod Kept
use aegis_cpp.Common.{ℕ, Bool, true, false, List, [], Option, none, some, ◌>>=◌}
use aegis_cpp.Common.Int.{ℤ, pos}
use aegis_cpp.Common.Text.{Text, bytes, to_text, stoul}
use aegis_cpp.Permission.{Permission, permission}
use aegis_cpp.Guild.{Emoji, VoiceState, Role}
use aegis_cpp.Json.{
  Value, boolean, number, string, array, object, end, field, at, signed, snowflake_to_json,
  snowflake_from_json, permission_to_json, permission_from_json,
}
use aegis_cpp.Objects.{
  given, text_or, int32_or, word_or, bool_or, object_or, read_list, read_items, read_values,
  field_if, list_field, items,
}

-- A snowflake that is read into a new one
abbrev pub snowflake : Value → Option ℕ
snowflake v = snowflake_from_json v 0

-- `j[key]["id"]`
abbrev pub snowflake_in : Value → Option ℕ
snowflake_in v = at (bytes "id") v >>= snowflake

-- std::stoull(j.get<std::string>())
abbrev pub stoull_of : Value → Option ℕ
stoull_of (string t) = stoul t
stoull_of _ = none

unfoldable pub emoji_from_json : Value → Option Emoji
unfolding read_items read_values
emoji_from_json j = do
  value ← at (bytes "id") j
  id ← snowflake value
  name ← text_or [] (given (bytes "name") j)
  user ← object_or snowflake_in 0 (given (bytes "user") j)
  require_colons ← bool_or false (given (bytes "require_colons") j)
  managed ← bool_or false (given (bytes "managed") j)
  animated ← bool_or false (given (bytes "animated") j)
  roles ← read_list snowflake (given (bytes "roles") j)
  some (record {
    id = id;
    name = name;
    user = user;
    require_colons = require_colons;
    managed = managed;
    animated = animated;
    roles = roles;
  })

unfoldable pub emoji_to_json : Emoji → Value
unfolding list_field
emoji_to_json e = object (
    field (bytes "id") (string (to_text (signed e.id))) (
      field (bytes "name") (string e.name) (
        field (bytes "user") (snowflake_to_json e.user) (
          field (bytes "require_colons") (boolean e.require_colons) (
            field (bytes "managed") (boolean e.managed) (
              field (bytes "animated") (boolean e.animated)
                (list_field snowflake_to_json (bytes "roles") e.roles end)))))))

unfoldable pub voice_state_from_json : Value → Option VoiceState
voice_state_from_json j = do
  guild_id ← object_or snowflake 0 (given (bytes "guild_id") j)
  channel_id ← object_or snowflake 0 (given (bytes "channel_id") j)
  user_id ← object_or snowflake 0 (given (bytes "user_id") j)
  session_id ← text_or [] (given (bytes "session_id") j)
  deaf ← bool_or false (given (bytes "deaf") j)
  mute ← bool_or false (given (bytes "mute") j)
  self_deaf ← bool_or false (given (bytes "self_deaf") j)
  self_mute ← bool_or false (given (bytes "self_mute") j)
  suppress ← bool_or false (given (bytes "suppress") j)
  self_stream ← bool_or false (given (bytes "self_stream") j)
  some (record {
    guild_id = guild_id;
    channel_id = channel_id;
    user_id = user_id;
    session_id = session_id;
    deaf = deaf;
    mute = mute;
    self_deaf = self_deaf;
    self_mute = self_mute;
    suppress = suppress;
    self_stream = self_stream;
  })

-- The channel is written under another name than it is read. `NULL` is a number.
unfoldable pub voice_state_to_json : VoiceState → Value
voice_state_to_json v = object (
    field (bytes "guild_id") (snowflake_to_json v.guild_id) (
      field (bytes "chanel_id") (snowflake_to_json v.channel_id) (
        field (bytes "user_id") (snowflake_to_json v.user_id) (
          field (bytes "member") (number (pos 0)) (
            field (bytes "session_id") (string v.session_id) (
              field (bytes "deaf") (boolean v.deaf) (
                field (bytes "mute") (boolean v.mute) (
                  field (bytes "self_deaf") (boolean v.self_deaf) (
                    field (bytes "self_mute") (boolean v.self_mute) (
                      field (bytes "suppress") (boolean v.suppress)
                        (field (bytes "self_stream") (boolean v.self_stream) end)))))))))))

-- `managed` is not read.
unfoldable pub role_from_json : Value → Option Role
role_from_json j = do
  color ← word_or 32 0 (given (bytes "color") j)
  id ← object_or snowflake 0 (given (bytes "id") j)
  name ← text_or [] (given (bytes "name") j)
  permission ←
      object_or (λ v. permission_from_json v (permission 0)) (permission 0)
        (given (bytes "permissions") j)
  position ← word_or 16 0 (given (bytes "position") j)
  hoist ← bool_or false (given (bytes "hoist") j)
  mentionable ← bool_or false (given (bytes "mentionable") j)
  some (record {
    color = color;
    id = id;
    name = name;
    permission = permission;
    position = position;
    hoist = hoist;
    mentionable = mentionable;
    role_id = id;
    managed = false;
  })

unfoldable pub role_to_json : Role → Value
role_to_json r = object (
    field (bytes "color") (number (pos r.color)) (
      field (bytes "id") (string (to_text (signed r.id))) (
        field (bytes "name") (string r.name) (
          field (bytes "permissions") (permission_to_json r.permission) (
            field (bytes "position") (number (pos r.position)) (
              field (bytes "hoist") (boolean r.hoist)
                (field (bytes "mentionable") (boolean r.mentionable) end)))))))

pub record GatewayUser : Type 0 where
  pub id : ℕ
  pub guild_id : ℕ
  pub username : Text
  pub discriminator : Text
  pub avatar : Text
  pub is_bot : Bool
  pub mfa_enabled : Bool
  pub verified : Bool

unfoldable pub user_from_json : Value → Option GatewayUser
unfolding stoul
user_from_json j = do
  value ← at (bytes "id") j
  id ← stoull_of value
  guild_id ← object_or stoull_of 0 (given (bytes "guild_id") j)
  username ← text_or [] (given (bytes "username") j)
  discriminator ← text_or [] (given (bytes "discriminator") j)
  avatar ← text_or [] (given (bytes "avatar") j)
  is_bot ← bool_or false (given (bytes "bot") j)
  mfa_enabled ← bool_or false (given (bytes "mfa_enabled") j)
  verified ← bool_or false (given (bytes "verified") j)
  some (record {
    id = id;
    guild_id = guild_id;
    username = username;
    discriminator = discriminator;
    avatar = avatar;
    is_bot = is_bot;
    mfa_enabled = mfa_enabled;
    verified = verified;
  })

unfoldable pub user_to_json : GatewayUser → Value
user_to_json u = object (
    field (bytes "id") (string (to_text (signed u.id))) (
      field (bytes "guild_id") (string (to_text (signed u.guild_id))) (
        field (bytes "username") (string u.username) (
          field (bytes "discriminator") (string u.discriminator) (
            field (bytes "bot") (boolean u.is_bot) (
              field (bytes "mfa_enabled") (boolean u.mfa_enabled)
                (field (bytes "verified") (boolean u.verified) end)))))))

pub record Attachment : Type 0 where
  pub id : ℕ
  pub filename : Text
  pub size : ℤ
  pub url : Text
  pub proxy_url : Text
  pub height : ℤ
  pub width : ℤ

unfoldable pub attachment_from_json : Value → Option Attachment
attachment_from_json j = do
  id ← object_or snowflake 0 (at (bytes "id") j)
  filename ← text_or [] (at (bytes "filename") j)
  size ← int32_or (pos 0) (at (bytes "size") j)
  url ← text_or [] (at (bytes "url") j)
  proxy_url ← text_or [] (at (bytes "proxy_url") j)
  height ← int32_or (pos 0) (given (bytes "height") j)
  width ← int32_or (pos 0) (given (bytes "width") j)
  some (record {
    id = id;
    filename = filename;
    size = size;
    url = url;
    proxy_url = proxy_url;
    height = height;
    width = width;
  })

unfoldable pub attachment_to_json : Attachment → Value
attachment_to_json a = object (
    field (bytes "id") (snowflake_to_json a.id) (
      field (bytes "filename") (string a.filename) (
        field (bytes "size") (number a.size) (
          field (bytes "url") (string a.url) (
            field (bytes "proxy_url") (string a.proxy_url) (
              field (bytes "height") (number a.height)
                (field (bytes "width") (number a.width) end)))))))
