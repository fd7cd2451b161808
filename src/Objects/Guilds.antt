-- ===== src/Objects/Guilds.antt =====
-- Guilds, channels, members and invitations as JSON: include/aegis/gateway/objects/guild.hpp, channel.hpp,
-- guild_member.hpp and invite.hpp. An identifier that is missing where it is not tested for is undefined, which
-- is `none` too.
pub mod Invited
use aegis_cpp.Common.{
  ℕ, ◌==◌, Bool, true, false, not, List, [], Option, none, some, ◌>>=◌, if◌then◌else◌,
}
use aegis_cpp.Common.Int.{ℤ, pos, ◌==ℤ◌, to_signed}
use aegis_cpp.Common.Text.{Text, bytes, to_text, is_empty_text}
use aegis_cpp.Json.{
  Value, Fields, null, boolean, number, string, object, end, field, at, signed, snowflake_to_json,
  snowflake_from_json, overwrite_from_json, overwrite_to_json,
}
use aegis_cpp.Channel.{PermissionOverwrite}
use aegis_cpp.Guild.{Emoji, VoiceState, Role}
use aegis_cpp.Objects.{
  given, low_word, text_or, int32_or, bool_or, object_or, read_list, read_items, read_values,
  field_if, list_field,
}
use aegis_cpp.Objects.Things.{
  snowflake, snowflake_in, GatewayUser, user_from_json, user_to_json, emoji_from_json,
  role_from_json, voice_state_from_json,
}

-- channel, whose deprecated identifier is the same.
pub record GatewayChannel : Type 0 where
  pub id : ℕ
  pub type : ℤ
  pub guild_id : ℕ
  pub position : ℤ
  pub permission_overwrites : List PermissionOverwrite
  pub name : Text
  pub topic : Text
  pub nsfw : Bool
  pub last_message_id : ℕ
  pub bitrate : ℤ
  pub user_limit : ℤ
  pub icon : Text
  pub owner_id : ℕ
  pub application_id : ℕ
  pub parent_id : ℕ
  pub recipients : List GatewayUser

unfoldable pub channel_from_json : Value → Option GatewayChannel
unfolding user_from_json overwrite_from_json
channel_from_json j = do
  value ← at (bytes "id") j
  id ← snowflake value
  value_type ← at (bytes "type") j
  type ← int32_or (pos 0) (some value_type)
  guild_id ← object_or snowflake 0 (given (bytes "guild_id") j)
  position ← int32_or (pos 0) (given (bytes "position") j)
  permission_overwrites ← read_list overwrite_from_json (given (bytes "permission_overwrites") j)
  name ← text_or [] (given (bytes "name") j)
  topic ← text_or [] (given (bytes "topic") j)
  nsfw ← bool_or false (given (bytes "nsfw") j)
  last_message_id ← object_or snowflake 0 (given (bytes "last_message_id") j)
  bitrate ← int32_or (pos 0) (given (bytes "bitrate") j)
  user_limit ← int32_or (pos 0) (given (bytes "user_limit") j)
  icon ← text_or [] (given (bytes "icon") j)
  owner_id ← object_or snowflake 0 (given (bytes "owner_id") j)
  application_id ← object_or snowflake 0 (given (bytes "application_id") j)
  parent_id ← object_or snowflake 0 (given (bytes "parent_id") j)
  recipients ← read_list user_from_json (given (bytes "recipients") j)
  some (record {
    id = id;
    type = type;
    guild_id = guild_id;
    position = position;
    permission_overwrites = permission_overwrites;
    name = name;
    topic = topic;
    nsfw = nsfw;
    last_message_id = last_message_id;
    bitrate = bitrate;
    user_limit = user_limit;
    icon = icon;
    owner_id = owner_id;
    application_id = application_id;
    parent_id = parent_id;
    recipients = recipients;
  })

-- The owner is written if there is a bitrate.
unfoldable pub channel_to_json : GatewayChannel → Value
unfolding field_if list_field overwrite_to_json user_to_json
channel_to_json c = object (
    field_if (not (c.id == 0)) (bytes "id") (string (to_text (signed c.id))) (
      field (bytes "type") (number c.type) (
        field_if (not (c.guild_id == 0)) (bytes "guild_id") (snowflake_to_json c.guild_id) (
          field_if (not (c.position ==ℤ pos 0)) (bytes "position") (number c.position) (
            field (bytes "name") (string c.name) (
              field_if (not (is_empty_text c.topic)) (bytes "topic") (string c.topic) (
                field_if c.nsfw (bytes "nsfw") (boolean c.nsfw) (
                  field_if (not (c.last_message_id == 0)) (bytes "last_message_id")
                    (snowflake_to_json c.last_message_id)
                    (field_if (not (c.bitrate ==ℤ pos 0)) (bytes "bitrate") (number c.bitrate) (
                      field_if (not (c.user_limit ==ℤ pos 0)) (bytes "user_limit")
                        (number c.user_limit)
                        (field_if (not (is_empty_text c.icon)) (bytes "icon") (string c.icon) (
                          field_if (not (c.bitrate ==ℤ pos 0)) (bytes "owner_id")
                            (snowflake_to_json c.owner_id)
                            (field_if (not (c.application_id == 0)) (bytes "application_id")
                              (snowflake_to_json c.application_id)
                              (field_if (not (c.parent_id == 0)) (bytes "parent_id")
                                (snowflake_to_json c.parent_id)
                                (list_field overwrite_to_json (bytes "permission_overwrites")
                                  c.permission_overwrites
                                  (list_field user_to_json (bytes "recipients") c.recipients
                                    end))))))))))))))))

pub record GuildMember : Type 0 where
  pub user : GatewayUser
  pub guild_id : ℕ
  pub nick : Text
  pub roles : List ℕ
  pub joined_at : Text
  pub deaf : Bool
  pub mute : Bool

unfoldable pub guild_member_from_json : Value → Option GuildMember
unfolding user_from_json
guild_member_from_json j = do
  value ← at (bytes "user") j
  user ← user_from_json value
  nick ← text_or [] (given (bytes "nick") j)
  guild_id ← object_or snowflake 0 (given (bytes "guild_id") j)
  roles ← read_list snowflake (given (bytes "roles") j)
  joined_at ← text_or [] (at (bytes "joined_at") j)
  deaf ← bool_or false (at (bytes "deaf") j)
  mute ← bool_or false (at (bytes "mute") j)
  some (record {
    user = user;
    nick = nick;
    guild_id = guild_id;
    roles = roles;
    joined_at = joined_at;
    deaf = deaf;
    mute = mute;
  })

-- A number of 8 bits
abbrev pub int8_or : ℤ → Option Value → Option ℤ
int8_or old none = some old
int8_or old (some (number z)) = some (to_signed 8 (low_word 8 z))
int8_or old (some (boolean b)) = some (pos (if b then 1 else 0))
int8_or old (some _) = none

abbrev pub text_of : Value → Option Text
text_of v = text_or [] (some v)

-- guild: the fields that are read; a presence has nothing that is read.
pub record GatewayGuild : Type 0 where
  pub id : ℕ
  pub name : Text
  pub icon : Text
  pub splash : Text
  pub owner_id : ℕ
  pub region : Text
  pub afk_channel_id : ℕ
  pub afk_timeout : ℤ
  pub embed_enabled : Bool
  pub embed_channel_id : ℕ
  pub verification_level : ℤ
  pub default_message_notifications : ℤ
  pub mfa_level : ℤ
  pub joined_at : Text
  pub large : Bool
  pub unavailable : Bool
  pub member_count : ℤ
  pub roles : List Role
  pub members : List GuildMember
  pub channels : List GatewayChannel
  pub emojis : List Emoji
  pub voice_states : List VoiceState
  pub features : List Text

unfoldable pub guild_from_json : Value → Option GatewayGuild
unfolding role_from_json guild_member_from_json channel_from_json emoji_from_json
    voice_state_from_json
guild_from_json j = do
  id ← object_or snowflake 0 (given (bytes "id") j)
  name ← text_or [] (given (bytes "name") j)
  icon ← text_or [] (given (bytes "icon") j)
  splash ← text_or [] (given (bytes "splash") j)
  owner_id ← object_or snowflake 0 (given (bytes "owner_id") j)
  region ← text_or [] (given (bytes "region") j)
  afk_channel_id ← object_or snowflake 0 (given (bytes "afk_channel_id") j)
  afk_timeout ← int32_or (pos 0) (given (bytes "afk_timeout") j)
  embed_enabled ← bool_or false (given (bytes "embed_enabled") j)
  embed_channel_id ← object_or snowflake 0 (given (bytes "embed_channel_id") j)
  verification_level ← int8_or (pos 0) (given (bytes "verification_level") j)
  default_message_notifications ← int8_or (pos 0) (given (bytes "default_message_notifications") j)
  mfa_level ← int8_or (pos 0) (given (bytes "mfa_level") j)
  joined_at ← text_or [] (given (bytes "joined_at") j)
  large ← bool_or false (given (bytes "large") j)
  unavailable ← bool_or false (given (bytes "unavailable") j)
  member_count ← int32_or (pos 0) (given (bytes "member_count") j)
  roles ← read_list role_from_json (at (bytes "roles") j)
  members ← read_list guild_member_from_json (at (bytes "members") j)
  channels ← read_list channel_from_json (at (bytes "channels") j)
  emojis ← read_list emoji_from_json (at (bytes "emojis") j)
  voice_states ← read_list voice_state_from_json (at (bytes "voice_states") j)
  features ← read_list text_of (at (bytes "features") j)
  some (record {
    id = id;
    name = name;
    icon = icon;
    splash = splash;
    owner_id = owner_id;
    region = region;
    afk_channel_id = afk_channel_id;
    afk_timeout = afk_timeout;
    embed_enabled = embed_enabled;
    embed_channel_id = embed_channel_id;
    verification_level = verification_level;
    default_message_notifications = default_message_notifications;
    mfa_level = mfa_level;
    joined_at = joined_at;
    large = large;
    unavailable = unavailable;
    member_count = member_count;
    roles = roles;
    members = members;
    channels = channels;
    emojis = emojis;
    voice_states = voice_states;
    features = features;
  })

pub record Invite : Type 0 where
  pub code : Text
  pub guild : ℕ
  pub channel : ℕ
  pub inviter : ℕ
  pub target_user : ℕ
  pub target_type : ℤ
  pub approximate_presence_count : ℤ
  pub approximate_member_count : ℤ
  pub uses : ℤ
  pub max_uses : ℤ
  pub max_age : ℤ
  pub temporary : Bool
  pub created_at : Text

-- Over the object `old`, whose counts are not initialised.
unfoldable pub invite_from_json : Invite → Value → Option Invite
invite_from_json old j = do
  value ← at (bytes "code") j
  code ← text_of value
  guild ← object_or snowflake_in 0 (given (bytes "guild") j)
  channel ← object_or snowflake_in 0 (given (bytes "channel") j)
  inviter ← object_or snowflake_in 0 (given (bytes "inviter") j)
  target_user ← object_or snowflake_in 0 (given (bytes "target_user") j)
  target_type ← int32_or (pos 1) (given (bytes "target_user_type") j)
  approximate_presence_count ← int32_or (pos 0) (given (bytes "approximate_presence_count") j)
  approximate_member_count ← int32_or (pos 0) (given (bytes "approximate_member_count") j)
  uses ← int32_or old.uses (given (bytes "uses") j)
  max_uses ← int32_or old.max_uses (given (bytes "max_uses") j)
  max_age ← int32_or old.max_age (given (bytes "max_age") j)
  temporary ← bool_or false (given (bytes "temporary") j)
  created_at ← text_or [] (given (bytes "created_at") j)
  some (record {
    code = code;
    guild = guild;
    channel = channel;
    inviter = inviter;
    target_user = target_user;
    target_type = target_type;
    approximate_presence_count = approximate_presence_count;
    approximate_member_count = approximate_member_count;
    uses = uses;
    max_uses = max_uses;
    max_age = max_age;
    temporary = temporary;
    created_at = created_at;
  })

unfoldable pub invite_to_json : Invite → Value
invite_to_json v = object (
    field (bytes "code") (string v.code) (
      field (bytes "guild") (snowflake_to_json v.guild) (
        field (bytes "channel") (snowflake_to_json v.channel) (
          field (bytes "inviter") (snowflake_to_json v.inviter) (
            field (bytes "target_user") (snowflake_to_json v.target_user) (
              field (bytes "target_user_type") (number v.target_type) (
                field (bytes "approximate_presence_count") (number v.approximate_presence_count) (
                  field (bytes "approximate_member_count") (number v.approximate_member_count) (
                    field (bytes "uses") (number v.uses) (
                      field (bytes "max_uses") (number v.max_uses) (
                        field (bytes "max_age") (number v.max_age) (
                          field (bytes "temporary") (boolean v.temporary)
                            (field (bytes "created_at") (string v.created_at) end)))))))))))))
