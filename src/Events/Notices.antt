-- ===== src/Events/Notices.antt =====
-- The handlers of include/aegis/impl/core.cpp that read an event and pass it to the callbacks, without a change of
-- the caches: what the callback of the event gets, or `none` if reading throws, when no callback is called. The
-- records are those of include/aegis/gateway/events/, without the reference to the shard.
use aegis_cpp.Common.{ℕ, List, [], Option, some, ◌>>=◌}
use aegis_cpp.Common.Text.{Text, bytes}
use aegis_cpp.Json.{Value, at}
use aegis_cpp.Guild.{Emoji}
use aegis_cpp.Objects.{given, text_or, object_or, read_list}
use aegis_cpp.Objects.Things.{snowflake, GatewayUser, user_from_json, emoji_from_json}
use aegis_cpp.Objects.Guilds.{text_of}

-- An identifier that is not tested for
abbrev pub needed : Text → Value → Option ℕ
needed k j = at k j >>= snowflake

pub record GuildBan : Type 0 where
  pub guild_id : ℕ
  pub user : GatewayUser

-- ws_guild_ban_add and ws_guild_ban_remove, which read the same.
unfoldable pub ws_guild_ban_add : Value → Option GuildBan
unfolding user_from_json
ws_guild_ban_add j = do
  guild_id ← needed (bytes "guild_id") j
  user ← at (bytes "user") j >>= user_from_json
  some (record { guild_id = guild_id; user = user })

pub record GuildEmojis : Type 0 where
  pub guild_id : ℕ
  pub emojis : List Emoji

-- The emojis of the cached guild stay as they are.
unfoldable pub ws_guild_emojis_update : Value → Option GuildEmojis
unfolding emoji_from_json
ws_guild_emojis_update j = do
  guild_id ← needed (bytes "guild_id") j
  emojis ← read_list emoji_from_json (given (bytes "emojis") j)
  some (record { guild_id = guild_id; emojis = emojis })

unfoldable pub ws_guild_integrations_update : Value → Option ℕ
ws_guild_integrations_update j = needed (bytes "guild_id") j

pub record VoiceServer : Type 0 where
  pub token : Text
  pub guild_id : ℕ
  pub endpoint : Text

unfoldable pub ws_voice_server_update : Value → Option VoiceServer
ws_voice_server_update j = do
  token ← at (bytes "token") j >>= text_of
  guild_id ← needed (bytes "guild_id") j
  endpoint ← text_or [] (given (bytes "endpoint") j)
  some (record { token = token; guild_id = guild_id; endpoint = endpoint })

pub record MessageReaction : Type 0 where
  pub user_id : ℕ
  pub channel_id : ℕ
  pub message_id : ℕ
  pub guild_id : ℕ
  pub emoji : Emoji

-- ws_message_reaction_add and ws_message_reaction_remove, which read the same.
unfoldable pub ws_message_reaction_add : Value → Option MessageReaction
unfolding emoji_from_json
ws_message_reaction_add j = do
  user_id ← needed (bytes "user_id") j
  channel_id ← needed (bytes "channel_id") j
  message_id ← needed (bytes "message_id") j
  guild_id ← object_or snowflake 0 (given (bytes "guild_id") j)
  emoji ← at (bytes "emoji") j >>= emoji_from_json
  some (record {
    user_id = user_id;
    channel_id = channel_id;
    message_id = message_id;
    guild_id = guild_id;
    emoji = emoji;
  })

pub record ReactionsRemoved : Type 0 where
  pub channel_id : ℕ
  pub message_id : ℕ
  pub guild_id : ℕ

-- The guild is not tested for, as it is for one reaction.
unfoldable pub ws_message_reaction_remove_all : Value → Option ReactionsRemoved
ws_message_reaction_remove_all j = do
  channel_id ← needed (bytes "channel_id") j
  message_id ← needed (bytes "message_id") j
  guild_id ← needed (bytes "guild_id") j
  some (record { channel_id = channel_id; message_id = message_id; guild_id = guild_id })

pub record ChannelPins : Type 0 where
  pub channel_id : ℕ
  pub last_pin_timestamp : Text

unfoldable pub ws_channel_pins_update : Value → Option ChannelPins
ws_channel_pins_update j = do
  channel_id ← needed (bytes "channel_id") j
  last_pin_timestamp ← text_or [] (given (bytes "last_pin_timestamp") j)
  some (record { channel_id = channel_id; last_pin_timestamp = last_pin_timestamp })

pub record Webhooks : Type 0 where
  pub guild_id : ℕ
  pub channel_id : ℕ

unfoldable pub ws_webhooks_update : Value → Option Webhooks
ws_webhooks_update j = do
  guild_id ← needed (bytes "guild_id") j
  channel_id ← needed (bytes "channel_id") j
  some (record { guild_id = guild_id; channel_id = channel_id })

pub record DeletedMessages : Type 0 where
  pub channel_id : ℕ
  pub guild_id : ℕ
  pub ids : List ℕ

unfoldable pub ws_message_delete_bulk : Value → Option DeletedMessages
ws_message_delete_bulk j = do
  channel_id ← needed (bytes "channel_id") j
  guild_id ← needed (bytes "guild_id") j
  ids ← read_list snowflake (at (bytes "ids") j)
  some (record { channel_id = channel_id; guild_id = guild_id; ids = ids })
