-- ===== src/Events/Dispatch.antt =====
-- The events that change the caches, and the handler of include/aegis/impl/core.cpp that each of them goes to.
-- An event has what its handler takes, with the number of the shard that it came from where that matters; a message
-- that changes also has whether its author is given, and `ready` what the bot knew of itself before.
use aegis_cpp.Common.{ℕ, Bool, List, Option, none, some, ◌>>=◌}
use aegis_cpp.Common.Text.{Text}
use aegis_cpp.Guild.{Role, VoiceState}
use aegis_cpp.Cache
use aegis_cpp.Cache.{Caches, empty}
use aegis_cpp.Members.Load.{MemberObject}
use aegis_cpp.Events.{
  Handled, both, ws_guild_member_add, ws_guild_member_update, ws_guild_member_remove,
  ws_guild_role_create, ws_guild_role_delete, ws_guild_delete,
}
use aegis_cpp.Events.Channels.{
  ChannelEvent, ws_channel_create, ws_channel_update, ws_channel_delete,
}
use aegis_cpp.Events.Channels.{thrown}
use aegis_cpp.Events.Loading.{GuildObject}
use aegis_cpp.Events.Messages.{Message, ws_message_create, ws_message_update}
use aegis_cpp.Events.Ready.{Bot, ReadyObject, Ready, process_ready}
use aegis_cpp.Error.{Error}
use aegis_cpp.Events.Guilds.{
  UserUpdate, ws_guild_create, ws_guild_update, ws_guild_members_chunk, ws_presence_update,
  ws_user_update, ws_voice_state_update,
}

pub data Event : Type 0 where
  guild_create : Bool → ℕ → GuildObject → Event
  guild_update : ℕ → GuildObject → Event
  guild_delete : ℕ → Option Bool → Event
  guild_member_add guild_member_update : ℕ → MemberObject → Event
  guild_member_remove : ℕ → ℕ → Event
  guild_members_chunk : ℕ → List MemberObject → Event
  guild_role_create guild_role_update : ℕ → Role → Event
  guild_role_delete : ℕ → ℕ → Event
  channel_create channel_update channel_delete : ChannelEvent → Event
  presence_update : ℕ → MemberObject → Text → Event
  user_update : UserUpdate → Event
  voice_state_update : ℕ → ℕ → ℕ → Option VoiceState → Event
  typing_start : ℕ → ℕ → Event
  message_create : Message → Event
  message_update : Message → Bool → Event
  message_delete : ℕ → Event
  ready : ℕ → ReadyObject → Bot → Event

-- The handler makes the channel, then the user, if they are not known.
unfoldable pub ws_typing_start : ℕ → ℕ → Caches → Option Handled
ws_typing_start channel_id user_id c =
    some (both (Cache.user_create user_id (Cache.channel_create channel_id c).1).1)

unfoldable pub ws_message_delete : ℕ → Caches → Option Handled
ws_message_delete channel_id c = some (both (Cache.channel_create channel_id c).1)

-- ws_ready, of which an exception of process_ready leaves the handler.
abbrev pub ready_handled : Ready → Handled
ready_handled r = by_error r.error
  where
    by_error : Option Error → Handled
    by_error none = both r.caches
    by_error (some e) = thrown e r.caches

unfoldable pub ws_ready : ℕ → ReadyObject → Bot → Caches → Option Handled
unfolding process_ready
ws_ready shard_id j b c = do r ← process_ready shard_id j b c; some (ready_handled r)

unfoldable pub handle : Event → Caches → Option Handled
unfolding ws_typing_start ws_message_delete ws_ready
handle (Event.guild_create bulk shard_id j) c = do r ← ws_guild_create bulk shard_id j c; some r.0
handle (Event.guild_update shard_id j) c = ws_guild_update shard_id j c
handle (Event.guild_delete id unavailable) c = ws_guild_delete id unavailable c
handle (Event.guild_member_add id j) c = ws_guild_member_add id j c
handle (Event.guild_member_update id j) c = ws_guild_member_update id j c
handle (Event.guild_member_remove id member_id) c = ws_guild_member_remove id member_id c
handle (Event.guild_members_chunk id js) c = ws_guild_members_chunk id js c
handle (Event.guild_role_create id role) c = ws_guild_role_create id role c
handle (Event.guild_role_update id role) c = ws_guild_role_create id role c
handle (Event.guild_role_delete id role_id) c = ws_guild_role_delete id role_id c
handle (Event.channel_create e) c = ws_channel_create e c
handle (Event.channel_update e) c = ws_channel_update e c
handle (Event.channel_delete e) c = ws_channel_delete e c
handle (Event.presence_update id j status) c = ws_presence_update id j status c
handle (Event.user_update j) c = ws_user_update j c
handle (Event.voice_state_update shard_id id user_id v) c =
    ws_voice_state_update shard_id id user_id v c
handle (Event.typing_start channel_id user_id) c = ws_typing_start channel_id user_id c
handle (Event.message_create j) c = ws_message_create j c
handle (Event.message_update j authored) c = ws_message_update j authored c
handle (Event.ready shard_id j b) c = ws_ready shard_id j b c
handle (Event.message_delete channel_id) c = ws_message_delete channel_id c

abbrev pub no_caches : Caches
no_caches = record { users = empty; channels = empty; guilds = empty }
