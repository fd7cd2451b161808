-- ===== src/Events/Channels.antt =====
-- The handlers of the events of channels in include/aegis/impl/core.cpp, and dm_channel_create.
pub mod Kept
use aegis_cpp.Common.{
  ℕ, ◌==◌, Bool, true, false, List, [], ◌∷◌, Option, none, some, ◌>>=◌, if◌then◌else◌,
}
use aegis_cpp.Common.Map.{Map, lookup, assign, erase, emplace}
use aegis_cpp.Common.Text.{Text, stoul}
use aegis_cpp.Json.{Value, snowflake_from_json}
use aegis_cpp.User.{User}
use aegis_cpp.Channel.{Channel}
use aegis_cpp.Guild.{Guild}
use aegis_cpp.Error.{Error}
use aegis_cpp.Cache.{
  Cache, Caches, object, find_user, find_guild, find_channel, channel_create, remove_channel,
}
use aegis_cpp.Channel.Load.{ChannelObject, Loaded, load_with_guild}
use aegis_cpp.Events.{Handled, Callback, both, put_guild}

-- The object of the event; `guild_id` is `none` if it is missing or null, and `recipient` is the text of the
-- identifier of the first recipient.
pub record ChannelEvent : Type 0 where
  pub guild_id : Option ℕ
  pub channel : ChannelObject
  pub recipient : Text

abbrev pub quiet : Caches → Handled
quiet c = record { caches = c; callbacks = []; error = none }

-- An exception that leaves the handler.
abbrev pub thrown : Error → Caches → Handled
thrown e c = record { caches = c; callbacks = []; error = some e }

abbrev pub put_channel : ℕ → Channel → Caches → Caches
put_channel p ch c = record c {
  channels = record c.channels { objects = assign p ch c.channels.objects };
}

-- guild::_remove_channel
abbrev pub drop_channel : ℕ → Guild → Guild
drop_channel id g = record g { channels = erase id g.channels }

-- `_guild->channels.emplace(channel_id, _channel);`
abbrev pub list_channel : ℕ → ℕ → Guild → Guild
list_channel id p g = record g { channels = emplace id p g.channels }

-- What is done with a channel that was loaded: `adopt` is what the handler stores in it.
abbrev pub listed : (Channel → Channel) → ℕ → ℕ → ℕ → Guild → Loaded → Caches → Handled
listed adopt id pc pg g r c = by_error r.error
  where
    by_error : Option Error → Handled
    by_error (some e) = thrown e (put_channel pc r.channel c)
    by_error none = both (put_guild pg (list_channel id pc g) (put_channel pc (adopt r.channel) c))

-- The channel at pc of the guild at pg.
abbrev pub load_channel : (Channel → Channel) → ChannelObject → ℕ → ℕ → Caches → Option Handled
load_channel adopt j pc pg c = do
  ch ← object pc c.channels
  g ← object pg c.guilds
  some (listed adopt j.id pc pg g (load_with_guild g.guild_id j ch) c)

-- The channel is looked up, or made, behind the guild.
abbrev pub in_guild : (Channel → Channel) → ChannelObject → Option ℕ → Caches → Option Handled
in_guild adopt j none c = some (quiet c)
in_guild adopt j (some pg) c = let (pc, d) = channel_create j.id c in load_channel adopt j pc pg d

-- The fields of a direct message. An exception is caught and written to the log.
abbrev pub dm_channel : ChannelObject → Channel → Channel
dm_channel j ch = with_last j.last_message_id (record (named j.name) { type = j.type })
  where
    named : Option Text → Channel
    named none = ch
    named (some n) = record ch { name = n }

    converted : Option ℕ → Channel → Channel
    converted none k = k
    converted (some id) k = record k { last_message_id = id }

    with_last : Option Value → Channel → Channel
    with_last none k = k
    with_last (some v) k = converted (snowflake_from_json v k.last_message_id) k

abbrev pub dm_channel_create : ChannelObject → Caches → Option Caches
dm_channel_create j c =
    let (pc, d) = channel_create j.id c in
    do ch ← object pc d.channels; some (put_channel pc (dm_channel j ch) d)

-- `if (user) user->set_dm_id(dm_id);`
abbrev pub set_dm_id : Option ℕ → ℕ → Caches → Option Caches
set_dm_id none dm_id c = some c
set_dm_id (some pu) dm_id c = do
  u ← object pu c.users
  some (record c {
    users = record c.users { objects = assign pu (record u { dm_id = dm_id }) c.users.objects };
  })

-- channel_type::DirectMessage
abbrev pub direct_message : ℕ
direct_message = 1

-- The exception of std::stoull is not one of the library; it is passed on as a general error.
abbrev pub set_recipient : Option ℕ → ℕ → Caches → Option Handled
set_recipient none dm_id c = some (thrown Error.general c)
set_recipient (some user_id) dm_id c = do d ← set_dm_id (find_user user_id c) dm_id c; some (both d)

unfoldable pub ws_channel_create : ChannelEvent → Caches → Option Handled
ws_channel_create e c = by_guild e.guild_id
  where
    by_guild : Option ℕ → Option Handled
    by_guild (some guild_id) =
        in_guild (λ ch. record ch { guild_id = guild_id; guild = find_guild guild_id c }) e.channel
          (find_guild guild_id c) c
    by_guild none = do
      d ← dm_channel_create e.channel c
      if e.channel.type == direct_message
          then set_recipient (stoul e.recipient) e.channel.id d
          else some (both d)

-- The guild of the channel is not set.
unfoldable pub ws_channel_update : ChannelEvent → Caches → Option Handled
ws_channel_update e c = by_guild e.guild_id
  where
    by_guild : Option ℕ → Option Handled
    by_guild (some guild_id) = in_guild (λ ch. ch) e.channel (find_guild guild_id c) c
    by_guild none = do d ← dm_channel_create e.channel c; some (both d)

abbrev pub delete_channel : ℕ → Option ℕ → Option ℕ → Caches → Option Handled
delete_channel id none pc c = some (quiet c)
delete_channel id (some pg) none c = some (quiet c)
delete_channel id (some pg) (some pc) c = do
  g ← object pg c.guilds
  some (both (remove_channel id (put_guild pg (drop_channel id g) c)))

unfoldable pub ws_channel_delete : ChannelEvent → Caches → Option Handled
ws_channel_delete e c = by_guild e.guild_id
  where
    by_guild : Option ℕ → Option Handled
    by_guild (some guild_id) =
        delete_channel e.channel.id (find_guild guild_id c) (find_channel e.channel.id c) c
    by_guild none = some (both c)
