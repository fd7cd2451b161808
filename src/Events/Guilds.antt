-- ===== src/Events/Guilds.antt =====
-- The handlers of include/aegis/impl/core.cpp for the events of whole guilds, of lists of members, and of users:
-- ws_guild_create, ws_guild_update, ws_guild_members_chunk, ws_presence_update, ws_user_update and
-- ws_voice_state_update.
use aegis_cpp.Common.{ℕ, ◌%◌, ◌^◌, Bool, List, [], ◌∷◌, Option, none, some, ◌>>=◌, if◌then◌else◌}
use aegis_cpp.Common.Int.{ℤ, pos}
use aegis_cpp.Common.Text.{Text, bytes, to_text, stoi}
use aegis_cpp.Json.{Value, object, field, end, string, number, pattern_of}
use aegis_cpp.User.{User}
use aegis_cpp.Guild.{VoiceState}
use aegis_cpp.Error.{Error}
use aegis_cpp.Cache
use aegis_cpp.Cache.{Caches, find_guild, user_create, guild_create}
use aegis_cpp.Members.Load.{MemberObject, or_else}
use aegis_cpp.Events.{Handled, Callback, both, put_guild, load_into}
use aegis_cpp.Events.Channels.{quiet, thrown}
use aegis_cpp.Events.Loading.{
  GuildObject, Loading, load, load_voicestate, put_user, set_status, status_of,
}
use Prim.Native.String.{String}

-- What is stored behind `_guild->_load`, and the callbacks, unless an exception leaves the handler.
abbrev pub loaded : ℕ → Loading → Handled
loaded pg r = by_error r.error
  where
    by_error : Option Error → Handled
    by_error none = both (put_guild pg r.guild r.caches)
    by_error (some e) = thrown e (put_guild pg r.guild r.caches)

-- `_guild->_load(result["d"], _shard)` for the guild at pg
abbrev pub load_at : ℕ → ℕ → GuildObject → Caches → Option Handled
load_at pg shard_id j c = do
  g ← Cache.object pg c.guilds
  r ← load shard_id j g c
  some (loaded pg r)

-- The request for all members of a guild; `dump` writes the keys in their order.
unfoldable pub member_request : ℕ → Value
member_request guild_id = object (
    field (bytes "d")
      (object (
        field (bytes "guild_id") (string (to_text (pos guild_id)))
          (field (bytes "limit") (number (pos 0)) (field (bytes "query") (string []) end))))
      (field (bytes "op") (number (pos 8)) end))

-- The messages that a handler sends over the websocket, besides what it leaves.
abbrev pub request_members : Bool → ℕ → Handled → Handled × List Value
request_members bulk guild_id h = by_error h.error
  where
    by_error : Option Error → Handled × List Value
    by_error none = (h, if bulk then member_request guild_id ∷ [] else [])
    by_error (some e) = (h, [])

unfoldable pub ws_guild_create : Bool → ℕ → GuildObject → Caches → Option (Handled × List Value)
unfolding load member_request
ws_guild_create bulk shard_id j c =
    let (pg, d) = guild_create j.id shard_id c in
    do h ← load_at pg shard_id j d; some (request_members bulk j.id h)

abbrev pub raw_only : Caches → Handled
raw_only c = record { caches = c; callbacks = Callback.raw ∷ []; error = none }

unfoldable pub ws_guild_update : ℕ → GuildObject → Caches → Option Handled
unfolding load
ws_guild_update shard_id j c = elim (find_guild j.id c) [
  | none ↦ some (raw_only c)
  | some pg ↦ load_at pg shard_id j c
]

-- The loop over the members for the guild at pg
unfoldable pub load_chunk : List MemberObject → ℕ → Caches → Option Caches
load_chunk [] pg c = some c
load_chunk (j ∷ js) pg c =
    let (pu, d) = user_create j.user.id c in do e ← load_into j pu pg d; load_chunk js pg e

unfoldable pub ws_guild_members_chunk : ℕ → List MemberObject → Caches → Option Handled
unfolding load_chunk
ws_guild_members_chunk guild_id js c = elim (find_guild guild_id c) [
  | none ↦ some (quiet c)
  | some pg ↦ do d ← load_chunk js pg c; some (both d)
]

-- The user is made even if the guild is not known.
unfoldable pub ws_presence_update : ℕ → MemberObject → Text → Caches → Option Handled
unfolding status_of
ws_presence_update guild_id j status c =
    let (pu, d) = user_create j.user.id c in
    elim (find_guild guild_id d) [
      | none ↦ some (quiet d)
      | some pg ↦ do
        e ← load_into j pu pg d
        u ← Cache.object pu e.users
        some (both (put_user pu (set_status status u) e))
    ]

-- The object of ws_user_update; what is missing or null is `none`.
pub record UserUpdate : Type 0 where
  pub id : ℕ
  pub username : Option String
  pub avatar : Option String
  pub discriminator : Option Text
  pub mfa_enabled : Option Bool
  pub bot : Option Bool

abbrev pub update_names : UserUpdate → User → User
update_names j u = record u { name = or_else u.name j.username; avatar = or_else u.avatar j.avatar }

abbrev pub update_flags : UserUpdate → User → User
update_flags j u = record u {
  mfa_enabled = or_else u.mfa_enabled j.mfa_enabled;
  is_bot = or_else u.is_bot j.bot;
}

-- The user at pu; std::stoi may throw, which leaves the handler.
abbrev pub update_user : UserUpdate → ℕ → Caches → User → Handled
update_user j pu c u = by_discriminator j.discriminator
  where
    converted : Option ℤ → Handled
    converted none = thrown Error.general (put_user pu (update_names j u) c)
    converted (some z) = both (
        put_user pu
          (record (update_flags j (update_names j u)) { discriminator = pattern_of z % 2 ^ 16 }) c)

    by_discriminator : Option Text → Handled
    by_discriminator none = both (put_user pu (update_flags j (update_names j u)) c)
    by_discriminator (some t) = converted (stoi t)

unfoldable pub ws_user_update : UserUpdate → Caches → Option Handled
ws_user_update j c =
    let (pu, d) = user_create j.id c in do u ← Cache.object pu d.users; some (update_user j pu d u)

-- A guild that is not known is made.
unfoldable pub ws_voice_state_update : ℕ → ℕ → ℕ → Option VoiceState → Caches → Option Handled
unfolding load_voicestate
ws_voice_state_update shard_id guild_id user_id v c =
    let (pg, d) = guild_create guild_id shard_id c in
    do g ← Cache.object pg d.guilds; some (both (put_guild pg (load_voicestate user_id v g) d))
