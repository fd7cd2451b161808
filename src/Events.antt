-- ===== src/Events.antt =====
-- The handlers of gateway events of include/aegis/impl/core.cpp that change the members and the roles of a
-- guild, or take the guild away. The state is the caches; a result of `none` is a call through a null pointer
-- or one that dangles. What the handlers of the program are called with is a list, the first call first.
pub mod Gone
pub mod Joining
pub mod Channels
pub mod Loading
pub mod Guilds
pub mod Dispatch
pub mod Messages
pub mod Notices
pub mod Ready
pub mod Listed
pub mod Sound
mod Examples
use aegis_cpp.Common.{ℕ, Bool, true, false, List, [], ◌∷◌, Option, none, some, ◌>>=◌, if◌then◌else◌}
use aegis_cpp.Common.Map.{Map, lookup, assign}
use aegis_cpp.User.{User}
use aegis_cpp.Guild.{Guild, Role}
use aegis_cpp.Cache.{Cache, Caches, object, find_user, user_create, find_guild, remove_guild}
use aegis_cpp.Error.{Error}
use aegis_cpp.Members
use aegis_cpp.Members.Load.{MemberObject, LoadedMember, load_nolock}

-- The handlers that are set: the raw one, and the one of the event.
pub data Callback : Type 0 where
  raw event : Callback

-- What a handler leaves; `error` is that of an exception that leaves the handler.
pub record Handled : Type 0 where
  pub caches : Caches
  pub callbacks : List Callback
  pub error : Option Error

abbrev pub both : Caches → Handled
both c = record { caches = c; callbacks = raw ∷ event ∷ []; error = none }

abbrev pub put_guild : ℕ → Guild → Caches → Caches
put_guild p g c = record c { guilds = record c.guilds { objects = assign p g c.guilds.objects } }

abbrev pub put_users : Map User → Caches → Caches
put_users us c = record c { users = record c.users { objects = us } }

-- `_member->_load_nolock(_guild, result["d"], _shard, true, false)` through the two pointers.
abbrev pub load_into : MemberObject → ℕ → ℕ → Caches → Option Caches
load_into j pu pg c = do
  u ← object pu c.users
  g ← object pg c.guilds
  let r = load_nolock j pu u g
  some (put_guild pg r.guild (put_users (assign pu r.user c.users.objects) c))

-- The lock of `_guild` is taken without a test of the pointer.
unfoldable pub ws_guild_member_add : ℕ → MemberObject → Caches → Option Handled
ws_guild_member_add guild_id j c =
    let (pu, d) = user_create j.user.id c in
    do pg ← find_guild guild_id d; e ← load_into j pu pg d; some (both e)

unfoldable pub ws_guild_member_update : ℕ → MemberObject → Caches → Option Handled
ws_guild_member_update guild_id j c =
    let (pu, d) = user_create j.user.id c in
    elim (find_guild guild_id d) [
      | none ↦ some (record { caches = d; callbacks = raw ∷ []; error = none })
      | some pg ↦ do e ← load_into j pu pg d; some (both e)
    ]

unfoldable pub ws_guild_member_remove : ℕ → ℕ → Caches → Option Handled
ws_guild_member_remove guild_id member_id c = elim (find_guild guild_id c) [
  | none ↦ some (both c)
  | some pg ↦ do
    g ← object pg c.guilds
    r ← Members.remove_member member_id g c.users.objects
    some (both (put_guild pg r.0 (put_users r.1 c)))
]

-- ws_guild_role_create and ws_guild_role_update, which do not test the pointer of the guild.
unfoldable pub ws_guild_role_create : ℕ → Role → Caches → Option Handled
ws_guild_role_create guild_id role c = do
  pg ← find_guild guild_id c
  g ← object pg c.guilds
  some (both (put_guild pg (Members.load_role role g) c))

unfoldable pub ws_guild_role_delete : ℕ → ℕ → Caches → Option Handled
ws_guild_role_delete guild_id role_id c = elim (find_guild guild_id c) [
  | none ↦ some (both c)
  | some pg ↦ do
    g ← object pg c.guilds
    r ← Members.remove_role role_id g c.users.objects
    some (both (put_guild pg r.0 (put_users r.1 c)))
]

-- The guild at an address that was found, behind the test of an outage.
abbrev pub delete_found : ℕ → Option ℕ → Caches → Option Handled
delete_found guild_id none c = some (record { caches = c; callbacks = raw ∷ []; error = none })
delete_found guild_id (some pg) c = do
  g ← object pg c.guilds
  some (both (remove_guild guild_id (put_guild pg (record g { unavailable = false }) c)))

-- A guild that is unavailable has an outage: nothing is done, and nobody is called.
unfoldable pub ws_guild_delete : ℕ → Option Bool → Caches → Option Handled
ws_guild_delete guild_id (some true) c = some (record { caches = c; callbacks = []; error = none })
ws_guild_delete guild_id _ c = delete_found guild_id (find_guild guild_id c) c
