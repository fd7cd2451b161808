-- ===== src/Cache.antt =====
-- The caches of include/aegis/core.hpp and include/aegis/impl/core.cpp: users, channels and guilds by
-- identifier, with the maps of stale objects. An object is a std::unique_ptr in one of the maps; its
-- address is what the functions hand out. `objects` holds the objects that are not destroyed.
pub mod Pointers
pub mod Lookups
pub mod Sound
pub mod Counts
mod Examples
use aegis_cpp.Common.{ℕ, suc, List, [], ◌∷◌, Option, none, some, if◌then◌else◌}
use aegis_cpp.Common.Map.{Map, lookup, erase, assign, emplace, is_some}
use aegis_cpp.User.{User, new_user}
use aegis_cpp.Channel.{Channel, new_channel}
use aegis_cpp.Guild.{Guild, new_guild}

pub record Cache {ℓ} (V : Type ℓ) : Type ℓ where
  pub live : Map ℕ
  pub stale : Map ℕ
  pub objects : Map V
  pub fresh : ℕ

module _ {ℓ} {V : Type ℓ} where
  abbrev pub empty : Cache V
  empty = record { live = []; stale = []; objects = []; fresh = 0 }

  -- `find` in the map, and the address of the object.
  abbrev pub find : ℕ → Cache V → Option ℕ
  find id c = lookup id c.live

  abbrev pub insert : ℕ → V → Cache V → Cache V
  insert id v c = record c {
    live = emplace id c.fresh c.live;
    objects = assign c.fresh v c.objects;
    fresh = suc c.fresh;
  }

  -- The body of the `*_create` functions: the address of the object that is there, or of a new one.
  abbrev pub create : ℕ → V → Cache V → ℕ × Cache V
  create id v c = elim (find id c) [ none ↦ (c.fresh, insert id v c) | some p ↦ (p, c) ]

  -- `stale.emplace(it->first, std::move(it->second)); live.erase(it);`. If the key is in `stale`,
  -- the object of the entry goes with the entry, or with the node that `emplace` throws away.
  abbrev pub retire : ℕ → ℕ → Cache V → Cache V
  retire id p c = record c {
    live = erase id c.live;
    stale = emplace id p c.stale;
    objects = if is_some (lookup id c.stale) then erase p c.objects else c.objects;
  }

  -- The body of the `remove_*` functions.
  abbrev pub remove : ℕ → Cache V → Cache V
  remove id c = elim (find id c) [ none ↦ c | some p ↦ retire id p c ]

  -- The object behind an address; `none` is a pointer that dangles.
  abbrev pub object : ℕ → Cache V → Option V
  object p c = lookup p c.objects

pub record Caches : Type 0 where
  pub users : Cache User
  pub channels : Cache Channel
  pub guilds : Cache Guild

abbrev pub find_user : ℕ → Caches → Option ℕ
find_user id c = find id c.users

abbrev pub user_create : ℕ → Caches → ℕ × Caches
user_create id c = let (p, us) = create id (new_user id) c.users in (p, record c { users = us })

abbrev pub remove_member : ℕ → Caches → Caches
remove_member id c = record c { users = remove id c.users }

abbrev pub find_channel : ℕ → Caches → Option ℕ
find_channel id c = find id c.channels

-- A channel that is created so belongs to no guild, until a gateway event sets it.
abbrev pub channel_create : ℕ → Caches → ℕ × Caches
channel_create id c =
    let (p, cs) = create id (new_channel id 0) c.channels in (p, record c { channels = cs })

abbrev pub remove_channel : ℕ → Caches → Caches
remove_channel id c = record c { channels = remove id c.channels }

abbrev pub find_guild : ℕ → Caches → Option ℕ
find_guild id c = find id c.guilds

abbrev pub guild_create : ℕ → ℕ → Caches → ℕ × Caches
guild_create id shard_id c =
    let (p, gs) = create id (new_guild shard_id id) c.guilds in (p, record c { guilds = gs })

abbrev pub remove_guild : ℕ → Caches → Caches
remove_guild id c = record c { guilds = remove id c.guilds }
