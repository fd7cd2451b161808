-- ===== src/Members.antt =====
-- The members of a guild: the functions of include/aegis/impl/guild.cpp and
-- include/aegis/impl/user.cpp that join users and guilds. A user lives at an address; the guild has
-- the addresses of its members, the user its data for each guild. `none` as a result is undefined
-- behaviour: a pointer that dangles, or `erase` of the end of a vector.
pub mod Roles
pub mod Leaving
pub mod Load
mod Examples
use aegis_cpp.Common.{
  ℕ, ◌==◌, ◌>>=◌, Bool, true, false, ◌&&◌, List, [], ◌∷◌, ◌++◌, Option, none, some, if◌then◌else◌,
  contains,
}
use aegis_cpp.Common.Map.{Map, lookup, erase, assign, emplace, is_some}
use aegis_cpp.User.{User, GuildInfo, guild_info, find_info}
use aegis_cpp.Channel.{Channel}
use aegis_cpp.Guild.{Guild, Role}
use aegis_cpp.Guild.Access.{get_permissions}
use Prim.Native.String.{String}

-- user::get_guild_info, get_guild_info_nolock, _join and _join_nolock, which are the same function:
-- the entry of the guild, made at the end of the vector if there is none, and the user behind it.
abbrev pub get_guild_info : ℕ → User → GuildInfo × User
get_guild_info g u = elim (find_info g u.guilds) [
  | none ↦ (guild_info g, record u { guilds = u.guilds ++ guild_info g ∷ [] })
  | some i ↦ (i, u)
]

abbrev pub keep {ℓ} : {A : Type ℓ} → A → Option (List A) → Option (List A)
keep a none = none
keep a (some xs) = some (a ∷ xs)

-- The first entry of the guild goes; `none` is `erase` of the end.
pub erase_info : ℕ → List GuildInfo → Option (List GuildInfo)
erase_info g [] = none
erase_info g (i ∷ is) = let rest = erase_info g is in if i.id == g then some is else keep i rest

-- user::leave
unfoldable pub leave : ℕ → User → Option User
unfolding erase_info
leave g u = do is ← erase_info g u.guilds; some (record u { guilds = is })

-- user::get_name: the nickname for a guild, or the empty text.
abbrev pub get_name : ℕ → User → String × User
get_name g u =
    let (i, v) = get_guild_info g u in elim i.nickname [ none ↦ ("", v) | some n ↦ (n, v) ]

-- guild::find_member and _find_member
abbrev pub find_member : ℕ → Guild → Option ℕ
find_member id g = lookup id g.members

-- guild::find_channel and _find_channel by identifier
abbrev pub find_channel : ℕ → Guild → Option ℕ
find_channel id g = lookup id g.channels

-- guild::find_role by identifier: the entry of the map.
abbrev pub find_role : ℕ → Guild → Option Role
find_role id g = lookup id g.roles

-- guild::_add_member and _add_member_nolock of the user at address p
abbrev pub add_member : ℕ → User → Guild → Guild
add_member p u g = record g { members = emplace u.member_id p g.members }

-- The part of `_remove_member` for a member at address p.
abbrev pub drop_member : ℕ → ℕ → Guild → Map User → Option (Guild × Map User)
drop_member id p g users = do
  u ← lookup p users
  v ← leave g.guild_id u
  some (record g { members = erase id g.members }, assign p v users)

-- guild::_remove_member
unfoldable pub remove_member : ℕ → Guild → Map User → Option (Guild × Map User)
remove_member id g users = elim (find_member id g) [
  | none ↦ some (g, users)
  | some p ↦ drop_member id p g users
]

-- guild::member_has_role, which makes the entry of the guild if the member has none.
unfoldable pub member_has_role : ℕ → ℕ → Guild → Map User → Option (Bool × Map User)
member_has_role id role g users = elim (find_member id g) [
  | none ↦ some (false, users)
  | some p ↦ do
    u ← lookup p users
    let (i, v) = get_guild_info g.guild_id u
    some (contains role i.roles, assign p v users)
]

-- guild::_load_role with the role that the JSON object stands for
abbrev pub load_role : Role → Guild → Guild
load_role r g = record g { roles = assign r.id r g.roles }

-- What `_remove_role` does with one member. It erases the role from `g`, which is a copy, so that
-- only the entry that `get_guild_info` may make stays.
abbrev pub visit_member : ℕ → ℕ → User → User
visit_member role guild u = (get_guild_info guild u).1

-- The loop of `_remove_role` over the members.
unfoldable pub visit_members : ℕ → ℕ → Map ℕ → Map User → Option (Map User)
visit_members role guild [] users = some users
visit_members role guild ((_, p) ∷ ms) users = do
  u ← lookup p users
  visit_members role guild ms (assign p (visit_member role guild u) users)

-- guild::_remove_role
unfoldable pub remove_role : ℕ → Guild → Map User → Option (Guild × Map User)
unfolding visit_members
remove_role role g users = do
  vs ← visit_members role g.guild_id g.members users
  some (record g { roles = erase role g.roles }, vs)

-- guild::get_permissions of two identifiers; the heap has the channels too.
abbrev pub permissions_of : ℕ → ℕ → Guild → Map User → Map Channel → ℕ
permissions_of member channel g users channels =
    if is_some (find_member member g) && is_some (find_channel channel g)
    then get_permissions g (find_member member g >>= λ p. lookup p users)
        (find_channel channel g >>= λ p. lookup p channels)
    else 0
