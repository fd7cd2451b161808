-- ===== src/Members/Load.antt =====
-- user::_load_nolock of include/aegis/impl/user.cpp: a user, and its data for a guild, take over what a
-- gateway event says of a member. Of the object, what is missing or null is `none`; the texts that are read
-- as numbers stay texts, since that may throw. `joined_at` is what from_iso8601 reads.
pub mod Joined
pub mod Data
mod Examples
use aegis_cpp.Common.{
  ℕ, ◌%◌, ◌^◌, ◌==◌, Bool, true, false, List, [], ◌∷◌, ◌++◌, Option, none, some, if◌then◌else◌,
}
use aegis_cpp.Common.Int.{ℤ}
use aegis_cpp.Common.Text.{Text, bytes, stoi, stoul}
use aegis_cpp.Json.{Value, null, string, object, get_field, pattern_of}
use aegis_cpp.User.{User, GuildInfo}
use aegis_cpp.Guild.{Guild}
use aegis_cpp.Error.{Error}
use aegis_cpp.Members.{get_guild_info, add_member}
use Prim.Native.String.{String}

-- obj["user"]; `bot` is `none` only if it is missing.
pub record UserObject : Type 0 where
  pub id : ℕ
  pub username : Option String
  pub avatar : Option String
  pub discriminator : Option Text
  pub bot : Option Value

pub record MemberObject : Type 0 where
  pub user : UserObject
  pub deaf : Option Bool
  pub mute : Option Bool
  pub joined_at : Option ℕ
  pub roles : Option (List Value)
  pub nick : Option String

abbrev pub or_else {ℓ} : {A : Type ℓ} → A → Option A → A
or_else a none = a
or_else a (some b) = b

abbrev pub as_role : Option Value → Option ℕ
as_role (some (string t)) = stoul t
as_role _ = none

-- The roles that are added to those of the member, and whether no exception came.
pub record Roles : Type 0 where
  pub roles : List ℕ
  pub ended : Bool

abbrev pub push_role : Option ℕ → Roles → Roles
push_role none r = record { roles = []; ended = false }
push_role (some id) r = record r { roles = id ∷ r.roles }

-- The loop over `roles`; an entry that is neither an object nor a text is passed over.
unfoldable pub read_roles : List Value → Roles
read_roles [] = record { roles = []; ended = true }
read_roles (v ∷ vs) = let rest = read_roles vs in by_kind v rest
  where
    by_kind : Value → Roles → Roles
    by_kind (object f) r = push_role (as_role (get_field (bytes "id") f)) r
    by_kind (string t) r = push_role (stoul t) r
    by_kind _ r = r

-- The data of the member, and whether no exception came.
pub record LoadedInfo : Type 0 where
  pub info : GuildInfo
  pub ended : Bool

-- `if (nick) nickname = nick; else nickname.reset();`, if nothing was thrown before.
abbrev put_roles : ℕ → MemberObject → Option (List Value) → GuildInfo → LoadedInfo
put_roles guild_id j none i = record { info = record i { nickname = j.nick }; ended = true }
put_roles guild_id j (some vs) i =
    let r = read_roles vs in
    record {
      info = record i {
        roles = guild_id ∷ r.roles;
        nickname = if r.ended then j.nick else i.nickname;
      };
      ended = r.ended;
    }

unfoldable pub load_info : ℕ → MemberObject → GuildInfo → LoadedInfo
unfolding read_roles
load_info guild_id j i = put_roles guild_id j j.roles (record i {
  deaf = or_else i.deaf j.deaf;
  mute = or_else i.mute j.mute;
  joined_at = or_else i.joined_at j.joined_at;
})

-- A write to the entry of a guild through the reference that get_guild_info gave.
unfoldable pub put_info : GuildInfo → List GuildInfo → List GuildInfo
put_info i [] = []
put_info i (k ∷ ks) = let rest = put_info i ks in if k.id == i.id then i ∷ ks else k ∷ rest

-- The user, the guild, and whether no exception came.
pub record LoadedMember : Type 0 where
  pub user : User
  pub guild : Guild
  pub ended : Bool

-- `user["bot"].is_null() ? false : true`
abbrev pub bot_of : Bool → Option Value → Bool
bot_of b none = b
bot_of b (some null) = false
bot_of b (some _) = true

-- The fields of the user; the discriminator is read behind the name and the avatar.
abbrev pub named : UserObject → User → User
named j u = record u {
  member_id = j.id;
  name = or_else u.name j.username;
  avatar = or_else u.avatar j.avatar;
}

abbrev pub discriminated : Option Text → User → Option User
discriminated none u = some u
discriminated (some t) u = converted (stoi t)
  where
    converted : Option ℤ → Option User
    converted none = none
    converted (some z) = some (record u { discriminator = pattern_of z % 2 ^ 16 })

unfoldable pub load_user : UserObject → User → Option User
load_user j u = with_bot (discriminated j.discriminator (named j u))
  where
    with_bot : Option User → Option User
    with_bot none = none
    with_bot (some v) = some (record v { is_bot = bot_of v.is_bot j.bot })

-- The part for a guild, with the user at address p.
unfoldable pub join_guild : MemberObject → ℕ → User → Guild → LoadedMember
unfolding load_info put_info
join_guild j p u g =
    let (i, v) = get_guild_info g.guild_id u in
    let r = load_info g.guild_id j i in
    record {
      user = record v { guilds = put_info r.info v.guilds };
      guild = add_member p u g;
      ended = r.ended;
    }

-- _load_nolock with a guild and `self_add`, for the user at address p. An exception is caught and written to
-- the log; what was stored before stays.
unfoldable pub load_nolock : MemberObject → ℕ → User → Guild → LoadedMember
unfolding load_user join_guild
load_nolock j p u g = joined (load_user j.user u)
  where
    joined : Option User → LoadedMember
    joined none = record { user = named j.user u; guild = g; ended = false }
    joined (some v) = join_guild j p v g
