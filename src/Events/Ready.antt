-- ===== src/Events/Ready.antt =====
-- core::process_ready of include/aegis/impl/core.cpp: the bot learns its own user, and the guilds it is in. A guild
-- that is available is loaded under a lock that `_load` takes again; that is undefined, so that the result is
-- `none`.
pub mod Own
mod Examples
use aegis_cpp.Common.{
  ℕ, ◌%◌, ◌^◌, Bool, true, false, List, [], ◌∷◌, ◌++◌, Option, none, some, ◌>>=◌, if◌then◌else◌,
}
use aegis_cpp.Common.Int.{ℤ, to_signed}
use aegis_cpp.Common.Text.{Text, bytes, to_text, stoi, is_empty_text}
use aegis_cpp.Json.{pattern_of, signed}
use aegis_cpp.User.{User, online}
use aegis_cpp.Error.{Error}
use aegis_cpp.Cache
use aegis_cpp.Cache.{Caches, user_create, guild_create}
use aegis_cpp.Members.Load.{or_else}
use aegis_cpp.Events.Loading.{GuildObject, put_user}
use Prim.Native.String.{String}

-- What the bot knows of itself; `self` is the pointer to its user.
pub record Bot : Type 0 where
  pub self : Option ℕ
  pub discriminator : ℤ
  pub user_id : ℕ
  pub username : String
  pub mfa_enabled : Bool
  pub mention : Text

-- The object of the event, without the session, which goes to the shard.
pub record ReadyObject : Type 0 where
  pub discriminator : Text
  pub user_id : ℕ
  pub username : String
  pub mfa_enabled : Bool
  pub guilds : List GuildObject

pub record Ready : Type 0 where
  pub bot : Bot
  pub caches : Caches
  pub error : Option Error

-- The loop over the guilds.
unfoldable pub ready_guilds : ℕ → List GuildObject → Caches → Option Caches
ready_guilds shard_id [] c = some c
ready_guilds shard_id (j ∷ js) c =
    let rest = ready_guilds shard_id js (guild_create j.id shard_id c).1 in
    if or_else false j.unavailable then rest else none

abbrev pub mention_of : ℕ → Text → Text
mention_of id m = if is_empty_text m then bytes "<@" ++ to_text (signed id) ++ bytes ">" else m

-- The fields of the bot, with its user at pu.
abbrev pub know_self : ReadyObject → ℤ → ℕ → Bot → Bot
know_self j z pu b = record b {
  self = some pu;
  discriminator = to_signed 16 (pattern_of z % 2 ^ 16);
  user_id = j.user_id;
  username = j.username;
  mfa_enabled = j.mfa_enabled;
  mention = mention_of j.user_id b.mention;
}

abbrev pub own_user : ReadyObject → ℤ → User → User
own_user j z u = record u {
  member_id = j.user_id;
  is_bot = true;
  name = j.username;
  discriminator = pattern_of z % 2 ^ 16;
  status = online;
}

abbrev pub with_guilds : ℕ → ReadyObject → Bot → Caches → Option Ready
with_guilds shard_id j b c = do
  d ← ready_guilds shard_id j.guilds c
  some (record { bot = b; caches = d; error = none })

-- The first event of this kind makes the user of the bot; std::stoi may throw.
abbrev pub learn_self : ℕ → ReadyObject → Option ℤ → Bot → Caches → Option Ready
learn_self shard_id j none b c = some (record { bot = b; caches = c; error = some Error.general })
learn_self shard_id j (some z) b c =
    let (pu, d) = user_create j.user_id c in
    do
      u ← Cache.object pu d.users
      with_guilds shard_id j (know_self j z pu b) (put_user pu (own_user j z u) d)

unfoldable pub process_ready : ℕ → ReadyObject → Bot → Caches → Option Ready
unfolding ready_guilds
process_ready shard_id j b c = by_self b.self
  where
    by_self : Option ℕ → Option Ready
    by_self none = learn_self shard_id j (stoi j.discriminator) b c
    by_self (some pu) = with_guilds shard_id j b c
