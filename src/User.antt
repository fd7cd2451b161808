-- ===== src/User.antt =====
-- include/aegis/user.hpp and include/aegis/impl/user.cpp: a user and its data in each guild.
use aegis_cpp.Common.{ℕ, ◌==◌, Bool, false, List, [], ◌∷◌, Option, none, some, if◌then◌else◌}
use Prim.Native.String.{String}

pub record GuildInfo : Type 0 where
  pub id : ℕ
  pub roles : List ℕ
  pub nickname : Option String
  pub joined_at : ℕ
  pub deaf : Bool
  pub mute : Bool

-- presence::user_status
pub data UserStatus : Type 0 where
  online idle do_not_disturb offline : UserStatus

pub record User : Type 0 where
  pub member_id : ℕ
  pub dm_id : ℕ
  pub status : UserStatus
  pub name : String
  pub discriminator : ℕ
  pub avatar : String
  pub is_bot : Bool
  pub mfa_enabled : Bool
  pub guilds : List GuildInfo

-- guild_info(snowflake)
unfoldable pub guild_info : ℕ → GuildInfo
guild_info id = record {
  id = id;
  roles = [];
  nickname = none;
  joined_at = 0;
  deaf = false;
  mute = false;
}

-- user(snowflake)
unfoldable pub new_user : ℕ → User
new_user id = record {
  member_id = id;
  dm_id = 0;
  status = offline;
  name = "";
  discriminator = 0;
  avatar = "";
  is_bot = false;
  mfa_enabled = false;
  guilds = [];
}

-- `std::find_if` over `guilds` for the entry of a guild.
unfoldable pub find_info : ℕ → List GuildInfo → Option GuildInfo
find_info g [] = none
find_info g (i ∷ is) = if i.id == g then some i else find_info g is

unfoldable pub get_guild_info_nocreate : User → ℕ → Option GuildInfo
unfolding find_info
get_guild_info_nocreate u g = find_info g u.guilds
