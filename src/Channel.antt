-- ===== src/Channel.antt =====
-- include/aegis/channel.hpp and include/aegis/impl/channel.cpp: a channel and its permission
-- overwrites (include/aegis/gateway/objects/permission_overwrite.hpp). `allow` and `deny` are
-- `int64_t`, kept as bit patterns below 2 ^ 64.
pub mod Actions
pub mod Load
use aegis_cpp.Common.{none, false, [], ℕ, Bool, Option}
use aegis_cpp.Common.Map.{Map}
use aegis_cpp.Common.Text.{Text}

-- overwrite_type
pub data OverwriteType : Type 0 where
  user role : OverwriteType

pub record PermissionOverwrite : Type 0 where
  pub id : ℕ
  pub type : OverwriteType
  pub allow : ℕ
  pub deny : ℕ

-- `guild` is the pointer `_guild`: the address of the guild in the cache of the guilds.
pub record Channel : Type 0 where
  pub channel_id : ℕ
  pub guild_id : ℕ
  pub guild : Option ℕ
  pub parent_id : ℕ
  pub last_message_id : ℕ
  pub name : Text
  pub topic : Text
  pub nsfw : Bool
  pub position : ℕ
  pub type : ℕ
  pub bitrate : ℕ
  pub user_limit : ℕ
  pub overrides : Map PermissionOverwrite

-- channel(snowflake, snowflake, ...); the guild is the one that `find_guild` gives.
abbrev pub new_channel : ℕ → ℕ → Channel
new_channel channel_id guild_id = record {
  channel_id = channel_id;
  guild_id = guild_id;
  guild = none;
  parent_id = 0;
  last_message_id = 0;
  name = [];
  topic = [];
  nsfw = false;
  position = 0;
  type = 0;
  bitrate = 0;
  user_limit = 0;
  overrides = [];
}
