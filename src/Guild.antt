-- ===== src/Guild.antt =====
-- include/aegis/guild.hpp and include/aegis/impl/guild.cpp: a guild with its roles
-- (include/aegis/gateway/objects/role.hpp), members and channels. Members and channels are
-- pointers: addresses in the heaps of the bot. `embed_channel_id`, which nothing sets, is left out.
pub mod Access
pub mod Actions
use aegis_cpp.Common.{false, true, List, [], ℕ, Bool}
use aegis_cpp.Common.Map.{Map}
use aegis_cpp.Common.Text.{Text}
use aegis_cpp.Permission.{Permission}
use Prim.Native.String.{String}

pub record Role : Type 0 where
  pub color : ℕ
  pub id : ℕ
  pub role_id : ℕ
  pub name : Text
  pub permission : Permission
  pub position : ℕ
  pub hoist : Bool
  pub managed : Bool
  pub mentionable : Bool

-- gateway::objects::emoji
pub record Emoji : Type 0 where
  pub id : ℕ
  pub name : Text
  pub roles : List ℕ
  pub user : ℕ
  pub require_colons : Bool
  pub managed : Bool
  pub animated : Bool

-- gateway::objects::voice_state, without the pointer that nothing sets.
pub record VoiceState : Type 0 where
  pub guild_id : ℕ
  pub channel_id : ℕ
  pub user_id : ℕ
  pub session_id : Text
  pub deaf : Bool
  pub mute : Bool
  pub self_deaf : Bool
  pub self_mute : Bool
  pub suppress : Bool
  pub self_stream : Bool

pub record Guild : Type 0 where
  pub shard_id : ℕ
  pub guild_id : ℕ
  pub channels : Map ℕ
  pub members : Map ℕ
  pub roles : Map Role
  pub emojis : Map Emoji
  pub voice_states : Map VoiceState
  pub name : String
  pub icon : String
  pub splash : String
  pub owner_id : ℕ
  pub region : String
  pub afk_channel_id : ℕ
  pub afk_timeout : ℕ
  pub embed_enabled : Bool
  pub verification_level : ℕ
  pub default_message_notifications : ℕ
  pub mfa_level : ℕ
  pub joined_at : String
  pub large : Bool
  pub unavailable : Bool
  pub member_count : ℕ
  pub is_init : Bool

-- guild(const int32_t, const snowflake, ...)
abbrev pub new_guild : ℕ → ℕ → Guild
new_guild shard_id guild_id = record {
  shard_id = shard_id;
  guild_id = guild_id;
  channels = [];
  members = [];
  roles = [];
  emojis = [];
  voice_states = [];
  name = "";
  icon = "";
  splash = "";
  owner_id = 0;
  region = "";
  afk_channel_id = 0;
  afk_timeout = 0;
  embed_enabled = false;
  verification_level = 0;
  default_message_notifications = 0;
  mfa_level = 0;
  joined_at = "";
  large = false;
  unavailable = false;
  member_count = 0;
  is_init = true;
}
