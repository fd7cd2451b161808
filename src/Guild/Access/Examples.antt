-- ===== src/Guild/Access/Examples.antt =====
-- Tests of the permission functions of guild.cpp, on a guild with a moderator role.
use aegis_cpp.Common.{◌≡◌, refl, true, false, [], ◌∷◌, some, none, arith, inl, test_bit, complement}
use aegis_cpp.Common.Text.{bytes}
use aegis_cpp.Common.Map.{lookup}
use aegis_cpp.Permission.{permission}
use aegis_cpp.User.{User, GuildInfo, offline, get_guild_info_nocreate}
use aegis_cpp.Channel.{Channel, OverwriteType}
use aegis_cpp.Guild.{Guild, Role, new_guild}
use aegis_cpp.Guild.Access.{
  all_ones, base_permissions, get_role, find_role, add_roles, role_masks, compute_overwrites,
  get_permissions,
}
use aegis_cpp.Guild.Access.Roles.{known, any_grant, base_permissions-bits, get_permissions-all_ones}
use aegis_cpp.Guild.Access.Precedence.{any_role, compute_overwrites-settle}

-- Role 100 is that of everyone, 7 the moderators'.
abbrev role : Role
role = record {
  color = 0;
  id = 100;
  role_id = 100;
  name = bytes "everyone";
  permission = permission 0xC00;
  position = 0;
  hoist = false;
  managed = false;
  mentionable = false;
}

abbrev moderator : Role
moderator = record role {
  id = 7;
  role_id = 7;
  name = bytes "moderator";
  permission = permission 0x2000;
}

abbrev guild : Guild
guild = record (new_guild 0 100) {
  roles = (7, moderator) ∷ (100, role) ∷ [];
  name = "guild";
  owner_id = 1;
  is_init = false;
}

abbrev info : GuildInfo
info = record {
  id = 100;
  roles = 100 ∷ 7 ∷ [];
  nickname = none;
  joined_at = 0;
  deaf = false;
  mute = false;
}

abbrev user : User
user = record {
  member_id = 2;
  dm_id = 0;
  status = offline;
  name = "";
  discriminator = 0;
  avatar = "";
  is_bot = false;
  mfa_enabled = false;
  guilds = info ∷ [];
}

abbrev owner : User
owner = record user { member_id = 1 }

-- A member one of whose roles has not reached the cache.
abbrev stranger : User
stranger = record user { guilds = record info { roles = 100 ∷ 8 ∷ [] } ∷ [] }

-- Everyone is denied to send messages (bit 11), and the moderators are allowed to.
abbrev channel : Channel
channel = record {
  channel_id = 200;
  guild_id = 100;
  guild = some 100;
  parent_id = 0;
  last_message_id = 0;
  name = [];
  topic = [];
  nsfw = false;
  position = 0;
  type = 0;
  bitrate = 0;
  user_limit = 0;
  overrides =
      (100, record { id = 100; type = OverwriteType.role; allow = 0; deny = 0x800 })
      ∷ (7, record { id = 7; type = OverwriteType.role; allow = 0x800; deny = 0 })
      ∷ [];
}

moderator_sends : get_permissions guild (some user) (some channel) ≡ 0x2C00
unfolding get_permissions compute_overwrites base_permissions get_role find_role add_roles
    role_masks lookup get_guild_info_nocreate complement
moderator_sends = refl

compute_overwrites-settle_example :
    test_bit (compute_overwrites guild 0x2C00 user channel) 11 ≡ true
unfolding lookup any_role get_guild_info_nocreate test_bit
compute_overwrites-settle_example =
    compute_overwrites-settle guild 0x2C00 user channel info 11 refl refl (omega arith)
      (omega arith)

base_permissions-bits_example : test_bit (base_permissions guild user) 13 ≡ true
unfolding known any_grant get_role find_role get_guild_info_nocreate test_bit
base_permissions-bits_example =
    base_permissions-bits guild user role info refl refl refl 13 refl (omega arith)

get_permissions-all_ones_example : get_permissions guild (some owner) (some channel) ≡ all_ones
get_permissions-all_ones_example = get_permissions-all_ones guild owner channel (inl refl)
