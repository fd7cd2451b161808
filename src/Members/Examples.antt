-- ===== src/Members/Examples.antt =====
-- `_remove_role` of a moderator's role and `_remove_member` of the member that has it.
use aegis_cpp.Common.{◌≡◌, refl, [], ◌∷◌, none, some, false, arith}
use aegis_cpp.Common.Text.{bytes}
use aegis_cpp.Common.Map.{Map, lookup}
use aegis_cpp.Permission.{permission}
use aegis_cpp.User.{User, GuildInfo, new_user, guild_info, find_info}
use aegis_cpp.Guild.{Guild, Role, new_guild}
use aegis_cpp.Guild.Access.{get_role, find_role}
use aegis_cpp.Members.{remove_role}
use aegis_cpp.Members.{remove_member, find_member}
use aegis_cpp.Members.Leaving.{remove_member-find}
use aegis_cpp.Members.Roles.{remove_role-Left, Left}

abbrev everyone : Role
everyone = record {
  color = 0;
  id = 100;
  role_id = 100;
  name = bytes "everyone";
  permission = permission 0xC00;
  position = 0;
  hoist = false;
  managed = false;
  mentionable = false;
}

abbrev moderator : Role
moderator = record everyone {
  id = 7;
  role_id = 7;
  name = bytes "moderator";
  permission = permission 0x2000;
}

abbrev guild : Guild
guild = record (new_guild 0 100) {
  owner_id = 1;
  roles = (7, moderator) ∷ (100, everyone) ∷ [];
  members = (2, 50) ∷ [];
}

abbrev info : GuildInfo
info = record {
  id = 100;
  roles = 100 ∷ 7 ∷ [];
  nickname = none;
  joined_at = 0;
  deaf = false;
  mute = false;
}

abbrev member : User
member = record {
  member_id = 2;
  dm_id = 0;
  status = aegis_cpp.User.offline;
  name = "member";
  discriminator = 1;
  avatar = "";
  is_bot = false;
  mfa_enabled = false;
  guilds = info ∷ [];
}

abbrev users : Map User
users = (50, member) ∷ []

remove_role-Left_example :
    (r : Guild × Map User) × (remove_role 7 guild users ≡ some r) × Left 7 50 member r.0 r.1
unfolding get_role find_role find_info lookup
remove_role-Left_example =
    remove_role-Left 7 50 guild users member info everyone (refl, tt) (refl, (refl, tt))
      (omega arith) refl refl refl refl refl

remove_member-find_example :
    (r : Guild × Map User) × (remove_member 2 guild users ≡ some r)
    × (find_member 2 r.0 ≡ none)
    × ((v : User) × (lookup 50 r.1 ≡ some v) × (find_info 8 v.guilds ≡ none))
unfolding find_info lookup
remove_member-find_example = remove_member-find 2 50 2 8 guild users member refl refl refl refl
