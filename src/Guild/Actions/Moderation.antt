-- ===== src/Guild/Actions/Moderation.antt =====
-- The REST actions of include/aegis/impl/guild.cpp on members, bans, roles, invites and integrations, from
-- add_guild_member_role to modify_guild_embed.
use aegis_cpp.Common.{ℕ, Bool, [], ◌++◌}
use aegis_cpp.Common.Int.{ℤ}
use aegis_cpp.Common.Text.{Text, bytes}
use aegis_cpp.Json.{Value, null, boolean, number, string, snowflake_to_json, permission_to_json}
use aegis_cpp.Permission.{Permission, can_kick, can_ban, can_manage_roles, can_manage_guild}
use aegis_cpp.User.{User}
use aegis_cpp.Guild.{Guild}
use aegis_cpp.Error.{Error}
use aegis_cpp.Rest.{RequestMethod}
use aegis_cpp.Action.{Answer, set, id_text, post_task, post_task_typed, require}
use aegis_cpp.Guild.Actions.{perms, guild_path, member_path}

-- create_guild_role_t, and modify_guild_role_t without the role.
pub record RoleFields : Type 0 where
  pub name : Text
  pub perms : Permission
  pub color : ℤ
  pub hoist : Bool
  pub mentionable : Bool

abbrev pub role_object : RoleFields → Value
role_object r = set (bytes "mentionable") (boolean r.mentionable) (
    set (bytes "hoist") (boolean r.hoist) (
      set (bytes "color") (number r.color) (
        set (bytes "permissions") (permission_to_json r.perms)
          (set (bytes "name") (string r.name) null))))

abbrev pub role_path : Guild → ℕ → ℕ → Text
role_path g user_id role_id = member_path g user_id (bytes "/roles/" ++ id_text role_id)

abbrev pub ban_path : Guild → ℕ → Text
ban_path g user_id = guild_path g (bytes "/bans/" ++ id_text user_id)

module _ (dump : Value → Text) (g : Guild) (me : User) where
  abbrev pub add_guild_member_role : ℕ → ℕ → Answer
  add_guild_member_role user_id role_id =
      require (can_manage_roles (perms g me)) Error.no_permission
        (post_task_typed (role_path g user_id role_id) RequestMethod.put [])

  abbrev pub remove_guild_member_role : ℕ → ℕ → Answer
  remove_guild_member_role user_id role_id =
      require (can_manage_roles (perms g me)) Error.no_permission
        (post_task (role_path g user_id role_id) RequestMethod.delete [])

  abbrev pub remove_guild_member : ℕ → Answer
  remove_guild_member user_id =
      require (can_kick (perms g me)) Error.no_permission
        (post_task (member_path g user_id []) RequestMethod.delete [])

  abbrev pub create_guild_ban : ℕ → ℤ → Text → Answer
  create_guild_ban user_id delete_message_days reason =
      require (can_ban (perms g me)) Error.no_permission (
        post_task (ban_path g user_id) RequestMethod.put (
          dump (
            set (bytes "reason") (string reason)
              (set (bytes "delete_message_days") (number delete_message_days) null))))

  abbrev pub remove_guild_ban : ℕ → Answer
  remove_guild_ban user_id =
      require (can_ban (perms g me)) Error.no_permission
        (post_task (ban_path g user_id) RequestMethod.delete [])

  abbrev pub get_guild_bans : Answer
  get_guild_bans =
      require (can_ban (perms g me)) Error.no_permission
        (post_task_typed (guild_path g (bytes "/bans")) RequestMethod.get [])

  abbrev pub get_guild_ban : ℕ → Answer
  get_guild_ban user_id =
      require (can_ban (perms g me)) Error.no_permission
        (post_task_typed (ban_path g user_id) RequestMethod.get [])

  abbrev pub create_guild_role : RoleFields → Answer
  create_guild_role r =
      require (can_manage_roles (perms g me)) Error.no_permission
        (post_task_typed (guild_path g (bytes "/roles")) RequestMethod.post (dump (role_object r)))

  abbrev pub modify_guild_role_positions : ℕ → ℤ → Answer
  modify_guild_role_positions role_id position =
      require (can_manage_roles (perms g me)) Error.no_permission (
        post_task (guild_path g (bytes "/roles")) RequestMethod.patch (
          dump (
            set (bytes "position") (number position)
              (set (bytes "id") (snowflake_to_json role_id) null))))

  abbrev pub modify_guild_role : ℕ → RoleFields → Answer
  modify_guild_role role_id r = require (can_manage_roles (perms g me)) Error.no_permission (
      post_task_typed (guild_path g (bytes "/roles/" ++ id_text role_id)) RequestMethod.post
        (dump (role_object r)))

  abbrev pub delete_guild_role : ℕ → Answer
  delete_guild_role role_id =
      require (can_manage_roles (perms g me)) Error.no_permission
        (post_task (guild_path g (bytes "/roles/" ++ id_text role_id)) RequestMethod.delete [])

  -- get_guild_prune_count and begin_guild_prune
  abbrev pub guild_prune : ℤ → Answer
  guild_prune days =
      require (can_kick (perms g me)) Error.no_permission (Answer.refused Error.not_implemented)

  abbrev pub get_guild_invite : Text → Answer
  get_guild_invite invite_code =
      require (can_manage_guild (perms g me)) Error.no_permission
        (post_task_typed (bytes "/invites/" ++ invite_code) RequestMethod.get [])

  abbrev pub get_guild_invites : Answer
  get_guild_invites =
      require (can_manage_guild (perms g me)) Error.no_permission
        (post_task_typed (guild_path g (bytes "/invites")) RequestMethod.get [])

  abbrev pub delete_guild_invite : Text → Answer
  delete_guild_invite invite_code =
      require (can_manage_guild (perms g me)) Error.no_permission
        (post_task (bytes "/invites/" ++ invite_code) RequestMethod.delete [])

  -- The five actions on integrations, and get_guild_embed and modify_guild_embed.
  abbrev pub guild_integration : Answer
  guild_integration =
      require (can_manage_guild (perms g me)) Error.no_permission
        (Answer.refused Error.not_implemented)
