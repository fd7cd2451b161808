-- ===== src/Guild/Actions.antt =====
-- The REST actions of include/aegis/impl/guild.cpp, from get_guild to leave: the test of the bot's own
-- permissions, the object of JSON, and the request. `dump` is the function of the JSON library that prints
-- an object, with the fields in order. `me` is `self()`, the user of the bot, and `_bot` is not null. What the
-- actions that make a channel do with the channel of the answer (`then`) is left out.
pub mod Moderation
pub mod Guard
mod Examples
use aegis_cpp.Common.{
  ℕ, Bool, true, false, not, ◌&&◌, ◌||◌, ◌==◌, ltb, List, [], ◌∷◌, ◌++◌, Option, none, some,
}
use aegis_cpp.Common.Int.{ℤ, pos, negsuc}
use aegis_cpp.Common.Text.{Text, bytes}
use aegis_cpp.Json.{Value, Items, null, boolean, number, string, array, snowflake_to_json}
use aegis_cpp.Permission.{
  Permission, permission, can_manage_guild, can_manage_channels, can_manage_names, can_voice_mute,
  can_voice_deafen, can_manage_roles, can_voice_move, can_change_name,
}
use aegis_cpp.User.{User}
use aegis_cpp.Channel.{PermissionOverwrite}
use aegis_cpp.Guild.{Guild}
use aegis_cpp.Guild.Access.{base_permissions}
use aegis_cpp.Error.{Error}
use aegis_cpp.Rest.{RequestMethod}
use aegis_cpp.Action.{
  Answer, set, set_some, set_if, overwrites, snowflakes, id_text, post_task, post_task_typed,
  require,
}

-- guild::perms
unfoldable pub perms : Guild → User → Permission
perms g me = permission (base_permissions g me)

-- fmt::format("/guilds/{}…", guild_id)
abbrev pub guild_path : Guild → Text → Text
guild_path g rest = bytes "/guilds/" ++ id_text g.guild_id ++ rest

abbrev pub member_path : Guild → ℕ → Text → Text
member_path g user_id rest = guild_path g (bytes "/members/" ++ id_text user_id ++ rest)

abbrev pub is_positive : ℤ → Bool
is_positive (pos n) = ltb 0 n
is_positive (negsuc n) = false

abbrev pub is_nonzero : ℤ → Bool
is_nonzero (pos n) = ltb 0 n
is_nonzero (negsuc n) = true

abbrev pub has_any {ℓ} : {A : Type ℓ} → List A → Bool
has_any [] = false
has_any (x ∷ xs) = true

abbrev pub none_or : Option ℕ → ℕ → Bool
none_or none me = true
none_or (some u) me = u == me

-- modify_guild_t
pub record ModifyGuild : Type 0 where
  pub name : Option Text
  pub voice_region : Option Text
  pub verification_level : Option ℤ
  pub default_message_notifications : Option ℤ
  pub explicit_content_filter : Option ℤ
  pub afk_channel_id : Option ℕ
  pub afk_timeout : Option ℤ
  pub icon : Option Text
  pub owner_id : Option ℕ
  pub splash : Option Text

-- modify_guild_member_t
pub record ModifyGuildMember : Type 0 where
  pub user_id : ℕ
  pub nick : Option Text
  pub mute : Option Bool
  pub deaf : Option Bool
  pub roles : Option (List ℕ)
  pub channel_id : Option ℕ

abbrev pub guild_object : ModifyGuild → Value
guild_object m = set_some (bytes "splash") string m.splash (
    set_some (bytes "owner_id") snowflake_to_json m.owner_id (
      set_some (bytes "icon") string m.icon (
        set_some (bytes "afk_timeout") number m.afk_timeout (
          set_some (bytes "afk_channel_id") snowflake_to_json m.afk_channel_id (
            set_some (bytes "explicit_content_filter") number m.verification_level (
              set_some (bytes "default_message_notifications") number
                m.default_message_notifications
                (set_some (bytes "verification_level") number m.verification_level (
                  set_some (bytes "region") string m.voice_region
                    (set_some (bytes "name") string m.name null)))))))))

module _ (dump : Value → Text) (g : Guild) (me : User) where
  abbrev pub get_guild : Answer
  get_guild = post_task_typed (guild_path g []) RequestMethod.get []

  abbrev pub modify_guild : ModifyGuild → Answer
  modify_guild m =
      require (not (not (can_manage_guild (perms g me)) || not (none_or m.owner_id me.member_id)))
        Error.no_permission
        (post_task_typed (guild_path g []) RequestMethod.patch (dump (guild_object m)))

  abbrev pub delete_guild : Answer
  delete_guild =
      require (g.owner_id == me.member_id) Error.no_permission
        (post_task (guild_path g []) RequestMethod.delete [])

  abbrev pub create_text_channel : Text → ℤ → Bool → List PermissionOverwrite → Answer
  create_text_channel name parent_id nsfw ows =
      require (can_manage_channels (perms g me)) Error.no_permission (
        post_task_typed (guild_path g (bytes "/channels")) RequestMethod.post (
          dump (
            set_if (has_any ows) (bytes "permission_overwrites") (overwrites ows) (
              set (bytes "nsfw") (boolean nsfw) (
                set_if (is_nonzero parent_id) (bytes "parent_id") (number parent_id)
                  (set (bytes "type") (number (pos 0)) (set (bytes "name") (string name) null)))))))

  abbrev pub create_voice_channel : Text → ℤ → ℤ → ℤ → List PermissionOverwrite → Answer
  create_voice_channel name bitrate user_limit parent_id ows =
      require (can_manage_channels (perms g me)) Error.no_permission (
        post_task_typed (guild_path g (bytes "/channels")) RequestMethod.post (
          dump (
            set (bytes "permission_overwrites") (overwrites ows) (
              set_if (is_positive parent_id) (bytes "parent_id") (number parent_id) (
                set_if (is_positive user_limit) (bytes "user_limit") (number user_limit) (
                  set_if (is_positive bitrate) (bytes "bitrate") (number bitrate) (
                    set (bytes "type") (number (pos 2))
                      (set (bytes "name") (string name) null))))))))

  -- The code does not use `parent_id`.
  abbrev pub create_category_channel : Text → ℤ → List PermissionOverwrite → Answer
  create_category_channel name parent_id ows =
      require (can_manage_channels (perms g me)) Error.no_permission (
        post_task_typed (guild_path g (bytes "/channels")) RequestMethod.post (
          dump (
            set (bytes "permission_overwrites") (overwrites ows)
              (set (bytes "type") (number (pos 4)) (set (bytes "name") (string name) null)))))

  abbrev pub modify_channel_positions : Answer
  modify_channel_positions =
      require (can_manage_channels (perms g me)) Error.no_permission
        (Answer.refused Error.not_implemented)

  -- What modify_guild_member does with each field: the test of its flag, then the field of the object.
  abbrev pub member_field {ℓ} :
      {A : Type ℓ} → Bool → Text → (A → Value) → Option A → Value → (Value → Answer) → Answer
  member_field ok k f none obj next = next obj
  member_field ok k f (some a) obj next = require ok Error.no_permission (next (set k (f a) obj))

  abbrev pub modify_guild_member : ModifyGuildMember → Answer
  modify_guild_member m =
      let perm = perms g me in
      member_field (can_manage_names perm) (bytes "nick") string m.nick null (λ o1.
        member_field (can_voice_mute perm) (bytes "mute") boolean m.mute o1 (λ o2.
          member_field (can_voice_deafen perm) (bytes "deaf") boolean m.deaf o2 (λ o3.
            member_field (can_manage_roles perm) (bytes "roles") snowflakes m.roles o3 (λ o4.
              member_field (can_voice_move perm) (bytes "channel_id") snowflake_to_json m.channel_id
                o4
                (λ o5.
                  post_task_typed (member_path g m.user_id []) RequestMethod.patch (dump o5))))))

  abbrev pub modify_my_nick : Text → Answer
  modify_my_nick newname = require (can_change_name (perms g me)) Error.no_permission (
      post_task (guild_path g (bytes "/members/@me/nick")) RequestMethod.patch
        (dump (set (bytes "nick") (string newname) null)))

  abbrev pub leave : Answer
  leave = post_task (bytes "/users/@me/guilds/" ++ id_text g.guild_id) RequestMethod.delete []
