-- ===== src/Channel/Actions/Settings.antt =====
-- The REST actions of include/aegis/impl/channel.cpp on the channel, reactions, permissions, invites, pins
-- and recipients, from modify_channel to group_dm_remove_recipient.
use aegis_cpp.Common.{ℕ, Bool, List, [], ◌∷◌, ◌++◌, Option}
use aegis_cpp.Common.Int.{ℤ, pos}
use aegis_cpp.Common.Text.{Text, bytes}
use aegis_cpp.Json.{Value, null, boolean, number, string, snowflake_to_json, signed}
use aegis_cpp.Permission.{
  can_manage_channels, can_manage_messages, can_manage_roles, can_add_reactions, can_invite,
}
use aegis_cpp.User.{User}
use aegis_cpp.Channel.{Channel, PermissionOverwrite}
use aegis_cpp.Guild.{Guild}
use aegis_cpp.Error.{Error}
use aegis_cpp.Rest.{RequestMethod}
use aegis_cpp.Utility.{url_encode}
use aegis_cpp.Action.{
  Answer, set, set_some, overwrites, id_text, post_task, post_task_typed, post_task_in,
  post_task_bypass, require,
}
use aegis_cpp.Channel.Actions.{in_guild, require_guild, channel_path, message_path}

-- modify_channel_t
pub record ModifyChannel : Type 0 where
  pub name : Option Text
  pub position : Option ℤ
  pub topic : Option Text
  pub nsfw : Option Bool
  pub bitrate : Option ℤ
  pub user_limit : Option ℤ
  pub permission_overwrites : Option (List PermissionOverwrite)
  pub parent_id : Option ℕ
  pub rate_limit_per_user : Option ℤ

-- create_channel_invite_t
pub record CreateInvite : Type 0 where
  pub max_age : Option ℤ
  pub max_uses : Option ℤ
  pub temporary : Option Bool
  pub unique : Option Bool

abbrev pub channel_object : ModifyChannel → Value
channel_object m = set_some (bytes "rate_limit_per_user") number m.rate_limit_per_user (
    set_some (bytes "parent_id") snowflake_to_json m.parent_id (
      set_some (bytes "permission_overwrites") overwrites m.permission_overwrites (
        set_some (bytes "user_limit") number m.user_limit (
          set_some (bytes "bitrate") number m.bitrate (
            set_some (bytes "nsfw") boolean m.nsfw (
              set_some (bytes "topic") string m.topic (
                set_some (bytes "position") number m.position
                  (set_some (bytes "name") string m.name null))))))))

abbrev pub invite_object : CreateInvite → Value
invite_object i = set_some (bytes "unique") boolean i.unique (
    set_some (bytes "temporary") boolean i.temporary (
      set_some (bytes "max_uses") number i.max_uses
        (set_some (bytes "max_age") number i.max_age null)))

-- The bucket of the bot's own reactions.
abbrev pub reactions_bucket : Channel → Text
reactions_bucket c = bytes "/guilds/" ++ id_text c.guild_id ++ bytes "/reactions"

abbrev pub reaction_path : Channel → ℕ → Text → Text → Text
reaction_path c message_id emoji rest =
    message_path c message_id (bytes "/reactions/" ++ emoji ++ rest)

abbrev pub permission_path : Channel → ℕ → Text
permission_path c overwrite_id = channel_path c (bytes "/permissions/" ++ id_text overwrite_id)

abbrev pub pin_path : Channel → ℕ → Text
pin_path c message_id = channel_path c (bytes "/pins/" ++ id_text message_id)

abbrev pub recipient_path : Channel → ℕ → Text
recipient_path c user_id = channel_path c (bytes "/recipients/" ++ id_text user_id)

module _ (dump : Value → Text) (guild : Option Guild) (me : User) (c : Channel) where
  abbrev pub modify_channel : ModifyChannel → Answer
  modify_channel m =
      require_guild guild me c can_manage_channels
        (post_task_typed (channel_path c []) RequestMethod.patch (dump (channel_object m)))

  abbrev pub delete_channel : Answer
  delete_channel =
      require (in_guild guild me c can_manage_channels) Error.no_permission
        (post_task (channel_path c []) RequestMethod.delete [])

  abbrev pub create_reaction : ℕ → Text → Answer
  create_reaction message_id emoji_text =
      require (in_guild guild me c can_add_reactions) Error.no_permission (
        post_task_bypass (pos 250) (reactions_bucket c)
          (reaction_path c message_id (url_encode emoji_text) (bytes "/@me")) RequestMethod.put)

  abbrev pub delete_own_reaction : ℕ → Text → Answer
  delete_own_reaction message_id emoji_text =
      require (in_guild guild me c can_add_reactions) Error.no_permission (
        post_task_bypass (pos 250) (reactions_bucket c)
          (reaction_path c message_id (url_encode emoji_text) (bytes "/@me")) RequestMethod.delete)

  abbrev pub delete_user_reaction : ℕ → Text → ℕ → Answer
  delete_user_reaction message_id emoji_text member_id =
      require_guild guild me c can_manage_messages (
        post_task_in (channel_path c (bytes "/messages/_/reactions/"))
          (reaction_path c message_id (url_encode emoji_text) (b'/' ∷ id_text member_id))
          RequestMethod.delete [])

  abbrev pub get_reactions : ℕ → Text → Answer
  get_reactions message_id emoji_text =
      post_task_in (channel_path c (bytes "/messages/_/reactions/"))
        (reaction_path c message_id emoji_text []) RequestMethod.get []

  abbrev pub delete_all_reactions : ℕ → Answer
  delete_all_reactions message_id = require_guild guild me c can_manage_messages (
      post_task_in (channel_path c (bytes "/messages/_/reactions"))
        (message_path c message_id (bytes "/reactions")) RequestMethod.delete [])

  abbrev pub edit_channel_permissions : ℕ → ℕ → ℕ → Text → Answer
  edit_channel_permissions overwrite_id allow deny type =
      require_guild guild me c can_manage_roles (
        post_task_in (channel_path c (bytes "/permissions/")) (permission_path c overwrite_id)
          RequestMethod.put
          (dump (
            set (bytes "type") (string type) (
              set (bytes "deny") (number (signed deny))
                (set (bytes "allow") (number (signed allow)) null)))))

  abbrev pub get_channel_invites : Answer
  get_channel_invites =
      require_guild guild me c can_manage_channels
        (post_task (channel_path c (bytes "/invites")) RequestMethod.get [])

  abbrev pub create_channel_invite : CreateInvite → Answer
  create_channel_invite i =
      require_guild guild me c can_invite
        (post_task (channel_path c (bytes "/invites")) RequestMethod.post (dump (invite_object i)))

  abbrev pub delete_channel_permission : ℕ → Answer
  delete_channel_permission overwrite_id = require_guild guild me c can_manage_roles (
      post_task_in (channel_path c (bytes "/permissions/")) (permission_path c overwrite_id)
        RequestMethod.delete [])

  -- The method is the default one.
  abbrev pub trigger_typing_indicator : Answer
  trigger_typing_indicator = post_task (channel_path c (bytes "/typing")) RequestMethod.post []

  abbrev pub get_pinned_messages : Answer
  get_pinned_messages = post_task (channel_path c (bytes "/pins")) RequestMethod.get []

  abbrev pub add_pinned_channel_message : ℕ → Answer
  add_pinned_channel_message message_id =
      require (in_guild guild me c can_manage_messages) Error.no_permission (
        post_task_in (channel_path c (bytes "/pins/")) (pin_path c message_id) RequestMethod.put [])

  abbrev pub delete_pinned_channel_message : ℕ → Answer
  delete_pinned_channel_message message_id =
      require (in_guild guild me c can_manage_messages) Error.no_permission (
        post_task_in (channel_path c (bytes "/pins/")) (pin_path c message_id) RequestMethod.delete
          [])

  abbrev pub group_dm_add_recipient : ℕ → Answer
  group_dm_add_recipient user_id =
      post_task_in (channel_path c (bytes "/recipients/")) (recipient_path c user_id)
        RequestMethod.put []

  abbrev pub group_dm_remove_recipient : ℕ → Answer
  group_dm_remove_recipient user_id =
      post_task_in (channel_path c (bytes "/recipients/")) (recipient_path c user_id)
        RequestMethod.delete []
