-- ===== src/Channel/Actions/Guard/Calls.antt =====
-- The actions of include/aegis/impl/channel.cpp as one type, and what each call does.
use aegis_cpp.Common.{ℕ, List, Option}
use aegis_cpp.Common.Int.{ℤ}
use aegis_cpp.Common.Text.{Text}
use aegis_cpp.Json.{Value}
use aegis_cpp.User.{User}
use aegis_cpp.Channel.{Channel}
use aegis_cpp.Guild.{Guild}
use aegis_cpp.Action.{Answer}
use aegis_cpp.Channel.Actions.{
  GetMessages, GetMessagesType, CreateMessage, EditMessage, perms, in_guild, require_guild,
  channel_path, is_empty_json, query_params, limit_text, substr_1,
}
use aegis_cpp.Channel.Actions
use aegis_cpp.Channel.Actions.Settings.{ModifyChannel, CreateInvite}
use aegis_cpp.Channel.Actions.Settings

-- A call of one of the actions.
pub data ChannelAction : Type 0 where
  create_message : Text → ℤ → ChannelAction
  get_message : ℕ → ChannelAction
  get_messages : GetMessages → ChannelAction
  create_message_embed : Text → Value → ℤ → ChannelAction
  create_message_t : CreateMessage → ChannelAction
  edit_message : ℕ → Text → ChannelAction
  edit_message_embed : EditMessage → ChannelAction
  delete_message : ℕ → ChannelAction
  bulk_delete_message : List ℕ → ChannelAction
  modify_channel : ModifyChannel → ChannelAction
  delete_channel : ChannelAction
  create_reaction : ℕ → Text → ChannelAction
  delete_own_reaction : ℕ → Text → ChannelAction
  delete_user_reaction : ℕ → Text → ℕ → ChannelAction
  get_reactions : ℕ → Text → ChannelAction
  delete_all_reactions : ℕ → ChannelAction
  edit_channel_permissions : ℕ → ℕ → ℕ → Text → ChannelAction
  get_channel_invites : ChannelAction
  create_channel_invite : CreateInvite → ChannelAction
  delete_channel_permission : ℕ → ChannelAction
  trigger_typing_indicator : ChannelAction
  get_pinned_messages : ChannelAction
  add_pinned_channel_message : ℕ → ChannelAction
  delete_pinned_channel_message : ℕ → ChannelAction
  group_dm_add_recipient : ℕ → ChannelAction
  group_dm_remove_recipient : ℕ → ChannelAction

module _ (d e : Value → Text) (g : Option Guild) (me : User) (c : Channel) where
  abbrev pub run : ChannelAction → Answer
  run (create_message n z) = Actions.create_message d e g me c n z
  run (get_message i) = Actions.get_message d e g me c i
  run (get_messages o) = Actions.get_messages d e g me c o
  run (create_message_embed n v z) = Actions.create_message_embed d e g me c n v z
  run (create_message_t o) = Actions.create_message_t d e g me c o
  run (edit_message i n) = Actions.edit_message d e g me c i n
  run (edit_message_embed o) = Actions.edit_message_embed d e g me c o
  run (delete_message i) = Actions.delete_message d e g me c i
  run (bulk_delete_message is) = Actions.bulk_delete_message d e g me c is
  run (modify_channel m) = Settings.modify_channel d g me c m
  run delete_channel = Settings.delete_channel d g me c
  run (create_reaction i n) = Settings.create_reaction d g me c i n
  run (delete_own_reaction i n) = Settings.delete_own_reaction d g me c i n
  run (delete_user_reaction i n u) = Settings.delete_user_reaction d g me c i n u
  run (get_reactions i n) = Settings.get_reactions d g me c i n
  run (delete_all_reactions i) = Settings.delete_all_reactions d g me c i
  run (edit_channel_permissions i a b n) = Settings.edit_channel_permissions d g me c i a b n
  run get_channel_invites = Settings.get_channel_invites d g me c
  run (create_channel_invite v) = Settings.create_channel_invite d g me c v
  run (delete_channel_permission i) = Settings.delete_channel_permission d g me c i
  run trigger_typing_indicator = Settings.trigger_typing_indicator d g me c
  run get_pinned_messages = Settings.get_pinned_messages d g me c
  run (add_pinned_channel_message i) = Settings.add_pinned_channel_message d g me c i
  run (delete_pinned_channel_message i) = Settings.delete_pinned_channel_message d g me c i
  run (group_dm_add_recipient i) = Settings.group_dm_add_recipient d g me c i
  run (group_dm_remove_recipient i) = Settings.group_dm_remove_recipient d g me c i
