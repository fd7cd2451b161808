-- ===== src/Core.antt =====
-- The messages that include/aegis/impl/core.cpp sends by the identifier of a channel or of a user. `channel` is
-- what the map of channels has for the identifier, with the guild that its `_guild` points to; `dump` prints
-- an object, and `dump_ascii` does with `dump(-1, ' ', true)`.
pub mod Presence
pub mod Creation
mod Examples
use aegis_cpp.Common.{
  ℕ, ◌==◌, Bool, true, false, not, List, [], ◌∷◌, ◌++◌, Option, none, some, if◌then◌else◌,
}
use aegis_cpp.Common.Int.{ℤ}
use aegis_cpp.Common.Text.{Text, bytes, is_empty_text}
use aegis_cpp.Json.{Value, null, string, number}
use aegis_cpp.Permission.{can_send_messages}
use aegis_cpp.User.{User}
use aegis_cpp.Channel.{Channel}
use aegis_cpp.Guild.{Guild}
use aegis_cpp.Error.{Error}
use aegis_cpp.Rest.{RequestMethod, AegisFile}
use aegis_cpp.Action.{Answer, set, set_if, id_text, post_task_typed, require}
use aegis_cpp.Channel.Actions.{perms, is_nonzero}
use aegis_cpp.Channel.Actions

abbrev pub Found : Type 0
Found = Option (Channel × Option Guild)

-- The look-up of the channel and the test of the bot's permissions, if they are asked for. For a channel
-- without a guild get_guild throws; since the functions are `noexcept`, that ends the program.
abbrev pub looked_up : Bool → Found → User → Answer → Answer
looked_up false channel me send = send
looked_up true none me send = Answer.refused Error.channel_not_found
looked_up true (some (c, none)) me send = Answer.throws
looked_up true (some (c, some g)) me send =
    require (can_send_messages (perms g me c)) Error.no_permission send

module _ (dump : Value → Text) (channel : Found) (me : User) where
  -- core::create_message
  abbrev pub create_message : ℕ → Text → ℤ → Bool → Answer
  create_message channel_id msg nonce perform_lookup = looked_up perform_lookup channel me (
      post_task_typed (bytes "/channels/" ++ id_text channel_id ++ bytes "/messages")
        RequestMethod.post
        (dump (
          set_if (is_nonzero nonce) (bytes "nonce") (number nonce)
            (set (bytes "content") (string msg) null))))

  -- core::create_message_embed
  abbrev pub create_message_embed : ℕ → Text → Value → ℤ → Bool → Answer
  create_message_embed channel_id msg embed nonce perform_lookup =
      looked_up perform_lookup channel me (
        post_task_typed (bytes "/channels/" ++ id_text channel_id ++ bytes "/messages")
          RequestMethod.post
          (dump (
            set_if (is_nonzero nonce) (bytes "nonce") (number nonce) (
              set (bytes "embed") embed
                (set_if (not (is_empty_text msg)) (bytes "content") (string msg) null)))))

-- What create_dm_message does: an error, a message in the channel of that identifier, or the request that
-- makes the channel, whose answer is followed by the message.
pub data DirectMessage : Type 0 where
  refused : Error → DirectMessage
  message_in : ℕ → DirectMessage
  make_channel : Answer → DirectMessage

-- create_dm_message, up to the message: the user is the one that find_user gives.
unfoldable pub create_dm_message : (Value → Text) → Option User → ℕ → DirectMessage
create_dm_message dump none member_id = refused Error.member_error
create_dm_message dump (some m) member_id =
    if m.dm_id == 0
    then make_channel (
        post_task_typed (bytes "/users/@me/channels") RequestMethod.post
          (dump (set (bytes "recipient_id") (string (id_text member_id)) null)))
    else message_in m.dm_id
