-- ===== src/Objects/Messages.antt =====
-- A message as JSON: include/aegis/gateway/objects/impl/message.cpp, and reaction.hpp, ban.hpp and bans.hpp beside it.
-- An identifier that is missing where it is not tested for is undefined, which is `none` too.
mod Lost
use aegis_cpp.Common.{
  ℕ, ◌==◌, ◌||◌, Bool, true, false, not, List, [], ◌∷◌, Option, none, some, ◌>>=◌, if◌then◌else◌,
}
use aegis_cpp.Common.Int.{ℤ, pos, ◌==ℤ◌}
use aegis_cpp.Common.Text.{Text, bytes, to_text, is_empty_text}
use aegis_cpp.Json.{
  Value, Fields, null, boolean, number, string, array, object, end, field, at, signed,
  snowflake_to_json, snowflake_from_json,
}
use aegis_cpp.Objects.{
  given, text_or, int32_or, word_or, bool_or, object_or, read_list, read_items, read_values,
  field_if, list_field, items,
}
use aegis_cpp.Guild.{Emoji}
use aegis_cpp.Objects.Embed.{Embed, embed_from_json, embed_to_json}
use aegis_cpp.Objects.Things.{
  snowflake, snowflake_in, emoji_from_json, emoji_to_json, GatewayUser, user_from_json,
  user_to_json, Attachment, attachment_from_json, attachment_to_json,
}

pub record Reaction : Type 0 where
  pub count : ℤ
  pub me : Bool
  pub emoji : Emoji

unfoldable pub reaction_from_json : Value → Option Reaction
unfolding emoji_from_json
reaction_from_json j = do
  value ← at (bytes "count") j
  count ← int32_or (pos 0) (some value)
  value_me ← at (bytes "me") j
  me ← bool_or false (some value_me)
  value_emoji ← at (bytes "emoji") j
  emoji ← emoji_from_json value_emoji
  some (record { count = count; me = me; emoji = emoji })

unfoldable pub reaction_to_json : Reaction → Value
unfolding emoji_to_json
reaction_to_json r = object (
    field (bytes "count") (number r.count)
      (field (bytes "me") (boolean r.me) (field (bytes "emoji") (emoji_to_json r.emoji) end)))

abbrev pub new_object_user : GatewayUser
new_object_user = record {
  id = 0;
  guild_id = 0;
  username = [];
  discriminator = [];
  avatar = [];
  is_bot = false;
  mfa_enabled = false;
  verified = false;
}

pub record Ban : Type 0 where
  pub reason : Text
  pub user : GatewayUser

-- The reason if it is a text, and the user if it is an object.
abbrev pub reason_of : Option Value → Text
reason_of (some (string t)) = t
reason_of _ = []

abbrev pub banned_user : Option Value → Option GatewayUser
banned_user (some (object fs)) = user_from_json (object fs)
banned_user _ = some new_object_user

unfoldable pub ban_from_json : Value → Option Ban
unfolding user_from_json
ban_from_json j = do
  user ← banned_user (at (bytes "user") j)
  some (record { reason = reason_of (at (bytes "reason") j); user = user })

unfoldable pub ban_to_json : Ban → Value
unfolding user_to_json
ban_to_json b =
    object
      (field (bytes "reason") (string b.reason) (field (bytes "user") (user_to_json b.user) end))

-- bans
unfoldable pub bans_from_json : Value → Option (List Ban)
unfolding ban_from_json read_items read_values
bans_from_json j = read_list ban_from_json (some j)

-- The list of no bans is left null.
unfoldable pub bans_to_json : List Ban → Value
unfolding ban_to_json items
bans_to_json [] = null
bans_to_json (b ∷ rest) = array (items ban_to_json (b ∷ rest))

-- The pointers of a message, which are filled in from the identifiers, are left out.
pub record MessageObject : Type 0 where
  pub message_id : ℕ
  pub channel_id : ℕ
  pub guild_id : ℕ
  pub author_id : ℕ
  pub author : GatewayUser
  pub content : Text
  pub timestamp : Text
  pub edited_timestamp : Text
  pub tts : Bool
  pub mention_everyone : Bool
  pub pinned : Bool
  pub type : ℤ
  pub nonce : ℕ
  pub webhook_id : Text
  pub mentions : List ℕ
  pub mention_roles : List ℕ
  pub attachments : List Attachment
  pub embeds : List Embed
  pub reactions : List Reaction

unfoldable pub message_from_json : Value → Option MessageObject
unfolding user_from_json attachment_from_json embed_from_json reaction_from_json
message_from_json j = do
  value ← at (bytes "id") j
  message_id ← snowflake value
  value_channel ← at (bytes "channel_id") j
  channel_id ← snowflake value_channel
  author_id ← object_or snowflake_in 0 (given (bytes "author") j)
  author ← object_or user_from_json new_object_user (given (bytes "author") j)
  guild_id ← object_or snowflake 0 (given (bytes "guild_id") j)
  content ← text_or [] (given (bytes "content") j)
  timestamp ← text_or [] (given (bytes "timestamp") j)
  edited_timestamp ← text_or [] (given (bytes "edited_timestamp") j)
  tts ← bool_or false (given (bytes "tts") j)
  mention_everyone ← bool_or false (given (bytes "mention_everyone") j)
  pinned ← bool_or false (given (bytes "pinned") j)
  type ← int32_or (pos 0) (given (bytes "type") j)
  nonce ← object_or snowflake 0 (given (bytes "nonce") j)
  webhook_id ← text_or [] (given (bytes "webhook_id") j)
  mentions ← read_list snowflake_in (given (bytes "mentions") j)
  mention_roles ← read_list snowflake (given (bytes "roles") j)
  attachments ← read_list attachment_from_json (given (bytes "attachments") j)
  embeds ← read_list embed_from_json (given (bytes "embeds") j)
  reactions ← read_list reaction_from_json (given (bytes "reactions") j)
  some (record {
    message_id = message_id;
    channel_id = channel_id;
    author_id = author_id;
    author = author;
    guild_id = guild_id;
    content = content;
    timestamp = timestamp;
    edited_timestamp = edited_timestamp;
    tts = tts;
    mention_everyone = mention_everyone;
    pinned = pinned;
    type = type;
    nonce = nonce;
    webhook_id = webhook_id;
    mentions = mentions;
    mention_roles = mention_roles;
    attachments = attachments;
    embeds = embeds;
    reactions = reactions;
  })

-- The lists of a message, each of which is written if it is not empty.
unfoldable pub message_lists : MessageObject → Fields
unfolding list_field attachment_to_json embed_to_json reaction_to_json
message_lists m = list_field snowflake_to_json (bytes "mentions") m.mentions (
    list_field snowflake_to_json (bytes "roles") m.mention_roles (
      list_field attachment_to_json (bytes "attachments") m.attachments (
        list_field embed_to_json (bytes "embeds") m.embeds
          (list_field reaction_to_json (bytes "reactions") m.reactions end))))

unfoldable pub message_to_json : MessageObject → Value
unfolding message_lists field_if
message_to_json m = object (
    field (bytes "id") (snowflake_to_json m.message_id) (
      field (bytes "content") (string m.content) (
        field (bytes "timestamp") (string m.timestamp) (
          field (bytes "edited_timestamp") (string m.edited_timestamp) (
            field (bytes "tts") (boolean m.tts) (
              field (bytes "mention_everyone") (boolean m.mention_everyone) (
                field (bytes "pinned") (boolean m.pinned) (
                  field (bytes "type") (number m.type) (
                    field_if (not (m.nonce == 0)) (bytes "nonce") (snowflake_to_json m.nonce) (
                      field_if (not (is_empty_text m.webhook_id)) (bytes "webhook_id")
                        (string m.webhook_id) (message_lists m)))))))))))
