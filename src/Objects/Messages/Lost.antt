-- ===== src/Objects/Messages/Lost.antt =====
-- A message that was written cannot be read.
use aegis_cpp.Common.{◌==◌, ◌≡◌, refl, ◌∙◌, not, none}
use aegis_cpp.Common.Text.{bytes, is_empty_text}
use aegis_cpp.Json.{string, snowflake_to_json, snowflake_from_json, end, get_field}
use aegis_cpp.Objects.{field_if, get_field-field_if_other, get_field-list_field_other}
use aegis_cpp.Objects.Embed.{embed_to_json}
use aegis_cpp.Objects.Things.{attachment_to_json}
use aegis_cpp.Objects.Messages.{
  MessageObject, message_from_json, message_to_json, message_lists, reaction_to_json,
}

module _ (m : MessageObject) where
  no_channel_in_lists : get_field (bytes "channel_id") (message_lists m) ≡ none
  unfolding message_lists
  no_channel_in_lists =
      get_field-list_field_other snowflake_to_json (bytes "mentions") (bytes "channel_id")
        m.mentions _ refl
      ∙ get_field-list_field_other snowflake_to_json (bytes "roles") (bytes "channel_id")
          m.mention_roles _ refl
      ∙ get_field-list_field_other attachment_to_json (bytes "attachments") (bytes "channel_id")
          m.attachments _ refl
      ∙ get_field-list_field_other embed_to_json (bytes "embeds") (bytes "channel_id") m.embeds _
          refl
      ∙ get_field-list_field_other reaction_to_json (bytes "reactions") (bytes "channel_id")
          m.reactions end refl

  -- The channel is not written, which the reader takes without a test.
  pub message_from_json-to_json : message_from_json (message_to_json m) ≡ none
  unfolding message_from_json message_to_json snowflake_to_json snowflake_from_json
  message_from_json-to_json =
      rw
        (
          get_field-field_if_other (not (m.nonce == 0)) (bytes "nonce") (bytes "channel_id")
              (snowflake_to_json m.nonce)
              (field_if (not (is_empty_text m.webhook_id)) (bytes "webhook_id")
                (string m.webhook_id) (message_lists m))
              refl,
          get_field-field_if_other (not (is_empty_text m.webhook_id)) (bytes "webhook_id")
              (bytes "channel_id") (string m.webhook_id) (message_lists m) refl,
          no_channel_in_lists,
        )
        refl
