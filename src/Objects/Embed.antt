-- ===== src/Objects/Embed.antt =====
-- An embed and its parts: include/aegis/gateway/objects/embed.hpp, footer.hpp, image.hpp, thumbnail.hpp, video.hpp,
-- provider.hpp and field.hpp.
pub mod Shown
use aegis_cpp.Common.{ℕ, Bool, true, false, not, List, [], Option, none, some, ◌>>=◌}
use aegis_cpp.Common.Int.{ℤ, pos}
use aegis_cpp.Common.Text.{Text, bytes, is_empty_text}
use aegis_cpp.Json.{Value, Fields, boolean, number, string, object, end, field, at}
use aegis_cpp.Objects.{
  given, text_or, int32_or, bool_or, object_or, read_list, read_items, read_values, field_if,
  list_field, items,
}

pub record Footer : Type 0 where
  pub text : Text
  pub icon_url : Text
  pub proxy_icon_url : Text

-- image, and thumbnail, which has the same fields.
pub record Image : Type 0 where
  pub url : Text
  pub proxy_url : Text
  pub height : ℤ
  pub width : ℤ

pub record Video : Type 0 where
  pub url : Text
  pub height : ℤ
  pub width : ℤ

pub record Provider : Type 0 where
  pub name : Text
  pub url : Text

pub record EmbedField : Type 0 where
  pub name : Text
  pub value : Text
  pub is_inline : Bool

pub record Embed : Type 0 where
  pub title : Text
  pub type : Text
  pub description : Text
  pub url : Text
  pub timestamp : Text
  pub color : ℤ
  pub footer : Footer
  pub image : Image
  pub thumbnail : Image
  pub video : Video
  pub provider : Provider
  pub fields : List EmbedField

abbrev pub new_footer : Footer
new_footer = record { text = []; icon_url = []; proxy_icon_url = [] }

abbrev pub new_image : Image
new_image = record { url = []; proxy_url = []; height = pos 0; width = pos 0 }

abbrev pub new_video : Video
new_video = record { url = []; height = pos 0; width = pos 0 }

abbrev pub new_provider : Provider
new_provider = record { name = []; url = [] }

unfoldable pub footer_from_json : Value → Option Footer
footer_from_json j = do
  text ← text_or [] (given (bytes "text") j)
  icon_url ← text_or [] (given (bytes "icon_url") j)
  proxy_icon_url ← text_or [] (given (bytes "proxy_icon_url") j)
  some (record { text = text; icon_url = icon_url; proxy_icon_url = proxy_icon_url })

unfoldable pub footer_to_json : Footer → Value
footer_to_json f =
    object (field (bytes "text") (string f.text) (field (bytes "icon_url") (string f.icon_url) end))

unfoldable pub image_from_json : Value → Option Image
image_from_json j = do
  url ← text_or [] (given (bytes "url") j)
  proxy_url ← text_or [] (given (bytes "proxy_url") j)
  height ← int32_or (pos 0) (given (bytes "height") j)
  width ← int32_or (pos 0) (given (bytes "width") j)
  some (record { url = url; proxy_url = proxy_url; height = height; width = width })

-- The addresses of a thumbnail are not tested for null.
unfoldable pub thumbnail_from_json : Value → Option Image
thumbnail_from_json j = do
  url ← text_or [] (at (bytes "url") j)
  proxy_url ← text_or [] (at (bytes "proxy_url") j)
  height ← int32_or (pos 0) (given (bytes "height") j)
  width ← int32_or (pos 0) (given (bytes "width") j)
  some (record { url = url; proxy_url = proxy_url; height = height; width = width })

-- to_json of an image and of a thumbnail
unfoldable pub image_to_json : Image → Value
image_to_json i = object (
    field (bytes "url") (string i.url)
      (field (bytes "height") (number i.height) (field (bytes "width") (number i.width) end)))

unfoldable pub video_from_json : Value → Option Video
video_from_json j = do
  url ← text_or [] (at (bytes "url") j)
  height ← int32_or (pos 0) (given (bytes "height") j)
  width ← int32_or (pos 0) (given (bytes "width") j)
  some (record { url = url; height = height; width = width })

unfoldable pub provider_from_json : Value → Option Provider
provider_from_json j = do
  name ← text_or [] (given (bytes "name") j)
  url ← text_or [] (given (bytes "url") j)
  some (record { name = name; url = url })

unfoldable pub field_from_json : Value → Option EmbedField
field_from_json j = do
  name ← text_or [] (at (bytes "name") j)
  value ← text_or [] (at (bytes "value") j)
  is_inline ← bool_or false (at (bytes "inline") j)
  some (record { name = name; value = value; is_inline = is_inline })

unfoldable pub field_to_json : EmbedField → Value
field_to_json f = object (
    field (bytes "name") (string f.name)
      (field (bytes "value") (string f.value) (field (bytes "inline") (boolean f.is_inline) end)))

unfoldable pub embed_from_json : Value → Option Embed
unfolding footer_from_json image_from_json thumbnail_from_json video_from_json provider_from_json
    field_from_json read_items read_values
embed_from_json j = do
  title ← text_or [] (given (bytes "title") j)
  type ← text_or [] (at (bytes "type") j)
  description ← text_or [] (given (bytes "description") j)
  url ← text_or [] (given (bytes "url") j)
  timestamp ← text_or [] (given (bytes "timestamp") j)
  color ← int32_or (pos 0) (given (bytes "color") j)
  footer ← object_or footer_from_json new_footer (given (bytes "footer") j)
  image ← object_or image_from_json new_image (given (bytes "image") j)
  thumbnail ← object_or thumbnail_from_json new_image (given (bytes "thumbnail") j)
  video ← object_or video_from_json new_video (given (bytes "video") j)
  provider ← object_or provider_from_json new_provider (given (bytes "provider") j)
  fields ← read_list field_from_json (given (bytes "fields") j)
  some (record {
    title = title;
    type = type;
    description = description;
    url = url;
    timestamp = timestamp;
    color = color;
    footer = footer;
    image = image;
    thumbnail = thumbnail;
    video = video;
    provider = provider;
    fields = fields;
  })

-- The fields that are written only if there is something to write.
unfoldable pub optional_fields : Embed → Fields
unfolding field_if list_field footer_to_json image_to_json field_to_json
optional_fields e = field_if (not (is_empty_text e.url)) (bytes "url") (string e.url) (
    field_if (not (is_empty_text e.footer.text)) (bytes "footer") (footer_to_json e.footer) (
      field_if (not (is_empty_text e.image.url)) (bytes "image") (image_to_json e.image) (
        field_if (not (is_empty_text e.thumbnail.url)) (bytes "thumbnail")
          (image_to_json e.thumbnail) (list_field field_to_json (bytes "fields") e.fields end))))

unfoldable pub embed_to_json : Embed → Value
unfolding optional_fields
embed_to_json e = object (
    field (bytes "title") (string e.title) (
      field (bytes "description") (string e.description) (
        field (bytes "timestamp") (string e.timestamp)
          (field (bytes "color") (number e.color) (optional_fields e)))))
