-- ===== src/Objects/Embed/Shown.antt =====
-- What is read of an embed that was written.
use aegis_cpp.Common.{
  ◌≡◌, refl, ap, ◌∙◌, Bool, true, false, not, List, [], ◌∷◌, none, some, if◌then◌else◌,
}
use aegis_cpp.Common.Text.{Text, bytes, is_empty_text, eq_text}
use aegis_cpp.Json.{Fields, string, end, get_field}
use aegis_cpp.Objects.{
  IsInt32, drop_null, text_or, object_or, read_list, field_if, list_field, get_field-field_if,
  get_field-field_if_other, get_field-list_field_other, read_items-items,
}
use aegis_cpp.Objects.Embed.{
  Footer, Image, Embed, EmbedField, new_footer, new_image, new_video, new_provider,
  footer_from_json, footer_to_json, image_from_json, thumbnail_from_json, image_to_json,
  field_from_json, field_to_json, optional_fields, embed_from_json, embed_to_json,
}

-- A footer without a text is not written, and the address of the proxy is not either.
abbrev pub shown_footer : Footer → Footer
shown_footer f = if not (is_empty_text f.text) then record f { proxy_icon_url = [] } else new_footer

abbrev pub shown_image : Image → Image
shown_image i = if not (is_empty_text i.url) then record i { proxy_url = [] } else new_image

-- What is left of an embed.
abbrev pub shown : Embed → Embed
shown e = record e {
  type = [];
  footer = shown_footer e.footer;
  image = shown_image e.image;
  thumbnail = shown_image e.thumbnail;
  video = new_video;
  provider = new_provider;
}

module _ (e : Embed) where
  abbrev with_fields : Fields
  with_fields = list_field field_to_json (bytes "fields") e.fields end

  abbrev with_thumbnail : Fields
  with_thumbnail =
      field_if (not (is_empty_text e.thumbnail.url)) (bytes "thumbnail") (image_to_json e.thumbnail)
        with_fields

  abbrev with_image : Fields
  with_image =
      field_if (not (is_empty_text e.image.url)) (bytes "image") (image_to_json e.image)
        with_thumbnail

  abbrev with_footer : Fields
  with_footer =
      field_if (not (is_empty_text e.footer.text)) (bytes "footer") (footer_to_json e.footer)
        with_image

  -- The fields behind that of the image do not have another key.
  past_image :
      (k : Text)
      → eq_text (bytes "image") k ≡ false
      → eq_text (bytes "thumbnail") k ≡ false
      → get_field k with_image ≡ get_field k with_fields
  past_image k i t =
      get_field-field_if_other (not (is_empty_text e.image.url)) (bytes "image") k
        (image_to_json e.image) with_thumbnail i
      ∙ get_field-field_if_other (not (is_empty_text e.thumbnail.url)) (bytes "thumbnail") k
          (image_to_json e.thumbnail) with_fields t

  past_footer :
      (k : Text)
      → eq_text (bytes "url") k ≡ false
      → eq_text (bytes "footer") k ≡ false
      → get_field k (optional_fields e) ≡ get_field k with_image
  unfolding optional_fields
  past_footer k u f =
      get_field-field_if_other (not (is_empty_text e.url)) (bytes "url") k (string e.url)
        with_footer u
      ∙ get_field-field_if_other (not (is_empty_text e.footer.text)) (bytes "footer") k
          (footer_to_json e.footer) with_image f

  absent :
      (k : Text)
      → eq_text (bytes "url") k ≡ false
      → eq_text (bytes "footer") k ≡ false
      → eq_text (bytes "image") k ≡ false
      → eq_text (bytes "thumbnail") k ≡ false
      → eq_text (bytes "fields") k ≡ false
      → get_field k (optional_fields e) ≡ none
  absent k u f i t l =
      past_footer k u f
      ∙ past_image k i t
      ∙ get_field-list_field_other field_to_json (bytes "fields") k e.fields end l

  no_fields : (k : Text) → eq_text (bytes "fields") k ≡ false → get_field k with_fields ≡ none
  no_fields k l = get_field-list_field_other field_to_json (bytes "fields") k e.fields end l

  url_field :
      get_field (bytes "url") (optional_fields e)
      ≡ (if not (is_empty_text e.url) then some (string e.url) else none)
  unfolding optional_fields
  url_field =
      get_field-field_if (not (is_empty_text e.url)) (bytes "url") (bytes "url") (string e.url)
        with_footer
      ∙ ap (λ x. if not (is_empty_text e.url) then some (string e.url) else x)
          (get_field-field_if_other (not (is_empty_text e.footer.text)) (bytes "footer")
              (bytes "url") (footer_to_json e.footer) with_image refl
            ∙ past_image (bytes "url") refl refl
            ∙ no_fields (bytes "url") refl)

  footer_field :
      get_field (bytes "footer") (optional_fields e)
      ≡ (if not (is_empty_text e.footer.text) then some (footer_to_json e.footer) else none)
  unfolding optional_fields
  footer_field =
      get_field-field_if_other (not (is_empty_text e.url)) (bytes "url") (bytes "footer")
        (string e.url) with_footer refl
      ∙ get_field-field_if (not (is_empty_text e.footer.text)) (bytes "footer") (bytes "footer")
          (footer_to_json e.footer) with_image
      ∙ ap (λ x. if not (is_empty_text e.footer.text) then some (footer_to_json e.footer) else x)
          (past_image (bytes "footer") refl refl ∙ no_fields (bytes "footer") refl)

  image_field :
      get_field (bytes "image") (optional_fields e)
      ≡ (if not (is_empty_text e.image.url) then some (image_to_json e.image) else none)
  image_field =
      past_footer (bytes "image") refl refl
      ∙ get_field-field_if (not (is_empty_text e.image.url)) (bytes "image") (bytes "image")
          (image_to_json e.image) with_thumbnail
      ∙ ap (λ x. if not (is_empty_text e.image.url) then some (image_to_json e.image) else x)
          (get_field-field_if_other (not (is_empty_text e.thumbnail.url)) (bytes "thumbnail")
              (bytes "image") (image_to_json e.thumbnail) with_fields refl
            ∙ no_fields (bytes "image") refl)

  thumbnail_field :
      get_field (bytes "thumbnail") (optional_fields e)
      ≡ (if not (is_empty_text e.thumbnail.url) then some (image_to_json e.thumbnail) else none)
  thumbnail_field =
      past_footer (bytes "thumbnail") refl refl
      ∙ get_field-field_if_other (not (is_empty_text e.image.url)) (bytes "image")
          (bytes "thumbnail") (image_to_json e.image) with_thumbnail refl
      ∙ get_field-field_if (not (is_empty_text e.thumbnail.url)) (bytes "thumbnail")
          (bytes "thumbnail") (image_to_json e.thumbnail) with_fields
      ∙ ap
          (λ x. if not (is_empty_text e.thumbnail.url) then some (image_to_json e.thumbnail) else x)
          (no_fields (bytes "thumbnail") refl)

  fields_field :
      get_field (bytes "fields") (optional_fields e) ≡ get_field (bytes "fields") with_fields
  fields_field = past_footer (bytes "fields") refl refl ∙ past_image (bytes "fields") refl refl

text_or-if :
    (t : Text)
    → text_or [] (drop_null (if not (is_empty_text t) then some (string t) else none)) ≡ some t
text_or-if [] = refl
text_or-if (c ∷ s) = refl

footer-shown :
    (f : Footer)
    → object_or footer_from_json new_footer
        (drop_null (if not (is_empty_text f.text) then some (footer_to_json f) else none))
      ≡ some (shown_footer f)
unfolding footer_from_json footer_to_json
footer-shown f = by_text (is_empty_text f.text) refl
  where
    by_text :
        (b : Bool)
        → is_empty_text f.text ≡ b
        → object_or footer_from_json new_footer
            (drop_null (if not (is_empty_text f.text) then some (footer_to_json f) else none))
          ≡ some (shown_footer f)
    by_text true h = rw h refl
    by_text false h = rw h refl

image-shown :
    (i : Image)
    → IsInt32 i.height
    → IsInt32 i.width
    → (object_or image_from_json new_image
          (drop_null (if not (is_empty_text i.url) then some (image_to_json i) else none))
        ≡ some (shown_image i))
      × (object_or thumbnail_from_json new_image
            (drop_null (if not (is_empty_text i.url) then some (image_to_json i) else none))
          ≡ some (shown_image i))
unfolding image_from_json thumbnail_from_json image_to_json
image-shown i h w = by_url (is_empty_text i.url) refl
  where
    by_url :
        (b : Bool)
        → is_empty_text i.url ≡ b
        → (object_or image_from_json new_image
              (drop_null (if not (is_empty_text i.url) then some (image_to_json i) else none))
            ≡ some (shown_image i))
          × (object_or thumbnail_from_json new_image
                (drop_null (if not (is_empty_text i.url) then some (image_to_json i) else none))
              ≡ some (shown_image i))
    by_url true q = rw q (refl, refl)
    by_url false q = rw (q, h, w) (refl, refl)

field-read : (f : EmbedField) → field_from_json (field_to_json f) ≡ some f
unfolding field_from_json field_to_json
field-read f = refl

fields-read :
    (e : Embed)
    → read_list field_from_json (drop_null (get_field (bytes "fields") (with_fields e)))
      ≡ some e.fields
unfolding list_field
fields-read e = by_fields e.fields
  where
    by_fields :
        (fs : List EmbedField)
        → read_list field_from_json (
            drop_null
              (get_field (bytes "fields") (list_field field_to_json (bytes "fields") fs end)))
          ≡ some fs
    by_fields [] = refl
    by_fields (f ∷ fs) = read_items-items field_from_json field_to_json (f ∷ fs) field-read

-- An embed that is written as JSON is read again, but for its type, its video, its provider and the addresses of
-- proxies, and for a footer without a text and an image or a thumbnail without an address, if its numbers are
-- of 32 bits.
pub embed_from_json-to_json :
    (e : Embed)
    → IsInt32 e.color
    → IsInt32 e.image.height
    → IsInt32 e.image.width
    → IsInt32 e.thumbnail.height
    → IsInt32 e.thumbnail.width
    → embed_from_json (embed_to_json e) ≡ some (shown e)
unfolding embed_from_json embed_to_json
embed_from_json-to_json e c ih iw th tw =
    rw
      (
        absent e (bytes "type") refl refl refl refl refl,
        absent e (bytes "video") refl refl refl refl refl,
        absent e (bytes "provider") refl refl refl refl refl,
        url_field e,
        text_or-if e.url,
        footer_field e,
        footer-shown e.footer,
        image_field e,
        (image-shown e.image ih iw).0,
        thumbnail_field e,
        (image-shown e.thumbnail th tw).1,
        fields_field e,
        fields-read e,
        c,
      )
      refl
