-- ===== src/Objects/Activities/Kept.antt =====
-- What is read of the parts of an activity that were written.
use aegis_cpp.Common.{
  ◌||◌, ◌≡◌, refl, ap, ◌∙◌, Bool, true, false, not, [], ◌∷◌, none, some, ◌>>=◌, if◌then◌else◌,
}
use aegis_cpp.Common.Int.{pos, ◌==ℤ◌}
use aegis_cpp.Common.Text.{Text, bytes, eq_text, is_empty_text}
use aegis_cpp.Json.{Fields, string, end, field, at, get_field}
use aegis_cpp.Objects.{text_or, drop_null, field_if, get_field-field_if, get_field-field_if_other}
use aegis_cpp.Objects.Activities.{
  built, Party, party_from_json, party_to_json, Asset, asset_fields, asset_from_json, asset_to_json,
  Secret, secret_fields, secret_from_json, secret_to_json,
}

-- A value without a field is null, in which nothing is found either.
at-built : (k : Text) (fs : Fields) → at k (built fs) ≡ get_field k fs
at-built k end = refl
at-built k (field j v fs) = refl

skip :
    (k j : Text) (t : Text) (rest : Fields)
    → eq_text k j ≡ false
    → get_field j (field_if (not (is_empty_text t)) k (string t) rest) ≡ get_field j rest
skip k j t rest h = get_field-field_if_other (not (is_empty_text t)) k j (string t) rest h

-- A text that is written if it is not empty is read again.
text_or-field_if :
    (k t : Text) (rest : Fields)
    → eq_text k k ≡ true
    → get_field k rest ≡ none
    → text_or [] (drop_null (get_field k (field_if (not (is_empty_text t)) k (string t) rest)))
      ≡ some t
text_or-field_if k [] rest same h =
    ap (λ x. text_or [] (drop_null x)) (get_field-field_if false k k (string []) rest ∙ h)
text_or-field_if k (c ∷ s) rest same h =
    ap (λ x. text_or [] (drop_null x))
      (get_field-field_if true k k (string (c ∷ s)) rest
        ∙ ap (λ b. if b then some (string (c ∷ s)) else get_field k rest) same)

module _ (a : Asset) where
  abbrev from_small_text : Fields
  from_small_text =
      field_if (not (is_empty_text a.small_text)) (bytes "small_text") (string a.small_text) end

  abbrev from_small_image : Fields
  from_small_image =
      field_if (not (is_empty_text a.small_image)) (bytes "small_image") (string a.small_image)
        from_small_text

  abbrev from_large_text : Fields
  from_large_text =
      field_if (not (is_empty_text a.large_text)) (bytes "large_text") (string a.large_text)
        from_small_image

  read_large_image :
      text_or [] (drop_null (get_field (bytes "large_image") (asset_fields a))) ≡ some a.large_image
  unfolding asset_fields
  read_large_image = text_or-field_if (bytes "large_image") a.large_image from_large_text refl (
      skip (bytes "large_text") (bytes "large_image") a.large_text from_small_image refl
      ∙ skip (bytes "small_image") (bytes "large_image") a.small_image from_small_text refl
      ∙ skip (bytes "small_text") (bytes "large_image") a.small_text end refl)

  read_large_text :
      text_or [] (drop_null (get_field (bytes "large_text") (asset_fields a))) ≡ some a.large_text
  unfolding asset_fields
  read_large_text =
      ap (λ x. text_or [] (drop_null x))
        (skip (bytes "large_image") (bytes "large_text") a.large_image from_large_text refl)
      ∙ text_or-field_if (bytes "large_text") a.large_text from_small_image refl (
          skip (bytes "small_image") (bytes "large_text") a.small_image from_small_text refl
          ∙ skip (bytes "small_text") (bytes "large_text") a.small_text end refl)

  read_small_image :
      text_or [] (drop_null (get_field (bytes "small_image") (asset_fields a))) ≡ some a.small_image
  unfolding asset_fields
  read_small_image =
      ap (λ x. text_or [] (drop_null x))
        (skip (bytes "large_image") (bytes "small_image") a.large_image from_large_text refl
          ∙ skip (bytes "large_text") (bytes "small_image") a.large_text from_small_image refl)
      ∙ text_or-field_if (bytes "small_image") a.small_image from_small_text refl
          (skip (bytes "small_text") (bytes "small_image") a.small_text end refl)

  read_small_text :
      text_or [] (drop_null (get_field (bytes "small_text") (asset_fields a))) ≡ some a.small_text
  unfolding asset_fields
  read_small_text =
      ap (λ x. text_or [] (drop_null x))
        (skip (bytes "large_image") (bytes "small_text") a.large_image from_large_text refl
          ∙ skip (bytes "large_text") (bytes "small_text") a.large_text from_small_image refl
          ∙ skip (bytes "small_image") (bytes "small_text") a.small_image from_small_text refl)
      ∙ text_or-field_if (bytes "small_text") a.small_text end refl (refl)

  -- The texts of an activity that are written are read again, empty or not.
  pub asset_from_json-to_json : asset_from_json (asset_to_json a) ≡ some a
  unfolding asset_from_json asset_to_json
  asset_from_json-to_json =
      rw
        (
          at-built (bytes "large_image") (asset_fields a),
          read_large_image,
          at-built (bytes "large_text") (asset_fields a),
          read_large_text,
          at-built (bytes "small_image") (asset_fields a),
          read_small_image,
          at-built (bytes "small_text") (asset_fields a),
          read_small_text,
        )
        refl

module _ (s : Secret) where
  abbrev from_match : Fields
  from_match = field_if (not (is_empty_text s.match)) (bytes "match") (string s.match) end

  abbrev from_spectate : Fields
  from_spectate =
      field_if (not (is_empty_text s.spectate)) (bytes "spectate") (string s.spectate) from_match

  read_join : text_or [] (drop_null (get_field (bytes "join") (secret_fields s))) ≡ some s.join
  unfolding secret_fields
  read_join = text_or-field_if (bytes "join") s.join from_spectate refl (
      skip (bytes "spectate") (bytes "join") s.spectate from_match refl
      ∙ skip (bytes "match") (bytes "join") s.match end refl)

  read_spectate :
      text_or [] (drop_null (get_field (bytes "spectate") (secret_fields s))) ≡ some s.spectate
  unfolding secret_fields
  read_spectate =
      ap (λ x. text_or [] (drop_null x))
        (skip (bytes "join") (bytes "spectate") s.join from_spectate refl)
      ∙ text_or-field_if (bytes "spectate") s.spectate from_match refl
          (skip (bytes "match") (bytes "spectate") s.match end refl)

  read_match : text_or [] (drop_null (get_field (bytes "match") (secret_fields s))) ≡ some s.match
  unfolding secret_fields
  read_match =
      ap (λ x. text_or [] (drop_null x))
        (skip (bytes "join") (bytes "match") s.join from_spectate refl
          ∙ skip (bytes "spectate") (bytes "match") s.spectate from_match refl)
      ∙ text_or-field_if (bytes "match") s.match end refl (refl)

  -- So are its secrets.
  pub secret_from_json-to_json : secret_from_json (secret_to_json s) ≡ some s
  unfolding secret_from_json secret_to_json
  secret_from_json-to_json =
      rw
        (
          at-built (bytes "join") (secret_fields s),
          read_join,
          at-built (bytes "spectate") (secret_fields s),
          read_spectate,
          at-built (bytes "match") (secret_fields s),
          read_match,
        )
        refl

-- A party with both sizes cannot be written; another one is, and is read again without a size.
pub party_from_json-to_json :
    (p : Party) (b : Bool)
    → (p.current_size ==ℤ pos 0 || p.max_size ==ℤ pos 0) ≡ b
    → (party_to_json p >>= party_from_json)
      ≡ (if b then some (record p { current_size = pos 0; max_size = pos 0 }) else none)
unfolding party_from_json party_to_json
party_from_json-to_json p false h = rw h refl
party_from_json-to_json p true h =
    rw
      (
        h,
        at-built (bytes "id") (field_if (not (is_empty_text p.id)) (bytes "id") (string p.id) end),
        text_or-field_if (bytes "id") p.id end refl refl,
      )
      refl
