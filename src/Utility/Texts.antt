-- ===== src/Utility/Texts.antt =====
-- What url_encode and escape_quotes write can be read back.
use aegis_cpp.Common.{
  ℕ, ◌+◌, ◌-◌, ◌*◌, ◌||◌, ◌<◌, ◌≡◌, refl, ap, ◌∙◌, Bool, true, false, [], ◌∷◌, ◌++◌, Option, none,
  some, All, if◌then◌else◌, ltb, ◌==◌, arith, Bool-cases, inl, inr,
}
use aegis_cpp.Common.Text.{Text}
use aegis_cpp.Utility.{is_kept, percent, url_encode, escape_quotes}

abbrev hex_value : ℕ → ℕ
hex_value d = if ltb d b'A' then d - 48 else d - 55

-- What a server reads: `%` and two digits are a byte.
unfoldable pub url_decode : Text → Text
url_decode [] = []
url_decode (c ∷ []) = c ∷ []
url_decode (c ∷ d ∷ []) = c ∷ d ∷ []
url_decode (c ∷ d ∷ e ∷ s) =
    let escaped = url_decode s in
    let plain = url_decode (d ∷ e ∷ s) in
    if c == b'%' then (hex_value d * 16 + hex_value e) ∷ escaped else c ∷ plain

decode-plain : (c : ℕ) (s : Text) → (c == b'%') ≡ false → url_decode (c ∷ s) ≡ c ∷ url_decode s
unfolding url_decode
decode-plain c [] h = refl
decode-plain c (d ∷ []) h = refl
decode-plain c (d ∷ e ∷ s) h = rw h refl

decode-percent : (c : ℕ) (s : Text) → c < 256 → url_decode (percent c ++ s) ≡ c ∷ url_decode s
unfolding url_decode
decode-percent c s h = ap (λ n. n ∷ url_decode s) (ground arith)

kept-plain : (c : ℕ) → is_kept c ≡ true → (c == b'%') ≡ false
kept-plain c h = ground arith

-- Percent-decoding an encoded text of bytes gives the text back.
pub url_decode-url_encode : (s : Text) → All (λ c. c < 256) s → url_decode (url_encode s) ≡ s
unfolding url_encode url_decode
url_decode-url_encode [] h = refl
url_decode-url_encode (c ∷ s) h = elim (Bool-cases (is_kept c)) [
  | inl e ↦ rw e (
      decode-plain c (url_encode s) (kept-plain c e)
      ∙ ap (λ t. c ∷ t) (url_decode-url_encode s h.1))
  | inr e ↦
      rw e (decode-percent c (url_encode s) h.0 ∙ ap (λ t. c ∷ t) (url_decode-url_encode s h.1))
]

-- The bytes that an encoded text consists of.
abbrev is_safe : ℕ → Bool
is_safe c = is_kept c || c == b'%'

percent_safe : (c : ℕ) → c < 256 → All (λ d. is_safe d ≡ true) (percent c)
percent_safe c h = (ground arith, (ground arith, (ground arith, tt)))

safe_append :
    (s t : Text)
    → All (λ d. is_safe d ≡ true) s
    → All (λ d. is_safe d ≡ true) t
    → All (λ d. is_safe d ≡ true) (s ++ t)
safe_append [] t h k = k
safe_append (c ∷ s) t h k = (h.0, safe_append s t h.1 k)

kept-safe : (c : ℕ) → is_kept c ≡ true → is_safe c ≡ true
kept-safe c h = ground (arith, h)

-- An encoded text of bytes consists of letters, digits, `-`, `_`, `.`, `~` and `%`; there is no `/`, `?` or
-- space, so that it is one part of a path.
url_encode-All_safe : (s : Text) → All (λ c. c < 256) s → All (λ d. is_safe d ≡ true) (url_encode s)
unfolding url_encode
url_encode-All_safe [] h = tt
url_encode-All_safe (c ∷ s) h = elim (Bool-cases (is_kept c)) [
  | inl e ↦ rw e (kept-safe c e, url_encode-All_safe s h.1)
  | inr e ↦
      rw e (safe_append (percent c) (url_encode s) (percent_safe c h.0) (url_encode-All_safe s h.1))
]

abbrev put : ℕ → Option (Text × Text) → Option (Text × Text)
put c none = none
put c (some p) = some (c ∷ p.0, p.1)

-- A quoted string as RFC 822 reads it, behind its first quote: the text up to the first quote that has no
-- backslash before it, and what follows. The flag is whether a backslash was read.
unfoldable pub read_quoted : Bool → Text → Option (Text × Text)
read_quoted b [] = none
read_quoted true (c ∷ s) = put c (read_quoted false s)
read_quoted false (c ∷ s) =
    let escaped = read_quoted true s in
    let plain = read_quoted false s in
    if c == b'"' then some ([], s) else if c == b'\\' then escaped else put c plain

-- An escaped text without a backslash, between quotes, is read back as it was, and what follows the second
-- quote is not touched.
pub read_quoted-escape_quotes :
    (s rest : Text)
    → All (λ c. (c == b'\\') ≡ false) s
    → read_quoted false (escape_quotes s ++ b'"' ∷ rest) ≡ some (s, rest)
unfolding escape_quotes read_quoted
read_quoted-escape_quotes [] rest h = refl
read_quoted-escape_quotes (c ∷ s) rest h = elim (Bool-cases (c == b'"')) [
  | inl e ↦ rw (e, read_quoted-escape_quotes s rest h.1)
  | inr e ↦ rw (e, e, h.0, read_quoted-escape_quotes s rest h.1)
]
