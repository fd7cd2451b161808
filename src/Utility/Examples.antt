-- ===== src/Utility/Examples.antt =====
-- Runs of the functions on texts.
use aegis_cpp.Common.{◌<◌, ◌≡◌, refl, arith, ◌∷◌, ◌++◌, All, none, some, false}
use aegis_cpp.Common.Text.{Text, bytes, decimal, digits}
use aegis_cpp.Utility.{
  url_encode, escape_quotes, uptime_str, guess_mime_type, mime_type_of, after_last_point,
}
use aegis_cpp.Utility.Texts.{
  url_decode, url_decode-url_encode, read_quoted, read_quoted-escape_quotes,
}

-- A thumb, as the four bytes of UTF-8, and a custom emoji.
abbrev emoji : Text
emoji = 240 ∷ 159 ∷ 145 ∷ 141 ∷ bytes "a:1/2"

encoded : url_encode emoji ≡ bytes "%F0%9F%91%8Da%3A1%2F2"
unfolding url_encode
encoded = refl

emoji_bytes : All (λ c. c < 256) emoji
emoji_bytes = (
  omega arith,
  (
    omega arith,
    (
      omega arith,
      (omega arith, (omega arith, (omega arith, (omega arith, (omega arith, (omega arith, tt)))))),
    ),
  ),
)

url_decode-url_encode_example : url_decode (url_encode emoji) ≡ emoji
url_decode-url_encode_example = url_decode-url_encode emoji emoji_bytes

abbrev name : Text
name = bytes "a\"b"

read_quoted-escape_quotes_example :
    read_quoted false (escape_quotes name ++ b'"' ∷ bytes "; x") ≡ some (name, bytes "; x")
read_quoted-escape_quotes_example =
    read_quoted-escape_quotes name (bytes "; x") (refl, (refl, (refl, tt)))

-- A backslash at the end takes the closing quote for itself.
backslash : read_quoted false (escape_quotes (bytes "a\\") ++ b'"' ∷ bytes "; x") ≡ none
unfolding read_quoted escape_quotes
backslash = refl

uptime : uptime_str 93784 ≡ bytes "1d 2h 3m 4s "
unfolding uptime_str decimal digits
uptime = refl

no_point : guess_mime_type (bytes "README") ≡ bytes "text/plain"
unfolding guess_mime_type after_last_point
no_point = refl

last_point : guess_mime_type (bytes "a.b.png") ≡ bytes "image/png"
unfolding guess_mime_type after_last_point mime_type_of
last_point = refl
