-- ===== src/Utility.antt =====
-- include/aegis/utility.hpp: the texts that are made for requests and for logs. The bytes of a text are
-- below 256. Of a byte from 128 on, `isalnum` is asked as a negative `char`; the model takes it as false, as
-- in the "C" locale.
pub mod Texts
pub mod Uptime
mod Examples
use aegis_cpp.Common.{
  ℕ, zero, suc, ◌+◌, ◌-◌, ◌*◌, ◌/◌, ◌%◌, ◌&&◌, ◌||◌, not, Bool, true, false, List, [], ◌∷◌, ◌++◌,
  Option, none, some, if◌then◌else◌, ltb, leb, ◌==◌,
}
use aegis_cpp.Common.Text.{Text, bytes, decimal, is_alnum, eq_text, is_empty_text}

abbrev pub is_kept : ℕ → Bool
is_kept c = is_alnum c || c == b'-' || c == b'_' || c == b'.' || c == b'~'

-- A digit of std::hex with std::uppercase.
abbrev pub hex_digit : ℕ → ℕ
hex_digit n = if ltb n 10 then 48 + n else 55 + n

abbrev pub percent : ℕ → Text
percent c = b'%' ∷ hex_digit (c / 16) ∷ hex_digit (c % 16) ∷ []

unfoldable pub url_encode : Text → Text
url_encode [] = []
url_encode (c ∷ s) = let rest = url_encode s in if is_kept c then c ∷ rest else percent c ++ rest

unfoldable pub escape_quotes : Text → Text
escape_quotes [] = []
escape_quotes (c ∷ s) =
    let rest = escape_quotes s in if c == b'"' then b'\\' ∷ c ∷ rest else c ∷ rest

-- A part of the uptime with its unit, left out if it is 0.
abbrev pub part : ℕ → Text → Text
part n unit = if n == 0 then [] else decimal n ++ unit

abbrev pub days : ℕ → ℕ
days t = t / 86400

abbrev pub hours : ℕ → ℕ
hours t = t % 86400 / 3600

abbrev pub minutes : ℕ → ℕ
minutes t = t % 86400 % 3600 / 60

abbrev pub rest_seconds : ℕ → ℕ
rest_seconds t = t % 86400 % 3600 % 60

-- The text for a time of so many seconds; the fractions of a second are dropped by each cast.
unfoldable pub uptime_str : ℕ → Text
uptime_str t =
    part (days t) (bytes "d ")
    ++ part (hours t) (bytes "h ")
    ++ part (minutes t) (bytes "m ")
    ++ decimal (rest_seconds t)
    ++ bytes "s "

-- What follows the last point of a text, and whether there is one.
unfoldable pub after_last_point : Text → Option Text
after_last_point [] = none
after_last_point (c ∷ s) = later (after_last_point s)
  where
    later : Option Text → Option Text
    later (some e) = some e
    later none = if c == b'.' then some s else none

-- The type of a file by what follows the point.
unfoldable pub mime_type_of : Text → Text
mime_type_of ext =
    if eq_text ext (bytes "txt")
    then bytes "image/txt"
    else if eq_text ext (bytes "png")
    then bytes "image/png"
    else if eq_text ext (bytes "jpg") || eq_text ext (bytes "jpeg")
    then bytes "image/jpeg"
    else if eq_text ext (bytes "gif")
    then bytes "image/gif"
    else if eq_text ext (bytes "webp")
    then bytes "image/webp"
    else if eq_text ext (bytes "mp4")
    then bytes "video/mp4"
    else if eq_text ext (bytes "ogg")
    then bytes "audio/ogg"
    else if eq_text ext (bytes "wav")
    then bytes "audio/wav"
    else if eq_text ext (bytes "mpg") || eq_text ext (bytes "mpeg")
    then bytes "video/mpeg"
    else if eq_text ext (bytes "mp3")
    then bytes "audio/mp3"
    else if eq_text ext (bytes "flac")
    then bytes "audio/flac"
    else if eq_text ext (bytes "aac")
    then bytes "audio/acc"
    else if eq_text ext (bytes "3gp")
    then bytes "audio/3gpp"
    else if eq_text ext (bytes "js")
    then bytes "text/javascript"
    else if eq_text ext (bytes "json")
    then bytes "text/json"
    else if eq_text ext (bytes "htm") || eq_text ext (bytes "html")
    then bytes "text/html"
    else if eq_text ext (bytes "css")
    then bytes "text/css"
    else bytes "application/octet-stream"

abbrev pub mime_type_or : Option Text → Text
mime_type_or none = bytes "text/plain"
mime_type_or (some ext) = mime_type_of ext

unfoldable pub guess_mime_type : Text → Text
guess_mime_type filename = mime_type_or (after_last_point filename)
