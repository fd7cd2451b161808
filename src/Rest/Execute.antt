-- ===== src/Rest/Execute.antt =====
-- include/aegis/rest/rest_controller.hpp and include/aegis/rest/impl/rest_controller.cpp: the text of a
-- request and the reply. The resolver, the connection with TLS, and the reader of HTTP dates belong to other
-- libraries and are parameters: `resolve` gives the addresses of a host and a port, `exchange` is what comes
-- back for a text that is sent there, where `none` is an exception before an answer was read. The boundary is
-- what `random_string(20)` gave.
pub mod Sending
pub mod Replies
mod Examples
use aegis_cpp.Common.{
  ℕ, suc, ◌-◌, ◌%◌, ◌^◌, Bool, true, false, not, ◌&&◌, ◌||◌, List, [], ◌∷◌, ◌++◌, Option, none,
  some, if◌then◌else◌, length, ltb,
}
use aegis_cpp.Common.Int.{ℤ, pos, negsuc, ◌-ℤ◌, to_signed}
use aegis_cpp.Common.Text.{Text, bytes, decimal, eq_text, is_empty_text, stoul}
use aegis_cpp.Utility.{escape_quotes, guess_mime_type}
use aegis_cpp.Rest.{RequestMethod, RequestParams, AegisFile, RestReply}

-- The controller, with what the resolver gave as the type `E`.
pub record RestController (E : Type 0) : Type 0 where
  pub token : Text
  pub prefix : Text
  pub host : Text
  pub resolver_cache : List (Text × E)
  pub tz_bias : ℤ

abbrev pub get_method : RequestMethod → Text
get_method RequestMethod.post = bytes "POST"
get_method RequestMethod.put = bytes "PUT"
get_method RequestMethod.patch = bytes "PATCH"
get_method RequestMethod.delete = bytes "DELETE"
get_method RequestMethod.get = bytes "GET"

abbrev pub crlf : Text
crlf = 13 ∷ 10 ∷ []

-- AEGIS_VERSION_LONG
abbrev pub version_long : ℕ
version_long = 0x00020600

abbrev pub is_writing : RequestMethod → Bool
is_writing RequestMethod.get = false
is_writing RequestMethod.delete = false
is_writing _ = true

abbrev pub non_empty_or : Text → Text → Text
non_empty_or t u = if is_empty_text t then u else t

-- The part of a file, as `ss` collects it.
abbrev pub file_part : Text → AegisFile → Text
file_part boundary f =
    bytes "--"
    ++ boundary
    ++ crlf
    ++ bytes "Content-Disposition: form-data; name=\"file\"; filename=\""
    ++ escape_quotes f.name
    ++ b'"' ∷ crlf
    ++ bytes "Content-Type: "
    ++ non_empty_or f.content_type (guess_mime_type f.name)
    ++ crlf
    ++ crlf
    ++ f.content
    ++ crlf
    ++ bytes "--"
    ++ boundary
    ++ bytes "--"

abbrev pub content_length : Text → Text
content_length content = bytes "Content-Length: " ++ decimal (length content) ++ crlf

-- What follows the headers that every request has.
abbrev pub rest_of_request : Text → RequestParams → Option AegisFile → Text
rest_of_request boundary p (some f) =
    bytes "Content-Type: multipart/form-data; boundary="
    ++ boundary
    ++ crlf
    ++ bytes "Connection: close"
    ++ crlf
    ++ content_length (file_part boundary f)
    ++ crlf
    ++ file_part boundary f
rest_of_request boundary p none =
    if not (is_empty_text p.body) || is_writing p.method
    then content_length p.body
      ++ bytes "Connection: close"
      ++ crlf
      ++ bytes "Content-Type: application/json"
      ++ crlf
      ++ crlf
      ++ p.body
    else bytes "Connection: close" ++ crlf ++ crlf

module _ {E : Type 0} where
  abbrev pub target_host : RestController E → RequestParams → Text
  target_host c p = if is_empty_text p.host then c.host else p.host

  -- The headers of execute.
  abbrev pub head_of_request : RestController E → RequestParams → Text
  head_of_request c p =
      get_method p.method
      ++ bytes " "
      ++ c.prefix
      ++ p.path
      ++ p.path_ex
      ++ bytes " HTTP/1.0"
      ++ crlf
      ++ bytes "Host: "
      ++ target_host c p
      ++ crlf
      ++ bytes "Accept: */*"
      ++ crlf
      ++ bytes "Authorization: Bot "
      ++ c.token
      ++ crlf
      ++ bytes "User-Agent: DiscordBot (https://github.com/zeroxs/aegis.cpp, "
      ++ decimal version_long
      ++ bytes ")"
      ++ crlf

  abbrev pub request_text : Text → RestController E → RequestParams → Text
  request_text boundary c p = head_of_request c p ++ rest_of_request boundary p p.file

  unfoldable pub find_host : Text → List (Text × E) → Option E
  find_host h [] = none
  find_host h ((k, e) ∷ es) = let rest = find_host h es in if eq_text k h then some e else rest

-- What `hresponse` holds after an answer.
pub record Response : Type 0 where
  pub status_code : ℕ
  pub header : Text → Text
  pub body : Text

-- The values that execute collects before an exception or the end.
pub record Limits : Type 0 where
  pub global : Bool
  pub limit : ℤ
  pub remaining : ℤ
  pub reset : ℤ
  pub retry : ℤ
  pub date : ℤ

abbrev pub no_limits : Limits
no_limits = record {
  global = false;
  limit = pos 0;
  remaining = pos 0;
  reset = pos 0;
  retry = pos 0;
  date = pos 0;
}

-- One `if (!test.empty()) value = std::stoul(test);` with w bits, and what follows, if nothing is thrown. The
-- texts that the reply may come with stand in `l`.
abbrev pub read_header : ℕ → Text → (ℤ → Limits → Limits) → (Limits → Limits) → Limits → Limits
read_header w [] store next l = next l
read_header w (c ∷ s) store next l = stored (stoul (c ∷ s))
  where
    stored : Option ℕ → Limits
    stored none = l
    stored (some n) = next (store (to_signed w n) l)

module _ (from_http_date : Text → ℤ) (tz_bias : ℤ) where
  abbrev pub read_date : Response → Limits → Limits
  read_date r l = record l {
    date = from_http_date (r.header (bytes "Date")) -ℤ tz_bias;
    global = not (is_empty_text (r.header (bytes "X-RateLimit-Global")));
  }

  unfoldable pub read_limits : Response → Limits
  unfolding stoul
  read_limits r =
      read_header 32 (r.header (bytes "X-RateLimit-Limit")) (λ z l. record l { limit = z })
        (read_header 32 (r.header (bytes "X-RateLimit-Remaining"))
          (λ z l. record l { remaining = z })
          (read_header 64 (r.header (bytes "X-RateLimit-Reset")) (λ z l. record l { reset = z })
            (read_header 32 (r.header (bytes "Retry-After")) (λ z l. record l { retry = z })
              (read_date r))))
        no_limits

abbrev pub reply_of : ℤ → ℕ → Text → Limits → RestReply
reply_of execution_time code body l = record {
  reply_code = code;
  global = l.global;
  limit = l.limit;
  remaining = l.remaining;
  reset = l.reset;
  retry = l.retry;
  content = body;
  date = l.date;
  execution_time = execution_time;
}

-- The libraries around execute; `no_status` is the status code of a response that was not read.
pub record Network (E : Type 0) : Type 0 where
  pub resolve : Text → Text → Option E
  pub exchange : E → Text → Option Response
  pub from_http_date : Text → ℤ
  pub no_status : ℕ

module _ {E : Type 0} (n : Network E) (boundary : Text) (execution_time : ℤ) where
  abbrev received : ℤ → Option Response → RestReply
  received bias none = reply_of execution_time n.no_status [] no_limits
  received bias (some r) =
      reply_of execution_time r.status_code r.body (read_limits n.from_http_date bias r)

  abbrev no_reply : RestReply
  no_reply = reply_of execution_time n.no_status [] no_limits

  abbrev resolved : RestController E → RequestParams → Option E → RestReply × RestController E
  resolved c p none = (no_reply, c)
  resolved c p (some e) = (
    received c.tz_bias (n.exchange e (request_text boundary c p)),
    record c { resolver_cache = (target_host c p, e) ∷ c.resolver_cache },
  )

  -- From the look-up of the host on.
  abbrev looked_up : RestController E → RequestParams → Option E → RestReply × RestController E
  looked_up c p none = resolved c p (n.resolve (target_host c p) p.port)
  looked_up c p (some e) = (received c.tz_bias (n.exchange e (request_text boundary c p)), c)

  -- `none` is the exception `REST host not set`.
  unfoldable pub execute : RestController E → RequestParams → Option (RestReply × RestController E)
  unfolding find_host read_limits
  execute c p =
      if is_empty_text c.host && is_empty_text p.host
      then none
      else some (looked_up c p (find_host (target_host c p) c.resolver_cache))
