-- ===== src/Rest/Execute/Examples.antt =====
-- Requests over a network that answers from the port it was asked on.
use aegis_cpp.Common.{◌≡◌, refl, false, [], ◌∷◌, none, some, if◌then◌else◌, inl, inr, arith}
use aegis_cpp.Common.Int.{pos, ◌-ℤ◌}
use aegis_cpp.Common.Text.{Text, bytes, to_text, decimal, digits, eq_text}
use aegis_cpp.Rest.{RestReply, RequestParams, RequestMethod, AegisFile}
use aegis_cpp.Action.{request}
use aegis_cpp.Rest.Execute.{
  RestController, Network, Response, find_host, request_text, execute, read_limits, rest_of_request,
}
use aegis_cpp.Rest.Execute.Sending.{request_text-file, execute-cached}
use aegis_cpp.Rest.Execute.Replies.{read_limits-headers}

abbrev controller : RestController Text
controller = record {
  token = bytes "T";
  prefix = bytes "/api";
  host = bytes "discord.com";
  resolver_cache = [];
  tz_bias = pos 0;
}

abbrev headers : Text → Text
headers name = if eq_text name (bytes "X-RateLimit-Limit") then bytes "5" else bytes "-1"

-- The addresses are the port; only the port 443 answers.
abbrev network : Network Text
network = record {
  resolve = λ host port. some port;
  exchange = λ e text.
      if eq_text e (bytes "443")
      then some (record { status_code = 200; header = headers; body = [] })
      else none;
  from_http_date = λ t. pos 0;
  no_status = 0;
}

-- What get_messages asks for, with an empty port, and what another action asks for.
abbrev messages : RequestParams
messages = record (request (bytes "/channels/1/messages") RequestMethod.get []) { port = [] }

abbrev typing : RequestParams
typing = request (bytes "/channels/1/typing") RequestMethod.post []

abbrev nothing : RestReply
nothing = record {
  reply_code = 0;
  global = false;
  limit = pos 0;
  remaining = pos 0;
  reset = pos 0;
  retry = pos 0;
  content = [];
  date = pos 0;
  execution_time = pos 1;
}

abbrev after_messages : RestController Text
after_messages = record controller { resolver_cache = (bytes "discord.com", []) ∷ [] }

messages_run : execute network [] (pos 1) controller messages ≡ some (nothing, after_messages)
unfolding execute find_host
messages_run = refl

-- The second request fails as well, although its port is 443.
execute-cached_example :
    execute network [] (pos 1) after_messages typing ≡ some (nothing, after_messages)
unfolding find_host
execute-cached_example =
    execute-cached network [] (pos 1) controller after_messages messages typing [] nothing refl refl
      refl messages_run refl refl

abbrev file : AegisFile
file = record { name = bytes "a.png"; content = 1 ∷ 2 ∷ []; content_type = [] }

abbrev upload : RequestParams
upload = record typing { body = bytes "{\"content\":\"hello\"}"; file = some file }

request_text-file_example :
    request_text (bytes "B") controller (record upload { body = [] })
    ≡ request_text (bytes "B") controller upload
request_text-file_example = request_text-file (bytes "B") controller upload file [] refl

typing_rest :
    rest_of_request [] typing none
    ≡ bytes "Content-Length: 0\r\nConnection: close\r\nContent-Type: application/json\r\n\r\n"
unfolding decimal digits
typing_rest = refl

-- Without X-RateLimit-Reset.
abbrev numbers : Text → Text
numbers name =
    if eq_text name (bytes "X-RateLimit-Limit")
    then bytes "5"
    else if eq_text name (bytes "X-RateLimit-Remaining")
    then bytes "3"
    else if eq_text name (bytes "Retry-After")
    then bytes "120"
    else []

abbrev answer : Response
answer = record { status_code = 200; header = numbers; body = [] }

limit_text : bytes "5" ≡ to_text (pos 5)
unfolding to_text decimal digits
limit_text = refl

remaining_text : bytes "3" ≡ to_text (pos 3)
unfolding to_text decimal digits
remaining_text = refl

retry_text : bytes "120" ≡ to_text (pos 120)
unfolding to_text decimal digits
retry_text = refl

read_limits-headers_example : read_limits (λ t. pos 0) (pos 0) answer ≡ record {
  global = false;
  limit = pos 5;
  remaining = pos 3;
  reset = pos 0;
  retry = pos 120;
  date = pos 0 -ℤ pos 0;
}
read_limits-headers_example =
    read_limits-headers (λ t. pos 0) (pos 0) answer 5 3 0 120 (inr limit_text) (inr remaining_text)
      (inl (refl, refl)) (inr retry_text) (omega arith) (omega arith) (omega arith) (omega arith)
