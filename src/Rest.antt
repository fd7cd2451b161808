-- ===== src/Rest.antt =====
-- include/aegis/rest/rest_reply.hpp and rest_controller.hpp: the answer to a REST call and what a
-- call is made of (`_msg`, which nothing reads, is left out). `http_code` is an enum of integers, cast
-- from the status of the answer.
pub mod Execute
use aegis_cpp.Common.{ℕ, Bool, ◌&&◌, ◌||◌, ◌==◌, leb, List, Option}
use aegis_cpp.Common.Int.{ℤ}
use aegis_cpp.Common.Text.{Text}

pub record RestReply : Type 0 where
  pub reply_code : ℕ
  pub global : Bool
  pub limit : ℤ
  pub remaining : ℤ
  pub reset : ℤ
  pub retry : ℤ
  pub content : Text
  pub date : ℤ
  pub execution_time : ℤ

abbrev pub ok : ℕ
ok = 200

abbrev pub created : ℕ
created = 201

abbrev pub accepted : ℕ
accepted = 202

abbrev pub no_content : ℕ
no_content = 204

abbrev pub partial_content : ℕ
partial_content = 206

abbrev pub multiple_choices : ℕ
multiple_choices = 300

abbrev pub too_many_requests : ℕ
too_many_requests = 429

-- rest_reply::operator bool
unfoldable pub to_bool : RestReply → Bool
to_bool r =
    r.reply_code == ok
    || (r.reply_code == created || (r.reply_code == accepted || r.reply_code == no_content))

-- rest_reply::success
unfoldable pub success : RestReply → Bool
success r = leb ok r.reply_code && leb r.reply_code partial_content

pub data RequestMethod : Type 0 where
  get post put patch delete : RequestMethod

-- aegis_file
pub record AegisFile : Type 0 where
  pub name : Text
  pub content : Text
  pub content_type : Text

pub record RequestParams : Type 0 where
  pub path : Text
  pub method : RequestMethod
  pub body : Text
  pub host : Text
  pub port : Text
  pub headers : List Text
  pub path_ex : Text
  pub file : Option AegisFile
