-- ===== src/Action.antt =====
-- What the REST actions of guilds and channels share: the objects of JSON that they build, and the answer of
-- an action, which is an error, or a task for the rate limits (include/aegis/ratelimit/ratelimit.hpp). The
-- texts are of the bytes that `fmt::format` gives; an identifier is formatted as its `int64_t`.
use aegis_cpp.Common.{ℕ, Bool, true, false, List, [], ◌∷◌, Option, none, some, if◌then◌else◌}
use aegis_cpp.Common.Int.{ℤ}
use aegis_cpp.Common.Text.{Text, bytes, to_text, eq_text}
use aegis_cpp.Json.{
  end, field, nil, cons, array, object, Value, Items, Fields, signed, snowflake_to_json,
  overwrite_to_json,
}
use aegis_cpp.Channel.{PermissionOverwrite}
use aegis_cpp.Error.{Error}
use aegis_cpp.Rest.{RequestMethod, RequestParams}

abbrev pub set_field : Text → Value → Fields → Fields
set_field k v end = field k v end
set_field k v (field j w fs) =
    let rest = set_field k v fs in if eq_text j k then field j v fs else field j w rest

-- `obj[key] = value`, where a new `json` is null. The fields stand in the order in which they are set.
abbrev pub set : Text → Value → Value → Value
set k v (object fs) = object (set_field k v fs)
set k v _ = object (field k v end)

-- `if (value.has_value()) obj[key] = value.value();`
abbrev pub set_some {ℓ} : {A : Type ℓ} → Text → (A → Value) → Option A → Value → Value
set_some k f none j = j
set_some k f (some a) j = set k (f a) j

abbrev pub set_if : Bool → Text → Value → Value → Value
set_if b k v j = if b then set k v j else j

abbrev pub items {ℓ} : {A : Type ℓ} → (A → Value) → List A → Items
items f [] = nil
items f (a ∷ rest) = cons (f a) (items f rest)

abbrev pub overwrites : List PermissionOverwrite → Value
overwrites ows = array (items overwrite_to_json ows)

abbrev pub snowflakes : List ℕ → Value
snowflakes ids = array (items snowflake_to_json ids)

-- An identifier in a path.
abbrev pub id_text : ℕ → Text
id_text id = to_text (signed id)

-- A call of post_task: the key of its bucket, the parameters of the request, and whether the content of the
-- answer is read as an object. `bypass` is what the action sets the `reset_bypass` of the bucket to before.
pub record Task : Type 0 where
  pub typed : Bool
  pub bucket : Text
  pub bypass : Option ℤ
  pub params : RequestParams

-- `throws` is an exception that leaves the action itself.
pub data Answer : Type 0 where
  refused : Error → Answer
  posts : Task → Answer
  throws : Answer

abbrev pub request : Text → RequestMethod → Text → RequestParams
request path method body = record {
  path = path;
  method = method;
  body = body;
  host = [];
  port = bytes "443";
  headers = [];
  path_ex = [];
  file = none;
}

-- post_task({path, method, body})
abbrev pub post_task : Text → RequestMethod → Text → Answer
post_task path method body =
    posts
      (record { typed = false; bucket = path; bypass = none; params = request path method body })

-- post_task<ResultType>({path, method, body})
abbrev pub post_task_typed : Text → RequestMethod → Text → Answer
post_task_typed path method body =
    posts (record { typed = true; bucket = path; bypass = none; params = request path method body })

-- post_task(bucket, {path, method, body})
abbrev pub post_task_in : Text → Text → RequestMethod → Text → Answer
post_task_in bucket path method body =
    posts
      (record { typed = false; bucket = bucket; bypass = none; params = request path method body })

-- get_bucket(bucket).reset_bypass = bypass; post_task(bucket, {path, method})
abbrev pub post_task_bypass : ℤ → Text → Text → RequestMethod → Answer
post_task_bypass bypass bucket path method = posts (record {
  typed = false;
  bucket = bucket;
  bypass = some bypass;
  params = request path method [];
})

-- post_task<ResultType>(bucket, {path, method, body})
abbrev pub post_task_typed_in : Text → Text → RequestMethod → Text → Answer
post_task_typed_in bucket path method body =
    posts
      (record { typed = true; bucket = bucket; bypass = none; params = request path method body })

-- `if (!ok) return make_exception_future(e);` before what follows.
abbrev pub require : Bool → Error → Answer → Answer
require ok e a = if ok then a else refused e
