-- ===== src/Ratelimit/Manager.antt =====
-- include/aegis/ratelimit/ratelimit.hpp: the buckets by the key of a task, and post_task. A task runs on a
-- thread of the bot; the lock of its bucket makes the calls of one bucket follow each other. Nothing sets
-- `global_limit` after the constructor.
pub mod Tasks
mod Examples
use mathlib.Core.Option
use aegis_cpp.Common.{
  ℕ, Bool, true, false, ◌||◌, List, [], ◌∷◌, ◌++◌, Option, none, some, if◌then◌else◌, ◌>>=◌, ltb,
  leb,
}
use aegis_cpp.Common.Int.{ℤ, pos, ltb_ℤ}
use aegis_cpp.Common.Text.{Text, bytes, decimal, eq_text, is_empty_text}
use aegis_cpp.Error.{Error}
use aegis_cpp.Action.{Task}
use aegis_cpp.Rest.{RestReply, ok, multiple_choices}
use aegis_cpp.Ratelimit.{Platform, Bucket, Outcome, new_bucket, perform}

abbrev pub Buckets : Type 0
Buckets = List (Text × Bucket)

pub record RatelimitMgr : Type 0 where
  pub global_limit : ℤ
  pub buckets : Buckets

abbrev pub new_ratelimit_mgr : RatelimitMgr
new_ratelimit_mgr = record { global_limit = pos 0; buckets = [] }

abbrev pub is_global : RatelimitMgr → Bool
is_global m = ltb_ℤ (pos 0) m.global_limit

unfoldable pub find_bucket : Text → Buckets → Option Bucket
find_bucket path [] = none
find_bucket path ((k, b) ∷ bs) =
    let rest = find_bucket path bs in if eq_text k path then some b else rest

abbrev pub bucket_or : Bucket → Option Bucket → Bucket
bucket_or b none = b
bucket_or b (some c) = c

-- get_bucket: the bucket of a path, or a new one, whose `_time_delay` has no initialiser.
unfoldable pub get_bucket : ℤ → Text → RatelimitMgr → Bucket
unfolding new_bucket
get_bucket time_delay path m = bucket_or (new_bucket time_delay) (find_bucket path m.buckets)

-- What a task leaves in the bucket that get_bucket gave.
unfoldable pub put_bucket : Text → Bucket → Buckets → Buckets
put_bucket path b [] = (path, b) ∷ []
put_bucket path b ((k, c) ∷ bs) =
    let rest = put_bucket path b bs in if eq_text k path then (k, b) ∷ bs else (k, c) ∷ rest

-- What the future of post_task<ResultType> holds: an exception with its text and its error, an object by
-- the default constructor, or the object that is read from a content.
pub data TypedResult : Type 0 where
  exception : Text → Error → TypedResult
  default_result : TypedResult
  read_from : Text → TypedResult

unfoldable pub typed_result : RestReply → TypedResult
unfolding decimal
typed_result r =
    if ltb r.reply_code ok || leb multiple_choices r.reply_code
    then exception (bytes "REST Reply Code: " ++ decimal r.reply_code) Error.bad_request
    else if is_empty_text r.content
    then default_result
    else read_from r.content

-- get_bucket(...).reset_bypass = bypass
abbrev pub set_bypass : Option ℤ → Bucket → Bucket
set_bypass none b = b
set_bypass (some z) b = record b { reset_bypass = z }

module _ (p : Platform) (time_delay : ℤ) where
  pub record Done : Type 0 where
    pub manager : RatelimitMgr
    pub outcome : Outcome p

  abbrev pub done : Text → RatelimitMgr → Outcome p → Done
  done path m o = record {
    manager = record m { buckets = put_bucket path o.bucket m.buckets };
    outcome = o;
  }

  -- The function that post_task runs; `none` if the fuel of `perform` ran out.
  unfoldable pub run_task : ℕ → Task → RatelimitMgr → p.World → Option Done
  unfolding get_bucket
  run_task fuel t m w =
      Option.map (done t.bucket m)
        (perform p fuel (set_bypass t.bypass (get_bucket time_delay t.bucket m)) t.params w)

  -- Tasks one after the other.
  unfoldable pub run_tasks :
      ℕ → List Task → RatelimitMgr → p.World → Option (RatelimitMgr × p.World)
  unfolding run_task
  run_tasks fuel [] m w = some (m, w)
  run_tasks fuel (t ∷ ts) m w = do
    d ← run_task fuel t m w
    run_tasks fuel ts d.manager d.outcome.world
