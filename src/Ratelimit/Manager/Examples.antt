-- ===== src/Ratelimit/Manager/Examples.antt =====
-- Tasks for two buckets on the clock and the server of the tests of one bucket.
use aegis_cpp.Common.{◌≡◌, refl, [], ◌∷◌, All, none, some, false, arith}
use aegis_cpp.Common.Int.{pos, negsuc, ◌-ℤ◌, ◌*ℤ◌, ◌≤ℤ◌}
use aegis_cpp.Common.Text.{Text, bytes}
use aegis_cpp.Action.{Task}
use aegis_cpp.Ratelimit.{new_bucket, perform, wait, can_perform}
use aegis_cpp.Ratelimit.Examples.{
  clockwork, clockwork-Runs, request, used, first_outcome, second_outcome,
}
use aegis_cpp.Ratelimit.Manager.{
  RatelimitMgr, new_ratelimit_mgr, Done, get_bucket, run_task, run_tasks, find_bucket, put_bucket,
}
use aegis_cpp.Ratelimit.Manager.Tasks.{next_task_after_reset}

abbrev first_path : Text
first_path = bytes "/channels/1"

abbrev other_path : Text
other_path = bytes "/channels/2"

abbrev task : Text → Task
task path = record { typed = false; bucket = path; bypass = none; params = request }

abbrev after_first : RatelimitMgr
after_first = record { global_limit = pos 0; buckets = (first_path, used) ∷ [] }

abbrev first : Done clockwork (pos 0)
first = record { manager = after_first; outcome = first_outcome }

abbrev after_other : RatelimitMgr
after_other = record {
  global_limit = pos 0;
  buckets = (first_path, used) ∷ (other_path, record used { time_delay = negsuc 120 }) ∷ [];
}

abbrev third : Done clockwork (pos 0)
third = record {
  manager = record {
    global_limit = pos 0;
    buckets =
        (first_path, second_outcome.bucket)
        ∷ (other_path, record used { time_delay = negsuc 120 })
        ∷ [];
  };
  outcome = second_outcome;
}

first_runs : run_task clockwork (pos 0) 2 (task first_path) new_ratelimit_mgr 100 ≡ some first
unfolding run_task get_bucket new_bucket find_bucket put_bucket perform wait can_perform ◌-ℤ◌ ◌*ℤ◌
first_runs = refl

other_runs :
    run_tasks clockwork (pos 0) 2 (task other_path ∷ []) after_first 111 ≡ some (after_other, 122)
unfolding run_tasks run_task get_bucket new_bucket find_bucket put_bucket perform wait can_perform
    ◌-ℤ◌ ◌*ℤ◌
other_runs = refl

third_runs : run_task clockwork (pos 0) 2 (task first_path) after_other 122 ≡ some third
unfolding run_task get_bucket new_bucket find_bucket put_bucket perform wait can_perform ◌-ℤ◌ ◌*ℤ◌
third_runs = refl

next_task_after_reset_example : All (λ s. pos 5 *ℤ pos 1000 ≤ℤ s) third.outcome.calls
unfolding get_bucket new_bucket find_bucket
next_task_after_reset_example =
    next_task_after_reset clockwork (pos 0) clockwork-Runs 2 2 (task first_path) (task first_path)
      (task other_path ∷ []) new_ratelimit_mgr after_other 100 122 122 first third refl refl refl
      refl refl first_runs (λ e. cc) (omega arith) (refl, tt) other_runs third_runs
