-- ===== src/Ratelimit/Examples.antt =====
-- Tests of bucket.hpp on a platform that is a clock and a server that limits one call.
use aegis_cpp.Common.{ℕ, suc, ◌+◌, ◌≡◌, refl, [], ◌∷◌, All, some, false, arith}
use aegis_cpp.Common.Int.{ℤ, pos, negsuc, pos_part, ◌+ℤ◌, ◌-ℤ◌, ◌*ℤ◌, ◌≤ℤ◌, +ℤ_parts}
use aegis_cpp.Common.Text.{bytes}
use aegis_cpp.Rest.{RestReply, RequestParams, post}
use aegis_cpp.Ratelimit.{Platform, Runs, Bucket, Outcome, can_perform, wait, perform}
use aegis_cpp.Ratelimit.Waiting.{Permits, Spaced, perform_total}
use mathlib.Core.Option

-- The last call of a window that ends at second 5.
abbrev pub last_of_window : RestReply
last_of_window = record {
  reply_code = 200;
  global = false;
  limit = pos 1;
  remaining = pos 0;
  reset = pos 5;
  retry = pos 0;
  content = [];
  date = pos 0;
  execution_time = pos 0;
}

abbrev pub clockwork : Platform
clockwork = record {
  World = ℕ;
  time = pos;
  pass = suc;
  sleep_for = λ d w. w + pos_part d;
  call = λ r w. (last_of_window, w + 10);
}

clockwork_lasts : (d : ℤ) (w : ℕ) → pos w +ℤ d ≤ℤ pos (w + pos_part d)
clockwork_lasts d w = omega (arith, +ℤ_parts (pos w) d)

pub clockwork-Runs : Runs clockwork
clockwork-Runs = record {
  pass_mono = λ w. omega arith;
  sleep_mono = λ d w. omega arith;
  call_mono = λ r w. omega arith;
  sleep_lasts = clockwork_lasts;
}

abbrev pub request : RequestParams
request = record {
  path = bytes "/channels/1/messages";
  method = post;
  body = [];
  host = [];
  port = bytes "443";
  headers = [];
  path_ex = [];
  file = Option.none;
}

abbrev fresh : Bucket
fresh = record {
  limit = pos 0;
  remaining = pos 1;
  reset = pos 0;
  ignore_rates = false;
  reset_bypass = pos 0;
  time_delay = pos 0;
}

-- The bucket after one call, and the outcomes of that call and of the next, which has to wait.
abbrev pub used : Bucket
used = record fresh { limit = pos 1; remaining = pos 0; reset = pos 5000; time_delay = negsuc 109 }

abbrev pub first_outcome : Outcome clockwork
first_outcome = record { bucket = used; reply = last_of_window; world = 111; calls = pos 100 ∷ [] }

abbrev pub second_outcome : Outcome clockwork
second_outcome = record {
  bucket = record used { time_delay = negsuc 5011 };
  reply = last_of_window;
  world = 5013;
  calls = pos 5002 ∷ [];
}

first_runs : perform clockwork 2 fresh request 100 ≡ some first_outcome
unfolding perform wait can_perform ◌-ℤ◌ ◌*ℤ◌
first_runs = refl

second_runs : perform clockwork 2 used request 111 ≡ some second_outcome
unfolding perform wait can_perform ◌-ℤ◌ ◌*ℤ◌
second_runs = refl

perform_total_example :
    (o : Outcome clockwork) × (perform clockwork 2 used request 111 ≡ some o)
    × (t : ℤ) × Spaced t o.calls
    × All (Permits used) o.calls
perform_total_example = perform_total clockwork clockwork-Runs 0 used request 111
