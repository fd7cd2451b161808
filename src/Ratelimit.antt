-- ===== src/Ratelimit.antt =====
-- include/aegis/ratelimit/bucket.hpp and ratelimit.hpp: one bucket for each path of the REST API,
-- and the calls that wait for it. The clock, `sleep_for` and the REST call belong to the platform,
-- a parameter; a value of its `World` is the state of everything outside the bucket. Integers of 64
-- bits are integers; their overflow is undefined in C++ and has no counterpart here.
pub mod Waiting
pub mod Reply
pub mod Manager
mod Examples
use aegis_cpp.Common.{
  ℕ, suc, zero, ◌≡◌, Bool, true, false, not, ◌&&◌, ◌||◌, List, [], ◌∷◌, Option, none, some,
  if◌then◌else◌, ◌==◌, ltb, leb,
}
use aegis_cpp.Common.Int.{ℤ, pos, ◌+ℤ◌, ◌-ℤ◌, ◌*ℤ◌, ◌≤ℤ◌, ◌==ℤ◌, ltb_ℤ}
use Prim.Native.String.{String}
use mathlib.Core.Option
use aegis_cpp.Rest.{RestReply, RequestParams, too_many_requests}

-- Times are in milliseconds since the epoch of `system_clock`. `time w` is what the clock shows in w,
-- and `pass w` is w some moments later, as between two readings.
pub record Platform : Type 1 where
  pub World : Type 0
  pub time : World → ℤ
  pub pass : World → World
  pub sleep_for : ℤ → World → World
  pub call : RequestParams → World → RestReply × World

-- The documented behaviour of the clock and of `sleep_for`: time does not go back, and a sleep
-- lasts at least as long as it is asked to.
pub record Runs (p : Platform) : Type 0 where
  pub pass_mono : (w : p.World) → p.time w ≤ℤ p.time (p.pass w)
  pub sleep_mono : (d : ℤ) (w : p.World) → p.time w ≤ℤ p.time (p.sleep_for d w)
  pub call_mono : (r : RequestParams) (w : p.World) → p.time w ≤ℤ p.time (p.call r w).1
  pub sleep_lasts : (d : ℤ) (w : p.World) → p.time w +ℤ d ≤ℤ p.time (p.sleep_for d w)

pub record Bucket : Type 0 where
  pub limit : ℤ
  pub remaining : ℤ
  pub reset : ℤ
  pub ignore_rates : Bool
  pub reset_bypass : ℤ
  pub time_delay : ℤ

-- bucket::bucket; `_time_delay` has no initialiser.
pub new_bucket : ℤ → Bucket
new_bucket time_delay = record {
  limit = pos 0;
  remaining = pos 1;
  reset = pos 0;
  ignore_rates = false;
  reset_bypass = pos 0;
  time_delay = time_delay;
}

-- What one call of `perform` leaves: the bucket, the answer, the world, and the times at which the
-- platform was called, the first one first.
pub record Outcome (p : Platform) : Type 0 where
  pub bucket : Bucket
  pub reply : RestReply
  pub world : p.World
  pub calls : List ℤ

module _ (p : Platform) where
  open p use {World, time, pass, sleep_for, call}

  -- The clock is read only if no earlier test decides.
  pub can_perform : Bucket → World → Bool × World
  can_perform b w =
      if b.ignore_rates
      then (true, w)
      else if b.limit ==ℤ pos 0
      then (true, w)
      else if ltb_ℤ (pos 0) b.remaining
      then (true, w)
      else if ltb_ℤ (time w) b.reset
      then (false, pass w)
      else (true, pass w)

  -- The loop `while (!can_perform())`; `none` means that the fuel ran out.
  pub wait : ℕ → Bucket → World → Option World
  wait zero b w = none
  wait (suc fuel) b w =
      let (ready, w1) = can_perform b w in
      elim ready [ true ↦ some w1 | false ↦ wait fuel b (sleep_for (b.reset -ℤ time w1) (pass w1)) ]

  -- How long `perform` sleeps before its second attempt.
  abbrev pub pause : Bucket → RestReply → ℤ
  pause b r = if b.reset_bypass ==ℤ pos 0 then r.retry else b.reset_bypass

  -- The stores behind the calls; `now` is the reading after the first call.
  abbrev pub store : Bucket → RestReply → ℤ → Bucket
  store b r now =
      let c = record b { limit = r.limit; remaining = r.remaining } in
      if b.reset_bypass ==ℤ pos 0
      then record c { reset = r.reset *ℤ pos 1000; time_delay = r.date -ℤ now }
      else record c { reset = now +ℤ b.reset_bypass }

  -- The second attempt, whose answer counts whatever it is.
  pub retry : Bucket → RequestParams → ℤ → ℤ → World → Outcome p
  retry b params sent now w =
      let (reply, w1) = call params w in
      record { bucket = store b reply now; reply = reply; world = w1; calls = sent ∷ time w ∷ [] }

  -- From the first answer on: a second attempt if the limit was hit, and the stores.
  pub settle : Bucket → RequestParams → ℤ → RestReply → World → Outcome p
  unfolding retry
  settle b params sent reply w =
      let now = time w in
      if reply.reply_code == too_many_requests
      then retry b params sent now (sleep_for (pause b reply) (pass w))
      else record { bucket = store b reply now; reply = reply; world = pass w; calls = sent ∷ [] }

  -- What follows the loop.
  pub perform_now : Bucket → RequestParams → World → Outcome p
  unfolding settle
  perform_now b params w = let (reply, w1) = call params w in settle b params (time w) reply w1

  pub perform : ℕ → Bucket → RequestParams → World → Option (Outcome p)
  unfolding perform_now
  perform fuel b params w = Option.map (perform_now b params) (wait fuel b w)
