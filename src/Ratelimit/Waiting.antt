-- ===== src/Ratelimit/Waiting.antt =====
-- `bucket::can_perform` and `bucket::perform`: that a call ends, and when it reaches the server.
use mathlib.Core.Option
use mathlib.Core.Path.{subst}
use aegis_cpp.Common.{
  ℕ, suc, zero, ◌≡◌, refl, sym, true, List, [], ◌∷◌, Option, none, some, All, arith, ◌==◌,
  Bool-cases, some_eq, inl, inr, ◌⊎◌,
}
use aegis_cpp.Common.Int.{ℤ, pos, ◌-ℤ◌, ◌≤ℤ◌, ltb_ℤ, +ℤ_parts, -ℤ_parts}
use aegis_cpp.Rest.{RestReply, RequestParams, too_many_requests}
use aegis_cpp.Ratelimit.{
  Platform, Runs, Bucket, Outcome, can_perform, wait, perform, settle, pause, perform_now,
}

-- When a bucket lets a call through at a time.
abbrev pub Permits : Bucket → ℤ → Type 0
Permits b t =
    (b.ignore_rates ≡ true)
    ⊎ (b.limit ≡ pos 0)
    ⊎ (ltb_ℤ (pos 0) b.remaining ≡ true)
    ⊎ (b.reset ≤ℤ t)

-- A second time, if there is one, is not before the first.
abbrev pub Spaced : ℤ → List ℤ → Type 0
Spaced t [] = ⊥
Spaced t (u ∷ us) = (u ≡ t) × All (λ v. t ≤ℤ v) us

-- The world at the end of the sleep in one round of the loop.
abbrev awake : (p : Platform) → Bucket → p.World → p.World
awake p b w = let v = (can_perform p b w).1 in p.sleep_for (b.reset -ℤ p.time v) (p.pass v)

Permits-mono : (b : Bucket) (t u : ℤ) → t ≤ℤ u → Permits b t → Permits b u
Permits-mono b t u h q = ground arith

Permits-later :
    (b : Bucket) (t : ℤ) (us : List ℤ) → Permits b t → All (λ v. t ≤ℤ v) us → All (Permits b) us
Permits-later b t [] q h = tt
Permits-later b t (u ∷ us) q h = (Permits-mono b t u h.0 q, Permits-later b t us q h.1)

Spaced-Permits : (b : Bucket) (t : ℤ) (us : List ℤ) → Permits b t → Spaced t us → All (Permits b) us
Spaced-Permits b t [] q h = absurd h
Spaced-Permits b t (u ∷ us) q h = (subst (Permits b) (sym h.0) q, Permits-later b t us q h.1)

module _ (p : Platform) where
  open p use {World}

  -- A result comes from a world in which the loop has ended.
  pub perform-eq-some :
      (fuel : ℕ) (b : Bucket) (r : RequestParams) (w : World) {o : Outcome p}
      → perform p fuel b r w ≡ some o
      → (v : World) × (wait p fuel b w ≡ some v) × (perform_now p b r v ≡ o)
  unfolding perform
  perform-eq-some fuel b r w {o} e = go (wait p fuel b w) refl e
    where
      go :
          (m : Option World)
          → wait p fuel b w ≡ m
          → Option.map (perform_now p b r) m ≡ some o
          → (v : World) × (wait p fuel b w ≡ some v) × (perform_now p b r v ≡ o)
      go none q h = cc
      go (some v) q h = (v, q, some_eq h)

module _ (p : Platform) (runs : Runs p) where
  open p use {World, time, pass, sleep_for, call}

  can_perform-Permits :
      (b : Bucket) (w : World)
      → (can_perform p b w).0 ≡ true
      → Permits b (time (can_perform p b w).1)
  unfolding can_perform
  can_perform-Permits b w h = ground (arith, runs.pass_mono w)

  ready_at : (b : Bucket) (w : World) → b.reset ≤ℤ time w → (can_perform p b w).0 ≡ true
  unfolding can_perform
  ready_at b w h = ground arith

  awake_late : (b : Bucket) (w : World) → b.reset ≤ℤ time (awake p b w)
  awake_late b w =
      let v = (can_perform p b w).1 in
      omega
        (arith, runs.sleep_lasts (b.reset -ℤ time v) (pass v), runs.pass_mono v, +ℤ_parts, -ℤ_parts)

  wait-Permits :
      (fuel : ℕ) (b : Bucket) (w : World) {v : World}
      → wait p fuel b w ≡ some v
      → Permits b (time v)
  unfolding wait
  wait-Permits zero b w e = cc
  wait-Permits (suc fuel) b w e = elim (Bool-cases (can_perform p b w).0) [
    | inl r ↦
        subst (λ u. Permits b (time u)) (some_eq (rw (r, wait) at e)) (can_perform-Permits b w r)
    | inr r ↦ wait-Permits fuel b (awake p b w) (rw (r, wait) at e)
  ]

  wait_total :
      (fuel : ℕ) (b : Bucket) (w : World) → (v : World) × (wait p (suc (suc fuel)) b w ≡ some v)
  unfolding wait
  wait_total fuel b w = elim (Bool-cases (can_perform p b w).0) [
    | inl r ↦ ((can_perform p b w).1, rw (r, wait))
    | inr r ↦ (
      (can_perform p b (awake p b w)).1,
      rw (r, wait) (rw (ready_at b (awake p b w) (awake_late b w), wait)),
    )
  ]

  settle_calls :
      (b : Bucket) (r : RequestParams) (sent : ℤ) (reply : RestReply) (w : World)
      → sent ≤ℤ time w
      → Spaced sent (settle p b r sent reply w).calls
  unfolding settle
  settle_calls b r sent reply w h = elim (Bool-cases (reply.reply_code == too_many_requests)) [
    | inl e ↦
        rw e
          (refl, (omega (arith, runs.pass_mono w, runs.sleep_mono (pause p b reply) (pass w)), tt))
    | inr e ↦ rw e (refl, tt)
  ]

  perform_now_calls :
      (fuel : ℕ) (b : Bucket) (r : RequestParams) (w v : World)
      → wait p fuel b w ≡ some v
      → Spaced (time v) (perform_now p b r v).calls × All (Permits b) (perform_now p b r v).calls
  unfolding perform_now
  perform_now_calls fuel b r w v e =
      let spaced = settle_calls b r (time v) (call r v).0 (call r v).1 (runs.call_mono r v) in
      (spaced, Spaced-Permits b (time v) _ (wait-Permits fuel b w e) spaced)

  -- No result of `perform` holds a call at a time that the bucket does not permit.
  pub perform-Permits :
      (fuel : ℕ) (b : Bucket) (r : RequestParams) (w : World) {o : Outcome p}
      → perform p fuel b r w ≡ some o
      → All (Permits b) o.calls
  perform-Permits fuel b r w e =
      let (v, q, h) = perform-eq-some p fuel b r w e in
      subst (λ o. All (Permits b) o.calls) h (perform_now_calls fuel b r w v q).1

  -- On a platform whose clock does not go back and whose sleeps last as long as asked, `perform`
  -- ends, for every bucket and request: two rounds of its loop are enough. It calls the platform
  -- once or twice, the second time not before the first, and at no time at which the bucket does
  -- not permit it: each call finds the limits ignored, no limit known, calls remaining, or the reset
  -- time reached.
  pub perform_total :
      (fuel : ℕ) (b : Bucket) (r : RequestParams) (w : World)
      → (o : Outcome p) × (perform p (suc (suc fuel)) b r w ≡ some o)
        × (t : ℤ) × Spaced t o.calls
        × All (Permits b) o.calls
  unfolding perform
  perform_total fuel b r w =
      let (v, e) = wait_total fuel b w in
      let (spaced, permitted) = perform_now_calls (suc (suc fuel)) b r w v e in
      (perform_now p b r v, rw e, time v, spaced, permitted)
