-- ===== src/Ratelimit/Reply.antt =====
-- What the answer of the server means for the next call in the same bucket.
use mathlib.Core.Path.{subst}
use aegis_cpp.Common.{ℕ, ◌≡◌, ◌≢◌, false, some, All, All-map, arith, ◌==◌, Bool-cases, inl, inr}
use aegis_cpp.Common.Int.{ℤ, pos, ◌*ℤ◌, ◌≤ℤ◌}
use aegis_cpp.Rest.{RestReply, RequestParams, too_many_requests}
use aegis_cpp.Ratelimit.{Platform, Runs, Bucket, Outcome, perform, perform_now, settle, store}
use aegis_cpp.Ratelimit.Waiting.{Permits, perform-Permits, perform-eq-some}

module _ (p : Platform) where
  open p use {World, time, call}

  -- The bucket keeps the limits of the answer that `perform` returns, and not of an earlier one.
  settle-store :
      (b : Bucket) (r : RequestParams) (sent : ℤ) (reply : RestReply) (w : World)
      → let o = settle p b r sent reply w in o.bucket ≡ store p b o.reply (time w)
  unfolding settle
  settle-store b r sent reply w = elim (Bool-cases (reply.reply_code == too_many_requests)) [
    | inl e ↦ rw e
    | inr e ↦ rw e
  ]

  perform-store :
      (fuel : ℕ) (b : Bucket) (r : RequestParams) (w : World) {o : Outcome p}
      → perform p fuel b r w ≡ some o
      → (now : ℤ) × (o.bucket ≡ store p b o.reply now)
  perform-store fuel b r w e =
      let (v, _, h) = perform-eq-some p fuel b r w e in
      let (reply, u) = call r v in
      (
        time u,
        subst (λ o. o.bucket ≡ store p b o.reply (time u)) h
            (unfold perform_now in settle-store b r (time v) reply u),
      )

  exhausted :
      (b : Bucket) (a : RestReply) (now t : ℤ)
      → b.ignore_rates ≡ false
      → b.reset_bypass ≡ pos 0
      → a.limit ≢ pos 0
      → a.remaining ≤ℤ pos 0
      → Permits (store p b a now) t
      → a.reset *ℤ pos 1000 ≤ℤ t
  exhausted b a now t counted bypass limited none_left ok = ground arith

  -- Where the bucket counts (no `ignore_rates`, no `reset_bypass`) and the answer that `perform`
  -- returned names a limit and leaves no calls: the next `perform` of that bucket, whatever has gone
  -- on in the world between the two, reaches the server at no time before the reset that the answer
  -- named, read as seconds.
  pub perform_after_reset :
      Runs p
      → (fuel fuel' : ℕ) (b : Bucket) (r r' : RequestParams) (w w' : World) {o o' : Outcome p}
      → b.ignore_rates ≡ false
      → b.reset_bypass ≡ pos 0
      → perform p fuel b r w ≡ some o
      → o.reply.limit ≢ pos 0
      → o.reply.remaining ≤ℤ pos 0
      → perform p fuel' o.bucket r' w' ≡ some o'
      → All (λ t. o.reply.reset *ℤ pos 1000 ≤ℤ t) o'.calls
  perform_after_reset runs fuel fuel' b r r' w w' {o} {o'} counted bypass e limited none_left e' =
      let (now, kept) = perform-store fuel b r w e in
      All-map (Permits o.bucket) (λ t. o.reply.reset *ℤ pos 1000 ≤ℤ t) o'.calls
        (λ t ok.
          exhausted b o.reply now t counted bypass limited none_left
            (subst (λ c. Permits c t) kept ok))
        (perform-Permits p runs fuel' o.bucket r' w' e')
