-- ===== src/Ratelimit/Manager/Tasks.antt =====
-- What tasks of post_task do to the buckets: each changes its own, and a bucket without calls left keeps its
-- next task back, whatever other tasks run before it.
use mathlib.Core.Option
use mathlib.Core.Option.{none-ne-some}
use aegis_cpp.Common.{
  ℕ, ◌≡◌, ◌≢◌, refl, sym, ap, subst, ◌∙◌, false, List, [], ◌∷◌, Option, none, some, All, Bool-cases,
  Option-cases, some_eq, inl, inr,
}
use aegis_cpp.Common.Int.{ℤ, pos, ◌*ℤ◌, ◌≤ℤ◌}
use aegis_cpp.Common.Text.{Text, eq_text, eq_text_refl, eq_text_iff_true}
use aegis_cpp.Action.{Task}
use aegis_cpp.Ratelimit.{Platform, Runs, Bucket, Outcome, perform, new_bucket}
use aegis_cpp.Ratelimit.Reply.{perform_after_reset}
use aegis_cpp.Ratelimit.Manager.{
  Buckets, RatelimitMgr, find_bucket, bucket_or, get_bucket, put_bucket, set_bypass, Done, done,
  run_task, run_tasks,
}

find_bucket-put_bucket :
    (path : Text) (b : Bucket) (bs : Buckets) → find_bucket path (put_bucket path b bs) ≡ some b
unfolding find_bucket put_bucket
find_bucket-put_bucket path b [] = rw (eq_text_refl path) refl
find_bucket-put_bucket path b ((k, c) ∷ bs) = elim (Bool-cases (eq_text k path)) [
  | inl e ↦ rw (e, e) refl
  | inr e ↦ rw (e, e) (find_bucket-put_bucket path b bs)
]

find_other-put_bucket :
    (path other : Text) (b : Bucket) (bs : Buckets)
    → eq_text path other ≡ false
    → find_bucket other (put_bucket path b bs) ≡ find_bucket other bs
unfolding find_bucket put_bucket
find_other-put_bucket path other b [] h = rw h refl
find_other-put_bucket path other b ((k, c) ∷ bs) h = elim (Bool-cases (eq_text k path)) [
  | inl e ↦ rw e (rw (ap (λ t. eq_text t other) (eq_text_iff_true k path e) ∙ h) refl)
  | inr e ↦ rw (e, find_other-put_bucket path other b bs h) refl
]

module _ (p : Platform) (time_delay : ℤ) where
  run_task-eq-some :
      (fuel : ℕ) (t : Task) (m : RatelimitMgr) (w : p.World) {d : Done p time_delay}
      → run_task p time_delay fuel t m w ≡ some d
      → (perform p fuel (set_bypass t.bypass (get_bucket time_delay t.bucket m)) t.params w
          ≡ some d.outcome)
        × (done p time_delay t.bucket m d.outcome ≡ d)
  unfolding run_task
  run_task-eq-some fuel t m w {d} e = go (perform p fuel _ t.params w) refl e
    where
      go :
          (r : Option (Outcome p))
          → perform p fuel (set_bypass t.bypass (get_bucket time_delay t.bucket m)) t.params w ≡ r
          → Option.map (done p time_delay t.bucket m) r ≡ some d
          → (perform p fuel (set_bypass t.bypass (get_bucket time_delay t.bucket m)) t.params w
              ≡ some d.outcome)
            × (done p time_delay t.bucket m d.outcome ≡ d)
      go none q h = cc
      go (some o) q h =
          let k = some_eq h in
          (
            q ∙ ap (λ x. some (x.outcome)) k,
            ap (λ x. done p time_delay t.bucket m x.outcome) (sym k) ∙ k,
          )

  -- A task leaves in its bucket what `perform` left.
  run_task-own :
      (fuel : ℕ) (t : Task) (m : RatelimitMgr) (w : p.World) (d : Done p time_delay)
      → run_task p time_delay fuel t m w ≡ some d
      → get_bucket time_delay t.bucket d.manager ≡ d.outcome.bucket
  unfolding get_bucket
  run_task-own fuel t m w d e =
      let (_, k) = run_task-eq-some fuel t m w e in
      subst
        (λ x.
          bucket_or (new_bucket time_delay) (find_bucket t.bucket x.manager.buckets)
          ≡ x.outcome.bucket)
        k
        (ap (bucket_or (new_bucket time_delay))
          (find_bucket-put_bucket t.bucket d.outcome.bucket m.buckets))

  -- A task leaves every bucket but its own as it was.
  run_task-other :
      (fuel : ℕ) (t : Task) (m : RatelimitMgr) (w : p.World) (other : Text) (d : Done p time_delay)
      → run_task p time_delay fuel t m w ≡ some d
      → eq_text t.bucket other ≡ false
      → get_bucket time_delay other d.manager ≡ get_bucket time_delay other m
  unfolding get_bucket
  run_task-other fuel t m w other d e h =
      let (_, k) = run_task-eq-some fuel t m w e in
      subst
        (λ x.
          bucket_or (new_bucket time_delay) (find_bucket other x.manager.buckets)
          ≡ bucket_or (new_bucket time_delay) (find_bucket other m.buckets))
        k
        (ap (bucket_or (new_bucket time_delay))
          (find_other-put_bucket t.bucket other d.outcome.bucket m.buckets h))

  -- Tasks leave every bucket that is not one of theirs as it was.
  run_tasks-other :
      (fuel : ℕ) (ts : List Task) (m m' : RatelimitMgr) (w w' : p.World) (other : Text)
      → run_tasks p time_delay fuel ts m w ≡ some (m', w')
      → All (λ t. eq_text t.bucket other ≡ false) ts
      → get_bucket time_delay other m' ≡ get_bucket time_delay other m
  unfolding run_tasks
  run_tasks-other fuel [] m m' w w' other e h =
      ap (λ x. get_bucket time_delay other x.0) (sym (some_eq e))
  run_tasks-other fuel (t ∷ ts) m m' w w' other e h =
      elim (Option-cases (run_task p time_delay fuel t m w)) [
        | inl q ↦ absurd (none-ne-some (m', w') (rw q at e))
        | inr (d, q) ↦
            run_tasks-other fuel ts d.manager m' d.outcome.world w' other (rw q at e) h.1
            ∙ run_task-other fuel t m w other d q h.0
      ]

  -- A task of a bucket that counts (no `ignore_rates`, no `reset_bypass`) has got an answer that names a
  -- limit and leaves no calls; then come tasks of other buckets, and then a task of the same bucket, in any
  -- state of the world. That last task reaches the server at no time before the reset that the answer named,
  -- read as seconds.
  pub next_task_after_reset :
      Runs p
      → (fuel fuel' : ℕ) (t t' : Task) (ts : List Task) (m m' : RatelimitMgr) (w w' w'' : p.World)
        (d d' : Done p time_delay)
      → t.bypass ≡ none
      → t'.bypass ≡ none
      → t'.bucket ≡ t.bucket
      → (get_bucket time_delay t.bucket m).ignore_rates ≡ false
      → (get_bucket time_delay t.bucket m).reset_bypass ≡ pos 0
      → run_task p time_delay fuel t m w ≡ some d
      → d.outcome.reply.limit ≢ pos 0
      → d.outcome.reply.remaining ≤ℤ pos 0
      → All (λ s. eq_text s.bucket t.bucket ≡ false) ts
      → run_tasks p time_delay fuel ts d.manager d.outcome.world ≡ some (m', w')
      → run_task p time_delay fuel' t' m' w'' ≡ some d'
      → All (λ s. d.outcome.reply.reset *ℤ pos 1000 ≤ℤ s) d'.outcome.calls
  next_task_after_reset runs fuel fuel' t t' ts m m' w w' w'' d d' plain plain' same counted bypass
        e limited none_left others between e' =
      let (first, _) = run_task-eq-some fuel t m w e in
      let (second, _) = run_task-eq-some fuel' t' m' w'' e' in
      let kept =
        ap (λ k. get_bucket time_delay k m') same
        ∙ run_tasks-other fuel ts d.manager m' d.outcome.world w' t.bucket between others
        ∙ run_task-own fuel t m w d e in
      perform_after_reset p runs fuel fuel' (get_bucket time_delay t.bucket m) t.params t'.params w
        w'' counted bypass
        (subst
          (λ x.
            perform p fuel (set_bypass x (get_bucket time_delay t.bucket m)) t.params w
            ≡ some d.outcome)
          plain first)
        limited none_left
        (subst (λ b. perform p fuel' b t'.params w'' ≡ some d'.outcome) kept
          (subst
            (λ x.
              perform p fuel' (set_bypass x (get_bucket time_delay t'.bucket m')) t'.params w''
              ≡ some d'.outcome)
            plain' second))
