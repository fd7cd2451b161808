-- ===== src/Shard/Writes.antt =====
-- The write queue of a shard, include/aegis/shards/impl/shard.cpp: what `send` puts in leaves it in
-- the same order, one message for each run of `process_writes`.
use aegis_cpp.Common.{
  ℕ, suc, zero, ◌≡◌, refl, sym, ap, subst, ◌∙◌, true, false, List, [], ◌∷◌, ◌++◌, some, length,
}
use mathlib.Core.List.{append-nil, append_assoc}
use aegis_cpp.Common.Map.{is_some}
use aegis_cpp.Shard.{
  Shard, Frame, Call, send_frame, process_writes, run_push, is_preready_or_online,
}

abbrev pub sent : ℕ → List Frame → List Call
sent c [] = []
sent c (f ∷ fs) = send_frame c f ∷ sent c fs

-- The functions that `send` posts, in the order in which they run.
abbrev pub push_all : List Frame → Shard → Shard
push_all [] s = s
push_all (f ∷ fs) s = push_all fs (run_push f s)

-- `process_writes` so many times as the timer runs it, with all calls of the library.
abbrev pub write_times : ℕ → ℕ → Shard → Shard × List Call
write_times now zero s = (s, [])
write_times now (suc n) s =
    let (t, calls) = process_writes now false s in
    let (u, more) = write_times now n t in (u, calls ++ more)

queue-push_all : (fs : List Frame) (s : Shard) → (push_all fs s).write_queue ≡ s.write_queue ++ fs
queue-push_all [] s = sym (append-nil s.write_queue)
queue-push_all (f ∷ fs) s =
    queue-push_all fs (run_push f s) ∙ append_assoc s.write_queue (f ∷ []) fs

record Connected (c : ℕ) (s : Shard) : Type 0 where
  connection : s.connection ≡ some c
  strand : is_some s.strand ≡ true
  ready : is_preready_or_online s.connection_state ≡ true

push_all-Connected :
    (c : ℕ) (fs : List Frame) (s : Shard) → Connected c s → Connected c (push_all fs s)
push_all-Connected c [] s h = h
push_all-Connected c (f ∷ fs) s h =
    push_all-Connected c fs (run_push f s)
      (record { connection = h.connection; strand = h.strand; ready = h.ready })

-- One run of the timer on a connected shard.
abbrev written : ℕ → Shard → Frame → List Frame → Shard
written now s f fs = record s { last_ws_write = now; write_queue = fs; write_timer = true }

process_writes-eq :
    (now c : ℕ) (f : Frame) (fs : List Frame) (s : Shard)
    → Connected c s
    → s.write_queue ≡ f ∷ fs
    → process_writes now false s ≡ (written now s f fs, send_frame c f ∷ [])
process_writes-eq now c f fs s h e = simp (h.connection, h.strand, e, h.ready)

-- On a shard that stays connected by c, with frames fs in its queue, so many runs of the timer hand
-- them to the library on c in the order of the queue, each once, and leave the queue empty.
drain :
    (now c : ℕ) (fs : List Frame) (s : Shard)
    → Connected c s
    → s.write_queue ≡ fs
    → ((write_times now (length fs) s).1 ≡ sent c fs)
      × ((write_times now (length fs) s).0.write_queue ≡ [])
drain now c [] s h e = (refl, e)
drain now c (f ∷ fs) s h e =
    subst
      (λ r.
        (r.1 ++ (write_times now (length fs) r.0).1 ≡ sent c (f ∷ fs))
        × ((write_times now (length fs) r.0).0.write_queue ≡ []))
      (sym (process_writes-eq now c f fs s h e))
      (cons (
        drain now c fs (written now s f fs)
          (record { connection = h.connection; strand = h.strand; ready = h.ready }) refl))
  where
    cons :
        ((write_times now (length fs) (written now s f fs)).1 ≡ sent c fs)
          × ((write_times now (length fs) (written now s f fs)).0.write_queue ≡ [])
        → (send_frame c f ∷ (write_times now (length fs) (written now s f fs)).1 ≡ sent c (f ∷ fs))
          × ((write_times now (length fs) (written now s f fs)).0.write_queue ≡ [])
    cons m = (ap (λ cs. send_frame c f ∷ cs) m.0, m.1)

-- If a shard is connected by c and its queue is empty, and its strand runs the functions that `send`
-- posted for the frames fs, then so many runs of the timer as there are frames hand exactly these to
-- the library on c, in the order of the calls of `send`, and leave the queue empty.
pub write_times-push_all :
    (now c p : ℕ) (fs : List Frame) (s : Shard)
    → s.connection ≡ some c
    → s.strand ≡ some p
    → is_preready_or_online s.connection_state ≡ true
    → s.write_queue ≡ []
    → ((write_times now (length fs) (push_all fs s)).1 ≡ sent c fs)
      × ((write_times now (length fs) (push_all fs s)).0.write_queue ≡ [])
write_times-push_all now c p fs s e d r q =
    drain now c fs (push_all fs s)
      (push_all-Connected c fs s (record { connection = e; strand = rw d refl; ready = r }))
      (queue-push_all fs s ∙ ap (λ x. x ++ fs) q)
