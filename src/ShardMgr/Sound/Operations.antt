-- ===== src/ShardMgr/Sound/Operations.antt =====
-- The queue under the other operations of include/aegis/shards/impl/shard_mgr.cpp.
use aegis_cpp.Common.{
  ℕ, suc, zero, ◌+◌, ◌<◌, ◌==◌, ◌≡◌, refl, Bool, true, false, ◌||◌, List, [], ◌∷◌, Option, none,
  some, if◌then◌else◌, ◌>>=◌, length, length-append, get_elem?, arith, Bool-cases, Option-cases,
  inl, inr,
}
use aegis_cpp.Common.Map.{AllOption}
use mathlib.Core.Option
use aegis_cpp.Shard.{Shard, Sockets, ShardStatus, do_reset, set_connected, new_shard}
use aegis_cpp.ShardMgr.{
  ShardMgr, Job, change, queue_reconnect, add_shards, add_shard, belongs, start, on_connect,
  connected, on_close, forget, reset_shard, run_posted, run_job, shut_down, online, connect_shard,
  is_shutdown, is_shutdown_status, is_empty, running,
}
use aegis_cpp.ShardMgr.Sound.{
  IsSound, length-put, length-reset_all, lt_of_get_elem?, IsDistinct-snoc, known_snoc, known_suc,
  held_suc, fresh, queue_reconnect-IsSound, change-IsSound, forget_IsOk, stop_IsOk, bind-All,
  tail_IsOk, Keeps, reset_shard-Keeps,
}

pub connected-IsSound :
    (n : ShardMgr) (q : List ℕ) (c : Option ℕ)
    → IsSound n
    → n.shards_to_connect ≡ q
    → n.connecting_shard ≡ c
    → IsSound (connected n).0
connected-IsSound n [] c k e f = rw e (rw e at k)
connected-IsSound n (x ∷ xs) none k e f = rw (e, f) (rw (e, f) at k)
connected-IsSound n (x ∷ xs) (some c) k e f = rw (e, f) (tail_IsOk _ x xs _ _ _ e (rw f at k))

pub on_connect-Keeps :
    (p : ℕ) (m : ShardMgr) → IsSound m → AllOption (λ r. IsSound r.0) (on_connect p m)
unfolding on_connect
on_connect-Keeps p m h = elim (Option-cases (get_elem? m.shards p)) [
  | inl e ↦ rw e tt
  | inr (s, e) ↦ elim (Option-cases (set_connected s)) [
    | inl f ↦ rw (e, f) tt
    | inr (t, f) ↦
        rw (e, f)
          (connected-IsSound (change p t [] [] m) _ _ (change-IsSound p t [] [] m h) refl refl)
  ]
]

pub forget-IsSound : (p : ℕ) (m : ShardMgr) → IsSound m → IsSound (forget p m)
forget-IsSound p m h = elim (Option-cases m.connecting_shard) [
  | inl e ↦ rw e (rw e at h)
  | inr (c, e) ↦ elim (Bool-cases (c == p)) [
    | inl f ↦ rw (e, f) (rw e at (stop_IsOk _ _ _ _ h))
    | inr f ↦ rw (e, f) (rw e at h)
  ]
]

pub length-forget : (p : ℕ) (m : ShardMgr) → length (forget p m).shards ≡ length m.shards
length-forget p m = elim (Option-cases m.connecting_shard) [
  | inl e ↦ rw e refl
  | inr (c, e) ↦ elim (Bool-cases (c == p)) [ inl f ↦ rw (e, f) refl | inr f ↦ rw (e, f) refl ]
]

-- A shard of the manager is queued after it is reset.
pub requeue-Keeps :
    (p : ℕ) (status : ShardStatus) (m : ShardMgr)
    → IsSound m
    → p < length m.shards
    → Keeps (Option.map (queue_reconnect p) (reset_shard p status m))
unfolding reset_shard
requeue-Keeps p status m h k = elim (Option-cases (get_elem? m.shards p)) [
  | inl e ↦ rw e tt
  | inr (s, e) ↦ rw e (
      queue_reconnect-IsSound p (change p (do_reset status s).0 (do_reset status s).1 [] m)
        (rw (length-put p (do_reset status s).0 m.shards) k)
        (change-IsSound p (do_reset status s).0 (do_reset status s).1 [] m h))
]

pub on_close-Keeps : (p : ℕ) (m : ShardMgr) → IsSound m → Keeps (on_close p m)
unfolding on_close
on_close-Keeps p m h = elim (Option-cases (get_elem? m.shards p)) [
  | inl e ↦ rw e tt
  | inr (s, e) ↦ elim (Bool-cases (is_shutdown m.state || is_shutdown_status s.connection_state)) [
    | inl f ↦ rw (e, f) (reset_shard-Keeps p ShardStatus.closing (let_go s) (let_go-IsSound s))
    | inr f ↦
        rw (e, f)
          (requeue-Keeps p ShardStatus.queued (let_go s) (let_go-IsSound s)
            (let_go-length s (lt_of_get_elem? m.shards p s e)))
  ]
]
  where
    let_go : Shard → ShardMgr
    let_go s = change p (record s { connect_time = 0 }) [] [] (forget p m)

    let_go-IsSound : (s : Shard) → IsSound (let_go s)
    let_go-IsSound s =
        change-IsSound p (record s { connect_time = 0 }) [] [] (forget p m) (forget-IsSound p m h)

    let_go-length : (s : Shard) → p < length m.shards → p < length (let_go s).shards
    let_go-length s k =
        rw (length-put p (record s { connect_time = 0 }) (forget p m).shards, length-forget p m) k

pub run_posted-Keeps :
    (net : Sockets) (now : ℕ) (m : ShardMgr) → IsSound m → Keeps (run_posted net now m)
unfolding run_posted
run_posted-Keeps net now m h = run_front m.posted
  where
    run_front :
        (js : List (ℕ × Job))
        → Keeps (elim js [
          | [] ↦ some m
          | (p, job) ∷ more ↦ do
            s ← get_elem? m.shards p
            (t, tasks, calls) ← run_job net now job s
            some (change p t tasks calls (record m { posted = more }))
        ])
    run_front [] = h
    run_front ((p, job) ∷ more) = bind-All IsSound (get_elem? m.shards p) _ (λ s. λ e.
        bind-All IsSound (run_job net now job s) _
          (λ r. λ f. change-IsSound p r.0 r.1 r.2 (record m { posted = more }) h))

pub add_shard-IsSound : (k : ℕ) (m : ShardMgr) → IsSound m → IsSound (add_shard k m)
add_shard-IsSound k m h = rw (length-append m.shards (new_shard k ∷ [])) (record {
  distinct =
      IsDistinct-snoc (length m.shards) m.shards_to_connect
        (fresh (length m.shards) m.shards_to_connect h.known) h.distinct;
  known =
      known_snoc (length m.shards + 1) (length m.shards) m.shards_to_connect (omega arith)
        (known_suc (length m.shards) m.shards_to_connect h.known);
  held = held_suc (length m.shards) m.connecting_shard h.held;
  timed = h.timed;
})

pub add_shards-IsSound : (n k : ℕ) (m : ShardMgr) → IsSound m → IsSound (add_shards n k m)
unfolding add_shards
add_shards-IsSound zero k m h = h
add_shards-IsSound (suc n) k m h =
    add_shards-IsSound n (suc k) _ (added (belongs m.max_clusters m.cluster_id k))
  where
    added : (b : Bool) → IsSound (if b then add_shard k m else m)
    added true = add_shard-IsSound k m h
    added false = h

pub start-Keeps : (m : ShardMgr) → IsSound m → Keeps (start m)
unfolding start
start-Keeps m h = elim (Bool-cases (is_empty m.gateway_url)) [
  | inl e ↦ rw e tt
  | inr e ↦ rw e (add_shards-IsSound m.shard_max_count 0 (record m { state = running }) h)
]

pub connect_shard-Keeps : (p : ℕ) (m : ShardMgr) → IsSound m → Keeps (connect_shard p m)
unfolding connect_shard
connect_shard-Keeps p m h =
    bind-All IsSound (get_elem? m.shards p) _
      (λ s. λ e. bind-All IsSound s.connection _ (λ c. λ f. h))

pub online-Keeps : (p : ℕ) (m : ShardMgr) → IsSound m → Keeps (online p m)
unfolding online
online-Keeps p m h = bind-All IsSound (get_elem? m.shards p) _ (λ s. λ e.
    forget_IsOk _ _ _ _
      (change-IsSound p (record s { connection_state = ShardStatus.online }) [] [] m h))

pub shut_down-IsSound : (m : ShardMgr) → IsSound m → IsSound (shut_down m)
unfolding shut_down
shut_down-IsSound m h = rw (length-reset_all m.shards 0) h
