-- ===== src/ShardMgr/Sound.antt =====
-- What every operation of include/aegis/shards/impl/shard_mgr.cpp keeps of the queue, and the lemmas
-- for one shard that changes.
pub mod Timer
pub mod Operations
use aegis_cpp.Common.{
  ℕ, suc, zero, ◌+◌, ◌<◌, ◌==◌, ◌≡◌, ◌≢◌, refl, sym, subst, ltb, leb, Bool, true, false, not, ◌&&◌,
  ◌||◌, List, [], ◌∷◌, ◌++◌, Option, none, some, if◌then◌else◌, ◌>>=◌, length, length-append,
  get_elem?, contains, contains_snoc, All, arith, tests, Bool-cases, Option-cases, some_eq, inl,
  inr, ◌⊎◌,
}
use aegis_cpp.Common.Map.{is_some, AllOption}
use mathlib.Core.Option
use Prim.Native.String.{String}
use aegis_cpp.Shard.{
  Shard, Frame, Sockets, Call, Task, ShardStatus, do_reset, is_connected, set_connected, new_shard,
}
use aegis_cpp.ShardMgr.{
  ShardMgr, Job, put, change, check_shard, check_shards, check_all, queue_reconnect, close, give_up,
  attempt, serve, serve_front, ws_status, add_shards, add_shard, belongs, start, on_connect,
  connected, on_close, forget, reset_shard, run_posted, run_job, shut_down, reset_all,
  send_all_shards, online, connect_shard, close_shard, seconds, is_shutdown, is_shutdown_status,
  is_empty, new_shard_mgr, running,
}

abbrev pub IsDistinct : List ℕ → Type 0
IsDistinct [] = Unit
IsDistinct (p ∷ ps) = (contains p ps ≡ false) × IsDistinct ps

-- Of n shards, those of the queue are different ones, so is the connecting one, and there is a
-- connecting shard while the attempt has a time.
pub record IsOk (n : ℕ) (queue : List ℕ) (time : ℕ) (connecting : Option ℕ) : Type 0 where
  pub distinct : IsDistinct queue
  pub known : All (λ p. p < n) queue
  pub held : AllOption (λ p. p < n) connecting
  pub timed : (time == 0 || is_some connecting) ≡ true

abbrev pub IsSound : ShardMgr → Type 0
IsSound m = IsOk (length m.shards) m.shards_to_connect m.connect_time m.connecting_shard

pub length-put {ℓ} : {A : Type ℓ} (p : ℕ) (x : A) (xs : List A) → length (put p x xs) ≡ length xs
length-put p x [] = refl
length-put zero x (y ∷ ys) = refl
length-put (suc p) x (y ∷ ys) = omega (arith, length-put p x ys)

pub length-check_shards :
    (net : Sockets) (now p : ℕ) (ss : List Shard) → length (check_shards net now p ss).0 ≡ length ss
unfolding check_shards
length-check_shards net now p [] = refl
length-check_shards net now p (s ∷ ss) = omega (arith, length-check_shards net now (suc p) ss)

pub length-reset_all : (ss : List Shard) (p : ℕ) → length (reset_all ss p).0 ≡ length ss
unfolding reset_all
length-reset_all [] p = refl
length-reset_all (s ∷ ss) p = omega (arith, length-reset_all ss (suc p))

pub get_elem?-lt {ℓ} :
    {A : Type ℓ} (xs : List A) (p : ℕ) → p < length xs → is_some (get_elem? xs p) ≡ true
get_elem?-lt [] p h = ground arith
get_elem?-lt (x ∷ xs) zero h = refl
get_elem?-lt (x ∷ xs) (suc p) h = get_elem?-lt xs p (omega arith)

pub lt_of_get_elem? {ℓ} :
    {A : Type ℓ} (xs : List A) (p : ℕ) (x : A) → get_elem? xs p ≡ some x → p < length xs
lt_of_get_elem? [] p x h = ground arith
lt_of_get_elem? (y ∷ ys) zero x h = omega arith
lt_of_get_elem? (y ∷ ys) (suc p) x h = omega (arith, lt_of_get_elem? ys p x h)

pub IsDistinct-snoc :
    (p : ℕ) (ps : List ℕ) → contains p ps ≡ false → IsDistinct ps → IsDistinct (ps ++ p ∷ [])
IsDistinct-snoc p [] h d = (refl, tt)
IsDistinct-snoc p (q ∷ qs) h d =
    (rw (contains_snoc q p qs) (ground arith), IsDistinct-snoc p qs (ground arith) d.1)

pub known_snoc :
    (n p : ℕ) (ps : List ℕ) → p < n → All (λ q. q < n) ps → All (λ q. q < n) (ps ++ p ∷ [])
known_snoc n p [] h k = (h, tt)
known_snoc n p (q ∷ qs) h k = (k.0, known_snoc n p qs h k.1)

pub known_suc : (n : ℕ) (ps : List ℕ) → All (λ q. q < n) ps → All (λ q. q < n + 1) ps
known_suc n [] k = tt
known_suc n (q ∷ qs) k = (omega (arith, k.0), known_suc n qs k.1)

pub held_suc : (n : ℕ) (c : Option ℕ) → AllOption (λ q. q < n) c → AllOption (λ q. q < n + 1) c
held_suc n none k = tt
held_suc n (some q) k = omega (arith, k)

-- A place behind all those of a list is not in it.
pub fresh : (n : ℕ) (ps : List ℕ) → All (λ q. q < n) ps → contains n ps ≡ false
fresh n [] k = refl
fresh n (q ∷ qs) k = ground (arith, fresh n qs k.1, k.0)

pub queue_reconnect-IsSound :
    (p : ℕ) (m : ShardMgr) → p < length m.shards → IsSound m → IsSound (queue_reconnect p m)
unfolding queue_reconnect
queue_reconnect-IsSound p m h s = elim (Bool-cases (contains p m.shards_to_connect)) [
  | inl e ↦ rw e s
  | inr e ↦ rw e (record {
    distinct = IsDistinct-snoc p m.shards_to_connect e s.distinct;
    known = known_snoc (length m.shards) p m.shards_to_connect h s.known;
    held = s.held;
    timed = s.timed;
  })
]

-- A change of one shard.
pub change-IsSound :
    (p : ℕ) (s : Shard) (ts : List Task) (cs : List Call) (m : ShardMgr)
    → IsSound m
    → IsSound (change p s ts cs m)
change-IsSound p s ts cs m h = rw (length-put p s m.shards) h

pub check_all-IsSound :
    (net : Sockets) (now : ℕ) (m : ShardMgr) → IsSound m → IsSound (check_all net now m)
check_all-IsSound net now m h = rw (length-check_shards net now 0 m.shards) h

-- An attempt ends.
pub forget_IsOk : (n : ℕ) (q : List ℕ) (t : ℕ) (c : Option ℕ) → IsOk n q t c → IsOk n q 0 none
forget_IsOk n q t c h = record { distinct = h.distinct; known = h.known; held = tt; timed = refl }

pub stop_IsOk : (n : ℕ) (q : List ℕ) (t : ℕ) (c : Option ℕ) → IsOk n q t c → IsOk n q 0 c
stop_IsOk n q t c h = record { distinct = h.distinct; known = h.known; held = h.held; timed = refl }

pub bind-All {ℓ κ μ} :
    {A : Type ℓ} {B : Type κ} (Q : B → Type μ) (o : Option A) (f : A → Option B)
    → ((a : A) → o ≡ some a → AllOption Q (f a))
    → AllOption Q (o >>= f)
bind-All Q none f h = tt
bind-All Q (some a) f h = h a refl

-- The queue loses its front.
pub tail_IsOk :
    (n p : ℕ) (ps q : List ℕ) (t : ℕ) (c : Option ℕ) → q ≡ p ∷ ps → IsOk n q t c → IsOk n ps t c
tail_IsOk n p ps q t c e h = rest_IsOk (rw e at h)
  where
    rest_IsOk : IsOk n (p ∷ ps) t c → IsOk n ps t c
    rest_IsOk k = record {
      distinct = k.distinct.1;
      known = k.known.1;
      held = k.held;
      timed = k.timed;
    }

-- Each operation, where it returns.
abbrev pub Keeps : Option ShardMgr → Type 0
Keeps = AllOption IsSound

pub close-Keeps :
    (net : Sockets) (now p code : ℕ) (status : ShardStatus) (m : ShardMgr)
    → IsSound m
    → Keeps (close net now p code status m)
unfolding close
close-Keeps net now p code status m h = elim (Option-cases (get_elem? m.shards p)) [
  | inl e ↦ rw e tt
  | inr (s, e) ↦ rw e (
      change-IsSound p (close_shard net now code status s).0 []
        (close_shard net now code status s).1 m h)
]

pub reset_shard-Keeps :
    (p : ℕ) (status : ShardStatus) (m : ShardMgr) → IsSound m → Keeps (reset_shard p status m)
unfolding reset_shard
reset_shard-Keeps p status m h = elim (Option-cases (get_elem? m.shards p)) [
  | inl e ↦ rw e tt
  | inr (s, e) ↦ rw e (change-IsSound p (do_reset status s).0 (do_reset status s).1 [] m h)
]
