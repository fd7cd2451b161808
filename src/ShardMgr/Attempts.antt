-- ===== src/ShardMgr/Attempts.antt =====
-- The attempts to connect that the timer of include/aegis/shards/impl/shard_mgr.cpp makes: that it
-- never goes through a null pointer, when it starts an attempt, and what it does to the queue when
-- one takes too long.
use aegis_cpp.Common.{
  ℕ, ◌+◌, ◌<◌, ◌≤◌, ap, ◌==◌, ◌≡◌, refl, sym, ◌∙◌, subst, leb, Bool, true, false, ◌||◌, List, [],
  ◌∷◌, ◌++◌, Option, none, some, if◌then◌else◌, ◌>>=◌, length, get_elem?, contains, arith, leb→le,
  Bool-cases, Option-cases, some_eq, inl, inr,
}
use aegis_cpp.Common.Map.{is_some, AllOption}
use aegis_cpp.Shard.{Shard, Sockets, ShardStatus, is_connected}
use aegis_cpp.ShardMgr.{
  ShardMgr, check_all, queue_reconnect, close, give_up, attempt, serve, ws_status, seconds,
  is_shutdown,
}
use aegis_cpp.ShardMgr.Sound.{
  IsOk, IsSound, length-check_shards, get_elem?-lt, check_all-IsSound, bind-All,
}

is_some-bind {ℓ κ} :
    {A : Type ℓ} {B : Type κ} (o : Option A) (f : A → Option B)
    → is_some o ≡ true
    → ((a : A) → o ≡ some a → is_some (f a) ≡ true)
    → is_some (o >>= f) ≡ true
is_some-bind none f h k = absurd (ground (arith, h))
is_some-bind (some a) f h k = k a refl

held_lt : (n p : ℕ) (c : Option ℕ) → AllOption (λ q. q < n) c → c ≡ some p → p < n
held_lt n p none h e = absurd (ground (arith, e))
held_lt n p (some q) h e = subst (λ x. x < n) (some_eq e) h

give_up_returns :
    (net : Sockets) (now : ℕ) (rest : List ℕ) (m : ShardMgr)
    → IsSound m
    → (m.connect_time == 0) ≡ false
    → is_some (give_up net now rest m) ≡ true
unfolding give_up close
give_up_returns net now rest m h z = is_some-bind m.connecting_shard _ (rw z at h.timed) (λ c. λ e.
    is_some-bind _ _
      (is_some-bind (get_elem? m.shards c) _
        (get_elem?-lt m.shards c (held_lt _ c m.connecting_shard h.held e)) (λ s. λ f. refl))
      (λ n. λ f. refl))

serve_returns :
    (net : Sockets) (now c : ℕ) (q : List ℕ) (m : ShardMgr)
    → IsSound m
    → m.shards_to_connect ≡ q
    → is_some (serve net now (some c) q m) ≡ true
unfolding serve attempt
serve_returns net now c [] m h e = refl
serve_returns net now c (p ∷ rest) m h e =
    elim (Bool-cases (leb (m.last_identify + seconds 6) now)) [
      | inr b ↦ rw b refl
      | inl b ↦ elim (Bool-cases (m.connect_time == 0)) [
        | inl z ↦
            rw (b, z)
              (is_some-bind (get_elem? m.shards p) _ known (λ s. λ f.
                elim (Bool-cases (is_connected net s)) [
                  | inl o ↦ rw o refl
                  | inr o ↦ rw o (is_some-bind (get_elem? m.shards p) _ known (λ t. λ g. refl))
                ]))
        | inr z ↦ elim (Bool-cases (leb (m.connect_time + seconds 20) now)) [
          | inl t ↦ rw (b, z, t) (give_up_returns net now rest m h z)
          | inr t ↦ rw (b, z, t) refl
        ]
      ]
    ]
  where
    known : is_some (get_elem? m.shards p) ≡ true
    known = get_elem?-lt m.shards p (front_lt (rw e at h))
      where
        front_lt :
            IsOk (length m.shards) (p ∷ rest) m.connect_time m.connecting_shard
            → p < length m.shards
        front_lt k = k.known.0

-- If the queue is sound and `get_connection` returns a connection, the timer's function returns,
-- whatever the sockets and the clock say.
pub ws_status_returns :
    (net : Sockets) (now c : ℕ) (aborted : Bool) (m : ShardMgr)
    → IsSound m
    → is_some (ws_status net now (some c) aborted m) ≡ true
unfolding ws_status
ws_status_returns net now c aborted m h = elim (Bool-cases (aborted || is_shutdown m.state)) [
  | inl e ↦ rw e refl
  | inr e ↦ rw e (
      is_some-bind _ _
        (serve_returns net now c m.shards_to_connect (check_all net now m)
          (check_all-IsSound net now m h) refl)
        (λ n. λ f. refl))
]

abbrev pub front : List ℕ → Option ℕ
front [] = none
front (p ∷ ps) = some p

-- The queue behind a run of the timer while c is connecting for 20 seconds and the last
-- identification is 6 seconds back.
abbrev pub queue_of : Option ShardMgr → Option (List ℕ)
queue_of none = none
queue_of (some m) = some m.shards_to_connect

queue_of-give_up :
    (net : Sockets) (now : ℕ) (rest : List ℕ) (m : ShardMgr) (c : ℕ) (s : Shard)
    → m.connecting_shard ≡ some c
    → get_elem? m.shards c ≡ some s
    → queue_of (give_up net now rest m) ≡ some (if contains c rest then rest else rest ++ c ∷ [])
unfolding give_up close queue_reconnect
queue_of-give_up net now rest m c s e f =
    rw (e, f) (elim (Bool-cases (contains c rest)) [ inl g ↦ rw g refl | inr g ↦ rw g refl ])

queue_of-serve :
    (net : Sockets) (now : ℕ) (made : Option ℕ) (m : ShardMgr) (c p : ℕ) (rest : List ℕ) (s : Shard)
    → m.connecting_shard ≡ some c
    → get_elem? m.shards c ≡ some s
    → (m.connect_time == 0) ≡ false
    → leb (m.connect_time + seconds 20) now ≡ true
    → leb (m.last_identify + seconds 6) now ≡ true
    → queue_of (serve net now made (p ∷ rest) m)
      ≡ some (if contains c rest then rest else rest ++ c ∷ [])
unfolding serve
queue_of-serve net now made m c p rest s e f z t b =
    rw (b, z, t) (queue_of-give_up net now rest m c s e f)

queue_of_timer :
    (o : Option ShardMgr) → queue_of (o >>= λ n. some (record n { ws_timer = true })) ≡ queue_of o
queue_of_timer none = refl
queue_of_timer (some n) = refl

-- When the attempt of a shard c of the manager has lasted 20 seconds, the last identification is 6
-- seconds back, and p is the front of the queue, a run of the timer (not cancelled, and not after
-- the shutdown) takes p from the queue, whether or not p is c, and puts c at its end, unless c is in
-- the rest of it.
pub ws_status_timeout :
    (net : Sockets) (now : ℕ) (made : Option ℕ) (m : ShardMgr) (c p : ℕ) (rest : List ℕ)
    → is_shutdown m.state ≡ false
    → m.connecting_shard ≡ some c
    → c < length m.shards
    → m.shards_to_connect ≡ p ∷ rest
    → (m.connect_time == 0) ≡ false
    → leb (m.connect_time + seconds 20) now ≡ true
    → leb (m.last_identify + seconds 6) now ≡ true
    → queue_of (ws_status net now made false m)
      ≡ some (if contains c rest then rest else rest ++ c ∷ [])
unfolding ws_status
ws_status_timeout net now made m c p rest d e k q z t b = rw d (
    queue_of_timer _
    ∙ subst
        (λ x.
          queue_of (serve net now made x (check_all net now m))
          ≡ some (if contains c rest then rest else rest ++ c ∷ []))
        (sym q) served)
  where
    lost : {o : Option Shard} → is_some o ≡ true → o ≡ none → ⊥
    lost h f = ground (arith, rw f at h)

    served :
        queue_of (serve net now made (p ∷ rest) (check_all net now m))
        ≡ some (if contains c rest then rest else rest ++ c ∷ [])
    served = elim (Option-cases (get_elem? (check_all net now m).shards c)) [
      | inl f ↦ absurd (
          lost
            (get_elem?-lt (check_all net now m).shards c
              (rw (length-check_shards net now 0 m.shards) k))
            f)
      | inr (s, f) ↦ queue_of-serve net now made (check_all net now m) c p rest s e f z t b
    ]

-- How a run of the timer can leave the attempt: none, the one of before, or a new one of the front
-- of the queue, when none was under way and the last identification is 6 seconds back.
pub data Starts (now : ℕ) (m n : ShardMgr) : Type 0 where
  ends : n.connect_time ≡ 0 → Starts now m n
  goes_on :
      n.connect_time ≡ m.connect_time → n.connecting_shard ≡ m.connecting_shard → Starts now m n
  starts :
      m.connect_time ≡ 0
      → m.last_identify + seconds 6 ≤ now
      → n.connect_time ≡ now
      → n.connecting_shard ≡ front m.shards_to_connect
      → Starts now m n

serve-Starts :
    (net : Sockets) (now : ℕ) (made : Option ℕ) (q : List ℕ) (m : ShardMgr)
    → m.shards_to_connect ≡ q
    → AllOption (Starts now m) (serve net now made q m)
unfolding serve attempt give_up
serve-Starts net now made [] m e = goes_on refl refl
serve-Starts net now made (p ∷ rest) m e =
    elim (Bool-cases (leb (m.last_identify + seconds 6) now)) [
      | inr b ↦ rw b (goes_on refl refl)
      | inl b ↦ elim (Bool-cases (m.connect_time == 0)) [
        | inl z ↦
            rw (b, z)
              (bind-All (Starts now m) (get_elem? m.shards p) _ (λ s. λ f.
                elim (Bool-cases (is_connected net s)) [
                  | inl o ↦ rw o (goes_on refl refl)
                  | inr o ↦ rw o (
                      bind-All (Starts now m) (get_elem? m.shards p) _ (λ t. λ g.
                        bind-All (Starts now m) made _ (λ c. λ i.
                          starts (ground (arith, z)) (leb→le _ now b) refl (ap front (sym e)))))
                ]))
        | inr z ↦ elim (Bool-cases (leb (m.connect_time + seconds 20) now)) [
          | inl t ↦
              rw (b, z, t)
                (bind-All (Starts now m) m.connecting_shard _ (λ c. λ f.
                  bind-All (Starts now m) (close net now c 1001 ShardStatus.closing m) _
                    (λ n. λ g. ends refl)))
          | inr t ↦ rw (b, z, t) (goes_on refl refl)
        ]
      ]
    ]

-- A run of the timer that returns ends the attempt, leaves it, or starts one for the front of the
-- queue; it does the last only if none is under way and the last identification is 6 seconds back.
pub ws_status-Starts :
    (net : Sockets) (now : ℕ) (made : Option ℕ) (aborted : Bool) (m : ShardMgr)
    → AllOption (Starts now m) (ws_status net now made aborted m)
unfolding ws_status
ws_status-Starts net now made aborted m = elim (Bool-cases (aborted || is_shutdown m.state)) [
  | inl e ↦ rw e (goes_on refl refl)
  | inr e ↦ rw e (bind-All (Starts now m) _ _ (λ n. λ f. set_timer n (of_served n f)))
]
  where
    of_served :
        (n : ShardMgr)
        → serve net now made m.shards_to_connect (check_all net now m) ≡ some n
        → Starts now m n
    of_served n f = of_checked (
        subst (AllOption (Starts now (check_all net now m))) f
          (serve-Starts net now made m.shards_to_connect (check_all net now m) refl))
      where
        of_checked : Starts now (check_all net now m) n → Starts now m n
        of_checked (ends a) = ends a
        of_checked (goes_on a b) = goes_on a b
        of_checked (starts a b c d) = starts a b c d

    set_timer : (n : ShardMgr) → Starts now m n → Starts now m (record n { ws_timer = true })
    set_timer n (ends a) = ends a
    set_timer n (goes_on a b) = goes_on a b
    set_timer n (starts a b c d) = starts a b c d
