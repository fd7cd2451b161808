-- ===== src/ShardMgr/Sound/Timer.antt =====
-- The queue under the timer, `ws_status` of include/aegis/shards/impl/shard_mgr.cpp.
use aegis_cpp.Common.{
  ℕ, ◌+◌, ◌==◌, ◌≡◌, refl, leb, Bool, true, ◌||◌, List, [], ◌∷◌, Option, none, some, ◌>>=◌,
  get_elem?, arith, Bool-cases, Option-cases, inl, inr,
}
use aegis_cpp.Shard.{Sockets, ShardStatus, is_connected}
use aegis_cpp.ShardMgr.{
  ShardMgr, change, check_all, close, give_up, attempt, serve, serve_front, ws_status, close_shard,
  seconds, is_shutdown,
}
use aegis_cpp.ShardMgr.Sound.{
  IsSound, length-put, lt_of_get_elem?, queue_reconnect-IsSound, check_all-IsSound, forget_IsOk,
  bind-All, tail_IsOk, Keeps,
}

-- The branch for an attempt that takes too long: the queue loses its front, and the shard that was
-- connecting joins it.
pub give_up-Keeps :
    (net : Sockets) (now p : ℕ) (rest : List ℕ) (m : ShardMgr)
    → IsSound m
    → m.shards_to_connect ≡ p ∷ rest
    → Keeps (give_up net now rest m)
unfolding give_up close
give_up-Keeps net now p rest m h q = bind-All IsSound m.connecting_shard _ (λ c. λ e.
    elim (Option-cases (get_elem? m.shards c)) [
      | inl f ↦ rw f tt
      | inr (s, f) ↦ rw f (
          forget_IsOk _ _ _ _ (
            queue_reconnect-IsSound c
              (record (change c (close_shard net now 1001 ShardStatus.closing s).0 []
                (close_shard net now 1001 ShardStatus.closing s).1 m) { shards_to_connect = rest })
              (rw (length-put c (close_shard net now 1001 ShardStatus.closing s).0 m.shards)
                (lt_of_get_elem? m.shards c s f))
              (rw (length-put c (close_shard net now 1001 ShardStatus.closing s).0 m.shards)
                (tail_IsOk _ p rest _ _ _ q h))))
    ])

pub attempt-Keeps :
    (now : ℕ) (made : Option ℕ) (p : ℕ) (m : ShardMgr) → IsSound m → Keeps (attempt now made p m)
unfolding attempt
attempt-Keeps now made p m h = elim (Option-cases (get_elem? m.shards p)) [
  | inl e ↦ rw e tt
  | inr (s, e) ↦ elim (Option-cases made) [
    | inl f ↦ rw (e, f) tt
    | inr (c, f) ↦
        rw (e, f)
          (record {
            distinct = h.distinct;
            known =
                rw
                  (length-put p
                    (record s {
                      connection = some c;
                      strand = some c;
                      connection_state = ShardStatus.reconnecting;
                    })
                    m.shards)
                  h.known;
            held =
                rw
                  (length-put p
                    (record s {
                      connection = some c;
                      strand = some c;
                      connection_state = ShardStatus.reconnecting;
                    })
                    m.shards)
                  (lt_of_get_elem? m.shards p s e);
            timed = ground arith;
          })
  ]
]

pub serve_front-Keeps :
    (net : Sockets) (now : ℕ) (made : Option ℕ) (p : ℕ) (rest : List ℕ) (m : ShardMgr)
    → IsSound m
    → m.shards_to_connect ≡ p ∷ rest
    → Keeps (serve_front net now made p rest m)
serve_front-Keeps net now made p rest m h q = elim (Option-cases (get_elem? m.shards p)) [
  | inl e ↦ rw e tt
  | inr (s, e) ↦ elim (Bool-cases (is_connected net s)) [
    | inl c ↦ rw (e, c) (tail_IsOk _ p rest _ _ _ q h)
    | inr c ↦ rw (e, c) (attempt-Keeps now made p m h)
  ]
]

pub serve-Keeps :
    (net : Sockets) (now : ℕ) (made : Option ℕ) (q : List ℕ) (m : ShardMgr)
    → IsSound m
    → m.shards_to_connect ≡ q
    → Keeps (serve net now made q m)
unfolding serve
serve-Keeps net now made [] m h e = h
serve-Keeps net now made (p ∷ rest) m h e =
    elim (Bool-cases (leb (m.last_identify + seconds 6) now)) [
      | inr b ↦ rw b h
      | inl b ↦ elim (Bool-cases (m.connect_time == 0)) [
        | inl z ↦ rw (b, z) (serve_front-Keeps net now made p rest m h e)
        | inr z ↦ elim (Bool-cases (leb (m.connect_time + seconds 20) now)) [
          | inl t ↦ rw (b, z, t) (give_up-Keeps net now p rest m h e)
          | inr t ↦ rw (b, z, t) h
        ]
      ]
    ]

pub timer_Keeps :
    (o : Option ShardMgr) → Keeps o → Keeps (o >>= λ n. some (record n { ws_timer = true }))
timer_Keeps none h = tt
timer_Keeps (some n) h = h

pub ws_status-Keeps :
    (net : Sockets) (now : ℕ) (made : Option ℕ) (aborted : Bool) (m : ShardMgr)
    → IsSound m
    → Keeps (ws_status net now made aborted m)
unfolding ws_status
ws_status-Keeps net now made aborted m h = elim (Bool-cases (aborted || is_shutdown m.state)) [
  | inl e ↦ rw e h
  | inr e ↦ rw e (
      timer_Keeps _ (
        serve-Keeps net now made m.shards_to_connect (check_all net now m)
          (check_all-IsSound net now m h) refl))
]
