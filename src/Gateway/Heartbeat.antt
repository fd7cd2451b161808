-- ===== src/Gateway/Heartbeat.antt =====
-- The heartbeat of a connection: `keep_alive` and the acknowledgement of
-- include/aegis/impl/core.cpp, and the timeout in `ws_status` of
-- include/aegis/shards/impl/shard_mgr.cpp.
use aegis_cpp.Common.{
  ℕ, ◌+◌, ltb, ◌≡◌, refl, ap, ◌∙◌, Bool, true, false, [], ◌∷◌, Option, none, some, if◌then◌else◌,
  Bool-cases, inl, inr,
}
use aegis_cpp.Shard.{Shard, Sockets, close_socket, ShardStatus, HeartbeatStatus}
use aegis_cpp.ShardMgr.{check_shard, seconds}
use aegis_cpp.Gateway.{
  Payload, Config, Message, keep_alive, acknowledge, quiet, Reaction, set_sequence, on_message,
}
use Prim.Native.String.{String}

-- A shard that is online on the connection c.
abbrev pub online_on : ℕ → ℕ → Shard → Shard
online_on c p s = record s {
  connection = some c;
  strand = some p;
  connection_state = ShardStatus.online;
}

abbrev beaten : ℕ → Shard → Shard
beaten sent s = record s { heartbeat_status = HeartbeatStatus.waiting; lastheartbeat = sent }

unanswered :
    (net : Sockets) (now sent c p : ℕ) (s : Shard)
    → net.raw_open c ≡ true
    → (check_shard net now (beaten sent (online_on c p s))).2
      ≡ (if ltb (sent + seconds 20) now then close_socket c 1001 ∷ [] else [])
unanswered net now sent c p s k = elim (Bool-cases (ltb (sent + seconds 20) now)) [
  | inl t ↦ rw (k, t) refl
  | inr t ↦ rw (k, t) refl
]

answered :
    (dump : Payload → String) (cfg : Config) (net : Sockets) (now sent ack c p : ℕ) (n : Option ℕ)
    (s : Shard)
    → net.raw_open c ≡ true
    → (check_shard net now
        (acknowledge dump cfg ack (set_sequence dump cfg n (beaten sent (online_on c p s))))).2
      ≡ []
answered dump cfg net now sent ack c p none s k = rw k refl
answered dump cfg net now sent ack c p (some x) s k = rw k refl

keep_alive-eq :
    (dump : Payload → String) (cfg : Config) (net : Sockets) (sent c p : ℕ) (s : Shard)
    → net.raw_open c ≡ true
    → (keep_alive dump cfg net sent false (online_on c p s)).0 ≡ beaten sent (online_on c p s)
keep_alive-eq dump cfg net sent c p s k = rw k refl

acknowledged :
    (dump : Payload → String) (cfg : Config) (known : String → Bool) (net : Sockets) (ack : ℕ)
    (m : Message) (s : Shard)
    → m.t ≡ none
    → m.op ≡ 11
    → on_message dump cfg known net ack (some m) s
      ≡ some (quiet (acknowledge dump cfg ack (set_sequence dump cfg m.s s)))
acknowledged dump cfg known net ack m s t w = rw (t, w) refl

-- A shard that is online on the connection c, whose raw socket is open, sends a heartbeat at `sent`.
-- A run of the timer at `now` closes c exactly if that is more than 20 seconds later; behind a
-- message with opcode 11 and no event, which the shard always takes, it closes nothing, however late.
pub check_shard-keep_alive :
    (dump : Payload → String) (cfg : Config) (known : String → Bool) (net : Sockets)
    (sent ack now c p : ℕ) (m : Message) (s : Shard)
    → net.raw_open c ≡ true
    → m.t ≡ none
    → m.op ≡ 11
    → ((check_shard net now (keep_alive dump cfg net sent false (online_on c p s)).0).2
        ≡ (if ltb (sent + seconds 20) now then close_socket c 1001 ∷ [] else []))
      × ((r : Reaction) × (on_message dump cfg known net ack
              (some m)
              (keep_alive dump cfg net sent false (online_on c p s)).0
            ≡ some r)
          × ((check_shard net now r.shard).2 ≡ []))
check_shard-keep_alive dump cfg known net sent ack now c p m s k t w = (
  ap (λ x. (check_shard net now x).2) kept ∙ unanswered net now sent c p s k,
  (
    quiet (acknowledge dump cfg ack (set_sequence dump cfg m.s (beaten sent (online_on c p s)))),
    ap (on_message dump cfg known net ack (some m)) kept
        ∙ acknowledged dump cfg known net ack m (beaten sent (online_on c p s)) t w,
    answered dump cfg net now sent ack c p m.s s k,
  ),
)
  where
    kept : (keep_alive dump cfg net sent false (online_on c p s)).0 ≡ beaten sent (online_on c p s)
    kept = keep_alive-eq dump cfg net sent c p s k
