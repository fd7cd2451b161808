-- ===== src/Gateway.antt =====
-- include/aegis/impl/core.cpp: what the bot does with a connection's messages: `on_connect`,
-- `on_message`, `keep_alive` and the delayed identification. The JSON library is a parameter: a
-- message comes parsed, and `dump` turns a payload into its text.
pub mod Heartbeat
mod Examples
use aegis_cpp.Common.{
  ℕ, ◌==◌, ◌&&◌, ◌||◌, not, Bool, true, false, List, [], ◌∷◌, Option, none, some, if◌then◌else◌,
}
use aegis_cpp.Common.Map.{is_some}
use aegis_cpp.Shard.{
  Shard, Sockets, Frame, Task, Call, ShardStatus, HeartbeatStatus, send, send_now, start_heartbeat,
  is_connected, is_preready_or_online, do_reset,
}
use aegis_cpp.ShardMgr.{is_empty, close_shard}
use Prim.Native.String.{String}

-- The objects that the bot sends: opcode 2 with its presence and intents where it has them, 6, and 1.
pub data Payload : Type 0 where
  identify : String → ℕ → ℕ → Option String → Option ℕ → Payload
  resume : String → String → ℕ → Payload
  heartbeat : ℕ → Payload

pub record Config : Type 0 where
  pub token : String
  pub self_presence : String
  pub intents : ℕ
  pub shard_max_count : ℕ

-- The fields that `on_message` reads; `none` is null, `invalid` whether `d` is false, and
-- `heartbeat_interval` that of `d`, which may be missing.
pub record Message : Type 0 where
  pub s : Option ℕ
  pub t : Option String
  pub op : ℕ
  pub invalid : Bool
  pub heartbeat_interval : Option ℕ

-- What a message does: to the shard, what is posted and called, and the events for the handlers.
pub record Reaction : Type 0 where
  pub shard : Shard
  pub tasks : List Task
  pub calls : List Call
  pub events : List String

abbrev pub quiet : Shard → Reaction
quiet s = record { shard = s; tasks = []; calls = []; events = [] }

abbrev pub no_intents : ℕ
no_intents = 0xffffffff

abbrev pub intents_of : Config → Option ℕ
intents_of cfg = if cfg.intents == no_intents then none else some cfg.intents

abbrev pub forget_session : Shard × List Task → Shard × List Task × Option ℕ
forget_session (s, tasks) = (record s { session_id = "" }, tasks, none)

module _ (dump : Payload → String) (cfg : Config) where
  -- A text frame.
  abbrev pub frame : Payload → Frame
  frame p = record { payload = dump p; op = 1 }

  -- core::on_connect: what it posts, and the time of the identification if it makes one.
  abbrev pub on_connect : Sockets → ℕ → Shard → List Task × Option ℕ
  on_connect net now s =
      if is_empty s.session_id
      then (
        send net
            (frame (
              identify cfg.token s.id cfg.shard_max_count (some cfg.self_presence)
                (intents_of cfg)))
            s,
        some now,
      )
      else (send net (frame (resume cfg.token s.session_id s.sequence)) s, none)

  -- core::keep_alive; `aborted` is whether the timer was cancelled.
  abbrev pub keep_alive : Sockets → ℕ → Bool → Shard → Shard × List Task
  keep_alive net now aborted s =
      if aborted
      then (s, [])
      else if not (is_preready_or_online s.connection_state) || not (is_connected net s)
      then (s, [])
      else (
        record s { heartbeat_status = HeartbeatStatus.waiting; lastheartbeat = now },
        send_now net (frame (heartbeat s.sequence)) s,
      )

  abbrev pub presence_of : Option String
  presence_of = if is_empty cfg.self_presence then none else some cfg.self_presence

  -- The handler of the timer that opcode 9 sets, and the time of the identification if it makes one.
  abbrev pub run_delayedauth : Sockets → ℕ → Bool → Shard → Shard × List Task × Option ℕ
  run_delayedauth net now aborted s =
      if aborted
      then (s, [], none)
      else if not (is_some s.connection)
      then forget_session (do_reset ShardStatus.closing s)
      else (
        s,
        send_now net
            (frame (identify cfg.token s.id cfg.shard_max_count presence_of (intents_of cfg))) s,
        some now,
      )

  -- Opcode 9: a session that cannot be resumed. `none` is a null connection.
  abbrev pub invalid_session : Bool → Shard → Option Reaction
  invalid_session false s = some (quiet s)
  invalid_session true s = elim s.connection [
    | none ↦ none
    | some c ↦ some (quiet (record s { sequence = 0; session_id = ""; delayedauth = true }))
  ]

  abbrev pub acknowledge : ℕ → Shard → Shard
  acknowledge now s = record s { heartbeat_status = HeartbeatStatus.normal; heartbeat_ack = now }

  -- Opcode 10; without an interval, an exception ends it after the acknowledgement.
  abbrev pub hello : ℕ → Option ℕ → Shard → Shard
  hello now none s = acknowledge now s
  hello now (some interval) s =
      start_heartbeat interval (record (acknowledge now s) { keepalivefunc = true })

  abbrev pub closed_by_request : Sockets → ℕ → Shard → Reaction
  closed_by_request net now s =
      let (t, calls) = close_shard net now 1003 ShardStatus.closing s in
      record { shard = t; tasks = []; calls = calls; events = [] }

  -- The opcodes of a message without an event.
  abbrev pub on_opcode : Sockets → ℕ → Message → Shard → Option Reaction
  on_opcode net now m s =
      if m.op == 9
      then invalid_session m.invalid s
      else if m.op == 7
      then some (closed_by_request net now s)
      else if m.op == 1
      then some (record (quiet s) { tasks = send net (frame (heartbeat s.sequence)) s })
      else if m.op == 10
      then some (quiet (hello now m.heartbeat_interval s))
      else if m.op == 11
      then some (quiet (acknowledge now s))
      else some (quiet s)

  abbrev pub set_sequence : Option ℕ → Shard → Shard
  set_sequence none s = s
  set_sequence (some n) s = record s { sequence = n }

  -- core::on_message; `none` for the message is a text that does not parse, or null. `known` is
  -- whether the event has a handler.
  abbrev pub on_message : (String → Bool) → Sockets → ℕ → Option Message → Shard → Option Reaction
  on_message known net now none s = some (quiet s)
  on_message known net now (some m) s = elim m.t [
    | none ↦ on_opcode net now m (set_sequence m.s s)
    | some cmd ↦ some (record (quiet (record (set_sequence m.s s) { lastwsevent = now })) {
      events = if known cmd then cmd ∷ [] else [];
    })
  ]
