-- ===== src/Shard.antt =====
-- include/aegis/shards/shard.hpp and include/aegis/shards/impl/shard.cpp: one connection to the
-- gateway. `none` for a connection or a strand is a null pointer; a connection is a number that the
-- websocket library gives. Times are nanoseconds of `steady_clock`, 0 for a `time_point()`. A timer
-- is whether it has a handler that waits. What is posted to a strand is a task, run later.
pub mod Writes
pub mod Presence
use aegis_cpp.Common.{
  ℕ, suc, ◌+◌, Bool, true, false, not, ◌&&◌, ◌||◌, List, [], ◌∷◌, ◌++◌, Option, none, some,
  if◌then◌else◌,
}
use aegis_cpp.Common.Map.{is_some}
use Prim.Native.String.{String}

pub data ShardStatus : Type 0 where
  uninitialized connecting preready online queued reconnecting closing closed shutdown : ShardStatus

pub data HeartbeatStatus : Type 0 where
  normal waiting : HeartbeatStatus

-- A message with its opcode of the websocket protocol.
pub record Frame : Type 0 where
  pub payload : String
  pub op : ℕ

pub record Shard : Type 0 where
  pub id : ℕ
  pub connection : Option ℕ
  pub strand : Option ℕ
  pub connection_state : ShardStatus
  pub sequence : ℕ
  pub session_id : String
  pub trace : List String
  pub write_queue : List Frame
  pub ws_buffer : String
  pub zlib_ctx : Bool
  pub keepalivetimer : Bool
  pub keepalivefunc : Bool
  pub delayedauth : Bool
  pub write_timer : Bool
  pub heartbeattime : ℕ
  pub heartbeat_status : HeartbeatStatus
  pub heartbeat_ack : ℕ
  pub lastheartbeat : ℕ
  pub lastwsevent : ℕ
  pub last_status_time : ℕ
  pub ready_time : ℕ
  pub last_ws_write : ℕ
  pub connect_time : ℕ
  pub closing_time : ℕ
  pub reconnects : ℕ
  pub transfer_bytes : ℕ
  pub transfer_bytes_u : ℕ

-- shard::shard
abbrev pub new_shard : ℕ → Shard
new_shard id = record {
  id = id;
  connection = none;
  strand = none;
  connection_state = uninitialized;
  sequence = 0;
  session_id = "";
  trace = [];
  write_queue = [];
  ws_buffer = "";
  zlib_ctx = false;
  keepalivetimer = false;
  keepalivefunc = false;
  delayedauth = false;
  write_timer = false;
  heartbeattime = 0;
  heartbeat_status = normal;
  heartbeat_ack = 0;
  lastheartbeat = 0;
  lastwsevent = 0;
  last_status_time = 0;
  ready_time = 0;
  last_ws_write = 0;
  connect_time = 0;
  closing_time = 0;
  reconnects = 0;
  transfer_bytes = 0;
  transfer_bytes_u = 0;
}

-- What the websocket library answers at some moment: whether the raw socket of a connection is
-- open, whether its session is, and whether opening it throws.
pub record Sockets : Type 0 where
  pub raw_open : ℕ → Bool
  pub session_open : ℕ → Bool
  pub refuses : ℕ → Bool

-- The calls of the websocket library.
pub data Call : Type 0 where
  close_socket : ℕ → ℕ → Call
  open_socket : ℕ → Call
  send_frame : ℕ → Frame → Call

-- The functions that a shard posts to its strand, with what they capture.
pub data Task : Type 0 where
  reset_task : ShardStatus → Task
  connect_task : Task
  push_task : Frame → Task
  send_task : Frame → Task

abbrev pub state_valid : Shard → Bool
state_valid s = is_some s.connection && is_some s.strand

-- shard::_reset
abbrev pub reset : Shard → Shard
reset s = record s {
  last_status_time = 0;
  lastwsevent = 0;
  heartbeat_ack = 0;
  lastheartbeat = 0;
  connect_time = 0;
  connection = none;
  write_queue = [];
  delayedauth = false;
  keepalivetimer = false;
  write_timer = false;
  ws_buffer = "";
  zlib_ctx = false;
  trace = [];
}

abbrev pub count_reconnect : Shard → Shard
count_reconnect s = record s { reconnects = suc s.reconnects }

-- shard::do_reset
abbrev pub do_reset : ShardStatus → Shard → Shard × List Task
do_reset status s =
    if not (state_valid s)
    then (count_reconnect (reset (record s { connection_state = status })), [])
    else (s, reset_task status ∷ [])

-- The call of `close` in the task of `do_reset`.
abbrev pub close_open : Sockets → Option ℕ → List Call
close_open net none = []
close_open net (some c) = if net.session_open c then close_socket c 1001 ∷ [] else []

-- The task of `do_reset`. Its handlers do what its body does if `close` throws.
abbrev pub run_reset : Sockets → ShardStatus → Shard → Shard × List Call
run_reset net status s =
    (count_reconnect (reset (record s { connection_state = status })), close_open net s.connection)

-- shard::connect
abbrev pub connect : Shard → List Task
connect s = if not (state_valid s) then [] else connect_task ∷ []

-- The task of `connect`, where `none` is a call of the library with a null pointer.
abbrev pub run_connect : Sockets → Shard → Option (Shard × List Call)
run_connect net s = elim s.connection [
  | none ↦ none
  | some c ↦
      if net.refuses c
      then some (reset s, open_socket c ∷ [])
      else some (record s { connection_state = connecting }, open_socket c ∷ [])
]

-- shard::set_connected, where `none` is the exception.
abbrev pub set_connected : Shard → Option Shard
set_connected s =
    if not (state_valid s)
    then some s
    else if s.zlib_ctx
    then none
    else some (record s {
      ws_buffer = "";
      zlib_ctx = true;
      write_timer = true;
      connection_state = preready;
    })

abbrev pub is_preready_or_online : ShardStatus → Bool
is_preready_or_online preready = true
is_preready_or_online online = true
is_preready_or_online _ = false

abbrev pub is_online_status : ShardStatus → Bool
is_online_status online = true
is_online_status _ = false

-- Whether the raw socket of a connection that may be null is open.
abbrev pub is_open : Sockets → Option ℕ → Bool
is_open net none = false
is_open net (some c) = net.raw_open c

-- shard::is_connected
abbrev pub is_connected : Sockets → Shard → Bool
is_connected net s = is_open net s.connection && is_preready_or_online s.connection_state

-- shard::is_online
abbrev pub is_online : Sockets → Shard → Bool
is_online net s = is_open net s.connection && is_online_status s.connection_state

-- shard::start_heartbeat
abbrev pub start_heartbeat : ℕ → Shard → Shard
start_heartbeat heartbeat s =
    if not (state_valid s)
    then s
    else if not s.keepalivefunc || not (is_some s.connection)
    then record s { heartbeattime = heartbeat }
    else record s { heartbeattime = heartbeat; keepalivetimer = true }

-- shard::send
abbrev pub send : Sockets → Frame → Shard → List Task
send net f s =
    if not (state_valid s) then [] else if not (is_connected net s) then [] else push_task f ∷ []

-- The task of `send`.
abbrev pub run_push : Frame → Shard → Shard
run_push f s = record s { write_queue = s.write_queue ++ f ∷ [] }

-- shard::send_now
abbrev pub send_now : Sockets → Frame → Shard → List Task
send_now net f s =
    if not (state_valid s) then [] else if not (is_connected net s) then [] else send_task f ∷ []

abbrev pub send_to : Frame → Option ℕ → List Call
send_to f none = []
send_to f (some c) = send_frame c f ∷ []

-- The task of `send_now`.
abbrev pub run_send : ℕ → Frame → Shard → Shard × List Call
run_send now f s = (record s { last_ws_write = now }, send_to f s.connection)

-- The part of `process_writes` behind its early returns; `c` is the connection.
abbrev pub write_front : ℕ → ℕ → Shard → List Frame → Shard × List Call
write_front now c s [] = (record s { write_timer = true }, [])
write_front now c s (f ∷ fs) =
    if is_preready_or_online s.connection_state
    then (
      record s { last_ws_write = now; write_queue = fs; write_timer = true },
      send_frame c f ∷ [],
    )
    else (record s { write_timer = true }, [])

-- shard::process_writes; `aborted` is whether the timer was cancelled.
abbrev pub process_writes : ℕ → Bool → Shard → Shard × List Call
process_writes now aborted s =
    if not (state_valid s)
    then (s, [])
    else if aborted
    then (s, [])
    else elim s.connection [ none ↦ (s, []) | some c ↦ write_front now c s s.write_queue ]
