-- ===== src/ShardMgr.antt =====
-- include/aegis/shards/shard_mgr.hpp and include/aegis/shards/impl/shard_mgr.cpp: the shards of a
-- bot and the queue of those that are to be connected. A pointer to a shard is its place in
-- `_shards`, which only grows. `none` as a result is a call through a null pointer, or a C++
-- exception where that is said. Posted functions and calls of the websocket library are lists, the
-- oldest first.
pub mod Sound
pub mod Attempts
pub mod Connecting
pub mod Clusters
mod Examples
use aegis_cpp.Common.{
  ◌>>=◌, ℕ, suc, zero, ◌+◌, ◌*◌, ◌%◌, ◌^◌, ◌==◌, leb, ltb, Bool, true, false, not, ◌&&◌, ◌||◌, List,
  [], ◌∷◌, ◌++◌, map, Option, none, some, if◌then◌else◌, length, get_elem?, contains,
}
use aegis_cpp.Shard.{
  Shard, ShardStatus, HeartbeatStatus, Sockets, Call, close_socket, Task, new_shard, do_reset,
  run_reset, run_connect, run_push, run_send, connect, send, Frame, is_connected, set_connected,
  reset_task, connect_task, push_task, send_task,
}
use Prim.Native.String.{String}
use mathlib.Core.Option

pub data BotStatus : Type 0 where
  uninitialized running shutdown : BotStatus

-- A function posted to a strand: one of a shard's, or that of `shard_mgr::connect`.
pub data Job : Type 0 where
  shard_job : Task → Job
  connect_job : Job

pub record ShardMgr : Type 0 where
  pub shards : List Shard
  pub state : BotStatus
  pub last_ready : ℕ
  pub last_identify : ℕ
  pub connect_time : ℕ
  pub connecting_shard : Option ℕ
  pub shards_to_connect : List ℕ
  pub gateway_url : String
  pub shard_max_count : ℕ
  pub cluster_id : ℕ
  pub max_clusters : ℕ
  pub ws_timer : Bool
  pub posted : List (ℕ × Job)
  pub calls : List Call

-- shard_mgr::shard_mgr
abbrev pub new_shard_mgr : ℕ → ℕ → ShardMgr
new_shard_mgr cluster_id max_clusters = record {
  shards = [];
  state = running;
  last_ready = 0;
  last_identify = 0;
  connect_time = 0;
  connecting_shard = none;
  shards_to_connect = [];
  gateway_url = "";
  shard_max_count = 0;
  cluster_id = cluster_id;
  max_clusters = max_clusters;
  ws_timer = false;
  posted = [];
  calls = [];
}

-- The shards after one of them has changed.
abbrev pub put {ℓ} : {A : Type ℓ} → ℕ → A → List A → List A
put p x [] = []
put zero x (y ∷ ys) = x ∷ ys
put (suc p) x (y ∷ ys) = y ∷ put p x ys

abbrev pub jobs : ℕ → List Task → List (ℕ × Job)
jobs p [] = []
jobs p (t ∷ ts) = (p, shard_job t) ∷ jobs p ts

-- A change of one shard that posts functions and calls the library.
abbrev pub change : ℕ → Shard → List Task → List Call → ShardMgr → ShardMgr
change p s ts cs m = record m {
  shards = put p s m.shards;
  posted = m.posted ++ jobs p ts;
  calls = m.calls ++ cs;
}

-- The test of the loop in `start`.
abbrev pub belongs : ℕ → ℕ → ℕ → Bool
belongs max_clusters cluster_id k = max_clusters == 0 || k % max_clusters == cluster_id

abbrev pub add_shard : ℕ → ShardMgr → ShardMgr
add_shard k m = record m {
  shards_to_connect = m.shards_to_connect ++ length m.shards ∷ [];
  shards = m.shards ++ new_shard k ∷ [];
}

-- The loop of `start`, with so many rounds left.
pub add_shards : ℕ → ℕ → ShardMgr → ShardMgr
add_shards zero k m = m
add_shards (suc n) k m =
    add_shards n (suc k) (if belongs m.max_clusters m.cluster_id k then add_shard k m else m)

abbrev pub is_empty : String → Bool
is_empty String.[] = true
is_empty _ = false

-- `none` is the exception for an empty URL. The count of shards is below 2 ^ 31.
unfoldable pub start : ShardMgr → Option ShardMgr
unfolding add_shards
start m =
    if is_empty m.gateway_url
    then none
    else some
        (record (add_shards m.shard_max_count 0 (record m { state = running })) { ws_timer = true })

-- shard_mgr::close on the shard that it changes.
abbrev pub close_shard : Sockets → ℕ → ℕ → ShardStatus → Shard → Shard × List Call
close_shard net now code status s =
    let t = record s { connection_state = status; closing_time = now } in
    elim s.connection [
      | none ↦ (t, [])
      | some c ↦
          if net.raw_open c
          then (t, close_socket c code ∷ [])
          else (record t { connection = none }, [])
    ]

unfoldable pub close : Sockets → ℕ → ℕ → ℕ → ShardStatus → ShardMgr → Option ShardMgr
close net now p code status m = do
  s ← get_elem? m.shards p
  let (t, calls) = close_shard net now code status s
  some (change p t [] calls m)

unfoldable pub reset_shard : ℕ → ShardStatus → ShardMgr → Option ShardMgr
reset_shard p status m = do
  s ← get_elem? m.shards p
  let (t, tasks) = do_reset status s
  some (change p t tasks [] m)

unfoldable pub queue_reconnect : ℕ → ShardMgr → ShardMgr
queue_reconnect p m =
    if contains p m.shards_to_connect
    then m
    else record m { shards_to_connect = m.shards_to_connect ++ p ∷ [] }

-- The library's seconds.
abbrev pub seconds : ℕ → ℕ
seconds n = n * 10 ^ 9

abbrev pub is_waiting : HeartbeatStatus → Bool
is_waiting HeartbeatStatus.waiting = true
is_waiting HeartbeatStatus.normal = false

-- The branch of the loop of `ws_status` for a heartbeat without an answer.
abbrev pub time_out : Sockets → ℕ → Shard → Shard × List Task × List Call
time_out net now s =
    let (t, calls) = close_shard net now 1001 ShardStatus.closing s in
    let (u, tasks) = do_reset ShardStatus.closing t in (u, tasks, calls)

-- What the loop of `ws_status` does with one shard.
abbrev pub check_shard : Sockets → ℕ → Shard → Shard × List Task × List Call
check_shard net now s = elim s.connection_state [
  | ShardStatus.uninitialized ↦ (s, [], [])
  | _ ↦
      if is_connected net s
        && is_waiting s.heartbeat_status
        && ltb (s.lastheartbeat + seconds 20) now
      then time_out net now s
      else (record s { last_status_time = now }, [], [])
]

-- The loop of `ws_status` over the shards from place p on.
pub check_shards : Sockets → ℕ → ℕ → List Shard → List Shard × List (ℕ × Job) × List Call
check_shards net now p [] = ([], [], [])
check_shards net now p (s ∷ ss) =
    let (t, tasks, calls) = check_shard net now s in
    let (ts, more, further) = check_shards net now (suc p) ss in
    (t ∷ ts, jobs p tasks ++ more, calls ++ further)

abbrev pub check_all : Sockets → ℕ → ShardMgr → ShardMgr
check_all net now m =
    let (ss, js, cs) = check_shards net now 0 m.shards in
    record m { shards = ss; posted = m.posted ++ js; calls = m.calls ++ cs }

-- The branch of `ws_status` for an attempt that lasts 20 seconds; `rest` is the queue without its
-- front.
pub give_up : Sockets → ℕ → List ℕ → ShardMgr → Option ShardMgr
give_up net now rest m = do
  p ← m.connecting_shard
  c ← close net now p 1001 ShardStatus.closing m
  some (record (queue_reconnect p (record c { shards_to_connect = rest })) {
    connecting_shard = none;
    connect_time = 0;
  })

-- The branch of `ws_status` that starts an attempt; `made` is what `get_connection` returns, a null
-- pointer with an error.
pub attempt : ℕ → Option ℕ → ℕ → ShardMgr → Option ShardMgr
attempt now made p m = do
  s ← get_elem? m.shards p
  c ← made
  some (record m {
    connecting_shard = some p;
    connect_time = now;
    shards =
        put p
          (record s {
            connection = some c;
            strand = some c;
            connection_state = ShardStatus.reconnecting;
          })
          m.shards;
    posted = m.posted ++ (p, connect_job) ∷ [];
  })

abbrev pub serve_front : Sockets → ℕ → Option ℕ → ℕ → List ℕ → ShardMgr → Option ShardMgr
serve_front net now made p rest m = do
  s ← get_elem? m.shards p
  if not (is_connected net s)
      then attempt now made p m
      else some (record m { shards_to_connect = rest })

-- The part of `ws_status` behind its loop.
pub serve : Sockets → ℕ → Option ℕ → List ℕ → ShardMgr → Option ShardMgr
serve net now made [] m = some m
serve net now made (p ∷ rest) m =
    if not (leb (m.last_identify + seconds 6) now)
    then some m
    else if not (m.connect_time == 0)
    then if leb (m.connect_time + seconds 20) now then give_up net now rest m else some m
    else serve_front net now made p rest m

abbrev pub is_shutdown : BotStatus → Bool
is_shutdown shutdown = true
is_shutdown _ = false

-- shard_mgr::ws_status; `aborted` is whether the timer was cancelled, and a run without `aborted`
-- sets it again.
unfoldable pub ws_status : Sockets → ℕ → Option ℕ → Bool → ShardMgr → Option ShardMgr
unfolding serve check_shards
ws_status net now made aborted m =
    if aborted || is_shutdown m.state then some (record m { ws_timer = false }) else do
      n ← serve net now made m.shards_to_connect (check_all net now m)
      some (record n { ws_timer = true })

-- The part of `_on_connect` behind `set_connected`.
abbrev pub connected : ShardMgr → ShardMgr × Bool
connected m = elim m.shards_to_connect [
  | [] ↦ (m, true)
  | _ ∷ rest ↦ elim m.connecting_shard [
    | none ↦ (m, false)
    | some _ ↦ (record m { shards_to_connect = rest }, true)
  ]
]

-- The first lines of `_on_close`.
abbrev pub forget : ℕ → ShardMgr → ShardMgr
forget p m = elim m.connecting_shard [
  | none ↦ m
  | some c ↦ if c == p then record m { connect_time = 0 } else m
]

abbrev pub is_shutdown_status : ShardStatus → Bool
is_shutdown_status ShardStatus.shutdown = true
is_shutdown_status _ = false

-- shard_mgr::_on_connect, and whether it runs the callback. `none` is the exception that
-- `set_connected` throws, or a null pointer.
unfoldable pub on_connect : ℕ → ShardMgr → Option (ShardMgr × Bool)
on_connect p m = do
  s ← get_elem? m.shards p
  t ← set_connected s
  some (connected (change p t [] [] m))

-- shard_mgr::_on_close.
unfoldable pub on_close : ℕ → ShardMgr → Option ShardMgr
on_close p m = do
  s ← get_elem? m.shards p
  let n = change p (record s { connect_time = 0 }) [] [] (forget p m)
  if is_shutdown m.state || is_shutdown_status s.connection_state
      then reset_shard p ShardStatus.closing n
      else Option.map (queue_reconnect p) (reset_shard p ShardStatus.queued n)

-- shard_mgr::connect; `none` is a null pointer.
unfoldable pub connect_shard : ℕ → ShardMgr → Option ShardMgr
connect_shard p m = do
  s ← get_elem? m.shards p
  c ← s.connection
  some (record m { posted = m.posted ++ (p, connect_job) ∷ [] })

-- The function that `shard_mgr::connect` posts.
abbrev pub run_connect_job : ℕ → Shard → Option (Shard × List Task)
run_connect_job now s = do
  c ← s.connection
  let t = record s {
    connection_state = ShardStatus.connecting;
    heartbeat_ack = 0;
    lastheartbeat = now;
    last_status_time = now;
    lastwsevent = now;
  }
  some (t, connect t)

-- A posted function when it runs: the shard, what it posts and what it calls.
abbrev pub run_job : Sockets → ℕ → Job → Shard → Option (Shard × List Task × List Call)
run_job net now connect_job s = do (t, tasks) ← run_connect_job now s; some (t, tasks, [])
run_job net now (shard_job (reset_task status)) s =
    let (t, calls) = run_reset net status s in some (t, [], calls)
run_job net now (shard_job connect_task) s = do (t, calls) ← run_connect net s; some (t, [], calls)
run_job net now (shard_job (push_task f)) s = some (run_push f s, [], [])
run_job net now (shard_job (send_task f)) s =
    let (t, calls) = run_send now f s in some (t, [], calls)

-- The oldest posted function runs.
unfoldable pub run_posted : Sockets → ℕ → ShardMgr → Option ShardMgr
run_posted net now m = elim m.posted [
  | [] ↦ some m
  | (p, job) ∷ more ↦ do
    s ← get_elem? m.shards p
    (t, tasks, calls) ← run_job net now job s
    some (change p t tasks calls (record m { posted = more }))
]

-- shard_mgr::shutdown, with its loop over the places of `_shards`; `stop` of the library has no
-- part here.
pub reset_all : List Shard → ℕ → List Shard × List (ℕ × Job)
reset_all [] p = ([], [])
reset_all (s ∷ ss) p =
    let (t, tasks) = do_reset ShardStatus.shutdown s in
    let (ts, more) = reset_all ss (suc p) in (t ∷ ts, jobs p tasks ++ more)

unfoldable pub shut_down : ShardMgr → ShardMgr
unfolding reset_all
shut_down m =
    let (ss, js) = reset_all m.shards 0 in
    record m { state = shutdown; shards = ss; posted = m.posted ++ js }

-- shard_mgr::send_all_shards
unfoldable pub send_all : Sockets → Frame → List Shard → ℕ → List (ℕ × Job)
send_all net f [] p = []
send_all net f (s ∷ ss) p = jobs p (send net f s) ++ send_all net f ss (suc p)

unfoldable pub send_all_shards : Sockets → Frame → ShardMgr → ShardMgr
unfolding send_all
send_all_shards net f m = record m { posted = m.posted ++ send_all net f m.shards 0 }

-- shard_mgr::get_shard of a number of 16 bits, where `none` is the exception `std::out_of_range`.
unfoldable pub get_shard : ℕ → ShardMgr → Option Shard
get_shard shard_id m = if leb (length m.shards) shard_id then none else get_elem? m.shards shard_id

-- What `core::ws_ready` and `core::ws_resumed` of include/aegis/impl/core.cpp do with the manager.
unfoldable pub online : ℕ → ShardMgr → Option ShardMgr
online p m = do
  s ← get_elem? m.shards p
  some (record (change p (record s { connection_state = ShardStatus.online }) [] [] m) {
    connecting_shard = none;
    connect_time = 0;
  })
