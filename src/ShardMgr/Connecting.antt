-- ===== src/ShardMgr/Connecting.antt =====
-- The queue of include/aegis/shards/impl/shard_mgr.cpp over all runs.
use aegis_cpp.Common.{ℕ, ◌<◌, ◌≡◌, refl, subst, Bool, Option, none, some, length, arith, some_eq}
use aegis_cpp.Common.Map.{AllOption}
use Prim.Native.String.{String}
use aegis_cpp.Shard.{Frame, Sockets, ShardStatus}
use aegis_cpp.ShardMgr.{
  ShardMgr, queue_reconnect, close, ws_status, start, on_connect, on_close, reset_shard, run_posted,
  shut_down, send_all_shards, online, connect_shard, new_shard_mgr,
}
use aegis_cpp.ShardMgr.Sound.{IsSound, queue_reconnect-IsSound, close-Keeps, reset_shard-Keeps}
use aegis_cpp.ShardMgr.Sound.Timer.{ws_status-Keeps}
use aegis_cpp.ShardMgr.Sound.Operations.{
  on_connect-Keeps, on_close-Keeps, run_posted-Keeps, start-Keeps, connect_shard-Keeps,
  online-Keeps, shut_down-IsSound,
}

-- What can happen to the manager: the configuration from the REST API, its operations as the bot
-- calls them, the events of the connections, the timer, and the posted functions.
pub data Step : ShardMgr → ShardMgr → Type 0 where
  configures :
      (m : ShardMgr) (url : String) (count : ℕ)
      → Step m (record m { gateway_url = url; shard_max_count = count })
  identifies : (m : ShardMgr) (now : ℕ) → Step m (record m { last_identify = now })
  starts : {m n : ShardMgr} → start m ≡ some n → Step m n
  connects : {m n : ShardMgr} {b : Bool} (p : ℕ) → on_connect p m ≡ some (n, b) → Step m n
  closes : {m n : ShardMgr} (p : ℕ) → on_close p m ≡ some n → Step m n
  gets_online : {m n : ShardMgr} (p : ℕ) → online p m ≡ some n → Step m n
  is_closed :
      {m n : ShardMgr} (net : Sockets) (now p code : ℕ) (status : ShardStatus)
      → close net now p code status m ≡ some n
      → Step m n
  is_reset :
      {m n : ShardMgr} (p : ℕ) (status : ShardStatus) → reset_shard p status m ≡ some n → Step m n
  is_queued : (m : ShardMgr) (p : ℕ) → p < length m.shards → Step m (queue_reconnect p m)
  is_connecting : {m n : ShardMgr} (p : ℕ) → connect_shard p m ≡ some n → Step m n
  ticks :
      {m n : ShardMgr} (net : Sockets) (now : ℕ) (made : Option ℕ) (aborted : Bool)
      → ws_status net now made aborted m ≡ some n
      → Step m n
  runs : {m n : ShardMgr} (net : Sockets) (now : ℕ) → run_posted net now m ≡ some n → Step m n
  sends : (m : ShardMgr) (net : Sockets) (f : Frame) → Step m (send_all_shards net f m)
  shuts_down : (m : ShardMgr) → Step m (shut_down m)

pub data Reach (m : ShardMgr) : ShardMgr → Type 0 where
  here : Reach m m
  next : {n o : ShardMgr} → Reach m n → Step n o → Reach m o

of_Keeps {ℓ} :
    {A : Type 0} (P : A → Type ℓ) (o : Option A) (n : A) → o ≡ some n → AllOption P o → P n
of_Keeps P none n e h = absurd (ground (arith, e))
of_Keeps P (some m) n e h = subst P (some_eq e) h

Step-IsSound : {m n : ShardMgr} → Step m n → IsSound m → IsSound n
unfolding send_all_shards
Step-IsSound (configures m url count) h = h
Step-IsSound (identifies m now) h = h
Step-IsSound (starts {m} e) h = of_Keeps IsSound _ _ e (start-Keeps m h)
Step-IsSound (connects {m} p e) h = of_Keeps (λ r. IsSound r.0) _ _ e (on_connect-Keeps p m h)
Step-IsSound (closes {m} p e) h = of_Keeps IsSound _ _ e (on_close-Keeps p m h)
Step-IsSound (gets_online {m} p e) h = of_Keeps IsSound _ _ e (online-Keeps p m h)
Step-IsSound (is_closed {m} net now p code status e) h =
    of_Keeps IsSound _ _ e (close-Keeps net now p code status m h)
Step-IsSound (is_reset {m} p status e) h = of_Keeps IsSound _ _ e (reset_shard-Keeps p status m h)
Step-IsSound (is_queued m p k) h = queue_reconnect-IsSound p m k h
Step-IsSound (is_connecting {m} p e) h = of_Keeps IsSound _ _ e (connect_shard-Keeps p m h)
Step-IsSound (ticks {m} net now made aborted e) h =
    of_Keeps IsSound _ _ e (ws_status-Keeps net now made aborted m h)
Step-IsSound (runs {m} net now e) h = of_Keeps IsSound _ _ e (run_posted-Keeps net now m h)
Step-IsSound (sends m net f) h = h
Step-IsSound (shuts_down m) h = shut_down-IsSound m h

-- Of a manager that starts empty, after any steps: the shards in the queue are different ones of the
-- manager, so is the shard that connects, and there is one while the attempt has a time.
pub Reach-IsSound :
    (cluster_id max_clusters : ℕ) {n : ShardMgr}
    → Reach (new_shard_mgr cluster_id max_clusters) n
    → IsSound n
Reach-IsSound c k here = record { distinct = tt; known = tt; held = tt; timed = refl }
Reach-IsSound c k (next r st) = Step-IsSound st (Reach-IsSound c k r)
