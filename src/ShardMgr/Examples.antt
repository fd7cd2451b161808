-- ===== src/ShardMgr/Examples.antt =====
-- A cluster of two, of a bot with five shards, and the theorems applied to it.
use aegis_cpp.Common.{◌≡◌, refl, true, false, List, [], ◌∷◌, none, some, ◌+◌, ◌*◌, arith}
use aegis_cpp.Common.Map.{is_some, AllOption}
use aegis_cpp.Shard.{Shard, Sockets, Frame, new_shard, ShardStatus}
use aegis_cpp.ShardMgr.{ShardMgr, new_shard_mgr, start, ws_status, add_shards}
use aegis_cpp.ShardMgr.Sound.{IsSound}
use aegis_cpp.ShardMgr.Attempts.{
  ws_status_returns, ws_status_timeout, ws_status-Starts, queue_of, Starts,
}
use aegis_cpp.ShardMgr.Connecting.{Reach, here, next, configures, starts, Reach-IsSound}
use aegis_cpp.ShardMgr.Clusters.{get_shard-start, get_started}
use aegis_cpp.Shard.Writes.{write_times-push_all, write_times, push_all, sent}

abbrev closed_sockets : Sockets
closed_sockets = record { raw_open = λ c. false; session_open = λ c. false; refuses = λ c. false }

abbrev configured : ShardMgr
configured = record (new_shard_mgr 1 2) { gateway_url = "wss://gateway"; shard_max_count = 5 }

-- The shards 1 and 3, at the places 0 and 1.
abbrev started : ShardMgr
started = record configured {
  shards = new_shard 1 ∷ new_shard 3 ∷ [];
  shards_to_connect = 0 ∷ 1 ∷ [];
  ws_timer = true;
}

start_test : start configured ≡ some started
unfolding start add_shards
start_test = refl

started-Reach : Reach (new_shard_mgr 1 2) started
started-Reach = next (next here (configures _ "wss://gateway" 5)) (starts start_test)

Reach-IsSound_example : IsSound started
Reach-IsSound_example = Reach-IsSound 1 2 started-Reach

ws_status_returns_example :
    is_some (ws_status closed_sockets 7_000_000_000 (some 4) false started) ≡ true
ws_status_returns_example =
    ws_status_returns closed_sockets 7_000_000_000 4 false started (Reach-IsSound 1 2 started-Reach)

ws_status-Starts_example :
    AllOption
      (Starts 7_000_000_000 started)
      (ws_status closed_sockets 7_000_000_000 (some 4) false started)
ws_status-Starts_example = ws_status-Starts closed_sockets 7_000_000_000 (some 4) false started

-- The shard at place 0 has left the queue when its connection was made, and gets no READY.
abbrev waiting_for_ready : ShardMgr
waiting_for_ready = record started {
  connecting_shard = some 0;
  connect_time = 7_000_000_000;
  shards_to_connect = 1 ∷ [];
}

ws_status_timeout_example :
    queue_of (ws_status closed_sockets 30_000_000_000 none false waiting_for_ready) ≡ some (0 ∷ [])
ws_status_timeout_example =
    ws_status_timeout closed_sockets 30_000_000_000 none waiting_for_ready 0 1 [] refl refl
      (omega arith) refl refl refl refl

get_shard-start_example : AllOption (λ s. s.id ≡ 1 * 2 + 1) (get_started 1 (start configured))
get_shard-start_example = get_shard-start configured 1 refl (omega arith)

abbrev online_shard : Shard
online_shard = record (new_shard 3) {
  connection = some 4;
  strand = some 4;
  connection_state = ShardStatus.online;
}

abbrev frames : List Frame
frames = record { payload = "a"; op = 1 } ∷ record { payload = "b"; op = 1 } ∷ []

write_times-push_all_example :
    ((write_times 9 2 (push_all frames online_shard)).1 ≡ sent 4 frames)
    × ((write_times 9 2 (push_all frames online_shard)).0.write_queue ≡ [])
write_times-push_all_example = write_times-push_all 9 4 4 frames online_shard refl refl refl refl
