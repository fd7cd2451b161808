-- ===== src/Gateway/Examples.antt =====
-- A heartbeat and its acknowledgement.
use aegis_cpp.Common.{◌≡◌, refl, true, false, none, some, [], ◌∷◌}
use aegis_cpp.Shard.{Sockets, close_socket, new_shard}
use aegis_cpp.ShardMgr.{check_shard}
use aegis_cpp.Gateway.{Payload, Config, Message, Reaction, keep_alive, on_message}
use aegis_cpp.Gateway.Heartbeat.{online_on, check_shard-keep_alive}
use Prim.Native.String.{String}

abbrev text : Payload → String
text _ = "payload"

abbrev config : Config
config = record { token = "token"; self_presence = ""; intents = 0xffffffff; shard_max_count = 1 }

abbrev open_sockets : Sockets
open_sockets = record { raw_open = λ c. true; session_open = λ c. true; refuses = λ c. false }

abbrev ack : Message
ack = record { s = none; t = none; op = 11; invalid = false; heartbeat_interval = none }

check_shard-keep_alive_example :
    ((check_shard open_sockets 30_000_000_000
        (keep_alive text config open_sockets 5 false (online_on 4 4 (new_shard 0))).0).2
      ≡ close_socket 4 1001 ∷ [])
    × ((r : Reaction) × (on_message text config
            (λ c. true)
            open_sockets
            9
            (some ack)
            (keep_alive text config open_sockets 5 false (online_on 4 4 (new_shard 0))).0
          ≡ some r)
        × ((check_shard open_sockets 30_000_000_000 r.shard).2 ≡ []))
check_shard-keep_alive_example =
    check_shard-keep_alive text config (λ c. true) open_sockets 5 9 30_000_000_000 4 4 ack
      (new_shard 0) refl refl refl
