-- ===== src/Shard/Presence.antt =====
-- shard::update_presence of include/aegis/shards/impl/shard.cpp, and the texts of presence::to_string of
-- include/aegis/gateway/objects/presence.hpp.
use aegis_cpp.Common.{List}
use aegis_cpp.Common.Int.{ℤ, pos}
use aegis_cpp.Common.Text.{Text, bytes}
use aegis_cpp.Json.{Value, null, boolean, number, string, object, end, field}
use aegis_cpp.Common.{false}
use aegis_cpp.User.{UserStatus, online, idle, do_not_disturb, offline}
use aegis_cpp.Shard.{Shard, Sockets, Task, send}
use Prim.Native.String.{String}

-- presence::to_string
unfoldable pub to_string : UserStatus → Text
to_string idle = bytes "idle"
to_string do_not_disturb = bytes "dnd"
to_string offline = bytes "offline"
to_string online = bytes "online"

-- The object that is sent; `type` is the number of an activity_type.
unfoldable pub presence_value : Text → ℤ → UserStatus → Value
unfolding to_string
presence_value text type status = object (
    field (bytes "op") (number (pos 3)) (
      field (bytes "d")
        (object (
          field (bytes "game")
            (object (field (bytes "name") (string text) (field (bytes "type") (number type) end)))
            (field (bytes "status") (string (to_string status))
              (field (bytes "since") null (field (bytes "afk") (boolean false) end)))))
        end))

-- shard::update_presence; `dump` prints the object.
unfoldable pub update_presence :
    (Value → String) → Sockets → Text → ℤ → UserStatus → Shard → List Task
unfolding presence_value
update_presence dump net text type status s =
    send net (record { payload = dump (presence_value text type status); op = 1 }) s
