-- ===== src/Channel/Load/Examples.antt =====
-- A channel that loses one override and gets another, whose masks have more than 32 bits.
use aegis_cpp.Common.{◌+◌, ◌^◌, ◌≡◌, refl, true, [], ◌∷◌, none, some, arith}
use aegis_cpp.Common.Map.{Map, lookup, assign, erase}
use aegis_cpp.Common.Text.{bytes, stoll, skip_spaces, read_number, read_digits}
use aegis_cpp.Json.{string, snowflake_from_json}
use aegis_cpp.Channel.{PermissionOverwrite, OverwriteType, new_channel}
use aegis_cpp.Channel.Load.{
  OverwriteEntry, ChannelObject, load_overrides, load_with_guild, drop_deleted, store_entries,
}
use aegis_cpp.Channel.Load.Latest.{IsKeyed}
use aegis_cpp.Channel.Load.Sync.{
  IsOverrideOf, last_entry, lookup-load_overrides, load_overrides-IsKeyed,
}

abbrev entry : OverwriteEntry
entry = record { id = string (bytes "5"); allow = 2 ^ 34 + 2048; deny = 0; type = bytes "role" }

abbrev old : Map PermissionOverwrite
old = (9, record { id = 9; type = OverwriteType.user; allow = 8; deny = 0 }) ∷ []

abbrev new : Map PermissionOverwrite
new = (5, record { id = 5; type = OverwriteType.role; allow = 2048; deny = 0 }) ∷ []

runs : load_overrides (entry ∷ []) old ≡ record { overrides = new; ended = true }
unfolding load_overrides drop_deleted store_entries snowflake_from_json stoll skip_spaces
    read_number read_digits assign erase
runs = refl

ends : (load_overrides (entry ∷ []) old).ended ≡ true
ends = λ i. (runs i).ended

lookup-load_overrides_example :
    IsOverrideOf 5
      (last_entry 5 (entry ∷ []))
      (lookup 5 (load_overrides (entry ∷ []) old).overrides)
lookup-load_overrides_example =
    lookup-load_overrides 5 (entry ∷ []) old (omega arith) (refl, tt) ends

load_overrides-IsKeyed_example : IsKeyed (load_overrides (entry ∷ []) old).overrides
load_overrides-IsKeyed_example = load_overrides-IsKeyed (entry ∷ []) old (refl, tt)

abbrev object : ChannelObject
object = record {
  id = 3;
  name = some (bytes "general");
  position = 1;
  type = 0;
  nsfw = none;
  bitrate = none;
  user_limit = 0;
  topic = none;
  last_message_id = none;
  parent_id = none;
  permission_overwrites = some (entry ∷ []);
}

loaded : (load_with_guild 7 object (new_channel 3 0)).channel.overrides ≡ new
unfolding load_with_guild load_overrides drop_deleted store_entries snowflake_from_json stoll
    skip_spaces read_number read_digits assign erase
loaded = refl
