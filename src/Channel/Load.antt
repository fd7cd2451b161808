-- ===== src/Channel/Load.antt =====
-- channel::_load_with_guild_nolock of include/aegis/impl/channel.cpp: a channel takes over what a gateway
-- event says of it. The fields of the object are read as their types; `none` is a field that is missing or
-- null, but for `nsfw`, which is read if it is there. What may throw when it is converted stays a value of JSON.
pub mod Latest
pub mod Sync
pub mod Pointer
mod Examples
use aegis_cpp.Common.{
  ℕ, ◌%◌, ◌^◌, ◌||◌, Bool, true, false, List, [], ◌∷◌, Option, none, some, if◌then◌else◌,
}
use aegis_cpp.Common.Int.{ℤ, ◌==ℤ◌}
use aegis_cpp.Common.Map.{Map, assign}
use aegis_cpp.Common.Text.{Text, bytes, eq_text}
use aegis_cpp.Json.{Value, boolean, number, signed, snowflake_from_json}
use aegis_cpp.Channel.{Channel, PermissionOverwrite, OverwriteType}
use aegis_cpp.Error.{Error}

-- An entry of `permission_overwrites`; `allow` and `deny` are the bits of an integer of 64 bits.
pub record OverwriteEntry : Type 0 where
  pub id : Value
  pub allow : ℕ
  pub deny : ℕ
  pub type : Text

-- The object of the event.
pub record ChannelObject : Type 0 where
  pub id : ℕ
  pub name : Option Text
  pub position : ℕ
  pub type : ℕ
  pub nsfw : Option Value
  pub bitrate : Option ℕ
  pub user_limit : ℕ
  pub topic : Option Text
  pub last_message_id : Option Value
  pub parent_id : Option Value
  pub permission_overwrites : Option (List OverwriteEntry)

-- `permission["id"] == id`, which compares with the number that to_json makes of the identifier.
abbrev pub is_id : Value → ℕ → Bool
is_id (number z) id = z ==ℤ signed id
is_id _ id = false

abbrev pub is_listed : List OverwriteEntry → ℕ → Bool
is_listed [] id = false
is_listed (e ∷ es) id = is_id e.id id || is_listed es id

-- The overrides without those whose identifier no entry has.
unfoldable pub drop_deleted :
    List OverwriteEntry → Map PermissionOverwrite → Map PermissionOverwrite
drop_deleted es [] = []
drop_deleted es ((k, o) ∷ os) =
    let rest = drop_deleted es os in if is_listed es o.id then (k, o) ∷ rest else rest

-- The entry as it is stored, with the casts to `uint32_t`.
abbrev pub stored : ℕ → OverwriteEntry → PermissionOverwrite
stored p_id e = record {
  id = p_id;
  type = if eq_text e.type (bytes "role") then OverwriteType.role else OverwriteType.user;
  allow = e.allow % 2 ^ 32;
  deny = e.deny % 2 ^ 32;
}

-- The overrides after the loop, and whether it ended without an exception.
pub record Overrides : Type 0 where
  pub overrides : Map PermissionOverwrite
  pub ended : Bool

unfoldable pub store_entries : List OverwriteEntry → Map PermissionOverwrite → Overrides
unfolding snowflake_from_json
store_entries [] os = record { overrides = os; ended = true }
store_entries (e ∷ es) os = elim (snowflake_from_json e.id 0) [
  | none ↦ record { overrides = os; ended = false }
  | some p_id ↦ store_entries es (assign p_id (stored p_id e) os)
]

unfoldable pub load_overrides : List OverwriteEntry → Map PermissionOverwrite → Overrides
unfolding drop_deleted store_entries
load_overrides es os = store_entries es (drop_deleted es os)

-- The channel that is left, and the error of the exception that is thrown, if one is.
pub record Loaded : Type 0 where
  pub channel : Channel
  pub error : Option Error

abbrev pub failed : Channel → Loaded
failed c = record { channel = c; error = some Error.channel_error }

abbrev pub with_some {ℓ} : {A : Type ℓ} → (A → Channel → Channel) → Option A → Channel → Channel
with_some f none c = c
with_some f (some a) c = f a c

-- A conversion of an identifier over `old`, and what follows if it does not throw.
abbrev pub with_id :
    ℕ → (ℕ → Channel → Channel) → Option Value → Channel → (Channel → Loaded) → Loaded
with_id old f none c next = next c
with_id old f (some v) c next = converted (snowflake_from_json v old)
  where
    converted : Option ℕ → Loaded
    converted none = failed c
    converted (some id) = next (f id c)

abbrev pub with_overrides : Option (List OverwriteEntry) → Channel → Loaded
with_overrides none c = record { channel = c; error = none }
with_overrides (some es) c =
    let r = load_overrides es c.overrides in
    record {
      channel = record c { overrides = r.overrides };
      error = if r.ended then none else some Error.channel_error;
    }

abbrev pub with_parent : ChannelObject → Channel → Loaded
with_parent j c =
    with_id c.parent_id (λ id d. record d { parent_id = id }) j.parent_id c
      (with_overrides j.permission_overwrites)

-- A voice channel has a bitrate; another one has a topic and a last message.
abbrev pub with_kind : ChannelObject → Option ℕ → Channel → Loaded
with_kind j (some bitrate) c =
    with_parent j (record c { bitrate = bitrate; user_limit = j.user_limit })
with_kind j none c =
    with_id c.last_message_id (λ id d. record d { last_message_id = id }) j.last_message_id
      (with_some (λ t d. record d { topic = t }) j.topic c) (with_parent j)

-- `_nsfw = obj["nsfw"]`, where null throws as well.
abbrev pub with_nsfw : Option Value → Channel → (Channel → Loaded) → Loaded
with_nsfw none c next = next c
with_nsfw (some (boolean b)) c next = next (record c { nsfw = b })
with_nsfw (some _) c next = failed c

unfoldable pub load_with_guild : ℕ → ChannelObject → Channel → Loaded
load_with_guild guild_id j c =
    with_nsfw j.nsfw
      (with_some (λ n d. record d { name = n }) j.name
        (record c { channel_id = j.id; guild_id = guild_id; position = j.position; type = j.type }))
      (with_kind j j.bitrate)
