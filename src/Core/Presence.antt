-- ===== src/Core/Presence.antt =====
-- core::update_presence of include/aegis/impl/core.cpp, which asks each shard for its update.
use aegis_cpp.Common.{ℕ, suc, ◌≡◌, refl, ap, ◌++◌, List, [], ◌∷◌}
use aegis_cpp.Common.Int.{ℤ}
use aegis_cpp.Common.Text.{Text}
use aegis_cpp.Json.{Value}
use aegis_cpp.User.{UserStatus, online, idle, do_not_disturb, offline}
use aegis_cpp.Shard.{Shard, Sockets}
use aegis_cpp.Shard.Presence
use aegis_cpp.Shard.Presence.{to_string, presence_value}
use aegis_cpp.ShardMgr.{ShardMgr, Job, jobs, send_all_shards, send_all}
use aegis_cpp.Events.Loading.{status_of}
use Prim.Native.String.{String}

-- core::update_presence; `dump` prints the object.
unfoldable pub update_presence :
    (Value → String) → Sockets → Text → ℤ → UserStatus → ShardMgr → ShardMgr
unfolding send_all_shards presence_value
update_presence dump net text type status m =
    send_all_shards net (record { payload = dump (presence_value text type status); op = 1 }) m

module _ (dump : Value → String) (net : Sockets) (text : Text) (type : ℤ)
    (status : UserStatus) where
  -- The updates of the shards, of which the first is at place p.
  unfoldable pub updates : List Shard → ℕ → List (ℕ × Job)
  unfolding Presence.update_presence
  updates [] p = []
  updates (s ∷ ss) p =
      jobs p (Presence.update_presence dump net text type status s) ++ updates ss (suc p)

  updates-send_all :
      (ss : List Shard) (p : ℕ)
      → send_all net (record { payload = dump (presence_value text type status); op = 1 }) ss p
        ≡ updates ss p
  unfolding updates send_all Presence.update_presence
  updates-send_all [] p = refl
  updates-send_all (s ∷ ss) p =
      ap (λ js. jobs p (Presence.update_presence dump net text type status s) ++ js)
        (updates-send_all ss (suc p))

  -- The bot posts what the updates of the shards post, in their order, behind what was posted.
  pub update_presence-updates :
      (m : ShardMgr)
      → (update_presence dump net text type status m).posted ≡ m.posted ++ updates m.shards 0
  unfolding update_presence send_all_shards
  update_presence-updates m = ap (λ js. m.posted ++ js) (updates-send_all m.shards 0)

-- The status that is sent is the one that a guild reads.
pub status_of-to_string : (s : UserStatus) → status_of (to_string s) ≡ s
unfolding status_of to_string
status_of-to_string online = refl
status_of-to_string idle = refl
status_of-to_string do_not_disturb = refl
status_of-to_string offline = refl
