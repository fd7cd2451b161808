-- ===== src/Events/Ready/Examples.antt =====
-- A bot that is ready for the first time, in a guild with an outage.
use aegis_cpp.Common.{ℕ, ◌≡◌, refl, true, false, [], ◌∷◌, none, some}
use aegis_cpp.Common.Int.{pos}
use aegis_cpp.Common.Text.{bytes, stoi}
use aegis_cpp.Events.Dispatch.{no_caches}
use aegis_cpp.Events.Loading.{GuildObject}
use aegis_cpp.Events.Ready.{Bot, ReadyObject, Ready, process_ready}
use aegis_cpp.Events.Ready.Own.{IsSelf, AreCached, process_ready-IsSelf}
use aegis_cpp.Events.Sound.{IsSound}
use aegis_cpp.Events.Sound.Reached.{start, Reached-IsSound}

abbrev absent : GuildObject
absent = record {
  id = 7;
  name = none;
  icon = none;
  splash = none;
  owner_id = none;
  region = none;
  afk_channel_id = none;
  afk_timeout = none;
  embed_enabled = none;
  verification_level = none;
  default_message_notifications = none;
  mfa_level = none;
  joined_at = none;
  large = none;
  unavailable = some true;
  member_count = none;
  roles = [];
  members = [];
  channels = [];
  presences = [];
  emojis = [];
  voice_states = [];
}

abbrev new_bot : Bot
new_bot = record {
  self = none;
  discriminator = pos 0;
  user_id = 0;
  username = "";
  mfa_enabled = false;
  mention = [];
}

abbrev ready : ReadyObject
ready = record {
  discriminator = bytes "0042";
  user_id = 2;
  username = "bot";
  mfa_enabled = false;
  guilds = absent ∷ [];
}

process_ready-IsSelf_example :
    (r : Ready) × (p : ℕ) × (process_ready 0 ready new_bot no_caches ≡ some r)
    × (r.bot.self ≡ some p)
    × IsSelf ready p r.caches
    × IsSound r.caches
    × AreCached (absent ∷ []) r.caches
unfolding stoi
process_ready-IsSelf_example =
    process_ready-IsSelf 0 ready new_bot no_caches (pos 42) (Reached-IsSound start).0 refl refl
      (refl, tt)
