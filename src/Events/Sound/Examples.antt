-- ===== src/Events/Sound/Examples.antt =====
-- A guild with a member and a channel that an event announces to empty caches, and a message of the member.
use aegis_cpp.Common.{
  ℕ, ◌≡◌, refl, ap, ◌∙◌, some_eq, true, false, List, [], ◌∷◌, Option, none, some,
}
use aegis_cpp.Common.Map.{lookup, assign, emplace, erase}
use aegis_cpp.Common.Text.{bytes, stoul}
use aegis_cpp.Json.{Value, string}
use aegis_cpp.User.{new_user, find_info}
use aegis_cpp.Guild.{Guild}
use aegis_cpp.Cache.{object, find_guild}
use aegis_cpp.Channel.Load.{ChannelObject, load_with_guild}
use aegis_cpp.Members.Load.{MemberObject, load_user, put_info}
use aegis_cpp.Events.{Handled}
use aegis_cpp.Events.Channels.{quiet}
use aegis_cpp.Events.Loading.{
  GuildObject, after, each, load, load_lists, load_member, load_channel, load_presence,
  load_listed_user, load_listed_info, load_voicestate, read_texts, status_of,
}
use aegis_cpp.Events.Guilds.{ws_guild_create}
use aegis_cpp.Events.Dispatch.{Event, handle, no_caches}
use aegis_cpp.Events.Messages.{ws_message_create, load_author}
use aegis_cpp.Events.Listed.Whole.{Lists, ws_guild_create-Lists}
use aegis_cpp.Events.Sound.{IsSound}
use aegis_cpp.Events.Sound.Guilds.{Leads}
use aegis_cpp.Events.Sound.Reached.{start, next, Expects, Reached-IsSound}

abbrev member : MemberObject
member = record {
  user = record { id = 5; username = some "ada"; avatar = none; discriminator = none; bot = none };
  deaf = none;
  mute = none;
  joined_at = none;
  roles = some (string (bytes "11") ∷ []);
  nick = none;
}

abbrev general : ChannelObject
general = record {
  id = 3;
  name = some (bytes "general");
  position = 1;
  type = 0;
  nsfw = none;
  bitrate = none;
  user_limit = 0;
  topic = none;
  last_message_id = none;
  parent_id = none;
  permission_overwrites = none;
}

abbrev announced : GuildObject
announced = record {
  id = 7;
  name = some "guild";
  icon = none;
  splash = none;
  owner_id = some 5;
  region = none;
  afk_channel_id = none;
  afk_timeout = none;
  embed_enabled = none;
  verification_level = none;
  default_message_notifications = none;
  mfa_level = none;
  joined_at = none;
  large = none;
  unavailable = none;
  member_count = some 1;
  roles = [];
  members = member ∷ [];
  channels = general ∷ [];
  presences = record { user = 5; status = bytes "idle" } ∷ [];
  emojis = [];
  voice_states = [];
}

abbrev get : Option Handled → Handled
get none = quiet no_caches
get (some h) = h

abbrev create : Event
create = Event.guild_create false 0 announced

left : Handled
unfolding handle
left = get (handle create no_caches)

is_handled : handle create no_caches ≡ some left
unfolding left handle ws_guild_create load load_lists each after load_member load_channel
    load_presence load_listed_user load_listed_info load_voicestate read_texts status_of load_user
    put_info load_with_guild lookup assign emplace erase new_user find_info stoul
is_handled = refl

-- A message of the member in the channel of the guild.
abbrev message : Event
message = Event.message_create (record {
  channel_id = 3;
  webhook = false;
  author = record { id = 5; username = "ada"; discriminator = bytes "0001"; is_bot = false };
  member = none;
})

told : Handled
unfolding handle left
told = get (handle message left.caches)

is_told : handle message left.caches ≡ some told
unfolding told left handle ws_message_create load_author ws_guild_create load load_lists each after
    load_member load_channel load_presence load_listed_user load_listed_info load_voicestate
    read_texts status_of load_user put_info load_with_guild lookup assign emplace erase new_user
    find_info stoul
is_told = refl

is_expected : Expects message left.caches
unfolding left handle ws_guild_create load load_lists each after load_member load_channel
    load_presence load_listed_user load_listed_info load_voicestate read_texts status_of load_user
    put_info load_with_guild lookup assign emplace erase new_user find_info stoul
is_expected = (
  λ pc. λ ch. λ e. λ at. λ d. refl,
  λ ch. λ at. λ pg. λ e. (7, ap (λ k. k.guild) (some_eq at) ∙ e),
)

Reached-IsSound_example :
    IsSound told.caches × ((e : Event) → Expects e told.caches → Leads (handle e told.caches))
Reached-IsSound_example =
    Reached-IsSound (next message told (next create left start tt is_handled) is_expected is_told)

abbrev get_pair : Option (Handled × List Value) → Handled × List Value
get_pair none = (quiet no_caches, [])
get_pair (some h) = h

made : Handled × List Value
unfolding ws_guild_create
made = get_pair (ws_guild_create true 0 announced no_caches)

is_made : (ws_guild_create true 0 announced no_caches ≡ some made) × (made.0.error ≡ none)
unfolding made ws_guild_create load load_lists each after load_member load_channel load_presence
    load_listed_user load_listed_info load_voicestate read_texts status_of load_user put_info
    load_with_guild lookup assign emplace erase new_user find_info stoul
is_made = (refl, refl)

ws_guild_create-Lists_example :
    (pg : ℕ) × (g : Guild) × (find_guild 7 made.0.caches ≡ some pg)
    × (object pg made.0.caches.guilds ≡ some g)
    × Lists announced g
ws_guild_create-Lists_example =
    ws_guild_create-Lists true 0 announced no_caches made (Reached-IsSound start).0 is_made.0
      is_made.1
