-- ===== src/Events/Examples.antt =====
-- A guild that a member joins, and that is taken away.
use aegis_cpp.Common.{◌≡◌, refl, true, false, [], ◌∷◌, none, some}
use aegis_cpp.Common.Map.{is_some, lookup, assign, emplace, erase}
use aegis_cpp.Common.Text.{bytes}
use aegis_cpp.Json.{string}
use aegis_cpp.User.{User, GuildInfo, new_user, find_info}
use aegis_cpp.Guild.{Guild, new_guild}
use aegis_cpp.Cache.{Caches, empty, object, user_create, channel_create, find_guild}
use aegis_cpp.Members.{find_member}
use aegis_cpp.Members.Load.{MemberObject, load_user, read_roles}
use aegis_cpp.Channel.{Channel, new_channel}
use aegis_cpp.Channel.Load.{ChannelObject, load_with_guild}
use aegis_cpp.Events.Channels.{ChannelEvent, ws_channel_create, ws_channel_update}
use aegis_cpp.Events.Channels.Kept.{ws_channel_create-pointer}
use aegis_cpp.Events.{Handled, Callback, raw, ws_guild_member_add, ws_guild_delete}
use aegis_cpp.Events.Joining.{ws_guild_member_add-Joined}

abbrev caches : Caches
caches = record {
  users = empty;
  channels = empty;
  guilds = record { live = (7, 0) ∷ []; stale = []; objects = (0, new_guild 0 7) ∷ []; fresh = 1 };
}

abbrev member : MemberObject
member = record {
  user = record { id = 5; username = some "ada"; avatar = none; discriminator = none; bot = none };
  deaf = none;
  mute = none;
  joined_at = none;
  roles = some (string (bytes "11") ∷ []);
  nick = none;
}

abbrev ada : User
ada = record (new_user 5) { name = "ada" }

reads : load_user member.user (new_user 5) ≡ some ada
unfolding load_user new_user
reads = refl

found : find_guild 7 caches ≡ some 0
unfolding lookup
found = refl

is_there : object 0 caches.guilds ≡ some (new_guild 0 7)
unfolding lookup
is_there = refl

is_made : object (user_create 5 caches).0 (user_create 5 caches).1.users ≡ some (new_user 5)
unfolding lookup assign emplace erase
is_made = refl

ws_guild_member_add-Joined_example :
    (h : Handled) × (g' : Guild) × (u' : User) × (i : GuildInfo) × (ws_guild_member_add 7 member
        caches
      ≡ some h)
    × (object 0 h.caches.guilds ≡ some g')
    × (object (user_create 5 caches).0 h.caches.users ≡ some u')
    × (is_some (find_member ada.member_id g') ≡ true)
    × (find_info 7 u'.guilds ≡ some i)
    × (i.roles ≡ 7 ∷ (read_roles (string (bytes "11") ∷ [])).roles)
ws_guild_member_add-Joined_example =
    ws_guild_member_add-Joined 7 0 member caches (new_guild 0 7) (new_user 5) ada
      (string (bytes "11") ∷ []) found is_there is_made reads refl

abbrev without : Handled
without = record {
  caches = record caches {
    guilds = record {
      live = [];
      stale = (7, 0) ∷ [];
      objects = (0, record (new_guild 0 7) { unavailable = false }) ∷ [];
      fresh = 1;
    };
  };
  callbacks = raw ∷ Callback.event ∷ [];
  error = none;
}

taken_away : ws_guild_delete 7 none caches ≡ some without
unfolding ws_guild_delete lookup assign emplace erase
taken_away = refl

abbrev general : ChannelObject
general = record {
  id = 3;
  name = some (bytes "general");
  position = 0;
  type = 0;
  nsfw = none;
  bitrate = none;
  user_limit = 0;
  topic = none;
  last_message_id = none;
  parent_id = none;
  permission_overwrites = none;
}

abbrev of_general : ChannelEvent
of_general = record { guild_id = some 7; channel = general; recipient = [] }

channel_made :
    object (channel_create 3 caches).0 (channel_create 3 caches).1.channels ≡ some (new_channel 3 0)
unfolding lookup assign emplace erase
channel_made = refl

no_exception : (load_with_guild 7 general (new_channel 3 0)).error ≡ none
unfolding load_with_guild
no_exception = refl

-- The channel that the event of a change has made points to no guild.
ws_channel_create-pointer_example :
    (h h' : Handled) × (k k' : Channel) × (g' : Guild) × (ws_channel_create of_general caches
      ≡ some h)
    × (ws_channel_update of_general caches ≡ some h')
    × (object 0 h.caches.guilds ≡ some g')
    × (object 0 h'.caches.guilds ≡ some g')
    × (is_some (lookup 3 g'.channels) ≡ true)
    × (object (channel_create 3 caches).0 h.caches.channels ≡ some k)
    × (object (channel_create 3 caches).0 h'.caches.channels ≡ some k')
    × (k.guild ≡ some 0)
    × (k'.guild ≡ none)
ws_channel_create-pointer_example =
    ws_channel_create-pointer 7 0 general [] caches (new_guild 0 7) (new_channel 3 0) found is_there
      channel_made no_exception
