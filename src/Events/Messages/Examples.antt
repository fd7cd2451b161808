-- ===== src/Events/Messages/Examples.antt =====
-- The first message of a member with a role.
use aegis_cpp.Common.{◌≡◌, refl, true, false, [], ◌∷◌, some}
use aegis_cpp.Common.Int.{pos}
use aegis_cpp.Common.Map.{lookup, assign, emplace, erase}
use aegis_cpp.Common.Text.{bytes, stoi}
use aegis_cpp.Permission.{permission}
use aegis_cpp.User.{User, new_user}
use aegis_cpp.Channel.{new_channel}
use aegis_cpp.Guild.{Guild, Role, new_guild}
use aegis_cpp.Guild.Access.{get_role, find_role, base_permissions}
use aegis_cpp.Cache
use aegis_cpp.Cache.{Caches, empty, find_guild, find_user, user_create}
use aegis_cpp.Events.{Handled}
use aegis_cpp.Events.Messages.{Author, AuthorMember, Message, ws_message_create}
use aegis_cpp.Events.Messages.Lost.{ws_message_create-Lost}

abbrev everyone : Role
everyone = record {
  color = 0;
  id = 7;
  role_id = 7;
  name = bytes "everyone";
  permission = permission 0x400;
  position = 0;
  hoist = false;
  managed = false;
  mentionable = false;
}

abbrev guild : Guild
guild = record (new_guild 0 7) {
  roles = (11, record everyone { id = 11; role_id = 11 }) ∷ (7, everyone) ∷ [];
  owner_id = 1;
}

abbrev caches : Caches
caches = record {
  users = empty;
  channels = record {
    live = (3, 0) ∷ [];
    stale = [];
    objects = (0, record (new_channel 3 7) { guild = some 0 }) ∷ [];
    fresh = 1;
  };
  guilds = record { live = (7, 0) ∷ []; stale = []; objects = (0, guild) ∷ []; fresh = 1 };
}

abbrev ada : Author
ada = record { id = 5; username = "ada"; discriminator = bytes "0001"; is_bot = false }

abbrev member : AuthorMember
member = record { roles = bytes "11" ∷ []; nick = ""; joined_at = 0; mute = false; deaf = false }

abbrev message : Message
message = record { channel_id = 3; webhook = false; author = ada; member = some member }

ws_message_create-Lost_example :
    (h : Handled) × (ws_message_create message caches ≡ some h)
    × ((u : User) × (g : Guild) × (Cache.object 0 h.caches.users ≡ some u)
        × (Cache.object 0 h.caches.guilds ≡ some g)
        × (u.name ≡ "ada")
        × (u.is_bot ≡ true)
        × (base_permissions g u ≡ 0))
unfolding lookup assign emplace erase new_user stoi get_role find_role
ws_message_create-Lost_example =
    ws_message_create-Lost message member (bytes "11") [] caches
      (record (new_channel 3 7) { guild = some 0 }) 0 0 guild (new_user 5) (pos 1) everyone refl
      refl refl refl refl refl refl refl refl refl refl refl refl refl refl
