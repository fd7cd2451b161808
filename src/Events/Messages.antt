-- ===== src/Events/Messages.antt =====
-- The handlers of include/aegis/impl/core.cpp for messages that are new or change, which load the author. The
-- member of the message is read as an object (include/aegis/gateway/objects/member.hpp and user.hpp), and that
-- is written as JSON again to be loaded.
pub mod Lost
mod Examples
use aegis_cpp.Common.{
  ℕ, ◌==◌, Bool, true, false, List, [], ◌∷◌, Option, none, some, ◌>>=◌, if◌then◌else◌, map,
}
use aegis_cpp.Common.Int.{pos}
use aegis_cpp.Common.Map.{lookup}
use aegis_cpp.Common.Text.{Text, bytes}
use aegis_cpp.Json.{Value, string, number, boolean, object, field, end}
use aegis_cpp.Error.{Error}
use aegis_cpp.Cache
use aegis_cpp.Cache.{Caches, find_user, find_guild, find_channel, user_create, channel_create}
use aegis_cpp.Members.Load.{MemberObject, UserObject}
use aegis_cpp.Events.{Handled, both, load_into}
use aegis_cpp.Events.Channels.{quiet, thrown}
use Prim.Native.String.{String}

-- The author as an object `user`; what is missing is empty.
pub record Author : Type 0 where
  pub id : ℕ
  pub username : String
  pub discriminator : Text
  pub is_bot : Bool

-- The member as an object `member`, with the texts in `roles`; `joined_at` is what from_iso8601 makes of the text.
pub record AuthorMember : Type 0 where
  pub roles : List Text
  pub nick : String
  pub joined_at : ℕ
  pub mute : Bool
  pub deaf : Bool

-- The message: whether it has `webhook_id`, its author, and its member if it has one that is not null.
pub record Message : Type 0 where
  pub channel_id : ℕ
  pub webhook : Bool
  pub author : Author
  pub member : Option AuthorMember

-- A text is read as a role without any field, and written with the fields of a role that is new.
abbrev pub default_role : Value
default_role = object (
    field (bytes "color") (number (pos 0)) (
      field (bytes "hoist") (boolean false) (
        field (bytes "id") (string (bytes "0")) (
          field (bytes "mentionable") (boolean false) (
            field (bytes "name") (string []) (
              field (bytes "permissions") (string (bytes "0"))
                (field (bytes "position") (number (pos 0)) end)))))))

-- `j["roles"]` is there if something is pushed into it.
unfoldable pub written_roles : List Text → Option (List Value)
written_roles [] = none
written_roles (t ∷ ts) = some (default_role ∷ map (λ r. default_role) ts)

-- to_json of the user, which leaves the avatar out.
abbrev pub written_user : Author → UserObject
written_user a = record {
  id = a.id;
  username = some a.username;
  avatar = none;
  discriminator = some a.discriminator;
  bot = some (boolean a.is_bot);
}

-- The conversion of the object to JSON.
unfoldable pub written_member : AuthorMember → Author → MemberObject
unfolding written_roles
written_member m a = record {
  user = written_user a;
  deaf = some m.deaf;
  mute = some m.mute;
  joined_at = some m.joined_at;
  roles = written_roles m.roles;
  nick = some m.nick;
}

abbrev pub is_empty_name : String → Bool
is_empty_name String.[] = true
is_empty_name (String.◌∷◌ c s) = false

-- The author at pu is loaded again if its name is empty.
abbrev pub load_unnamed : Option AuthorMember → Author → ℕ → ℕ → Caches → Option Caches
load_unnamed none a pu pg c = some c
load_unnamed (some m) a pu pg c = do
  u ← Cache.object pu c.users
  if is_empty_name u.name then load_into (written_member m a) pu pg c else some c

-- The author that is found, or made and loaded if the message has its member.
unfoldable pub load_author : Option AuthorMember → Author → ℕ → Caches → Option Caches
unfolding written_member
load_author m a pg c = elim (find_user a.id c) [
  | some pu ↦ load_unnamed m a pu pg c
  | none ↦ elim m [
    | none ↦ some c
    | some n ↦
        let (pu, d) = user_create a.id c in
        do e ← load_into (written_member n a) pu pg d; load_unnamed (some n) a pu pg e
  ]
]

-- `&c->get_guild()` and what follows; get_guild throws if the channel has no guild.
abbrev pub in_guild_of : Option ℕ → Option AuthorMember → Author → Caches → Option Handled
in_guild_of none m a c = some (thrown Error.guild_not_found c)
in_guild_of (some pg) m a c = do d ← load_author m a pg c; some (both d)

-- A direct message goes through the pointer of its author without a test.
unfoldable pub ws_message_create : Message → Caches → Option Handled
unfolding load_author
ws_message_create j c = elim (find_channel j.channel_id c) [
  | none ↦ some (quiet c)
  | some pc ↦ do
    ch ← Cache.object pc c.channels
    if ch.guild_id == 0
        then (find_user j.author.id c >>= λ pu. some (both c))
        else if j.webhook
        then some (quiet c)
        else in_guild_of ch.guild j.member j.author c
]

-- The author is loaded if the message has an author and a member.
unfoldable pub ws_message_update : Message → Bool → Caches → Option Handled
unfolding load_author
ws_message_update j authored c =
    let (pc, d) = channel_create j.channel_id c in
    do ch ← Cache.object pc d.channels; by_member j.member ch.guild d
  where
    by_member : Option AuthorMember → Option ℕ → Caches → Option Handled
    by_member none g d = some (both d)
    by_member (some m) g d = if authored then in_guild_of g (some m) j.author d else some (both d)
