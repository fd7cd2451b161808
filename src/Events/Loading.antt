-- ===== src/Events/Loading.antt =====
-- guild::_load of include/aegis/impl/guild.cpp: a guild takes over what a gateway event says of it, with its
-- roles, members, channels, presences, emojis and voice states. The fields of the object are read as their
-- types; `none` is a field that is missing or null. The result `none` is a pointer that dangles.
use aegis_cpp.Common.{ℕ, Bool, true, false, List, [], ◌∷◌, Option, none, some, ◌>>=◌, if◌then◌else◌}
use aegis_cpp.Common.Map.{assign, erase, emplace}
use aegis_cpp.Common.Text.{Text, bytes, eq_text}
use aegis_cpp.Json.{Value}
use aegis_cpp.User.{User, GuildInfo, UserStatus, online, idle, do_not_disturb, offline}
use aegis_cpp.Channel.{Channel}
use aegis_cpp.Guild.{Guild, Role, Emoji, VoiceState}
use aegis_cpp.Error.{Error}
use aegis_cpp.Cache.{Caches, find_guild, object, user_create, channel_create}
use aegis_cpp.Channel.Load.{ChannelObject, Loaded, load_with_guild}
use aegis_cpp.Members.{get_guild_info, find_member, load_role}
use aegis_cpp.Members.Load.{
  MemberObject, UserObject, Roles, LoadedInfo, or_else, as_role, push_role, put_info, named,
  load_user,
}
use aegis_cpp.Events.{put_users}
use aegis_cpp.Events.Channels.{put_channel, list_channel}
use Prim.Native.String.{String}

-- An entry of `presences`
pub record Presence : Type 0 where
  pub user : ℕ
  pub status : Text

-- The object of the event. A voice state is that of a user, and `none` if its channel is null.
pub record GuildObject : Type 0 where
  pub id : ℕ
  pub name : Option String
  pub icon : Option String
  pub splash : Option String
  pub owner_id : Option ℕ
  pub region : Option String
  pub afk_channel_id : Option ℕ
  pub afk_timeout : Option ℕ
  pub embed_enabled : Option Bool
  pub verification_level : Option ℕ
  pub default_message_notifications : Option ℕ
  pub mfa_level : Option ℕ
  pub joined_at : Option String
  pub large : Option Bool
  pub unavailable : Option Bool
  pub member_count : Option ℕ
  pub roles : List Role
  pub members : List MemberObject
  pub channels : List ChannelObject
  pub presences : List Presence
  pub emojis : List Emoji
  pub voice_states : List (ℕ × Option VoiceState)

-- The fields of the guild itself; `unavailable` is the only one that a missing field resets.
abbrev pub load_fields : ℕ → GuildObject → Guild → Guild
load_fields shard_id j g = record g {
  shard_id = shard_id;
  is_init = false;
  name = or_else g.name j.name;
  icon = or_else g.icon j.icon;
  splash = or_else g.splash j.splash;
  owner_id = or_else g.owner_id j.owner_id;
  region = or_else g.region j.region;
  afk_channel_id = or_else g.afk_channel_id j.afk_channel_id;
  afk_timeout = or_else g.afk_timeout j.afk_timeout;
  embed_enabled = or_else g.embed_enabled j.embed_enabled;
  verification_level = or_else g.verification_level j.verification_level;
  default_message_notifications =
      or_else g.default_message_notifications j.default_message_notifications;
  mfa_level = or_else g.mfa_level j.mfa_level;
  joined_at = or_else g.joined_at j.joined_at;
  large = or_else g.large j.large;
  unavailable = or_else false j.unavailable;
  member_count = or_else g.member_count j.member_count;
}

abbrev pub load_roles : List Role → Guild → Guild
load_roles [] g = g
load_roles (r ∷ rs) g = load_roles rs (load_role r g)

-- guild::_load_emoji
abbrev pub load_emoji : Emoji → Guild → Guild
load_emoji e g = record g { emojis = assign e.id e g.emojis }

abbrev pub load_emojis : List Emoji → Guild → Guild
load_emojis [] g = g
load_emojis (e ∷ es) g = load_emojis es (load_emoji e g)

-- guild::_load_voicestate
unfoldable pub load_voicestate : ℕ → Option VoiceState → Guild → Guild
load_voicestate user_id none g = record g { voice_states = erase user_id g.voice_states }
load_voicestate user_id (some v) g = record g { voice_states = assign user_id v g.voice_states }

abbrev pub load_voicestates : List (ℕ × Option VoiceState) → Guild → Guild
load_voicestates [] g = g
load_voicestates ((user_id, v) ∷ vs) g = load_voicestates vs (load_voicestate user_id v g)

-- The guild and the caches on the way, and the error of the exception that is passed on, if one is.
pub record Loading : Type 0 where
  pub guild : Guild
  pub caches : Caches
  pub error : Option Error

abbrev pub done : Guild → Caches → Loading
done g c = record { guild = g; caches = c; error = none }

-- What follows if nothing was thrown.
unfoldable pub after : Loading → (Guild → Caches → Option Loading) → Option Loading
after r next = by_error r.error
  where
    by_error : Option Error → Option Loading
    by_error none = next r.guild r.caches
    by_error (some e) = some r

-- A loop that an exception leaves.
unfoldable pub each {ℓ} :
    {A : Type ℓ} → (A → Guild → Caches → Option Loading) → List A → Guild → Caches → Option Loading
unfolding after
each f [] g c = some (done g c)
each f (a ∷ rest) g c = f a g c >>= λ r. after r (each f rest)

-- The loop over the roles of a member; an entry that is no text throws.
unfoldable pub read_texts : List Value → Roles
read_texts [] = record { roles = []; ended = true }
read_texts (v ∷ vs) = push_role (as_role (some v)) (read_texts vs)

-- The roles and the nickname. A nickname that is missing stays as it was.
abbrev pub with_listed_roles : ℕ → MemberObject → Option (List Value) → GuildInfo → LoadedInfo
with_listed_roles guild_id j none i = record {
  info = record i { nickname = nick_of j.nick };
  ended = true;
}
  where
    nick_of : Option String → Option String
    nick_of none = i.nickname
    nick_of (some n) = some n
with_listed_roles guild_id j (some vs) i = ended (read_texts vs)
  where
    nick_of : Option String → Option String
    nick_of none = i.nickname
    nick_of (some n) = some n

    ended : Roles → LoadedInfo
    ended r = record {
      info = record i {
        roles = guild_id ∷ r.roles;
        nickname = if r.ended then nick_of j.nick else i.nickname;
      };
      ended = r.ended;
    }

unfoldable pub load_listed_info : ℕ → MemberObject → GuildInfo → LoadedInfo
unfolding read_texts
load_listed_info guild_id j i = with_listed_roles guild_id j j.roles (record i {
  deaf = or_else i.deaf j.deaf;
  mute = or_else i.mute j.mute;
  joined_at = or_else i.joined_at j.joined_at;
})

-- `_member->_load(this, member, _shard, false)`: an exception is caught and written to the log.
unfoldable pub load_listed_user : UserObject → User → User
unfolding load_user
load_listed_user j u = loaded (load_user j u)
  where
    loaded : Option User → User
    loaded none = named j u
    loaded (some v) = v

abbrev pub put_user : ℕ → User → Caches → Caches
put_user p u c = put_users (assign p u c.users.objects) c

-- The entry of a member: its user takes over the fields, becomes a member, and has its data for the guild.
unfoldable pub load_member : MemberObject → Guild → Caches → Option Loading
unfolding load_listed_user load_listed_info put_info
load_member j g c =
    let (p, d) = user_create j.user.id c in
    do
      u ← object p d.users
      let (i, v) = get_guild_info g.guild_id (load_listed_user j.user u)
      let r = load_listed_info g.guild_id j i
      some (record {
        guild = record g { members = emplace j.user.id p g.members };
        caches = put_user p (record v { guilds = put_info r.info v.guilds }) d;
        error = if r.ended then none else some Error.general;
      })

-- The entry of a channel. Its `_guild` is `this`, which is the guild that is cached: _load is called on no other.
unfoldable pub load_channel : ChannelObject → Guild → Caches → Option Loading
unfolding load_with_guild
load_channel j g c =
    let (p, d) = channel_create j.id c in
    do ch ← object p d.channels; some (listed p d (load_with_guild g.guild_id j ch))
  where
    adopted : ℕ → Caches → Channel → Loading
    adopted p d ch =
        done (list_channel j.id p g)
          (put_channel p (record ch { guild_id = g.guild_id; guild = find_guild g.guild_id c }) d)

    by_error : ℕ → Caches → Channel → Option Error → Loading
    by_error p d ch none = adopted p d ch
    by_error p d ch (some e) = record { guild = g; caches = put_channel p ch d; error = some e }

    listed : ℕ → Caches → Loaded → Loading
    listed p d r = by_error p d r.channel r.error

unfoldable pub status_of : Text → UserStatus
status_of t =
    if eq_text t (bytes "idle")
    then idle
    else if eq_text t (bytes "dnd")
    then do_not_disturb
    else if eq_text t (bytes "online")
    then online
    else offline

abbrev pub set_status : Text → User → User
set_status t u = record u { status = status_of t }

-- guild::_load_presence
unfoldable pub load_presence : Presence → Guild → Caches → Option Loading
unfolding status_of
load_presence j g c = elim (find_member j.user g) [
  | none ↦ some (done g c)
  | some p ↦ do u ← object p c.users; some (done g (put_user p (set_status j.status u) c))
]

-- The members, then the channels, then the presences; an exception ends it.
unfoldable pub load_lists : GuildObject → Guild → Caches → Option Loading
unfolding each load_member load_channel load_presence
load_lists j g c = do
  m ← each load_member j.members g c
  k ← after m (each load_channel j.channels)
  after k (each load_presence j.presences)

-- guild::_load by a shard
unfoldable pub load : ℕ → GuildObject → Guild → Caches → Option Loading
unfolding load_lists load_voicestate
load shard_id j g c = do
  r ← load_lists j (load_roles j.roles (load_fields shard_id j g)) c
  after r (λ h d. some (done (load_voicestates j.voice_states (load_emojis j.emojis h)) d))
