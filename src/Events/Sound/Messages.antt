-- ===== src/Events/Sound/Messages.antt =====
-- The handlers of the events of messages and of the one that the bot is ready, on sound caches.
use aegis_cpp.Common.{
  ℕ, ◌==◌, ◌≡◌, refl, sym, subst, ◌∙◌, if◌then◌else◌, Bool, true, false, Option, none, some,
  Bool-cases, Option-cases, inl, inr,
}
use aegis_cpp.Common.Map.{is_some, lookup}
use aegis_cpp.Common.Text.{stoi}
use aegis_cpp.User.{User}
use aegis_cpp.Channel.{Channel}
use aegis_cpp.Error.{Error}
use aegis_cpp.Cache.{
  Caches, object, find_guild, find_channel, find_user, user_create, channel_create, create,
}
use aegis_cpp.Cache.Sound.{IsAt}
use aegis_cpp.Events.{both, load_into}
use aegis_cpp.Events.Channels.{quiet, thrown}
use aegis_cpp.Events.Messages.{
  Author, AuthorMember, Message, is_empty_name, written_member, load_unnamed, load_author,
  in_guild_of, ws_message_create, ws_message_update,
}
use aegis_cpp.Events.Ready.{Bot, ReadyObject, Ready, process_ready}
use aegis_cpp.Events.Ready.Own.{AreUnavailable, ready_guilds-Cached, process_ready-IsSelf}
use aegis_cpp.Events.Dispatch.{ready_handled, ws_ready}
use aegis_cpp.Events.Sound.{IsSound, user_create-IsSound, channel_create-IsSound}
use aegis_cpp.Events.Sound.Members.{load_into-IsSound}
use aegis_cpp.Events.Sound.Guilds.{Leads}
use aegis_cpp.Events.Sound.Handlers.{unknown}

-- If the channel points to a guild, that one is cached.
abbrev pub PointsToCached : Channel → Caches → Type 0
PointsToCached ch c = (pg : ℕ) → ch.guild ≡ some pg → (id : ℕ) × (find_guild id c ≡ some pg)

-- The channel of the message, which is made if it is not known, points to a guild that is cached.
abbrev pub IsPlaced : Message → Caches → Type 0
IsPlaced j c =
    (ch : Channel)
    → object (channel_create j.channel_id c).0 (channel_create j.channel_id c).1.channels ≡ some ch
    → PointsToCached ch c

-- The author of a direct message is known.
abbrev pub IsAuthorKnown : Message → Caches → Type 0
IsAuthorKnown j c =
    (pc : ℕ) (ch : Channel)
    → find_channel j.channel_id c ≡ some pc
    → object pc c.channels ≡ some ch
    → (ch.guild_id == 0) ≡ true
    → is_some (find_user j.author.id c) ≡ true

-- What is loaded of an author is sound, and the guild is where it was.
abbrev AuthorLeads : Option Caches → Type 0
AuthorLeads o = (d : Caches) × (o ≡ some d) × IsSound d

load_unnamed-object :
    (m : AuthorMember) (a : Author) (pu pg : ℕ) (c : Caches) (u : User)
    → object pu c.users ≡ some u
    → load_unnamed (some m) a pu pg c
      ≡ (if is_empty_name u.name then load_into (written_member m a) pu pg c else some c)
unfolding lookup
load_unnamed-object m a pu pg c u at = rw at refl

load_unnamed-Leads :
    (m : Option AuthorMember) (a : Author) (pu pg id : ℕ) (c : Caches)
    → IsSound c
    → IsAt User.member_id a.id pu c.users
    → find_guild id c ≡ some pg
    → AuthorLeads (load_unnamed m a pu pg c)
unfolding written_member lookup
load_unnamed-Leads none a pu pg id c s at f = (c, refl, s)
load_unnamed-Leads (some m) a pu pg id c s (u, at, same) f =
    elim (Bool-cases (is_empty_name u.name)) [
      | inl e ↦
          let (d, q, t, kept, there) =
            load_into-IsSound (written_member m a) pu pg id c s (u, at, same) f in
          (d, load_unnamed-object m a pu pg c u at ∙ rw e q, t)
      | inr e ↦ (c, load_unnamed-object m a pu pg c u at ∙ rw e refl, s)
    ]

load_author-Leads :
    (m : Option AuthorMember) (a : Author) (pg id : ℕ) (c : Caches)
    → IsSound c
    → find_guild id c ≡ some pg
    → AuthorLeads (load_author m a pg c)
unfolding load_author written_member lookup
load_author-Leads m a pg id c s f = elim (Option-cases (find_user a.id c)) [
  | inl e ↦ made m e
  | inr (pu, e) ↦
      let (d, q, t) = load_unnamed-Leads m a pu pg id c s (s.0.1 a.id pu e) f in
      (d, rw (e, load_author) q, t)
]
  where
    made : (n : Option AuthorMember) → find_user a.id c ≡ none → AuthorLeads (load_author n a pg c)
    made none e = (c, rw (e, load_author) refl, s)
    made (some n) e =
        let (sd, there) = user_create-IsSound a.id c s in
        let (k, q, t, kept, at) =
          load_into-IsSound (written_member n a) (user_create a.id c).0 pg id (user_create a.id c).1
            sd there f in
        let (d, r, v) = load_unnamed-Leads (some n) a (user_create a.id c).0 pg id k t at kept in
        (d, rw (e, load_author, q) r, v)

in_guild_of-Leads :
    (o : Option ℕ) (m : Option AuthorMember) (a : Author) (c : Caches)
    → IsSound c
    → ((pg : ℕ) → o ≡ some pg → (id : ℕ) × (find_guild id c ≡ some pg))
    → Leads (in_guild_of o m a c)
in_guild_of-Leads none m a c s k = (thrown Error.guild_not_found c, refl, s)
in_guild_of-Leads (some pg) m a c s k =
    let (id, f) = k pg refl in
    let (d, q, t) = load_author-Leads m a pg id c s f in (both d, rw q refl, t)

pub message_create-Leads :
    (j : Message) (c : Caches)
    → IsSound c
    → IsAuthorKnown j c
    → IsPlaced j c
    → Leads (ws_message_create j c)
unfolding ws_message_create lookup
message_create-Leads j c s known placed = elim (Option-cases (find_channel j.channel_id c)) [
  | inl e ↦ (quiet c, rw (e, ws_message_create) refl, s)
  | inr (pc, e) ↦
      let (ch, at, same) = s.1.1 j.channel_id pc e in
      elim (Bool-cases (ch.guild_id == 0)) [
        | inl d ↦ elim (Option-cases (find_user j.author.id c)) [
          | inl f ↦ absurd (unknown f (known pc ch e at d))
          | inr (pu, f) ↦ (both c, rw (e, at, d, f, ws_message_create) refl, s)
        ]
        | inr d ↦ elim (Bool-cases j.webhook) [
          | inl w ↦ (quiet c, rw (e, at, d, w, ws_message_create) refl, s)
          | inr w ↦
              let (h, q, t) =
                in_guild_of-Leads ch.guild j.member j.author c s (points pc ch e at) in
              (h, rw (e, at, d, w, ws_message_create) q, t)
        ]
      ]
]
  where
    points :
        (pc : ℕ) (ch : Channel)
        → find_channel j.channel_id c ≡ some pc
        → object pc c.channels ≡ some ch
        → PointsToCached ch c
    points pc ch e at = placed ch (rw (e, create) at)

pub message_update-Leads :
    (j : Message) (authored : Bool) (c : Caches)
    → IsSound c
    → IsPlaced j c
    → Leads (ws_message_update j authored c)
unfolding ws_message_update lookup
message_update-Leads j authored c s placed =
    let (sd, there) = channel_create-IsSound j.channel_id c s in
    let (ch, at, same) = there in by_member ch at sd j.member refl authored refl
  where
    by_member :
        (ch : Channel)
        → object (channel_create j.channel_id c).0 (channel_create j.channel_id c).1.channels
          ≡ some ch
        → IsSound (channel_create j.channel_id c).1
        → (m : Option AuthorMember) → j.member ≡ m
        → (b : Bool) → authored ≡ b
        → Leads (ws_message_update j authored c)
    by_member ch at sd none e b f =
        (both (channel_create j.channel_id c).1, rw (at, e, ws_message_update) refl, sd)
    by_member ch at sd (some m) e true f =
        let (h, r, t) =
          in_guild_of-Leads ch.guild (some m) j.author (channel_create j.channel_id c).1 sd
            (placed ch at) in
        (h, rw (at, e, f, ws_message_update) r, t)
    by_member ch at sd (some m) e false f =
        (both (channel_create j.channel_id c).1, rw (at, e, f, ws_message_update) refl, sd)

caches-ready_handled : (r : Ready) → (ready_handled r).caches ≡ r.caches
caches-ready_handled r = elim (Option-cases r.error) [
  | inl e ↦ rw (e, ready_handled) refl
  | inr (x, e) ↦ rw (e, ready_handled) refl
]

pub ready-Leads :
    (shard : ℕ) (j : ReadyObject) (b : Bot) (c : Caches)
    → IsSound c
    → AreUnavailable j.guilds
    → Leads (ws_ready shard j b c)
unfolding ws_ready
ready-Leads shard j b c s out = elim (Option-cases b.self) [
  | inl q ↦ first q
  | inr (pu, q) ↦
      let (d, e, sd, same, cached) = ready_guilds-Cached shard j.guilds c s out in
      (both d, rw (q, e, process_ready) refl, sd)
]
  where
    first : b.self ≡ none → Leads (ws_ready shard j b c)
    first q = elim (Option-cases (stoi j.discriminator)) [
      | inl n ↦ (thrown Error.general c, rw (q, n, process_ready) refl, s)
      | inr (z, n) ↦
          let (r, p, e, points, self, sound, cached) =
            process_ready-IsSelf shard j b c z s q n out in
          (ready_handled r, rw e refl, subst IsSound (sym (caches-ready_handled r)) sound)
    ]
