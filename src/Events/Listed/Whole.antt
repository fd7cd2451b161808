-- ===== src/Events/Listed/Whole.antt =====
-- The members and the channels that the event of a guild lists.
use aegis_cpp.Common.{
  ℕ, ◌≡◌, ap, subst, ◌∙◌, Bool, List, [], ◌∷◌, Option, none, some, some_eq, All, All-map,
  if◌then◌else◌, Option-cases, inl, inr,
}
use mathlib.Core.Option.{none-ne-some, some-ne-none}
use aegis_cpp.Json.{Value}
use aegis_cpp.Guild.{Guild, Emoji, VoiceState, new_guild}
use aegis_cpp.Cache.{Caches, object, guild_create, find_guild}
use aegis_cpp.Cache.Lookups.{find-create_same}
use aegis_cpp.Channel.Load.{ChannelObject}
use aegis_cpp.Members.Load.{MemberObject}
use aegis_cpp.Events.{Handled}
use aegis_cpp.Events.Joining.{object-assign}
use aegis_cpp.Events.Loading.{
  GuildObject, Loading, after, each, load_member, load_channel, load_presence, load_lists, load,
  load_roles, load_fields, load_emojis, load_voicestate, load_voicestates,
}
use aegis_cpp.Events.Guilds.{ws_guild_create, loaded, request_members}
use aegis_cpp.Events.Listed.{
  HasMember, HasChannel, Grows, each-Good, after-Good, load_member-Good, load_channel-Good,
  load_presence-Good,
}
use aegis_cpp.Events.Sound.{IsSound, guild_create-IsSound}
use aegis_cpp.Events.Sound.Guilds.{load-Safe}
use aegis_cpp.Events.Guilds.{member_request}

abbrev pub Lists : GuildObject → Guild → Type 0
Lists j g = All (λ a. HasMember a g) j.members × All (λ a. HasChannel a g) j.channels

Grows-HasMember :
    (js : List MemberObject) (g h : Guild)
    → Grows g h
    → All (λ a. HasMember a g) js
    → All (λ a. HasMember a h) js
Grows-HasMember js g h k all =
    All-map (λ a. HasMember a g) (λ a. HasMember a h) js (λ a. λ x. k.0 a.user.id x) all

Grows-HasChannel :
    (js : List ChannelObject) (g h : Guild)
    → Grows g h
    → All (λ a. HasChannel a g) js
    → All (λ a. HasChannel a h) js
Grows-HasChannel js g h k all =
    All-map (λ a. HasChannel a g) (λ a. HasChannel a h) js (λ a. λ x. k.1 a.id x) all

load_lists-Lists :
    (j : GuildObject) (g : Guild) (c : Caches) (r : Loading)
    → load_lists j g c ≡ some r
    → r.error ≡ none
    → Lists j r.guild
unfolding load_lists
load_lists-Lists j g c r e n = elim (Option-cases (each load_member j.members g c)) [
  | inl f ↦ absurd (none-ne-some r (rw f at e))
  | inr (m, f) ↦ elim (Option-cases (after m (each load_channel j.channels))) [
    | inl k ↦ absurd (none-ne-some r (rw (f, k) at e))
    | inr (h, k) ↦
        let members =
          each-Good HasMember load_member j.members (λ a. λ x. λ y. λ t. t.0 a.user.id)
            load_member-Good g c m f in
        let channels =
          after-Good (λ x. All (λ a. HasChannel a x) j.channels) (each load_channel j.channels) m h
            (each-Good HasChannel load_channel j.channels (λ a. λ x. λ y. λ t. t.1 a.id)
              load_channel-Good)
            k in
        let presences =
          after-Good (λ x. All (λ a. Unit) j.presences) (each load_presence j.presences) h r
            (each-Good (λ a. λ x. Unit) load_presence j.presences (λ a. λ x. λ y. λ t. λ u. u)
              load_presence-Good)
            (rw (f, k) at e) in
        let (h_fine, u) = presences.1 n in
        let (m_fine, listed) = channels.1 h_fine in
        (
          Grows-HasMember j.members h.guild r.guild presences.0
              (Grows-HasMember j.members m.guild h.guild channels.0 (members.1 m_fine)),
          Grows-HasChannel j.channels h.guild r.guild presences.0 listed,
        )
  ]
]

extras-Lists :
    (j : GuildObject) (es : List Emoji) (vs : List (ℕ × Option VoiceState)) (g : Guild)
    → Lists j g
    → Lists j (load_voicestates vs (load_emojis es g))
unfolding load_voicestate
extras-Lists j (e ∷ es) vs g h = extras-Lists j es vs _ h
extras-Lists j [] [] g h = h
extras-Lists j [] ((user, v) ∷ vs) g h = extras-Lists j [] vs (load_voicestate user v g) (voice v)
  where
    voice : (v : Option VoiceState) → Lists j (load_voicestate user v g)
    voice none = h
    voice (some x) = h

load-Lists :
    (shard : ℕ) (j : GuildObject) (g : Guild) (c : Caches) (r : Loading)
    → load shard j g c ≡ some r
    → r.error ≡ none
    → Lists j r.guild
unfolding load after
load-Lists shard j g c r e n =
    elim (Option-cases (load_lists j (load_roles j.roles (load_fields shard j g)) c)) [
      | inl f ↦ absurd (none-ne-some r (rw f at e))
      | inr (m, f) ↦ elim (Option-cases m.error) [
        | inl k ↦
            subst (λ y. Lists j y.guild) (some_eq (rw (f, k, after) at e))
              (extras-Lists j j.emojis j.voice_states m.guild (load_lists-Lists j _ c m f k))
        | inr (x, k) ↦
            let same = some_eq (rw (f, k, after) at e) in
            absurd (some-ne-none x (ap Loading.error same ∙ n))
      ]
    ]

-- What the handler has sent when it ends.
abbrev sent : Bool → ℕ → List Value
sent bulk id = if bulk then member_request id ∷ [] else []

handled-Lists :
    (bulk : Bool) (pg : ℕ) (j : GuildObject) (l : Loading)
    → find_guild j.id l.caches ≡ some pg
    → (l.error ≡ none → Lists j l.guild)
    → (request_members bulk j.id (loaded pg l)).0.error ≡ none
    → (g : Guild) × (find_guild j.id (request_members bulk j.id (loaded pg l)).0.caches ≡ some pg)
      × (object pg (request_members bulk j.id (loaded pg l)).0.caches.guilds ≡ some g)
      × Lists j g
handled-Lists bulk pg j l found lists n = elim (Option-cases l.error) [
  | inl f ↦
      rw (f, loaded, request_members)
        (l.guild, found, object-assign pg l.guild l.caches.guilds.objects, lists f)
  | inr (x, f) ↦ absurd (some-ne-none x (rw (f, loaded, request_members) at n))
]

-- After the event of a guild that came to sound caches and threw nothing, the guild is cached, and has every
-- member and every channel that the event lists.
pub ws_guild_create-Lists :
    (bulk : Bool) (shard : ℕ) (j : GuildObject) (c : Caches) (r : Handled × List Value)
    → IsSound c
    → ws_guild_create bulk shard j c ≡ some r
    → r.0.error ≡ none
    → (pg : ℕ) × (g : Guild) × (find_guild j.id r.0.caches ≡ some pg)
      × (object pg r.0.caches.guilds ≡ some g)
      × Lists j g
unfolding ws_guild_create
ws_guild_create-Lists bulk shard j c r s e n =
    let pg = (guild_create j.id shard c).0 in
    let d = (guild_create j.id shard c).1 in
    let (sd, there) = guild_create-IsSound j.id shard c s in
    let (g, at, own) = there in
    let found = find-create_same j.id (new_guild shard j.id) c.guilds in
    let (l, returned, (sl, members, kept, still)) =
      load-Safe j.id pg shard j g d (sd, sd.3 j.id pg g found at, own, found) in
    let same = some_eq (rw (at, returned) at e) in
    let lists = handled-Lists bulk pg j l still (load-Lists shard j g d l returned) in
    subst
      (λ x.
        x.0.error ≡ none
        → (p : ℕ) × (h : Guild) × (find_guild j.id x.0.caches ≡ some p)
          × (object p x.0.caches.guilds ≡ some h)
          × Lists j h)
      same (λ t. let (h, a, b, k) = lists t in (pg, h, a, b, k)) n
