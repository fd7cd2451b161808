-- ===== src/Events/Listed.antt =====
-- The steps of guild::_load of include/aegis/impl/guild.cpp that add the members and the channels it is given.
pub mod Whole
use aegis_cpp.Common.{
  ℕ, ◌==◌, ◌≡◌, refl, sym, ap, subst, ◌∙◌, Bool, true, false, List, [], ◌∷◌, Option, none, some,
  some_eq, ◌>>=◌, All, All-map, if◌then◌else◌, Bool-cases, Option-cases, inl, inr, arith,
}
use mathlib.Core.Option.{none-ne-some, some-ne-none}
use aegis_cpp.Common.Map.{Map, lookup, emplace, is_some}
use aegis_cpp.Json.{Value}
use aegis_cpp.Guild.{Guild, Role, Emoji, VoiceState, new_guild}
use aegis_cpp.Error.{Error}
use aegis_cpp.Cache.{Caches, object, user_create, channel_create, guild_create, find_guild}
use aegis_cpp.Cache.Lookups.{find-create_same}
use aegis_cpp.Channel.Load.{ChannelObject, load_with_guild}
use aegis_cpp.Members.{find_member, find_channel, load_role}
use aegis_cpp.Members.Load.{MemberObject}
use aegis_cpp.Events.{Handled, put_guild}
use aegis_cpp.Events.Joining.{object-assign}
use aegis_cpp.Events.Loading.{
  GuildObject, Presence, Loading, done, after, each, load_member, load_channel, load_presence,
  load_lists, load, load_roles, load_fields, load_emojis, load_voicestate, load_voicestates,
}
use aegis_cpp.Events.Guilds.{ws_guild_create, load_at, loaded, request_members}

abbrev pub HasMember : MemberObject → Guild → Type 0
HasMember j g = is_some (find_member j.user.id g) ≡ true

abbrev pub HasChannel : ChannelObject → Guild → Type 0
HasChannel j g = is_some (find_channel j.id g) ≡ true

-- Members and channels stay.
abbrev pub Grows : Guild → Guild → Type 0
Grows g h =
    ((m : ℕ) → is_some (lookup m g.members) ≡ true → is_some (lookup m h.members) ≡ true)
    × ((m : ℕ) → is_some (lookup m g.channels) ≡ true → is_some (lookup m h.channels) ≡ true)

refl-Grows : (g : Guild) → Grows g g
refl-Grows g = (λ m. λ h. h, λ m. λ h. h)

trans-Grows : (f g h : Guild) → Grows f g → Grows g h → Grows f h
trans-Grows f g h (a, b) (c, d) = (λ m. λ x. c m (a m x), λ m. λ x. d m (b m x))

emplace_kept :
    (k m p : ℕ) (ms : Map ℕ)
    → is_some (lookup m ms) ≡ true
    → is_some (lookup m (emplace k p ms)) ≡ true
unfolding lookup emplace
emplace_kept k m p ms h = elim (Bool-cases (is_some (lookup k ms))) [
  | inl e ↦ rw e h
  | inr e ↦ rw e (ground (arith, h))
]

emplace_there : (k p : ℕ) (ms : Map ℕ) → is_some (lookup k (emplace k p ms)) ≡ true
unfolding lookup emplace
emplace_there k p ms = elim (Option-cases (lookup k ms)) [
  | inl e ↦ rw e (ground arith)
  | inr (a, e) ↦ rw e (ap is_some e)
]

-- What a step leaves if it returns: more, and Q if nothing was thrown.
abbrev pub Good : (Guild → Type 0) → (Guild → Caches → Option Loading) → Type 0
Good Q f =
    (g : Guild) (c : Caches) (r : Loading)
    → f g c ≡ some r
    → Grows g r.guild × (r.error ≡ none → Q r.guild)

pub after-Good :
    (Q : Guild → Type 0) (next : Guild → Caches → Option Loading) (m r : Loading)
    → Good Q next
    → after m next ≡ some r
    → Grows m.guild r.guild × (r.error ≡ none → (m.error ≡ none) × Q r.guild)
unfolding after
after-Good Q next m r good e = elim (Option-cases m.error) [
  | inl f ↦ let (grows, q) = good m.guild m.caches r (rw (f, after) at e) in (grows, λ n. (f, q n))
  | inr (x, f) ↦
      let same = some_eq (rw (f, after) at e) in
      (
        subst (λ y. Grows m.guild y.guild) same (refl-Grows m.guild),
        λ n. absurd (some-ne-none x (ap Loading.error same ∙ n)),
      )
]

pub each-Good :
    {A : Type 0} (Q : A → Guild → Type 0) (f : A → Guild → Caches → Option Loading) (xs : List A)
    → ((a : A) (g h : Guild) → Grows g h → Q a g → Q a h)
    → ((a : A) → Good (Q a) (f a))
    → Good (λ g. All (λ a. Q a g) xs) (each f xs)
unfolding each
each-Good Q f [] stable good g c r e =
    (subst (λ y. Grows g y.guild) (some_eq e) (refl-Grows g), λ n. tt)
each-Good Q f (a ∷ xs) stable good g c r e = elim (Option-cases (f a g c)) [
  | inl n ↦ absurd (none-ne-some r (rw n at e))
  | inr (m, k) ↦
      let (first, q) = good a g c m k in
      let (rest, all) =
        after-Good (λ h. All (λ x. Q x h) xs) (each f xs) m r (each-Good Q f xs stable good)
          (rw k at e) in
      (
        trans-Grows g m.guild r.guild first rest,
        λ n. let (fine, qs) = all n in (stable a m.guild r.guild rest (q fine), qs),
      )
]

pub load_member-Good : (j : MemberObject) → Good (HasMember j) (load_member j)
unfolding load_member
load_member-Good j g c r e =
    elim (Option-cases (object (user_create j.user.id c).0 (user_create j.user.id c).1.users)) [
      | inl n ↦ absurd (none-ne-some r (rw n at e))
      | inr (u, k) ↦
          let same = ap Loading.guild (some_eq (rw k at e)) in
          (
            subst (λ y. Grows g y) same
                (λ m. λ h. emplace_kept j.user.id m _ g.members h, λ m. λ h. h),
            λ n. subst (λ y. HasMember j y) same (emplace_there j.user.id _ g.members),
          )
    ]

pub load_presence-Good : (j : Presence) → Good (λ g. Unit) (load_presence j)
unfolding load_presence
load_presence-Good j g c r e = elim (Option-cases (find_member j.user g)) [
  | inl n ↦
      (subst (λ y. Grows g y.guild) (some_eq (rw (n, load_presence) at e)) (refl-Grows g), λ x. tt)
  | inr (p, n) ↦ elim (Option-cases (object p c.users)) [
    | inl k ↦ absurd (none-ne-some r (rw (n, k, load_presence) at e))
    | inr (u, k) ↦ (
      subst (λ y. Grows g y.guild) (some_eq (rw (n, k, load_presence) at e)) (refl-Grows g),
      λ x. tt,
    )
  ]
]

pub load_channel-Good : (j : ChannelObject) → Good (HasChannel j) (load_channel j)
unfolding load_channel
load_channel-Good j g c r e =
    elim (Option-cases (object (channel_create j.id c).0 (channel_create j.id c).1.channels)) [
      | inl n ↦ absurd (none-ne-some r (rw n at e))
      | inr (ch, k) ↦ elim (Option-cases (load_with_guild g.guild_id j ch).error) [
        | inl f ↦
            let same = ap Loading.guild (some_eq (rw (k, f) at e)) in
            (
              subst (λ y. Grows g y) same
                  (λ m. λ h. h, λ m. λ h. emplace_kept j.id m _ g.channels h),
              λ n. subst (λ y. HasChannel j y) same (emplace_there j.id _ g.channels),
            )
        | inr (x, f) ↦
            let whole = some_eq (rw (k, f) at e) in
            (
              subst (λ y. Grows g y.guild) whole (refl-Grows g),
              λ n. absurd (some-ne-none x (ap Loading.error whole ∙ n)),
            )
      ]
    ]
