-- ===== src/Events/Sound/Loading.antt =====
-- guild::_load of include/aegis/impl/guild.cpp on sound caches.
use aegis_cpp.Common.{
  ℕ, ◌≡◌, refl, sym, ◌∙◌, List, [], ◌∷◌, Option, none, some, if◌then◌else◌, Option-cases, inl, inr,
}
use aegis_cpp.Common.Map.{assign, emplace}
use aegis_cpp.Json.{Value, boolean, null, number, string, array, object, snowflake_from_json}
use aegis_cpp.User.{User}
use aegis_cpp.Channel.{Channel}
use aegis_cpp.Guild.{Guild}
use aegis_cpp.Error.{Error}
use aegis_cpp.Cache.{Caches, find_guild, user_create, channel_create}
use aegis_cpp.Cache.Lookups.{stored}
use aegis_cpp.Channel.Load.{
  ChannelObject, Loaded, load_with_guild, with_id, with_overrides, with_parent, with_kind,
  with_nsfw, with_some, OverwriteEntry,
}
use aegis_cpp.Members.{find_member, get_guild_info}
use aegis_cpp.Members.Load.{MemberObject, UserObject, load_user, put_info}
use aegis_cpp.Events.Channels.{put_channel, list_channel}
use aegis_cpp.Events.Loading.{
  Presence, Loading, done, after, each, put_user, set_status, load_listed_user, load_listed_info,
  load_member, load_channel, load_presence,
}
use aegis_cpp.Events.Sound.{
  AreMembers, IsSound, IsUpdate, Keeps-AreMembers, assign-Keeps, put_user-IsSound,
  user_create-IsSound, user_create-Keeps, channel_create-IsSound, put_channel-IsSound,
}
use aegis_cpp.Events.Sound.Members.{
  joined, trans-IsUpdate, get_guild_info-IsUpdate, put_info-IsUpdate, named-IsUpdate,
  load_user-IsUpdate, emplace-AreMembers,
}
use aegis_cpp.Events.Sound.Removal.{found-All}

-- A step returns, and keeps P whether or not it threw.
abbrev pub Safe {κ} : (Guild → Caches → Type κ) → (Guild → Caches → Option Loading) → Type κ
Safe P f = (g : Guild) (c : Caches) → P g c → (r : Loading) × (f g c ≡ some r) × P r.guild r.caches

pub after-Safe {κ} :
    (P : Guild → Caches → Type κ) (next : Guild → Caches → Option Loading) (r : Loading)
    → Safe P next
    → P r.guild r.caches
    → (k : Loading) × (after r next ≡ some k) × P k.guild k.caches
unfolding after
after-Safe P next r safe h = by_error r.error refl
  where
    by_error :
        (o : Option Error)
        → r.error ≡ o
        → (k : Loading) × (after r next ≡ some k) × P k.guild k.caches
    by_error none e = let (k, q, p) = safe r.guild r.caches h in (k, rw (e, after) q, p)
    by_error (some x) e = (r, rw (e, after) refl, h)

pub each-Safe {κ} :
    {A : Type 0} (P : Guild → Caches → Type κ) (f : A → Guild → Caches → Option Loading)
    (xs : List A)
    → ((a : A) → Safe P (f a))
    → Safe P (each f xs)
unfolding each
each-Safe P f [] safe g c h = (done g c, refl, h)
each-Safe P f (a ∷ xs) safe g c h =
    let (r, e, p) = safe a g c h in
    let (k, q, t) = after-Safe P (each f xs) r (each-Safe P f xs safe) p in (k, rw e q, t)

-- The guild that is loaded, which stands at pg.
abbrev pub IsLoading : ℕ → ℕ → Guild → Caches → Type 0
IsLoading id pg g c =
    IsSound c × AreMembers c.users.objects g × (g.guild_id ≡ id) × (find_guild id c ≡ some pg)

load_listed_user-IsUpdate :
    (j : UserObject) (u : User) → u.member_id ≡ j.id → IsUpdate u (load_listed_user j u)
unfolding load_listed_user
load_listed_user-IsUpdate j u e = elim (Option-cases (load_user j u)) [
  | inl f ↦ rw (f, load_listed_user) (named-IsUpdate j u e)
  | inr (v, f) ↦ rw (f, load_listed_user) (load_user-IsUpdate j u v e f)
]

pub load_member-Safe : (id pg : ℕ) (j : MemberObject) → Safe (IsLoading id pg) (load_member j)
unfolding load_member
load_member-Safe id pg j g c (s, members, own, found) =
    let (sd, there) = user_create-IsSound j.user.id c s in
    let (u, at, i) = there in
    let p = (user_create j.user.id c).0 in
    let d = (user_create j.user.id c).1 in
    let v = load_listed_user j.user u in
    let (info, x) = get_guild_info g.guild_id v in
    let r = load_listed_info g.guild_id j info in
    let w = record x { guilds = put_info r.info x.guilds } in
    let first = load_listed_user-IsUpdate j.user u i in
    let entry = get_guild_info-IsUpdate g.guild_id v in
    let k = trans-IsUpdate u v w first (trans-IsUpdate v x w entry (put_info-IsUpdate r.info x)) in
    (
      record {
        guild = record g { members = emplace j.user.id p g.members };
        caches = put_user p w d;
        error = if r.ended then none else some Error.general;
      },
      rw at refl,
      (
        put_user-IsSound p u w d sd at k,
        emplace-AreMembers (assign p w d.users.objects) j.user.id p g
            (Keeps-AreMembers d.users.objects (assign p w d.users.objects) g
              (assign-Keeps p u w d.users.objects at k)
              (Keeps-AreMembers c.users.objects d.users.objects g (user_create-Keeps j.user.id c s)
                members))
            (w, stored p w d.users.objects, k.0 ∙ i, joined g.guild_id r.info v),
        own,
        found,
      ),
    )

-- The identifier of a channel is that of the object.
abbrev HasId : ℕ → Loaded → Type 0
HasId id r = r.channel.channel_id ≡ id

with_id-HasId :
    (id old : ℕ) (f : ℕ → Channel → Channel) (o : Option Value) (c : Channel)
    (next : Channel → Loaded)
    → ((n : ℕ) (d : Channel) → (f n d).channel_id ≡ d.channel_id)
    → ((d : Channel) → d.channel_id ≡ id → HasId id (next d))
    → c.channel_id ≡ id
    → HasId id (with_id old f o c next)
with_id-HasId id old f none c next same later h = later c h
with_id-HasId id old f (some v) c next same later h =
    elim (Option-cases (snowflake_from_json v old)) [
      | inl e ↦ rw (e, with_id) h
      | inr (n, e) ↦ rw (e, with_id) (later (f n c) (same n c ∙ h))
    ]

with_parent-HasId :
    (id : ℕ) (j : ChannelObject) (c : Channel) → c.channel_id ≡ id → HasId id (with_parent j c)
with_parent-HasId id j c h =
    with_id-HasId id c.parent_id (λ n. λ d. record d { parent_id = n }) j.parent_id c
      (with_overrides j.permission_overwrites) (λ n. λ d. refl)
      (λ d. λ k. overrides d k j.permission_overwrites) h
  where
    overrides :
        (d : Channel)
        → d.channel_id ≡ id
        → (o : Option (List OverwriteEntry)) → HasId id (with_overrides o d)
    overrides d k none = k
    overrides d k (some es) = k

with_some-id {ℓ} :
    {A : Type ℓ} (f : A → Channel → Channel) (o : Option A) (c : Channel)
    → ((a : A) (d : Channel) → (f a d).channel_id ≡ d.channel_id)
    → (with_some f o c).channel_id ≡ c.channel_id
with_some-id f none c same = refl
with_some-id f (some a) c same = same a c

with_kind-HasId :
    (id : ℕ) (j : ChannelObject) (o : Option ℕ) (c : Channel)
    → c.channel_id ≡ id
    → HasId id (with_kind j o c)
with_kind-HasId id j (some b) c h = with_parent-HasId id j _ h
with_kind-HasId id j none c h =
    with_id-HasId id c.last_message_id (λ n. λ d. record d { last_message_id = n })
      j.last_message_id (with_some (λ t. λ d. record d { topic = t }) j.topic c) (with_parent j)
      (λ n. λ d. refl) (λ d. λ k. with_parent-HasId id j d k)
      (with_some-id (λ t. λ d. record d { topic = t }) j.topic c (λ t. λ d. refl) ∙ h)

with_nsfw-HasId :
    (id : ℕ) (o : Option Value) (c : Channel) (next : Channel → Loaded)
    → ((k : Channel) → k.channel_id ≡ id → (next k).channel.channel_id ≡ id)
    → c.channel_id ≡ id
    → (with_nsfw o c next).channel.channel_id ≡ id
with_nsfw-HasId id none c next n h = n c h
with_nsfw-HasId id (some (boolean b)) c next n h = n (record c { nsfw = b }) h
with_nsfw-HasId id (some null) c next n h = h
with_nsfw-HasId id (some (number z)) c next n h = h
with_nsfw-HasId id (some (string t)) c next n h = h
with_nsfw-HasId id (some (array vs)) c next n h = h
with_nsfw-HasId id (some (object fs)) c next n h = h

pub load_with_guild_id :
    (guild_id : ℕ) (j : ChannelObject) (c : Channel)
    → (load_with_guild guild_id j c).channel.channel_id ≡ j.id
unfolding load_with_guild
load_with_guild_id guild_id j c =
    with_nsfw-HasId j.id j.nsfw _ _ (with_kind-HasId j.id j j.bitrate)
      (with_some-id (λ n. λ d. record d { name = n }) j.name _ (λ n. λ d. refl))

abbrev adopted : Guild → Caches → Channel → Channel
adopted g c ch = record ch { guild_id = g.guild_id; guild = find_guild g.guild_id c }

pub load_channel-Safe : (id pg : ℕ) (j : ChannelObject) → Safe (IsLoading id pg) (load_channel j)
unfolding load_channel
load_channel-Safe id pg j g c (s, members, own, found) =
    let (sd, there) = channel_create-IsSound j.id c s in
    let (ch, at, i) = there in
    let p = (channel_create j.id c).0 in
    let d = (channel_create j.id c).1 in
    let r = load_with_guild g.guild_id j ch in
    let same = load_with_guild_id g.guild_id j ch ∙ sym i in
    elim (Option-cases r.error) [
      | inl e ↦ (
        done (list_channel j.id p g) (put_channel p (adopted g c r.channel) d),
        rw (at, e) refl,
        (put_channel-IsSound p ch (adopted g c r.channel) d sd at same, members, own, found),
      )
      | inr (x, e) ↦ (
        record { guild = g; caches = put_channel p r.channel d; error = some x },
        rw (at, e) refl,
        (put_channel-IsSound p ch r.channel d sd at same, members, own, found),
      )
    ]

pub load_presence-Safe : (id pg : ℕ) (j : Presence) → Safe (IsLoading id pg) (load_presence j)
unfolding load_presence
load_presence-Safe id pg j g c (s, members, own, found) =
    elim (Option-cases (find_member j.user g)) [
      | inl e ↦ (done g c, rw (e, load_presence) refl, (s, members, own, found))
      | inr (p, e) ↦
          let (u, at, i, r) = found-All _ j.user p g.members members e in
          let k : IsUpdate u (set_status j.status u) = (refl, λ n. λ h. h) in
          (
            done g (put_user p (set_status j.status u) c),
            rw (e, at, load_presence) refl,
            (
              put_user-IsSound p u (set_status j.status u) c s at k,
              Keeps-AreMembers c.users.objects _ g (assign-Keeps p u _ c.users.objects at k)
                  members,
              own,
              found,
            ),
          )
    ]
