-- ===== src/Events/Sound/Members.antt =====
-- What the functions of include/aegis/impl/user.cpp that load a member keep of the users and of the members of a
-- guild.
use aegis_cpp.Common.{
  ℕ, ◌≡◌, refl, true, sym, ap, subst, ◌∙◌, List, [], ◌∷◌, ◌++◌, Option, none, some, some_eq,
  Bool-cases, Option-cases, inl, inr, arith,
}
use mathlib.Core.Bool.{true≢false}
use mathlib.Core.Option.{none-ne-some}
use aegis_cpp.Common.Map.{Map, lookup, assign, emplace, is_some}
use aegis_cpp.Common.Text.{Text, stoi}
use aegis_cpp.User.{User, GuildInfo, find_info, guild_info}
use aegis_cpp.Guild.{Guild}
use aegis_cpp.Cache.{Caches, object, find_guild}
use aegis_cpp.Cache.Lookups.{stored}
use aegis_cpp.Cache.Sound.{IsAt}
use aegis_cpp.Members.{get_guild_info}
use aegis_cpp.Members.Load.{
  MemberObject, UserObject, load_nolock, load_user, load_info, join_guild, put_info, named,
  discriminated,
}
use aegis_cpp.Members.Load.Joined.{get_guild_info-find}
use aegis_cpp.Events.{load_into, put_guild}
use aegis_cpp.Events.Loading.{put_user}
use aegis_cpp.Events.Sound.{
  HasData, AreMembers, IsSound, IsUpdate, Keeps-AreMembers, assign-Keeps, put_user-IsSound,
  put_guild-IsSound,
}

pub find_info-put_info_kept :
    (k : ℕ) (i : GuildInfo) (is : List GuildInfo)
    → is_some (find_info k is) ≡ true
    → is_some (find_info k (put_info i is)) ≡ true
unfolding find_info put_info
find_info-put_info_kept k i [] h = h
find_info-put_info_kept k i (x ∷ is) h = ground (arith, h, find_info-put_info_kept k i is)

find_info-append_kept :
    (k : ℕ) (i : GuildInfo) (is : List GuildInfo)
    → is_some (find_info k is) ≡ true
    → is_some (find_info k (is ++ i ∷ [])) ≡ true
unfolding find_info
find_info-append_kept k i [] h = absurd (true≢false (sym h))
find_info-append_kept k i (x ∷ is) h = ground (arith, h, find_info-append_kept k i is)

pub trans-IsUpdate : (u v w : User) → IsUpdate u v → IsUpdate v w → IsUpdate u w
trans-IsUpdate u v w (a, f) (b, g) = (b ∙ a, λ k. λ h. g k (f k h))

pub get_guild_info-IsUpdate : (g : ℕ) (u : User) → IsUpdate u (get_guild_info g u).1
get_guild_info-IsUpdate g u = elim (Option-cases (find_info g u.guilds)) [
  | inl e ↦
      rw (e, get_guild_info) (refl, λ k. λ h. find_info-append_kept k (guild_info g) u.guilds h)
  | inr (i, e) ↦ rw (e, get_guild_info) (refl, λ k. λ h. h)
]

pub put_info-IsUpdate :
    (i : GuildInfo) (u : User) → IsUpdate u (record u { guilds = put_info i u.guilds })
put_info-IsUpdate i u = (refl, λ k. λ h. find_info-put_info_kept k i u.guilds h)

pub named-IsUpdate : (j : UserObject) (u : User) → u.member_id ≡ j.id → IsUpdate u (named j u)
named-IsUpdate j u e = (sym e, λ k. λ h. h)

discriminated-IsUpdate : (t : Option Text) (u v : User) → discriminated t u ≡ some v → IsUpdate u v
discriminated-IsUpdate none u v e = subst (IsUpdate u) (some_eq e) (refl, λ k. λ h. h)
discriminated-IsUpdate (some t) u v e = elim (Option-cases (stoi t)) [
  | inl f ↦ absurd (none-ne-some v (rw (f, discriminated) at e))
  | inr (z, f) ↦ subst (IsUpdate u) (some_eq (rw (f, discriminated) at e)) (refl, λ k. λ h. h)
]

pub load_user-IsUpdate :
    (j : UserObject) (u v : User) → u.member_id ≡ j.id → load_user j u ≡ some v → IsUpdate u v
unfolding load_user
load_user-IsUpdate j u v i e = elim (Option-cases (discriminated j.discriminator (named j u))) [
  | inl f ↦ absurd (none-ne-some v (rw (f, load_user) at e))
  | inr (w, f) ↦
      let named_w =
        trans-IsUpdate u (named j u) w (named-IsUpdate j u i)
          (discriminated-IsUpdate j.discriminator (named j u) w f) in
      subst (IsUpdate u) (some_eq (rw (f, load_user) at e)) named_w
]

-- The data that is written back under the guild.
pub joined :
    (g : ℕ) (i : GuildInfo) (u : User)
    → is_some (find_info g (put_info i (get_guild_info g u).1.guilds)) ≡ true
joined g i u =
    find_info-put_info_kept g i (get_guild_info g u).1.guilds
      (ap is_some (get_guild_info-find g u).0)

pub emplace-AreMembers :
    (us : Map User) (m p : ℕ) (g : Guild)
    → AreMembers us g
    → HasData g.guild_id m p us
    → AreMembers us (record g { members = emplace m p g.members })
unfolding emplace
emplace-AreMembers us m p g all new = elim (Bool-cases (is_some (lookup m g.members))) [
  | inl e ↦ rw e all
  | inr e ↦ rw e (new, all)
]

abbrev written : ℕ → ℕ → User → Guild → Caches → Caches
written pu pg w h c = put_guild pg h (put_user pu w c)

-- A write to the user at pu and one to the guild at pg.
written-IsSound :
    (pu pg : ℕ) (c : Caches) (u w : User) (g h : Guild)
    → IsSound c
    → object pu c.users ≡ some u
    → object pg c.guilds ≡ some g
    → IsUpdate u w
    → h.guild_id ≡ g.guild_id
    → AreMembers (put_user pu w c).users.objects h
    → IsSound (written pu pg w h c)
written-IsSound pu pg c u w g h s a b k same members =
    put_guild-IsSound pg g h (put_user pu w c) (put_user-IsSound pu u w c s a k) b same members

load_nolock-Loaded :
    (j : MemberObject) (pu : ℕ) (u : User) (g : Guild) (us : Map User)
    → AreMembers us g
    → lookup pu us ≡ some u
    → u.member_id ≡ j.user.id
    → IsUpdate u (load_nolock j pu u g).user
      × ((load_nolock j pu u g).guild.guild_id ≡ g.guild_id)
      × AreMembers (assign pu (load_nolock j pu u g).user us) (load_nolock j pu u g).guild
unfolding load_nolock join_guild
load_nolock-Loaded j pu u g us all at same = elim (Option-cases (load_user j.user u)) [
  | inl e ↦
      rw (e, load_nolock)
        (let k = named-IsUpdate j.user u same in
          (k, refl, Keeps-AreMembers us _ g (assign-Keeps pu u (named j.user u) us at k) all))
  | inr (v, e) ↦ rw (e, load_nolock) (joined_guild v (load_user-IsUpdate j.user u v same e))
]
  where
    joined_guild :
        (v : User)
        → IsUpdate u v
        → IsUpdate u (join_guild j pu v g).user
          × ((join_guild j pu v g).guild.guild_id ≡ g.guild_id)
          × AreMembers (assign pu (join_guild j pu v g).user us) (join_guild j pu v g).guild
    joined_guild v k =
        let w = (join_guild j pu v g).user in
        let i = (load_info g.guild_id j (get_guild_info g.guild_id v).0).info in
        let step = get_guild_info-IsUpdate g.guild_id v in
        let k2 = trans-IsUpdate u v w k (
          trans-IsUpdate v (get_guild_info g.guild_id v).1 w step
            (put_info-IsUpdate i (get_guild_info g.guild_id v).1)) in
        (
          k2,
          refl,
          emplace-AreMembers (assign pu w us) v.member_id pu g
              (Keeps-AreMembers us (assign pu w us) g (assign-Keeps pu u w us at k2) all)
              (w, stored pu w us, step.0, joined g.guild_id i v),
        )

-- The event of a member is stored, and the caches stay sound.
pub load_into-IsSound :
    (j : MemberObject) (pu pg id : ℕ) (c : Caches)
    → IsSound c
    → IsAt User.member_id j.user.id pu c.users
    → find_guild id c ≡ some pg
    → (d : Caches) × (load_into j pu pg c ≡ some d)
      × IsSound d
      × (find_guild id d ≡ some pg)
      × IsAt User.member_id j.user.id pu d.users
unfolding lookup
load_into-IsSound j pu pg id c s (u, at, same) f =
    let (g, guild, i) = s.2.1 id pg f in
    let r = load_nolock j pu u g in
    let (k, kept, members) =
      load_nolock-Loaded j pu u g c.users.objects (s.3 id pg g f guild) at same in
    (
      written pu pg r.user r.guild c,
      rw (at, guild) refl,
      written-IsSound pu pg c u r.user g r.guild s at guild k kept members,
      f,
      (r.user, stored pu r.user c.users.objects, k.0 ∙ same),
    )
