-- ===== src/Members/Load/Joined.antt =====
-- What `_load_nolock` leaves of a user and of the guild.
use aegis_cpp.Common.{
  ℕ, ◌==◌, ◌≡◌, refl, sym, ap, subst, ◌∙◌, true, false, List, [], ◌∷◌, ◌++◌, Option, none, some,
  Bool-cases, Option-cases, some_eq, inl, inr, arith,
}
use mathlib.Core.Bool.{true≢false}
use mathlib.Core.Option.{none-ne-some, some-ne-none}
use aegis_cpp.Common.Map.{lookup, emplace, is_some}
use aegis_cpp.Json.{Value}
use aegis_cpp.User.{User, GuildInfo, guild_info, find_info}
use aegis_cpp.Guild.{Guild}
use aegis_cpp.Members.{get_guild_info, add_member, find_member}
use aegis_cpp.Members.Load.{
  MemberObject, load_nolock, load_user, load_info, join_guild, put_info, read_roles,
}

find_info-append :
    (g : ℕ) (is : List GuildInfo)
    → find_info g is ≡ none
    → find_info g (is ++ guild_info g ∷ []) ≡ some (guild_info g)
unfolding find_info guild_info
find_info-append g [] h = ground arith
find_info-append g (i ∷ is) h = elim (Bool-cases (i.id == g)) [
  | inl e ↦ absurd (some-ne-none i (rw e at h))
  | inr e ↦ rw (e, get_guild_info) (find_info-append g is (rw e at h))
]

find_info_id :
    (g : ℕ) (is : List GuildInfo) (i : GuildInfo) → find_info g is ≡ some i → (i.id == g) ≡ true
unfolding find_info
find_info_id g [] i h = absurd (none-ne-some i h)
find_info_id g (k ∷ is) i h = elim (Bool-cases (k.id == g)) [
  | inl e ↦ subst (λ x. (x.id == g) ≡ true) (some_eq (rw e at h)) e
  | inr e ↦ find_info_id g is i (rw e at h)
]

guild_info_id : (g : ℕ) → ((guild_info g).id == g) ≡ true
unfolding guild_info
guild_info_id g = ground arith

-- The entry that get_guild_info gives is the one of the user that it leaves, under the guild.
pub get_guild_info-find :
    (g : ℕ) (u : User)
    → (find_info g (get_guild_info g u).1.guilds ≡ some (get_guild_info g u).0)
      × (((get_guild_info g u).0.id == g) ≡ true)
get_guild_info-find g u = elim (Option-cases (find_info g u.guilds)) [
  | inl e ↦ rw (e, get_guild_info) (find_info-append g u.guilds e, guild_info_id g)
  | inr (i, e) ↦ rw (e, get_guild_info) (e, find_info_id g u.guilds i e)
]

find_info-put_info :
    (g : ℕ) (i : GuildInfo) (ks : List GuildInfo)
    → (i.id == g) ≡ true
    → is_some (find_info g ks) ≡ true
    → find_info g (put_info i ks) ≡ some i
unfolding find_info put_info
find_info-put_info g i [] h k = absurd (true≢false (sym k))
find_info-put_info g i (x ∷ ks) h k = elim (Bool-cases (x.id == g)) [
  | inl e ↦ rw (same x i h e, h) refl
  | inr e ↦ rw (other x i h e, e) (find_info-put_info g i ks h (rw e at k))
]
  where
    same : (x i : GuildInfo) → (i.id == g) ≡ true → (x.id == g) ≡ true → (x.id == i.id) ≡ true
    same x i h e = ground arith

    other : (x i : GuildInfo) → (i.id == g) ≡ true → (x.id == g) ≡ false → (x.id == i.id) ≡ false
    other x i h e = ground arith

load_info_id :
    (g : ℕ) (j : MemberObject) (i : GuildInfo) (o : Option (List Value))
    → j.roles ≡ o
    → (load_info g j i).info.id ≡ i.id
unfolding load_info
load_info_id g j i none e = rw (e, load_info) refl
load_info_id g j i (some vs) e = rw (e, load_info) refl

find_member-add_member :
    (p : ℕ) (u : User) (g : Guild) → is_some (find_member u.member_id (add_member p u g)) ≡ true
unfolding lookup emplace
find_member-add_member p u g = elim (Option-cases (lookup u.member_id g.members)) [
  | inl e ↦ rw (e, lookup) (ground arith)
  | inr (a, e) ↦ rw (e, lookup) (rw e refl)
]

pub join_guild-Joined :
    (j : MemberObject) (p : ℕ) (v : User) (g : Guild)
    → (find_info g.guild_id (join_guild j p v g).user.guilds
        ≡ some (load_info g.guild_id j (get_guild_info g.guild_id v).0).info)
      × (is_some (find_member v.member_id (join_guild j p v g).guild) ≡ true)
unfolding join_guild
join_guild-Joined j p v g =
    let (found, same) = get_guild_info-find g.guild_id v in
    let i = (get_guild_info g.guild_id v).0 in
    (
      find_info-put_info g.guild_id (load_info g.guild_id j i).info
          (get_guild_info g.guild_id v).1.guilds
          (ap (λ x. x == g.guild_id) (load_info_id g.guild_id j i j.roles refl) ∙ same)
          (ap is_some found),
      find_member-add_member p v g,
    )

pub load_info_roles :
    (g : ℕ) (j : MemberObject) (i : GuildInfo) (vs : List Value)
    → j.roles ≡ some vs
    → (load_info g j i).info.roles ≡ g ∷ (read_roles vs).roles
unfolding load_info
load_info_roles g j i vs e = rw (e, load_info) refl

-- A user whose own fields are read without an exception becomes a member of the guild, if it is none. Where
-- the event has roles, the data of the user for the guild has the role of everyone and then the roles of the
-- event, as far as they are read.
pub load_nolock-Joined :
    (j : MemberObject) (p : ℕ) (u v : User) (g : Guild) (vs : List Value)
    → load_user j.user u ≡ some v
    → j.roles ≡ some vs
    → (is_some (find_member v.member_id (load_nolock j p u g).guild) ≡ true)
      × (i : GuildInfo) × (find_info g.guild_id (load_nolock j p u g).user.guilds ≡ some i)
      × (i.roles ≡ g.guild_id ∷ (read_roles vs).roles)
unfolding load_nolock
load_nolock-Joined j p u v g vs e r =
    let i = (get_guild_info g.guild_id v).0 in
    let (found, member) = join_guild-Joined j p v g in
    rw (e, load_nolock)
      (member, (load_info g.guild_id j i).info, found, load_info_roles g.guild_id j i vs r)
