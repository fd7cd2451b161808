-- ===== src/Members/Roles.antt =====
-- What `_remove_role` of include/aegis/impl/guild.cpp leaves of the members that have the role.
use aegis_cpp.Common.{
  ℕ, ◌==◌, ◌≡◌, ◌≢◌, refl, sym, ap, ◌∙◌, subst, true, false, List, [], ◌∷◌, Option, none, some,
  if◌then◌else◌, contains, All, Bool-cases, Option-cases, some_eq, ==_iff, inl, inr, ◌⊎◌, arith,
}
use aegis_cpp.Common.Map.{Map, lookup, erase, assign, is_some, AllOption, lookup-assign}
use aegis_cpp.User.{User, GuildInfo, find_info, get_guild_info_nocreate}
use aegis_cpp.Guild.{Guild, Role}
use aegis_cpp.Guild.Access.{get_role, find_role, base_permissions}
use aegis_cpp.Guild.Access.Roles.{known, base_permissions_unknown}
use aegis_cpp.Members.{visit_member, visit_members, remove_role}

-- The entries of the map of roles stand under the identifiers of the roles, as `_load_role` puts them.
abbrev pub Keyed : Map Role → Type 0
Keyed = All (λ e. e.1.role_id ≡ e.0)

find_role-erase :
    (r k : ℕ) (rs : Map Role)
    → Keyed rs
    → find_role k (erase r rs) ≡ (if r == k then none else find_role k rs)
unfolding find_role erase
find_role-erase r k [] h = ground arith
find_role-erase r k ((j, role) ∷ rs) h = ground (arith, find_role-erase r k rs h.1, h.0)

-- A member that has its entry for the guild is the same behind the visit.
visit_member-eq :
    (role guild : ℕ) (u : User) (i : GuildInfo)
    → find_info guild u.guilds ≡ some i
    → visit_member role guild u ≡ u
visit_member-eq role guild u i h = rw (h, visit_member) refl

-- Every member of a list has its user.
abbrev pub Present : Map User → Map ℕ → Type 0
Present users = All (λ e. is_some (lookup e.1 users) ≡ true)

Present-assign :
    (q : ℕ) (v : User) (users : Map User) (ms : Map ℕ)
    → Present users ms
    → Present (assign q v users) ms
Present-assign q v users [] h = tt
Present-assign q v users ((k, p) ∷ ms) h =
    (rw (lookup-assign q p v users) (there (Bool-cases (q == p))), Present-assign q v users ms h.1)
  where
    there :
        ((q == p) ≡ true) ⊎ ((q == p) ≡ false)
        → is_some (if q == p then some v else lookup p users) ≡ true
    there (inl e) = rw e refl
    there (inr e) = rw e h.0

visit_members_returns :
    (role guild : ℕ) (ms : Map ℕ) (users : Map User)
    → Present users ms
    → is_some (visit_members role guild ms users) ≡ true
unfolding visit_members
visit_members_returns role guild [] users h = refl
visit_members_returns role guild ((k, q) ∷ ms) users h = elim (Option-cases (lookup q users)) [
  | inl e ↦ absurd (missing e h.0)
  | inr (v, e) ↦ rw e (
      visit_members_returns role guild ms _
        (Present-assign q (visit_member role guild v) users ms h.1))
]
  where
    missing : {o : Option User} → o ≡ none → is_some o ≡ true → ⊥
    missing e k = ground (arith, rw e at k)

visit_members-kept :
    (role guild p : ℕ) (ms : Map ℕ) (users : Map User) (u : User) (i : GuildInfo)
    → lookup p users ≡ some u
    → find_info guild u.guilds ≡ some i
    → AllOption (λ vs. lookup p vs ≡ some u) (visit_members role guild ms users)
unfolding visit_members
visit_members-kept role guild p [] users u i e h = e
visit_members-kept role guild p ((k, q) ∷ ms) users u i e h = elim (Option-cases (lookup q users)) [
  | inl f ↦ rw f tt
  | inr (v, f) ↦ rw f (visit_members-kept role guild p ms _ u i (kept v f) h)
]
  where
    kept :
        (v : User)
        → lookup q users ≡ some v
        → lookup p (assign q (visit_member role guild v) users) ≡ some u
    kept v f =
        rw (lookup-assign q p (visit_member role guild v) users) (elim (Bool-cases (q == p)) [
          | inl g ↦ rw g (
              ap some (
                ap (visit_member role guild)
                  (some_eq (sym f ∙ ap (λ x. lookup x users) ((==_iff q p).0 g) ∙ e))
                ∙ visit_member-eq role guild u i h))
          | inr g ↦ rw g e
        ])

pub not_known :
    (g : Guild) (r : ℕ) (rls : List ℕ)
    → get_role g r ≡ none
    → contains r rls ≡ true
    → known g rls ≡ false
unfolding known
not_known g r [] e h = absurd (ground (arith, h))
not_known g r (x ∷ xs) e h = elim (Bool-cases (x == r)) [
  | inl f ↦ rw (ap (get_role g) ((==_iff x r).0 f) ∙ e) refl
  | inr f ↦ ground (arith, not_known g r xs e (ground (arith, h, f)))
]

-- What `_remove_role` leaves: the guild, and the user at an address.
pub record Left (role p : ℕ) (u : User) (g : Guild) (users : Map User) : Type 0 where
  pub gone : get_role g role ≡ none
  pub same_user : lookup p users ≡ some u
  pub no_permissions : base_permissions g u ≡ 0

-- For a role other than that of everyone, `_remove_role` returns; then the role is gone from the
-- guild, but a member at p (not the owner) that had the role still has it among its roles, since the
-- user is as before, and its base permissions are 0, whatever its other roles give. The addresses of
-- the members are those of users, the guild has the role of everyone, its roles are keyed by their
-- identifiers, and the member has data for it.
pub remove_role-Left :
    (role p : ℕ) (g : Guild) (users : Map User) (u : User) (i : GuildInfo) (everyone : Role)
    → Present users g.members
    → Keyed g.roles
    → role ≢ g.guild_id
    → get_role g g.guild_id ≡ some everyone
    → (g.owner_id == u.member_id) ≡ false
    → lookup p users ≡ some u
    → find_info g.guild_id u.guilds ≡ some i
    → contains role i.roles ≡ true
    → (r : Guild × Map User) × (remove_role role g users ≡ some r) × Left role p u r.0 r.1
unfolding remove_role get_role get_guild_info_nocreate find_info
remove_role-Left role p g users u i everyone all k n base owner e h has =
    elim (Option-cases (visit_members role g.guild_id g.members users)) [
      | inl f ↦ absurd (missing f (visit_members_returns role g.guild_id g.members users all))
      | inr (vs, f) ↦ (
        (left, vs),
        rw f refl,
        record {
          gone = gone;
          same_user =
              subst (AllOption (λ v. lookup p v ≡ some u)) f
                (visit_members-kept role g.guild_id p g.members users u i e h);
          no_permissions =
              base_permissions_unknown left u everyone i owner still_base h
                (not_known left role i.roles gone has);
        },
      )
    ]
  where
    missing : {o : Option (Map User)} → o ≡ none → is_some o ≡ true → ⊥
    missing a b = ground (arith, rw a at b)

    left : Guild
    left = record g { roles = erase role g.roles }

    gone : get_role left role ≡ none
    gone = find_role-erase role role g.roles k ∙ ground arith

    still_base : get_role left g.guild_id ≡ some everyone
    still_base = find_role-erase role g.guild_id g.roles k ∙ ground (arith, n, base)
