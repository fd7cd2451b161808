-- ===== src/Guild/Access/Roles.antt =====
-- What the roles of a member give: `base_permissions` one permission at a time, and those whom no
-- overwrite restricts.
use aegis_cpp.Common.{
  ℕ, ◌<◌, ◌≡◌, refl, ◌∙◌, Bool, true, false, ◌&&◌, ◌||◌, ◌==◌, List, [], ◌∷◌, Option, none, some,
  arith, if◌then◌else◌, bit_or, test_bit, test_bit-bit_or, test_bit_value, test_bit-ones,
  bit_and_field, Option-cases, Bool-cases, ==_iff, inl, inr, ◌⊎◌,
}
use aegis_cpp.Common.Map.{is_some}
use aegis_cpp.Permission.{get_allow_perms}
use aegis_cpp.User.{User, GuildInfo, get_guild_info_nocreate}
use aegis_cpp.Channel.{Channel}
use aegis_cpp.Guild.{Guild, Role}
use aegis_cpp.Guild.Access.{
  get_role, add_roles, all_ones, is_admin_mask, base_permissions, compute_overwrites,
  get_permissions,
}

-- Whether the cache holds every role of a list.
unfoldable pub known : Guild → List ℕ → Bool
known g [] = true
known g (rl ∷ rls) = is_some (get_role g rl) && known g rls

abbrev role_bit : ℕ → Option Role → Bool
role_bit i none = false
role_bit i (some r) = test_bit (get_allow_perms r.permission) i

-- Whether some role of a list gives permission i.
unfoldable pub any_grant : ℕ → Guild → List ℕ → Bool
any_grant i g [] = false
any_grant i g (rl ∷ rls) = role_bit i (get_role g rl) || any_grant i g rls

-- Permission i as the role of everyone and the member's roles give it together.
abbrev pub given : ℕ → Guild → Role → List ℕ → Bool
given i g everyone rls = test_bit (get_allow_perms everyone.permission) i || any_grant i g rls

pub is_admin_mask_lem : (p : ℕ) → is_admin_mask p ≡ test_bit p 3
is_admin_mask_lem p = rw (test_bit_value 3 p) (ground (arith, bit_and_field 1 3 p))

add_roles-known :
    (g : Guild) (p : ℕ) (rls : List ℕ)
    → known g rls ≡ true
    → (q : ℕ) × (add_roles g p rls ≡ some q)
      × ((i : ℕ) → test_bit q i ≡ (test_bit p i || any_grant i g rls))
unfolding known add_roles any_grant
add_roles-known g p [] h = (p, refl, λ i. ground arith)
add_roles-known g p (rl ∷ rls) h = elim (Option-cases (get_role g rl)) [
  | inl e ↦ absurd (unknown (rw e at h))
  | inr (r, e) ↦
      let (q, done, bits) =
        add_roles-known g (bit_or p (get_allow_perms r.permission)) rls (rest e h) in
      (q, rw e done, λ i. rw e (bits i ∙ joined i r))
]
  where
    unknown : (is_some {A = Role} none && known g rls) ≡ true → ⊥
    unknown k = cc

    rest :
        {r : Role}
        → get_role g rl ≡ some r
        → (is_some (get_role g rl) && known g rls) ≡ true
        → known g rls ≡ true
    rest e k = ground arith

    joined :
        (i : ℕ) (r : Role)
        → (test_bit (bit_or p (get_allow_perms r.permission)) i || any_grant i g rls)
          ≡ (test_bit p i || (test_bit (get_allow_perms r.permission) i || any_grant i g rls))
    joined i r = ground (arith, test_bit-bit_or p (get_allow_perms r.permission) i)

add_roles_unknown :
    (g : Guild) (p : ℕ) (rls : List ℕ) → known g rls ≡ false → add_roles g p rls ≡ none
unfolding known add_roles
add_roles_unknown g p [] h = cc
add_roles_unknown g p (rl ∷ rls) h = elim (Option-cases (get_role g rl)) [
  | inl e ↦ rw e
  | inr (r, e) ↦
      rw e (add_roles_unknown g (bit_or p (get_allow_perms r.permission)) rls (ground arith))
]

admin_or :
    (q i : ℕ) {a b : Bool}
    → i < 64
    → test_bit q 3 ≡ a
    → test_bit q i ≡ b
    → test_bit (if test_bit q 3 then all_ones else q) i ≡ (a || b)
admin_or q i {a} {b} hi ha hb = elim (Bool-cases a) [
  | inl e ↦ rw (ha, e) (test_bit-ones 64 i hi)
  | inr e ↦ rw (ha, e) hb
]

module _ (g : Guild) (u : User) (everyone : Role) (info : GuildInfo)
    (member : (g.owner_id == u.member_id) ≡ false) (base : get_role g g.guild_id ≡ some everyone)
    (there : get_guild_info_nocreate u g.guild_id ≡ some info) where
  -- For a member who is not the owner, has data for the guild and has only roles that the cache
  -- holds, where the cache holds the role of everyone too: the base permissions hold one of the 64
  -- permissions exactly when the role of everyone or a role of the member gives it or gives the
  -- administrator flag.
  pub base_permissions-bits :
      (i : ℕ)
      → known g info.roles ≡ true
      → i < 64
      → test_bit (base_permissions g u) i
        ≡ (given 3 g everyone info.roles || given i g everyone info.roles)
  unfolding base_permissions
  base_permissions-bits i all hi =
      let (q, done, bits) =
        add_roles-known g (get_allow_perms everyone.permission) info.roles all in
      rw (member, base, there, done, is_admin_mask_lem q) (admin_or q i hi (bits 3) (bits i))

  -- Under the same conditions but with a role that the cache does not hold, the base permissions
  -- are 0, whatever the other roles give.
  pub base_permissions_unknown : known g info.roles ≡ false → base_permissions g u ≡ 0
  unfolding base_permissions
  base_permissions_unknown h =
      rw (
        member,
        base,
        there,
        add_roles_unknown g (get_allow_perms everyone.permission) info.roles h,
      )

base_permissions-owner :
    (g : Guild) (u : User) → g.owner_id ≡ u.member_id → base_permissions g u ≡ all_ones
unfolding base_permissions
base_permissions-owner g u owner = rw ((==_iff g.owner_id u.member_id).1 owner)

-- The owner of the guild, and a member whose base permissions hold the administrator flag, have
-- all 64 permissions in every channel, whatever the channel's overwrites say.
pub get_permissions-all_ones :
    (g : Guild) (u : User) (c : Channel)
    → (g.owner_id ≡ u.member_id) ⊎ (test_bit (base_permissions g u) 3 ≡ true)
    → get_permissions g (some u) (some c) ≡ all_ones
unfolding get_permissions compute_overwrites
get_permissions-all_ones g u c (inl owner) = rw (base_permissions-owner g u owner)
get_permissions-all_ones g u c (inr admin) = rw (is_admin_mask_lem (base_permissions g u), admin)
