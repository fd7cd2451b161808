-- ===== src/Guild/Access/Precedence.antt =====
-- The order in which the overwrites of a channel count, one permission at a time: the member's own
-- overwrite before those of the roles, these before that of everyone, and that before the base.
use aegis_cpp.Common.{
  ℕ, ◌^◌, ◌<◌, ◌≡◌, refl, ap, ◌∙◌, Bool, true, false, ◌||◌, ◌==◌, List, [], ◌∷◌, Option, none, some,
  arith, if◌then◌else◌, bit_and, complement, test_bit, test_bit-bit_and, test_bit-bit_or,
  test_bit-complement, test_bit-zero, bit_or-lt, All, Option-cases, inl, inr,
}
use aegis_cpp.Common.Map.{Map, lookup, AllOption, lookup-All}
use aegis_cpp.User.{User, GuildInfo, get_guild_info_nocreate}
use aegis_cpp.Channel.{Channel, PermissionOverwrite}
use aegis_cpp.Guild.{Guild}
use aegis_cpp.Guild.Access.{
  apply_overwrite, overwrite_with, collect, Masks, role_masks, no_masks, is_admin_mask,
  compute_overwrites,
}

-- What a level of overwrites says of one permission.
pub data Verdict : Type 0 where
  grants refuses silent : Verdict

-- To allow counts before to deny.
abbrev pub verdict : Bool → Bool → Verdict
verdict true deny = grants
verdict false true = refuses
verdict false false = silent

-- A level that says nothing leaves what the levels below it say.
abbrev pub settle : Verdict → Bool → Bool
settle grants below = true
settle refuses below = false
settle silent below = below

abbrev pub of_overwrite : ℕ → Option PermissionOverwrite → Verdict
of_overwrite i none = silent
of_overwrite i (some o) = verdict (test_bit o.allow i) (test_bit o.deny i)

abbrev pub holds : (PermissionOverwrite → Bool) → Option PermissionOverwrite → Bool
holds p none = false
holds p (some o) = p o

-- Whether some role of the list, other than that of everyone, has an overwrite that passes a test.
unfoldable pub any_role : (PermissionOverwrite → Bool) → ℕ → Map PermissionOverwrite → List ℕ → Bool
any_role p guild overwrites [] = false
any_role p guild overwrites (rl ∷ rls) =
    (if rl == guild then false else holds p (lookup rl overwrites))
    || any_role p guild overwrites rls

abbrev pub of_roles : ℕ → ℕ → Map PermissionOverwrite → List ℕ → Verdict
of_roles i guild overwrites rls =
    verdict (any_role (λ o. test_bit o.allow i) guild overwrites rls)
      (any_role (λ o. test_bit o.deny i) guild overwrites rls)

-- The masks of an overwrite are 64-bit words.
abbrev pub IsWord : PermissionOverwrite → Type 0
IsWord o = (o.allow < 2 ^ 64) × (o.deny < 2 ^ 64)

abbrev pub AreWords : Map PermissionOverwrite → Type 0
AreWords overwrites = All (λ e. IsWord e.1) overwrites

module _ (i : ℕ) (hi : i < 64) where
  test_bit-apply_overwrite :
      (p deny allow : ℕ)
      → deny < 2 ^ 64
      → test_bit (apply_overwrite p deny allow) i
        ≡ settle (verdict (test_bit allow i) (test_bit deny i)) (test_bit p i)
  test_bit-apply_overwrite p deny allow h =
      rw
        (
          test_bit-bit_or (bit_and p (complement 64 deny)) allow i,
          test_bit-bit_and p (complement 64 deny) i,
          test_bit-complement 64 deny i h hi,
        )
        (ground arith)

  overwrite_with_lem :
      (o : Option PermissionOverwrite) (p : ℕ)
      → AllOption IsWord o
      → test_bit (overwrite_with o p) i ≡ settle (of_overwrite i o) (test_bit p i)
  overwrite_with_lem none p h = refl
  overwrite_with_lem (some o) p h = test_bit-apply_overwrite p o.deny o.allow h.1

-- One round of the loop over the roles.
abbrev round : ℕ → Map PermissionOverwrite → Masks → ℕ → Masks
round guild overwrites m rl = if rl == guild then m else collect (lookup rl overwrites) m

abbrev role_holds : (PermissionOverwrite → Bool) → ℕ → Map PermissionOverwrite → ℕ → Bool
role_holds p guild overwrites rl = if rl == guild then false else holds p (lookup rl overwrites)

module _ (guild : ℕ) (overwrites : Map PermissionOverwrite) where
  round-allow :
      (i : ℕ) (m : Masks) (rl : ℕ)
      → test_bit (round guild overwrites m rl).allow i
        ≡ (test_bit m.allow i || role_holds (λ o. test_bit o.allow i) guild overwrites rl)
  round-allow i m rl = elim (Option-cases (lookup rl overwrites)) [
    | inl e ↦ rw e (ground arith)
    | inr (o, e) ↦ rw e (ground (arith, test_bit-bit_or m.allow o.allow i))
  ]

  round-deny :
      (i : ℕ) (m : Masks) (rl : ℕ)
      → test_bit (round guild overwrites m rl).deny i
        ≡ (test_bit m.deny i || role_holds (λ o. test_bit o.deny i) guild overwrites rl)
  round-deny i m rl = elim (Option-cases (lookup rl overwrites)) [
    | inl e ↦ rw e (ground arith)
    | inr (o, e) ↦ rw e (ground (arith, test_bit-bit_or m.deny o.deny i))
  ]

  role_masks-allow :
      (i : ℕ) (m : Masks) (rls : List ℕ)
      → test_bit (role_masks guild overwrites m rls).allow i
        ≡ (test_bit m.allow i || any_role (λ o. test_bit o.allow i) guild overwrites rls)
  unfolding role_masks any_role
  role_masks-allow i m [] = ground arith
  role_masks-allow i m (rl ∷ rls) =
      role_masks-allow i (round guild overwrites m rl) rls
      ∙ ap (λ b. b || any_role (λ o. test_bit o.allow i) guild overwrites rls) (round-allow i m rl)
      ∙ ground arith

  role_masks-deny :
      (i : ℕ) (m : Masks) (rls : List ℕ)
      → test_bit (role_masks guild overwrites m rls).deny i
        ≡ (test_bit m.deny i || any_role (λ o. test_bit o.deny i) guild overwrites rls)
  unfolding role_masks any_role
  role_masks-deny i m [] = ground arith
  role_masks-deny i m (rl ∷ rls) =
      role_masks-deny i (round guild overwrites m rl) rls
      ∙ ap (λ b. b || any_role (λ o. test_bit o.deny i) guild overwrites rls) (round-deny i m rl)
      ∙ ground arith

module _ (guild : ℕ) (overwrites : Map PermissionOverwrite) (words : AreWords overwrites) where
  round-deny-lt :
      (m : Masks) (rl : ℕ) → m.deny < 2 ^ 64 → (round guild overwrites m rl).deny < 2 ^ 64
  round-deny-lt m rl h =
      combine (lookup rl overwrites) (rl == guild) (lookup-All IsWord rl overwrites words)
    where
      combine :
          (o : Option PermissionOverwrite) (b : Bool)
          → AllOption IsWord o
          → (if b then m else collect o m).deny < 2 ^ 64
      combine none true w = h
      combine none false w = h
      combine (some o) true w = h
      combine (some o) false w = bit_or-lt 64 m.deny o.deny h w.1

  role_masks-deny-lt :
      (m : Masks) (rls : List ℕ)
      → m.deny < 2 ^ 64
      → (role_masks guild overwrites m rls).deny < 2 ^ 64
  unfolding role_masks
  role_masks-deny-lt m [] h = h
  role_masks-deny-lt m (rl ∷ rls) h =
      role_masks-deny-lt (round guild overwrites m rl) rls (round-deny-lt m rl h)

  roles_level :
      (i p : ℕ) (rls : List ℕ)
      → i < 64
      → let m = role_masks guild overwrites no_masks rls in
        test_bit (apply_overwrite p m.deny m.allow) i
        ≡ settle (of_roles i guild overwrites rls) (test_bit p i)
  roles_level i p rls hi = rw (
    test_bit-apply_overwrite i hi p (role_masks guild overwrites no_masks rls).deny _
        (role_masks-deny-lt no_masks rls (omega arith)),
    role_masks-allow guild overwrites i no_masks rls,
    role_masks-deny guild overwrites i no_masks rls,
    test_bit-zero i,
  )

-- For a member with data for the guild, and base permissions without the administrator flag, each
-- of the 64 permissions in a channel is settled by the first level that allows or denies it: the
-- overwrite of the member, those of the member's roles together, that of everyone, and at last the
-- base permissions. Within one level to allow counts before to deny.
pub compute_overwrites-settle :
    (g : Guild) (base : ℕ) (u : User) (c : Channel) (info : GuildInfo) (i : ℕ)
    → is_admin_mask base ≡ false
    → get_guild_info_nocreate u g.guild_id ≡ some info
    → AreWords c.overrides
    → i < 64
    → test_bit (compute_overwrites g base u c) i
      ≡ settle (of_overwrite i (lookup u.member_id c.overrides)) (
          settle
            (of_roles i g.guild_id c.overrides info.roles)
            (settle (of_overwrite i (lookup g.guild_id c.overrides)) (test_bit base i)))
unfolding compute_overwrites
compute_overwrites-settle g base u c info i plain there words hi =
    rw (plain, there)
      (overwrite_with_lem i hi (lookup u.member_id c.overrides) _
          (lookup-All IsWord u.member_id c.overrides words)
        ∙ ap (settle (of_overwrite i (lookup u.member_id c.overrides))) (
            roles_level g.guild_id c.overrides words i _ info.roles hi
            ∙ ap (settle (of_roles i g.guild_id c.overrides info.roles)) (
                overwrite_with_lem i hi (lookup g.guild_id c.overrides) base
                  (lookup-All IsWord g.guild_id c.overrides words))))
