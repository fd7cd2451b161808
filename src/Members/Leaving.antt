-- ===== src/Members/Leaving.antt =====
-- What `_remove_member` of include/aegis/impl/guild.cpp and `leave` of include/aegis/user.hpp leave of
-- the guild and of the user.
use aegis_cpp.Common.{
  ℕ, ◌==◌, ◌≡◌, refl, subst, ◌∙◌, true, false, List, [], ◌∷◌, Option, none, some, if◌then◌else◌,
  Bool-cases, Option-cases, inl, inr, arith,
}
use aegis_cpp.Common.Map.{
  Map, lookup, erase, assign, is_some, AllOption, lookup-erase, lookup-assign,
}
use aegis_cpp.User.{User, GuildInfo, find_info}
use aegis_cpp.Guild.{Guild}
use aegis_cpp.Members.{remove_member, leave, erase_info, keep, find_member}

-- The data for other guilds stays.
abbrev pub SameElsewhere : ℕ → List GuildInfo → List GuildInfo → Type 0
SameElsewhere g is js = (k : ℕ) → (g == k) ≡ false → find_info k js ≡ find_info k is

keep-SameElsewhere :
    (g : ℕ) (i : GuildInfo) (is : List GuildInfo) (o : Option (List GuildInfo))
    → AllOption (SameElsewhere g is) o
    → AllOption (SameElsewhere g (i ∷ is)) (keep i o)
unfolding find_info
keep-SameElsewhere g i is none h = tt
keep-SameElsewhere g i is (some js) h =
    λ k. λ e. elim (Bool-cases (i.id == k)) [ inl f ↦ rw f refl | inr f ↦ rw f (h k e) ]

pub erase_info-SameElsewhere :
    (g : ℕ) (is : List GuildInfo) → AllOption (SameElsewhere g is) (erase_info g is)
unfolding erase_info find_info
erase_info-SameElsewhere g [] = tt
erase_info-SameElsewhere g (i ∷ is) = elim (Bool-cases (i.id == g)) [
  | inl e ↦ rw e (λ k. λ f. rw (other k e f) refl)
  | inr e ↦ rw e (keep-SameElsewhere g i is (erase_info g is) (erase_info-SameElsewhere g is))
]
  where
    other : (k : ℕ) → (i.id == g) ≡ true → (g == k) ≡ false → (i.id == k) ≡ false
    other k e f = ground (arith, e, f)

pub erase_info_returns :
    (g : ℕ) (is : List GuildInfo) → is_some (erase_info g is) ≡ is_some (find_info g is)
unfolding erase_info find_info
erase_info_returns g [] = refl
erase_info_returns g (i ∷ is) = elim (Bool-cases (i.id == g)) [
  | inl e ↦ rw e refl
  | inr e ↦ rw e (kept (erase_info g is) ∙ erase_info_returns g is)
]
  where
    kept : (o : Option (List GuildInfo)) → is_some (keep i o) ≡ is_some o
    kept none = refl
    kept (some x) = refl

-- For a member at p that has data for the guild, `_remove_member` returns. Then the guild has exactly
-- its other members (k stands for any of them), and the user keeps its data for any other guild j.
pub remove_member-find :
    (id p k j : ℕ) (g : Guild) (users : Map User) (u : User)
    → lookup id g.members ≡ some p
    → lookup p users ≡ some u
    → is_some (find_info g.guild_id u.guilds) ≡ true
    → (g.guild_id == j) ≡ false
    → (r : Guild × Map User) × (remove_member id g users ≡ some r)
      × (find_member k r.0 ≡ (if id == k then none else find_member k g))
      × ((v : User) × (lookup p r.1 ≡ some v) × (find_info j v.guilds ≡ find_info j u.guilds))
unfolding remove_member leave
remove_member-find id p k j g users u m e h other =
    elim (Option-cases (erase_info g.guild_id u.guilds)) [
      | inl f ↦ absurd (missing f (erase_info_returns g.guild_id u.guilds ∙ h))
      | inr (is, f) ↦ (
        (record g { members = erase id g.members }, assign p (record u { guilds = is }) users),
        rw (m, e, f, remove_member) refl,
        lookup-erase id k g.members,
        (
          record u { guilds = is },
          lookup-assign p p (record u { guilds = is }) users ∙ ground arith,
          subst (AllOption (SameElsewhere g.guild_id u.guilds)) f
              (erase_info-SameElsewhere g.guild_id u.guilds) j other,
        ),
      )
    ]
  where
    missing : {o : Option (List GuildInfo)} → o ≡ none → is_some o ≡ true → ⊥
    missing a b = ground (arith, rw a at b)
