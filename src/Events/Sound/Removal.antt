-- ===== src/Events/Sound/Removal.antt =====
-- What `_remove_member` and `_remove_role` of include/aegis/impl/guild.cpp keep of the users and of the members
-- of the guilds.
use aegis_cpp.Common.{
  ℕ, ◌==◌, ◌≡◌, refl, true, false, sym, ap, subst, ◌∙◌, List, [], ◌∷◌, Option, none, some, some_eq,
  All, All-map, Bool-cases, Option-cases, inl, inr, ◌⊎◌, arith,
}
use mathlib.Core.Option.{none-ne-some}
use aegis_cpp.Common.Map.{Map, lookup, assign, erase, is_some, AllOption}
use aegis_cpp.User.{User, GuildInfo, find_info}
use aegis_cpp.Guild.{Guild}
use aegis_cpp.Cache.{Cache, Caches, object, find_guild}
use aegis_cpp.Cache.Lookups.{same_number, stored, stored_other}
use aegis_cpp.Cache.Sound.{IsCache, store-IsCache, store-Each}
use aegis_cpp.Members.{
  find_member, remove_member, leave, erase_info, visit_member, visit_members, remove_role,
}
use aegis_cpp.Members.Leaving.{SameElsewhere, erase_info-SameElsewhere, erase_info_returns}
use aegis_cpp.Events.{put_guild, put_users}
use aegis_cpp.Events.Sound.{
  HasData, AreMembers, IsSound, Keeps, Keeps-AreMembers, assign-Keeps, users-IsSound,
  put_guild-IsSound,
}
use aegis_cpp.Events.Sound.Members.{get_guild_info-IsUpdate}

-- The user at p loses nothing but its data for a guild.
abbrev Leaves : ℕ → User → User → Type 0
Leaves guild u w = (w.member_id ≡ u.member_id) × SameElsewhere guild u.guilds w.guilds

distinct : (m k : ℕ) → (m == k) ≡ false → m ≡ k → ⊥
distinct m k e f = ground (arith, e, f)

-- What stays is the data for another guild, or of another member.
assign-HasData :
    (guild m g k p q : ℕ) (u w : User) (us : Map User)
    → lookup p us ≡ some u
    → u.member_id ≡ m
    → Leaves guild u w
    → ((guild == g) ≡ false) ⊎ ((m == k) ≡ false)
    → HasData g k q us
    → HasData g k q (assign p w us)
assign-HasData guild m g k p q u w us at i (same, kept) other (x, o, ix, d) =
    elim (Bool-cases (p == q)) [
      | inl f ↦
          let n = same_number p q f in
          let old = some_eq (sym at ∙ ap (λ r. lookup r us) n ∙ o) in
          (
            w,
            subst (λ r. lookup r (assign p w us) ≡ some w) n (stored p w us),
            same ∙ ap User.member_id old ∙ ix,
            elim other [
              | inl e ↦
                  ap is_some (kept g e)
                  ∙ subst (λ y. is_some (find_info g y.guilds) ≡ true) (sym old) d
              | inr e ↦ absurd (distinct m k e (sym i ∙ ap User.member_id old ∙ ix))
            ],
          )
      | inr f ↦ (x, stored_other p q w us f ∙ o, ix, d)
    ]

erase-All {κ} :
    (P Q : ℕ × ℕ → Type κ) (id : ℕ) (ms : Map ℕ)
    → ((e : ℕ × ℕ) → (id == e.0) ≡ false → P e → Q e)
    → All P ms
    → All Q (erase id ms)
unfolding erase
erase-All P Q id [] f h = tt
erase-All P Q id ((k, p) ∷ ms) f h = elim (Bool-cases (k == id)) [
  | inl e ↦ rw e (erase-All P Q id ms f h.1)
  | inr e ↦ rw e (f (k, p) (flip k e) h.0, erase-All P Q id ms f h.1)
]
  where
    flip : (k : ℕ) → (k == id) ≡ false → (id == k) ≡ false
    flip k e = ground (arith, e)

pub found-All {κ} :
    (P : ℕ × ℕ → Type κ) (id p : ℕ) (ms : Map ℕ) → All P ms → lookup id ms ≡ some p → P (id, p)
unfolding lookup
found-All P id p [] h e = absurd (none-ne-some p e)
found-All P id p ((k, q) ∷ ms) h e = elim (Bool-cases (k == id)) [
  | inl f ↦
      subst (λ x. P (x, p)) (same_number k id f) (subst (λ x. P (k, x)) (some_eq (rw f at e)) h.0)
  | inr f ↦ found-All P id p ms h.1 (rw f at e)
]

-- The guilds behind a member that left the one at pg.
left-IsSound :
    (id guild_id pg p : ℕ) (c : Caches) (g : Guild) (u w : User)
    → IsSound c
    → find_guild guild_id c ≡ some pg
    → object pg c.guilds ≡ some g
    → lookup p c.users.objects ≡ some u
    → u.member_id ≡ id
    → Leaves g.guild_id u w
    → IsSound (
        put_guild pg
          (record g { members = erase id g.members })
          (put_users (assign p w c.users.objects) c))
left-IsSound id guild_id pg p c g u w (s, ch, gs, all) f guild at i gone =
    let (x, atx, key) = gs.1 guild_id pg f in
    let own = ap Guild.guild_id (some_eq (sym guild ∙ atx)) ∙ key in
    (
      store-IsCache User.member_id p u w c.users s at gone.0,
      ch,
      store-IsCache Guild.guild_id pg g (record g { members = erase id g.members }) c.guilds gs
          guild refl,
      store-Each Guild.guild_id (AreMembers (assign p w c.users.objects)) pg
          (record g { members = erase id g.members }) c.guilds
          (λ j. λ h.
            erase-All (λ e. HasData g.guild_id e.0 e.1 c.users.objects)
              (λ e. HasData g.guild_id e.0 e.1 (assign p w c.users.objects)) id g.members
              (λ e. λ n. λ d.
                assign-HasData g.guild_id id g.guild_id e.0 p e.1 u w c.users.objects at i gone
                  (inr n) d)
              (all guild_id pg g f guild))
          (λ j. λ q. λ y. λ h. λ n. λ o.
            let (z, atz, kz) = gs.1 j q h in
            let ky = ap Guild.guild_id (some_eq (sym o ∙ atz)) ∙ kz in
            All-map (λ e. HasData y.guild_id e.0 e.1 c.users.objects)
              (λ e. HasData y.guild_id e.0 e.1 (assign p w c.users.objects)) y.members
              (λ e. λ d.
                assign-HasData g.guild_id id y.guild_id e.0 p e.1 u w c.users.objects at i gone
                  (inl (other j q h n own ky)) d)
              (all j q y h o)),
    )
  where
    other :
        (j q : ℕ)
        → find_guild j c ≡ some q
        → (pg == q) ≡ false
        → {a b : ℕ} → a ≡ guild_id
        → b ≡ j
        → (a == b) ≡ false
    other j q h n {a} {b} ea eb = elim (Bool-cases (a == b)) [
      | inr e ↦ e
      | inl e ↦
          let same = sym ea ∙ same_number a b e ∙ eb in
          absurd (distinct pg q n (some_eq (sym f ∙ ap (λ x. find_guild x c) same ∙ h)))
    ]

pub remove_member-IsSound :
    (id guild_id pg : ℕ) (c : Caches) (g : Guild)
    → IsSound c
    → find_guild guild_id c ≡ some pg
    → object pg c.guilds ≡ some g
    → (r : Guild × Map User) × (remove_member id g c.users.objects ≡ some r)
      × IsSound (put_guild pg r.0 (put_users r.1 c))
unfolding remove_member leave lookup
remove_member-IsSound id guild_id pg c g s f guild = elim (Option-cases (find_member id g)) [
  | inl e ↦ (
    (g, c.users.objects),
    rw (e, remove_member) refl,
    put_guild-IsSound pg g g c s guild refl (s.3 guild_id pg g f guild),
  )
  | inr (p, e) ↦
      let (u, at, i, d) =
        found-All (λ x. HasData g.guild_id x.0 x.1 c.users.objects) id p g.members
          (s.3 guild_id pg g f guild) e in
      dropped p e u at i d
]
  where
    missing : {o : Option (List GuildInfo)} → o ≡ none → is_some o ≡ true → ⊥
    missing a b = ground (arith, rw a at b)

    dropped :
        (p : ℕ)
        → find_member id g ≡ some p
        → (u : User) → lookup p c.users.objects ≡ some u
        → u.member_id ≡ id
        → is_some (find_info g.guild_id u.guilds) ≡ true
        → (r : Guild × Map User) × (remove_member id g c.users.objects ≡ some r)
          × IsSound (put_guild pg r.0 (put_users r.1 c))
    dropped p e u at i d = elim (Option-cases (erase_info g.guild_id u.guilds)) [
      | inl h ↦ absurd (missing h (erase_info_returns g.guild_id u.guilds ∙ d))
      | inr (is, h) ↦ (
        (
          record g { members = erase id g.members },
          assign p (record u { guilds = is }) c.users.objects,
        ),
        rw (e, at, h, remove_member) refl,
        left-IsSound id guild_id pg p c g u (record u { guilds = is }) s f guild at i
            (
              refl,
              subst (AllOption (SameElsewhere g.guild_id u.guilds)) h
                  (erase_info-SameElsewhere g.guild_id u.guilds),
            ),
      )
    ]

visit_members-Keeps :
    (role guild : ℕ) (ms : Map ℕ) (c : Cache User)
    → IsCache User.member_id c
    → All (λ e. HasData guild e.0 e.1 c.objects) ms
    → (vs : Map User) × (visit_members role guild ms c.objects ≡ some vs)
      × IsCache User.member_id (record c { objects = vs })
      × Keeps c.objects vs
unfolding visit_members
visit_members-Keeps role guild [] c s h = (c.objects, refl, s, λ g. λ m. λ p. λ d. d)
visit_members-Keeps role guild ((k, p) ∷ ms) c s ((u, at, r, d), hs) =
    let w = visit_member role guild u in
    let update = get_guild_info-IsUpdate guild u in
    let kept = assign-Keeps p u w c.objects at update in
    let (vs, e, t, later) =
      visit_members-Keeps role guild ms (record c { objects = assign p w c.objects })
        (store-IsCache User.member_id p u w c s at update.0)
        (All-map (λ e. HasData guild e.0 e.1 c.objects)
          (λ e. HasData guild e.0 e.1 (assign p w c.objects)) ms (λ e. λ d. kept guild e.0 e.1 d)
          hs) in
    (vs, rw at e, t, λ g. λ m. λ q. λ d. later g m q (kept g m q d))

pub remove_role-IsSound :
    (role guild_id pg : ℕ) (c : Caches) (g : Guild)
    → IsSound c
    → find_guild guild_id c ≡ some pg
    → object pg c.guilds ≡ some g
    → (r : Guild × Map User) × (remove_role role g c.users.objects ≡ some r)
      × IsSound (put_guild pg r.0 (put_users r.1 c))
unfolding remove_role
remove_role-IsSound role guild_id pg c g s f guild =
    let members = s.3 guild_id pg g f guild in
    let (vs, e, t, kept) = visit_members-Keeps role g.guild_id g.members c.users s.0 members in
    let h = record g { roles = erase role g.roles } in
    (
      (h, vs),
      rw e refl,
      put_guild-IsSound pg g h (put_users vs c)
          (users-IsSound c (record c.users { objects = vs }) s t kept) guild refl
          (Keeps-AreMembers c.users.objects vs g kept members),
    )
