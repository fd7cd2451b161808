-- ===== src/Cache/Sound.antt =====
-- A cache of include/aegis/impl/core.cpp whose pointers lead to the objects of their identifiers, and what the
-- functions on the caches keep of that.
use aegis_cpp.Common.{
  ℕ, suc, ◌==◌, ◌<◌, ◌≡◌, refl, false, sym, ap, subst, ◌∙◌, some_eq, none, some, Bool-cases,
  Option-cases, inl, inr, arith,
}
use aegis_cpp.Common.Map.{lookup, assign}
use aegis_cpp.Cache.{Cache, find, create, remove, object}
use aegis_cpp.Cache.Pointers.{object-create, object-remove}
use aegis_cpp.Cache.Lookups.{
  same_number, stored, stored_other, found_new, found_old, found_other, guarded, guarded_other,
  object-remove_old,
}

module _ {ℓ} {V : Type ℓ} (key : V → ℕ) where
  -- The object behind an address has the identifier.
  abbrev pub IsAt : ℕ → ℕ → Cache V → Type ℓ
  IsAt id p c = (v : V) × (object p c ≡ some v) × (key v ≡ id)

  -- A new address is not one of an object.
  abbrev pub IsBounded : Cache V → Type ℓ
  IsBounded c = (p : ℕ) (v : V) → object p c ≡ some v → p < c.fresh

  abbrev pub IsCache : Cache V → Type ℓ
  IsCache c = IsBounded c × ((id p : ℕ) → find id c ≡ some p → IsAt id p c)

  pub object-create_kept :
      (id p : ℕ) (v w : V) (c : Cache V)
      → IsBounded c
      → object p c ≡ some w
      → object p (create id v c).1 ≡ some w
  object-create_kept id p v w c b e = object-create id p v c (b p w e) ∙ e

  create-IsBounded : (id : ℕ) (v : V) (c : Cache V) → IsBounded c → IsBounded (create id v c).1
  create-IsBounded id v c b p w = elim (Option-cases (find id c)) [
    | inl e ↦
        rw (e, create)
          (λ h. elim (Bool-cases (c.fresh == p)) [
            | inl f ↦ ground (arith, f)
            | inr f ↦ later p c.fresh (b p w (sym (stored_other c.fresh p v c.objects f) ∙ h))
          ])
    | inr (q, e) ↦ rw (e, create) (b p w)
  ]
    where
      later : (p n : ℕ) → p < n → p < suc n
      later p n h = ground (arith, h)

  pub create-IsAt :
      (id : ℕ) (v : V) (c : Cache V)
      → IsCache c
      → key v ≡ id
      → IsAt id (create id v c).0 (create id v c).1
  create-IsAt id v c s k = elim (Option-cases (find id c)) [
    | inl e ↦ rw (e, create) (v, stored c.fresh v c.objects, k)
    | inr (q, e) ↦ rw (e, create) (s.1 id q e)
  ]

  pub create-IsCache :
      (id : ℕ) (v : V) (c : Cache V) → IsCache c → key v ≡ id → IsCache (create id v c).1
  create-IsCache id v c s k = (
    create-IsBounded id v c s.0,
    λ j. λ p. λ h. elim (Bool-cases (id == j)) [
      | inl f ↦
          subst (λ q. IsAt j q (create id v c).1) (found_new id j p v c f h)
            (subst (λ i. IsAt i (create id v c).0 (create id v c).1) (same_number id j f)
              (create-IsAt id v c s k))
      | inr f ↦
          let (w, at, i) = s.1 j p (found_old id j p v c f h) in
          (w, object-create_kept id p v w c s.0 at, i)
    ],
  )

  pub store-IsCache :
      (p : ℕ) (v w : V) (c : Cache V)
      → IsCache c
      → object p c ≡ some v
      → key w ≡ key v
      → IsCache (record c { objects = assign p w c.objects })
  store-IsCache p v w c s e k = (
    λ q. λ x. λ h. elim (Bool-cases (p == q)) [
      | inl f ↦ subst (λ n. n < c.fresh) (same_number p q f) (s.0 p v e)
      | inr f ↦ s.0 q x (sym (stored_other p q w c.objects f) ∙ h)
    ],
    λ id. λ q. λ h. elim (Bool-cases (p == q)) [
      | inl f ↦
          let n = same_number p q f in
          let (x, at, i) = s.1 id q h in
          (
            w,
            subst (λ r. lookup r (assign p w c.objects) ≡ some w) n (stored p w c.objects),
            k ∙ ap key (some_eq (sym e ∙ ap (λ r. lookup r c.objects) n ∙ at)) ∙ i,
          )
      | inr f ↦ let (x, at, i) = s.1 id q h in (x, stored_other p q w c.objects f ∙ at, i)
    ],
  )

  object-remove_kept :
      (id j q : ℕ) (x : V) (c : Cache V)
      → IsCache c
      → (id == j) ≡ false
      → object q c ≡ some x
      → key x ≡ j
      → object q (remove id c) ≡ some x
  unfolding guarded
  object-remove_kept id j q x c s f h k = elim (Option-cases (find id c)) [
    | inl e ↦ rw (e, remove) h
    | inr (p, e) ↦ elim (Bool-cases (p == q)) [
      | inl g ↦
          let (y, at, i) = s.1 id p e in
          let same =
            sym i
            ∙ ap key (some_eq (sym at ∙ ap (λ r. lookup r c.objects) (same_number p q g) ∙ h))
            ∙ k in
          ground (arith, same, f)
      | inr g ↦ object-remove id p q c e ∙ guarded_other p q c (lookup id c.stale) g ∙ h
    ]
  ]

  remove_fresh : (id : ℕ) (c : Cache V) → (remove id c).fresh ≡ c.fresh
  remove_fresh id c = elim (Option-cases (find id c)) [
    | inl e ↦ rw (e, remove) refl
    | inr (p, e) ↦ rw (e, remove) refl
  ]

  pub remove-IsCache : (id : ℕ) (c : Cache V) → IsCache c → IsCache (remove id c)
  remove-IsCache id c s = (
    λ p. λ v.
        λ h. subst (λ n. p < n) (sym (remove_fresh id c)) (s.0 p v (object-remove_old id p v c h)),
    λ j. λ q. λ h.
        let (f, old) = found_other id j q c h in
        let (x, at, i) = s.1 j q old in (x, object-remove_kept id j q x c s f at i, i),
  )

  -- A property of the objects that are found.
  abbrev pub Each {κ} : (V → Type κ) → Cache V → Type (ℓ ⊔ κ)
  Each P c = (id p : ℕ) (v : V) → find id c ≡ some p → object p c ≡ some v → P v

  new_object :
      (id : ℕ) (v : V) (c : Cache V)
      → find id c ≡ none
      → object (create id v c).0 (create id v c).1 ≡ some v
  new_object id v c e = rw (e, create) (stored c.fresh v c.objects)

  pub create-Each {κ} :
      (P : V → Type κ) (id : ℕ) (v : V) (c : Cache V)
      → IsCache c
      → P v
      → Each P c
      → Each P (create id v c).1
  create-Each P id v c s pv all j q x h o = elim (Option-cases (find id c)) [
    | inr (p, e) ↦ all j q x (rw (e, create) at h) (rw (e, create) at o)
    | inl e ↦ elim (Bool-cases (id == j)) [
      | inl f ↦
          let new =
            subst (λ r. object r (create id v c).1 ≡ some v) (found_new id j q v c f h)
              (new_object id v c e) in
          subst P (some_eq (sym new ∙ o)) pv
      | inr f ↦
          let old = found_old id j q v c f h in
          let (y, at, i) = s.1 j q old in
          subst P (some_eq (sym (object-create_kept id q v y c s.0 at) ∙ o)) (all j q y old at)
    ]
  ]

  pub store-Each {κ} :
      (P : V → Type κ) (p : ℕ) (w : V) (c : Cache V)
      → ((id : ℕ) → find id c ≡ some p → P w)
      → ((id q : ℕ) (x : V) → find id c ≡ some q → (p == q) ≡ false → object q c ≡ some x → P x)
      → Each P (record c { objects = assign p w c.objects })
  store-Each P p w c here there j q x h o = elim (Bool-cases (p == q)) [
    | inl f ↦
        let n = same_number p q f in
        subst P
          (some_eq (
            sym (subst (λ r. lookup r (assign p w c.objects) ≡ some w) n (stored p w c.objects))
            ∙ o))
          (here j (subst (λ r. find j c ≡ some r) (sym n) h))
    | inr f ↦ there j q x h f (sym (stored_other p q w c.objects f) ∙ o)
  ]

  pub remove-Each {κ} : (P : V → Type κ) (id : ℕ) (c : Cache V) → Each P c → Each P (remove id c)
  remove-Each P id c all j q x h o =
      all j q x (found_other id j q c h).1 (object-remove_old id q x c o)
