-- ===== src/Cache/Lookups.antt =====
-- What is found and what is stored behind the functions on a cache of include/aegis/impl/core.cpp.
use aegis_cpp.Common.{
  ℕ, Bool, ◌==◌, ◌≡◌, refl, true, false, sym, ap, ◌∙◌, ==_iff, some_eq, Option, none, some,
  if◌then◌else◌, Bool-cases, Option-cases, inl, inr, arith,
}
use mathlib.Core.Option.{none-ne-some}
use aegis_cpp.Common.Map.{Map, lookup, assign, is_some, lookup-assign}
use aegis_cpp.Cache.{Cache, find, create, remove, object}
use aegis_cpp.Cache.Pointers.{find-create, find-remove, object-remove}

pub same_number : (j k : ℕ) → (j == k) ≡ true → j ≡ k
same_number j k h = (==_iff j k).0 h

module _ {ℓ} {V : Type ℓ} where
  pub stored : (p : ℕ) (v : V) (m : Map V) → lookup p (assign p v m) ≡ some v
  stored p v m = lookup-assign p p v m ∙ ground arith

  pub stored_other :
      (p q : ℕ) (v : V) (m : Map V) → (p == q) ≡ false → lookup q (assign p v m) ≡ lookup q m
  stored_other p q v m h = lookup-assign p q v m ∙ ground (arith, h)

  pub found_new :
      (id j p : ℕ) (v : V) (c : Cache V)
      → (id == j) ≡ true
      → find j (create id v c).1 ≡ some p
      → (create id v c).0 ≡ p
  found_new id j p v c f h = some_eq (
      sym (ap (λ b. if b then some (create id v c).0 else find j c) f)
      ∙ sym (find-create id j v c)
      ∙ h)

  pub found_old :
      (id j p : ℕ) (v : V) (c : Cache V)
      → (id == j) ≡ false
      → find j (create id v c).1 ≡ some p
      → find j c ≡ some p
  found_old id j p v c f h =
      sym (ap (λ b. if b then some (create id v c).0 else find j c) f)
      ∙ sym (find-create id j v c)
      ∙ h

  unfoldable pub guarded : ℕ → ℕ → Cache V → Option ℕ → Option V
  guarded p q c o = if is_some o then if p == q then none else object q c else object q c

  unguarded :
      (p q : ℕ) (x : V) (c : Cache V) (o : Option ℕ)
      → guarded p q c o ≡ some x
      → object q c ≡ some x
  unfolding guarded
  unguarded p q x c none h = h
  unguarded p q x c (some a) h = elim (Bool-cases (p == q)) [
    | inl f ↦ absurd (none-ne-some x (rw f at h))
    | inr f ↦ rw f at h
  ]

  pub guarded_other :
      (p q : ℕ) (c : Cache V) (o : Option ℕ) → (p == q) ≡ false → guarded p q c o ≡ object q c
  unfolding guarded
  guarded_other p q c none f = refl
  guarded_other p q c (some a) f = rw f refl

  -- What is left behind `remove` was there before.
  pub object-remove_old :
      (id q : ℕ) (x : V) (c : Cache V) → object q (remove id c) ≡ some x → object q c ≡ some x
  unfolding guarded
  object-remove_old id q x c h = elim (Option-cases (find id c)) [
    | inl e ↦ rw (e, remove) at h
    | inr (p, e) ↦ unguarded p q x c (lookup id c.stale) (sym (object-remove id p q c e) ∙ h)
  ]

  pub found_other :
      (id j p : ℕ) (c : Cache V)
      → find j (remove id c) ≡ some p
      → ((id == j) ≡ false) × (find j c ≡ some p)
  found_other id j p c h = elim (Bool-cases (id == j)) [
    | inl f ↦ absurd (none-ne-some p (sym (guard true f) ∙ sym (find-remove id j c) ∙ h))
    | inr f ↦ (f, sym (guard false f) ∙ sym (find-remove id j c) ∙ h)
  ]
    where
      guard :
          (b : Bool)
          → (id == j) ≡ b
          → (if id == j then none else find j c) ≡ (if b then none else find j c)
      guard b f = ap (λ x. if x then none else find j c) f

  pub find-create_same :
      (id : ℕ) (v : V) (c : Cache V) → find id (create id v c).1 ≡ some (create id v c).0
  find-create_same id v c = find-create id id v c ∙ ground arith
