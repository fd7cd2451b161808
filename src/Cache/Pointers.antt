-- ===== src/Cache/Pointers.antt =====
-- What the functions of include/aegis/impl/core.cpp on the caches promise of the pointers that they
-- hand out.
use aegis_cpp.Common.{
  ℕ, ◌==◌, ◌<◌, ◌≡◌, refl, true, sym, ap, ◌∙◌, ==_iff, Option, none, some, if◌then◌else◌,
  Bool-cases, Option-cases, inl, inr, arith,
}
use aegis_cpp.Common.Map.{
  Map, lookup, emplace, is_some, lookup-erase, lookup-assign, lookup-emplace,
}
use aegis_cpp.Cache.{Cache, find, create, remove, object}

same : (id k : ℕ) (m : Map ℕ) → (id == k) ≡ true → lookup k m ≡ lookup id m
same id k m h = ap (λ x. lookup x m) (sym ((==_iff id k).0 h))

emplaced :
    (id k p : ℕ) (m : Map ℕ)
    → lookup id m ≡ none
    → lookup k (emplace id p m) ≡ (if id == k then some p else lookup k m)
emplaced id k p m e = elim (Bool-cases (id == k)) [
  | inl f ↦ rw (lookup-emplace id k p m, f, same id k m f, e) refl
  | inr f ↦ rw (lookup-emplace id k p m, f) (keeps (lookup k m))
]
  where
    keeps : (o : Option ℕ) → (if is_some o then o else none) ≡ o
    keeps none = refl
    keeps (some x) = refl

module _ {ℓ} {V : Type ℓ} where
  -- `create` for id returns an address under which id is found afterwards; what other identifiers
  -- find is as before.
  pub find-create :
      (id k : ℕ) (v : V) (c : Cache V)
      → find k (create id v c).1 ≡ (if id == k then some (create id v c).0 else find k c)
  find-create id k v c = elim (Option-cases (lookup id c.live)) [
    | inl e ↦ rw (e, create) (emplaced id k c.fresh c.live e)
    | inr (p, e) ↦
        rw (e, create)
          (elim (Bool-cases (id == k)) [
            | inl f ↦ rw f (same id k c.live f ∙ e)
            | inr f ↦ rw f refl
          ])
  ]

  -- Whatever `create` does, an object that is there stays where it is, with its contents.
  pub object-create :
      (id p : ℕ) (v : V) (c : Cache V) → p < c.fresh → object p (create id v c).1 ≡ object p c
  object-create id p v c h = elim (Option-cases (lookup id c.live)) [
    | inl e ↦ rw (e, create, lookup-assign c.fresh p v c.objects) (ground (arith, h))
    | inr (q, e) ↦ rw (e, create) refl
  ]

  pub find-remove :
      (id k : ℕ) (c : Cache V) → find k (remove id c) ≡ (if id == k then none else find k c)
  find-remove id k c = elim (Option-cases (lookup id c.live)) [
    | inl e ↦
        rw (e, remove)
          (elim (Bool-cases (id == k)) [
            | inl f ↦ rw f (same id k c.live f ∙ e)
            | inr f ↦ rw f refl
          ])
    | inr (q, e) ↦ rw (e, remove) (lookup-erase id k c.live)
  ]

  -- Behind `remove` for id, the object that id found is there, as before, exactly if no object of the
  -- same identifier was removed before; otherwise the pointer dangles. Other objects stay.
  pub object-remove :
      (id p q : ℕ) (c : Cache V)
      → find id c ≡ some p
      → object q (remove id c)
        ≡ (if is_some (lookup id c.stale) then if p == q then none else object q c else object q c)
  object-remove id p q c e =
      rw (e, remove)
        (elim (Bool-cases (is_some (lookup id c.stale))) [
          | inl f ↦ rw f (lookup-erase p q c.objects)
          | inr f ↦ rw f refl
        ])
