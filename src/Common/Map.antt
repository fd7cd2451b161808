-- ===== src/Common/Map.antt =====
-- `std::unordered_map` with integer keys as an association list. The order of the entries stands
-- for the unspecified order of iteration, so that what holds for every list holds for every order.
use Prim.Native.Nat.{ℕ}
use mathlib.Core.Path.{◌≡◌}
use mathlib.Core.Bool.{Bool, true, false}
use mathlib.Core.List.{List, [], ◌∷◌}
use mathlib.Core.Option.{Option, none, some}
use native.Mathlib.Omega.{arith}
use aegis_cpp.Common.Tests.{◌==◌, if◌then◌else◌, Bool-cases}
use aegis_cpp.Common.Lists.{All}
use mathlib.Core.Logic.{inl, inr}

abbrev pub Map {ℓ} : Type ℓ → Type ℓ
Map V = List (ℕ × V)

abbrev pub is_some {ℓ} : {A : Type ℓ} → Option A → Bool
is_some none = false
is_some (some a) = true

abbrev pub AllOption {ℓ κ} : {A : Type ℓ} → (A → Type κ) → Option A → Type κ
AllOption P none = Unit
AllOption P (some a) = P a

module _ {ℓ} {V : Type ℓ} where
  unfoldable pub lookup : ℕ → Map V → Option V
  lookup k [] = none
  lookup k ((j, v) ∷ m) = if j == k then some v else lookup k m

  -- `erase(key)`
  unfoldable pub erase : ℕ → Map V → Map V
  erase k [] = []
  erase k ((j, v) ∷ m) = if j == k then erase k m else (j, v) ∷ erase k m

  -- `map[key] = value`
  unfoldable pub assign : ℕ → V → Map V → Map V
  unfolding erase
  assign k v m = (k, v) ∷ erase k m

  -- `emplace(key, value)`, which leaves an entry that is there.
  unfoldable pub emplace : ℕ → V → Map V → Map V
  unfolding lookup
  emplace k v m = if is_some (lookup k m) then m else (k, v) ∷ m

  pub lookup-erase :
      (k j : ℕ) (m : Map V) → lookup j (erase k m) ≡ (if k == j then none else lookup j m)
  unfolding lookup erase
  lookup-erase k j [] = ground arith
  lookup-erase k j ((i, v) ∷ m) = ground (arith, lookup-erase k j m)

  pub lookup-assign :
      (k j : ℕ) (v : V) (m : Map V)
      → lookup j (assign k v m) ≡ (if k == j then some v else lookup j m)
  unfolding lookup assign
  lookup-assign k j v m = ground (arith, lookup-erase k j m)

  pub lookup-emplace :
      (k j : ℕ) (v : V) (m : Map V)
      → lookup j (emplace k v m)
        ≡ (if is_some (lookup j m) then lookup j m else if k == j then some v else none)
  unfolding lookup emplace
  lookup-emplace k j v m = ground arith

  -- A statement about the values of a map holds of what is looked up.
  pub lookup-All {κ} :
      (P : V → Type κ) (k : ℕ) (m : Map V) → All (λ e. P e.1) m → AllOption P (lookup k m)
  unfolding lookup
  lookup-All P k [] h = tt
  lookup-All P k ((j, v) ∷ m) h = elim (Bool-cases (j == k)) [
    | inl e ↦ rw e h.0
    | inr e ↦ rw e (lookup-All P k m h.1)
  ]
