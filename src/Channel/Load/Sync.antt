-- ===== src/Channel/Load/Sync.antt =====
-- The overrides of a channel after a gateway event, against the entries of the event.
use aegis_cpp.Common.{
  ℕ, ◌^◌, ◌<◌, ◌==◌, ◌≡◌, refl, sym, ap, ◌∙◌, ◌≢◌, ◌⊎◌, ◌+◌, ◌*◌, ◌/◌, ◌%◌, subst, Bool, true,
  false, List, [], ◌∷◌, Option, none, some, if◌then◌else◌, Bool-cases, Option-cases, inl, inr,
  arith,
}
use mathlib.Core.Bool.{true≢false}
use aegis_cpp.Common.Map.{Map, lookup, assign, erase}
use aegis_cpp.Json.{snowflake_from_json}
use aegis_cpp.Common.Text.{Text, bytes, eq_text, eq_text_iff_true}
use aegis_cpp.Channel.{PermissionOverwrite, OverwriteType}
use aegis_cpp.Channel.Load.{
  OverwriteEntry, is_listed, stored, drop_deleted, store_entries, load_overrides,
}
use aegis_cpp.Channel.Load.Latest.{IsKeyed, settled, latest, same_number, lookup-latest}

-- The entry that the loop comes to last, of those whose identifier is read as k.
abbrev pub names : ℕ → Option ℕ → Bool
names k none = false
names k (some id) = id == k

unfoldable pub last_entry : ℕ → List OverwriteEntry → Option OverwriteEntry
unfolding snowflake_from_json
last_entry k [] = none
last_entry k (e ∷ es) = elim (last_entry k es) [
  | some f ↦ some f
  | none ↦ if names k (snowflake_from_json e.id 0) then some e else none
]

-- The low 32 bits of a mask.
abbrev pub IsLow : ℕ → ℕ → Type 0
IsLow low mask = (low < 2 ^ 32) × ((q : ℕ) × (mask ≡ q * 2 ^ 32 + low))

-- The type is that of a role exactly for the text "role".
abbrev pub IsKind : Text → OverwriteType → Type 0
IsKind t k =
    ((t ≡ bytes "role") × (k ≡ OverwriteType.role))
    ⊎ ((t ≢ bytes "role") × (k ≡ OverwriteType.user))

abbrev pub IsOverrideOf : ℕ → Option OverwriteEntry → Option PermissionOverwrite → Type 0
IsOverrideOf k none o = o ≡ none
IsOverrideOf k (some e) o =
    (v : PermissionOverwrite) × (o ≡ some v)
    × (v.id ≡ k)
    × IsLow v.allow e.allow
    × IsLow v.deny e.deny
    × IsKind e.type v.type

mod-IsLow : (x : ℕ) → IsLow (x % 2 ^ 32) x
mod-IsLow x = (omega arith, (x / 2 ^ 32, omega arith))

eq_text-IsKind :
    (t : Text)
    → IsKind t (if eq_text t (bytes "role") then OverwriteType.role else OverwriteType.user)
eq_text-IsKind t = elim (Bool-cases (eq_text t (bytes "role"))) [
  | inl e ↦ rw e (inl (eq_text_iff_true t (bytes "role") e, refl))
  | inr e ↦ rw e (inr (λ h. true≢false (sym (ap (λ s. eq_text s (bytes "role")) h) ∙ e), refl))
]

abbrev entered : ℕ → Option OverwriteEntry → Option PermissionOverwrite → Option PermissionOverwrite
entered k none o = o
entered k (some e) o = some (stored k e)

settled-entered :
    (k : ℕ) (e : OverwriteEntry) (n : Option ℕ) (o : Option PermissionOverwrite)
    → settled k e n o ≡ entered k (if names k n then some e else none) o
settled-entered k e none o = refl
settled-entered k e (some id) o = elim (Bool-cases (id == k)) [
  | inl q ↦ rw q (ap (λ x. some (stored x e)) (same_number id k q))
  | inr q ↦ rw q refl
]

latest-last_entry :
    (k : ℕ) (es : List OverwriteEntry) (o : Option PermissionOverwrite)
    → latest k es o ≡ entered k (last_entry k es) o
unfolding latest last_entry
latest-last_entry k [] o = refl
latest-last_entry k (e ∷ es) o =
    latest-last_entry k es (settled k e (snowflake_from_json e.id 0) o)
    ∙ elim (Option-cases (last_entry k es)) [
      | inl q ↦ rw (q, last_entry) (settled-entered k e (snowflake_from_json e.id 0) o)
      | inr (f, q) ↦ rw (q, last_entry) refl
    ]

latest-IsOverrideOf :
    (k : ℕ) (es : List OverwriteEntry) → IsOverrideOf k (last_entry k es) (latest k es none)
latest-IsOverrideOf k es = rw (latest-last_entry k es none) (by_entry (last_entry k es))
  where
    by_entry : (f : Option OverwriteEntry) → IsOverrideOf k f (entered k f none)
    by_entry none = refl
    by_entry (some e) =
        (stored k e, refl, refl, mod-IsLow e.allow, mod-IsLow e.deny, eq_text-IsKind e.type)

-- After a load without an exception, with overrides that stood under their identifiers, an identifier of 64 bits
-- has an override exactly if an entry has that identifier. It is that of the last such entry: its masks are
-- the low 32 bits of `allow` and of `deny`, and its type is that of a role exactly if the entry says "role".
-- What was there before does not count.
pub lookup-load_overrides :
    (k : ℕ) (es : List OverwriteEntry) (os : Map PermissionOverwrite)
    → k < 2 ^ 64
    → IsKeyed os
    → (load_overrides es os).ended ≡ true
    → IsOverrideOf k (last_entry k es) (lookup k (load_overrides es os).overrides)
lookup-load_overrides k es os b keyed h =
    subst (λ o. IsOverrideOf k (last_entry k es) o) (sym (lookup-latest k es os b keyed h))
      (latest-IsOverrideOf k es)

erase-IsKeyed : (k : ℕ) (os : Map PermissionOverwrite) → IsKeyed os → IsKeyed (erase k os)
unfolding erase
erase-IsKeyed k [] h = tt
erase-IsKeyed k ((j, o) ∷ os) h = elim (Bool-cases (j == k)) [
  | inl e ↦ rw e (erase-IsKeyed k os h.1)
  | inr e ↦ rw e (h.0, erase-IsKeyed k os h.1)
]

drop_deleted-IsKeyed :
    (es : List OverwriteEntry) (os : Map PermissionOverwrite)
    → IsKeyed os
    → IsKeyed (drop_deleted es os)
unfolding drop_deleted
drop_deleted-IsKeyed es [] h = tt
drop_deleted-IsKeyed es ((j, o) ∷ os) h = elim (Bool-cases (is_listed es o.id)) [
  | inl e ↦ rw e (h.0, drop_deleted-IsKeyed es os h.1)
  | inr e ↦ rw e (drop_deleted-IsKeyed es os h.1)
]

store_entries-IsKeyed :
    (es : List OverwriteEntry) (os : Map PermissionOverwrite)
    → IsKeyed os
    → IsKeyed (store_entries es os).overrides
unfolding store_entries assign
store_entries-IsKeyed [] os h = h
store_entries-IsKeyed (e ∷ es) os h = elim (Option-cases (snowflake_from_json e.id 0)) [
  | inl q ↦ rw (q, store_entries) h
  | inr (id, q) ↦
      rw (q, store_entries)
        (store_entries-IsKeyed es (assign id (stored id e) os) (refl, erase-IsKeyed id os h))
]

-- Each override stands under its own identifier after a load, with or without an exception, if it was so
-- before.
pub load_overrides-IsKeyed :
    (es : List OverwriteEntry) (os : Map PermissionOverwrite)
    → IsKeyed os
    → IsKeyed (load_overrides es os).overrides
unfolding load_overrides
load_overrides-IsKeyed es os h =
    store_entries-IsKeyed es (drop_deleted es os) (drop_deleted-IsKeyed es os h)
