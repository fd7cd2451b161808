-- ===== src/Channel/Load/Latest.antt =====
-- The loop over the entries of a gateway event, with the entries that are stored on the way.
use aegis_cpp.Common.{
  ℕ, ◌^◌, ◌<◌, ◌==◌, ◌≡◌, refl, sym, ap, ◌∙◌, true, false, List, [], ◌∷◌, Option, none, some, All,
  if◌then◌else◌, Bool-cases, Option-cases, inl, inr, arith,
}
use mathlib.Core.Bool.{true≢false}
use aegis_cpp.Common.Int.{ℤ, pos, negsuc, ◌==ℤ◌}
use aegis_cpp.Common.Map.{Map, lookup, assign, lookup-assign}
use aegis_cpp.Json.{
  Value, number, null, boolean, string, array, object, signed, snowflake_from_json, pattern_of,
}
use aegis_cpp.Channel.{PermissionOverwrite}
use aegis_cpp.Channel.Load.{
  OverwriteEntry, is_id, is_listed, stored, drop_deleted, store_entries, load_overrides,
}

-- Each override stands under its own identifier.
abbrev pub IsKeyed : Map PermissionOverwrite → Type 0
IsKeyed os = All (λ e. e.1.id ≡ e.0) os

abbrev pub settled :
    ℕ → OverwriteEntry → Option ℕ → Option PermissionOverwrite → Option PermissionOverwrite
settled k e none o = o
settled k e (some id) o = if id == k then some (stored id e) else o

-- The last entry for an identifier, or else what was there.
unfoldable pub latest :
    ℕ → List OverwriteEntry → Option PermissionOverwrite → Option PermissionOverwrite
latest k [] o = o
latest k (e ∷ es) o = latest k es (settled k e (snowflake_from_json e.id 0) o)

eq_refl : (k : ℕ) → (k == k) ≡ true
eq_refl k = ground arith

pub same_number : (j k : ℕ) → (j == k) ≡ true → j ≡ k
same_number j k h = ground arith

signed_id : (z : ℤ) (k : ℕ) → k < 2 ^ 64 → (z ==ℤ signed k) ≡ true → pattern_of z ≡ k
signed_id (pos n) k b h = ground arith
signed_id (negsuc n) k b h = ground arith

is_id-from_json :
    (v : Value) (k : ℕ) → k < 2 ^ 64 → is_id v k ≡ true → snowflake_from_json v 0 ≡ some k
unfolding snowflake_from_json
is_id-from_json (number z) k b h = ap some (signed_id z k b h)
is_id-from_json (string t) k b h = absurd (true≢false (sym h))
is_id-from_json null k b h = absurd (true≢false (sym h))
is_id-from_json (boolean c) k b h = absurd (true≢false (sym h))
is_id-from_json (array c) k b h = absurd (true≢false (sym h))
is_id-from_json (object c) k b h = absurd (true≢false (sym h))

-- An entry that has the identifier decides, whatever was there.
latest-listed :
    (k : ℕ) (es : List OverwriteEntry) (o p : Option PermissionOverwrite)
    → k < 2 ^ 64
    → is_listed es k ≡ true
    → latest k es o ≡ latest k es p
unfolding latest
latest-listed k [] o p b h = absurd (true≢false (sym h))
latest-listed k (e ∷ es) o p b h = elim (Bool-cases (is_id e.id k)) [
  | inl q ↦ rw (is_id-from_json e.id k b q, eq_refl k) refl
  | inr q ↦ latest-listed k es _ _ b (rw q at h)
]

lookup-drop_deleted :
    (k : ℕ) (es : List OverwriteEntry) (os : Map PermissionOverwrite)
    → IsKeyed os
    → is_listed es k ≡ false
    → lookup k (drop_deleted es os) ≡ none
unfolding lookup drop_deleted
lookup-drop_deleted k es [] keyed h = refl
lookup-drop_deleted k es ((j, o) ∷ os) keyed h = elim (Bool-cases (is_listed es o.id)) [
  | inl q ↦ elim (Bool-cases (j == k)) [
    | inl r ↦ absurd (true≢false (sym q ∙ ap (is_listed es) (keyed.0 ∙ same_number j k r) ∙ h))
    | inr r ↦ rw (q, r) (lookup-drop_deleted k es os keyed.1 h)
  ]
  | inr q ↦ rw q (lookup-drop_deleted k es os keyed.1 h)
]

lookup-store_entries :
    (k : ℕ) (es : List OverwriteEntry) (os : Map PermissionOverwrite)
    → (store_entries es os).ended ≡ true
    → lookup k (store_entries es os).overrides ≡ latest k es (lookup k os)
unfolding store_entries latest
lookup-store_entries k [] os h = refl
lookup-store_entries k (e ∷ es) os h = elim (Option-cases (snowflake_from_json e.id 0)) [
  | inl q ↦ absurd (true≢false (sym (rw (q, store_entries) at h)))
  | inr (id, q) ↦
      rw (q, store_entries, latest)
        (lookup-store_entries k es (assign id (stored id e) os) (rw (q, store_entries) at h)
          ∙ ap (latest k es) (lookup-assign id k (stored id e) os))
]

pub lookup-latest :
    (k : ℕ) (es : List OverwriteEntry) (os : Map PermissionOverwrite)
    → k < 2 ^ 64
    → IsKeyed os
    → (load_overrides es os).ended ≡ true
    → lookup k (load_overrides es os).overrides ≡ latest k es none
unfolding load_overrides
lookup-latest k es os b keyed h = elim (Bool-cases (is_listed es k)) [
  | inl q ↦ lookup-store_entries k es (drop_deleted es os) h ∙ latest-listed k es _ none b q
  | inr q ↦
      lookup-store_entries k es (drop_deleted es os) h
      ∙ ap (latest k es) (lookup-drop_deleted k es os keyed q)
]
