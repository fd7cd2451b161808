-- ===== src/Events/Gone.antt =====
-- Events of guilds that are taken away, that are not cached, and of members that join.
use aegis_cpp.Common.{
  ℕ, ◌==◌, ◌≡◌, refl, subst, Bool, true, false, [], ◌∷◌, Option, none, some, some_eq, if◌then◌else◌,
  Bool-cases, Option-cases, inl, inr, arith,
}
use mathlib.Core.Bool.{true≢false}
use mathlib.Core.Option.{none-ne-some}
use aegis_cpp.Common.Map.{lookup}
use aegis_cpp.Cache.{Caches, object, user_create, find_guild}
use aegis_cpp.Cache.Pointers.{find-remove}
use aegis_cpp.Members.Load.{MemberObject}
use aegis_cpp.Events.{
  Handled, raw, put_guild, delete_found, ws_guild_delete, ws_guild_member_add,
  ws_guild_member_update,
}

abbrev pub is_outage : Option Bool → Bool
is_outage (some b) = b
is_outage none = false

same_id : (id k : ℕ) → (id == k) ≡ true → id ≡ k
same_id id k h = ground arith

not_cached :
    (id k : ℕ) (c : Caches)
    → find_guild id c ≡ none
    → find_guild k c ≡ (if id == k then none else find_guild k c)
not_cached id k c q = elim (Bool-cases (id == k)) [
  | inl f ↦ rw f (subst (λ x. find_guild x c ≡ none) (same_id id k f) q)
  | inr f ↦ rw f refl
]

delete_found-find :
    (id k : ℕ) (o : Option ℕ) (c : Caches) (d : Handled)
    → find_guild id c ≡ o
    → delete_found id o c ≡ some d
    → find_guild k d.caches ≡ (if id == k then none else find_guild k c)
delete_found-find id k none c d q e =
    subst (λ x. find_guild k x.caches ≡ (if id == k then none else find_guild k c)) (some_eq e)
      (not_cached id k c q)
delete_found-find id k (some pg) c d q e = elim (Option-cases (object pg c.guilds)) [
  | inl h ↦ absurd (none-ne-some d (rw h at e))
  | inr (g, h) ↦
      subst (λ x. find_guild k x.caches ≡ (if id == k then none else find_guild k c))
        (some_eq (rw h at e))
        (find-remove id k (put_guild pg (record g { unavailable = false }) c).guilds)
]

-- After the event that a guild is gone, which is no outage, the cache has exactly the other guilds.
pub ws_guild_delete-find :
    (id k : ℕ) (unavailable : Option Bool) (c : Caches) (d : Handled)
    → is_outage unavailable ≡ false
    → ws_guild_delete id unavailable c ≡ some d
    → find_guild k d.caches ≡ (if id == k then none else find_guild k c)
unfolding ws_guild_delete
ws_guild_delete-find id k none c d h e = delete_found-find id k (find_guild id c) c d refl e
ws_guild_delete-find id k (some true) c d h e = absurd (true≢false h)
ws_guild_delete-find id k (some false) c d h e = delete_found-find id k (find_guild id c) c d refl e

-- For a guild that is not cached, the event of a new member goes through a null pointer, while the event of a
-- changed member is passed to the raw handler alone.
pub ws_guild_member_add_unknown :
    (id : ℕ) (j : MemberObject) (c : Caches)
    → find_guild id c ≡ none
    → (ws_guild_member_add id j c ≡ none)
      × (h : Handled) × (ws_guild_member_update id j c ≡ some h)
      × (h.callbacks ≡ raw ∷ [])
unfolding ws_guild_member_add ws_guild_member_update lookup
ws_guild_member_add_unknown id j c e = (
  rw e refl,
  record { caches = (user_create j.user.id c).1; callbacks = raw ∷ []; error = none },
  rw e refl,
  refl,
)
