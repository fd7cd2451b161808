-- ===== src/Events/Sound/Handlers.antt =====
-- The handlers of the events of members and roles, and of guilds that are taken away, on sound caches.
use aegis_cpp.Common.{
  ℕ, ◌≡◌, refl, Bool, true, false, Option, none, some, Option-cases, inl, inr, arith,
}
use aegis_cpp.Common.Map.{is_some, lookup}
use aegis_cpp.Guild.{Role}
use aegis_cpp.Cache.{Caches, find_guild, user_create, remove_guild}
use aegis_cpp.Members.{load_role}
use aegis_cpp.Members.Load.{MemberObject}
use aegis_cpp.Events.{
  both, put_guild, put_users, delete_found, ws_guild_member_add, ws_guild_member_update,
  ws_guild_member_remove, ws_guild_role_create, ws_guild_role_delete, ws_guild_delete,
}
use aegis_cpp.Events.Channels.{quiet}
use aegis_cpp.Events.Guilds.{raw_only}
use aegis_cpp.Events.Sound.{IsSound, user_create-IsSound, put_guild-IsSound, remove_guild-IsSound}
use aegis_cpp.Events.Sound.Members.{load_into-IsSound}
use aegis_cpp.Events.Sound.Removal.{remove_member-IsSound, remove_role-IsSound}
use aegis_cpp.Events.Sound.Guilds.{Leads}

abbrev pub IsKnown : ℕ → Caches → Type 0
IsKnown guild_id c = is_some (find_guild guild_id c) ≡ true

pub unknown : {o : Option ℕ} → o ≡ none → is_some o ≡ true → ⊥
unknown a b = ground (arith, rw a at b)

pub member_add-Leads :
    (id : ℕ) (j : MemberObject) (c : Caches)
    → IsSound c
    → IsKnown id c
    → Leads (ws_guild_member_add id j c)
unfolding ws_guild_member_add lookup
member_add-Leads id j c s known = elim (Option-cases (find_guild id c)) [
  | inl e ↦ absurd (unknown e known)
  | inr (pg, e) ↦
      let (sd, there) = user_create-IsSound j.user.id c s in
      let (f, q, t, r, back) =
        load_into-IsSound j (user_create j.user.id c).0 pg id (user_create j.user.id c).1 sd there
          e in
      (both f, rw (e, q) refl, t)
]

pub member_update-Leads :
    (id : ℕ) (j : MemberObject) (c : Caches) → IsSound c → Leads (ws_guild_member_update id j c)
unfolding ws_guild_member_update lookup
member_update-Leads id j c s =
    let (sd, there) = user_create-IsSound j.user.id c s in
    elim (Option-cases (find_guild id c)) [
      | inl e ↦ (raw_only (user_create j.user.id c).1, rw e refl, sd)
      | inr (pg, e) ↦
          let (f, q, t, r, back) =
            load_into-IsSound j (user_create j.user.id c).0 pg id (user_create j.user.id c).1 sd
              there e in
          (both f, rw (e, q) refl, t)
    ]

pub member_remove-Leads :
    (id member : ℕ) (c : Caches) → IsSound c → Leads (ws_guild_member_remove id member c)
unfolding ws_guild_member_remove lookup
member_remove-Leads id member c s = elim (Option-cases (find_guild id c)) [
  | inl e ↦ (both c, rw (e, ws_guild_member_remove) refl, s)
  | inr (pg, e) ↦
      let (g, at, own) = s.2.1 id pg e in
      let (r, q, t) = remove_member-IsSound member id pg c g s e at in
      (both (put_guild pg r.0 (put_users r.1 c)), rw (e, at, q, ws_guild_member_remove) refl, t)
]

pub role_create-Leads :
    (id : ℕ) (role : Role) (c : Caches)
    → IsSound c
    → IsKnown id c
    → Leads (ws_guild_role_create id role c)
unfolding ws_guild_role_create lookup
role_create-Leads id role c s known = elim (Option-cases (find_guild id c)) [
  | inl e ↦ absurd (unknown e known)
  | inr (pg, e) ↦
      let (g, at, own) = s.2.1 id pg e in
      (
        both (put_guild pg (load_role role g) c),
        rw (e, at) refl,
        put_guild-IsSound pg g (load_role role g) c s at refl (s.3 id pg g e at),
      )
]

pub role_delete-Leads :
    (id role : ℕ) (c : Caches) → IsSound c → Leads (ws_guild_role_delete id role c)
unfolding ws_guild_role_delete lookup
role_delete-Leads id role c s = elim (Option-cases (find_guild id c)) [
  | inl e ↦ (both c, rw (e, ws_guild_role_delete) refl, s)
  | inr (pg, e) ↦
      let (g, at, own) = s.2.1 id pg e in
      let (r, q, t) = remove_role-IsSound role id pg c g s e at in
      (both (put_guild pg r.0 (put_users r.1 c)), rw (e, at, q, ws_guild_role_delete) refl, t)
]

delete_found-Leads : (id : ℕ) (c : Caches) → IsSound c → Leads (delete_found id (find_guild id c) c)
delete_found-Leads id c s = elim (Option-cases (find_guild id c)) [
  | inl e ↦ (raw_only c, rw (e, delete_found) refl, s)
  | inr (pg, e) ↦
      let (g, at, own) = s.2.1 id pg e in
      let h = record g { unavailable = false } in
      (
        both (remove_guild id (put_guild pg h c)),
        rw (e, at, delete_found) refl,
        remove_guild-IsSound id (put_guild pg h c)
            (put_guild-IsSound pg g h c s at refl (s.3 id pg g e at)),
      )
]

pub guild_delete-Leads :
    (id : ℕ) (unavailable : Option Bool) (c : Caches)
    → IsSound c
    → Leads (ws_guild_delete id unavailable c)
unfolding ws_guild_delete
guild_delete-Leads id none c s = delete_found-Leads id c s
guild_delete-Leads id (some false) c s = delete_found-Leads id c s
guild_delete-Leads id (some true) c s = (quiet c, refl, s)
