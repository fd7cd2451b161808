-- ===== src/Events/Sound/Updates.antt =====
-- The handlers of the events of whole guilds, of lists of members and of users on sound caches.
use aegis_cpp.Common.{
  ℕ, ◌≡◌, refl, Bool, List, [], ◌∷◌, Option, none, some, ◌>>=◌, Option-cases, inl, inr,
}
use aegis_cpp.Common.Text.{Text, stoi}
use aegis_cpp.User.{User}
use aegis_cpp.Guild.{Guild, VoiceState, new_guild}
use aegis_cpp.Error.{Error}
use aegis_cpp.Cache.Lookups.{find-create_same}
use aegis_cpp.Cache.{Caches, object, find_guild, user_create, guild_create}
use aegis_cpp.Members.Load.{MemberObject}
use aegis_cpp.Events.{Handled, both, put_guild}
use aegis_cpp.Events.Channels.{quiet}
use aegis_cpp.Events.Loading.{GuildObject, put_user, set_status, load_voicestate}
use aegis_cpp.Events.Guilds.{
  request_members, raw_only, load_chunk, UserUpdate, update_user, ws_guild_create, ws_guild_update,
  ws_guild_members_chunk, ws_presence_update, ws_user_update, ws_voice_state_update,
}
use aegis_cpp.Events.Sound.{
  AreMembers, IsSound, IsUpdate, put_user-IsSound, user_create-IsSound, put_guild-IsSound,
  guild_create-IsSound,
}
use aegis_cpp.Events.Sound.Members.{load_into-IsSound}
use aegis_cpp.Events.Sound.Guilds.{Leads, load_at-IsSound}

-- The handled event of a guild that is created, without the messages that are sent.
abbrev pub guild_created : Bool → ℕ → GuildObject → Caches → Option Handled
guild_created bulk shard j c = do r ← ws_guild_create bulk shard j c; some r.0

pub guild_create-Leads :
    (bulk : Bool) (shard : ℕ) (j : GuildObject) (c : Caches)
    → IsSound c
    → Leads (guild_created bulk shard j c)
unfolding ws_guild_create
guild_create-Leads bulk shard j c s =
    let pg = (guild_create j.id shard c).0 in
    let d = (guild_create j.id shard c).1 in
    let (sd, there) = guild_create-IsSound j.id shard c s in
    let (h, q, t) =
      load_at-IsSound j.id pg shard j d sd
        (find-create_same j.id (new_guild shard j.id) c.guilds) in
    (h, rw q (handled h), t)
  where
    by_error :
        (h : Handled) (o : Option Error)
        → h.error ≡ o
        → some (request_members bulk j.id h).0 ≡ some h
    by_error h none e = rw (e, request_members) refl
    by_error h (some x) e = rw (e, request_members) refl

    handled : (h : Handled) → some (request_members bulk j.id h).0 ≡ some h
    handled h = by_error h h.error refl

pub guild_update-Leads :
    (shard : ℕ) (j : GuildObject) (c : Caches) → IsSound c → Leads (ws_guild_update shard j c)
unfolding ws_guild_update
guild_update-Leads shard j c s = elim (Option-cases (find_guild j.id c)) [
  | inl e ↦ (raw_only c, rw (e, ws_guild_update) refl, s)
  | inr (pg, e) ↦
      let (h, q, t) = load_at-IsSound j.id pg shard j c s e in (h, rw (e, ws_guild_update) q, t)
]

load_chunk-IsSound :
    (id pg : ℕ) (js : List MemberObject) (c : Caches)
    → IsSound c
    → find_guild id c ≡ some pg
    → (d : Caches) × (load_chunk js pg c ≡ some d) × IsSound d
unfolding load_chunk
load_chunk-IsSound id pg [] c s e = (c, refl, s)
load_chunk-IsSound id pg (j ∷ js) c s e =
    let (sd, there) = user_create-IsSound j.user.id c s in
    let (f, q, t, r, back) =
      load_into-IsSound j (user_create j.user.id c).0 pg id (user_create j.user.id c).1 sd there
        e in
    let (d, k, v) = load_chunk-IsSound id pg js f t r in (d, rw q k, v)

pub members_chunk-Leads :
    (id : ℕ) (js : List MemberObject) (c : Caches)
    → IsSound c
    → Leads (ws_guild_members_chunk id js c)
unfolding ws_guild_members_chunk
members_chunk-Leads id js c s = elim (Option-cases (find_guild id c)) [
  | inl e ↦ (quiet c, rw (e, ws_guild_members_chunk) refl, s)
  | inr (pg, e) ↦
      let (d, q, t) = load_chunk-IsSound id pg js c s e in
      (both d, rw (e, q, ws_guild_members_chunk) refl, t)
]

set_status-IsUpdate : (t : Text) (u : User) → IsUpdate u (set_status t u)
set_status-IsUpdate t u = (refl, λ g. λ h. h)

pub presence_update-Leads :
    (id : ℕ) (j : MemberObject) (status : Text) (c : Caches)
    → IsSound c
    → Leads (ws_presence_update id j status c)
unfolding ws_presence_update
presence_update-Leads id j status c s =
    let pu = (user_create j.user.id c).0 in
    let d = (user_create j.user.id c).1 in
    let (sd, there) = user_create-IsSound j.user.id c s in
    elim (Option-cases (find_guild id c)) [
      | inl e ↦ (quiet d, rw (e, ws_presence_update) refl, sd)
      | inr (pg, e) ↦
          let (f, q, t, r, back) = load_into-IsSound j pu pg id d sd there e in
          let (w, at, i) = back in
          (
            both (put_user pu (set_status status w) f),
            rw (e, q, at, ws_presence_update) refl,
            put_user-IsSound pu w (set_status status w) f t at (set_status-IsUpdate status w),
          )
    ]

update_user-Leads :
    (j : UserUpdate) (pu : ℕ) (c : Caches) (u : User)
    → IsSound c
    → object pu c.users ≡ some u
    → IsSound (update_user j pu c u).caches
update_user-Leads j pu c u s at = by_discriminator j.discriminator refl
  where
    update : (w : User) → IsUpdate u w → IsSound (put_user pu w c)
    update w k = put_user-IsSound pu u w c s at k

    converted : (t : Text) → j.discriminator ≡ some t → IsSound (update_user j pu c u).caches
    converted t e = elim (Option-cases (stoi t)) [
      | inl f ↦ rw (e, f, update_user) (update _ (refl, λ g. λ h. h))
      | inr (z, f) ↦ rw (e, f, update_user) (update _ (refl, λ g. λ h. h))
    ]

    by_discriminator :
        (o : Option Text) → j.discriminator ≡ o → IsSound (update_user j pu c u).caches
    by_discriminator none e = rw (e, update_user) (update _ (refl, λ g. λ h. h))
    by_discriminator (some t) e = converted t e

pub user_update-Leads : (j : UserUpdate) (c : Caches) → IsSound c → Leads (ws_user_update j c)
unfolding ws_user_update
user_update-Leads j c s =
    let pu = (user_create j.id c).0 in
    let d = (user_create j.id c).1 in
    let (sd, there) = user_create-IsSound j.id c s in
    let (u, at, i) = there in
    (update_user j pu d u, rw (at, ws_user_update) refl, update_user-Leads j pu d u sd at)

pub voice_state_update-Leads :
    (shard id user : ℕ) (v : Option VoiceState) (c : Caches)
    → IsSound c
    → Leads (ws_voice_state_update shard id user v c)
unfolding ws_voice_state_update load_voicestate
voice_state_update-Leads shard id user v c s =
    let pg = (guild_create id shard c).0 in
    let d = (guild_create id shard c).1 in
    let (sd, there) = guild_create-IsSound id shard c s in
    let (g, at, own) = there in
    let found = find-create_same id (new_guild shard id) c.guilds in
    let h = load_voicestate user v g in
    (
      both (put_guild pg h d),
      rw (at, ws_voice_state_update) refl,
      by_channel v pg d g sd at (sd.3 id pg g found at),
    )
  where
    by_channel :
        (v : Option VoiceState) (pg : ℕ) (d : Caches) (g : Guild)
        → IsSound d
        → object pg d.guilds ≡ some g
        → AreMembers d.users.objects g
        → IsSound (put_guild pg (load_voicestate user v g) d)
    by_channel none pg d g sd at all = put_guild-IsSound pg g _ d sd at refl all
    by_channel (some x) pg d g sd at all = put_guild-IsSound pg g _ d sd at refl all
