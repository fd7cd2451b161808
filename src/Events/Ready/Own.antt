-- ===== src/Events/Ready/Own.antt =====
-- What the bot knows behind the event that it is ready.
use aegis_cpp.Common.{
  ℕ, ◌==◌, ◌≡◌, refl, sym, ap, subst, ◌∙◌, true, false, List, [], ◌∷◌, none, some, All,
  if◌then◌else◌, Bool-cases, some_eq, ◌⊎◌, inl, inr,
}
use aegis_cpp.Common.Int.{ℤ}
use aegis_cpp.Common.Map.{lookup, is_some}
use aegis_cpp.Common.Text.{stoi}
use aegis_cpp.User.{User}
use aegis_cpp.Guild.{new_guild}
use aegis_cpp.Cache
use aegis_cpp.Cache.{Caches, find_guild, user_create, guild_create}
use mathlib.Core.Option.{none-ne-some}
use aegis_cpp.Cache.Lookups.{find-create_same}
use aegis_cpp.Cache.Pointers.{find-create}
use aegis_cpp.Members.Load.{or_else}
use aegis_cpp.Events.Joining.{object-assign}
use aegis_cpp.Events.Loading.{GuildObject, put_user}
use aegis_cpp.Events.Ready.{
  Bot, ReadyObject, Ready, ready_guilds, know_self, own_user, process_ready,
}
use aegis_cpp.Events.Sound.{
  IsSound, IsUpdate, put_user-IsSound, user_create-IsSound, guild_create-IsSound,
}

-- Every guild of the list has an outage.
abbrev pub AreUnavailable : List GuildObject → Type 0
AreUnavailable js = All (λ j. or_else false j.unavailable ≡ true) js

abbrev pub AreCached : List GuildObject → Caches → Type 0
AreCached js c = All (λ j. is_some (find_guild j.id c) ≡ true) js

-- The user of the bot is at p.
abbrev pub IsSelf : ReadyObject → ℕ → Caches → Type 0
IsSelf j p c =
    (u : User) × (Cache.object p c.users ≡ some u) × (u.member_id ≡ j.user_id) × (u.is_bot ≡ true)

find_guild-create_kept :
    (id k shard : ℕ) (c : Caches)
    → is_some (find_guild k c) ≡ true
    → is_some (find_guild k (guild_create id shard c).1) ≡ true
find_guild-create_kept id k shard c h =
    ap is_some (find-create id k (new_guild shard id) c.guilds) ∙ by_key (Bool-cases (id == k))
  where
    by_key :
        ((id == k) ≡ true) ⊎ ((id == k) ≡ false)
        → is_some (if id == k then some (guild_create id shard c).0 else find_guild k c) ≡ true
    by_key (inl e) = rw e refl
    by_key (inr e) = rw e h

ready_guilds_kept :
    (shard k : ℕ) (js : List GuildObject) (c d : Caches)
    → ready_guilds shard js c ≡ some d
    → is_some (find_guild k c) ≡ true
    → is_some (find_guild k d) ≡ true
unfolding ready_guilds
ready_guilds_kept shard k [] c d e h = subst (λ x. is_some (find_guild k x) ≡ true) (some_eq e) h
ready_guilds_kept shard k (j ∷ js) c d e h = elim (Bool-cases (or_else false j.unavailable)) [
  | inl f ↦
      ready_guilds_kept shard k js (guild_create j.id shard c).1 d (rw f at e)
        (find_guild-create_kept j.id k shard c h)
  | inr f ↦ absurd (none-ne-some d (rw f at e))
]

pub ready_guilds-Cached :
    (shard : ℕ) (js : List GuildObject) (c : Caches)
    → IsSound c
    → AreUnavailable js
    → (d : Caches) × (ready_guilds shard js c ≡ some d)
      × IsSound d
      × (d.users ≡ c.users)
      × AreCached js d
unfolding ready_guilds
ready_guilds-Cached shard [] c s out = (c, refl, s, refl, tt)
ready_guilds-Cached shard (j ∷ js) c s (here, out) =
    let (sound, there) = guild_create-IsSound j.id shard c s in
    let (d, e, sd, same, cached) =
      ready_guilds-Cached shard js (guild_create j.id shard c).1 sound out in
    let made = ap is_some (find-create_same j.id (new_guild shard j.id) c.guilds) in
    (
      d,
      rw here e,
      sd,
      same,
      (ready_guilds_kept shard j.id js (guild_create j.id shard c).1 d e made, cached),
    )

-- The first time that the bot is ready on sound caches, with a discriminator that is a number and guilds that all
-- have an outage: the handler returns sound caches that have each guild, and the bot points to a user that has
-- its identifier and counts as a bot.
pub process_ready-IsSelf :
    (shard : ℕ) (j : ReadyObject) (b : Bot) (c : Caches) (z : ℤ)
    → IsSound c
    → b.self ≡ none
    → stoi j.discriminator ≡ some z
    → AreUnavailable j.guilds
    → (r : Ready) × (p : ℕ) × (process_ready shard j b c ≡ some r)
      × (r.bot.self ≡ some p)
      × IsSelf j p r.caches
      × IsSound r.caches
      × AreCached j.guilds r.caches
unfolding process_ready lookup
process_ready-IsSelf shard j b c z s first number out =
    let pu = (user_create j.user_id c).0 in
    let d = (user_create j.user_id c).1 in
    let (sd, there) = user_create-IsSound j.user_id c s in
    let (u, at, i) = there in
    let w = own_user j z u in
    let k : IsUpdate u w = (sym i, λ g. λ h. h) in
    let sw = put_user-IsSound pu u w d sd at k in
    let (f, e, sf, same, cached) = ready_guilds-Cached shard j.guilds (put_user pu w d) sw out in
    (
      record { bot = know_self j z pu b; caches = f; error = none },
      pu,
      rw (first, number, at, e, process_ready) refl,
      refl,
      (w, ap (λ x. Cache.object pu x) same ∙ object-assign pu w d.users.objects, refl, refl),
      sf,
      cached,
    )
