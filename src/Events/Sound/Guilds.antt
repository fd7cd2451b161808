-- ===== src/Events/Sound/Guilds.antt =====
-- guild::_load of include/aegis/impl/guild.cpp as a whole on sound caches.
use aegis_cpp.Common.{ℕ, ◌≡◌, refl, sym, ◌∙◌, List, [], ◌∷◌, Option, none, some}
use aegis_cpp.Guild.{Guild, Role, Emoji, VoiceState}
use aegis_cpp.Error.{Error}
use aegis_cpp.Cache.{Caches, find_guild}
use aegis_cpp.Members.{load_role}
use aegis_cpp.Events.{Handled, put_guild}
use aegis_cpp.Events.Loading.{
  GuildObject, Loading, done, each, load_lists, load, load_roles, load_fields, load_emojis,
  load_voicestate, load_voicestates, load_member, load_channel, load_presence,
}
use aegis_cpp.Events.Guilds.{load_at, loaded}
use aegis_cpp.Events.Sound.{IsSound, put_guild-IsSound}
use aegis_cpp.Events.Sound.Loading.{
  Safe, IsLoading, after-Safe, each-Safe, load_member-Safe, load_channel-Safe, load_presence-Safe,
}

-- The handler returns, and what it leaves is sound.
abbrev pub Leads : Option Handled → Type 0
Leads o = (h : Handled) × (o ≡ some h) × IsSound h.caches

load_roles-IsLoading :
    (id pg : ℕ) (rs : List Role) (g : Guild) (c : Caches)
    → IsLoading id pg g c
    → IsLoading id pg (load_roles rs g) c
load_roles-IsLoading id pg [] g c h = h
load_roles-IsLoading id pg (r ∷ rs) g c h = load_roles-IsLoading id pg rs (load_role r g) c h

load_emojis-IsLoading :
    (id pg : ℕ) (es : List Emoji) (g : Guild) (c : Caches)
    → IsLoading id pg g c
    → IsLoading id pg (load_emojis es g) c
load_emojis-IsLoading id pg [] g c h = h
load_emojis-IsLoading id pg (e ∷ es) g c h = load_emojis-IsLoading id pg es _ c h

load_voicestate-IsLoading :
    (id pg user : ℕ) (v : Option VoiceState) (g : Guild) (c : Caches)
    → IsLoading id pg g c
    → IsLoading id pg (load_voicestate user v g) c
unfolding load_voicestate
load_voicestate-IsLoading id pg user none g c h = h
load_voicestate-IsLoading id pg user (some v) g c h = h

load_voicestates-IsLoading :
    (id pg : ℕ) (vs : List (ℕ × Option VoiceState)) (g : Guild) (c : Caches)
    → IsLoading id pg g c
    → IsLoading id pg (load_voicestates vs g) c
load_voicestates-IsLoading id pg [] g c h = h
load_voicestates-IsLoading id pg ((user, v) ∷ vs) g c h =
    load_voicestates-IsLoading id pg vs _ c (load_voicestate-IsLoading id pg user v g c h)

load_lists-Safe : (id pg : ℕ) (j : GuildObject) → Safe (IsLoading id pg) (load_lists j)
unfolding load_lists
load_lists-Safe id pg j g c h =
    let P = IsLoading id pg in
    let (m, em, pm) = each-Safe P load_member j.members (load_member-Safe id pg) g c h in
    let (k, ek, pk) =
      after-Safe P (each load_channel j.channels) m
        (each-Safe P load_channel j.channels (load_channel-Safe id pg)) pm in
    let (r, er, pr) =
      after-Safe P (each load_presence j.presences) k
        (each-Safe P load_presence j.presences (load_presence-Safe id pg)) pk in
    (r, rw (em, ek) er, pr)

pub load-Safe : (id pg shard : ℕ) (j : GuildObject) → Safe (IsLoading id pg) (load shard j)
unfolding load
load-Safe id pg shard j g c h =
    let (r, er, pr) =
      load_lists-Safe id pg j (load_roles j.roles (load_fields shard j g)) c
        (load_roles-IsLoading id pg j.roles (load_fields shard j g) c h) in
    let (k, ek, pk) =
      after-Safe (IsLoading id pg)
        (λ x. λ d. some (done (load_voicestates j.voice_states (load_emojis j.emojis x)) d)) r
        (λ x. λ d. λ p. (
          done (load_voicestates j.voice_states (load_emojis j.emojis x)) d,
          refl,
          load_voicestates-IsLoading id pg j.voice_states (load_emojis j.emojis x) d
              (load_emojis-IsLoading id pg j.emojis x d p),
        ))
        pr in
    (k, rw er ek, pk)

loaded-IsSound :
    (id pg : ℕ) (r : Loading) → IsLoading id pg r.guild r.caches → IsSound (loaded pg r).caches
loaded-IsSound id pg r (s, members, own, found) = by_error r.error refl
  where
    stored_guild : IsSound (put_guild pg r.guild r.caches)
    stored_guild =
        let (g, at, i) = s.2.1 id pg found in
        put_guild-IsSound pg g r.guild r.caches s at (own ∙ sym i) members

    by_error : (o : Option Error) → r.error ≡ o → IsSound (loaded pg r).caches
    by_error none e = rw (e, loaded) stored_guild
    by_error (some x) e = rw (e, loaded) stored_guild

pub load_at-IsSound :
    (id pg shard : ℕ) (j : GuildObject) (c : Caches)
    → IsSound c
    → find_guild id c ≡ some pg
    → Leads (load_at pg shard j c)
load_at-IsSound id pg shard j c s found =
    let (g, at, own) = s.2.1 id pg found in
    let (r, e, p) = load-Safe id pg shard j g c (s, s.3 id pg g found at, own, found) in
    (loaded pg r, rw (at, e) refl, loaded-IsSound id pg r p)
