-- ===== src/Events/Channels/Kept.antt =====
-- The channel that is left by the events of a channel that is new and of one that changed.
use aegis_cpp.Common.{ℕ, ◌≡◌, refl, true, none, some, Option-cases, inl, inr, arith}
use aegis_cpp.Common.Map.{lookup, emplace, is_some}
use aegis_cpp.Common.Text.{Text}
use aegis_cpp.Channel.{Channel}
use aegis_cpp.Guild.{Guild}
use aegis_cpp.Cache.{Caches, object, find_guild, channel_create}
use aegis_cpp.Channel.Load.{ChannelObject, load_with_guild}
use aegis_cpp.Channel.Load.Pointer.{load_with_guild_pointer}
use aegis_cpp.Events.{Handled, both, put_guild}
use aegis_cpp.Events.Joining.{object-assign}
use aegis_cpp.Events.Channels.{
  put_channel, list_channel, listed, load_channel, ws_channel_create, ws_channel_update,
}

-- What is left of a channel that is loaded without an exception.
abbrev loaded : (Channel → Channel) → ChannelObject → ℕ → ℕ → Guild → Channel → Caches → Handled
loaded adopt j pc pg g ch c = both (
    put_guild pg (list_channel j.id pc g)
      (put_channel pc (adopt (load_with_guild g.guild_id j ch).channel) c))

load_channel-eq-some :
    (adopt : Channel → Channel) (j : ChannelObject) (pc pg : ℕ) (c : Caches) (ch : Channel)
    (g : Guild)
    → object pc c.channels ≡ some ch
    → object pg c.guilds ≡ some g
    → (load_with_guild g.guild_id j ch).error ≡ none
    → load_channel adopt j pc pg c ≡ some (loaded adopt j pc pg g ch c)
unfolding lookup
load_channel-eq-some adopt j pc pg c ch g a b e = rw (a, b) (rw (e, listed) refl)

lookup-list_channel :
    (id p : ℕ) (g : Guild) → is_some (lookup id (list_channel id p g).channels) ≡ true
unfolding lookup emplace
lookup-list_channel id p g = elim (Option-cases (lookup id g.channels)) [
  | inl e ↦ rw (e, lookup) (ground arith)
  | inr (a, e) ↦ rw (e, lookup) (rw e refl)
]

-- When the event of a channel of a cached guild is loaded without an exception, the handlers of a new and of
-- a changed channel return and the guild lists the channel. After the event of a new channel the channel
-- points to the guild; after that of a changed one it points where it did before, which is nowhere for a
-- channel that the event has made.
pub ws_channel_create-pointer :
    (id pg : ℕ) (j : ChannelObject) (t : Text) (c : Caches) (g : Guild) (ch : Channel)
    → find_guild id c ≡ some pg
    → object pg c.guilds ≡ some g
    → object (channel_create j.id c).0 (channel_create j.id c).1.channels ≡ some ch
    → (load_with_guild g.guild_id j ch).error ≡ none
    → (h h' : Handled) × (k k' : Channel) × (g' : Guild) × (ws_channel_create
          (record { guild_id = some id; channel = j; recipient = t })
          c
        ≡ some h)
      × (ws_channel_update (record { guild_id = some id; channel = j; recipient = t }) c ≡ some h')
      × (object pg h.caches.guilds ≡ some g')
      × (object pg h'.caches.guilds ≡ some g')
      × (is_some (lookup j.id g'.channels) ≡ true)
      × (object (channel_create j.id c).0 h.caches.channels ≡ some k)
      × (object (channel_create j.id c).0 h'.caches.channels ≡ some k')
      × (k.guild ≡ some pg)
      × (k'.guild ≡ ch.guild)
unfolding ws_channel_create ws_channel_update lookup
ws_channel_create-pointer id pg j t c g ch cached guild channel fine =
    let pc = (channel_create j.id c).0 in
    let d = (channel_create j.id c).1 in
    let r = (load_with_guild g.guild_id j ch).channel in
    let adopt = λ (k : Channel). record k { guild_id = id; guild = some pg } in
    (
      loaded adopt j pc pg g ch d,
      loaded (λ k. k) j pc pg g ch d,
      adopt r,
      r,
      list_channel j.id pc g,
      rw cached (load_channel-eq-some adopt j pc pg d ch g channel guild fine),
      rw cached (load_channel-eq-some (λ k. k) j pc pg d ch g channel guild fine),
      object-assign pg (list_channel j.id pc g) c.guilds.objects,
      object-assign pg (list_channel j.id pc g) c.guilds.objects,
      lookup-list_channel j.id pc g,
      object-assign pc (adopt r) d.channels.objects,
      object-assign pc r d.channels.objects,
      refl,
      load_with_guild_pointer g.guild_id j ch,
    )
