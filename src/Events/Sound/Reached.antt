-- ===== src/Events/Sound/Reached.antt =====
-- The caches that the events lead to from empty ones.
use aegis_cpp.Common.{ℕ, ◌≡◌, refl, sym, subst, ◌∙◌, some, some_eq}
use mathlib.Core.Option.{none-ne-some}
use aegis_cpp.Common.Map.{lookup}
use aegis_cpp.User.{User}
use aegis_cpp.Channel.{Channel}
use aegis_cpp.Guild.{Guild}
use aegis_cpp.Cache.{Caches, empty, user_create, channel_create}
use aegis_cpp.Cache.Sound.{IsCache}
use aegis_cpp.Events.{Handled, both}
use aegis_cpp.Events.Dispatch.{Event, handle, no_caches}
use aegis_cpp.Events.Sound.{IsSound, user_create-IsSound, channel_create-IsSound}
use aegis_cpp.Events.Sound.Guilds.{Leads}
use aegis_cpp.Events.Sound.Handlers.{
  IsKnown, member_add-Leads, member_update-Leads, member_remove-Leads, role_create-Leads,
  role_delete-Leads, guild_delete-Leads,
}
use aegis_cpp.Events.Sound.Updates.{
  guild_create-Leads, guild_update-Leads, members_chunk-Leads, presence_update-Leads,
  user_update-Leads, voice_state_update-Leads,
}
use aegis_cpp.Events.Ready.Own.{AreUnavailable}
use aegis_cpp.Events.Sound.Messages.{
  IsPlaced, IsAuthorKnown, message_create-Leads, message_update-Leads, ready-Leads,
}
use aegis_cpp.Events.Sound.Channels.{
  channel_create-Leads, channel_update-Leads, channel_delete-Leads,
}

-- The events whose handlers do not test a pointer need what it points to, and the one that the bot is ready needs
-- guilds with an outage; another one is loaded under a lock that is taken twice.
abbrev pub Expects : Event → Caches → Type 0
Expects (Event.guild_member_add id j) c = IsKnown id c
Expects (Event.guild_role_create id role) c = IsKnown id c
Expects (Event.guild_role_update id role) c = IsKnown id c
Expects (Event.message_create j) c = IsAuthorKnown j c × IsPlaced j c
Expects (Event.message_update j authored) c = IsPlaced j c
Expects (Event.ready shard j b) c = AreUnavailable j.guilds
Expects _ c = Unit

-- The caches behind the events of a session, also behind a handler that throws.
pub data Reached : Caches → Type 0 where
  start : Reached no_caches
  next :
      {c : Caches} (e : Event) (h : Handled)
      → Reached c
      → Expects e c
      → handle e c ≡ some h
      → Reached h.caches

empty-IsCache {ℓ} : {V : Type ℓ} (key : V → ℕ) → IsCache key empty
unfolding lookup
empty-IsCache key =
    (λ p. λ v. λ h. absurd (none-ne-some v h), λ id. λ p. λ h. absurd (none-ne-some p h))

handle-Leads : (e : Event) (c : Caches) → IsSound c → Expects e c → Leads (handle e c)
unfolding handle
handle-Leads (Event.guild_create bulk shard j) c s k = guild_create-Leads bulk shard j c s
handle-Leads (Event.guild_update shard j) c s k = guild_update-Leads shard j c s
handle-Leads (Event.guild_delete id unavailable) c s k = guild_delete-Leads id unavailable c s
handle-Leads (Event.guild_member_add id j) c s k = member_add-Leads id j c s k
handle-Leads (Event.guild_member_update id j) c s k = member_update-Leads id j c s
handle-Leads (Event.guild_member_remove id member) c s k = member_remove-Leads id member c s
handle-Leads (Event.guild_members_chunk id js) c s k = members_chunk-Leads id js c s
handle-Leads (Event.guild_role_create id role) c s k = role_create-Leads id role c s k
handle-Leads (Event.guild_role_update id role) c s k = role_create-Leads id role c s k
handle-Leads (Event.guild_role_delete id role) c s k = role_delete-Leads id role c s
handle-Leads (Event.channel_create e) c s k = channel_create-Leads e c s
handle-Leads (Event.channel_update e) c s k = channel_update-Leads e c s
handle-Leads (Event.channel_delete e) c s k = channel_delete-Leads e c s
handle-Leads (Event.presence_update id j status) c s k = presence_update-Leads id j status c s
handle-Leads (Event.user_update j) c s k = user_update-Leads j c s
handle-Leads (Event.voice_state_update shard id user v) c s k =
    voice_state_update-Leads shard id user v c s
handle-Leads (Event.typing_start channel user) c s k =
    let (d, at) = channel_create-IsSound channel c s in
    (
      both (user_create user (channel_create channel c).1).1,
      refl,
      (user_create-IsSound user (channel_create channel c).1 d).0,
    )
handle-Leads (Event.message_create j) c s k = message_create-Leads j c s k.0 k.1
handle-Leads (Event.message_update j authored) c s k = message_update-Leads j authored c s k
handle-Leads (Event.ready shard j b) c s k = ready-Leads shard j b c s k
handle-Leads (Event.message_delete channel) c s k =
    (both (channel_create channel c).1, refl, (channel_create-IsSound channel c s).0)

empty-IsSound : IsSound no_caches
unfolding lookup
empty-IsSound = (
  empty-IsCache User.member_id,
  empty-IsCache Channel.channel_id,
  empty-IsCache Guild.guild_id,
  λ id. λ p. λ g. λ f. absurd (none-ne-some p f),
)

reached : {c : Caches} → Reached c → IsSound c
reached start = empty-IsSound
reached (next {c} e h r k q) =
    let (d, found, sound) = handle-Leads e c (reached r) k in
    subst (λ x. IsSound x.caches) (some_eq (sym found ∙ q)) sound

-- Whatever events that change the caches come to empty ones, if each is expected, the caches are sound: each
-- identifier leads to the object that has it, and each member of a cached guild is a user that has data for the
-- guild. So each further event that is expected is handled without a pointer that dangles, and without the erasure
-- of the end of a vector, and leaves such caches again. An event is expected if its guild is cached where the
-- pointer is not tested, if the author of a direct message is known, if the channel of a message points to no guild
-- or to one that is cached, and if the guilds of the event that the bot is ready have an outage.
pub Reached-IsSound :
    {c : Caches} → Reached c → IsSound c × ((e : Event) → Expects e c → Leads (handle e c))
Reached-IsSound {c} r = (reached r, λ e. λ k. handle-Leads e c (reached r) k)
