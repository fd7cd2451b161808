-- ===== src/Events/Sound/Channels.antt =====
-- The handlers of the events of channels on sound caches.
use aegis_cpp.Common.{
  ℕ, ◌==◌, ◌≡◌, refl, sym, ◌∙◌, Option, none, some, Bool-cases, Option-cases, inl, inr,
}
use aegis_cpp.Common.Map.{lookup}
use aegis_cpp.Common.Text.{Text, stoul}
use aegis_cpp.Json.{Value, snowflake_from_json}
use aegis_cpp.Channel.{Channel}
use aegis_cpp.Guild.{Guild}
use aegis_cpp.Error.{Error}
use aegis_cpp.Cache.{
  Caches, object, find_user, find_guild, find_channel, channel_create, remove_channel,
}
use aegis_cpp.Channel.Load.{ChannelObject, Loaded, load_with_guild}
use aegis_cpp.Events.{both, put_guild}
use aegis_cpp.Events.Channels.{
  ChannelEvent, quiet, thrown, put_channel, drop_channel, list_channel, listed, in_guild,
  dm_channel, dm_channel_create, set_dm_id, set_recipient, direct_message, delete_channel,
  ws_channel_create, ws_channel_update, ws_channel_delete,
}
use aegis_cpp.Events.Loading.{put_user}
use aegis_cpp.Events.Sound.{
  IsSound, IsUpdate, put_user-IsSound, put_guild-IsSound, channel_create-IsSound,
  put_channel-IsSound, remove_channel-IsSound,
}
use aegis_cpp.Events.Sound.Loading.{load_with_guild_id}
use aegis_cpp.Events.Sound.Guilds.{Leads}

listed-IsSound :
    (adopt : Channel → Channel) (id guild_id pc pg : ℕ) (g : Guild) (ch : Channel) (r : Loaded)
    (c : Caches)
    → ((k : Channel) → (adopt k).channel_id ≡ k.channel_id)
    → IsSound c
    → object pc c.channels ≡ some ch
    → r.channel.channel_id ≡ ch.channel_id
    → find_guild guild_id c ≡ some pg
    → object pg c.guilds ≡ some g
    → IsSound (listed adopt id pc pg g r c).caches
listed-IsSound adopt id guild_id pc pg g ch r c keeps s at same found guild = by_error r.error refl
  where
    stored_channel : (k : Channel) → k.channel_id ≡ ch.channel_id → IsSound (put_channel pc k c)
    stored_channel k e = put_channel-IsSound pc ch k c s at e

    by_error : (o : Option Error) → r.error ≡ o → IsSound (listed adopt id pc pg g r c).caches
    by_error (some x) e = rw (e, listed) (stored_channel r.channel same)
    by_error none e =
        rw (e, listed)
          (put_guild-IsSound pg g (list_channel id pc g) (put_channel pc (adopt r.channel) c)
            (stored_channel (adopt r.channel) (keeps r.channel ∙ same)) guild refl
            (s.3 guild_id pg g found guild))

in_guild-Leads :
    (adopt : Channel → Channel) (j : ChannelObject) (guild_id : ℕ) (o : Option ℕ) (c : Caches)
    → ((k : Channel) → (adopt k).channel_id ≡ k.channel_id)
    → IsSound c
    → find_guild guild_id c ≡ o
    → Leads (in_guild adopt j o c)
unfolding lookup
in_guild-Leads adopt j guild_id none c keeps s e = (quiet c, refl, s)
in_guild-Leads adopt j guild_id (some pg) c keeps s e =
    let (sd, there) = channel_create-IsSound j.id c s in
    let (ch, at, i) = there in
    let (g, guild, own) = s.2.1 guild_id pg e in
    let r = load_with_guild g.guild_id j ch in
    let pc = (channel_create j.id c).0 in
    let d = (channel_create j.id c).1 in
    (
      listed adopt j.id pc pg g r d,
      rw (at, guild) refl,
      listed-IsSound adopt j.id guild_id pc pg g ch r d keeps sd at
          (load_with_guild_id g.guild_id j ch ∙ sym i) e guild,
    )

dm_channel_id : (j : ChannelObject) (ch : Channel) → (dm_channel j ch).channel_id ≡ ch.channel_id
dm_channel_id j ch = by_cases j.name refl j.last_message_id refl
  where
    by_value :
        (n : Option Text)
        → j.name ≡ n
        → (v : Value) → j.last_message_id ≡ some v
        → (dm_channel j ch).channel_id ≡ ch.channel_id
    by_value none a v b = elim (Option-cases (snowflake_from_json v ch.last_message_id)) [
      | inl e ↦ rw (a, b, e, dm_channel) refl
      | inr (x, e) ↦ rw (a, b, e, dm_channel) refl
    ]
    by_value (some n) a v b = elim (Option-cases (snowflake_from_json v ch.last_message_id)) [
      | inl e ↦ rw (a, b, e, dm_channel) refl
      | inr (x, e) ↦ rw (a, b, e, dm_channel) refl
    ]

    by_cases :
        (n : Option Text)
        → j.name ≡ n
        → (o : Option Value) → j.last_message_id ≡ o
        → (dm_channel j ch).channel_id ≡ ch.channel_id
    by_cases none a none b = rw (a, b, dm_channel) refl
    by_cases (some n) a none b = rw (a, b, dm_channel) refl
    by_cases n a (some v) b = by_value n a v b

dm_channel_create-IsSound :
    (j : ChannelObject) (c : Caches)
    → IsSound c
    → (d : Caches) × (dm_channel_create j c ≡ some d) × IsSound d
dm_channel_create-IsSound j c s =
    let (sd, there) = channel_create-IsSound j.id c s in
    let (ch, at, i) = there in
    let pc = (channel_create j.id c).0 in
    let d = (channel_create j.id c).1 in
    (
      put_channel pc (dm_channel j ch) d,
      rw (at, dm_channel_create) refl,
      put_channel-IsSound pc ch (dm_channel j ch) d sd at (dm_channel_id j ch),
    )

set_dm_id-IsSound :
    (id dm_id : ℕ) (c : Caches)
    → IsSound c
    → (d : Caches) × (set_dm_id (find_user id c) dm_id c ≡ some d) × IsSound d
set_dm_id-IsSound id dm_id c s = elim (Option-cases (find_user id c)) [
  | inl e ↦ (c, rw (e, set_dm_id) refl, s)
  | inr (pu, e) ↦
      let (u, at, i) = s.0.1 id pu e in
      let w = record u { dm_id = dm_id } in
      let k : IsUpdate u w = (refl, λ g. λ h. h) in
      (put_user pu w c, rw (e, at, set_dm_id) refl, put_user-IsSound pu u w c s at k)
]

set_recipient-Leads :
    (o : Option ℕ) (dm_id : ℕ) (c : Caches) → IsSound c → Leads (set_recipient o dm_id c)
set_recipient-Leads none dm_id c s = (thrown Error.general c, refl, s)
set_recipient-Leads (some id) dm_id c s =
    let (d, e, t) = set_dm_id-IsSound id dm_id c s in (both d, rw e refl, t)

pub channel_create-Leads :
    (e : ChannelEvent) (c : Caches) → IsSound c → Leads (ws_channel_create e c)
unfolding ws_channel_create
channel_create-Leads e c s = by_guild e.guild_id refl
  where
    by_type :
        (d : Caches)
        → e.guild_id ≡ none
        → dm_channel_create e.channel c ≡ some d
        → IsSound d
        → Leads (ws_channel_create e c)
    by_type d q k t = elim (Bool-cases (e.channel.type == direct_message)) [
      | inl h ↦
          let (r, f, v) = set_recipient-Leads (stoul e.recipient) e.channel.id d t in
          (r, rw (q, k, h, ws_channel_create) f, v)
      | inr h ↦ (both d, rw (q, k, h, ws_channel_create) refl, t)
    ]

    by_guild : (o : Option ℕ) → e.guild_id ≡ o → Leads (ws_channel_create e c)
    by_guild (some id) q =
        let (r, f, t) =
          in_guild-Leads (λ ch. record ch { guild_id = id; guild = find_guild id c }) e.channel id
            (find_guild id c) c (λ k. refl) s refl in
        (r, rw (q, ws_channel_create) f, t)
    by_guild none q = let (d, k, t) = dm_channel_create-IsSound e.channel c s in by_type d q k t

pub channel_update-Leads :
    (e : ChannelEvent) (c : Caches) → IsSound c → Leads (ws_channel_update e c)
unfolding ws_channel_update
channel_update-Leads e c s = by_guild e.guild_id refl
  where
    by_guild : (o : Option ℕ) → e.guild_id ≡ o → Leads (ws_channel_update e c)
    by_guild (some id) q =
        let (r, f, t) =
          in_guild-Leads (λ ch. ch) e.channel id (find_guild id c) c (λ k. refl) s refl in
        (r, rw (q, ws_channel_update) f, t)
    by_guild none q =
        let (d, k, t) = dm_channel_create-IsSound e.channel c s in
        (both d, rw (q, k, ws_channel_update) refl, t)

delete_channel-Leads :
    (id guild_id : ℕ) (pg pc : Option ℕ) (c : Caches)
    → IsSound c
    → find_guild guild_id c ≡ pg
    → Leads (delete_channel id pg pc c)
delete_channel-Leads id guild_id none pc c s e = (quiet c, refl, s)
delete_channel-Leads id guild_id (some pg) none c s e = (quiet c, refl, s)
delete_channel-Leads id guild_id (some pg) (some pc) c s e =
    let (g, at, own) = s.2.1 guild_id pg e in
    let h = drop_channel id g in
    (
      both (remove_channel id (put_guild pg h c)),
      rw at refl,
      remove_channel-IsSound id (put_guild pg h c)
          (put_guild-IsSound pg g h c s at refl (s.3 guild_id pg g e at)),
    )

pub channel_delete-Leads :
    (e : ChannelEvent) (c : Caches) → IsSound c → Leads (ws_channel_delete e c)
unfolding ws_channel_delete
channel_delete-Leads e c s = by_guild e.guild_id refl
  where
    by_guild : (o : Option ℕ) → e.guild_id ≡ o → Leads (ws_channel_delete e c)
    by_guild none q = (both c, rw (q, ws_channel_delete) refl, s)
    by_guild (some id) q =
        let (r, f, t) =
          delete_channel-Leads e.channel.id id (find_guild id c) (find_channel e.channel.id c) c s
            refl in
        (r, rw (q, ws_channel_delete) f, t)
