-- ===== src/Events/Sound.antt =====
-- The caches of the bot as the gateway events keep them: every identifier that is cached leads to the object that
-- has it, and every member of a cached guild is a user that has data for the guild.
pub mod Members
pub mod Removal
pub mod Loading
pub mod Guilds
pub mod Handlers
pub mod Updates
pub mod Channels
pub mod Messages
pub mod Reached
mod Examples
use aegis_cpp.Common.{
  ℕ, ◌==◌, ◌≡◌, refl, true, false, sym, ap, subst, ◌∙◌, [], Option, none, some, some_eq, Bool-cases,
  inl, inr, arith, All, All-map,
}
use aegis_cpp.Common.Map.{Map, lookup, assign, is_some}
use aegis_cpp.User.{User, find_info, new_user}
use aegis_cpp.Channel.{Channel, new_channel}
use aegis_cpp.Guild.{Guild, new_guild}
use aegis_cpp.Cache.{
  Cache, Caches, object, find_guild, user_create, channel_create, guild_create, remove_channel,
  remove_guild,
}
use aegis_cpp.Cache.Lookups.{same_number, stored, stored_other}
use aegis_cpp.Cache.Sound.{
  IsAt, IsCache, Each, create-IsAt, create-IsCache, store-IsCache, remove-IsCache, create-Each,
  store-Each, remove-Each, object-create_kept,
}
use aegis_cpp.Events.{put_guild, put_users}
use aegis_cpp.Events.Channels.{put_channel}
use aegis_cpp.Events.Loading.{put_user}

-- The user at p is m, and has data for the guild.
abbrev pub HasData : ℕ → ℕ → ℕ → Map User → Type 0
HasData guild m p users =
    (u : User) × (lookup p users ≡ some u)
    × (u.member_id ≡ m)
    × (is_some (find_info guild u.guilds) ≡ true)

abbrev pub AreMembers : Map User → Guild → Type 0
AreMembers users g = All (λ e. HasData g.guild_id e.0 e.1 users) g.members

abbrev pub IsSound : Caches → Type 0
IsSound c =
    IsCache User.member_id c.users
    × IsCache Channel.channel_id c.channels
    × IsCache Guild.guild_id c.guilds
    × Each Guild.guild_id (AreMembers c.users.objects) c.guilds

-- No member of any guild is lost.
abbrev pub Keeps : Map User → Map User → Type 0
Keeps us vs = (g m p : ℕ) → HasData g m p us → HasData g m p vs

abbrev pub IsUpdate : User → User → Type 0
IsUpdate u w =
    (w.member_id ≡ u.member_id)
    × ((g : ℕ) → is_some (find_info g u.guilds) ≡ true → is_some (find_info g w.guilds) ≡ true)

pub Keeps-AreMembers :
    (us vs : Map User) (g : Guild) → Keeps us vs → AreMembers us g → AreMembers vs g
Keeps-AreMembers us vs g k all =
    All-map (λ e. HasData g.guild_id e.0 e.1 us) (λ e. HasData g.guild_id e.0 e.1 vs) g.members
      (λ e. λ h. k g.guild_id e.0 e.1 h) all

pub users-IsSound :
    (c : Caches) (us : Cache User)
    → IsSound c
    → IsCache User.member_id us
    → Keeps c.users.objects us.objects
    → IsSound (record c { users = us })
users-IsSound c us (u, ch, gs, all) s k =
    (s, ch, gs, λ id. λ pg. λ g. λ f. λ o. Keeps-AreMembers _ _ g k (all id pg g f o))

pub assign-Keeps :
    (p : ℕ) (u w : User) (us : Map User)
    → lookup p us ≡ some u
    → IsUpdate u w
    → Keeps us (assign p w us)
assign-Keeps p u w us e (same, kept) g m q (x, o, i, d) = elim (Bool-cases (p == q)) [
  | inl f ↦
      let n = same_number p q f in
      let old = some_eq (sym e ∙ ap (λ r. lookup r us) n ∙ o) in
      (
        w,
        subst (λ r. lookup r (assign p w us) ≡ some w) n (stored p w us),
        same ∙ ap User.member_id old ∙ i,
        kept g (subst (λ y. is_some (find_info g y.guilds) ≡ true) (sym old) d),
      )
  | inr f ↦ (x, stored_other p q w us f ∙ o, i, d)
]

pub put_user-IsSound :
    (p : ℕ) (u w : User) (c : Caches)
    → IsSound c
    → object p c.users ≡ some u
    → IsUpdate u w
    → IsSound (put_user p w c)
put_user-IsSound p u w c s e k =
    users-IsSound c (record c.users { objects = assign p w c.users.objects }) s
      (store-IsCache User.member_id p u w c.users s.0 e k.0)
      (assign-Keeps p u w c.users.objects e k)

new_user_id : (id : ℕ) → (new_user id).member_id ≡ id
unfolding new_user
new_user_id id = refl

pub user_create-Keeps :
    (id : ℕ) (c : Caches) → IsSound c → Keeps c.users.objects (user_create id c).1.users.objects
user_create-Keeps id c s g m p (u, o, r, d) =
    (u, object-create_kept User.member_id id p (new_user id) u c.users s.0.0 o, r, d)

pub user_create-IsSound :
    (id : ℕ) (c : Caches)
    → IsSound c
    → IsSound (user_create id c).1
      × IsAt User.member_id id (user_create id c).0 (user_create id c).1.users
user_create-IsSound id c s = (
  users-IsSound c (user_create id c).1.users s
      (create-IsCache User.member_id id (new_user id) c.users s.0 (new_user_id id))
      (user_create-Keeps id c s),
  create-IsAt User.member_id id (new_user id) c.users s.0 (new_user_id id),
)

pub channel_create-IsSound :
    (id : ℕ) (c : Caches)
    → IsSound c
    → IsSound (channel_create id c).1
      × IsAt Channel.channel_id id (channel_create id c).0 (channel_create id c).1.channels
channel_create-IsSound id c (u, ch, gs, all) = (
  (u, create-IsCache Channel.channel_id id (new_channel id 0) c.channels ch refl, gs, all),
  create-IsAt Channel.channel_id id (new_channel id 0) c.channels ch refl,
)

pub put_channel-IsSound :
    (p : ℕ) (k l : Channel) (c : Caches)
    → IsSound c
    → object p c.channels ≡ some k
    → l.channel_id ≡ k.channel_id
    → IsSound (put_channel p l c)
put_channel-IsSound p k l c (u, ch, gs, all) e same =
    (u, store-IsCache Channel.channel_id p k l c.channels ch e same, gs, all)

pub remove_channel-IsSound : (id : ℕ) (c : Caches) → IsSound c → IsSound (remove_channel id c)
remove_channel-IsSound id c (u, ch, gs, all) =
    (u, remove-IsCache Channel.channel_id id c.channels ch, gs, all)

pub guild_create-IsSound :
    (id shard_id : ℕ) (c : Caches)
    → IsSound c
    → IsSound (guild_create id shard_id c).1
      × IsAt Guild.guild_id id (guild_create id shard_id c).0 (guild_create id shard_id c).1.guilds
guild_create-IsSound id shard_id c (u, ch, gs, all) = (
  (
    u,
    ch,
    create-IsCache Guild.guild_id id (new_guild shard_id id) c.guilds gs refl,
    create-Each Guild.guild_id (AreMembers c.users.objects) id (new_guild shard_id id) c.guilds gs
        tt all,
  ),
  create-IsAt Guild.guild_id id (new_guild shard_id id) c.guilds gs refl,
)

pub put_guild-IsSound :
    (pg : ℕ) (g h : Guild) (c : Caches)
    → IsSound c
    → object pg c.guilds ≡ some g
    → h.guild_id ≡ g.guild_id
    → AreMembers c.users.objects h
    → IsSound (put_guild pg h c)
put_guild-IsSound pg g h c (u, ch, gs, all) e same members = (
  u,
  ch,
  store-IsCache Guild.guild_id pg g h c.guilds gs e same,
  store-Each Guild.guild_id (AreMembers c.users.objects) pg h c.guilds (λ id. λ f. members)
      (λ id. λ q. λ x. λ f. λ n. λ o. all id q x f o),
)

pub remove_guild-IsSound : (id : ℕ) (c : Caches) → IsSound c → IsSound (remove_guild id c)
remove_guild-IsSound id c (u, ch, gs, all) = (
  u,
  ch,
  remove-IsCache Guild.guild_id id c.guilds gs,
  remove-Each Guild.guild_id (AreMembers c.users.objects) id c.guilds all,
)
