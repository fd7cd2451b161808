-- ===== src/Events/Messages/Lost.antt =====
-- What the first message of an author leaves of its roles and permissions.
use aegis_cpp.Common.{
  ℕ, ◌%◌, ◌^◌, ◌==◌, ◌≡◌, refl, sym, ap, subst, ◌∙◌, ◌>>=◌, Bool, true, false, List, ◌∷◌, none,
  some, contains, map, Option-cases, inl, inr, ◌||◌, arith,
}
use aegis_cpp.Common.Int.{ℤ}
use aegis_cpp.Common.Map.{lookup, assign}
use aegis_cpp.Common.Text.{Text, stoi, stoul}
use aegis_cpp.Json.{Value, pattern_of}
use aegis_cpp.User.{User, find_info, get_guild_info_nocreate}
use aegis_cpp.Channel.{Channel}
use aegis_cpp.Guild.{Guild, Role}
use aegis_cpp.Guild.Access.{get_role, base_permissions}
use aegis_cpp.Guild.Access.Roles.{known, base_permissions_unknown}
use aegis_cpp.Cache
use aegis_cpp.Cache.{Caches, find_user, find_guild, find_channel, user_create}
use aegis_cpp.Members.{add_member, get_guild_info}
use aegis_cpp.Members.Load.{MemberObject, read_roles, load_nolock, load_user, load_info, join_guild}
use aegis_cpp.Members.Load.Joined.{join_guild-Joined, load_info_roles}
use aegis_cpp.Members.Roles.{not_known}
use aegis_cpp.Events.{Handled, both, put_guild, put_users, load_into}
use aegis_cpp.Events.Joining.{object-assign, load_into-eq-some}
use aegis_cpp.Events.Messages.{
  Author, AuthorMember, Message, default_role, written_roles, written_user, written_member,
  is_empty_name, load_unnamed, load_author, ws_message_create,
}

read_default_roles :
    (ts : List Text)
    → contains 0 (read_roles (default_role ∷ map (λ r. default_role) ts)).roles ≡ true
unfolding read_roles stoul
read_default_roles ts = refl

-- What a written author is loaded as.
load_user-written :
    (a : Author) (u : User) (z : ℤ)
    → stoi a.discriminator ≡ some z
    → (v : User) × (load_user (written_user a) u ≡ some v)
      × (v.name ≡ a.username)
      × (v.is_bot ≡ true)
      × (v.member_id ≡ a.id)
unfolding load_user
load_user-written a u z e = (
  record u {
    member_id = a.id;
    name = a.username;
    discriminator = pattern_of z % 2 ^ 16;
    is_bot = true;
  },
  rw e refl,
  refl,
  refl,
  refl,
)

load_nolock-join_guild :
    (j : MemberObject) (p : ℕ) (u v : User) (g : Guild)
    → load_user j.user u ≡ some v
    → load_nolock j p u g ≡ join_guild j p v g
unfolding load_nolock
load_nolock-join_guild j p u v g e = rw (e, load_nolock) refl

-- A user apart from its data for the guilds.
abbrev SameUser : User → User → Type 0
SameUser v w = (w.name ≡ v.name) × (w.is_bot ≡ v.is_bot) × (w.member_id ≡ v.member_id)

join_guild-SameUser :
    (j : MemberObject) (p : ℕ) (v : User) (g : Guild) → SameUser v (join_guild j p v g).user
unfolding join_guild
join_guild-SameUser j p v g = elim (Option-cases (find_info g.guild_id v.guilds)) [
  | inl e ↦ rw (e, get_guild_info) (refl, refl, refl)
  | inr (i, e) ↦ rw (e, get_guild_info) (refl, refl, refl)
]

-- The permissions of the joined author, if the roles of the object have one that the guild has not.
join_guild_unknown :
    (j : MemberObject) (p : ℕ) (v : User) (g : Guild) (everyone : Role) (vs : List Value)
    → j.roles ≡ some vs
    → contains 0 (read_roles vs).roles ≡ true
    → get_role g 0 ≡ none
    → get_role g g.guild_id ≡ some everyone
    → (g.owner_id == v.member_id) ≡ false
    → base_permissions (join_guild j p v g).guild (join_guild j p v g).user ≡ 0
unfolding join_guild get_role get_guild_info_nocreate
join_guild_unknown j p v g everyone vs e has gone base owner =
    let (found, member) = join_guild-Joined j p v g in
    let i = (load_info g.guild_id j (get_guild_info g.guild_id v).0).info in
    base_permissions_unknown (add_member p v g) (join_guild j p v g).user everyone i
      (ap (λ x. g.owner_id == x) (join_guild-SameUser j p v g).2 ∙ owner) base found
      (subst (λ x. known (add_member p v g) x ≡ false)
        (sym (load_info_roles g.guild_id j (get_guild_info g.guild_id v).0 vs e))
        (not_known (add_member p v g) 0 (g.guild_id ∷ (read_roles vs).roles) gone
          (or_true (g.guild_id == 0) (contains 0 (read_roles vs).roles) has)))
  where
    or_true : (a b : Bool) → b ≡ true → (a || b) ≡ true
    or_true a b h = ground (arith, h)

-- What is left of the author that a message makes: its user and the guild.
abbrev Lost : Author → ℕ → ℕ → Caches → Type 0
Lost a pu pg c =
    (u : User) × (g : Guild) × (Cache.object pu c.users ≡ some u)
    × (Cache.object pg c.guilds ≡ some g)
    × (u.name ≡ a.username)
    × (u.is_bot ≡ true)
    × (base_permissions g u ≡ 0)

load_author_new :
    (a : Author) (m : AuthorMember) (c : Caches) (pg : ℕ)
    → find_user a.id c ≡ none
    → load_author (some m) a pg c ≡ (
        load_into (written_member m a) (user_create a.id c).0 pg (user_create a.id c).1
        >>= load_unnamed (some m) a (user_create a.id c).0 pg)
unfolding load_author
load_author_new a m c pg new = rw (new, load_author) refl

load_author-Lost :
    (a : Author) (m : AuthorMember) (t : Text) (ts : List Text) (c : Caches) (pg : ℕ) (g : Guild)
    (u : User) (z : ℤ) (everyone : Role)
    → find_user a.id c ≡ none
    → Cache.object (user_create a.id c).0 (user_create a.id c).1.users ≡ some u
    → Cache.object pg c.guilds ≡ some g
    → m.roles ≡ t ∷ ts
    → is_empty_name a.username ≡ false
    → stoi a.discriminator ≡ some z
    → get_role g 0 ≡ none
    → get_role g g.guild_id ≡ some everyone
    → (g.owner_id == a.id) ≡ false
    → (d : Caches) × (load_author (some m) a pg c ≡ some d) × Lost a (user_create a.id c).0 pg d
unfolding lookup written_member written_roles
load_author-Lost a m t ts c pg g u z everyone new made guild roles named number gone base owner =
    let j = written_member m a in
    let pu = (user_create a.id c).0 in
    let d = (user_create a.id c).1 in
    let (v, loaded, name, bot, id) = load_user-written a u z number in
    let r = join_guild j pu v g in
    let (same_name, same_bot, same_id) = join_guild-SameUser j pu v g in
    let vs = default_role ∷ map (λ x. default_role) ts in
    let e = put_guild pg r.guild (put_users (assign pu r.user d.users.objects) d) in
    let stored = object-assign pu r.user d.users.objects in
    let into =
      load_into-eq-some j pu pg d u g made guild
      ∙ ap (λ x. some (put_guild pg x.guild (put_users (assign pu x.user d.users.objects) d)))
          (load_nolock-join_guild j pu u v g loaded) in
    let has_name = ap is_empty_name (same_name ∙ name) ∙ named in
    let unnamed : load_unnamed (some m) a pu pg e ≡ some e = rw (stored, has_name) refl in
    (
      e,
      load_author_new a m c pg new ∙ ap (λ x. x >>= load_unnamed (some m) a pu pg) into ∙ unnamed,
      (
        r.user,
        r.guild,
        stored,
        object-assign pg r.guild c.guilds.objects,
        same_name ∙ name,
        same_bot ∙ bot,
        join_guild_unknown j pu v g everyone vs (ap written_roles roles) (read_default_roles ts)
            gone base (ap (λ x. g.owner_id == x) id ∙ owner),
      ),
    )

-- The first message in a channel that points to a guild by an author that is no webhook and not the owner, with a name,
-- a discriminator that is a number, and at least one role: the handler makes the author a user that counts as a
-- bot, and whose base permissions in the guild are 0, if the guild has the role of everyone and none with the
-- identifier 0.
pub ws_message_create-Lost :
    (j : Message) (m : AuthorMember) (t : Text) (ts : List Text) (c : Caches) (ch : Channel)
    (pc pg : ℕ) (g : Guild) (u : User) (z : ℤ) (everyone : Role)
    → find_channel j.channel_id c ≡ some pc
    → Cache.object pc c.channels ≡ some ch
    → (ch.guild_id == 0) ≡ false
    → ch.guild ≡ some pg
    → j.webhook ≡ false
    → j.member ≡ some m
    → find_user j.author.id c ≡ none
    → Cache.object (user_create j.author.id c).0 (user_create j.author.id c).1.users ≡ some u
    → Cache.object pg c.guilds ≡ some g
    → m.roles ≡ t ∷ ts
    → is_empty_name j.author.username ≡ false
    → stoi j.author.discriminator ≡ some z
    → get_role g 0 ≡ none
    → get_role g g.guild_id ≡ some everyone
    → (g.owner_id == j.author.id) ≡ false
    → (h : Handled) × (ws_message_create j c ≡ some h)
      × Lost j.author (user_create j.author.id c).0 pg h.caches
unfolding ws_message_create
ws_message_create-Lost j m t ts c ch pc pg g u z everyone at channel in_guild points webhook member
      new made guild roles named number gone base owner =
    let (d, e, lost) =
      load_author-Lost j.author m t ts c pg g u z everyone new made guild roles named number gone
        base owner in
    (both d, rw (at, channel, in_guild, webhook, points, member, e, ws_message_create) refl, lost)
