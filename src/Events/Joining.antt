-- ===== src/Events/Joining.antt =====
-- The event of a member that joins a cached guild.
use aegis_cpp.Common.{
  ℕ, ◌==◌, ◌≡◌, refl, ap, ◌∙◌, true, List, ◌∷◌, some, ◌>>=◌, if◌then◌else◌, arith,
}
use aegis_cpp.Common.Map.{Map, lookup, assign, is_some, lookup-assign}
use aegis_cpp.User.{User, GuildInfo, find_info}
use aegis_cpp.Guild.{Guild}
use aegis_cpp.Json.{Value}
use aegis_cpp.Cache.{Caches, object, user_create, find_guild}
use aegis_cpp.Members.{find_member}
use aegis_cpp.Members.Load.{MemberObject, load_nolock, load_user, read_roles}
use aegis_cpp.Members.Load.Joined.{load_nolock-Joined}
use aegis_cpp.Events.{Handled, both, put_guild, put_users, load_into, ws_guild_member_add}

eq_refl : (k : ℕ) → (k == k) ≡ true
eq_refl k = ground arith

pub object-assign {ℓ} : {V : Type ℓ} (p : ℕ) (v : V) (m : Map V) → lookup p (assign p v m) ≡ some v
object-assign p v m = lookup-assign p p v m ∙ ap (λ b. if b then some v else lookup p m) (eq_refl p)

pub load_into-eq-some :
    (j : MemberObject) (pu pg : ℕ) (c : Caches) (u : User) (g : Guild)
    → object pu c.users ≡ some u
    → object pg c.guilds ≡ some g
    → load_into j pu pg c
      ≡ some (
          put_guild pg
            (load_nolock j pu u g).guild
            (put_users (assign pu (load_nolock j pu u g).user c.users.objects) c))
unfolding lookup
load_into-eq-some j pu pg c u g a b = rw (a, b) refl

-- A user whose fields are read without an exception joins a cached guild: the handler returns, the user is a
-- member of the guild afterwards, and its data for the guild has the role of everyone and then the roles of
-- the event, as far as they are read.
pub ws_guild_member_add-Joined :
    (id pg : ℕ) (j : MemberObject) (c : Caches) (g : Guild) (u v : User) (vs : List Value)
    → find_guild id c ≡ some pg
    → object pg c.guilds ≡ some g
    → object (user_create j.user.id c).0 (user_create j.user.id c).1.users ≡ some u
    → load_user j.user u ≡ some v
    → j.roles ≡ some vs
    → (h : Handled) × (g' : Guild) × (u' : User) × (i : GuildInfo) × (ws_guild_member_add id j c
        ≡ some h)
      × (object pg h.caches.guilds ≡ some g')
      × (object (user_create j.user.id c).0 h.caches.users ≡ some u')
      × (is_some (find_member v.member_id g') ≡ true)
      × (find_info g.guild_id u'.guilds ≡ some i)
      × (i.roles ≡ g.guild_id ∷ (read_roles vs).roles)
unfolding ws_guild_member_add lookup
ws_guild_member_add-Joined id pg j c g u v vs cached guild user fields roles =
    let pu = (user_create j.user.id c).0 in
    let d = (user_create j.user.id c).1 in
    let r = load_nolock j pu u g in
    let (member, i, found, has) = load_nolock-Joined j pu u v g vs fields roles in
    (
      both (put_guild pg r.guild (put_users (assign pu r.user d.users.objects) d)),
      r.guild,
      r.user,
      i,
      rw cached (ap (λ x. x >>= λ e. some (both e)) (load_into-eq-some j pu pg d u g user guild)),
      object-assign pg r.guild c.guilds.objects,
      object-assign pu r.user d.users.objects,
      member,
      found,
      has,
    )
