-- ===== src/Cache/Counts.antt =====
-- The counts of core in include/aegis/impl/core.cpp, and what a new guild changes of them.
use aegis_cpp.Common.{
  ℕ, suc, ◌+◌, ◌<◌, ◌≡◌, refl, ap, ◌∙◌, [], ◌∷◌, Option, none, some, ◌>>=◌, All, length, ◌-◌, leb,
  true, false, arith,
}
use aegis_cpp.Common.Int.{ℤ, pos, negsuc, ◌+ℤ◌}
use aegis_cpp.Common.Map.{Map, emplace}
use aegis_cpp.Guild.{Guild, new_guild}
use aegis_cpp.Cache.{Cache, Caches, find, insert, object, create, guild_create}
use aegis_cpp.Cache.Pointers.{object-create}
use aegis_cpp.Objects.{int32}
use aegis_cpp.Cache.Lookups.{stored}

-- guild::get_member_count
abbrev pub members_of : Guild → ℤ
members_of g = int32 (pos (length g.members))

-- The loop over the guilds, which follows each pointer.
unfoldable pub add_counts : Cache Guild → Map ℕ → Option ℤ
add_counts c [] = some (pos 0)
add_counts c ((id, p) ∷ m) = do g ← object p c; rest ← add_counts c m; some (members_of g +ℤ rest)

-- core::get_member_count; `none` if a pointer dangles.
abbrev pub get_member_count : Caches → Option ℤ
get_member_count c = add_counts c.guilds c.guilds.live

-- core::get_user_count
abbrev pub get_user_count : Caches → ℕ
get_user_count c = length c.users.live

-- core::get_channel_count
abbrev pub get_channel_count : Caches → ℕ
get_channel_count c = length c.channels.live

-- core::get_guild_count
abbrev pub get_guild_count : Caches → ℕ
get_guild_count c = length c.guilds.live

-- Each pointer of the guilds is one that was handed out.
abbrev pub AreOld : Caches → Type 0
AreOld c = All (λ e. e.1 < c.guilds.fresh) c.guilds.live

add_counts-create :
    (id : ℕ) (v : Guild) (c : Cache Guild) (m : Map ℕ)
    → All (λ e. e.1 < c.fresh) m
    → add_counts (create id v c).1 m ≡ add_counts c m
unfolding add_counts
add_counts-create id v c [] h = refl
add_counts-create id v c ((k, p) ∷ m) (h, hs) =
    rw (object-create id p v c h, add_counts-create id v c m hs) refl

create-find :
    (id : ℕ) (v : Guild) (c : Cache Guild) → find id c ≡ none → (create id v c).1 ≡ insert id v c
create-find id v c e = rw (e, create) refl

live-insert :
    (id : ℕ) (v : Guild) (c : Cache Guild)
    → find id c ≡ none
    → (insert id v c).live ≡ (id, c.fresh) ∷ c.live
unfolding emplace
live-insert id v c e = rw e refl

zero_add : (z : ℤ) → pos 0 +ℤ z ≡ z
unfolding ◌+ℤ◌
zero_add (pos n) = rw (is_least n) (ap pos (minus_zero n))
  where
    is_least : (n : ℕ) → leb (0 + 0) (0 + n) ≡ true
    is_least n = ground arith

    minus_zero : (n : ℕ) → 0 + n - (0 + 0) ≡ n
    minus_zero n = omega arith
zero_add (negsuc n) = rw (is_less n) (ap negsuc (minus n))
  where
    is_less : (n : ℕ) → leb (0 + suc n) (0 + 0) ≡ false
    is_less n = ground arith

    minus : (n : ℕ) → 0 + suc n - (0 + 0) - 1 ≡ n
    minus n = omega arith

add_nothing : (o : Option ℤ) → (o >>= (λ z. some (pos 0 +ℤ z))) ≡ o
add_nothing none = refl
add_nothing (some z) = ap some (zero_add z)

new_members : (shard_id id : ℕ) → members_of (new_guild shard_id id) ≡ pos 0
new_members shard_id id = refl

object-created :
    (id : ℕ) (v : Guild) (c : Cache Guild)
    → find id c ≡ none
    → object c.fresh (create id v c).1 ≡ some v
object-created id v c e =
    ap (λ d. object c.fresh d) (create-find id v c e) ∙ stored c.fresh v c.objects

live-create :
    (id : ℕ) (v : Guild) (c : Cache Guild)
    → find id c ≡ none
    → (create id v c).1.live ≡ (id, c.fresh) ∷ c.live
live-create id v c e = ap (λ d. d.live) (create-find id v c e) ∙ live-insert id v c e

add_counts-created :
    (id shard_id : ℕ) (c : Cache Guild)
    → All (λ e. e.1 < c.fresh) c.live
    → find id c ≡ none
    → add_counts (create id (new_guild shard_id id) c).1 ((id, c.fresh) ∷ c.live)
      ≡ add_counts c c.live
unfolding add_counts
add_counts-created id shard_id c h e =
    let v = new_guild shard_id id in
    rw (object-created id v c e, new_members shard_id id, add_counts-create id v c c.live h)
      (add_nothing (add_counts c c.live))

-- A guild that is not in the cache adds one to the number of guilds, and nothing to the number of members, if the
-- pointers of the guilds were handed out.
pub guild_create-counts :
    (id shard_id : ℕ) (c : Caches)
    → AreOld c
    → find id c.guilds ≡ none
    → (get_guild_count (guild_create id shard_id c).1 ≡ suc (get_guild_count c))
      × (get_member_count (guild_create id shard_id c).1 ≡ get_member_count c)
guild_create-counts id shard_id c h e =
    let v = new_guild shard_id id in
    let k = live-create id v c.guilds e in
    (
      ap length k,
      ap (λ m. add_counts (create id v c.guilds).1 m) k
          ∙ add_counts-created id shard_id c.guilds h e,
    )
