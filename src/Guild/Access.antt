-- ===== src/Guild/Access.antt =====
-- The permissions of a member: `get_role`, `base_permissions`, `compute_overwrites` and
-- `get_permissions` of include/aegis/impl/guild.cpp. A C++ exception is `none`; the `catch` clauses
-- turn it into 0. `~0` is the `int` -1, widened to all ones.
pub mod Precedence
pub mod Roles
mod Examples
use aegis_cpp.Common.{
  ◌>>=◌, ℕ, ◌-◌, ◌^◌, ◌==◌, Bool, true, false, List, [], ◌∷◌, Option, none, some, if◌then◌else◌,
  bit_and, bit_or, complement,
}
use aegis_cpp.Common.Map.{Map, lookup}
use aegis_cpp.Permission.{get_allow_perms}
use aegis_cpp.User.{User, GuildInfo, get_guild_info_nocreate}
use aegis_cpp.Channel.{Channel, PermissionOverwrite}
use aegis_cpp.Guild.{Guild, Role}

-- The handler `catch (std::exception &) { return 0; }`.
abbrev pub or_zero : Option ℕ → ℕ
or_zero none = 0
or_zero (some p) = p

abbrev pub all_ones : ℕ
all_ones = 2 ^ 64 - 1

-- `if (permissions & 0x8)`
abbrev pub is_admin_mask : ℕ → Bool
is_admin_mask p = if bit_and p 0x8 == 0 then false else true

-- The loop over `roles` in `get_role`, which compares the `role_id` of the entries.
unfoldable pub find_role : ℕ → Map Role → Option Role
find_role r [] = none
find_role r ((_, role) ∷ rs) = if role.role_id == r then some role else find_role r rs

-- `none` is the exception `std::out_of_range`.
unfoldable pub get_role : Guild → ℕ → Option Role
get_role g r = find_role r g.roles

-- for (auto & rl : g->roles) permissions |= get_role(rl)._permission.get_allow_perms();
pub add_roles : Guild → ℕ → List ℕ → Option ℕ
add_roles g permissions [] = some permissions
add_roles g permissions (rl ∷ rls) = do
  role ← get_role g rl
  add_roles g (bit_or permissions (get_allow_perms role.permission)) rls

-- The part of the body behind the look-up of the member's entry.
with_roles : Guild → ℕ → Option GuildInfo → Option ℕ
with_roles g permissions none = some 0
with_roles g permissions (some info) = do
  total ← add_roles g permissions info.roles
  some (if is_admin_mask total then all_ones else total)

-- The body of `try`.
base_body : Guild → User → Option ℕ
base_body g u =
    if g.owner_id == u.member_id
    then some all_ones
    else get_role g g.guild_id >>= λ everyone.
        with_roles g (get_allow_perms everyone.permission) (get_guild_info_nocreate u g.guild_id)

pub base_permissions : Guild → User → ℕ
unfolding base_body with_roles
base_permissions g u = or_zero (base_body g u)

-- permissions &= ~deny; permissions |= allow;
abbrev pub apply_overwrite : ℕ → ℕ → ℕ → ℕ
apply_overwrite permissions deny allow = bit_or (bit_and permissions (complement 64 deny)) allow

abbrev pub overwrite_with : Option PermissionOverwrite → ℕ → ℕ
overwrite_with none permissions = permissions
overwrite_with (some o) permissions = apply_overwrite permissions o.deny o.allow

pub record Masks : Type 0 where
  pub allow : ℕ
  pub deny : ℕ

abbrev pub collect : Option PermissionOverwrite → Masks → Masks
collect none m = m
collect (some o) m = record { allow = bit_or m.allow o.allow; deny = bit_or m.deny o.deny }

-- The loop over the member's roles, which skips the role of everyone.
pub role_masks : ℕ → Map PermissionOverwrite → Masks → List ℕ → Masks
role_masks guild overwrites m [] = m
role_masks guild overwrites m (rl ∷ rls) =
    role_masks guild overwrites (if rl == guild then m else collect (lookup rl overwrites) m) rls

abbrev pub no_masks : Masks
no_masks = record { allow = 0; deny = 0 }

with_info : ℕ → User → Map PermissionOverwrite → ℕ → Option GuildInfo → ℕ
with_info guild u overwrites permissions none = 0
with_info guild u overwrites permissions (some info) =
    let m = role_masks guild overwrites no_masks info.roles in
    overwrite_with (lookup u.member_id overwrites) (apply_overwrite permissions m.deny m.allow)

pub compute_overwrites : Guild → ℕ → User → Channel → ℕ
unfolding with_info
compute_overwrites g base u c =
    if is_admin_mask base
    then all_ones
    else with_info g.guild_id u c.overrides (overwrite_with (lookup g.guild_id c.overrides) base)
        (get_guild_info_nocreate u g.guild_id)

-- get_permissions(const user *, const channel *), where `none` is a null pointer.
pub get_permissions : Guild → Option User → Option Channel → ℕ
get_permissions g none c = 0
get_permissions g (some u) none = 0
get_permissions g (some u) (some c) = compute_overwrites g (base_permissions g u) u c
