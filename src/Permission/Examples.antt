-- ===== src/Permission/Examples.antt =====
-- Tests of permission.hpp.
use aegis_cpp.Common.{◌≡◌, refl, true, false}
use aegis_cpp.Permission.{permission, can_ban, can_kick, set_ban}
use aegis_cpp.Permission.Flags.{kick, ban, can, set, can-set}

-- Setting a flag on an empty set leaves it empty, and on a full one drops the others.
set_ban_empty : can_ban (set_ban (permission 0)) ≡ false
set_ban_empty = refl

set_ban_drops : can_kick (set_ban (permission 0x7fff_ffff)) ≡ false
set_ban_drops = refl

can_lem_example : can ban (permission 6) ≡ true
unfolding can
can_lem_example = refl

can-set_example : can kick (set ban (permission 0x6)) ≡ false
unfolding can
can-set_example = can-set ban kick (permission 0x6) (λ e. cc)
