-- ===== src/Cache/Examples.antt =====
-- A guild that is made and removed twice.
use aegis_cpp.Common.{ℕ, ◌≡◌, refl, none}
use aegis_cpp.Common.Map.{lookup, erase, assign, emplace}
use aegis_cpp.Cache.{Cache, empty, create, remove, object}

abbrev twice : Cache ℕ
twice = (create 9 1 (remove 9 (create 9 0 empty).1)).1

removed_twice : object 1 (remove 9 twice) ≡ none
unfolding lookup erase assign emplace
removed_twice = refl
