-- ===== src/Members/Load/Data.antt =====
-- user::_load_data of include/aegis/impl/user.cpp: a user takes over what a message says of its author. A text that
-- is empty is `none`, but for the discriminator, which is read as a number.
use aegis_cpp.Common.{◌%◌, ◌^◌, ◌≡◌, refl, Bool, true, false, Option, none, some}
use aegis_cpp.Common.Int.{ℤ}
use aegis_cpp.Common.Text.{Text, bytes, stoi}
use aegis_cpp.Json.{pattern_of}
use aegis_cpp.User.{User, new_user}
use aegis_cpp.Members.Load.{or_else}
use Prim.Native.String.{String}

pub record Author : Type 0 where
  pub username : Option String
  pub avatar : Option String
  pub discriminator : Text
  pub is_bot : Bool

-- The user, and whether no exception came.
pub record LoadedUser : Type 0 where
  pub user : User
  pub ended : Bool

-- The discriminator is read if there is an avatar; `stoi` may throw, and the flag is set behind it.
unfoldable pub load_data : Author → User → LoadedUser
load_data a u = by_avatar a.avatar
  where
    named : User
    named = record u { name = or_else u.name a.username; avatar = or_else u.avatar a.avatar }

    converted : Option ℤ → LoadedUser
    converted none = record { user = named; ended = false }
    converted (some z) = record {
      user = record named { discriminator = pattern_of z % 2 ^ 16; is_bot = a.is_bot };
      ended = true;
    }

    by_avatar : Option String → LoadedUser
    by_avatar none = record { user = record named { is_bot = a.is_bot }; ended = true }
    by_avatar (some _) = converted (stoi a.discriminator)

-- Without an avatar, the discriminator of the author is lost.
no_avatar :
    (load_data
      (record { username = some "a"; avatar = none; discriminator = bytes "12"; is_bot = true })
      (new_user 5)).user.discriminator
    ≡ 0
unfolding load_data new_user
no_avatar = refl

-- With one, it is taken over.
with_avatar :
    (load_data
      (record { username = some "a"; avatar = some "b"; discriminator = bytes "12"; is_bot = true })
      (new_user 5)).user.discriminator
    ≡ 12
unfolding load_data new_user stoi
with_avatar = refl

-- An author with an avatar and no discriminator ends the message that is read.
no_discriminator :
    (load_data
      (record { username = none; avatar = some "b"; discriminator = bytes ""; is_bot = true })
      (new_user 5)).ended
    ≡ false
unfolding load_data stoi
no_discriminator = refl
