-- ===== src/Members/Load/Examples.antt =====
-- A member that joins a guild with one role.
use aegis_cpp.Common.{◌≡◌, refl, true, false, [], ◌∷◌, none, some}
use aegis_cpp.Common.Text.{bytes, stoi, stoll, stoul, skip_spaces, read_number, read_digits}
use aegis_cpp.Json.{string, boolean}
use aegis_cpp.User.{User, new_user}
use aegis_cpp.Members.Load.{MemberObject, load_user, read_roles}

abbrev member : MemberObject
member = record {
  user = record {
    id = 5;
    username = some "ada";
    avatar = none;
    discriminator = some (bytes "0042");
    bot = some (boolean false);
  };
  deaf = none;
  mute = none;
  joined_at = none;
  roles = some (string (bytes "11") ∷ []);
  nick = none;
}

-- The user is taken for a bot, since `"bot": false` is not null.
abbrev ada : User
ada = record (new_user 5) { name = "ada"; discriminator = 42; is_bot = true }

reads : load_user member.user (new_user 5) ≡ some ada
unfolding load_user stoi stoll skip_spaces read_number read_digits new_user
reads = refl

roles : (read_roles (string (bytes "11") ∷ [])).roles ≡ 11 ∷ []
unfolding read_roles stoul skip_spaces read_number read_digits
roles = refl
