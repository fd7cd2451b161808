-- ===== src/Core/Examples.antt =====
-- A direct message to a user whose channel is known.
use aegis_cpp.Common.{◌≡◌, refl, some}
use aegis_cpp.Json.Print.{print}
use aegis_cpp.User.{new_user}
use aegis_cpp.Core.{DirectMessage, create_dm_message}

known_channel :
    create_dm_message print (some (record (new_user 2) { dm_id = 9 })) 2
    ≡ DirectMessage.message_in 9
unfolding create_dm_message
known_channel = refl
