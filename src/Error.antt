-- ===== src/Error.antt =====
-- include/aegis/error.hpp: the errors of the library, their numbers and their messages.
use aegis_cpp.Common.{ℕ, ◌==◌, if◌then◌else◌}
use aegis_cpp.Common.Text.{Text, bytes}

pub data Error : Type 0 where
  general invalid_token invalid_state get_gateway no_gateway no_permission not_implemented : Error
  member_not_found channel_not_found guild_not_found rate_limited global_rate_limited : Error
  member_error channel_error guild_error shard_error bad_request bad_redis_request : Error
  bulk_delete_out_of_range invalid_intents disallowed_intents max_errors : Error

-- The values of the enum, which begins with 1.
unfoldable pub value : Error → ℕ
value general = 1
value invalid_token = 2
value invalid_state = 3
value get_gateway = 4
value no_gateway = 5
value no_permission = 6
value not_implemented = 7
value member_not_found = 8
value channel_not_found = 9
value guild_not_found = 10
value rate_limited = 11
value global_rate_limited = 12
value member_error = 13
value channel_error = 14
value guild_error = 15
value shard_error = 16
value bad_request = 17
value bad_redis_request = 18
value bulk_delete_out_of_range = 19
value invalid_intents = 20
value disallowed_intents = 21
value max_errors = 22

-- category::message.
unfoldable pub message : ℕ → Text
message val =
    if val == 1
    then bytes "Generic error"
    else if val == 2
    then bytes "Token invalid"
    else if val == 3
    then bytes "Invalid state"
    else if val == 4
    then bytes "Unable to retrieve gateway data"
    else if val == 5
    then bytes "No gateway url set"
    else if val == 6
    then bytes "No permission for this action"
    else if val == 7
    then bytes "Feature not yet implemented"
    else if val == 8
    then bytes "Member not found"
    else if val == 9
    then bytes "Channel not found"
    else if val == 10
    then bytes "Guild not found"
    else if val == 11
    then bytes "Rate limited"
    else if val == 12
    then bytes "Globally rate limited"
    else if val == 13
    then bytes "Member related error"
    else if val == 14
    then bytes "Channel related error"
    else if val == 15
    then bytes "Guild related error"
    else if val == 16
    then bytes "Shard related error"
    else if val == 17
    then bytes "Bad request"
    else if val == 18
    then bytes "Bad Redis request"
    else if val == 19
    then bytes "Bulk delete invalid message amount"
    else if val == 20
    then bytes "Invalid intents"
    else if val == 21
    then bytes "Disallowed intents"
    else bytes "Unknown"
