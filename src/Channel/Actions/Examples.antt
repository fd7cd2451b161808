-- ===== src/Channel/Actions/Examples.antt =====
-- Runs of the actions of a channel.
use aegis_cpp.Common.{◌≡◌, none}
use aegis_cpp.Common.Int.{pos}
use aegis_cpp.Common.Text.{bytes}
use aegis_cpp.Json.Print.{print}
use aegis_cpp.User.{User, new_user}
use aegis_cpp.Channel.{Channel, new_channel}
use aegis_cpp.Action.{throws}
use aegis_cpp.Channel.Actions.{GetMessagesType, get_messages}
use aegis_cpp.Channel.Actions.Guard.{ChannelAction, run, Fits, verdict, run-Fits}

abbrev channel : Channel
channel = new_channel 3 0

abbrev bot : User
bot = new_user 2

abbrev reaction : ChannelAction
reaction = ChannelAction.create_reaction 9 (bytes "a:1")

run-Fits_example :
    Fits channel (verdict none bot channel reaction) (run print print none bot channel reaction)
run-Fits_example = run-Fits print print none bot channel reaction

-- The last messages without a limit: an exception.
no_limit :
    get_messages print print none bot channel
      (record { type = GetMessagesType.last; message_id = 0; limit = pos 0 })
    ≡ throws
no_limit = run-Fits print print none bot channel (
    ChannelAction.get_messages
      (record { type = GetMessagesType.last; message_id = 0; limit = pos 0 }))
