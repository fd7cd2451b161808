-- ===== src/Guild/Actions/Examples.antt =====
-- Runs of the actions of a guild.
use aegis_cpp.Common.{◌≡◌, refl, false, [], ◌∷◌, none, some}
use aegis_cpp.Common.Int.{pos}
use aegis_cpp.Common.Text.{bytes}
use aegis_cpp.Json.Print.{print}
use aegis_cpp.Permission.{permission}
use aegis_cpp.User.{User, new_user, guild_info}
use aegis_cpp.Guild.{Guild, Role, new_guild}
use aegis_cpp.Error.{Error}
use aegis_cpp.Action.{refused}
use aegis_cpp.Guild.Actions.{ModifyGuild, modify_guild}
use aegis_cpp.Guild.Actions.Guard.{
  GuildAction, Answers, is_allowed, is_implemented, run, run-Answers, modify_guild_owner,
}

abbrev everyone : Role
everyone = record {
  color = 0;
  id = 7;
  role_id = 7;
  name = bytes "@everyone";
  permission = permission 0x24;
  position = 0;
  hoist = false;
  managed = false;
  mentionable = false;
}

-- Everyone may ban and manage the guild 7 of the owner 1.
abbrev guild : Guild
guild = record (new_guild 0 7) { roles = (7, everyone) ∷ []; owner_id = 1 }

abbrev bot : User
bot = record (new_user 2) { guilds = guild_info 7 ∷ [] }

abbrev ban : GuildAction
ban = GuildAction.create_guild_ban 5 (pos 1) (bytes "spam")

run-Answers_example :
    Answers (is_allowed guild bot ban) (is_implemented ban) (run print guild bot ban)
run-Answers_example = run-Answers print guild bot ban

abbrev to_user_5 : ModifyGuild
to_user_5 = record {
  name = none;
  voice_region = none;
  verification_level = none;
  default_message_notifications = none;
  explicit_content_filter = none;
  afk_channel_id = none;
  afk_timeout = none;
  icon = none;
  owner_id = some 5;
  splash = none;
}

-- The owner, who names another user, is refused as well.
abbrev owner : User
owner = record (new_user 1) { guilds = guild_info 7 ∷ [] }

handing_over : modify_guild print guild owner to_user_5 ≡ refused Error.no_permission
unfolding new_user
handing_over = modify_guild_owner print guild owner to_user_5 refl
