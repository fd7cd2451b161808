-- ===== src/Objects/Examples.antt =====
-- An embed, an emoji, a voice state and a role that are written and read.
use aegis_cpp.Common.{◌≡◌, refl, false, true, [], ◌∷◌, none, some, arith}
use aegis_cpp.Common.Int.{pos, negsuc}
use aegis_cpp.Common.Text.{bytes}
use aegis_cpp.Permission.{permission}
use aegis_cpp.Guild.{Emoji, VoiceState, Role}
use aegis_cpp.Objects.Embed.{
  Embed, new_footer, new_image, new_video, new_provider, embed_from_json, embed_to_json,
}
use aegis_cpp.Objects.Embed.Shown.{embed_from_json-to_json}
use aegis_cpp.Objects.Things.{
  emoji_from_json, emoji_to_json, voice_state_from_json, voice_state_to_json, role_from_json,
  role_to_json,
}
use aegis_cpp.Objects.Things.Kept.{
  emoji_from_json-to_json, voice_state_from_json-to_json, role_from_json-to_json,
}

abbrev news : Embed
news = record {
  title = bytes "news";
  type = bytes "rich";
  description = bytes "more";
  url = [];
  timestamp = [];
  color = negsuc 0;
  footer = record new_footer { icon_url = bytes "i" };
  image = record new_image { url = bytes "u"; proxy_url = bytes "p"; height = pos 3 };
  thumbnail = new_image;
  video = new_video;
  provider = new_provider;
  fields = record { name = bytes "n"; value = bytes "v"; is_inline = true } ∷ [];
}

-- The footer goes with its icon, since it has no text.
abbrev read_news : Embed
read_news = record news {
  type = [];
  footer = new_footer;
  image = record new_image { url = bytes "u"; height = pos 3 };
}

embed_from_json-to_json_example : embed_from_json (embed_to_json news) ≡ some read_news
embed_from_json-to_json_example = embed_from_json-to_json news refl refl refl refl refl

abbrev smile : Emoji
smile = record {
  id = 9;
  name = bytes "smile";
  roles = [];
  user = 5;
  require_colons = true;
  managed = false;
  animated = false;
}

emoji_from_json-to_json_example : emoji_from_json (emoji_to_json smile) ≡ none
emoji_from_json-to_json_example = emoji_from_json-to_json smile (omega arith)

abbrev voice : VoiceState
voice = record {
  guild_id = 7;
  channel_id = 3;
  user_id = 5;
  session_id = bytes "s";
  deaf = false;
  mute = true;
  self_deaf = false;
  self_mute = false;
  suppress = false;
  self_stream = false;
}

voice_state_from_json-to_json_example :
    voice_state_from_json (voice_state_to_json voice) ≡ some (record voice { channel_id = 0 })
voice_state_from_json-to_json_example =
    voice_state_from_json-to_json voice (omega arith) (omega arith)

abbrev moderator : Role
moderator = record {
  color = 0xff0000;
  id = 11;
  role_id = 0;
  name = bytes "moderator";
  permission = permission 0x2000;
  position = 2;
  hoist = true;
  managed = true;
  mentionable = false;
}

role_from_json-to_json_example :
    role_from_json (role_to_json moderator)
    ≡ some (record moderator { role_id = 11; managed = false })
role_from_json-to_json_example =
    role_from_json-to_json moderator (omega arith) (omega arith) (omega arith) (omega arith)
