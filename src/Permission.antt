-- ===== src/Permission.antt =====
-- include/aegis/permission.hpp: a set of permissions as a bit mask. `_allow_permissions` is an
-- `int64_t`, kept as its bit pattern, a number below 2 ^ 64. Each mask is below 2 ^ 31, so that a
-- masked value is not negative and `> 0` asks whether it is zero.
pub mod Flags
mod Examples
use aegis_cpp.Common.{ℕ, Bool, ltb, bit_and}

pub record Permission : Type 0 where
  pub allow_permissions : ℕ

-- permission(int64_t)
abbrev pub permission : ℕ → Permission
permission allow = record { allow_permissions = allow }

abbrev pub get_allow_perms : Permission → ℕ
get_allow_perms p = p.allow_permissions

-- `(_allow_permissions & mask) > 0`, the body of each test below.
abbrev pub has : ℕ → Permission → Bool
has mask p = ltb 0 (bit_and p.allow_permissions mask)

-- `_allow_permissions = (_allow_permissions & mask)`, the body of each setter below.
abbrev pub keep : ℕ → Permission → Permission
keep mask p = permission (bit_and p.allow_permissions mask)

abbrev pub can_invite : Permission → Bool
can_invite = has 0x1

abbrev pub can_kick : Permission → Bool
can_kick = has 0x2

abbrev pub can_ban : Permission → Bool
can_ban = has 0x4

abbrev pub is_admin : Permission → Bool
is_admin = has 0x8

abbrev pub can_manage_channels : Permission → Bool
can_manage_channels = has 0x10

abbrev pub can_manage_guild : Permission → Bool
can_manage_guild = has 0x20

abbrev pub can_add_reactions : Permission → Bool
can_add_reactions = has 0x40

abbrev pub can_view_audit_logs : Permission → Bool
can_view_audit_logs = has 0x80

abbrev pub can_read_messages : Permission → Bool
can_read_messages = has 0x400

abbrev pub can_send_messages : Permission → Bool
can_send_messages = has 0x800

abbrev pub can_tts : Permission → Bool
can_tts = has 0x1000

abbrev pub can_manage_messages : Permission → Bool
can_manage_messages = has 0x2000

abbrev pub can_embed : Permission → Bool
can_embed = has 0x4000

abbrev pub can_attach_files : Permission → Bool
can_attach_files = has 0x8000

abbrev pub can_read_history : Permission → Bool
can_read_history = has 0x10000

abbrev pub can_mention_everyone : Permission → Bool
can_mention_everyone = has 0x20000

abbrev pub can_external_emoiji : Permission → Bool
can_external_emoiji = has 0x40000

abbrev pub can_change_name : Permission → Bool
can_change_name = has 0x4000000

abbrev pub can_manage_names : Permission → Bool
can_manage_names = has 0x8000000

abbrev pub can_manage_roles : Permission → Bool
can_manage_roles = has 0x10000000

abbrev pub can_manage_webhooks : Permission → Bool
can_manage_webhooks = has 0x20000000

abbrev pub can_manage_emojis : Permission → Bool
can_manage_emojis = has 0x40000000

abbrev pub can_voice_connect : Permission → Bool
can_voice_connect = has 0x100000

abbrev pub can_voice_mute : Permission → Bool
can_voice_mute = has 0x400000

abbrev pub can_voice_speak : Permission → Bool
can_voice_speak = has 0x200000

abbrev pub can_voice_deafen : Permission → Bool
can_voice_deafen = has 0x800000

abbrev pub can_voice_move : Permission → Bool
can_voice_move = has 0x1000000

abbrev pub can_voice_activity : Permission → Bool
can_voice_activity = has 0x2000000

abbrev pub has_priority_speaker : Permission → Bool
has_priority_speaker = has 0x100

abbrev pub set_invite : Permission → Permission
set_invite = keep 0x1

abbrev pub set_kick : Permission → Permission
set_kick = keep 0x2

abbrev pub set_ban : Permission → Permission
set_ban = keep 0x4

abbrev pub set_admin : Permission → Permission
set_admin = keep 0x8

abbrev pub set_manage_channels : Permission → Permission
set_manage_channels = keep 0x10

abbrev pub set_manage_guild : Permission → Permission
set_manage_guild = keep 0x20

abbrev pub set_add_reactions : Permission → Permission
set_add_reactions = keep 0x40

abbrev pub set_view_audit_logs : Permission → Permission
set_view_audit_logs = keep 0x80

abbrev pub set_read_messages : Permission → Permission
set_read_messages = keep 0x400

abbrev pub set_send_messages : Permission → Permission
set_send_messages = keep 0x800

abbrev pub set_tts : Permission → Permission
set_tts = keep 0x1000

abbrev pub set_manage_messages : Permission → Permission
set_manage_messages = keep 0x2000

abbrev pub set_embed : Permission → Permission
set_embed = keep 0x4000

abbrev pub set_attach_files : Permission → Permission
set_attach_files = keep 0x8000

abbrev pub set_read_history : Permission → Permission
set_read_history = keep 0x10000

abbrev pub set_mention_everyone : Permission → Permission
set_mention_everyone = keep 0x20000

abbrev pub set_external_emoiji : Permission → Permission
set_external_emoiji = keep 0x40000

abbrev pub set_change_name : Permission → Permission
set_change_name = keep 0x4000000

abbrev pub set_manage_names : Permission → Permission
set_manage_names = keep 0x8000000

abbrev pub set_manage_roles : Permission → Permission
set_manage_roles = keep 0x10000000

abbrev pub set_manage_webhooks : Permission → Permission
set_manage_webhooks = keep 0x20000000

abbrev pub set_manage_emojis : Permission → Permission
set_manage_emojis = keep 0x40000000

abbrev pub set_voice_connect : Permission → Permission
set_voice_connect = keep 0x100000

abbrev pub set_voice_mute : Permission → Permission
set_voice_mute = keep 0x400000

abbrev pub set_voice_speak : Permission → Permission
set_voice_speak = keep 0x200000

abbrev pub set_voice_deafen : Permission → Permission
set_voice_deafen = keep 0x800000

abbrev pub set_voice_move : Permission → Permission
set_voice_move = keep 0x1000000

abbrev pub set_voice_activity : Permission → Permission
set_voice_activity = keep 0x2000000
