-- ===== src/Permission/Flags.antt =====
-- The flags of a permission set as data, with the test and the setter of each, and what those
-- methods do to the bits.
use aegis_cpp.Common.{
  ℕ, ◌^◌, ◌≡◌, ◌≢◌, refl, Bool, ◌&&◌, ◌==◌, arith, bit_and, test_bit, test_bit_value,
  test_bit-bit_and, test_bit_two_pow, bit_and_field,
}
use native.Mathlib.Nat.{one-le-pow}
use aegis_cpp.Permission.{Permission, has}
use aegis_cpp.Permission.{
  can_invite, can_kick, can_ban, is_admin, can_manage_channels, can_manage_guild, can_add_reactions,
  can_view_audit_logs, can_read_messages, can_send_messages, can_tts, can_manage_messages,
  can_embed, can_attach_files, can_read_history, can_mention_everyone, can_external_emoiji,
  can_change_name, can_manage_names, can_manage_roles, can_manage_webhooks, can_manage_emojis,
  can_voice_connect, can_voice_mute, can_voice_speak, can_voice_deafen, can_voice_move,
  can_voice_activity, has_priority_speaker, set_invite, set_kick, set_ban, set_admin,
  set_manage_channels, set_manage_guild, set_add_reactions, set_view_audit_logs, set_read_messages,
  set_send_messages, set_tts, set_manage_messages, set_embed, set_attach_files, set_read_history,
  set_mention_everyone, set_external_emoiji, set_change_name, set_manage_names, set_manage_roles,
  set_manage_webhooks, set_manage_emojis, set_voice_connect, set_voice_mute, set_voice_speak,
  set_voice_deafen, set_voice_move, set_voice_activity,
}

pub data Flag : Type 0 where
  invite kick ban admin manage_channels manage_guild add_reactions view_audit_logs read_messages :
      Flag
  send_messages tts manage_messages embed attach_files read_history mention_everyone : Flag
  external_emoiji change_name manage_names manage_roles manage_webhooks manage_emojis : Flag
  voice_connect voice_mute voice_speak voice_deafen voice_move voice_activity priority_speaker :
      Flag

-- The place of the mask of each flag, as the list at the head of permission.hpp gives it.
abbrev pub bit : Flag → ℕ
bit invite = 0
bit kick = 1
bit ban = 2
bit admin = 3
bit manage_channels = 4
bit manage_guild = 5
bit add_reactions = 6
bit view_audit_logs = 7
bit read_messages = 10
bit send_messages = 11
bit tts = 12
bit manage_messages = 13
bit embed = 14
bit attach_files = 15
bit read_history = 16
bit mention_everyone = 17
bit external_emoiji = 18
bit change_name = 26
bit manage_names = 27
bit manage_roles = 28
bit manage_webhooks = 29
bit manage_emojis = 30
bit voice_connect = 20
bit voice_mute = 22
bit voice_speak = 21
bit voice_deafen = 23
bit voice_move = 24
bit voice_activity = 25
bit priority_speaker = 8

-- The method that tests a flag.
unfoldable pub can : Flag → Permission → Bool
can invite p = can_invite p
can kick p = can_kick p
can ban p = can_ban p
can admin p = is_admin p
can manage_channels p = can_manage_channels p
can manage_guild p = can_manage_guild p
can add_reactions p = can_add_reactions p
can view_audit_logs p = can_view_audit_logs p
can read_messages p = can_read_messages p
can send_messages p = can_send_messages p
can tts p = can_tts p
can manage_messages p = can_manage_messages p
can embed p = can_embed p
can attach_files p = can_attach_files p
can read_history p = can_read_history p
can mention_everyone p = can_mention_everyone p
can external_emoiji p = can_external_emoiji p
can change_name p = can_change_name p
can manage_names p = can_manage_names p
can manage_roles p = can_manage_roles p
can manage_webhooks p = can_manage_webhooks p
can manage_emojis p = can_manage_emojis p
can voice_connect p = can_voice_connect p
can voice_mute p = can_voice_mute p
can voice_speak p = can_voice_speak p
can voice_deafen p = can_voice_deafen p
can voice_move p = can_voice_move p
can voice_activity p = can_voice_activity p
can priority_speaker p = has_priority_speaker p

-- The method that sets a flag; the class has none for `priority_speaker`.
unfoldable pub set : Flag → Permission → Permission
set invite p = set_invite p
set kick p = set_kick p
set ban p = set_ban p
set admin p = set_admin p
set manage_channels p = set_manage_channels p
set manage_guild p = set_manage_guild p
set add_reactions p = set_add_reactions p
set view_audit_logs p = set_view_audit_logs p
set read_messages p = set_read_messages p
set send_messages p = set_send_messages p
set tts p = set_tts p
set manage_messages p = set_manage_messages p
set embed p = set_embed p
set attach_files p = set_attach_files p
set read_history p = set_read_history p
set mention_everyone p = set_mention_everyone p
set external_emoiji p = set_external_emoiji p
set change_name p = set_change_name p
set manage_names p = set_manage_names p
set manage_roles p = set_manage_roles p
set manage_webhooks p = set_manage_webhooks p
set manage_emojis p = set_manage_emojis p
set voice_connect p = set_voice_connect p
set voice_mute p = set_voice_mute p
set voice_speak p = set_voice_speak p
set voice_deafen p = set_voice_deafen p
set voice_move p = set_voice_move p
set voice_activity p = set_voice_activity p
set priority_speaker p = p

pub has_lem : (k : ℕ) (p : Permission) → has (2 ^ k) p ≡ test_bit p.allow_permissions k
has_lem k p =
    rw (test_bit_value k p.allow_permissions)
      (ground (arith, bit_and_field 1 k p.allow_permissions, one-le-pow k 2))

pub can_lem : (f : Flag) (p : Permission) → can f p ≡ test_bit p.allow_permissions (bit f)
unfolding can
can_lem invite p = has_lem 0 p
can_lem kick p = has_lem 1 p
can_lem ban p = has_lem 2 p
can_lem admin p = has_lem 3 p
can_lem manage_channels p = has_lem 4 p
can_lem manage_guild p = has_lem 5 p
can_lem add_reactions p = has_lem 6 p
can_lem view_audit_logs p = has_lem 7 p
can_lem read_messages p = has_lem 10 p
can_lem send_messages p = has_lem 11 p
can_lem tts p = has_lem 12 p
can_lem manage_messages p = has_lem 13 p
can_lem embed p = has_lem 14 p
can_lem attach_files p = has_lem 15 p
can_lem read_history p = has_lem 16 p
can_lem mention_everyone p = has_lem 17 p
can_lem external_emoiji p = has_lem 18 p
can_lem change_name p = has_lem 26 p
can_lem manage_names p = has_lem 27 p
can_lem manage_roles p = has_lem 28 p
can_lem manage_webhooks p = has_lem 29 p
can_lem manage_emojis p = has_lem 30 p
can_lem voice_connect p = has_lem 20 p
can_lem voice_mute p = has_lem 22 p
can_lem voice_speak p = has_lem 21 p
can_lem voice_deafen p = has_lem 23 p
can_lem voice_move p = has_lem 24 p
can_lem voice_activity p = has_lem 25 p
can_lem priority_speaker p = has_lem 8 p

set_lem :
    (f : Flag) (p : Permission)
    → f ≢ priority_speaker
    → (set f p).allow_permissions ≡ bit_and p.allow_permissions (2 ^ bit f)
unfolding set
set_lem invite p h = refl
set_lem kick p h = refl
set_lem ban p h = refl
set_lem admin p h = refl
set_lem manage_channels p h = refl
set_lem manage_guild p h = refl
set_lem add_reactions p h = refl
set_lem view_audit_logs p h = refl
set_lem read_messages p h = refl
set_lem send_messages p h = refl
set_lem tts p h = refl
set_lem manage_messages p h = refl
set_lem embed p h = refl
set_lem attach_files p h = refl
set_lem read_history p h = refl
set_lem mention_everyone p h = refl
set_lem external_emoiji p h = refl
set_lem change_name p h = refl
set_lem manage_names p h = refl
set_lem manage_roles p h = refl
set_lem manage_webhooks p h = refl
set_lem manage_emojis p h = refl
set_lem voice_connect p h = refl
set_lem voice_mute p h = refl
set_lem voice_speak p h = refl
set_lem voice_deafen p h = refl
set_lem voice_move p h = refl
set_lem voice_activity p h = refl
set_lem priority_speaker p h = absurd (h refl)

-- After the setter of a flag, except the one of priority speaker, the test of any flag g holds
-- exactly if g is that flag and the test held before.
pub can-set :
    (f g : Flag) (p : Permission)
    → f ≢ priority_speaker
    → can g (set f p) ≡ (bit f == bit g && can g p)
can-set f g p h =
    rw (can_lem g (set f p), can_lem g p, set_lem f p h)
      (rw
        (test_bit-bit_and p.allow_permissions (2 ^ bit f) (bit g), test_bit_two_pow (bit f) (bit g))
        (ground arith))
