-- ===== src/Channel/Actions/Guard.antt =====
-- Which actions of include/aegis/impl/channel.cpp are refused, and why, as one table, against what each
-- action does.
mod Calls
pub use Calls.*
use aegis_cpp.Common.{
  ℕ, not, ◌&&◌, ◌||◌, Bool, true, false, ◌≡◌, refl, ltb, leb, List, [], ◌∷◌, Option, none, some,
  if◌then◌else◌, length, Bool-cases, inl, inr,
}
use aegis_cpp.Common.Int.{ℤ, pos, negsuc}
use aegis_cpp.Common.Text.{Text, bytes, is_empty_text}
use aegis_cpp.Json.{Value}
use aegis_cpp.Permission.{Permission, has}
use aegis_cpp.User.{User}
use aegis_cpp.Channel.{Channel}
use aegis_cpp.Guild.{Guild}
use aegis_cpp.Error.{Error}
use aegis_cpp.Rest.{AegisFile}
use aegis_cpp.Action.{Answer, posts, refused, throws, require}
use aegis_cpp.Channel.Actions.{
  GetMessages, GetMessagesType, CreateMessage, EditMessage, perms, in_guild, require_guild,
  channel_path, is_empty_json, query_params, limit_text, substr_1,
}
use aegis_cpp.Channel.Actions
use aegis_cpp.Channel.Actions.Settings.{ModifyChannel, CreateInvite}
use aegis_cpp.Channel.Actions.Settings

-- Who may use an action: everyone; those who have the permissions, where the channel is in a guild; or only
-- those who have them, in a guild.
pub data Access : Type 0 where
  anyone : Access
  with_flags : List ℕ → Access
  guild_with_flags : List ℕ → Access

abbrev pub send_masks : Option AegisFile → List ℕ
send_masks none = 0x800 ∷ []
send_masks (some f) = 0x800 ∷ 0x8000 ∷ []

abbrev pub access : ChannelAction → Access
access (create_message n z) = with_flags (0x800 ∷ [])
access (get_message i) = with_flags (0x10000 ∷ [])
access (get_messages o) = with_flags (0x10000 ∷ [])
access (create_message_embed n v z) = with_flags (0x800 ∷ [])
access (create_message_t o) = with_flags (send_masks o.file)
access (edit_message i n) = anyone
access (edit_message_embed o) = anyone
access (delete_message i) = with_flags (0x2000 ∷ [])
access (bulk_delete_message is) = with_flags (0x2000 ∷ [])
access (modify_channel m) = guild_with_flags (0x10 ∷ [])
access delete_channel = with_flags (0x10 ∷ [])
access (create_reaction i n) = with_flags (0x40 ∷ [])
access (delete_own_reaction i n) = with_flags (0x40 ∷ [])
access (delete_user_reaction i n u) = guild_with_flags (0x2000 ∷ [])
access (get_reactions i n) = anyone
access (delete_all_reactions i) = guild_with_flags (0x2000 ∷ [])
access (edit_channel_permissions i a b n) = guild_with_flags (0x10000000 ∷ [])
access get_channel_invites = guild_with_flags (0x10 ∷ [])
access (create_channel_invite v) = guild_with_flags (0x1 ∷ [])
access (delete_channel_permission i) = guild_with_flags (0x10000000 ∷ [])
access trigger_typing_indicator = anyone
access get_pinned_messages = anyone
access (add_pinned_channel_message i) = with_flags (0x2000 ∷ [])
access (delete_pinned_channel_message i) = with_flags (0x2000 ∷ [])
access (group_dm_add_recipient i) = anyone
access (group_dm_remove_recipient i) = anyone

-- What becomes of an action.
pub data Verdict : Type 0 where
  refuse : Error → Verdict
  throw : Verdict
  send : Verdict

abbrev is_valid_limit : ℤ → Bool
is_valid_limit (pos n) = leb 1 n && leb n 100
is_valid_limit (negsuc n) = false

abbrev of_query : GetMessagesType → ℤ → Verdict
of_query GetMessagesType.last limit = if is_valid_limit limit then send else throw
of_query _ limit = send

-- What is asked of the arguments.
abbrev pub of_arguments : ChannelAction → Verdict
of_arguments (get_messages o) = of_query o.type o.limit
of_arguments (edit_message_embed o) =
    if is_empty_text o.content && is_empty_json o.embed then refuse Error.bad_request else send
of_arguments (bulk_delete_message is) =
    if ltb (length is) 2 || ltb 100 (length is) then refuse Error.bulk_delete_out_of_range else send
of_arguments _ = send

abbrev pub has_all : Permission → List ℕ → Bool
has_all p [] = true
has_all p (m ∷ ms) = has m p && has_all p ms

abbrev pub judge : Access → Option Guild → User → Channel → Verdict → Verdict
judge anyone g me c v = v
judge (with_flags ms) none me c v = v
judge (with_flags ms) (some g) me c v =
    if has_all (perms g me c) ms then v else refuse Error.no_permission
judge (guild_with_flags ms) none me c v = refuse Error.guild_error
judge (guild_with_flags ms) (some g) me c v =
    if has_all (perms g me c) ms then v else refuse Error.no_permission

abbrev pub verdict : Option Guild → User → Channel → ChannelAction → Verdict
verdict g me c a = judge (access a) g me c (of_arguments a)

-- An answer that is as the verdict says; a request that is sent goes to a path of the channel.
abbrev pub Fits : Channel → Verdict → Answer → Type 0
Fits c (refuse e) a = a ≡ refused e
Fits c throw a = a ≡ throws
Fits c send (posts t) = (rest : Text) × (t.params.path ≡ channel_path c rest)
Fits c send _ = ⊥

flag-Fits :
    (c : Channel) (ok : Bool) (v : Verdict) (a : Answer)
    → Fits c v a
    → Fits c
        (if ok && true then v else refuse Error.no_permission)
        (require ok Error.no_permission a)
flag-Fits c true v a h = h
flag-Fits c false v a h = refl

in_guild-Fits :
    (g : Option Guild) (me : User) (c : Channel) (m : ℕ) (v : Verdict) (a : Answer)
    → Fits c v a
    → Fits c
        (judge (with_flags (m ∷ [])) g me c v)
        (require (in_guild g me c (has m)) Error.no_permission a)
in_guild-Fits none me c m v a h = h
in_guild-Fits (some g) me c m v a h = flag-Fits c (has m (perms g me c)) v a h

require_guild-Fits :
    (g : Option Guild) (me : User) (c : Channel) (m : ℕ) (v : Verdict) (a : Answer)
    → Fits c v a
    → Fits c (judge (guild_with_flags (m ∷ [])) g me c v) (require_guild g me c (has m) a)
require_guild-Fits none me c m v a h = refl
require_guild-Fits (some g) me c m v a h = flag-Fits c (has m (perms g me c)) v a h

flags-Fits :
    (c : Channel) (ok also : Bool) (a : Answer)
    → Fits c send a
    → Fits c
        (if ok && (also && true) then send else refuse Error.no_permission)
        (require (not (not ok || not also)) Error.no_permission a)
flags-Fits c true true a h = h
flags-Fits c true false a h = refl
flags-Fits c false also a h = refl

flags_in_guild-Fits :
    (g : Option Guild) (me : User) (c : Channel) (a : Answer)
    → Fits c send a
    → Fits c (judge (with_flags (0x800 ∷ 0x8000 ∷ [])) g me c send) (
        require
          (in_guild g me c (λ p. not (not (has 0x800 p) || not (has 0x8000 p))))
          Error.no_permission
          a)
flags_in_guild-Fits none me c a h = h
flags_in_guild-Fits (some g) me c a h =
    flags-Fits c (has 0x800 (perms g me c)) (has 0x8000 (perms g me c)) a h

argument-Fits :
    (c : Channel) (wrong : Bool) (e : Error) (a : Answer)
    → Fits c send a
    → Fits c (if wrong then refuse e else send) (require (not wrong) e a)
argument-Fits c true e a h = refl
argument-Fits c false e a h = h

module _ (d e : Value → Text) (g : Option Guild) (me : User) (c : Channel) where
  get_with-Fits :
      (type : GetMessagesType) (message_id : ℕ) (limit : ℤ)
      → Fits c (of_query type limit) (
          Actions.get_with d e g me c
            (query_params (record { type = type; message_id = message_id; limit = limit })))
  get_with-Fits GetMessagesType.after i limit = (_, refl)
  get_with-Fits GetMessagesType.around i limit = (_, refl)
  get_with-Fits GetMessagesType.before i limit = (_, refl)
  get_with-Fits GetMessagesType.last i (negsuc n) = refl
  get_with-Fits GetMessagesType.last i (pos n) = elim (Bool-cases (leb 1 n && leb n 100)) [
    | inl h ↦ rw h (bytes "/messages", refl)
    | inr h ↦ rw h refl
  ]

  file-Fits :
      (o : CreateMessage) (f : Option AegisFile)
      → Fits c
          (judge (with_flags (send_masks f)) g me c send)
          (Actions.create_message_t d e g me c (record o { file = f }))
  file-Fits o none = in_guild-Fits g me c 0x800 send _ (_, refl)
  file-Fits o (some f) = flags_in_guild-Fits g me c _ (_, refl)

  -- An action is refused, or throws, exactly if its verdict says so, which is read from a table of the
  -- flags and from the arguments; otherwise it posts a request to a path of the channel.
  pub run-Fits : (a : ChannelAction) → Fits c (verdict g me c a) (run d e g me c a)
  run-Fits (create_message n z) = in_guild-Fits g me c 0x800 send _ (_, refl)
  run-Fits (get_message i) = in_guild-Fits g me c 0x10000 send _ (_, refl)
  run-Fits (get_messages o) =
      in_guild-Fits g me c 0x10000 _ _ (get_with-Fits o.type o.message_id o.limit)
  run-Fits (create_message_embed n v z) = in_guild-Fits g me c 0x800 send _ (_, refl)
  run-Fits (create_message_t o) = file-Fits o o.file
  run-Fits (edit_message i n) = (_, refl)
  run-Fits (edit_message_embed o) =
      argument-Fits c (is_empty_text o.content && is_empty_json o.embed) Error.bad_request _
        (_, refl)
  run-Fits (delete_message i) = in_guild-Fits g me c 0x2000 send _ (_, refl)
  run-Fits (bulk_delete_message is) = in_guild-Fits g me c 0x2000 _ _ (
      argument-Fits c (ltb (length is) 2 || ltb 100 (length is)) Error.bulk_delete_out_of_range _
        (_, refl))
  run-Fits (modify_channel m) = require_guild-Fits g me c 0x10 send _ (_, refl)
  run-Fits delete_channel = in_guild-Fits g me c 0x10 send _ (_, refl)
  run-Fits (create_reaction i n) = in_guild-Fits g me c 0x40 send _ (_, refl)
  run-Fits (delete_own_reaction i n) = in_guild-Fits g me c 0x40 send _ (_, refl)
  run-Fits (delete_user_reaction i n u) = require_guild-Fits g me c 0x2000 send _ (_, refl)
  run-Fits (get_reactions i n) = (_, refl)
  run-Fits (delete_all_reactions i) = require_guild-Fits g me c 0x2000 send _ (_, refl)
  run-Fits (edit_channel_permissions i a b n) =
      require_guild-Fits g me c 0x10000000 send _ (_, refl)
  run-Fits get_channel_invites = require_guild-Fits g me c 0x10 send _ (_, refl)
  run-Fits (create_channel_invite v) = require_guild-Fits g me c 0x1 send _ (_, refl)
  run-Fits (delete_channel_permission i) = require_guild-Fits g me c 0x10000000 send _ (_, refl)
  run-Fits trigger_typing_indicator = (_, refl)
  run-Fits get_pinned_messages = (_, refl)
  run-Fits (add_pinned_channel_message i) = in_guild-Fits g me c 0x2000 send _ (_, refl)
  run-Fits (delete_pinned_channel_message i) = in_guild-Fits g me c 0x2000 send _ (_, refl)
  run-Fits (group_dm_add_recipient i) = (_, refl)
  run-Fits (group_dm_remove_recipient i) = (_, refl)
