-- ===== src/Guild/Actions/Guard.antt =====
-- The permissions that the actions of include/aegis/impl/guild.cpp ask for, as one table of the masks of
-- include/aegis/permission.hpp, against what each action does.
use aegis_cpp.Common.{
  ℕ, not, ◌||◌, Bool, true, false, ◌&&◌, ◌≡◌, refl, ◌==◌, List, [], ◌∷◌, Option, none, some,
}
use mathlib.Core.Bool.{true≢false}
use aegis_cpp.Common.Int.{ℤ}
use aegis_cpp.Common.Text.{Text}
use aegis_cpp.Json.{Value, string, boolean, null, snowflake_to_json}
use aegis_cpp.Permission.{Permission, has}
use aegis_cpp.User.{User}
use aegis_cpp.Channel.{PermissionOverwrite}
use aegis_cpp.Guild.{Guild}
use aegis_cpp.Error.{Error}
use aegis_cpp.Action.{Answer, posts, refused, require, set, snowflakes}
use aegis_cpp.Guild.Actions.{ModifyGuild, ModifyGuildMember, perms, none_or}
use aegis_cpp.Guild.Actions
use aegis_cpp.Guild.Actions.Moderation.{RoleFields}
use aegis_cpp.Guild.Actions.Moderation

-- A call of one of the actions.
pub data GuildAction : Type 0 where
  get_guild delete_guild modify_channel_positions leave : GuildAction
  modify_guild : ModifyGuild → GuildAction
  create_text_channel : Text → ℤ → Bool → List PermissionOverwrite → GuildAction
  create_voice_channel : Text → ℤ → ℤ → ℤ → List PermissionOverwrite → GuildAction
  create_category_channel : Text → ℤ → List PermissionOverwrite → GuildAction
  modify_guild_member : ModifyGuildMember → GuildAction
  modify_my_nick : Text → GuildAction
  add_guild_member_role : ℕ → ℕ → GuildAction
  remove_guild_member_role : ℕ → ℕ → GuildAction
  remove_guild_member : ℕ → GuildAction
  create_guild_ban : ℕ → ℤ → Text → GuildAction
  remove_guild_ban : ℕ → GuildAction
  get_guild_bans : GuildAction
  get_guild_ban : ℕ → GuildAction
  create_guild_role : RoleFields → GuildAction
  modify_guild_role_positions : ℕ → ℤ → GuildAction
  modify_guild_role : ℕ → RoleFields → GuildAction
  delete_guild_role : ℕ → GuildAction
  guild_prune : ℤ → GuildAction
  get_guild_invite : Text → GuildAction
  get_guild_invites guild_integration : GuildAction
  delete_guild_invite : Text → GuildAction

abbrev pub run : (Value → Text) → Guild → User → GuildAction → Answer
run d g u get_guild = Actions.get_guild d g u
run d g u delete_guild = Actions.delete_guild d g u
run d g u modify_channel_positions = Actions.modify_channel_positions d g u
run d g u leave = Actions.leave d g u
run d g u (modify_guild m) = Actions.modify_guild d g u m
run d g u (create_text_channel n p b ows) = Actions.create_text_channel d g u n p b ows
run d g u (create_voice_channel n b l p ows) = Actions.create_voice_channel d g u n b l p ows
run d g u (create_category_channel n p ows) = Actions.create_category_channel d g u n p ows
run d g u (modify_guild_member m) = Actions.modify_guild_member d g u m
run d g u (modify_my_nick n) = Actions.modify_my_nick d g u n
run d g u (add_guild_member_role m r) = Moderation.add_guild_member_role d g u m r
run d g u (remove_guild_member_role m r) = Moderation.remove_guild_member_role d g u m r
run d g u (remove_guild_member m) = Moderation.remove_guild_member d g u m
run d g u (create_guild_ban m n t) = Moderation.create_guild_ban d g u m n t
run d g u (remove_guild_ban m) = Moderation.remove_guild_ban d g u m
run d g u get_guild_bans = Moderation.get_guild_bans d g u
run d g u (get_guild_ban m) = Moderation.get_guild_ban d g u m
run d g u (create_guild_role r) = Moderation.create_guild_role d g u r
run d g u (modify_guild_role_positions r n) = Moderation.modify_guild_role_positions d g u r n
run d g u (modify_guild_role r f) = Moderation.modify_guild_role d g u r f
run d g u (delete_guild_role r) = Moderation.delete_guild_role d g u r
run d g u (guild_prune n) = Moderation.guild_prune d g u n
run d g u (get_guild_invite t) = Moderation.get_guild_invite d g u t
run d g u get_guild_invites = Moderation.get_guild_invites d g u
run d g u guild_integration = Moderation.guild_integration d g u
run d g u (delete_guild_invite t) = Moderation.delete_guild_invite d g u t

abbrev pub if_some {ℓ} : {A : Type ℓ} → ℕ → Option A → List ℕ → List ℕ
if_some mask none masks = masks
if_some mask (some a) masks = mask ∷ masks

-- The masks of the permissions that the bot needs, all of them.
abbrev pub required : GuildAction → List ℕ
required get_guild = []
required delete_guild = []
required leave = []
required modify_channel_positions = 0x10 ∷ []
required (modify_guild m) = 0x20 ∷ []
required (create_text_channel n p b ows) = 0x10 ∷ []
required (create_voice_channel n b l p ows) = 0x10 ∷ []
required (create_category_channel n p ows) = 0x10 ∷ []
required (modify_guild_member m) = if_some 0x8000000 m.nick (
    if_some 0x400000 m.mute
      (if_some 0x800000 m.deaf (if_some 0x10000000 m.roles (if_some 0x1000000 m.channel_id []))))
required (modify_my_nick n) = 0x4000000 ∷ []
required (add_guild_member_role m r) = 0x10000000 ∷ []
required (remove_guild_member_role m r) = 0x10000000 ∷ []
required (remove_guild_member m) = 0x2 ∷ []
required (create_guild_ban m n t) = 0x4 ∷ []
required (remove_guild_ban m) = 0x4 ∷ []
required get_guild_bans = 0x4 ∷ []
required (get_guild_ban m) = 0x4 ∷ []
required (create_guild_role r) = 0x10000000 ∷ []
required (modify_guild_role_positions r n) = 0x10000000 ∷ []
required (modify_guild_role r f) = 0x10000000 ∷ []
required (delete_guild_role r) = 0x10000000 ∷ []
required (guild_prune n) = 0x2 ∷ []
required (get_guild_invite t) = 0x20 ∷ []
required get_guild_invites = 0x20 ∷ []
required guild_integration = 0x20 ∷ []
required (delete_guild_invite t) = 0x20 ∷ []

abbrev pub has_all : Permission → List ℕ → Bool
has_all p [] = true
has_all p (m ∷ ms) = has m p && has_all p ms

-- What is asked beside the flags: to be the owner, and to name nobody else as the owner.
abbrev pub is_entitled : Guild → User → GuildAction → Bool
is_entitled g u delete_guild = g.owner_id == u.member_id
is_entitled g u (modify_guild m) = none_or m.owner_id u.member_id
is_entitled g u _ = true

abbrev pub is_allowed : Guild → User → GuildAction → Bool
is_allowed g u a = has_all (perms g u) (required a) && is_entitled g u a

abbrev pub is_implemented : GuildAction → Bool
is_implemented modify_channel_positions = false
is_implemented (guild_prune n) = false
is_implemented guild_integration = false
is_implemented _ = true

abbrev IsPosted : Answer → Type 0
IsPosted (posts t) = t.bucket ≡ t.params.path
IsPosted _ = ⊥

-- The answer to an action that is allowed or not, and implemented or not. A task that is posted is counted
-- by its own path.
abbrev pub Answers : Bool → Bool → Answer → Type 0
Answers false b a = a ≡ refused Error.no_permission
Answers true false a = a ≡ refused Error.not_implemented
Answers true true a = IsPosted a

require-Answers :
    (ok rest b : Bool) (a : Answer)
    → Answers (rest && true) b a
    → Answers ((ok && rest) && true) b (require ok Error.no_permission a)
require-Answers true rest b a h = h
require-Answers false rest b a h = refl

both-Answers :
    (ok owner : Bool) (a : Answer)
    → Answers true true a
    → Answers
        ((ok && true) && owner)
        true
        (require (not (not ok || not owner)) Error.no_permission a)
both-Answers true true a h = h
both-Answers true false a h = refl
both-Answers false owner a h = refl

not_owner :
    (ok owner : Bool) (a : Answer)
    → owner ≡ false
    → require (not (not ok || not owner)) Error.no_permission a ≡ refused Error.no_permission
not_owner true true a h = absurd (true≢false h)
not_owner true false a h = refl
not_owner false owner a h = refl

entitled-Answers :
    (owner : Bool) (a : Answer)
    → Answers true true a
    → Answers owner true (require owner Error.no_permission a)
entitled-Answers true a h = h
entitled-Answers false a h = refl

module _ (d : Value → Text) (g : Guild) (u : User) where
  member_field-Answers {ℓ} :
      {A : Type ℓ} (mask : ℕ) (ms : List ℕ) (k : Text) (f : A → Value) (o : Option A) (obj : Value)
      (next : Value → Answer)
      → ((j : Value) → Answers (has_all (perms g u) ms && true) true (next j))
      → Answers
          (has_all (perms g u) (if_some mask o ms) && true)
          true
          (Actions.member_field d g u (has mask (perms g u)) k f o obj next)
  member_field-Answers mask ms k f none obj next h = h obj
  member_field-Answers mask ms k f (some a) obj next h =
      require-Answers (has mask (perms g u)) (has_all (perms g u) ms) true (next (set k (f a) obj))
        (h (set k (f a) obj))

  -- An action is refused with no_permission exactly if the bot lacks a permission of the table, is not the
  -- owner where it must be, or names another owner; an allowed action is refused with not_implemented, or
  -- posts a task that is counted by its own path.
  pub run-Answers : (a : GuildAction) → Answers (is_allowed g u a) (is_implemented a) (run d g u a)
  run-Answers get_guild = refl
  run-Answers delete_guild = entitled-Answers (g.owner_id == u.member_id) _ refl
  run-Answers leave = refl
  run-Answers modify_channel_positions = require-Answers (has 0x10 (perms g u)) true false _ refl
  run-Answers (modify_guild m) =
      both-Answers (has 0x20 (perms g u)) (none_or m.owner_id u.member_id) _ refl
  run-Answers (create_text_channel n p b ows) =
      require-Answers (has 0x10 (perms g u)) true true _ refl
  run-Answers (create_voice_channel n b l p ows) =
      require-Answers (has 0x10 (perms g u)) true true _ refl
  run-Answers (create_category_channel n p ows) =
      require-Answers (has 0x10 (perms g u)) true true _ refl
  run-Answers (modify_guild_member m) =
      member_field-Answers 0x8000000 _ _ string m.nick null _ (λ o1.
        member_field-Answers 0x400000 _ _ boolean m.mute o1 _ (λ o2.
          member_field-Answers 0x800000 _ _ boolean m.deaf o2 _ (λ o3.
            member_field-Answers 0x10000000 _ _ snowflakes m.roles o3 _ (λ o4.
              member_field-Answers 0x1000000 [] _ snowflake_to_json m.channel_id o4 _
                (λ o5. refl)))))
  run-Answers (modify_my_nick n) = require-Answers (has 0x4000000 (perms g u)) true true _ refl
  run-Answers (add_guild_member_role m r) =
      require-Answers (has 0x10000000 (perms g u)) true true _ refl
  run-Answers (remove_guild_member_role m r) =
      require-Answers (has 0x10000000 (perms g u)) true true _ refl
  run-Answers (remove_guild_member m) = require-Answers (has 0x2 (perms g u)) true true _ refl
  run-Answers (create_guild_ban m n t) = require-Answers (has 0x4 (perms g u)) true true _ refl
  run-Answers (remove_guild_ban m) = require-Answers (has 0x4 (perms g u)) true true _ refl
  run-Answers get_guild_bans = require-Answers (has 0x4 (perms g u)) true true _ refl
  run-Answers (get_guild_ban m) = require-Answers (has 0x4 (perms g u)) true true _ refl
  run-Answers (create_guild_role r) = require-Answers (has 0x10000000 (perms g u)) true true _ refl
  run-Answers (modify_guild_role_positions r n) =
      require-Answers (has 0x10000000 (perms g u)) true true _ refl
  run-Answers (modify_guild_role r f) =
      require-Answers (has 0x10000000 (perms g u)) true true _ refl
  run-Answers (delete_guild_role r) = require-Answers (has 0x10000000 (perms g u)) true true _ refl
  run-Answers (guild_prune n) = require-Answers (has 0x2 (perms g u)) true false _ refl
  run-Answers (get_guild_invite t) = require-Answers (has 0x20 (perms g u)) true true _ refl
  run-Answers get_guild_invites = require-Answers (has 0x20 (perms g u)) true true _ refl
  run-Answers guild_integration = require-Answers (has 0x20 (perms g u)) true false _ refl
  run-Answers (delete_guild_invite t) = require-Answers (has 0x20 (perms g u)) true true _ refl

  -- A guild is never handed over: a change that names an owner other than the bot is refused, also where the
  -- bot is the owner.
  pub modify_guild_owner :
      (m : ModifyGuild)
      → none_or m.owner_id u.member_id ≡ false
      → Actions.modify_guild d g u m ≡ refused Error.no_permission
  modify_guild_owner m h = not_owner (has 0x20 (perms g u)) (none_or m.owner_id u.member_id) _ h
