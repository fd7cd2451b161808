-- ===== src/Channel/Actions.antt =====
-- The REST actions of include/aegis/impl/channel.cpp on messages: the test of the bot's own permissions in
-- the channel, the object of JSON, the request and the key of its bucket. `guild` is what `_guild` points to,
-- `none` for the null pointer of a channel without a guild; `me` is the user of the bot; `dump` is the
-- function of the JSON library that prints an object, and `dump_ascii` the same with `dump(-1, ' ', true)`.
pub mod Settings
pub mod Guard
mod Examples
use aegis_cpp.Common.{
  ℕ, Bool, true, false, not, ◌&&◌, ◌||◌, ltb, leb, List, [], ◌∷◌, ◌++◌, Option, none, some,
  if◌then◌else◌, length,
}
use aegis_cpp.Common.Int.{ℤ, pos, negsuc}
use aegis_cpp.Common.Text.{Text, bytes, to_text, is_empty_text}
use aegis_cpp.Json.{Value, null, boolean, number, string, array, object, end, field, nil, cons}
use aegis_cpp.Permission.{
  Permission, permission, can_send_messages, can_read_history, can_attach_files,
  can_manage_messages,
}
use aegis_cpp.User.{User}
use aegis_cpp.Channel.{Channel}
use aegis_cpp.Guild.{Guild}
use aegis_cpp.Guild.Access.{get_permissions}
use aegis_cpp.Error.{Error}
use aegis_cpp.Rest.{RequestMethod, RequestParams, AegisFile}
use aegis_cpp.Action.{
  Answer, Task, set, set_if, items, id_text, request, post_task, post_task_typed, post_task_in,
  post_task_typed_in, require,
}

-- channel::perms, through a `_guild` that is not null.
unfoldable pub perms : Guild → User → Channel → Permission
perms g me c = permission (get_permissions g (some me) (some c))

-- `_guild && !test(perms())`, negated: the test, which a channel without a guild passes.
abbrev pub in_guild : Option Guild → User → Channel → (Permission → Bool) → Bool
in_guild none me c test = true
in_guild (some g) me c test = test (perms g me c)

-- `if (!_guild) return guild_error; if (!test(perms())) return no_permission;` before what follows.
abbrev pub require_guild : Option Guild → User → Channel → (Permission → Bool) → Answer → Answer
require_guild none me c test a = Answer.refused Error.guild_error
require_guild (some g) me c test a = require (test (perms g me c)) Error.no_permission a

abbrev pub channel_path : Channel → Text → Text
channel_path c rest = bytes "/channels/" ++ id_text c.channel_id ++ rest

abbrev pub message_path : Channel → ℕ → Text → Text
message_path c message_id rest = channel_path c (bytes "/messages/" ++ id_text message_id ++ rest)

abbrev pub is_nonzero : ℤ → Bool
is_nonzero (pos n) = ltb 0 n
is_nonzero (negsuc n) = true

-- json::empty: null, and arrays and objects without elements.
abbrev pub is_empty_json : Value → Bool
is_empty_json null = true
is_empty_json (array nil) = true
is_empty_json (object end) = true
is_empty_json _ = false

-- get_messages_t::get_messages_type
pub data GetMessagesType : Type 0 where
  around before after last : GetMessagesType

-- get_messages_t, with a limit that was set.
pub record GetMessages : Type 0 where
  pub type : GetMessagesType
  pub message_id : ℕ
  pub limit : ℤ

-- create_message_t
pub record CreateMessage : Type 0 where
  pub content : Text
  pub embed : Value
  pub nonce : ℤ
  pub file : Option AegisFile

-- edit_message_t
pub record EditMessage : Type 0 where
  pub message_id : ℕ
  pub content : Text
  pub embed : Value

-- `if (limit >= 1 && limit <= 100) limit = fmt::format("&limit={}", ...)`
abbrev pub limit_text : ℤ → Text
limit_text (pos n) = if leb 1 n && leb n 100 then bytes "&limit=" ++ to_text (pos n) else []
limit_text (negsuc n) = []

-- `limit.substr(1)`, which throws on an empty text.
abbrev pub substr_1 : Text → Option Text
substr_1 [] = none
substr_1 (c ∷ s) = some s

abbrev pub query_params : GetMessages → Option Text
query_params o = by_type o.type
  where
    by_type : GetMessagesType → Option Text
    by_type GetMessagesType.after =
        some (bytes "?after=" ++ id_text o.message_id ++ limit_text o.limit)
    by_type GetMessagesType.around =
        some (bytes "?around=" ++ id_text o.message_id ++ limit_text o.limit)
    by_type GetMessagesType.before =
        some (bytes "?before=" ++ id_text o.message_id ++ limit_text o.limit)
    by_type GetMessagesType.last = last_query (substr_1 (limit_text o.limit))
      where
        last_query : Option Text → Option Text
        last_query none = none
        last_query (some q) = some (b'?' ∷ q)

module _ (dump dump_ascii : Value → Text) (guild : Option Guild) (me : User) (c : Channel) where
  abbrev pub create_message : Text → ℤ → Answer
  create_message content nonce =
      require (in_guild guild me c can_send_messages) Error.no_permission (
        post_task_typed (channel_path c (bytes "/messages")) RequestMethod.post (
          dump_ascii (
            set_if (is_nonzero nonce) (bytes "nonce") (number nonce)
              (set (bytes "content") (string content) null))))

  abbrev pub get_message : ℕ → Answer
  get_message message_id =
      require (in_guild guild me c can_read_history) Error.no_permission
        (post_task_typed (message_path c message_id []) RequestMethod.get [])

  -- The request names an empty port.
  abbrev pub get_with : Option Text → Answer
  get_with none = Answer.throws
  get_with (some query) = Answer.posts (record {
    typed = true;
    bucket = channel_path c (bytes "/messages");
    bypass = none;
    params = record {
      path = channel_path c (bytes "/messages");
      method = RequestMethod.get;
      body = [];
      host = [];
      port = [];
      headers = [];
      path_ex = query;
      file = none;
    };
  })

  abbrev pub get_messages : GetMessages → Answer
  get_messages o =
      require (in_guild guild me c can_read_history) Error.no_permission (get_with (query_params o))

  -- The object of create_message and create_message_embed.
  abbrev pub message_object : Text → Value → ℤ → Value
  message_object content embed nonce = set_if (is_nonzero nonce) (bytes "nonce") (number nonce) (
      set_if (not (is_empty_json embed)) (bytes "embed") embed
        (set_if (not (is_empty_text content)) (bytes "content") (string content) null))

  abbrev pub create_message_embed : Text → Value → ℤ → Answer
  create_message_embed content embed nonce =
      require (in_guild guild me c can_send_messages) Error.no_permission (
        post_task_typed (channel_path c (bytes "/messages")) RequestMethod.post
          (dump_ascii (message_object content embed nonce)))

  abbrev post_file : CreateMessage → AegisFile → Answer
  post_file o f = Answer.posts (record {
    typed = true;
    bucket = channel_path c (bytes "/messages");
    bypass = none;
    params = record {
      path = channel_path c (bytes "/messages");
      method = RequestMethod.post;
      body = dump_ascii (message_object o.content o.embed o.nonce);
      host = [];
      port = bytes "443";
      headers = [];
      path_ex = [];
      file = some f;
    };
  })

  -- create_message(create_message_t)
  abbrev pub create_message_t : CreateMessage → Answer
  create_message_t o = with_file o.file
    where
      with_file : Option AegisFile → Answer
      with_file none = create_message_embed o.content o.embed o.nonce
      with_file (some f) =
          require
            (in_guild guild me c (λ p. not (not (can_send_messages p) || not (can_attach_files p))))
            Error.no_permission (post_file o f)

  -- The bucket of edited messages.
  abbrev pub messages_bucket : Text
  messages_bucket = channel_path c (bytes "/messages/")

  -- edit_message(snowflake, const std::string &)
  abbrev pub edit_message : ℕ → Text → Answer
  edit_message message_id content =
      post_task_typed_in messages_bucket (message_path c message_id []) RequestMethod.patch
        (dump (set (bytes "content") (string content) null))

  abbrev pub edit_message_embed : EditMessage → Answer
  edit_message_embed o =
      require (not (is_empty_text o.content && is_empty_json o.embed)) Error.bad_request (
        post_task_typed_in messages_bucket (message_path c o.message_id []) RequestMethod.patch (
          dump (
            set_if (not (is_empty_json o.embed)) (bytes "embed") o.embed
              (set_if (not (is_empty_text o.content)) (bytes "content") (string o.content) null))))

  abbrev pub delete_message : ℕ → Answer
  delete_message message_id =
      require (in_guild guild me c can_manage_messages) Error.no_permission (
        post_task_in (channel_path c (bytes "/messages/_/delete")) (message_path c message_id [])
          RequestMethod.delete [])

  abbrev pub bulk_delete_message : List ℕ → Answer
  bulk_delete_message messages =
      require (in_guild guild me c can_manage_messages) Error.no_permission (
        require (not (ltb (length messages) 2 || ltb 100 (length messages)))
          Error.bulk_delete_out_of_range
          (post_task (channel_path c (bytes "/messages/bulk-delete")) RequestMethod.post (
            dump
              (set (bytes "messages") (array (items (λ id. string (id_text id)) messages)) null))))
