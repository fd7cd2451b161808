-- ===== src/Lib.antt =====
-- aegis.cpp, a C++ library for Discord bots.
--
-- Parts. A bot (`core`, include/aegis/core.hpp) keeps connections to the gateway, one for each
-- shard, and caches the users, guilds and channels that gateway events announce. Calls of the REST
-- API go through rate limit buckets. Most objects of the caches point to one another; the member
-- data of a user for a guild stands with the user.
--
-- Files, and the code under include/aegis/ they follow:
--   Snowflake    snowflake.hpp: identifiers and their packed fields.
--   Permission   permission.hpp: the permission flags, their tests and setters.
--   User         user.hpp, impl/user.cpp: users and their data for each guild.
--   Channel      channel.hpp, gateway/objects/permission_overwrite.hpp: channels and overwrites.
--   Guild        guild.hpp, gateway/objects/role.hpp: guilds and roles.
--   Guild/Access impl/guild.cpp: base permissions, overwrites, and the permissions of a member.
--   Channel/Load impl/channel.cpp: what a gateway event changes of a channel and its overwrites.
--   Members      impl/guild.cpp, impl/user.cpp: joining, leaving, and the roles of members.
--   Members/Load impl/user.cpp: what a gateway event changes of a user and its data for a guild.
--   Cache        core.hpp, impl/core.cpp: the caches of users, channels and guilds.
--   Shard        shards/shard.hpp, shards/impl/shard.cpp: one connection and its write queue.
--   ShardMgr     shards/shard_mgr.hpp, shards/impl/shard_mgr.cpp: all connections, and the queue of
--                those to be made.
--   Gateway      impl/core.cpp: the messages of a connection, its heartbeat and its identification.
--   Json         impl/snowflake.cpp, impl/permission.cpp, gateway/objects/permission_overwrite.hpp: the
--                values of JSON and the conversions to and from them.
--   Utility      utility.hpp: the encoding of texts, the type of a file, and the uptime.
--   Error        error.hpp: the errors and their messages.
--   Action       ratelimit/ratelimit.hpp: what an action of a guild or a channel answers, and its task.
--   Guild/Actions, Channel/Actions
--                impl/guild.cpp, impl/channel.cpp: the actions on the REST API, their guards and requests.
--   Cache/Lookups, Cache/Sound
--                core.hpp, impl/guild.cpp: the lookups by a guild, and what creating and removing keep.
--   Events       impl/core.cpp: the events of members, roles, and guilds that are taken away; its files:
--     Channels   the events of channels.
--     Loading    impl/guild.cpp: what a guild loads from an event.
--     Guilds     the events of guilds, presences, users and voice states.
--     Messages   the events of messages that are written or changed.
--     Ready      the event with which the bot learns its own user.
--     Notices    the events that change nothing and are passed on.
--     Dispatch   all events that change the caches, and the function that finds the handler.
--     Sound      the invariant of the caches: each pointer has its object.
--   Objects      gateway/objects/*.hpp: the objects of the gateway, from JSON and to JSON.
--   Core         impl/core.cpp: the messages that the bot sends by an identifier, its presence, and a new guild.
--   Rest         rest/rest_reply.hpp, rest/rest_controller.hpp: requests and answers.
--   Rest/Execute rest/impl/rest_controller.cpp: the text of a request, and what is read from an answer.
--   Ratelimit    ratelimit/bucket.hpp: a bucket and the calls that wait for it.
--   Ratelimit/Manager
--                ratelimit/ratelimit.hpp: the buckets by their keys, and the tasks.
-- Common has the Boolean tests, the integers, the bit operations, the maps and the texts they share. A text
-- is the list of the bytes of a std::string; Common/Text has what the C++ standard library does with it.
--
-- An action of a guild or a channel answers with an error, or with a task. A task names the key of its bucket
-- and a request; the rate limits find the bucket, wait for it, and call `execute`, which writes the request
-- and reads the reply. The printer of JSON, the network and the resolver are arguments.
-- The printer is total; the one of the JSON library throws on a text that is not UTF-8, before anything is posted.
--
-- Unsigned words are natural numbers below the power of two of their width; signed 64 bit numbers
-- are integers. A C++ exception is `none`. A std::unordered_map is an association list with keys
-- that appear once; the code never relies on its order. A pointer into a cache is an address of its
-- objects, a pointer to a shard its place in the vector. A call through a null pointer, and what
-- else is undefined in C++, is `none` as well.
--
-- What is posted to asio is a list of tasks, of which the oldest runs next, at any moment between the
-- events and the runs of the timers (the relation `Step` of ShardMgr/Connecting). What the websocket
-- library answers at some moment is an argument, and the calls of it are a list. Locks have no
-- counterpart: each function runs alone.
--
-- The only fuel is that of the loop in `bucket::perform`; two rounds are enough on a clock that does
-- not go back, since the first sleep lasts until the reset.
--
-- An event is the record of the fields that its handler reads from the JSON, where a field that may be
-- missing is an option. An identifier that a handler reads without a test is a number of 64 bits.
--
-- Not modelled: the records that the handlers which change the caches build for their callbacks; the
-- texts of log messages; the timings that the ready and resumed events write to the log; what an
-- action that makes a channel does with the channel of its answer; execute2; the reading of the
-- configuration and the setup of threads and of the gateway; format_bytes, which formats doubles,
-- and the platform queries and conversions of times of utility.hpp, which go through the operating
-- system; the websocket, TLS, zlib, JSON, asio and logging libraries, which the code calls; the
-- vendored optional and zstr, and the futures adapted from another project.

pub mod Action
pub mod Cache
pub mod Channel
pub mod Common
pub mod Core
pub mod Error
pub mod Events
pub mod Gateway
pub mod Guild
pub mod Json
pub mod Members
pub mod Objects
pub mod Permission
pub mod Ratelimit
pub mod Rest
pub mod Shard
pub mod ShardMgr
pub mod Snowflake
pub mod User
pub mod Utility
