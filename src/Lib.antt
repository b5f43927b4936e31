-- ===== src/Lib.antt =====
-- levent: the C modules of a coroutine network library for Lua. What is modelled are the bindings
-- that turn bytes into Lua values and back, and that hold the operating system's resources, and of
-- the Lua modules above them the queue, the event, the one-time result and the semaphore.
--
-- The parts, and the files that model them:
-- - src/lua-http-parser.c feeds bytes to http_parser, whose callbacks fill a Lua table.
--   Http/Callbacks has the callbacks on the record `Message` (the table), Http/Dict the table of
--   headers, Http/Execute `lparser_execute`, Http/Url `lparse_url`. Http/Headers and Http/Outcome
--   have the proofs on whole runs.
-- - cext/lua-bson.c encodes Lua tables as BSON documents and decodes them. Lua has the Lua values,
--   where a table is a list of entries whose order Lua leaves open, Bson/Wire the constants and
--   the little-endian words, Bson/Buffer `struct bson`, Bson/Scalars what the encoder writes for
--   single values, Bson/Encode `append_one`, `pack_dict` and `lencode`, Bson/Reader `struct
--   bson_reader`, Bson/Decode `unpack_dict` and `ldecode`, Bson/Index `lmakeindex` and `lreplace`,
--   Bson/Values the functions that make special strings and `ltype`. Bson/Format states the format
--   itself on the plain values, independently of the code. The proofs: Bson/Appends and
--   Bson/Frames on the buffer, Bson/Special, Bson/Keys, Bson/Refines and Bson/Arguments on the
--   encoder, Bson/Reads, Bson/Ordered, Bson/RoundTrip, Bson/Within and Bson/Total on the decoder,
--   Bson/Made and Bson/Kept on the special values, Bson/Indexed and Bson/InPlace on the index.
--   Bson/Sample has documents for the examples.
-- - cext/lua-mongo.c frames documents of lua-bson.c as messages of the MongoDB wire protocol and
--   takes replies apart. Mongo/Buffer has `struct buffer`, Mongo/Messages the functions `op_query`
--   to `op_insert`, Mongo/Reply `op_reply` and `reply_length`; Mongo/Wire states the protocol, and
--   Mongo/Sends, Mongo/Driver, Mongo/Filling, Mongo/Branches, Mongo/Answers and Mongo/Replies have
--   the proofs. Its documents are what Bson/Encode builds, and Mongo/Documents has the proofs on
--   the two together.
-- - src/lua-socket.c is Berkeley sockets. Socket/System has `socket_t`, the system calls and the
--   values pushed on the Lua stack, Socket/Methods the methods of a socket, Socket/Resolve the
--   functions of the module; Socket/Resources and Socket/Replies have the proofs.
-- - src/lua-ev.c is the binding of libev. Ev/Loop has the loop userdata `loop_t`, Ev/Run
--   `loop_run` and the callback `watcher_cb` with the Lua stack that they share, and Ev/Delivery
--   the proofs. What happens in `ev_run` is an `Activity`: the events that libev calls back for,
--   and whether the Lua function fails or runs the loop itself. Ev/Libev is the interface of the
--   calls that the methods of a watcher make, Ev/Watcher the userdata `watcher_t` and those
--   methods; Ev/Agreement, Ev/Listed, Ev/Stages and Ev/Defined have the proofs, for any libev with
--   the documented laws. Ev/Sample is such a libev, for the examples in Ev/Watching.
-- - levent/queue.lua and levent/lock.lua let coroutines wait for one another. What happens to such
--   an object is a history: a list of steps in which coroutines call its methods, time out or are
--   resumed, and the loop runs the callbacks of levent/loop.lua, in any order. Sync/Queue and
--   Sync/QueueRun are the queue, Sync/Semaphore the semaphore, Sync/LockEvent the event and
--   Sync/AsyncResult the one-time result; the waiters are those of levent/hub.lua. Which waiter
--   Lua's `next` gives is part of the step. Sync/Fits, Sync/Fifo, Sync/Awake, Sync/AwakeSteps,
--   Sync/Wakeups and Sync/Join have the proofs on the queue, Sync/Permits on the semaphore, which
--   is that of Lua 5.3, Sync/Links, Sync/Notified, Sync/Woken, Sync/Single, Sync/Rest,
--   Sync/Finished and Sync/Missed on the event, and Sync/Settled and Sync/Delivered on the result.
-- - Prelude has the lists and tests over native numbers that all parts share, and Prelude/Result
--   the outcome of a C function.
--
-- Conventions. A byte is a number below 256 and a string the list of its bytes. A machine integer
-- is its two's complement pattern: an `int` below 2^32, a `lua_Integer` below 2^64; a double is
-- its 64-bit pattern. `raised` is a Lua error. `fault` is undefined behaviour of the C code, an
-- access outside an object or a signed overflow; where a theorem says that a function gives `ok`,
-- it has none. `moved_back` is a BSON reader that a negative length in its input has moved
-- backwards, from where on the model does not follow the code: a nested document in the decoder,
-- and any field in `lmakeindex`, whose loop need not end then. Arguments are those that have
-- passed the type checks of lauxlib.
--
-- Fuel. `grow`, the doubling of a buffer, gets 32 rounds, and an `int` overflows earlier. The
-- decoder gets one round more than the document's length, which is shown to be enough. The loop of
-- `op_reply` over a table gets the number of rounds as an argument, because on some inputs it has
-- no end; with one more than the number of documents it is enough. `make_index` gets one round
-- more than the length that the document states, which is enough as long as the reader never moves
-- backwards.
--
-- Parameters. `ParserLib` and the `Trace` of callbacks stand for deps/http-parser, with what its
-- header documents of pausing. `Libev` stands for the calls of deps/libev that a watcher's methods
-- make, with what its documentation says of active and pending watchers, and whether a call meets
-- what libev asserts. `LuaLib` stands for `lua_rawlen` and for the text of a number, `CLib` for
-- `strtol`, and `System` for the system calls and the resolver, whose answers may depend on all
-- calls made before.
--
-- Not modelled: the vendored http-parser and libev, the Lua headers and the copy of LuaCrypto; the
-- constants and `tostring` of src/lua-ev.c; src/lua-errno.c and src/lua-levent.c, which only pass
-- values on; the Lua modules under levent/ and ext/ apart from those named above. `join` of the
-- queue waits for the flag of its event only, and a coroutine that a waiter resumes runs until it
-- waits again or ends. Of lua-bson.c the user data with its metatable, and `init_oid_header`; of
-- lua-http-parser.c the accessors and the user data; of lua-socket.c the Windows branches, the
-- constants and `tostring`. `malloc` is taken to succeed, as the code takes it, and `freeaddrinfo`
-- to leave `errno`.
pub mod Prelude
pub mod Lua
pub mod Http
pub mod Bson
pub mod Mongo
pub mod Socket
pub mod Ev
pub mod Sync
