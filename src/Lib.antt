-- ===== src/Lib.antt =====
-- Verification of the bridge: a proxy that takes requests in the Chat Completions, Responses and
-- Anthropic Messages formats, picks an upstream provider for the model, calls it in the Chat
-- Completions format with failover, and translates the answer back, as a stream of server-sent
-- events or as one object.
--
-- The parts, and the modules that model them:
--   src/canonical.rs       Canonical: requests, messages and stream events of no particular format.
--                          Canonical/Deeds: what a conversation says and does.
--   src/sse.rs             Sse: the bytes of the upstream's stream to events. `SseDecoder::push` is
--                          `push`, `find_separator` and `parse_event_block` keep their names.
--                          Sse/Separator has the search, Sse/Laws the decoder.
--   src/wire/chat.rs       Chat/Parents (`normalize_tool_parents`), Chat/Schema (`sanitize_schema`),
--                          Chat/Request (`build_request`), Chat/Inbound (`parse_request`), and
--                          Chat/Stream (`on_chunk`, `completion_to_events`). Chat/Request/RoundTrip
--                          and Found read back what is sent.
--   src/wire/mod.rs        Wire: frames, the emitters' interface, maps from tool-call indices, and
--                          what it means that no tool call is started twice (Wire/Starts).
--   src/wire/responses.rs  Responses/Request (`parse_request`; Laws, Merging and Reasonings
--                          have what it keeps), Responses/Frames and Responses/Emitter, with the life of output items
--                          (Balance, Items), the final response (Final) and the sequence numbers
--                          (Numbers, Sequence).
--   src/wire/anthropic.rs  Anthropic/Request (`parse_request`), Anthropic/Frames and
--                          Anthropic/Emitter, with the life of content blocks (Balance, Blocks)
--                          and the unwraps (Panics).
--   src/error.rs           Error: errors, their texts and statuses, and fallible results.
--   src/config.rs          Config: providers, routes, tags and legacy fields.
--   src/router.rs          Router: `resolve_candidates`; Router/Chain has what it gives.
--   src/usage.rs           Usage: the rolling log of usage and its windows (Usage/Window),
--                          what charges write to the store (Usage/Persistence) and to the log
--                          (Usage/Charges), and what is loaded of the store (Usage/Load).
--   src/store.rs           Store: rows and their conversion (Store/Rows), the statements
--                          (Store/Tables, on the tables with keys of Table), the keys (Store/Integrity,
--                          Store/Writes), and the store as a map
--                          (Store/Refinement, Store/Loading).
--   src/admin.rs           Admin: the inputs and their checks; Admin/Handlers: the requests that
--                          write; Admin/Sound and Laws: what they keep; Admin/Routes: the running
--                          routes.
--   src/probe.rs           Probe: the status that a probe gives, and a turn of src/watcher.rs.
--   src/server.rs          Server/Auth (`check_auth`), Server/Failover (`open_upstream_stream`,
--                          `call_upstream_json`, `mark_degraded`; Server/Failover/Passed has
--                          the marks that are left), Server/Stream (`run_stream`),
--                          Server/State (`reload_from_db`, with `spawn` of src/watcher.rs) and
--                          Server/Handlers (`responses_handler`, `messages_handler`,
--                          `chat_handler`), and Server/Views (the listings, also of
--                          src/admin.rs; Server/Views/Secrecy: what they show of keys).
-- Runtime has the steps of all the processes that share the server's state, Runtime/Sync and Reach
-- what every run of them keeps.
-- Prelude and Json have what all of them share; Examples has concrete runs.
--
-- A request is parsed to a canonical request; the router turns its model into candidates; the
-- failover asks them one after another with the body of `build_request`. The stream of the one that
-- answers goes through the decoder, the chunk parser and the emitter of the client's format. The admin
-- interface writes providers and routes to the store; after each write the configuration is loaded
-- from the store anew.
--
-- How code is modelled. A method that changes its object is a function from the state to the state
-- and its result; an emitter's method also says whether an `unwrap` panicked. A JSON object is an
-- association list whose first entry of a key counts, and a hash map is one too; the order of keys
-- is not modelled. A `u32` or `u64` counter is a number with its wrap-around written out, as a
-- release build computes it. A float is its bit pattern, and the arithmetic on floats is a parameter,
-- as are `from_utf8_lossy`, the JSON parser, random ids and the answers of the network: no theorem
-- assumes anything of them. The decoder's loop runs on fuel, one more than the bytes in the buffer,
-- which is enough since each round removes at least the separator.
--
-- A table of the store is the list of its rows; a statement that would break a primary or a foreign
-- key fails, and a delete cascades as the migrations say. The JSON text of a column is written and
-- read by parameters; a theorem that needs a text to be read back has it as a hypothesis.
--
-- A charge is one step: the log in memory and the row of `usage_events`. The probe that
-- `mark_degraded` starts is named in the result of a call; its end is a step of Runtime of its own, at
-- any time and of any provider, as the task is never stopped.
--
-- A handler is one step of Runtime; its marks and charges are steps as well, so that those of requests
-- that overlap may come between other steps.
--
-- Not modelled: failures of the database that are not about keys, a NaN in a REAL column (SQLite
-- stores NULL), admin writes that run at the same time, the client of src/upstream.rs with its
-- shortening of error texts, and what is input and output or glue: HTTP, the Lua runtime, the timers
-- of the watcher, and start-up.
pub mod Prelude
pub mod Json
pub mod Canonical
pub mod Sse
pub mod Chat
pub mod Wire
pub mod Anthropic
pub mod Responses
pub mod Error
pub mod Config
pub mod Router
pub mod Usage
pub mod Server
pub mod Table
pub mod Store
pub mod Admin
pub mod Probe
pub mod Runtime
pub mod Examples
