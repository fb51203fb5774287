-- ===== src/Lib.antt =====
-- The gateway keeps the sessions of its clients in one shared state (src/state.rs): connections and
-- the subjects they listen to, messages that wait for a subject, routes from a request to the
-- connection that asked, and the relay contexts by which the backend lets two peers exchange files
-- through the gateway. Clients reach it through transports and src/gateway_core.rs, which looks a
-- command up in the tables of src/routes.rs and src/project/command_registry.rs and asks the state
-- whether a relay command is allowed; the backend reaches it through src/broker.rs and
-- src/http_api.rs, which send messages to subjects and apply snapshots of relay contexts.
--
-- Registry         src/project/command_registry.rs, the two tables in full.
-- Routes           src/routes.rs: look-ups and `validate_command_registry`; Routes/Types has its
--                  types. An error is a constructor in place of its text, which also names the
--                  routing class where both local classes share a message.
-- State/Types      the structs, enums and constants of src/state.rs.
-- State/Pending    `prune_pending_queue`, `take_pending_for_subjects`, `requeue_for_subjects`,
--                  `buffer_latest_for_subjects`.
-- State/RequestRoutes  binding, clearing, pruning and resolving request routes.
-- State/Sessions   `register_connection`, `unregister_connection`, `evict_connection`.
-- State/Readiness  `mark_session_ready`, `mark_connection_alive`, `prune_stale_connections`,
--                  `list_connections`.
-- State/Dispatch   `send_to_subjects`, `send_to_connection`.
-- State/RelayContexts  `apply_relay_context_snapshot` and the sanitizing functions.
-- State/RelayLimits    the replay cache and the rate limit.
-- State/RelayAuth      `authorize_relay_hotpath`.
-- State/Invariant      what the operations keep; Invariant/Reachable has the relation of steps.
-- Json             the values of serde_json, as an interface; Json/Laws has what the proofs rely on.
-- Message          src/message.rs.
-- Gateway          src/gateway_core.rs: `collect_relay_targets`, `send_gateway_command_error`;
--                  Gateway/Relay has the relay and Gateway/Handle `handle_client_message`, with
--                  `publish_event` of src/broker.rs. Gateway/Client states what a message may do.
-- Broker           src/broker.rs: Broker/Snapshot parses relay contexts, Broker/Xread the replies of
--                  Redis, and Broker/Outbox has the body of `start_outbox_consumer`.
-- Config           src/config.rs.
-- Auth             Auth/Preauth has src/preauth.rs and src/project/preauth_config.rs, Auth/Jwt has
--                  src/auth.rs, and Auth/Session the loop of authentication that
--                  src/transport/websocket.rs and src/transport/webtransport.rs both have.
-- Transport        the sessions of these two: Transport/Session has what they share.
-- HttpApi          src/http_api.rs, its five handlers.
-- StartUp          the task of src/main.rs that prunes silent connections.
-- Prelude          texts, integers, lists and maps that these share, the parsing of numbers, and the
--                  results of fallible functions (Outcome).
--
-- A map (DashMap) is an association list in its order of iteration, which the code leaves open; a
-- set is a list without repetition. Each method is one step on the state that is passed to it and
-- returned: the interleaving of two methods on the maps is not modelled. A reading of the clock is
-- an argument, one for each time that the code reads it. Times are i64 with `saturating_sub` and
-- `saturating_add` written out, the counts of the rate limit stop at the largest u32. The sending
-- half of a channel is its number; what channels take is the list `sent`, and `live` says whether
-- the receiver of a channel is still there, which is when a send succeeds. `to_lowercase` of a text
-- outside ASCII is a parameter (the record Unicode). A `continue`, `break` or early return is a case
-- of the structural recursion that stands for the loop.
--
-- Libraries are arguments. A record has the operations of serde_json (Json), the replies of Redis
-- (Redis), the decoding of tokens and the keys of an issuer (Jwt), and the bytes of frames and
-- streams (Buffers); the request to the backend is a function to a status and a body, or to none. An
-- XADD is an entry in a list, an XDEL an id in a list. The object that `json!` writes is the list of
-- its fields; the assignment to a field may panic, which is an outcome of its own. The events of a
-- session come in any order, as a list, which stands for the choices of `select!`; a session that
-- waits is one whose list is at its end. The loop of authentication takes one round for each attempt:
-- two more rounds than there are frames are enough, which is shown for WebSocket.
--
-- Not modelled: listeners, endpoints and TLS (src/transport/factory.rs and the `serve` of both
-- transports), the router of axum and the wiring of tasks in src/main.rs, which are asynchronous I/O
-- without a state of their own; logging; the wait of a second after an error of Redis; and the
-- answers to a ping before and during a session, which go to the socket alone.
pub mod Prelude
pub mod Json
pub mod Registry
pub mod Routes
pub mod State
pub mod Message
pub mod Gateway
pub mod Broker
pub mod Config
pub mod Auth
pub mod Transport
pub mod HttpApi
pub mod StartUp
