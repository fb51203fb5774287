-- ===== src/Transport/Session.antt =====
-- transport/websocket.rs and transport/webtransport.rs: what the sessions of both have in common.
use rust_http3_gateway.Prelude.{
  ℕ, ℤ, Bool, not, ◌&&◌, String, List, [], ◌∷◌, ◌++◌, Option, none, some, is_empty, trim,
  to_lowercase, concat, ◌==◌, Unicode, if◌then◌else◌,
}
use rust_http3_gateway.Json.{Json, texts}
use rust_http3_gateway.State.Types.{GatewayState, ConnectionInfo, OutboundMessage}
use rust_http3_gateway.State.Sessions.{register_connection, unregister_connection}
use rust_http3_gateway.Gateway.{StreamEntry, Readings, done, panics}
use rust_http3_gateway.Gateway.Handle.{publish_event, handle_client_message}
use rust_http3_gateway.Auth.Session.{AuthContext}

-- What the session reads of the configuration, and whether it has a client of Redis.
pub record SessionConfig : Type 0 where
  pub inbox_stream : String
  pub events_stream : String
  pub has_redis : Bool

-- The state, and what has been added to the streams of Redis.
pub record World : Type 0 where
  pub state : GatewayState
  pub published : List StreamEntry

-- An event of the loop: a message that the channel hands over, which the socket takes or not, the
-- end of the channel, or what comes from the client.
pub data SessionEvent (Incoming : Type 0) : Type 0 where
  outbound : OutboundMessage → Bool → SessionEvent Incoming
  channel_closed : SessionEvent Incoming
  incoming : Incoming → SessionEvent Incoming

pub data Stepped : Type 0 where
  stays ends panicked : World → Stepped

-- The state after an outcome of the loop.
abbrev pub world_of : Stepped → World
world_of (stays w) = w
world_of (ends w) = w
world_of (panicked w) = w

module _ ⦃u : Unicode⦄ where
  -- The subjects of a user, with the one of the name in lower case where that is another.
  unfoldable pub session_subjects : String → List String
  session_subjects user_id =
      let normalized_user = to_lowercase (trim user_id) in
      concat ("user:" ∷ user_id ∷ [])
      ∷ (if not (is_empty normalized_user) && not (normalized_user == user_id)
          then concat ("user:" ∷ normalized_user ∷ []) ∷ []
          else [])

  module _ ⦃j : Json⦄ (config : SessionConfig) where
    open j use {Value, string, integer, object}

    -- The event of a connection, of the type "connected" or "disconnected".
    unfoldable pub connection_event : String → ConnectionInfo → Value
    connection_event kind info = object (
        ("type", string kind)
        ∷ ("connection_id", string info.connection_id)
        ∷ ("user_id", string info.user_id)
        ∷ ("subjects", texts info.subjects)
        ∷ ("connected_at", integer info.connected_at)
        ∷ [])

    unfoldable pub publish_connection_event : String → ConnectionInfo → List StreamEntry
    unfolding publish_event connection_event
    publish_connection_event kind info =
        if config.has_redis
        then publish_event config.events_stream (connection_event kind info)
        else []

    -- What is published when a connection has been unregistered, or was not there.
    unfoldable pub note_end : World → GatewayState × Option ConnectionInfo → World
    unfolding publish_connection_event
    note_end world (after, none) = record world { state = after }
    note_end world (after, some info) = record {
      state = after;
      published = world.published ++ publish_connection_event "disconnected" info;
    }

    -- The end of a session, however it ended: its connection leaves the state.
    unfoldable pub close_session : World → String → World
    unfolding note_end
    close_session world connection_id =
        note_end world (unregister_connection world.state connection_id)

    module _ (live : ℕ → Bool) where
      -- The start of the session of a client that is authenticated. The socket takes the payload
      -- of the authentication and the greeting (`greeted`), or the session ends.
      unfoldable pub open_session :
          World → String → AuthContext → Bool → ℤ → ℤ → Stepped × ConnectionInfo
      unfolding session_subjects publish_connection_event
      open_session world connection_id context greeted connected_at now_ts =
          let (after, info, channel, evicted) =
            register_connection live world.state connection_id context.user_id
              context.client_instance_id (session_subjects context.user_id) connected_at now_ts in
          (
            if greeted
                then stays (record {
                  state = after;
                  published = world.published ++ publish_connection_event "connected" info;
                })
                else ends (record world { state = after }),
            info,
          )

      -- A message of the client, at the readings of the clock of its handling.
      unfoldable pub receive : World → ConnectionInfo → String → Readings → Stepped
      receive world info raw at =
          elim (handle_client_message live config.inbox_stream config.has_redis at world.state
            info.connection_id info raw) [
              | done after entries ↦
                  stays (record { state = after; published = world.published ++ entries })
              | panics after ↦ panicked (record world { state = after })
            ]

-- The loop over the events. It stands still where no more come.
unfoldable pub run_session :
    {Incoming : Type 0}
    → (World → SessionEvent Incoming → Stepped)
    → List (SessionEvent Incoming)
    → World
    → Stepped
run_session step [] world = stays world
run_session step (event ∷ rest) world = elim (step world event) [
  | stays after ↦ run_session step rest after
  | ends after ↦ ends after
  | panicked after ↦ panicked after
]

-- The whole of a session whose client is authenticated: its start, its loop and, unless it goes on or
-- its task has panicked, its end.
module _ ⦃u : Unicode⦄ ⦃j : Json⦄ (config : SessionConfig) where
  unfoldable pub finish : Stepped → String → World
  unfolding close_session
  finish (stays world) connection_id = world
  finish (ends world) connection_id = close_session config world connection_id
  finish (panicked world) connection_id = world

  unfoldable pub run_opened :
      {Incoming : Type 0}
      → (World → SessionEvent Incoming → Stepped)
      → List (SessionEvent Incoming)
      → Stepped
      → Stepped
  unfolding run_session
  run_opened step events (stays world) = run_session step events world
  run_opened step events (ends world) = ends world
  run_opened step events (panicked world) = panicked world

  unfoldable pub handle_session :
      {Incoming : Type 0}
      → (ℕ → Bool)
      → (ConnectionInfo → World → SessionEvent Incoming → Stepped)
      → World
      → String
      → AuthContext
      → Bool
      → ℤ
      → ℤ
      → List (SessionEvent Incoming)
      → World
  unfolding open_session run_opened finish
  handle_session live step world connection_id context greeted connected_at now_ts events =
      let (opened, info) =
        open_session config live world connection_id context greeted connected_at now_ts in
      finish (run_opened (step info) events opened) connection_id
