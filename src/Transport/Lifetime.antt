-- ===== src/Transport/Lifetime.antt =====
-- transport/websocket.rs and transport/webtransport.rs: a session whose channel or client is gone
-- comes to its end.
use rust_http3_gateway.Prelude.{
  ℕ, ℤ, Bool, false, String, List, [], ◌∷◌, none, lookup, Unicode, if_both, In, here, there, ◌≡◌,
  subst, ◌⊎◌, inl, inr,
}
use rust_http3_gateway.Json.{Json}
use rust_http3_gateway.Json.Laws.{JsonLaws}
use rust_http3_gateway.State.Types.{ConnectionInfo, text, close}
use rust_http3_gateway.Gateway.{Readings}
use rust_http3_gateway.Gateway.Outcomes.{handle_client_message-IsDone}
use rust_http3_gateway.Auth.Session.{AuthContext}
use rust_http3_gateway.Transport.Session.{
  SessionConfig, World, SessionEvent, outbound, channel_closed, incoming, Stepped, stays, ends,
  panicked, open_session, receive, run_session, finish, run_opened, handle_session,
}
use rust_http3_gateway.Transport.WebSocket.{
  Buffers, Frame, text_frame, binary_frame, ping_frame, pong_frame, close_frame, no_frame,
  frame_error, ws_frame, ws_step,
}
use rust_http3_gateway.Transport.WebTransport.{
  Stream, stream_read, not_accepted, read_error, read_timeout, raw_of, wt_stream, wt_step,
}
use rust_http3_gateway.Transport.Endings.{close_session-IsForgotten}

-- An event after which a session does not go on: its channel is closed, the socket does not take a
-- text, the session is told to close, or its client is gone.
pub data IsLast {Incoming : Type 0} (IsGone : Incoming → Type 0)
    : SessionEvent Incoming → Type 0 where
  channel_ends : IsLast IsGone channel_closed
  text_is_lost : (t : String) → IsLast IsGone (outbound (text t) false)
  closes :
      (code : ℕ) (reason : String) (taken : Bool)
      → IsLast IsGone (outbound (close code reason) taken)
  client_leaves : (x : Incoming) → IsGone x → IsLast IsGone (incoming x)

-- The outcome is no panic, and it is the end.
abbrev IsSafe : Stepped → Type 0
IsSafe (stays after) = Unit
IsSafe (ends after) = Unit
IsSafe (panicked after) = ⊥

abbrev IsEnd : Stepped → Type 0
IsEnd (stays after) = ⊥
IsEnd (ends after) = Unit
IsEnd (panicked after) = ⊥

-- A step that never panics and ends with what ends a session.
record IsSound {Incoming : Type 0} (IsGone : Incoming → Type 0)
    (step : World → SessionEvent Incoming → Stepped) : Type 0 where
  safe : (world : World) (event : SessionEvent Incoming) → IsSafe (step world event)
  last :
      (world : World) (event : SessionEvent Incoming)
      → IsLast IsGone event
      → IsEnd (step world event)

module _ {Incoming : Type 0} (IsGone : Incoming → Type 0)
    (step : World → SessionEvent Incoming → Stepped) (sound : IsSound IsGone step) where
  run-IsEnd :
      (events : List (SessionEvent Incoming)) (world : World) (event : SessionEvent Incoming)
      → In event events
      → IsLast IsGone event
      → IsEnd (run_session step events world)
  unfolding run_session
  run-IsEnd [] world event i h = elim i [ ]
  run-IsEnd (e ∷ rest) world event i h =
      goes_on (step world e) (λ after later. run-IsEnd rest after event later h)
        (sound.safe world e) (is_here i)
    where
      is_here : In event (e ∷ rest) → IsEnd (step world e) ⊎ In event rest
      is_here (here same) = inl (sound.last world e (subst (IsLast IsGone) same h))
      is_here (there later) = inr later

      goes_on :
          (x : Stepped)
          → ((after : World) → In event rest → IsEnd (run_session step rest after))
          → IsSafe x
          → IsEnd x ⊎ In event rest
          → IsEnd (elim x [
            | stays after ↦ run_session step rest after
            | ends after ↦ ends after
            | panicked after ↦ panicked after
          ])
      goes_on (stays after) k safe (inl over) = absurd over
      goes_on (stays after) k safe (inr later) = k after later
      goes_on (ends after) k safe o = tt
      goes_on (panicked after) k safe o = absurd safe

module _ ⦃j : Json⦄ ⦃b : Buffers⦄ where
  -- What says that the client is gone: a frame of a WebSocket, and a stream of WebTransport.
  abbrev pub IsGoneWs : Frame × Readings → Type 0
  IsGoneWs (frame, at) = (frame ≡ close_frame) ⊎ ((frame ≡ no_frame) ⊎ (frame ≡ frame_error))

  abbrev pub IsGoneWt : Stream × Readings → Type 0
  IsGoneWt (stream, at) =
      (stream ≡ not_accepted) ⊎ ((stream ≡ read_error) ⊎ (stream ≡ read_timeout))

module _ ⦃u : Unicode⦄ ⦃j : Json⦄ (config : SessionConfig) where
  finish_disconnects :
      (x : Stepped) (id : String)
      → IsEnd x
      → lookup id (finish config x id).state.connections ≡ none
  unfolding finish
  finish_disconnects (stays world) id h = absurd h
  finish_disconnects (ends world) id h = (close_session-IsForgotten config world id).disconnected
  finish_disconnects (panicked world) id h = absurd h

  module _ (live : ℕ → Bool) where
    receive-IsSafe :
        ⦃l : JsonLaws⦄ (world : World) (info : ConnectionInfo) (raw : String) (at : Readings)
        → IsSafe (receive config live world info raw at)
    unfolding receive
    receive-IsSafe world info raw at =
        let (after, entries, e) =
          handle_client_message-IsDone live config.inbox_stream config.has_redis at world.state
            info.connection_id info raw in
        rw (e, receive, IsSafe) tt

    module _ ⦃b : Buffers⦄ ⦃l : JsonLaws⦄ (info : ConnectionInfo) where
      ws-IsSafe :
          (world : World) (event : SessionEvent (Frame × Readings))
          → IsSafe (ws_step config live info world event)
      unfolding ws_step ws_frame
      ws-IsSafe world (outbound (text t) taken) = if_both IsSafe taken tt tt
      ws-IsSafe world (outbound (close code reason) taken) = tt
      ws-IsSafe world channel_closed = tt
      ws-IsSafe world (incoming (text_frame t, at)) = receive-IsSafe world info t at
      ws-IsSafe world (incoming (binary_frame bytes, at)) =
          receive-IsSafe world info (b.from_utf8_lossy bytes) at
      ws-IsSafe world (incoming (ping_frame, at)) = tt
      ws-IsSafe world (incoming (pong_frame, at)) = tt
      ws-IsSafe world (incoming (close_frame, at)) = tt
      ws-IsSafe world (incoming (no_frame, at)) = tt
      ws-IsSafe world (incoming (frame_error, at)) = tt

      ws-IsEnd :
          (world : World) (event : SessionEvent (Frame × Readings))
          → IsLast IsGoneWs event
          → IsEnd (ws_step config live info world event)
      unfolding ws_step ws_frame
      ws-IsEnd world event channel_ends = tt
      ws-IsEnd world event (text_is_lost t) = tt
      ws-IsEnd world event (closes code reason taken) = tt
      ws-IsEnd world event (client_leaves (frame, at) (inl e)) = rw e tt
      ws-IsEnd world event (client_leaves (frame, at) (inr (inl e))) = rw e tt
      ws-IsEnd world event (client_leaves (frame, at) (inr (inr e))) = rw e tt

      wt-IsSafe :
          (requeued_at : ℤ) (world : World) (event : SessionEvent (Stream × Readings))
          → IsSafe (wt_step config live info requeued_at world event)
      unfolding wt_step wt_stream
      wt-IsSafe requeued_at world (outbound (text t) taken) = if_both IsSafe taken tt tt
      wt-IsSafe requeued_at world (outbound (close code reason) taken) = tt
      wt-IsSafe requeued_at world channel_closed = tt
      wt-IsSafe requeued_at world (incoming (stream_read buffer, at)) =
          if_both IsSafe (b.is_empty_buffer buffer) tt
            (receive-IsSafe world info (raw_of buffer) at)
      wt-IsSafe requeued_at world (incoming (not_accepted, at)) = tt
      wt-IsSafe requeued_at world (incoming (read_error, at)) = tt
      wt-IsSafe requeued_at world (incoming (read_timeout, at)) = tt

      wt-IsEnd :
          (requeued_at : ℤ) (world : World) (event : SessionEvent (Stream × Readings))
          → IsLast IsGoneWt event
          → IsEnd (wt_step config live info requeued_at world event)
      unfolding wt_step wt_stream
      wt-IsEnd requeued_at world event channel_ends = tt
      wt-IsEnd requeued_at world event (text_is_lost t) = tt
      wt-IsEnd requeued_at world event (closes code reason taken) = tt
      wt-IsEnd requeued_at world event (client_leaves (stream, at) (inl e)) = rw e tt
      wt-IsEnd requeued_at world event (client_leaves (stream, at) (inr (inl e))) = rw e tt
      wt-IsEnd requeued_at world event (client_leaves (stream, at) (inr (inr e))) = rw e tt

    session_disconnects :
        {Incoming : Type 0} (IsGone : Incoming → Type 0)
        (step : ConnectionInfo → World → SessionEvent Incoming → Stepped) (world : World)
        (id : String) (context : AuthContext) (greeted : Bool) (connected_at now_ts : ℤ)
        (events : List (SessionEvent Incoming)) (event : SessionEvent Incoming)
        → ((info : ConnectionInfo) → IsSound IsGone (step info))
        → In event events
        → IsLast IsGone event
        → lookup id
            (handle_session config live step world id context greeted connected_at now_ts
              events).state.connections
          ≡ none
    unfolding handle_session run_opened open_session
    session_disconnects IsGone step world id context greeted connected_at now_ts events event sound
          i h =
        let info = (open_session config live world id context greeted connected_at now_ts).1 in
        if_both
          (λ (o : Stepped).
            lookup id (finish config (run_opened config (step info) events o) id).state.connections
            ≡ none)
          greeted
          (finish_disconnects (run_session (step info) events _) id
            (run-IsEnd IsGone (step info) (sound info) events _ event i h))
          (finish_disconnects (ends _) id tt)

    -- With a JSON library that keeps its laws: the connection of a session of either transport is not
    -- there any more after its channel is closed, the socket does not take a text, it is told to
    -- close, or its client is gone.
    pub handle_session_disconnects :
        ⦃b : Buffers⦄ ⦃l : JsonLaws⦄ (requeued_at : ℤ) (world : World) (id : String)
        (context : AuthContext) (greeted : Bool) (connected_at now_ts : ℤ)
        (ws_events : List (SessionEvent (Frame × Readings)))
        (ws_last : SessionEvent (Frame × Readings))
        (wt_events : List (SessionEvent (Stream × Readings)))
        (wt_last : SessionEvent (Stream × Readings))
        → In ws_last ws_events
        → IsLast IsGoneWs ws_last
        → In wt_last wt_events
        → IsLast IsGoneWt wt_last
        → (lookup id
              (handle_session config live
                (ws_step config live)
                world
                id
                context
                greeted
                connected_at
                now_ts
                ws_events).state.connections
            ≡ none)
          × (lookup id
                (handle_session config live
                  (λ info. wt_step config live info requeued_at)
                  world
                  id
                  context
                  greeted
                  connected_at
                  now_ts
                  wt_events).state.connections
              ≡ none)
    handle_session_disconnects requeued_at world id context greeted connected_at now_ts ws_events
          ws_last wt_events wt_last i h k g =
        (
          session_disconnects IsGoneWs (ws_step config live) world id context greeted connected_at
              now_ts ws_events ws_last
              (λ info. record { safe = ws-IsSafe info; last = ws-IsEnd info }) i h,
          session_disconnects IsGoneWt (λ info. wt_step config live info requeued_at) world id
              context greeted connected_at now_ts wt_events wt_last
              (λ info. record {
                safe = wt-IsSafe info requeued_at;
                last = wt-IsEnd info requeued_at;
              })
              k g,
        )
