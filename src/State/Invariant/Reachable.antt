-- ===== src/State/Invariant/Reachable.antt =====
-- state.rs: the states that the operations lead to, from the empty one on. Each operation is one
-- step; `live` may be different at each.
use rust_http3_gateway.Prelude.{ℕ, ℤ, Bool, String, List, Option, Unicode}
use rust_http3_gateway.Routes.Types.{RelayAuthorizationSpec}
use rust_http3_gateway.State.Types.{GatewayState, RelayContextSnapshot, new}
use rust_http3_gateway.State.Pending.{
  take_pending_for_subjects, requeue_for_subjects, buffer_latest_for_subjects,
}
use rust_http3_gateway.State.RequestRoutes.{
  bind_request_route, clear_request_route, resolve_request_route,
}
use rust_http3_gateway.State.Sessions.{unregister_connection, evict_connection, register_connection}
use rust_http3_gateway.State.Readiness.{
  mark_session_ready, mark_connection_alive, prune_stale_connections,
}
use rust_http3_gateway.State.Dispatch.{send_to_subjects, send_to_connection}
use rust_http3_gateway.State.RelayContexts.{apply_relay_context_snapshot}
use rust_http3_gateway.State.RelayAuth.{authorize_relay_hotpath}
use rust_http3_gateway.State.Invariant.{
  IsWellFormed, take_pending_for_subjects-IsWellFormed, requeue_for_subjects-IsWellFormed,
  buffer_latest_for_subjects-IsWellFormed, bind_request_route-IsWellFormed,
  clear_request_route-IsWellFormed, resolve_request_route-IsWellFormed,
}
use rust_http3_gateway.State.Invariant.Connections.{
  unregister_connection-IsWellFormed, evict_connection-IsWellFormed,
  register_connection-IsWellFormed, mark_session_ready-IsWellFormed,
  mark_connection_alive-IsWellFormed, prune_stale_connections-IsWellFormed,
}
use rust_http3_gateway.State.Invariant.Messages.{
  send_to_subjects-IsWellFormed, send_to_connection-IsWellFormed,
}
use rust_http3_gateway.State.Invariant.Relay.{
  apply_relay_context_snapshot-IsWellFormed, authorize_relay_hotpath-IsWellFormed,
}

module _ ⦃u : Unicode⦄ where
  -- One call of an operation that changes the state.
  pub data Step (s : GatewayState) : GatewayState → Type 0 where
    registers :
        (live : ℕ → Bool) (id user_id instance_id : String) (subjects : List String)
        (connected_at now_ts : ℤ)
        → Step s (register_connection live s id user_id instance_id subjects connected_at now_ts).0
    unregisters : (id : String) → Step s (unregister_connection s id).0
    evicts :
        (live : ℕ → Bool) (id : String) (reason : Option (ℕ × String))
        → Step s (evict_connection live s id reason).0
    is_ready :
        (live : ℕ → Bool) (id user_id : String) (now_ts : ℤ)
        → Step s (mark_session_ready live s id user_id now_ts).0
    is_alive : (id : String) (timestamp : ℤ) → Step s (mark_connection_alive s id timestamp)
    prunes :
        (now_ts stale_after_seconds : ℤ)
        → Step s (prune_stale_connections s now_ts stale_after_seconds).0
    sends_to_subjects :
        (live : ℕ → Bool) (subjects : List String) (message : String) (buffer : Bool)
        (sticky_key : Option String) (buffered_at requeued_at : ℤ)
        → Step s
            (send_to_subjects live s subjects message buffer sticky_key buffered_at requeued_at).0
    sends_to_connection :
        (live : ℕ → Bool) (id message : String) → Step s (send_to_connection live s id message).0
    takes :
        (subjects : List String) (now_ts : ℤ)
        → Step s (take_pending_for_subjects s subjects now_ts).0
    requeues :
        (subjects : List String) (message : String) (now_ts : ℤ)
        → Step s (requeue_for_subjects s subjects message now_ts)
    buffers :
        (subjects : List String) (message key : String) (now_ts : ℤ)
        → Step s (buffer_latest_for_subjects s subjects message key now_ts)
    binds :
        (request_id connection_id user_id : String) (now_ts : ℤ)
        → Step s (bind_request_route s request_id connection_id user_id now_ts)
    clears : (request_id : String) → Step s (clear_request_route s request_id)
    resolves :
        (request_id : String) (subjects : List String) (now_ts : ℤ)
        → Step s (resolve_request_route s request_id subjects now_ts).0
    applies :
        (snapshot : RelayContextSnapshot) (now_ts : ℤ)
        → Step s (apply_relay_context_snapshot s snapshot now_ts)
    authorizes :
        (sender command : String) (spec : RelayAuthorizationSpec) (key : String)
        (targets : List String) (replay_nonce : Option String) (size : Option ℕ) (now_ts : ℤ)
        → Step s
            (authorize_relay_hotpath s sender command spec key targets replay_nonce size now_ts).0

  Step-IsWellFormed : {s t : GatewayState} → Step s t → IsWellFormed s → IsWellFormed t
  Step-IsWellFormed {s} (registers live id user_id instance_id subjects connected_at now_ts) h =
      register_connection-IsWellFormed live s id user_id instance_id subjects connected_at now_ts h
  Step-IsWellFormed {s} (unregisters id) h = unregister_connection-IsWellFormed s id h
  Step-IsWellFormed {s} (evicts live id reason) h = evict_connection-IsWellFormed live s id reason h
  Step-IsWellFormed {s} (is_ready live id user_id now_ts) h =
      mark_session_ready-IsWellFormed live s id user_id now_ts h
  Step-IsWellFormed {s} (is_alive id timestamp) h =
      mark_connection_alive-IsWellFormed s id timestamp h
  Step-IsWellFormed {s} (prunes now_ts stale_after_seconds) h =
      prune_stale_connections-IsWellFormed s now_ts stale_after_seconds h
  Step-IsWellFormed {s} (sends_to_subjects live subjects message buffer key buffered_at requeued_at)
        h =
      send_to_subjects-IsWellFormed live s subjects message buffer key buffered_at requeued_at h
  Step-IsWellFormed {s} (sends_to_connection live id message) h =
      send_to_connection-IsWellFormed live s id message h
  Step-IsWellFormed {s} (takes subjects now_ts) h =
      take_pending_for_subjects-IsWellFormed s subjects now_ts h
  Step-IsWellFormed {s} (requeues subjects message now_ts) h =
      requeue_for_subjects-IsWellFormed s subjects message now_ts h
  Step-IsWellFormed {s} (buffers subjects message key now_ts) h =
      buffer_latest_for_subjects-IsWellFormed s subjects message key now_ts h
  Step-IsWellFormed {s} (binds request_id connection_id user_id now_ts) h =
      bind_request_route-IsWellFormed s request_id connection_id user_id now_ts h
  Step-IsWellFormed {s} (clears request_id) h = clear_request_route-IsWellFormed s request_id h
  Step-IsWellFormed {s} (resolves request_id subjects now_ts) h =
      resolve_request_route-IsWellFormed s request_id subjects now_ts h
  Step-IsWellFormed {s} (applies snapshot now_ts) h =
      apply_relay_context_snapshot-IsWellFormed s snapshot now_ts h
  Step-IsWellFormed {s} (authorizes sender command spec key targets replay_nonce size now_ts) h =
      authorize_relay_hotpath-IsWellFormed s sender command spec key targets replay_nonce size
        now_ts h

  -- What any sequence of operations makes of a new state.
  pub data Reachable : GatewayState → Type 0 where
    starts : (max : Option ℕ) → Reachable (new max)
    continues : {s t : GatewayState} → Reachable s → Step s t → Reachable t

  -- In every state that operations lead to from a new one, each connection is found at its
  -- subjects, no queue is over its limit, the keys of the connections, of the routes and of the
  -- replay cache are distinct, and the relay contexts belong to their subjects and have distinct
  -- operation keys.
  pub Reachable-IsWellFormed : (s : GatewayState) → Reachable s → IsWellFormed s
  unfolding new
  Reachable-IsWellFormed s (starts max) = (tt, tt, tt, tt, tt, tt, tt)
  Reachable-IsWellFormed s (continues {s = t} r step) =
      Step-IsWellFormed step (Reachable-IsWellFormed t r)
