-- ===== src/State/Invariant.antt =====
-- state.rs: what the state satisfies between operations, and the operations that keep it.
pub mod Connections
pub mod Contexts
pub mod Messages
pub mod Relay
pub mod Reachable
use rust_http3_gateway.Prelude.{
  ℕ, ℤ, Bool, true, false, not, ◌||◌, String, List, [], ◌∷◌, ◌++◌, Option, none, some, Map, lookup,
  insert, remove, remove_all, remove_all-Distinct, keys, Distinct, insert-Distinct, remove-Distinct,
  ◌==◌, is_empty, is_nil, trim, retain, leb, length, older_than, All, All-insert, All-lookup,
  if_both, if◌then◌else◌, ◌≡◌, refl, arith, inl, inr, Unicode, Option-cases,
}
use rust_http3_gateway.State.Types.{
  GatewayState, RequestRoute, ConnectionHandle, request_route_max, request_route_ttl_seconds,
  relay_replay_cache_max,
}
use rust_http3_gateway.State.Pending.{
  take_pending_for_subjects, requeue_for_subjects, buffer_latest_for_subjects,
}
use rust_http3_gateway.State.Pending.Delivery.{
  IsBounded, push_each-IsBounded, replace_each-IsBounded, take_each-IsBounded,
}
use rust_http3_gateway.State.RequestRoutes.{
  is_stale_route, prune_request_routes, bind_request_route, drop_route, clear_request_route,
  matches_subject, resolve_with, resolve_found, resolve_request_route,
}
use rust_http3_gateway.State.Sessions.{index_subjects, unregister_connection}
use rust_http3_gateway.State.Sessions.Index.{
  IsIndexed, unregister_connection-IsIndexed, insert_connection-IsIndexed,
}
use rust_http3_gateway.State.RelayContexts.{apply_relay_context_snapshot, store_contexts}
use rust_http3_gateway.State.RelayContexts.Laws.{IsOwned, apply_relay_context_snapshot-IsOwned}
use rust_http3_gateway.State.RelayContexts.Keys.{IsKeyed, apply_relay_context_snapshot-IsKeyed}

-- Connections are found at their subjects, no queue is over its limit, the keys of the connections,
-- of the routes and of the replay cache are distinct, and the relay contexts belong to their
-- subjects and have distinct operation keys.
abbrev pub IsWellFormed : GatewayState → Type 0
IsWellFormed s =
    IsIndexed s.connections s.subjects
    × IsBounded s.pending_by_subject
    × Distinct s.request_routes
    × Distinct s.relay_replay_cache
    × IsOwned s.relay_contexts_by_subject
    × IsKeyed s.relay_contexts_by_subject
    × Distinct s.connections

-- The waiting queues.
pub requeue_for_subjects-IsWellFormed :
    (s : GatewayState) (subjects : List String) (message : String) (now_ts : ℤ)
    → IsWellFormed s
    → IsWellFormed (requeue_for_subjects s subjects message now_ts)
unfolding requeue_for_subjects
requeue_for_subjects-IsWellFormed s subjects message now_ts (i, b, r, c, o, k, n) =
    if_both IsWellFormed (is_nil subjects || is_empty message) (i, b, r, c, o, k, n)
      (i, push_each-IsBounded _ now_ts subjects s.pending_by_subject b, r, c, o, k, n)

pub buffer_latest_for_subjects-IsWellFormed :
    (s : GatewayState) (subjects : List String) (message key : String) (now_ts : ℤ)
    → IsWellFormed s
    → IsWellFormed (buffer_latest_for_subjects s subjects message key now_ts)
unfolding buffer_latest_for_subjects
buffer_latest_for_subjects-IsWellFormed s subjects message key now_ts (i, b, r, c, o, k, n) =
    if_both IsWellFormed (is_nil subjects || is_empty message || is_empty key) (i, b, r, c, o, k, n)
      (i, replace_each-IsBounded key _ now_ts subjects s.pending_by_subject b, r, c, o, k, n)

pub take_pending_for_subjects-IsWellFormed :
    (s : GatewayState) (subjects : List String) (now_ts : ℤ)
    → IsWellFormed s
    → IsWellFormed (take_pending_for_subjects s subjects now_ts).0
unfolding take_pending_for_subjects
take_pending_for_subjects-IsWellFormed s subjects now_ts (i, b, r, c, o, k, n) =
    (i, take_each-IsBounded now_ts subjects ([], []) s.pending_by_subject b, r, c, o, k, n)

-- The request routes.
prune_request_routes-IsWellFormed :
    (s : GatewayState) (now_ts : ℤ) → IsWellFormed s → IsWellFormed (prune_request_routes s now_ts)
unfolding prune_request_routes
prune_request_routes-IsWellFormed s now_ts (i, b, r, c, o, k, n) =
    if_both IsWellFormed (leb (length s.request_routes) request_route_max) (i, b, r, c, o, k, n)
      (
        i,
        b,
        remove_all-Distinct (keys (retain (λ e. is_stale_route s now_ts e.1) s.request_routes))
            s.request_routes r,
        c,
        o,
        k,
        n,
      )

pub bind_request_route-IsWellFormed :
    (s : GatewayState) (request_id connection_id user_id : String) (now_ts : ℤ)
    → IsWellFormed s
    → IsWellFormed (bind_request_route s request_id connection_id user_id now_ts)
unfolding bind_request_route
bind_request_route-IsWellFormed s request_id connection_id user_id now_ts (i, b, r, c, o, k, n) =
    if_both IsWellFormed (is_empty (trim request_id) || is_empty connection_id || is_empty user_id)
      (i, b, r, c, o, k, n)
      (prune_request_routes-IsWellFormed _ now_ts
        (i, b, insert-Distinct (trim request_id) _ s.request_routes r, c, o, k, n))

drop_route-IsWellFormed :
    (s : GatewayState) (request : String) → IsWellFormed s → IsWellFormed (drop_route s request)
drop_route-IsWellFormed s request (i, b, r, c, o, k, n) =
    (i, b, remove-Distinct request s.request_routes r, c, o, k, n)

pub clear_request_route-IsWellFormed :
    (s : GatewayState) (request_id : String)
    → IsWellFormed s
    → IsWellFormed (clear_request_route s request_id)
unfolding clear_request_route
clear_request_route-IsWellFormed s request_id h =
    if_both IsWellFormed (is_empty (trim request_id)) h
      (drop_route-IsWellFormed s (trim request_id) h)

resolve_with-IsWellFormed :
    (s : GatewayState) (request : String) (subjects : List String) (route : RequestRoute)
    (found : Option ConnectionHandle)
    → IsWellFormed s
    → IsWellFormed (resolve_with s request subjects route found).0
unfolding resolve_with
resolve_with-IsWellFormed s request subjects route none h = drop_route-IsWellFormed s request h
resolve_with-IsWellFormed s request subjects route (some handle) h =
    if_both (λ (o : GatewayState × Option String). IsWellFormed o.0)
      (not (handle.info.user_id == route.user_id)) (drop_route-IsWellFormed s request h)
      (if_both (λ (o : GatewayState × Option String). IsWellFormed o.0)
        (matches_subject subjects handle) h h)

resolve_found-IsWellFormed :
    (s : GatewayState) (request : String) (subjects : List String) (now_ts : ℤ)
    (found : Option RequestRoute)
    → IsWellFormed s
    → IsWellFormed (resolve_found s request subjects now_ts found).0
unfolding resolve_found
resolve_found-IsWellFormed s request subjects now_ts none h = h
resolve_found-IsWellFormed s request subjects now_ts (some route) h =
    if_both (λ (o : GatewayState × Option String). IsWellFormed o.0)
      (older_than request_route_ttl_seconds now_ts route.updated_at)
      (drop_route-IsWellFormed s request h)
      (resolve_with-IsWellFormed s request subjects route (lookup route.connection_id s.connections)
        h)

pub resolve_request_route-IsWellFormed :
    (s : GatewayState) (request_id : String) (subjects : List String) (now_ts : ℤ)
    → IsWellFormed s
    → IsWellFormed (resolve_request_route s request_id subjects now_ts).0
unfolding resolve_request_route
resolve_request_route-IsWellFormed s request_id subjects now_ts h =
    if_both (λ (o : GatewayState × Option String). IsWellFormed o.0) (is_empty (trim request_id)) h
      (resolve_found-IsWellFormed s (trim request_id) subjects now_ts
        (lookup (trim request_id) s.request_routes) h)
