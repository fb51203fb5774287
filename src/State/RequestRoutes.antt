-- ===== src/State/RequestRoutes.antt =====
-- state.rs: which connection waits for the response to a request.
pub mod Laws
pub mod Outcomes
use rust_http3_gateway.Prelude.{
  ℤ, Bool, true, false, not, ◌&&◌, ◌||◌, String, List, Option, none, some, Map, lookup, insert,
  remove, remove_all, contains_key, keys, ◌==◌, is_empty, is_nil, trim, any, retain, length, leb,
  older_than, if◌then◌else◌,
}
use rust_http3_gateway.State.Types.{
  GatewayState, RequestRoute, ConnectionHandle, request_route_max, request_route_ttl_seconds,
}

-- The test of the loop that collects stale keys.
abbrev pub is_stale_route : GatewayState → ℤ → RequestRoute → Bool
is_stale_route state now_ts route =
    older_than request_route_ttl_seconds now_ts route.updated_at
    || not (contains_key route.connection_id state.connections)

unfoldable pub prune_request_routes : GatewayState → ℤ → GatewayState
prune_request_routes state now_ts =
    if leb (length state.request_routes) request_route_max then state else record state {
      request_routes =
          remove_all (keys (retain (λ e. is_stale_route state now_ts e.1) state.request_routes))
            state.request_routes;
    }

unfoldable pub bind_request_route : GatewayState → String → String → String → ℤ → GatewayState
unfolding prune_request_routes
bind_request_route state request_id connection_id user_id now_ts =
    let request = trim request_id in
    if is_empty request || is_empty connection_id || is_empty user_id
    then state
    else prune_request_routes
        (record state {
          request_routes =
              insert request
                (record { connection_id = connection_id; user_id = user_id; updated_at = now_ts })
                state.request_routes;
        })
        now_ts

-- `request_routes.remove`.
abbrev pub drop_route : GatewayState → String → GatewayState
drop_route state request = record state { request_routes = remove request state.request_routes }

unfoldable pub clear_request_route : GatewayState → String → GatewayState
clear_request_route state request_id =
    let request = trim request_id in if is_empty request then state else drop_route state request

-- One of the subjects asked for is a subject of the connection, or none is asked for.
abbrev pub matches_subject : List String → ConnectionHandle → Bool
matches_subject subjects handle =
    is_nil subjects || any (λ subject. any (λ item. item == subject) handle.info.subjects) subjects

-- The part of `resolve_request_route` that has the route and, if it is there, its connection.
unfoldable pub resolve_with :
    GatewayState
    → String
    → List String
    → RequestRoute
    → Option ConnectionHandle
    → GatewayState × Option String
resolve_with state request subjects route none = (drop_route state request, none)
resolve_with state request subjects route (some handle) =
    if not (handle.info.user_id == route.user_id)
    then (drop_route state request, none)
    else if matches_subject subjects handle
    then (state, some route.connection_id)
    else (state, none)

unfoldable pub resolve_found :
    GatewayState → String → List String → ℤ → Option RequestRoute → GatewayState × Option String
unfolding resolve_with
resolve_found state request subjects now_ts none = (state, none)
resolve_found state request subjects now_ts (some route) =
    if older_than request_route_ttl_seconds now_ts route.updated_at
    then (drop_route state request, none)
    else resolve_with state request subjects route (lookup route.connection_id state.connections)

unfoldable pub resolve_request_route :
    GatewayState → String → List String → ℤ → GatewayState × Option String
unfolding resolve_found
resolve_request_route state request_id subjects now_ts =
    let request = trim request_id in
    if is_empty request
    then (state, none)
    else resolve_found state request subjects now_ts (lookup request state.request_routes)
