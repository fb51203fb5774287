-- ===== src/State/RequestRoutes/Laws.antt =====
-- When a response finds the connection that asked, and which routes are given up.
use rust_http3_gateway.Prelude.{
  ℤ, true, false, String, List, Option, none, some, lookup, insert, ◌==◌, eq_iff, is_empty, trim,
  retain, keys, ◌≢◌, older_than, older_than_self, Distinct, insert-Distinct, lookup-insert_self,
  lookup-remove_all, any-keys-retain, ◌≡◌, refl, ◌⊎◌, inl, inr, arith, Bool-cases,
}
use rust_http3_gateway.State.Types.{
  GatewayState, RequestRoute, ConnectionHandle, request_route_ttl_seconds,
}
use rust_http3_gateway.State.RequestRoutes.{
  is_stale_route, drop_route, prune_request_routes, bind_request_route, matches_subject,
  resolve_with, resolve_found, resolve_request_route,
}

-- Pruning leaves a route that is fresh and leads to a connection.
prune_keeps :
    (state : GatewayState) (request : String) (route : RequestRoute) (now_ts : ℤ)
    → Distinct state.request_routes
    → lookup request state.request_routes ≡ some route
    → is_stale_route state now_ts route ≡ false
    → lookup request (prune_request_routes state now_ts).request_routes ≡ some route
unfolding prune_request_routes
prune_keeps state request route now_ts d e alive =
    let stale = λ (entry : String × RequestRoute). is_stale_route state now_ts entry.1 in
    ground (
      arith,
      lookup-remove_all (keys (retain stale state.request_routes)) request state.request_routes,
      any-keys-retain stale request route state.request_routes d e,
    )

prune_frame :
    (state : GatewayState) (now_ts : ℤ)
    → (prune_request_routes state now_ts).connections ≡ state.connections
unfolding prune_request_routes
prune_frame state now_ts = ground arith

-- What a resolved request rests on.
pub record IsResolved (state : GatewayState) (request : String) (subjects : List String)
    (now_ts : ℤ) (connection_id : String) : Type 0 where
  pub route : RequestRoute
  pub handle : ConnectionHandle
  pub bound : lookup request state.request_routes ≡ some route
  pub same_connection : route.connection_id ≡ connection_id
  pub fresh : older_than request_route_ttl_seconds now_ts route.updated_at ≡ false
  pub connected : lookup connection_id state.connections ≡ some handle
  pub same_user : handle.info.user_id ≡ route.user_id
  pub subject_matches : matches_subject subjects handle ≡ true

-- Why a request is not resolved, and what becomes of its route: it is dropped where it is outdated
-- or leads to no connection of its user, and stays where only the subjects of the response do not
-- match those of the connection that it leads to.
pub data IsUnresolved (state : GatewayState) (request : String) (subjects : List String)
    (now_ts : ℤ) : GatewayState → Type 0 where
  unbound :
      lookup request state.request_routes ≡ none → IsUnresolved state request subjects now_ts state
  outdated :
      (route : RequestRoute)
      → lookup request state.request_routes ≡ some route
      → older_than request_route_ttl_seconds now_ts route.updated_at ≡ true
      → IsUnresolved state request subjects now_ts (drop_route state request)
  disconnected :
      (route : RequestRoute)
      → lookup request state.request_routes ≡ some route
      → older_than request_route_ttl_seconds now_ts route.updated_at ≡ false
      → lookup route.connection_id state.connections ≡ none
      → IsUnresolved state request subjects now_ts (drop_route state request)
  other_user :
      (route : RequestRoute) (handle : ConnectionHandle)
      → lookup request state.request_routes ≡ some route
      → older_than request_route_ttl_seconds now_ts route.updated_at ≡ false
      → lookup route.connection_id state.connections ≡ some handle
      → handle.info.user_id ≢ route.user_id
      → IsUnresolved state request subjects now_ts (drop_route state request)
  mismatched :
      (route : RequestRoute) (handle : ConnectionHandle)
      → lookup request state.request_routes ≡ some route
      → older_than request_route_ttl_seconds now_ts route.updated_at ≡ false
      → lookup route.connection_id state.connections ≡ some handle
      → handle.info.user_id ≡ route.user_id
      → matches_subject subjects handle ≡ false
      → IsUnresolved state request subjects now_ts state

resolve_with_cases :
    (state : GatewayState) (request : String) (subjects : List String) (now_ts : ℤ)
    (route : RequestRoute) (found : Option ConnectionHandle)
    → lookup request state.request_routes ≡ some route
    → older_than request_route_ttl_seconds now_ts route.updated_at ≡ false
    → lookup route.connection_id state.connections ≡ found
    → let (after, result) = resolve_with state request subjects route found in
      ((c : String) × (result ≡ some c)
        × (after ≡ state)
        × IsResolved state request subjects now_ts c)
      ⊎ ((result ≡ none) × IsUnresolved state request subjects now_ts after)
unfolding resolve_with
resolve_with_cases state request subjects now_ts route none e fresh f =
    inr (refl, disconnected route e fresh f)
resolve_with_cases state request subjects now_ts route (some handle) e fresh f =
    elim (Bool-cases (handle.info.user_id == route.user_id)) [
      | inr other ↦
          let unlike : handle.info.user_id ≢ route.user_id =
            ground (arith, eq_iff handle.info.user_id route.user_id) in
          rw other (inr (refl, other_user route handle e fresh f unlike))
      | inl same ↦ elim (Bool-cases (matches_subject subjects handle)) [
        | inl matching ↦
            rw (same, matching)
              (inl (
                route.connection_id,
                refl,
                refl,
                record {
                  route = route;
                  handle = handle;
                  bound = e;
                  same_connection = refl;
                  fresh = fresh;
                  connected = f;
                  same_user = (eq_iff handle.info.user_id route.user_id).0 same;
                  subject_matches = matching;
                },
              ))
        | inr mismatch ↦
            let alike = (eq_iff handle.info.user_id route.user_id).0 same in
            rw (same, mismatch) (inr (refl, mismatched route handle e fresh f alike mismatch))
      ]
    ]

resolve_found_cases :
    (state : GatewayState) (request : String) (subjects : List String) (now_ts : ℤ)
    (found : Option RequestRoute)
    → lookup request state.request_routes ≡ found
    → let (after, result) = resolve_found state request subjects now_ts found in
      ((c : String) × (result ≡ some c)
        × (after ≡ state)
        × IsResolved state request subjects now_ts c)
      ⊎ ((result ≡ none) × IsUnresolved state request subjects now_ts after)
unfolding resolve_found
resolve_found_cases state request subjects now_ts none e = inr (refl, unbound e)
resolve_found_cases state request subjects now_ts (some route) e =
    elim (Bool-cases (older_than request_route_ttl_seconds now_ts route.updated_at)) [
      | inl old ↦ rw old (inr (refl, outdated route e old))
      | inr fresh ↦ rw fresh (
          resolve_with_cases state request subjects now_ts route
            (lookup route.connection_id state.connections) e fresh refl)
    ]

-- For a request id that is not blank: either a connection is returned, nothing changes, and a
-- fresh route leads to that connection, which is there, of the route's user and with a matching
-- subject; or nothing is returned. Then there is no route, and nothing changes; or the route is
-- dropped, being outdated or leading to no connection of its user; or it is fresh and leads to a
-- connection of its user, only the subjects of which do not match, and nothing changes.
pub resolve_request_route_cases :
    (state : GatewayState) (request_id : String) (subjects : List String) (now_ts : ℤ)
    → is_empty (trim request_id) ≡ false
    → let (after, result) = resolve_request_route state request_id subjects now_ts in
      ((c : String) × (result ≡ some c)
        × (after ≡ state)
        × IsResolved state (trim request_id) subjects now_ts c)
      ⊎ ((result ≡ none) × IsUnresolved state (trim request_id) subjects now_ts after)
unfolding resolve_request_route
resolve_request_route_cases state request_id subjects now_ts named = rw named (
    resolve_found_cases state (trim request_id) subjects now_ts
      (lookup (trim request_id) state.request_routes) refl)

-- Where the keys of the routes are distinct and neither the request id, the connection's id nor
-- its user is empty: a request bound to a connection that is there, for its user, is resolved to
-- it for any response not more than two minutes later whose subjects match.
pub resolve-bind :
    (state : GatewayState) (request_id connection_id : String) (handle : ConnectionHandle)
    (subjects : List String) (bound_at now_ts : ℤ)
    → Distinct state.request_routes
    → is_empty (trim request_id) ≡ false
    → is_empty connection_id ≡ false
    → is_empty handle.info.user_id ≡ false
    → lookup connection_id state.connections ≡ some handle
    → matches_subject subjects handle ≡ true
    → older_than request_route_ttl_seconds now_ts bound_at ≡ false
    → (resolve_request_route
        (bind_request_route state request_id connection_id handle.info.user_id bound_at)
        request_id
        subjects
        now_ts).1
      ≡ some connection_id
unfolding resolve_request_route resolve_found resolve_with bind_request_route
resolve-bind state request_id connection_id handle subjects bound_at now_ts d named c u e matching
      young =
    let route : RequestRoute = record {
      connection_id = connection_id;
      user_id = handle.info.user_id;
      updated_at = bound_at;
    } in
    let bound : GatewayState = record state {
      request_routes = insert (trim request_id) route state.request_routes;
    } in
    let kept =
      prune_keeps bound (trim request_id) route bound_at
        (insert-Distinct (trim request_id) route state.request_routes d)
        (lookup-insert_self (trim request_id) route state.request_routes)
        (ground (arith, older_than_self request_route_ttl_seconds bound_at)) in
    ground (arith, kept, prune_frame bound bound_at, eq_iff handle.info.user_id handle.info.user_id)
