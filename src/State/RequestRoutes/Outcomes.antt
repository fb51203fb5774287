-- ===== src/State/RequestRoutes/Outcomes.antt =====
-- What is known of the connection to which a request is resolved.
use rust_http3_gateway.Prelude.{
  older_than, ℤ, String, List, some, lookup, trim, ◌≡◌, refl, sym, ap, ◌∙◌,
}
use rust_http3_gateway.State.Types.{
  GatewayState, ConnectionHandle, RequestRoute, request_route_ttl_seconds,
}
use rust_http3_gateway.State.RequestRoutes.{matches_subject}
use rust_http3_gateway.State.RequestRoutes.Laws.{
  IsResolved, IsUnresolved, unbound, outdated, disconnected, other_user, mismatched,
}

pub unresolved_connections :
    (s : GatewayState) (request : String) (subjects : List String) (now_ts : ℤ) (t : GatewayState)
    → IsUnresolved s request subjects now_ts t
    → t.connections ≡ s.connections
unresolved_connections s request subjects now_ts t (unbound e) = refl
unresolved_connections s request subjects now_ts t (outdated route e old) = refl
unresolved_connections s request subjects now_ts t (disconnected route e f g) = refl
unresolved_connections s request subjects now_ts t (other_user route handle e f g h) = refl
unresolved_connections s request subjects now_ts t (mismatched route handle e f g h m) = refl

led :
    {s : GatewayState} {request : String} {subjects : List String} {now_ts : ℤ} {id : String}
    (route : RequestRoute)
    → lookup request s.request_routes ≡ some route
    → (h : IsResolved s request subjects now_ts id)
    → lookup route.connection_id s.connections ≡ some h.handle
led {s} route e h =
    let one : route ≡ h.route = cc (sym e ∙ h.bound) in
    let same = ap (λ (r : RequestRoute). r.connection_id) one ∙ h.same_connection in
    ap (λ k. lookup k s.connections) same ∙ h.connected

pub resolved_same :
    (s : GatewayState) (request q : String) (subjects : List String) (now_ts : ℤ) (id k : String)
    → some request ≡ some q
    → IsResolved s (trim request) subjects now_ts id
    → IsResolved s (trim q) subjects now_ts k
    → id ≡ k
resolved_same s request q subjects now_ts id k e g h =
    let one : request ≡ q = cc e in
    let bound : lookup (trim request) s.request_routes ≡ some h.route =
      ap (λ x. lookup (trim x) s.request_routes) one ∙ h.bound in
    let two : g.route ≡ h.route = cc (sym g.bound ∙ bound) in
    sym g.same_connection ∙ ap (λ (r : RequestRoute). r.connection_id) two ∙ h.same_connection

-- A request that is resolved is not unresolved, and is resolved to one connection.
pub unresolved-resolved :
    (s : GatewayState) (request : String) (subjects : List String) (now_ts : ℤ) (t : GatewayState)
    (id : String)
    → IsUnresolved s request subjects now_ts t
    → IsResolved s request subjects now_ts id
    → ⊥
unresolved-resolved s request subjects now_ts t id (unbound e) h = cc (sym e ∙ h.bound)
unresolved-resolved s request subjects now_ts t id (outdated route e old) h =
    let one : route ≡ h.route = cc (sym e ∙ h.bound) in
    cc (
      sym old
      ∙ ap (λ (r : RequestRoute). older_than request_route_ttl_seconds now_ts r.updated_at) one
      ∙ h.fresh)
unresolved-resolved s request subjects now_ts t id (disconnected route e f g) h =
    let found = led route e h in cc (sym g ∙ found)
unresolved-resolved s request subjects now_ts t id (other_user route handle e f g other) h =
    let one : route ≡ h.route = cc (sym e ∙ h.bound) in
    let found = led route e h in
    let two : handle ≡ h.handle = cc (sym g ∙ found) in
    absurd (
      other (
        ap (λ (c : ConnectionHandle). c.info.user_id) two
        ∙ h.same_user
        ∙ ap (λ (r : RequestRoute). r.user_id) (sym one)))
unresolved-resolved s request subjects now_ts t id (mismatched route handle e f g same m) h =
    let found = led route e h in
    let two : handle ≡ h.handle = cc (sym g ∙ found) in
    cc (sym m ∙ ap (matches_subject subjects) two ∙ h.subject_matches)
