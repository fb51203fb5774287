-- ===== src/Broker/Responses.antt =====
-- broker.rs: where the response to a request goes.
use rust_http3_gateway.Prelude.{
  ℕ, ℤ, Bool, true, false, String, List, some, lookup, Distinct, is_empty, trim, length, leb,
  older_than, if_both, Unicode, ◌≡◌, refl, sym, ◌∙◌, ap, inl, inr, ◌||◌,
}
use rust_http3_gateway.Json.{Json}
use rust_http3_gateway.State.Types.{
  GatewayState, ConnectionHandle, text, request_route_ttl_seconds, request_route_max,
}
use rust_http3_gateway.State.Sessions.{push_sent, send}
use rust_http3_gateway.State.RequestRoutes.{
  bind_request_route, prune_request_routes, resolve_request_route, matches_subject,
}
use rust_http3_gateway.State.RequestRoutes.Laws.{resolve-bind, resolve_request_route_cases}
use rust_http3_gateway.State.Dispatch.{send_text_to, send_to_connection}
use rust_http3_gateway.Broker.Outbox.{EntryReadings, respond_via, deliver}

bind_connections :
    (s : GatewayState) (request_id connection_id user_id : String) (at : ℤ)
    → (bind_request_route s request_id connection_id user_id at).connections ≡ s.connections
unfolding bind_request_route prune_request_routes
bind_connections s request_id connection_id user_id at =
    if_both (λ (t : GatewayState). t.connections ≡ s.connections)
      (is_empty (trim request_id) || is_empty connection_id || is_empty user_id) refl
      (if_both (λ (t : GatewayState). t.connections ≡ s.connections)
        (leb (length _) request_route_max) refl refl)

module _ ⦃u : Unicode⦄ ⦃j : Json⦄ (live : ℕ → Bool) where
  -- Sending to a connection whose channel takes the message.
  send_to_live :
      (s : GatewayState) (id message : String) (handle : ConnectionHandle)
      → is_empty id ≡ false
      → is_empty message ≡ false
      → lookup id s.connections ≡ some handle
      → live handle.sender ≡ true
      → send_to_connection live s id message ≡ (push_sent s handle.sender (text message), true)
  unfolding send_to_connection send_text_to send
  send_to_live s id message handle named filled found up =
      rw (found, named, filled, up, send_to_connection) refl

  respond_found :
      (s : GatewayState) (request_id id : String) (handle : ConnectionHandle)
      (subjects : List String) (message : String) (at : EntryReadings)
      → is_empty (trim request_id) ≡ false
      → is_empty id ≡ false
      → is_empty message ≡ false
      → lookup id s.connections ≡ some handle
      → live handle.sender ≡ true
      → (resolve_request_route s request_id subjects at.resolved_at).1 ≡ some id
      → deliver live s (some request_id) subjects message at ≡ (
        push_sent s handle.sender (text message),
        record { attempted_count = 1; enqueued_count = 1 },
      )
  unfolding deliver respond_via
  respond_found s request_id id handle subjects message at named known filled found up resolved =
      elim (resolve_request_route_cases s request_id subjects at.resolved_at named) [
        | inl (c, e, same, h) ↦
            rw (resolved, same, send_to_live s id message handle known filled found up) refl
        | inr (e, h) ↦ cc (sym e ∙ resolved)
      ]

  -- Where the keys of the routes are distinct, neither the request id, the connection's id, its user
  -- nor the message is empty, and the connection is there, has a subject of the response (or none is
  -- asked for) and takes messages: the response to a request that was bound to it, before the
  -- binding is too old, goes to its channel and to no other, once, and nothing else changes.
  pub deliver_to_requester :
      (s : GatewayState) (request_id id : String) (handle : ConnectionHandle)
      (subjects : List String) (message : String) (bound_at : ℤ) (at : EntryReadings)
      → Distinct s.request_routes
      → is_empty (trim request_id) ≡ false
      → is_empty id ≡ false
      → is_empty handle.info.user_id ≡ false
      → is_empty message ≡ false
      → lookup id s.connections ≡ some handle
      → matches_subject subjects handle ≡ true
      → older_than request_route_ttl_seconds at.resolved_at bound_at ≡ false
      → live handle.sender ≡ true
      → let bound = bind_request_route s request_id id handle.info.user_id bound_at in
        deliver live bound (some request_id) subjects message at ≡ (
          push_sent bound handle.sender (text message),
          record { attempted_count = 1; enqueued_count = 1 },
        )
  deliver_to_requester s request_id id handle subjects message bound_at at d named known user filled
        found matching young up =
      respond_found (bind_request_route s request_id id handle.info.user_id bound_at) request_id id
        handle subjects message at named known filled
        (ap (lookup id) (bind_connections s request_id id handle.info.user_id bound_at) ∙ found) up
        (resolve-bind s request_id id handle subjects bound_at at.resolved_at d named known user
          found matching young)
