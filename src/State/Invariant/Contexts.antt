-- ===== src/State/Invariant/Contexts.antt =====
-- state.rs: the operations of a session keep the relay contexts as they are.
use rust_http3_gateway.Prelude.{
  ℕ, ◌-◌, ℤ, Bool, String, List, [], ◌∷◌, Option, none, some, lookup, ◌==◌, is_empty, leb, length,
  sort_by, ◌||◌, Map, trim, if_both, ◌≡◌, inl, inr, Option-cases, Unicode,
}
use rust_http3_gateway.Routes.Types.{RelayAuthorizationSpec}
use rust_http3_gateway.State.Types.{
  GatewayState, ConnectionInfo, OutboundMessage, close, RelaySubjectContexts, request_route_max,
}
use rust_http3_gateway.State.Sessions.{unregister_connection, send, evict_connection}
use rust_http3_gateway.State.RequestRoutes.{bind_request_route, prune_request_routes}
use rust_http3_gateway.State.Readiness.{
  ready_of_user, connected_before, evict_oldest, enforce_limit, mark_session_ready,
  mark_connection_alive,
}
use rust_http3_gateway.State.Dispatch.{send_text_to, send_to_connection}
use rust_http3_gateway.State.RelayAuth.{authorize_relay_hotpath}
use rust_http3_gateway.State.RelayAuth.Frame.{authorize_relay_hotpath_keeps}

module _ (contexts : Map RelaySubjectContexts) where
  -- The state has these relay contexts.
  abbrev pub HasContexts : GatewayState → Type 0
  HasContexts s = s.relay_contexts_by_subject ≡ contexts

  pub mark_connection_alive-HasContexts :
      (s : GatewayState) (id : String) (at : ℤ)
      → HasContexts s
      → HasContexts (mark_connection_alive s id at)
  unfolding mark_connection_alive
  mark_connection_alive-HasContexts s id at h = elim (Option-cases (lookup id s.connections)) [
    | inl missing ↦ rw (missing, mark_connection_alive) h
    | inr (handle, found) ↦ rw (found, mark_connection_alive) h
  ]

  pub bind_request_route-HasContexts :
      (s : GatewayState) (request_id id user_id : String) (at : ℤ)
      → HasContexts s
      → HasContexts (bind_request_route s request_id id user_id at)
  unfolding bind_request_route prune_request_routes
  bind_request_route-HasContexts s request_id id user_id at h =
      if_both HasContexts (is_empty (trim request_id) || is_empty id || is_empty user_id) h
        (if_both HasContexts (leb (length _) request_route_max) h h)

  unregister_connection-HasContexts :
      (s : GatewayState) (id : String) → HasContexts s → HasContexts (unregister_connection s id).0
  unfolding unregister_connection
  unregister_connection-HasContexts s id h = elim (Option-cases (lookup id s.connections)) [
    | inl missing ↦ rw (missing, unregister_connection) h
    | inr (handle, found) ↦ rw (found, unregister_connection) h
  ]

  module _ (live : ℕ → Bool) where
    send-HasContexts :
        (s : GatewayState) (channel : ℕ) (message : OutboundMessage)
        → HasContexts s
        → HasContexts (send live s channel message).0
    unfolding send
    send-HasContexts s channel message h =
        if_both (λ (x : GatewayState × Bool). HasContexts x.0) (live channel) h h

    pub send_to_connection-HasContexts :
        (s : GatewayState) (id message : String)
        → HasContexts s
        → HasContexts (send_to_connection live s id message).0
    unfolding send_to_connection send_text_to
    send_to_connection-HasContexts s id message h =
        let P = λ (x : GatewayState × Bool). HasContexts x.0 in
        elim (Option-cases (lookup id s.connections)) [
          | inl missing ↦
              rw (missing, send_to_connection)
                (if_both P (is_empty id || is_empty message) h
                  (unregister_connection-HasContexts s id h))
          | inr (handle, found) ↦
              let sent = send-HasContexts s handle.sender _ h in
              rw (found, send_to_connection)
                (if_both P (is_empty id || is_empty message) h
                  (if_both P _ sent (unregister_connection-HasContexts _ id sent)))
        ]

    evict_connection-HasContexts :
        (s : GatewayState) (id : String) (code : ℕ) (reason : String)
        → HasContexts s
        → HasContexts (evict_connection live s id (some (code, reason))).0
    unfolding evict_connection
    evict_connection-HasContexts s id code reason h =
        elim (Option-cases (lookup id s.connections)) [
          | inl missing ↦ rw (missing, evict_connection) (unregister_connection-HasContexts s id h)
          | inr (handle, found) ↦
              rw (found, evict_connection)
                (unregister_connection-HasContexts _ id
                  (send-HasContexts s handle.sender (close code reason) h))
        ]

    evict_oldest-HasContexts :
        (overflow : ℕ) (id : String) (connected : List (String × ℤ)) (s : GatewayState)
        (evicted : List ConnectionInfo)
        → HasContexts s
        → HasContexts (evict_oldest live overflow id connected s evicted).0
    unfolding evict_oldest
    evict_oldest-HasContexts overflow id [] s evicted h = h
    evict_oldest-HasContexts overflow id ((stale, at) ∷ rest) s evicted h =
        let P = λ (x : GatewayState × List ConnectionInfo). HasContexts x.0 in
        if_both P (leb overflow (length evicted)) h (
          if_both P (stale == id) (evict_oldest-HasContexts overflow id rest s evicted h) (
            evict_oldest-HasContexts overflow id rest _ _
              (evict_connection-HasContexts s stale 4409 "session_replaced" h)))

    enforce_limit-HasContexts :
        (s : GatewayState) (id user_id : String) (limit : Option ℕ)
        → HasContexts s
        → HasContexts (enforce_limit live s id user_id limit).0
    unfolding enforce_limit
    enforce_limit-HasContexts s id user_id none h = h
    enforce_limit-HasContexts s id user_id (some max) h =
        let connected = ready_of_user s.connections user_id s.ready_connections in
        if_both (λ (x : GatewayState × List ConnectionInfo). HasContexts x.0)
          (leb (length connected) max) h
          (evict_oldest-HasContexts (length connected - max) id (sort_by connected_before connected)
            s [] h)

    pub mark_session_ready-HasContexts :
        (s : GatewayState) (id user_id : String) (at : ℤ)
        → HasContexts s
        → HasContexts (mark_session_ready live s id user_id at).0
    unfolding mark_session_ready
    mark_session_ready-HasContexts s id user_id at h =
        if_both (λ (x : GatewayState × List ConnectionInfo). HasContexts x.0)
          (is_empty id || is_empty user_id) h
          (enforce_limit-HasContexts _ id user_id s.max_connections_per_user h)

  module _ ⦃u : Unicode⦄ where
    pub authorize_relay_hotpath-HasContexts :
        (s : GatewayState) (sender command : String) (spec : RelayAuthorizationSpec) (key : String)
        (targets : List String) (replay_nonce : Option String) (size : Option ℕ) (now_ts : ℤ)
        → HasContexts s
        → HasContexts
            (authorize_relay_hotpath s sender command spec key targets replay_nonce size now_ts).0
    authorize_relay_hotpath-HasContexts =
        authorize_relay_hotpath_keeps HasContexts (λ s c h. h) (λ s c h. h)
