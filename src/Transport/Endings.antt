-- ===== src/Transport/Endings.antt =====
-- transport/websocket.rs and transport/webtransport.rs: what is left of a session when it ends.
use rust_http3_gateway.Prelude.{
  ℕ, ℤ, Bool, false, String, ◌++◌, none, some, lookup, lookup-remove_self, In, is_empty, Unicode,
  ◌≡◌, refl, sym, ◌∙◌, arith, subst, ◌⊎◌, inl, inr, Option-cases,
}
use rust_http3_gateway.Json.{Json, named_field}
use rust_http3_gateway.State.Types.{GatewayState, ConnectionInfo, ConnectionHandle, text}
use rust_http3_gateway.State.Sessions.{unregister_connection}
use rust_http3_gateway.State.Pending.{requeue_for_subjects}
use rust_http3_gateway.State.Pending.Delivery.{EndsWith}
use rust_http3_gateway.State.Pending.Requeue.{requeue_for_subjects-EndsWith, plain_message}
use rust_http3_gateway.Transport.Session.{
  SessionConfig, World, outbound, ends, publish_connection_event, note_end, close_session,
}
use rust_http3_gateway.Transport.WebSocket.{Buffers}
use rust_http3_gateway.Transport.WebTransport.{
  request_response, push, classify_payload, classify_outbound_event, keep_unsent, wt_step,
}

module _ ⦃j : Json⦄ where
  -- The text is JSON whose payload has a request id that is not blank.
  abbrev pub IsAnswer : String → Type 0
  IsAnswer t =
      (message : j.Value) × (payload : j.Value) × (request_id : String) × (j.from_str t
        ≡ some message)
      × (j.get "payload" message ≡ some payload)
      × (named_field "request_id" payload ≡ some request_id)

  mode_of_event :
      (t : String)
      → (((classify_outbound_event t).mode ≡ request_response) × IsAnswer t)
        ⊎ (((classify_outbound_event t).mode ≡ push) × ¬ (IsAnswer t))
  unfolding classify_outbound_event classify_payload
  mode_of_event t = elim (Option-cases (j.from_str t)) [
    | inl e ↦ inr (rw (e, classify_outbound_event) refl, λ (m, p, r, f, g, h). cc (sym f ∙ e))
    | inr (message, e) ↦ elim (Option-cases (j.get "payload" message)) [
      | inl k ↦ inr (
        rw (e, k, classify_outbound_event) refl,
        λ (m, p, r, f, g, h).
            let same : some message ≡ some m = sym e ∙ f in
            let again : j.get "payload" message ≡ some p = ground (arith, same, g) in
            cc (sym again ∙ k),
      )
      | inr (payload, k) ↦ elim (Option-cases (named_field "request_id" payload)) [
        | inl q ↦ inr (
          rw (e, k, q, classify_outbound_event) refl,
          λ (m, p, r, f, g, h).
              let same : some message ≡ some m = sym e ∙ f in
              let again : j.get "payload" message ≡ some p = ground (arith, same, g) in
              let found : some payload ≡ some p = sym k ∙ again in
              let named : named_field "request_id" payload ≡ some r = ground (arith, found, h) in
              cc (sym named ∙ q),
        )
        | inr (request_id, q) ↦
            inl
              (rw (e, k, q, classify_outbound_event) refl, (message, payload, request_id, e, k, q))
      ]
    ]
  ]

module _ ⦃u : Unicode⦄ ⦃j : Json⦄ (config : SessionConfig) where
  -- What is left of a session's connection: it is not connected. Where it was there, it is not
  -- ready either, and its event is published; where it was not, nothing has changed.
  pub record IsForgotten (world : World) (id : String) (after : World) : Type 0 where
    pub disconnected : lookup id after.state.connections ≡ none
    pub announced :
        ((handle : ConnectionHandle) × (lookup id world.state.connections ≡ some handle)
          × (lookup id after.state.ready_connections ≡ none)
          × (after.published
              ≡ world.published ++ publish_connection_event config "disconnected" handle.info))
        ⊎ ((lookup id world.state.connections ≡ none) × (after ≡ world))

  unregister_missing :
      (s : GatewayState) (id : String)
      → lookup id s.connections ≡ none
      → unregister_connection s id ≡ (s, none)
  unfolding unregister_connection
  unregister_missing s id missing = rw (missing, unregister_connection) refl

  unregister_found :
      (s : GatewayState) (id : String) (handle : ConnectionHandle)
      → lookup id s.connections ≡ some handle
      → (after : GatewayState) × (unregister_connection s id ≡ (after, some handle.info))
        × (lookup id after.connections ≡ none)
        × (lookup id after.ready_connections ≡ none)
  unfolding unregister_connection
  unregister_found s id handle found = (
    (unregister_connection s id).0,
    rw (found, unregister_connection) refl,
    rw (found, unregister_connection) (lookup-remove_self id s.connections),
    rw (found, unregister_connection) (lookup-remove_self id s.ready_connections),
  )

  pub close_session-IsForgotten :
      (world : World) (id : String) → IsForgotten world id (close_session config world id)
  unfolding close_session note_end
  close_session-IsForgotten world id = elim (Option-cases (lookup id world.state.connections)) [
    | inl missing ↦
        subst (λ r. IsForgotten world id (note_end config world r))
          (sym (unregister_missing world.state id missing))
          (record { disconnected = missing; announced = inr (missing, refl) })
    | inr (handle, found) ↦
        let (after, same, gone, unready) = unregister_found world.state id handle found in
        subst (λ r. IsForgotten world id (note_end config world r)) (sym same)
          (record { disconnected = gone; announced = inl (handle, found, unready, refl) })
  ]

  -- A text that is not empty and that WebTransport could not send ends the session. If it is JSON
  -- whose payload has a request id that is not blank, it is dropped, and nothing changes; otherwise
  -- it waits for every subject of the session, at the end of its queue.
  pub wt_step_keeps_unsent :
      ⦃b : Buffers⦄ (live : ℕ → Bool) (info : ConnectionInfo) (requeued_at : ℤ) (world : World)
      (t : String)
      → is_empty t ≡ false
      → (after : World) × (wt_step config live info requeued_at world (outbound (text t) false)
          ≡ ends after)
        × ((¬ (IsAnswer t)
              × ((subject : String)
                  → In subject info.subjects
                  → EndsWith
                      (λ _. Unit)
                      (plain_message t requeued_at)
                      after.state.pending_by_subject
                      subject))
            ⊎ (IsAnswer t × (after ≡ world)))
  unfolding wt_step keep_unsent
  wt_step_keeps_unsent live info requeued_at world t filled = elim (mode_of_event t) [
    | inl (e, answer) ↦ (world, rw (e, keep_unsent) refl, inr (answer, refl))
    | inr (e, other) ↦ (
      record world { state = requeue_for_subjects world.state info.subjects t requeued_at },
      rw (e, keep_unsent) refl,
      inl (
        other,
        λ subject i.
            requeue_for_subjects-EndsWith world.state info.subjects t requeued_at subject filled i,
      ),
    )
  ]
