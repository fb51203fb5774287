-- ===== src/Gateway/Client/Handler.antt =====
-- gateway_core.rs: a message of a client does only what a client may do, function by function.
use rust_http3_gateway.Prelude.{
  ◌==◌, ℕ, ℤ, Bool, String, Option, none, some, Unicode, ◌≡◌, refl, ◌⊎◌, inl, inr, if_both,
  is_empty, trim,
}
use rust_http3_gateway.Json.{Json, text_field, named_field}
use rust_http3_gateway.Routes.Types.{CommandSpec, is_no_auth, is_gateway_local}
use rust_http3_gateway.Routes.{resolve_command_spec}
use rust_http3_gateway.State.Types.{GatewayState, ConnectionInfo}
use rust_http3_gateway.State.Readiness.{mark_connection_alive}
use rust_http3_gateway.Gateway.{Readings, Handled, Relayed, returns, goes_on, relay_panics}
use rust_http3_gateway.Gateway.Relay.{relay}
use rust_http3_gateway.Gateway.Handle.{
  handle_client_message, dispatch_command, run_command, mirror, prepared, bind_route, decoded,
  has_symfony_step, has_subjects_step,
}
use rust_http3_gateway.Gateway.Client.{
  handled_state, message_type, notes_alive, binds_request, notes_ready, ClientRun, stands, steps,
  append_run,
}
use rust_http3_gateway.Gateway.Client.Relaying.{tell-ClientRun, relay-ClientRun}

relayed_cases :
    (r : Relayed)
    → ((s : GatewayState) × (r ≡ returns s))
      ⊎ (((s : GatewayState) × (r ≡ relay_panics s)) ⊎ ((s : GatewayState) × (r ≡ goes_on s)))
relayed_cases (returns s) = inl (s, refl)
relayed_cases (relay_panics s) = inr (inl (s, refl))
relayed_cases (goes_on s) = inr (inr (s, refl))

module _ ⦃u : Unicode⦄ ⦃j : Json⦄ (live : ℕ → Bool) (connection_id : String) (info : ConnectionInfo)
    (value : j.Value) where
  -- The notions of a client's message, for this one.
  abbrev Run : ℤ → GatewayState → GatewayState → Type 0
  Run now_ts s t = ClientRun live connection_id info value now_ts s t

  module _ (inbox_stream : String) (has_redis : Bool) (at : Readings) (raw : String) where
    bound-ClientRun :
        (s : GatewayState) (has_symfony : Bool) (request_id : Option String)
        → Run at.authorized_at s
            (bind_route s connection_id info has_symfony request_id at.bound_at)
    unfolding bind_route
    bound-ClientRun s has_symfony none = stands
    bound-ClientRun s has_symfony (some request_id) =
        if_both (Run at.authorized_at s) has_symfony
          (steps stands (binds_request request_id at.bound_at)) stands

    prepared-ClientRun :
        (s : GatewayState) (spec : CommandSpec)
        → Run at.authorized_at s (
            prepared live inbox_stream has_redis at s connection_id info spec value
              (message_type live connection_id info value))
    prepared-ClientRun s spec =
        let bound = bound-ClientRun s (has_symfony_step spec) (named_field "request_id" value) in
        if_both (Run at.authorized_at s)
          ((message_type live connection_id info value) == "session_ready")
          (steps bound (notes_ready at.ready_at)) bound

    command-ClientRun :
        (s : GatewayState) (spec : CommandSpec)
        → Run at.authorized_at s (
            handled_state (
              run_command live inbox_stream has_redis at s connection_id raw info spec value
                (message_type live connection_id info value)))
    unfolding run_command mirror
    command-ClientRun s spec =
        let ready = prepared-ClientRun s spec in
        let p =
          prepared live inbox_stream has_redis at s connection_id info spec value
            (message_type live connection_id info value) in
        let run =
          append_run live connection_id info value at.authorized_at ready
            (relay-ClientRun live connection_id info value p (has_symfony_step spec) at) in
        if_both (λ h. Run at.authorized_at s (handled_state h)) (has_subjects_step spec)
          (elim (relayed_cases (
            relay live p connection_id info (message_type live connection_id info value)
              (has_symfony_step spec) value at)) [
                | inl (t, e) ↦ let q : Run at.authorized_at s t = rw e at run in rw e q
                | inr (inl (t, e)) ↦ let q : Run at.authorized_at s t = rw e at run in rw e q
                | inr (inr (t, e)) ↦
                    let q : Run at.authorized_at s t = rw e at run in
                    rw e (
                      if_both (λ h. Run at.authorized_at s (handled_state h))
                        (has_symfony_step spec) q q)
              ])
          ready

    dispatched-ClientRun :
        (s : GatewayState) (o : Option CommandSpec)
        → Run at.authorized_at s (
            handled_state (
              dispatch_command live inbox_stream has_redis at s connection_id raw info o value
                (message_type live connection_id info value)))
    unfolding dispatch_command
    dispatched-ClientRun s none =
        tell-ClientRun live connection_id info value at.authorized_at s _ _ _
    dispatched-ClientRun s (some spec) =
        let P = λ (h : Handled). Run at.authorized_at s (handled_state h) in
        if_both P (is_no_auth spec.routing_class)
          (tell-ClientRun live connection_id info value at.authorized_at s _ _ _)
          (if_both P (is_gateway_local spec.routing_class)
            (if_both P ((message_type live connection_id info value) == "ping") stands
              (tell-ClientRun live connection_id info value at.authorized_at s _ _ _))
            (command-ClientRun s spec))

module _ ⦃u : Unicode⦄ ⦃j : Json⦄ (live : ℕ → Bool) where
  -- Whatever a client sends, the message does only what a client may do: it acts for its own
  -- connection and user, and sends to the subjects that it names only after a relay is allowed.
  pub handle_client_message-ClientRun :
      (inbox_stream : String) (has_redis : Bool) (at : Readings) (s : GatewayState)
      (connection_id : String) (info : ConnectionInfo) (raw : String)
      → ClientRun live connection_id info (decoded raw) at.authorized_at s (
          handled_state
            (handle_client_message live inbox_stream has_redis at s connection_id info raw))
  unfolding handle_client_message
  handle_client_message-ClientRun inbox_stream has_redis at s connection_id info raw =
      let value = decoded raw in
      let P = λ (h : Handled).
        ClientRun live connection_id info value at.authorized_at s (handled_state h) in
      let alive : ClientRun live connection_id info value at.authorized_at s
          (mark_connection_alive s connection_id at.alive_at) =
        steps stands (notes_alive at.alive_at) in
      if_both P (is_empty (trim raw)) stands (
        if_both P (is_empty (trim (text_field "type" value)))
          (append_run live connection_id info value at.authorized_at alive
            (tell-ClientRun live connection_id info value at.authorized_at _ _ _ _))
          (append_run live connection_id info value at.authorized_at alive (
            dispatched-ClientRun live connection_id info value inbox_stream has_redis at raw _
              (resolve_command_spec (text_field "type" value)))))
