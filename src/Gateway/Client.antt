-- ===== src/Gateway/Client.antt =====
-- gateway_core.rs: what a message of a client may do to the state, as the steps that it may take.
pub mod Handler
pub mod Quiet
pub mod Relaying
pub mod Channels
use rust_http3_gateway.Prelude.{
  ◌==◌, ℕ, ℤ, Bool, true, false, String, List, [], ◌∷◌, ◌++◌, Option, none, some, is_nil, Unicode,
  ◌≡◌, refl, subst, ◌⊎◌, inl, inr, Bool-cases, Option-cases, if_both, if◌then◌else◌, not, is_empty,
  arith, trim,
}
use rust_http3_gateway.Json.{Json, text_field, named_field, event_text}
use rust_http3_gateway.Routes.Types.{
  CommandSpec, RelayAuthorizationSpec, is_no_auth, is_gateway_local,
}
use rust_http3_gateway.Routes.{resolve_command_spec, resolve_relay_authorization_spec}
use rust_http3_gateway.State.Types.{GatewayState, ConnectionInfo, RelayAuthDecision, RelayAuthError}
use rust_http3_gateway.State.RequestRoutes.{bind_request_route}
use rust_http3_gateway.State.Readiness.{mark_session_ready, mark_connection_alive}
use rust_http3_gateway.State.Dispatch.{send_to_subjects, send_to_connection}
use rust_http3_gateway.State.RelayLimits.{Result, ok, err}
use rust_http3_gateway.State.Invariant.Reachable.{
  Step, Reachable, starts, continues, is_alive, binds, is_ready, authorizes, sends_to_subjects,
  sends_to_connection,
}
use rust_http3_gateway.Gateway.{
  Readings, Handled, done, panics, Relayed, returns, goes_on, relay_panics, CommandError,
  error_text, send_gateway_command_error, collect_relay_targets,
}
use rust_http3_gateway.Gateway.Relay.{
  authorize, operation_key_of, replay_nonce_of, size_hint_of, require_context, check_relay,
  relay_payload, relay_to_targets, relay,
}
use rust_http3_gateway.Gateway.Handle.{
  handle_client_message, dispatch_command, run_command, mirror, prepared, bind_route, decoded,
  has_symfony_step, has_subjects_step,
}

-- The state of an outcome.
abbrev pub relayed_state : Relayed → GatewayState
relayed_state (returns s) = s
relayed_state (goes_on s) = s
relayed_state (relay_panics s) = s

abbrev pub handled_state : Handled → GatewayState
handled_state (done s entries) = s
handled_state (panics s) = s

module _ ⦃u : Unicode⦄ ⦃j : Json⦄ (live : ℕ → Bool) (connection_id : String) (info : ConnectionInfo)
    (value : j.Value) where
  abbrev pub message_type : String
  message_type = text_field "type" value

  -- The command has an authorization, and needs no context or is granted by one at `now_ts`.
  pub record IsRelayAllowed (s : GatewayState) (spec : RelayAuthorizationSpec) (now_ts : ℤ)
      : Type 0 where
    pub resolved : resolve_relay_authorization_spec message_type ≡ some spec
    pub granted :
        (spec.requires_relay_context ≡ false)
        ⊎ ((decision : RelayAuthDecision) × ((authorize s info message_type spec value
                (collect_relay_targets value).emails
                now_ts).1
              ≡ ok decision))

  -- The state in which an allowed relay sends.
  abbrev pub authorized_state : GatewayState → RelayAuthorizationSpec → ℤ → GatewayState
  authorized_state s spec now_ts =
      if spec.requires_relay_context
      then (authorize s info message_type spec value (collect_relay_targets value).emails now_ts).0
      else s

  -- `authorized_at` is the clock of the authorization.
  module _ (authorized_at : ℤ) where
    -- A message acts for its own connection and user: it notes that the connection is alive or ready,
    -- binds a request to it, tells it of an error, and asks for an authorization. Only a relay that is
    -- allowed sends to the subjects of others, and to those that the message names.
    pub data ClientStep (s : GatewayState) : GatewayState → Type 0 where
      notes_alive : (at : ℤ) → ClientStep s (mark_connection_alive s connection_id at)
      binds_request :
          (request_id : String) (at : ℤ)
          → ClientStep s (bind_request_route s request_id connection_id info.user_id at)
      notes_ready :
          (at : ℤ) → ClientStep s (mark_session_ready live s connection_id info.user_id at).0
      tells_client :
          (message : String) → ClientStep s (send_to_connection live s connection_id message).0
      asks :
          (spec : RelayAuthorizationSpec) (at : ℤ)
          → ClientStep s
              (authorize s info message_type spec value (collect_relay_targets value).emails at).0
      relays :
          (spec : RelayAuthorizationSpec) (requeued_at : ℤ) (event : String)
          → IsRelayAllowed s spec authorized_at
          → ClientStep s
              (send_to_subjects live
                (authorized_state s spec authorized_at)
                (collect_relay_targets value).subjects
                event
                true
                none
                requeued_at
                requeued_at).0

    pub data ClientRun (s : GatewayState) : GatewayState → Type 0 where
      stands : ClientRun s s
      steps : {t r : GatewayState} → ClientRun s t → ClientStep t r → ClientRun s r

    pub append_run : {s t r : GatewayState} → ClientRun s t → ClientRun t r → ClientRun s r
    append_run a stands = a
    append_run a (steps b c) = steps (append_run a b) c
