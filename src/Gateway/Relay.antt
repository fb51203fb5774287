-- ===== src/Gateway/Relay.antt =====
-- gateway_core.rs: the relay of a command to the connections of its targets.
use rust_http3_gateway.Prelude.{
  ℕ, ℤ, Bool, true, false, String, List, Option, none, some, or_option, is_empty, is_nil, trim,
  Unicode, byte_length, if◌then◌else◌,
}
use mathlib.Core.Option
use rust_http3_gateway.Json.{Json, event_text, str_field, text_field}
use rust_http3_gateway.Routes.Types.{RelayAuthorizationSpec}
use rust_http3_gateway.Routes.{resolve_relay_authorization_spec}
use rust_http3_gateway.State.Types.{GatewayState, ConnectionInfo, RelayAuthDecision, code}
use rust_http3_gateway.State.Dispatch.{send_to_subjects}
use rust_http3_gateway.State.RelayLimits.{Result, ok, err}
use rust_http3_gateway.State.RelayAuth.{authorize_relay_hotpath}
use rust_http3_gateway.Gateway.{
  Readings, Relayed, returns, goes_on, relay_panics, CommandError, collect_relay_targets,
  send_gateway_command_error,
}

abbrev pub invalid_relay_targets : CommandError
invalid_relay_targets = record {
  error = "invalid_relay_targets";
  message = "Relay command requires at least one target subject.";
}

abbrev pub relay_auth_spec_missing : CommandError
relay_auth_spec_missing = record {
  error = "relay_auth_spec_missing";
  message = "Relay command has no authorization metadata.";
}

abbrev pub relay_operation_key_missing : CommandError
relay_operation_key_missing = record {
  error = "relay_operation_key_missing";
  message = "Relay command is missing operation key.";
}

-- What the call of `authorize_relay_hotpath` leads to, where the command needs a context.
unfoldable pub require_context :
    GatewayState
    → Bool
    → GatewayState × Result RelayAuthDecision
    → GatewayState × Option CommandError
require_context state false called = (state, none)
require_context state true (authorized, ok decision) = (authorized, none)
require_context state true (authorized, err e) =
    (authorized, some (record { error = code e; message = "Relay authorization failed." }))

module _ ⦃u : Unicode⦄ ⦃j : Json⦄ where
  open j use {Value, string, get, set, as_str, to_string}

  abbrev pub replay_nonce_of : Value → Option String
  replay_nonce_of value = or_option (str_field "nonce" value) (str_field "header" value)

  abbrev pub operation_key_of : RelayAuthorizationSpec → Value → String
  operation_key_of auth_spec value = trim (text_field auth_spec.operation_key_field value)

  abbrev pub size_hint_of : Value → Option ℕ
  size_hint_of value = Option.map byte_length (str_field "ciphertext" value)

  -- The call of `authorize_relay_hotpath`, for a command that needs a context.
  abbrev pub authorize :
      GatewayState
      → ConnectionInfo
      → String
      → RelayAuthorizationSpec
      → Value
      → List String
      → ℤ
      → GatewayState × Result RelayAuthDecision
  authorize state info msg_type auth_spec value emails now_ts =
      authorize_relay_hotpath state info.user_id msg_type auth_spec
        (operation_key_of auth_spec value) emails (replay_nonce_of value) (size_hint_of value)
        now_ts

  -- The checks of a relay command that has targets: an error returns from the call.
  unfoldable pub check_relay :
      GatewayState
      → ConnectionInfo
      → String
      → Option RelayAuthorizationSpec
      → Value
      → List String
      → ℤ
      → GatewayState × Option CommandError
  unfolding require_context
  check_relay state info msg_type none value emails now_ts = (state, some relay_auth_spec_missing)
  check_relay state info msg_type (some auth_spec) value emails now_ts =
      if is_empty (operation_key_of auth_spec value)
      then (state, some relay_operation_key_missing)
      else require_context state auth_spec.requires_relay_context
          (authorize state info msg_type auth_spec value emails now_ts)

  -- The message as it is relayed, with the sender where it names none.
  unfoldable pub relay_payload : Value → String → Option Value
  relay_payload value user_id =
      if is_empty (trim (text_field "from" value))
      then set "from" (string user_id) value
      else some value

  module _ (live : ℕ → Bool) where
    unfoldable pub relay_to_targets :
        GatewayState → ConnectionInfo → Value → List String → ℤ → Relayed
    relay_to_targets state info value subjects requeued_at =
        elim (relay_payload value info.user_id) [
          | none ↦ relay_panics state
          | some payload ↦ elim (event_text payload) [
            | none ↦ goes_on state
            | some event ↦
                goes_on
                  (send_to_subjects live state subjects event true none requeued_at requeued_at).0
          ]
        ]

    unfoldable pub relay :
        GatewayState → String → ConnectionInfo → String → Bool → Value → Readings → Relayed
    relay state connection_id info msg_type has_symfony_step value at =
        let targets = collect_relay_targets value in
        let (checked, refusal) =
          check_relay state info msg_type (resolve_relay_authorization_spec msg_type) value
            targets.emails at.authorized_at in
        let refused = λ (s : GatewayState) (e : CommandError).
          returns (send_gateway_command_error live s connection_id msg_type e at.error_at) in
        if is_nil targets.subjects
        then if has_symfony_step then goes_on state else refused state invalid_relay_targets
        else elim refusal [
          | some e ↦ refused checked e
          | none ↦ relay_to_targets checked info value targets.subjects at.requeued_at
        ]
