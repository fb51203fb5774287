-- ===== src/Gateway/Handle.antt =====
-- gateway_core.rs: `handle_client_message`.
use rust_http3_gateway.Prelude.{
  ℕ, ℤ, pos, Bool, ◌&&◌, ◌||◌, String, List, [], ◌∷◌, Option, none, some, unwrap_or, ◌==◌, is_empty,
  trim, Unicode, if◌then◌else◌,
}
use rust_http3_gateway.Json.{Json, texts, text_field, named_field}
use rust_http3_gateway.Message.{
  InternalMessage, extract_channel_id, extract_payload, extract_flags, flags_json,
}
use rust_http3_gateway.Routes.Types.{
  CommandSpec, is_no_auth, is_gateway_local, is_relay_hotpath, is_backend_control,
  routing_class_as_str, message_type_as_str,
}
use rust_http3_gateway.Routes.{resolve_command_spec}
use rust_http3_gateway.State.Types.{GatewayState, ConnectionInfo}
use rust_http3_gateway.State.RequestRoutes.{bind_request_route}
use rust_http3_gateway.State.Readiness.{mark_session_ready, mark_connection_alive}
use rust_http3_gateway.Gateway.{
  Readings, StreamEntry, Handled, done, panics, returns, goes_on, relay_panics, CommandError,
  send_gateway_command_error,
}
use rust_http3_gateway.Gateway.Relay.{relay}

abbrev pub type_required : CommandError
type_required = record { error = "invalid_command"; message = "Message type is required." }

abbrev pub not_registered : CommandError
not_registered = record { error = "unsupported_command"; message = "Command is not registered." }

abbrev pub only_preauth : CommandError
only_preauth = record {
  error = "preauth_only_command";
  message = "Command is only allowed during preauth.";
}

abbrev pub not_local : CommandError
not_local = record {
  error = "invalid_gateway_local_command";
  message = "Unsupported gateway-local command.";
}

-- The steps of a command, from its row in the table.
abbrev pub has_subjects_step : CommandSpec → Bool
has_subjects_step spec = is_relay_hotpath spec.routing_class

abbrev pub has_symfony_step : CommandSpec → Bool
has_symfony_step spec =
    is_backend_control spec.routing_class || (has_subjects_step spec && spec.mirror_to_backend)

abbrev pub runtime_path : CommandSpec → List String
runtime_path spec =
    if has_subjects_step spec
    then if has_symfony_step spec then "subjects" ∷ "symfony" ∷ [] else "subjects" ∷ []
    else if has_symfony_step spec
    then "symfony" ∷ []
    else []

module _ ⦃u : Unicode⦄ ⦃j : Json⦄ where
  open j use {Value, string, integer, array, object, from_str, to_string}

  -- broker.rs: `publish_event`, as far as the command that it sends.
  unfoldable pub publish_event : String → Value → List StreamEntry
  publish_event stream payload = if is_empty stream then [] else elim (to_string payload) [
    | none ↦ []
    | some body ↦ record { stream = stream; body = body } ∷ []
  ]

  -- What is not JSON becomes a message of the type "raw".
  abbrev pub decoded : String → Value
  decoded raw =
      unwrap_or (from_str raw) (object (("type", string "raw") ∷ ("payload", string raw) ∷ []))

  unfoldable pub internal_message : Value → ConnectionInfo → Readings → InternalMessage
  internal_message value info at = record {
    schema_version = pos 1;
    internal_id = at.internal_id;
    timestamp_ms = at.timestamp_ms;
    user_id = info.user_id;
    channel_id = extract_channel_id value info.user_id;
    flags = extract_flags value;
    payload = extract_payload value;
  }

  -- What the backend receives.
  unfoldable pub inbox_payload :
      String → String → ConnectionInfo → CommandSpec → Value → String → Readings → Value
  unfolding internal_message
  inbox_payload connection_id raw info spec value msg_type at =
      let internal = internal_message value info at in
      object (
        ("type", string "message_received")
        ∷ ("internal_id", string internal.internal_id)
        ∷ ("timestamp_ms", integer internal.timestamp_ms)
        ∷ ("user_id", string internal.user_id)
        ∷ ("channel_id", string internal.channel_id)
        ∷ ("flags", flags_json internal.flags)
        ∷ ("payload", internal.payload)
        ∷ ("connection_id", string connection_id)
        ∷ ("subjects", texts info.subjects)
        ∷ ("connected_at", integer info.connected_at)
        ∷ ("message", value)
        ∷ ("raw", string raw)
        ∷ ("command_type", string msg_type)
        ∷ ("routing_class", string (routing_class_as_str spec.routing_class))
        ∷ ("semantic_type", string (message_type_as_str spec.message_type))
        ∷ ("runtime_path", texts (runtime_path spec))
        ∷ [])

  -- The request route of a command that goes to the backend and has a request id.
  unfoldable pub bind_route :
      GatewayState → String → ConnectionInfo → Bool → Option String → ℤ → GatewayState
  bind_route state connection_id info has_symfony none now_ts = state
  bind_route state connection_id info has_symfony (some request_id) now_ts =
      if has_symfony
      then bind_request_route state request_id connection_id info.user_id now_ts
      else state

  module _ (live : ℕ → Bool) (inbox_stream : String) (has_redis : Bool) (at : Readings) where
    -- The end of the call: the message goes to the backend, if there is a Redis client.
    unfoldable pub mirror :
        GatewayState → String → String → ConnectionInfo → CommandSpec → Value → String → Handled
    mirror state connection_id raw info spec value msg_type = done state (
        if has_redis
        then publish_event inbox_stream
            (inbox_payload connection_id raw info spec value msg_type at)
        else [])

    -- The two steps on the state that come before the relay.
    abbrev pub prepared :
        GatewayState → String → ConnectionInfo → CommandSpec → Value → String → GatewayState
    prepared state connection_id info spec value msg_type =
        let bound =
          bind_route state connection_id info (has_symfony_step spec)
            (named_field "request_id" value) at.bound_at in
        if msg_type == "session_ready"
        then (mark_session_ready live bound connection_id info.user_id at.ready_at).0
        else bound

    -- A registered command that is neither of the session's start nor of the gateway itself.
    unfoldable pub run_command :
        GatewayState → String → String → ConnectionInfo → CommandSpec → Value → String → Handled
    unfolding mirror
    run_command state connection_id raw info spec value msg_type =
        let ready = prepared state connection_id info spec value msg_type in
        if has_subjects_step spec
        then elim (relay live ready connection_id info msg_type (has_symfony_step spec) value at) [
          | returns after ↦ done after []
          | relay_panics after ↦ panics after
          | goes_on after ↦
              if has_symfony_step spec
              then mirror after connection_id raw info spec value msg_type
              else done after []
        ]
        else mirror ready connection_id raw info spec value msg_type

    unfoldable pub dispatch_command :
        GatewayState
        → String
        → String
        → ConnectionInfo
        → Option CommandSpec
        → Value
        → String
        → Handled
    unfolding run_command
    dispatch_command state connection_id raw info none value msg_type =
        done
          (send_gateway_command_error live state connection_id msg_type not_registered at.error_at)
          []
    dispatch_command state connection_id raw info (some spec) value msg_type =
        let refused = λ (e : CommandError).
          done (send_gateway_command_error live state connection_id msg_type e at.error_at) [] in
        if is_no_auth spec.routing_class
        then refused only_preauth
        else if is_gateway_local spec.routing_class
        then if msg_type == "ping" then done state [] else refused not_local
        else run_command state connection_id raw info spec value msg_type

    unfoldable pub handle_client_message : GatewayState → String → ConnectionInfo → String → Handled
    unfolding dispatch_command
    handle_client_message state connection_id info raw =
        let alive = mark_connection_alive state connection_id at.alive_at in
        let value = decoded raw in
        let msg_type = text_field "type" value in
        if is_empty (trim raw)
        then done state []
        else if is_empty (trim msg_type)
        then done (send_gateway_command_error live alive connection_id "" type_required at.error_at)
            []
        else dispatch_command alive connection_id raw info (resolve_command_spec msg_type) value
            msg_type
