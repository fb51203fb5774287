-- ===== src/Gateway.antt =====
-- gateway_core.rs: what becomes of one message of a client.
pub mod Relay
pub mod Handle
pub mod Client
mod Tests
pub mod Published
pub mod Outcomes
use rust_http3_gateway.Prelude.{
  ℕ, ℤ, Bool, true, false, not, ◌&&◌, ◌||◌, String, List, [], ◌∷◌, ◌++◌, Option, none, some,
  and_then, or_option, unwrap_or, filter_option, ◌==◌, is_empty, is_nil, trim, to_lowercase,
  Unicode, concat, sort_by, byte_length, if◌then◌else◌, map,
}
use text.Mathlib.Text.{is_le}
use Prim.Native.String.{compare}
use mathlib.Core.Option
use rust_http3_gateway.Json.{Json, event_text, str_field, text_field, named_field}
use rust_http3_gateway.Message.{
  InternalMessage, MessageFlags, extract_channel_id, extract_payload, extract_flags, flags_json,
}
use rust_http3_gateway.Routes.Types.{
  CommandSpec, RelayAuthorizationSpec, RoutingClass, is_no_auth, is_gateway_local, is_relay_hotpath,
  is_backend_control, routing_class_as_str, message_type_as_str,
}
use rust_http3_gateway.Routes.{resolve_command_spec, resolve_relay_authorization_spec}
use rust_http3_gateway.State.Types.{GatewayState, ConnectionInfo, code}
use rust_http3_gateway.State.RequestRoutes.{bind_request_route}
use rust_http3_gateway.State.Readiness.{mark_session_ready, mark_connection_alive}
use rust_http3_gateway.State.Dispatch.{send_to_subjects, send_to_connection}
use rust_http3_gateway.State.RelayLimits.{ok, err}
use rust_http3_gateway.State.RelayAuth.{authorize_relay_hotpath}

-- The readings of the clock of one call, in the order of the code, and the new id.
pub record Readings : Type 0 where
  pub alive_at : ℤ
  pub bound_at : ℤ
  pub ready_at : ℤ
  pub authorized_at : ℤ
  pub requeued_at : ℤ
  pub error_at : ℤ
  pub timestamp_ms : ℤ
  pub internal_id : String

-- One `XADD` to a stream of Redis: the stream, and the text of the field `data`.
pub record StreamEntry : Type 0 where
  pub stream : String
  pub body : String

pub record RelayTargets : Type 0 where
  pub emails : List String
  pub subjects : List String

-- An outcome of the whole call: the state and what is published, or a panic.
pub data Handled : Type 0 where
  done : GatewayState → List StreamEntry → Handled
  panics : GatewayState → Handled

-- An outcome of the relay: the call returns, goes on, or panics.
pub data Relayed : Type 0 where
  returns goes_on relay_panics : GatewayState → Relayed

-- An error that is sent to the client: its code and its text.
pub record CommandError : Type 0 where
  pub error : String
  pub message : String

abbrev pub string_le : String → String → Bool
string_le a b = is_le (compare a b)

-- `dedup`: of equal neighbours the first stays.
unfoldable pub dedup : List String → List String
dedup [] = []
dedup (x ∷ xs) = keep_unless_equal x (dedup xs)
  where
    keep_unless_equal : String → List String → List String
    keep_unless_equal x [] = x ∷ []
    keep_unless_equal x (y ∷ ys) = if x == y then y ∷ ys else x ∷ y ∷ ys

module _ ⦃u : Unicode⦄ ⦃j : Json⦄ where
  open j use {
    Value, string, integer, array, object, get, set, as_str, as_array, from_str, to_string,
  }

  unfoldable pub append_target_variants : String → RelayTargets → RelayTargets
  append_target_variants value targets =
      let trimmed = trim value in
      let normalized = to_lowercase trimmed in
      if is_empty trimmed then targets else record {
        emails = targets.emails ++ normalized ∷ [];
        subjects =
            targets.subjects
            ++ concat ("user:" ∷ trimmed ∷ []) ∷ concat ("user:" ∷ normalized ∷ []) ∷ [];
      }

  unfoldable pub append_recipients : List Value → RelayTargets → RelayTargets
  append_recipients [] targets = targets
  append_recipients (item ∷ rest) targets =
      append_recipients rest
        (elim (as_str item) [ none ↦ targets | some email ↦ append_target_variants email targets ])

  unfoldable pub collect_relay_targets : Value → RelayTargets
  unfolding append_target_variants append_recipients
  collect_relay_targets value =
      let first : RelayTargets = elim (str_field "to" value) [
        | none ↦ record { emails = []; subjects = [] }
        | some target ↦ append_target_variants target (record { emails = []; subjects = [] })
      ] in
      let all_targets =
        append_recipients (unwrap_or (and_then (get "recipients" value) as_array) []) first in
      record {
        emails = dedup (sort_by string_le all_targets.emails);
        subjects = dedup (sort_by string_le all_targets.subjects);
      }

  unfoldable pub error_text : String → CommandError → ℤ → Option String
  error_text command e now_ts = event_text (
      object (
        ("type", string "gateway_command_error")
        ∷ ("command", string command)
        ∷ ("error", string e.error)
        ∷ ("message", string e.message)
        ∷ ("ts", integer now_ts)
        ∷ []))

  module _ (live : ℕ → Bool) where
    unfoldable pub send_gateway_command_error :
        GatewayState → String → String → CommandError → ℤ → GatewayState
    unfolding send_to_connection error_text
    send_gateway_command_error state connection_id command e now_ts =
        elim (error_text command e now_ts) [
          | none ↦ state
          | some message ↦ (send_to_connection live state connection_id message).0
        ]
