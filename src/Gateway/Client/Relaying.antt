-- ===== src/Gateway/Client/Relaying.antt =====
-- gateway_core.rs: the relay of a message does only what a client may do.
use rust_http3_gateway.Prelude.{
  ℕ, ℤ, Bool, true, false, String, Option, none, some, is_nil, Unicode, ◌≡◌, refl, subst, ◌⊎◌, inl,
  inr, Bool-cases, Option-cases, if_both, if◌then◌else◌, is_empty,
}
use rust_http3_gateway.Json.{Json, event_text}
use rust_http3_gateway.Routes.Types.{RelayAuthorizationSpec}
use rust_http3_gateway.Routes.{resolve_relay_authorization_spec}
use rust_http3_gateway.State.Types.{GatewayState, ConnectionInfo, RelayAuthDecision}
use rust_http3_gateway.State.RelayLimits.{Result, ok, err}
use rust_http3_gateway.Gateway.{
  Readings, Relayed, CommandError, error_text, send_gateway_command_error, collect_relay_targets,
}
use rust_http3_gateway.Gateway.Relay.{
  operation_key_of, require_context, check_relay, relay_payload, relay_to_targets, relay,
}
use rust_http3_gateway.Gateway.Client.{
  relayed_state, message_type, IsRelayAllowed, authorized_state, tells_client, asks, relays,
  ClientRun, stands, steps, append_run,
}

require_context_keeps :
    (P : GatewayState → Type 0) (s : GatewayState) (required : Bool)
    (called : GatewayState × Result RelayAuthDecision)
    → P s
    → P called.0
    → P (require_context s required called).0
unfolding require_context
require_context_keeps P s false called p q = p
require_context_keeps P s true (after, ok decision) p q = q
require_context_keeps P s true (after, err e) p q = q

require_context_passes :
    (s : GatewayState) (required : Bool) (called : GatewayState × Result RelayAuthDecision)
    → (require_context s required called).1 ≡ none
    → ((required ≡ false) ⊎ ((decision : RelayAuthDecision) × (called.1 ≡ ok decision)))
      × ((require_context s required called).0 ≡ (if required then called.0 else s))
unfolding require_context
require_context_passes s false called h = (inl refl, refl)
require_context_passes s true (after, ok decision) h = (inr (decision, refl), refl)
require_context_passes s true (after, err e) h = cc

module _ ⦃u : Unicode⦄ ⦃j : Json⦄ (live : ℕ → Bool) (connection_id : String) (info : ConnectionInfo)
    (value : j.Value) where
  -- The notions of a client's message, for this one.
  abbrev Run : ℤ → GatewayState → GatewayState → Type 0
  Run now_ts s t = ClientRun live connection_id info value now_ts s t

  -- One lemma for each function of the handler, from the inside out.
  pub tell-ClientRun :
      (authorized_at : ℤ) (s : GatewayState) (command : String) (e : CommandError) (now_ts : ℤ)
      → Run authorized_at s (send_gateway_command_error live s connection_id command e now_ts)
  unfolding send_gateway_command_error
  tell-ClientRun authorized_at s command e now_ts =
      elim (Option-cases (error_text command e now_ts)) [
        | inl missing ↦ rw (missing, send_gateway_command_error) stands
        | inr (message, found) ↦
            rw (found, send_gateway_command_error) (steps stands (tells_client message))
      ]

  abbrev checked :
      GatewayState → Option RelayAuthorizationSpec → ℤ → GatewayState × Option CommandError
  checked s o now_ts =
      check_relay s info (message_type live connection_id info value) o value
        (collect_relay_targets value).emails now_ts

  checked-ClientRun :
      (s : GatewayState) (o : Option RelayAuthorizationSpec) (now_ts : ℤ)
      → Run now_ts s (checked s o now_ts).0
  unfolding check_relay
  checked-ClientRun s none now_ts = stands
  checked-ClientRun s (some spec) now_ts =
      if_both (λ (r : GatewayState × Option CommandError). Run now_ts s r.0)
        (is_empty (operation_key_of spec value)) stands
        (require_context_keeps (Run now_ts s) s spec.requires_relay_context _ stands
          (steps stands (asks spec now_ts)))

  checked-IsRelayAllowed :
      (s : GatewayState) (o : Option RelayAuthorizationSpec) (now_ts : ℤ)
      → resolve_relay_authorization_spec (message_type live connection_id info value) ≡ o
      → (checked s o now_ts).1 ≡ none
      → (spec : RelayAuthorizationSpec) × IsRelayAllowed live connection_id info value s spec now_ts
        × ((checked s o now_ts).0 ≡ authorized_state live connection_id info value s spec now_ts)
  unfolding check_relay
  checked-IsRelayAllowed s none now_ts r h = cc
  checked-IsRelayAllowed s (some spec) now_ts r h =
      elim (Bool-cases (is_empty (operation_key_of spec value))) [
        | inl e ↦ cc (rw (e, check_relay) at h)
        | inr e ↦
            let (granted, same) =
              require_context_passes s spec.requires_relay_context _ (rw (e, check_relay) at h) in
            (spec, record { resolved = r; granted = granted }, rw (e, check_relay) same)
      ]

  -- The relay of the event, in the state that the checks leave.
  abbrev relayed_by : GatewayState → GatewayState → ℤ → Relayed
  relayed_by s after requeued_at =
      relay_to_targets live after info value (collect_relay_targets value).subjects requeued_at

  relayed-ClientRun :
      (s : GatewayState) (spec : RelayAuthorizationSpec) (now_ts requeued_at : ℤ)
      → IsRelayAllowed live connection_id info value s spec now_ts
      → Run now_ts s (authorized_state live connection_id info value s spec now_ts)
      → Run now_ts s (
          relayed_state (
            relayed_by s
              (authorized_state live connection_id info value s spec now_ts)
              requeued_at))
  unfolding relay_to_targets
  relayed-ClientRun s spec now_ts requeued_at allowed run =
      elim (Option-cases (relay_payload value info.user_id)) [
        | inl missing ↦ rw (missing, relay_to_targets) run
        | inr (payload, found) ↦ elim (Option-cases (event_text payload)) [
          | inl missing ↦ rw (found, missing, relay_to_targets) run
          | inr (event, written) ↦
              rw (found, written, relay_to_targets)
                (steps stands (relays spec requeued_at event allowed))
        ]
      ]

  pub relay-ClientRun :
      (s : GatewayState) (mirrored : Bool) (at : Readings)
      → Run at.authorized_at s (
          relayed_state (
            relay live s connection_id info
              (message_type live connection_id info value)
              mirrored
              value
              at))
  unfolding relay
  relay-ClientRun s mirrored at =
      let o = resolve_relay_authorization_spec (message_type live connection_id info value) in
      if_both (λ r. Run at.authorized_at s (relayed_state r))
        (is_nil (collect_relay_targets value).subjects)
        (if_both (λ r. Run at.authorized_at s (relayed_state r)) mirrored stands
          (tell-ClientRun at.authorized_at s _ _ _))
        (elim (Option-cases (checked s o at.authorized_at).1) [
          | inr (e, refused) ↦ rw refused (
              append_run live connection_id info value at.authorized_at
                (checked-ClientRun s o at.authorized_at) (tell-ClientRun at.authorized_at _ _ _ _))
          | inl passed ↦
              let (spec, allowed, same) = checked-IsRelayAllowed s o at.authorized_at refl passed in
              rw (passed, same)
                (relayed-ClientRun s spec at.authorized_at at.requeued_at allowed
                  (subst (Run at.authorized_at s) same (checked-ClientRun s o at.authorized_at)))
        ])
