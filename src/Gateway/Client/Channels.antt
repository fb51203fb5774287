-- ===== src/Gateway/Client/Channels.antt =====
-- gateway_core.rs: whose channels the messages of a client reach.
use rust_http3_gateway.Prelude.{
  ℕ, ℤ, Bool, false, String, some, Unicode, trim, ◌≡◌, refl, ◌⊎◌, inl, inr,
}
use rust_http3_gateway.Json.{Json, text_field}
use rust_http3_gateway.Routes.Types.{RelayAuthorizationSpec}
use rust_http3_gateway.Routes.{resolve_relay_authorization_spec}
use rust_http3_gateway.State.Types.{GatewayState, ConnectionInfo, RelayAuthDecision}
use rust_http3_gateway.State.RelayAuth.Soundness.{IsCallAuthorized, authorize_relay_hotpath_sound}
use rust_http3_gateway.State.RelayAuth.Frame.{authorize_relay_hotpath_keeps}
use rust_http3_gateway.State.Invariant.Contexts.{
  HasContexts, mark_connection_alive-HasContexts, bind_request_route-HasContexts,
  send_to_connection-HasContexts, mark_session_ready-HasContexts,
  authorize_relay_hotpath-HasContexts,
}
use rust_http3_gateway.Gateway.{Readings, collect_relay_targets}
use rust_http3_gateway.Gateway.Relay.{operation_key_of, replay_nonce_of, size_hint_of}
use rust_http3_gateway.Gateway.Handle.{handle_client_message, decoded}
use rust_http3_gateway.Gateway.Client.{
  handled_state, ClientStep, notes_alive, binds_request, notes_ready, tells_client, asks, relays,
  ClientRun, stands, steps, IsRelayAllowed,
}
use rust_http3_gateway.Gateway.Client.Handler.{handle_client_message-ClientRun}
use rust_http3_gateway.Gateway.Client.Quiet.{
  IsQuiet, IsQuiet-trans, IsQuiet-same, alive-IsQuiet, bind-IsQuiet, tell-IsQuiet, ready-IsQuiet,
}

module _ ⦃u : Unicode⦄ ⦃j : Json⦄ (live : ℕ → Bool) (id : String) (info : ConnectionInfo)
    (value : j.Value) (now_ts : ℤ) where
  -- From `s` to `t` only the message's own channel is reached, and the relay contexts stay.
  abbrev KeepsQuiet : GatewayState → GatewayState → Type 0
  KeepsQuiet s t = IsQuiet id s t × HasContexts s.relay_contexts_by_subject t

  abbrev IsAllowed : GatewayState → Type 0
  IsAllowed t = (spec : RelayAuthorizationSpec) × IsRelayAllowed live id info value t spec now_ts

  step-KeepsQuiet :
      (s : GatewayState) {t r : GatewayState}
      → KeepsQuiet s t
      → ClientStep live id info value now_ts t r
      → KeepsQuiet s r ⊎ IsAllowed t
  step-KeepsQuiet s {t} (q, h) (notes_alive at) = inl (
    IsQuiet-trans id s t _ q (alive-IsQuiet id t at),
    mark_connection_alive-HasContexts _ t id at h,
  )
  step-KeepsQuiet s {t} (q, h) (binds_request request_id at) = inl (
    IsQuiet-trans id s t _ q (bind-IsQuiet id t request_id info.user_id at),
    bind_request_route-HasContexts _ t request_id id info.user_id at h,
  )
  step-KeepsQuiet s {t} (q, h) (notes_ready at) = inl (
    IsQuiet-trans id s t _ q (ready-IsQuiet live id t info.user_id at),
    mark_session_ready-HasContexts _ live t id info.user_id at h,
  )
  step-KeepsQuiet s {t} (q, h) (tells_client message) = inl (
    IsQuiet-trans id s t _ q (tell-IsQuiet live id t message),
    send_to_connection-HasContexts _ live t id message h,
  )
  step-KeepsQuiet s {t} (q, h) (asks spec at) = inl (
    authorize_relay_hotpath_keeps (IsQuiet id s)
        (λ r c k. IsQuiet-trans id s r _ k (IsQuiet-same id r _ refl refl))
        (λ r c k. IsQuiet-trans id s r _ k (IsQuiet-same id r _ refl refl)) t _ _ _ _ _ _ _ _ q,
    authorize_relay_hotpath-HasContexts _ t _ _ _ _ _ _ _ _ h,
  )
  step-KeepsQuiet s (q, h) (relays spec requeued_at event allowed) = inr (spec, allowed)

  -- A run reaches no other channel, or comes to an allowed relay without having reached one.
  run-KeepsQuiet :
      (s : GatewayState) {t : GatewayState}
      → ClientRun live id info value now_ts s t
      → KeepsQuiet s t ⊎ ((r : GatewayState) × KeepsQuiet s r × IsAllowed r)
  run-KeepsQuiet s stands = inl (IsQuiet-same id s s refl refl, refl)
  run-KeepsQuiet s (steps {t} run step) = elim (run-KeepsQuiet s run) [
    | inr allowed ↦ inr allowed
    | inl kept ↦ elim (step-KeepsQuiet s kept step) [
      | inl later ↦ inl later
      | inr allowed ↦ inr (t, kept, allowed)
    ]
  ]

  -- A context of the sender in `s` grants the relay of the message at `now_ts`.
  abbrev pub IsGranted : GatewayState → RelayAuthorizationSpec → Type 0
  IsGranted s spec =
      (decision : RelayAuthDecision) × (sender : String) × IsCallAuthorized s info.user_id
        (operation_key_of spec value) (collect_relay_targets value).emails (size_hint_of value)
        (record {
          sender = sender;
          command_name = text_field "type" value;
          auth_spec = spec;
          operation_key = trim (operation_key_of spec value);
          target_emails = (collect_relay_targets value).emails;
          replay_nonce = replay_nonce_of value;
          now_ts = now_ts;
        })
        decision

  -- The table has an authorization for the message's type, which needs no context or is granted by
  -- one.
  abbrev pub IsVouched : GatewayState → Type 0
  IsVouched s =
      (spec : RelayAuthorizationSpec) × (resolve_relay_authorization_spec (text_field "type" value)
        ≡ some spec)
      × ((spec.requires_relay_context ≡ false) ⊎ IsGranted s spec)

  granted :
      (s t : GatewayState) (spec : RelayAuthorizationSpec)
      → HasContexts s.relay_contexts_by_subject t
      → IsGranted t spec
      → IsGranted s spec
  granted s t spec h (decision, sender, call) = (
    decision,
    sender,
    record {
      same_sender = call.same_sender;
      keyed = call.keyed;
      targeted = call.targeted;
      small = call.small;
      authorized = record {
        subject_contexts = call.authorized.subject_contexts;
        context = call.authorized.context;
        stored = rw h at call.authorized.stored;
        place = call.authorized.place;
        grants = call.authorized.grants;
        same_id = call.authorized.same_id;
        same_version = call.authorized.same_version;
      };
    },
  )

  allowed-IsVouched :
      (s t : GatewayState) → HasContexts s.relay_contexts_by_subject t → IsAllowed t → IsVouched s
  allowed-IsVouched s t h (spec, allowed) = (
    spec,
    allowed.resolved,
    elim allowed.granted [
      | inl free ↦ inl free
      | inr (decision, e) ↦
          let (sender, call) =
            authorize_relay_hotpath_sound t info.user_id _ spec (operation_key_of spec value)
              (collect_relay_targets value).emails (replay_nonce_of value) (size_hint_of value)
              now_ts decision e in
          inr (granted s t spec h (decision, sender, call))
    ],
  )

module _ ⦃u : Unicode⦄ ⦃j : Json⦄ (live : ℕ → Bool) where
  -- A message of a client puts a text on no channel but that of its own connection, which keeps
  -- its channel or is gone; or its type has a relay authorization in the table, and this needs no
  -- context or a context that the state had for the sender before the message grants the relay, to
  -- the targets that the message names, at the time of the authorization.
  pub handle_client_message_reaches :
      (inbox_stream : String) (has_redis : Bool) (at : Readings) (s : GatewayState)
      (connection_id : String) (info : ConnectionInfo) (raw : String)
      → IsQuiet connection_id s (
          handled_state
            (handle_client_message live inbox_stream has_redis at s connection_id info raw))
        ⊎ IsVouched live connection_id info (decoded raw) at.authorized_at s
  handle_client_message_reaches inbox_stream has_redis at s connection_id info raw =
      elim (run-KeepsQuiet live connection_id info (decoded raw) at.authorized_at s
        (handle_client_message-ClientRun live inbox_stream has_redis at s connection_id info raw)) [
          | inl (quiet, h) ↦ inl quiet
          | inr (t, (q, h), allowed) ↦ inr (
              allowed-IsVouched live connection_id info (decoded raw) at.authorized_at s t h
                allowed)
        ]
