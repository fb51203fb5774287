-- ===== src/State/RelayAuth.antt =====
-- state.rs: may a relay command pass? The checks on the sender's contexts.
pub mod Frame
pub mod Completeness
pub mod Soundness
pub mod Retry
pub mod Notes
pub mod Replay
use rust_http3_gateway.Prelude.{
  ℕ, ℤ, Bool, false, not, ◌||◌, String, List, [], ◌∷◌, Option, none, some, lookup, ◌==◌, is_empty,
  is_nil, trim, to_lowercase, Unicode, concat, any, all, ltb, eqb, ltb_ℤ, if◌then◌else◌,
}
use rust_http3_gateway.Routes.Types.{RelayAuthorizationSpec, same_context_type, same_scope_mode}
use rust_http3_gateway.State.Types.{
  GatewayState, RelayOperationContext, RelaySubjectContexts, RelayAuthDecision, RelayAuthError,
  missing_context, sender_binding_invalid, scope_violation, context_state_invalid, grant_expired,
  grant_invalid, policy_version_mismatch, payload_too_large, is_relay_permitted,
  relay_chunk_ciphertext_max_bytes,
}
use rust_http3_gateway.State.RelayContexts.{sanitize_email}
use rust_http3_gateway.State.RelayLimits.{
  Result, ok, err, ensure_relay_replay_fresh, ensure_relay_rate_limit,
}

-- What the loop does with a context: `continue`, an early `return`, or on to the stateful checks.
pub data ContextCheck : Type 0 where
  skip : ContextCheck
  refuse : RelayAuthError → ContextCheck
  pass : ContextCheck

-- The arguments of one call, with the sender normalised and the operation key trimmed.
pub record RelayRequest : Type 0 where
  pub sender : String
  pub command_name : String
  pub auth_spec : RelayAuthorizationSpec
  pub operation_key : String
  pub target_emails : List String
  pub replay_nonce : Option String
  pub now_ts : ℤ

module _ ⦃u : Unicode⦄ where
  abbrev pub targets_in_scope : List String → List String → Bool
  targets_in_scope peers targets =
      all (λ target. any (λ peer. peer == to_lowercase (trim target)) peers) targets

  -- The checks that read the context alone, in the order of the source.
  unfoldable pub check_context : RelayRequest → RelayOperationContext → ContextCheck
  check_context request context =
      if not (same_context_type context.context_type request.auth_spec.relay_context_type)
        || not (context.operation_key == request.operation_key)
        || not (
            any (λ family. family == to_lowercase (trim request.auth_spec.command_family))
              context.allowed_command_families)
        || not (context.authorized_subject == request.sender)
      then skip
      else if is_empty (trim context.grant.grant_id)
      then refuse grant_invalid
      else if eqb context.policy_version 0
          || eqb context.grant.policy_version 0
          || not (eqb context.policy_version context.grant.policy_version)
      then refuse policy_version_mismatch
      else if ltb_ℤ context.expires_at request.now_ts
          || ltb_ℤ context.grant.expires_at request.now_ts
      then refuse grant_expired
      else if not
            (same_scope_mode context.audience_scope.mode request.auth_spec.audience_scope_mode)
          || not (targets_in_scope context.audience_scope.peers request.target_emails)
      then skip
      else if not (is_relay_permitted context.state)
      then refuse (context_state_invalid context.state)
      else pass

  abbrev pub replay_key : RelayRequest → RelayOperationContext → String → String
  replay_key request context nonce_trimmed = concat (
      request.sender ∷ "|" ∷ request.command_name ∷ "|" ∷ context.context_id ∷ "|" ∷ nonce_trimmed
      ∷ [])

  unfoldable pub check_nonce :
      GatewayState → RelayRequest → RelayOperationContext → GatewayState × Result (Unit {0})
  check_nonce state request context = elim request.replay_nonce [
    | none ↦ (state, ok tt)
    | some nonce ↦
        if is_empty (trim nonce)
        then (state, ok tt)
        else ensure_relay_replay_fresh state (replay_key request context (trim nonce))
            request.now_ts
  ]

  -- The stateful checks, for a context that passes.
  unfoldable pub admit :
      GatewayState → RelayRequest → RelayOperationContext → GatewayState × Result RelayAuthDecision
  admit state request context =
      let (noted, fresh) = check_nonce state request context in
      let (counted, limited) =
        ensure_relay_rate_limit noted request.sender request.command_name context.context_id
          request.now_ts in
      elim fresh [
        | err e ↦ (noted, err e)
        | ok _ ↦ elim limited [
          | err e ↦ (counted, err e)
          | ok _ ↦ (
            counted,
            ok (record {
              context_id = context.context_id;
              policy_version = context.policy_version;
            }),
          )
        ]
      ]

  unfoldable pub authorize_each :
      GatewayState
      → RelayRequest
      → List RelayOperationContext
      → GatewayState × Result RelayAuthDecision
  unfolding check_context
  authorize_each state request [] = (state, err scope_violation)
  authorize_each state request (context ∷ rest) =
      let later = authorize_each state request rest in
      elim (check_context request context) [
        | skip ↦ later
        | refuse e ↦ (state, err e)
        | pass ↦ admit state request context
      ]

  -- The contexts of the sender, if there are any, for a request whose sender is normalised.
  unfoldable pub authorize_subject :
      GatewayState
      → RelayRequest
      → Option RelaySubjectContexts
      → GatewayState × Result RelayAuthDecision
  unfolding authorize_each
  authorize_subject state request none = (state, err missing_context)
  authorize_subject state request (some subject_contexts) =
      if not (same_context_type subject_contexts.context_type request.auth_spec.relay_context_type)
      then (state, err missing_context)
      else authorize_each state request subject_contexts.contexts

  abbrev pub is_too_large : Option ℕ → Bool
  is_too_large none = false
  is_too_large (some size) = ltb relay_chunk_ciphertext_max_bytes size

  unfoldable pub authorize_relay_hotpath :
      GatewayState
      → String
      → String
      → RelayAuthorizationSpec
      → String
      → List String
      → Option String
      → Option ℕ
      → ℤ
      → GatewayState × Result RelayAuthDecision
  unfolding authorize_subject
  authorize_relay_hotpath state sender_email command_name auth_spec operation_key target_emails
        replay_nonce payload_size_hint now_ts =
      elim (sanitize_email sender_email) [
        | none ↦ (state, err sender_binding_invalid)
        | some sender ↦
            let request : RelayRequest = record {
              sender = sender;
              command_name = command_name;
              auth_spec = auth_spec;
              operation_key = trim operation_key;
              target_emails = target_emails;
              replay_nonce = replay_nonce;
              now_ts = now_ts;
            } in
            if is_empty (trim operation_key)
            then (state, err missing_context)
            else if is_nil target_emails
            then (state, err scope_violation)
            else if is_too_large payload_size_hint
            then (state, err payload_too_large)
            else authorize_subject state request (lookup sender state.relay_contexts_by_subject)
      ]
