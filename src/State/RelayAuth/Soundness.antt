-- ===== src/State/RelayAuth/Soundness.antt =====
-- What an authorised relay command is known to satisfy, and what a refused one leaves behind.
use rust_http3_gateway.Prelude.{
  ℕ, ◌<◌, ℤ, ◌≤ℤ◌, true, false, String, List, [], ◌∷◌, Option, some, lookup, ◌==◌, is_empty, is_nil,
  trim, to_lowercase, Unicode, any, ◌≡◌, refl, arith, In, here, there, eq_iff, Option-cases, inl,
  inr, ◌⊎◌,
}
use rust_http3_gateway.Routes.Types.{RelayAuthorizationSpec, same_context_type, same_scope_mode}
use rust_http3_gateway.State.Types.{
  GatewayState, RelayOperationContext, RelaySubjectContexts, RelayAuthDecision, RelayAuthError,
  active, is_relay_permitted,
}
use rust_http3_gateway.State.RelayContexts.{sanitize_email}
use rust_http3_gateway.State.RelayLimits.{Result, ok}
use rust_http3_gateway.State.RelayAuth.{
  RelayRequest, ContextCheck, skip, refuse, pass, targets_in_scope, check_context, admit,
  authorize_each, authorize_subject, is_too_large, authorize_relay_hotpath,
}

pub check_cases :
    (c : ContextCheck) → (c ≡ pass) ⊎ ((c ≡ skip) ⊎ ((e : RelayAuthError) × (c ≡ refuse e)))
check_cases pass = inl refl
check_cases skip = inr (inl refl)
check_cases (refuse e) = inr (inr (e, refl))

module _ ⦃u : Unicode⦄ where
  -- The context grants the request.
  pub record Grants (request : RelayRequest) (context : RelayOperationContext) : Type 0 where
    pub same_type :
        same_context_type context.context_type request.auth_spec.relay_context_type ≡ true
    pub same_key : context.operation_key ≡ request.operation_key
    pub family :
        any
          (λ f. f == to_lowercase (trim request.auth_spec.command_family))
          context.allowed_command_families
        ≡ true
    pub bound : context.authorized_subject ≡ request.sender
    pub has_grant : is_empty (trim context.grant.grant_id) ≡ false
    pub versioned : 0 < context.policy_version
    pub same_version : context.policy_version ≡ context.grant.policy_version
    pub unexpired : request.now_ts ≤ℤ context.expires_at
    pub grant_unexpired : request.now_ts ≤ℤ context.grant.expires_at
    pub same_mode :
        same_scope_mode context.audience_scope.mode request.auth_spec.audience_scope_mode ≡ true
    pub in_scope : targets_in_scope context.audience_scope.peers request.target_emails ≡ true
    pub is_active : context.state ≡ active

  check_context-Grants :
      (request : RelayRequest) (context : RelayOperationContext)
      → check_context request context ≡ pass
      → Grants request context
  unfolding check_context is_relay_permitted
  check_context-Grants request context h = record {
    same_type = ground arith;
    same_key = ground (arith, eq_iff context.operation_key request.operation_key);
    family = ground arith;
    bound = ground (arith, eq_iff context.authorized_subject request.sender);
    has_grant = ground arith;
    versioned = ground arith;
    same_version = ground arith;
    unexpired = ground arith;
    grant_unexpired = ground arith;
    same_mode = ground arith;
    in_scope = ground arith;
    is_active = ground arith;
  }

  -- Why a command was authorised: the context of the sender that grants it.
  pub record IsAuthorized (state : GatewayState) (request : RelayRequest)
      (decision : RelayAuthDecision) : Type 0 where
    pub subject_contexts : RelaySubjectContexts
    pub context : RelayOperationContext
    pub stored : lookup request.sender state.relay_contexts_by_subject ≡ some subject_contexts
    pub place : In context subject_contexts.contexts
    pub grants : Grants request context
    pub same_id : decision.context_id ≡ context.context_id
    pub same_version : decision.policy_version ≡ context.policy_version

  admit_decision :
      (state : GatewayState) (request : RelayRequest) (context : RelayOperationContext)
      (decision : RelayAuthDecision)
      → (admit state request context).1 ≡ ok decision
      → (decision.context_id ≡ context.context_id)
        × (decision.policy_version ≡ context.policy_version)
  unfolding admit
  admit_decision state request context decision h = (ground arith, ground arith)

  authorize_each_granted :
      (state : GatewayState) (request : RelayRequest) (contexts : List RelayOperationContext)
      (decision : RelayAuthDecision)
      → (authorize_each state request contexts).1 ≡ ok decision
      → (context : RelayOperationContext) × In context contexts
        × (check_context request context ≡ pass)
        × ((admit state request context).1 ≡ ok decision)
  unfolding authorize_each
  authorize_each_granted state request [] decision h = cc
  authorize_each_granted state request (c ∷ rest) decision h =
      elim (check_cases (check_context request c)) [
        | inl passed ↦ (c, here refl, passed, rw (passed, authorize_each) at h)
        | inr (inl skipped) ↦
            let (context, place, passed, e) =
              authorize_each_granted state request rest decision
                (rw (skipped, authorize_each) at h) in
            (context, there place, passed, e)
        | inr (inr (e, refused)) ↦ cc (rw (refused, authorize_each) at h)
      ]

  -- A call is authorised only for a sender that is named, with an operation key, a target and a
  -- payload within the limit, and by a context of that sender which grants the request.
  pub record IsCallAuthorized (state : GatewayState) (sender_email : String)
      (operation_key : String) (targets : List String) (size : Option ℕ) (request : RelayRequest)
      (decision : RelayAuthDecision) : Type 0 where
    pub same_sender : sanitize_email sender_email ≡ some request.sender
    pub keyed : is_empty (trim operation_key) ≡ false
    pub targeted : is_nil targets ≡ false
    pub small : is_too_large size ≡ false
    pub authorized : IsAuthorized state request decision

  module _ (state : GatewayState) (sender command : String) (spec : RelayAuthorizationSpec)
      (key : String) (targets : List String) (replay_nonce : Option String) (size : Option ℕ)
      (now_ts : ℤ) (decision : RelayAuthDecision) where
    abbrev pub request_of : String → RelayRequest
    request_of normalized = record {
      sender = normalized;
      command_name = command;
      auth_spec = spec;
      operation_key = trim key;
      target_emails = targets;
      replay_nonce = replay_nonce;
      now_ts = now_ts;
    }

    abbrev pub the_call : GatewayState × Result RelayAuthDecision
    the_call =
        authorize_relay_hotpath state sender command spec key targets replay_nonce size now_ts

    call_opens :
        the_call.1 ≡ ok decision
        → (normalized : String) × (sc : RelaySubjectContexts) × (sanitize_email sender
            ≡ some normalized)
          × (lookup normalized state.relay_contexts_by_subject ≡ some sc)
          × (is_empty (trim key) ≡ false)
          × (is_nil targets ≡ false)
          × (is_too_large size ≡ false)
          × ((authorize_each state (request_of normalized) sc.contexts).1 ≡ ok decision)
    unfolding authorize_relay_hotpath authorize_subject
    call_opens h = elim (Option-cases (sanitize_email sender)) [
      | inl e ↦ cc (rw (e, authorize_relay_hotpath) at h)
      | inr (n, e) ↦ elim (Option-cases (lookup n state.relay_contexts_by_subject)) [
        | inl f ↦ let r : ⊥ = ground arith in absurd r
        | inr (sc, f) ↦ (n, sc, e, f, ground arith, ground arith, ground arith, ground arith)
      ]
    ]

    -- A call that returns a decision has a sender that is named, an operation key, a target and
    -- a payload within the limit; a context stored for the normalised sender grants the request,
    -- and the decision has the id and the policy version of that context.
    pub authorize_relay_hotpath_sound :
        the_call.1 ≡ ok decision
        → (normalized : String) × IsCallAuthorized state sender key targets size
            (request_of normalized)
            decision
    authorize_relay_hotpath_sound h =
        let (n, sc, e, f, keyed, targeted, small, each) = call_opens h in
        let (context, place, passed, admitted) =
          authorize_each_granted state (request_of n) sc.contexts decision each in
        let (id, version) = admit_decision state (request_of n) context decision admitted in
        (
          n,
          record {
            same_sender = e;
            keyed = keyed;
            targeted = targeted;
            small = small;
            authorized = record {
              subject_contexts = sc;
              context = context;
              stored = f;
              place = place;
              grants = check_context-Grants (request_of n) context passed;
              same_id = id;
              same_version = version;
            };
          },
        )
