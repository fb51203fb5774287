-- ===== src/State/RelayAuth/Completeness.antt =====
-- When a relay command that a context grants is authorised.
use rust_http3_gateway.Prelude.{
  ℕ, ◌≤◌, ℤ, true, false, String, List, [], ◌∷◌, Option, some, lookup, ◌==◌, eq_iff, is_empty,
  is_nil, trim, Unicode, ◌≡◌, refl, subst, ◌⊎◌, inl, inr, Option-cases, Bool-cases, arith, In, here,
  there, In-All, All-lookup,
}
use rust_http3_gateway.Routes.Types.{RelayAuthorizationSpec, same_context_type}
use rust_http3_gateway.State.Types.{
  GatewayState, RelayOperationContext, RelaySubjectContexts, RelayAuthDecision, is_relay_permitted,
  replay_detected, rate_limited, relay_rate_limit_default,
}
use rust_http3_gateway.State.RelayContexts.{sanitize_email}
use rust_http3_gateway.State.RelayContexts.Keys.{HasUniqueKeys, IsKeyed, Differs}
use rust_http3_gateway.State.RelayLimits.{
  Result, ok, err, ensure_relay_replay_fresh, prune_relay_replay_cache, ensure_relay_rate_limit,
  is_replay, current_counter, rate_key, rate_window,
}
use rust_http3_gateway.State.RelayAuth.{
  RelayRequest, skip, pass, replay_key, check_context, check_nonce, admit, authorize_each,
  authorize_subject, is_too_large, authorize_relay_hotpath,
}
use rust_http3_gateway.State.RelayAuth.Soundness.{Grants, request_of}

module _ ⦃u : Unicode⦄ where
  Grants-check_context :
      (request : RelayRequest) (context : RelayOperationContext)
      → Grants request context
      → check_context request context ≡ pass
  unfolding check_context is_relay_permitted
  Grants-check_context request context g = ground (
    arith,
    eq_iff context.operation_key request.operation_key,
    eq_iff context.authorized_subject request.sender,
    g.same_type,
    g.same_key,
    g.family,
    g.bound,
    g.has_grant,
    g.versioned,
    g.same_version,
    g.unexpired,
    g.grant_unexpired,
    g.same_mode,
    g.in_scope,
    g.is_active,
  )

  other_key_skips :
      (request : RelayRequest) (context : RelayOperationContext)
      → (context.operation_key == request.operation_key) ≡ false
      → check_context request context ≡ skip
  unfolding check_context
  other_key_skips request context h = ground arith

  -- The nonce of the request has been seen with this context, and not too long ago.
  abbrev pub IsSeen : GatewayState → RelayRequest → RelayOperationContext → Type 0
  IsSeen state request context =
      (nonce : String) × (request.replay_nonce ≡ some nonce)
      × (is_replay (lookup (replay_key request context (trim nonce)) state.relay_replay_cache)
            request.now_ts
          ≡ true)

  -- How many commands of this kind the window of the request has counted.
  abbrev pub counted : GatewayState → RelayRequest → RelayOperationContext → ℕ
  counted state request context =
      let window = rate_window request.now_ts in
      (current_counter
        (lookup (rate_key request.sender request.command_name context.context_id window)
          state.relay_rate_counters)
        window).count

  abbrev pub decision_of : RelayOperationContext → RelayAuthDecision
  decision_of context = record {
    context_id = context.context_id;
    policy_version = context.policy_version;
  }

  fresh_cases :
      (state : GatewayState) (key : String) (now_ts : ℤ)
      → ((ensure_relay_replay_fresh state key now_ts).1 ≡ ok tt)
        ⊎ ((is_replay (lookup key state.relay_replay_cache) now_ts ≡ true)
            × ((ensure_relay_replay_fresh state key now_ts).1 ≡ err replay_detected))
  unfolding ensure_relay_replay_fresh
  fresh_cases state key now_ts = ground arith

  fresh_counters :
      (state : GatewayState) (key : String) (now_ts : ℤ)
      → (ensure_relay_replay_fresh state key now_ts).0.relay_rate_counters
        ≡ state.relay_rate_counters
  unfolding ensure_relay_replay_fresh prune_relay_replay_cache
  fresh_counters state key now_ts = ground arith

  nonce_counters :
      (state : GatewayState) (request : RelayRequest) (context : RelayOperationContext)
      → (check_nonce state request context).0.relay_rate_counters ≡ state.relay_rate_counters
  unfolding check_nonce
  nonce_counters state request context = elim (Option-cases request.replay_nonce) [
    | inl e ↦ rw e refl
    | inr (nonce, e) ↦ rw e (
        ground
          (arith, fresh_counters state (replay_key request context (trim nonce)) request.now_ts))
  ]

  nonce_cases :
      (state : GatewayState) (request : RelayRequest) (context : RelayOperationContext)
      → ((check_nonce state request context).1 ≡ ok tt)
        ⊎ (IsSeen state request context
            × ((check_nonce state request context).1 ≡ err replay_detected))
  unfolding check_nonce
  nonce_cases state request context = elim (Option-cases request.replay_nonce) [
    | inl e ↦ inl (rw (e, check_nonce) refl)
    | inr (nonce, e) ↦ elim (Bool-cases (is_empty (trim nonce))) [
      | inl blank ↦ inl (rw (e, blank, check_nonce) refl)
      | inr named ↦
          elim (fresh_cases state (replay_key request context (trim nonce)) request.now_ts) [
            | inl fresh ↦ inl (rw (e, named, check_nonce) fresh)
            | inr (seen, refused) ↦ inr ((nonce, e, seen), rw (e, named, check_nonce) refused)
          ]
    ]
  ]

  limit_cases :
      (state : GatewayState) (request : RelayRequest) (context : RelayOperationContext)
      → let r =
          (ensure_relay_rate_limit state request.sender request.command_name context.context_id
            request.now_ts).1 in
        (r ≡ ok tt)
        ⊎ ((relay_rate_limit_default ≤ counted state request context) × (r ≡ err rate_limited))
  unfolding ensure_relay_rate_limit
  limit_cases state request context = ground arith

  -- The outcome for a context that grants the request: it is authorised, or its nonce was seen, or
  -- its window is full.
  abbrev pub IsAdmission :
      GatewayState → RelayRequest → RelayOperationContext → Result RelayAuthDecision → Type 0
  IsAdmission state request context r =
      (r ≡ ok (decision_of context))
      ⊎ ((IsSeen state request context × (r ≡ err replay_detected))
          ⊎ ((relay_rate_limit_default ≤ counted state request context) × (r ≡ err rate_limited)))

  admit-IsAdmission :
      (state : GatewayState) (request : RelayRequest) (context : RelayOperationContext)
      → IsAdmission state request context (admit state request context).1
  unfolding admit
  admit-IsAdmission state request context =
      let noted = (check_nonce state request context).0 in
      let same = nonce_counters state request context in
      elim (nonce_cases state request context) [
        | inr (seen, refused) ↦ inr (inl (seen, rw (refused, admit) refl))
        | inl fresh ↦ elim (limit_cases noted request context) [
          | inl passed ↦ inl (rw (fresh, passed, admit) refl)
          | inr (full, refused) ↦
              inr (inr (rw (same, counted) at full, rw (fresh, refused, admit) refl))
        ]
      ]

  each-IsAdmission :
      (state : GatewayState) (request : RelayRequest) (contexts : List RelayOperationContext)
      (context : RelayOperationContext)
      → HasUniqueKeys contexts
      → In context contexts
      → Grants request context
      → IsAdmission state request context (authorize_each state request contexts).1
  unfolding authorize_each
  each-IsAdmission state request [] context h i g = elim i [ ]
  each-IsAdmission state request (c ∷ rest) context h (here e) g =
      let granted : Grants request c = subst (Grants request) e g in
      rw e (
        rw (Grants-check_context request c granted, authorize_each)
          (admit-IsAdmission state request c))
  each-IsAdmission state request (c ∷ rest) context h (there i) g =
      let differs : Differs c context = In-All (Differs c) context rest h.0 i in
      let other : (c.operation_key == request.operation_key) ≡ false =
        ground (arith, eq_iff c.operation_key request.operation_key, differs, g.same_key) in
      rw (other_key_skips request c other, authorize_each)
        (each-IsAdmission state request rest context h.1 i g)

  -- Where the contexts of each subject have distinct operation keys, and a sender that is named, an
  -- operation key, a target and a payload within the limit are given: if a context that is stored
  -- for the normalised sender, in a record of the command's type, grants the request, the call
  -- returns the decision with its id and policy version, unless the nonce has been seen with this
  -- context in the last ten minutes or the window has counted 240 commands.
  pub authorize_relay_hotpath-IsAdmission :
      (state : GatewayState) (sender command : String) (spec : RelayAuthorizationSpec)
      (key : String) (targets : List String) (replay_nonce : Option String) (size : Option ℕ)
      (now_ts : ℤ) (normalized : String) (stored : RelaySubjectContexts)
      (context : RelayOperationContext)
      → IsKeyed state.relay_contexts_by_subject
      → sanitize_email sender ≡ some normalized
      → is_empty (trim key) ≡ false
      → is_nil targets ≡ false
      → is_too_large size ≡ false
      → lookup normalized state.relay_contexts_by_subject ≡ some stored
      → same_context_type stored.context_type spec.relay_context_type ≡ true
      → In context stored.contexts
      → Grants
          (request_of state sender command spec key targets replay_nonce size now_ts
            (decision_of context)
            normalized)
          context
      → IsAdmission state
          (request_of state sender command spec key targets replay_nonce size now_ts
            (decision_of context)
            normalized)
          context
          (authorize_relay_hotpath state sender command spec key targets replay_nonce size now_ts).1
  unfolding authorize_relay_hotpath authorize_subject
  authorize_relay_hotpath-IsAdmission state sender command spec key targets replay_nonce size now_ts
        n stored context keyed named has_key targeted small found same_type i g =
      rw
        (
          named, has_key, targeted, small, found, same_type, authorize_relay_hotpath,
          authorize_subject,
        )
        (each-IsAdmission state _ stored.contexts context
          (All-lookup (λ e. HasUniqueKeys e.1.contexts) n stored state.relay_contexts_by_subject
            keyed found)
          i g)
