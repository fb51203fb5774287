-- ===== src/State/RelayAuth/Retry.antt =====
-- What becomes of a request whose nonce is in the replay cache, at a later time.
use rust_http3_gateway.Prelude.{
  ℤ, false, String, List, [], ◌∷◌, some, lookup, is_empty, trim, Unicode, older_than,
  concat_with_bar, ◌∙◌, ◌≡◌, refl, ◌≢◌, ◌⊎◌, inl, inr, arith,
}
use rust_http3_gateway.State.Types.{
  GatewayState, RelayOperationContext, RelayAuthDecision, RelayAuthError, rate_limited,
  grant_expired, replay_detected, relay_replay_ttl_seconds,
}
use rust_http3_gateway.State.RelayLimits.{Result, ok, err}
use rust_http3_gateway.State.RelayLimits.Laws.{ensure_relay_replay_fresh_refuses}
use rust_http3_gateway.State.RelayAuth.{
  RelayRequest, skip, refuse, pass, check_context, replay_key, check_nonce, admit, authorize_each,
}
use rust_http3_gateway.State.RelayAuth.Soundness.{check_cases}

-- The same request at a later time.
abbrev pub later_at : ℤ → RelayRequest → RelayRequest
later_at now_ts request = record request { now_ts = now_ts }

-- A result that lets nothing through.
abbrev pub IsRefused : Result RelayAuthDecision → Type 0
IsRefused (ok decision) = ⊥
IsRefused (err e) = Unit

module _ ⦃u : Unicode⦄ where
  -- Time can only turn a context that passes, or is passed over, into an expired one.
  pub check_context-later :
      (request : RelayRequest) (context : RelayOperationContext) (now_ts : ℤ)
      → (check_context (later_at now_ts request) context ≡ check_context request context)
        ⊎ ((check_context (later_at now_ts request) context ≡ refuse grant_expired)
            ⊎ (check_context request context ≡ refuse grant_expired))
  unfolding check_context
  check_context-later request context now_ts = ground arith

  pub check_nonce_refuses :
      (state : GatewayState) (request : RelayRequest) (context : RelayOperationContext)
      (nonce : String) (seen_at : ℤ)
      → request.replay_nonce ≡ some nonce
      → is_empty (trim nonce) ≡ false
      → is_empty (trim (replay_key request context (trim nonce))) ≡ false
      → lookup (replay_key request context (trim nonce)) state.relay_replay_cache
        ≡ some (record { seen_at = seen_at })
      → older_than relay_replay_ttl_seconds request.now_ts seen_at ≡ false
      → check_nonce state request context ≡ (state, err replay_detected)
  unfolding check_nonce
  check_nonce_refuses state request context nonce seen_at has named keyed e young =
      rw (has, named) (ensure_relay_replay_fresh_refuses state _ _ request.now_ts keyed e young)

  -- The nonce of the request is in the cache, under the key that the context gives it.
  pub record IsNoted (state : GatewayState) (request : RelayRequest)
      (context : RelayOperationContext) (nonce : String) (seen_at : ℤ) : Type 0 where
    pub has : request.replay_nonce ≡ some nonce
    pub named : is_empty (trim nonce) ≡ false
    pub noted :
        lookup (replay_key request context (trim nonce)) state.relay_replay_cache
        ≡ some (record { seen_at = seen_at })

  pub admit_refuses :
      (state : GatewayState) (request : RelayRequest) (context : RelayOperationContext)
      (nonce : String) (seen_at : ℤ)
      → IsNoted state request context nonce seen_at
      → older_than relay_replay_ttl_seconds request.now_ts seen_at ≡ false
      → (admit state request context).1 ≡ err replay_detected
  unfolding admit
  admit_refuses state request context nonce seen_at n young = rw (
    check_nonce_refuses state request context nonce seen_at n.has n.named
        (concat_with_bar request.sender _) n.noted young,
    admit,
  )

  -- The first context that is not passed over lets the request through to the stateful checks.
  abbrev pub Selected : RelayRequest → List RelayOperationContext → RelayOperationContext → Type 0
  Selected request [] context = ⊥
  Selected request (c ∷ rest) context =
      ((check_context request c ≡ pass) × (c ≡ context))
      ⊎ ((check_context request c ≡ skip) × Selected request rest context)

  -- The call came as far as the stateful checks, and the nonce was not seen before.
  abbrev pub IsReached : Result RelayAuthDecision → Type 0
  IsReached result = ((d : RelayAuthDecision) × (result ≡ ok d)) ⊎ (result ≡ err rate_limited)

  pub check_context-ne-rate_limited :
      (request : RelayRequest) (context : RelayOperationContext)
      → check_context request context ≢ refuse rate_limited
  unfolding check_context
  check_context-ne-rate_limited request context h = ground arith

  pub authorize_each_selects :
      (state : GatewayState) (request : RelayRequest) (contexts : List RelayOperationContext)
      → IsReached (authorize_each state request contexts).1
      → (context : RelayOperationContext) × Selected request contexts context
        × (authorize_each state request contexts ≡ admit state request context)
  unfolding authorize_each
  authorize_each_selects state request [] (inl (d, e)) = cc
  authorize_each_selects state request [] (inr e) = cc
  authorize_each_selects state request (c ∷ rest) h = elim (check_cases (check_context request c)) [
    | inl passed ↦ (c, inl (passed, refl), rw (passed, authorize_each))
    | inr (inl skipped) ↦
        let (context, chosen, e) =
          authorize_each_selects state request rest (rw (skipped, authorize_each) at h) in
        (context, inr (skipped, chosen), rw (skipped, authorize_each) e)
    | inr (inr (e, refused)) ↦
        let g : IsReached (err e) = rw (refused, authorize_each) at h in
        absurd (check_context-ne-rate_limited request c (not_reached e g refused))
  ]
    where
      not_reached :
          (e : RelayAuthError)
          → IsReached (err e)
          → check_context request c ≡ refuse e
          → check_context request c ≡ refuse rate_limited
      not_reached e (inl (d, eq)) refused = cc
      not_reached e (inr eq) refused = cc

  pub authorize_each_refuses :
      (state : GatewayState) (request : RelayRequest) (now_ts seen_at : ℤ) (nonce : String)
      (contexts : List RelayOperationContext) (context : RelayOperationContext)
      → Selected request contexts context
      → IsNoted state (later_at now_ts request) context nonce seen_at
      → older_than relay_replay_ttl_seconds now_ts seen_at ≡ false
      → IsRefused (authorize_each state (later_at now_ts request) contexts).1
  unfolding authorize_each
  authorize_each_refuses state request now_ts seen_at nonce [] context chosen n young =
      absurd chosen
  authorize_each_refuses state request now_ts seen_at nonce (c ∷ rest) context (inl (passed, same))
        n young =
      elim (check_context-later request c now_ts) [
        | inl e ↦
            let here : check_context (later_at now_ts request) c ≡ pass = e ∙ passed in
            rw (here, authorize_each)
              (rw same (
                rw (admit_refuses state (later_at now_ts request) context nonce seen_at n young)
                  tt))
        | inr (inl expired) ↦ rw (expired, authorize_each) tt
        | inr (inr e) ↦ cc
      ]
  authorize_each_refuses state request now_ts seen_at nonce (c ∷ rest) context
        (inr (skipped, chosen)) n young =
      elim (check_context-later request c now_ts) [
        | inl e ↦
            let here : check_context (later_at now_ts request) c ≡ skip = e ∙ skipped in
            rw (here, authorize_each)
              (authorize_each_refuses state request now_ts seen_at nonce rest context chosen n
                young)
        | inr (inl expired) ↦ rw (expired, authorize_each) tt
        | inr (inr e) ↦ cc
      ]
