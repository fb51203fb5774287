-- ===== src/State/RelayAuth/Notes.antt =====
-- What the stateful checks of an admitted request leave behind.
use rust_http3_gateway.Prelude.{
  ℤ, false, String, some, lookup, is_empty, trim, Unicode, concat_with_bar, Option-cases, Distinct,
  ◌≡◌, refl, ◌⊎◌, inl, inr, arith,
}
use rust_http3_gateway.State.Types.{GatewayState, RelayOperationContext, replay_detected}
use rust_http3_gateway.State.RelayLimits.{
  ok, err, ensure_relay_replay_fresh, ensure_relay_rate_limit,
}
use rust_http3_gateway.State.RelayLimits.Laws.{ensure_relay_replay_fresh_records}
use rust_http3_gateway.State.RelayAuth.{RelayRequest, replay_key, check_nonce, admit}
use rust_http3_gateway.State.RelayAuth.Retry.{IsNoted, IsReached}

module _ ⦃u : Unicode⦄ where
  pub rate_limit_frame :
      (state : GatewayState) (sender command context : String) (now_ts : ℤ)
      → let after = (ensure_relay_rate_limit state sender command context now_ts).0 in
        (after.relay_replay_cache ≡ state.relay_replay_cache)
        × (after.relay_contexts_by_subject ≡ state.relay_contexts_by_subject)
  unfolding ensure_relay_rate_limit
  rate_limit_frame state sender command context now_ts = (ground arith, ground arith)

  pub ensure_fresh_frame :
      (state : GatewayState) (key : String) (now_ts : ℤ)
      → (ensure_relay_replay_fresh state key now_ts).0.relay_contexts_by_subject
        ≡ state.relay_contexts_by_subject
  unfolding ensure_relay_replay_fresh
  ensure_fresh_frame state key now_ts = ground arith

  pub check_nonce_records :
      (state : GatewayState) (request : RelayRequest) (context : RelayOperationContext)
      (nonce : String)
      → Distinct state.relay_replay_cache
      → request.replay_nonce ≡ some nonce
      → is_empty (trim nonce) ≡ false
      → (check_nonce state request context).1 ≡ ok tt
      → lookup
          (replay_key request context (trim nonce))
          (check_nonce state request context).0.relay_replay_cache
        ≡ some (record { seen_at = request.now_ts })
  unfolding check_nonce
  check_nonce_records state request context nonce d has named passed =
      rw (has, named)
        (ensure_relay_replay_fresh_records state (replay_key request context (trim nonce))
          request.now_ts d (concat_with_bar request.sender _) (rw (has, named) at passed))

  pub check_nonce_frame :
      (state : GatewayState) (request : RelayRequest) (context : RelayOperationContext)
      → (check_nonce state request context).0.relay_contexts_by_subject
        ≡ state.relay_contexts_by_subject
  unfolding check_nonce
  check_nonce_frame state request context = elim (Option-cases request.replay_nonce) [
    | inl e ↦ rw e
    | inr (nonce, e) ↦ rw e (
        ground (
          arith,
          ensure_fresh_frame state (replay_key request context (trim nonce)) request.now_ts,
        ))
  ]

  pub ensure_fresh_result :
      (state : GatewayState) (key : String) (now_ts : ℤ)
      → ((ensure_relay_replay_fresh state key now_ts).1 ≡ ok tt)
        ⊎ ((ensure_relay_replay_fresh state key now_ts).1 ≡ err replay_detected)
  unfolding ensure_relay_replay_fresh
  ensure_fresh_result state key now_ts = ground arith

  pub check_nonce_result :
      (state : GatewayState) (request : RelayRequest) (context : RelayOperationContext)
      → ((check_nonce state request context).1 ≡ ok tt)
        ⊎ ((check_nonce state request context).1 ≡ err replay_detected)
  unfolding check_nonce
  check_nonce_result state request context = elim (Option-cases request.replay_nonce) [
    | inl e ↦ rw e (inl refl)
    | inr (nonce, e) ↦ rw e (
        ground (
          arith,
          ensure_fresh_result state (replay_key request context (trim nonce)) request.now_ts,
        ))
  ]

  pub admit_passed :
      (state : GatewayState) (request : RelayRequest) (context : RelayOperationContext)
      → IsReached (admit state request context).1
      → (check_nonce state request context).1 ≡ ok tt
  unfolding admit
  admit_passed state request context reached = elim (check_nonce_result state request context) [
    | inl passed ↦ passed
    | inr refused ↦ absurd (not_reached (rw (refused, admit) at reached))
  ]
    where
      not_reached : IsReached (err replay_detected) → ⊥
      not_reached (inl (d, e)) = cc
      not_reached (inr e) = cc

  pub admit_reached :
      (state : GatewayState) (request : RelayRequest) (context : RelayOperationContext)
      → IsReached (admit state request context).1
      → ((check_nonce state request context).1 ≡ ok tt)
        × ((admit state request context).0.relay_replay_cache
            ≡ (check_nonce state request context).0.relay_replay_cache)
  unfolding admit
  admit_reached state request context reached =
      let noted = (check_nonce state request context).0 in
      (
        admit_passed state request context reached,
        ground (
          arith,
          rate_limit_frame noted request.sender request.command_name context.context_id
              request.now_ts,
        ),
      )

  -- A call that comes as far as the stateful checks and passes the replay check notes its nonce.
  pub admit_notes :
      (state : GatewayState) (request : RelayRequest) (context : RelayOperationContext)
      (nonce : String)
      → Distinct state.relay_replay_cache
      → request.replay_nonce ≡ some nonce
      → is_empty (trim nonce) ≡ false
      → IsReached (admit state request context).1
      → IsNoted (admit state request context).0 request context nonce request.now_ts
  admit_notes state request context nonce d has named reached =
      let (passed, same) = admit_reached state request context reached in
      record {
        has = has;
        named = named;
        noted = rw same (check_nonce_records state request context nonce d has named passed);
      }

  pub admit_frame :
      (state : GatewayState) (request : RelayRequest) (context : RelayOperationContext)
      → (admit state request context).0.relay_contexts_by_subject ≡ state.relay_contexts_by_subject
  unfolding admit
  admit_frame state request context =
      let noted = (check_nonce state request context).0 in
      ground (
        arith,
        check_nonce_frame state request context,
        rate_limit_frame noted request.sender request.command_name context.context_id
            request.now_ts,
      )
