-- ===== src/State/RelayAuth/Frame.antt =====
-- state.rs: an authorization changes the replay cache and the rate counters, and nothing else.
use rust_http3_gateway.Prelude.{
  ℕ, ℤ, not, String, List, [], ◌∷◌, Option, none, some, lookup, Map, is_empty, is_nil, trim, leb,
  length, if_both, ◌≡◌, refl, inl, inr, ◌⊎◌, Unicode, Option-cases,
}
use rust_http3_gateway.Routes.Types.{RelayAuthorizationSpec, same_context_type}
use rust_http3_gateway.State.Types.{
  GatewayState, RelayOperationContext, RelaySubjectContexts, RelayReplayEntry, RelayRateCounter,
  RelayAuthError, RelayAuthDecision, relay_replay_cache_max, relay_rate_limit_default,
}
use rust_http3_gateway.State.RelayContexts.{sanitize_email}
use rust_http3_gateway.State.RelayLimits.{
  Result, ok, err, prune_relay_replay_cache, ensure_relay_replay_fresh, is_replay, rate_key,
  rate_window, current_counter, ensure_relay_rate_limit,
}
use rust_http3_gateway.State.RelayAuth.{
  RelayRequest, check_context, replay_key, check_nonce, admit, authorize_each, authorize_subject,
  is_too_large, authorize_relay_hotpath,
}
use rust_http3_gateway.State.RelayAuth.Soundness.{check_cases}

Result-cases :
    {A : Type 0} (r : Result A) → ((a : A) × (r ≡ ok a)) ⊎ ((e : RelayAuthError) × (r ≡ err e))
Result-cases (ok a) = inl (a, refl)
Result-cases (err e) = inr (e, refl)

-- `P` is any property of a state that does not depend on the two.
module _ ⦃u : Unicode⦄ (P : GatewayState → Type 0)
    (replay : (s : GatewayState) (c : Map RelayReplayEntry)
      → P s
      → P (record s { relay_replay_cache = c }))
    (counters : (s : GatewayState) (c : Map RelayRateCounter)
      → P s
      → P (record s { relay_rate_counters = c })) where
  prune_keeps : (s : GatewayState) (now_ts : ℤ) → P s → P (prune_relay_replay_cache s now_ts)
  unfolding prune_relay_replay_cache
  prune_keeps s now_ts h =
      if_both P (leb (length s.relay_replay_cache) relay_replay_cache_max) h (replay s _ h)

  fresh_keeps :
      (s : GatewayState) (key : String) (now_ts : ℤ)
      → P s
      → P (ensure_relay_replay_fresh s key now_ts).0
  unfolding ensure_relay_replay_fresh
  fresh_keeps s key now_ts h =
      let Kept = λ (x : GatewayState × Result (Unit {0})). P x.0 in
      if_both Kept (is_empty (trim key)) h (
        if_both Kept (is_replay (lookup key s.relay_replay_cache) now_ts) h
          (prune_keeps _ now_ts (replay s _ h)))

  limit_keeps :
      (s : GatewayState) (sender command context : String) (now_ts : ℤ)
      → P s
      → P (ensure_relay_rate_limit s sender command context now_ts).0
  unfolding ensure_relay_rate_limit
  limit_keeps s sender command context now_ts h =
      if_both (λ (x : GatewayState × Result (Unit {0})). P x.0)
        (leb relay_rate_limit_default
          (current_counter
            (lookup (rate_key sender command context (rate_window now_ts)) s.relay_rate_counters)
            (rate_window now_ts)).count)
        (counters s _ h) (counters s _ h)

  nonce_keeps :
      (s : GatewayState) (request : RelayRequest) (context : RelayOperationContext)
      → P s
      → P (check_nonce s request context).0
  unfolding check_nonce
  nonce_keeps s request context h = elim (Option-cases request.replay_nonce) [
    | inl missing ↦ rw (missing, check_nonce) h
    | inr (replay_nonce, e) ↦
        rw (e, check_nonce)
          (if_both (λ (x : GatewayState × Result (Unit {0})). P x.0) (is_empty (trim replay_nonce))
            h (fresh_keeps s (replay_key request context (trim replay_nonce)) request.now_ts h))
  ]

  admit_keeps :
      (s : GatewayState) (request : RelayRequest) (context : RelayOperationContext)
      → P s
      → P (admit s request context).0
  unfolding admit
  admit_keeps s request context h =
      let noted = nonce_keeps s request context h in
      let limit =
        ensure_relay_rate_limit (check_nonce s request context).0 request.sender
          request.command_name context.context_id request.now_ts in
      let counted : P limit.0 =
        limit_keeps (check_nonce s request context).0 request.sender request.command_name
          context.context_id request.now_ts noted in
      elim (Result-cases (check_nonce s request context).1) [
        | inr (e, stale) ↦ rw (stale, admit) noted
        | inl (x, fresh) ↦ elim (Result-cases limit.1) [
          | inr (e, limited) ↦ rw (fresh, limited, admit) counted
          | inl (y, passed) ↦ rw (fresh, passed, admit) counted
        ]
      ]

  each_keeps :
      (s : GatewayState) (request : RelayRequest) (contexts : List RelayOperationContext)
      → P s
      → P (authorize_each s request contexts).0
  unfolding authorize_each
  each_keeps s request [] h = h
  each_keeps s request (c ∷ rest) h = elim (check_cases (check_context request c)) [
    | inl passed ↦ rw (passed, authorize_each) (admit_keeps s request c h)
    | inr (inl skipped) ↦ rw (skipped, authorize_each) (each_keeps s request rest h)
    | inr (inr (e, refused)) ↦ rw (refused, authorize_each) h
  ]

  subject_keeps :
      (s : GatewayState) (request : RelayRequest) (found : Option RelaySubjectContexts)
      → P s
      → P (authorize_subject s request found).0
  unfolding authorize_subject
  subject_keeps s request none h = h
  subject_keeps s request (some sc) h =
      if_both (λ (x : GatewayState × Result RelayAuthDecision). P x.0)
        (not (same_context_type sc.context_type request.auth_spec.relay_context_type)) h
        (each_keeps s request sc.contexts h)

  pub authorize_relay_hotpath_keeps :
      (s : GatewayState) (sender command : String) (spec : RelayAuthorizationSpec) (key : String)
      (targets : List String) (replay_nonce : Option String) (size : Option ℕ) (now_ts : ℤ)
      → P s
      → P (authorize_relay_hotpath s sender command spec key targets replay_nonce size now_ts).0
  unfolding authorize_relay_hotpath
  authorize_relay_hotpath_keeps s sender command spec key targets replay_nonce size now_ts h =
      let Kept = λ (x : GatewayState × Result RelayAuthDecision). P x.0 in
      elim (Option-cases (sanitize_email sender)) [
        | inl missing ↦ rw (missing, authorize_relay_hotpath) h
        | inr (n, named) ↦
            rw (named, authorize_relay_hotpath)
              (if_both Kept (is_empty (trim key)) h (
                if_both Kept (is_nil targets) h (
                  if_both Kept (is_too_large size) h
                    (subject_keeps s _ (lookup n s.relay_contexts_by_subject) h))))
      ]
