-- ===== src/State/Invariant/Relay.antt =====
-- The operations on relay contexts keep the state well formed.
use rust_http3_gateway.Prelude.{
  remove_all-Distinct, ℕ, ℤ, not, String, List, [], ◌∷◌, Option, none, some, lookup, keys,
  insert-Distinct, is_empty, is_nil, trim, leb, length, older_than, retain, if_both, ◌≡◌, refl, inl,
  inr, ◌⊎◌, Unicode, Option-cases,
}
use rust_http3_gateway.Routes.Types.{RelayAuthorizationSpec, same_context_type}
use rust_http3_gateway.State.Types.{
  GatewayState, RelayOperationContext, RelaySubjectContexts, RelayAuthError, RelayAuthDecision,
  RelayContextSnapshot, relay_replay_cache_max, relay_replay_ttl_seconds, relay_rate_limit_default,
}
use rust_http3_gateway.State.RelayContexts.{
  sanitize_email, carry_over, apply_relay_context_snapshot, store_contexts,
}
use rust_http3_gateway.State.RelayContexts.Laws.{store_contexts-IsOwned}
use rust_http3_gateway.State.RelayContexts.Keys.{store_contexts-IsKeyed}
use rust_http3_gateway.State.RelayLimits.{
  Result, ok, err, prune_relay_replay_cache, ensure_relay_replay_fresh, is_replay, rate_key,
  rate_window, current_counter, ensure_relay_rate_limit,
}
use rust_http3_gateway.State.RelayAuth.{
  RelayRequest, check_context, replay_key, check_nonce, admit, authorize_each, authorize_subject,
  is_too_large, authorize_relay_hotpath,
}
use rust_http3_gateway.State.RelayAuth.Soundness.{check_cases}
use rust_http3_gateway.State.Invariant.{IsWellFormed}

prune_relay_replay_cache-IsWellFormed :
    (s : GatewayState) (now_ts : ℤ)
    → IsWellFormed s
    → IsWellFormed (prune_relay_replay_cache s now_ts)
unfolding prune_relay_replay_cache
prune_relay_replay_cache-IsWellFormed s now_ts (i, b, r, c, o, k, n) =
    if_both IsWellFormed (leb (length s.relay_replay_cache) relay_replay_cache_max)
      (i, b, r, c, o, k, n)
      (
        i,
        b,
        r,
        remove_all-Distinct
            (keys (
              retain (λ e. older_than relay_replay_ttl_seconds now_ts e.1.seen_at)
                s.relay_replay_cache))
            s.relay_replay_cache c,
        o,
        k,
        n,
      )

ensure_relay_replay_fresh-IsWellFormed :
    (s : GatewayState) (key : String) (now_ts : ℤ)
    → IsWellFormed s
    → IsWellFormed (ensure_relay_replay_fresh s key now_ts).0
unfolding ensure_relay_replay_fresh
ensure_relay_replay_fresh-IsWellFormed s key now_ts (i, b, r, c, o, k, n) =
    if_both (λ (x : GatewayState × Result (Unit {0})). IsWellFormed x.0) (is_empty (trim key))
      (i, b, r, c, o, k, n)
      (if_both (λ (x : GatewayState × Result (Unit {0})). IsWellFormed x.0)
        (is_replay (lookup key s.relay_replay_cache) now_ts) (i, b, r, c, o, k, n)
        (prune_relay_replay_cache-IsWellFormed _ now_ts
          (i, b, r, insert-Distinct key _ s.relay_replay_cache c, o, k, n)))

module _ ⦃u : Unicode⦄ where
  ensure_relay_rate_limit-IsWellFormed :
      (s : GatewayState) (sender command context : String) (now_ts : ℤ)
      → IsWellFormed s
      → IsWellFormed (ensure_relay_rate_limit s sender command context now_ts).0
  unfolding ensure_relay_rate_limit
  ensure_relay_rate_limit-IsWellFormed s sender command context now_ts h =
      if_both (λ (x : GatewayState × Result (Unit {0})). IsWellFormed x.0)
        (leb relay_rate_limit_default
          (current_counter
            (lookup (rate_key sender command context (rate_window now_ts)) s.relay_rate_counters)
            (rate_window now_ts)).count)
        h h

  check_nonce-IsWellFormed :
      (s : GatewayState) (request : RelayRequest) (context : RelayOperationContext)
      → IsWellFormed s
      → IsWellFormed (check_nonce s request context).0
  unfolding check_nonce
  check_nonce-IsWellFormed s request context h = elim (Option-cases request.replay_nonce) [
    | inl missing ↦ rw (missing, check_nonce) h
    | inr (replay_nonce, e) ↦
        rw (e, check_nonce)
          (if_both (λ (x : GatewayState × Result (Unit {0})). IsWellFormed x.0)
            (is_empty (trim replay_nonce)) h
            (ensure_relay_replay_fresh-IsWellFormed s
              (replay_key request context (trim replay_nonce)) request.now_ts h))
  ]

  Result-cases :
      {A : Type 0} (r : Result A) → ((a : A) × (r ≡ ok a)) ⊎ ((e : RelayAuthError) × (r ≡ err e))
  Result-cases (ok a) = inl (a, refl)
  Result-cases (err e) = inr (e, refl)

  admit-IsWellFormed :
      (s : GatewayState) (request : RelayRequest) (context : RelayOperationContext)
      → IsWellFormed s
      → IsWellFormed (admit s request context).0
  unfolding admit
  admit-IsWellFormed s request context h =
      let noted = check_nonce-IsWellFormed s request context h in
      let counted =
        ensure_relay_rate_limit-IsWellFormed (check_nonce s request context).0 request.sender
          request.command_name context.context_id request.now_ts noted in
      elim (Result-cases (check_nonce s request context).1) [
        | inr (e, stale) ↦ rw (stale, admit) noted
        | inl (x, fresh) ↦
            elim (Result-cases
              (ensure_relay_rate_limit (check_nonce s request context).0 request.sender
                request.command_name context.context_id request.now_ts).1) [
                  | inr (e, limited) ↦ rw (fresh, limited, admit) counted
                  | inl (y, passed) ↦ rw (fresh, passed, admit) counted
                ]
      ]

  authorize_each-IsWellFormed :
      (s : GatewayState) (request : RelayRequest) (contexts : List RelayOperationContext)
      → IsWellFormed s
      → IsWellFormed (authorize_each s request contexts).0
  unfolding authorize_each
  authorize_each-IsWellFormed s request [] h = h
  authorize_each-IsWellFormed s request (c ∷ rest) h =
      elim (check_cases (check_context request c)) [
        | inl passed ↦ rw (passed, authorize_each) (admit-IsWellFormed s request c h)
        | inr (inl skipped) ↦
            rw (skipped, authorize_each) (authorize_each-IsWellFormed s request rest h)
        | inr (inr (e, refused)) ↦ rw (refused, authorize_each) h
      ]

  authorize_subject-IsWellFormed :
      (s : GatewayState) (request : RelayRequest) (found : Option RelaySubjectContexts)
      → IsWellFormed s
      → IsWellFormed (authorize_subject s request found).0
  unfolding authorize_subject
  authorize_subject-IsWellFormed s request none h = h
  authorize_subject-IsWellFormed s request (some sc) h =
      if_both (λ (x : GatewayState × Result RelayAuthDecision). IsWellFormed x.0)
        (not (same_context_type sc.context_type request.auth_spec.relay_context_type)) h
        (authorize_each-IsWellFormed s request sc.contexts h)

  pub authorize_relay_hotpath-IsWellFormed :
      (s : GatewayState) (sender command : String) (spec : RelayAuthorizationSpec) (key : String)
      (targets : List String) (replay_nonce : Option String) (size : Option ℕ) (now_ts : ℤ)
      → IsWellFormed s
      → IsWellFormed
          (authorize_relay_hotpath s sender command spec key targets replay_nonce size now_ts).0
  unfolding authorize_relay_hotpath
  authorize_relay_hotpath-IsWellFormed s sender command spec key targets replay_nonce size now_ts
        h =
      let Kept = λ (x : GatewayState × Result RelayAuthDecision). IsWellFormed x.0 in
      elim (Option-cases (sanitize_email sender)) [
        | inl missing ↦ rw (missing, authorize_relay_hotpath) h
        | inr (n, named) ↦
            rw (named, authorize_relay_hotpath)
              (if_both Kept (is_empty (trim key)) h (
                if_both Kept (is_nil targets) h (
                  if_both Kept (is_too_large size) h
                    (authorize_subject-IsWellFormed s _ (lookup n s.relay_contexts_by_subject) h))))
      ]

  store_contexts-IsWellFormed :
      (s : GatewayState) (snapshot : RelayContextSnapshot) (subject : String) (now_ts : ℤ)
      → IsWellFormed s
      → IsWellFormed (store_contexts now_ts snapshot subject s)
  unfolding store_contexts
  store_contexts-IsWellFormed s snapshot subject now_ts (i, b, r, c, o, k, n) =
      let owned = store_contexts-IsOwned now_ts snapshot subject s o in
      let keyed = store_contexts-IsKeyed now_ts snapshot subject s k in
      elim (Option-cases
        (carry_over now_ts snapshot (lookup subject s.relay_contexts_by_subject))) [
          | inl outdated ↦ rw (outdated, store_contexts) (i, b, r, c, o, k, n)
          | inr ((version, kept), e) ↦
              rw (e, store_contexts)
                (i, b, r, c, rw (e, store_contexts) at owned, rw (e, store_contexts) at keyed, n)
        ]

  pub apply_relay_context_snapshot-IsWellFormed :
      (s : GatewayState) (snapshot : RelayContextSnapshot) (now_ts : ℤ)
      → IsWellFormed s
      → IsWellFormed (apply_relay_context_snapshot s snapshot now_ts)
  unfolding apply_relay_context_snapshot
  apply_relay_context_snapshot-IsWellFormed s snapshot now_ts h =
      elim (Option-cases (sanitize_email snapshot.subject_email)) [
        | inl missing ↦ rw (missing, apply_relay_context_snapshot) h
        | inr (subject, named) ↦
            rw (named, apply_relay_context_snapshot)
              (store_contexts-IsWellFormed s snapshot subject now_ts h)
      ]
