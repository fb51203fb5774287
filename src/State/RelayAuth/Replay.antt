-- ===== src/State/RelayAuth/Replay.antt =====
-- A nonce passes once in ten minutes, whatever becomes of the command that carried it.
use rust_http3_gateway.Prelude.{
  ℕ, ℤ, true, false, String, List, Option, none, some, lookup, is_empty, is_nil, trim, Unicode,
  older_than, ◌∙◌, Option-cases, Distinct, ◌≡◌, refl, inl, inr, arith,
}
use rust_http3_gateway.Routes.Types.{RelayAuthorizationSpec, same_context_type}
use rust_http3_gateway.State.Types.{
  GatewayState, RelaySubjectContexts, RelayAuthDecision, relay_replay_ttl_seconds,
}
use rust_http3_gateway.State.RelayContexts.{sanitize_email}
use rust_http3_gateway.State.RelayLimits.{Result}
use rust_http3_gateway.State.RelayAuth.{
  RelayRequest, authorize_each, authorize_subject, authorize_relay_hotpath, is_too_large,
}
use rust_http3_gateway.State.RelayAuth.Retry.{
  IsRefused, IsReached, authorize_each_selects, authorize_each_refuses,
}
use rust_http3_gateway.State.RelayAuth.Notes.{admit_notes, admit_frame}

module _ ⦃u : Unicode⦄ (sender command_name : String) (auth_spec : RelayAuthorizationSpec)
    (operation_key : String) (target_emails : List String) (nonce : String) (size : Option ℕ) where
  -- The call with a nonce, at a time.
  abbrev pub call : GatewayState → ℤ → GatewayState × Result RelayAuthDecision
  call state now_ts =
      authorize_relay_hotpath state sender command_name auth_spec operation_key target_emails
        (some nonce) size now_ts

  abbrev request_at : String → ℤ → RelayRequest
  request_at normalized now_ts = record {
    sender = normalized;
    command_name = command_name;
    auth_spec = auth_spec;
    operation_key = trim operation_key;
    target_emails = target_emails;
    replay_nonce = some nonce;
    now_ts = now_ts;
  }

  -- What a call comes down to, once its arguments are found well formed.
  record IsWellFormed (state : GatewayState) : Type 0 where
    normalized : String
    subject_contexts : RelaySubjectContexts
    same_sender : sanitize_email sender ≡ some normalized
    stored : lookup normalized state.relay_contexts_by_subject ≡ some subject_contexts
    reduces :
        (after : GatewayState) (now_ts : ℤ)
        → after.relay_contexts_by_subject ≡ state.relay_contexts_by_subject
        → call after now_ts
          ≡ authorize_each after (request_at normalized now_ts) subject_contexts.contexts

  call_reduces :
      (state : GatewayState) (now_ts : ℤ) (normalized : String) (sc : RelaySubjectContexts)
      → sanitize_email sender ≡ some normalized
      → lookup normalized state.relay_contexts_by_subject ≡ some sc
      → is_empty (trim operation_key) ≡ false
      → is_nil target_emails ≡ false
      → is_too_large size ≡ false
      → same_context_type sc.context_type auth_spec.relay_context_type ≡ true
      → call state now_ts ≡ authorize_each state (request_at normalized now_ts) sc.contexts
  unfolding authorize_relay_hotpath authorize_subject
  call_reduces state now_ts normalized sc e f key targets small type = ground arith

  -- The tests that come before the loop have passed.
  call_tests :
      (state : GatewayState) (now_ts : ℤ) (normalized : String) (sc : RelaySubjectContexts)
      → sanitize_email sender ≡ some normalized
      → lookup normalized state.relay_contexts_by_subject ≡ some sc
      → IsReached (call state now_ts).1
      → (is_empty (trim operation_key) ≡ false)
        × (is_nil target_emails ≡ false)
        × (is_too_large size ≡ false)
        × (same_context_type sc.context_type auth_spec.relay_context_type ≡ true)
  unfolding authorize_relay_hotpath authorize_subject
  call_tests state now_ts normalized sc e f reached =
      (ground arith, ground arith, ground arith, ground arith)

  call_without_sender :
      (state : GatewayState) (now_ts : ℤ)
      → sanitize_email sender ≡ none
      → IsReached (call state now_ts).1
      → ⊥
  unfolding authorize_relay_hotpath
  call_without_sender state now_ts e reached = ground arith

  call_without_contexts :
      (state : GatewayState) (now_ts : ℤ) (normalized : String)
      → sanitize_email sender ≡ some normalized
      → lookup normalized state.relay_contexts_by_subject ≡ none
      → IsReached (call state now_ts).1
      → ⊥
  unfolding authorize_relay_hotpath authorize_subject
  call_without_contexts state now_ts normalized e f reached = ground arith

  call-IsWellFormed :
      (state : GatewayState) (now_ts : ℤ) → IsReached (call state now_ts).1 → IsWellFormed state
  call-IsWellFormed state now_ts reached = elim (Option-cases (sanitize_email sender)) [
    | inl e ↦ absurd (call_without_sender state now_ts e reached)
    | inr (n, e) ↦ elim (Option-cases (lookup n state.relay_contexts_by_subject)) [
      | inl f ↦ absurd (call_without_contexts state now_ts n e f reached)
      | inr (sc, f) ↦
          let (key, targets, small, type) = call_tests state now_ts n sc e f reached in
          record {
            normalized = n;
            subject_contexts = sc;
            same_sender = e;
            stored = f;
            reduces =
                λ after t same. call_reduces after t n sc e (rw same f) key targets small type;
          }
    ]
  ]

  -- Where the keys of the replay cache are distinct and the nonce is not blank: once a call with
  -- the nonce has been authorised, or has been stopped by the rate limit alone, the same call is
  -- refused at any time that is not more than ten minutes later.
  pub nonce_passes_once :
      (state : GatewayState) (now_ts later_ts : ℤ)
      → Distinct state.relay_replay_cache
      → is_empty (trim nonce) ≡ false
      → IsReached (call state now_ts).1
      → older_than relay_replay_ttl_seconds later_ts now_ts ≡ false
      → IsRefused (call (call state now_ts).0 later_ts).1
  nonce_passes_once state now_ts later_ts d named reached young =
      let w = call-IsWellFormed state now_ts reached in
      let request = request_at w.normalized now_ts in
      let contexts = w.subject_contexts.contexts in
      let first = w.reduces state now_ts refl in
      let (context, chosen, same) =
        authorize_each_selects state request contexts (rw first at reached) in
      let whole = first ∙ same in
      let noted = admit_notes state request context nonce d refl named (rw whole at reached) in
      rw (w.reduces (call state now_ts).0 later_ts (rw whole (admit_frame state request context))) (
        authorize_each_refuses (call state now_ts).0 request later_ts now_ts nonce contexts context
          chosen (rw whole (record { has = refl; named = named; noted = noted.noted })) young)
