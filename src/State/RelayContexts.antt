-- ===== src/State/RelayContexts.antt =====
-- state.rs: the relay contexts that the backend grants to a subject, replaced by snapshots.
pub mod Laws
pub mod Keys
use text.Mathlib.Text.{is_le}
use Prim.Native.String.{compare}
use rust_http3_gateway.Prelude.{
  ℕ, max, ℤ, pos, Bool, not, ◌&&◌, ◌||◌, String, List, [], ◌∷◌, ◌++◌, Option, none, some, and_then,
  lookup, insert, ◌==◌, is_empty, is_nil, trim, to_lowercase, Unicode, any, retain, ltb, ltb_ℤ,
  eqb_ℤ, saturating_add, sort_by, if◌then◌else◌,
}
use rust_http3_gateway.Routes.Types.{RelayContextType, same_context_type}
use rust_http3_gateway.State.Types.{
  GatewayState, RelayOperationContext, RelayContextSnapshot, RelaySubjectContexts,
  relay_context_ttl_seconds,
}

-- The order in which the contexts of a subject are kept.
abbrev pub context_before : RelayOperationContext → RelayOperationContext → Bool
context_before left right =
    ltb_ℤ left.updated_at right.updated_at
    || (eqb_ℤ left.updated_at right.updated_at
        && is_le (compare left.operation_key right.operation_key))

-- One round of the merge: the incoming context takes the place of one with its operation key.
unfoldable pub merge_context :
    List RelayOperationContext → RelayOperationContext → List RelayOperationContext
merge_context next incoming =
    retain (λ existing. not (existing.operation_key == incoming.operation_key)) next
    ++ incoming ∷ []

unfoldable pub merge_contexts :
    List RelayOperationContext → List RelayOperationContext → List RelayOperationContext
unfolding merge_context
merge_contexts next [] = next
merge_contexts next (incoming ∷ rest) = merge_contexts (merge_context next incoming) rest

module _ ⦃u : Unicode⦄ where
  unfoldable pub sanitize_email : String → Option String
  unfolding to_lowercase
  sanitize_email value =
      let normalized = to_lowercase (trim value) in
      if is_empty normalized then none else some normalized

  -- The loops that push a value unless it is there.
  abbrev pub push_new : String → List String → List String
  push_new normalized result =
      if any (λ item. item == normalized) result then result else result ++ normalized ∷ []

  unfoldable pub collect_families : List String → List String → List String
  unfolding to_lowercase
  collect_families [] result = result
  collect_families (value ∷ rest) result =
      let normalized = to_lowercase (trim value) in
      collect_families rest (if is_empty normalized then result else push_new normalized result)

  unfoldable pub sanitize_allowed_families : List String → List String
  unfolding collect_families
  sanitize_allowed_families values = collect_families values []

  unfoldable pub collect_peers : List String → List String → List String
  unfolding sanitize_email
  collect_peers [] result = result
  collect_peers (value ∷ rest) result =
      collect_peers rest (elim (sanitize_email value) [
        | none ↦ result
        | some normalized ↦ push_new normalized result
      ])

  unfoldable pub sanitize_scope_peers : List String → List String
  unfolding collect_peers
  sanitize_scope_peers values = collect_peers values []

  -- A context of the snapshot as it is stored, for the subject that it names.
  unfoldable pub stored_context :
      ℤ → String → List String → List String → RelayOperationContext → RelayOperationContext
  unfolding saturating_add
  stored_context now_ts authorized_subject families peers context =
      let expires_at =
        if ltb_ℤ (pos 0) context.expires_at
        then context.expires_at
        else saturating_add now_ts (pos relay_context_ttl_seconds) in
      record context {
        context_id = trim context.context_id;
        operation_key = trim context.operation_key;
        operation_class = trim context.operation_class;
        authorized_subject = authorized_subject;
        audience_scope = record { mode = context.audience_scope.mode; peers = peers };
        allowed_command_families = families;
        grant = record {
          grant_id = trim context.grant.grant_id;
          policy_version = context.grant.policy_version;
          issued_at = context.grant.issued_at;
          expires_at =
              if ltb_ℤ (pos 0) context.grant.expires_at
              then context.grant.expires_at
              else expires_at;
        };
        expires_at = expires_at;
      }

  -- One round of the loop over the snapshot; each `continue` is `none`.
  unfoldable pub accept_context :
      ℤ → String → RelayContextType → RelayOperationContext → Option RelayOperationContext
  unfolding sanitize_email sanitize_allowed_families sanitize_scope_peers stored_context
  accept_context now_ts subject_email context_type context =
      and_then (sanitize_email context.authorized_subject) λ authorized_subject.
        let families = sanitize_allowed_families context.allowed_command_families in
        let peers = sanitize_scope_peers context.audience_scope.peers in
        if not (authorized_subject == subject_email)
          || not (same_context_type context.context_type context_type)
          || is_nil families
          || is_nil peers
          || is_empty (trim context.context_id)
          || is_empty (trim context.operation_key)
        then none
        else some (stored_context now_ts authorized_subject families peers context)

  unfoldable pub accept_contexts :
      ℤ → String → RelayContextType → List RelayOperationContext → List RelayOperationContext
  unfolding accept_context
  accept_contexts now_ts subject_email context_type [] = []
  accept_contexts now_ts subject_email context_type (context ∷ rest) =
      let later = accept_contexts now_ts subject_email context_type rest in
      elim (accept_context now_ts subject_email context_type context) [
        | none ↦ later
        | some accepted ↦ accepted ∷ later
      ]

  -- What is stored for the subject before the incoming contexts are merged: the policy version
  -- and the contexts that stay, or `none` where the snapshot is out of date.
  unfoldable pub carry_over :
      ℤ
      → RelayContextSnapshot
      → Option RelaySubjectContexts
      → Option (ℕ × List RelayOperationContext)
  carry_over now_ts snapshot none = some (snapshot.policy_version, [])
  carry_over now_ts snapshot (some existing) =
      if same_context_type existing.context_type snapshot.context_type
      then if ltb snapshot.policy_version existing.policy_version
        then none
        else some (
          max snapshot.policy_version existing.policy_version,
          retain (λ context. not (ltb_ℤ context.expires_at now_ts)) existing.contexts,
        )
      else some (snapshot.policy_version, [])

  unfoldable pub store_contexts : ℤ → RelayContextSnapshot → String → GatewayState → GatewayState
  unfolding accept_contexts carry_over merge_contexts
  store_contexts now_ts snapshot subject_email state =
      elim (carry_over now_ts snapshot (lookup subject_email state.relay_contexts_by_subject)) [
        | none ↦ state
        | some (policy_version, kept) ↦ record state {
          relay_contexts_by_subject =
              insert subject_email
                (record {
                  context_type = snapshot.context_type;
                  policy_version = policy_version;
                  updated_at = snapshot.received_at;
                  contexts = sort_by context_before (
                      merge_contexts kept (
                        accept_contexts now_ts subject_email snapshot.context_type
                          snapshot.contexts));
                })
                state.relay_contexts_by_subject;
        }
      ]

  unfoldable pub apply_relay_context_snapshot :
      GatewayState → RelayContextSnapshot → ℤ → GatewayState
  unfolding store_contexts
  apply_relay_context_snapshot state snapshot now_ts =
      elim (sanitize_email snapshot.subject_email) [
        | none ↦ state
        | some subject_email ↦ store_contexts now_ts snapshot subject_email state
      ]

  unfoldable pub list_relay_contexts_for_subject :
      GatewayState → String → Option RelaySubjectContexts
  list_relay_contexts_for_subject state subject_email =
      and_then (sanitize_email subject_email)
        (λ normalized. lookup normalized state.relay_contexts_by_subject)
