-- ===== src/State/RelayContexts/Laws.antt =====
-- What the stored relay contexts satisfy after any sequence of snapshots.
use rust_http3_gateway.Prelude.{
  ℕ, ◌≤◌, ℤ, Bool, true, false, not, String, List, [], ◌∷◌, Option, none, some, lookup, Map, ◌==◌,
  Unicode, retain, ltb_ℤ, sort_by, insert_by, All, All-append, All-retain, All-insert, All-lookup,
  All-imp, lookup-insert, str_dec, ◌≡◌, refl, sym, subst, ◌⊎◌, inl, inr, arith, ite, eq_iff,
  Bool-cases, Option-cases,
}
use rust_http3_gateway.Routes.Types.{RelayContextType, file_transfer_peer, same_context_type}
use rust_http3_gateway.State.Types.{
  GatewayState, RelayOperationContext, RelayContextSnapshot, RelaySubjectContexts,
}
use rust_http3_gateway.State.RelayContexts.{
  context_before, merge_context, merge_contexts, sanitize_email, stored_context, accept_context,
  accept_contexts, carry_over, store_contexts, apply_relay_context_snapshot,
}

pub All-insert_by :
    {A : Type 0} (P : A → Type 0) (before : A → A → Bool) (x : A) (xs : List A)
    → P x
    → All P xs
    → All P (insert_by before x xs)
All-insert_by P before x [] p h = (p, tt)
All-insert_by P before x (y ∷ ys) p h = elim (Bool-cases (before x y)) [
  | inl first ↦ rw first (p, h)
  | inr later ↦ rw later (h.0, All-insert_by P before x ys p h.1)
]

pub All-sort_by :
    {A : Type 0} (P : A → Type 0) (before : A → A → Bool) (xs : List A)
    → All P xs
    → All P (sort_by before xs)
All-sort_by P before [] h = tt
All-sort_by P before (x ∷ xs) h =
    All-insert_by P before x (sort_by before xs) h.0 (All-sort_by P before xs h.1)

All-merge_contexts :
    (P : RelayOperationContext → Type 0) (next incoming : List RelayOperationContext)
    → All P next
    → All P incoming
    → All P (merge_contexts next incoming)
unfolding merge_contexts merge_context
All-merge_contexts P next [] h i = h
All-merge_contexts P next (c ∷ rest) h i =
    All-merge_contexts P (merge_context next c) rest
      (All-append P (retain (λ e. not (e.operation_key == c.operation_key)) next) (c ∷ [])
        (All-retain P (λ e. not (e.operation_key == c.operation_key)) next h) (i.0, tt))
      i.1

-- The context belongs to the subject, and is of the type.
abbrev pub OwnedBy : String → RelayContextType → RelayOperationContext → Type 0
OwnedBy subject kind c =
    (c.authorized_subject ≡ subject) × (same_context_type c.context_type kind ≡ true)

-- Every stored context belongs to the subject under which it is stored.
abbrev pub IsOwned : Map RelaySubjectContexts → Type 0
IsOwned stored = All (λ e. All (OwnedBy e.0 e.1.context_type) e.1.contexts) stored

abbrev pub to_list : Option RelaySubjectContexts → List RelaySubjectContexts
to_list none = []
to_list (some r) = r ∷ []

found-OwnedBy :
    (subject : String) (stored : Map RelaySubjectContexts) (found : Option RelaySubjectContexts)
    → IsOwned stored
    → lookup subject stored ≡ found
    → All
        (λ (r : RelaySubjectContexts). All (OwnedBy subject r.context_type) r.contexts)
        (to_list found)
found-OwnedBy subject stored none h e = tt
found-OwnedBy subject stored (some r) h e =
    (All-lookup (λ e. All (OwnedBy e.0 e.1.context_type) e.1.contexts) subject r stored h e, tt)

same_type :
    (a b c : RelayContextType)
    → same_context_type a b ≡ true
    → same_context_type b c ≡ true
    → same_context_type a c ≡ true
same_type file_transfer_peer file_transfer_peer file_transfer_peer h k = refl

module _ ⦃u : Unicode⦄ where
  accept_context-OwnedBy :
      (now_ts : ℤ) (subject : String) (kind : RelayContextType) (c d : RelayOperationContext)
      → accept_context now_ts subject kind c ≡ some d
      → OwnedBy subject kind d
  unfolding accept_context stored_context
  accept_context-OwnedBy now_ts subject kind c d h =
      elim (Option-cases (sanitize_email c.authorized_subject)) [
        | inl missing ↦ ground arith
        | inr (owner, e) ↦ (ground (arith, eq_iff owner subject), ground arith)
      ]

  accept_contexts-OwnedBy :
      (now_ts : ℤ) (subject : String) (kind : RelayContextType) (cs : List RelayOperationContext)
      → All (OwnedBy subject kind) (accept_contexts now_ts subject kind cs)
  unfolding accept_contexts
  accept_contexts-OwnedBy now_ts subject kind [] = tt
  accept_contexts-OwnedBy now_ts subject kind (c ∷ rest) =
      elim (Option-cases (accept_context now_ts subject kind c)) [
        | inl missing ↦
            rw (missing, accept_contexts) (accept_contexts-OwnedBy now_ts subject kind rest)
        | inr (d, e) ↦
            rw (e, accept_contexts)
              (
                accept_context-OwnedBy now_ts subject kind c d e,
                accept_contexts-OwnedBy now_ts subject kind rest,
              )
      ]

  -- The contexts that are carried over from before belong to the subject, and are of the type.
  carry_over-OwnedBy :
      (now_ts : ℤ) (snapshot : RelayContextSnapshot) (subject : String)
      (found : Option RelaySubjectContexts) (version : ℕ) (kept : List RelayOperationContext)
      → All
          (λ (r : RelaySubjectContexts). All (OwnedBy subject r.context_type) r.contexts)
          (to_list found)
      → carry_over now_ts snapshot found ≡ some (version, kept)
      → All (OwnedBy subject snapshot.context_type) kept
  unfolding carry_over
  carry_over-OwnedBy now_ts snapshot subject none version kept h e =
      let nothing : [] ≡ kept = ground arith in
      subst (All (OwnedBy subject snapshot.context_type)) nothing tt
  carry_over-OwnedBy now_ts snapshot subject (some r) version kept h e =
      elim (Bool-cases (same_context_type r.context_type snapshot.context_type)) [
        | inl same ↦
            let staying : retain (λ c. not (ltb_ℤ c.expires_at now_ts)) r.contexts ≡ kept =
              ground arith in
            subst (All (OwnedBy subject snapshot.context_type)) staying (
              All-retain _ _ r.contexts (
                All-imp (OwnedBy subject r.context_type) (OwnedBy subject snapshot.context_type)
                  (λ c (owned, t).
                    (owned, same_type c.context_type r.context_type snapshot.context_type t same))
                  r.contexts h.0))
        | inr other ↦
            let nothing : [] ≡ kept = ground arith in
            subst (All (OwnedBy subject snapshot.context_type)) nothing tt
      ]

  pub store_contexts-IsOwned :
      (now_ts : ℤ) (snapshot : RelayContextSnapshot) (subject : String) (state : GatewayState)
      → IsOwned state.relay_contexts_by_subject
      → IsOwned (store_contexts now_ts snapshot subject state).relay_contexts_by_subject
  unfolding store_contexts
  store_contexts-IsOwned now_ts snapshot subject state h =
      elim (Option-cases
        (carry_over now_ts snapshot (lookup subject state.relay_contexts_by_subject))) [
          | inl outdated ↦ rw (outdated, store_contexts) h
          | inr ((version, kept), e) ↦
              rw (e, store_contexts)
                (All-insert (λ x. All (OwnedBy x.0 x.1.context_type) x.1.contexts) subject _
                  state.relay_contexts_by_subject h
                  (All-sort_by (OwnedBy subject snapshot.context_type) context_before _ (
                    All-merge_contexts (OwnedBy subject snapshot.context_type) kept _
                      (carry_over-OwnedBy now_ts snapshot subject
                        (lookup subject state.relay_contexts_by_subject) version kept
                        (found-OwnedBy subject state.relay_contexts_by_subject _ h refl) e)
                      (accept_contexts-OwnedBy now_ts subject snapshot.context_type
                        snapshot.contexts))))
        ]

  -- Where every subject has only contexts that belong to it and are of the recorded type, a
  -- snapshot, whatever it names as the owners of its contexts, leaves it so.
  pub apply_relay_context_snapshot-IsOwned :
      (state : GatewayState) (snapshot : RelayContextSnapshot) (now_ts : ℤ)
      → IsOwned state.relay_contexts_by_subject
      → IsOwned (apply_relay_context_snapshot state snapshot now_ts).relay_contexts_by_subject
  unfolding apply_relay_context_snapshot
  apply_relay_context_snapshot-IsOwned state snapshot now_ts h =
      elim (Option-cases (sanitize_email snapshot.subject_email)) [
        | inl missing ↦ rw (missing, apply_relay_context_snapshot) h
        | inr (subject, e) ↦
            rw (e, apply_relay_context_snapshot)
              (store_contexts-IsOwned now_ts snapshot subject state h)
      ]

  carry_over_version :
      (now_ts : ℤ) (snapshot : RelayContextSnapshot) (r : RelaySubjectContexts) (version : ℕ)
      (kept : List RelayOperationContext)
      → carry_over now_ts snapshot (some r) ≡ some (version, kept)
      → (same_context_type r.context_type snapshot.context_type ≡ false)
        ⊎ (r.policy_version ≤ version)
  unfolding carry_over
  carry_over_version now_ts snapshot r version kept e =
      elim (Bool-cases (same_context_type r.context_type snapshot.context_type)) [
        | inr other ↦ inl other
        | inl same ↦ inr (ground arith)
      ]

  -- The record of a subject after another one, of the same type, has no lower policy version.
  abbrev pub IsNewer : RelaySubjectContexts → Option RelaySubjectContexts → Type 0
  IsNewer r after =
      (s : RelaySubjectContexts) × (after ≡ some s)
      × ((same_context_type r.context_type s.context_type ≡ false)
          ⊎ (r.policy_version ≤ s.policy_version))

  IsNewer-self :
      (r : RelaySubjectContexts) (o : Option RelaySubjectContexts) → o ≡ some r → IsNewer r o
  IsNewer-self r o e = (r, e, inr (omega arith))

  store_contexts-IsNewer :
      (now_ts : ℤ) (snapshot : RelayContextSnapshot) (j subject : String) (state : GatewayState)
      (r : RelaySubjectContexts)
      → lookup j state.relay_contexts_by_subject ≡ some r
      → IsNewer r
          (lookup j (store_contexts now_ts snapshot subject state).relay_contexts_by_subject)
  unfolding store_contexts
  store_contexts-IsNewer now_ts snapshot j subject state r e =
      elim (Option-cases
        (carry_over now_ts snapshot (lookup subject state.relay_contexts_by_subject))) [
          | inl outdated ↦ rw (outdated, store_contexts) (IsNewer-self r _ e)
          | inr ((version, kept), c) ↦
              let stored : RelaySubjectContexts = record {
                context_type = snapshot.context_type;
                policy_version = version;
                updated_at = snapshot.received_at;
                contexts = sort_by context_before (
                    merge_contexts kept
                      (accept_contexts now_ts subject snapshot.context_type snapshot.contexts));
              } in
              rw (c, store_contexts)
                (rw (lookup-insert subject j stored state.relay_contexts_by_subject)
                  (elim (str_dec subject j)
                    as (λ x.
                      IsNewer r (ite x (some stored) (lookup j state.relay_contexts_by_subject))) [
                        | no n ↦ IsNewer-self r _ e
                        | yes same ↦ (
                          stored,
                          refl,
                          carry_over_version now_ts snapshot r version kept (
                              subst (λ o. carry_over now_ts snapshot o ≡ some (version, kept))
                                (subst (λ k. lookup k state.relay_contexts_by_subject ≡ some r)
                                  (sym same) e)
                                c),
                        )
                      ]))
        ]

  -- No snapshot removes the record of a subject, or puts a lower policy version in its place
  -- where the context type is the same.
  pub apply_relay_context_snapshot-IsNewer :
      (state : GatewayState) (snapshot : RelayContextSnapshot) (now_ts : ℤ) (subject : String)
      (r : RelaySubjectContexts)
      → lookup subject state.relay_contexts_by_subject ≡ some r
      → IsNewer r (
          lookup subject
            (apply_relay_context_snapshot state snapshot now_ts).relay_contexts_by_subject)
  unfolding apply_relay_context_snapshot
  apply_relay_context_snapshot-IsNewer state snapshot now_ts j r e =
      elim (Option-cases (sanitize_email snapshot.subject_email)) [
        | inl missing ↦ rw (missing, apply_relay_context_snapshot) (IsNewer-self r _ e)
        | inr (subject, named) ↦
            rw (named, apply_relay_context_snapshot)
              (store_contexts-IsNewer now_ts snapshot j subject state r e)
      ]
