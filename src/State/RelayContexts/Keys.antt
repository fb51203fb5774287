-- ===== src/State/RelayContexts/Keys.antt =====
-- The contexts of a subject have distinct operation keys.
use rust_http3_gateway.Prelude.{
  ℕ, ℤ, Bool, not, String, List, [], ◌∷◌, ◌++◌, Option, none, some, lookup, Map, ◌==◌, Unicode,
  retain, sort_by, insert_by, All, All-append, All-retain, All-insert, All-lookup, ltb_ℤ, ◌≡◌, refl,
  sym, subst, ◌≢◌, inl, inr, arith, eq_iff, Bool-cases, Option-cases,
}
use rust_http3_gateway.Routes.Types.{same_context_type}
use rust_http3_gateway.State.Types.{
  GatewayState, RelayOperationContext, RelayContextSnapshot, RelaySubjectContexts,
}
use rust_http3_gateway.State.RelayContexts.{
  context_before, merge_context, merge_contexts, sanitize_email, accept_contexts, carry_over,
  store_contexts, apply_relay_context_snapshot,
}
use rust_http3_gateway.State.RelayContexts.Laws.{All-insert_by, All-sort_by, to_list}

abbrev pub Differs : RelayOperationContext → RelayOperationContext → Type 0
Differs c d = c.operation_key ≢ d.operation_key

-- No two contexts of the list have the same operation key.
abbrev pub HasUniqueKeys : List RelayOperationContext → Type 0
HasUniqueKeys [] = Unit
HasUniqueKeys (c ∷ cs) = All (Differs c) cs × HasUniqueKeys cs

retain-HasUniqueKeys :
    (p : RelayOperationContext → Bool) (cs : List RelayOperationContext)
    → HasUniqueKeys cs
    → HasUniqueKeys (retain p cs)
retain-HasUniqueKeys p [] h = tt
retain-HasUniqueKeys p (c ∷ cs) h = elim (Bool-cases (p c)) [
  | inl keep ↦ rw keep (All-retain (Differs c) p cs h.0, retain-HasUniqueKeys p cs h.1)
  | inr drop ↦ rw drop (retain-HasUniqueKeys p cs h.1)
]

append-HasUniqueKeys :
    (cs : List RelayOperationContext) (d : RelayOperationContext)
    → HasUniqueKeys cs
    → All (λ c. Differs c d) cs
    → HasUniqueKeys (cs ++ d ∷ [])
append-HasUniqueKeys [] d h n = (tt, tt)
append-HasUniqueKeys (c ∷ cs) d h n =
    (All-append (Differs c) cs (d ∷ []) h.0 (n.0, tt), append-HasUniqueKeys cs d h.1 n.1)

retain-Differs :
    (d : RelayOperationContext) (cs : List RelayOperationContext)
    → All (λ c. Differs c d) (retain (λ c. not (c.operation_key == d.operation_key)) cs)
retain-Differs d [] = tt
retain-Differs d (c ∷ cs) = elim (Bool-cases (c.operation_key == d.operation_key)) [
  | inl same ↦ rw same (retain-Differs d cs)
  | inr other ↦
      rw other (ground (arith, eq_iff c.operation_key d.operation_key), retain-Differs d cs)
]

merge_contexts-HasUniqueKeys :
    (next incoming : List RelayOperationContext)
    → HasUniqueKeys next
    → HasUniqueKeys (merge_contexts next incoming)
unfolding merge_contexts merge_context
merge_contexts-HasUniqueKeys next [] h = h
merge_contexts-HasUniqueKeys next (c ∷ rest) h =
    merge_contexts-HasUniqueKeys (merge_context next c) rest (
      append-HasUniqueKeys (retain (λ e. not (e.operation_key == c.operation_key)) next) c
        (retain-HasUniqueKeys (λ e. not (e.operation_key == c.operation_key)) next h)
        (retain-Differs c next))

All-Differs_sym :
    (c : RelayOperationContext) (cs : List RelayOperationContext)
    → All (Differs c) cs
    → All (λ d. Differs d c) cs
All-Differs_sym c [] h = tt
All-Differs_sym c (d ∷ cs) h = ((λ e. h.0 (sym e)), All-Differs_sym c cs h.1)

insert_by-HasUniqueKeys :
    (before : RelayOperationContext → RelayOperationContext → Bool) (c : RelayOperationContext)
    (cs : List RelayOperationContext)
    → All (Differs c) cs
    → HasUniqueKeys cs
    → HasUniqueKeys (insert_by before c cs)
insert_by-HasUniqueKeys before c [] n h = (tt, tt)
insert_by-HasUniqueKeys before c (d ∷ cs) n h = elim (Bool-cases (before c d)) [
  | inl first ↦ rw first (n, h)
  | inr later ↦ rw later (
    All-insert_by (Differs d) before c cs (λ e. n.0 (sym e)) h.0,
    insert_by-HasUniqueKeys before c cs n.1 h.1,
  )
]

sort_by-HasUniqueKeys :
    (before : RelayOperationContext → RelayOperationContext → Bool)
    (cs : List RelayOperationContext)
    → HasUniqueKeys cs
    → HasUniqueKeys (sort_by before cs)
sort_by-HasUniqueKeys before [] h = tt
sort_by-HasUniqueKeys before (c ∷ cs) h =
    insert_by-HasUniqueKeys before c (sort_by before cs) (All-sort_by (Differs c) before cs h.0)
      (sort_by-HasUniqueKeys before cs h.1)

-- Each stored record has contexts with distinct operation keys.
abbrev pub IsKeyed : Map RelaySubjectContexts → Type 0
IsKeyed stored = All (λ e. HasUniqueKeys e.1.contexts) stored

found-HasUniqueKeys :
    (subject : String) (stored : Map RelaySubjectContexts) (found : Option RelaySubjectContexts)
    → IsKeyed stored
    → lookup subject stored ≡ found
    → All (λ (r : RelaySubjectContexts). HasUniqueKeys r.contexts) (to_list found)
found-HasUniqueKeys subject stored none h e = tt
found-HasUniqueKeys subject stored (some r) h e =
    (All-lookup (λ e. HasUniqueKeys e.1.contexts) subject r stored h e, tt)

module _ ⦃u : Unicode⦄ where
  carry_over-HasUniqueKeys :
      (now_ts : ℤ) (snapshot : RelayContextSnapshot) (found : Option RelaySubjectContexts)
      (version : ℕ) (kept : List RelayOperationContext)
      → All (λ (r : RelaySubjectContexts). HasUniqueKeys r.contexts) (to_list found)
      → carry_over now_ts snapshot found ≡ some (version, kept)
      → HasUniqueKeys kept
  unfolding carry_over
  carry_over-HasUniqueKeys now_ts snapshot none version kept h e =
      let nothing : [] ≡ kept = ground arith in subst HasUniqueKeys nothing tt
  carry_over-HasUniqueKeys now_ts snapshot (some r) version kept h e =
      elim (Bool-cases (same_context_type r.context_type snapshot.context_type)) [
        | inl same ↦
            let staying : retain (λ c. not (ltb_ℤ c.expires_at now_ts)) r.contexts ≡ kept =
              ground arith in
            subst HasUniqueKeys staying (retain-HasUniqueKeys _ r.contexts h.0)
        | inr other ↦ let nothing : [] ≡ kept = ground arith in subst HasUniqueKeys nothing tt
      ]

  pub store_contexts-IsKeyed :
      (now_ts : ℤ) (snapshot : RelayContextSnapshot) (subject : String) (state : GatewayState)
      → IsKeyed state.relay_contexts_by_subject
      → IsKeyed (store_contexts now_ts snapshot subject state).relay_contexts_by_subject
  unfolding store_contexts
  store_contexts-IsKeyed now_ts snapshot subject state h =
      elim (Option-cases
        (carry_over now_ts snapshot (lookup subject state.relay_contexts_by_subject))) [
          | inl outdated ↦ rw (outdated, store_contexts) h
          | inr ((version, kept), e) ↦
              let incoming =
                accept_contexts now_ts subject snapshot.context_type snapshot.contexts in
              rw (e, store_contexts)
                (All-insert (λ x. HasUniqueKeys x.1.contexts) subject _
                  state.relay_contexts_by_subject h
                  (sort_by-HasUniqueKeys context_before (merge_contexts kept incoming) (
                    merge_contexts-HasUniqueKeys kept incoming (
                      carry_over-HasUniqueKeys now_ts snapshot
                        (lookup subject state.relay_contexts_by_subject) version kept
                        (found-HasUniqueKeys subject state.relay_contexts_by_subject _ h refl) e))))
        ]

  -- Where every subject has contexts of distinct operation keys, a snapshot, even one that
  -- repeats an operation key, leaves it so.
  pub apply_relay_context_snapshot-IsKeyed :
      (state : GatewayState) (snapshot : RelayContextSnapshot) (now_ts : ℤ)
      → IsKeyed state.relay_contexts_by_subject
      → IsKeyed (apply_relay_context_snapshot state snapshot now_ts).relay_contexts_by_subject
  unfolding apply_relay_context_snapshot
  apply_relay_context_snapshot-IsKeyed state snapshot now_ts h =
      elim (Option-cases (sanitize_email snapshot.subject_email)) [
        | inl missing ↦ rw (missing, apply_relay_context_snapshot) h
        | inr (subject, e) ↦
            rw (e, apply_relay_context_snapshot)
              (store_contexts-IsKeyed now_ts snapshot subject state h)
      ]
