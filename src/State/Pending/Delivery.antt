-- ===== src/State/Pending/Delivery.antt =====
-- What the operations on the waiting queues keep, and what a subject finds when it comes back.
use rust_http3_gateway.Prelude.{
  ◌≤◌, ℤ, false, not, String, List, [], ◌∷◌, ◌++◌, some, Map, lookup, insert, arith, ◌≡◌, refl, sym,
  subst, length, All, ◌⊎◌, inl, inr, Bool-cases, is_empty, str_dec, lookup-insert, All-insert,
  All-remove, retain,
}
use rust_http3_gateway.State.Types.{GatewayState, PendingMessage, pending_max_per_subject}
use rust_http3_gateway.State.Pending.{
  prune_pending_queue, take_each, push_pending, push_each, has_sticky_key, replace_sticky,
  replace_each, buffer_latest_for_subjects,
}
use rust_http3_gateway.State.Pending.Laws.{
  length-prune_pending_queue-le, IsPushed, prune_pending_queue-IsPushed,
}

-- No queue is longer than the limit.
abbrev pub IsBounded : Map (List PendingMessage) → Type 0
IsBounded pending = All (λ e. length e.1 ≤ pending_max_per_subject) pending

pub push_each-IsBounded :
    (item : PendingMessage) (now_ts : ℤ) (subjects : List String)
    (pending : Map (List PendingMessage))
    → IsBounded pending
    → IsBounded (push_each item now_ts subjects pending)
unfolding push_each push_pending
push_each-IsBounded item now_ts [] pending h = h
push_each-IsBounded item now_ts (s ∷ rest) pending h =
    push_each-IsBounded item now_ts rest _
      (All-insert _ s _ pending h (length-prune_pending_queue-le _ now_ts))

pub replace_each-IsBounded :
    (key : String) (item : PendingMessage) (now_ts : ℤ) (subjects : List String)
    (pending : Map (List PendingMessage))
    → IsBounded pending
    → IsBounded (replace_each key item now_ts subjects pending)
unfolding replace_each replace_sticky
replace_each-IsBounded key item now_ts [] pending h = h
replace_each-IsBounded key item now_ts (s ∷ rest) pending h =
    replace_each-IsBounded key item now_ts rest _
      (All-insert _ s _ pending h (length-prune_pending_queue-le _ now_ts))

pub take_each-IsBounded :
    (now_ts : ℤ) (subjects : List String) (acc : List String × List String)
    (pending : Map (List PendingMessage))
    → IsBounded pending
    → IsBounded (take_each now_ts subjects acc pending).0
unfolding take_each
take_each-IsBounded now_ts [] acc pending h = h
take_each-IsBounded now_ts (s ∷ rest) acc pending h =
    take_each-IsBounded now_ts rest _ _ (All-remove _ s pending h)

-- The subject's queue ends with the message; what stands in front of it satisfies `P`.
abbrev pub EndsWith :
    (PendingMessage → Type 0) → PendingMessage → Map (List PendingMessage) → String → Type 0
EndsWith P item pending subject =
    (queue : List PendingMessage) × (lookup subject pending ≡ some queue) × IsPushed P item queue

-- A round for one subject makes its queue end so, and leaves the queues of the others alone.
pub insert-EndsWith :
    (P : PendingMessage → Type 0) (item : PendingMessage) (now_ts : ℤ) (s j : String)
    (kept : List PendingMessage) (pending : Map (List PendingMessage))
    → item.enqueued_at ≡ now_ts
    → All P kept
    → (s ≡ j) ⊎ EndsWith P item pending j
    → EndsWith P item (insert s (prune_pending_queue (kept ++ item ∷ []) now_ts) pending) j
insert-EndsWith P item now_ts s j kept pending stamp h before = elim (str_dec s j) [
  | yes same ↦ (
    prune_pending_queue (kept ++ item ∷ []) now_ts,
    ground (arith, lookup-insert s j (prune_pending_queue (kept ++ item ∷ []) now_ts) pending),
    prune_pending_queue-IsPushed P item now_ts kept stamp h,
  )
  | no other ↦ elim before [
    | inl same ↦ absurd (other same)
    | inr (queue, found, shape) ↦ (
      queue,
      ground (arith, lookup-insert s j (prune_pending_queue (kept ++ item ∷ []) now_ts) pending),
      shape,
    )
  ]
]

All-retain-not :
    (key : String) (queue : List PendingMessage)
    → All (λ i. has_sticky_key key i ≡ false) (retain (λ i. not (has_sticky_key key i)) queue)
All-retain-not key [] = tt
All-retain-not key (x ∷ queue) = elim (Bool-cases (has_sticky_key key x)) [
  | inl hit ↦ rw hit (All-retain-not key queue)
  | inr miss ↦ rw miss (miss, All-retain-not key queue)
]

abbrev pub sticky_message : String → String → ℤ → PendingMessage
sticky_message message key now_ts = record {
  text = message;
  enqueued_at = now_ts;
  sticky_key = some key;
}

module _ (key : String) (item : PendingMessage) (now_ts : ℤ)
    (stamp : item.enqueued_at ≡ now_ts) where
  abbrev Latest : Map (List PendingMessage) → String → Type 0
  Latest = EndsWith (λ i. has_sticky_key key i ≡ false) item

  replace_each-keeps :
      (subjects : List String) (j : String) (pending : Map (List PendingMessage))
      → Latest pending j
      → Latest (replace_each key item now_ts subjects pending) j
  unfolding replace_each replace_sticky
  replace_each-keeps [] j pending h = h
  replace_each-keeps (s ∷ rest) j pending h =
      replace_each-keeps rest j _
        (insert-EndsWith _ item now_ts s j _ pending stamp (All-retain-not key _) (inr h))

  replace_each-Latest :
      (subjects : List String) (pending : Map (List PendingMessage))
      → All (Latest (replace_each key item now_ts subjects pending)) subjects
  unfolding replace_each replace_sticky
  replace_each-Latest [] pending = tt
  replace_each-Latest (s ∷ rest) pending = (
    replace_each-keeps rest s _
        (insert-EndsWith _ item now_ts s s _ pending stamp (All-retain-not key _) (inl refl)),
    replace_each-Latest rest _,
  )

buffer_latest-pending :
    (state : GatewayState) (s : String) (rest : List String) (message key : String) (now_ts : ℤ)
    → is_empty message ≡ false
    → is_empty key ≡ false
    → (buffer_latest_for_subjects state (s ∷ rest) message key now_ts).pending_by_subject
      ≡ replace_each key
          (sticky_message message key now_ts)
          now_ts
          (s ∷ rest)
          state.pending_by_subject
unfolding buffer_latest_for_subjects
buffer_latest-pending state s rest message key now_ts m k = rw (m, k)

-- After a message and a key that are not empty are buffered, the queue of every subject given
-- ends with the message, and no other message in it has the same key.
pub buffer_latest_for_subjects_replaces :
    (state : GatewayState) (subjects : List String) (message key : String) (now_ts : ℤ)
    → is_empty message ≡ false
    → is_empty key ≡ false
    → All
        (EndsWith
          (λ i. has_sticky_key key i ≡ false)
          (sticky_message message key now_ts)
          (buffer_latest_for_subjects state subjects message key now_ts).pending_by_subject)
        subjects
buffer_latest_for_subjects_replaces state [] message key now_ts m k = tt
buffer_latest_for_subjects_replaces state (s ∷ rest) message key now_ts m k =
    subst
      (λ p.
        All (EndsWith (λ i. has_sticky_key key i ≡ false) (sticky_message message key now_ts) p)
          (s ∷ rest))
      (sym (buffer_latest-pending state s rest message key now_ts m k))
      (replace_each-Latest key _ now_ts refl (s ∷ rest) state.pending_by_subject)
