-- ===== src/State/Pending.antt =====
-- state.rs: the messages that wait for a subject without a live connection.
pub mod Laws
pub mod Delivery
pub mod Replay
pub mod Requeue
use rust_http3_gateway.Prelude.{
  ℕ, ℤ, Bool, true, false, not, ◌||◌, String, List, [], ◌∷◌, ◌++◌, Option, none, some, Map, lookup,
  insert, remove, ◌==◌, is_empty, is_nil, any, retain, length, ltb, older_than, unwrap_or,
  if◌then◌else◌,
}
use rust_http3_gateway.State.Types.{
  GatewayState, PendingMessage, pending_max_per_subject, pending_ttl_seconds,
}

-- The first `while` of `prune_pending_queue`.
unfoldable pub drop_expired : ℤ → List PendingMessage → List PendingMessage
drop_expired now_ts [] = []
drop_expired now_ts (front ∷ queue) =
    let rest = drop_expired now_ts queue in
    if older_than pending_ttl_seconds now_ts front.enqueued_at then rest else front ∷ queue

-- The second one.
unfoldable pub drop_overflow : List PendingMessage → List PendingMessage
drop_overflow [] = []
drop_overflow (front ∷ queue) =
    let rest = drop_overflow queue in
    if ltb pending_max_per_subject (length (front ∷ queue)) then rest else front ∷ queue

unfoldable pub prune_pending_queue : List PendingMessage → ℤ → List PendingMessage
prune_pending_queue queue now_ts = drop_overflow (drop_expired now_ts queue)

-- The loop that empties a queue: the texts seen so far, and the snapshot.
unfoldable pub take_items :
    List PendingMessage → List String × List String → List String × List String
take_items [] (seen, snapshot) = (seen, snapshot)
take_items (item ∷ queue) (seen, snapshot) = take_items queue (
    if any (λ t. t == item.text) seen
    then (seen, snapshot)
    else (item.text ∷ seen, snapshot ++ item.text ∷ []))

unfoldable pub take_each :
    ℤ
    → List String
    → List String × List String
    → Map (List PendingMessage)
    → Map (List PendingMessage) × List String
unfolding take_items prune_pending_queue
take_each now_ts [] (seen, snapshot) pending = (pending, snapshot)
take_each now_ts (subject ∷ rest) acc pending =
    take_each now_ts rest
      (take_items (prune_pending_queue (unwrap_or (lookup subject pending) []) now_ts) acc)
      (remove subject pending)

unfoldable pub take_pending_for_subjects :
    GatewayState → List String → ℤ → GatewayState × List String
unfolding take_each
take_pending_for_subjects state subjects now_ts =
    let (pending, snapshot) = take_each now_ts subjects ([], []) state.pending_by_subject in
    (record state { pending_by_subject = pending }, snapshot)

-- One round of the loop: `push_back` on the subject's queue, made if missing, and pruning.
unfoldable pub push_pending :
    PendingMessage → ℤ → String → Map (List PendingMessage) → Map (List PendingMessage)
push_pending item now_ts subject pending =
    insert subject (prune_pending_queue (unwrap_or (lookup subject pending) [] ++ item ∷ []) now_ts)
      pending

unfoldable pub push_each :
    PendingMessage → ℤ → List String → Map (List PendingMessage) → Map (List PendingMessage)
push_each item now_ts [] pending = pending
push_each item now_ts (subject ∷ rest) pending =
    push_each item now_ts rest (push_pending item now_ts subject pending)

unfoldable pub requeue_for_subjects : GatewayState → List String → String → ℤ → GatewayState
unfolding push_each push_pending
requeue_for_subjects state subjects message now_ts =
    if is_nil subjects || is_empty message then state else record state {
      pending_by_subject =
          push_each (record { text = message; enqueued_at = now_ts; sticky_key = none }) now_ts
            subjects state.pending_by_subject;
    }

abbrev pub has_sticky_key : String → PendingMessage → Bool
has_sticky_key key item = elim item.sticky_key [ none ↦ false | some k ↦ k == key ]

unfoldable pub replace_sticky :
    String → PendingMessage → ℤ → String → Map (List PendingMessage) → Map (List PendingMessage)
replace_sticky key item now_ts subject pending =
    insert subject
      (prune_pending_queue
        (retain (λ i. not (has_sticky_key key i)) (unwrap_or (lookup subject pending) [])
          ++ item ∷ [])
        now_ts)
      pending

unfoldable pub replace_each :
    String
    → PendingMessage
    → ℤ
    → List String
    → Map (List PendingMessage)
    → Map (List PendingMessage)
replace_each key item now_ts [] pending = pending
replace_each key item now_ts (subject ∷ rest) pending =
    replace_each key item now_ts rest (replace_sticky key item now_ts subject pending)

unfoldable pub buffer_latest_for_subjects :
    GatewayState → List String → String → String → ℤ → GatewayState
unfolding replace_each replace_sticky
buffer_latest_for_subjects state subjects message sticky_key now_ts =
    if is_nil subjects || is_empty message || is_empty sticky_key then state else record state {
      pending_by_subject =
          replace_each sticky_key
            (record { text = message; enqueued_at = now_ts; sticky_key = some sticky_key }) now_ts
            subjects state.pending_by_subject;
    }
