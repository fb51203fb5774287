-- ===== src/State/Pending/Laws.antt =====
-- The bounds of a waiting queue and what its operations keep.
use rust_http3_gateway.Prelude.{
  ◌≤◌, ℤ, true, false, List, [], ◌∷◌, ◌++◌, arith, ◌≡◌, refl, length, older_than, All, ◌⊎◌, inl,
  inr, Bool-cases, ltb, ltb→lt, ap, ◌∙◌, subst, older_than_self,
}
use rust_http3_gateway.State.Types.{PendingMessage, pending_max_per_subject, pending_ttl_seconds}
use rust_http3_gateway.State.Pending.{drop_expired, drop_overflow, prune_pending_queue}

abbrev pub IsExpired : ℤ → PendingMessage → Type 0
IsExpired now_ts item = older_than pending_ttl_seconds now_ts item.enqueued_at ≡ true

-- The front of the queue, if there is one, has not expired.
abbrev pub IsFrontFresh : ℤ → List PendingMessage → Type 0
IsFrontFresh now_ts [] = Unit
IsFrontFresh now_ts (front ∷ queue) =
    older_than pending_ttl_seconds now_ts front.enqueued_at ≡ false

pub record IsPruned (now_ts : ℤ) (queue kept : List PendingMessage) : Type 0 where
  pub expired : List PendingMessage
  pub overflow : List PendingMessage
  pub split : queue ≡ expired ++ (overflow ++ kept)
  pub all_expired : All (IsExpired now_ts) expired
  pub front_fresh : IsFrontFresh now_ts (overflow ++ kept)
  pub bounded : length kept ≤ pending_max_per_subject
  pub full : (overflow ≡ []) ⊎ (length kept ≡ pending_max_per_subject)

drop_expired_split :
    (now_ts : ℤ) (queue : List PendingMessage)
    → (expired : List PendingMessage) × (queue ≡ expired ++ drop_expired now_ts queue)
      × All (IsExpired now_ts) expired
      × IsFrontFresh now_ts (drop_expired now_ts queue)
unfolding drop_expired
drop_expired_split now_ts [] = ([], refl, tt, tt)
drop_expired_split now_ts (front ∷ queue) =
    elim (Bool-cases (older_than pending_ttl_seconds now_ts front.enqueued_at)) [
      | inl old ↦
          let (expired, split, all, fresh) = drop_expired_split now_ts queue in
          (front ∷ expired, rw old (ground arith), (old, all), rw old fresh)
      | inr new ↦ ([], rw new, tt, rw new new)
    ]

full_of_overflow :
    (front : PendingMessage) (queue overflow kept : List PendingMessage)
    → queue ≡ overflow ++ kept
    → length kept ≤ pending_max_per_subject
    → (overflow ≡ []) ⊎ (length kept ≡ pending_max_per_subject)
    → ltb pending_max_per_subject (length (front ∷ queue)) ≡ true
    → length kept ≡ pending_max_per_subject
full_of_overflow front queue overflow kept split bound (inl none_over) over =
    let same : queue ≡ kept = rw none_over at split in
    let long = ltb→lt _ _ over in omega (arith, ap length same)
full_of_overflow front queue overflow kept split bound (inr full) over = full

drop_overflow_split :
    (queue : List PendingMessage)
    → (overflow : List PendingMessage) × (queue ≡ overflow ++ drop_overflow queue)
      × (length (drop_overflow queue) ≤ pending_max_per_subject)
      × ((overflow ≡ []) ⊎ (length (drop_overflow queue) ≡ pending_max_per_subject))
unfolding drop_overflow
drop_overflow_split [] = ([], refl, omega arith, inl refl)
drop_overflow_split (front ∷ queue) =
    elim (Bool-cases (ltb pending_max_per_subject (length (front ∷ queue)))) [
      | inl over ↦
          let (overflow, split, bound, full) = drop_overflow_split queue in
          (
            front ∷ overflow,
            rw over (ground arith),
            rw over bound,
            inr (rw over (full_of_overflow front queue overflow _ split bound full over)),
          )
      | inr within ↦ ([], rw within, rw within (ground arith), inl refl)
    ]

-- Pruning drops the expired messages at the front up to one that is fresh and then, only if more
-- than 256 are left, as many of the oldest as are over; at most 256 are kept.
pub prune_pending_queue-IsPruned :
    (queue : List PendingMessage) (now_ts : ℤ)
    → IsPruned now_ts queue (prune_pending_queue queue now_ts)
unfolding prune_pending_queue
prune_pending_queue-IsPruned queue now_ts =
    let (expired, split, all, fresh) = drop_expired_split now_ts queue in
    let (overflow, split', bound, full) = drop_overflow_split (drop_expired now_ts queue) in
    record {
      expired = expired;
      overflow = overflow;
      split = split ∙ ap (◌++◌ expired) split';
      all_expired = all;
      front_fresh = subst (IsFrontFresh now_ts) split' fresh;
      bounded = bound;
      full = full;
    }

pub length-prune_pending_queue-le :
    (queue : List PendingMessage) (now_ts : ℤ)
    → length (prune_pending_queue queue now_ts) ≤ pending_max_per_subject
length-prune_pending_queue-le queue now_ts = (prune_pending_queue-IsPruned queue now_ts).bounded

-- A message put into the queue just now stays, as the last one; of the others some may go.
pub record IsPushed (P : PendingMessage → Type 0) (item : PendingMessage)
    (queue : List PendingMessage) : Type 0 where
  pub front : List PendingMessage
  pub shape : queue ≡ front ++ item ∷ []
  pub of_front : All P front

module _ (P : PendingMessage → Type 0) (item : PendingMessage) where
  drop_expired-IsPushed :
      (now_ts : ℤ) (queue : List PendingMessage)
      → older_than pending_ttl_seconds now_ts item.enqueued_at ≡ false
      → All P queue
      → IsPushed P item (drop_expired now_ts (queue ++ item ∷ []))
  unfolding drop_expired
  drop_expired-IsPushed now_ts [] new h = record { front = []; shape = rw new; of_front = tt }
  drop_expired-IsPushed now_ts (x ∷ queue) new h =
      elim (Bool-cases (older_than pending_ttl_seconds now_ts x.enqueued_at)) [
        | inl old ↦ rw old (drop_expired-IsPushed now_ts queue new h.1)
        | inr young ↦ record { front = x ∷ queue; shape = rw young; of_front = h }
      ]

  drop_overflow-IsPushed :
      (queue : List PendingMessage)
      → All P queue
      → IsPushed P item (drop_overflow (queue ++ item ∷ []))
  unfolding drop_overflow
  drop_overflow-IsPushed [] h = record { front = []; shape = refl; of_front = tt }
  drop_overflow-IsPushed (x ∷ queue) h =
      elim (Bool-cases (ltb pending_max_per_subject (length (x ∷ (queue ++ item ∷ []))))) [
        | inl over ↦ rw over (drop_overflow-IsPushed queue h.1)
        | inr within ↦ record { front = x ∷ queue; shape = rw within; of_front = h }
      ]

  pub prune_pending_queue-IsPushed_young :
      (now_ts : ℤ) (queue : List PendingMessage)
      → older_than pending_ttl_seconds now_ts item.enqueued_at ≡ false
      → All P queue
      → IsPushed P item (prune_pending_queue (queue ++ item ∷ []) now_ts)
  unfolding prune_pending_queue
  prune_pending_queue-IsPushed_young now_ts queue young h =
      let v = drop_expired-IsPushed now_ts queue young h in
      rw v.shape (drop_overflow-IsPushed v.front v.of_front)

  pub prune_pending_queue-IsPushed :
      (now_ts : ℤ) (queue : List PendingMessage)
      → item.enqueued_at ≡ now_ts
      → All P queue
      → IsPushed P item (prune_pending_queue (queue ++ item ∷ []) now_ts)
  prune_pending_queue-IsPushed now_ts queue stamp h =
      prune_pending_queue-IsPushed_young now_ts queue
        (rw stamp (older_than_self pending_ttl_seconds now_ts)) h
