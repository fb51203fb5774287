-- ===== src/State/Pending/Requeue.antt =====
-- A message that is requeued waits for every subject that it is for.
use rust_http3_gateway.Prelude.{
  ℤ, false, String, List, [], ◌∷◌, none, Map, lookup, ◌≡◌, refl, sym, All, In, here, there, inl,
  inr, is_empty, is_nil, unwrap_or,
}
use rust_http3_gateway.State.Types.{GatewayState, PendingMessage}
use rust_http3_gateway.State.Pending.{push_pending, push_each, requeue_for_subjects}
use rust_http3_gateway.State.Pending.Delivery.{EndsWith, insert-EndsWith}

abbrev pub plain_message : String → ℤ → PendingMessage
plain_message message now_ts = record { text = message; enqueued_at = now_ts; sticky_key = none }

All-units : (queue : List PendingMessage) → All (λ (_ : PendingMessage). Unit {0}) queue
All-units [] = tt
All-units (x ∷ queue) = (tt, All-units queue)

module _ (item : PendingMessage) (now_ts : ℤ) (stamp : item.enqueued_at ≡ now_ts) where
  push_each-keeps :
      (subjects : List String) (j : String) (pending : Map (List PendingMessage))
      → EndsWith (λ _. Unit) item pending j
      → EndsWith (λ _. Unit) item (push_each item now_ts subjects pending) j
  unfolding push_each push_pending
  push_each-keeps [] j pending h = h
  push_each-keeps (s ∷ rest) j pending h = push_each-keeps rest j _ (
      insert-EndsWith (λ _. Unit) item now_ts s j (unwrap_or (lookup s pending) []) pending stamp
        (All-units _) (inr h))

  push_each-EndsWith :
      (subjects : List String) (j : String) (pending : Map (List PendingMessage))
      → In j subjects
      → EndsWith (λ _. Unit) item (push_each item now_ts subjects pending) j
  unfolding push_each push_pending
  push_each-EndsWith [] j pending i = elim i [ ]
  push_each-EndsWith (s ∷ rest) j pending (here e) = push_each-keeps rest j _ (
      insert-EndsWith (λ _. Unit) item now_ts s j (unwrap_or (lookup s pending) []) pending stamp
        (All-units _) (inl (sym e)))
  push_each-EndsWith (s ∷ rest) j pending (there i) = push_each-EndsWith rest j _ i

pub some_subject :
    (subject : String) (subjects : List String) → In subject subjects → is_nil subjects ≡ false
some_subject subject [] i = elim i [ ]
some_subject subject (s ∷ rest) i = refl

pub requeue_for_subjects-EndsWith :
    (state : GatewayState) (subjects : List String) (message : String) (now_ts : ℤ)
    (subject : String)
    → is_empty message ≡ false
    → In subject subjects
    → EndsWith
        (λ _. Unit)
        (plain_message message now_ts)
        (requeue_for_subjects state subjects message now_ts).pending_by_subject
        subject
unfolding requeue_for_subjects
requeue_for_subjects-EndsWith state subjects message now_ts subject m i =
    rw (some_subject subject subjects i, m)
      (push_each-EndsWith (plain_message message now_ts) now_ts refl subjects subject
        state.pending_by_subject i)
