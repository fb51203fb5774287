-- ===== src/State/Pending/Replay.antt =====
-- The one-shot replay of the waiting messages to a connection that has come back.
use rust_http3_gateway.Prelude.{
  ℤ, Bool, true, false, String, List, [], ◌∷◌, ◌++◌, none, Map, lookup, remove, ◌≡◌, refl, arith,
  All, In, inl, inr, Bool-cases, str_dec, lookup-remove, lookup-remove_ne, lookup-remove_self, sym,
  All-imp, All-of_In, ◌==◌, eq_iff, any, unwrap_or, In-cons, if◌then◌else◌,
}
use rust_http3_gateway.State.Types.{GatewayState, PendingMessage}
use rust_http3_gateway.State.Pending.{
  prune_pending_queue, take_items, take_each, take_pending_for_subjects,
}

abbrev pub has_text : String → List String → Bool
has_text t texts = any (λ x. x == t) texts

-- No text stands twice.
abbrev pub Nodup : List String → Type 0
Nodup [] = Unit
Nodup (t ∷ texts) = (has_text t texts ≡ false) × Nodup texts

has_text-snoc :
    (t x : String) (texts : List String)
    → has_text t (texts ++ x ∷ []) ≡ (if has_text t texts then true else x == t)
has_text-snoc t x [] = ground arith
has_text-snoc t x (y ∷ texts) = ground (arith, has_text-snoc t x texts)

Nodup-snoc :
    (x : String) (texts : List String)
    → has_text x texts ≡ false
    → Nodup texts
    → Nodup (texts ++ x ∷ [])
Nodup-snoc x [] h n = (refl, tt)
Nodup-snoc x (y ∷ texts) h n = (
  ground (arith, has_text-snoc y x texts, eq_iff x y, eq_iff y x),
  Nodup-snoc x texts (ground arith) n.1,
)

-- The set of texts seen holds the texts of the snapshot, which are all different.
record IsReplay (acc : List String × List String) : Type 0 where
  same : (t : String) → has_text t acc.0 ≡ has_text t acc.1
  nodup : Nodup acc.1

step : String → List String × List String → List String × List String
step t (seen, snapshot) =
    if any (λ x. x == t) seen then (seen, snapshot) else (t ∷ seen, snapshot ++ t ∷ [])

take_items-step :
    (item : PendingMessage) (queue : List PendingMessage) (acc : List String × List String)
    → take_items (item ∷ queue) acc ≡ take_items queue (step item.text acc)
unfolding take_items step
take_items-step item queue (seen, snapshot) = refl

step-IsReplay :
    (t : String) (acc : List String × List String) → IsReplay acc → IsReplay (step t acc)
unfolding step
step-IsReplay t (seen, snapshot) v = elim (Bool-cases (has_text t seen)) [
  | inl old ↦ rw old v
  | inr new ↦ rw new (record {
    same = λ u. ground (arith, v.same u, has_text-snoc u t snapshot);
    nodup = Nodup-snoc t snapshot (ground (arith, v.same t)) v.nodup;
  })
]

-- A text of the snapshot stays in it, and the text of the round is put in.
step_keeps :
    (t u : String) (acc : List String × List String)
    → has_text u acc.1 ≡ true
    → has_text u (step t acc).1 ≡ true
unfolding step
step_keeps t u (seen, snapshot) h = ground (arith, has_text-snoc u t snapshot)

step_adds :
    (t : String) (acc : List String × List String) → IsReplay acc → has_text t (step t acc).1 ≡ true
unfolding step
step_adds t (seen, snapshot) v = ground (arith, v.same t, has_text-snoc t t snapshot, eq_iff t t)

take_items-IsReplay :
    (queue : List PendingMessage) (acc : List String × List String)
    → IsReplay acc
    → IsReplay (take_items queue acc)
take_items-IsReplay [] acc v = unfold take_items in v
take_items-IsReplay (item ∷ queue) acc v =
    rw (take_items-step item queue acc)
      (take_items-IsReplay queue (step item.text acc) (step-IsReplay item.text acc v))

take_items_keeps :
    (queue : List PendingMessage) (u : String) (acc : List String × List String)
    → has_text u acc.1 ≡ true
    → has_text u (take_items queue acc).1 ≡ true
take_items_keeps [] u acc h = unfold take_items in h
take_items_keeps (item ∷ queue) u acc h =
    rw (take_items-step item queue acc)
      (take_items_keeps queue u (step item.text acc) (step_keeps item.text u acc h))

-- Every text of the queue is in the snapshot.
abbrev pub AreReplayed : List PendingMessage → List String → Type 0
AreReplayed queue snapshot = All (λ item. has_text item.text snapshot ≡ true) queue

take_items-AreReplayed :
    (queue : List PendingMessage) (acc : List String × List String)
    → IsReplay acc
    → AreReplayed queue (take_items queue acc).1
unfolding take_items step
take_items-AreReplayed [] acc v = tt
take_items-AreReplayed (item ∷ queue) acc v = rw (take_items-step item queue acc) (
  take_items_keeps queue item.text (step item.text acc) (step_adds item.text acc v),
  take_items-AreReplayed queue (step item.text acc) (step-IsReplay item.text acc v),
)

module _ (now_ts : ℤ) where
  -- The messages that wait for a subject and have not been pruned.
  abbrev pub waiting : Map (List PendingMessage) → String → List PendingMessage
  waiting pending subject = prune_pending_queue (unwrap_or (lookup subject pending) []) now_ts

  take_each-keeps :
      (subjects : List String) (u : String) (acc : List String × List String)
      (pending : Map (List PendingMessage))
      → has_text u acc.1 ≡ true
      → has_text u (take_each now_ts subjects acc pending).1 ≡ true
  unfolding take_each
  take_each-keeps [] u acc pending h = h
  take_each-keeps (s ∷ rest) u acc pending h =
      take_each-keeps rest u _ _ (take_items_keeps (waiting pending s) u acc h)

  take_each-Nodup :
      (subjects : List String) (acc : List String × List String)
      (pending : Map (List PendingMessage))
      → IsReplay acc
      → Nodup (take_each now_ts subjects acc pending).1
  unfolding take_each
  take_each-Nodup [] acc pending v = v.nodup
  take_each-Nodup (s ∷ rest) acc pending v =
      take_each-Nodup rest _ _ (take_items-IsReplay (waiting pending s) acc v)

  take_each-AreReplayed_one :
      (subjects : List String) (j : String) (acc : List String × List String)
      (pending : Map (List PendingMessage))
      → IsReplay acc
      → In j subjects
      → AreReplayed (waiting pending j) (take_each now_ts subjects acc pending).1
  unfolding take_each
  take_each-AreReplayed_one [] j acc pending v i = elim i [ ]
  take_each-AreReplayed_one (s ∷ rest) j acc pending v i = elim (str_dec s j) [
    | yes same ↦
        let acc' = take_items (waiting pending s) acc in
        let here = take_items-AreReplayed (waiting pending s) acc v in
        rw (← same) (
          All-imp _ _ (λ item h. take_each-keeps rest item.text acc' (remove s pending) h)
            (waiting pending s) here)
    | no other ↦ elim (In-cons i) [
      | inl same ↦ absurd (other (sym same))
      | inr later ↦
          let ih =
            take_each-AreReplayed_one rest j (take_items (waiting pending s) acc) (remove s pending)
              (take_items-IsReplay (waiting pending s) acc v) later in
          rw (lookup-remove_ne s j pending other) at ih
    ]
  ]

  take_each-removes :
      (subjects : List String) (j : String) (acc : List String × List String)
      (pending : Map (List PendingMessage))
      → lookup j pending ≡ none
      → lookup j (take_each now_ts subjects acc pending).0 ≡ none
  unfolding take_each
  take_each-removes [] j acc pending h = h
  take_each-removes (s ∷ rest) j acc pending h =
      take_each-removes rest j _ _ (ground (arith, lookup-remove s j pending))

  take_each-AreGone :
      (subjects : List String) (acc : List String × List String)
      (pending : Map (List PendingMessage))
      → All (λ s. lookup s (take_each now_ts subjects acc pending).0 ≡ none) subjects
  unfolding take_each
  take_each-AreGone [] acc pending = tt
  take_each-AreGone (s ∷ rest) acc pending = (
    take_each-removes rest s _ _ (lookup-remove_self s pending),
    take_each-AreGone rest _ (remove s pending),
  )

start-IsReplay : IsReplay ([], [])
start-IsReplay = record { same = λ t. refl; nodup = tt }

-- Taking what waits for some subjects gives each text once, gives every text that pruning leaves
-- in the queue of any of them, and leaves no queue behind for any of them.
pub take_pending_for_subjects_once :
    (state : GatewayState) (subjects : List String) (now_ts : ℤ)
    → let (after, snapshot) = take_pending_for_subjects state subjects now_ts in
      Nodup snapshot
      × All (λ s. AreReplayed (waiting now_ts state.pending_by_subject s) snapshot) subjects
      × All (λ s. lookup s after.pending_by_subject ≡ none) subjects
unfolding take_pending_for_subjects
take_pending_for_subjects_once state subjects now_ts =
    let pending = state.pending_by_subject in
    (
      take_each-Nodup now_ts subjects ([], []) pending start-IsReplay,
      All-of_In _ subjects
          (λ j i. take_each-AreReplayed_one now_ts subjects j ([], []) pending start-IsReplay i),
      take_each-AreGone now_ts subjects ([], []) pending,
    )
