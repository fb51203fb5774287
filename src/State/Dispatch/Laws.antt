-- ===== src/State/Dispatch/Laws.antt =====
-- What a message for subjects reaches, and what the counts of a dispatch say.
use rust_http3_gateway.Prelude.{
  ℕ, suc, ◌+◌, ◌≤◌, ℤ, Bool, true, false, ◌&&◌, String, List, [], ◌∷◌, ◌++◌, Option, none, some,
  Map, lookup, is_empty, eqb, length, length-append, All, All-lookup, In, In-All, here, there,
  if_both, if◌then◌else◌, ◌≡◌, refl, sym, subst, ◌∙◌, arith, inl, inr, Option-cases,
}
use rust_http3_gateway.State.Types.{GatewayState, OutboundMessage, text, ConnectionHandle}
use rust_http3_gateway.State.Pending.{buffer_latest_for_subjects}
use rust_http3_gateway.State.Pending.Requeue.{some_subject}
use rust_http3_gateway.State.Sessions.{add_to_set, send, unregister_connection}
use rust_http3_gateway.State.Sessions.Index.{
  ids_of, IsFound, IsIndexed, add_to_set_keeps, add_to_set_adds, In-append, In-at_end,
}
use rust_http3_gateway.State.Dispatch.{
  add_all_to_set, collect_targets, unregister_each, buffer_sticky, send_text_to, send_each,
  deliver_text, send_to_subjects,
}

add_all_to_set_keeps :
    (i : String) (ids targets : List String) → In i targets → In i (add_all_to_set ids targets)
unfolding add_all_to_set
add_all_to_set_keeps i [] targets h = h
add_all_to_set_keeps i (id ∷ rest) targets h =
    add_all_to_set_keeps i rest _ (add_to_set_keeps i id targets h)

add_all_to_set_adds :
    (i : String) (ids targets : List String) → In i ids → In i (add_all_to_set ids targets)
unfolding add_all_to_set
add_all_to_set_adds i [] targets h = elim h [ ]
add_all_to_set_adds i (id ∷ rest) targets (here e) =
    add_all_to_set_keeps i rest _
      (subst (λ k. In k (add_to_set id targets)) (sym e) (add_to_set_adds id targets))
add_all_to_set_adds i (id ∷ rest) targets (there h) = add_all_to_set_adds i rest _ h

collect_targets_keeps :
    (i : String) (subjects : List String) (index : Map (List String)) (targets : List String)
    → In i targets
    → In i (collect_targets subjects index targets)
unfolding collect_targets
collect_targets_keeps i [] index targets h = h
collect_targets_keeps i (s ∷ rest) index targets h =
    collect_targets_keeps i rest index _ (add_all_to_set_keeps i (ids_of s index) targets h)

collect_targets_complete :
    (i s : String) (subjects : List String) (index : Map (List String)) (targets : List String)
    → In s subjects
    → IsFound index i s
    → In i (collect_targets subjects index targets)
unfolding collect_targets
collect_targets_complete i s [] index targets h f = elim h [ ]
collect_targets_complete i s (x ∷ rest) index targets (here e) f =
    collect_targets_keeps i rest index _
      (add_all_to_set_adds i (ids_of x index) targets (subst (λ k. In i (ids_of k index)) e f))
collect_targets_complete i s (x ∷ rest) index targets (there h) f =
    collect_targets_complete i s rest index _ h f

pub unregister_connection_sent :
    (s : GatewayState) (id : String) → (unregister_connection s id).0.sent ≡ s.sent
unfolding unregister_connection
unregister_connection_sent s id = elim (Option-cases (lookup id s.connections)) [
  | inl missing ↦ rw (missing, unregister_connection) refl
  | inr (handle, found) ↦ rw (found, unregister_connection) refl
]

unregister_each_sent :
    (ids : List String) (s : GatewayState) → (unregister_each ids s).sent ≡ s.sent
unfolding unregister_each
unregister_each_sent [] s = refl
unregister_each_sent (id ∷ rest) s =
    unregister_each_sent rest (unregister_connection s id).0 ∙ unregister_connection_sent s id

buffer_sticky_frame :
    (s : GatewayState) (subjects : List String) (message : String) (key : Option String)
    (now_ts : ℤ)
    → ((buffer_sticky s subjects message key now_ts).connections ≡ s.connections)
      × ((buffer_sticky s subjects message key now_ts).subjects ≡ s.subjects)
unfolding buffer_sticky buffer_latest_for_subjects
buffer_sticky_frame s subjects message none now_ts = (refl, refl)
buffer_sticky_frame s subjects message (some key) now_ts = (ground arith, ground arith)

module _ (live : ℕ → Bool) where
  -- A send that succeeds stands in what the channels took; nothing leaves it.
  send_text_to_frame :
      (s : GatewayState) (found : Option ConnectionHandle) (message : String)
      → (send_text_to live s found message).0.connections ≡ s.connections
  unfolding send_text_to send
  send_text_to_frame s none message = refl
  send_text_to_frame s (some handle) message = ground arith

  send_text_to_keeps :
      (x : ℕ × OutboundMessage) (s : GatewayState) (found : Option ConnectionHandle)
      (message : String)
      → In x s.sent
      → In x (send_text_to live s found message).0.sent
  unfolding send_text_to send
  send_text_to_keeps x s none message h = h
  send_text_to_keeps x s (some handle) message h =
      if_both (λ (o : GatewayState × Bool). In x o.0.sent) (live handle.sender)
        (In-append x s.sent _ h) h

  send_text_to_adds :
      (s : GatewayState) (handle : ConnectionHandle) (message : String)
      → live handle.sender ≡ true
      → In (handle.sender, text message) (send_text_to live s (some handle) message).0.sent
  unfolding send_text_to send
  send_text_to_adds s handle message up = rw up (In-at_end (handle.sender, text message) s.sent)

  send_each_keeps :
      (x : ℕ × OutboundMessage) (ids : List String) (message : String) (s : GatewayState)
      (enqueued : ℕ) (stale : List String)
      → In x s.sent
      → In x (send_each live ids message s enqueued stale).0.sent
  unfolding send_each
  send_each_keeps x [] message s enqueued stale h = h
  send_each_keeps x (id ∷ rest) message s enqueued stale h =
      send_each_keeps x rest message (send_text_to live s (lookup id s.connections) message).0 _ _
        (send_text_to_keeps x s (lookup id s.connections) message h)

  send_each_reaches :
      (id : String) (handle : ConnectionHandle) (ids : List String) (message : String)
      (s : GatewayState) (enqueued : ℕ) (stale : List String)
      → In id ids
      → lookup id s.connections ≡ some handle
      → live handle.sender ≡ true
      → In (handle.sender, text message) (send_each live ids message s enqueued stale).0.sent
  unfolding send_each
  send_each_reaches id handle [] message s enqueued stale i e up = elim i [ ]
  send_each_reaches id handle (j ∷ rest) message s enqueued stale (here same) e up =
      send_each_keeps (handle.sender, text message) rest message
        (send_text_to live s (lookup j s.connections) message).0 _ _
        (let found : lookup j s.connections ≡ some handle =
            subst (λ k. lookup k s.connections ≡ some handle) same e in
          rw found (send_text_to_adds s handle message up))
  send_each_reaches id handle (j ∷ rest) message s enqueued stale (there i) e up =
      send_each_reaches id handle rest message
        (send_text_to live s (lookup j s.connections) message).0 _ _ i
        (rw (send_text_to_frame s (lookup j s.connections) message) e) up

  -- Every target is either counted or found stale.
  send_each_counts :
      (ids : List String) (message : String) (s : GatewayState) (enqueued : ℕ) (stale : List String)
      → let (after, sent, gone) = send_each live ids message s enqueued stale in
        sent + length gone ≡ length ids + (enqueued + length stale)
  unfolding send_each
  send_each_counts [] message s enqueued stale = omega arith
  send_each_counts (id ∷ rest) message s enqueued stale =
      let (after, ok) = send_text_to live s (lookup id s.connections) message in
      ground (
        arith,
        length-append stale (id ∷ []),
        send_each_counts rest message after (if ok then suc enqueued else enqueued)
            (if ok then stale else stale ++ id ∷ []),
      )

  -- Where each connection is found at its subjects, a message that is not empty is taken by the
  -- channel of each connection that has one of the subjects asked for and whose receiver is
  -- there.
  pub send_to_subjects_reaches :
      (s : GatewayState) (subjects : List String) (message : String) (buffer : Bool)
      (key : Option String) (buffered_at requeued_at : ℤ) (id subject : String)
      (handle : ConnectionHandle)
      → IsIndexed s.connections s.subjects
      → is_empty message ≡ false
      → lookup id s.connections ≡ some handle
      → In subject subjects
      → In subject handle.info.subjects
      → live handle.sender ≡ true
      → In
          (handle.sender, text message)
          (send_to_subjects live s subjects message buffer key buffered_at requeued_at).0.sent
  unfolding send_to_subjects deliver_text
  send_to_subjects_reaches s subjects message buffer key buffered_at requeued_at id subject handle
        indexed nonempty found asked has up =
      let buffered = buffer_sticky s subjects message key buffered_at in
      let (same_connections, same_subjects) =
        buffer_sticky_frame s subjects message key buffered_at in
      let targets = collect_targets subjects buffered.subjects [] in
      let (delivered, enqueued, stale) = send_each live targets message buffered 0 [] in
      let place : In id targets =
        collect_targets_complete id subject subjects buffered.subjects [] asked (
          rw same_subjects (
            In-All (IsFound s.subjects id) subject handle.info.subjects
              (All-lookup (λ e. All (IsFound s.subjects e.0) e.1.info.subjects) id handle
                s.connections indexed found)
              has)) in
      let taken : In (handle.sender, text message) delivered.sent =
        send_each_reaches id handle targets message buffered 0 [] place (rw same_connections found)
          up in
      let cleaned : In (handle.sender, text message) (unregister_each stale delivered).sent =
        rw (unregister_each_sent stale delivered) taken in
      rw (some_subject subject subjects asked, nonempty)
        (if_both (λ (x : GatewayState). In (handle.sender, text message) x.sent)
          (eqb enqueued 0 && buffer) cleaned cleaned)

  -- No more sends succeed than there are targets.
  send_to_subjects_counts :
      (s : GatewayState) (subjects : List String) (message : String) (buffer : Bool)
      (key : Option String) (buffered_at requeued_at : ℤ)
      → let result =
          (send_to_subjects live s subjects message buffer key buffered_at requeued_at).1 in
        result.enqueued_count ≤ result.attempted_count
  unfolding send_to_subjects deliver_text
  send_to_subjects_counts s subjects message buffer key buffered_at requeued_at =
      let buffered = buffer_sticky s subjects message key buffered_at in
      ground (
        arith,
        send_each_counts (collect_targets subjects buffered.subjects []) message buffered 0 [],
      )
