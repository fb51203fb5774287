-- ===== src/State/Dispatch/Undelivered.antt =====
-- A message that reaches nobody waits, and goes to the next connection of its subjects.
use rust_http3_gateway.Prelude.{
  ℕ, ℤ, Bool, true, false, ◌&&◌, ◌||◌, String, List, [], ◌∷◌, Option, some, Map, lookup, ◌≡◌, refl,
  sym, subst, ◌∙◌, In-All, In, here, there, inl, inr, arith, any_sound, ◌==◌, eq_iff, is_empty,
  is_nil, eqb, older_than, if_true, if_false, Option-cases,
}
use rust_http3_gateway.State.Types.{
  GatewayState, PendingMessage, ConnectionInfo, OutboundMessage, text, close, DispatchResult,
  pending_ttl_seconds,
}
use rust_http3_gateway.State.Pending.{take_pending_for_subjects}
use rust_http3_gateway.State.Pending.Laws.{prune_pending_queue-IsPushed_young}
use rust_http3_gateway.State.Pending.Delivery.{EndsWith}
use rust_http3_gateway.State.Pending.Replay.{
  has_text, AreReplayed, waiting, take_pending_for_subjects_once,
}
use rust_http3_gateway.State.Pending.Requeue.{
  plain_message, some_subject, requeue_for_subjects-EndsWith,
}
use rust_http3_gateway.State.Sessions.{
  unregister_connection, send, evict_connection, evict_all, push_sent, replaced_instances,
  send_texts, add_connection, deliver_pending, register_connection,
}
use rust_http3_gateway.State.Sessions.Index.{In-append, In-at_end}
use rust_http3_gateway.State.Dispatch.{buffer_sticky, deliver_text, send_to_subjects}

unregister_connection_pending :
    (s : GatewayState) (id : String)
    → (unregister_connection s id).0.pending_by_subject ≡ s.pending_by_subject
unfolding unregister_connection
unregister_connection_pending s id = elim (Option-cases (lookup id s.connections)) [
  | inl missing ↦ rw (missing, unregister_connection) refl
  | inr (handle, found) ↦ rw (found, unregister_connection) refl
]

-- What a queue that ends with the message holds of it, once it has been pruned.
In-waiting :
    (item : PendingMessage) (now_ts : ℤ) (pending : Map (List PendingMessage)) (subject : String)
    → EndsWith (λ _. Unit) item pending subject
    → older_than pending_ttl_seconds now_ts item.enqueued_at ≡ false
    → In item (waiting now_ts pending subject)
In-waiting item now_ts pending subject (queue, found, pushed) young =
    let kept =
      prune_pending_queue-IsPushed_young (λ _. Unit {0}) item now_ts pushed.front young
        pushed.of_front in
    rw (found, pushed.shape, kept.shape) (In-at_end item kept.front)

In-of_has_text : (t : String) (texts : List String) → has_text t texts ≡ true → In t texts
In-of_has_text t texts h =
    let (x, i, e) = any_sound (λ x. x == t) texts h in subst (λ y. In y texts) ((eq_iff x t).0 e) i

module _ (live : ℕ → Bool) where
  evict_connection_pending :
      (s : GatewayState) (id : String) (code : ℕ) (reason : String)
      → (evict_connection live s id (some (code, reason))).0.pending_by_subject
        ≡ s.pending_by_subject
  unfolding evict_connection send
  evict_connection_pending s id code reason = elim (Option-cases (lookup id s.connections)) [
    | inl missing ↦ rw (missing, evict_connection) (unregister_connection_pending s id)
    | inr (handle, found) ↦
        let sent = (send live s handle.sender (close code reason)).0 in
        let same : sent.pending_by_subject ≡ s.pending_by_subject = ground arith in
        rw (found, evict_connection) (unregister_connection_pending sent id ∙ same)
  ]

  evict_all_pending :
      (code : ℕ) (reason : String) (ids : List String) (s : GatewayState)
      (evicted : List ConnectionInfo)
      → (evict_all live (code, reason) ids s evicted).0.pending_by_subject ≡ s.pending_by_subject
  unfolding evict_all
  evict_all_pending code reason [] s evicted = refl
  evict_all_pending code reason (id ∷ rest) s evicted =
      evict_all_pending code reason rest (evict_connection live s id (some (code, reason))).0 _
      ∙ evict_connection_pending s id code reason

  send_texts_keeps :
      (x : ℕ × OutboundMessage) (channel : ℕ) (texts : List String) (s : GatewayState)
      → In x s.sent
      → In x (send_texts live channel texts s).sent
  unfolding send_texts
  send_texts_keeps x channel [] s h = h
  send_texts_keeps x channel (t ∷ rest) s h =
      send_texts_keeps x channel rest (push_sent s channel (text t)) (In-append x s.sent _ h)

  send_texts_adds :
      (channel : ℕ) (t : String) (texts : List String) (s : GatewayState)
      → In t texts
      → In (channel, text t) (send_texts live channel texts s).sent
  unfolding send_texts
  send_texts_adds channel t [] s i = elim i [ ]
  send_texts_adds channel t (x ∷ rest) s (here e) =
      send_texts_keeps (channel, text t) channel rest _ (rw e (In-at_end (channel, text x) s.sent))
  send_texts_adds channel t (x ∷ rest) s (there i) = send_texts_adds channel t rest _ i

  deliver_pending_reaches :
      (s : GatewayState) (info : ConnectionInfo) (channel : ℕ) (now_ts : ℤ) (item : PendingMessage)
      (subject : String)
      → EndsWith (λ _. Unit) item s.pending_by_subject subject
      → older_than pending_ttl_seconds now_ts item.enqueued_at ≡ false
      → In subject info.subjects
      → In (channel, text item.text) (deliver_pending live s info channel now_ts).sent
  unfolding deliver_pending
  deliver_pending_reaches s info channel now_ts item subject ends young has =
      let (taken, texts) = take_pending_for_subjects s info.subjects now_ts in
      let (nodup, replayed, gone) = take_pending_for_subjects_once s info.subjects now_ts in
      let all_of_subject =
        In-All (λ j. AreReplayed (waiting now_ts s.pending_by_subject j) texts) subject
          info.subjects replayed has in
      let in_texts =
        In-All (λ (i : PendingMessage). has_text i.text texts ≡ true) item
          (waiting now_ts s.pending_by_subject subject) all_of_subject
          (In-waiting item now_ts s.pending_by_subject subject ends young) in
      send_texts_adds channel item.text texts taken (In-of_has_text item.text texts in_texts)

  -- A message that may be buffered and that no connection takes waits for each of its subjects.
  send_to_subjects_waits :
      (s : GatewayState) (subjects : List String) (message : String) (key : Option String)
      (buffered_at requeued_at : ℤ) (subject : String)
      → is_empty message ≡ false
      → In subject subjects
      → (send_to_subjects live s subjects message true key buffered_at requeued_at).1.enqueued_count
        ≡ 0
      → EndsWith
          (λ _. Unit)
          (plain_message message requeued_at)
          (send_to_subjects live s subjects message true key buffered_at
            requeued_at).0.pending_by_subject
          subject
  unfolding send_to_subjects
  send_to_subjects_waits s subjects message key buffered_at requeued_at subject m asked untaken =
      let (cleaned, result) =
        deliver_text live (buffer_sticky s subjects message key buffered_at) subjects message in
      let refused : (is_nil subjects || is_empty message) ≡ false =
        rw (some_subject subject subjects asked, m) refl in
      let zero : result.enqueued_count ≡ 0 = rw refused at untaken in
      let At = λ (after : GatewayState).
        EndsWith (λ _. Unit {0}) (plain_message message requeued_at) after.pending_by_subject
          subject in
      if_false (λ (x : GatewayState × DispatchResult). At x.0) (is_nil subjects || is_empty message)
        _ _ refused
        (if_true At (eqb result.enqueued_count 0 && true) _ _ (rw zero refl)
          (requeue_for_subjects-EndsWith cleaned subjects message requeued_at subject m asked))

  -- A message that is not empty, that may be buffered and that no connection takes is taken by
  -- the channel of the connection that registers next, where this one has one of its subjects
  -- and the message is not older than thirty seconds.
  pub undelivered_reaches_next :
      (s : GatewayState) (subjects : List String) (message : String) (key : Option String)
      (buffered_at requeued_at : ℤ) (subject : String) (id user_id instance_id : String)
      (its_subjects : List String) (connected_at now_ts : ℤ)
      → is_empty message ≡ false
      → In subject subjects
      → (send_to_subjects live s subjects message true key buffered_at requeued_at).1.enqueued_count
        ≡ 0
      → In subject its_subjects
      → older_than pending_ttl_seconds now_ts requeued_at ≡ false
      → let after = (send_to_subjects live s subjects message true key buffered_at requeued_at).0 in
        let (joined, info, channel, evicted) =
          register_connection live after id user_id instance_id its_subjects connected_at now_ts in
        In (channel, text message) joined.sent
  unfolding register_connection
  undelivered_reaches_next s subjects message key buffered_at requeued_at subject id user_id
        instance_id its_subjects connected_at now_ts m asked untaken has young =
      let after = (send_to_subjects live s subjects message true key buffered_at requeued_at).0 in
      let instances = replaced_instances live after id user_id instance_id in
      let cleared = (evict_all live (1000, "reconnect") instances after []).0 in
      let info : ConnectionInfo = record {
        connection_id = id;
        user_id = user_id;
        client_instance_id = instance_id;
        subjects = its_subjects;
        connected_at = connected_at;
        last_seen_at = connected_at;
      } in
      let item = plain_message message requeued_at in
      let waits =
        send_to_subjects_waits s subjects message key buffered_at requeued_at subject m asked
          untaken in
      deliver_pending_reaches (add_connection live cleared info) info cleared.next_channel now_ts
        item subject
        (subst (λ p. EndsWith (λ _. Unit {0}) item p subject)
          (sym (evict_all_pending 1000 "reconnect" instances after [])) waits)
        young has
