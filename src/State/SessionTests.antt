-- ===== src/State/SessionTests.antt =====
-- Sessions, requests and messages of the shared state on concrete inputs.
use rust_http3_gateway.Prelude.{
  ◌==◌, pos, true, false, String, [], ◌∷◌, none, some, lookup, insert, remove, str_dec, trim,
  trim_start, trim_end, is_whitespace, saturating_sub, All, In, here, ◌≡◌, refl, ◌⊎◌,
}
use rust_http3_gateway.State.Types.{GatewayState, new, ConnectionHandle, PendingMessage, text}
use rust_http3_gateway.State.RelayContexts.{apply_relay_context_snapshot}
use rust_http3_gateway.State.RelayAuth.{authorize_relay_hotpath}
use rust_http3_gateway.State.Sessions.Laws.{unregister_connection_forgets}
use rust_http3_gateway.State.Readiness.{is_stale, prune_stale_connections}
use rust_http3_gateway.State.Readiness.Stale.{IsPrunedTo, prune_stale_connections-IsPrunedTo}
use rust_http3_gateway.State.Dispatch.Undelivered.{undelivered_reaches_next}
use rust_http3_gateway.State.Sessions.{
  unregister_connection, register_connection, evict_all, index_subjects, deliver_pending,
  send_texts,
}
use rust_http3_gateway.State.Pending.{
  take_pending_for_subjects, take_each, take_items, prune_pending_queue, drop_expired,
  drop_overflow, buffer_latest_for_subjects, has_sticky_key,
}
use rust_http3_gateway.State.Pending.Laws.{IsPruned, prune_pending_queue-IsPruned}
use rust_http3_gateway.State.Pending.Delivery.{
  EndsWith, sticky_message, buffer_latest_for_subjects_replaces,
}
use rust_http3_gateway.State.Pending.Replay.{
  Nodup, AreReplayed, waiting, take_pending_for_subjects_once,
}
use rust_http3_gateway.State.RequestRoutes.{
  bind_request_route, prune_request_routes, resolve_request_route,
}
use rust_http3_gateway.State.RequestRoutes.Laws.{
  IsResolved, IsUnresolved, resolve_request_route_cases, resolve-bind,
}
use rust_http3_gateway.State.Dispatch.{
  send_to_subjects, deliver_text, buffer_sticky, collect_targets, add_all_to_set, send_each,
}
use rust_http3_gateway.State.Dispatch.Laws.{send_to_subjects_reaches}
use rust_http3_gateway.State.Invariant.{IsWellFormed}
use rust_http3_gateway.State.Invariant.Reachable.{
  starts, continues, registers, applies, authorizes, Reachable-IsWellFormed,
}
use rust_http3_gateway.State.Tests.{same_case, transfer, newer}

abbrev old_item : PendingMessage
old_item = record { text = "old"; enqueued_at = pos 5; sticky_key = some "k" }

-- The same message waits for two subjects.
abbrev two_waiting : GatewayState
unfolding new
two_waiting = record (new none) {
  pending_by_subject = ("a", old_item ∷ []) ∷ ("b", old_item ∷ []) ∷ [];
}

-- A session of ann, registered in a new state.
abbrev ann_is_here : GatewayState
unfolding register_connection new
ann_is_here =
    (register_connection (λ _. true) (new (some 2)) "k1" "ann" "tab" ("room" ∷ "ann" ∷ []) (pos 10)
      (pos 10)).0

abbrev handle_of_ann : ConnectionHandle
handle_of_ann = record {
  info = record {
    connection_id = "k1";
    user_id = "ann";
    client_instance_id = "tab";
    subjects = "room" ∷ "ann" ∷ [];
    connected_at = pos 10;
    last_seen_at = pos 10;
  };
  sender = 0;
}

Reachable-IsWellFormed_example :
    IsWellFormed
      (authorize_relay_hotpath
        (apply_relay_context_snapshot ann_is_here newer (pos 90))
        "ann"
        "file_transfer_chunk"
        transfer
        "t1"
        ("bob" ∷ [])
        (some "n1")
        none
        (pos 100)).0
unfolding ann_is_here
Reachable-IsWellFormed_example =
    Reachable-IsWellFormed
      (authorize_relay_hotpath (apply_relay_context_snapshot ann_is_here newer (pos 90)) "ann"
        "file_transfer_chunk" transfer "t1" ("bob" ∷ []) (some "n1") none (pos 100)).0
      (continues
        (continues
          (continues (starts (some 2))
            (registers (λ _. true) "k1" "ann" "tab" ("room" ∷ "ann" ∷ []) (pos 10) (pos 10)))
          (applies newer (pos 90)))
        (authorizes "ann" "file_transfer_chunk" transfer "t1" ("bob" ∷ []) (some "n1") none
          (pos 100)))

send_to_subjects_reaches_example :
    In
      (0, text "hello")
      (send_to_subjects
        (λ _. true)
        ann_is_here
        ("room" ∷ [])
        "hello"
        true
        none
        (pos 20)
        (pos 20)).0.sent
unfolding ann_is_here register_connection evict_all index_subjects deliver_pending
    take_pending_for_subjects take_each take_items prune_pending_queue drop_expired drop_overflow
    send_texts lookup insert remove str_dec new
send_to_subjects_reaches_example =
    send_to_subjects_reaches (λ _. true) ann_is_here ("room" ∷ []) "hello" true none (pos 20)
      (pos 20) "k1" "room" handle_of_ann ((here refl, (here refl, tt)), tt) refl refl (here refl)
      (here refl) refl

-- A request of ann is bound.
abbrev request_bound : GatewayState
unfolding ann_is_here bind_request_route
request_bound = bind_request_route ann_is_here " r1 " "k1" "ann" (pos 30)

resolve_request_route_cases_example :
    let (after, result) = resolve_request_route request_bound "r1" ("room" ∷ []) (pos 40) in
    ((c : String) × (result ≡ some c)
      × (after ≡ request_bound)
      × IsResolved request_bound (trim "r1") ("room" ∷ []) (pos 40) c)
    ⊎ ((result ≡ none) × IsUnresolved request_bound (trim "r1") ("room" ∷ []) (pos 40) after)
unfolding trim trim_start trim_end is_whitespace
resolve_request_route_cases_example =
    resolve_request_route_cases request_bound "r1" ("room" ∷ []) (pos 40) refl

resolve-bind_example :
    (resolve_request_route
      (bind_request_route ann_is_here " r1 " "k1" "ann" (pos 30))
      " r1 "
      ("room" ∷ [])
      (pos 40)).1
    ≡ some "k1"
unfolding ann_is_here register_connection evict_all index_subjects deliver_pending
    take_pending_for_subjects take_each take_items prune_pending_queue drop_expired drop_overflow
    send_texts lookup insert remove str_dec new trim trim_start trim_end is_whitespace
    saturating_sub
resolve-bind_example =
    resolve-bind ann_is_here " r1 " "k1" handle_of_ann ("room" ∷ []) (pos 30) (pos 40) tt refl refl
      refl refl refl refl

take_pending_for_subjects_once_example :
    let (after, snapshot) = take_pending_for_subjects two_waiting ("a" ∷ "b" ∷ []) (pos 10) in
    Nodup snapshot
    × All
        (λ s. AreReplayed (waiting (pos 10) two_waiting.pending_by_subject s) snapshot)
        ("a" ∷ "b" ∷ [])
    × All (λ s. lookup s after.pending_by_subject ≡ none) ("a" ∷ "b" ∷ [])
take_pending_for_subjects_once_example =
    take_pending_for_subjects_once two_waiting ("a" ∷ "b" ∷ []) (pos 10)

buffer_latest_for_subjects_replaces_example :
    All
      (EndsWith
        (λ i. has_sticky_key "k" i ≡ false)
        (sticky_message "new" "k" (pos 10))
        (buffer_latest_for_subjects two_waiting ("a" ∷ []) "new" "k" (pos 10)).pending_by_subject)
      ("a" ∷ [])
buffer_latest_for_subjects_replaces_example =
    buffer_latest_for_subjects_replaces two_waiting ("a" ∷ []) "new" "k" (pos 10) refl refl

prune_pending_queue-IsPruned_example :
    IsPruned
      (pos 40)
      (old_item ∷ old_item ∷ [])
      (prune_pending_queue (old_item ∷ old_item ∷ []) (pos 40))
prune_pending_queue-IsPruned_example =
    prune_pending_queue-IsPruned (old_item ∷ old_item ∷ []) (pos 40)

unregister_connection_forgets_example :
    let (after, info) = unregister_connection request_bound "k1" in
    (info ≡ some handle_of_ann.info)
    × (lookup "k1" after.connections ≡ none)
    × (lookup "k1" after.ready_connections ≡ none)
    × All (λ e. (e.1.connection_id == "k1") ≡ false) after.request_routes
unfolding ann_is_here register_connection evict_all index_subjects deliver_pending
    take_pending_for_subjects take_each take_items prune_pending_queue drop_expired drop_overflow
    send_texts lookup insert remove str_dec new trim trim_start trim_end is_whitespace
    saturating_sub request_bound bind_request_route prune_request_routes
unregister_connection_forgets_example =
    unregister_connection_forgets request_bound "k1" handle_of_ann (refl, tt) refl

-- Three connections of ann, two of which are ready; one connection is allowed.
abbrev three_of_ann : GatewayState
unfolding new
three_of_ann = record (new (some 1)) {
  connections =
      ("k1", handle_of_ann)
      ∷ ("k2", record handle_of_ann { info = record handle_of_ann.info { connected_at = pos 20 } })
      ∷ ("k3", record handle_of_ann { info = record handle_of_ann.info { connected_at = pos 5 } })
      ∷ [];
  ready_connections =
      ("k2", record { user_id = "ann"; ready_at = pos 21 })
      ∷ ("k1", record { user_id = "ann"; ready_at = pos 22 })
      ∷ [];
}

undelivered_reaches_next_example :
    let after =
      (send_to_subjects (λ _. true) (new none) ("room" ∷ []) "hello" true none (pos 5) (pos 6)).0 in
    let (joined, info, channel, evicted) =
      register_connection (λ _. true) after "k1" "ann" "tab" ("room" ∷ []) (pos 10) (pos 10) in
    In (channel, text "hello") joined.sent
unfolding new send_to_subjects deliver_text buffer_sticky collect_targets add_all_to_set send_each
    lookup saturating_sub
undelivered_reaches_next_example =
    undelivered_reaches_next (λ _. true) (new none) ("room" ∷ []) "hello" none (pos 5) (pos 6)
      "room" "k1" "ann" "tab" ("room" ∷ []) (pos 10) (pos 10) refl (here refl) refl (here refl) refl

-- One connection that was silent for long, and one that was not.
abbrev two_here : GatewayState
unfolding new
two_here = record (new none) {
  connections =
      ("k1", handle_of_ann)
      ∷ ("k2", record handle_of_ann { info = record handle_of_ann.info { last_seen_at = pos 90 } })
      ∷ [];
}

prune_stale_connections-IsPrunedTo_example :
    IsPrunedTo
      (is_stale (pos 100) (pos 30))
      two_here.connections
      (prune_stale_connections two_here (pos 100) (pos 30)).0.connections
unfolding two_here lookup str_dec
prune_stale_connections-IsPrunedTo_example =
    prune_stale_connections-IsPrunedTo two_here (pos 100) (pos 30) (refl, (refl, tt)) refl
