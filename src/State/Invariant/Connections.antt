-- ===== src/State/Invariant/Connections.antt =====
-- The operations on connections keep the state well formed.
use rust_http3_gateway.Prelude.{
  insert-Distinct, remove-Distinct, remove_all-Distinct, ℕ, ◌-◌, ℤ, pos, Bool, ◌||◌, String, List,
  [], ◌∷◌, Option, none, some, lookup, keys, is_empty, leb, leb_ℤ, length, retain, sort_by, ◌==◌,
  All, All-insert, All-lookup, if_both, inl, inr, Option-cases,
}
use rust_http3_gateway.State.Types.{
  GatewayState, OutboundMessage, text, close, ConnectionInfo, ConnectionHandle,
}
use rust_http3_gateway.State.Pending.{take_pending_for_subjects}
use rust_http3_gateway.State.Sessions.{
  unregister_connection, push_sent, send, evict_connection, evict_all, replaced_instances,
  send_texts, add_connection, deliver_pending, register_connection,
}
use rust_http3_gateway.State.Sessions.Index.{
  IsFound, unregister_connection-IsIndexed, insert_connection-IsIndexed,
}
use rust_http3_gateway.State.Readiness.{
  ready_of_user, connected_before, evict_oldest, enforce_limit, mark_session_ready,
  mark_connection_alive, unregister_all, is_stale, prune_stale_connections,
}
use rust_http3_gateway.State.Dispatch.{unregister_each}
use rust_http3_gateway.State.Invariant.{IsWellFormed, take_pending_for_subjects-IsWellFormed}

pub unregister_connection-IsWellFormed :
    (s : GatewayState) (id : String) → IsWellFormed s → IsWellFormed (unregister_connection s id).0
unfolding unregister_connection
unregister_connection-IsWellFormed s id (i, b, r, c, o, k, n) =
    let indexed = unregister_connection-IsIndexed s id i in
    elim (Option-cases (lookup id s.connections)) [
      | inl missing ↦ rw (missing, unregister_connection) (i, b, r, c, o, k, n)
      | inr (handle, found) ↦
          rw (found, unregister_connection)
            (
              rw (found, unregister_connection) at indexed,
              b,
              remove_all-Distinct (keys (retain (λ e. e.1.connection_id == id) s.request_routes))
                  s.request_routes r,
              c,
              o,
              k,
              remove-Distinct id s.connections n,
            )
    ]

pub unregister_each-IsWellFormed :
    (ids : List String) (s : GatewayState) → IsWellFormed s → IsWellFormed (unregister_each ids s)
unfolding unregister_each
unregister_each-IsWellFormed [] s h = h
unregister_each-IsWellFormed (id ∷ rest) s h =
    unregister_each-IsWellFormed rest (unregister_connection s id).0
      (unregister_connection-IsWellFormed s id h)

unregister_all-IsWellFormed :
    (ids : List String) (s : GatewayState) (evicted : List ConnectionInfo)
    → IsWellFormed s
    → IsWellFormed (unregister_all ids s evicted).0
unfolding unregister_all
unregister_all-IsWellFormed [] s evicted h = h
unregister_all-IsWellFormed (id ∷ rest) s evicted h =
    unregister_all-IsWellFormed rest (unregister_connection s id).0 _
      (unregister_connection-IsWellFormed s id h)

pub prune_stale_connections-IsWellFormed :
    (s : GatewayState) (now_ts stale_after_seconds : ℤ)
    → IsWellFormed s
    → IsWellFormed (prune_stale_connections s now_ts stale_after_seconds).0
unfolding prune_stale_connections
prune_stale_connections-IsWellFormed s now_ts stale_after_seconds h =
    if_both (λ (x : GatewayState × List ConnectionInfo). IsWellFormed x.0)
      (leb_ℤ stale_after_seconds (pos 0)) h
      (unregister_all-IsWellFormed
        (keys (retain (is_stale now_ts stale_after_seconds) s.connections)) s [] h)

-- The time of the last sign of life is no part of the index.
pub mark_connection_alive-IsWellFormed :
    (s : GatewayState) (id : String) (timestamp : ℤ)
    → IsWellFormed s
    → IsWellFormed (mark_connection_alive s id timestamp)
unfolding mark_connection_alive
mark_connection_alive-IsWellFormed s id timestamp (i, b, r, c, o, k, n) =
    elim (Option-cases (lookup id s.connections)) [
      | inl missing ↦ rw (missing, mark_connection_alive) (i, b, r, c, o, k, n)
      | inr (handle, found) ↦
          let At =
            λ (e : String × ConnectionHandle). All (IsFound s.subjects e.0) e.1.info.subjects in
          rw (found, mark_connection_alive)
            (
              All-insert At id _ s.connections i (All-lookup At id handle s.connections i found),
              b,
              r,
              c,
              o,
              k,
              insert-Distinct id _ s.connections n,
            )
    ]

module _ (live : ℕ → Bool) where
  send_texts-IsWellFormed :
      (channel : ℕ) (texts : List String) (s : GatewayState)
      → IsWellFormed s
      → IsWellFormed (send_texts live channel texts s)
  unfolding send_texts
  send_texts-IsWellFormed channel [] s h = h
  send_texts-IsWellFormed channel (t ∷ rest) s h =
      send_texts-IsWellFormed channel rest (push_sent s channel (text t)) h

  pub send-IsWellFormed :
      (s : GatewayState) (channel : ℕ) (message : OutboundMessage)
      → IsWellFormed s
      → IsWellFormed (send live s channel message).0
  unfolding send
  send-IsWellFormed s channel message h =
      if_both (λ (x : GatewayState × Bool). IsWellFormed x.0) (live channel) h h

  pub evict_connection-IsWellFormed :
      (s : GatewayState) (id : String) (reason : Option (ℕ × String))
      → IsWellFormed s
      → IsWellFormed (evict_connection live s id reason).0
  unfolding evict_connection
  evict_connection-IsWellFormed s id none h = unregister_connection-IsWellFormed s id h
  evict_connection-IsWellFormed s id (some (code, reason)) h =
      elim (Option-cases (lookup id s.connections)) [
        | inl missing ↦ rw (missing, evict_connection) (unregister_connection-IsWellFormed s id h)
        | inr (handle, found) ↦
            rw (found, evict_connection)
              (unregister_connection-IsWellFormed (send live s handle.sender (close code reason)).0
                id (send-IsWellFormed s handle.sender (close code reason) h))
      ]

  evict_all-IsWellFormed :
      (reason : ℕ × String) (ids : List String) (s : GatewayState) (evicted : List ConnectionInfo)
      → IsWellFormed s
      → IsWellFormed (evict_all live reason ids s evicted).0
  unfolding evict_all
  evict_all-IsWellFormed reason [] s evicted h = h
  evict_all-IsWellFormed reason (id ∷ rest) s evicted h =
      evict_all-IsWellFormed reason rest (evict_connection live s id (some reason)).0 _
        (evict_connection-IsWellFormed s id (some reason) h)

  evict_oldest-IsWellFormed :
      (overflow : ℕ) (id : String) (ready : List (String × ℤ)) (s : GatewayState)
      (evicted : List ConnectionInfo)
      → IsWellFormed s
      → IsWellFormed (evict_oldest live overflow id ready s evicted).0
  unfolding evict_oldest
  evict_oldest-IsWellFormed overflow id [] s evicted h = h
  evict_oldest-IsWellFormed overflow id ((stale_id, at) ∷ rest) s evicted h =
      let Kept = λ (x : GatewayState × List ConnectionInfo). IsWellFormed x.0 in
      if_both Kept (leb overflow (length evicted)) h (
        if_both Kept (stale_id == id) (evict_oldest-IsWellFormed overflow id rest s evicted h) (
          evict_oldest-IsWellFormed overflow id rest
            (evict_connection live s stale_id (some (4409, "session_replaced"))).0 _
            (evict_connection-IsWellFormed s stale_id (some (4409, "session_replaced")) h)))

  enforce_limit-IsWellFormed :
      (s : GatewayState) (id user_id : String) (limit : Option ℕ)
      → IsWellFormed s
      → IsWellFormed (enforce_limit live s id user_id limit).0
  unfolding enforce_limit
  enforce_limit-IsWellFormed s id user_id none h = h
  enforce_limit-IsWellFormed s id user_id (some max) h =
      let ready = ready_of_user s.connections user_id s.ready_connections in
      if_both (λ (x : GatewayState × List ConnectionInfo). IsWellFormed x.0)
        (leb (length ready) max) h
        (evict_oldest-IsWellFormed (length ready - max) id (sort_by connected_before ready) s [] h)

  pub mark_session_ready-IsWellFormed :
      (s : GatewayState) (id user_id : String) (now_ts : ℤ)
      → IsWellFormed s
      → IsWellFormed (mark_session_ready live s id user_id now_ts).0
  unfolding mark_session_ready
  mark_session_ready-IsWellFormed s id user_id now_ts h =
      if_both (λ (x : GatewayState × List ConnectionInfo). IsWellFormed x.0)
        (is_empty id || is_empty user_id) h
        (enforce_limit-IsWellFormed _ id user_id s.max_connections_per_user h)

  add_connection-IsWellFormed :
      (s : GatewayState) (info : ConnectionInfo)
      → IsWellFormed s
      → IsWellFormed (add_connection live s info)
  add_connection-IsWellFormed s info (i, b, r, c, o, k, n) = (
    insert_connection-IsIndexed s.connections s.subjects info.connection_id
        (record { info = info; sender = s.next_channel }) i,
    b,
    r,
    c,
    o,
    k,
    insert-Distinct info.connection_id _ s.connections n,
  )

  deliver_pending-IsWellFormed :
      (s : GatewayState) (info : ConnectionInfo) (channel : ℕ) (now_ts : ℤ)
      → IsWellFormed s
      → IsWellFormed (deliver_pending live s info channel now_ts)
  unfolding deliver_pending
  deliver_pending-IsWellFormed s info channel now_ts h =
      send_texts-IsWellFormed channel (take_pending_for_subjects s info.subjects now_ts).1 _
        (take_pending_for_subjects-IsWellFormed s info.subjects now_ts h)

  pub register_connection-IsWellFormed :
      (s : GatewayState) (id user_id instance_id : String) (subjects : List String)
      (connected_at now_ts : ℤ)
      → IsWellFormed s
      → IsWellFormed
          (register_connection live s id user_id instance_id subjects connected_at now_ts).0
  unfolding register_connection
  register_connection-IsWellFormed s id user_id instance_id subjects connected_at now_ts h =
      let instances = replaced_instances live s id user_id instance_id in
      let cleared = (evict_all live (1000, "reconnect") instances s []).0 in
      let info : ConnectionInfo = record {
        connection_id = id;
        user_id = user_id;
        client_instance_id = instance_id;
        subjects = subjects;
        connected_at = connected_at;
        last_seen_at = connected_at;
      } in
      deliver_pending-IsWellFormed (add_connection live cleared info) info cleared.next_channel
        now_ts
        (add_connection-IsWellFormed cleared info
          (evict_all-IsWellFormed (1000, "reconnect") instances s [] h))
