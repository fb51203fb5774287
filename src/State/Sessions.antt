-- ===== src/State/Sessions.antt =====
-- state.rs: connections, from registration to their end. `live` says of a channel whether its
-- receiver is still there, which is when a send succeeds.
pub mod Index
pub mod Laws
use rust_http3_gateway.Prelude.{
  ℕ, suc, ◌+◌, ◌-◌, ℤ, pos, Bool, true, false, not, ◌&&◌, ◌||◌, String, List, [], ◌∷◌, ◌++◌, Option,
  none, some, Map, lookup, insert, remove, remove_all, keys, ◌==◌, is_empty, is_nil, any, retain,
  length, leb, leb_ℤ, ltb_ℤ, older_than, saturating_sub, sort_by, map, unwrap_or, if◌then◌else◌,
}
use rust_http3_gateway.State.Types.{
  GatewayState, OutboundMessage, text, close, ConnectionInfo, ConnectionHandle, ReadyConnection,
}
use rust_http3_gateway.State.Pending.{take_pending_for_subjects}

-- A set of texts, in its order of iteration.
abbrev pub add_to_set : String → List String → List String
add_to_set id ids = if any (λ i. i == id) ids then ids else ids ++ id ∷ []

-- `subjects.entry(subject).or_insert_with(DashSet::new).insert(id)`, for each subject.
unfoldable pub index_subjects : String → List String → Map (List String) → Map (List String)
index_subjects id [] index = index
index_subjects id (subject ∷ rest) index =
    index_subjects id rest
      (insert subject (add_to_set id (unwrap_or (lookup subject index) [])) index)

-- One subject of a connection that ends; a set that becomes empty is removed.
unfoldable pub unindex : String → String → Map (List String) → Map (List String)
unindex id subject index = elim (lookup subject index) [
  | none ↦ index
  | some ids ↦
      let left = retain (λ i. not (i == id)) ids in
      if is_nil left then remove subject index else insert subject left index
]

unfoldable pub unindex_subjects : String → List String → Map (List String) → Map (List String)
unfolding unindex
unindex_subjects id [] index = index
unindex_subjects id (subject ∷ rest) index = unindex_subjects id rest (unindex id subject index)

unfoldable pub unregister_connection : GatewayState → String → GatewayState × Option ConnectionInfo
unfolding unindex_subjects
unregister_connection state connection_id = elim (lookup connection_id state.connections) [
  | none ↦ (state, none)
  | some handle ↦ (
    record state {
      connections = remove connection_id state.connections;
      ready_connections = remove connection_id state.ready_connections;
      subjects = unindex_subjects connection_id handle.info.subjects state.subjects;
      request_routes =
          remove_all (keys (retain (λ e. e.1.connection_id == connection_id) state.request_routes))
            state.request_routes;
    },
    some handle.info,
  )
]

-- What a channel takes.
abbrev pub push_sent : GatewayState → ℕ → OutboundMessage → GatewayState
push_sent state channel message = record state { sent = state.sent ++ (channel, message) ∷ [] }

module _ (live : ℕ → Bool) where
  -- `sender.send(message)`, with the outcome of `is_ok()`.
  unfoldable pub send : GatewayState → ℕ → OutboundMessage → GatewayState × Bool
  send state channel message =
      if live channel then (push_sent state channel message, true) else (state, false)

  unfoldable pub evict_connection :
      GatewayState → String → Option (ℕ × String) → GatewayState × Option ConnectionInfo
  unfolding send unregister_connection
  evict_connection state connection_id none = unregister_connection state connection_id
  evict_connection state connection_id (some (code, reason)) =
      elim (lookup connection_id state.connections) [
        | none ↦ unregister_connection state connection_id
        | some handle ↦
            unregister_connection (send state handle.sender (close code reason)).0 connection_id
      ]

  -- `if let Some(info) = self.evict_connection(..) { evicted.push(info) }`, for each connection.
  unfoldable pub evict_all :
      (ℕ × String)
      → List String
      → GatewayState
      → List ConnectionInfo
      → GatewayState × List ConnectionInfo
  unfolding evict_connection
  evict_all reason [] state evicted = (state, evicted)
  evict_all reason (id ∷ rest) state evicted =
      let (after, info) = evict_connection state id (some reason) in
      evict_all reason rest after (elim info [ none ↦ evicted | some i ↦ evicted ++ i ∷ [] ])

  -- The connections of the same user and client instance, other than the new one.
  abbrev pub is_same_instance : String → String → String → String × ConnectionHandle → Bool
  is_same_instance connection_id user_id client_instance_id (key, handle) =
      handle.info.user_id == user_id
      && handle.info.client_instance_id == client_instance_id
      && not (key == connection_id)

  -- The new channel's receiver is held by this function, so its sends succeed.
  unfoldable pub send_texts : ℕ → List String → GatewayState → GatewayState
  send_texts channel [] state = state
  send_texts channel (t ∷ rest) state = send_texts channel rest (push_sent state channel (text t))

  -- The ids collected before the eviction of a reconnecting client instance.
  abbrev pub replaced_instances : GatewayState → String → String → String → List String
  replaced_instances state connection_id user_id client_instance_id =
      if is_empty client_instance_id
      then []
      else keys
          (retain (is_same_instance connection_id user_id client_instance_id) state.connections)

  -- The new connection, with its channel, in the maps of the state.
  abbrev pub add_connection : GatewayState → ConnectionInfo → GatewayState
  add_connection state info = record state {
    connections =
        insert info.connection_id (record { info = info; sender = state.next_channel })
          state.connections;
    subjects = index_subjects info.connection_id info.subjects state.subjects;
    next_channel = suc state.next_channel;
  }

  -- The waiting messages of its subjects go to its channel.
  unfoldable pub deliver_pending : GatewayState → ConnectionInfo → ℕ → ℤ → GatewayState
  unfolding take_pending_for_subjects send_texts
  deliver_pending state info channel now_ts =
      let (taken, texts) = take_pending_for_subjects state info.subjects now_ts in
      send_texts channel texts taken

  unfoldable pub register_connection :
      GatewayState
      → String
      → String
      → String
      → List String
      → ℤ
      → ℤ
      → GatewayState × ConnectionInfo × ℕ × List ConnectionInfo
  unfolding evict_all deliver_pending
  register_connection state connection_id user_id client_instance_id subjects connected_at now_ts =
      let (cleared, evicted) =
        evict_all (1000, "reconnect")
          (replaced_instances state connection_id user_id client_instance_id) state [] in
      let info : ConnectionInfo = record {
        connection_id = connection_id;
        user_id = user_id;
        client_instance_id = client_instance_id;
        subjects = subjects;
        connected_at = connected_at;
        last_seen_at = connected_at;
      } in
      (
        deliver_pending (add_connection cleared info) info cleared.next_channel now_ts,
        info,
        cleared.next_channel,
        evicted,
      )
