-- ===== src/State/Readiness.antt =====
-- state.rs: the limit on a user's ready connections, the heartbeat, and the listing.
pub mod Laws
pub mod Stale
use rust_http3_gateway.Prelude.{
  ℕ, ◌-◌, ℤ, pos, Bool, true, ◌&&◌, ◌||◌, String, List, [], ◌∷◌, ◌++◌, Option, none, some, lookup,
  insert, keys, map, ◌==◌, is_empty, any, retain, length, leb, leb_ℤ, ltb_ℤ, saturating_sub,
  sort_by, if◌then◌else◌, Map,
}
use rust_http3_gateway.State.Types.{GatewayState, ConnectionInfo, ConnectionHandle, ReadyConnection}
use rust_http3_gateway.State.Sessions.{evict_connection, unregister_connection}

-- The `filter_map` over the ready connections: those of the user that are still connected, with
-- the times at which they connected.
unfoldable pub ready_of_user :
    Map ConnectionHandle → String → Map ReadyConnection → List (String × ℤ)
ready_of_user connections user_id [] = []
ready_of_user connections user_id ((id, ready) ∷ rest) =
    let others = ready_of_user connections user_id rest in
    if ready.user_id == user_id
    then elim (lookup id connections) [
      | none ↦ others
      | some handle ↦ (id, handle.info.connected_at) ∷ others
    ]
    else others

abbrev pub connected_before : String × ℤ → String × ℤ → Bool
connected_before a b = leb_ℤ a.1 b.1

module _ (live : ℕ → Bool) where
  -- The loop over the sorted connections; it ends once `overflow` of them are evicted.
  unfoldable pub evict_oldest :
      ℕ
      → String
      → List (String × ℤ)
      → GatewayState
      → List ConnectionInfo
      → GatewayState × List ConnectionInfo
  unfolding evict_connection
  evict_oldest overflow connection_id [] state evicted = (state, evicted)
  evict_oldest overflow connection_id ((stale_id, at) ∷ rest) state evicted =
      let skipped = evict_oldest overflow connection_id rest state evicted in
      let (after, info) = evict_connection live state stale_id (some (4409, "session_replaced")) in
      let done =
        evict_oldest overflow connection_id rest after
          (elim info [ none ↦ evicted | some i ↦ evicted ++ i ∷ [] ]) in
      if leb overflow (length evicted)
      then (state, evicted)
      else if stale_id == connection_id
      then skipped
      else done

  unfoldable pub enforce_limit :
      GatewayState → String → String → Option ℕ → GatewayState × List ConnectionInfo
  unfolding ready_of_user evict_oldest
  enforce_limit state connection_id user_id none = (state, [])
  enforce_limit state connection_id user_id (some max) =
      let ready = ready_of_user state.connections user_id state.ready_connections in
      if leb (length ready) max
      then (state, [])
      else evict_oldest (length ready - max) connection_id (sort_by connected_before ready) state []

  unfoldable pub mark_session_ready :
      GatewayState → String → String → ℤ → GatewayState × List ConnectionInfo
  unfolding enforce_limit
  mark_session_ready state connection_id user_id now_ts =
      if is_empty connection_id || is_empty user_id
      then (state, [])
      else enforce_limit
          (record state {
            ready_connections =
                insert connection_id (record { user_id = user_id; ready_at = now_ts })
                  state.ready_connections;
          })
          connection_id user_id state.max_connections_per_user

unfoldable pub mark_connection_alive : GatewayState → String → ℤ → GatewayState
mark_connection_alive state connection_id timestamp =
    elim (lookup connection_id state.connections) [
      | none ↦ state
      | some handle ↦
          let info = handle.info in
          record state {
            connections =
                insert connection_id
                  (record handle { info = record info { last_seen_at = timestamp } })
                  state.connections;
          }
    ]

-- `if let Some(info) = self.unregister_connection(..) { evicted.push(info) }`, for each.
unfoldable pub unregister_all :
    List String → GatewayState → List ConnectionInfo → GatewayState × List ConnectionInfo
unfolding unregister_connection
unregister_all [] state evicted = (state, evicted)
unregister_all (id ∷ rest) state evicted =
    let (after, info) = unregister_connection state id in
    unregister_all rest after (elim info [ none ↦ evicted | some i ↦ evicted ++ i ∷ [] ])

abbrev pub is_stale : ℤ → ℤ → String × ConnectionHandle → Bool
is_stale now_ts stale_after_seconds (key, handle) =
    ltb_ℤ stale_after_seconds (saturating_sub now_ts handle.info.last_seen_at)

unfoldable pub prune_stale_connections : GatewayState → ℤ → ℤ → GatewayState × List ConnectionInfo
unfolding unregister_all
prune_stale_connections state now_ts stale_after_seconds =
    if leb_ℤ stale_after_seconds (pos 0)
    then (state, [])
    else unregister_all (keys (retain (is_stale now_ts stale_after_seconds) state.connections))
        state []

abbrev pub is_listed : Option String → Option String → ConnectionInfo → Bool
is_listed subject user_id info =
    elim subject [ none ↦ true | some expected ↦ any (λ item. item == expected) info.subjects ]
    && elim user_id [ none ↦ true | some expected ↦ info.user_id == expected ]

unfoldable pub list_connections : GatewayState → Option String → Option String → List ConnectionInfo
list_connections state subject user_id =
    retain (is_listed subject user_id) (map (λ e. e.1.info) state.connections)
