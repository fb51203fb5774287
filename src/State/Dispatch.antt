-- ===== src/State/Dispatch.antt =====
-- state.rs: sending to the connections of a subject, and to one connection.
pub mod Laws
pub mod Undelivered
use rust_http3_gateway.Prelude.{
  ℕ, suc, ℤ, Bool, true, false, ◌&&◌, ◌||◌, String, List, [], ◌∷◌, ◌++◌, Option, none, some, lookup,
  is_empty, is_nil, length, eqb, unwrap_or, if◌then◌else◌, Map,
}
use rust_http3_gateway.State.Types.{GatewayState, text, DispatchResult, ConnectionHandle}
use rust_http3_gateway.State.Pending.{buffer_latest_for_subjects, requeue_for_subjects}
use rust_http3_gateway.State.Sessions.{send, unregister_connection, add_to_set}

unfoldable pub add_all_to_set : List String → List String → List String
add_all_to_set [] targets = targets
add_all_to_set (id ∷ rest) targets = add_all_to_set rest (add_to_set id targets)

-- The ids of the connections of any of the subjects, each once.
unfoldable pub collect_targets : List String → Map (List String) → List String → List String
unfolding add_all_to_set
collect_targets [] index targets = targets
collect_targets (subject ∷ rest) index targets =
    collect_targets rest index (add_all_to_set (unwrap_or (lookup subject index) []) targets)

unfoldable pub unregister_each : List String → GatewayState → GatewayState
unfolding unregister_connection
unregister_each [] state = state
unregister_each (id ∷ rest) state = unregister_each rest (unregister_connection state id).0

unfoldable pub buffer_sticky :
    GatewayState → List String → String → Option String → ℤ → GatewayState
unfolding buffer_latest_for_subjects
buffer_sticky state subjects message none now_ts = state
buffer_sticky state subjects message (some key) now_ts =
    buffer_latest_for_subjects state subjects message key now_ts

module _ (live : ℕ → Bool) where
  -- One send of the loop, for the handle that is found.
  unfoldable pub send_text_to :
      GatewayState → Option ConnectionHandle → String → GatewayState × Bool
  unfolding send
  send_text_to state none message = (state, false)
  send_text_to state (some handle) message = send live state handle.sender (text message)

  -- The loop over the targets: how many sends succeeded, and the ids of the others.
  unfoldable pub send_each :
      List String → String → GatewayState → ℕ → List String → GatewayState × ℕ × List String
  unfolding send_text_to
  send_each [] message state enqueued stale = (state, enqueued, stale)
  send_each (id ∷ rest) message state enqueued stale =
      let (after, ok) = send_text_to state (lookup id state.connections) message in
      send_each rest message after (if ok then suc enqueued else enqueued)
        (if ok then stale else stale ++ id ∷ [])

  -- The sends to all targets, and the end of the connections that do not take the message.
  unfoldable pub deliver_text : GatewayState → List String → String → GatewayState × DispatchResult
  unfolding collect_targets send_each unregister_each
  deliver_text state subjects message =
      let targets = collect_targets subjects state.subjects [] in
      let (delivered, enqueued, stale) = send_each targets message state 0 [] in
      (
        unregister_each stale delivered,
        record { attempted_count = length targets; enqueued_count = enqueued },
      )

  -- `buffered_at` and `requeued_at` are the two readings of the clock.
  unfoldable pub send_to_subjects :
      GatewayState
      → List String
      → String
      → Bool
      → Option String
      → ℤ
      → ℤ
      → GatewayState × DispatchResult
  unfolding buffer_sticky deliver_text requeue_for_subjects
  send_to_subjects state subjects message buffer_if_undelivered sticky_key buffered_at requeued_at =
      let (cleaned, result) =
        deliver_text (buffer_sticky state subjects message sticky_key buffered_at) subjects
          message in
      if is_nil subjects || is_empty message
      then (state, record { attempted_count = 0; enqueued_count = 0 })
      else (
        if eqb result.enqueued_count 0 && buffer_if_undelivered
            then requeue_for_subjects cleaned subjects message requeued_at
            else cleaned,
        result,
      )

  unfoldable pub send_to_connection : GatewayState → String → String → GatewayState × Bool
  unfolding send_text_to unregister_connection
  send_to_connection state connection_id message =
      let (after, ok) = send_text_to state (lookup connection_id state.connections) message in
      if is_empty connection_id || is_empty message
      then (state, false)
      else if ok
      then (after, true)
      else ((unregister_connection after connection_id).0, false)
