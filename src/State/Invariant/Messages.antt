-- ===== src/State/Invariant/Messages.antt =====
-- The operations that send messages keep the state well formed.
use rust_http3_gateway.Prelude.{
  ℕ, ℤ, Bool, ◌&&◌, ◌||◌, String, List, [], ◌∷◌, Option, none, some, lookup, is_empty, is_nil, eqb,
  if_both,
}
use rust_http3_gateway.State.Types.{GatewayState, text, ConnectionHandle, DispatchResult}
use rust_http3_gateway.State.Dispatch.{
  buffer_sticky, deliver_text, collect_targets, send_text_to, send_each, send_to_subjects,
  send_to_connection,
}
use rust_http3_gateway.State.Invariant.{
  IsWellFormed, requeue_for_subjects-IsWellFormed, buffer_latest_for_subjects-IsWellFormed,
}
use rust_http3_gateway.State.Invariant.Connections.{
  unregister_connection-IsWellFormed, unregister_each-IsWellFormed, send-IsWellFormed,
}

module _ (live : ℕ → Bool) where
  send_text_to-IsWellFormed :
      (s : GatewayState) (found : Option ConnectionHandle) (message : String)
      → IsWellFormed s
      → IsWellFormed (send_text_to live s found message).0
  unfolding send_text_to
  send_text_to-IsWellFormed s none message h = h
  send_text_to-IsWellFormed s (some handle) message h =
      send-IsWellFormed live s handle.sender (text message) h

  send_each-IsWellFormed :
      (ids : List String) (message : String) (s : GatewayState) (enqueued : ℕ) (stale : List String)
      → IsWellFormed s
      → IsWellFormed (send_each live ids message s enqueued stale).0
  unfolding send_each
  send_each-IsWellFormed [] message s enqueued stale h = h
  send_each-IsWellFormed (id ∷ rest) message s enqueued stale h =
      send_each-IsWellFormed rest message (send_text_to live s (lookup id s.connections) message).0
        _ _ (send_text_to-IsWellFormed s (lookup id s.connections) message h)

  buffer_sticky-IsWellFormed :
      (s : GatewayState) (subjects : List String) (message : String) (sticky_key : Option String)
      (now_ts : ℤ)
      → IsWellFormed s
      → IsWellFormed (buffer_sticky s subjects message sticky_key now_ts)
  unfolding buffer_sticky
  buffer_sticky-IsWellFormed s subjects message none now_ts h = h
  buffer_sticky-IsWellFormed s subjects message (some key) now_ts h =
      buffer_latest_for_subjects-IsWellFormed s subjects message key now_ts h

  deliver_text-IsWellFormed :
      (s : GatewayState) (subjects : List String) (message : String)
      → IsWellFormed s
      → IsWellFormed (deliver_text live s subjects message).0
  unfolding deliver_text
  deliver_text-IsWellFormed s subjects message h =
      let targets = collect_targets subjects s.subjects [] in
      let (delivered, enqueued, stale) = send_each live targets message s 0 [] in
      unregister_each-IsWellFormed stale delivered (send_each-IsWellFormed targets message s 0 [] h)

  pub send_to_subjects-IsWellFormed :
      (s : GatewayState) (subjects : List String) (message : String) (buffer : Bool)
      (sticky_key : Option String) (buffered_at requeued_at : ℤ)
      → IsWellFormed s
      → IsWellFormed
          (send_to_subjects live s subjects message buffer sticky_key buffered_at requeued_at).0
  unfolding send_to_subjects
  send_to_subjects-IsWellFormed s subjects message buffer sticky_key buffered_at requeued_at h =
      let buffered = buffer_sticky s subjects message sticky_key buffered_at in
      let (cleaned, result) = deliver_text live buffered subjects message in
      let kept =
        deliver_text-IsWellFormed buffered subjects message
          (buffer_sticky-IsWellFormed s subjects message sticky_key buffered_at h) in
      if_both (λ (x : GatewayState × DispatchResult). IsWellFormed x.0)
        (is_nil subjects || is_empty message) h
        (if_both IsWellFormed (eqb result.enqueued_count 0 && buffer)
          (requeue_for_subjects-IsWellFormed cleaned subjects message requeued_at kept) kept)

  pub send_to_connection-IsWellFormed :
      (s : GatewayState) (id message : String)
      → IsWellFormed s
      → IsWellFormed (send_to_connection live s id message).0
  unfolding send_to_connection
  send_to_connection-IsWellFormed s id message h =
      let Kept = λ (x : GatewayState × Bool). IsWellFormed x.0 in
      let sent = send_text_to-IsWellFormed s (lookup id s.connections) message h in
      if_both Kept (is_empty id || is_empty message) h (
        if_both Kept (send_text_to live s (lookup id s.connections) message).1 sent
          (unregister_connection-IsWellFormed _ id sent))
