-- ===== src/Broker/Outbox.antt =====
-- broker.rs: the dispatch of the entries of the outbox, and the loop over the replies of Redis.
use rust_http3_gateway.Prelude.{
  ℕ, ◌+◌, ℤ, Bool, true, false, String, List, [], ◌∷◌, ◌++◌, Option, none, some, unwrap_or, lookup,
  Map, is_nil, Unicode, if◌then◌else◌,
}
use rust_http3_gateway.Json.{Json, event_text, named_field}
use rust_http3_gateway.State.Types.{GatewayState, DispatchResult}
use rust_http3_gateway.State.RequestRoutes.{resolve_request_route, clear_request_route}
use rust_http3_gateway.State.Dispatch.{send_to_subjects, send_to_connection}
use rust_http3_gateway.State.RelayContexts.{apply_relay_context_snapshot}
use rust_http3_gateway.Broker.Snapshot.{parse_relay_context_snapshot, texts_field}
use rust_http3_gateway.Broker.Xread.{Redis, parse_xread}

pub data DeliveryMode : Type 0 where
  request_response push : DeliveryMode

unfoldable pub delivery_mode_as_str : DeliveryMode → String
delivery_mode_as_str request_response = "request_response"
delivery_mode_as_str push = "push"

-- The readings of the clock of one entry; a batch has them for the id of each.
pub record EntryReadings : Type 0 where
  pub received_at : ℤ
  pub applied_at : ℤ
  pub resolved_at : ℤ
  pub requeued_at : ℤ

abbrev pub no_dispatch : DispatchResult
no_dispatch = record { attempted_count = 0; enqueued_count = 0 }

-- What the consumer keeps: the state, the id of the last entry read, and what it has deleted.
pub record Consumer : Type 0 where
  pub state : GatewayState
  pub last_id : String
  pub deleted : List String

module _ ⦃j : Json⦄ where
  open j use {Value}

  unfoldable pub extract_request_id : Value → Option String
  extract_request_id payload = named_field "request_id" payload

module _ ⦃u : Unicode⦄ ⦃j : Json⦄ (live : ℕ → Bool) where
  open j use {Value, null, get, from_str}

  -- The send to the subjects, added to what the route has counted.
  unfoldable pub fall_back :
      GatewayState → DispatchResult → List String → String → ℤ → GatewayState × DispatchResult
  unfolding send_to_subjects
  fall_back state counted subjects text requeued_at =
      let (after, result) =
        send_to_subjects live state subjects text true none requeued_at requeued_at in
      (
        after,
        record {
          attempted_count = counted.attempted_count + result.attempted_count;
          enqueued_count = counted.enqueued_count + result.enqueued_count;
        },
      )

  -- A response, with what the search for its route has found.
  unfoldable pub respond_via :
      GatewayState
      → Option String
      → String
      → List String
      → String
      → ℤ
      → GatewayState × DispatchResult
  unfolding fall_back
  respond_via state none request_id subjects text requeued_at =
      fall_back state no_dispatch subjects text requeued_at
  respond_via state (some connection_id) request_id subjects text requeued_at =
      let (sent, delivered) = send_to_connection live state connection_id text in
      let cleared = clear_request_route sent request_id in
      if delivered
      then (sent, record { attempted_count = 1; enqueued_count = 1 })
      else fall_back cleared (record { attempted_count = 1; enqueued_count = 0 }) subjects text
          requeued_at

  -- The two delivery modes.
  unfoldable pub deliver :
      GatewayState
      → Option String
      → List String
      → String
      → EntryReadings
      → GatewayState × DispatchResult
  unfolding respond_via
  deliver state none subjects text at =
      send_to_subjects live state subjects text true none at.requeued_at at.requeued_at
  deliver state (some request_id) subjects text at =
      let (resolved, route) = resolve_request_route state request_id subjects at.resolved_at in
      respond_via resolved route request_id subjects text at.requeued_at

  -- An entry that is no snapshot; whether it is to be deleted from the stream.
  unfoldable pub dispatch_payload :
      GatewayState → Bool → List String → Value → EntryReadings → GatewayState × Bool
  unfolding deliver
  dispatch_payload state delete_on_consume subjects payload at = elim (event_text payload) [
    | none ↦ (state, false)
    | some text ↦
        ((deliver state (extract_request_id payload) subjects text at).0, delete_on_consume)
  ]

  unfoldable pub consume_decoded :
      GatewayState → Bool → Option Value → EntryReadings → GatewayState × Bool
  unfolding dispatch_payload
  consume_decoded state delete_on_consume none at = (state, false)
  consume_decoded state delete_on_consume (some decoded) at =
      let subjects = texts_field "subjects" decoded in
      let payload = unwrap_or (get "payload" decoded) null in
      if is_nil subjects
      then (state, false)
      else elim (parse_relay_context_snapshot payload at.received_at) [
        | some snapshot ↦ (apply_relay_context_snapshot state snapshot at.applied_at, false)
        | none ↦ dispatch_payload state delete_on_consume subjects payload at
      ]

  unfoldable pub consume_entry :
      GatewayState → Bool → Map String → EntryReadings → GatewayState × Bool
  unfolding consume_decoded
  consume_entry state delete_on_consume fields at =
      consume_decoded state delete_on_consume (from_str (unwrap_or (lookup "data" fields) "{}")) at

  unfoldable pub consume_entries :
      Bool → (String → EntryReadings) → List (String × Map String) → Consumer → Consumer
  unfolding consume_entry
  consume_entries delete_on_consume at [] consumer = consumer
  consume_entries delete_on_consume at ((entry_id, fields) ∷ rest) consumer =
      let (after, deletes) = consume_entry consumer.state delete_on_consume fields (at entry_id) in
      consume_entries delete_on_consume at rest (record {
        state = after;
        last_id = entry_id;
        deleted = if deletes then consumer.deleted ++ entry_id ∷ [] else consumer.deleted;
      })

  unfoldable pub consume_streams :
      Bool
      → (String → EntryReadings)
      → List (String × List (String × Map String))
      → Consumer
      → Consumer
  unfolding consume_entries
  consume_streams delete_on_consume at [] consumer = consumer
  consume_streams delete_on_consume at ((name, entries) ∷ rest) consumer =
      consume_streams delete_on_consume at rest
        (consume_entries delete_on_consume at entries consumer)

  -- One round of the loop: a connection or a command that fails (`none`), and a reply that cannot
  -- be parsed, leave everything as it is for the next round.
  unfoldable pub consume_reply :
      ⦃r : Redis⦄ → Bool → Option r.Reply → (String → EntryReadings) → Consumer → Consumer
  unfolding consume_streams
  consume_reply delete_on_consume none at consumer = consumer
  consume_reply delete_on_consume (some reply) at consumer = elim (parse_xread reply) [
    | none ↦ consumer
    | some streams ↦ consume_streams delete_on_consume at streams consumer
  ]
