-- ===== src/Broker/Tests.antt =====
-- The outbox on concrete inputs: a response to a request of ann, and replies of Redis.
use rust_http3_gateway.Prelude.{
  ℕ, pos, Bool, true, String, List, [], ◌∷◌, ◌++◌, Option, none, some, map, lookup, Map, str_dec,
  trim, trim_start, trim_end, is_whitespace, saturating_sub, In, here, ◌≡◌, refl, ◌⊎◌,
  if◌then◌else◌, ◌==◌,
}
use rust_http3_gateway.Json.{Json}
use rust_http3_gateway.Json.Tests.{
  Tree, word, entries, items, a_field, no_fields, a_tree, no_trees, json_reading, plain_case,
  get_tree,
}
use rust_http3_gateway.State.Types.{GatewayState, ConnectionHandle, text, new}
use rust_http3_gateway.State.Sessions.{push_sent}
use rust_http3_gateway.State.RequestRoutes.{bind_request_route}
use rust_http3_gateway.Broker.Xread.{Redis, View, nil, bytes}
use rust_http3_gateway.Broker.Outbox.{
  EntryReadings, Consumer, deliver, consume_entries, consume_entry,
}
use rust_http3_gateway.Broker.Snapshot.{texts_of, parse_relay_context_snapshot}
use rust_http3_gateway.Broker.Outbox.{extract_request_id}
use rust_http3_gateway.Broker.Reach.{IsAnswered, ReachesAll, HasNoTaker, consume_entry_reaches}
use rust_http3_gateway.Broker.Responses.{deliver_to_requester}
use rust_http3_gateway.Broker.Batches.{last_entry, consume_entries_place}

abbrev news : Tree
news = entries (
    a_field "subjects" (items (a_tree (word "user:ann") no_trees))
      (a_field "payload" (entries (a_field "type" (word "news") no_fields)) no_fields))

abbrev read_text : String → Option Tree
read_text s = if s == "news" then some news else none

instance abbrev the_json : Json
the_json = json_reading read_text

-- Replies as trees; each byte is a letter of its own text.
data TestReply : Type 0 where
  no_reply : TestReply
  blob : List ℕ → TestReply

abbrev view_reply : TestReply → View TestReply
view_reply no_reply = nil
view_reply (blob b) = bytes b

abbrev some_text : List ℕ → String
some_text b = "text"

instance abbrev the_redis : Redis
the_redis = record { Reply = TestReply; view = view_reply; from_utf8_lossy = some_text }

abbrev ann : ConnectionHandle
ann = record {
  info = record {
    connection_id = "c1";
    user_id = "ann";
    client_instance_id = "";
    subjects = "user:ann" ∷ [];
    connected_at = pos 1;
    last_seen_at = pos 1;
  };
  sender = 0;
}

abbrev one_connection : GatewayState
unfolding new
one_connection = record (new none) {
  connections = ("c1", ann) ∷ [];
  subjects = ("user:ann", "c1" ∷ []) ∷ [];
  next_channel = 1;
}

abbrev all_live : ℕ → Bool
all_live channel = true

abbrev at_100 : EntryReadings
at_100 = record {
  received_at = pos 100;
  applied_at = pos 100;
  resolved_at = pos 100;
  requeued_at = pos 100;
}

abbrev same_time : String → EntryReadings
same_time id = at_100

abbrev consumer : Consumer
consumer = record { state = one_connection; last_id = "$"; deleted = [] }

abbrev first_entry : List (String × Map String)
first_entry = ("1-0", ("data", "news") ∷ []) ∷ []

abbrev second_entry : List (String × Map String)
second_entry = ("2-0", ("data", "no json") ∷ []) ∷ []

abbrev the_news : Tree
the_news = entries (a_field "type" (word "news") no_fields)

consume_entry_reaches_example :
    let (after, deletes) =
      consume_entry all_live one_connection true (("data", "news") ∷ []) at_100 in
    (deletes ≡ true)
    × (IsAnswered all_live one_connection ("user:ann" ∷ []) "{}" none (pos 100) after
        ⊎ (ReachesAll all_live one_connection ("user:ann" ∷ []) "{}" after
            × HasNoTaker all_live one_connection ("user:ann" ∷ []) "{}" none (pos 100)))
unfolding one_connection new lookup str_dec get_tree texts_of parse_relay_context_snapshot
    extract_request_id
consume_entry_reaches_example =
    consume_entry_reaches all_live one_connection true (("data", "news") ∷ []) at_100 "news" "{}"
      news the_news (((here refl, tt), tt), tt, tt, tt, tt, tt, (refl, tt)) refl refl refl refl refl
      refl refl

deliver_to_requester_example :
    deliver all_live
      (bind_request_route one_connection "r1" "c1" "ann" (pos 90))
      (some "r1")
      ("user:ann" ∷ [])
      "response"
      at_100
    ≡ (
      push_sent (bind_request_route one_connection "r1" "c1" "ann" (pos 90)) 0 (text "response"),
      record { attempted_count = 1; enqueued_count = 1 },
    )
unfolding one_connection new lookup str_dec trim trim_start trim_end is_whitespace saturating_sub
deliver_to_requester_example =
    deliver_to_requester all_live one_connection "r1" "c1" ann ("user:ann" ∷ []) "response" (pos 90)
      at_100 tt refl refl refl refl refl refl refl refl

consume_entries_place_example :
    let after = consume_entries all_live true same_time (first_entry ++ second_entry) consumer in
    (after.last_id ≡ last_entry "$" (first_entry ++ second_entry))
    × ((id : String)
        → In id after.deleted
        → In id [] ⊎ ((true ≡ true) × In id (map (λ e. e.0) (first_entry ++ second_entry))))
consume_entries_place_example =
    consume_entries_place all_live true same_time (first_entry ++ second_entry) consumer
