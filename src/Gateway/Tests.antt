-- ===== src/Gateway/Tests.antt =====
-- Messages of a client on concrete inputs: ann, whose connection is open, and what she sends.
use rust_http3_gateway.Prelude.{
  ◌⊎◌, ℕ, pos, Bool, true, String, [], ◌∷◌, Option, none, some, lookup, str_dec, trim, trim_start,
  trim_end, is_whitespace, ◌==◌, ◌≡◌, refl, In, here, if◌then◌else◌,
}
use rust_http3_gateway.Json.{Json, text_field}
use rust_http3_gateway.Json.Laws.{JsonLaws}
use rust_http3_gateway.Json.Tests.{
  Tree, word, entries, a_field, no_fields, json_reading, json_reading-laws, plain_case, get_tree,
}
use rust_http3_gateway.Routes.Types.{CommandSpec}
use rust_http3_gateway.Routes.{resolve_command_spec, find_command}
use rust_http3_gateway.State.Types.{GatewayState, ConnectionInfo, new}
use rust_http3_gateway.State.Readiness.{mark_connection_alive}
use rust_http3_gateway.Gateway.{Readings, StreamEntry, Handled, done, send_gateway_command_error}
use rust_http3_gateway.Gateway.Handle.{
  handle_client_message, dispatch_command, run_command, mirror, publish_event, decoded,
  not_registered,
}
use rust_http3_gateway.Gateway.Client.{handled_state, ClientRun}
use rust_http3_gateway.Gateway.Client.Handler.{handle_client_message-ClientRun}
use rust_http3_gateway.Gateway.Client.Quiet.{IsQuiet}
use rust_http3_gateway.Gateway.Client.Channels.{IsVouched, handle_client_message_reaches}
use rust_http3_gateway.Gateway.Outcomes.{
  IsDone, handle_client_message-IsDone, handle_client_message_refuses_raw,
}
use rust_http3_gateway.Gateway.Published.{published, IsForBackend, handle_client_message_publishes}

-- Two texts that are JSON: a chunk of a file, for bob, and a message for the backend.
abbrev chunk : Tree
chunk = entries (
    a_field "type" (word "file_transfer_chunk")
      (a_field "to" (word "bob") (a_field "transfer_id" (word "t1") no_fields)))

abbrev backend_message : Tree
backend_message = entries (a_field "type" (word "session_ready") no_fields)

abbrev read_text : String → Option Tree
read_text s =
    if s == "chunk" then some chunk else if s == "backend" then some backend_message else none

instance abbrev the_json : Json
the_json = json_reading read_text

instance abbrev the_laws : JsonLaws
the_laws = json_reading-laws read_text

abbrev ann : ConnectionInfo
ann = record {
  connection_id = "c1";
  user_id = "ann";
  client_instance_id = "";
  subjects = "user:ann" ∷ [];
  connected_at = pos 1;
  last_seen_at = pos 1;
}

abbrev one_connection : GatewayState
unfolding new
one_connection = record (new none) {
  connections = ("c1", record { info = ann; sender = 0 }) ∷ [];
  subjects = ("user:ann", "c1" ∷ []) ∷ [];
  next_channel = 1;
}

abbrev at_100 : Readings
at_100 = record {
  alive_at = pos 100;
  bound_at = pos 100;
  ready_at = pos 100;
  authorized_at = pos 100;
  requeued_at = pos 100;
  error_at = pos 100;
  timestamp_ms = pos 100_000;
  internal_id = "i1";
}

abbrev all_live : ℕ → Bool
all_live channel = true

abbrev handled : String → Handled
handled raw = handle_client_message all_live "ws.inbox" true at_100 one_connection "c1" ann raw

handle_client_message-ClientRun_example :
    ClientRun all_live "c1" ann
      (decoded "chunk")
      (pos 100)
      one_connection
      (handled_state (handled "chunk"))
handle_client_message-ClientRun_example =
    handle_client_message-ClientRun all_live "ws.inbox" true at_100 one_connection "c1" ann "chunk"

handle_client_message_reaches_example :
    IsQuiet "c1" one_connection (handled_state (handled "chunk"))
    ⊎ IsVouched all_live "c1" ann (decoded "chunk") (pos 100) one_connection
handle_client_message_reaches_example =
    handle_client_message_reaches all_live "ws.inbox" true at_100 one_connection "c1" ann "chunk"

handle_client_message-IsDone_example : IsDone (handled "chunk")
handle_client_message-IsDone_example =
    handle_client_message-IsDone all_live "ws.inbox" true at_100 one_connection "c1" ann "chunk"

handle_client_message_refuses_raw_example :
    handled "hello"
    ≡ done
        (send_gateway_command_error all_live
          (mark_connection_alive one_connection "c1" (pos 100))
          "c1"
          "raw"
          not_registered
          (pos 100))
        []
unfolding trim trim_start trim_end is_whitespace
handle_client_message_refuses_raw_example =
    handle_client_message_refuses_raw all_live "ws.inbox" true at_100 one_connection "c1" ann
      "hello" refl refl

abbrev inbox_entry : StreamEntry
inbox_entry = record { stream = "ws.inbox"; body = "{}" }

backend_published : In inbox_entry (published (handled "backend"))
unfolding handle_client_message dispatch_command run_command mirror publish_event get_tree lookup
    str_dec trim trim_start trim_end is_whitespace resolve_command_spec find_command
backend_published = here refl

handle_client_message_publishes_example :
    (spec : CommandSpec) × IsForBackend all_live "ws.inbox" true at_100 one_connection "c1" ann
      "backend" inbox_entry spec
      (decoded "backend")
      (text_field "type" (decoded "backend"))
handle_client_message_publishes_example =
    handle_client_message_publishes all_live "ws.inbox" true at_100 one_connection "c1" ann
      "backend" inbox_entry backend_published
