-- ===== src/HttpApi/Tests.antt =====
-- A publication for ann without the key, and the list of her connections.
use rust_http3_gateway.Prelude.{
  ℕ, pos, Bool, true, String, [], ◌∷◌, Option, none, some, map, unwrap_or, In, ◌≡◌, ◌⊎◌, ◌↔◌,
}
use rust_http3_gateway.Json.{Json, event_text}
use rust_http3_gateway.Json.Tests.{Tree, word, json_reading, plain_case}
use rust_http3_gateway.State.Types.{GatewayState, ConnectionInfo, new}
use rust_http3_gateway.State.Readiness.{list_connections as connections_of}
use rust_http3_gateway.HttpApi.{PublishRequest, publish}
use rust_http3_gateway.HttpApi.Access.{IsLetIn, IsPublished, publish_cases, list_connections_iff}

abbrev read_nothing : String → Option Tree
read_nothing s = none

instance abbrev the_json : Json
the_json = json_reading read_nothing

abbrev ann : ConnectionInfo
ann = record {
  connection_id = "c1";
  user_id = "ann";
  client_instance_id = "";
  subjects = "user:ann" ∷ [];
  connected_at = pos 1;
  last_seen_at = pos 1;
}

abbrev one_connection : GatewayState
unfolding new
one_connection = record (new none) {
  connections = ("c1", record { info = ann; sender = 0 }) ∷ [];
  subjects = ("user:ann", "c1" ∷ []) ∷ [];
  next_channel = 1;
}

abbrev all_live : ℕ → Bool
all_live channel = true

abbrev for_ann : PublishRequest
for_ann = record { subjects = some ("user:ann" ∷ []); payload = word "hi"; api_key = none }

publish_cases_example :
    let (after, answer) = publish all_live one_connection "secret" (some "guess") for_ann (pos 1) in
    ((answer.status ≡ 200)
      × IsLetIn "secret" (some "guess") none
      × IsPublished all_live one_connection for_ann (pos 1) after)
    ⊎ (((answer.status ≡ 400)
          × IsLetIn "secret" (some "guess") none
          × ((unwrap_or for_ann.subjects [] ≡ []) ⊎ (event_text for_ann.payload ≡ none))
          × (after ≡ one_connection))
        ⊎ ((answer.status ≡ 401)
            × ¬ (IsLetIn "secret" (some "guess") none)
            × (after ≡ one_connection)))
publish_cases_example =
    publish_cases all_live one_connection "secret" (some "guess") for_ann (pos 1)

list_connections_iff_example :
    In ann (connections_of one_connection none (some "ann"))
    ↔ (In ann (map (λ e. e.1.info) one_connection.connections) × (ann.user_id ≡ "ann"))
list_connections_iff_example = list_connections_iff one_connection "ann" ann
