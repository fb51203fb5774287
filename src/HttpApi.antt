-- ===== src/HttpApi.antt =====
-- http_api.rs: the requests of the backend, on an internal port.
pub mod Access
mod Tests
use rust_http3_gateway.Prelude.{
  ℕ, ℤ, pos, Bool, true, false, not, ◌||◌, String, List, [], ◌∷◌, Option, none, some, unwrap_or,
  or_option, is_empty, is_nil, ◌==◌, map, if◌then◌else◌,
}
use rust_http3_gateway.Json.{Json, texts, event_text}
use rust_http3_gateway.State.Types.{GatewayState, ConnectionInfo}
use rust_http3_gateway.State.Dispatch.{send_to_subjects}
use rust_http3_gateway.State.Readiness.{list_connections as connections_of}

module _ ⦃j : Json⦄ where
  open j use {Value, boolean, string, integer, array, object}

  pub record PublishRequest : Type 0 where
    pub subjects : Option (List String)
    pub payload : Value
    pub api_key : Option String

  pub record ListQuery : Type 0 where
    pub subject : Option String
    pub user_id : Option String

  -- The status of a reply, and its body.
  pub record Reply : Type 0 where
    pub status : ℕ
    pub body : Value

  unfoldable pub refusal : ℕ → String → Reply
  refusal status error = record {
    status = status;
    body = object (("ok", boolean false) ∷ ("error", string error) ∷ []);
  }

  -- Without a key in the configuration every request is let in; the key of the body goes before the
  -- one of the header.
  unfoldable pub is_key_accepted : String → Option String → Option String → Bool
  is_key_accepted gateway_api_key header_key api_key =
      is_empty gateway_api_key || unwrap_or (or_option api_key header_key) "" == gateway_api_key

  module _ (live : ℕ → Bool) where
    -- `header_key` is the header `x-api-key`, where it is a text.
    unfoldable pub publish :
        GatewayState → String → Option String → PublishRequest → ℤ → GatewayState × Reply
    unfolding is_key_accepted refusal send_to_subjects
    publish state gateway_api_key header_key req requeued_at =
        let subjects = unwrap_or req.subjects [] in
        if not (is_key_accepted gateway_api_key header_key req.api_key)
        then (state, refusal 401 "invalid_api_key")
        else if is_nil subjects
        then (state, refusal 400 "missing_subjects")
        else elim (event_text req.payload) [
          | none ↦ (state, refusal 400 "invalid_payload")
          | some text ↦
              let (after, dispatch) =
                send_to_subjects live state subjects text true none requeued_at requeued_at in
              (
                after,
                record {
                  status = 200;
                  body = object (
                      ("ok", boolean true)
                      ∷ ("attempted", integer (pos dispatch.attempted_count))
                      ∷ ("enqueued", integer (pos dispatch.enqueued_count))
                      ∷ []);
                },
              )
        ]

  -- The derived `Serialize` of a connection.
  unfoldable pub info_json : ConnectionInfo → Value
  info_json info = object (
      ("connection_id", string info.connection_id)
      ∷ ("user_id", string info.user_id)
      ∷ ("client_instance_id", string info.client_instance_id)
      ∷ ("subjects", texts info.subjects)
      ∷ ("connected_at", integer info.connected_at)
      ∷ ("last_seen_at", integer info.last_seen_at)
      ∷ [])

  abbrev pub connections_reply : List ConnectionInfo → Reply
  connections_reply connections = record {
    status = 200;
    body = object (("connections", array (map info_json connections)) ∷ []);
  }

  unfoldable pub list_connections : GatewayState → ListQuery → Reply
  unfolding info_json
  list_connections state query =
      connections_reply (connections_of state query.subject query.user_id)

  unfoldable pub user_connections : GatewayState → String → Reply
  unfolding info_json
  user_connections state user_id = connections_reply (connections_of state none (some user_id))

  unfoldable pub health : Reply
  health = record { status = 200; body = object (("ok", boolean true) ∷ []) }

  unfoldable pub ready : Reply
  ready = record { status = 200; body = object (("ok", boolean true) ∷ []) }
