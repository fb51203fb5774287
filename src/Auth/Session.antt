-- ===== src/Auth/Session.antt =====
-- transport/websocket.rs and transport/webtransport.rs: the loop that both run until a client is
-- authenticated. It is written once, for any way to read the next message of a client.
use rust_http3_gateway.Prelude.{
  ℕ, ltb, eqb, ℤ, Bool, not, ◌||◌, String, List, [], ◌∷◌, ◌++◌, Option, none, some, and_then,
  unwrap_or, is_empty, trim, all_chars, byte_length, strip_prefix, split_once,
  is_ascii_alphanumeric, Outcome, success, failure, if◌then◌else◌, ◌==◌,
}
use Prim.Native.Char.{Char, code as char_code}
use mathlib.Core.Option
use rust_http3_gateway.Json.{Json, str_field, text_field}
use rust_http3_gateway.Config.{Config}
use rust_http3_gateway.Auth.Jwt.{Jwt, verify_jwt}
use rust_http3_gateway.Auth.Preauth.Types.{
  PreAuthFailure, PreAuthSuccess, normalize_request_id, is_dash_or_underscore,
}
use rust_http3_gateway.Auth.Preauth.Backend.{HttpReply}
use rust_http3_gateway.Auth.Preauth.Commands.{resolve_initial_auth, request_id_field}

unfoldable pub normalize_bearer_token : String → String
unfolding strip_prefix
normalize_bearer_token token = trim (unwrap_or (strip_prefix "Bearer " (trim token)) token)

-- The value of the first of the pairs that has the key.
unfoldable pub find_pair : String → List String → Option String
unfolding split_once
find_pair key [] = none
find_pair key (pair ∷ rest) =
    let (k, v) = unwrap_or (split_once b'=' pair) (pair, "") in
    let later = find_pair key rest in if k == key then some v else later

-- `split`: the parts between the characters.
unfoldable pub split : ℕ → String → List String
split at String.[] = String.[] ∷ []
split at (String.◌∷◌ c s) = if eqb (char_code c) at then "" ∷ split at s else prepend c (split at s)
  where
    prepend : Char → List String → List String
    prepend c [] = String.◌∷◌ c "" ∷ []
    prepend c (part ∷ parts) = String.◌∷◌ c part ∷ parts

unfoldable pub query_param : String → String → Option String
unfolding find_pair split
query_param path key =
    and_then (split_once b'?' path) λ (before, query). find_pair key (split b'&' query)

unfoldable pub is_valid_client_instance_id : String → Bool
is_valid_client_instance_id id = not (
    ltb 128 (byte_length id)
    || not (
        all_chars
          (λ c. is_ascii_alphanumeric c || is_dash_or_underscore c || eqb (char_code c) b'.') id))

-- An identifier that is not valid is cleared.
unfoldable pub client_instance_id_of : String → String
unfolding is_valid_client_instance_id
client_instance_id_of id =
    let trimmed = trim id in if is_valid_client_instance_id trimmed then trimmed else ""

abbrev pub invalid_token_failure : Option String → PreAuthFailure
invalid_token_failure request_id = record {
  code = "invalid_token";
  message = "Invalid token.";
  request_id = request_id;
}

abbrev pub missing_token_failure : Option String → PreAuthFailure
missing_token_failure request_id = record {
  code = "missing_token";
  message = "Missing token.";
  request_id = request_id;
}

module _ ⦃j : Json⦄ where
  open j use {Value, string, integer, object, get, as_str}

  pub record AuthContext : Type 0 where
    pub user_id : String
    pub client_instance_id : String
    pub bootstrap_success_payload : Option Value

  -- What `send_auth_error` sends.
  unfoldable pub auth_error_payload : PreAuthFailure → ℤ → Value
  auth_error_payload refusal now_ts = object (
      (("type", string "auth_error")
        ∷ ("error", string refusal.code)
        ∷ ("message", string refusal.message)
        ∷ ("ts", integer now_ts)
        ∷ [])
      ++ request_id_field refusal.request_id)

  -- What one attempt meets: the clock, the backend, and the library that decodes tokens.
  pub record AuthRound : Type 1 where
    pub now_ts : ℤ
    pub now_micros : ℤ
    pub error_at : ℤ
    pub post : String → ℕ → Value → HttpReply
    pub jwt : Jwt

  -- The user that a success names, or else the one of its token.
  unfoldable pub user_of :
      Config → AuthRound → PreAuthSuccess → Option String → Outcome PreAuthFailure String
  user_of config round resolved request_id = elim resolved.user_id [
    | some user_id ↦ success user_id
    | none ↦ elim resolved.token [
      | none ↦ failure (missing_token_failure request_id)
      | some token ↦
          if is_empty (trim token)
          then failure (missing_token_failure request_id)
          else elim (verify_jwt ⦃w = round.jwt⦄ config token) [
            | failure e ↦ failure (invalid_token_failure request_id)
            | success claims ↦ success (text_field config.jwt_user_id_claim claims)
          ]
    ]
  ]

  -- One attempt, which leads to a session or to an error that the client is told.
  unfoldable pub attempt : Config → AuthRound → Value → Outcome PreAuthFailure AuthContext
  unfolding user_of resolve_initial_auth client_instance_id_of
  attempt config round auth_payload =
      let request_id = normalize_request_id (str_field "request_id" auth_payload) in
      elim (resolve_initial_auth config round.post round.now_ts round.now_micros auth_payload) [
        | failure e ↦ failure e
        | success resolved ↦ elim (user_of config round resolved request_id) [
          | failure e ↦ failure e
          | success user_id ↦
              if is_empty user_id
              then failure (invalid_token_failure request_id)
              else success (record {
                user_id = user_id;
                client_instance_id = client_instance_id_of resolved.client_instance_id;
                bootstrap_success_payload = resolved.success_payload;
              })
        ]
      ]

  -- What the reading of a message leads to: it waits where nothing more has come.
  pub data Reading (Inputs : Type 0) : Type 0 where
    message : Value → Inputs → Reading Inputs
    read_fails read_waits : Reading Inputs

  -- A payload that is not JSON is an error.
  abbrev pub read_parsed : {Inputs : Type 0} → Option Value → Inputs → Reading Inputs
  read_parsed none rest = read_fails
  read_parsed (some value) rest = message value rest

  pub data Authentication (Inputs : Type 0) : Type 0 where
    authenticated : AuthContext → Inputs → Authentication Inputs
    auth_fails auth_waits : Authentication Inputs

  -- The payload of the first attempt, from the query of the address.
  abbrev pub query_payload : Option String → Option String → Option Value
  query_payload token client_instance_id =
      Option.map
        (λ raw_token. object (
          ("type", string "auth")
          ∷ ("token", string (normalize_bearer_token raw_token))
          ∷ ("client_instance_id", string (unwrap_or client_instance_id ""))
          ∷ []))
        token

  module _ {Inputs : Type 0} (read : Inputs → Reading Inputs) (config : Config) where
    -- The payload that is pending, or else the next message.
    abbrev pub next_payload : Option Value → Inputs → Reading Inputs
    next_payload (some payload) inputs = message payload inputs
    next_payload none inputs = read inputs

    -- The loop, of which every attempt has its round: the errors that are sent, and its end.
    unfoldable pub authenticate :
        List AuthRound → Option Value → Inputs → List Value × Authentication Inputs
    unfolding attempt auth_error_payload
    authenticate [] pending inputs = ([], auth_waits)
    authenticate (round ∷ rounds) pending inputs = elim (next_payload pending inputs) [
      | read_fails ↦ ([], auth_fails)
      | read_waits ↦ ([], auth_waits)
      | message payload after ↦ elim (attempt config round payload) [
        | success context ↦ ([], authenticated context after)
        | failure e ↦
            let (errors, outcome) = authenticate rounds none after in
            (auth_error_payload e round.error_at ∷ errors, outcome)
      ]
    ]
