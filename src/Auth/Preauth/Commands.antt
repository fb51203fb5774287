-- ===== src/Auth/Preauth/Commands.antt =====
-- preauth.rs: `resolve_initial_auth`, with the commands that a client may start a session by.
use rust_http3_gateway.Prelude.{
  ℕ, ℤ, Bool, false, not, ◌&&◌, ◌||◌, String, List, [], ◌∷◌, ◌++◌, Option, none, some, is_empty,
  ◌==◌, Outcome, success, failure, ◌>>=◌, ok_or, if◌then◌else◌,
}
use rust_http3_gateway.Json.{Json, str_field, text_field, named_field}
use rust_http3_gateway.Config.{Config}
use rust_http3_gateway.Routes.Types.{is_no_auth}
use rust_http3_gateway.Routes.{resolve_command_spec}
use rust_http3_gateway.Auth.Preauth.Types.{
  PreAuthFailure, PreAuthSuccess, trimmed_field, normalize_request_id, is_valid_dropbox_slug,
  is_valid_pairing_token, compose_dropbox_guest_user_id, compose_pairing_guest_user_id,
}
use rust_http3_gateway.Auth.Preauth.Backend.{
  HttpReply, authenticate_via_http, resolve_preauth_http_path,
}

abbrev pub failed : {A : Type 0} → String → String → Option String → Outcome PreAuthFailure A
failed code message request_id =
    failure (record { code = code; message = message; request_id = request_id })

abbrev pub any_empty : List String → Bool
any_empty [] = false
any_empty (s ∷ rest) = is_empty s || any_empty rest

abbrev pub any_given : List String → Bool
any_given [] = false
any_given (s ∷ rest) = not (is_empty s) || any_given rest

module _ ⦃j : Json⦄ where
  open j use {Value, string, integer, object, is_null}

  -- The fields of an identity, of which a registration gives all or none.
  abbrev pub identity_keys : List String
  identity_keys = "key_id" ∷ "algorithm" ∷ "public_key" ∷ "challenge" ∷ "signature" ∷ []

  abbrev pub trimmed_fields : List String → Value → List String
  trimmed_fields [] value = []
  trimmed_fields (key ∷ rest) value = trimmed_field key value ∷ trimmed_fields rest value

  abbrev pub text_fields : List String → Value → List (String × Value)
  text_fields [] value = []
  text_fields (key ∷ rest) value = (key, string (trimmed_field key value)) ∷ text_fields rest value

  abbrev pub request_id_field : Option String → List (String × Value)
  request_id_field none = []
  request_id_field (some id) = ("request_id", string id) ∷ []

  abbrev pub user_field : Value → List (String × Value)
  user_field user = if is_null user then [] else ("user", user) ∷ []

  -- The message of a success: its type, a field, the time, and what there is of a request id and of
  -- a user.
  abbrev pub success_fields :
      String → String → String → ℤ → Option String → List (String × Value) → Value
  success_fields kind key content now_ts request_id user = object (
      (("type", string kind) ∷ (key, string content) ∷ ("ts", integer now_ts) ∷ [])
      ++ request_id_field request_id
      ++ user)

  -- The client is the user of the token of `payload`, of which it is told.
  abbrev pub by_token : Value → String → PreAuthSuccess
  by_token payload client_instance_id = record {
    token = some (text_field "token" payload);
    user_id = none;
    client_instance_id = client_instance_id;
    success_payload = some payload;
  }

  abbrev pub as_guest : Value → String → String → PreAuthSuccess
  as_guest payload user_id client_instance_id = record {
    token = none;
    user_id = some user_id;
    client_instance_id = client_instance_id;
    success_payload = some payload;
  }

  unfoldable pub auth : Value → String → Option String → Outcome PreAuthFailure PreAuthSuccess
  auth auth_payload client_instance_id request_id = do
    token ←
        ok_or (named_field "token" auth_payload)
          (record { code = "missing_token"; message = "Missing token."; request_id = request_id })
    success (record {
      token = some token;
      user_id = none;
      client_instance_id = client_instance_id;
      success_payload = none;
    })

  -- The body of a registration, with the identity if there is one.
  abbrev pub register_payload : Value → Bool → Value
  register_payload auth_payload identity_requested = object (
      text_fields ("name" ∷ "email" ∷ "password" ∷ []) auth_payload
      ++ (if identity_requested then text_fields identity_keys auth_payload else []))

  abbrev pub identity_payload : Value → Value
  identity_payload auth_payload = object (
      text_fields identity_keys auth_payload
      ++ (if is_empty (trimmed_field "email" auth_payload)
          then []
          else text_fields ("email" ∷ []) auth_payload))

  unfoldable pub dropbox_public_auth :
      Value → String → Option String → ℤ → ℤ → Outcome PreAuthFailure PreAuthSuccess
  dropbox_public_auth auth_payload client_instance_id request_id now_ts now_micros =
      let slug = trimmed_field "slug" auth_payload in
      if not (is_valid_dropbox_slug slug)
      then failed "invalid_dropbox_slug" "Invalid dropbox slug." request_id
      else success (
          as_guest (success_fields "dropbox_public_auth_ok" "slug" slug now_ts request_id [])
            (compose_dropbox_guest_user_id slug now_micros) client_instance_id)

  unfoldable pub device_pairing_auth :
      Value → String → Option String → ℤ → Outcome PreAuthFailure PreAuthSuccess
  device_pairing_auth auth_payload client_instance_id request_id now_ts =
      let token = trimmed_field "pairing_endpoint_token" auth_payload in
      if not (is_valid_pairing_token token)
      then failed "invalid_pairing_token" "Invalid pairing token." request_id
      else success (
          as_guest
            (success_fields "device_pairing_auth_ok" "pairing_endpoint_token" token now_ts
              request_id [])
            (compose_pairing_guest_user_id token) client_instance_id)

  -- `now_ts` is the reading of the clock in seconds and `now_micros` the one in microseconds.
  module _ (config : Config) (post : String → ℕ → Value → HttpReply) (now_ts now_micros : ℤ) where
    -- The backend's answer to a body: a token, of which the client is told with its user.
    unfoldable pub by_backend :
        String → String → Value → String → Option String → Outcome PreAuthFailure PreAuthSuccess
    unfolding authenticate_via_http resolve_preauth_http_path
    by_backend auth_type kind body client_instance_id request_id = do
      path ← resolve_preauth_http_path auth_type request_id
      (token, user) ←
          authenticate_via_http post config.auth_backend_base_url config.auth_request_timeout_ms
            path body request_id
      success (
          by_token (success_fields kind "token" token now_ts request_id (user_field user))
            client_instance_id)

    unfoldable pub auth_login_request :
        Value → String → Option String → Outcome PreAuthFailure PreAuthSuccess
    unfolding by_backend
    auth_login_request auth_payload client_instance_id request_id =
        if any_empty (trimmed_fields ("email" ∷ "password" ∷ []) auth_payload)
        then failed "invalid_auth_payload" "Email and password are required." request_id
        else by_backend "auth_login_request" "auth_login_ok"
            (object (text_fields ("email" ∷ "password" ∷ []) auth_payload)) client_instance_id
            request_id

    unfoldable pub auth_register_request :
        Value → String → Option String → Outcome PreAuthFailure PreAuthSuccess
    unfolding by_backend
    auth_register_request auth_payload client_instance_id request_id =
        let identity = trimmed_fields identity_keys auth_payload in
        if any_empty (trimmed_fields ("name" ∷ "email" ∷ "password" ∷ []) auth_payload)
        then failed "invalid_auth_payload" "Name, email and password are required." request_id
        else if any_given identity && any_empty identity
        then failed "invalid_auth_payload" "Identity registration payload is incomplete." request_id
        else by_backend "auth_register_request" "auth_register_ok"
            (register_payload auth_payload (any_given identity)) client_instance_id request_id

    unfoldable pub auth_identity_request :
        Value → String → Option String → Outcome PreAuthFailure PreAuthSuccess
    unfolding by_backend
    auth_identity_request auth_payload client_instance_id request_id =
        if any_empty (trimmed_fields identity_keys auth_payload)
        then failed "invalid_auth_payload" "Identity auth payload is incomplete." request_id
        else by_backend "auth_identity_request" "auth_identity_ok" (identity_payload auth_payload)
            client_instance_id request_id

    abbrev pub unsupported : Option String → Outcome PreAuthFailure PreAuthSuccess
    unsupported request_id = failed "invalid_auth_type" "Unsupported auth payload type." request_id

    unfoldable pub run_auth :
        String → Value → String → Option String → Outcome PreAuthFailure PreAuthSuccess
    unfolding auth auth_login_request auth_register_request auth_identity_request
        dropbox_public_auth device_pairing_auth
    run_auth auth_type auth_payload client_instance_id request_id =
        if auth_type == "auth"
        then auth auth_payload client_instance_id request_id
        else if auth_type == "auth_login_request"
        then auth_login_request auth_payload client_instance_id request_id
        else if auth_type == "auth_register_request"
        then auth_register_request auth_payload client_instance_id request_id
        else if auth_type == "auth_identity_request"
        then auth_identity_request auth_payload client_instance_id request_id
        else if auth_type == "dropbox_public_auth"
        then dropbox_public_auth auth_payload client_instance_id request_id now_ts now_micros
        else if auth_type == "device_pairing_auth"
        then device_pairing_auth auth_payload client_instance_id request_id now_ts
        else unsupported request_id

    unfoldable pub resolve_initial_auth : Value → Outcome PreAuthFailure PreAuthSuccess
    unfolding run_auth normalize_request_id
    resolve_initial_auth auth_payload =
        let request_id = normalize_request_id (str_field "request_id" auth_payload) in
        let client_instance_id = trimmed_field "client_instance_id" auth_payload in
        let auth_type = trimmed_field "type" auth_payload in
        elim (resolve_command_spec auth_type) [
          | none ↦ unsupported request_id
          | some spec ↦
              if not (is_no_auth spec.routing_class)
              then unsupported request_id
              else run_auth auth_type auth_payload client_instance_id request_id
        ]
