-- ===== src/Auth/Preauth/Types.antt =====
-- preauth.rs: what the first message leads to, and the tests on what it holds.
use rust_http3_gateway.Prelude.{
  ltb, ℤ, Bool, false, ◌||◌, String, List, [], ◌∷◌, Option, none, some, find, eqb, ◌==◌, is_empty,
  trim, all_chars, byte_length, concat, decimal_ℤ, take_chars, is_ascii_alphanumeric, if◌then◌else◌,
  and_then,
}
use Prim.Native.Char.{Char, code as char_code}
use mathlib.Core.Option
use rust_http3_gateway.Json.{Json, text_field}

pub record PreAuthFailure : Type 0 where
  pub code : String
  pub message : String
  pub request_id : Option String

module _ ⦃j : Json⦄ where
  open j use {Value}

  pub record PreAuthSuccess : Type 0 where
    pub token : Option String
    pub user_id : Option String
    pub client_instance_id : String
    pub success_payload : Option Value

  -- `.get(key).and_then(Value::as_str).map(str::trim).unwrap_or("")`.
  abbrev pub trimmed_field : String → Value → String
  trimmed_field key value = trim (text_field key value)

unfoldable pub normalize_request_id : Option String → Option String
normalize_request_id value = and_then value λ id.
    let request_id = trim id in
    if is_empty request_id then none else some (take_chars 128 request_id)

abbrev pub is_dash_or_underscore : Char → Bool
is_dash_or_underscore c = eqb (char_code c) b'-' || eqb (char_code c) b'_'

unfoldable pub is_valid_dropbox_slug : String → Bool
is_valid_dropbox_slug slug =
    if is_empty slug || ltb 64 (byte_length slug)
    then false
    else all_chars (λ c. is_ascii_alphanumeric c || is_dash_or_underscore c) slug

unfoldable pub is_valid_pairing_token : String → Bool
is_valid_pairing_token token =
    if is_empty token || ltb 191 (byte_length token)
    then false
    else all_chars
        (λ c. is_ascii_alphanumeric c || is_dash_or_underscore c || eqb (char_code c) b':') token

-- project/preauth_config.rs.
pub record PreAuthHttpRoute : Type 0 where
  pub command_name : String
  pub path : String

abbrev pub preauth_http_routes : List PreAuthHttpRoute
preauth_http_routes =
    record { command_name = "auth_login_request"; path = "/api/login_check" }
    ∷ record { command_name = "auth_register_request"; path = "/api/register" }
    ∷ record { command_name = "auth_identity_request"; path = "/api/identity/login" }
    ∷ []

unfoldable pub resolve_http_path : String → Option String
resolve_http_path command_name =
    Option.map (λ entry. entry.path)
      (find (λ entry. entry.command_name == command_name) preauth_http_routes)

unfoldable pub compose_dropbox_guest_user_id : String → ℤ → String
compose_dropbox_guest_user_id slug timestamp_micros =
    concat ("public-dropbox" ∷ ":" ∷ slug ∷ ":" ∷ decimal_ℤ timestamp_micros ∷ [])

unfoldable pub compose_pairing_guest_user_id : String → String
compose_pairing_guest_user_id token = concat ("pairing" ∷ ":" ∷ token ∷ [])
