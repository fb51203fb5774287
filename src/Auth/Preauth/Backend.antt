-- ===== src/Auth/Preauth/Backend.antt =====
-- preauth.rs: the request to the backend that knows the users.
use rust_http3_gateway.Prelude.{
  ℕ, leb, ltb, eqb, Bool, not, ◌&&◌, String, [], ◌∷◌, Option, none, some, unwrap_or, or_option,
  filter_option, is_empty, trim, concat, decimal, trim_end_slashes, Outcome, success, failure,
  ok_or, if◌then◌else◌,
}
use mathlib.Core.Option
use rust_http3_gateway.Json.{Json, str_field, named_field}
use rust_http3_gateway.Auth.Preauth.Types.{PreAuthFailure, resolve_http_path}

unfoldable pub resolve_preauth_http_path : String → Option String → Outcome PreAuthFailure String
resolve_preauth_http_path command_name request_id = ok_or (resolve_http_path command_name) (record {
  code = "auth_route_unconfigured";
  message = concat ("No auth backend route configured for '" ∷ command_name ∷ "'." ∷ []);
  request_id = request_id;
})

module _ ⦃j : Json⦄ where
  open j use {Value, null, object, get}

  -- What the HTTP client makes of a `POST`: it cannot be built, it has no reply in time, or it has a
  -- status with a body, which may not be JSON.
  pub data HttpReply : Type 0 where
    no_client no_reply : HttpReply
    reply : ℕ → Option Value → HttpReply

  unfoldable pub extract_error_message : Value → Option String
  extract_error_message value =
      filter_option (λ s. not (is_empty s))
        (Option.map trim (or_option (str_field "message" value) (str_field "error" value)))

  unfoldable pub extract_error_code : Value → Option String
  extract_error_code value = named_field "error" value

  abbrev pub is_success : ℕ → Bool
  is_success status = leb 200 status && ltb status 300

  abbrev pub default_message : ℕ → String
  default_message status =
      if eqb status 401
      then "Invalid credentials."
      else concat ("Authentication failed (" ∷ decimal status ∷ ")" ∷ [])

  -- The token and the user of a reply.
  unfoldable pub read_reply : ℕ → Value → Option String → Outcome PreAuthFailure (String × Value)
  unfolding extract_error_message extract_error_code
  read_reply status parsed request_id =
      if not (is_success status)
      then failure (record {
        code = unwrap_or (extract_error_code parsed) (concat ("auth_http_" ∷ decimal status ∷ []));
        message = unwrap_or (extract_error_message parsed) (default_message status);
        request_id = request_id;
      })
      else elim (named_field "token" parsed) [
        | none ↦ failure (record {
          code = "token_missing";
          message = "Auth backend did not return a token.";
          request_id = request_id;
        })
        | some token ↦ success (token, unwrap_or (get "user" parsed) null)
      ]

  -- `post` takes the address, the time limit in milliseconds and the body.
  module _ (post : String → ℕ → Value → HttpReply) (base_url : String) (timeout_ms : ℕ) where
    unfoldable pub authenticate_via_http :
        String → Value → Option String → Outcome PreAuthFailure (String × Value)
    unfolding read_reply
    authenticate_via_http path body request_id =
        let base = trim_end_slashes (trim base_url) in
        if is_empty base
        then failure (record {
          code = "auth_backend_unavailable";
          message = "Auth backend is not configured.";
          request_id = request_id;
        })
        else elim (post (concat (base ∷ path ∷ [])) timeout_ms body) [
          | no_client ↦ failure (record {
            code = "auth_backend_unavailable";
            message = "Could not initialize auth client.";
            request_id = request_id;
          })
          | no_reply ↦ failure (record {
            code = "auth_backend_timeout";
            message = "Auth backend request failed.";
            request_id = request_id;
          })
          | reply status body ↦ read_reply status (unwrap_or body (object [])) request_id
        ]
