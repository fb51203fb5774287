-- ===== src/Auth/Guarantees.antt =====
-- preauth.rs: what a successful first message comes to.
use rust_http3_gateway.Prelude.{
  ℕ, ℤ, true, false, not, ◌&&◌, String, [], ◌∷◌, Option, none, some, is_empty, trim, ◌==◌, Outcome,
  success, ok_or, if_both, if_cases, ◌≡◌, refl, subst, inl, inr, Option-cases, arith,
}
use mathlib.Core.Option
use rust_http3_gateway.Json.{Json, str_field, named_field}
use rust_http3_gateway.Json.Laws.{JsonLaws}
use rust_http3_gateway.Config.{Config}
use rust_http3_gateway.Routes.Types.{is_no_auth}
use rust_http3_gateway.Routes.{resolve_command_spec}
use rust_http3_gateway.Auth.Preauth.Types.{
  PreAuthFailure, PreAuthSuccess, trimmed_field, normalize_request_id, is_valid_dropbox_slug,
  is_valid_pairing_token, compose_dropbox_guest_user_id, compose_pairing_guest_user_id,
}
use rust_http3_gateway.Auth.Preauth.Backend.{
  HttpReply, authenticate_via_http, resolve_preauth_http_path,
}
use rust_http3_gateway.Auth.Preauth.Commands.{
  auth, auth_login_request, auth_register_request, auth_identity_request, dropbox_public_auth,
  device_pairing_auth, run_auth, resolve_initial_auth, by_backend, any_empty, any_given,
  trimmed_fields, text_fields, identity_keys, register_payload, identity_payload,
}
use rust_http3_gateway.Auth.Tokens.{
  filled_of_filter, OnSuccess, OnSuccess-bind, HasToken, token_of_success, via_http-HasToken,
}

module _ ⦃j : Json⦄ where
  -- A client is authenticated by a token that is not empty, or let in as a guest: with the address
  -- of a valid slug, or with a valid token for a pairing.
  pub data IsAuthenticated (p : PreAuthSuccess) : Type 0 where
    with_token :
        (token : String)
        → p.token ≡ some token
        → p.user_id ≡ none
        → is_empty token ≡ false
        → IsAuthenticated p
    with_slug :
        (slug : String) (now_micros : ℤ)
        → p.token ≡ none
        → p.user_id ≡ some (compose_dropbox_guest_user_id slug now_micros)
        → is_valid_dropbox_slug slug ≡ true
        → IsAuthenticated p
    with_pairing :
        (token : String)
        → p.token ≡ none
        → p.user_id ≡ some (compose_pairing_guest_user_id token)
        → is_valid_pairing_token token ≡ true
        → IsAuthenticated p

  abbrev Sound : Outcome PreAuthFailure PreAuthSuccess → Type 0
  Sound = OnSuccess IsAuthenticated

  ok_or_success :
      {A : Type 0} (o : Option A) (e : PreAuthFailure) (a : A) → ok_or o e ≡ success a → o ≡ some a
  ok_or_success none e a h = cc
  ok_or_success (some b) e a h = cc

  auth-Sound :
      (payload : j.Value) (id : String) (request_id : Option String)
      → Sound (auth payload id request_id)
  unfolding auth
  auth-Sound payload id request_id =
      OnSuccess-bind IsAuthenticated
        (ok_or (named_field "token" payload)
          (record { code = "missing_token"; message = "Missing token."; request_id = request_id }))
        _
        (λ token h. with_token token refl refl (
          filled_of_filter (Option.map trim (str_field "token" payload)) token
            (ok_or_success (named_field "token" payload) _ token h)))

  dropbox-Sound :
      (payload : j.Value) (id : String) (request_id : Option String) (now_ts now_micros : ℤ)
      → Sound (dropbox_public_auth payload id request_id now_ts now_micros)
  unfolding dropbox_public_auth
  dropbox-Sound payload id request_id now_ts now_micros =
      let slug = trimmed_field "slug" payload in
      if_cases Sound (not (is_valid_dropbox_slug slug)) (λ e. tt)
        (λ e. with_slug slug now_micros refl refl (ground arith))

  pairing-Sound :
      (payload : j.Value) (id : String) (request_id : Option String) (now_ts : ℤ)
      → Sound (device_pairing_auth payload id request_id now_ts)
  unfolding device_pairing_auth
  pairing-Sound payload id request_id now_ts =
      let token = trimmed_field "pairing_endpoint_token" payload in
      if_cases Sound (not (is_valid_pairing_token token)) (λ e. tt)
        (λ e. with_pairing token refl refl (ground arith))

  module _ ⦃l : JsonLaws⦄ (config : Config) (post : String → ℕ → j.Value → HttpReply)
      (now_ts now_micros : ℤ) where
    backend-Sound :
        (auth_type kind : String) (body : j.Value) (id : String) (request_id : Option String)
        → Sound (by_backend config post now_ts now_micros auth_type kind body id request_id)
    unfolding by_backend
    backend-Sound auth_type kind body id request_id =
        OnSuccess-bind IsAuthenticated (resolve_preauth_http_path auth_type request_id) _ (λ path h.
          OnSuccess-bind IsAuthenticated
            (authenticate_via_http post config.auth_backend_base_url config.auth_request_timeout_ms
              path body request_id)
            _
            (λ r e.
              let named = subst HasToken e (
                via_http-HasToken post config.auth_backend_base_url config.auth_request_timeout_ms
                  path body request_id) in
              let same = token_of_success kind r.0 now_ts request_id r.1 in
              with_token _ refl refl (rw same named)))

    login-Sound :
        (payload : j.Value) (id : String) (request_id : Option String)
        → Sound (auth_login_request config post now_ts now_micros payload id request_id)
    unfolding auth_login_request
    login-Sound payload id request_id =
        let given = "email" ∷ "password" ∷ [] in
        if_both Sound (any_empty (trimmed_fields given payload)) tt (
          backend-Sound "auth_login_request" "auth_login_ok" (j.object (text_fields given payload))
            id request_id)

    register-Sound :
        (payload : j.Value) (id : String) (request_id : Option String)
        → Sound (auth_register_request config post now_ts now_micros payload id request_id)
    unfolding auth_register_request
    register-Sound payload id request_id =
        let identity = trimmed_fields identity_keys payload in
        if_both Sound (any_empty (trimmed_fields ("name" ∷ "email" ∷ "password" ∷ []) payload)) tt (
          if_both Sound (any_given identity && any_empty identity) tt (
            backend-Sound "auth_register_request" "auth_register_ok"
              (register_payload payload (any_given identity)) id request_id))

    identity-Sound :
        (payload : j.Value) (id : String) (request_id : Option String)
        → Sound (auth_identity_request config post now_ts now_micros payload id request_id)
    unfolding auth_identity_request
    identity-Sound payload id request_id =
        if_both Sound (any_empty (trimmed_fields identity_keys payload)) tt (
          backend-Sound "auth_identity_request" "auth_identity_ok" (identity_payload payload) id
            request_id)

    run_auth-Sound :
        (auth_type : String) (payload : j.Value) (id : String) (request_id : Option String)
        → Sound (run_auth config post now_ts now_micros auth_type payload id request_id)
    unfolding run_auth
    run_auth-Sound auth_type payload id request_id =
        if_both Sound (auth_type == "auth") (auth-Sound payload id request_id) (
          if_both Sound (auth_type == "auth_login_request") (login-Sound payload id request_id) (
            if_both Sound (auth_type == "auth_register_request")
              (register-Sound payload id request_id)
              (if_both Sound (auth_type == "auth_identity_request")
                (identity-Sound payload id request_id)
                (if_both Sound (auth_type == "dropbox_public_auth")
                  (dropbox-Sound payload id request_id now_ts now_micros)
                  (if_both Sound (auth_type == "device_pairing_auth")
                    (pairing-Sound payload id request_id now_ts) tt)))))

    resolved-Sound :
        (payload : j.Value) → Sound (resolve_initial_auth config post now_ts now_micros payload)
    unfolding resolve_initial_auth
    resolved-Sound payload =
        elim (Option-cases (resolve_command_spec (trimmed_field "type" payload))) [
          | inl missing ↦ rw (missing, resolve_initial_auth) tt
          | inr (spec, found) ↦
              rw (found, resolve_initial_auth)
                (if_both Sound (not (is_no_auth spec.routing_class)) tt (
                  run_auth-Sound (trimmed_field "type" payload) payload
                    (trimmed_field "client_instance_id" payload)
                    (normalize_request_id (str_field "request_id" payload))))
        ]

    -- A first message that succeeds has a token that is not empty and no user, or no token and the
    -- user of a guest: one for a valid slug, or one for a valid token of a pairing.
    pub resolve_initial_auth-IsAuthenticated :
        (payload : j.Value) (p : PreAuthSuccess)
        → resolve_initial_auth config post now_ts now_micros payload ≡ success p
        → IsAuthenticated p
    resolve_initial_auth-IsAuthenticated payload p h = subst Sound h (resolved-Sound payload)
