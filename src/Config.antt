-- ===== src/Config.antt =====
-- config.rs: the configuration, from the variables of the environment.
pub mod Bounds
mod Tests
use rust_http3_gateway.Prelude.{
  ℕ, ◌-◌, ◌^◌, ltb, ℤ, pos, leb_ℤ, Bool, true, false, ◌&&◌, ◌||◌, not, String, Option, none, some,
  and_then, unwrap_or, filter_option, ◌==◌, is_empty, trim, to_lowercase, Unicode, parse_unsigned,
  parse_signed, if◌then◌else◌, max,
}
use mathlib.Core.Option

pub record Config : Type 0 where
  pub transport : String
  pub jwt_alg : String
  pub jwt_user_id_claim : String
  pub jwt_public_key : String
  pub jwt_public_key_file : String
  pub jwt_jwks_url : String
  pub jwt_issuer : String
  pub jwt_audience : String
  pub jwt_leeway : ℤ
  pub gateway_api_key : String
  pub auth_backend_base_url : String
  pub auth_request_timeout_ms : ℕ
  pub redis_dsn : String
  pub redis_stream : String
  pub redis_inbox_stream : String
  pub redis_events_stream : String
  pub outbox_delete_on_consume : Bool
  pub max_connections_per_user : Option ℕ
  pub stale_connection_timeout_seconds : ℤ
  pub stale_prune_interval_seconds : ℕ
  pub webtransport_port : ℕ
  pub websocket_port : ℕ
  pub http_api_port : ℕ
  pub cert_pemfile : String
  pub key_pemfile : String

abbrev pub u16_max : ℕ
u16_max = 65_535

abbrev pub u64_max : ℕ
u64_max = 2 ^ 64 - 1

-- `max` on `i64`.
abbrev pub max_ℤ : ℤ → ℤ → ℤ
max_ℤ a b = if leb_ℤ b a then a else b

abbrev pub one_of_true : String → Bool
one_of_true value = value == "1" || value == "true" || value == "yes" || value == "on"

-- `env` is `std::env::var(..).ok()`, and `read_file` is `fs::read_to_string(..).ok()`; a `usize` has
-- 64 bits.
module _ ⦃u : Unicode⦄ (env read_file : String → Option String) where
  unfoldable pub env_str : String → String → String
  env_str key default = unwrap_or (env key) default

  unfoldable pub env_i64 : String → ℤ → ℤ
  env_i64 key default = unwrap_or (and_then (env key) parse_signed) default

  unfoldable pub env_u16 : String → ℕ → ℕ
  env_u16 key default = unwrap_or (and_then (env key) (parse_unsigned u16_max)) default

  unfoldable pub env_u64 : String → ℕ → ℕ
  env_u64 key default = unwrap_or (and_then (env key) (parse_unsigned u64_max)) default

  unfoldable pub env_usize : String → Option ℕ
  env_usize key = and_then (env key) (parse_unsigned u64_max)

  unfoldable pub env_bool : String → Bool → Bool
  env_bool key default =
      unwrap_or (Option.map (λ value. one_of_true (to_lowercase (trim value))) (env key)) default

  -- The key itself, or else the contents of its file.
  unfoldable pub public_key : String
  unfolding env_str
  public_key =
      let key = env_str "JWT_PUBLIC_KEY" "" in
      let file = env_str "JWT_PUBLIC_KEY_FILE" "" in
      if is_empty key && not (is_empty file) then unwrap_or (read_file file) key else key

  unfoldable pub from_env : Config
  unfolding env_str env_i64 env_u16 env_u64 env_usize env_bool public_key
  from_env =
      let transport = to_lowercase (env_str "GATEWAY_TRANSPORT" "webtransport") in
      record {
        transport =
            if transport == "websocket" || transport == "ws" then "websocket" else "webtransport";
        jwt_alg = env_str "JWT_ALG" "RS256";
        jwt_user_id_claim = env_str "JWT_USER_ID_CLAIM" "user_id";
        jwt_public_key = public_key;
        jwt_public_key_file = env_str "JWT_PUBLIC_KEY_FILE" "";
        jwt_jwks_url = env_str "JWT_JWKS_URL" "";
        jwt_issuer = env_str "JWT_ISSUER" "";
        jwt_audience = env_str "JWT_AUDIENCE" "";
        jwt_leeway = env_i64 "JWT_LEEWAY" (pos 0);
        gateway_api_key = env_str "GATEWAY_API_KEY" "";
        auth_backend_base_url = env_str "AUTH_BACKEND_BASE_URL" "http://symfony:8000";
        auth_request_timeout_ms = max (env_u64 "AUTH_REQUEST_TIMEOUT_MS" 8000) 1000;
        redis_dsn = env_str "REDIS_DSN" "";
        redis_stream = env_str "REDIS_STREAM" "ws.outbox";
        redis_inbox_stream = env_str "REDIS_INBOX_STREAM" "ws.inbox";
        redis_events_stream = env_str "REDIS_EVENTS_STREAM" "ws.events";
        outbox_delete_on_consume = env_bool "OUTBOX_DELETE_ON_CONSUME" true;
        max_connections_per_user =
            filter_option (λ n. ltb 0 n) (env_usize "MAX_CONNECTIONS_PER_USER");
        stale_connection_timeout_seconds =
            max_ℤ (env_i64 "CONNECTION_STALE_SECONDS" (pos 120)) (pos 0);
        stale_prune_interval_seconds = max (env_u64 "CONNECTION_PRUNE_INTERVAL_SECONDS" 15) 1;
        webtransport_port = env_u16 "WEBTRANSPORT_PORT" 4433;
        websocket_port = env_u16 "WEBSOCKET_PORT" 8081;
        http_api_port = env_u16 "HTTP_API_PORT" 8080;
        cert_pemfile = env_str "CERT_PEMFILE" "/run/certs/dev_cert.pem";
        key_pemfile = env_str "KEY_PEMFILE" "/run/certs/dev_key.pem";
      }
