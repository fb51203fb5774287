-- ===== src/Transport/Fixtures.antt =====
-- A configuration, clients and events on which the sessions are run: a client that is let in for a
-- pairing, by its second frame, and one that logs in at the backend.
use rust_http3_gateway.Prelude.{
  ℕ, pos, Bool, true, false, String, List, [], ◌∷◌, Option, none, some, if◌then◌else◌, ◌==◌,
}
use rust_http3_gateway.Json.{Json}
use rust_http3_gateway.Json.Laws.{JsonLaws}
use rust_http3_gateway.Json.Tests.{
  Tree, word, number, entries, a_field, no_fields, json_reading, json_reading-laws, plain_case,
}
use rust_http3_gateway.Config.{Config}
use rust_http3_gateway.State.Types.{ConnectionInfo, text, new}
use rust_http3_gateway.Gateway.{Readings}
use rust_http3_gateway.Auth.Jwt.{Jwt}
use rust_http3_gateway.Auth.Preauth.Types.{PreAuthSuccess}
use rust_http3_gateway.Auth.Preauth.Backend.{HttpReply, reply}
use rust_http3_gateway.Auth.Session.{AuthContext, AuthRound}
use rust_http3_gateway.Transport.Session.{
  SessionConfig, World, SessionEvent, outbound, channel_closed, incoming,
}
use rust_http3_gateway.Transport.WebSocket.{Buffers, Frame, text_frame, ping_frame, close_frame}
use rust_http3_gateway.Transport.WebTransport.{Stream, stream_read}

abbrev pub pairing : Tree
pairing = entries (
    a_field "type" (word "device_pairing_auth")
      (a_field "pairing_endpoint_token" (word "tok1") no_fields))

abbrev pub login : Tree
login = entries (
    a_field "type" (word "auth_login_request")
      (a_field "email" (word "ann") (a_field "password" (word "secret") no_fields)))

abbrev pub answer : Tree
answer =
    entries (a_field "payload" (entries (a_field "request_id" (word "r1") no_fields)) no_fields)

abbrev pub read_text : String → Option Tree
read_text s = if s == "pairing" then some pairing else if s == "answer" then some answer else none

instance abbrev pub the_json : Json
the_json = json_reading read_text

instance abbrev pub the_laws : JsonLaws
the_laws = json_reading-laws read_text

-- Buffers are texts.
instance abbrev pub text_buffers : Buffers
text_buffers = record {
  Buffer = String;
  is_empty_buffer = λ s. s == "";
  from_utf8 = λ s. some s;
  from_utf8_lossy = λ s. s;
  from_slice = read_text;
}

abbrev pub refused_key : String → Option String
refused_key s = none

-- No token can be decoded.
abbrev pub no_tokens : Jwt
no_tokens = record {
  Key = String;
  Jwk = String;
  decode_header = λ token. none;
  key_id = refused_key;
  from_jwk = refused_key;
  from_secret = λ s. s;
  from_rsa_pem = refused_key;
  decode = λ token key validation. none;
  fetch_jwks = λ url. none;
}

-- The backend gives every client the same token.
abbrev pub generous : String → ℕ → Tree → HttpReply
generous url timeout_ms body = reply 200 (some (entries (a_field "token" (word "jwt1") no_fields)))

abbrev pub config : Config
config = record {
  transport = "websocket";
  jwt_alg = "RS256";
  jwt_user_id_claim = "user_id";
  jwt_public_key = "";
  jwt_public_key_file = "";
  jwt_jwks_url = "";
  jwt_issuer = "";
  jwt_audience = "";
  jwt_leeway = pos 0;
  gateway_api_key = "";
  auth_backend_base_url = "http://localhost/";
  auth_request_timeout_ms = 1000;
  redis_dsn = "";
  redis_stream = "ws.outbox";
  redis_inbox_stream = "ws.inbox";
  redis_events_stream = "ws.events";
  outbox_delete_on_consume = true;
  max_connections_per_user = none;
  stale_connection_timeout_seconds = pos 0;
  stale_prune_interval_seconds = 1;
  webtransport_port = 4433;
  websocket_port = 8081;
  http_api_port = 8080;
  cert_pemfile = "";
  key_pemfile = "";
}

abbrev pub round : AuthRound
round = record {
  now_ts = pos 100;
  now_micros = pos 100_000_000;
  error_at = pos 100;
  post = generous;
  jwt = no_tokens;
}

abbrev pub logged_in : PreAuthSuccess
logged_in = record {
  token = some "jwt1";
  user_id = none;
  client_instance_id = "";
  success_payload = some (
      entries (
        a_field "type" (word "auth_login_ok")
          (a_field "token" (word "jwt1") (a_field "ts" (number (pos 100)) no_fields))));
}

abbrev pub frames : List Frame
frames = ping_frame ∷ text_frame "pairing" ∷ close_frame ∷ []

abbrev pub rounds : List AuthRound
rounds = round ∷ round ∷ round ∷ round ∷ round ∷ []

abbrev pub guest : AuthContext
guest = record {
  user_id = "pairing:tok1";
  client_instance_id = "";
  bootstrap_success_payload = some (
      entries (
        a_field "type" (word "device_pairing_auth_ok") (
          a_field "pairing_endpoint_token" (word "tok1")
            (a_field "ts" (number (pos 100)) no_fields))));
}

abbrev pub session_config : SessionConfig
session_config = record { inbox_stream = "ws.inbox"; events_stream = "ws.events"; has_redis = true }

abbrev pub empty_world : World
empty_world = record { state = new none; published = [] }

abbrev pub all_live : ℕ → Bool
all_live channel = true

abbrev pub at_100 : Readings
at_100 = record {
  alive_at = pos 100;
  bound_at = pos 100;
  ready_at = pos 100;
  authorized_at = pos 100;
  requeued_at = pos 100;
  error_at = pos 100;
  timestamp_ms = pos 100_000;
  internal_id = "i1";
}

abbrev pub ws_events : List (SessionEvent (Frame × Readings))
ws_events = incoming (text_frame "hello", at_100) ∷ channel_closed ∷ []

abbrev pub wt_events : List (SessionEvent (Stream × Readings))
wt_events = incoming (stream_read "hello", at_100) ∷ outbound (text "news") false ∷ []

abbrev pub ann : ConnectionInfo
ann = record {
  connection_id = "c1";
  user_id = "ann";
  client_instance_id = "";
  subjects = "user:ann" ∷ [];
  connected_at = pos 1;
  last_seen_at = pos 1;
}

abbrev pub ann_connected : World
unfolding new
ann_connected = record {
  state = record (new none) {
    connections = ("c1", record { info = ann; sender = 0 }) ∷ [];
    subjects = ("user:ann", "c1" ∷ []) ∷ [];
    next_channel = 1;
  };
  published = [];
}
