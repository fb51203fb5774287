-- ===== src/Transport/WebSocket.antt =====
-- transport/websocket.rs: the frames of a client, before and after it is authenticated.
use rust_http3_gateway.Prelude.{ℕ, Bool, String, List, [], ◌∷◌, Option, Unicode, if◌then◌else◌}
use rust_http3_gateway.Json.{Json}
use rust_http3_gateway.State.Types.{ConnectionInfo, text, close}
use rust_http3_gateway.Gateway.{Readings}
use rust_http3_gateway.Auth.Session.{Reading, read_parsed, read_fails, read_waits}
use rust_http3_gateway.Transport.Session.{
  SessionConfig, World, SessionEvent, outbound, channel_closed, incoming, Stepped, stays, ends,
  receive,
}

-- The contents of binary frames and of streams, with their decoding.
pub record Buffers ⦃j : Json⦄ : Type 1 where
  pub Buffer : Type 0
  pub is_empty_buffer : Buffer → Bool
  pub from_utf8 : Buffer → Option String
  pub from_utf8_lossy : Buffer → String
  pub from_slice : Buffer → Option j.Value

module _ ⦃j : Json⦄ ⦃b : Buffers⦄ where
  open j use {from_str}
  open b use {Buffer, from_utf8_lossy, from_slice}

  -- What `recv` returns: a frame, an error, or `None`.
  pub data Frame : Type 0 where
    text_frame : String → Frame
    binary_frame : Buffer → Frame
    ping_frame pong_frame close_frame no_frame frame_error : Frame

  -- The first frame that has a payload; one that is not JSON is an error.
  unfoldable pub read_auth_message : List Frame → Reading (List Frame)
  read_auth_message [] = read_waits
  read_auth_message (text_frame t ∷ rest) = read_parsed (from_str t) rest
  read_auth_message (binary_frame bytes ∷ rest) = read_parsed (from_slice bytes) rest
  read_auth_message (ping_frame ∷ rest) = read_auth_message rest
  read_auth_message (pong_frame ∷ rest) = read_auth_message rest
  read_auth_message (close_frame ∷ rest) = read_fails
  read_auth_message (no_frame ∷ rest) = read_fails
  read_auth_message (frame_error ∷ rest) = read_fails

  module _ ⦃u : Unicode⦄ (config : SessionConfig) (live : ℕ → Bool) (info : ConnectionInfo) where
    unfoldable pub ws_frame : World → Frame → Readings → Stepped
    ws_frame world (text_frame t) at = receive config live world info t at
    ws_frame world (binary_frame bytes) at =
        receive config live world info (from_utf8_lossy bytes) at
    ws_frame world ping_frame at = stays world
    ws_frame world pong_frame at = stays world
    ws_frame world close_frame at = ends world
    ws_frame world no_frame at = ends world
    ws_frame world frame_error at = ends world

    -- One turn of the loop.
    unfoldable pub ws_step : World → SessionEvent (Frame × Readings) → Stepped
    unfolding ws_frame
    ws_step world (outbound (text t) taken) = if taken then stays world else ends world
    ws_step world (outbound (close code reason) taken) = ends world
    ws_step world channel_closed = ends world
    ws_step world (incoming (frame, at)) = ws_frame world frame at
