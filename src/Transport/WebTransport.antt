-- ===== src/Transport/WebTransport.antt =====
-- transport/webtransport.rs: the streams of a client, and a text that could not be sent.
use rust_http3_gateway.Prelude.{
  ℕ, ℤ, Bool, String, List, [], ◌∷◌, Option, none, some, unwrap_or, is_some, Unicode, if◌then◌else◌,
}
use rust_http3_gateway.Json.{Json, named_field}
use rust_http3_gateway.State.Types.{ConnectionInfo, text, close}
use rust_http3_gateway.State.Pending.{requeue_for_subjects}
use rust_http3_gateway.Gateway.{Readings}
use rust_http3_gateway.Auth.Session.{Reading, read_parsed, read_fails, read_waits}
use rust_http3_gateway.Transport.Session.{
  SessionConfig, World, SessionEvent, outbound, channel_closed, incoming, Stepped, stays, ends,
  receive,
}
use rust_http3_gateway.Transport.WebSocket.{Buffers}

pub data OutboundDeliveryMode : Type 0 where
  request_response push : OutboundDeliveryMode

unfoldable pub outbound_mode_as_str : OutboundDeliveryMode → String
outbound_mode_as_str request_response = "request_response"
outbound_mode_as_str push = "push"

pub record OutboundEventMeta : Type 0 where
  pub mode : OutboundDeliveryMode
  pub request_id : Option String
  pub event_type : Option String

abbrev pub push_meta : OutboundEventMeta
push_meta = record { mode = push; request_id = none; event_type = none }

module _ ⦃j : Json⦄ where
  open j use {Value, get, from_str}

  unfoldable pub classify_payload : Option Value → OutboundEventMeta
  classify_payload none = push_meta
  classify_payload (some payload) =
      let request_id = named_field "request_id" payload in
      record {
        mode = if is_some request_id then request_response else push;
        request_id = request_id;
        event_type = named_field "type" payload;
      }

  unfoldable pub classify_outbound_event : String → OutboundEventMeta
  unfolding classify_payload
  classify_outbound_event raw_text = elim (from_str raw_text) [
    | none ↦ push_meta
    | some parsed ↦ classify_payload (get "payload" parsed)
  ]

  module _ ⦃b : Buffers⦄ where
    open b use {Buffer, is_empty_buffer, from_utf8}

    -- A stream of the client that is read to its end within its time, or not.
    pub data Stream : Type 0 where
      stream_read : Buffer → Stream
      not_accepted read_error read_timeout : Stream

    -- What is not UTF-8 is read as an empty text.
    abbrev pub raw_of : Buffer → String
    raw_of buffer = unwrap_or (from_utf8 buffer) ""

    unfoldable pub read_auth_stream : List Stream → Reading (List Stream)
    read_auth_stream [] = read_waits
    read_auth_stream (stream_read buffer ∷ rest) = read_parsed (from_str (raw_of buffer)) rest
    read_auth_stream (not_accepted ∷ rest) = read_fails
    read_auth_stream (read_error ∷ rest) = read_fails
    read_auth_stream (read_timeout ∷ rest) = read_waits

    module _ ⦃u : Unicode⦄ (config : SessionConfig) (live : ℕ → Bool) (info : ConnectionInfo)
        (requeued_at : ℤ) where
      -- A text that could not be sent waits again, unless it answers a request.
      unfoldable pub keep_unsent : World → String → World
      unfolding classify_outbound_event
      keep_unsent world t = elim (classify_outbound_event t).mode [
        | push ↦ record world {
          state = requeue_for_subjects world.state info.subjects t requeued_at;
        }
        | request_response ↦ world
      ]

      unfoldable pub wt_stream : World → Stream → Readings → Stepped
      wt_stream world (stream_read buffer) at =
          if is_empty_buffer buffer
          then stays world
          else receive config live world info (raw_of buffer) at
      wt_stream world not_accepted at = ends world
      wt_stream world read_error at = ends world
      wt_stream world read_timeout at = ends world

      -- One turn of the loop.
      unfoldable pub wt_step : World → SessionEvent (Stream × Readings) → Stepped
      unfolding keep_unsent wt_stream
      wt_step world (outbound (text t) taken) =
          if taken then stays world else ends (keep_unsent world t)
      wt_step world (outbound (close code reason) taken) = ends world
      wt_step world channel_closed = ends world
      wt_step world (incoming (stream, at)) = wt_stream world stream at
