-- ===== src/Transport/Reading.antt =====
-- transport/websocket.rs: the loop of authentication, over the frames of a client.
use rust_http3_gateway.Prelude.{
  ◌<◌, ◌≤◌, ◌+◌, List, [], ◌∷◌, ◌++◌, length, In, here, there, Option, none, some, Outcome-cases,
  ◌≡◌, ◌≢◌, ap, inl, inr, arith,
}
use rust_http3_gateway.Json.{Json}
use rust_http3_gateway.Config.{Config}
use rust_http3_gateway.Auth.Session.{
  AuthRound, read_parsed, message, read_waits, auth_waits, authenticate, attempt,
}
use rust_http3_gateway.Auth.Admission.{authenticate_enough, attempts_needed, reading_cases}
use rust_http3_gateway.Transport.WebSocket.{
  Buffers, Frame, text_frame, binary_frame, ping_frame, pong_frame, close_frame, no_frame,
  frame_error, read_auth_message,
}

module _ ⦃j : Json⦄ ⦃b : Buffers⦄ where
  -- What a payload that is parsed, or not, makes of the reading.
  parsed_rest :
      (o : Option j.Value) (rest after : List Frame) (payload : j.Value)
      → read_parsed o rest ≡ message payload after
      → rest ≡ after
  parsed_rest none rest after payload h = cc
  parsed_rest (some value) rest after payload h = cc

  pub read_auth_message-lt :
      (frames after : List Frame) (payload : j.Value)
      → read_auth_message frames ≡ message payload after
      → length after < length frames
  unfolding read_auth_message
  read_auth_message-lt [] after payload h = cc
  read_auth_message-lt (text_frame t ∷ rest) after payload h =
      let q = parsed_rest (j.from_str t) rest after payload h in omega (arith, ap length q)
  read_auth_message-lt (binary_frame bytes ∷ rest) after payload h =
      let q = parsed_rest (b.from_slice bytes) rest after payload h in omega (arith, ap length q)
  read_auth_message-lt (ping_frame ∷ rest) after payload h =
      omega (arith, read_auth_message-lt rest after payload h)
  read_auth_message-lt (pong_frame ∷ rest) after payload h =
      omega (arith, read_auth_message-lt rest after payload h)
  read_auth_message-lt (close_frame ∷ rest) after payload h = cc
  read_auth_message-lt (no_frame ∷ rest) after payload h = cc
  read_auth_message-lt (frame_error ∷ rest) after payload h = cc

  -- With two rounds more than there are frames, the loop has all the rounds that it can use: any
  -- further ones change nothing.
  pub authenticate_enough_frames :
      (config : Config) (rounds more : List AuthRound) (pending : Option j.Value)
      (frames : List Frame)
      → length frames + 2 ≤ length rounds
      → authenticate read_auth_message config (rounds ++ more) pending frames
        ≡ authenticate read_auth_message config rounds pending frames
  authenticate_enough_frames config rounds more none frames h =
      authenticate_enough config read_auth_message length read_auth_message-lt rounds more none
        frames (omega arith)
  authenticate_enough_frames config rounds more (some p) frames h =
      authenticate_enough config read_auth_message length read_auth_message-lt rounds more (some p)
        frames (omega arith)

  parsed_not_waiting : (o : Option j.Value) (rest : List Frame) → read_parsed o rest ≢ read_waits
  parsed_not_waiting none rest h = cc
  parsed_not_waiting (some value) rest h = cc

  -- A client that closes its socket does not keep the reading waiting.
  close_not_waiting :
      (frames : List Frame) → In close_frame frames → read_auth_message frames ≢ read_waits
  unfolding read_auth_message
  close_not_waiting [] i h = elim i [ ]
  close_not_waiting (text_frame t ∷ rest) i h = parsed_not_waiting (j.from_str t) rest h
  close_not_waiting (binary_frame bytes ∷ rest) i h = parsed_not_waiting (b.from_slice bytes) rest h
  close_not_waiting (ping_frame ∷ rest) (here e) h = cc
  close_not_waiting (ping_frame ∷ rest) (there i) h = close_not_waiting rest i h
  close_not_waiting (pong_frame ∷ rest) (here e) h = cc
  close_not_waiting (pong_frame ∷ rest) (there i) h = close_not_waiting rest i h
  close_not_waiting (close_frame ∷ rest) i h = cc
  close_not_waiting (no_frame ∷ rest) i h = cc
  close_not_waiting (frame_error ∷ rest) i h = cc

  close_still_comes :
      (frames after : List Frame) (payload : j.Value)
      → read_auth_message frames ≡ message payload after
      → In close_frame frames
      → In close_frame after
  unfolding read_auth_message
  close_still_comes [] after payload h i = elim i [ ]
  close_still_comes (text_frame t ∷ rest) after payload h (here e) = cc
  close_still_comes (text_frame t ∷ rest) after payload h (there i) =
      let q = parsed_rest (j.from_str t) rest after payload h in rw (← q) i
  close_still_comes (binary_frame bytes ∷ rest) after payload h (here e) = cc
  close_still_comes (binary_frame bytes ∷ rest) after payload h (there i) =
      let q = parsed_rest (b.from_slice bytes) rest after payload h in rw (← q) i
  close_still_comes (ping_frame ∷ rest) after payload h (here e) = cc
  close_still_comes (ping_frame ∷ rest) after payload h (there i) =
      close_still_comes rest after payload h i
  close_still_comes (pong_frame ∷ rest) after payload h (here e) = cc
  close_still_comes (pong_frame ∷ rest) after payload h (there i) =
      close_still_comes rest after payload h i
  close_still_comes (close_frame ∷ rest) after payload h i = cc
  close_still_comes (no_frame ∷ rest) after payload h i = cc
  close_still_comes (frame_error ∷ rest) after payload h i = cc

  -- With enough rounds, the loop ends for a client that closes its socket: it has let the client in
  -- before, or it fails; it waits for nothing more.
  pub authenticate_ends :
      (config : Config) (rounds : List AuthRound) (pending : Option j.Value) (frames : List Frame)
      → In close_frame frames
      → attempts_needed config read_auth_message length read_auth_message-lt pending frames
        ≤ length rounds
      → (authenticate read_auth_message config rounds pending frames).1 ≢ auth_waits
  unfolding authenticate
  authenticate_ends config [] none frames i h = λ w. absurd (omega arith)
  authenticate_ends config [] (some p) frames i h = λ w. absurd (omega arith)
  authenticate_ends config (round ∷ rounds) none frames i h =
      elim (reading_cases config (read_auth_message frames)) [
        | inl (inl e) ↦ λ w. cc (rw (e, authenticate) at w)
        | inl (inr e) ↦ absurd (close_not_waiting frames i e)
        | inr (payload, left, e) ↦ elim (Outcome-cases (attempt config round payload)) [
          | inl (made, f) ↦ λ w. cc (rw (e, f, authenticate) at w)
          | inr (refused, f) ↦ λ w.
              authenticate_ends config rounds none left (close_still_comes frames left payload e i)
                (omega (arith, read_auth_message-lt frames left payload e))
                (rw (e, f, authenticate) at w)
        ]
      ]
  authenticate_ends config (round ∷ rounds) (some p) frames i h =
      elim (Outcome-cases (attempt config round p)) [
        | inl (made, f) ↦ λ w. cc (rw (f, authenticate) at w)
        | inr (refused, f) ↦ λ w.
            authenticate_ends config rounds none frames i (omega arith) (rw (f, authenticate) at w)
      ]
