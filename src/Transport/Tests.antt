-- ===== src/Transport/Tests.antt =====
-- A session on concrete inputs: a client that is let in for a pairing, by its second frame, and one
-- that logs in at the backend.
use rust_http3_gateway.Prelude.{
  pos, true, false, String, [], ◌∷◌, ◌++◌, none, lookup, str_dec, trim, trim_start, trim_end,
  is_whitespace, In, here, there, success, ◌≡◌, ◌≢◌, refl, ◌⊎◌, arith, concat, byte_length,
  trim_end_slashes,
}
use rust_http3_gateway.Json.Tests.{Tree, plain_case, get_tree}
use rust_http3_gateway.Routes.{resolve_command_spec, find_command}
use rust_http3_gateway.State.Types.{text}
use rust_http3_gateway.State.Pending.Delivery.{EndsWith}
use rust_http3_gateway.State.Pending.Requeue.{plain_message}
use rust_http3_gateway.Auth.Preauth.Types.{
  normalize_request_id, is_valid_pairing_token, compose_pairing_guest_user_id, resolve_http_path,
}
use rust_http3_gateway.Auth.Preauth.Backend.{
  read_reply, authenticate_via_http, resolve_preauth_http_path,
}
use rust_http3_gateway.Auth.Preauth.Commands.{
  resolve_initial_auth, run_auth, auth_login_request, device_pairing_auth, by_backend,
}
use rust_http3_gateway.Auth.Guarantees.{IsAuthenticated, resolve_initial_auth-IsAuthenticated}
use rust_http3_gateway.Auth.Session.{
  AuthRound, authenticated, auth_waits, authenticate, attempt, user_of, client_instance_id_of,
  is_valid_client_instance_id,
}
use rust_http3_gateway.Auth.Admission.{IsAdmitted, authenticate-IsAdmitted}
use rust_http3_gateway.Transport.Session.{channel_closed, World, outbound, ends, handle_session}
use rust_http3_gateway.Transport.WebSocket.{close_frame, read_auth_message, ws_step}
use rust_http3_gateway.Transport.WebTransport.{wt_step}
use rust_http3_gateway.Transport.Reading.{authenticate_enough_frames, authenticate_ends}
use rust_http3_gateway.Transport.Lifetime.{channel_ends, text_is_lost, handle_session_disconnects}
use rust_http3_gateway.Transport.Endings.{IsAnswer, wt_step_keeps_unsent}
use rust_http3_gateway.Transport.Fixtures.{
  login, the_json, the_laws, text_buffers, generous, config, logged_in, frames, rounds, guest,
  session_config, empty_world, all_live, ws_events, wt_events, ann, ann_connected,
}

login_succeeds :
    resolve_initial_auth config generous (pos 100) (pos 100_000_000) login ≡ success logged_in
unfolding resolve_initial_auth run_auth auth_login_request by_backend authenticate_via_http
    read_reply resolve_preauth_http_path resolve_http_path normalize_request_id get_tree lookup
    str_dec trim trim_start trim_end is_whitespace resolve_command_spec find_command
    trim_end_slashes concat
login_succeeds = refl

resolve_initial_auth-IsAuthenticated_example : IsAuthenticated logged_in
resolve_initial_auth-IsAuthenticated_example =
    resolve_initial_auth-IsAuthenticated config generous (pos 100) (pos 100_000_000) login logged_in
      login_succeeds

guest_is_let_in :
    (authenticate read_auth_message config rounds none frames).1
    ≡ authenticated guest (close_frame ∷ [])
unfolding authenticate attempt user_of client_instance_id_of is_valid_client_instance_id
    read_auth_message resolve_initial_auth run_auth device_pairing_auth is_valid_pairing_token
    byte_length compose_pairing_guest_user_id normalize_request_id get_tree lookup str_dec trim
    trim_start trim_end is_whitespace resolve_command_spec find_command concat
guest_is_let_in = refl

authenticate-IsAdmitted_example :
    (r : AuthRound) × (payload : Tree) × In r rounds × IsAdmitted config r payload guest
authenticate-IsAdmitted_example =
    authenticate-IsAdmitted config read_auth_message rounds none frames (close_frame ∷ []) guest
      guest_is_let_in

authenticate_enough_frames_example :
    authenticate read_auth_message config (rounds ++ rounds) none frames
    ≡ authenticate read_auth_message config rounds none frames
authenticate_enough_frames_example =
    authenticate_enough_frames config rounds rounds none frames (omega arith)

authenticate_ends_example :
    (authenticate read_auth_message config rounds none frames).1 ≢ auth_waits
authenticate_ends_example =
    authenticate_ends config rounds none frames (there (there (here refl))) (omega arith)

handle_session_disconnects_example :
    (lookup "c1"
        (handle_session session_config all_live
          (ws_step session_config all_live)
          empty_world
          "c1"
          guest
          true
          (pos 1)
          (pos 1)
          ws_events).state.connections
      ≡ none)
    × (lookup "c1"
          (handle_session session_config all_live
            (λ info. wt_step session_config all_live info (pos 2))
            empty_world
            "c1"
            guest
            true
            (pos 1)
            (pos 1)
            wt_events).state.connections
        ≡ none)
handle_session_disconnects_example =
    handle_session_disconnects session_config all_live (pos 2) empty_world "c1" guest true (pos 1)
      (pos 1) ws_events channel_closed wt_events (outbound (text "news") false) (there (here refl))
      channel_ends (there (here refl)) (text_is_lost "news")

-- What becomes of a text that could not be sent.
abbrev Unsent : String → Type 0
Unsent t =
    (after : World) × (wt_step session_config all_live ann (pos 2) ann_connected
        (outbound (text t) false)
      ≡ ends after)
    × ((¬ (IsAnswer t)
          × ((subject : String)
              → In subject ("user:ann" ∷ [])
              → EndsWith (λ _. Unit) (plain_message t (pos 2)) after.state.pending_by_subject
                  subject))
        ⊎ (IsAnswer t × (after ≡ ann_connected)))

-- News are no answer; the other text is the answer to a request.
wt_step_keeps_unsent_example : Unsent "news" × Unsent "answer"
wt_step_keeps_unsent_example = (
  wt_step_keeps_unsent session_config all_live ann (pos 2) ann_connected "news" refl,
  wt_step_keeps_unsent session_config all_live ann (pos 2) ann_connected "answer" refl,
)
