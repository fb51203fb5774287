-- ===== src/Broker/Sends.antt =====
-- broker.rs: what a send to one connection leaves, and what the search for it leaves.
use rust_http3_gateway.Prelude.{
  ℕ, ℤ, Bool, true, false, String, List, none, some, lookup, is_empty, trim, if_both, ◌||◌, ◌≡◌,
  ◌≢◌, refl, sym, ap, ◌∙◌, inl, inr, Bool-cases, Option-cases,
}
use rust_http3_gateway.State.Types.{GatewayState, ConnectionHandle, text}
use rust_http3_gateway.State.Sessions.{push_sent, send}
use rust_http3_gateway.State.Sessions.Laws.{unregister_connection_other}
use rust_http3_gateway.State.RequestRoutes.{resolve_request_route, clear_request_route}
use rust_http3_gateway.State.Dispatch.{send_text_to, send_to_connection}

pub clear_connections :
    (s : GatewayState) (request : String)
    → (clear_request_route s request).connections ≡ s.connections
unfolding clear_request_route
clear_connections s request =
    if_both (λ (t : GatewayState). t.connections ≡ s.connections) (is_empty (trim request)) refl
      refl

pub resolve_blank :
    (s : GatewayState) (request : String) (subjects : List String) (now_ts : ℤ)
    → is_empty (trim request) ≡ true
    → resolve_request_route s request subjects now_ts ≡ (s, none)
unfolding resolve_request_route
resolve_blank s request subjects now_ts blank = rw blank refl

module _ (live : ℕ → Bool) where
  -- A send that succeeds: the channel of the connection takes the message.
  pub send_delivers :
      (s : GatewayState) (id message : String)
      → (send_to_connection live s id message).1 ≡ true
      → (handle : ConnectionHandle) × (lookup id s.connections ≡ some handle)
        × (live handle.sender ≡ true)
        × ((send_to_connection live s id message).0 ≡ push_sent s handle.sender (text message))
  unfolding send_to_connection send_text_to send
  send_delivers s id message h = elim (Bool-cases (is_empty id || is_empty message)) [
    | inl blank ↦ cc (rw (blank, send_to_connection) at h)
    | inr filled ↦ elim (Option-cases (lookup id s.connections)) [
      | inl missing ↦ cc (rw (filled, missing, send_to_connection) at h)
      | inr (handle, found) ↦ elim (Bool-cases (live handle.sender)) [
        | inr down ↦ cc (rw (filled, found, down, send_to_connection) at h)
        | inl up ↦ (handle, found, up, rw (filled, found, up, send_to_connection) refl)
      ]
    ]
  ]

  -- A send of a text to a connection that takes messages does not fail.
  pub send_fails_down :
      (s : GatewayState) (id message : String) (handle : ConnectionHandle)
      → is_empty id ≡ false
      → is_empty message ≡ false
      → (send_to_connection live s id message).1 ≡ false
      → lookup id s.connections ≡ some handle
      → live handle.sender ≡ false
  unfolding send_to_connection send_text_to send
  send_fails_down s id message handle named filled h found =
      elim (Bool-cases (live handle.sender)) [
        | inr down ↦ down
        | inl up ↦ cc (rw (named, filled, found, up, send_to_connection) at h)
      ]

  -- A send that fails leaves the connections that take messages.
  pub send_fails :
      (s : GatewayState) (id message : String) (j : String) (handle : ConnectionHandle)
      → (send_to_connection live s id message).1 ≡ false
      → lookup j s.connections ≡ some handle
      → live handle.sender ≡ true
      → lookup j (send_to_connection live s id message).0.connections ≡ some handle
  unfolding send_to_connection send_text_to send
  send_fails s id message j handle h found up =
      elim (Bool-cases (is_empty id || is_empty message)) [
        | inl blank ↦ rw (blank, send_to_connection) found
        | inr filled ↦ elim (Option-cases (lookup id s.connections)) [
          | inl missing ↦
              let other : id ≢ j =
                λ e. cc (sym missing ∙ ap (λ k. lookup k s.connections) e ∙ found) in
              rw (filled, missing, send_to_connection)
                (unregister_connection_other s id j other ∙ found)
          | inr (gone, there_is) ↦ elim (Bool-cases (live gone.sender)) [
            | inl taken ↦ cc (rw (filled, there_is, taken, send_to_connection) at h)
            | inr down ↦
                let other : id ≢ j = λ e.
                  let same : some gone ≡ some handle =
                    sym there_is ∙ ap (λ k. lookup k s.connections) e ∙ found in
                  let one : gone ≡ handle = cc same in
                  cc (sym down ∙ ap (λ (c : ConnectionHandle). live c.sender) one ∙ up) in
                rw (filled, there_is, down, send_to_connection)
                  (unregister_connection_other s id j other ∙ found)
          ]
        ]
      ]
