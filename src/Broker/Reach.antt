-- ===== src/Broker/Reach.antt =====
-- broker.rs: whom an entry of the outbox reaches.
use rust_http3_gateway.Prelude.{
  ℕ, ℤ, Bool, true, false, String, List, Option, none, some, Map, lookup, In, is_empty, is_nil,
  trim, Unicode, ◌≡◌, refl, sym, subst, ap, ◌∙◌, ◌⊎◌, inl, inr, Bool-cases,
}
use rust_http3_gateway.Json.{Json, event_text}
use rust_http3_gateway.State.Types.{GatewayState, ConnectionHandle, text}
use rust_http3_gateway.State.Sessions.{push_sent}
use rust_http3_gateway.State.RequestRoutes.{resolve_request_route, clear_request_route}
use rust_http3_gateway.State.RequestRoutes.Laws.{IsResolved, resolve_request_route_cases}
use rust_http3_gateway.State.Dispatch.{send_to_connection, send_to_subjects}
use rust_http3_gateway.State.Dispatch.Laws.{send_to_subjects_reaches}
use rust_http3_gateway.State.Invariant.{
  IsWellFormed, resolve_request_route-IsWellFormed, clear_request_route-IsWellFormed,
}
use rust_http3_gateway.State.Invariant.Messages.{send_to_connection-IsWellFormed}
use rust_http3_gateway.Broker.Snapshot.{parse_relay_context_snapshot, texts_field}
use rust_http3_gateway.Broker.Outbox.{
  EntryReadings, extract_request_id, fall_back, respond_via, deliver, dispatch_payload,
  consume_decoded, consume_entry,
}
use rust_http3_gateway.State.RequestRoutes.Outcomes.{
  unresolved_connections, resolved_same, unresolved-resolved,
}
use rust_http3_gateway.Broker.Sends.{
  clear_connections, resolve_blank, send_delivers, send_fails, send_fails_down,
}

module _ ⦃u : Unicode⦄ ⦃j : Json⦄ (live : ℕ → Bool) (s : GatewayState) (subjects : List String)
    (event : String) where
  -- Every connection that takes messages and has one of the subjects gets the event.
  abbrev pub ReachesAll : GatewayState → Type 0
  ReachesAll after =
      (id subject : String) (handle : ConnectionHandle)
      → lookup id s.connections ≡ some handle
      → In subject subjects
      → In subject handle.info.subjects
      → live handle.sender ≡ true
      → In (handle.sender, text event) after.sent

  -- The connection to which the route of the request leads gets it; nothing else changes.
  pub record IsAnswered (request_id : Option String) (now_ts : ℤ) (after : GatewayState)
      : Type 0 where
    pub request : String
    pub id : String
    pub handle : ConnectionHandle
    pub asked : request_id ≡ some request
    pub resolved : IsResolved s (trim request) subjects now_ts id
    pub connected : lookup id s.connections ≡ some handle
    pub up : live handle.sender ≡ true
    pub told : after ≡ push_sent s handle.sender (text event)

  -- No route of the request leads to a connection that takes messages.
  abbrev pub HasNoTaker : Option String → ℤ → Type 0
  HasNoTaker request_id now_ts =
      (request id : String) (handle : ConnectionHandle)
      → request_id ≡ some request
      → is_empty (trim request) ≡ false
      → is_empty id ≡ false
      → IsResolved s (trim request) subjects now_ts id
      → lookup id s.connections ≡ some handle
      → live handle.sender ≡ false

  module _ (filled : is_empty event ≡ false) where
    sent-ReachesAll :
        (t : GatewayState) (at : ℤ)
        → IsWellFormed t
        → ((id : String) (handle : ConnectionHandle)
            → lookup id s.connections ≡ some handle
            → live handle.sender ≡ true
            → lookup id t.connections ≡ some handle)
        → ReachesAll (send_to_subjects live t subjects event true none at at).0
    sent-ReachesAll t at w kept = λ id subject handle found asked has up.
        send_to_subjects_reaches live t subjects event true none at at id subject handle w.0 filled
          (kept id handle found up) asked has up

    -- What becomes of the event.
    abbrev Outcome : Option String → ℤ → GatewayState → Type 0
    Outcome request_id now_ts after =
        IsAnswered request_id now_ts after ⊎ (ReachesAll after × HasNoTaker request_id now_ts)

    respond-reaches :
        (request id : String) (at : EntryReadings)
        → IsWellFormed s
        → IsResolved s (trim request) subjects at.resolved_at id
        → Outcome
            (some request)
            at.resolved_at
            (respond_via live s (some id) request subjects event at.requeued_at).0
    unfolding respond_via fall_back
    respond-reaches request id at w resolved =
        elim (Bool-cases (send_to_connection live s id event).1) [
          | inl delivered ↦
              let (handle, found, up, told) = send_delivers live s id event delivered in
              rw delivered (
                inl (record {
                  request = request;
                  id = id;
                  handle = handle;
                  asked = refl;
                  resolved = resolved;
                  connected = found;
                  up = up;
                  told = told;
                }))
          | inr failed ↦
              let told = (send_to_connection live s id event).0 in
              rw failed (
                inr (
                  sent-ReachesAll (clear_request_route told request) at.requeued_at
                      (clear_request_route-IsWellFormed told request
                        (send_to_connection-IsWellFormed live s id event w))
                      (λ k handle found up.
                        ap (lookup k) (clear_connections told request)
                        ∙ send_fails live s id event k handle failed found up),
                  λ q k handle e named known again found.
                      let same : id ≡ k =
                        resolved_same s request q subjects at.resolved_at id k e resolved again in
                      send_fails_down live s k event handle known filled
                        (subst (λ x. (send_to_connection live s x event).1 ≡ false) same failed)
                        found,
                ))
        ]

    deliver-reaches :
        (request_id : Option String) (at : EntryReadings)
        → IsWellFormed s
        → Outcome request_id at.resolved_at (deliver live s request_id subjects event at).0
    unfolding deliver respond_via fall_back
    deliver-reaches none at w = inr (
      sent-ReachesAll s at.requeued_at w (λ k handle found up. found),
      λ q k handle e named known again found. cc e,
    )
    deliver-reaches (some request) at w = elim (Bool-cases (is_empty (trim request))) [
      | inl blank ↦ rw (resolve_blank s request subjects at.resolved_at blank) (
          inr (
            sent-ReachesAll s at.requeued_at w (λ k handle found up. found),
            λ q k handle e named known again found.
                let one : request ≡ q = cc e in
                cc (sym blank ∙ ap (λ x. is_empty (trim x)) one ∙ named),
          ))
      | inr named ↦ elim (resolve_request_route_cases s request subjects at.resolved_at named) [
        | inl (id, found, same, resolved) ↦
            rw (found, same) (respond-reaches request id at w resolved)
        | inr (missing, reason) ↦
            let t = (resolve_request_route s request subjects at.resolved_at).0 in
            rw missing (
              inr (
                sent-ReachesAll t at.requeued_at
                    (resolve_request_route-IsWellFormed s request subjects at.resolved_at w)
                    (λ k handle found up.
                      ap (lookup k)
                        (unresolved_connections s (trim request) subjects at.resolved_at t reason)
                      ∙ found),
                λ q k handle e asked known again found.
                    let one : q ≡ request = cc e in
                    absurd (
                      unresolved-resolved s (trim request) subjects at.resolved_at t k reason
                        (subst (λ x. IsResolved s (trim x) subjects at.resolved_at k) one again)),
              ))
      ]
    ]

module _ ⦃u : Unicode⦄ ⦃j : Json⦄ (live : ℕ → Bool) where
  dispatch-reaches :
      (s : GatewayState) (delete : Bool) (subjects : List String) (payload : j.Value)
      (at : EntryReadings) (event : String)
      → IsWellFormed s
      → event_text payload ≡ some event
      → is_empty event ≡ false
      → let (after, deletes) = dispatch_payload live s delete subjects payload at in
        (deletes ≡ delete)
        × (IsAnswered live s subjects event (extract_request_id payload) at.resolved_at after
            ⊎ (ReachesAll live s subjects event after
                × HasNoTaker live s subjects event (extract_request_id payload) at.resolved_at))
  unfolding dispatch_payload
  dispatch-reaches s delete subjects payload at event w written filled =
      rw (written, dispatch_payload)
        (refl, deliver-reaches live s subjects event filled (extract_request_id payload) at w)

  -- In a well formed state, an entry that is JSON with subjects, and whose payload is no snapshot and
  -- gives an event that is not empty, is to be deleted as the configuration says. Either the route of
  -- its request leads to a connection, whose channel takes the event, and nothing else changes; or
  -- every connection that takes messages and has one of its subjects gets the event, and no route of
  -- its request leads to a connection that has an id and takes messages.
  pub consume_entry_reaches :
      (s : GatewayState) (delete : Bool) (fields : Map String) (at : EntryReadings)
      (raw event : String) (decoded payload : j.Value)
      → IsWellFormed s
      → lookup "data" fields ≡ some raw
      → j.from_str raw ≡ some decoded
      → is_nil (texts_field "subjects" decoded) ≡ false
      → j.get "payload" decoded ≡ some payload
      → parse_relay_context_snapshot payload at.received_at ≡ none
      → event_text payload ≡ some event
      → is_empty event ≡ false
      → let (after, deletes) = consume_entry live s delete fields at in
        let subjects = texts_field "subjects" decoded in
        let request_id = extract_request_id payload in
        (deletes ≡ delete)
        × (IsAnswered live s subjects event request_id at.resolved_at after
            ⊎ (ReachesAll live s subjects event after
                × HasNoTaker live s subjects event request_id at.resolved_at))
  unfolding consume_entry consume_decoded
  consume_entry_reaches s delete fields at raw event decoded payload w has_data parsed some_of_them
        has_payload no_snapshot written filled =
      rw (has_data, parsed, some_of_them, has_payload, no_snapshot, has_payload)
        (dispatch-reaches s delete (texts_field "subjects" decoded) payload at event w written
          filled)
