-- ===== src/Gateway/Outcomes.antt =====
-- gateway_core.rs: how a call ends, what it publishes, and the errors that it sends.
use rust_http3_gateway.Prelude.{
  ℕ, ℤ, Bool, true, false, String, List, [], ◌∷◌, Option, none, some, is_nil, Unicode, ◌≡◌, refl,
  inl, inr, Bool-cases, Option-cases, if_both, if◌then◌else◌, is_empty, trim, trim_start, trim_end,
  ◌==◌, lookup, str_dec, is_whitespace,
}
use rust_http3_gateway.Json.{Json, text_field, event_text}
use rust_http3_gateway.Json.Laws.{JsonLaws}
use rust_http3_gateway.Routes.Types.{CommandSpec, is_no_auth, is_gateway_local}
use rust_http3_gateway.Routes.{find_command, resolve_command_spec, resolve_relay_authorization_spec}
use rust_http3_gateway.State.Types.{GatewayState, ConnectionInfo}
use rust_http3_gateway.State.Readiness.{mark_connection_alive}
use rust_http3_gateway.Gateway.{
  Readings, StreamEntry, Handled, done, panics, Relayed, returns, goes_on, relay_panics,
  send_gateway_command_error, collect_relay_targets,
}
use rust_http3_gateway.Gateway.Relay.{check_relay, relay_payload, relay_to_targets, relay}
use rust_http3_gateway.Gateway.Handle.{
  handle_client_message, dispatch_command, run_command, mirror, prepared, decoded, has_symfony_step,
  has_subjects_step, not_registered,
}

abbrev pub IsDone : Handled → Type 0
IsDone h = (after : GatewayState) × (entries : List StreamEntry) × (h ≡ done after entries)

-- An outcome of the relay that is no panic.
abbrev IsSound : Relayed → Type 0
IsSound (returns s) = Unit
IsSound (goes_on s) = Unit
IsSound (relay_panics s) = ⊥

module _ ⦃u : Unicode⦄ ⦃j : Json⦄ (live : ℕ → Bool) where
  -- A value that has a type is an object.
  typed-IsObject :
      ⦃l : JsonLaws⦄ (value : j.Value)
      → is_empty (trim (text_field "type" value)) ≡ false
      → j.is_object value ≡ true
  unfolding trim trim_start trim_end
  typed-IsObject ⦃l⦄ value h = elim (Option-cases (j.get "type" value)) [
    | inl missing ↦ cc (rw missing at h)
    | inr (w, found) ↦ l.get-IsObject "type" value w found
  ]

  relay_to_targets-IsSound :
      ⦃l : JsonLaws⦄ (s : GatewayState) (info : ConnectionInfo) (value : j.Value)
      (subjects : List String) (at : ℤ)
      → j.is_object value ≡ true
      → IsSound (relay_to_targets live s info value subjects at)
  unfolding relay_to_targets relay_payload
  relay_to_targets-IsSound ⦃l⦄ s info value subjects at o =
      let (w, set) = l.set-object "from" (j.string info.user_id) value o in
      elim (Bool-cases (is_empty (trim (text_field "from" value)))) [
        | inl unnamed ↦ elim (Option-cases (event_text w)) [
          | inl e ↦ rw (unnamed, set, e, relay_to_targets) tt
          | inr (event, e) ↦ rw (unnamed, set, e, relay_to_targets) tt
        ]
        | inr named ↦ elim (Option-cases (event_text value)) [
          | inl e ↦ rw (named, e, relay_to_targets) tt
          | inr (event, e) ↦ rw (named, e, relay_to_targets) tt
        ]
      ]

  relay-IsSound :
      ⦃l : JsonLaws⦄ (s : GatewayState) (connection_id : String) (info : ConnectionInfo)
      (command : String) (mirrored : Bool) (value : j.Value) (at : Readings)
      → j.is_object value ≡ true
      → IsSound (relay live s connection_id info command mirrored value at)
  unfolding relay
  relay-IsSound s id info command mirrored value at o =
      let targets = collect_relay_targets value in
      let called =
        check_relay s info command (resolve_relay_authorization_spec command) value targets.emails
          at.authorized_at in
      if_both IsSound (is_nil targets.subjects) (if_both IsSound mirrored tt tt)
        (elim (Option-cases called.1) [
          | inr (e, refused) ↦ rw refused tt
          | inl passed ↦
              rw passed
                (relay_to_targets-IsSound called.0 info value targets.subjects at.requeued_at o)
        ])

  module _ (inbox_stream : String) (has_redis : Bool) (at : Readings) (s : GatewayState)
      (connection_id : String) (info : ConnectionInfo) (raw : String) where
    abbrev command_outcome : GatewayState → CommandSpec → j.Value → String → Handled
    command_outcome t spec value command =
        run_command live inbox_stream has_redis at t connection_id raw info spec value command

    command-IsDone :
        ⦃l : JsonLaws⦄ (t : GatewayState) (spec : CommandSpec) (value : j.Value) (command : String)
        → j.is_object value ≡ true
        → IsDone (command_outcome t spec value command)
    unfolding run_command mirror
    command-IsDone t spec value command o =
        let p = prepared live inbox_stream has_redis at t connection_id info spec value command in
        let sound = relay-IsSound p connection_id info command (has_symfony_step spec) value at o in
        if_both IsDone (has_subjects_step spec)
          (after_relay (relay live p connection_id info command (has_symfony_step spec) value at)
            sound)
          (_, _, refl)
      where
        after_relay :
            (r : Relayed)
            → IsSound r
            → IsDone (elim r [
              | returns after ↦ done after []
              | relay_panics after ↦ panics after
              | goes_on after ↦
                  if has_symfony_step spec
                  then mirror live inbox_stream has_redis at after connection_id raw info spec value
                      command
                  else done after []
            ])
        after_relay (returns after) h = (_, _, refl)
        after_relay (relay_panics after) h = absurd h
        after_relay (goes_on after) h =
            if_both IsDone (has_symfony_step spec) (_, _, refl) (_, _, refl)

    dispatched-IsDone :
        ⦃l : JsonLaws⦄ (t : GatewayState) (o : Option CommandSpec) (value : j.Value)
        (command : String)
        → j.is_object value ≡ true
        → IsDone (
            dispatch_command live inbox_stream has_redis at t connection_id raw info o value
              command)
    unfolding dispatch_command
    dispatched-IsDone t none value command o = (_, _, refl)
    dispatched-IsDone t (some spec) value command o =
        if_both IsDone (is_no_auth spec.routing_class) (_, _, refl)
          (if_both IsDone (is_gateway_local spec.routing_class)
            (if_both IsDone (command == "ping") (_, _, refl) (_, _, refl))
            (command-IsDone t spec value command o))

    -- With a JSON library that keeps its laws, no message makes its handling panic: the write of
    -- the sender into a relayed message is to an object.
    pub handle_client_message-IsDone :
        ⦃l : JsonLaws⦄
        → IsDone (handle_client_message live inbox_stream has_redis at s connection_id info raw)
    unfolding handle_client_message
    handle_client_message-IsDone =
        let value = decoded raw in
        if_both IsDone (is_empty (trim raw)) (_, _, refl)
          (elim (Bool-cases (is_empty (trim (text_field "type" value)))) [
            | inl e ↦ rw e (_, _, refl)
            | inr e ↦ rw e (
                dispatched-IsDone (mark_connection_alive s connection_id at.alive_at)
                  (resolve_command_spec (text_field "type" value)) value (text_field "type" value)
                  (typed-IsObject value e))
          ])

    -- What is not JSON, and not blank, is answered with the error that its command is not
    -- registered: it keeps the connection alive and does nothing else, and nothing is published.
    pub handle_client_message_refuses_raw :
        ⦃l : JsonLaws⦄
        → j.from_str raw ≡ none
        → is_empty (trim raw) ≡ false
        → handle_client_message live inbox_stream has_redis at s connection_id info raw
          ≡ done
              (send_gateway_command_error live
                (mark_connection_alive s connection_id at.alive_at)
                connection_id
                "raw"
                not_registered
                at.error_at)
              []
    unfolding handle_client_message dispatch_command lookup trim trim_start trim_end is_whitespace
        resolve_command_spec find_command str_dec
    handle_client_message_refuses_raw ⦃l⦄ unread filled =
        let fields : List (String × j.Value) =
          ("type", j.string "raw") ∷ ("payload", j.string raw) ∷ [] in
        rw (unread, filled, l.get-object "type" fields (refl, (refl, tt)), l.as_str-string "raw")
          refl
