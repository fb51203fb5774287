-- ===== src/Gateway/Published.antt =====
-- gateway_core.rs: what is published for the backend, and the error for what is not JSON.
use rust_http3_gateway.Prelude.{
  ℕ, Bool, true, false, String, List, [], Option, none, some, Unicode, ◌≡◌, refl, sym, ◌∙◌, ap, ◌⊎◌,
  inl, inr, Bool-cases, Option-cases, if_cases, is_empty, trim, In, here, there, if◌then◌else◌,
  ◌==◌,
}
use rust_http3_gateway.Json.{Json, text_field}
use rust_http3_gateway.Routes.Types.{
  CommandSpec, RoutingClass, no_auth, gateway_local, relay_hotpath, backend_control, is_no_auth,
  is_gateway_local, is_relay_hotpath, is_backend_control,
}
use rust_http3_gateway.Routes.{resolve_command_spec}
use rust_http3_gateway.State.Types.{GatewayState, ConnectionInfo}
use rust_http3_gateway.State.Readiness.{mark_connection_alive}
use rust_http3_gateway.Gateway.{
  Readings, StreamEntry, Handled, done, panics, Relayed, returns, goes_on, relay_panics,
}
use rust_http3_gateway.Gateway.Relay.{relay}
use rust_http3_gateway.Gateway.Handle.{
  handle_client_message, dispatch_command, run_command, mirror, prepared, decoded, publish_event,
  has_symfony_step, has_subjects_step, inbox_payload,
}

-- What an outcome publishes.
abbrev pub published : Handled → List StreamEntry
published (done s entries) = entries
published (panics s) = []

no-In : {A P : Type 0} {a : A} → In a [] → P
no-In i = elim i [ ]

backend_or_relay :
    (c : RoutingClass)
    → is_no_auth c ≡ false
    → is_gateway_local c ≡ false
    → is_relay_hotpath c ≡ false
    → is_backend_control c ≡ true
backend_or_relay no_auth a b h = cc
backend_or_relay gateway_local a b h = cc
backend_or_relay relay_hotpath a b h = cc
backend_or_relay backend_control a b h = refl

module _ ⦃u : Unicode⦄ ⦃j : Json⦄ (live : ℕ → Bool) (inbox_stream : String) (has_redis : Bool)
    (at : Readings) (s : GatewayState) (connection_id : String) (info : ConnectionInfo)
    (raw : String) (entry : StreamEntry) where
  -- The command is one for the backend, and the entry is its message in the stream for it.
  pub record IsForBackend (spec : CommandSpec) (value : j.Value) (command : String) : Type 0 where
    pub registered : resolve_command_spec command ≡ some spec
    pub after_login : is_no_auth spec.routing_class ≡ false
    pub mirrored : has_symfony_step spec ≡ true
    pub connected : has_redis ≡ true
    pub same_stream : entry.stream ≡ inbox_stream
    pub same_body :
        j.to_string (inbox_payload connection_id raw info spec value command at) ≡ some entry.body

  event_entry :
      (stream : String) (payload : j.Value)
      → In entry (publish_event stream payload)
      → (entry.stream ≡ stream) × (j.to_string payload ≡ some entry.body)
  unfolding publish_event
  event_entry stream payload i = elim (Bool-cases (is_empty stream)) [
    | inl missing ↦ no-In (rw missing at i)
    | inr named ↦ elim (Option-cases (j.to_string payload)) [
      | inl e ↦ no-In (rw (named, e, publish_event) at i)
      | inr (body, e) ↦ elim (rw (named, e, publish_event) at i) [
        | here same ↦ (ap (λ x. x.stream) same, e ∙ ap some (sym (ap (λ x. x.body) same)))
        | there later ↦ no-In later
      ]
    ]
  ]

  abbrev Mirrored : CommandSpec → j.Value → String → Type 0
  Mirrored spec value command =
      (has_redis ≡ true)
      × (entry.stream ≡ inbox_stream)
      × (j.to_string (inbox_payload connection_id raw info spec value command at) ≡ some entry.body)

  mirror-entry :
      (t : GatewayState) (spec : CommandSpec) (value : j.Value) (command : String)
      → In entry (
          published
            (mirror live inbox_stream has_redis at t connection_id raw info spec value command))
      → Mirrored spec value command
  unfolding mirror
  mirror-entry t spec value command i = elim (Bool-cases has_redis) [
    | inl on ↦ let (stream, body) = event_entry _ _ (rw on at i) in (on, stream, body)
    | inr off ↦ no-In (rw off at i)
  ]

  command_entry :
      (t : GatewayState) (spec : CommandSpec) (value : j.Value) (command : String)
      → In entry (
          published (
            run_command live inbox_stream has_redis at t connection_id raw info spec value command))
      → ((has_subjects_step spec ≡ false) ⊎ (has_symfony_step spec ≡ true))
        × Mirrored spec value command
  unfolding run_command
  command_entry t spec value command =
      if_cases
        (λ h.
          In entry (published h)
          → ((has_subjects_step spec ≡ false) ⊎ (has_symfony_step spec ≡ true))
            × Mirrored spec value command)
        (has_subjects_step spec)
        (λ e. after_relay (
          relay live
            (prepared live inbox_stream has_redis at t connection_id info spec value command)
            connection_id info command (has_symfony_step spec) value at))
        (λ e i. (
          inl e,
          mirror-entry
              (prepared live inbox_stream has_redis at t connection_id info spec value command) spec
              value command i,
        ))
    where
      after_relay :
          (r : Relayed)
          → In entry (
              published (elim r [
                | returns after ↦ done after []
                | relay_panics after ↦ panics after
                | goes_on after ↦
                    if has_symfony_step spec
                    then mirror live inbox_stream has_redis at after connection_id raw info spec
                        value command
                    else done after []
              ]))
          → ((has_subjects_step spec ≡ false) ⊎ (has_symfony_step spec ≡ true))
            × Mirrored spec value command
      after_relay (returns after) = λ i. no-In i
      after_relay (relay_panics after) = λ i. no-In i
      after_relay (goes_on after) =
          if_cases
            (λ h.
              In entry (published h)
              → ((has_subjects_step spec ≡ false) ⊎ (has_symfony_step spec ≡ true))
                × Mirrored spec value command)
            (has_symfony_step spec) (λ e i. (inr e, mirror-entry after spec value command i))
            (λ e i. no-In i)

  dispatched_entry :
      (t : GatewayState) (o : Option CommandSpec) (value : j.Value) (command : String)
      → resolve_command_spec command ≡ o
      → In entry (
          published (
            dispatch_command live inbox_stream has_redis at t connection_id raw info o value
              command))
      → (spec : CommandSpec) × IsForBackend spec value command
  unfolding dispatch_command
  dispatched_entry t none value command r i = no-In i
  dispatched_entry t (some spec) value command r i =
      elim (Bool-cases (is_no_auth spec.routing_class)) [
        | inl e ↦ no-In (rw (e, dispatch_command) at i)
        | inr open_ ↦ elim (Bool-cases (is_gateway_local spec.routing_class)) [
          | inl e ↦ elim (Bool-cases (command == "ping")) [
            | inl p ↦ no-In (rw (open_, e, p, dispatch_command) at i)
            | inr p ↦ no-In (rw (open_, e, p, dispatch_command) at i)
          ]
          | inr remote ↦
              let (step, (on, stream, body)) =
                command_entry t spec value command (rw (open_, remote, dispatch_command) at i) in
              (
                spec,
                record {
                  registered = r;
                  after_login = open_;
                  mirrored = elim step [
                    | inr e ↦ e
                    | inl e ↦
                        let b = backend_or_relay spec.routing_class open_ remote e in rw b refl
                  ];
                  connected = on;
                  same_stream = stream;
                  same_body = body;
                },
              )
        ]
      ]

  -- What a message of a client publishes is its own message, in the stream of the backend, with a
  -- client of Redis, and only where its command is registered, goes to the backend and is not one
  -- of those before a session.
  pub handle_client_message_publishes :
      In entry
        (published (handle_client_message live inbox_stream has_redis at s connection_id info raw))
      → (spec : CommandSpec) × IsForBackend spec (decoded raw) (text_field "type" (decoded raw))
  unfolding handle_client_message
  handle_client_message_publishes i =
      let value = decoded raw in
      elim (Bool-cases (is_empty (trim raw))) [
        | inl e ↦ no-In (rw (e, handle_client_message) at i)
        | inr f ↦ elim (Bool-cases (is_empty (trim (text_field "type" value)))) [
          | inl e ↦ no-In (rw (f, e, handle_client_message) at i)
          | inr e ↦
              dispatched_entry (mark_connection_alive s connection_id at.alive_at)
                (resolve_command_spec (text_field "type" value)) value (text_field "type" value)
                refl (rw (f, e, handle_client_message) at i)
        ]
      ]
