-- ===== src/Gateway/Client/Quiet.antt =====
-- state.rs: the operations that a message of a client calls reach no channel but its own.
use rust_http3_gateway.Prelude.{
  ℕ, ◌-◌, ℤ, Bool, String, List, [], ◌∷◌, Option, none, some, lookup, insert, ◌==◌, eq_iff,
  is_empty, trim, leb, In-of_append, length, sort_by, ◌||◌, In, here, there, if_both, if_cases, ◌≡◌,
  ◌≢◌, refl, sym, ◌∙◌, ap, subst, ◌⊎◌, inl, inr, Bool-cases, Option-cases, arith,
  lookup-insert_self, lookup-remove_self,
}
use rust_http3_gateway.State.Types.{
  GatewayState, ConnectionInfo, ConnectionHandle, OutboundMessage, text, close, request_route_max,
}
use rust_http3_gateway.State.Sessions.{unregister_connection, send, evict_connection}
use rust_http3_gateway.State.Sessions.Laws.{unregister_connection_other}
use rust_http3_gateway.State.RequestRoutes.{bind_request_route, prune_request_routes}
use rust_http3_gateway.State.Readiness.{
  ready_of_user, connected_before, evict_oldest, enforce_limit, mark_session_ready,
  mark_connection_alive,
}
use rust_http3_gateway.State.Dispatch.{send_text_to, send_to_connection}
use rust_http3_gateway.State.Dispatch.Laws.{unregister_connection_sent}

abbrev pub sender_of : Option ConnectionHandle → Option ℕ
sender_of none = none
sender_of (some handle) = some handle.sender

-- The channel of a connection, where it is there.
abbrev pub channel_of : String → GatewayState → Option ℕ
channel_of id s = sender_of (lookup id s.connections)

-- The connection `id` keeps its channel or is gone, and a text that a channel has in `t` was there
-- in `s`, or the channel is the one of `id`.
pub record IsQuiet (id : String) (s t : GatewayState) : Type 0 where
  pub channel : (channel_of id t ≡ none) ⊎ (channel_of id t ≡ channel_of id s)
  pub texts :
      (c : ℕ) (message : String)
      → In (c, text message) t.sent
      → In (c, text message) s.sent ⊎ (channel_of id s ≡ some c)

pub IsQuiet-trans :
    (id : String) (s t r : GatewayState) → IsQuiet id s t → IsQuiet id t r → IsQuiet id s r
IsQuiet-trans id s t r p q = record {
  channel = elim q.channel [
    | inl gone ↦ inl gone
    | inr same ↦ elim p.channel [ inl gone ↦ inl (same ∙ gone) | inr before ↦ inr (same ∙ before) ]
  ];
  texts = λ c message i. elim (q.texts c message i) [
    | inl earlier ↦ p.texts c message earlier
    | inr own ↦ elim p.channel [
      | inl gone ↦ cc (sym own ∙ gone)
      | inr before ↦ inr (sym before ∙ own)
    ]
  ];
}

-- A state with the same channel of `id` and the same texts.
pub IsQuiet-same :
    (id : String) (s t : GatewayState)
    → channel_of id t ≡ channel_of id s
    → t.sent ≡ s.sent
    → IsQuiet id s t
IsQuiet-same id s t same sent = record {
  channel = inr same;
  texts = λ c message i. inl (subst (In (c, text message)) sent i);
}

no-close_is_text :
    {C : Type 0} (c channel code : ℕ) (message reason : String)
    → In {A = ℕ × OutboundMessage} (c, text message) ((channel, close code reason) ∷ [])
    → C
no-close_is_text c channel code message reason (here e) = cc e
no-close_is_text c channel code message reason (there i) = elim i [ ]

pub alive-IsQuiet :
    (id : String) (s : GatewayState) (at : ℤ) → IsQuiet id s (mark_connection_alive s id at)
unfolding mark_connection_alive
alive-IsQuiet id s at = elim (Option-cases (lookup id s.connections)) [
  | inl missing ↦ rw (missing, mark_connection_alive) (IsQuiet-same id s s refl refl)
  | inr (handle, found) ↦
      rw (found, mark_connection_alive)
        (IsQuiet-same id s _
          (ap sender_of (lookup-insert_self id _ s.connections) ∙ sym (ap sender_of found)) refl)
]

prune-IsQuiet :
    (id : String) (s t : GatewayState) (at : ℤ)
    → IsQuiet id s t
    → IsQuiet id s (prune_request_routes t at)
unfolding prune_request_routes
prune-IsQuiet id s t at h =
    if_both (IsQuiet id s) (leb (length t.request_routes) request_route_max) h
      (IsQuiet-trans id s t _ h (IsQuiet-same id t _ refl refl))

pub bind-IsQuiet :
    (id : String) (s : GatewayState) (request_id user_id : String) (at : ℤ)
    → IsQuiet id s (bind_request_route s request_id id user_id at)
unfolding bind_request_route
bind-IsQuiet id s request_id user_id at =
    if_both (IsQuiet id s) (is_empty (trim request_id) || is_empty id || is_empty user_id)
      (IsQuiet-same id s s refl refl) (prune-IsQuiet id s _ at (IsQuiet-same id s _ refl refl))

unregister_own-IsQuiet :
    (id : String) (s : GatewayState) → IsQuiet id s (unregister_connection s id).0
unfolding unregister_connection
unregister_own-IsQuiet id s = elim (Option-cases (lookup id s.connections)) [
  | inl missing ↦ rw (missing, unregister_connection) (IsQuiet-same id s s refl refl)
  | inr (handle, found) ↦
      rw (found, unregister_connection)
        (record {
          channel = inl (ap sender_of (lookup-remove_self id s.connections));
          texts = λ c message i. inl i;
        })
]

module _ (live : ℕ → Bool) where
  pub tell-IsQuiet :
      (id : String) (s : GatewayState) (message : String)
      → IsQuiet id s (send_to_connection live s id message).0
  unfolding send_to_connection send_text_to send
  tell-IsQuiet id s message = elim (Option-cases (lookup id s.connections)) [
    | inl missing ↦
        rw (missing, send_to_connection)
          (if_both (λ (x : GatewayState × Bool). IsQuiet id s x.0) (is_empty id || is_empty message)
            (IsQuiet-same id s s refl refl) (unregister_own-IsQuiet id s))
    | inr (handle, found) ↦ elim (Bool-cases (live handle.sender)) [
      | inl up ↦
          rw (found, up, send_to_connection)
            (if_both (λ (x : GatewayState × Bool). IsQuiet id s x.0)
              (is_empty id || is_empty message) (IsQuiet-same id s s refl refl)
              (record {
                channel = inr refl;
                texts = λ c m i.
                    elim (In-of_append (c, text m) s.sent ((handle.sender, text message) ∷ []) i) [
                      | inl before ↦ inl before
                      | inr (here e) ↦ inr (ap sender_of found ∙ ap (λ x. some x.0) (sym e))
                      | inr (there later) ↦ elim later [ ]
                    ];
              }))
      | inr down ↦
          rw (found, down, send_to_connection)
            (if_both (λ (x : GatewayState × Bool). IsQuiet id s x.0)
              (is_empty id || is_empty message) (IsQuiet-same id s s refl refl)
              (unregister_own-IsQuiet id s))
    ]
  ]

  close-IsQuiet :
      (id : String) (s : GatewayState) (channel code : ℕ) (reason : String)
      → IsQuiet id s (send live s channel (close code reason)).0
  unfolding send
  close-IsQuiet id s channel code reason =
      if_both (λ (x : GatewayState × Bool). IsQuiet id s x.0) (live channel)
        (record {
          channel = inr refl;
          texts = λ c m i.
              elim (In-of_append (c, text m) s.sent ((channel, close code reason) ∷ []) i) [
                | inl before ↦ inl before
                | inr last ↦ no-close_is_text c channel code m reason last
              ];
        })
        (IsQuiet-same id s s refl refl)

  unregister_other-IsQuiet :
      (id : String) (s : GatewayState) (stale : String)
      → stale ≢ id
      → IsQuiet id s (unregister_connection s stale).0
  unregister_other-IsQuiet id s stale n =
      IsQuiet-same id s _ (ap sender_of (unregister_connection_other s stale id n))
        (unregister_connection_sent s stale)

  evict-IsQuiet :
      (id : String) (s : GatewayState) (stale : String) (code : ℕ) (reason : String)
      → stale ≢ id
      → IsQuiet id s (evict_connection live s stale (some (code, reason))).0
  unfolding evict_connection
  evict-IsQuiet id s stale code reason n = elim (Option-cases (lookup stale s.connections)) [
    | inl missing ↦ rw (missing, evict_connection) (unregister_other-IsQuiet id s stale n)
    | inr (handle, found) ↦
        let closed = (send live s handle.sender (close code reason)).0 in
        rw (found, evict_connection)
          (IsQuiet-trans id s closed _ (close-IsQuiet id s handle.sender code reason)
            (unregister_other-IsQuiet id closed stale n))
  ]

  evict_oldest-IsQuiet :
      (overflow : ℕ) (id : String) (connected : List (String × ℤ)) (s : GatewayState)
      (evicted : List ConnectionInfo)
      → IsQuiet id s (evict_oldest live overflow id connected s evicted).0
  unfolding evict_oldest
  evict_oldest-IsQuiet overflow id [] s evicted = IsQuiet-same id s s refl refl
  evict_oldest-IsQuiet overflow id ((stale, at) ∷ rest) s evicted =
      let (after, info) = evict_connection live s stale (some (4409, "session_replaced")) in
      let P = λ (x : GatewayState × List ConnectionInfo). IsQuiet id s x.0 in
      if_both P (leb overflow (length evicted)) (IsQuiet-same id s s refl refl) (
        if_cases P (stale == id) (λ own. evict_oldest-IsQuiet overflow id rest s evicted)
          (λ other.
            IsQuiet-trans id s after _
              (evict-IsQuiet id s stale 4409 "session_replaced" (ground (arith, eq_iff stale id)))
              (evict_oldest-IsQuiet overflow id rest after _)))

  limit-IsQuiet :
      (id : String) (s : GatewayState) (user_id : String) (limit : Option ℕ)
      → IsQuiet id s (enforce_limit live s id user_id limit).0
  unfolding enforce_limit
  limit-IsQuiet id s user_id none = IsQuiet-same id s s refl refl
  limit-IsQuiet id s user_id (some max) =
      let connected = ready_of_user s.connections user_id s.ready_connections in
      if_both (λ (x : GatewayState × List ConnectionInfo). IsQuiet id s x.0)
        (leb (length connected) max) (IsQuiet-same id s s refl refl)
        (evict_oldest-IsQuiet (length connected - max) id (sort_by connected_before connected) s [])

  pub ready-IsQuiet :
      (id : String) (s : GatewayState) (user_id : String) (at : ℤ)
      → IsQuiet id s (mark_session_ready live s id user_id at).0
  unfolding mark_session_ready
  ready-IsQuiet id s user_id at =
      let marked : GatewayState = record s {
        ready_connections =
            insert id (record { user_id = user_id; ready_at = at }) s.ready_connections;
      } in
      if_both (λ (x : GatewayState × List ConnectionInfo). IsQuiet id s x.0)
        (is_empty id || is_empty user_id) (IsQuiet-same id s s refl refl)
        (IsQuiet-trans id s marked _ (IsQuiet-same id s marked refl refl)
          (limit-IsQuiet id marked user_id s.max_connections_per_user))
