-- ===== src/State/Sessions/Laws.antt =====
-- What is left of a connection that ended, and what the end of one leaves alone.
use rust_http3_gateway.Prelude.{
  ℕ, Bool, false, String, none, some, Map, lookup, remove, remove_all, keys, Distinct, ◌==◌, retain,
  All, All-of_In, lookup_of_In, remove_all-Distinct, ap, lookup-remove_self, lookup-remove_ne,
  lookup-remove_all, any-keys-retain, ◌≡◌, refl, ◌∙◌, ◌≢◌, arith, inl, inr, Option-cases,
}
use rust_http3_gateway.State.Types.{GatewayState, ConnectionHandle, close}
use rust_http3_gateway.State.Sessions.{unregister_connection, send, evict_connection}

-- The removal of the keys that pass a test leaves no entry that passes it.
pub remove_all-keys-retain :
    {V : Type 0} (p : String × V → Bool) (m : Map V)
    → Distinct m
    → Distinct (remove_all (keys (retain p m)) m)
    → All (λ e. p e ≡ false) (remove_all (keys (retain p m)) m)
remove_all-keys-retain p m d d' =
    All-of_In (λ e. p e ≡ false) (remove_all (keys (retain p m)) m)
      λ (k, v) i.
        let found = lookup_of_In k v (remove_all (keys (retain p m)) m) d' i in
        let at_k = lookup-remove_all (keys (retain p m)) k m in
        elim (Option-cases (lookup k m)) [
          | inl missing ↦ ground (arith, found, at_k)
          | inr (w, e) ↦ ground (arith, found, at_k, any-keys-retain p k w m d e)
        ]

-- Where the keys of the routes are distinct, the end of a connection that is there hands back
-- what was known of it; its entry, its readiness and every route to it are gone.
pub unregister_connection_forgets :
    (s : GatewayState) (id : String) (handle : ConnectionHandle)
    → Distinct s.request_routes
    → lookup id s.connections ≡ some handle
    → let (after, info) = unregister_connection s id in
      (info ≡ some handle.info)
      × (lookup id after.connections ≡ none)
      × (lookup id after.ready_connections ≡ none)
      × All (λ e. (e.1.connection_id == id) ≡ false) after.request_routes
unfolding unregister_connection
unregister_connection_forgets s id handle d found =
    rw (found, unregister_connection)
      (
        refl,
        lookup-remove_self id s.connections,
        lookup-remove_self id s.ready_connections,
        remove_all-keys-retain (λ e. e.1.connection_id == id) s.request_routes d
            (remove_all-Distinct (keys (retain (λ e. e.1.connection_id == id) s.request_routes))
              s.request_routes d),
      )

pub unregister_connection_other :
    (s : GatewayState) (id j : String)
    → id ≢ j
    → lookup j (unregister_connection s id).0.connections ≡ lookup j s.connections
unfolding unregister_connection
unregister_connection_other s id j n = elim (Option-cases (lookup id s.connections)) [
  | inl missing ↦ rw (missing, unregister_connection) refl
  | inr (handle, found) ↦ rw (found, unregister_connection) (lookup-remove_ne id j s.connections n)
]

unregister_connection_removes :
    (s : GatewayState) (id : String) (handle : ConnectionHandle)
    → lookup id s.connections ≡ some handle
    → let (after, info) = unregister_connection s id in
      (after.connections ≡ remove id s.connections) × (info ≡ some handle.info)
unfolding unregister_connection
unregister_connection_removes s id handle found = rw (found, unregister_connection) (refl, refl)

module _ (live : ℕ → Bool) where
  send_connections :
      (s : GatewayState) (channel : ℕ) (code : ℕ) (reason : String)
      → (send live s channel (close code reason)).0.connections ≡ s.connections
  unfolding send
  send_connections s channel code reason = ground arith

  pub evict_connection_other :
      (s : GatewayState) (id j : String) (code : ℕ) (reason : String)
      → id ≢ j
      → lookup j (evict_connection live s id (some (code, reason))).0.connections
        ≡ lookup j s.connections
  unfolding evict_connection
  evict_connection_other s id j code reason n = elim (Option-cases (lookup id s.connections)) [
    | inl missing ↦ rw (missing, evict_connection) (unregister_connection_other s id j n)
    | inr (handle, found) ↦
        let sent = (send live s handle.sender (close code reason)).0 in
        rw (found, evict_connection)
          (unregister_connection_other sent id j n
            ∙ ap (lookup j) (send_connections s handle.sender code reason))
  ]

  -- An eviction removes the connection, and hands back what was known of it.
  pub evict_connection_removes :
      (s : GatewayState) (id : String) (code : ℕ) (reason : String) (handle : ConnectionHandle)
      → lookup id s.connections ≡ some handle
      → let (after, info) = evict_connection live s id (some (code, reason)) in
        (after.connections ≡ remove id s.connections) × (info ≡ some handle.info)
  unfolding evict_connection
  evict_connection_removes s id code reason handle found =
      let sent = (send live s handle.sender (close code reason)).0 in
      let same = send_connections s handle.sender code reason in
      let (removed, told) =
        unregister_connection_removes sent id handle (ap (lookup id) same ∙ found) in
      rw (found, evict_connection) (removed ∙ ap (remove id) same, told)
