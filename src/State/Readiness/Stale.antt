-- ===== src/State/Readiness/Stale.antt =====
-- What the heartbeat's pruning leaves.
use rust_http3_gateway.Prelude.{
  ℤ, pos, Bool, false, not, String, List, [], ◌∷◌, none, some, Map, lookup, remove, remove_all,
  keys, Distinct, remove_all-Distinct, All, All-of_In, In-of_retain, lookup_of_In,
  lookup-remove_all, any-keys-retain, retain, leb_ℤ, if_false, ◌≡◌, refl, sym, subst, ap, ◌∙◌,
  arith, inl, inr, Option-cases,
}
use rust_http3_gateway.State.Types.{GatewayState, ConnectionInfo, ConnectionHandle}
use rust_http3_gateway.State.Sessions.{unregister_connection}
use rust_http3_gateway.State.Sessions.Laws.{remove_all-keys-retain}
use rust_http3_gateway.State.Readiness.{unregister_all, is_stale, prune_stale_connections}

remove-none : {V : Type 0} (k : String) (m : Map V) → lookup k m ≡ none → remove k m ≡ m
unfolding lookup remove
remove-none k [] e = refl
remove-none k ((j, v) ∷ m) e = ground (arith, remove-none k m)

unregister_connection_connections :
    (s : GatewayState) (id : String)
    → (unregister_connection s id).0.connections ≡ remove id s.connections
unfolding unregister_connection
unregister_connection_connections s id = elim (Option-cases (lookup id s.connections)) [
  | inl missing ↦ rw (missing, unregister_connection) (sym (remove-none id s.connections missing))
  | inr (handle, found) ↦ rw (found, unregister_connection) refl
]

unregister_all_connections :
    (ids : List String) (s : GatewayState) (evicted : List ConnectionInfo)
    → (unregister_all ids s evicted).0.connections ≡ remove_all ids s.connections
unfolding unregister_all
unregister_all_connections [] s evicted = refl
unregister_all_connections (id ∷ rest) s evicted =
    unregister_all_connections rest (unregister_connection s id).0 _
    ∙ ap (remove_all rest) (unregister_connection_connections s id)

-- No connection is stale, and those that were not stale before are there.
abbrev pub IsPrunedTo :
    (String × ConnectionHandle → Bool) → Map ConnectionHandle → Map ConnectionHandle → Type 0
IsPrunedTo stale before after =
    All (λ e. stale e ≡ false) after
    × All (λ e. lookup e.0 after ≡ some e.1) (retain (λ e. not (stale e)) before)

remove_all-IsPrunedTo :
    (stale : String × ConnectionHandle → Bool) (m : Map ConnectionHandle)
    → Distinct m
    → IsPrunedTo stale m (remove_all (keys (retain stale m)) m)
remove_all-IsPrunedTo stale m d = (
  remove_all-keys-retain stale m d (remove_all-Distinct (keys (retain stale m)) m d),
  All-of_In (λ e. lookup e.0 (remove_all (keys (retain stale m)) m) ≡ some e.1)
      (retain (λ e. not (stale e)) m)
      (λ (k, v) i.
        let (place, fresh) = In-of_retain (λ e. not (stale e)) (k, v) m i in
        let found = lookup_of_In k v m d place in
        ground (
          arith,
          found,
          lookup-remove_all (keys (retain stale m)) k m,
          any-keys-retain stale k v m d found,
        )),
)

-- With a positive limit and distinct connection ids, pruning leaves no connection that has been
-- silent for longer than the limit, and keeps every other one as it was.
pub prune_stale_connections-IsPrunedTo :
    (s : GatewayState) (now_ts stale_after_seconds : ℤ)
    → Distinct s.connections
    → leb_ℤ stale_after_seconds (pos 0) ≡ false
    → IsPrunedTo
        (is_stale now_ts stale_after_seconds)
        s.connections
        (prune_stale_connections s now_ts stale_after_seconds).0.connections
unfolding prune_stale_connections
prune_stale_connections-IsPrunedTo s now_ts stale_after_seconds d positive =
    let stale = is_stale now_ts stale_after_seconds in
    if_false
      (λ (x : GatewayState × List ConnectionInfo). IsPrunedTo stale s.connections x.0.connections)
      (leb_ℤ stale_after_seconds (pos 0)) _ _ positive
      (subst (IsPrunedTo stale s.connections)
        (sym (unregister_all_connections (keys (retain stale s.connections)) s []))
        (remove_all-IsPrunedTo stale s.connections d))
