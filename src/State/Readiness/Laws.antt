-- ===== src/State/Readiness/Laws.antt =====
-- Whom the limit on ready connections evicts.
use rust_http3_gateway.Prelude.{
  ℕ, ◌-◌, ℤ, not, String, List, [], ◌∷◌, none, lookup, insert, remove_all, Map, keys, take, ◌==◌,
  length, retain, sort_by, All, ◌≡◌, ◌≢◌,
}
use rust_http3_gateway.State.Types.{GatewayState, ConnectionInfo, ConnectionHandle}
use rust_http3_gateway.State.Readiness.{ready_of_user, connected_before}

-- The oldest connections, `n` at most, other than `id`, of a list that is in order.
abbrev pub oldest : ℕ → String → List (String × ℤ) → List String
oldest n id ready = take n (keys (retain (λ e. not (e.0 == id)) ready))

-- Each connection of the list is there, and none stands twice.
abbrev AreConnected : Map ConnectionHandle → List (String × ℤ) → Type 0
AreConnected m ready = All (λ e. lookup e.0 m ≢ none) ready

abbrev Differs : String × ℤ → String × ℤ → Type 0
Differs d e = d.0 ≢ e.0

abbrev AreUnique : List (String × ℤ) → Type 0
AreUnique [] = Unit
AreUnique (d ∷ rest) = All (Differs d) rest × AreUnique rest

module _ (id user_id : String) where
  -- The ready connections of the user, from the one that connected first on, as they are once `id`
  -- is ready.
  abbrev pub ready_in_order : GatewayState → ℤ → List (String × ℤ)
  ready_in_order s now_ts = sort_by connected_before (
      ready_of_user s.connections user_id
        (insert id (record { user_id = user_id; ready_at = now_ts }) s.ready_connections))

  -- What the limit leaves: those over it are gone, the oldest ones first, and `id` is kept.
  pub record IsLimited (s : GatewayState) (ready : List (String × ℤ)) (limit : ℕ)
      (r : GatewayState × List ConnectionInfo) : Type 0 where
    pub connections :
        r.0.connections ≡ remove_all (oldest (length ready - limit) id ready) s.connections
    pub counted : length r.1 ≡ length (oldest (length ready - limit) id ready)
