-- ===== src/StartUp.antt =====
-- main.rs: the task that ends the connections that have been silent for too long.
use rust_http3_gateway.Prelude.{ℤ, List, [], ◌∷◌, ◌++◌, Unicode}
use rust_http3_gateway.Json.{Json}
use rust_http3_gateway.State.Types.{ConnectionInfo}
use rust_http3_gateway.State.Readiness.{prune_stale_connections}
use rust_http3_gateway.Gateway.{StreamEntry}
use rust_http3_gateway.Transport.Session.{SessionConfig, World, publish_connection_event}

module _ ⦃u : Unicode⦄ ⦃j : Json⦄ (config : SessionConfig) where
  unfoldable pub publish_disconnected : List ConnectionInfo → List StreamEntry
  unfolding publish_connection_event
  publish_disconnected [] = []
  publish_disconnected (info ∷ rest) =
      publish_connection_event config "disconnected" info ++ publish_disconnected rest

  -- One tick of the interval.
  unfoldable pub prune_tick : World → ℤ → ℤ → World
  unfolding prune_stale_connections publish_disconnected
  prune_tick world stale_after_seconds now_ts =
      let (after, evicted) = prune_stale_connections world.state now_ts stale_after_seconds in
      record { state = after; published = world.published ++ publish_disconnected evicted }
