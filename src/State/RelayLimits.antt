-- ===== src/State/RelayLimits.antt =====
-- state.rs: the replay cache and the rate limit of relay commands.
pub mod Laws
use rust_http3_gateway.Prelude.{
  ℕ, suc, max, min, ℤ, Bool, false, not, String, List, [], ◌∷◌, Option, none, some, lookup, insert,
  remove_all, keys, is_empty, trim, to_lowercase, Unicode, concat, decimal_ℤ, div_i64, retain,
  length, leb, eqb_ℤ, older_than, if◌then◌else◌,
}
use rust_http3_gateway.State.Types.{
  GatewayState, RelayAuthError, replay_detected, rate_limited, RelayReplayEntry, RelayRateCounter,
  relay_replay_ttl_seconds, relay_replay_cache_max, relay_rate_window_seconds,
  relay_rate_limit_default,
}

pub data Result {ℓ} (A : Type ℓ) : Type ℓ where
  ok : A → Result A
  err : RelayAuthError → Result A

unfoldable pub prune_relay_replay_cache : GatewayState → ℤ → GatewayState
prune_relay_replay_cache state now_ts =
    if leb (length state.relay_replay_cache) relay_replay_cache_max then state else record state {
      relay_replay_cache =
          remove_all
            (keys (
              retain (λ e. older_than relay_replay_ttl_seconds now_ts e.1.seen_at)
                state.relay_replay_cache))
            state.relay_replay_cache;
    }

-- The key was seen, and not longer ago than the time to live.
abbrev pub is_replay : Option RelayReplayEntry → ℤ → Bool
is_replay none now_ts = false
is_replay (some existing) now_ts = not (older_than relay_replay_ttl_seconds now_ts existing.seen_at)

unfoldable pub ensure_relay_replay_fresh :
    GatewayState → String → ℤ → GatewayState × Result (Unit {0})
unfolding prune_relay_replay_cache
ensure_relay_replay_fresh state replay_key now_ts =
    if is_empty (trim replay_key)
    then (state, ok tt)
    else if is_replay (lookup replay_key state.relay_replay_cache) now_ts
    then (state, err replay_detected)
    else (
      prune_relay_replay_cache
          (record state {
            relay_replay_cache =
                insert replay_key (record { seen_at = now_ts }) state.relay_replay_cache;
          })
          now_ts,
      ok tt,
    )

abbrev pub u32_max : ℕ
u32_max = 4_294_967_295

-- The counter of the key, with a window that has passed put back to zero.
abbrev pub current_counter : Option RelayRateCounter → ℤ → RelayRateCounter
current_counter none window = record { window_start = window; count = 0 }
current_counter (some counter) window =
    if eqb_ℤ counter.window_start window
    then counter
    else record { window_start = window; count = 0 }

abbrev pub rate_window : ℤ → ℤ
rate_window now_ts = div_i64 now_ts (max relay_rate_window_seconds 1)

module _ ⦃u : Unicode⦄ where
  unfoldable pub rate_key : String → String → String → ℤ → String
  unfolding to_lowercase concat
  rate_key sender_email command_name context_id window = concat (
      to_lowercase (trim sender_email)
      ∷ "|"
      ∷ to_lowercase (trim command_name)
      ∷ "|"
      ∷ to_lowercase (trim context_id)
      ∷ "|"
      ∷ decimal_ℤ window
      ∷ [])

  unfoldable pub ensure_relay_rate_limit :
      GatewayState → String → String → String → ℤ → GatewayState × Result (Unit {0})
  ensure_relay_rate_limit state sender_email command_name context_id now_ts =
      let window = rate_window now_ts in
      let key = rate_key sender_email command_name context_id window in
      let counter = current_counter (lookup key state.relay_rate_counters) window in
      let store = λ (c : RelayRateCounter). record state {
        relay_rate_counters = insert key c state.relay_rate_counters;
      } in
      if leb relay_rate_limit_default counter.count
      then (store counter, err rate_limited)
      else (store (record counter { count = min (suc counter.count) u32_max }), ok tt)
