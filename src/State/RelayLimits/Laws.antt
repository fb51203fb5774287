-- ===== src/State/RelayLimits/Laws.antt =====
-- A key of the replay cache is refused while it is fresh; a key of the rate limit passes at most so
-- often.
use rust_http3_gateway.Prelude.{
  ℕ, zero, suc, ◌-◌, ◌<◌, ◌≤◌, min, ℤ, false, String, Option, none, some, lookup, insert, is_empty,
  trim, older_than, older_than_self, Distinct, insert-Distinct, lookup-insert_self,
  lookup-remove_all, any-keys-retain, Unicode, ◌≡◌, refl, arith, retain, keys, Bool-cases, inl, inr,
  lt→leb, le→leb, eqb_ℤ-self, le-or-lt, Map, ap,
}
use rust_http3_gateway.State.Types.{
  GatewayState, replay_detected, rate_limited, RelayRateCounter, RelayReplayEntry,
  relay_replay_ttl_seconds, relay_rate_limit_default,
}
use rust_http3_gateway.State.RelayLimits.{
  ok, err, prune_relay_replay_cache, is_replay, ensure_relay_replay_fresh, rate_window, rate_key,
  ensure_relay_rate_limit, current_counter, u32_max,
}

-- Pruning leaves an entry that has not expired.
prune_keeps :
    (state : GatewayState) (key : String) (entry : RelayReplayEntry) (now_ts : ℤ)
    → Distinct state.relay_replay_cache
    → lookup key state.relay_replay_cache ≡ some entry
    → older_than relay_replay_ttl_seconds now_ts entry.seen_at ≡ false
    → lookup key (prune_relay_replay_cache state now_ts).relay_replay_cache ≡ some entry
unfolding prune_relay_replay_cache
prune_keeps state key entry now_ts d e young = ground (
  arith,
  lookup-remove_all
      (keys (
        retain
          (λ (e : String × RelayReplayEntry).
            older_than relay_replay_ttl_seconds now_ts e.1.seen_at)
          state.relay_replay_cache))
      key state.relay_replay_cache,
  any-keys-retain
      (λ (e : String × RelayReplayEntry). older_than relay_replay_ttl_seconds now_ts e.1.seen_at)
      key entry state.relay_replay_cache d e,
)

-- A key that passes is in the cache afterwards, with the time at which it passed.
pub ensure_relay_replay_fresh_records :
    (state : GatewayState) (key : String) (now_ts : ℤ)
    → Distinct state.relay_replay_cache
    → is_empty (trim key) ≡ false
    → (ensure_relay_replay_fresh state key now_ts).1 ≡ ok tt
    → lookup key (ensure_relay_replay_fresh state key now_ts).0.relay_replay_cache
      ≡ some (record { seen_at = now_ts })
unfolding ensure_relay_replay_fresh
ensure_relay_replay_fresh_records state key now_ts d named passed =
    elim (Bool-cases (is_replay (lookup key state.relay_replay_cache) now_ts)) [
      | inl seen ↦ ground arith
      | inr fresh ↦
          rw (named, fresh)
            (prune_keeps
              (record state {
                relay_replay_cache =
                    insert key (record { seen_at = now_ts }) state.relay_replay_cache;
              })
              key _ now_ts (insert-Distinct key _ state.relay_replay_cache d)
              (lookup-insert_self key _ state.relay_replay_cache)
              (older_than_self relay_replay_ttl_seconds now_ts))
    ]

-- A key seen within the last ten minutes is refused, and nothing changes.
pub ensure_relay_replay_fresh_refuses :
    (state : GatewayState) (key : String) (entry : RelayReplayEntry) (now_ts : ℤ)
    → is_empty (trim key) ≡ false
    → lookup key state.relay_replay_cache ≡ some entry
    → older_than relay_replay_ttl_seconds now_ts entry.seen_at ≡ false
    → ensure_relay_replay_fresh state key now_ts ≡ (state, err replay_detected)
unfolding ensure_relay_replay_fresh
ensure_relay_replay_fresh_refuses state key entry now_ts named e young = rw (named, e, young)

current_counter-window :
    (found : Option RelayRateCounter) (window : ℤ)
    → (current_counter found window).window_start ≡ window
current_counter-window none window = refl
current_counter-window (some counter) window = ground arith

module _ ⦃u : Unicode⦄ (sender command context : String) (now_ts : ℤ) where
  abbrev pub this_key : String
  this_key = rate_key sender command context (rate_window now_ts)

  -- Repeated calls within one second, and how many of them pass.
  pub repeat_calls : ℕ → GatewayState → GatewayState × ℕ
  repeat_calls zero state = (state, 0)
  repeat_calls (suc n) state =
      let (after, result) = ensure_relay_rate_limit state sender command context now_ts in
      let (last, passed) = repeat_calls n after in
      (last, elim result [ ok _ ↦ suc passed | err _ ↦ passed ])

  -- The counter that a call finds.
  abbrev found_counter : GatewayState → RelayRateCounter
  found_counter state =
      current_counter (lookup this_key state.relay_rate_counters) (rate_window now_ts)

  abbrev counted : RelayRateCounter → RelayRateCounter
  counted c = record c { count = min (suc c.count) u32_max }

  call_passes :
      (state : GatewayState)
      → (found_counter state).count < relay_rate_limit_default
      → ensure_relay_rate_limit state sender command context now_ts ≡ (
        record state {
          relay_rate_counters =
              insert this_key (counted (found_counter state)) state.relay_rate_counters;
        },
        ok tt,
      )
  unfolding ensure_relay_rate_limit
  call_passes state h = let full = lt→leb _ _ h in rw full

  call_fails :
      (state : GatewayState)
      → relay_rate_limit_default ≤ (found_counter state).count
      → ensure_relay_rate_limit state sender command context now_ts ≡ (
        record state {
          relay_rate_counters = insert this_key (found_counter state) state.relay_rate_counters;
        },
        err rate_limited,
      )
  unfolding ensure_relay_rate_limit
  call_fails state h = let full = le→leb _ _ h in rw full

  found_again :
      (counter : RelayRateCounter) (m : Map RelayRateCounter)
      → counter.window_start ≡ rate_window now_ts
      → current_counter (lookup this_key (insert this_key counter m)) (rate_window now_ts) ≡ counter
  found_again counter m w = rw (lookup-insert_self this_key counter m, w) (rw eqb_ℤ-self)

  found_window : (state : GatewayState) → (found_counter state).window_start ≡ rate_window now_ts
  found_window state =
      current_counter-window (lookup this_key state.relay_rate_counters) (rate_window now_ts)

  repeat_passes :
      (n : ℕ) (state after : GatewayState)
      → ensure_relay_rate_limit state sender command context now_ts ≡ (after, ok tt)
      → (repeat_calls (suc n) state).1 ≡ suc (repeat_calls n after).1
  unfolding repeat_calls
  repeat_passes n state after e = rw (e, repeat_calls) (rw e)

  repeat_fails :
      (n : ℕ) (state after : GatewayState)
      → ensure_relay_rate_limit state sender command context now_ts ≡ (after, err rate_limited)
      → (repeat_calls (suc n) state).1 ≡ (repeat_calls n after).1
  unfolding repeat_calls
  repeat_fails n state after e = rw (e, repeat_calls) (rw e)

  -- From whatever counter a call finds, there is room for the rest up to the limit.
  repeat_calls-counter :
      (n : ℕ) (state : GatewayState)
      → (repeat_calls n state).1 ≡ min n (relay_rate_limit_default - (found_counter state).count)
  repeat_calls-counter zero state = unfold repeat_calls in omega arith
  repeat_calls-counter (suc n) state =
      elim (le-or-lt relay_rate_limit_default (found_counter state).count) [
        | inl full ↦
            let found = found_counter state in
            let counters = state.relay_rate_counters in
            let again = found_again found counters (found_window state) in
            omega (
              arith,
              repeat_fails n state _ (call_fails state full),
              repeat_calls-counter n
                  (record state { relay_rate_counters = insert this_key found counters }),
              ap (λ (c : RelayRateCounter). c.count) again,
            )
        | inr room ↦
            let found = counted (found_counter state) in
            let counters = state.relay_rate_counters in
            let again = found_again found counters (found_window state) in
            omega (
              arith,
              repeat_passes n state _ (call_passes state room),
              repeat_calls-counter n
                  (record state { relay_rate_counters = insert this_key found counters }),
              ap (λ (c : RelayRateCounter). c.count) again,
            )
      ]

  -- Of n calls of one sender, command and context at one time, in a window that has no counter yet,
  -- as many pass as the lesser of n and 240.
  pub repeat_calls_limit :
      (n : ℕ) (state : GatewayState)
      → lookup this_key state.relay_rate_counters ≡ none
      → (repeat_calls n state).1 ≡ min n relay_rate_limit_default
  repeat_calls_limit n state e =
      let start : (found_counter state).count ≡ 0 = rw e in
      omega (arith, repeat_calls-counter n state)
