-- ===== src/Config/Bounds.antt =====
-- config.rs: the ranges of the numbers of a configuration.
use rust_http3_gateway.Prelude.{
  ℕ, ◌≤◌, leb, ltb, ℤ, pos, leb_ℤ, true, String, Option, none, some, and_then, unwrap_or,
  filter_option, ◌==◌, Unicode, parse_unsigned, digits, to_lowercase, after_plus, ◌≡◌, refl, ◌⊎◌,
  inl, inr, Option-cases, if_both, arith, negsuc, ◌||◌,
}
use rust_http3_gateway.Config.{
  Config, u16_max, u64_max, max_ℤ, env_u16, env_u64, env_usize, env_str, env_i64, from_env,
}

parse_unsigned-le :
    (largest : ℕ) (s : String) (n : ℕ) → parse_unsigned largest s ≡ some n → n ≤ largest
unfolding parse_unsigned
parse_unsigned-le largest s n h = filtered (digits (after_plus s)) h
  where
    filtered : (o : Option ℕ) → filter_option (λ k. leb k largest) o ≡ some n → n ≤ largest
    filtered none h = cc
    filtered (some k) h = ground arith

-- A number that is read, or its default.
parsed-le :
    (o : Option String) (largest default : ℕ)
    → default ≤ largest
    → unwrap_or (and_then o (parse_unsigned largest)) default ≤ largest
parsed-le none largest default h = h
parsed-le (some s) largest default h = elim (Option-cases (parse_unsigned largest s)) [
  | inl e ↦ rw e h
  | inr (n, e) ↦ rw e (parse_unsigned-le largest s n e)
]

-- The ranges: the ports are those of 16 bits, the times are not shorter than the least ones, a limit
-- is not zero, and there are two transports.
pub record IsInRange (config : Config) : Type 0 where
  pub some_transport : (config.transport ≡ "websocket") ⊎ (config.transport ≡ "webtransport")
  pub timeout : (1000 ≤ config.auth_request_timeout_ms) × (config.auth_request_timeout_ms ≤ u64_max)
  pub interval :
      (1 ≤ config.stale_prune_interval_seconds) × (config.stale_prune_interval_seconds ≤ u64_max)
  pub silence : leb_ℤ (pos 0) config.stale_connection_timeout_seconds ≡ true
  pub ports :
      (config.webtransport_port ≤ u16_max)
      × (config.websocket_port ≤ u16_max)
      × (config.http_api_port ≤ u16_max)
  pub limit : (n : ℕ) → config.max_connections_per_user ≡ some n → (1 ≤ n) × (n ≤ u64_max)

max_ℤ-nonneg : (a : ℤ) → leb_ℤ (pos 0) (max_ℤ a (pos 0)) ≡ true
max_ℤ-nonneg (pos n) = ground arith
max_ℤ-nonneg (negsuc n) = ground arith

limit_of :
    (o : Option String) (n : ℕ)
    → filter_option (λ k. ltb 0 k) (and_then o (parse_unsigned u64_max)) ≡ some n
    → (1 ≤ n) × (n ≤ u64_max)
limit_of none n h = cc
limit_of (some s) n h = elim (Option-cases (parse_unsigned u64_max s)) [
  | inl e ↦ cc (rw e at h)
  | inr (k, e) ↦
      let least = parse_unsigned-le u64_max s k e in
      let kept : filter_option (λ i. ltb 0 i) (some k) ≡ some n = rw e at h in ground arith
]

module _ ⦃u : Unicode⦄ (env read_file : String → Option String) where
  abbrev chosen : String
  chosen = to_lowercase (env_str env read_file "GATEWAY_TRANSPORT" "webtransport")

  -- Whatever the environment holds, the configuration that is made of it is in its ranges.
  pub from_env-IsInRange : IsInRange (from_env env read_file)
  unfolding from_env env_u16 env_u64 env_usize
  from_env-IsInRange = record {
    some_transport =
        if_both (λ t. (t ≡ "websocket") ⊎ (t ≡ "webtransport"))
          (chosen == "websocket" || chosen == "ws") (inl refl) (inr refl);
    timeout = omega (arith, parsed-le (env "AUTH_REQUEST_TIMEOUT_MS") u64_max 8000 (omega arith));
    interval =
        omega (arith, parsed-le (env "CONNECTION_PRUNE_INTERVAL_SECONDS") u64_max 15 (omega arith));
    silence = max_ℤ-nonneg (env_i64 env read_file "CONNECTION_STALE_SECONDS" (pos 120));
    ports = (
      parsed-le (env "WEBTRANSPORT_PORT") u16_max 4433 (omega arith),
      parsed-le (env "WEBSOCKET_PORT") u16_max 8081 (omega arith),
      parsed-le (env "HTTP_API_PORT") u16_max 8080 (omega arith),
    );
    limit = limit_of (env "MAX_CONNECTIONS_PER_USER");
  }
