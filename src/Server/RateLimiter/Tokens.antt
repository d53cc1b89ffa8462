-- ===== src/Server/RateLimiter/Tokens.antt =====
-- internal/server/ratelimit.go: what `Allow` takes from a bucket, and what the status tells of it.
use vcdeploy.Prelude.{
  ℕ, suc, ◌-◌, String, ◌≡◌, false, some, arith, inl, inr, Option-cases, if◌then◌else◌, lookup,
  insert, pos, AllAt, AllAt-insert,
}
use vcdeploy.Server.RateLimiter.Types.{EndpointLimit, RateLimitConfig, TokenBucket, RateLimiter}
use vcdeploy.Server.RateLimiter.Numbers.{Floats, IsOrdered}
use vcdeploy.Server.RateLimiter.{limit_for, refilled, bucket_of, violate, charge}

module _ (fl : Floats) where
  -- The tokens of the bucket do not exceed `top`.
  abbrev pub Capped : fl.Float → String → TokenBucket fl.Float → Type 0
  Capped top ip b = fl.less top b.tokens ≡ false

  -- Every burst of the configuration is within `top`.
  pub record HasBursts (top : fl.Float) (c : RateLimitConfig fl.Float) : Type 0 where
    pub default_burst : fl.less top (fl.of_int c.burst_size) ≡ false
    pub endpoint_bursts :
        (endpoint : String) (limit : EndpointLimit fl.Float)
        → lookup endpoint c.per_endpoint_limits ≡ some limit
        → fl.less top (fl.of_int limit.burst_size) ≡ false

  limit_for-within :
      (top : fl.Float) (c : RateLimitConfig fl.Float) (endpoint : String)
      → HasBursts top c
      → fl.less top (fl.of_int (limit_for fl endpoint c).burst_size) ≡ false
  unfolding limit_for
  limit_for-within top c endpoint h = elim (Option-cases (lookup endpoint c.per_endpoint_limits)) [
    | inl e ↦ rw (limit_for, e) h.default_burst
    | inr (limit, e) ↦ rw (limit_for, e) (h.endpoint_bursts endpoint limit e)
  ]

  refilled-within :
      (top : fl.Float) (now : ℕ) (limit : EndpointLimit fl.Float) (b : TokenBucket fl.Float)
      → IsOrdered fl
      → fl.less top (fl.of_int limit.burst_size) ≡ false
      → fl.less top (refilled fl now limit b) ≡ false
  unfolding refilled
  refilled-within top now limit b laws h = ground (
    arith,
    laws.through_int top
        (fl.plus b.tokens (fl.times (fl.seconds (now - b.last_update)) limit.requests_per_second))
        limit.burst_size,
  )

  -- What the bucket of an address is after a request: refilled, and a token or a violation on.
  unfoldable pub charged : ℕ → EndpointLimit fl.Float → TokenBucket fl.Float → TokenBucket fl.Float
  charged now limit b =
      let t = refilled fl now limit b in
      if fl.less t (fl.of_int (pos 1))
      then record { tokens = t; last_update = now; violations = suc b.violations }
      else record {
        tokens = fl.minus t (fl.of_int (pos 1));
        last_update = now;
        violations = b.violations;
      }

  pub charge-buckets :
      (now : ℕ) (ip endpoint : String) (rl : RateLimiter fl.Float)
      → let limit = limit_for fl endpoint rl.config in
        (charge fl now ip endpoint rl).0.buckets
        ≡ insert ip (charged now limit (bucket_of fl now limit (lookup ip rl.buckets))) rl.buckets
  unfolding charge violate charged
  charge-buckets now ip endpoint rl = ground arith

  pub charge-Capped :
      (top : fl.Float) (now : ℕ) (ip endpoint : String) (rl : RateLimiter fl.Float)
      → IsOrdered fl
      → HasBursts top rl.config
      → AllAt (Capped top) rl.buckets
      → AllAt (Capped top) (charge fl now ip endpoint rl).0.buckets
  unfolding charged
  charge-Capped top now ip endpoint rl laws bursts h =
      let limit = limit_for fl endpoint rl.config in
      let b = bucket_of fl now limit (lookup ip rl.buckets) in
      let t = refilled fl now limit b in
      let within : fl.less top t ≡ false =
        refilled-within top now limit b laws (limit_for-within top rl.config endpoint bursts) in
      let b' = charged now limit b in
      let fine : fl.less top b'.tokens ≡ false =
        ground (arith, within, laws.minus_one top t within) in
      rw (charge-buckets now ip endpoint rl) (AllAt-insert (Capped top) ip b' rl.buckets h fine)
