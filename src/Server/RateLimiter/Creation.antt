-- ===== src/Server/RateLimiter/Creation.antt =====
-- internal/server/ratelimit.go: the limiter that `NewRateLimiter` makes.
use vcdeploy.Prelude.{
  String, ℕ, ◌≡◌, ◌↔◌, Bool, true, false, Option, none, some, List, [], arith, ℤ, pos, leb_int,
}
use vcdeploy.Server.RateLimiter.Types.{RateLimitConfig, RateLimiter}
use vcdeploy.Server.RateLimiter.Numbers.{Floats}
use vcdeploy.Server.RateLimiter.{positive_or, with_defaults, new_rate_limiter}

-- More than nothing.
abbrev pub IsPositive : ℤ → Type 0
IsPositive n = leb_int n (pos 0) ≡ false

positive_or-IsPositive : (default n : ℤ) → IsPositive default → IsPositive (positive_or default n)
unfolding positive_or
positive_or-IsPositive default n h = ground arith

module _ (fl : Floats) where
  -- There is no limiter exactly when the configuration asks for the database, there is one, and
  -- its query fails. A limiter starts with no bucket, and its burst, durations and threshold are
  -- positive, whatever the configuration says.
  pub new_rate_limiter_lem :
      (has_database : Bool) (rows : Option (List (String × ℕ))) (c : RateLimitConfig fl.Float)
      → ((new_rate_limiter fl has_database rows c ≡ none)
          ↔ ((c.use_database ≡ true) × (has_database ≡ true) × (rows ≡ none)))
        × ((rl : RateLimiter fl.Float)
            → new_rate_limiter fl has_database rows c ≡ some rl
            → (rl.buckets ≡ [])
              × IsPositive rl.config.burst_size
              × IsPositive rl.config.block_duration
              × IsPositive rl.config.block_threshold
              × IsPositive rl.config.cleanup_interval)
  unfolding new_rate_limiter with_defaults
  new_rate_limiter_lem has_database rows c = (
    (λ h. (ground arith, ground arith, ground arith), λ h. ground (arith, h.0, h.1, h.2)),
    λ rl made.
        let same : with_defaults fl c ≡ rl.config = ground arith in
        (
          ground arith,
          rw (← same) (positive_or-IsPositive (pos 20) c.burst_size (ground arith)),
          rw (← same) (positive_or-IsPositive (pos 900000000000) c.block_duration (ground arith)),
          rw (← same) (positive_or-IsPositive (pos 10) c.block_threshold (ground arith)),
          rw (← same) (positive_or-IsPositive (pos 300000000000) c.cleanup_interval (ground arith)),
        ),
  )
