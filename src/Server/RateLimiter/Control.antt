-- ===== src/Server/RateLimiter/Control.antt =====
-- internal/server/ratelimit.go: blocking and unblocking, the cleanup, and the gRPC interceptors.
use vcdeploy.Prelude.{
  ℕ, ◌+◌, String, Bool, true, not, ◌||◌, ◌&&◌, Option, none, [], ◌∷◌, ◌++◌, if◌then◌else◌, str_eq,
  ltb, listed, insert, delete, delete_where, ℤ,
}
use vcdeploy.Server.RateLimiter.Numbers.{Floats}
use vcdeploy.Server.RateLimiter.Types.{
  TokenBucket, DbCall, save_blocked_ip, delete_blocked_ip, RateLimiter, GrpcRateLimitConfig,
}
use vcdeploy.Server.RateLimiter.{add_duration, allow}

-- The tests of `cleanup`: a block that has expired, and a bucket not used for an hour.
unfoldable pub has_expired : ℕ → ℕ → Bool
has_expired now until = ltb until now

module _ {F : Type 0} where
  -- The error of a statement, where the limiter has a database to send it to.
  unfoldable pub send_call :
      (DbCall → Option String) → DbCall → RateLimiter F → RateLimiter F × Option String
  send_call db_error call rl =
      if rl.config.use_database && rl.has_database
      then (record rl { db_calls = rl.db_calls ++ call ∷ [] }, db_error call)
      else (rl, none)

  -- `BlockIP`
  unfoldable pub block_ip :
      (DbCall → Option String)
      → ℕ
      → String
      → String
      → ℤ
      → RateLimiter F
      → RateLimiter F × Option String
  unfolding add_duration insert send_call
  block_ip db_error now ip reason duration rl =
      let until = add_duration now duration in
      send_call db_error (save_blocked_ip ip until reason)
        (record rl { blocked = insert ip until rl.blocked })

  -- `UnblockIP`
  unfoldable pub unblock_ip :
      (DbCall → Option String) → String → RateLimiter F → RateLimiter F × Option String
  unfolding delete send_call
  unblock_ip db_error ip rl =
      send_call db_error (delete_blocked_ip ip) (record rl { blocked = delete ip rl.blocked })

  unfoldable pub is_unused : ℕ → TokenBucket F → Bool
  is_unused now b = ltb (b.last_update + 3600000000000) now

  -- `cleanup`
  unfoldable pub cleanup : ℕ → RateLimiter F → RateLimiter F
  unfolding delete_where has_expired is_unused
  cleanup now rl = record rl {
    blocked = delete_where (has_expired now) rl.blocked;
    buckets = delete_where (is_unused now) rl.buckets;
  }

  -- `Stop`
  unfoldable pub stop : RateLimiter F → RateLimiter F
  stop rl = record rl { stopped = true }

-- `isExemptMethod`
unfoldable pub is_exempt_method : {F : Type 0} → GrpcRateLimitConfig F → String → Bool
unfolding listed
is_exempt_method c method = listed method c.exempt_methods

-- `UnaryRateLimitInterceptor` and `StreamRateLimitInterceptor` for a limiter that is not nil: true
-- where the handler is called, false where the error ResourceExhausted is returned.
unfoldable pub intercept :
    (fl : Floats)
    → (String → String → Bool)
    → ℕ
    → GrpcRateLimitConfig fl.Float
    → String
    → String
    → RateLimiter fl.Float
    → RateLimiter fl.Float × Bool
unfolding is_exempt_method allow
intercept fl in_network now c method client_ip rl =
    let ip = if str_eq client_ip "" then "unknown" else client_ip in
    let (rl', allowed, _) = allow fl in_network now ip method rl in
    if not c.enabled || is_exempt_method c method then (rl, true) else (rl', allowed)
