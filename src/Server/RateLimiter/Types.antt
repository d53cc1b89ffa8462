-- ===== src/Server/RateLimiter/Types.antt =====
-- internal/server/ratelimit.go: the configuration, the status of an address and the state.
use vcdeploy.Prelude.{ℕ, String, Bool, Option, List, Table, ℤ}

-- `EndpointLimit`
pub record EndpointLimit (F : Type 0) : Type 0 where
  pub requests_per_second : F
  pub burst_size : ℤ

-- `RateLimitConfig`
pub record RateLimitConfig (F : Type 0) : Type 0 where
  pub requests_per_second : F
  pub burst_size : ℤ
  pub block_duration : ℤ
  pub block_threshold : ℤ
  pub whitelisted_ips : List String
  pub blacklisted_ips : List String
  pub use_database : Bool
  pub cleanup_interval : ℤ
  pub per_endpoint_limits : Table (EndpointLimit F)

-- `tokenBucket`
pub record TokenBucket (F : Type 0) : Type 0 where
  pub tokens : F
  pub last_update : ℕ
  pub violations : ℕ

-- `RateLimitStatus`, where `none` is the zero time.
pub record RateLimitStatus (F : Type 0) : Type 0 where
  pub ip : String
  pub tokens_remaining : F
  pub requests_per_sec : F
  pub burst_size : ℤ
  pub violations : ℕ
  pub is_blocked : Bool
  pub blocked_until : Option ℕ
  pub is_whitelisted : Bool
  pub is_blacklisted : Bool

-- The statements sent to the database: `saveBlockedIP`, and the DELETE of `UnblockIP`.
pub data DbCall : Type 0 where
  save_blocked_ip : String → ℕ → String → DbCall
  delete_blocked_ip : String → DbCall

-- `RateLimiter`: `has_database` says that `db` is not nil, `stopped` that `stopCh` is closed.
pub record RateLimiter (F : Type 0) : Type 0 where
  pub has_database : Bool
  pub config : RateLimitConfig F
  pub buckets : Table (TokenBucket F)
  pub blocked : Table ℕ
  pub stopped : Bool
  pub db_calls : List DbCall

-- `GRPCRateLimitConfig`
pub record GrpcRateLimitConfig (F : Type 0) : Type 0 where
  pub global_rps : F
  pub per_client_rps : F
  pub burst : ℤ
  pub enabled : Bool
  pub exempt_methods : List String
