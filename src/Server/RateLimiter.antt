-- ===== src/Server/RateLimiter.antt =====
-- internal/server/ratelimit.go: token buckets for each address, and blocked addresses. The time of
-- a call is one argument, a number of nanoseconds of a clock that does not go back.
pub mod Types
pub mod Numbers
pub mod Control
pub mod Tokens
pub mod Blocks
pub mod Charges
pub mod Runs
pub mod Creation
mod Witnesses
use vcdeploy.Prelude.{
  ℕ, suc, ◌+◌, ◌-◌, String, Bool, true, false, not, ◌||◌, ◌&&◌, Option, none, some, List, [], ◌∷◌,
  ◌++◌, if◌then◌else◌, str_eq, ltb, leb, any, listed, Table, lookup, insert, delete, delete_where,
  ℤ, pos, negsuc, leb_int,
}
use vcdeploy.Server.RateLimiter.Numbers.{Floats}
use vcdeploy.Server.RateLimiter.Types.{
  EndpointLimit, RateLimitConfig, TokenBucket, RateLimitStatus, DbCall, save_blocked_ip,
  delete_blocked_ip, RateLimiter, GrpcRateLimitConfig,
}

-- `t.Add(d)`; times before the epoch do not occur.
unfoldable pub add_duration : ℕ → ℤ → ℕ
add_duration t (pos d) = t + d
add_duration t (negsuc d) = t - suc d

-- An `int` or a duration that is not positive gets its default.
unfoldable pub positive_or : ℤ → ℤ → ℤ
positive_or default n = if leb_int n (pos 0) then default else n

-- A list of the form `isWhitelisted` and `isBlacklisted` have: `in_network` says that an entry is
-- in CIDR notation and that the network has the address.
unfoldable pub is_listed : (String → String → Bool) → String → List String → Bool
unfolding any
is_listed in_network ip = any (λ entry. str_eq entry ip || in_network entry ip)

module _ (fl : Floats) where
  -- The first lines of `NewRateLimiter`.
  unfoldable pub with_defaults : RateLimitConfig fl.Float → RateLimitConfig fl.Float
  unfolding positive_or
  with_defaults c = record c {
    requests_per_second =
        if fl.at_most c.requests_per_second (fl.of_int (pos 0))
        then fl.of_int (pos 10)
        else c.requests_per_second;
    burst_size = positive_or (pos 20) c.burst_size;
    block_duration = positive_or (pos 900000000000) c.block_duration;
    block_threshold = positive_or (pos 10) c.block_threshold;
    cleanup_interval = positive_or (pos 300000000000) c.cleanup_interval;
  }

  -- `loadBlockedIPs`
  unfoldable pub load_blocked : List (String × ℕ) → Table ℕ → Table ℕ
  unfolding insert
  load_blocked [] m = m
  load_blocked ((ip, expires) ∷ rows) m = load_blocked rows (insert ip expires m)

  -- `NewRateLimiter`: the rows are the answer of the database to the query of `loadBlockedIPs`, or
  -- `none` where it fails, and then there is no limiter.
  unfoldable pub new_rate_limiter :
      Bool → Option (List (String × ℕ)) → RateLimitConfig fl.Float → Option (RateLimiter fl.Float)
  unfolding with_defaults load_blocked
  new_rate_limiter has_database rows c =
      let c' = with_defaults c in
      let start : Table ℕ → RateLimiter fl.Float = λ blocked. record {
        has_database = has_database;
        config = c';
        buckets = [];
        blocked = blocked;
        stopped = false;
        db_calls = [];
      } in
      if c'.use_database && has_database
      then elim rows [ none ↦ none | some found ↦ some (start (load_blocked found [])) ]
      else some (start [])

  -- The status that a call begins with.
  unfoldable pub first_status : String → RateLimitConfig fl.Float → RateLimitStatus fl.Float
  first_status ip c = record {
    ip = ip;
    tokens_remaining = fl.of_int (pos 0);
    requests_per_sec = c.requests_per_second;
    burst_size = c.burst_size;
    violations = 0;
    is_blocked = false;
    blocked_until = none;
    is_whitelisted = false;
    is_blacklisted = false;
  }

  -- The limits of an endpoint.
  unfoldable pub limit_for : String → RateLimitConfig fl.Float → EndpointLimit fl.Float
  unfolding lookup
  limit_for endpoint c = elim (lookup endpoint c.per_endpoint_limits) [
    | some limit ↦ limit
    | none ↦ record { requests_per_second = c.requests_per_second; burst_size = c.burst_size }
  ]

  -- The tokens of a bucket after the time since its last update.
  unfoldable pub refilled : ℕ → EndpointLimit fl.Float → TokenBucket fl.Float → fl.Float
  refilled now limit b =
      let t =
        fl.plus b.tokens (fl.times (fl.seconds (now - b.last_update)) limit.requests_per_second) in
      if fl.less (fl.of_int limit.burst_size) t then fl.of_int limit.burst_size else t

  -- The bucket of an address, or a full one.
  unfoldable pub bucket_of :
      ℕ → EndpointLimit fl.Float → Option (TokenBucket fl.Float) → TokenBucket fl.Float
  bucket_of now limit (some b) = b
  bucket_of now limit none = record {
    tokens = fl.of_int limit.burst_size;
    last_update = now;
    violations = 0;
  }

  -- The branch of a request without a token: `b` is refilled already.
  unfoldable pub violate :
      ℕ
      → String
      → TokenBucket fl.Float
      → RateLimitStatus fl.Float
      → RateLimiter fl.Float
      → RateLimiter fl.Float × Bool × RateLimitStatus fl.Float
  unfolding add_duration insert
  violate now ip b status rl =
      let v = suc b.violations in
      let rl' = record rl { buckets = insert ip (record b { violations = v }) rl.buckets } in
      let until = add_duration now rl.config.block_duration in
      if leb_int rl.config.block_threshold (pos v)
      then (
        record rl' {
          blocked = insert ip until rl.blocked;
          db_calls =
              if rl.config.use_database && rl.has_database
              then rl.db_calls ++ save_blocked_ip ip until "rate_limit_exceeded" ∷ []
              else rl.db_calls;
        },
        false,
        record status { is_blocked = true; blocked_until = some until },
      )
      else (rl', false, status)

  -- `Allow` from the limits on.
  unfoldable pub charge :
      ℕ
      → String
      → String
      → RateLimiter fl.Float
      → RateLimiter fl.Float × Bool × RateLimitStatus fl.Float
  unfolding first_status limit_for bucket_of refilled violate insert lookup
  charge now ip endpoint rl =
      let limit = limit_for endpoint rl.config in
      let b = bucket_of now limit (lookup ip rl.buckets) in
      let t = refilled now limit b in
      let b' = record b { tokens = t; last_update = now } in
      let status = record (first_status ip rl.config) {
        requests_per_sec = limit.requests_per_second;
        burst_size = limit.burst_size;
        tokens_remaining = t;
        violations = b.violations;
      } in
      if fl.less t (fl.of_int (pos 1)) then violate now ip b' status rl else (
        record rl {
          buckets = insert ip (record b' { tokens = fl.minus t (fl.of_int (pos 1)) }) rl.buckets;
        },
        true,
        record status { tokens_remaining = fl.minus t (fl.of_int (pos 1)) },
      )

  -- `Allow`
  unfoldable pub allow :
      (String → String → Bool)
      → ℕ
      → String
      → String
      → RateLimiter fl.Float
      → RateLimiter fl.Float × Bool × RateLimitStatus fl.Float
  unfolding is_listed first_status charge lookup delete
  allow in_network now ip endpoint rl =
      let status = first_status ip rl.config in
      let rest = charge now ip endpoint rl in
      let rest' = charge now ip endpoint (record rl { blocked = delete ip rl.blocked }) in
      if is_listed in_network ip rl.config.whitelisted_ips
      then (
        rl,
        true,
        record status { is_whitelisted = true; tokens_remaining = fl.of_int rl.config.burst_size },
      )
      else if is_listed in_network ip rl.config.blacklisted_ips
      then (rl, false, record status { is_blacklisted = true; is_blocked = true })
      else elim (lookup ip rl.blocked) [
        | none ↦ rest
        | some until ↦
            if ltb now until
            then (rl, false, record status { is_blocked = true; blocked_until = some until })
            else rest'
      ]

  -- `GetStatus`
  unfoldable pub get_status :
      (String → String → Bool) → ℕ → String → RateLimiter fl.Float → RateLimitStatus fl.Float
  unfolding is_listed first_status refilled lookup
  get_status in_network now ip rl =
      let c = rl.config in
      let block : Option ℕ = elim (lookup ip rl.blocked) [
        | none ↦ none
        | some until ↦ if ltb now until then some until else none
      ] in
      let status = record (first_status ip c) {
        is_whitelisted = is_listed in_network ip c.whitelisted_ips;
        is_blacklisted = is_listed in_network ip c.blacklisted_ips;
        is_blocked = elim block [ none ↦ false | some until ↦ true ];
        blocked_until = block;
      } in
      elim (lookup ip rl.buckets) [
        | none ↦ record status { tokens_remaining = fl.of_int c.burst_size }
        | some b ↦ record status {
          tokens_remaining =
              refilled now
                (record { requests_per_second = c.requests_per_second; burst_size = c.burst_size })
                b;
          violations = b.violations;
        }
      ]
