-- ===== src/Server/RateLimiter/Witnesses.antt =====
-- Runs of the rate limiter, and the theorems at concrete inputs.
use vcdeploy.Prelude.{
  ℕ, ◌+◌, ◌-◌, ◌*◌, ◌/◌, ◌≤◌, String, ◌≡◌, refl, ◌↔◌, ◌⊎◌, Bool, true, false, Option, none, some,
  [], ◌∷◌, arith, str_eq, ltb, leb, lookup, has_key, ℤ, pos, negsuc, inl, if◌then◌else◌,
}
use vcdeploy.Server.RateLimiter.Types.{RateLimitConfig, RateLimiter, DbCall, TokenBucket}
use vcdeploy.Server.RateLimiter.Numbers.{Floats, IsOrdered}
use vcdeploy.Server.RateLimiter.{is_listed, limit_for, bucket_of, refilled, allow}
use vcdeploy.Server.RateLimiter.Charges.{HasLimit, own, refill, allow-buckets}
use vcdeploy.Server.RateLimiter.Blocks.{allow_iff}
use vcdeploy.Server.RateLimiter.Runs.{
  here, next, requested, IsWithin, Reach-IsWithin, start, request, block_lasts,
}

-- Tokens counted in thousandths.
abbrev thousandths : ℤ → ℕ
thousandths (pos n) = 1000 * n
thousandths (negsuc n) = 0

abbrev milli : Floats
milli = record {
  Float = ℕ;
  of_int = thousandths;
  seconds = λ d. d / 1000000;
  plus = λ a b. a + b;
  minus = λ a b. a - b;
  times = λ a b. a * b / 1000;
  less = ltb;
  at_most = leb;
}

IsOrdered-milli : IsOrdered milli
IsOrdered-milli = record {
  minus_one = λ top x h. ground arith;
  through_int = λ top x n h k. ground arith;
}

abbrev alone : String → String → Bool
alone entry ip = false

abbrev config : RateLimitConfig ℕ
config = record {
  requests_per_second = 10000;
  burst_size = pos 20;
  block_duration = pos 500;
  block_threshold = pos 2;
  whitelisted_ips = [];
  blacklisted_ips = [];
  use_database = false;
  cleanup_interval = pos 1;
  per_endpoint_limits = [];
}

-- One address is blocked until 1000; another has used up its tokens.
abbrev limiter : RateLimiter ℕ
limiter = record {
  has_database = false;
  config = config;
  buckets = ("10.0.0.2", record { tokens = 5; last_update = 100; violations = 3 }) ∷ [];
  blocked = ("10.0.0.1", 1000) ∷ [];
  stopped = false;
  db_calls = [];
}

abbrev no_error : DbCall → Option String
no_error call = none

limiter-IsWithin : IsWithin milli alone 20000 limiter
unfolding has_key lookup
limiter-IsWithin = record {
  bursts = record {
    default_burst = refl;
    endpoint_bursts = λ endpoint limit h. absurd (ground arith);
  };
  tokens = λ ip b h. ground arith;
  keys = (refl, tt);
}

Reach-IsWithin_example : IsWithin milli alone 20000 (allow milli alone 200 "10.0.0.2" "/" limiter).0
Reach-IsWithin_example =
    Reach-IsWithin milli alone 20000 no_error limiter
      (allow milli alone 200 "10.0.0.2" "/" limiter).0 IsOrdered-milli limiter-IsWithin
      (next here (requested 200 "10.0.0.2" "/" limiter))

block_lasts_example :
    let rl = (allow milli alone 200 "10.0.0.2" "/" limiter).0 in
    ((allow milli alone 900 "10.0.0.1" "/" rl).1 ≡ false)
    × ((allow milli alone 900 "10.0.0.1" "/" rl).0 ≡ rl)
unfolding lookup is_listed
block_lasts_example =
    block_lasts milli alone 1000 900 "10.0.0.1" "/" limiter
      (allow milli alone 200 "10.0.0.2" "/" limiter).0 refl refl
      (request 200 "10.0.0.2" "/" start (omega arith)) (omega arith)

not_blocked : (until : ℕ) → lookup "10.0.0.2" limiter.blocked ≡ some until → until ≤ 200
unfolding lookup
not_blocked until h = absurd (ground arith)

-- A limiter with a limit for one endpoint.
abbrev strict : RateLimiter ℕ
strict = record limiter {
  config = record config {
    per_endpoint_limits =
        ("/login", record { requests_per_second = 1000; burst_size = pos 3 }) ∷ [];
  };
}

strict_limit : HasLimit milli strict.config "/login" 1000 (pos 3)
unfolding lookup
strict_limit = own refl

abbrev old_bucket : TokenBucket ℕ
old_bucket = record { tokens = 0; last_update = 0; violations = 0 }

abbrev used : RateLimiter ℕ
used = record strict { buckets = ("10.0.0.2", old_bucket) ∷ [] }

-- Two seconds after the last token was taken, at one token a second, there are two, and one is taken.
login_charged :
    lookup "10.0.0.2" (allow milli alone 2000000000 "10.0.0.2" "/login" used).0.buckets
    ≡ some (record { tokens = 1000; last_update = 2000000000; violations = 0 })
unfolding allow lookup is_listed
login_charged = refl

allow-buckets_example :
    let rl' = (allow milli alone 2000000000 "10.0.0.2" "/login" used).0 in
    let tokens = refill milli 1000 (pos 3) 2000000000 0 in
    (lookup "10.0.0.2" rl'.buckets
      ≡ some (
          if ltb tokens 1000
          then record { tokens = tokens; last_update = 2000000000; violations = 1 }
          else record { tokens = tokens - 1000; last_update = 2000000000; violations = 0 }))
    × ((other : String)
        → str_eq "10.0.0.2" other ≡ false
        → lookup other rl'.buckets ≡ lookup other used.buckets)
unfolding is_listed lookup
allow-buckets_example =
    allow-buckets milli alone 2000000000 "10.0.0.2" "/login" used 1000 (pos 3) old_bucket refl refl
      (λ until h. absurd (ground arith)) strict_limit (inl refl)

allow_iff_example : ((allow milli alone 200 "10.0.0.1" "/" limiter).1 ≡ true) ↔ (
    (is_listed alone "10.0.0.1" [] ≡ true)
    ⊎ ((is_listed alone "10.0.0.1" [] ≡ false)
        × ((until : ℕ) → lookup "10.0.0.1" limiter.blocked ≡ some until → until ≤ 200)
        × (ltb
              (refilled milli 200 (limit_for milli "/" config) (
                bucket_of milli 200
                  (limit_for milli "/" config)
                  (lookup "10.0.0.1" limiter.buckets)))
              1000
            ≡ false)))
allow_iff_example = allow_iff milli alone 200 "10.0.0.1" "/" limiter
