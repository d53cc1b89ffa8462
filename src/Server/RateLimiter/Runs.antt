-- ===== src/Server/RateLimiter/Runs.antt =====
-- internal/server/ratelimit.go: the limiter over every sequence of calls.
use vcdeploy.Prelude.{
  ℕ, ◌<◌, String, ◌≡◌, refl, ◌∙◌, Bool, false, Option, some, arith, lookup, delete,
  delete_where-keeps, ℤ, AllAt, AllAt-delete_where, KeysDiffer, insert-KeysDiffer,
  delete_where-KeysDiffer,
}
use vcdeploy.Server.RateLimiter.Types.{DbCall, RateLimiter}
use vcdeploy.Server.RateLimiter.Numbers.{Floats, IsOrdered}
use vcdeploy.Server.RateLimiter.{is_listed, violate, charge, allow}
use vcdeploy.Server.RateLimiter.Control.{
  has_expired, is_unused, cleanup, block_ip, unblock_ip, send_call, stop,
}
use vcdeploy.Server.RateLimiter.Tokens.{Capped, HasBursts, charge-buckets, charge-Capped}
use vcdeploy.Server.RateLimiter.Blocks.{allow-blocked}

-- One call of a method that changes the state; `GetStatus` changes nothing.
pub data Step (fl : Floats) (in_network : String → String → Bool)
    (db_error : DbCall → Option String) : RateLimiter fl.Float → RateLimiter fl.Float → Type 0 where
  requested :
      (now : ℕ) (ip endpoint : String) (rl : RateLimiter fl.Float)
      → Step fl in_network db_error rl (allow fl in_network now ip endpoint rl).0
  block_set :
      (now : ℕ) (ip reason : String) (duration : ℤ) (rl : RateLimiter fl.Float)
      → Step fl in_network db_error rl (block_ip db_error now ip reason duration rl).0
  block_lifted :
      (ip : String) (rl : RateLimiter fl.Float)
      → Step fl in_network db_error rl (unblock_ip db_error ip rl).0
  cleaned : (now : ℕ) (rl : RateLimiter fl.Float) → Step fl in_network db_error rl (cleanup now rl)
  stopped : (rl : RateLimiter fl.Float) → Step fl in_network db_error rl (stop rl)

pub data Reach (fl : Floats) (in_network : String → String → Bool)
    (db_error : DbCall → Option String) (s : RateLimiter fl.Float)
    : RateLimiter fl.Float → Type 0 where
  here : Reach fl in_network db_error s s
  next :
      {t u : RateLimiter fl.Float}
      → Reach fl in_network db_error s t
      → Step fl in_network db_error t u
      → Reach fl in_network db_error s u

module _ (fl : Floats) (in_network : String → String → Bool) where
  charge-config :
      (now : ℕ) (ip endpoint : String) (rl : RateLimiter fl.Float)
      → (charge fl now ip endpoint rl).0.config ≡ rl.config
  unfolding charge violate
  charge-config now ip endpoint rl = ground arith

  allow-config :
      (now : ℕ) (ip endpoint : String) (rl : RateLimiter fl.Float)
      → (allow fl in_network now ip endpoint rl).0.config ≡ rl.config
  unfolding allow
  allow-config now ip endpoint rl = ground (
    arith,
    charge-config now ip endpoint rl,
    charge-config now ip endpoint (record rl { blocked = delete ip rl.blocked }),
  )

  -- A request leaves the state as it is, or charges the bucket of its address, perhaps after it
  -- has dropped a block.
  allow-cases :
      (P : RateLimiter fl.Float → Type 0) (now : ℕ) (ip endpoint : String)
      (rl : RateLimiter fl.Float)
      → P rl
      → P (charge fl now ip endpoint rl).0
      → P (charge fl now ip endpoint (record rl { blocked = delete ip rl.blocked })).0
      → P (allow fl in_network now ip endpoint rl).0
  unfolding allow
  allow-cases P now ip endpoint rl same kept lapsed = ground arith

  -- The bursts of the configuration and the tokens of every bucket are within `top`, and an address
  -- has one bucket.
  pub record IsWithin (top : fl.Float) (rl : RateLimiter fl.Float) : Type 0 where
    pub bursts : HasBursts fl top rl.config
    pub tokens : AllAt (Capped fl top) rl.buckets
    pub keys : KeysDiffer rl.buckets

  -- The steps that keep the configuration and the buckets.
  IsWithin-same :
      (top : fl.Float) (t u : RateLimiter fl.Float)
      → u.config ≡ t.config
      → u.buckets ≡ t.buckets
      → IsWithin top t
      → IsWithin top u
  IsWithin-same top t u c b h = record {
    bursts = rw c h.bursts;
    tokens = rw b h.tokens;
    keys = rw b h.keys;
  }

  charge-IsWithin :
      (top : fl.Float) (now : ℕ) (ip endpoint : String) (rl : RateLimiter fl.Float)
      → IsOrdered fl
      → IsWithin top rl
      → IsWithin top (charge fl now ip endpoint rl).0
  charge-IsWithin top now ip endpoint rl laws h = record {
    bursts = rw (charge-config now ip endpoint rl) h.bursts;
    tokens = charge-Capped fl top now ip endpoint rl laws h.bursts h.tokens;
    keys = rw (charge-buckets fl now ip endpoint rl) (insert-KeysDiffer ip _ rl.buckets h.keys);
  }

  Step-IsWithin :
      (top : fl.Float) (db_error : DbCall → Option String) (t u : RateLimiter fl.Float)
      → IsOrdered fl
      → Step fl in_network db_error t u
      → IsWithin top t
      → IsWithin top u
  unfolding block_ip unblock_ip send_call cleanup stop
  Step-IsWithin top db_error t u laws (requested now ip endpoint rl) h =
      allow-cases (IsWithin top) now ip endpoint rl h
        (charge-IsWithin top now ip endpoint rl laws h)
        (charge-IsWithin top now ip endpoint (record rl { blocked = delete ip rl.blocked }) laws
          (record { bursts = h.bursts; tokens = h.tokens; keys = h.keys }))
  Step-IsWithin top db_error t u laws (block_set now ip reason duration rl) h =
      IsWithin-same top rl (block_ip db_error now ip reason duration rl).0 (ground arith)
        (ground arith) h
  Step-IsWithin top db_error t u laws (block_lifted ip rl) h =
      IsWithin-same top rl (unblock_ip db_error ip rl).0 (ground arith) (ground arith) h
  Step-IsWithin top db_error t u laws (cleaned now rl) h = record {
    bursts = h.bursts;
    tokens = AllAt-delete_where (Capped fl top) (is_unused now) rl.buckets h.keys h.tokens;
    keys = delete_where-KeysDiffer (is_unused now) rl.buckets h.keys;
  }
  Step-IsWithin top db_error t u laws (stopped rl) h = IsWithin-same top rl (stop rl) refl refl h

  -- Whatever methods are called, in whatever order: no bucket ever holds more tokens than a bound
  -- on the bursts of the configuration, from a limiter for which this holds.
  pub Reach-IsWithin :
      (top : fl.Float) (db_error : DbCall → Option String) (s rl : RateLimiter fl.Float)
      → IsOrdered fl
      → IsWithin top s
      → Reach fl in_network db_error s rl
      → IsWithin top rl
  Reach-IsWithin top db_error s rl laws h here = h
  Reach-IsWithin top db_error s rl laws h (next {t = t} r step) =
      Step-IsWithin top db_error t rl laws step (Reach-IsWithin top db_error s t laws h r)

-- Calls before the time `until`, of requests and of the cleanup.
pub data ReachBefore (fl : Floats) (in_network : String → String → Bool) (until : ℕ)
    (s : RateLimiter fl.Float) : RateLimiter fl.Float → Type 0 where
  start : ReachBefore fl in_network until s s
  request :
      {t : RateLimiter fl.Float} (now : ℕ) (ip endpoint : String)
      → ReachBefore fl in_network until s t
      → now < until
      → ReachBefore fl in_network until s (allow fl in_network now ip endpoint t).0
  clean :
      {t : RateLimiter fl.Float} (now : ℕ)
      → ReachBefore fl in_network until s t
      → now < until
      → ReachBefore fl in_network until s (cleanup now t)

module _ (fl : Floats) (in_network : String → String → Bool) where
  keeps_block :
      (until : ℕ) (ip : String) (s rl : RateLimiter fl.Float)
      → lookup ip s.blocked ≡ some until
      → ReachBefore fl in_network until s rl
      → (lookup ip rl.blocked ≡ some until) × (rl.config ≡ s.config)
  unfolding cleanup has_expired
  keeps_block until ip s rl h start = (h, refl)
  keeps_block until ip s rl h (request {t = t} now other endpoint r early) =
      let (block, config) = keeps_block until ip s t h r in
      (
        allow-blocked fl in_network now until other endpoint ip t early block,
        allow-config fl in_network now other endpoint t ∙ config,
      )
  keeps_block until ip s rl h (clean {t = t} now r early) =
      let (block, config) = keeps_block until ip s t h r in
      (delete_where-keeps (has_expired now) ip until t.blocked block (ground arith), config)

  -- A block lasts: after any requests, by anyone, and cleanups before the end of a block, a request
  -- of the blocked address before that end is refused, unless the address is whitelisted, and
  -- changes nothing.
  pub block_lasts :
      (until now : ℕ) (ip endpoint : String) (s rl : RateLimiter fl.Float)
      → lookup ip s.blocked ≡ some until
      → is_listed in_network ip s.config.whitelisted_ips ≡ false
      → ReachBefore fl in_network until s rl
      → now < until
      → ((allow fl in_network now ip endpoint rl).1 ≡ false)
        × ((allow fl in_network now ip endpoint rl).0 ≡ rl)
  unfolding allow
  block_lasts until now ip endpoint s rl h white r early =
      let (block, config) = keeps_block until ip s rl h r in
      let white' : is_listed in_network ip rl.config.whitelisted_ips ≡ false = rw config white in
      (ground arith, ground arith)
