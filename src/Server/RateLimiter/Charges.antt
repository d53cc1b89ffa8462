-- ===== src/Server/RateLimiter/Charges.antt =====
-- internal/server/ratelimit.go: how a request charges the bucket of its address.
use vcdeploy.Prelude.{
  ℕ, suc, ◌-◌, ◌≤◌, String, ◌≡◌, refl, ap, ◌∙◌, Bool, false, none, some, arith, inl, inr, ◌⊎◌,
  Option-cases, str_eq, eq_iff, lookup, insert, delete, lookup-insert, ℤ, pos, if◌then◌else◌,
}
use mathlib.Core.Path.{subst}
use vcdeploy.Server.RateLimiter.Types.{RateLimitConfig, EndpointLimit, TokenBucket, RateLimiter}
use vcdeploy.Server.RateLimiter.Numbers.{Floats}
use vcdeploy.Server.RateLimiter.{is_listed, limit_for, bucket_of, refilled, allow}
use vcdeploy.Server.RateLimiter.Tokens.{charged, charge-buckets}

module _ (fl : Floats) where
  -- The rate and the burst of an endpoint: its own, or else those of the configuration.
  pub data HasLimit (c : RateLimitConfig fl.Float) (endpoint : String) (rate : fl.Float) (burst : ℤ)
      : Type 0 where
    own :
        lookup endpoint c.per_endpoint_limits
          ≡ some (record { requests_per_second = rate; burst_size = burst })
        → HasLimit c endpoint rate burst
    general :
        lookup endpoint c.per_endpoint_limits ≡ none
        → c.requests_per_second ≡ rate
        → c.burst_size ≡ burst
        → HasLimit c endpoint rate burst

  -- The bucket of an address, which is full where there is none.
  abbrev pub HasBucket : RateLimiter fl.Float → String → ℕ → ℤ → TokenBucket fl.Float → Type 0
  HasBucket rl ip now burst b =
      (lookup ip rl.buckets ≡ some b)
      ⊎ ((lookup ip rl.buckets ≡ none)
          × (b ≡ record { tokens = fl.of_int burst; last_update = now; violations = 0 }))

  -- The tokens after a time at a rate, up to a burst.
  abbrev pub refill : fl.Float → ℤ → ℕ → fl.Float → fl.Float
  refill rate burst elapsed tokens =
      let more = fl.plus tokens (fl.times (fl.seconds elapsed) rate) in
      if fl.less (fl.of_int burst) more then fl.of_int burst else more

  HasLimit-limit_for :
      (c : RateLimitConfig fl.Float) (endpoint : String) (rate : fl.Float) (burst : ℤ)
      → HasLimit c endpoint rate burst
      → limit_for fl endpoint c ≡ record { requests_per_second = rate; burst_size = burst }
  unfolding limit_for
  HasLimit-limit_for c endpoint rate burst (own e) = rw (e, limit_for) refl
  HasLimit-limit_for c endpoint rate burst (general e r b) =
      rw (e, limit_for) (λ i. record { requests_per_second = r i; burst_size = b i })

  HasBucket-bucket_of :
      (rl : RateLimiter fl.Float) (ip : String) (now : ℕ) (limit : EndpointLimit fl.Float)
      (b : TokenBucket fl.Float)
      → HasBucket rl ip now limit.burst_size b
      → bucket_of fl now limit (lookup ip rl.buckets) ≡ b
  unfolding bucket_of
  HasBucket-bucket_of rl ip now limit b (inl e) = rw e refl
  HasBucket-bucket_of rl ip now limit b (inr (e, full)) = rw e (rw full refl)

module _ (fl : Floats) (in_network : String → String → Bool) where
  allow-charged :
      (now : ℕ) (ip endpoint : String) (rl : RateLimiter fl.Float)
      → is_listed in_network ip rl.config.whitelisted_ips ≡ false
      → is_listed in_network ip rl.config.blacklisted_ips ≡ false
      → ((until : ℕ) → lookup ip rl.blocked ≡ some until → until ≤ now)
      → let rl' = (allow fl in_network now ip endpoint rl).0 in
        let limit = limit_for fl endpoint rl.config in
        (lookup ip rl'.buckets
          ≡ some (charged fl now limit (bucket_of fl now limit (lookup ip rl.buckets))))
        × ((other : String)
            → str_eq ip other ≡ false
            → lookup other rl'.buckets ≡ lookup other rl.buckets)
  unfolding allow
  allow-charged now ip endpoint rl white black free =
      let limit = limit_for fl endpoint rl.config in
      let b = charged fl now limit (bucket_of fl now limit (lookup ip rl.buckets)) in
      let rl' = (allow fl in_network now ip endpoint rl).0 in
      let after : rl'.buckets ≡ insert ip b rl.buckets =
        elim (Option-cases (lookup ip rl.blocked)) [
          | inl gone ↦ ground (arith, charge-buckets fl now ip endpoint rl)
          | inr (until, there) ↦ ground (
            arith,
            free until there,
            charge-buckets fl now ip endpoint (record rl { blocked = delete ip rl.blocked }),
          )
        ] in
      (
        rw after (ground (arith, lookup-insert ip ip b rl.buckets, eq_iff ip ip)),
        λ other ne. rw after (ground (arith, lookup-insert ip other b rl.buckets)),
      )

  -- Where neither a list nor a lasting block decides, a request charges the one bucket of its address,
  -- whatever the endpoint is. The bucket is refilled for the time since its last update, at the
  -- endpoint's own rate and up to its own burst, if the endpoint has a limit, or else at those of the
  -- configuration; a new bucket is full. Then it gives a token, or it counts a violation, where it has
  -- less than one. Other buckets are as before.
  pub allow-buckets :
      (now : ℕ) (ip endpoint : String) (rl : RateLimiter fl.Float) (rate : fl.Float) (burst : ℤ)
      (b : TokenBucket fl.Float)
      → is_listed in_network ip rl.config.whitelisted_ips ≡ false
      → is_listed in_network ip rl.config.blacklisted_ips ≡ false
      → ((until : ℕ) → lookup ip rl.blocked ≡ some until → until ≤ now)
      → HasLimit fl rl.config endpoint rate burst
      → HasBucket fl rl ip now burst b
      → let rl' = (allow fl in_network now ip endpoint rl).0 in
        let tokens = refill fl rate burst (now - b.last_update) b.tokens in
        (lookup ip rl'.buckets
          ≡ some (
              if fl.less tokens (fl.of_int (pos 1))
              then record { tokens = tokens; last_update = now; violations = suc b.violations }
              else record {
                tokens = fl.minus tokens (fl.of_int (pos 1));
                last_update = now;
                violations = b.violations;
              }))
        × ((other : String)
            → str_eq ip other ≡ false
            → lookup other rl'.buckets ≡ lookup other rl.buckets)
  unfolding charged refilled
  allow-buckets now ip endpoint rl rate burst b white black free limit bucket =
      let (at_address, others) = allow-charged now ip endpoint rl white black free in
      let the_limit = HasLimit-limit_for fl rl.config endpoint rate burst limit in
      let l : EndpointLimit fl.Float = record { requests_per_second = rate; burst_size = burst } in
      let same : charged fl now (limit_for fl endpoint rl.config)
            (bucket_of fl now (limit_for fl endpoint rl.config) (lookup ip rl.buckets))
          ≡ charged fl now l b =
        ap (λ k. charged fl now k (bucket_of fl now k (lookup ip rl.buckets))) the_limit
        ∙ ap (charged fl now l) (HasBucket-bucket_of fl rl ip now l b bucket) in
      (
        subst (λ c. lookup ip (allow fl in_network now ip endpoint rl).0.buckets ≡ some c) same
            at_address,
        others,
      )
