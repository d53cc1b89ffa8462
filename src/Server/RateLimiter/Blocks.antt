-- ===== src/Server/RateLimiter/Blocks.antt =====
-- internal/server/ratelimit.go: whom `Allow` lets through, and how blocks begin, last and end.
use vcdeploy.Prelude.{
  ℕ, suc, ◌+◌, ◌≤◌, ◌<◌, String, ◌≡◌, ◌↔◌, ◌⊎◌, Bool, true, false, not, ◌&&◌, ◌||◌, Option, none,
  some, arith, inl, inr, Bool-cases, Option-cases, str_eq, eq_iff, lookup, delete, lookup-insert,
  lookup-delete, lookup-delete_where, delete_where-keeps, KeysDiffer, pos, leb_int,
}
use vcdeploy.Server.RateLimiter.Types.{TokenBucket, RateLimiter, DbCall}
use vcdeploy.Server.RateLimiter.Numbers.{Floats}
use vcdeploy.Server.RateLimiter.{
  add_duration, is_listed, limit_for, refilled, bucket_of, violate, charge, allow, get_status,
}
use vcdeploy.Server.RateLimiter.Control.{has_expired, is_unused, cleanup, unblock_ip, send_call}

module _ (fl : Floats) (in_network : String → String → Bool) where
  -- Whether a request finds a token.
  abbrev HasToken : ℕ → String → String → RateLimiter fl.Float → Type 0
  HasToken now ip endpoint rl =
      let limit = limit_for fl endpoint rl.config in
      fl.less (refilled fl now limit (bucket_of fl now limit (lookup ip rl.buckets)))
        (fl.of_int (pos 1))
      ≡ false

  charge-allowed :
      (now : ℕ) (ip endpoint : String) (rl : RateLimiter fl.Float)
      → ((charge fl now ip endpoint rl).1 ≡ true) ↔ HasToken now ip endpoint rl
  unfolding charge violate
  charge-allowed now ip endpoint rl = (λ h. ground arith, λ h. ground arith)

  -- A request is allowed exactly if its address is whitelisted, or is not blacklisted, is under no
  -- block that lasts beyond the time of the request, and has a token left.
  pub allow_iff :
      (now : ℕ) (ip endpoint : String) (rl : RateLimiter fl.Float)
      → ((allow fl in_network now ip endpoint rl).1 ≡ true) ↔ (
          (is_listed in_network ip rl.config.whitelisted_ips ≡ true)
          ⊎ ((is_listed in_network ip rl.config.blacklisted_ips ≡ false)
              × ((until : ℕ) → lookup ip rl.blocked ≡ some until → until ≤ now)
              × HasToken now ip endpoint rl))
  unfolding allow
  allow_iff now ip endpoint rl =
      let kept = charge-allowed now ip endpoint rl in
      let lapsed = charge-allowed now ip endpoint (record rl { blocked = delete ip rl.blocked }) in
      elim (Option-cases (lookup ip rl.blocked)) [
        | inl none_there ↦ (
          λ h. elim (Bool-cases (is_listed in_network ip rl.config.whitelisted_ips)) [
            | inl w ↦ inl w
            | inr w ↦ inr (ground arith, (λ until e. ground arith), kept.0 (ground arith))
          ],
          λ h. elim h [
            | inl w ↦ ground arith
            | inr (b, free, token) ↦ ground (arith, kept.1 token)
          ],
        )
        | inr (until, there) ↦ (
          λ h. elim (Bool-cases (is_listed in_network ip rl.config.whitelisted_ips)) [
            | inl w ↦ inl w
            | inr w ↦ inr (ground arith, (λ u e. ground arith), lapsed.0 (ground arith))
          ],
          λ h. elim h [
            | inl w ↦ ground arith
            | inr (b, free, token) ↦ ground (arith, free until there, lapsed.1 token)
          ],
        )
      ]

  charge-blocked :
      (now : ℕ) (ip endpoint other : String) (rl : RateLimiter fl.Float)
      → str_eq ip other ≡ false
      → lookup other (charge fl now ip endpoint rl).0.blocked ≡ lookup other rl.blocked
  unfolding charge violate
  charge-blocked now ip endpoint other rl ne =
      ground (arith, lookup-insert ip other (add_duration now rl.config.block_duration) rl.blocked)

  -- A request before the end of a block leaves the block as it is, whoever makes it.
  pub allow-blocked :
      (now until : ℕ) (ip endpoint other : String) (rl : RateLimiter fl.Float)
      → now < until
      → lookup other rl.blocked ≡ some until
      → lookup other (allow fl in_network now ip endpoint rl).0.blocked ≡ some until
  unfolding allow
  allow-blocked now until ip endpoint other rl early h = ground (
    arith,
    eq_iff ip other,
    charge-blocked now ip endpoint other rl,
    charge-blocked now ip endpoint other (record rl { blocked = delete ip rl.blocked }),
    lookup-delete ip other rl.blocked,
  )

  -- For an address with a bucket and an endpoint without a limit of its own, the status of
  -- `GetStatus` tells whether the next request at that time is allowed.
  pub allow-get_status :
      (now : ℕ) (ip endpoint : String) (rl : RateLimiter fl.Float) (b : TokenBucket fl.Float)
      → lookup ip rl.buckets ≡ some b
      → lookup endpoint rl.config.per_endpoint_limits ≡ none
      → let status = get_status fl in_network now ip rl in
        (allow fl in_network now ip endpoint rl).1 ≡ (
          status.is_whitelisted
          || (not status.is_blacklisted
              && (not status.is_blocked
                  && not (fl.less status.tokens_remaining (fl.of_int (pos 1))))))
  unfolding allow get_status charge violate limit_for bucket_of
  allow-get_status now ip endpoint rl b found plain = ground arith

  -- The count of violations outlives a block: after UnblockIP, an address that has reached the
  -- threshold is blocked again by its next request without a token.
  pub unblocked_once :
      (db_error : DbCall → Option String) (now : ℕ) (ip endpoint : String)
      (rl : RateLimiter fl.Float) (b : TokenBucket fl.Float)
      → is_listed in_network ip rl.config.whitelisted_ips ≡ false
      → is_listed in_network ip rl.config.blacklisted_ips ≡ false
      → lookup ip rl.buckets ≡ some b
      → leb_int rl.config.block_threshold (pos (suc b.violations)) ≡ true
      → fl.less (refilled fl now (limit_for fl endpoint rl.config) b) (fl.of_int (pos 1)) ≡ true
      → let (rl', allowed, _) = allow fl in_network now ip endpoint (unblock_ip db_error ip rl).0 in
        (allowed ≡ false)
        × (lookup ip rl'.blocked ≡ some (add_duration now rl.config.block_duration))
  unfolding allow charge violate unblock_ip send_call bucket_of
  unblocked_once db_error now ip endpoint rl b white black found many empty = (
    ground (arith, lookup-delete ip ip rl.blocked, eq_iff ip ip),
    ground (
      arith,
      lookup-delete ip ip rl.blocked,
      eq_iff ip ip,
      lookup-insert ip ip (add_duration now rl.config.block_duration) (delete ip rl.blocked),
    ),
  )

module _ {F : Type 0} where
  -- Cleanup drops the blocks that have expired and the buckets that were not used for an hour, and
  -- keeps every other one.
  pub lookup-cleanup :
      (now : ℕ) (rl : RateLimiter F)
      → KeysDiffer rl.blocked
      → KeysDiffer rl.buckets
      → let rl' = cleanup now rl in
        ((ip : String) (until : ℕ)
          → (lookup ip rl'.blocked ≡ some until)
            ↔ ((lookup ip rl.blocked ≡ some until) × (now ≤ until)))
        × ((ip : String) (b : TokenBucket F)
            → (lookup ip rl'.buckets ≡ some b)
              ↔ ((lookup ip rl.buckets ≡ some b) × (now ≤ b.last_update + 3600000000000)))
  unfolding cleanup has_expired is_unused
  lookup-cleanup now rl kb kt = (
    λ ip until. (
      λ h. (
        ground (arith, lookup-delete_where (has_expired now) ip rl.blocked kb),
        ground (arith, lookup-delete_where (has_expired now) ip rl.blocked kb),
      ),
      λ h. delete_where-keeps (has_expired now) ip until rl.blocked h.0 (ground (arith, h.1)),
    ),
    λ ip b. (
      λ h. (
        ground (arith, lookup-delete_where (is_unused now) ip rl.buckets kt),
        ground (arith, lookup-delete_where (is_unused now) ip rl.buckets kt),
      ),
      λ h. delete_where-keeps (is_unused now) ip b rl.buckets h.0 (ground (arith, h.1)),
    ),
  )
