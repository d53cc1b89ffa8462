-- ===== src/Server/RateLimiter/Numbers.antt =====
-- Go's float64, as far as internal/server/ratelimit.go uses it.
use vcdeploy.Prelude.{ℕ, ◌≡◌, Bool, false, ℤ, pos}

-- `seconds` is `Seconds` of a duration, `of_int` the conversion from an int.
pub record Floats : Type 1 where
  pub Float : Type 0
  pub of_int : ℤ → Float
  pub seconds : ℕ → Float
  pub plus : Float → Float → Float
  pub minus : Float → Float → Float
  pub times : Float → Float → Float
  pub less : Float → Float → Bool
  pub at_most : Float → Float → Bool

-- What the comparison of IEEE numbers keeps to, also where an operand is not a number: one less is
-- not above a bound that the number is not above, and what is not above an int is not above what
-- the int is not above.
pub record IsOrdered (fl : Floats) : Type 0 where
  pub minus_one :
      (top x : fl.Float)
      → fl.less top x ≡ false
      → fl.less top (fl.minus x (fl.of_int (pos 1))) ≡ false
  pub through_int :
      (top x : fl.Float) (n : ℤ)
      → fl.less top (fl.of_int n) ≡ false
      → fl.less (fl.of_int n) x ≡ false
      → fl.less top x ≡ false
