-- ===== src/Prelude/Int.antt =====
-- Go's `int`, a 64-bit signed integer, and the functions of package `strconv` on it.
use Prim.Native.Nat.{ℕ, zero, suc, ◌+◌, ◌-◌, ◌*◌, ◌^◌, ◌<◌}
use mathlib.Core.Path.{◌≡◌}
use mathlib.Core.Logic.{inl, inr}
use mathlib.Core.Bool.{Bool, true, false, ◌&&◌}
use mathlib.Core.Option.{Option, none, some}
use mathlib.Core.List.{[], ◌∷◌}
use native.Mathlib.Omega.{arith}
use vcdeploy.Prelude.Tests.{ltb, leb, ◌==◌, Bool-cases, if◌then◌else◌}
use vcdeploy.Prelude.Texts.{Text}

-- `negsuc n` is -(n + 1).
pub data ℤ : Type 0 where
  pos : ℕ → ℤ
  negsuc : ℕ → ℤ

-- The first number that an `int` cannot hold, and the number of values of an `int`.
abbrev pub int_limit : ℕ
int_limit = 2 ^ 63

abbrev pub int_values : ℕ
int_values = 2 ^ 64

abbrev pub leb_int : ℤ → ℤ → Bool
leb_int (pos a) (pos b) = leb a b
leb_int (pos a) (negsuc b) = false
leb_int (negsuc a) (pos b) = true
leb_int (negsuc a) (negsuc b) = leb b a

abbrev pub eq_int : ℤ → ℤ → Bool
eq_int (pos a) (pos b) = a == b
eq_int (negsuc a) (negsuc b) = a == b
eq_int _ _ = false

-- `i + s` for a step that is not negative: past the largest `int` the sum wraps around.
unfoldable pub add_int : ℤ → ℕ → ℤ
add_int (pos n) s = if ltb (n + s) int_limit then pos (n + s) else negsuc (int_values - (n + s) - 1)
add_int (negsuc n) s = if ltb n s then pos (s - n - 1) else negsuc (n - s)

unfoldable pub is_digit : ℕ → Bool
is_digit c = leb b'0' c && leb c b'9'

-- The value of decimal digits, `none` at another character.
unfoldable pub digits_value : ℕ → Text → Option ℕ
unfolding is_digit
digits_value acc [] = some acc
digits_value acc (c ∷ s) =
    let rest = digits_value (acc * 10 + (c - b'0')) s in if is_digit c then rest else none

unfoldable pub unsigned : Text → Option ℕ
unfolding digits_value
unsigned [] = none
unsigned (c ∷ s) = digits_value 0 (c ∷ s)

abbrev in_range : Option ℕ → Option ℤ
in_range none = none
in_range (some n) = if ltb n int_limit then some (pos n) else none

abbrev in_range_negative : Option ℕ → Option ℤ
in_range_negative none = none
in_range_negative (some zero) = some (pos 0)
in_range_negative (some (suc n)) = if ltb n int_limit then some (negsuc n) else none

-- `strconv.Atoi(s)`: a sign or none, and digits, within the range of an `int`.
unfoldable pub atoi : Text → Option ℤ
unfolding unsigned
atoi [] = none
atoi (c ∷ s) =
    if c == b'-'
    then in_range_negative (unsigned s)
    else if c == b'+'
    then in_range (unsigned s)
    else in_range (unsigned (c ∷ s))

in_range-lt : (o : Option ℕ) (n : ℕ) → in_range o ≡ some (pos n) → n < int_limit
in_range-lt none n h = absurd (ground arith)
in_range-lt (some m) n h = ground arith

in_range_negative-lt : (o : Option ℕ) (n : ℕ) → in_range_negative o ≡ some (pos n) → n < int_limit
in_range_negative-lt none n h = absurd (ground arith)
in_range_negative-lt (some zero) n h = ground arith
in_range_negative-lt (some (suc m)) n h = absurd (ground arith)

-- A number that is read and is not negative fits an `int`.
pub atoi-lt-int_limit : (s : Text) (n : ℕ) → atoi s ≡ some (pos n) → n < int_limit
unfolding atoi
atoi-lt-int_limit [] n h = absurd (ground arith)
atoi-lt-int_limit (c ∷ s) n h = elim (Bool-cases (c == b'-')) [
  | inl e ↦ in_range_negative-lt (unsigned s) n (rw e at h)
  | inr e ↦ elim (Bool-cases (c == b'+')) [
    | inl p ↦ in_range-lt (unsigned s) n (rw (e, p) at h)
    | inr p ↦ in_range-lt (unsigned (c ∷ s)) n (rw (e, p) at h)
  ]
]

abbrev nearest : Option ℕ → ℤ
nearest none = pos 0
nearest (some n) = if ltb n int_limit then pos n else pos (int_limit - 1)

abbrev nearest_negative : Option ℕ → ℤ
nearest_negative none = pos 0
nearest_negative (some zero) = pos 0
nearest_negative (some (suc n)) = if ltb n int_limit then negsuc n else negsuc (int_limit - 1)

-- The number that `strconv.Atoi(s)` returns, also beside an error: 0 where `s` is no number, and the
-- nearest int where it is out of range.
unfoldable pub atoi_value : Text → ℤ
unfolding unsigned
atoi_value [] = pos 0
atoi_value (c ∷ s) =
    if c == b'-'
    then nearest_negative (unsigned s)
    else if c == b'+'
    then nearest (unsigned s)
    else nearest (unsigned (c ∷ s))
