-- ===== src/Deploy/Symlink/Scan.antt =====
-- internal/deploy/executor.go: the numbers that it reads by `%d` of package fmt, and prints by it.
use vcdeploy.Prelude.{
  suc, ◌||◌, ◌&&◌, not, is_space, Option, none, some, [], ◌∷◌, if◌then◌else◌, ◌==◌, Text, decimal,
  atoi, is_digit, ℤ, pos, negsuc,
}

-- `%d` of an int.
unfoldable pub decimal_int : ℤ → Text
unfolding decimal
decimal_int (pos n) = decimal n
decimal_int (negsuc n) = b'-' ∷ decimal (suc n)

-- White space but newlines, as `Sscanf` skips it.
unfoldable pub skip_blanks : Text → Text
unfolding is_space
skip_blanks [] = []
skip_blanks (c ∷ s) =
    let rest = skip_blanks s in if is_space c && not (c == 10) then rest else c ∷ s

unfoldable pub digits_of : Text → Text
unfolding is_digit
digits_of [] = []
digits_of (c ∷ s) = let rest = digits_of s in if is_digit c then c ∷ rest else []

-- A sign or none, and the digits after it.
unfoldable pub number_of : Text → Text
unfolding digits_of
number_of [] = []
number_of (c ∷ s) =
    let rest = digits_of s in if c == b'-' || c == b'+' then c ∷ rest else digits_of (c ∷ s)

abbrev or_zero : Option ℤ → ℤ
or_zero none = pos 0
or_zero (some n) = n

-- What `Sscanf(s, "%d", &n)` leaves in an `n` that was zero.
unfoldable pub scan_int : Text → ℤ
unfolding skip_blanks number_of atoi
scan_int s = or_zero (atoi (number_of (skip_blanks s)))
