-- ===== src/Prelude/Texts.antt =====
-- Texts that the program scans, as lists of character codes, with the functions of Go's package
-- `strings` that it calls. Texts that it only compares are native strings.
use Prim.Native.Nat.{ℕ, zero, suc, ◌+◌, ◌/◌, ◌%◌, ◌<◌}
use Prim.Native.Char.{code}
use Prim.Native.String.{String}
use mathlib.Core.Path.{◌≡◌, refl, ap}
use mathlib.Core.Logic.{◌↔◌, inl, inr}
use mathlib.Core.Bool.{Bool, true, false, ◌&&◌, ◌||◌}
use mathlib.Core.List.{List, [], ◌∷◌, ◌++◌}
use native.Mathlib.Omega.{arith}
use vcdeploy.Prelude.Tests.{ltb, leb, ◌==◌, Bool-cases, if◌then◌else◌}
use vcdeploy.Prelude.Lists.{length, length-append}

abbrev pub Text : Type 0
Text = List ℕ

-- The codes of a literal.
abbrev pub codes : String → Text
codes String.[] = []
codes (String.◌∷◌ c s) = code c ∷ codes s

-- `s == t`
unfoldable pub text_eq : Text → Text → Bool
text_eq [] [] = true
text_eq (a ∷ s) (b ∷ t) = a == b && text_eq s t
text_eq _ _ = false

-- `strings.HasPrefix(s, p)`
unfoldable pub has_prefix : Text → Text → Bool
has_prefix s [] = true
has_prefix [] (b ∷ p) = false
has_prefix (a ∷ s) (b ∷ p) = a == b && has_prefix s p

-- `strings.Contains(s, t)`
unfoldable pub contains : Text → Text → Bool
unfolding has_prefix
contains [] t = has_prefix [] t
contains (a ∷ s) t = has_prefix (a ∷ s) t || contains s t

-- `unicode.IsSpace`
unfoldable pub is_space : ℕ → Bool
is_space c =
    (leb 9 c && leb c 13)
    || c == 32
    || c == 0x85
    || c == 0xA0
    || c == 0x1680
    || (leb 0x2000 c && leb c 0x200a)
    || c == 0x2028
    || c == 0x2029
    || c == 0x202f
    || c == 0x205f
    || c == 0x3000

unfoldable pub trim_left : Text → Text
unfolding is_space
trim_left [] = []
trim_left (c ∷ s) = let rest = trim_left s in if is_space c then rest else c ∷ s

unfoldable pub trim_right : Text → Text
unfolding is_space
trim_right [] = []
trim_right (c ∷ s) = elim (trim_right s) [
  | [] ↦ if is_space c then [] else c ∷ []
  | d ∷ r ↦ c ∷ d ∷ r
]

-- `strings.TrimSpace(s)`
unfoldable pub trim_space : Text → Text
unfolding trim_left trim_right
trim_space s = trim_right (trim_left s)

pub text_eq_refl : (s : Text) → text_eq s s ≡ true
unfolding text_eq
text_eq_refl [] = refl
text_eq_refl (a ∷ s) = ground (arith, text_eq_refl s)

text_eq_sound : (s t : Text) → text_eq s t ≡ true → s ≡ t
unfolding text_eq
text_eq_sound [] [] h = refl
text_eq_sound [] (b ∷ t) h = ground arith
text_eq_sound (a ∷ s) [] h = ground arith
text_eq_sound (a ∷ s) (b ∷ t) h = ground (arith, text_eq_sound s t)

pub text_eq_iff : (s t : Text) → (text_eq s t ≡ true) ↔ (s ≡ t)
text_eq_iff s t = (text_eq_sound s t, λ p. rw p (text_eq_refl t))

-- `strings.HasSuffix(s, t)`
unfoldable pub has_suffix : Text → Text → Bool
unfolding text_eq
has_suffix [] t = text_eq [] t
has_suffix (c ∷ s) t = text_eq (c ∷ s) t || has_suffix s t

-- `strings.TrimSuffix(s, t)`
unfoldable pub trim_suffix : Text → Text → Text
unfolding text_eq
trim_suffix [] t = []
trim_suffix (c ∷ s) t = let rest = trim_suffix s t in if text_eq (c ∷ s) t then [] else c ∷ rest

-- `strings.Split(s, "\n")[0]`
unfoldable pub first_line : Text → Text
first_line [] = []
first_line (c ∷ s) = let rest = first_line s in if c == 10 then [] else c ∷ rest

abbrev pub decimal_from : ℕ → ℕ → Text → Text
decimal_from zero n acc = acc
decimal_from (suc f) n acc =
    let more = decimal_from f (n / 10) ((b'0' + n % 10) ∷ acc) in
    if ltb n 10 then (b'0' + n) ∷ acc else more

-- `%d` of a number that is not negative. A number has no more digits than it counts, so the fuel
-- lasts.
unfoldable pub decimal : ℕ → Text
decimal n = decimal_from (suc n) n []

-- One text begins with another exactly when it is that text and a rest.
has_prefix_sound : (s p : Text) → has_prefix s p ≡ true → (r : Text) × (s ≡ p ++ r)
unfolding has_prefix
has_prefix_sound s [] h = (s, refl)
has_prefix_sound [] (b ∷ p) h = absurd (ground arith)
has_prefix_sound (a ∷ s) (b ∷ p) h =
    let (r, e) = has_prefix_sound s p (ground arith) in (r, ground arith)

has_prefix-append : (p r : Text) → has_prefix (p ++ r) p ≡ true
unfolding has_prefix
has_prefix-append [] [] = refl
has_prefix-append [] (c ∷ r) = refl
has_prefix-append (a ∷ p) r = ground (arith, has_prefix-append p r)

pub has_prefix_iff : (s p : Text) → (has_prefix s p ≡ true) ↔ ((r : Text) × (s ≡ p ++ r))
has_prefix_iff s p = (has_prefix_sound s p, λ x. rw x.1 (has_prefix-append p x.0))

pub has_suffix_sound : (s t : Text) → has_suffix s t ≡ true → s ≡ trim_suffix s t ++ t
unfolding has_suffix trim_suffix
has_suffix_sound [] t h = text_eq_sound [] t h
has_suffix_sound (c ∷ s) t h = ground (arith, has_suffix_sound s t, text_eq_sound (c ∷ s) t)

text_eq-longer : (c : ℕ) (q t : Text) → text_eq (c ∷ q ++ t) t ≡ false
text_eq-longer c q t = elim (Bool-cases (text_eq (c ∷ q ++ t) t)) [
  | inl e ↦
      absurd (omega (arith, ap length (text_eq_sound (c ∷ q ++ t) t e), length-append (c ∷ q) t))
  | inr e ↦ e
]

pub has_suffix-append : (q t : Text) → has_suffix (q ++ t) t ≡ true
unfolding has_suffix
has_suffix-append [] [] = refl
has_suffix-append [] (b ∷ t) = ground (arith, text_eq_refl (b ∷ t))
has_suffix-append (c ∷ q) t = ground (arith, has_suffix-append q t)

pub trim_suffix-append : (q t : Text) → trim_suffix (q ++ t) t ≡ q
unfolding trim_suffix
trim_suffix-append [] [] = refl
trim_suffix-append [] (b ∷ t) = ground (arith, text_eq_refl (b ∷ t))
trim_suffix-append (c ∷ q) t = ground (arith, trim_suffix-append q t, text_eq-longer c q t)

-- Any fuel above the number gives the same digits.
pub decimal_enough :
    (f g n : ℕ) (acc : Text) → n < f → n < g → decimal_from f n acc ≡ decimal_from g n acc
decimal_enough zero g n acc h k = absurd (omega arith)
decimal_enough (suc f) zero n acc h k = absurd (omega arith)
decimal_enough (suc f) (suc g) n acc h k =
    ground (arith, decimal_enough f g (n / 10) ((b'0' + n % 10) ∷ acc))
