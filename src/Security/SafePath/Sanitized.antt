-- ===== src/Security/SafePath/Sanitized.antt =====
-- internal/security/safepath.go: the loop of SanitizePath.
use vcdeploy.Prelude.{
  ℕ, zero, suc, ◌≤◌, ◌<◌, ◌≡◌, refl, true, false, ◌&&◌, [], ◌∷◌, inl, inr, Bool-cases, arith, Text,
  has_prefix, contains, length, ◌==◌,
}
use vcdeploy.Security.SafePath.{dot_dot, drop_dots, drop_all_dots}

length-drop_dots : (s : Text) → length (drop_dots s) ≤ length s
unfolding drop_dots
length-drop_dots [] = omega arith
length-drop_dots (c ∷ []) = omega arith
length-drop_dots (c ∷ d ∷ s) = elim (Bool-cases (c == b'.' && d == b'.')) [
  | inl e ↦ rw e (omega (arith, length-drop_dots s))
  | inr e ↦ rw e (omega (arith, length-drop_dots (d ∷ s)))
]

-- A round over a text that holds `..` shortens it.
drop_dots_shortens : (s : Text) → contains s dot_dot ≡ true → length (drop_dots s) < length s
unfolding drop_dots contains has_prefix
drop_dots_shortens [] h = absurd (ground arith)
drop_dots_shortens (c ∷ []) h = absurd (ground arith)
drop_dots_shortens (c ∷ d ∷ s) h = elim (Bool-cases (c == b'.' && d == b'.')) [
  | inl e ↦ rw e (omega (arith, length-drop_dots s))
  | inr e ↦ rw e (omega (arith, drop_dots_shortens (d ∷ s) (onward e)))
]
  where
    onward : (c == b'.' && d == b'.') ≡ false → contains (d ∷ s) dot_dot ≡ true
    onward e = ground arith

-- The loop of `sanitize_path` ends by its own test: with fuel for the length of the text, what is left
-- holds no `..`.
pub drop_all_dots_enough :
    (fuel : ℕ) (s : Text) → length s ≤ fuel → contains (drop_all_dots fuel s) dot_dot ≡ false
unfolding drop_all_dots contains has_prefix
drop_all_dots_enough zero [] h = refl
drop_all_dots_enough zero (c ∷ s) h = absurd (ground arith)
drop_all_dots_enough (suc fuel) s h = elim (Bool-cases (contains s dot_dot)) [
  | inl e ↦ rw e (drop_all_dots_enough fuel (drop_dots s) (omega (arith, drop_dots_shortens s e)))
  | inr e ↦ rw e e
]
