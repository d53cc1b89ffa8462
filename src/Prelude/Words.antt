-- ===== src/Prelude/Words.antt =====
-- Cutting texts into words: `strings.Contains`, `Index`, `SplitN` and `Fields`, and what they give
-- for a text that is known in parts.
use Prim.Native.Nat.{ℕ, ◌≤◌, ◌<◌}
use mathlib.Core.Path.{◌≡◌, refl, ap}
use mathlib.Core.Logic.{◌↔◌, ◌≢◌, inl, inr}
use mathlib.Core.Bool.{true, false}
use mathlib.Core.Option.{Option, none, some}
use mathlib.Core.List.{List, [], ◌∷◌, ◌++◌}
use native.Mathlib.Omega.{arith}
use vcdeploy.Prelude.Tests.{◌==◌, Bool-cases, Option-cases, if◌then◌else◌}
use vcdeploy.Prelude.Lists.{length, length-drop-le, drop, All}
use vcdeploy.Prelude.Texts.{
  Text, codes, has_prefix, has_prefix_iff, contains, is_space, trim_left, trim_right, trim_space,
}

abbrev push_front : ℕ → Option (Text × Text) → Option (Text × Text)
push_front c none = none
push_front c (some (a, b)) = some (c ∷ a, b)

-- What stands before and after the first occurrence of a text, `none` if there is none.
unfoldable pub cut : Text → Text → Option (Text × Text)
unfolding has_prefix
cut [] t = if has_prefix [] t then some ([], []) else none
cut (c ∷ s) t =
    let rest = push_front c (cut s t) in
    if has_prefix (c ∷ s) t then some ([], drop (length t) (c ∷ s)) else rest

abbrev prepend : ℕ → List Text → List Text
prepend c [] = (c ∷ []) ∷ []
prepend c (w ∷ ws) = (c ∷ w) ∷ ws

abbrev grow : ℕ → Text → List Text → List Text
grow c [] ws = (c ∷ []) ∷ ws
grow c (d ∷ s) ws = if is_space d then (c ∷ []) ∷ ws else prepend c ws

-- `strings.Fields(s)`
unfoldable pub fields : Text → List Text
unfolding is_space
fields [] = []
fields (c ∷ s) = let ws = fields s in if is_space c then ws else grow c s ws

contains_sound : (s t : Text) → contains s t ≡ true → (a b : Text) × (s ≡ a ++ (t ++ b))
unfolding contains
contains_sound [] t h = let (r, e) = (has_prefix_iff [] t).0 h in ([], r, e)
contains_sound (c ∷ s) t h = elim (Bool-cases (has_prefix (c ∷ s) t)) [
  | inl e ↦ let (r, q) = (has_prefix_iff (c ∷ s) t).0 e in ([], r, q)
  | inr e ↦ let (a, b, q) = contains_sound s t (ground arith) in (c ∷ a, b, ap (λ x. c ∷ x) q)
]

contains_of_prefix : (s t : Text) → has_prefix s t ≡ true → contains s t ≡ true
unfolding contains
contains_of_prefix [] t h = h
contains_of_prefix (c ∷ s) t h = ground arith

contains_complete : (a t b : Text) → contains (a ++ (t ++ b)) t ≡ true
unfolding contains
contains_complete [] t b = contains_of_prefix (t ++ b) t ((has_prefix_iff (t ++ b) t).1 (b, refl))
contains_complete (c ∷ a) t b = ground (arith, contains_complete a t b)

-- A text contains another exactly when it is a text, the other and a text.
pub contains_iff : (s t : Text) → (contains s t ≡ true) ↔ ((a b : Text) × (s ≡ a ++ (t ++ b)))
contains_iff s t = (contains_sound s t, λ x. rw x.2 (contains_complete x.0 t x.1))

-- A text with no white space, and one with no given character.
abbrev pub IsPlain : Text → Type 0
IsPlain = All (λ c. is_space c ≡ false)

abbrev pub Lacks : ℕ → Text → Type 0
Lacks d = All (λ c. c ≢ d)

pub contains-Lacks : (d : ℕ) (s : Text) → Lacks d s → contains s (d ∷ []) ≡ false
unfolding contains has_prefix
contains-Lacks d [] h = refl
contains-Lacks d (c ∷ s) h = ground (arith, contains-Lacks d s h.1, h.0)

IsPlain-Lacks : (s : Text) → IsPlain s → Lacks 32 s
unfolding is_space
IsPlain-Lacks [] h = tt
IsPlain-Lacks (c ∷ s) h = ((λ e. ground (arith, h.0)), IsPlain-Lacks s h.1)

pub cut-Lacks : (d : ℕ) (s : Text) → Lacks d s → cut s (d ∷ []) ≡ none
unfolding cut has_prefix
cut-Lacks d [] h = refl
cut-Lacks d (c ∷ s) h = ground (arith, cut-Lacks d s h.1, h.0)

pub cut_at_first : (d : ℕ) (s r : Text) → Lacks d s → cut (s ++ d ∷ r) (d ∷ []) ≡ some (s, r)
unfolding cut has_prefix
cut_at_first d [] [] h = ground arith
cut_at_first d [] (c ∷ r) h = ground arith
cut_at_first d (c ∷ s) r h = ground (arith, cut_at_first d s r h.1, h.0)

pub cut_space_plain : (s : Text) → IsPlain s → cut s (codes " ") ≡ none
cut_space_plain s h = cut-Lacks 32 s (IsPlain-Lacks s h)

pub cut_after_plain : (s r : Text) → IsPlain s → cut (s ++ 32 ∷ r) (codes " ") ≡ some (s, r)
cut_after_plain s r h = cut_at_first 32 s r (IsPlain-Lacks s h)

trim_right-IsPlain : (s : Text) → IsPlain s → trim_right s ≡ s
unfolding trim_right
trim_right-IsPlain [] h = refl
trim_right-IsPlain (c ∷ s) h = rw (trim_right-IsPlain s h.1) (last c s h.0)
  where
    last :
        (c : ℕ) (s : Text)
        → is_space c ≡ false
        → elim s [ [] ↦ if is_space c then [] else c ∷ [] | d ∷ r ↦ c ∷ d ∷ r ] ≡ c ∷ s
    last c [] p = rw p refl
    last c (d ∷ r) p = refl

trim_left-IsPlain : (s : Text) → IsPlain s → trim_left s ≡ s
unfolding trim_left
trim_left-IsPlain [] h = refl
trim_left-IsPlain (c ∷ s) h = rw h.0 refl

pub trim_space-IsPlain : (s : Text) → IsPlain s → trim_space s ≡ s
unfolding trim_space
trim_space-IsPlain s h = rw (trim_left-IsPlain s h) (trim_right-IsPlain s h)

pub fields-IsPlain : (c : ℕ) (s : Text) → IsPlain (c ∷ s) → fields (c ∷ s) ≡ (c ∷ s) ∷ []
unfolding fields
fields-IsPlain c [] h = rw h.0 refl
fields-IsPlain c (d ∷ s) h = rw (h.0, fields-IsPlain d s h.1) (rw h.1.0 refl)

length-trim_left : (s : Text) → length (trim_left s) ≤ length s
unfolding trim_left
length-trim_left [] = omega arith
length-trim_left (c ∷ s) = ground (arith, length-trim_left s)

length-trim_right : (s : Text) → length (trim_right s) ≤ length s
unfolding trim_right
length-trim_right [] = omega arith
length-trim_right (c ∷ s) = ground (arith, length-trim_right s)

pub length-trim_space : (s : Text) → length (trim_space s) ≤ length s
unfolding trim_space
length-trim_space s = omega (arith, length-trim_left s, length-trim_right (trim_left s))

-- What follows a nonempty separator is shorter than the text.
pub length-cut : (s t a b : Text) → 0 < length t → cut s t ≡ some (a, b) → length b < length s
unfolding cut has_prefix
length-cut s [] a b h e = absurd (omega arith)
length-cut [] (d ∷ t) a b h e = absurd (ground arith)
length-cut (c ∷ s) (d ∷ t) a b h e = elim (Bool-cases (has_prefix (c ∷ s) (d ∷ t))) [
  | inl p ↦
      let same : drop (length t) s ≡ b = ground arith in
      omega (arith, length-drop-le (length t) s, ap length same)
  | inr p ↦ elim (Option-cases (cut s (d ∷ t))) [
    | inl q ↦ absurd (ground arith)
    | inr ((a', b'), q) ↦
        let same : b' ≡ b = ground arith in
        omega (arith, length-cut s (d ∷ t) a' b' h q, ap length same)
  ]
]

-- `strings.Split(s, sep)` for a separator of one character.
unfoldable pub split_on : ℕ → Text → List Text
split_on d [] = [] ∷ []
split_on d (c ∷ s) = elim (split_on d s) [
  | [] ↦ [] ∷ []
  | w ∷ ws ↦ if c == d then [] ∷ w ∷ ws else (c ∷ w) ∷ ws
]
