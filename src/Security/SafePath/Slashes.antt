-- ===== src/Security/SafePath/Slashes.antt =====
-- internal/security/safepath.go: the parts of a path hold no slash.
use vcdeploy.Prelude.{
  ℕ, ◌≡◌, refl, Bool, false, ◌||◌, ◌⊎◌, List, [], ◌∷◌, ◌++◌, inl, inr, Bool-cases, arith, All,
  if◌then◌else◌, Text, text_eq, has_prefix, codes, split_on, Lacks, ◌==◌,
}
use vcdeploy.Security.SafePath.{dot_dot, back, clean_parts, join_onto, render}
use vcdeploy.Security.SafePath.Parts.{IsNotDots}

abbrev split_step : ℕ → ℕ → List Text → List Text
split_step d c [] = [] ∷ []
split_step d c (w ∷ ws) = if c == d then [] ∷ w ∷ ws else (c ∷ w) ∷ ws

split_step-Lacks : (d c : ℕ) (ws : List Text) → All (Lacks d) ws → All (Lacks d) (split_step d c ws)
split_step-Lacks d c [] h = (tt, tt)
split_step-Lacks d c (w ∷ ws) h = elim (Bool-cases (c == d)) [
  | inl e ↦ rw e (tt, (h.0, h.1))
  | inr e ↦ rw e (((λ q. absurd (ground arith)), h.0), h.1)
]

-- The pieces of a split lack what it splits at.
split_on-Lacks : (d : ℕ) (s : Text) → All (Lacks d) (split_on d s)
unfolding split_on
split_on-Lacks d [] = (tt, tt)
split_on-Lacks d (c ∷ s) = split_step-Lacks d c (split_on d s) (split_on-Lacks d s)

dots-Lacks : Lacks b'/' dot_dot
dots-Lacks = ((λ q. absurd (ground arith)), ((λ q. absurd (ground arith)), tt))

back-Lacks :
    (rooted : Bool) (out : List Text) → All (Lacks b'/') out → All (Lacks b'/') (back rooted out)
unfolding back
back-Lacks rooted [] h = elim (Bool-cases rooted) [
  | inl e ↦ rw e tt
  | inr e ↦ rw e (dots-Lacks, tt)
]
back-Lacks rooted (o ∷ out) h = elim (Bool-cases (text_eq o dot_dot)) [
  | inl e ↦ rw e (dots-Lacks, h)
  | inr e ↦ rw e h.1
]

clean_parts-Lacks :
    (rooted : Bool) (ps out : List Text)
    → All (Lacks b'/') ps
    → All (Lacks b'/') out
    → All (Lacks b'/') (clean_parts rooted out ps)
unfolding clean_parts
clean_parts-Lacks rooted [] out h k = k
clean_parts-Lacks rooted (p ∷ ps) out h k =
    clean_parts-Lacks rooted ps _ h.1 (elim (Bool-cases (text_eq p [] || text_eq p (b'.' ∷ []))) [
      | inl e ↦ rw e k
      | inr e ↦ elim (Bool-cases (text_eq p dot_dot)) [
        | inl d ↦ rw (e, d) (back-Lacks rooted out k)
        | inr d ↦ rw (e, d) (h.0, k)
      ]
    ])

pub parts-Lacks :
    (rooted : Bool) (path : Text) → All (Lacks b'/') (clean_parts rooted [] (split_on b'/' path))
parts-Lacks rooted path =
    clean_parts-Lacks rooted (split_on b'/' path) [] (split_on-Lacks b'/' path) tt

abbrev Ends : Text → Type 0
Ends t = (t ≡ []) ⊎ ((u : Text) × (t ≡ b'/' ∷ u))

abbrev opens_upwards : Text → Bool
opens_upwards s = has_prefix s (dot_dot ++ codes "/") || text_eq s dot_dot

-- A first part that is not `..`, up to a slash or the end.
plain_part : (q t : Text) → IsNotDots q → Lacks b'/' q → Ends t → opens_upwards (q ++ t) ≡ false
unfolding has_prefix text_eq
plain_part [] _ n l (inl e) = rw e refl
plain_part [] _ n l (inr (u, e)) = rw e refl
plain_part (a ∷ []) _ n l (inl e) = rw e (ground arith)
plain_part (a ∷ []) _ n l (inr (u, e)) = rw e (ground arith)
plain_part (a ∷ b ∷ []) _ n l (inl e) = rw e (ground arith)
plain_part (a ∷ b ∷ []) _ n l (inr (u, e)) = rw e (ground arith)
plain_part (a ∷ b ∷ c ∷ q) t n l e =
    let other : (c == b'/') ≡ false = ground (arith, l.1.1.0) in ground arith

first_part :
    (p : Text) (out : List Text) (s : Text)
    → All IsNotDots (p ∷ out)
    → All (Lacks b'/') (p ∷ out)
    → Ends s
    → (q : Text) × (t : Text) × (join_onto (p ∷ out) s ≡ q ++ t)
      × IsNotDots q
      × Lacks b'/' q
      × Ends t
unfolding join_onto
first_part p [] s n l e = (p, s, refl, n.0, l.0, e)
first_part p (q ∷ out) s n l e = first_part q out (b'/' ∷ (p ++ s)) n.1 l.1 (inr (p ++ s, refl))

-- A relative path of which no part is `..` does not begin with one as a text.
pub render_plain :
    (out : List Text)
    → All IsNotDots out
    → All (Lacks b'/') out
    → (has_prefix (render false out) (dot_dot ++ codes "/") || text_eq (render false out) dot_dot)
      ≡ false
unfolding render has_prefix text_eq
render_plain [] n l = refl
render_plain (p ∷ out) n l =
    let (q, t, j, n', l', e) = first_part p out [] n l (inl refl) in rw j (plain_part q t n' l' e)
