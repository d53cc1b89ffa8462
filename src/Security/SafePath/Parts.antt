-- ===== src/Security/SafePath/Parts.antt =====
-- internal/security/safepath.go: the parts of a cleaned path.
use vcdeploy.Prelude.{
  ◌≡◌, refl, ap, Bool, true, false, ◌||◌, ◌⊎◌, List, [], ◌∷◌, ◌++◌, inl, inr, Bool-cases, arith,
  All, Text, text_eq, text_eq_iff, has_prefix, codes,
}
use vcdeploy.Security.SafePath.{dot_dot, back, clean_parts, join_onto, render}

abbrev pub IsNotDots : Text → Type 0
IsNotDots p = text_eq p dot_dot ≡ false

-- A `..` has only `..` before it; the last part comes first.
abbrev pub DotsLead : List Text → Type 0
DotsLead [] = Unit {0}
DotsLead (p ∷ []) = Unit {0}
DotsLead (p ∷ q ∷ out) =
    ((text_eq p dot_dot ≡ false) ⊎ (text_eq q dot_dot ≡ true)) × DotsLead (q ∷ out)

DotsLead-tail : (p : Text) (out : List Text) → DotsLead (p ∷ out) → DotsLead out
DotsLead-tail p [] h = tt
DotsLead-tail p (q ∷ out) h = h.1

push-DotsLead : (p : Text) (out : List Text) → IsNotDots p → DotsLead out → DotsLead (p ∷ out)
push-DotsLead p [] n h = tt
push-DotsLead p (q ∷ out) n h = (inl n, h)

back-All : (out : List Text) → All IsNotDots out → All IsNotDots (back true out)
unfolding back
back-All [] h = tt
back-All (o ∷ out) h = rw h.0 h.1

-- The parts of a path from the root hold no `..`.
pub clean_parts-All :
    (ps out : List Text) → All IsNotDots out → All IsNotDots (clean_parts true out ps)
unfolding clean_parts
clean_parts-All [] out h = h
clean_parts-All (p ∷ ps) out h =
    clean_parts-All ps _ (elim (Bool-cases (text_eq p [] || text_eq p (b'.' ∷ []))) [
      | inl e ↦ rw e h
      | inr e ↦ elim (Bool-cases (text_eq p dot_dot)) [
        | inl d ↦ rw (e, d) (back-All out h)
        | inr d ↦ rw (e, d) (d, h)
      ]
    ])

back-DotsLead : (out : List Text) → DotsLead out → DotsLead (back false out)
unfolding back
back-DotsLead [] h = tt
back-DotsLead (o ∷ out) h = elim (Bool-cases (text_eq o dot_dot)) [
  | inl e ↦ rw e (inr e, h)
  | inr e ↦ rw e (DotsLead-tail o out h)
]

-- The parts of a relative path hold `..` only at its start.
pub clean_parts-DotsLead : (ps out : List Text) → DotsLead out → DotsLead (clean_parts false out ps)
unfolding clean_parts
clean_parts-DotsLead [] out h = h
clean_parts-DotsLead (p ∷ ps) out h =
    clean_parts-DotsLead ps _ (elim (Bool-cases (text_eq p [] || text_eq p (b'.' ∷ []))) [
      | inl e ↦ rw e h
      | inr e ↦ elim (Bool-cases (text_eq p dot_dot)) [
        | inl d ↦ rw (e, d) (back-DotsLead out h)
        | inr d ↦ rw (e, d) (push-DotsLead p out d h)
      ]
    ])

-- The first part of a path is `..`.
unfoldable pub opens_with_dots : List Text → Bool
opens_with_dots [] = false
opens_with_dots (p ∷ []) = text_eq p dot_dot
opens_with_dots (p ∷ q ∷ out) = opens_with_dots (q ∷ out)

dots_below :
    (p : Text) (out : List Text)
    → DotsLead (p ∷ out)
    → text_eq p dot_dot ≡ true
    → opens_with_dots (p ∷ out) ≡ true
unfolding opens_with_dots
dots_below p [] h e = e
dots_below p (q ∷ out) (inl n, h) e = absurd (ground arith)
dots_below p (q ∷ out) (inr d, h) e = dots_below q out h d

-- Where the first part is not `..`, none is.
pub none_is_dots :
    (out : List Text) → DotsLead out → opens_with_dots out ≡ false → All IsNotDots out
unfolding opens_with_dots
none_is_dots [] h e = tt
none_is_dots (p ∷ []) h e = (e, tt)
none_is_dots (p ∷ q ∷ out) h e = elim (Bool-cases (text_eq p dot_dot)) [
  | inl d ↦ absurd (ground (arith, dots_below p (q ∷ out) h d))
  | inr d ↦ (d, none_is_dots (q ∷ out) h.1 e)
]

abbrev Follows : Text → Text → Type 0
Follows s t = (t ≡ s) ⊎ ((u : Text) × (t ≡ b'/' ∷ u))

join_onto_dots :
    (out : List Text) (s : Text)
    → opens_with_dots out ≡ true
    → (t : Text) × (join_onto out s ≡ dot_dot ++ t) × Follows s t
unfolding opens_with_dots join_onto
join_onto_dots [] s e = absurd (ground arith)
join_onto_dots (p ∷ []) s e = (s, ap (λ x. x ++ s) ((text_eq_iff p dot_dot).0 e), inl refl)
join_onto_dots (p ∷ q ∷ out) s e =
    let (t, j, f) = join_onto_dots (q ∷ out) (b'/' ∷ (p ++ s)) e in
    (t, j, elim f [ inl g ↦ inr (p ++ s, g) | inr g ↦ inr g ])

-- The text of a relative path whose first part is `..`.
pub render_dots :
    (out : List Text)
    → opens_with_dots out ≡ true
    → (has_prefix (render false out) (dot_dot ++ codes "/") || text_eq (render false out) dot_dot)
      ≡ true
unfolding render has_prefix text_eq opens_with_dots
render_dots [] e = absurd (ground arith)
render_dots (p ∷ out) e =
    let (t, j, f) = join_onto_dots (p ∷ out) [] e in
    rw j (elim f [ inl g ↦ rw g refl | inr (u, g) ↦ rw g refl ])
