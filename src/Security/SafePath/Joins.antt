-- ===== src/Security/SafePath/Joins.antt =====
-- internal/security/safepath.go: what SafeJoin and ValidateRelativePath let through.
use vcdeploy.Prelude.{
  ◌≡◌, ◌≢◌, ◌↔◌, refl, sym, ap, Bool, true, false, not, ◌⊎◌, none, List, [], ◌∷◌, ◌++◌, inl, inr,
  Bool-cases, arith, All, if◌then◌else◌, Text, text_eq, text_eq_iff, has_prefix_iff, codes,
  split_on, Lacks,
}
use vcdeploy.Security.SafePath.{
  ok, err, path_traversal, absolute_path, empty_path, is_abs, clean_parts, render, parts_of, clean,
  join, is_inside, safe_join, validate_relative_path,
}
use mathlib.Core.Path.{subst}
use vcdeploy.Security.SafePath.Slashes.{parts-Lacks, render_plain}
use vcdeploy.Security.SafePath.Parts.{
  IsNotDots, DotsLead, clean_parts-All, clean_parts-DotsLead, opens_with_dots, none_is_dots,
  render_dots,
}

-- A cleaned path from the root goes through its parts: they hold no slash, and none of them is `..`.
pub record GoesDown (path : Text) : Type 0 where
  pub parts : List Text
  pub rendered : path ≡ render true parts
  pub no_slash : All (Lacks b'/') parts
  pub no_dots : All IsNotDots parts

clean-GoesDown : (path : Text) → is_abs path ≡ true → GoesDown (clean path)
unfolding clean is_abs
clean-GoesDown [] h = absurd (ground arith)
clean-GoesDown (c ∷ s) h = record {
  parts = clean_parts true [] (split_on b'/' (c ∷ s));
  rendered = rw h refl;
  no_slash = parts-Lacks true (c ∷ s);
  no_dots = clean_parts-All (split_on b'/' (c ∷ s)) [] tt;
}

GoesDown-is_abs : (path : Text) → GoesDown path → is_abs path ≡ true
unfolding render is_abs
GoesDown-is_abs path g = rw g.rendered refl

is_abs-append : (path t : Text) → is_abs path ≡ true → is_abs (path ++ t) ≡ true
unfolding is_abs
is_abs-append [] t h = absurd (ground arith)
is_abs-append (c ∷ s) t h = h

-- The path is the directory, or it goes on from it with a slash.
abbrev pub Inside : Text → Text → Type 0
Inside base path = (path ≡ base) ⊎ ((r : Text) × (path ++ codes "/" ≡ (base ++ codes "/") ++ r))

is_inside-Inside : (base path : Text) → is_inside base path ≡ true → Inside base path
is_inside-Inside base path h = elim (Bool-cases (text_eq path base)) [
  | inl e ↦ inl ((text_eq_iff path base).0 e)
  | inr e ↦ inr ((has_prefix_iff (path ++ codes "/") (base ++ codes "/")).0 (ground arith))
]

-- What the chain of tests answers with.
joined_ok :
    (b₁ b₂ inside : Bool) (path p : Text)
    → (if b₁
        then err empty_path
        else if b₂
        then err absolute_path
        else if not inside
        then err path_traversal
        else ok path)
      ≡ ok p
    → (inside ≡ true) × (path ≡ p)
joined_ok b₁ b₂ inside path p h = (ground arith, ground arith)

-- A path that `safe_join` answers with, for a base from the root, is the cleaned base or goes on from
-- it with a slash; and it goes from the root through parts that hold no slash and none of which is
-- `..`: it does not leave the base, whatever the other path is.
pub safe_join-Inside :
    (base relative_path path : Text)
    → is_abs base ≡ true
    → safe_join base relative_path ≡ ok path
    → Inside (clean base) path × GoesDown path
unfolding safe_join
safe_join-Inside base relative_path path rooted h =
    let joined = join (clean base) relative_path in
    let (inside, same) = joined_ok _ _ _ _ path h in
    let down = clean-GoesDown base rooted in
    let first =
      clean-GoesDown (clean base ++ (b'/' ∷ relative_path))
        (is_abs-append (clean base) _ (GoesDown-is_abs (clean base) down)) in
    let abs : is_abs joined ≡ true = GoesDown-is_abs joined first in
    (
      rw (sym same) (is_inside-Inside (clean base) (clean joined) inside),
      rw (sym same) (clean-GoesDown joined abs),
    )

clean_relative :
    (path : Text) → path ≢ [] → is_abs path ≡ false → clean path ≡ render false (parts_of path)
unfolding clean
clean_relative [] n a = absurd (n refl)
clean_relative (c ∷ s) n a = ap (λ b. render b (parts_of (c ∷ s))) a

parts_of-DotsLead : (path : Text) → is_abs path ≡ false → DotsLead (parts_of path)
parts_of-DotsLead path a = rw a (clean_parts-DotsLead (split_on b'/' path) [] tt)

-- A path is validated exactly if it is not empty, does not begin with a slash, and no part of the
-- cleaned path is `..`.
pub validate_relative_path_iff :
    (path : Text)
    → (validate_relative_path path ≡ none)
      ↔ ((path ≢ []) × (is_abs path ≡ false) × All IsNotDots (parts_of path))
unfolding validate_relative_path
validate_relative_path_iff path = (validated, accepted)
  where
    validated :
        validate_relative_path path ≡ none
        → (path ≢ []) × (is_abs path ≡ false) × All IsNotDots (parts_of path)
    validated h =
        let n : path ≢ [] = λ e. absurd (ground (arith, text_eq_iff path [])) in
        let a : is_abs path ≡ false = ground (arith, text_eq_iff path []) in
        (
          n,
          a,
          none_is_dots (parts_of path) (parts_of-DotsLead path a)
              (elim (Bool-cases (opens_with_dots (parts_of path))) [
                | inl o ↦
                    absurd (ground (arith, clean_relative path n a, render_dots (parts_of path) o))
                | inr o ↦ o
              ]),
        )

    accepted :
        (path ≢ []) × (is_abs path ≡ false) × All IsNotDots (parts_of path)
        → validate_relative_path path ≡ none
    accepted (n, a, all) =
        let plain = render_plain (parts_of path) all (
          subst (λ b. All (Lacks b'/') (clean_parts b [] (split_on b'/' path))) (sym a)
            (parts-Lacks false path)) in
        ground (arith, text_eq_iff path [], n, clean_relative path n a, plain)
