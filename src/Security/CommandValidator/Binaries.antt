-- ===== src/Security/CommandValidator/Binaries.antt =====
-- internal/security/cmdvalidator.go: which binary `extractBinary` sees.
use vcdeploy.Prelude.{
  ℕ, zero, suc, ◌<◌, ◌≡◌, refl, ◌≢◌, inl, inr, true, false, none, [], ◌∷◌, ◌++◌, arith,
  Option-cases, any, All, Any, length, ◌==◌, Text, codes, trim_space, cut, fields, IsPlain, Lacks,
  contains-Lacks, cut_space_plain, trim_space-IsPlain, fields-IsPlain, length-trim_space,
  length-cut,
}
use vcdeploy.Security.CommandValidator.{
  CommandValidator, extract_binary, extract_base_name, skip_cd, skip_assignments, first_field,
  validate,
}
use vcdeploy.Security.CommandValidator.Accepts.{Occurs, validate_iff}

-- The loop over assignments ends by its own tests: any fuel above the length of the command gives
-- the same result.
pub skip_assignments_enough :
    (f g : ℕ) (cmd : Text)
    → length cmd < f
    → length cmd < g
    → skip_assignments f cmd ≡ skip_assignments g cmd
unfolding skip_assignments
skip_assignments_enough zero g cmd h k = absurd (omega arith)
skip_assignments_enough (suc f) zero cmd h k = absurd (omega arith)
skip_assignments_enough (suc f) (suc g) cmd h k = elim (Option-cases (cut cmd (codes " "))) [
  | inl e ↦ ground (arith, e)
  | inr ((first, rest), e) ↦
      let shorter : length (trim_space rest) < length cmd =
        omega
          (arith, length-trim_space rest, length-cut cmd (codes " ") first rest (omega arith) e) in
      ground (arith, e, skip_assignments_enough f g (trim_space rest) (omega arith) (omega arith))
]

-- A word of a command: no white space and no equals sign, and not empty.
pub record IsWord (w : Text) : Type 0 where
  pub plain : IsPlain w
  pub no_assignment : Lacks b'=' w
  pub filled : w ≢ []

fields-IsWord : (w : Text) → IsWord w → first_field (fields w) ≡ w
unfolding first_field
fields-IsWord [] h = absurd (h.filled refl)
fields-IsWord (c ∷ w) h = rw (fields-IsPlain c w h.plain) refl

skip_assignments-IsWord : (f : ℕ) (w : Text) → IsWord w → skip_assignments f w ≡ w
unfolding skip_assignments
skip_assignments-IsWord zero w h = refl
skip_assignments-IsWord (suc f) w h = ground (arith, contains-Lacks b'=' w h.no_assignment)

skip_cd-IsPlain : (w : Text) → IsPlain w → skip_cd w ≡ w
unfolding skip_cd
skip_cd-IsPlain w h = ground (arith, cut_space_plain w h)

-- The binary of a command that is one word is that word.
pub extract_binary-IsWord : (w : Text) → IsWord w → extract_binary w ≡ w
unfolding extract_binary
extract_binary-IsWord w h =
    rw (trim_space-IsPlain w h.plain, skip_cd-IsPlain w h.plain)
      (rw (skip_assignments-IsWord (suc (length w)) w h) (fields-IsWord w h))

-- The base name of a path is what follows the last slash.
slash_in : (d b : Text) → any (λ c. c == b'/') (d ++ b'/' ∷ b) ≡ true
unfolding any
slash_in [] b = refl
slash_in (c ∷ d) b = ground (arith, slash_in d b)

no_slash : (b : Text) → Lacks b'/' b → any (λ c. c == b'/') b ≡ false
unfolding any
no_slash [] h = refl
no_slash (c ∷ b) h = ground (arith, no_slash b h.1, h.0)

pub extract_base_name_lem : (d b : Text) → Lacks b'/' b → extract_base_name (d ++ b'/' ∷ b) ≡ b
unfolding extract_base_name
extract_base_name_lem [] b h = ground (arith, no_slash b h)
extract_base_name_lem (c ∷ d) b h = ground (arith, slash_in d b, extract_base_name_lem d b h)

-- Where the allowlist has a base name, a command that is a path to a file of that name is accepted
-- whatever the directory is, as long as the path is one word and holds no blocked substring.
pub Any-directory :
    (v : CommandValidator) (d b : Text)
    → Any (λ a. a ≡ b) v.allowed_binaries
    → Lacks b'/' b
    → IsWord (d ++ b'/' ∷ b)
    → All (λ s. ¬ Occurs (d ++ b'/' ∷ b) s) v.blocked_substrings
    → validate v (d ++ b'/' ∷ b) ≡ none
Any-directory v d b listed base word free =
    let path = d ++ b'/' ∷ b in
    (validate_iff v path).1 (
      rw (trim_space-IsPlain path word.plain, extract_binary-IsWord path word)
        (free, word.filled, word.filled, inr (inl (rw (extract_base_name_lem d b base) listed))))
