-- ===== src/Security/CommandValidator/Defaults.antt =====
-- internal/security/cmdvalidator.go: what the default validator keeps out.
use vcdeploy.Prelude.{ℕ, ◌≡◌, none, List, [], ◌∷◌, ◌++◌, ap, All, Text, codes, Lacks}
use vcdeploy.Security.CommandValidator.{CommandValidator, default_blocked_substrings, validate}
use vcdeploy.Security.CommandValidator.Accepts.{Occurs, validate_iff}

-- A text in which a one-character text does not occur lacks the character.
Lacks-of : (c : ℕ) (s : Text) → ¬ Occurs s (c ∷ []) → Lacks c s
Lacks-of c [] h = tt
Lacks-of c (d ∷ s) h =
    ((λ e. h ([], s, ap (λ x. x ∷ s) e)), Lacks-of c s (λ o. h (d ∷ o.0, o.1, ap (λ x. d ∷ x) o.2)))

-- A command that a validator with the default blocked substrings (and perhaps others) accepts, with
-- whatever allowlist and patterns, holds none of the characters that chain, redirect or background
-- commands in a shell, no backquote, no line break and no null byte, and neither `$(` nor `${`.
pub accepted_is_tame :
    (v : CommandValidator) (cmd : Text) (others : List Text)
    → v.blocked_substrings ≡ default_blocked_substrings ++ others
    → validate v cmd ≡ none
    → Lacks b';' cmd
      × Lacks b'|' cmd
      × Lacks b'&' cmd
      × Lacks b'<' cmd
      × Lacks b'>' cmd
      × Lacks b'`' cmd
      × Lacks 10 cmd
      × Lacks 13 cmd
      × Lacks 0 cmd
      × (¬ Occurs cmd (codes "$("))
      × (¬ Occurs cmd (codes "${"))
accepted_is_tame v cmd others e h =
    let all : All (λ b. ¬ Occurs cmd b) v.blocked_substrings = ((validate_iff v cmd).0 h).0 in
    let free : All (λ b. ¬ Occurs cmd b) (default_blocked_substrings ++ others) = rw e at all in
    (
      Lacks-of b';' cmd free.1.1.1.1.1.0,
      Lacks-of b'|' cmd free.1.1.1.1.1.1.0,
      Lacks-of b'&' cmd free.1.1.1.1.1.1.1.1.1.1.1.0,
      Lacks-of b'<' cmd free.1.1.1.1.1.1.1.1.0,
      Lacks-of b'>' cmd free.1.1.1.1.1.1.1.0,
      Lacks-of b'`' cmd free.1.0,
      Lacks-of 10 cmd free.1.1.1.1.1.1.1.1.1.1.1.1.1.1.0,
      Lacks-of 13 cmd free.1.1.1.1.1.1.1.1.1.1.1.1.1.1.1.0,
      Lacks-of 0 cmd free.1.1.1.1.1.1.1.1.1.1.1.1.1.1.1.1.0,
      free.0,
      free.1.1.0,
    )
