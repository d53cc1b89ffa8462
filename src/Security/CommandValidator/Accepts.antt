-- ===== src/Security/CommandValidator/Accepts.antt =====
-- internal/security/cmdvalidator.go: the commands and the hooks that `Validate` lets through.
use vcdeploy.Prelude.{
  ℕ, zero, suc, ◌+◌, ◌≡◌, refl, ◌≢◌, ◌↔◌, ◌⊎◌, inl, inr, Bool, true, none, some, List, [], ◌∷◌,
  ◌++◌, arith, Bool-cases, Option-cases, any, All, Any, any_iff, Text, text_eq, text_eq_iff,
  contains, contains_iff, trim_space,
}
use vcdeploy.Security.CommandValidator.{
  CommandValidator, Blocked, extract_binary, extract_base_name, is_allowed, first_blocked,
  check_binary, check_trimmed, validate, validate_hooks,
}

-- The text stands somewhere in the command.
abbrev pub Occurs : Text → Text → Type 0
Occurs cmd b = (x y : Text) × (cmd ≡ x ++ (b ++ y))

-- The binary or its base name is in the allowlist, or a pattern matches the command.
abbrev pub IsPermitted : CommandValidator → Text → Text → Type 0
IsPermitted v cmd binary =
    Any (λ b. b ≡ binary) v.allowed_binaries
    ⊎ (Any (λ b. b ≡ extract_base_name binary) v.allowed_binaries
        ⊎ Any (λ p. p cmd ≡ true) v.allowed_patterns)

first_blocked_iff :
    (cmd : Text) (bs : List Text) → (first_blocked cmd bs ≡ none) ↔ All (λ b. ¬ Occurs cmd b) bs
unfolding first_blocked
first_blocked_iff cmd [] = (λ h. tt, λ h. refl)
first_blocked_iff cmd (b ∷ bs) = (
  λ h. (λ o. ground (arith, (contains_iff cmd b).1 o), (first_blocked_iff cmd bs).0 (ground arith)),
  λ h. elim (Bool-cases (contains cmd b)) [
    | inl e ↦ absurd (h.0 ((contains_iff cmd b).0 e))
    | inr e ↦ ground (arith, (first_blocked_iff cmd bs).1 h.1)
  ],
)

is_allowed_iff :
    (allowed : List Text) (name : Text)
    → (is_allowed allowed name ≡ true) ↔ Any (λ b. b ≡ name) allowed
unfolding is_allowed
is_allowed_iff allowed name =
    any_iff (λ b. text_eq b name) (λ b. b ≡ name) allowed (λ b. text_eq_iff b name)

patterns_iff :
    (cmd : Text) (ps : List (Text → Bool))
    → (any (λ p. p cmd) ps ≡ true) ↔ Any (λ p. p cmd ≡ true) ps
patterns_iff cmd ps = any_iff (λ p. p cmd) (λ p. p cmd ≡ true) ps (λ p. ((λ h. h), (λ h. h)))

check_binary_iff :
    (v : CommandValidator) (cmd bin : Text)
    → (check_binary v cmd bin ≡ none) ↔ ((bin ≢ []) × IsPermitted v cmd bin)
unfolding check_binary
check_binary_iff v cmd [] = (λ h. absurd (ground arith), λ h. absurd (h.0 refl))
check_binary_iff v cmd (c ∷ bin) = (
  λ h. (
    (λ e. ground arith),
    elim (Bool-cases (is_allowed v.allowed_binaries (c ∷ bin))) [
      | inl e ↦ inl ((is_allowed_iff v.allowed_binaries (c ∷ bin)).0 e)
      | inr e ↦ elim (Bool-cases (is_allowed v.allowed_binaries (extract_base_name (c ∷ bin)))) [
        | inl q ↦ inr (inl ((is_allowed_iff v.allowed_binaries (extract_base_name (c ∷ bin))).0 q))
        | inr q ↦ inr (inr ((patterns_iff cmd v.allowed_patterns).0 (ground arith)))
      ]
    ],
  ),
  λ h. elim h.1 [
    | inl e ↦ ground (arith, (is_allowed_iff v.allowed_binaries (c ∷ bin)).1 e)
    | inr (inl e) ↦
        ground (arith, (is_allowed_iff v.allowed_binaries (extract_base_name (c ∷ bin))).1 e)
    | inr (inr e) ↦ ground (arith, (patterns_iff cmd v.allowed_patterns).1 e)
  ],
)

check_trimmed_iff :
    (v : CommandValidator) (cmd : Text)
    → (check_trimmed v cmd ≡ none)
      ↔ ((cmd ≢ []) × (extract_binary cmd ≢ []) × IsPermitted v cmd (extract_binary cmd))
unfolding check_trimmed
check_trimmed_iff v [] = (λ h. absurd (ground arith), λ h. absurd (h.0 refl))
check_trimmed_iff v (c ∷ cmd) =
    let rest = check_binary_iff v (c ∷ cmd) (extract_binary (c ∷ cmd)) in
    (λ h. ((λ e. ground arith), (rest.0 h).0, (rest.0 h).1), λ h. rest.1 (h.1, h.2))

-- A command is accepted exactly when none of the blocked substrings stands in it, it is not blank,
-- and its binary is not empty and is permitted: the binary or its base name is in the allowlist, or
-- a pattern matches the trimmed command.
pub validate_iff :
    (v : CommandValidator) (cmd : Text)
    → let trimmed = trim_space cmd in
      (validate v cmd ≡ none) ↔ (
        All (λ b. ¬ Occurs cmd b) v.blocked_substrings
        × (trimmed ≢ [])
        × (extract_binary trimmed ≢ [])
        × IsPermitted v trimmed (extract_binary trimmed))
unfolding validate
validate_iff v cmd =
    let bs = v.blocked_substrings in
    let free = first_blocked_iff cmd bs in
    let rest = check_trimmed_iff v (trim_space cmd) in
    elim (Option-cases (first_blocked cmd bs)) [
      | inl e ↦
          rw (e, validate)
            (
              (λ h. (free.0 e, (rest.0 h).0, (rest.0 h).1, (rest.0 h).2)),
              (λ h. rest.1 (h.1, h.2, h.3)),
            )
      | inr (b, e) ↦
          rw (e, validate)
            ((λ h. absurd (ground arith)), (λ h. absurd (ground (arith, free.1 h.0))))
    ]

-- The hook at a position, with the hooks before it.
pub data FirstRejected (v : CommandValidator) (e : Blocked) : ℕ → List Text → Type 0 where
  at_head : {h : Text} {hs : List Text} → validate v h ≡ some e → FirstRejected v e zero (h ∷ hs)
  later :
      {h : Text} {hs : List Text} {k : ℕ}
      → validate v h ≡ none
      → FirstRejected v e k hs
      → FirstRejected v e (suc k) (h ∷ hs)

-- All hooks are accepted exactly when each one is; otherwise the error is that of the first hook
-- that is not, at its position.
pub validate_hooks_lem :
    (v : CommandValidator) (i : ℕ) (hs : List Text)
    → ((validate_hooks v i hs ≡ none) ↔ All (λ h. validate v h ≡ none) hs)
      × ((j : ℕ) (e : Blocked)
          → validate_hooks v i hs ≡ some (j, e)
          → (k : ℕ) × (j ≡ i + k) × FirstRejected v e k hs)
unfolding validate_hooks
validate_hooks_lem v i [] = (((λ h. tt), (λ h. refl)), λ j e h. absurd (ground arith))
validate_hooks_lem v i (h ∷ hs) =
    let rest = validate_hooks_lem v (suc i) hs in
    elim (Option-cases (validate v h)) [
      | inl ok ↦
          rw (ok, validate_hooks)
            (
              ((λ n. (refl, rest.0.0 n)), (λ a. rest.0.1 a.1)),
              λ j e n. let (k, q, f) = rest.1 j e n in (suc k, omega arith, later ok f),
            )
      | inr (x, bad) ↦
          rw (bad, validate_hooks)
            (
              ((λ n. absurd (ground arith)), (λ a. absurd (ground (arith, a.0)))),
              λ j e n. (zero, ground arith, at_head (ground arith)),
            )
    ]
