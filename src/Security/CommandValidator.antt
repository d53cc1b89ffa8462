-- ===== src/Security/CommandValidator.antt =====
-- internal/security/cmdvalidator.go. A command is a text of code points. A compiled regular
-- expression of the standard library is its `MatchString`.
pub mod Accepts
pub mod Binaries
pub mod Defaults
mod Witnesses
use vcdeploy.Prelude.{
  ℕ, zero, suc, String, Bool, true, false, ◌&&◌, ◌||◌, Option, none, some, List, [], ◌∷◌, ◌++◌, map,
  if◌then◌else◌, ◌==◌, length, any, Text, codes, text_eq, contains, trim_space, cut, fields,
}

-- A binary is allowed if `AllowedBinaries` has it, with the value true; no code stores another.
pub record CommandValidator : Type 0 where
  pub allowed_binaries : List Text
  pub allowed_patterns : List (Text → Bool)
  pub blocked_substrings : List Text

pub data Blocked : Type 0 where
  contains_blocked : Text → Blocked
  empty_command : Blocked
  no_binary : Blocked
  not_in_allowlist : Text → Blocked

-- `defaultBlockedSubstrings`; the last three are a newline, a carriage return and a null byte.
abbrev pub default_blocked_substrings : List Text
default_blocked_substrings =
    codes "$("
    ∷ codes "`"
    ∷ codes "${"
    ∷ codes "&&"
    ∷ codes "||"
    ∷ codes ";"
    ∷ codes "|"
    ∷ codes ">"
    ∷ codes "<"
    ∷ codes ">>"
    ∷ codes "<<"
    ∷ codes "&"
    ∷ codes "eval "
    ∷ codes "exec "
    ∷ (10 ∷ [])
    ∷ (13 ∷ [])
    ∷ (0 ∷ [])
    ∷ []

-- `defaultAllowedBinaries`
abbrev pub default_allowed_binaries : List Text
default_allowed_binaries = map codes (
    "git" ∷ "/usr/bin/git" ∷ "php" ∷ "composer" ∷ "/usr/bin/php" ∷ "node" ∷ "npm" ∷ "npx" ∷ "yarn"
    ∷ "pnpm" ∷ "python" ∷ "python3" ∷ "pip" ∷ "pip3" ∷ "rsync" ∷ "cp" ∷ "mv" ∷ "rm" ∷ "mkdir"
    ∷ "chmod" ∷ "chown" ∷ "ln" ∷ "tar" ∷ "unzip" ∷ "echo" ∷ "cat" ∷ "grep" ∷ "head" ∷ "tail" ∷ "wc"
    ∷ "date" ∷ "sleep" ∷ "test" ∷ "true" ∷ "false" ∷ "exit" ∷ "pwd" ∷ "sh" ∷ "bash" ∷ "systemctl"
    ∷ "service" ∷ "artisan" ∷ "rake" ∷ "bundle" ∷ "docker" ∷ "docker-compose" ∷ "timeout" ∷ [])

-- `NewCommandValidator`
abbrev pub new_command_validator : CommandValidator
new_command_validator = record {
  allowed_binaries = default_allowed_binaries;
  allowed_patterns = [];
  blocked_substrings = default_blocked_substrings;
}

-- `NewStrictCommandValidator`
abbrev pub new_strict_command_validator : CommandValidator
new_strict_command_validator = record {
  allowed_binaries = [];
  allowed_patterns = [];
  blocked_substrings = default_blocked_substrings;
}

-- `AllowBinary`
unfoldable pub allow_binary : Text → CommandValidator → CommandValidator
allow_binary name v = record v { allowed_binaries = name ∷ v.allowed_binaries }

-- `AllowPattern`
unfoldable pub allow_pattern : (Text → Bool) → CommandValidator → CommandValidator
allow_pattern p v = record v { allowed_patterns = v.allowed_patterns ++ p ∷ [] }

-- `BlockSubstring`
unfoldable pub block_substring : Text → CommandValidator → CommandValidator
block_substring s v = record v { blocked_substrings = v.blocked_substrings ++ s ∷ [] }

-- What follows `cd … &&`, where the command begins so.
unfoldable pub skip_cd : Text → Text
skip_cd cmd = elim (cut cmd (codes " ")) [
  | none ↦ cmd
  | some (first_word, _) ↦
      if text_eq first_word (codes "cd")
      then elim (cut cmd (codes "&&")) [
        | none ↦ cmd
        | some ([], _) ↦ cmd
        | some (_ ∷ _, after) ↦ trim_space after
      ]
      else cmd
]

-- The loop over inline environment variables, with fuel.
unfoldable pub skip_assignments : ℕ → Text → Text
skip_assignments zero cmd = cmd
skip_assignments (suc f) cmd = elim (contains cmd (codes "=")) [
  | false ↦ cmd
  | true ↦ elim (cut cmd (codes " ")) [
    | none ↦ cmd
    | some (first, rest) ↦ elim (contains first (codes "=")) [
      | false ↦ cmd
      | true ↦ skip_assignments f (trim_space rest)
    ]
  ]
]

unfoldable pub first_field : List Text → Text
first_field [] = []
first_field (w ∷ _) = w

-- `extractBinary`; each round of the loop shortens the command.
unfoldable pub extract_binary : Text → Text
unfolding skip_cd skip_assignments first_field
extract_binary cmd =
    let cmd' = skip_cd (trim_space cmd) in
    first_field (fields (skip_assignments (suc (length cmd')) cmd'))

-- `extractBaseName`: what follows the last slash.
unfoldable pub extract_base_name : Text → Text
extract_base_name [] = []
extract_base_name (c ∷ path) =
    let rest = extract_base_name path in
    if any (λ d. d == b'/') path then rest else if c == b'/' then path else c ∷ path

-- `v.AllowedBinaries[name]`
unfoldable pub is_allowed : List Text → Text → Bool
unfolding any
is_allowed allowed name = any (λ b. text_eq b name) allowed

-- The loop over the blocked substrings: the first that the command contains.
unfoldable pub first_blocked : Text → List Text → Option Text
first_blocked cmd [] = none
first_blocked cmd (b ∷ bs) =
    let rest = first_blocked cmd bs in if contains cmd b then some b else rest

-- The tests on the binary of a trimmed command.
unfoldable pub check_binary : CommandValidator → Text → Text → Option Blocked
unfolding is_allowed extract_base_name any
check_binary v cmd [] = some no_binary
check_binary v cmd (c ∷ bin) =
    if is_allowed v.allowed_binaries (c ∷ bin)
    then none
    else if is_allowed v.allowed_binaries (extract_base_name (c ∷ bin))
    then none
    else if any (λ p. p cmd) v.allowed_patterns
    then none
    else some (not_in_allowlist (c ∷ bin))

unfoldable pub check_trimmed : CommandValidator → Text → Option Blocked
unfolding check_binary
check_trimmed v [] = some empty_command
check_trimmed v (c ∷ cmd) = check_binary v (c ∷ cmd) (extract_binary (c ∷ cmd))

-- `Validate`: `none` for a command that may run.
unfoldable pub validate : CommandValidator → Text → Option Blocked
unfolding first_blocked check_trimmed
validate v cmd = elim (first_blocked cmd v.blocked_substrings) [
  | some b ↦ some (contains_blocked b)
  | none ↦ check_trimmed v (trim_space cmd)
]

-- `ValidateHooks`: the first hook that is blocked, with its position.
unfoldable pub validate_hooks : CommandValidator → ℕ → List Text → Option (ℕ × Blocked)
validate_hooks v i [] = none
validate_hooks v i (h ∷ hs) =
    let rest = validate_hooks v (suc i) hs in
    elim (validate v h) [ some e ↦ some (i, e) | none ↦ rest ]
