-- ===== src/Security/CommandValidator/Witnesses.antt =====
-- Runs of the validator, and the theorems at concrete inputs.
use vcdeploy.Prelude.{
  ◌≡◌, refl, ◌≢◌, ◌↔◌, none, some, [], ◌∷◌, ◌++◌, arith, All, Text, codes, Lacks, trim_space,
  contains, contains_iff, text_eq, cut, fields, is_space,
}
use vcdeploy.Security.CommandValidator.{
  CommandValidator, contains_blocked, new_command_validator, extract_binary, validate,
}
use vcdeploy.Security.CommandValidator.Accepts.{Occurs, IsPermitted, validate_iff}
use vcdeploy.Security.CommandValidator.Binaries.{IsWord}
use vcdeploy.Security.CommandValidator.Defaults.{accepted_is_tame}

abbrev default : CommandValidator
default = new_command_validator

abbrev pull : Text
pull = codes "GIT_SSH=ssh git pull origin"

pull_accepted : validate default pull ≡ none
unfolding validate contains extract_binary trim_space fields cut text_eq
pull_accepted = refl

chained_rejected : validate default (codes "git pull; rm x") ≡ some (contains_blocked (codes ";"))
unfolding validate contains
chained_rejected = refl

validate_iff_example : (validate default pull ≡ none) ↔ (
    All (λ b. ¬ Occurs pull b) default.blocked_substrings
    × (trim_space pull ≢ [])
    × (extract_binary (trim_space pull) ≢ [])
    × IsPermitted default (trim_space pull) (extract_binary (trim_space pull)))
validate_iff_example = validate_iff default pull

accepted_is_tame_example :
    Lacks b';' pull
    × Lacks b'|' pull
    × Lacks b'&' pull
    × Lacks b'<' pull
    × Lacks b'>' pull
    × Lacks b'`' pull
    × Lacks 10 pull
    × Lacks 13 pull
    × Lacks 0 pull
    × (¬ Occurs pull (codes "$("))
    × (¬ Occurs pull (codes "${"))
accepted_is_tame_example = accepted_is_tame default pull [] refl pull_accepted

-- A validator that allows `git` and blocks a semicolon.
abbrev small : CommandValidator
small = record {
  allowed_binaries = codes "git" ∷ [];
  allowed_patterns = [];
  blocked_substrings = codes ";" ∷ [];
}

abbrev elsewhere : Text
elsewhere = codes "/tmp" ++ b'/' ∷ codes "git"

elsewhere-IsWord : IsWord elsewhere
unfolding is_space
elsewhere-IsWord = record {
  plain = (refl, (refl, (refl, (refl, (refl, (refl, (refl, (refl, tt))))))));
  no_assignment = omega arith;
  filled = λ e. ground arith;
}

no_semicolon : ¬ Occurs elsewhere (codes ";")
unfolding contains
no_semicolon o = ground (arith, (contains_iff elsewhere (codes ";")).1 o)
