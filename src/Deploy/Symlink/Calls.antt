-- ===== src/Deploy/Symlink/Calls.antt =====
-- internal/deploy/executor.go: the runner of commands, and computations that call it.
use vcdeploy.Prelude.{ℕ, String, List, [], ◌∷◌, ◌++◌, Text, ℤ}

-- `CommandResult`
pub record CommandResult : Type 0 where
  pub exit_code : ℤ
  pub stdout : Text
  pub stderr : Text

-- `RunOptions`; the environment is never set.
pub record RunOptions : Type 0 where
  pub work_dir : Text
  pub user : String
  pub group : String
  pub timeout : ℕ

abbrev pub no_options : RunOptions
no_options = record { work_dir = []; user = ""; group = ""; timeout = 0 }

pub record Call : Type 0 where
  pub cmd : Text
  pub opts : RunOptions

-- What `Run` answers: an error, or a result.
pub data Outcome : Type 0 where
  failed : Text → Outcome
  ran : CommandResult → Outcome

-- `CommandRunner`: its answer to a call, after the calls made so far.
abbrev pub Runner : Type 0
Runner = List Call → Call → Outcome

pub data Cause : Type 0 where
  runner_failed : Text → Cause
  hook_failed : String → Text → Cause
  hook_exited : String → ℤ → Text → Cause
  invalid_service_name : String → Cause
  unknown_service_action : String → Cause

pub data Res (E A : Type 0) : Type 0 where
  ok : A → Res E A
  err : E → Res E A

-- A computation makes calls, which are noted in order, and gives a value or fails.
abbrev pub M : Type 0 → Type 0 → Type 0
M E A = List Call → Res E A × List Call

abbrev pub pure : {E A : Type 0} → A → M E A
pure a s = (ok a, s)

abbrev pub fail : {E A : Type 0} → E → M E A
fail e s = (err e, s)

abbrev pub continue : {E A B : Type 0} → (A → M E B) → Res E A × List Call → Res E B × List Call
continue f (ok a, s) = f a s
continue f (err e, s) = (err e, s)

infixl 5 ◌>>=◌ ◌>>◌
abbrev pub ◌>>=◌ : {E A B : Type 0} → M E A → (A → M E B) → M E B
◌>>=◌ m f s = continue f (m s)

abbrev pub ◌>>◌ : {E A B : Type 0} → M E A → M E B → M E B
m >> k = m >>= λ _. k

-- The errors of a computation, with where they arose.
abbrev pub tag : {E F A : Type 0} → (E → F) → Res E A × List Call → Res F A × List Call
tag f (ok a, s) = (ok a, s)
tag f (err e, s) = (err (f e), s)

module _ (runner : Runner) where
  -- A call whose error is looked at or dropped by the caller.
  unfoldable pub try_run : Text → RunOptions → M Cause Outcome
  try_run cmd opts s =
      let call : Call = record { cmd = cmd; opts = opts } in (ok (runner s call), s ++ call ∷ [])

  abbrev pub checked : Outcome → M Cause CommandResult
  checked (failed e) = fail (runner_failed e)
  checked (ran r) = pure r

  -- A call whose error is returned.
  unfoldable pub run : Text → RunOptions → M Cause CommandResult
  unfolding try_run
  run cmd opts = try_run cmd opts >>= checked
