-- ===== src/Lib.antt =====
-- A verification library for vcdeploy, a deployment platform in Go with a master and agents.
--
-- The program. The master receives webhooks, API calls and scheduled jobs, keeps the state of the
-- deployments, and sends commands to agents over gRPC; an agent runs the hooks of a deployment through
-- a command validator. The parts that are modelled:
-- - Deploy.Orchestrator is internal/deploy/orchestrator.go: `deploy`, `rollback`, `cancel`,
--   `update_deployment_status`, `add_deployment_log`, `set_release_number`, `set_error` and
--   `cleanup_old_deployments` are the methods Deploy, Rollback, Cancel, UpdateDeploymentStatus,
--   AddDeploymentLog, SetReleaseNumber, SetError and CleanupOldDeployments. Types has the structs,
--   those of the command from internal/deploy/executor.go; Lifecycle and Keys the invariants over every
--   sequence of calls; Requests what single calls do; Cleanup the cleanup.
-- - Deploy.Symlink is internal/deploy/executor.go: the steps of SymlinkStrategy.Deploy and Rollback under
--   their names, and IsValidServiceName of internal/validation/validation.go. Calls has the runner of
--   commands, Scan the scan of a number, Strategy `deploy` and `rollback`; under it, Logic has what all
--   steps before the switch keep, Quiet and Activation the switch of the link, ExitCodes the failures that are
--   noticed, Releases the choice of a release, Switches the calls of a rollback.
-- - Storage.Users and Storage.Sessions are internal/storage/memory_users.go: the methods of MemoryStore
--   under their names, with the structs of internal/storage/models.go in Types. Users.Index has the index
--   of users by name, Users.Directory the contract of the operations on users, Users.Revocation what a
--   deletion leaves, Sessions.Tokens the sessions.
-- - Storage.Writer is startWriteWorker of internal/storage/memory.go with FlushBatchFunc of
--   internal/storage/writeop.go: `flush_batch` is the latter, `Step` the steps of senders and of the
--   worker. Batches has single flushes, Order every sequence of steps, Shutdown the end.
-- - Provision.Worker is internal/provision/worker.go: `submit`, `poll_once`, `run_job` and `work` are Submit,
--   pollOnce, runJob and what a worker goroutine does next, over the jobs of
--   internal/storage/memory_misc.go. Polls has what a poll queues, Runs the run of a job, Twice a job
--   that is queued again.
-- - Webhooks.Processor is internal/webhooks/processor.go with the events of
--   internal/webhooks/handler.go: `process_push`, `process_pull_request` and `process_tag`. The
--   orchestrator's TriggerDeploy and the project store are interfaces there and arguments here. Branches
--   has the patterns of branches, Events the handlers, Messages the truncated commit message.
-- - Security.CommandValidator is internal/security/cmdvalidator.go: `validate` and `validate_hooks`.
--   Accepts says which commands are let through, Defaults what the default blocked substrings keep
--   out, Binaries which binary is seen in a command.
-- - Scheduler is internal/scheduler/scheduler.go: Scheduler.Cron has ParseCron, parseField and the
--   cron schedule's Next; Scheduler.Jobs AddJob, RemoveJob, Start, Stop, runDueJobs, RunJobNow and
--   GetJobStatus.
-- - Security.HostKeys is internal/security/hostkeys.go: `verify_host_key` is VerifyHostKey, over the
--   interface HostKeyStore. Trust says which keys are accepted.
-- - Security.SafePath is internal/security/safepath.go: `safe_join`, `is_within_base`,
--   `validate_relative_path` and `sanitize_path`, with Clean, Join, IsAbs and Abs of package path/filepath
--   on Unix. Parts and Slashes have the parts of cleaned paths, Joins what is let through, Sanitized the
--   loop of SanitizePath.
-- - Alerting is internal/alerting/alerting.go: `check_agent_disconnect`, `check_agent_reconnect`,
--   `check_disk_usage`, `check_memory_usage`, `check_cpu_usage`, `check_deployment_stuck`,
--   `clear_cooldown` and `clear_all_cooldowns` are its methods of those names. Cooldown says how often
--   an alert is sent, Marks what keeps the time of the last one.
-- - Recipes.Approvals is internal/services/recipes/raw_approval.go: `approve`, `revoke_approval`,
--   `requires_approval`, `get_approval_status` and `list_pending_approvals` are the methods of
--   RawApprovalService of those names, over the methods of storage.Store that they call. Cycle has what
--   approving and revoking do, Memory the approvals in MemoryStore, of internal/storage/memory_recipes.go.
-- - Recipes.Resolver is internal/services/recipes/resolver.go: `resolve`, `validate_for_deployment`,
--   `to_deploy_hooks` and `build_deploy_request` are Resolve, ValidateForDeployment, ToDeployHooks and
--   BuildDeployRequest. Cleared has what a validated playbook refers to, Hooks what ToDeployHooks gives.
-- - Server.Pagination is internal/server/pagination.go with NewPagination of internal/services/types.go:
--   `parse_pagination` is parsePaginationWithDefaults, `generate_page_numbers` generatePageNumbers. Pages
--   has the numbers that are shown.
-- - Server.RateLimiter is internal/server/ratelimit.go: `allow`, `get_status`, `block_ip`, `unblock_ip`,
--   `cleanup`, `stop` and `new_rate_limiter` are Allow, GetStatus, BlockIP, UnblockIP, cleanup, Stop and
--   NewRateLimiter; `intercept` is what the gRPC interceptors decide. Types has the structs, Control the
--   blocking, the cleanup and the interceptors. Tokens and Blocks have the single
--   calls, Charges what a request does to a bucket, Runs the sequences of calls, Creation the constructor, Numbers what is asked of float64.
-- - Prelude has what they share: tests on numbers, lists, Go's maps as association lists (Maps), the
--   functions of Go's packages strings and strconv that the program calls (Texts, Words, Int).
--
-- How state is modelled. A method that changes its receiver returns the new record; the pointers
-- that a map holds are written through by `adjust`. Locks are left out: each method runs as one
-- step, save that canAlert, which releases its lock between the test and the write, is also taken
-- apart, as `is_cooling` and `note_alert`, so that other calls can come in between; and
-- Deploy.Orchestrator.Lifecycle.Step, Server.RateLimiter.Runs.Step and Storage.Writer.Step list the
-- steps that may come in any order. The calls of
-- callbacks and senders are recorded in lists. `time.Now` and fresh identifiers are arguments; a
-- time is a number of nanoseconds. Counters that the program never makes negative (progress,
-- the orchestrator's release number, the number of a pull request) are natural numbers. Texts that are only compared
-- are native strings; texts that are scanned are lists of character codes, code points for
-- commands and cron expressions and bytes for commit messages and paths.
--
-- Parameters. The calendar and the time zone of package time are the record
-- Scheduler.Cron.Calendar; a compiled regular expression is the function of its MatchString; the
-- agent's sender, the project store and the orchestrator seen by the webhooks are functions.
-- Floats are the record Server.RateLimiter.Numbers.Floats, whose laws are those of IEEE
-- comparison, and in Alerting the comparison `at_least`; whether a network in CIDR notation has an
-- address, and the errors of the limiter's database, are functions. For host keys, SplitHostPort
-- of package net and the fingerprint are functions, and a public key of golang.org/x/crypto/ssh is
-- what its Type and Marshal answer; the stores of host keys and of approvals are the records
-- HostKeyStore and ApprovalStore with laws IsStore: Recipes.Approvals.Memory meets those of
-- approvals, and a witness those of host keys with a store in memory. The runner of commands is a function of all
-- calls so far, and base64 one of bytes; the active playbook, its variables and
-- the stored components are arguments of the resolver; the database of the write worker is the record Storage.Writer.Backend. The
-- clock does not go back between calls.
--
-- Bounds and fuel. `int` is a 64-bit integer in cron fields (Prelude.Int), where the step of `*/N` can
-- overflow. The loop of `*/N` has fuel 64, enough for the 60 values of the largest field. The loop over
-- inline assignments of a command has fuel one above the command's length, and each round shortens the
-- command. The loop of SanitizePath has the
-- length of the path as fuel, and each round shortens it. CronSchedule.Next has the bound of the source, 2102400 minutes. Decimal printing has fuel one
-- above the number.
--
-- Not modelled: logging; contexts and their timeouts; the goroutine that ticks; ParseSchedule and
-- time.ParseDuration; the HTTP handlers and the middleware, the gRPC server and the agents; the
-- export of known_hosts files; the texts of alerts; the SQL that the write
-- worker runs; cryptography.
pub mod Prelude
pub mod Deploy
pub mod Webhooks
pub mod Security
pub mod Scheduler
pub mod Server
pub mod Alerting
pub mod Recipes
pub mod Storage
pub mod Provision
