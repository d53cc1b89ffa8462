-- ===== src/Deploy/Orchestrator/Lifecycle.antt =====
-- internal/deploy/orchestrator.go: the invariant of the stored deployments, over every operation.

use vcdeploy.Prelude.{
  ℕ, String, ◌≡◌, refl, Bool, true, false, Option, none, some, List, [], ◌∷◌, arith, Table, lookup,
  delete, adjust, AllAt, AllAt-insert, AllAt-delete, AllAt-adjust, Option-cases, inl, inr,
  Bool-cases, str_eq, ◌++◌, if◌then◌else◌,
}
use vcdeploy.Deploy.Orchestrator.{
  notify_status_change, update_with, update_status, update_status_with_error, report,
  update_deployment_status, add_deployment_log, set_release_number, set_error, cancel,
  store_deployment, build_command, conclude, dispatch, new_deployment, deploy, rollback,
  rollback_deployment, stale_ids, delete_all, cleanup_old_deployments,
}
use vcdeploy.Deploy.Orchestrator.Types.{
  DeploymentStatus, Cause, pending, queued, failed, cancelled, cancelled_for, rolling_back,
  command_failed, DeployCommand, LogEntry, Deployment, DeployRequest, RollbackRequest, Orchestrator,
  is_finished, is_deploying,
}

abbrev pub is_set {ℓ} : {A : Type ℓ} → Option A → Bool
is_set none = false
is_set (some _) = true

-- A deployment is stored under its own identifier; a finished one has its time of completion, and
-- one that is being deployed its time of start.
pub record IsDated (k : String) (d : Deployment) : Type 0 where
  pub keyed : d.id ≡ k
  pub completion : is_finished d.status ≡ true → is_set d.completed_at ≡ true
  pub start : is_deploying d.status ≡ true → is_set d.started_at ≡ true

abbrev pub IsSound : Orchestrator → Type 0
IsSound o = AllAt IsDated o.deployments

-- One call of a method that changes the state.
pub data Step : Orchestrator → Orchestrator → Type 0 where
  deployed :
      (id : String) (now later : ℕ) (req : DeployRequest) (o : Orchestrator)
      → Step o (deploy id now later req o).0
  rolled_back :
      (id : String) (now : ℕ) (req : RollbackRequest) (o : Orchestrator)
      → Step o (rollback id now req o).0
  cancel_requested :
      (id reason : String) (now : ℕ) (o : Orchestrator) → Step o (cancel id reason now o).0
  reported :
      (id : String) (status : DeploymentStatus) (progress : ℕ) (current_step : String) (now : ℕ)
      (o : Orchestrator)
      → Step o (update_deployment_status id status progress current_step now o)
  log_added :
      (id : String) (entry : LogEntry) (o : Orchestrator) → Step o (add_deployment_log id entry o)
  release_set : (id : String) (n : ℕ) (o : Orchestrator) → Step o (set_release_number id n o)
  error_set : (id : String) (c : Cause) (now : ℕ) (o : Orchestrator) → Step o (set_error id c now o)
  cleaned : (cutoff : ℕ) (o : Orchestrator) → Step o (cleanup_old_deployments cutoff o).0

pub data Reach (s : Orchestrator) : Orchestrator → Type 0 where
  here : Reach s s
  next : {t u : Orchestrator} → Reach s t → Step t u → Reach s u

pub notify-deployments :
    (id : String) (status : DeploymentStatus) (o : Orchestrator)
    → (notify_status_change id status o).deployments ≡ o.deployments
unfolding notify_status_change
notify-deployments id status o = ground arith

pub update_with-deployments :
    (id : String) (status : DeploymentStatus) (f : Deployment → Deployment) (o : Orchestrator)
    → (update_with id status f o).deployments
      ≡ (if is_set (lookup id o.deployments) then adjust id f o.deployments else o.deployments)
unfolding update_with
update_with-deployments id status f o = ground arith

update_with-IsSound :
    (id : String) (status : DeploymentStatus) (f : Deployment → Deployment) (o : Orchestrator)
    → IsSound o
    → ((d : Deployment) → IsDated id d → IsDated id (f d))
    → IsSound (update_with id status f o)
update_with-IsSound id status f o h keep = elim (Option-cases (lookup id o.deployments)) [
  | inl gone ↦ rw (update_with-deployments id status f o, gone) h
  | inr (d, found) ↦
      rw (update_with-deployments id status f o, found)
        (AllAt-adjust IsDated id f o.deployments h (λ v _. keep v))
]

update_status-IsSound :
    (id : String) (o : Orchestrator) → IsSound o → IsSound (update_status id queued o)
unfolding update_status is_finished is_deploying
update_status-IsSound id o h =
    update_with-IsSound id queued _ o h
      (λ d dated. record { keyed = dated.keyed; completion = λ e. cc; start = λ e. cc })

-- No status that comes with an error is `deploying`.
update_status_with_error-IsSound :
    (id : String) (status : DeploymentStatus) (c : Cause) (now : ℕ) (o : Orchestrator)
    → is_deploying status ≡ false
    → IsSound o
    → IsSound (update_status_with_error id status c now o)
unfolding update_status_with_error
update_status_with_error-IsSound id status c now o idle h =
    update_with-IsSound id status _ o h
      (λ d dated. record { keyed = dated.keyed; completion = λ e. refl; start = λ e. cc })

report-IsDated :
    (status : DeploymentStatus) (progress : ℕ) (current_step : String) (now : ℕ) (k : String)
    (d : Deployment)
    → IsDated k d
    → IsDated k (report status progress current_step now d)
unfolding report
report-IsDated status progress current_step now k d h = ground arith

conclude-IsSound :
    (r : Option String) (id : String) (later : ℕ) (o : Orchestrator)
    → IsSound o
    → IsSound (conclude r id later o).0
unfolding conclude is_deploying
conclude-IsSound none id later o h = h
conclude-IsSound (some err) id later o h =
    update_status_with_error-IsSound id failed (command_failed err) later o refl h

dispatch-IsSound :
    (s : Option (String → DeployCommand → Option String)) (id : String) (req : DeployRequest)
    (later : ℕ) (o : Orchestrator)
    → IsSound o
    → IsSound (dispatch s id req later o).0
unfolding dispatch
dispatch-IsSound none id req later o h = h
dispatch-IsSound (some send) id req later o h =
    let o' = update_status id queued o in
    let cmd = build_command id req in
    conclude-IsSound (send req.agent_id cmd) id later
      (record o' { sent = o'.sent ++ (req.agent_id, cmd) ∷ [] }) (update_status-IsSound id o h)

-- A new record, which is not finished and not being deployed, under its identifier.
store-IsSound :
    (id : String) (status : DeploymentStatus) (d : Deployment) (o : Orchestrator)
    → IsSound o
    → IsDated d.id d
    → IsSound (notify_status_change id status (store_deployment d o))
unfolding store_deployment
store-IsSound id status d o h dated =
    rw notify-deployments (AllAt-insert IsDated d.id d o.deployments h dated)

deploy-IsSound :
    (id : String) (now later : ℕ) (req : DeployRequest) (o : Orchestrator)
    → IsSound o
    → IsSound (deploy id now later req o).0
unfolding deploy is_finished is_deploying
deploy-IsSound id now later req o h = elim (Bool-cases (str_eq req.project_id "")) [
  | inl e ↦ rw e h
  | inr p ↦ elim (Bool-cases (str_eq req.agent_id "")) [
    | inl e ↦ rw (p, e) h
    | inr a ↦ elim (Bool-cases (str_eq req.repository "")) [
      | inl e ↦ rw (p, a, e) h
      | inr r ↦
          rw (p, a, r)
            (dispatch-IsSound o.send_command id req later
              (notify_status_change id pending (store_deployment (new_deployment id req now) o))
              (store-IsSound id pending (new_deployment id req now) o h
                (record { keyed = refl; completion = λ e. cc; start = λ e. cc })))
    ]
  ]
]

rollback-IsSound :
    (id : String) (now : ℕ) (req : RollbackRequest) (o : Orchestrator)
    → IsSound o
    → IsSound (rollback id now req o).0
unfolding rollback is_finished is_deploying
rollback-IsSound id now req o h = elim (Bool-cases (str_eq req.project_id "")) [
  | inl e ↦ rw e h
  | inr p ↦ elim (Bool-cases (str_eq req.agent_id "")) [
    | inl e ↦ rw (p, e) h
    | inr a ↦
        rw (p, a)
          (store-IsSound id rolling_back (rollback_deployment id req now) o h
            (record { keyed = refl; completion = λ e. cc; start = λ e. cc }))
  ]
]

cancel-IsSound :
    (id reason : String) (now : ℕ) (o : Orchestrator)
    → IsSound o
    → IsSound (cancel id reason now o).0
unfolding cancel is_deploying
cancel-IsSound id reason now o h = elim (Option-cases (lookup id o.deployments)) [
  | inl gone ↦ rw (gone, cancel) h
  | inr (d, found) ↦ elim (Bool-cases (is_finished d.status)) [
    | inl e ↦ rw (found, cancel, e) h
    | inr e ↦
        rw (found, cancel, e)
          (update_status_with_error-IsSound id cancelled (cancelled_for reason) now o refl h)
  ]
]

logs-IsDated :
    (k : String) (entry : LogEntry) (d : Deployment)
    → IsDated k d
    → IsDated k (record d { logs = d.logs ++ entry ∷ [] })
logs-IsDated k entry d h = record { keyed = h.keyed; completion = h.completion; start = h.start }

pub log-deployments :
    (id : String) (entry : LogEntry) (o : Orchestrator)
    → (add_deployment_log id entry o).deployments ≡ (
        if is_set (lookup id o.deployments)
        then adjust id (λ d. record d { logs = d.logs ++ entry ∷ [] }) o.deployments
        else o.deployments)
unfolding add_deployment_log
log-deployments id entry o = ground arith

add_deployment_log-IsSound :
    (id : String) (entry : LogEntry) (o : Orchestrator)
    → IsSound o
    → IsSound (add_deployment_log id entry o)
add_deployment_log-IsSound id entry o h = elim (Option-cases (lookup id o.deployments)) [
  | inl gone ↦ rw (log-deployments id entry o, gone) h
  | inr (d, found) ↦
      rw (log-deployments id entry o, found)
        (AllAt-adjust IsDated id _ o.deployments h (λ v _. logs-IsDated id entry v))
]

delete_all-IsSound :
    (ids : List String) (m : Table Deployment) → AllAt IsDated m → AllAt IsDated (delete_all ids m)
unfolding delete_all
delete_all-IsSound [] m h = h
delete_all-IsSound (id ∷ ids) m h =
    delete_all-IsSound ids (delete id m) (AllAt-delete IsDated id m h)

-- Each method keeps the records sound.
Step-IsSound : {o o' : Orchestrator} → Step o o' → IsSound o → IsSound o'
unfolding update_deployment_status set_release_number set_error is_deploying cleanup_old_deployments
Step-IsSound (deployed id now later req o) h = deploy-IsSound id now later req o h
Step-IsSound (rolled_back id now req o) h = rollback-IsSound id now req o h
Step-IsSound (cancel_requested id reason now o) h = cancel-IsSound id reason now o h
Step-IsSound (reported id status progress step now o) h =
    update_with-IsSound id status _ o h (report-IsDated status progress step now id)
Step-IsSound (log_added id entry o) h = add_deployment_log-IsSound id entry o h
Step-IsSound (release_set id n o) h = AllAt-adjust IsDated id _ o.deployments h (λ d _ dated.
    record { keyed = dated.keyed; completion = dated.completion; start = dated.start })
Step-IsSound (error_set id c now o) h = update_status_with_error-IsSound id failed c now o refl h
Step-IsSound (cleaned cutoff o) h =
    delete_all-IsSound (stale_ids cutoff o.deployments) o.deployments h

-- Whatever methods are called, in whatever order, from an orchestrator whose records are sound (a
-- new one has none): every stored deployment is under its own identifier, has its completion time
-- if it is completed, failed or cancelled, and its start time if it is being deployed.
pub Reach-IsSound : {o o' : Orchestrator} → IsSound o → Reach o o' → IsSound o'
Reach-IsSound h here = h
Reach-IsSound h (next r st) = Step-IsSound st (Reach-IsSound h r)
