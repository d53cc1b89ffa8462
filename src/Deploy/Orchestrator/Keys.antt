-- ===== src/Deploy/Orchestrator/Keys.antt =====
-- internal/deploy/orchestrator.go: a list that stands for the map of deployments holds a key once,
-- after every operation.
use vcdeploy.Prelude.{
  ℕ, String, Bool, true, false, Option, none, some, List, [], ◌∷◌, ◌++◌, str_eq, Table, lookup,
  delete, adjust, KeysDiffer, insert-KeysDiffer, adjust-KeysDiffer, delete-KeysDiffer, Option-cases,
  inl, inr, if◌then◌else◌,
}
use vcdeploy.Deploy.Orchestrator.{
  notify_status_change, update_with, update_status, update_deployment_status, set_release_number,
  set_error, cancel, store_deployment, build_command, conclude, dispatch, new_deployment, deploy,
  rollback, rollback_deployment, stale_ids, delete_all, cleanup_old_deployments,
}
use vcdeploy.Deploy.Orchestrator.Types.{
  DeploymentStatus, pending, queued, failed, cancelled, rolling_back, DeployCommand, Deployment,
  DeployRequest, Orchestrator, is_finished,
}
use vcdeploy.Deploy.Orchestrator.Lifecycle.{
  is_set, Step, deployed, rolled_back, cancel_requested, reported, log_added, release_set,
  error_set, cleaned, Reach, here, next, notify-deployments, update_with-deployments,
  log-deployments,
}

abbrev pub HasKeysOnce : Orchestrator → Type 0
HasKeysOnce o = KeysDiffer o.deployments

update_with-HasKeysOnce :
    (id : String) (status : DeploymentStatus) (f : Deployment → Deployment) (o : Orchestrator)
    → HasKeysOnce o
    → HasKeysOnce (update_with id status f o)
update_with-HasKeysOnce id status f o h = elim (Option-cases (lookup id o.deployments)) [
  | inl gone ↦ rw (update_with-deployments id status f o, gone) h
  | inr (d, found) ↦
      rw (update_with-deployments id status f o, found) (adjust-KeysDiffer id f o.deployments h)
]

store-HasKeysOnce :
    (id : String) (status : DeploymentStatus) (d : Deployment) (o : Orchestrator)
    → HasKeysOnce o
    → HasKeysOnce (notify_status_change id status (store_deployment d o))
unfolding store_deployment
store-HasKeysOnce id status d o h = rw notify-deployments (insert-KeysDiffer d.id d o.deployments h)

conclude-HasKeysOnce :
    (r : Option String) (id : String) (later : ℕ) (o : Orchestrator)
    → HasKeysOnce o
    → HasKeysOnce (conclude r id later o).0
unfolding conclude
conclude-HasKeysOnce none id later o h = h
conclude-HasKeysOnce (some err) id later o h = update_with-HasKeysOnce id failed _ o h

dispatch-HasKeysOnce :
    (s : Option (String → DeployCommand → Option String)) (id : String) (req : DeployRequest)
    (later : ℕ) (o : Orchestrator)
    → HasKeysOnce o
    → HasKeysOnce (dispatch s id req later o).0
unfolding dispatch
dispatch-HasKeysOnce none id req later o h = h
dispatch-HasKeysOnce (some send) id req later o h =
    let o' = update_status id queued o in
    let cmd = build_command id req in
    conclude-HasKeysOnce (send req.agent_id cmd) id later
      (record o' { sent = o'.sent ++ (req.agent_id, cmd) ∷ [] })
      (update_with-HasKeysOnce id queued _ o h)

-- A method that fails returns the orchestrator as it was.
guarded :
    (b : Bool) (o : Orchestrator) {R : Type 0} (e : R) (after : Orchestrator × R)
    → HasKeysOnce o
    → HasKeysOnce after.0
    → HasKeysOnce (if b then (o, e) else after).0
guarded true o e after h n = h
guarded false o e after h n = n

cancel-HasKeysOnce :
    (id reason : String) (now : ℕ) (o : Orchestrator)
    → HasKeysOnce o
    → HasKeysOnce (cancel id reason now o).0
unfolding cancel
cancel-HasKeysOnce id reason now o h = elim (Option-cases (lookup id o.deployments)) [
  | inl gone ↦ rw (gone, cancel) h
  | inr (d, found) ↦
      rw (found, cancel)
        (guarded (is_finished d.status) o _ _ h (update_with-HasKeysOnce id cancelled _ o h))
]

log-HasKeysOnce :
    (id : String) (o : Orchestrator) (f : Deployment → Deployment)
    → HasKeysOnce o
    → KeysDiffer
        (if is_set (lookup id o.deployments) then adjust id f o.deployments else o.deployments)
log-HasKeysOnce id o f h = elim (Option-cases (lookup id o.deployments)) [
  | inl gone ↦ rw gone h
  | inr (d, found) ↦ rw found (adjust-KeysDiffer id f o.deployments h)
]

delete_all-KeysDiffer :
    (ids : List String) (m : Table Deployment) → KeysDiffer m → KeysDiffer (delete_all ids m)
unfolding delete_all
delete_all-KeysDiffer [] m h = h
delete_all-KeysDiffer (id ∷ ids) m h =
    delete_all-KeysDiffer ids (delete id m) (delete-KeysDiffer id m h)

Step-HasKeysOnce : {o o' : Orchestrator} → Step o o' → HasKeysOnce o → HasKeysOnce o'
unfolding update_deployment_status set_release_number set_error cleanup_old_deployments deploy
    rollback
Step-HasKeysOnce (deployed id now later req o) h = guarded (str_eq req.project_id "") o _ _ h (
    guarded (str_eq req.agent_id "") o _ _ h (
      guarded (str_eq req.repository "") o _ _ h (
        dispatch-HasKeysOnce o.send_command id req later _
          (store-HasKeysOnce id pending (new_deployment id req now) o h))))
Step-HasKeysOnce (rolled_back id now req o) h = guarded (str_eq req.project_id "") o _ _ h (
    guarded (str_eq req.agent_id "") o _ _ h
      (store-HasKeysOnce id rolling_back (rollback_deployment id req now) o h))
Step-HasKeysOnce (cancel_requested id reason now o) h = cancel-HasKeysOnce id reason now o h
Step-HasKeysOnce (reported id status progress step now o) h =
    update_with-HasKeysOnce id status _ o h
Step-HasKeysOnce (log_added id entry o) h =
    rw (log-deployments id entry o) (log-HasKeysOnce id o _ h)
Step-HasKeysOnce (release_set id n o) h = adjust-KeysDiffer id _ o.deployments h
Step-HasKeysOnce (error_set id c now o) h = update_with-HasKeysOnce id failed _ o h
Step-HasKeysOnce (cleaned cutoff o) h =
    delete_all-KeysDiffer (stale_ids cutoff o.deployments) o.deployments h

-- Whatever methods are called, no key comes to stand twice in the list of the deployments.
pub Reach-HasKeysOnce : {o o' : Orchestrator} → HasKeysOnce o → Reach o o' → HasKeysOnce o'
Reach-HasKeysOnce h here = h
Reach-HasKeysOnce h (next r st) = Step-HasKeysOnce st (Reach-HasKeysOnce h r)
