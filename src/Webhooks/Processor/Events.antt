-- ===== src/Webhooks/Processor/Events.antt =====
-- internal/webhooks/processor.go: when `ProcessPush`, `ProcessPullRequest` and `ProcessTag` trigger
-- a deployment, and which.
use vcdeploy.Prelude.{
  String, ◌≡◌, refl, ◌↔◌, ◌⊎◌, inl, inr, Bool, true, false, ◌&&◌, none, some, [], ◌∷◌, ◌++◌, arith,
  Bool-cases, if◌then◌else◌, Text, codes, text_eq_iff,
}
use vcdeploy.Webhooks.Processor.{
  PushEvent, PullRequestEvent, TagEvent, WebhookConfig, ConfigAnswer, config, config_error, Trigger,
  Processor, triggering, Outcome, should_deploy_branch, skip, trigger_if, push_trigger,
  truncate_message, process_push, pull_request_trigger, deploys_on, process_pull_request,
  tag_trigger, process_tag,
}
use vcdeploy.Webhooks.Processor.Branches.{IsAllowed, should_deploy_branch_iff}

-- The project has a configuration that is enabled and passes a test.
abbrev pub Wanted : ConfigAnswer → (WebhookConfig → Type 0) → Type 0
Wanted answer Test =
    (cfg : WebhookConfig) × (answer ≡ config (some cfg)) × (cfg.enabled ≡ true) × Test cfg

-- Exactly one deployment, `t`, where `W` holds; its error is the handler's. None otherwise.
abbrev pub TriggersWhen : Processor → Outcome → Trigger → Type 0 → Type 0
TriggersWhen p out t W =
    ((out.calls ≡ t ∷ []) ↔ W)
    × ((¬ W) → out.calls ≡ [])
    × (W → (e : String) → (out.error ≡ some (triggering e)) ↔ (p.trigger_deploy t ≡ some e))

config_injective : {a b : WebhookConfig} → config (some a) ≡ config (some b) → b ≡ a
config_injective e = ground arith

unwanted :
    (test : WebhookConfig → Bool) (cfg : WebhookConfig)
    → cfg.enabled && test cfg ≡ false
    → ¬ Wanted (config (some cfg)) (λ c. test c ≡ true)
unwanted test cfg e w =
    let same : w.0 ≡ cfg = config_injective w.1 in
    let on : cfg.enabled ≡ true = rw same at w.2 in
    let passes : test cfg ≡ true = rw same at w.3 in absurd (ground arith)

-- Nothing is triggered, since nothing is wanted.
idle :
    (p : Processor) (t : Trigger) (out : Outcome) {W : Type 0}
    → ¬ W
    → out.calls ≡ []
    → TriggersWhen p out t W
idle p t out n e = ((λ h. absurd (ground arith), λ w. absurd (n w)), λ _. e, λ w. absurd (n w))

trigger_if_lem :
    (p : Processor) (test : WebhookConfig → Bool) (t : Trigger) (answer : ConfigAnswer)
    → TriggersWhen p (trigger_if p test t answer) t (Wanted answer (λ cfg. test cfg ≡ true))
unfolding trigger_if
trigger_if_lem p test t (config_error e) = idle p t _ (λ w. ground (arith, w.1)) refl
trigger_if_lem p test t (config none) = idle p t _ (λ w. ground (arith, w.1)) refl
trigger_if_lem p test t (config (some cfg)) = elim (Bool-cases (cfg.enabled && test cfg)) [
  | inl e ↦ rw e (
    (λ h. (cfg, refl, ground arith, ground arith), λ w. refl),
    λ n. absurd (n (cfg, refl, ground arith, ground arith)),
    λ w x. (λ h. ground arith, λ h. ground arith),
  )
  | inr e ↦ rw e (idle p t skip (unwanted test cfg e) refl)
]

-- The same under a condition that means the same.
TriggersWhen-iff :
    (p : Processor) (out : Outcome) (t : Trigger) {V W : Type 0}
    → V ↔ W
    → TriggersWhen p out t V
    → TriggersWhen p out t W
TriggersWhen-iff p out t e h =
    ((λ c. e.0 (h.0.0 c), λ w. h.0.1 (e.1 w)), λ n. h.1 (λ v. n (e.0 v)), λ w. h.2 (e.1 w))

Wanted-iff :
    (answer : ConfigAnswer) {V W : WebhookConfig → Type 0}
    → ((cfg : WebhookConfig) → V cfg ↔ W cfg)
    → Wanted answer V ↔ Wanted answer W
Wanted-iff answer e = (λ v. (v.0, v.1, v.2, (e v.0).0 v.3), λ w. (w.0, w.1, w.2, (e w.0).1 w.3))

-- A handler that returns early for a deletion.
unless_deleted :
    (p : Processor) (deleted : Bool) (out : Outcome) (t : Trigger) {W : Type 0}
    → TriggersWhen p out t W
    → TriggersWhen p (if deleted then skip else out) t ((deleted ≡ false) × W)
unfolding skip
unless_deleted p true out t h = idle p t skip (λ w. absurd (ground (arith, w.0))) refl
unless_deleted p false out t h = TriggersWhen-iff p out t ((λ w. (refl, w)), (λ w. w.1)) h

auto_deploy_iff :
    (p : Processor) (e : PushEvent) (cfg : WebhookConfig)
    → (cfg.auto_deploy && should_deploy_branch p.default_branch e.branch cfg.auto_deploy_branches
        ≡ true)
      ↔ ((cfg.auto_deploy ≡ true) × IsAllowed p.default_branch cfg.auto_deploy_branches e.branch)
auto_deploy_iff p e cfg =
    let allowed = should_deploy_branch_iff p.default_branch e.branch cfg.auto_deploy_branches in
    (λ h. (ground arith, allowed.0 (ground arith)), λ w. ground (arith, w.0, allowed.1 w.1))

deploys_on_iff :
    (cfg : WebhookConfig) (action : Text)
    → (cfg.auto_deploy_on_pr && deploys_on action ≡ true) ↔ (
        (cfg.auto_deploy_on_pr ≡ true)
        × ((action ≡ codes "opened")
            ⊎ ((action ≡ codes "synchronize") ⊎ (action ≡ codes "reopened"))))
unfolding deploys_on
deploys_on_iff cfg action =
    let o = text_eq_iff action (codes "opened") in
    let s = text_eq_iff action (codes "synchronize") in
    let r = text_eq_iff action (codes "reopened") in
    (λ h. ground (arith, o, s, r), λ w. ground (arith, w, o, s, r))

-- A push triggers a deployment exactly when the branch was not deleted, the project's configuration
-- is enabled with automatic deployment, and the branch is allowed. Then it triggers just one, of the
-- event's project, branch and commit, by the webhook of its provider and with its author and the
-- truncated message as the source, and fails exactly with the orchestrator's error; otherwise none.
pub process_push_lem :
    (p : Processor) (e : PushEvent)
    → TriggersWhen p
        (process_push p e)
        (record {
          project_id = e.project_id;
          branch = e.branch;
          commit = e.commit;
          triggered_by = codes "webhook:" ++ e.provider;
          trigger_source =
              codes "push by " ++ (e.author ++ (codes ": " ++ truncate_message e.message 50));
        })
        ((e.deleted ≡ false)
          × Wanted (p.get_config e.project_id) (λ cfg.
            (cfg.auto_deploy ≡ true)
            × IsAllowed p.default_branch cfg.auto_deploy_branches e.branch))
unfolding process_push push_trigger
process_push_lem p e =
    let test = λ (cfg : WebhookConfig).
      cfg.auto_deploy && should_deploy_branch p.default_branch e.branch cfg.auto_deploy_branches in
    unless_deleted p e.deleted _ _ (
      TriggersWhen-iff p _ _
        (Wanted-iff (p.get_config e.project_id) (λ cfg. auto_deploy_iff p e cfg))
        (trigger_if_lem p test (push_trigger e) (p.get_config e.project_id)))

-- A pull request triggers a deployment exactly when the project's configuration is enabled with
-- deployment of pull requests, and the action is `opened`, `synchronize` or `reopened`. Then it
-- triggers just one, of the source branch, and fails exactly with the orchestrator's error;
-- otherwise none.
pub process_pull_request_lem :
    (p : Processor) (e : PullRequestEvent)
    → TriggersWhen p (process_pull_request p e) (pull_request_trigger e) (
        Wanted (p.get_config e.project_id) (λ cfg.
          (cfg.auto_deploy_on_pr ≡ true)
          × ((e.action ≡ codes "opened")
              ⊎ ((e.action ≡ codes "synchronize") ⊎ (e.action ≡ codes "reopened")))))
unfolding process_pull_request
process_pull_request_lem p e =
    TriggersWhen-iff p _ _
      (Wanted-iff (p.get_config e.project_id) (λ cfg. deploys_on_iff cfg e.action))
      (trigger_if_lem p (λ cfg. cfg.auto_deploy_on_pr && deploys_on e.action)
        (pull_request_trigger e) (p.get_config e.project_id))

-- A tag triggers a deployment exactly when it was not deleted and the project's configuration is
-- enabled with deployment of tags. Then it triggers just one, of the reference of the tag at the
-- event's commit, and fails exactly with the orchestrator's error; otherwise none.
pub process_tag_lem :
    (p : Processor) (e : TagEvent)
    → TriggersWhen p (process_tag p e) (tag_trigger e) (
        (e.deleted ≡ false)
        × Wanted (p.get_config e.project_id) (λ cfg. cfg.auto_deploy_on_tag ≡ true))
unfolding process_tag
process_tag_lem p e =
    unless_deleted p e.deleted _ _
      (trigger_if_lem p (λ cfg. cfg.auto_deploy_on_tag) (tag_trigger e) (p.get_config e.project_id))
