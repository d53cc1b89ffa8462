-- ===== src/Webhooks/Processor.antt =====
-- internal/webhooks/processor.go, with the events of internal/webhooks/handler.go. The project
-- store and the orchestrator are interfaces, so they are fields of the processor: functions that
-- answer. A handler returns the calls of `TriggerDeploy` that it makes, and its error.
pub mod Branches
pub mod Events
pub mod Messages
mod Witnesses
use vcdeploy.Prelude.{
  ℕ, ◌-◌, String, Bool, true, false, not, ◌&&◌, ◌||◌, Option, none, some, List, [], ◌∷◌, ◌++◌,
  if◌then◌else◌, ltb, length, any, Text, codes, text_eq, has_prefix, has_suffix, trim_suffix,
  first_line, decimal, take,
}

pub record PushEvent : Type 0 where
  pub provider : Text
  pub project_id : String
  pub repository : Text
  pub branch : Text
  pub commit : Text
  pub commit_url : Text
  pub author : Text
  pub author_email : Text
  pub message : Text
  pub timestamp : Text
  pub force_push : Bool
  pub deleted : Bool

pub record PullRequestEvent : Type 0 where
  pub provider : Text
  pub project_id : String
  pub repository : Text
  pub action : Text
  pub number : ℕ
  pub title : Text
  pub source_branch : Text
  pub target_branch : Text
  pub author : Text

pub record TagEvent : Type 0 where
  pub provider : Text
  pub project_id : String
  pub repository : Text
  pub tag : Text
  pub commit : Text
  pub author : Text
  pub deleted : Bool

pub record WebhookConfig : Type 0 where
  pub enabled : Bool
  pub auto_deploy : Bool
  pub auto_deploy_branches : List Text
  pub auto_deploy_on_tag : Bool
  pub auto_deploy_on_pr : Bool
  pub pr_deploy_environment : Text

-- What `GetProjectWebhookConfig` returns: a configuration, nil, or an error.
pub data ConfigAnswer : Type 0 where
  config : Option WebhookConfig → ConfigAnswer
  config_error : String → ConfigAnswer

-- The arguments of `TriggerDeploy`.
pub record Trigger : Type 0 where
  pub project_id : String
  pub branch : Text
  pub commit : Text
  pub triggered_by : Text
  pub trigger_source : Text

-- `DefaultEventProcessor`. `trigger_deploy` returns an error or nothing.
pub record Processor : Type 0 where
  pub get_config : String → ConfigAnswer
  pub trigger_deploy : Trigger → Option String
  pub default_branch : Text

pub data ProcessError : Type 0 where
  getting_config : String → ProcessError
  triggering : String → ProcessError

pub record Outcome : Type 0 where
  pub calls : List Trigger
  pub error : Option ProcessError

-- `NewEventProcessor`
unfoldable pub new_event_processor :
    (String → ConfigAnswer) → (Trigger → Option String) → Text → Processor
new_event_processor projects orchestrator branch = record {
  get_config = projects;
  trigger_deploy = orchestrator;
  default_branch = if text_eq branch [] then codes "main" else branch;
}

-- The test of one configured branch, which may end in a star.
unfoldable pub branch_matches : Text → Text → Bool
branch_matches branch allowed =
    if has_suffix allowed (codes "*")
    then has_prefix branch (trim_suffix allowed (codes "*"))
    else text_eq allowed branch

-- `shouldDeployBranch`
unfoldable pub should_deploy_branch : Text → Text → List Text → Bool
unfolding branch_matches any
should_deploy_branch default branch [] = text_eq branch default || text_eq branch (codes "master")
should_deploy_branch default branch (a ∷ rest) = any (branch_matches branch) (a ∷ rest)

-- `truncateMessage`, called with 50. Below 3 the Go code would slice to a negative length.
unfoldable pub truncate_message : Text → ℕ → Text
truncate_message s max_len =
    let line = first_line s in
    if ltb max_len (length line) then take (max_len - 3) line ++ codes "..." else line

unfoldable pub skip : Outcome
skip = record { calls = []; error = none }

-- The end of each handler: the trigger, and its error if it has one.
unfoldable pub trigger : Processor → Trigger → Outcome
trigger p t = record {
  calls = t ∷ [];
  error = elim (p.trigger_deploy t) [ none ↦ none | some e ↦ some (triggering e) ];
}

-- The configuration is fetched and tested, and `t` triggered if the test passes.
unfoldable pub trigger_if : Processor → (WebhookConfig → Bool) → Trigger → ConfigAnswer → Outcome
unfolding trigger skip
trigger_if p test t (config_error e) = record { calls = []; error = some (getting_config e) }
trigger_if p test t (config none) = skip
trigger_if p test t (config (some cfg)) = if cfg.enabled && test cfg then trigger p t else skip

-- What a push triggers.
unfoldable pub push_trigger : PushEvent → Trigger
push_trigger e = record {
  project_id = e.project_id;
  branch = e.branch;
  commit = e.commit;
  triggered_by = codes "webhook:" ++ e.provider;
  trigger_source = codes "push by " ++ (e.author ++ (codes ": " ++ truncate_message e.message 50));
}

-- `ProcessPush`
unfoldable pub process_push : Processor → PushEvent → Outcome
unfolding skip trigger_if should_deploy_branch
process_push p e =
    if e.deleted
    then skip
    else trigger_if p
        (λ cfg.
          cfg.auto_deploy
          && should_deploy_branch p.default_branch e.branch cfg.auto_deploy_branches)
        (push_trigger e) (p.get_config e.project_id)

-- What a pull request triggers.
unfoldable pub pull_request_trigger : PullRequestEvent → Trigger
pull_request_trigger e = record {
  project_id = e.project_id;
  branch = e.source_branch;
  commit = [];
  triggered_by = codes "webhook:" ++ e.provider;
  trigger_source =
      codes "PR #" ++ (decimal e.number ++ (codes ": " ++ (e.title ++ (codes " by " ++ e.author))));
}

-- The `switch` on the action: the other actions return with no error.
unfoldable pub deploys_on : Text → Bool
deploys_on action =
    text_eq action (codes "opened")
    || text_eq action (codes "synchronize")
    || text_eq action (codes "reopened")

-- `ProcessPullRequest`
unfoldable pub process_pull_request : Processor → PullRequestEvent → Outcome
unfolding trigger_if deploys_on
process_pull_request p e =
    trigger_if p (λ cfg. cfg.auto_deploy_on_pr && deploys_on e.action) (pull_request_trigger e)
      (p.get_config e.project_id)

-- What a tag triggers.
unfoldable pub tag_trigger : TagEvent → Trigger
tag_trigger e = record {
  project_id = e.project_id;
  branch = codes "refs/tags/" ++ e.tag;
  commit = e.commit;
  triggered_by = codes "webhook:" ++ e.provider;
  trigger_source = codes "tag " ++ (e.tag ++ (codes " by " ++ e.author));
}

-- `ProcessTag`
unfoldable pub process_tag : Processor → TagEvent → Outcome
unfolding skip trigger_if
process_tag p e =
    if e.deleted
    then skip
    else trigger_if p (λ cfg. cfg.auto_deploy_on_tag) (tag_trigger e) (p.get_config e.project_id)
