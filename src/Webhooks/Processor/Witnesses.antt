-- ===== src/Webhooks/Processor/Witnesses.antt =====
-- Runs of the event processor, and the theorems at concrete inputs.
use vcdeploy.Prelude.{
  ◌≡◌, refl, ◌↔◌, true, false, none, some, [], ◌∷◌, codes, has_suffix, has_prefix, trim_suffix,
  decimal, first_line,
}
use vcdeploy.Webhooks.Processor.{
  PushEvent, PullRequestEvent, TagEvent, WebhookConfig, config, Processor, should_deploy_branch,
  truncate_message, push_trigger, process_push, pull_request_trigger,
}
use vcdeploy.Webhooks.Processor.Branches.{IsAllowed, should_deploy_branch_iff}
use vcdeploy.Webhooks.Processor.Events.{Wanted, TriggersWhen, process_push_lem}

abbrev cfg : WebhookConfig
cfg = record {
  enabled = true;
  auto_deploy = true;
  auto_deploy_branches = codes "release/*" ∷ codes "main" ∷ [];
  auto_deploy_on_tag = true;
  auto_deploy_on_pr = true;
  pr_deploy_environment = codes "preview";
}

abbrev processor : Processor
processor = record {
  get_config = λ project. config (some cfg);
  trigger_deploy = λ t. none;
  default_branch = codes "main";
}

abbrev push : PushEvent
push = record {
  provider = codes "github";
  project_id = "shop";
  repository = codes "shop";
  branch = codes "release/7";
  commit = codes "c0ffee";
  commit_url = [];
  author = codes "ann";
  author_email = [];
  message = codes "fix";
  timestamp = [];
  force_push = false;
  deleted = false;
}

push_run : (process_push processor push).calls ≡ push_trigger push ∷ []
unfolding process_push push_trigger truncate_message has_suffix has_prefix trim_suffix
push_run = refl

process_push_lem_example :
    TriggersWhen processor
      (process_push processor push)
      (record {
        project_id = "shop";
        branch = codes "release/7";
        commit = codes "c0ffee";
        triggered_by = codes "webhook:github";
        trigger_source = codes "push by ann: fix";
      })
      ((push.deleted ≡ false)
        × Wanted (processor.get_config push.project_id) (λ cfg.
          (cfg.auto_deploy ≡ true)
          × IsAllowed processor.default_branch cfg.auto_deploy_branches push.branch))
unfolding truncate_message has_suffix has_prefix trim_suffix first_line
process_push_lem_example = process_push_lem processor push

abbrev pull : PullRequestEvent
pull = record {
  provider = codes "gitlab";
  project_id = "shop";
  repository = codes "shop";
  action = codes "opened";
  number = 42;
  title = codes "Fix";
  source_branch = codes "fix";
  target_branch = codes "main";
  author = codes "bob";
}

pull_request_run : (pull_request_trigger pull).trigger_source ≡ codes "PR #42: Fix by bob"
unfolding pull_request_trigger decimal
pull_request_run = refl

abbrev tagged : TagEvent
tagged = record {
  provider = codes "github";
  project_id = "shop";
  repository = codes "shop";
  tag = codes "v1";
  commit = codes "c0ffee";
  author = codes "ann";
  deleted = false;
}

should_deploy_branch_iff_example :
    (should_deploy_branch (codes "main") (codes "dev") [] ≡ true)
    ↔ IsAllowed (codes "main") [] (codes "dev")
should_deploy_branch_iff_example = should_deploy_branch_iff (codes "main") (codes "dev") []

truncate_run : truncate_message (codes "hello world") 8 ≡ codes "hello..."
unfolding truncate_message first_line
truncate_run = refl
