-- ===== src/Examples/Scripts.antt =====
-- The theorems on commands and on the variables of scripts, at one script.
use ai_pub.Base.{◌≡◌, String, Option, none, some, List, [], ◌∷◌}
use ai_pub.Domain.{DeployStatus, TargetSnapshot}
use ai_pub.Worker.{Request}
use ai_pub.Executor.{
  JsonField, lookup, printed, text, target_env, ssh_target, execution_env, shell_quote_join,
}
use ai_pub.Executor.Shell.{between, shell_words, shell_words-shell_quote_join}
use ai_pub.Executor.Variables.{platform, or_else, lookup-execution_env}
use ai_pub.Examples.{asked, host, shop_v2, loaded_target}

shell_words-shell_quote_join_example :
    shell_words between (shell_quote_join ("it's" ∷ "a b; $(rm)" ∷ []))
    ≡ some ("it's" ∷ "a b; $(rm)" ∷ [])
shell_words-shell_quote_join_example = shell_words-shell_quote_join ("it's" ∷ "a b; $(rm)" ∷ [])

abbrev deploying : Request
deploying = record {
  release = asked;
  claimed = record {
    id = "dep1";
    release_request_id = "rel1";
    status = DeployStatus.running;
    executor_type = "ssh";
    target_snapshot = TargetSnapshot.other;
    total_targets = 1;
    success_targets = 0;
    failed_targets = 0;
    skipped_targets = 0;
    worker_id = "w1";
    created_at = 5;
    updated_at = 5;
  };
  target = loaded_target;
  version = shop_v2;
  execution_target = record { type = "server"; ref_id = "srv1"; name = "host" };
  server = host;
  gateway = none;
}

-- The target asks for a log level, and for another version.
abbrev asking : String → Option (List JsonField)
asking raw = some (
    record { name = "AI_PUB_VERSION"; value = text "9.9" }
    ∷ record { name = "LEVEL"; value = printed "2" }
    ∷ [])

lookup-execution_env_example :
    lookup "AI_PUB_VERSION" (execution_env asking deploying)
    ≡ or_else
        (lookup "AI_PUB_VERSION" (platform deploying))
        (lookup "AI_PUB_VERSION" (target_env asking (ssh_target loaded_target).env_vars))
lookup-execution_env_example = lookup-execution_env asking deploying "AI_PUB_VERSION"
