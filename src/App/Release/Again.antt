-- ===== src/App/Release/Again.antt =====
-- internal/app/release.go: CreateRollback and Retry, which create a release from another.
use ai_pub.Base.{
  Bool, true, false, not, ◌&&◌, String, Option, some, List, [], ◌∷◌, concat, ◌==◌, if◌then◌else◌,
}
use ai_pub.Domain.{ReleaseStatus, DeployStatus, ReleaseRequest, ServiceVersion}
use ai_pub.Action.{M, message, pure, raise, fail_if, ◌>>=◌, ◌>>◌}
use ai_pub.Repository.Lookup.{get_release_request}
use ai_pub.Repository.Release.{set_release_rollback_of}
use ai_pub.Repository.Events.{rollback_candidates}
use ai_pub.App.Notify.{choose_string, notify_rollback_requested}
use ai_pub.App.Release.{Actor, ReleaseService, CreateReleaseInput, Answered, create, record_event}

-- RollbackInput and RetryInput; a retry names no version.
pub record AgainInput : Type 0 where
  pub service_version_id : String
  pub source : String
  pub created_by_type : String
  pub created_by_id : String
  pub idempotency_key : String
  pub api_key_id : String

unfoldable pub again_input : ReleaseRequest → String → AgainInput → String → CreateReleaseInput
unfolding choose_string
again_input original version_id input metadata = record {
  subject = record {
    service_id = original.service_id;
    environment_id = original.environment_id;
    service_version_id = version_id;
    deployment_target_id = original.deployment_target_id;
  };
  source = choose_string input.source "web";
  idempotency_key = input.idempotency_key;
  created_by_type = choose_string input.created_by_type "user";
  created_by_id = input.created_by_id;
  authorized_by_user_id = "";
  api_key_id = input.api_key_id;
  metadata = metadata;
}

unfoldable pub again_actor : AgainInput → Actor
unfolding choose_string
again_actor input = record {
  type = choose_string input.created_by_type "user";
  id = input.created_by_id;
  api_key_id = input.api_key_id;
}

first_candidate : List ServiceVersion → M String
first_candidate [] = raise (message "no rollback candidates")
first_candidate (v ∷ vs) = pure v.id

choose_version : String → String → M String
unfolding first_candidate
choose_version release_id version_id =
    if version_id == "" then rollback_candidates release_id >>= first_candidate else pure version_id

-- ReleaseService.CreateRollback
unfoldable pub create_rollback : ReleaseService → String → AgainInput → M Answered
unfolding choose_version record_event again_input again_actor
create_rollback s release_id input = do
  original ← get_release_request release_id
  version_id ← choose_version release_id input.service_version_id
  made ← create s (again_input original version_id input "{\"type\":\"rollback\"}")
  item ← set_release_rollback_of made.0.id release_id
  record_event item.id "" "rollback_requested" (again_actor input) "回滚发布单已创建" ""
  notify_rollback_requested s.notifier original item
  pure (item, made.1)

is_partial : Option DeployStatus → Bool
is_partial (some DeployStatus.partial) = true
is_partial _ = false

is_failed : ReleaseStatus → Bool
is_failed ReleaseStatus.failed = true
is_failed _ = false

-- ReleaseService.Retry
unfoldable pub retry : ReleaseService → String → AgainInput → M Answered
unfolding is_failed is_partial record_event again_input again_actor
retry s release_id input = do
  original ← get_release_request release_id
  fail_if (not (is_failed original.status) && not (is_partial original.summary_status))
      (message "only failed or partial releases can be retried")
  made ← create s (
      again_input original original.service_version_id input
        (concat ("{\"type\":\"retry\",\"retry_of_id\":" ∷ s.quote release_id ∷ "}" ∷ [])))
  record_event made.0.id "" "release_retried" (again_actor input) "重新发布单已创建" ""
  pure made
