-- ===== src/App/Release.antt =====
-- internal/app/release.go: ReleaseService's creation of a release, its event log and the actors.
pub mod Decide
pub mod Again
pub mod Idempotent
use ai_pub.Base.{
  Bool, true, false, not, ◌&&◌, String, Option, none, some, List, [], ◌∷◌, concat, ◌==◌,
  if◌then◌else◌,
}
use ai_pub.Domain.{ReleaseStatus, ReleaseRequest, ReleaseEvent}
use ai_pub.Action.{
  M, Err, Result, ok, err, is_not_found, idempotency_conflict, preflight_blocked, message, pure,
  raise, fail_if, attempt, ignore, ◌>>=◌, ◌>>◌,
}
use ai_pub.Repository.Lookup.{get_service, get_release_request, find_release_by_idempotency}
use ai_pub.Repository.Release.{create_release_request}
use ai_pub.Repository.Events.{create_release_event}
use ai_pub.App.Preflight.{
  Outside, PreflightInput, PreflightResult, Verdict, pass, block, ConfirmMode, self_confirm,
  admin_confirm, preflight,
}
use ai_pub.App.Notify.{Notifier, choose_string, notify_production_pending}

pub record Actor : Type 0 where
  pub type : String
  pub id : String
  pub api_key_id : String

pub record CreateReleaseInput : Type 0 where
  pub subject : PreflightInput
  pub source : String
  pub idempotency_key : String
  pub created_by_type : String
  pub created_by_id : String
  pub authorized_by_user_id : String
  pub api_key_id : String
  pub metadata : String

-- What the service is built with: the world outside, the notifier, and `%q` of package fmt.
pub record ReleaseService : Type 0 where
  pub outside : Outside
  pub notifier : Notifier
  pub quote : String → String

-- A new event, with the fields that the service leaves out empty.
unfoldable pub event_of : String → String → String → Actor → String → String → ReleaseEvent
event_of release_id record_id kind actor text metadata = record {
  id = "";
  release_request_id = release_id;
  deploy_record_id = record_id;
  event_type = kind;
  actor_type = actor.type;
  actor_id = actor.id;
  authorized_user_id = "";
  api_key_id = actor.api_key_id;
  source_ip = "";
  message = text;
  metadata = metadata;
  created_at = 0;
}

-- `_, _ = s.store.CreateReleaseEvent(…)`
unfoldable pub record_event : String → String → String → Actor → String → String → M (Unit {0})
unfolding event_of
record_event release_id record_id kind actor text metadata =
    ignore (create_release_event (event_of release_id record_id kind actor text metadata))

verdict_text : Verdict → String
verdict_text pass = "pass"
verdict_text block = "block"

mode_text : ConfirmMode → String
mode_text self_confirm = "self_confirm"
mode_text admin_confirm = "admin_confirm"

-- recordPreflightEvent
unfoldable pub record_preflight_event :
    ReleaseService → String → PreflightResult → Actor → M (Unit {0})
unfolding record_event verdict_text mode_text
record_preflight_event s release_id r actor =
    record_event release_id "" "preflight_checked" actor
      (concat ("预检完成：" ∷ verdict_text r.result ∷ []))
      (concat (
        "{\"result\":"
        ∷ s.quote (verdict_text r.result)
        ∷ ",\"next_action\":"
        ∷ s.quote (mode_text r.next_action)
        ∷ ",\"confirm_mode\":"
        ∷ s.quote (mode_text r.confirm_mode)
        ∷ "}"
        ∷ []))

unfoldable pub is_block : Verdict → Bool
is_block block = true
is_block pass = false

-- The defaults that Create writes into its input.
unfoldable pub with_defaults : CreateReleaseInput → CreateReleaseInput
unfolding choose_string
with_defaults input = record input {
  source = choose_string input.source "web";
  created_by_type = choose_string input.created_by_type "user";
}

-- sameIdempotentCreate
unfoldable pub same_idempotent_create : ReleaseRequest → CreateReleaseInput → Bool
same_idempotent_create existing input =
    existing.service_id == input.subject.service_id
    && (existing.environment_id == input.subject.environment_id
        && (existing.service_version_id == input.subject.service_version_id
            && (existing.deployment_target_id == input.subject.deployment_target_id
                && (existing.source == input.source
                    && (existing.created_by_type == input.created_by_type
                        && existing.created_by_id == input.created_by_id)))))

-- The zero value that an ignored error of Preflight leaves; only the response shows it.
abbrev pub Answered : Type 0
Answered = ReleaseRequest × Option PreflightResult

shown : Result PreflightResult → Option PreflightResult
shown (ok r) = some r
shown (err e) = none

new_release : CreateReleaseInput → String → ReleaseRequest
new_release input project_id = record {
  id = "";
  project_id = project_id;
  service_id = input.subject.service_id;
  environment_id = input.subject.environment_id;
  service_version_id = input.subject.service_version_id;
  deployment_target_id = input.subject.deployment_target_id;
  status = ReleaseStatus.pending_confirm;
  source = input.source;
  idempotency_key = input.idempotency_key;
  created_by_type = input.created_by_type;
  created_by_id = input.created_by_id;
  authorized_by_user_id = input.authorized_by_user_id;
  confirmed_by_user_id = "";
  confirmed_at = none;
  rejected_by_user_id = "";
  rejected_reason = "";
  rollback_of_id = "";
  summary_status = none;
  summary_message = "";
  metadata = input.metadata;
  created_at = 0;
  updated_at = 0;
}

unfoldable pub notify_if_production : ReleaseService → ConfirmMode → ReleaseRequest → M (Unit {0})
notify_if_production s self_confirm item = pure tt
notify_if_production s admin_confirm item = notify_production_pending s.notifier item

-- Create, after the look-up of the key.
unfoldable pub create_new : ReleaseService → CreateReleaseInput → M Answered
unfolding is_block with_defaults new_release record_event record_preflight_event
    notify_if_production
create_new s input = do
  checked ← preflight s.outside input.subject
  fail_if (is_block checked.result) preflight_blocked
  service ← get_service input.subject.service_id
  let full = with_defaults input
  item ← create_release_request (new_release full service.project_id)
  record_event item.id "" "release_created"
      (record {
        type = full.created_by_type;
        id = full.created_by_id;
        api_key_id = full.api_key_id;
      })
      "发布单已创建" ""
  record_preflight_event s item.id checked
      (record { type = "system"; id = "create_recheck"; api_key_id = full.api_key_id })
  notify_if_production s checked.confirm_mode item
  pure (item, some checked)

-- The answer to a key that is there: the same release for the same request.
unfoldable pub answer_existing : ReleaseService → CreateReleaseInput → ReleaseRequest → M Answered
unfolding same_idempotent_create with_defaults shown
answer_existing s input existing = do
  fail_if (not (same_idempotent_create existing (with_defaults input))) idempotency_conflict
  checked ← attempt (preflight s.outside input.subject)
  pure (existing, shown checked)

unfoldable pub create_keyed :
    ReleaseService → CreateReleaseInput → Result ReleaseRequest → M Answered
unfolding answer_existing create_new
create_keyed s input (ok existing) = answer_existing s input existing
create_keyed s input (err e) = if is_not_found e then create_new s input else raise e

-- ReleaseService.Create
unfoldable pub create : ReleaseService → CreateReleaseInput → M Answered
unfolding create_keyed create_new
create s input =
    if input.idempotency_key == ""
    then create_new s input
    else attempt (find_release_by_idempotency input.idempotency_key) >>= create_keyed s input
