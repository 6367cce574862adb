-- ===== src/App/Release/Decide.antt =====
-- internal/app/release.go: Confirm, Reject and Cancel.
pub mod Allowed
pub mod Rejects
pub mod Cancels
use ai_pub.Base.{
  Bool, true, false, not, ◌&&◌, ◌||◌, String, Option, none, some, ◌==◌, if◌then◌else◌,
}
use ai_pub.Domain.{ReleaseStatus, ReleaseRequest, is_pending_confirm, is_cancellable}
use ai_pub.Action.{M, message, preflight_blocked, pure, raise, fail_if, ◌>>=◌, ◌>>◌}
use ai_pub.Repository.Lookup.{get_release_request, get_user, get_deployment_target}
use ai_pub.Repository.Release.{reject_release, cancel_release}
use ai_pub.Repository.Confirm.{confirm_and_queue_release}
use ai_pub.App.Preflight.{PreflightInput, ConfirmMode, self_confirm, admin_confirm, preflight}
use ai_pub.App.Release.{Actor, ReleaseService, is_block, record_event}

-- ConfirmInput, RejectInput and CancelInput; only a rejection has a reason.
pub record ActionInput : Type 0 where
  pub user_id : String
  pub reason : String
  pub api_key_id : String
  pub actor : Actor

-- releaseActionActor
unfoldable pub release_action_actor : Actor → String → String → Actor
release_action_actor actor user_id api_key_id =
    if not (actor.type == "")
    then actor
    else if not (api_key_id == "")
    then record { type = "api_key"; id = api_key_id; api_key_id = api_key_id }
    else record { type = "user"; id = user_id; api_key_id = api_key_id }

unfoldable pub actor_of : ActionInput → Actor
unfolding release_action_actor
actor_of input = release_action_actor input.actor input.user_id input.api_key_id

-- validateReleaseActionActor: whether it returns nil.
unfoldable pub may_act : ReleaseRequest → Actor → Bool
may_act release actor =
    (actor.type == "user" && not (actor.id == ""))
    || (actor.type == "api_key"
        && (release.created_by_type == "api_key" && release.created_by_id == actor.id))

-- actionUserID
unfoldable pub action_user_id : Actor → String
action_user_id actor = if actor.type == "user" then actor.id else ""

unfoldable pub is_self : ConfirmMode → Bool
is_self self_confirm = true
is_self admin_confirm = false

abbrev pub subject_of : ReleaseRequest → PreflightInput
subject_of release = record {
  service_id = release.service_id;
  environment_id = release.environment_id;
  service_version_id = release.service_version_id;
  deployment_target_id = release.deployment_target_id;
}

-- The cases of Confirm on the kind of the actor: the user who confirms, "" for an API key.
unfoldable pub check_user : ConfirmMode → ReleaseRequest → String → M String
unfolding is_self
check_user mode release user_id = do
  user ← get_user user_id
  fail_if (not user.enabled) (message "user is disabled")
  fail_if
      (is_self mode
        && (not (release.created_by_type == "user") || not (release.created_by_id == user.id)))
      (message "non-production release requires creator self confirmation")
  fail_if (not (is_self mode) && not (user.role == "admin"))
      (message "production release requires admin confirmation")
  pure user.id

unfoldable pub check_api_key : ConfirmMode → ReleaseRequest → String → M String
unfolding is_self
check_api_key mode release key_id = do
  fail_if (not (is_self mode)) (message "production release requires admin session confirmation")
  fail_if (not (release.created_by_type == "api_key") || not (release.created_by_id == key_id))
      (message "api key may only confirm its own release")
  pure ""

unfoldable pub check_confirmer : ConfirmMode → ReleaseRequest → Actor → M String
unfolding check_user check_api_key
check_confirmer mode release actor =
    if actor.type == "user"
    then check_user mode release actor.id
    else if actor.type == "api_key"
    then check_api_key mode release actor.id
    else raise (message "release actor is required")

-- A release that was confirmed before is answered as it is.
unfoldable pub answer_decided : ReleaseStatus → ReleaseRequest → M ReleaseRequest
answer_decided ReleaseStatus.queued release = pure release
answer_decided ReleaseStatus.running release = pure release
answer_decided ReleaseStatus.success release = pure release
answer_decided ReleaseStatus.failed release = pure release
answer_decided ReleaseStatus.partial release = pure release
answer_decided _ release = raise (message "release is not pending_confirm")

unfoldable pub confirm_pending :
    ReleaseService → ReleaseRequest → String → ActionInput → M ReleaseRequest
unfolding is_block check_confirmer record_event actor_of
confirm_pending s release id input = do
  checked ← preflight s.outside (subject_of release)
  fail_if (is_block checked.result) preflight_blocked
  let actor = actor_of input
  user_id ← check_confirmer checked.confirm_mode release actor
  target ← get_deployment_target release.deployment_target_id
  made ← confirm_and_queue_release id user_id target
  record_event made.0.id made.1.id "release_confirmed" actor "发布单已确认并入队" ""
  pure made.0

-- ReleaseService.Confirm
unfoldable pub confirm : ReleaseService → String → ActionInput → M ReleaseRequest
unfolding answer_decided confirm_pending
confirm s id input = do
  release ← get_release_request id
  if is_pending_confirm release.status
      then confirm_pending s release id input
      else answer_decided release.status release

-- ReleaseService.Reject
unfoldable pub reject : String → ActionInput → M ReleaseRequest
unfolding may_act action_user_id record_event actor_of
reject id input = do
  release ← get_release_request id
  let actor = actor_of input
  fail_if (not (may_act release actor)) (message "api key may only act on its own release")
  updated ← reject_release id (action_user_id actor) input.reason
  record_event updated.id "" "release_rejected" actor input.reason ""
  pure updated

unfoldable pub is_cancelled : ReleaseStatus → Bool
is_cancelled ReleaseStatus.cancelled = true
is_cancelled _ = false

unfoldable pub cancel_current : ReleaseRequest → String → ActionInput → M ReleaseRequest
unfolding may_act action_user_id record_event is_cancelled actor_of
cancel_current current id input = do
  let actor = actor_of input
  fail_if (not (may_act current actor)) (message "api key may only act on its own release")
  updated ← cancel_release id (action_user_id actor)
  if is_cancelled updated.status
      then (do record_event updated.id "" "release_cancelled" actor "发布单已取消" ""; pure updated)
      else pure updated

-- ReleaseService.Cancel: what is over or running is answered as it is.
unfoldable pub cancel : String → ActionInput → M ReleaseRequest
unfolding cancel_current
cancel id input = do
  current ← get_release_request id
  if is_cancellable current.status then cancel_current current id input else pure current
