-- ===== src/App/Notify.antt =====
-- internal/app/release.go and notification.go: the notifications of a release, and their texts.
use ai_pub.Base.{◌==◌, ◌&&◌, not, String, Option, none, some, [], ◌∷◌, concat, if◌then◌else◌}
use ai_pub.Domain.{ReleaseRequest, Service, Environment, ServiceVersion, User}
use ai_pub.Action.{M, Result, ok, err, pure, attempt, ◌>>=◌}
use ai_pub.Repository.Lookup.{get_service, get_environment, get_service_version, get_user}

pub record NotificationEvent : Type 0 where
  pub event_type : String
  pub release_request_id : String
  pub deploy_record_id : String
  pub content : String

-- releaseNotifier, which may be nil.
abbrev pub Notifier : Type 0
Notifier = Option (NotificationEvent → M (Unit {0}))

-- chooseString
unfoldable pub choose_string : String → String → String
choose_string value fallback = if value == "" then fallback else value

pub record NotificationLabels : Type 0 where
  pub service_name : String
  pub environment_name : String
  pub version : String
  pub created_by : String

-- A name that is found and is not empty replaces the id.
service_label : String → Result Service → String
unfolding choose_string
service_label id (ok x) = choose_string x.name id
service_label id (err e) = id

environment_label : String → Result Environment → String
unfolding choose_string
environment_label id (ok x) = choose_string x.name id
environment_label id (err e) = id

version_label : String → Result ServiceVersion → String
unfolding choose_string
version_label id (ok x) = choose_string x.version id
version_label id (err e) = id

user_label : String → Result User → String
unfolding choose_string
user_label id (ok x) = choose_string x.display_name x.username
user_label id (err e) = id

creator_label : ReleaseRequest → M String
unfolding user_label
creator_label release =
    if release.created_by_type == "user" && not (release.created_by_id == "")
    then (do
      user ← attempt (get_user release.created_by_id)
      pure (user_label release.created_by_id user))
    else pure release.created_by_id

-- notificationLabels
unfoldable pub notification_labels : ReleaseRequest → M NotificationLabels
unfolding service_label environment_label version_label creator_label
notification_labels release = do
  service ← attempt (get_service release.service_id)
  env ← attempt (get_environment release.environment_id)
  version ← attempt (get_service_version release.service_version_id)
  created_by ← creator_label release
  pure (record {
    service_name = service_label release.service_id service;
    environment_name = environment_label release.environment_id env;
    version = version_label release.service_version_id version;
    created_by = created_by;
  })

-- PendingConfirmContent
pending_confirm_content : NotificationLabels → String → String
pending_confirm_content labels release_id = concat (
    "【发布待确认】\n服务：" ∷ labels.service_name ∷ "\n环境：" ∷ labels.environment_name ∷ "\n版本："
    ∷ labels.version ∷ "\n申请人：" ∷ labels.created_by ∷ "\n发布单：" ∷ release_id ∷ "\n请管理员进入发布中心确认。"
    ∷ [])

-- RollbackContent
rollback_content : NotificationLabels → String → String → String
rollback_content labels original_id release_id = concat (
    "【回滚申请】\n服务：" ∷ labels.service_name ∷ "\n环境：" ∷ labels.environment_name ∷ "\n回滚版本："
    ∷ labels.version ∷ "\n原发布单：" ∷ original_id ∷ "\n新发布单：" ∷ release_id ∷ [])

-- notifyProductionPending
unfoldable pub notify_production_pending : Notifier → ReleaseRequest → M (Unit {0})
unfolding notification_labels pending_confirm_content
notify_production_pending none release = pure tt
notify_production_pending (some notify) release = do
  labels ← notification_labels release
  notify (record {
    event_type = "prod_pending_confirm";
    release_request_id = release.id;
    deploy_record_id = "";
    content = pending_confirm_content labels release.id;
  })

-- notifyRollbackRequested
unfoldable pub notify_rollback_requested : Notifier → ReleaseRequest → ReleaseRequest → M (Unit {0})
unfolding notification_labels rollback_content
notify_rollback_requested none original rollback = pure tt
notify_rollback_requested (some notify) original rollback = do
  labels ← notification_labels rollback
  notify (record {
    event_type = "rollback_requested";
    release_request_id = rollback.id;
    deploy_record_id = "";
    content = rollback_content labels original.id rollback.id;
  })
