-- ===== src/Domain/Release.antt =====
-- internal/domain/models.go: releases, their deploy records and target logs, and the events. The
-- status texts that the code and the tables' CHECK constraints allow are enumerations.
use ai_pub.Domain.Inventory.{ℤ, DeploymentTarget, Server}
use ai_pub.Base.{ℕ, Bool, true, false, String, List, Option}

pub data ReleaseStatus : Type 0 where
  pending_confirm queued running success failed partial cancelled rejected : ReleaseStatus

pub data DeployStatus : Type 0 where
  queued running success failed partial cancelled : DeployStatus

pub data TargetStatus : Type 0 where
  queued running success failed skipped : TargetStatus

pub record ReleaseRequest : Type 0 where
  pub id : String
  pub project_id : String
  pub service_id : String
  pub environment_id : String
  pub service_version_id : String
  pub deployment_target_id : String
  pub status : ReleaseStatus
  pub source : String
  pub idempotency_key : String
  pub created_by_type : String
  pub created_by_id : String
  pub authorized_by_user_id : String
  pub confirmed_by_user_id : String
  pub confirmed_at : Option ℕ
  pub rejected_by_user_id : String
  pub rejected_reason : String
  pub rollback_of_id : String
  pub summary_status : Option DeployStatus
  pub summary_message : String
  pub metadata : String
  pub created_at : ℕ
  pub updated_at : ℕ

-- What one execution step of a deploy acts on (`ExecutionTarget` of internal/repository/deploy.go).
pub record ExecutionTarget : Type 0 where
  pub type : String
  pub ref_id : String
  pub name : String

-- The stored JSON text of a target snapshot, as `json.Unmarshal` reads it back: the snapshot
-- object, the bare deployment target of older records, or a text that is neither.
pub data TargetSnapshot : Type 0 where
  snapshot : DeploymentTarget → List Server → List ExecutionTarget → TargetSnapshot
  legacy : DeploymentTarget → TargetSnapshot
  other : TargetSnapshot

pub record DeployRecord : Type 0 where
  pub id : String
  pub release_request_id : String
  pub status : DeployStatus
  pub executor_type : String
  pub target_snapshot : TargetSnapshot
  pub total_targets : ℕ
  pub success_targets : ℕ
  pub failed_targets : ℕ
  pub skipped_targets : ℕ
  pub worker_id : String
  pub created_at : ℕ
  pub updated_at : ℕ

pub record DeployTargetLog : Type 0 where
  pub id : String
  pub deploy_record_id : String
  pub target_type : String
  pub target_ref_id : String
  pub target_name : String
  pub status : TargetStatus
  pub exit_code : Option ℤ
  pub started_at : Option ℕ
  pub finished_at : Option ℕ
  pub duration_ms : ℕ
  pub log_output : String
  pub error_code : String
  pub error_message : String

pub record DeploymentState : Type 0 where
  pub id : String
  pub service_id : String
  pub environment_id : String
  pub deployment_target_id : String
  pub target_type : String
  pub target_ref_id : String
  pub service_version_id : String
  pub deploy_record_id : String
  pub updated_at : ℕ

pub record ReleaseEvent : Type 0 where
  pub id : String
  pub release_request_id : String
  pub deploy_record_id : String
  pub event_type : String
  pub actor_type : String
  pub actor_id : String
  pub authorized_user_id : String
  pub api_key_id : String
  pub source_ip : String
  pub message : String
  pub metadata : String
  pub created_at : ℕ

pub record ServiceVersionEvent : Type 0 where
  pub id : String
  pub service_version_id : String
  pub event_type : String
  pub actor_type : String
  pub actor_id : String
  pub api_key_id : String
  pub registration_idempotency_key : String
  pub message : String
  pub metadata : String
  pub created_at : ℕ

-- The tests of the `WHERE` clauses on a status.
abbrev pub is_pending_confirm : ReleaseStatus → Bool
is_pending_confirm ReleaseStatus.pending_confirm = true
is_pending_confirm _ = false

abbrev pub is_release_queued : ReleaseStatus → Bool
is_release_queued ReleaseStatus.queued = true
is_release_queued _ = false

abbrev pub is_release_running : ReleaseStatus → Bool
is_release_running ReleaseStatus.running = true
is_release_running _ = false

-- status IN ('pending_confirm', 'queued')
abbrev pub is_cancellable : ReleaseStatus → Bool
is_cancellable ReleaseStatus.pending_confirm = true
is_cancellable ReleaseStatus.queued = true
is_cancellable _ = false

abbrev pub is_deploy_queued : DeployStatus → Bool
is_deploy_queued DeployStatus.queued = true
is_deploy_queued _ = false

abbrev pub is_deploy_running : DeployStatus → Bool
is_deploy_running DeployStatus.running = true
is_deploy_running _ = false

abbrev pub is_target_queued : TargetStatus → Bool
is_target_queued TargetStatus.queued = true
is_target_queued _ = false

abbrev pub is_target_success : TargetStatus → Bool
is_target_success TargetStatus.success = true
is_target_success _ = false

abbrev pub is_target_failed : TargetStatus → Bool
is_target_failed TargetStatus.failed = true
is_target_failed _ = false

abbrev pub is_target_skipped : TargetStatus → Bool
is_target_skipped TargetStatus.skipped = true
is_target_skipped _ = false

-- status IN ('queued', 'running')
abbrev pub is_unfinished : TargetStatus → Bool
is_unfinished TargetStatus.queued = true
is_unfinished TargetStatus.running = true
is_unfinished _ = false
