-- ===== src/Database.antt =====
-- The tables that the modelled statements read and write (migrations/sqlite, migrations/mysql), each
-- as the list of its rows in insertion order. A NULL text column is the empty text, as
-- `nullString` and `nullStringValue` of internal/repository/release.go convert it.
use ai_pub.Base.{ℕ, Bool, String, List, Option}
use ai_pub.Domain.{
  Project, Service, ServiceVersion, Environment, Server, SshDeploymentTarget, K8sDeploymentTarget,
  ℤ, K8sCluster, User, Credential, ReleaseRequest, DeployStatus, TargetSnapshot, DeployTargetLog,
  DeploymentState, ReleaseEvent, ServiceVersionEvent, ApiKey,
}

-- A row of `deploy_records`: the columns of the struct, and five that only statements use.
pub record DeployRow : Type 0 where
  pub id : String
  pub release_request_id : String
  pub status : DeployStatus
  pub executor_type : String
  pub target_snapshot : TargetSnapshot
  pub total_targets : ℕ
  pub success_targets : ℕ
  pub failed_targets : ℕ
  pub skipped_targets : ℕ
  pub worker_id : String
  pub created_at : ℕ
  pub updated_at : ℕ
  pub lease_expires_at : Option ℕ
  pub heartbeat_at : Option ℕ
  pub started_at : Option ℕ
  pub finished_at : Option ℕ
  pub error_summary : String

-- A row of `deployment_targets`.
pub record TargetRow : Type 0 where
  pub id : String
  pub service_id : String
  pub environment_id : String
  pub executor_type : String
  pub artifact_type : String
  pub timeout_seconds : ℤ
  pub enabled : Bool
  pub created_at : ℕ
  pub updated_at : ℕ

-- A row of `server_group_members`.
pub record GroupMember : Type 0 where
  pub server_group_id : String
  pub server_id : String

-- A row of `server_groups`.
pub record GroupRow : Type 0 where
  pub id : String
  pub name : String
  pub description : String
  pub enabled : Bool
  pub created_at : ℕ
  pub updated_at : ℕ

-- A row of `api_keys`: the struct, and two columns that only statements use.
pub record KeyRow : Type 0 where
  pub key : ApiKey
  pub key_hash : String
  pub owner_type : String

pub record Db : Type 0 where
  pub projects : List Project
  pub services : List Service
  pub versions : List ServiceVersion
  pub environments : List Environment
  pub servers : List Server
  pub groups : List GroupRow
  pub group_members : List GroupMember
  pub targets : List TargetRow
  pub ssh_targets : List SshDeploymentTarget
  pub k8s_targets : List K8sDeploymentTarget
  pub clusters : List K8sCluster
  pub users : List User
  pub api_keys : List KeyRow
  pub credentials : List Credential
  pub releases : List ReleaseRequest
  pub deploys : List DeployRow
  pub logs : List DeployTargetLog
  pub states : List DeploymentState
  pub events : List ReleaseEvent
  pub version_events : List ServiceVersionEvent
