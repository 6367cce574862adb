-- ===== src/Domain/Inventory.antt =====
-- internal/domain/models.go: what a release refers to. Times are milliseconds since the epoch; a
-- pointer is an `Option`; an `int` that may be negative is a ℤ.
use ai_pub.Base.{ℕ, Bool, String, Option, List}

-- `negsuc n` is -(n + 1).
pub data ℤ : Type 0 where
  pos : ℕ → ℤ
  negsuc : ℕ → ℤ

pub record Project : Type 0 where
  pub id : String
  pub name : String
  pub slug : String
  pub description : String
  pub enabled : Bool
  pub created_at : ℕ
  pub updated_at : ℕ

pub record Service : Type 0 where
  pub id : String
  pub project_id : String
  pub name : String
  pub slug : String
  pub description : String
  pub enabled : Bool
  pub created_at : ℕ
  pub updated_at : ℕ

pub record ServiceVersion : Type 0 where
  pub id : String
  pub service_id : String
  pub version : String
  pub commit_sha : String
  pub artifact_url : String
  pub source : String
  pub metadata : String
  pub created_by_type : String
  pub created_by_id : String
  pub registration_idempotency_key : String
  pub registration_request_hash : String
  pub created_at : ℕ

pub record Environment : Type 0 where
  pub id : String
  pub name : String
  pub slug : String
  pub is_production : Bool
  pub release_frozen : Bool
  pub created_at : ℕ
  pub updated_at : ℕ

pub record Server : Type 0 where
  pub id : String
  pub name : String
  pub host : String
  pub port : ℤ
  pub username : String
  pub auth_type : String
  pub credential_ref : String
  pub role : String
  pub gateway_id : String
  pub enabled : Bool
  pub last_check_status : String
  pub last_check_at : Option ℕ
  pub created_at : ℕ
  pub updated_at : ℕ

-- A nil slice of ids is `none`.
pub record ServerGroup : Type 0 where
  pub id : String
  pub name : String
  pub description : String
  pub enabled : Bool
  pub server_ids : Option (List String)
  pub created_at : ℕ
  pub updated_at : ℕ

pub record SshDeploymentTarget : Type 0 where
  pub deployment_target_id : String
  pub target_type : String
  pub target_ref_id : String
  pub script_path : String
  pub working_dir : String
  pub env_vars : String

pub record K8sCluster : Type 0 where
  pub id : String
  pub name : String
  pub credential_ref : String
  pub enabled : Bool
  pub created_at : ℕ
  pub updated_at : ℕ

pub record K8sDeploymentTarget : Type 0 where
  pub deployment_target_id : String
  pub cluster_id : String
  pub namespace : String
  pub deployment_name : String
  pub container_name : String

-- The five fields before the times are the ones that `json:"-"` keeps out of a snapshot.
pub record DeploymentTarget : Type 0 where
  pub id : String
  pub service_id : String
  pub environment_id : String
  pub executor_type : String
  pub artifact_type : String
  pub timeout_seconds : ℤ
  pub enabled : Bool
  pub ssh : Option SshDeploymentTarget
  pub k8s : Option K8sDeploymentTarget
  pub target_type : String
  pub target_ref_id : String
  pub script_path : String
  pub working_dir : String
  pub env_vars : String
  pub created_at : ℕ
  pub updated_at : ℕ

pub record User : Type 0 where
  pub id : String
  pub username : String
  pub display_name : String
  pub role : String
  pub enabled : Bool
  pub password_hash : String
  pub session_version : ℕ
  pub created_at : ℕ
  pub updated_at : ℕ

pub record Credential : Type 0 where
  pub id : String
  pub name : String
  pub type : String
  pub description : String
  pub enabled : Bool
  pub created_at : ℕ
  pub updated_at : ℕ

pub record ApiKey : Type 0 where
  pub id : String
  pub name : String
  pub prefix : String
  pub owner_user_id : String
  pub scopes : String
  pub expires_at : Option ℕ
  pub enabled : Bool
  pub last_used_at : Option ℕ
  pub created_at : ℕ
  pub updated_at : ℕ
