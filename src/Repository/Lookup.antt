-- ===== src/Repository/Lookup.antt =====
-- internal/repository: the statements that read one row, or count rows, for the services above.
use ai_pub.Base.{
  ◌≡◌, refl, Option, ℕ, ◌&&◌, String, none, some, ◌==◌, find_row, count_rows, if◌then◌else◌,
}
use ai_pub.Domain.{
  Service, ServiceVersion, Environment, Server, DeploymentTarget, K8sCluster, User, Credential,
  ReleaseRequest, SshDeploymentTarget, K8sDeploymentTarget, is_release_running,
}
use ai_pub.Database.{TargetRow}
use ai_pub.Action.{not_found, Result, ok, err, M, pure, raise, attempt, query, query_row, ◌>>=◌}

-- internal/repository/repository.go, release.go, k8s.go and credential.go: the getters by id.
unfoldable pub get_service : String → M Service
get_service id = query_row (λ d. find_row (λ x. x.id == id) d.services)

unfoldable pub get_environment : String → M Environment
get_environment id = query_row (λ d. find_row (λ x. x.id == id) d.environments)

unfoldable pub get_server : String → M Server
get_server id = query_row (λ d. find_row (λ x. x.id == id) d.servers)

-- scanUser reads neither the password nor the session's version.
unfoldable pub without_credentials : User → User
without_credentials x = record x { password_hash = ""; session_version = 0 }

unfoldable pub scan_user : Option User → Option User
unfolding without_credentials
scan_user none = none
scan_user (some x) = some (without_credentials x)

unfoldable pub get_user : String → M User
unfolding scan_user
get_user id = query_row (λ d. scan_user (find_row (λ x. x.id == id) d.users))

-- The row that a user was scanned from.
pub scan_user-some :
    (o : Option User) (user : User)
    → scan_user o ≡ some user
    → (row : User) × (o ≡ some row) × (without_credentials row ≡ user)
unfolding scan_user
scan_user-some none user p = cc
scan_user-some (some x) user p = (x, refl, cc)

unfoldable pub get_service_version : String → M ServiceVersion
get_service_version id = query_row (λ d. find_row (λ x. x.id == id) d.versions)

unfoldable pub get_k8s_cluster : String → M K8sCluster
get_k8s_cluster id = query_row (λ d. find_row (λ x. x.id == id) d.clusters)

unfoldable pub get_credential : String → M Credential
get_credential id = query_row (λ d. find_row (λ x. x.id == id) d.credentials)

unfoldable pub get_release_request : String → M ReleaseRequest
get_release_request id = query_row (λ d. find_row (λ x. x.id == id) d.releases)

-- An empty key finds nothing; a stored release without a key has the empty text (NULL).
unfoldable pub find_release_by_idempotency : String → M ReleaseRequest
find_release_by_idempotency key =
    if key == ""
    then raise not_found
    else query_row (λ d. find_row (λ x. x.idempotency_key == key) d.releases)

unfoldable pub count_running_releases : String → String → M ℕ
count_running_releases service_id environment_id = query (λ d.
    count_rows
      (λ x.
        x.service_id == service_id
        && (x.environment_id == environment_id && is_release_running x.status))
      d.releases)

-- The scanned row has no configuration yet, and the fields outside the JSON form are empty.
unfoldable pub scan_deployment_target : TargetRow → DeploymentTarget
scan_deployment_target r = record {
  id = r.id;
  service_id = r.service_id;
  environment_id = r.environment_id;
  executor_type = r.executor_type;
  artifact_type = r.artifact_type;
  timeout_seconds = r.timeout_seconds;
  enabled = r.enabled;
  ssh = none;
  k8s = none;
  target_type = "";
  target_ref_id = "";
  script_path = "";
  working_dir = "";
  env_vars = "";
  created_at = r.created_at;
  updated_at = r.updated_at;
}

-- A configuration row that is missing is an error only for the executor that needs it.
unfoldable pub attach_ssh : DeploymentTarget → Result SshDeploymentTarget → M DeploymentTarget
attach_ssh item (ok ssh) = pure (record item { ssh = some ssh })
attach_ssh item (err e) = if item.executor_type == "ssh" then raise e else pure item

unfoldable pub attach_k8s : DeploymentTarget → Result K8sDeploymentTarget → M DeploymentTarget
attach_k8s item (ok k8s) = pure (record item { k8s = some k8s })
attach_k8s item (err e) = if item.executor_type == "k8s" then raise e else pure item

unfoldable pub attach_deployment_target_config : DeploymentTarget → M DeploymentTarget
attach_deployment_target_config item = do
  ssh ← attempt (query_row (λ d. find_row (λ x. x.deployment_target_id == item.id) d.ssh_targets))
  with_ssh ← attach_ssh item ssh
  k8s ← attempt (query_row (λ d. find_row (λ x. x.deployment_target_id == item.id) d.k8s_targets))
  attach_k8s with_ssh k8s

unfoldable pub get_deployment_target : String → M DeploymentTarget
unfolding scan_deployment_target
get_deployment_target id = do
  row ← query_row (λ d. find_row (λ x. x.id == id) d.targets)
  attach_deployment_target_config (scan_deployment_target row)
