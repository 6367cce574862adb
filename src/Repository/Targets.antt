-- ===== src/Repository/Targets.antt =====
-- internal/repository/repository.go: deployment targets, each with the configuration of its executor.
pub mod Configured
pub mod Replaced
pub mod Loads
use ai_pub.Base.{
  ℕ, Bool, true, false, not, ◌&&◌, ◌||◌, String, Option, none, some, List, [], ◌∷◌, ◌++◌, ◌==◌,
  rows_where, exists_row, count_rows, update_rows, delete_rows, sort_rows, is_one_of, if◌then◌else◌,
}
use ai_pub.Strings.{is_blank}
use ai_pub.Domain.{ℤ, pos, DeploymentTarget, SshDeploymentTarget, K8sDeploymentTarget}
use ai_pub.Database.{Db, TargetRow}
use ai_pub.Action.{
  M, message, pure, raise, fail_if, query, insert, exec, update, transaction, now_utc, ◌>>=◌, ◌>>◌,
}
use ai_pub.Repository.Release.{or_default, or_new_id}
use ai_pub.Repository.Lookup.{
  get_k8s_cluster, get_deployment_target, attach_deployment_target_config, scan_deployment_target,
}
use ai_pub.Repository.Inventory.{choose, is_zero, newest}

unfoldable pub has_legacy : DeploymentTarget → Bool
has_legacy item =
    not (item.target_type == "")
    || (not (item.target_ref_id == "")
        || (not (item.script_path == "")
            || (not (item.working_dir == "") || not (item.env_vars == ""))))

-- The configuration for SSH, or the one that the older fields of the request make.
unfoldable pub ssh_given :
    DeploymentTarget → Option SshDeploymentTarget → Option SshDeploymentTarget
unfolding has_legacy
ssh_given item (some ssh) = some ssh
ssh_given item none =
    if has_legacy item
    then some (record {
      deployment_target_id = "";
      target_type = item.target_type;
      target_ref_id = item.target_ref_id;
      script_path = item.script_path;
      working_dir = item.working_dir;
      env_vars = item.env_vars;
    })
    else none

-- `if env_vars == "" { env_vars = "{}" }`, and the id of the target
unfoldable pub complete_ssh : String → SshDeploymentTarget → SshDeploymentTarget
complete_ssh id ssh = record ssh {
  env_vars = or_default ssh.env_vars "{}";
  deployment_target_id = id;
}

-- What an SSH target must have.
unfoldable pub require_ssh : String → Option SshDeploymentTarget → M (Option SshDeploymentTarget)
unfolding complete_ssh
require_ssh id none = raise (message "ssh deployment target config is required")
require_ssh id (some ssh) = pure (some (complete_ssh id ssh))

unfoldable pub has_blank_name : K8sDeploymentTarget → Bool
has_blank_name k8s =
    is_blank k8s.cluster_id
    || (is_blank k8s.namespace || (is_blank k8s.deployment_name || is_blank k8s.container_name))

unfoldable pub check_k8s : String → K8sDeploymentTarget → M K8sDeploymentTarget
unfolding has_blank_name
check_k8s id k8s = do
  fail_if (has_blank_name k8s) (
      message
        "k8s deployment target requires cluster_id, namespace, deployment_name and container_name")
  get_k8s_cluster k8s.cluster_id
  pure (record k8s { deployment_target_id = id })

-- What a Kubernetes target must have.
unfoldable pub require_k8s :
    String → String → Option K8sDeploymentTarget → M (Option K8sDeploymentTarget)
unfolding check_k8s
require_k8s id artifact_type none = raise (message "k8s deployment target config is required")
require_k8s id artifact_type (some k8s) = do
  fail_if (not (artifact_type == "oci_image"))
      (message "k8s deployment target requires artifact_type oci_image")
  checked ← check_k8s id k8s
  pure (some checked)

unfoldable pub target_row : DeploymentTarget → TargetRow
target_row item = record {
  id = item.id;
  service_id = item.service_id;
  environment_id = item.environment_id;
  executor_type = item.executor_type;
  artifact_type = item.artifact_type;
  timeout_seconds = item.timeout_seconds;
  enabled = item.enabled;
  created_at = item.created_at;
  updated_at = item.updated_at;
}

-- The primary key of `ssh_deployment_targets`, and the CHECK on the kind of the target.
unfoldable pub ssh_allowed : SshDeploymentTarget → Db → Bool
ssh_allowed ssh d =
    not (exists_row (λ x. x.deployment_target_id == ssh.deployment_target_id) d.ssh_targets)
    && is_one_of ssh.target_type ("server" ∷ "server_group" ∷ [])

unfoldable pub insert_ssh : String → Option SshDeploymentTarget → M (Unit {0})
unfolding ssh_allowed
insert_ssh id none = pure tt
insert_ssh id (some ssh) =
    let stored = record ssh { deployment_target_id = id } in
    insert (ssh_allowed stored) (λ d. record d { ssh_targets = d.ssh_targets ++ (stored ∷ []) })

unfoldable pub k8s_allowed : K8sDeploymentTarget → Db → Bool
k8s_allowed k8s d =
    not (exists_row (λ x. x.deployment_target_id == k8s.deployment_target_id) d.k8s_targets)

unfoldable pub insert_k8s : String → Option K8sDeploymentTarget → M (Unit {0})
unfolding k8s_allowed
insert_k8s id none = pure tt
insert_k8s id (some k8s) =
    let stored = record k8s { deployment_target_id = id } in
    insert (k8s_allowed stored) (λ d. record d { k8s_targets = d.k8s_targets ++ (stored ∷ []) })

-- The CHECKs of `deployment_targets` on the kinds of the executor and of the artifact.
unfoldable pub kinds_allowed : String → String → Bool
kinds_allowed executor_type artifact_type =
    is_one_of executor_type ("mock" ∷ "ssh" ∷ "k8s" ∷ [])
    && is_one_of artifact_type ("version_only" ∷ "oci_image" ∷ [])

-- The transaction of CreateDeploymentTarget.
unfoldable pub store_target : DeploymentTarget → M (Unit {0})
unfolding target_row kinds_allowed insert_ssh insert_k8s
store_target item = do
  insert
      (λ d.
        not (exists_row (λ x. x.id == item.id) d.targets)
        && kinds_allowed item.executor_type item.artifact_type)
      (λ d. record d { targets = d.targets ++ (target_row item ∷ []) })
  insert_ssh item.id item.ssh
  insert_k8s item.id item.k8s

-- The target with the defaults of CreateDeploymentTarget.
unfoldable pub new_target :
    DeploymentTarget
    → String
    → ℕ
    → Option SshDeploymentTarget
    → Option K8sDeploymentTarget
    → DeploymentTarget
unfolding is_zero
new_target item id now ssh k8s = record item {
  id = id;
  timeout_seconds = if is_zero item.timeout_seconds then pos 300 else item.timeout_seconds;
  artifact_type = or_default item.artifact_type "version_only";
  ssh = ssh;
  k8s = k8s;
  enabled = true;
  created_at = now;
  updated_at = now;
}

-- CreateDeploymentTarget
unfoldable pub create_deployment_target : DeploymentTarget → M DeploymentTarget
unfolding new_target ssh_given require_ssh require_k8s store_target
create_deployment_target item = do
  now ← now_utc
  id ← or_new_id item.id "target"
  let artifact_type = or_default item.artifact_type "version_only"
  let given = ssh_given item item.ssh
  ssh ← if item.executor_type == "ssh" then require_ssh id given else pure given
  k8s ← if item.executor_type == "k8s" then require_k8s id artifact_type item.k8s else pure item.k8s
  let stored = new_target item id now ssh k8s
  transaction (store_target stored)
  pure stored

attach_each : List TargetRow → M (List DeploymentTarget)
attach_each [] = pure []
attach_each (r ∷ rows) = do
  item ← attach_deployment_target_config (scan_deployment_target r)
  rest ← attach_each rows
  pure (item ∷ rest)

-- ListDeploymentTargets: of a service and an environment, either of which may be left empty.
unfoldable pub list_deployment_targets : String → String → M (List DeploymentTarget)
unfolding newest attach_each
list_deployment_targets service_id environment_id = do
  rows ← query (λ d.
      sort_rows (λ x y. newest x.created_at x.id y.created_at y.id)
        (rows_where
          (λ x.
            (service_id == "" || x.service_id == service_id)
            && (environment_id == "" || x.environment_id == environment_id))
          d.targets))
  attach_each rows

unfoldable pub given_or_kept :
    String → Option SshDeploymentTarget → Option SshDeploymentTarget → Option SshDeploymentTarget
unfolding complete_ssh
given_or_kept id none kept = kept
given_or_kept id (some ssh) kept = some (complete_ssh id ssh)

unfoldable pub check_given_k8s :
    String
    → Option K8sDeploymentTarget
    → Option K8sDeploymentTarget
    → M (Option K8sDeploymentTarget)
unfolding check_k8s
check_given_k8s id none kept = pure kept
check_given_k8s id (some k8s) kept = do checked ← check_k8s id k8s; pure (some checked)

unfoldable pub is_missing : {A : Type 0} → Option A → Bool
is_missing none = true
is_missing (some a) = false

-- The checks on the target that the update makes.
unfoldable pub check_complete :
    String → String → Option SshDeploymentTarget → Option K8sDeploymentTarget → M (Unit {0})
unfolding is_missing
check_complete executor_type artifact_type ssh k8s = do
  fail_if (executor_type == "k8s" && not (artifact_type == "oci_image"))
      (message "k8s deployment target requires artifact_type oci_image")
  fail_if (executor_type == "k8s" && is_missing k8s)
      (message "k8s deployment target config is required")
  fail_if (executor_type == "ssh" && is_missing ssh)
      (message "ssh deployment target config is required")

-- The transaction of UpdateDeploymentTarget: only the executor's configuration stays.
unfoldable pub replace_target : String → DeploymentTarget → M (Unit {0})
unfolding kinds_allowed insert_ssh insert_k8s
replace_target id item = do
  update (λ d. kinds_allowed item.executor_type item.artifact_type)
      (λ d. count_rows (λ x. x.id == id) d.targets)
      (λ d. record d {
        targets =
            update_rows (λ x. x.id == id)
              (λ x. record x {
                executor_type = item.executor_type;
                artifact_type = item.artifact_type;
                timeout_seconds = item.timeout_seconds;
                enabled = item.enabled;
                updated_at = item.updated_at;
              })
              d.targets;
      })
  exec (λ d. count_rows (λ x. x.deployment_target_id == id) d.ssh_targets)
      (λ d. record d {
        ssh_targets = delete_rows (λ x. x.deployment_target_id == id) d.ssh_targets;
      })
  exec (λ d. count_rows (λ x. x.deployment_target_id == id) d.k8s_targets)
      (λ d. record d {
        k8s_targets = delete_rows (λ x. x.deployment_target_id == id) d.k8s_targets;
      })
  if item.executor_type == "ssh" then insert_ssh id item.ssh else pure tt
  if item.executor_type == "k8s" then insert_k8s id item.k8s else pure tt

-- The target that UpdateDeploymentTarget stores.
unfoldable pub merged_target :
    String → DeploymentTarget → DeploymentTarget → Option K8sDeploymentTarget → ℕ → DeploymentTarget
unfolding choose is_zero ssh_given given_or_kept
merged_target id existing item k8s now = record existing {
  executor_type = choose item.executor_type existing.executor_type;
  artifact_type = choose item.artifact_type existing.artifact_type;
  ssh = given_or_kept id (ssh_given item item.ssh) existing.ssh;
  k8s = k8s;
  timeout_seconds =
      if is_zero item.timeout_seconds then existing.timeout_seconds else item.timeout_seconds;
  enabled = item.enabled;
  updated_at = now;
}

-- UpdateDeploymentTarget
unfoldable pub update_deployment_target : String → DeploymentTarget → M DeploymentTarget
unfolding choose ssh_given given_or_kept merged_target check_given_k8s check_complete replace_target
update_deployment_target id item = do
  existing ← get_deployment_target id
  k8s ← check_given_k8s id item.k8s existing.k8s
  check_complete (choose item.executor_type existing.executor_type)
      (choose item.artifact_type existing.artifact_type)
      (given_or_kept id (ssh_given item item.ssh) existing.ssh) k8s
  now ← now_utc
  let stored = merged_target id existing item k8s now
  transaction (replace_target id stored)
  pure stored
