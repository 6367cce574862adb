-- ===== src/App/Preflight.antt =====
-- internal/app/release.go: Preflight and what it checks before a release may go on.
pub mod Text
pub mod Blocks
pub mod Clear
use Prim.Native.Char.{code}
use ai_pub.Base.{
  ℕ, Bool, true, false, not, ◌&&◌, ◌||◌, String, Option, none, some, List, [], ◌∷◌, ◌++◌, ◌==◌, ◌-◌,
  ltb, leb, nat_eq, text_lt, concat, rows_where, sort_rows, if◌then◌else◌,
}
unfoldable pub use ai_pub.Strings.{is_blank, join}
unfoldable pub use ai_pub.App.Preflight.Text.{is_oci_digest}
use ai_pub.Domain.{
  Environment, ServiceVersion, DeploymentTarget, SshDeploymentTarget, K8sDeploymentTarget,
  K8sCluster, Credential,
}
use ai_pub.Action.{M, Result, ok, err, pure, attempt, ◌>>=◌, ◌>>◌}
use ai_pub.Repository.Lookup.{
  get_environment, get_service_version, get_deployment_target, get_k8s_cluster, get_credential,
  count_running_releases,
}
use text.Mathlib.Text.{starts_with}

pub data Verdict : Type 0 where
  pass block : Verdict

pub data ConfirmMode : Type 0 where
  self_confirm admin_confirm : ConfirmMode

pub data Level : Type 0 where
  ready warning blocking : Level

pub record PreflightItem : Type 0 where
  pub code_text : String
  pub level : Level
  pub message_text : String

pub record PreflightResult : Type 0 where
  pub result : Verdict
  pub next_action : ConfirmMode
  pub confirm_mode : ConfirmMode
  pub items : List PreflightItem

pub record PreflightInput : Type 0 where
  pub service_id : String
  pub environment_id : String
  pub service_version_id : String
  pub deployment_target_id : String

-- What is not in the repository: `json.Unmarshal` into a map, as the keys it yields, and the
-- checker of a Kubernetes deployment, which may be nil.
pub record Outside : Type 0 where
  pub json_keys : String → Option (List String)
  pub k8s_preflight : Option (K8sDeploymentTarget → M (String × String))

-- (*PreflightResult).block
unfoldable pub add_block : String → String → PreflightResult → PreflightResult
add_block c m r = record r {
  result = block;
  items = r.items ++ (record { code_text = c; level = blocking; message_text = m } ∷ []);
}

-- `if test { result.block(…) }`
unfoldable pub block_if : Bool → String → String → PreflightResult → PreflightResult
unfolding add_block
block_if true c m r = add_block c m r
block_if false c m r = r

-- reservedEnvConflicts
unfoldable pub reserved_env_conflicts : Outside → String → List String
reserved_env_conflicts out raw = if raw == "" then [] else elim (out.json_keys raw) [
  | none ↦ []
  | some keys ↦ sort_rows text_lt (rows_where (λ k. starts_with k "AI_PUB_") keys)
]

-- The empty `*SSH` and its variables.
ssh_env_vars : Option SshDeploymentTarget → String
ssh_env_vars none = ""
ssh_env_vars (some ssh) = ssh.env_vars

has_conflicts : List String → Bool
has_conflicts [] = false
has_conflicts (_ ∷ _) = true

-- The version and the target are those of the service and the environment, and the target sets no
-- reserved variable.
unfoldable pub check_subject :
    Outside → PreflightInput → ServiceVersion → DeploymentTarget → PreflightResult → PreflightResult
unfolding block_if reserved_env_conflicts ssh_env_vars has_conflicts join
check_subject out input version target r0 =
    let r1 =
      block_if (not (version.service_id == input.service_id)) "version_service_mismatch" "版本不属于目标服务"
        r0 in
    let r2 =
      block_if
        (not (target.service_id == input.service_id)
          || not (target.environment_id == input.environment_id))
        "target_mismatch" "部署目标与服务或环境不匹配" r1 in
    let conflicts = reserved_env_conflicts out (ssh_env_vars target.ssh) in
    block_if (has_conflicts conflicts) "reserved_env_var"
      (concat ("部署目标环境变量不能覆盖系统变量: " ∷ join ", " conflicts ∷ [])) r2

-- The immutable reference of an OCI image; a missing one is a warning elsewhere.
unfoldable pub check_artifact :
    DeploymentTarget → ServiceVersion → PreflightResult → PreflightResult
unfolding add_block block_if is_oci_digest
check_artifact target version r =
    if target.artifact_type == "oci_image"
    then if version.artifact_url == ""
      then add_block "artifact_url_missing" "OCI 镜像部署目标要求版本必须配置 artifact_url（完整 digest 引用）" r
      else block_if (not (is_oci_digest version.artifact_url)) "artifact_url_invalid"
          "OCI 镜像部署目标的 artifact_url 必须匹配 `repo@sha256:<64位十六进制>`" r
    else if version.artifact_url == ""
    then record r {
      items =
          r.items
          ++ (record {
            code_text = "artifact_url_missing";
            level = warning;
            message_text = "版本未配置制品地址，部署脚本需要自行根据版本号解析制品";
          }
              ∷ []);
    }
    else r

unfoldable pub is_pass : Verdict → Bool
is_pass pass = true
is_pass block = false

unfoldable pub report_check : PreflightResult → Result (String × String) → PreflightResult
unfolding add_block
report_check r (err e) = add_block "cluster_not_available" "K8s 集群检查失败" r
report_check r (ok (c, m)) = if c == "" then r else add_block c m r

-- The call of the checker, when nothing has blocked yet.
unfoldable pub check_k8s_deployment :
    Option (K8sDeploymentTarget → M (String × String))
    → K8sDeploymentTarget
    → PreflightResult
    → M PreflightResult
unfolding is_pass report_check
check_k8s_deployment none k8s r = pure r
check_k8s_deployment (some check) k8s r =
    if is_pass r.result
    then (do answer ← attempt (check k8s); pure (report_check r answer))
    else pure r

unfoldable pub check_credential :
    Outside → K8sDeploymentTarget → PreflightResult → Result Credential → M PreflightResult
unfolding add_block block_if check_k8s_deployment
check_credential out k8s r (err e) =
    pure (add_block "cluster_not_available" "K8s 集群 kubeconfig 凭据不可用" r)
check_credential out k8s r (ok credential) = check_k8s_deployment out.k8s_preflight k8s (
    block_if (not credential.enabled || not (credential.type == "kubeconfig"))
      "cluster_not_available" "K8s 集群 kubeconfig 凭据不可用" r)

unfoldable pub check_cluster :
    Outside → K8sDeploymentTarget → PreflightResult → Result K8sCluster → M PreflightResult
unfolding add_block block_if check_credential
check_cluster out k8s r (err e) = pure (add_block "cluster_not_available" "K8s 集群不可用" r)
check_cluster out k8s r (ok cluster) = do
  credential ← attempt (get_credential cluster.credential_ref)
  check_credential out k8s (block_if (not cluster.enabled) "cluster_not_available" "K8s 集群已禁用" r)
      credential

unfoldable pub check_names : K8sDeploymentTarget → PreflightResult → PreflightResult
unfolding block_if is_blank
check_names k8s r =
    let r1 = block_if (is_blank k8s.namespace) "namespace_missing" "K8s 部署目标必须填写 namespace" r in
    let r2 =
      block_if (is_blank k8s.deployment_name) "deployment_name_missing" "K8s 部署目标必须填写 Deployment 名称"
        r1 in
    block_if (is_blank k8s.container_name) "container_name_missing" "K8s 部署目标必须填写容器名称" r2

unfoldable pub check_k8s_config :
    Outside → Option K8sDeploymentTarget → PreflightResult → M PreflightResult
unfolding add_block check_names check_cluster
check_k8s_config out none r = pure (add_block "k8s_target_missing" "K8s 部署目标配置缺失" r)
check_k8s_config out (some k8s) r = do
  let named = check_names k8s r
  cluster ← attempt (get_k8s_cluster k8s.cluster_id)
  check_cluster out k8s named cluster

-- preflightK8sTarget
unfoldable pub preflight_k8s_target :
    Outside → DeploymentTarget → PreflightResult → M PreflightResult
unfolding block_if check_k8s_config
preflight_k8s_target out target r =
    if target.executor_type == "k8s"
    then check_k8s_config out target.k8s (
        block_if (not (target.artifact_type == "oci_image")) "artifact_type_invalid"
          "K8s 部署目标必须使用 oci_image 制品类型" r)
    else pure r

abbrev mode_of : Bool → ConfirmMode
mode_of true = admin_confirm
mode_of false = self_confirm

unfoldable pub start_result : Environment → PreflightResult
start_result env = record {
  result = pass;
  next_action = mode_of env.is_production;
  confirm_mode = mode_of env.is_production;
  items = [];
}

unfoldable pub close_result : PreflightResult → PreflightResult
unfolding is_pass
close_result r =
    if is_pass r.result
    then record r {
      items =
          r.items
          ++ (record { code_text = "target_ready"; level = ready; message_text = "部署目标配置完整" } ∷ []);
    }
    else r

-- ReleaseService.Preflight
unfoldable pub preflight : Outside → PreflightInput → M PreflightResult
unfolding block_if check_subject preflight_k8s_target check_artifact start_result close_result
preflight out input = do
  env ← get_environment input.environment_id
  version ← get_service_version input.service_version_id
  target ← get_deployment_target input.deployment_target_id
  k8s_checked ←
      preflight_k8s_target out target (check_subject out input version target (start_result env))
  let artifact_checked = check_artifact target version k8s_checked
  let frozen_checked = block_if env.release_frozen "environment_frozen" "当前环境已冻结发布" artifact_checked
  running ← count_running_releases input.service_id input.environment_id
  pure (close_result (block_if (ltb 0 running) "running_conflict" "同服务同环境已有运行中发布" frozen_checked))
