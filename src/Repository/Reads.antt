-- ===== src/Repository/Reads.antt =====
-- The draw of an id, and the operations that only read.
use ai_pub.Base.{◌≡◌, refl, ◌==◌, String, List, [], ◌∷◌, Option, none, some}
use ai_pub.Domain.{
  DeploymentTarget, SshDeploymentTarget, K8sDeploymentTarget, Server, ExecutionTarget,
  TargetSnapshot, snapshot, legacy, other,
}
use ai_pub.Database.{Db}
use ai_pub.Action.{M, Err, Result, ok, err, ◌>>=◌}
use ai_pub.Action.Ends.{Mode, Ends, Ends-bind, Ends-if, Ends-pure, Ends-new_id, Keeps, keeps_rules}
use ai_pub.Repository.Release.{or_new_id}
use ai_pub.Repository.Lookup.{
  get_service, get_environment, get_server, get_user, get_service_version, get_k8s_cluster,
  get_credential, get_release_request, find_release_by_idempotency, count_running_releases,
  attach_ssh, attach_k8s, attach_deployment_target_config, get_deployment_target,
}
use ai_pub.Repository.Confirm.{
  group_server_ids, k8s_execution, server_executions, expand_target_servers, get_servers_by_ids,
  expand_target_executions,
}
use ai_pub.Repository.Claim.{
  list_deploy_servers, list_deploy_execution_targets, from_logs, from_table, from_snapshot,
  resolve_deploy_snapshot,
}
use ai_pub.Repository.Finish.{get_deploy_record}

-- An id is drawn where the caller gave none, and nothing else happens.
pub then_or_new_id :
    {c : Mode} {B : Type 0} {R : B → Db → Type 0} {E : Err → Db → Type 0} {d : Db}
    (id prefix : String) (k : String → M B)
    → ((s : String) → Ends c d (k s) R E)
    → Ends c d (or_new_id id prefix >>= k) R E
then_or_new_id {d = d} id prefix k h =
    Ends-bind _ _
      (Ends-if (id == "") _ _ (λ _. Ends-new_id {Q = λ _ e. e ≡ d} prefix (λ _. refl))
        (λ _. Ends-pure _ refl))
      λ s e p. rw p (h s)

module _ {P : Db → Type 0} where
  pub get_service-Keeps : (id : String) → Keeps P (get_service id)
  unfolding get_service
  get_service-Keeps id = search keeps_rules

  pub get_environment-Keeps : (id : String) → Keeps P (get_environment id)
  unfolding get_environment
  get_environment-Keeps id = search keeps_rules

  pub get_server-Keeps : (id : String) → Keeps P (get_server id)
  unfolding get_server
  get_server-Keeps id = search keeps_rules

  pub get_user-Keeps : (id : String) → Keeps P (get_user id)
  unfolding get_user
  get_user-Keeps id = search keeps_rules

  pub get_service_version-Keeps : (id : String) → Keeps P (get_service_version id)
  unfolding get_service_version
  get_service_version-Keeps id = search keeps_rules

  pub get_k8s_cluster-Keeps : (id : String) → Keeps P (get_k8s_cluster id)
  unfolding get_k8s_cluster
  get_k8s_cluster-Keeps id = search keeps_rules

  pub get_credential-Keeps : (id : String) → Keeps P (get_credential id)
  unfolding get_credential
  get_credential-Keeps id = search keeps_rules

  pub get_release_request-Keeps : (id : String) → Keeps P (get_release_request id)
  unfolding get_release_request
  get_release_request-Keeps id = search keeps_rules

  pub find_release_by_idempotency-Keeps : (key : String) → Keeps P (find_release_by_idempotency key)
  unfolding find_release_by_idempotency
  find_release_by_idempotency-Keeps key = search keeps_rules

  pub count_running_releases-Keeps : (s e : String) → Keeps P (count_running_releases s e)
  unfolding count_running_releases
  count_running_releases-Keeps s e = search keeps_rules

  attach_ssh-Keeps :
      (item : DeploymentTarget) (r : Result SshDeploymentTarget) → Keeps P (attach_ssh item r)
  unfolding attach_ssh
  attach_ssh-Keeps item (ok ssh) = search keeps_rules
  attach_ssh-Keeps item (err e) = search keeps_rules

  attach_k8s-Keeps :
      (item : DeploymentTarget) (r : Result K8sDeploymentTarget) → Keeps P (attach_k8s item r)
  unfolding attach_k8s
  attach_k8s-Keeps item (ok k8s) = search keeps_rules
  attach_k8s-Keeps item (err e) = search keeps_rules

  attach-Keeps : (item : DeploymentTarget) → Keeps P (attach_deployment_target_config item)
  unfolding attach_deployment_target_config
  attach-Keeps item = search (keeps_rules, attach_ssh-Keeps, attach_k8s-Keeps) depth 9

  pub get_deployment_target-Keeps : (id : String) → Keeps P (get_deployment_target id)
  unfolding get_deployment_target
  get_deployment_target-Keeps id = search (keeps_rules, attach-Keeps)

  from_logs-Keeps : (id : String) (t : DeploymentTarget) → Keeps P (from_logs id t)
  unfolding from_logs list_deploy_servers list_deploy_execution_targets
  from_logs-Keeps id t = search keeps_rules depth 9

  from_table-Keeps : (id target_id : String) → Keeps P (from_table id target_id)
  unfolding from_table
  from_table-Keeps id target_id = search (keeps_rules, get_deployment_target-Keeps, from_logs-Keeps)

  from_snapshot-Keeps :
      (id target_id : String) (t : DeploymentTarget) (ss : List Server) (ts : List ExecutionTarget)
      → Keeps P (from_snapshot id target_id t ss ts)
  unfolding from_snapshot
  from_snapshot-Keeps id target_id t ss (x ∷ xs) = search (keeps_rules, from_table-Keeps)
  from_snapshot-Keeps id target_id t (s ∷ ss) [] = search (keeps_rules, from_table-Keeps)
  from_snapshot-Keeps id target_id t [] [] = search (keeps_rules, from_table-Keeps)

  pub resolve_deploy_snapshot-Keeps :
      (s : TargetSnapshot) (id target_id : String)
      → Keeps P (resolve_deploy_snapshot s id target_id)
  unfolding resolve_deploy_snapshot
  resolve_deploy_snapshot-Keeps (snapshot t ss ts) id target_id =
      search (keeps_rules, from_snapshot-Keeps)
  resolve_deploy_snapshot-Keeps (legacy t) id target_id =
      search (keeps_rules, from_table-Keeps, from_logs-Keeps)
  resolve_deploy_snapshot-Keeps other id target_id = search (keeps_rules, from_table-Keeps)

  pub get_deploy_record-Keeps : (id : String) → Keeps P (get_deploy_record id)
  unfolding get_deploy_record
  get_deploy_record-Keeps id = search keeps_rules

  get_servers_by_ids-Keeps : (ids : List String) → Keeps P (get_servers_by_ids ids)
  unfolding get_servers_by_ids
  get_servers_by_ids-Keeps [] = search keeps_rules
  get_servers_by_ids-Keeps (id ∷ ids) = search (keeps_rules, get_servers_by_ids-Keeps ids) depth 9

  group_server_ids-Keeps : (id : String) → Keeps P (group_server_ids id)
  unfolding group_server_ids
  group_server_ids-Keeps id = search keeps_rules

  expand_target_servers-Keeps :
      (ssh : Option SshDeploymentTarget) → Keeps P (expand_target_servers ssh)
  unfolding expand_target_servers
  expand_target_servers-Keeps none = search keeps_rules
  expand_target_servers-Keeps (some ssh) = search (keeps_rules, group_server_ids-Keeps)

  k8s_execution-Keeps : (t : Option K8sDeploymentTarget) → Keeps P (k8s_execution t)
  unfolding k8s_execution
  k8s_execution-Keeps none = search keeps_rules
  k8s_execution-Keeps (some t) = search keeps_rules

  server_executions-Keeps : (target : DeploymentTarget) → Keeps P (server_executions target)
  unfolding server_executions
  server_executions-Keeps target =
      search (keeps_rules, expand_target_servers-Keeps, get_servers_by_ids-Keeps)

  -- What a target expands to is only read.
  pub expand_target_executions-Keeps :
      (target : DeploymentTarget) → Keeps P (expand_target_executions target)
  unfolding expand_target_executions
  expand_target_executions-Keeps target =
      search (keeps_rules, k8s_execution-Keeps, server_executions-Keeps)
