-- ===== src/Repository/Confirm.antt =====
-- internal/repository/release.go: what a deployment target expands to, and ConfirmAndQueueRelease.
use ai_pub.Base.{
  ℕ, Bool, true, false, not, ◌&&◌, ◌||◌, String, Option, none, some, List, [], ◌∷◌, ◌++◌, map, ◌==◌,
  text_lt, concat, nat_eq, length, find_row, rows_where, count_rows, update_rows, exists_row,
  sort_rows, if◌then◌else◌,
}
use ai_pub.Domain.{
  Server, DeploymentTarget, SshDeploymentTarget, K8sDeploymentTarget, ReleaseStatus, DeployStatus,
  TargetStatus, ReleaseRequest, ExecutionTarget, TargetSnapshot, snapshot, DeployRecord,
  DeployTargetLog, is_pending_confirm,
}
use ai_pub.Database.{DeployRow}
use ai_pub.Action.{
  message, M, pure, raise, fail_if, query, query_row, exec, insert, transaction, now_utc, new_id,
  ◌>>=◌, ◌>>◌,
}
use ai_pub.Repository.Lookup.{get_release_request}

-- K8sDeploymentRef
unfoldable pub k8s_deployment_ref : K8sDeploymentTarget → String
k8s_deployment_ref t =
    concat
      (t.cluster_id ∷ "/" ∷ t.namespace ∷ "/" ∷ t.deployment_name ∷ "/" ∷ t.container_name ∷ [])

-- executionTargetsFromServers: a server without a name goes by its id.
execution_target_of : Server → ExecutionTarget
execution_target_of s = record {
  type = "server";
  ref_id = s.id;
  name = if s.name == "" then s.id else s.name;
}

unfoldable pub execution_targets_from_servers : List Server → List ExecutionTarget
unfolding execution_target_of
execution_targets_from_servers servers = map execution_target_of servers

no_members : List String → Bool
no_members [] = true
no_members (x ∷ xs) = false

unfoldable pub group_server_ids : String → M (List String)
unfolding no_members
group_server_ids group_id = do
  ids ← query (λ d.
      map (λ x. x.server_id)
        (sort_rows (λ x y. text_lt x.server_id y.server_id)
          (rows_where (λ x. x.server_group_id == group_id) d.group_members)))
  fail_if (no_members ids) (message "deployment target has no servers")
  pure ids

-- expandTargetServersTx
unfoldable pub expand_target_servers : Option SshDeploymentTarget → M (List String)
expand_target_servers none = raise (message "ssh deployment target config is required")
expand_target_servers (some ssh) =
    if ssh.target_type == "server"
    then pure (ssh.target_ref_id ∷ [])
    else group_server_ids ssh.target_ref_id

-- getServersByIDsTx
unfoldable pub get_servers_by_ids : List String → M (List Server)
get_servers_by_ids [] = pure []
get_servers_by_ids (id ∷ ids) = do
  server ← query_row (λ d. find_row (λ x. x.id == id) d.servers)
  fail_if (not (server.role == "application"))
      (message "deployment targets can only include application servers")
  servers ← get_servers_by_ids ids
  pure (server ∷ servers)

unfoldable pub k8s_execution : Option K8sDeploymentTarget → M (List ExecutionTarget × List Server)
unfolding k8s_deployment_ref
k8s_execution none = raise (message "k8s deployment target config is required")
k8s_execution (some t) = pure (
  record {
    type = "k8s_deployment";
    ref_id = k8s_deployment_ref t;
    name = concat (t.namespace ∷ "/" ∷ t.deployment_name ∷ ":" ∷ t.container_name ∷ []);
  }
      ∷ [],
  [],
)

unfoldable pub server_executions : DeploymentTarget → M (List ExecutionTarget × List Server)
server_executions target = do
  ids ← expand_target_servers target.ssh
  servers ← get_servers_by_ids ids
  pure (execution_targets_from_servers servers, servers)

names_no_server : Option SshDeploymentTarget → Bool
names_no_server none = true
names_no_server (some ssh) = ssh.target_ref_id == ""

-- expandTargetExecutionsTx: a mock target that names a server runs on it, like an SSH target.
unfoldable pub expand_target_executions : DeploymentTarget → M (List ExecutionTarget × List Server)
unfolding names_no_server
expand_target_executions target =
    if target.executor_type == "k8s"
    then k8s_execution target.k8s
    else if target.executor_type == "mock" && names_no_server target.ssh
    then pure (record { type = "mock"; ref_id = target.id; name = "Mock target" } ∷ [], [])
    else server_executions target

-- targetSnapshot: the fields marked `json:"-"` do not reach the stored text.
json_target : DeploymentTarget → DeploymentTarget
json_target t = record t {
  target_type = "";
  target_ref_id = "";
  script_path = "";
  working_dir = "";
  env_vars = "";
}

unfoldable pub target_snapshot_of :
    DeploymentTarget → List Server → List ExecutionTarget → TargetSnapshot
unfolding json_target
target_snapshot_of target servers targets = snapshot (json_target target) servers targets

-- scanDeployRecord: the columns of a row that the struct has.
unfoldable pub scan_deploy_record : DeployRow → DeployRecord
scan_deploy_record r = record {
  id = r.id;
  release_request_id = r.release_request_id;
  status = r.status;
  executor_type = r.executor_type;
  target_snapshot = r.target_snapshot;
  total_targets = r.total_targets;
  success_targets = r.success_targets;
  failed_targets = r.failed_targets;
  skipped_targets = r.skipped_targets;
  worker_id = r.worker_id;
  created_at = r.created_at;
  updated_at = r.updated_at;
}

unfoldable pub queued_row :
    String → String → DeploymentTarget → List Server → List ExecutionTarget → ℕ → DeployRow
unfolding target_snapshot_of
queued_row id release_id target servers targets now = record {
  id = id;
  release_request_id = release_id;
  status = DeployStatus.queued;
  executor_type = target.executor_type;
  target_snapshot = target_snapshot_of target servers targets;
  total_targets = length targets;
  success_targets = 0;
  failed_targets = 0;
  skipped_targets = 0;
  worker_id = "";
  created_at = now;
  updated_at = now;
  lease_expires_at = none;
  heartbeat_at = none;
  started_at = none;
  finished_at = none;
  error_summary = "";
}

unfoldable pub queued_log : String → String → ExecutionTarget → DeployTargetLog
queued_log id deploy_record_id t = record {
  id = id;
  deploy_record_id = deploy_record_id;
  target_type = t.type;
  target_ref_id = t.ref_id;
  target_name = t.name;
  status = TargetStatus.queued;
  exit_code = none;
  started_at = none;
  finished_at = none;
  duration_ms = 0;
  log_output = "";
  error_code = "";
  error_message = "";
}

-- One INSERT for each execution target, all `queued`.
unfoldable pub insert_target_logs : String → List ExecutionTarget → M (Unit {0})
unfolding queued_log
insert_target_logs deploy_record_id [] = pure tt
insert_target_logs deploy_record_id (t ∷ ts) = do
  id ← new_id "tlog"
  insert (λ d. not (exists_row (λ x. x.id == id) d.logs))
      (λ d. record d { logs = d.logs ++ (queued_log id deploy_record_id t ∷ []) })
  insert_target_logs deploy_record_id ts

-- The primary key of `deploy_records`, and its UNIQUE release_request_id.
unfoldable pub deploy_clashes : String → String → DeployRow → Bool
deploy_clashes id release_id x = x.id == id || x.release_request_id == release_id

-- The UPDATE … WHERE status = 'pending_confirm' of ConfirmAndQueueRelease.
unfoldable pub queue_release : String → String → ℕ → M ℕ
queue_release release_id user_id now =
    exec (λ d. count_rows (λ x. x.id == release_id && is_pending_confirm x.status) d.releases)
      (λ d. record d {
        releases =
            update_rows (λ x. x.id == release_id && is_pending_confirm x.status)
              (λ x. record x {
                status = ReleaseStatus.queued;
                confirmed_by_user_id = user_id;
                confirmed_at = some now;
                updated_at = now;
              })
              d.releases;
      })

unfoldable pub confirm_tx : String → String → DeploymentTarget → M DeployRecord
unfolding expand_target_executions queued_row deploy_clashes queue_release insert_target_logs
    scan_deploy_record
confirm_tx release_id user_id target = do
  now ← now_utc
  expanded ← expand_target_executions target
  id ← new_id "deploy"
  affected ← queue_release release_id user_id now
  fail_if (not (nat_eq affected 1)) (message "release is not pending_confirm")
  let row = queued_row id release_id target expanded.1 expanded.0 now
  insert (λ d. not (exists_row (deploy_clashes id release_id) d.deploys))
      (λ d. record d { deploys = d.deploys ++ (row ∷ []) })
  insert_target_logs id expanded.0
  pure (scan_deploy_record row)

-- ConfirmAndQueueRelease
unfoldable pub confirm_and_queue_release :
    String → String → DeploymentTarget → M (ReleaseRequest × DeployRecord)
unfolding confirm_tx
confirm_and_queue_release release_id user_id target = do
  record_made ← transaction (confirm_tx release_id user_id target)
  release ← get_release_request release_id
  pure (release, record_made)
