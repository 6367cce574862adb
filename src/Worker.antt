-- ===== src/Worker.antt =====
-- internal/worker/worker.go: one tick of a worker. It recovers what others lost, claims a deploy,
-- executes its targets one after the other until one fails, and ends it.
pub mod Closes
use ai_pub.Base.{
  Bool, true, false, not, ◌&&◌, ◌||◌, String, Option, none, some, List, [], ◌∷◌, concat, ◌==◌,
  if◌then◌else◌,
}
use ai_pub.Domain.{
  ℤ, DeployStatus, TargetStatus, ReleaseRequest, DeployRecord, DeploymentTarget, ServiceVersion,
  Server, ExecutionTarget, is_target_failed,
}
use ai_pub.Action.{M, Result, ok, err, pure, attempt, ◌>>=◌, ◌>>◌}
use ai_pub.Repository.Lookup.{get_server}
use ai_pub.Repository.Claim.{ClaimedDeploy, claim_next_deploy}
use ai_pub.Repository.Finish.{
  ServerResult, RecoveredDeploy, mark_target_running, mark_target_finished,
  mark_queued_targets_skipped, finish_deploy,
}
use ai_pub.Repository.Recover.{recover_expired_deploys}
use ai_pub.App.Notify.{Notifier, NotificationEvent}
use ai_pub.App.Release.{Actor, record_event}

-- executor.Request
pub record Request : Type 0 where
  pub release : ReleaseRequest
  pub claimed : DeployRecord
  pub target : DeploymentTarget
  pub version : ServiceVersion
  pub execution_target : ExecutionTarget
  pub server : Server
  pub gateway : Option Server

-- Service. The registry maps an executor type to `Execute`; `check_heartbeat` is what
-- heartbeatError answers at that moment, which the heartbeat goroutine decides.
pub record Service : Type 0 where
  pub executors : String → Option (Request → M ServerResult)
  pub check_heartbeat : M (Unit {0})
  pub notifications : Notifier
  pub worker_id : String

unfoldable pub failed_result : String → String → ServerResult
failed_result c text = record {
  status = TargetStatus.failed;
  exit_code = some (ℤ.pos 1);
  duration_ms = 0;
  log_output = "";
  error_code = c;
  error_message = text;
}

-- findClaimedServer, without the server that it makes up for a target that has none
unfoldable pub find_claimed_server : List Server → ExecutionTarget → Option Server
find_claimed_server [] target = none
find_claimed_server (s ∷ rest) target =
    let later = find_claimed_server rest target in if s.id == target.ref_id then some s else later

-- `domain.Server{ID: target.RefID, Name: target.Name}`
named_server : ExecutionTarget → Server
named_server target = record {
  id = target.ref_id;
  name = target.name;
  host = "";
  port = ℤ.pos 0;
  username = "";
  auth_type = "";
  credential_ref = "";
  role = "";
  gateway_id = "";
  enabled = false;
  last_check_status = "";
  last_check_at = none;
  created_at = 0;
  updated_at = 0;
}

unfoldable pub request_of : ClaimedDeploy → ExecutionTarget → Server → Option Server → Request
request_of c target server gateway = record {
  release = c.release;
  claimed = c.claimed;
  target = c.target;
  version = c.version;
  execution_target = target;
  server = server;
  gateway = gateway;
}

unfoldable pub with_gateway :
    (Request → M ServerResult)
    → ClaimedDeploy
    → ExecutionTarget
    → Server
    → Result Server
    → M ServerResult
unfolding failed_result request_of
with_gateway run c target server (ok gateway) = run (request_of c target server (some gateway))
with_gateway run c target server (err e) =
    pure (failed_result "connect_failed" "gateway server is not available")

unfoldable pub on_server :
    (Request → M ServerResult) → ClaimedDeploy → ExecutionTarget → Option Server → M ServerResult
unfolding failed_result request_of named_server with_gateway
on_server run c target none =
    if c.target.executor_type == "ssh"
    then pure (failed_result "target_not_found" "server target is not available")
    else run (request_of c target (named_server target) none)
on_server run c target (some server) =
    if c.target.executor_type == "ssh" && not (server.gateway_id == "")
    then attempt (get_server server.gateway_id) >>= with_gateway run c target server
    else run (request_of c target server none)

unfoldable pub with_executor :
    ClaimedDeploy → ExecutionTarget → Option (Request → M ServerResult) → M ServerResult
unfolding failed_result find_claimed_server on_server
with_executor c target none = pure (
    failed_result "internal_error"
      (concat ("unsupported executor: " ∷ c.target.executor_type ∷ [])))
with_executor c target (some run) = on_server run c target (find_claimed_server c.servers target)

-- execute
unfoldable pub execute : Service → ClaimedDeploy → ExecutionTarget → M ServerResult
unfolding with_executor
execute s c target = with_executor c target (s.executors c.target.executor_type)

status_text : TargetStatus → String
status_text TargetStatus.queued = "queued"
status_text TargetStatus.running = "running"
status_text TargetStatus.success = "success"
status_text TargetStatus.failed = "failed"
status_text TargetStatus.skipped = "skipped"

deploy_status_text : DeployStatus → String
deploy_status_text DeployStatus.queued = "queued"
deploy_status_text DeployStatus.running = "running"
deploy_status_text DeployStatus.success = "success"
deploy_status_text DeployStatus.failed = "failed"
deploy_status_text DeployStatus.partial = "partial"
deploy_status_text DeployStatus.cancelled = "cancelled"

abbrev pub system_actor : Service → Actor
system_actor s = record { type = "system"; id = s.worker_id; api_key_id = "" }

-- The loop over the targets, which a failed one breaks: whether one failed.
unfoldable pub run_targets : Service → ClaimedDeploy → List ExecutionTarget → M Bool
unfolding execute status_text
run_targets s c [] = pure false
run_targets s c (t ∷ ts) = do
  mark_target_running c.claimed.id t.ref_id
  result ← execute s c t
  s.check_heartbeat
  mark_target_finished c.claimed.id t.ref_id result
  record_event c.release.id c.claimed.id "target_finished" (system_actor s)
      (concat (status_text result.status ∷ ": " ∷ t.name ∷ [])) ""
  if is_target_failed result.status then pure true else run_targets s c ts

-- The loop, and the targets that it left out.
unfoldable pub work_targets : Service → ClaimedDeploy → M (Unit {0})
unfolding run_targets
work_targets s c = do
  failed ← run_targets s c c.execution_targets
  if failed
      then mark_queued_targets_skipped c.claimed.id "skipped after previous server failure"
      else pure tt

-- FailureContent of internal/app/notification.go
failure_content : String → String → String → String
failure_content release_id record_id summary =
    concat ("**发布失败**\n\n发布单：" ∷ release_id ∷ "\n\n发布记录：" ∷ record_id ∷ "\n\n摘要：" ∷ summary ∷ [])

notify_failure : Notifier → ClaimedDeploy → String → M (Unit {0})
unfolding failure_content
notify_failure none c status = pure tt
notify_failure (some notify) c status = notify (record {
  event_type = "deploy_failed";
  release_request_id = c.release.id;
  deploy_record_id = c.claimed.id;
  content = failure_content c.release.id c.claimed.id status;
})

needs_notice : DeployStatus → Bool
needs_notice DeployStatus.failed = true
needs_notice DeployStatus.partial = true
needs_notice _ = false

-- RunOnce, after the claim
unfoldable pub run_claimed : Service → ClaimedDeploy → M (Unit {0})
unfolding work_targets deploy_status_text notify_failure needs_notice
run_claimed s c = do
  record_event c.release.id c.claimed.id "deploy_started" (system_actor s) "发布执行已开始" ""
  work_targets s c
  s.check_heartbeat
  finished ← finish_deploy c.claimed.id
  if needs_notice finished.status
      then notify_failure s.notifications c (deploy_status_text finished.status)
      else pure tt
  record_event c.release.id c.claimed.id "deploy_finished" (system_actor s)
      (concat ("发布执行结束：" ∷ deploy_status_text finished.status ∷ [])) ""

record_recovered : Service → List RecoveredDeploy → M (Unit {0})
record_recovered s [] = pure tt
record_recovered s (r ∷ rest) = do
  record_event r.release_id r.record_id "deploy_finished" (system_actor s) "发布因 Worker 租约过期失败" ""
  record_recovered s rest

-- RunOnce
unfoldable pub run_once : Service → M (Unit {0})
unfolding record_recovered run_claimed
run_once s = do
  recovered ← recover_expired_deploys
  record_recovered s recovered
  claimed ← claim_next_deploy s.worker_id
  run_claimed s claimed
