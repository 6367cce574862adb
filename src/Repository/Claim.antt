-- ===== src/Repository/Claim.antt =====
-- internal/repository/deploy.go: a worker claims the next deploy, and keeps or loses its lease.
use ai_pub.Base.{
  ℕ, ◌+◌, Bool, not, ◌&&◌, ◌||◌, String, Option, some, List, [], ◌∷◌, ◌++◌, map, ◌==◌, text_lt, ltb,
  nat_eq, rows_where, count_rows, update_rows, exists_row, first_row, sort_rows, if◌then◌else◌,
}
use ai_pub.Domain.{
  Server, ServiceVersion, DeploymentTarget, ReleaseStatus, DeployStatus, ReleaseRequest,
  ExecutionTarget, TargetSnapshot, snapshot, legacy, other, DeployRecord, DeployTargetLog,
  is_release_queued, is_deploy_queued, is_deploy_running, is_unfinished,
}
use ai_pub.Database.{Db, DeployRow}
use ai_pub.Action.{
  not_found, lease_lost, M, pure, fail_if, query, query_row, exec, transaction, now_utc, ◌>>=◌,
  ◌>>◌,
}
use ai_pub.Repository.Lookup.{get_release_request, get_service_version, get_deployment_target}
use ai_pub.Repository.Confirm.{execution_targets_from_servers, scan_deploy_record}

-- DeployLeaseDuration, ten minutes in milliseconds.
abbrev pub deploy_lease_duration : ℕ
deploy_lease_duration = 600000

pub record ClaimedDeploy : Type 0 where
  pub release : ReleaseRequest
  pub claimed : DeployRecord
  pub target : DeploymentTarget
  pub version : ServiceVersion
  pub servers : List Server
  pub execution_targets : List ExecutionTarget

-- `l` is an unfinished log of a running record.
unfoldable pub holds_target : Db → DeployTargetLog → Bool
holds_target d l =
    is_unfinished l.status
    && exists_row (λ r. r.id == l.deploy_record_id && is_deploy_running r.status) d.deploys

-- The NOT EXISTS of the claim: some target of the candidate is held by a running record.
unfoldable pub target_busy : Db → String → Bool
unfolding holds_target
target_busy d deploy_record_id =
    exists_row
      (λ c.
        c.deploy_record_id == deploy_record_id
        && exists_row
            (λ l.
              (l.target_type == c.target_type && l.target_ref_id == c.target_ref_id)
              && holds_target d l)
            d.logs)
      d.logs

-- The joins on the release and its environment, and the rest of the claim's WHERE.
release_ready : Db → String → Bool
release_ready d release_id =
    exists_row
      (λ r.
        (r.id == release_id && is_release_queued r.status)
        && exists_row (λ e. e.id == r.environment_id && not e.release_frozen) d.environments)
      d.releases

unfoldable pub claimable : Db → DeployRow → Bool
unfolding release_ready target_busy
claimable d r =
    is_deploy_queued r.status && (release_ready d r.release_request_id && not (target_busy d r.id))

-- ORDER BY created_at ASC, id ASC
unfoldable pub older : DeployRow → DeployRow → Bool
older x y = ltb x.created_at y.created_at || (nat_eq x.created_at y.created_at && text_lt x.id y.id)

unfoldable pub next_deploy : Db → Option DeployRow
unfolding claimable older
next_deploy d = first_row older (rows_where (claimable d) d.deploys)

start_deploy : String → String → ℕ → M ℕ
start_deploy id worker_id now =
    exec (λ d. count_rows (λ x. x.id == id && is_deploy_queued x.status) d.deploys)
      (λ d. record d {
        deploys =
            update_rows (λ x. x.id == id && is_deploy_queued x.status)
              (λ x. record x {
                status = DeployStatus.running;
                worker_id = worker_id;
                lease_expires_at = some (now + deploy_lease_duration);
                started_at = some now;
                heartbeat_at = some now;
                updated_at = now;
              })
              d.deploys;
      })

start_release : String → ℕ → M ℕ
start_release id now =
    exec (λ d. count_rows (λ x. x.id == id && is_release_queued x.status) d.releases)
      (λ d. record d {
        releases =
            update_rows (λ x. x.id == id && is_release_queued x.status)
              (λ x. record x { status = ReleaseStatus.running; updated_at = now }) d.releases;
      })

unfoldable pub claim_tx : String → M DeployRow
unfolding next_deploy start_deploy start_release
claim_tx worker_id = do
  row ← query_row next_deploy
  now ← now_utc
  started ← start_deploy row.id worker_id now
  fail_if (not (nat_eq started 1)) not_found
  moved ← start_release row.release_request_id now
  fail_if (not (nat_eq moved 1)) not_found
  pure row

-- ORDER BY l.id ASC
unfoldable pub logs_of : Db → String → List DeployTargetLog
logs_of d deploy_record_id =
    sort_rows (λ x y. text_lt x.id y.id)
      (rows_where (λ l. l.deploy_record_id == deploy_record_id) d.logs)

-- ListDeployServers: the servers that the record's logs name, in the order of the logs.
log_servers : Db → List DeployTargetLog → List Server
log_servers d [] = []
log_servers d (l ∷ ls) = rows_where (λ s. s.id == l.target_ref_id) d.servers ++ log_servers d ls

unfoldable pub list_deploy_servers : String → M (List Server)
unfolding log_servers logs_of
list_deploy_servers deploy_record_id = query (λ d. log_servers d (logs_of d deploy_record_id))

-- ListDeployExecutionTargets
log_target : DeployTargetLog → ExecutionTarget
log_target l = record { type = l.target_type; ref_id = l.target_ref_id; name = l.target_name }

unfoldable pub list_deploy_execution_targets : String → M (List ExecutionTarget)
unfolding log_target logs_of
list_deploy_execution_targets deploy_record_id =
    query (λ d. map log_target (logs_of d deploy_record_id))

abbrev pub Resolved : Type 0
Resolved = DeploymentTarget × List Server × List ExecutionTarget

unfoldable pub from_logs : String → DeploymentTarget → M Resolved
from_logs id target = do
  servers ← list_deploy_servers id
  targets ← list_deploy_execution_targets id
  pure (target, servers, targets)

unfoldable pub from_table : String → String → M Resolved
from_table id target_id = do target ← get_deployment_target target_id; from_logs id target

-- A snapshot object with an id but neither targets nor servers falls through: read as a bare
-- deployment target it has no id, so the target's row is used.
unfoldable pub from_snapshot :
    String → String → DeploymentTarget → List Server → List ExecutionTarget → M Resolved
from_snapshot id target_id t servers (x ∷ xs) =
    if t.id == "" then from_table id target_id else pure (t, servers, x ∷ xs)
from_snapshot id target_id t (s ∷ ss) [] =
    if t.id == ""
    then from_table id target_id
    else pure (t, s ∷ ss, execution_targets_from_servers (s ∷ ss))
from_snapshot id target_id t [] [] = from_table id target_id

-- resolveDeploySnapshot
unfoldable pub resolve_deploy_snapshot : TargetSnapshot → String → String → M Resolved
resolve_deploy_snapshot (snapshot t servers targets) id target_id =
    from_snapshot id target_id t servers targets
resolve_deploy_snapshot (legacy t) id target_id =
    if t.id == "" then from_table id target_id else from_logs id t
resolve_deploy_snapshot other id target_id = from_table id target_id

-- ClaimNextDeploy. What is read after the commit does not change the tables.
unfoldable pub claim_next_deploy : String → M ClaimedDeploy
unfolding claim_tx scan_deploy_record
claim_next_deploy worker_id = do
  row ← transaction (claim_tx worker_id)
  release ← get_release_request row.release_request_id
  version ← get_service_version release.service_version_id
  resolved ← resolve_deploy_snapshot row.target_snapshot row.id release.deployment_target_id
  pure (record {
    release = release;
    claimed = record (scan_deploy_record row) {
      status = DeployStatus.running;
      worker_id = worker_id;
    };
    target = resolved.0;
    version = version;
    servers = resolved.1;
    execution_targets = resolved.2;
  })

-- HeartbeatDeploy
unfoldable pub heartbeat_deploy : String → String → M (Unit {0})
heartbeat_deploy deploy_record_id worker_id = do
  now ← now_utc
  affected ←
      exec
        (λ d.
          count_rows
            (λ x.
              x.id == deploy_record_id && (is_deploy_running x.status && x.worker_id == worker_id))
            d.deploys)
        (λ d. record d {
          deploys =
              update_rows
                (λ x.
                  x.id == deploy_record_id
                  && (is_deploy_running x.status && x.worker_id == worker_id))
                (λ x. record x {
                  heartbeat_at = some now;
                  lease_expires_at = some (now + deploy_lease_duration);
                  updated_at = now;
                })
                d.deploys;
        })
  fail_if (not (nat_eq affected 1)) lease_lost
