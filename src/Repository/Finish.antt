-- ===== src/Repository/Finish.antt =====
-- internal/repository/deploy.go: what a worker reports of its targets, how a deploy ends, and how
-- deploys whose lease has expired are recovered.
use ai_pub.Base.{
  ℕ, Bool, not, ◌&&◌, ◌||◌, String, Option, none, some, List, [], ◌∷◌, ◌++◌, ◌==◌, concat, ltb,
  nat_eq, find_row, rows_where, count_rows, update_rows, decimal, delete_rows, exists_row,
  if◌then◌else◌,
}
use ai_pub.Domain.{
  ℤ, ReleaseStatus, DeployStatus, TargetStatus, ReleaseRequest, DeployRecord, DeployTargetLog,
  DeploymentState, is_target_queued, is_target_success, is_target_failed, is_target_skipped,
  is_unfinished,
}
use ai_pub.Database.{Db}
use ai_pub.Action.{
  not_found, no_rows, query_one, M, pure, fail_if, query, query_row, exec, insert, transaction,
  now_utc, new_id, ◌>>=◌, ◌>>◌,
}
use ai_pub.Repository.Confirm.{scan_deploy_record}

-- ServerResult. Its status text is what the target log gets.
pub record ServerResult : Type 0 where
  pub status : TargetStatus
  pub exit_code : Option ℤ
  pub duration_ms : ℕ
  pub log_output : String
  pub error_code : String
  pub error_message : String

pub record RecoveredDeploy : Type 0 where
  pub record_id : String
  pub release_id : String

abbrev pub is_log_of : String → String → DeployTargetLog → Bool
is_log_of deploy_record_id target_ref_id l =
    l.deploy_record_id == deploy_record_id && l.target_ref_id == target_ref_id

-- MarkTargetRunning
unfoldable pub mark_target_running : String → String → M (Unit {0})
mark_target_running deploy_record_id target_ref_id = do
  now ← now_utc
  affected ←
      exec
        (λ d.
          count_rows (λ l. is_log_of deploy_record_id target_ref_id l && is_target_queued l.status)
            d.logs)
        (λ d. record d {
          logs =
              update_rows
                (λ l. is_log_of deploy_record_id target_ref_id l && is_target_queued l.status)
                (λ l. record l { status = TargetStatus.running; started_at = some now }) d.logs;
        })
  fail_if (not (nat_eq affected 1)) not_found

-- MarkTargetFinished: whatever the status was.
unfoldable pub mark_target_finished : String → String → ServerResult → M (Unit {0})
mark_target_finished deploy_record_id target_ref_id result = do
  now ← now_utc
  exec (λ d. count_rows (is_log_of deploy_record_id target_ref_id) d.logs)
      (λ d. record d {
        logs =
            update_rows (is_log_of deploy_record_id target_ref_id)
              (λ l. record l {
                status = result.status;
                exit_code = result.exit_code;
                finished_at = some now;
                duration_ms = result.duration_ms;
                log_output = result.log_output;
                error_code = result.error_code;
                error_message = result.error_message;
              })
              d.logs;
      })
  pure tt

-- MarkQueuedTargetsSkipped
unfoldable pub mark_queued_targets_skipped : String → String → M (Unit {0})
mark_queued_targets_skipped deploy_record_id message_text = do
  now ← now_utc
  exec
      (λ d.
        count_rows (λ l. l.deploy_record_id == deploy_record_id && is_unfinished l.status) d.logs)
      (λ d. record d {
        logs =
            update_rows (λ l. l.deploy_record_id == deploy_record_id && is_unfinished l.status)
              (λ l. record l {
                status = TargetStatus.skipped;
                finished_at = some now;
                error_code = "skipped_after_failure";
                error_message = message_text;
              })
              d.logs;
      })
  pure tt

-- The counts by status that FinishDeploy and RecoverExpiredDeploys read of a record's logs.
pub record Counts : Type 0 where
  pub success : ℕ
  pub failed : ℕ
  pub skipped : ℕ

unfoldable pub target_counts : String → Db → Counts
target_counts id d = record {
  success = count_rows (λ l. l.deploy_record_id == id && is_target_success l.status) d.logs;
  failed = count_rows (λ l. l.deploy_record_id == id && is_target_failed l.status) d.logs;
  skipped = count_rows (λ l. l.deploy_record_id == id && is_target_skipped l.status) d.logs;
}

-- aggregateDeployStatus
unfoldable pub aggregate_deploy_status : ℕ → ℕ → ℕ → DeployStatus
aggregate_deploy_status success failed skipped =
    if ltb 0 success && (ltb 0 failed || ltb 0 skipped)
    then DeployStatus.partial
    else if ltb 0 failed || ltb 0 skipped
    then DeployStatus.failed
    else DeployStatus.success

-- `releaseStatus` of FinishDeploy: the text of the deploy's status, but `failed` for `partial`. The
-- aggregate is only ever one of the last three.
unfoldable pub release_status_of : DeployStatus → ReleaseStatus
release_status_of DeployStatus.queued = ReleaseStatus.queued
release_status_of DeployStatus.running = ReleaseStatus.running
release_status_of DeployStatus.cancelled = ReleaseStatus.cancelled
release_status_of DeployStatus.success = ReleaseStatus.success
release_status_of DeployStatus.failed = ReleaseStatus.failed
release_status_of DeployStatus.partial = ReleaseStatus.failed

-- The error summary of a deploy that did not succeed.
count_summary : Counts → String
count_summary c = concat (
    "success="
    ∷ decimal c.success
    ∷ " failed="
    ∷ decimal c.failed
    ∷ " skipped="
    ∷ decimal c.skipped
    ∷ [])

unfoldable pub error_summary_of : DeployStatus → Counts → String
unfolding count_summary
error_summary_of DeployStatus.success c = ""
error_summary_of _ c = count_summary c

end_deploy : String → DeployStatus → Counts → ℕ → M ℕ
unfolding error_summary_of
end_deploy id status c now =
    exec (λ d. count_rows (λ x. x.id == id) d.deploys)
      (λ d. record d {
        deploys =
            update_rows (λ x. x.id == id)
              (λ x. record x {
                status = status;
                success_targets = c.success;
                failed_targets = c.failed;
                skipped_targets = c.skipped;
                lease_expires_at = none;
                finished_at = some now;
                error_summary = error_summary_of status c;
                updated_at = now;
              })
              d.deploys;
      })

end_release : String → DeployStatus → Counts → ℕ → M ℕ
unfolding release_status_of error_summary_of
end_release id status c now =
    exec (λ d. count_rows (λ x. x.id == id) d.releases)
      (λ d. record d {
        releases =
            update_rows (λ x. x.id == id)
              (λ x. record x {
                status = release_status_of status;
                summary_status = some status;
                summary_message = error_summary_of status c;
                updated_at = now;
              })
              d.releases;
      })

-- The unique key of `deployment_states`.
unfoldable pub is_state_of : ReleaseRequest → DeployTargetLog → DeploymentState → Bool
is_state_of r l s =
    s.service_id == r.service_id
    && (s.environment_id == r.environment_id
        && (s.deployment_target_id == r.deployment_target_id
            && (s.target_type == l.target_type && s.target_ref_id == l.target_ref_id)))

new_state : String → ReleaseRequest → String → DeployTargetLog → ℕ → DeploymentState
new_state id r deploy_record_id l now = record {
  id = id;
  service_id = r.service_id;
  environment_id = r.environment_id;
  deployment_target_id = r.deployment_target_id;
  target_type = l.target_type;
  target_ref_id = l.target_ref_id;
  service_version_id = r.service_version_id;
  deploy_record_id = deploy_record_id;
  updated_at = now;
}

-- DELETE and INSERT for each target that succeeded.
unfoldable pub save_states : ReleaseRequest → String → ℕ → List DeployTargetLog → M (Unit {0})
unfolding is_state_of new_state
save_states r deploy_record_id now [] = pure tt
save_states r deploy_record_id now (l ∷ ls) = do
  exec (λ d. count_rows (is_state_of r l) d.states)
      (λ d. record d { states = delete_rows (is_state_of r l) d.states })
  id ← new_id "state"
  insert (λ d. not (exists_row (λ s. s.id == id || is_state_of r l s) d.states))
      (λ d. record d { states = d.states ++ (new_state id r deploy_record_id l now ∷ []) })
  save_states r deploy_record_id now ls

abbrev is_success_log_of : String → DeployTargetLog → Bool
is_success_log_of id l = l.deploy_record_id == id && is_target_success l.status

-- The second query runs only when a target succeeded, and finds nothing otherwise.
unfoldable pub save_success_states : ReleaseRequest → String → ℕ → Counts → M (Unit {0})
unfolding save_states
save_success_states r id now c =
    if ltb 0 c.success
    then (do
      targets ← query (λ d. rows_where (is_success_log_of id) d.logs)
      save_states r id now targets)
    else pure tt

unfoldable pub finish_tx : String → M (Unit {0})
unfolding target_counts aggregate_deploy_status end_deploy end_release save_success_states
finish_tx id = do
  row ← query_one no_rows (λ d. find_row (λ x. x.id == id) d.deploys)
  release ← query_one no_rows (λ d. find_row (λ x. x.id == row.release_request_id) d.releases)
  c ← query (target_counts id)
  let status = aggregate_deploy_status c.success c.failed c.skipped
  now ← now_utc
  end_deploy id status c now
  end_release row.release_request_id status c now
  save_success_states release id now c

-- GetDeployRecord
unfoldable pub get_deploy_record : String → M DeployRecord
unfolding scan_deploy_record
get_deploy_record id = do
  row ← query_row (λ d. find_row (λ x. x.id == id) d.deploys)
  pure (scan_deploy_record row)

-- FinishDeploy
unfoldable pub finish_deploy : String → M DeployRecord
unfolding finish_tx get_deploy_record
finish_deploy id = do transaction (finish_tx id); get_deploy_record id
