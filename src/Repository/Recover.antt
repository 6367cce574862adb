-- ===== src/Repository/Recover.antt =====
-- internal/repository/deploy.go: RecoverExpiredDeploys fails the running deploys whose lease is over.
use ai_pub.Base.{
  ℕ, Bool, false, not, ◌&&◌, String, Option, none, some, List, [], ◌∷◌, map, ◌==◌, ltb, nat_eq,
  rows_where, count_rows, update_rows, if◌then◌else◌,
}
use ai_pub.Domain.{
  ReleaseStatus, DeployStatus, TargetStatus, is_release_running, is_deploy_running, is_unfinished,
}
use ai_pub.Database.{DeployRow}
use ai_pub.Action.{M, pure, query, exec, transaction, now_utc, ◌>>=◌, ◌>>◌}
use ai_pub.Repository.Finish.{RecoveredDeploy, Counts, target_counts}

-- lease_expires_at IS NOT NULL AND lease_expires_at < now
unfoldable pub lease_expired : ℕ → Option ℕ → Bool
lease_expired now none = false
lease_expired now (some t) = ltb t now

-- status = 'running' AND the lease has expired
unfoldable pub is_expired : ℕ → DeployRow → Bool
unfolding lease_expired
is_expired now x = is_deploy_running x.status && lease_expired now x.lease_expires_at

unfoldable pub recovered_of : DeployRow → RecoveredDeploy
recovered_of x = record { record_id = x.id; release_id = x.release_request_id }

unfoldable pub fail_deploy : String → ℕ → M ℕ
unfolding is_expired
fail_deploy id now =
    exec (λ d. count_rows (λ x. x.id == id && is_expired now x) d.deploys)
      (λ d. record d {
        deploys =
            update_rows (λ x. x.id == id && is_expired now x)
              (λ x. record x {
                status = DeployStatus.failed;
                finished_at = some now;
                error_summary = "worker lease expired";
                updated_at = now;
              })
              d.deploys;
      })

fail_logs : String → ℕ → M ℕ
fail_logs id now =
    exec (λ d. count_rows (λ l. l.deploy_record_id == id && is_unfinished l.status) d.logs)
      (λ d. record d {
        logs =
            update_rows (λ l. l.deploy_record_id == id && is_unfinished l.status)
              (λ l. record l {
                status = TargetStatus.failed;
                finished_at = some now;
                error_code = "worker_lease_expired";
                error_message = "worker lease expired";
              })
              d.logs;
      })

store_counts : String → Counts → M ℕ
store_counts id c =
    exec (λ d. count_rows (λ x. x.id == id) d.deploys)
      (λ d. record d {
        deploys =
            update_rows (λ x. x.id == id)
              (λ x. record x {
                success_targets = c.success;
                failed_targets = c.failed;
                skipped_targets = c.skipped;
              })
              d.deploys;
      })

fail_release : String → ℕ → M ℕ
fail_release id now =
    exec (λ d. count_rows (λ x. x.id == id && is_release_running x.status) d.releases)
      (λ d. record d {
        releases =
            update_rows (λ x. x.id == id && is_release_running x.status)
              (λ x. record x {
                status = ReleaseStatus.failed;
                summary_status = some DeployStatus.failed;
                summary_message = "worker lease expired";
                updated_at = now;
              })
              d.releases;
      })

unfoldable pub recover_one : ℕ → RecoveredDeploy → M (Unit {0})
unfolding fail_logs store_counts fail_release
recover_one now item = do
  fail_logs item.record_id now
  c ← query (target_counts item.record_id)
  store_counts item.record_id c
  fail_release item.release_id now
  pure tt

-- A candidate whose UPDATE touched no row is skipped.
unfoldable pub recover_all : ℕ → List RecoveredDeploy → M (List RecoveredDeploy)
unfolding fail_deploy recover_one
recover_all now [] = pure []
recover_all now (item ∷ items) = do
  affected ← fail_deploy item.record_id now
  if not (nat_eq affected 1)
      then recover_all now items
      else (do recover_one now item; rest ← recover_all now items; pure (item ∷ rest))

-- RecoverExpiredDeploys
unfoldable pub recover_expired_deploys : M (List RecoveredDeploy)
unfolding recovered_of recover_all is_expired
recover_expired_deploys = do
  now ← now_utc
  transaction (do
    candidates ← query (λ d. map recovered_of (rows_where (is_expired now) d.deploys))
    recover_all now candidates)
