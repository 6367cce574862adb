-- ===== src/Repository/Release.antt =====
-- internal/repository/release.go: release requests, their confirmation and cancellation, and events.
use ai_pub.Base.{
  ℕ, Bool, not, ◌&&◌, String, some, [], ◌∷◌, ◌++◌, ◌==◌, concat, is_one_of, nat_eq, count_rows,
  update_rows, exists_row, if◌then◌else◌,
}
use ai_pub.Domain.{
  ReleaseStatus, DeployStatus, ReleaseRequest, is_pending_confirm, is_cancellable, is_deploy_queued,
}
use ai_pub.Database.{Db}
use ai_pub.Action.{M, pure, exec, insert, transaction, now_utc, new_id, ◌>>=◌, ◌>>◌}
use ai_pub.Repository.Lookup.{get_release_request}

-- `if value == "" { value = fallback }`
abbrev pub or_default : String → String → String
or_default value fallback = if value == "" then fallback else value

abbrev pub or_new_id : String → String → M String
or_new_id id prefix = if id == "" then new_id prefix else pure id

-- The constraints of `release_requests`: the primary key, the CHECK on the source, and the unique
-- index on the keys that are not NULL. (Foreign keys are not modelled.)
unfoldable pub release_allowed : ReleaseRequest → Db → Bool
release_allowed item d =
    not (exists_row (λ x. x.id == item.id) d.releases)
    && (is_one_of item.source ("web" ∷ "api" ∷ "ci" ∷ "ai_agent" ∷ [])
        && not (
            exists_row
              (λ x. x.idempotency_key == item.idempotency_key && not (item.idempotency_key == ""))
              d.releases))

-- CreateReleaseRequest. The caller leaves the status empty, which is stored as `pending_confirm`.
unfoldable pub create_release_request : ReleaseRequest → M ReleaseRequest
unfolding release_allowed
create_release_request item = do
  now ← now_utc
  id ← or_new_id item.id "rel"
  let stored = record item {
    id = id;
    source = or_default item.source "web";
    metadata = or_default item.metadata "{}";
    created_at = now;
    updated_at = now;
  }
  insert (release_allowed stored) (λ d. record d { releases = d.releases ++ (stored ∷ []) })
  pure stored

-- SetReleaseRollbackOf
unfoldable pub set_release_rollback_of : String → String → M ReleaseRequest
set_release_rollback_of id rollback_of_id = do
  now ← now_utc
  exec (λ d. count_rows (λ x. x.id == id) d.releases)
      (λ d. record d {
        releases =
            update_rows (λ x. x.id == id)
              (λ x. record x { rollback_of_id = rollback_of_id; updated_at = now }) d.releases;
      })
  get_release_request id

-- RejectRelease: only a pending release is changed; the caller sees the row as it is then.
unfoldable pub reject_release : String → String → String → M ReleaseRequest
reject_release id user_id reason = do
  now ← now_utc
  exec (λ d. count_rows (λ x. x.id == id && is_pending_confirm x.status) d.releases)
      (λ d. record d {
        releases =
            update_rows (λ x. x.id == id && is_pending_confirm x.status)
              (λ x. record x {
                status = ReleaseStatus.rejected;
                rejected_by_user_id = user_id;
                rejected_reason = reason;
                updated_at = now;
              })
              d.releases;
      })
  get_release_request id

-- CancelRelease: the deploy record is cancelled with its release when that was still cancellable.
unfoldable pub cancel_deploys : String → String → ℕ → M ℕ
cancel_deploys id user_id now =
    exec (λ d. count_rows (λ x. x.release_request_id == id && is_deploy_queued x.status) d.deploys)
      (λ d. record d {
        deploys =
            update_rows (λ x. x.release_request_id == id && is_deploy_queued x.status)
              (λ x. record x {
                status = DeployStatus.cancelled;
                finished_at = some now;
                error_summary = concat ("cancelled by " ∷ user_id ∷ []);
                updated_at = now;
              })
              d.deploys;
      })

unfoldable pub cancel_release : String → String → M ReleaseRequest
unfolding cancel_deploys
cancel_release id user_id = do
  now ← now_utc
  transaction (do
    affected ←
        exec (λ d. count_rows (λ x. x.id == id && is_cancellable x.status) d.releases)
          (λ d. record d {
            releases =
                update_rows (λ x. x.id == id && is_cancellable x.status)
                  (λ x. record x {
                    status = ReleaseStatus.cancelled;
                    summary_message = concat ("cancelled by " ∷ user_id ∷ []);
                    updated_at = now;
                  })
                  d.releases;
          })
    if nat_eq affected 1 then cancel_deploys id user_id now else pure 0)
  get_release_request id
