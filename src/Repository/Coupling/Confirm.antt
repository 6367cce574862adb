-- ===== src/Repository/Coupling/Confirm.antt =====
-- internal/repository/release.go, ConfirmAndQueueRelease: a release and its new record.
use ai_pub.Base.{
  ◌≡◌, refl, sym, ap, ◌∙◌, Bool, true, false, ◌&&◌, String, List, [], ◌∷◌, ◌++◌, Memᴰ, ◌==◌, ◌≤◌,
  arith, eq_iff, ==-ne, nat_eq, count_rows, count_rows-pos, count_rows-full, update_rows,
  mem-update_rows, mem-update_rows_of, exists_row, exists_row-false, if◌then◌else◌,
}
use ai_pub.Domain.{
  ReleaseStatus, DeployStatus, ReleaseRequest, DeploymentTarget, ExecutionTarget,
  is_pending_confirm,
}
use ai_pub.Database.{Db, DeployRow}
use ai_pub.Action.Ends.{
  faulty, Ends-weaken, Ends, Ends-bind, Ends-pure, Keeps, Keeps-bind, Keeps-pure, Keeps-transaction,
  Keeps-query_row, then_now, then_exec, then_insert, then_fail_if, then_new_id,
}
use ai_pub.Repository.Lookup.{get_release_request}
use ai_pub.Repository.Finish.{release_status_of}
use ai_pub.Repository.Confirm.{
  deploy_clashes, insert_target_logs, confirm_tx, confirm_and_queue_release,
}
use ai_pub.Repository.Reads.{expand_target_executions-Keeps}
use ai_pub.Repository.Coupling.{Coupled, IsCoupled, update_releases-Coupled, append_deploy-Coupled}

insert_target_logs-IsCoupled :
    (id : String) (ts : List ExecutionTarget) → Keeps IsCoupled (insert_target_logs id ts)
unfolding insert_target_logs
insert_target_logs-IsCoupled id [] d c = Ends-pure tt c
insert_target_logs-IsCoupled id (t ∷ ts) d c =
    then_new_id _ _
      λ log_id. then_insert _ _ _ (λ _. c) (λ _. c) λ _. insert_target_logs-IsCoupled id ts _ c

-- The release that the confirmation moved is queued, and it is there.
module _ (id : String) (h : ReleaseRequest → ReleaseRequest) (rs : List ReleaseRequest) where
  abbrev is_target : ReleaseRequest → Bool
  is_target r = r.id == id && is_pending_confirm r.status

  confirmed_status :
      count_rows (λ r. r.id == id) rs ≤ 1
      → nat_eq (count_rows is_target rs) 1 ≡ true
      → ((r : ReleaseRequest) → ((h r).id ≡ r.id) × ((h r).status ≡ ReleaseStatus.queued))
      → (s : ReleaseRequest) → Memᴰ s (update_rows is_target h rs)
      → s.id ≡ id
      → s.status ≡ ReleaseStatus.queued
  confirmed_status one once keeps s m e =
      let (r, n, k) = mem-update_rows is_target h rs m in
      let back : r.id ≡ s.id = ground (arith, ap (λ (x : ReleaseRequest). x.id) k, keeps r) in
      let t =
        count_rows-full is_target (λ x. x.id == id) rs (λ x t. ground arith) (ground arith) n
          (ground (arith, eq_iff r.id id)) in
      ap (λ (x : ReleaseRequest). x.status) (sym k) ∙ ground (arith, keeps r)

  confirmed_owner :
      nat_eq (count_rows is_target rs) 1 ≡ true
      → ((r : ReleaseRequest) → ((h r).id ≡ r.id) × ((h r).status ≡ ReleaseStatus.queued))
      → (s : ReleaseRequest) × Memᴰ s (update_rows is_target h rs) × (s.id ≡ id)
  confirmed_owner once keeps =
      let (r, m, t) = count_rows-pos is_target rs (ground arith) in
      (
        if is_target r then h r else r,
        mem-update_rows_of is_target h m,
        ground (arith, keeps r, eq_iff r.id id),
      )

-- The two tables after the UPDATE of the release and the INSERT of its record.
module _ (id : String) (h : ReleaseRequest → ReleaseRequest) (y : DeployRow) (e : Db) where
  confirmed-Coupled :
      IsCoupled e
      → ((r : ReleaseRequest) → ((h r).id ≡ r.id) × ((h r).status ≡ ReleaseStatus.queued))
      → y.status ≡ DeployStatus.queued
      → y.release_request_id ≡ id
      → nat_eq (count_rows (is_target id h e.releases) e.releases) 1 ≡ true
      → exists_row (deploy_clashes y.id id) e.deploys ≡ false
      → Coupled (e.deploys ++ (y ∷ [])) (update_rows (is_target id h e.releases) h e.releases)
  unfolding release_status_of deploy_clashes
  confirmed-Coupled c keeps queued owner once free =
      append_deploy-Coupled
        (update_releases-Coupled _ h (λ r. (keeps r).0) c λ x r m n k s. ground (arith, keeps r)) y
        (λ r m k.
          confirmed_status id h e.releases (c.one_row id) once keeps r m (k ∙ owner)
          ∙ ap release_status_of (sym queued))
        (rw owner (confirmed_owner id h e.releases once keeps))
        (λ x m.
          let clear = exists_row-false _ e.deploys free m in
          (==-ne _ _ (ground arith), rw owner (==-ne _ _ (ground arith))))

confirm_tx-Coupled :
    (release_id user_id : String) (target : DeploymentTarget) (d : Db)
    → IsCoupled d
    → Ends faulty d (confirm_tx release_id user_id target) (λ _ e. IsCoupled e) (λ _ _. Unit {0})
unfolding confirm_tx
confirm_tx-Coupled release_id user_id target d c = then_now _ λ t.
    Ends-bind _ _
      (Ends-weaken (expand_target_executions-Keeps {P = IsCoupled} target d c) (λ _ _ q. q)
        (λ _ _ _. tt))
      λ expanded e c'. then_new_id _ _ λ id.
        then_exec _ _ _ (λ _. tt)
          (then_fail_if _ _ _ (λ _. tt)
            λ once.
              then_insert _ _ _ (λ _. tt) (λ _. tt)
                λ allowed.
                  Ends-bind _ _
                    (Ends-weaken
                      (insert_target_logs-IsCoupled id expanded.0 _ (
                        confirmed-Coupled release_id _ _ e c' (λ r. (refl, refl)) refl refl
                          (ground arith) (ground arith)))
                      (λ _ _ q. q) (λ _ _ _. tt))
                    λ _ _ q. Ends-pure _ q)

pub confirm_and_queue_release-IsCoupled :
    (release_id user_id : String) (target : DeploymentTarget)
    → Keeps IsCoupled (confirm_and_queue_release release_id user_id target)
unfolding confirm_and_queue_release get_release_request
confirm_and_queue_release-IsCoupled release_id user_id target =
    Keeps-bind _ _ (Keeps-transaction _ (confirm_tx-Coupled release_id user_id target))
      λ _. Keeps-bind _ _ (Keeps-query_row _) λ _. Keeps-pure _
