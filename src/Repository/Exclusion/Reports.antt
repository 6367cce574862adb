-- ===== src/Repository/Exclusion/Reports.antt =====
-- The reports of workers, the decisions of users and the recovery, and the targets of running deploys.
use ai_pub.Base.{
  ◌≡◌, refl, Bool, false, String, List, [], ◌∷◌, ℕ, arith, some, update_rows, not, ◌&&◌, ◌==◌,
  nat_eq, count_rows,
}
use ai_pub.Domain.{
  DeployStatus, TargetStatus, DeployTargetLog, ReleaseRequest, is_unfinished, is_deploy_running,
}
use ai_pub.Database.{Db, DeployRow}
use ai_pub.Action.Ends.{
  faulty, Ends, Ends-bind, Ends-pure, Ends-exec, Ends-if, Ends-weaken, Keeps, Keeps-bind,
  Keeps-fail_if, Keeps-if, Keeps-pure, Keeps-transaction, Keeps-query_row, then_now, then_query,
  then_query_one, then_exec, then_insert, then_new_id, keeps_rules,
}
use ai_pub.Repository.Lookup.{get_release_request}
use ai_pub.Repository.Reads.{get_deploy_record-Keeps}
use ai_pub.Repository.Release.{
  or_new_id, create_release_request, set_release_rollback_of, reject_release, cancel_release,
  cancel_deploys,
}
use ai_pub.Repository.Claim.{heartbeat_deploy}
use ai_pub.Repository.Finish.{
  ServerResult, Counts, RecoveredDeploy, target_counts, aggregate_deploy_status,
  mark_target_running, mark_target_finished, mark_queued_targets_skipped, save_states,
  save_success_states, finish_tx, finish_deploy,
}
use ai_pub.Repository.Recover.{
  fail_deploy, recover_one, recover_all, is_expired, recover_expired_deploys,
}
use ai_pub.Repository.Exclusion.{
  Exclusive, IsExclusive, update_deploys-Exclusive, update_logs-Exclusive, stop_deploys-Exclusive,
}

-- The updates of the records under a branch.
module _ (p : DeployRow → Bool) {ds : List DeployRow} {ls : List DeployTargetLog} where
  failed-Exclusive :
      (now : ℕ)
      → Exclusive ds ls
      → Exclusive
          (update_rows p
            (λ x. record x {
              status = DeployStatus.failed;
              finished_at = some now;
              error_summary = "worker lease expired";
              updated_at = now;
            })
            ds)
          ls
  failed-Exclusive now = stop_deploys-Exclusive p _ (λ x. (refl, refl))

  counted-Exclusive :
      (c : Counts)
      → Exclusive ds ls
      → Exclusive
          (update_rows p
            (λ x. record x {
              success_targets = c.success;
              failed_targets = c.failed;
              skipped_targets = c.skipped;
            })
            ds)
          ls
  counted-Exclusive c = update_deploys-Exclusive p _ (λ x. refl) (λ x t r. r)

module _ (p : DeployTargetLog → Bool) {ds : List DeployRow} {ls : List DeployTargetLog} where
  failed_logs-Exclusive :
      (now : ℕ)
      → Exclusive ds ls
      → Exclusive ds (
          update_rows p
            (λ l. record l {
              status = TargetStatus.failed;
              finished_at = some now;
              error_code = "worker_lease_expired";
              error_message = "worker lease expired";
            })
            ls)
  failed_logs-Exclusive now =
      update_logs-Exclusive p _ (λ l. (refl, refl, refl)) (λ l t r. ground (arith, r))

pub heartbeat_deploy-IsExclusive :
    (id worker_id : String) → Keeps IsExclusive (heartbeat_deploy id worker_id)
unfolding heartbeat_deploy
heartbeat_deploy-IsExclusive id worker_id d c = then_now _ λ t.
    then_exec _ _ _ (λ _. c)
      (Keeps-fail_if _ _ _ (update_deploys-Exclusive _ _ (λ x. refl) (λ x p r. r) c))

pub mark_target_running-IsExclusive :
    (id ref_id : String) → Keeps IsExclusive (mark_target_running id ref_id)
unfolding mark_target_running
mark_target_running-IsExclusive id ref_id d c = then_now _ λ t.
    then_exec _ _ _ (λ _. c)
      (Keeps-fail_if _ _ _
        (update_logs-Exclusive _ _ (λ l. (refl, refl, refl)) (λ l p r. ground arith) c))

pub mark_target_finished-IsExclusive :
    (id ref_id : String) (result : ServerResult)
    → is_unfinished result.status ≡ false
    → Keeps IsExclusive (mark_target_finished id ref_id result)
unfolding mark_target_finished
mark_target_finished-IsExclusive id ref_id result over d c = then_now _ λ t.
    then_exec _ _ _ (λ _. c)
      (Ends-pure _
        (update_logs-Exclusive _ _ (λ l. (refl, refl, refl)) (λ l p r. ground (arith, over, r)) c))

pub mark_queued_targets_skipped-IsExclusive :
    (id text : String) → Keeps IsExclusive (mark_queued_targets_skipped id text)
unfolding mark_queued_targets_skipped
mark_queued_targets_skipped-IsExclusive id text d c = then_now _ λ t.
    then_exec _ _ _ (λ _. c)
      (Ends-pure _
        (update_logs-Exclusive _ _ (λ l. (refl, refl, refl)) (λ l p r. ground (arith, r)) c))

save_states-IsExclusive :
    (r : ReleaseRequest) (id : String) (now : ℕ) (ls : List DeployTargetLog)
    → Keeps IsExclusive (save_states r id now ls)
unfolding save_states
save_states-IsExclusive r id now [] d c = Ends-pure tt c
save_states-IsExclusive r id now (l ∷ ls) d c =
    then_exec _ _ _ (λ _. c)
      (then_new_id _ _
        λ s. then_insert _ _ _ (λ _. c) (λ _. c) λ _. save_states-IsExclusive r id now ls _ c)

save_success_states-IsExclusive :
    (r : ReleaseRequest) (id : String) (now : ℕ) (counts : Counts)
    → Keeps IsExclusive (save_success_states r id now counts)
unfolding save_success_states
save_success_states-IsExclusive r id now counts = search (keeps_rules, save_states-IsExclusive)

-- A deploy that ends does not run.
aggregate-ends : (a b c : ℕ) → is_deploy_running (aggregate_deploy_status a b c) ≡ false
unfolding aggregate_deploy_status
aggregate-ends a b c = ground arith

finish_tx-Exclusive :
    (id : String) (d : Db)
    → IsExclusive d
    → Ends faulty d (finish_tx id) (λ _ e. IsExclusive e) (λ _ _. Unit {0})
unfolding finish_tx
finish_tx-Exclusive id d c =
    then_query_one _ _ _ (λ _. tt) (λ _. tt)
      λ row found.
        then_query_one _ _ _ (λ _. tt) (λ _. tt)
          λ release _.
            then_query _ _ (λ _. tt)
              (then_now _ λ t.
                then_exec _ _ _ (λ _. tt)
                  (then_exec _ _ _ (λ _. tt)
                    (Ends-weaken
                      (save_success_states-IsExclusive release id t (target_counts id d) _ (
                        update_deploys-Exclusive _ _ (λ x. refl)
                          (λ x p r.
                            let over =
                              aggregate-ends (target_counts id d).success
                                (target_counts id d).failed (target_counts id d).skipped in
                            ground (arith, over, r))
                          c))
                      (λ _ _ q. q) (λ _ _ _. tt))))

pub finish_deploy-IsExclusive : (id : String) → Keeps IsExclusive (finish_deploy id)
unfolding finish_deploy
finish_deploy-IsExclusive id =
    Keeps-bind _ _ (Keeps-transaction _ (finish_tx-Exclusive id)) λ _. get_deploy_record-Keeps id

recover_all-Exclusive :
    (now : ℕ) (items : List RecoveredDeploy) (d : Db)
    → IsExclusive d
    → Ends faulty d (recover_all now items) (λ _ e. IsExclusive e) (λ _ _. Unit {0})
unfolding recover_all recover_one fail_deploy
recover_all-Exclusive now [] d c = Ends-pure [] c
recover_all-Exclusive now (item ∷ items) d c =
    then_exec _ _ _ (λ _. tt)
      (Ends-if
        (not (nat_eq (count_rows (λ x. x.id == item.record_id && is_expired now x) d.deploys) 1)) _
        _ (λ skip. recover_all-Exclusive now items _ (failed-Exclusive _ now c))
        (λ hit.
          Ends-bind _ _
            (then_exec _ _ _ (λ _. tt)
              (then_query _ _ (λ _. tt)
                (then_exec _ _ _ (λ _. tt)
                  (then_exec _ _ _ (λ _. tt)
                    (Ends-pure {Q = λ _ e. IsExclusive e} tt (
                      counted-Exclusive _ (target_counts item.record_id _)
                        (failed_logs-Exclusive _ now (failed-Exclusive _ now c))))))))
            λ _ e q.
              Ends-bind _ _ (recover_all-Exclusive now items e q) λ rest e' q'. Ends-pure _ q'))

pub recover_expired_deploys-IsExclusive : Keeps IsExclusive recover_expired_deploys
unfolding recover_expired_deploys
recover_expired_deploys-IsExclusive d c = then_now _ λ now.
    Keeps-transaction _ (λ e c'. then_query _ _ (λ _. tt) (recover_all-Exclusive now _ e c')) d c

pub set_release_rollback_of-IsExclusive :
    (id rollback_of_id : String) → Keeps IsExclusive (set_release_rollback_of id rollback_of_id)
unfolding set_release_rollback_of get_release_request
set_release_rollback_of-IsExclusive id rollback_of_id d c =
    then_now _ λ t. then_exec _ _ _ (λ _. c) (Keeps-query_row _ _ c)

pub reject_release-IsExclusive :
    (id user_id reason : String) → Keeps IsExclusive (reject_release id user_id reason)
unfolding reject_release get_release_request
reject_release-IsExclusive id user_id reason d c =
    then_now _ λ t. then_exec _ _ _ (λ _. c) (Keeps-query_row _ _ c)

cancel_deploys-IsExclusive :
    (id user_id : String) (now : ℕ) → Keeps IsExclusive (cancel_deploys id user_id now)
unfolding cancel_deploys
cancel_deploys-IsExclusive id user_id now d c =
    Ends-exec _ _ (stop_deploys-Exclusive _ _ (λ x. (refl, refl)) c) (λ _. c)

pub cancel_release-IsExclusive :
    (id user_id : String) → Keeps IsExclusive (cancel_release id user_id)
unfolding cancel_release get_release_request
cancel_release-IsExclusive id user_id d c = then_now _ λ t.
    Keeps-bind _ _
      (Keeps-transaction _ λ e c'.
        then_exec _ _ _ (λ _. tt)
          (Ends-weaken
            (Keeps-if _ _ _ (cancel_deploys-IsExclusive id user_id t) (Keeps-pure 0) _ c')
            (λ _ _ q. q) (λ _ _ _. tt)))
      (λ _. Keeps-query_row _) d c

pub create_release_request-IsExclusive :
    (item : ReleaseRequest) → Keeps IsExclusive (create_release_request item)
unfolding create_release_request
create_release_request-IsExclusive item d c = then_now _ λ t.
    Ends-bind _ _ (keep_id item.id "rel" d c)
      λ id e c'. then_insert _ _ _ (λ _. c') (λ _. c') λ allowed. Ends-pure _ c'
  where
    keep_id : (id prefix : String) → Keeps IsExclusive (or_new_id id prefix)
    keep_id id prefix = search keeps_rules
