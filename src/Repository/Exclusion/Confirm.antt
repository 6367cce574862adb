-- ===== src/Repository/Exclusion/Confirm.antt =====
-- A confirmation, and the targets of running deploys.
use ai_pub.Base.{
  ◌≡◌, refl, ◌∙◌, false, String, List, [], ◌∷◌, ◌++◌, Memᴰ, arith, ==-ne, inl, inr, mem-snoc,
  exists_row, exists_row-false, ap,
}
use ai_pub.Domain.{DeploymentTarget, ExecutionTarget, is_deploy_running}
use ai_pub.Database.{Db, DeployRow}
use ai_pub.Action.Ends.{
  faulty, Ends, Ends-bind, Ends-pure, Ends-weaken, Keeps, Keeps-bind, Keeps-transaction, then_now,
  then_exec, then_insert, then_fail_if, then_new_id, keeps_rules,
}
use ai_pub.Repository.Reads.{get_release_request-Keeps, expand_target_executions-Keeps}
use ai_pub.Repository.Confirm.{
  deploy_clashes, insert_target_logs, confirm_tx, confirm_and_queue_release,
}
use ai_pub.Repository.Exclusion.{IsExclusive, append_deploy-Exclusive, append_log-Exclusive}

-- No record `id` is running.
abbrev Idle : String → List DeployRow → Type 0
Idle id ds = (x : DeployRow) → Memᴰ x ds → x.id ≡ id → is_deploy_running x.status ≡ false

appended-Idle :
    (id release_id : String) (ds : List DeployRow) (y : DeployRow)
    → exists_row (deploy_clashes id release_id) ds ≡ false
    → is_deploy_running y.status ≡ false
    → Idle id (ds ++ (y ∷ []))
unfolding deploy_clashes
appended-Idle id release_id ds y free idle x m e = elim (mem-snoc ds m) [
  | inl n ↦ let clear = exists_row-false _ ds free n in absurd (==-ne x.id id (ground arith) e)
  | inr same ↦ ap (λ (z : DeployRow). is_deploy_running z.status) same ∙ idle
]

insert_target_logs-Exclusive :
    (id : String) (ts : List ExecutionTarget) (d : Db)
    → Idle id d.deploys
    → IsExclusive d
    → Ends faulty d (insert_target_logs id ts) (λ _ e. IsExclusive e) (λ _ _. Unit {0})
unfolding insert_target_logs
insert_target_logs-Exclusive id [] d idle c = Ends-pure tt c
insert_target_logs-Exclusive id (t ∷ ts) d idle c = then_new_id _ _ λ log_id.
    then_insert _ _ _ (λ _. tt) (λ _. tt)
      λ _. insert_target_logs-Exclusive id ts _ idle (append_log-Exclusive _ idle c)

confirm_tx-Exclusive :
    (release_id user_id : String) (target : DeploymentTarget) (d : Db)
    → IsExclusive d
    → Ends faulty d (confirm_tx release_id user_id target) (λ _ e. IsExclusive e) (λ _ _. Unit {0})
unfolding confirm_tx
confirm_tx-Exclusive release_id user_id target d c = then_now _ λ t.
    Ends-bind _ _
      (Ends-weaken (expand_target_executions-Keeps {P = IsExclusive} target d c) (λ _ _ q. q)
        (λ _ _ _. tt))
      λ expanded e c'. then_new_id _ _ λ id.
        then_exec _ _ _ (λ _. tt)
          (then_fail_if _ _ _ (λ _. tt)
            λ once.
              then_insert _ _ _ (λ _. tt) (λ _. tt)
                λ allowed.
                  Ends-bind _ _
                    (insert_target_logs-Exclusive id expanded.0 _
                      (appended-Idle id release_id e.deploys _ (ground arith) refl)
                      (append_deploy-Exclusive _ refl c'))
                    λ _ _ q. Ends-pure _ q)

pub confirm_and_queue_release-IsExclusive :
    (release_id user_id : String) (target : DeploymentTarget)
    → Keeps IsExclusive (confirm_and_queue_release release_id user_id target)
unfolding confirm_and_queue_release
confirm_and_queue_release-IsExclusive release_id user_id target =
    Keeps-bind _ _ (Keeps-transaction _ (confirm_tx-Exclusive release_id user_id target))
      λ r. search (keeps_rules, get_release_request-Keeps)
