-- ===== src/Repository/Coupling/Deploys.antt =====
-- internal/repository/deploy.go: what the workers do to deploy records, and their releases.
use ai_pub.Base.{
  ◌≡◌, refl, sym, ◌∙◌, String, some, List, [], ◌∷◌, Memᴰ, ◌==◌, ℕ, inl, inr, arith, eq_iff,
  mem-first_row, mem-rows_where, mem-find_row, Bool-cases,
}
use ai_pub.Domain.{ReleaseRequest, DeployTargetLog}
use ai_pub.Database.{Db, DeployRow}
use ai_pub.Action.Ends.{
  faulty, Ends, Ends-pure, Ends-weaken, Keeps, Keeps-bind, Keeps-fail_if, Keeps-transaction,
  then_now, then_query, then_query_row, then_query_one, then_exec, then_insert, then_fail_if,
  then_new_id, keeps_rules,
}
use ai_pub.Repository.Reads.{
  get_release_request-Keeps, get_service_version-Keeps, resolve_deploy_snapshot-Keeps,
  get_deploy_record-Keeps,
}
use ai_pub.Repository.Claim.{next_deploy, claim_tx, claim_next_deploy, heartbeat_deploy}
use ai_pub.Repository.Finish.{
  ServerResult, Counts, target_counts, release_status_of, mark_target_running, mark_target_finished,
  mark_queued_targets_skipped, save_states, save_success_states, finish_tx, finish_deploy,
}
use ai_pub.Repository.Coupling.{Coupled, IsCoupled, update-Coupled, update_deploys-Coupled}

-- The id of a record and the release that it is for find the same rows.
same_key :
    {ds : List DeployRow} {rs : List ReleaseRequest}
    → Coupled ds rs
    → (x y : DeployRow) → Memᴰ x ds
    → Memᴰ y ds
    → (x.id == y.id) ≡ (x.release_request_id == y.release_request_id)
same_key c x y m n = elim (Bool-cases (x.id == y.id)) [
  | inl e ↦
      let k = c.one_release x y m n ((eq_iff _ _).0 e) in
      ground (arith, eq_iff x.release_request_id y.release_request_id)
  | inr e ↦ elim (Bool-cases (x.release_request_id == y.release_request_id)) [
    | inl f ↦ let k = c.one_record x y m n ((eq_iff _ _).0 f) in ground (arith, eq_iff x.id y.id)
    | inr f ↦ e ∙ sym f
  ]
]

mem-next_deploy : (d : Db) {row : DeployRow} → next_deploy d ≡ some row → Memᴰ row d.deploys
unfolding next_deploy
mem-next_deploy d e = (mem-rows_where _ d.deploys (mem-first_row _ _ e)).0

claim_tx-Coupled :
    (worker_id : String) (d : Db)
    → IsCoupled d
    → Ends faulty d (claim_tx worker_id) (λ _ e. IsCoupled e) (λ _ _. Unit {0})
unfolding claim_tx release_status_of
claim_tx-Coupled worker_id d c =
    then_query_row _ _ (λ _. tt) (λ _. tt)
      λ row e. then_now _ λ t.
        then_exec _ _ _ (λ _. tt)
          (then_fail_if _ _ _ (λ _. tt)
            λ started.
              then_exec _ _ _ (λ _. tt)
                (then_fail_if _ _ _ (λ _. tt)
                  λ moved. Ends-pure row (
                    update-Coupled _ _ _ _ (λ x. (refl, refl)) (λ r. refl) c
                      λ x r m n k s. ground (arith, same_key c x row m (mem-next_deploy d e)))))

pub claim_next_deploy-IsCoupled :
    (worker_id : String) → Keeps IsCoupled (claim_next_deploy worker_id)
unfolding claim_next_deploy
claim_next_deploy-IsCoupled worker_id =
    Keeps-bind _ _ (Keeps-transaction _ (claim_tx-Coupled worker_id)) λ row.
      search
        (
          keeps_rules, get_release_request-Keeps, get_service_version-Keeps,
          resolve_deploy_snapshot-Keeps,
        )
        depth 9

pub heartbeat_deploy-IsCoupled :
    (id worker_id : String) → Keeps IsCoupled (heartbeat_deploy id worker_id)
unfolding heartbeat_deploy
heartbeat_deploy-IsCoupled id worker_id d c = then_now _ λ t.
    then_exec _ _ _ (λ _. c)
      (Keeps-fail_if _ _ _
        (update_deploys-Coupled _ _ (λ x. (refl, refl)) c λ x r m n k s. ground arith))

-- The target logs are in a table of their own.
pub mark_target_running-IsCoupled :
    (id ref_id : String) → Keeps IsCoupled (mark_target_running id ref_id)
unfolding mark_target_running
mark_target_running-IsCoupled id ref_id d c =
    then_now _ λ t. then_exec _ _ _ (λ _. c) (Keeps-fail_if _ _ _ c)

pub mark_target_finished-IsCoupled :
    (id ref_id : String) (result : ServerResult)
    → Keeps IsCoupled (mark_target_finished id ref_id result)
unfolding mark_target_finished
mark_target_finished-IsCoupled id ref_id result d c =
    then_now _ λ t. then_exec _ _ _ (λ _. c) (Ends-pure _ c)

pub mark_queued_targets_skipped-IsCoupled :
    (id text : String) → Keeps IsCoupled (mark_queued_targets_skipped id text)
unfolding mark_queued_targets_skipped
mark_queued_targets_skipped-IsCoupled id text d c =
    then_now _ λ t. then_exec _ _ _ (λ _. c) (Ends-pure _ c)

save_states-IsCoupled :
    (r : ReleaseRequest) (id : String) (now : ℕ) (ls : List DeployTargetLog)
    → Keeps IsCoupled (save_states r id now ls)
unfolding save_states
save_states-IsCoupled r id now [] d c = Ends-pure tt c
save_states-IsCoupled r id now (l ∷ ls) d c =
    then_exec _ _ _ (λ _. c)
      (then_new_id _ _
        λ s. then_insert _ _ _ (λ _. c) (λ _. c) λ _. save_states-IsCoupled r id now ls _ c)

save_success_states-IsCoupled :
    (r : ReleaseRequest) (id : String) (now : ℕ) (counts : Counts)
    → Keeps IsCoupled (save_success_states r id now counts)
unfolding save_success_states
save_success_states-IsCoupled r id now counts = search (keeps_rules, save_states-IsCoupled)

finish_tx-Coupled :
    (id : String) (d : Db)
    → IsCoupled d
    → Ends faulty d (finish_tx id) (λ _ e. IsCoupled e) (λ _ _. Unit {0})
unfolding finish_tx
finish_tx-Coupled id d c =
    then_query_one _ _ _ (λ _. tt) (λ _. tt)
      λ row found.
        then_query_one _ _ _ (λ _. tt) (λ _. tt)
          λ release _.
            then_query _ _ (λ _. tt)
              (then_now _ λ t.
                then_exec _ _ _ (λ _. tt)
                  (then_exec _ _ _ (λ _. tt)
                    (Ends-weaken
                      (save_success_states-IsCoupled release id t (target_counts id d) _ (
                        update-Coupled _ _ _ _ (λ x. (refl, refl)) (λ r. refl) c
                          λ x r m n k s.
                            let (there, named) = mem-find_row _ d.deploys found in
                            ground (arith, same_key c x row m there, eq_iff row.id id)))
                      (λ _ _ q. q) (λ _ _ _. tt))))

pub finish_deploy-IsCoupled : (id : String) → Keeps IsCoupled (finish_deploy id)
unfolding finish_deploy
finish_deploy-IsCoupled id =
    Keeps-bind _ _ (Keeps-transaction _ (finish_tx-Coupled id)) λ _. get_deploy_record-Keeps id
