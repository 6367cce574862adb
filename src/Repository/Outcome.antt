-- ===== src/Repository/Outcome.antt =====
-- How a deploy ends (internal/repository/deploy.go, FinishDeploy).
use ai_pub.Base.{
  ◌≡◌, refl, sym, ap, ◌∙◌, Bool, true, false, ◌&&◌, String, none, some, List, [], ◌∷◌, Memᴰ, ◌==◌,
  ℕ, arith, eq_iff, eq_of_==, ltb, subst, count_rows, update_rows, mem-update_rows, if◌then◌else◌,
}
use ai_pub.Domain.{
  DeployStatus, ReleaseRequest, DeployTargetLog, is_target_failed, is_target_skipped,
  is_target_success,
}
use ai_pub.Database.{Db, DeployRow}
use ai_pub.Action.Ends.{
  faulty, Ends, Ends-pure, Ends-weaken, Ends-if, Keeps, then_now, then_query, then_query_one,
  then_exec, then_insert, then_new_id,
}
use ai_pub.Repository.Finish.{
  Counts, target_counts, aggregate_deploy_status, save_states, save_success_states, finish_tx,
}

-- Nothing but the deployment states changes when they are saved.
save_states-deploys :
    (ds : List DeployRow) (ls : List DeployTargetLog) (r : ReleaseRequest) (id : String) (now : ℕ)
    (xs : List DeployTargetLog)
    → Keeps (λ e. (e.deploys ≡ ds) × (e.logs ≡ ls)) (save_states r id now xs)
unfolding save_states
save_states-deploys ds ls r id now [] d c = Ends-pure tt c
save_states-deploys ds ls r id now (x ∷ xs) d c =
    then_exec _ _ _ (λ _. c)
      (then_new_id _ _
        λ s. then_insert _ _ _ (λ _. c) (λ _. c) λ _. save_states-deploys ds ls r id now xs _ c)

save_success_states-deploys :
    (ds : List DeployRow) (ls : List DeployTargetLog) (r : ReleaseRequest) (id : String) (now : ℕ)
    (counts : Counts)
    → Keeps (λ e. (e.deploys ≡ ds) × (e.logs ≡ ls)) (save_success_states r id now counts)
unfolding save_success_states
save_success_states-deploys ds ls r id now counts d c =
    Ends-if (ltb 0 counts.success) _ _
      (λ _. then_query _ _ (λ _. c) (save_states-deploys ds ls r id now _ d c))
      (λ _. Ends-pure tt c)

-- A record that has ended as its target logs say: the counts are theirs, the lease is given up, it is
-- a success only if no target failed or was skipped, and partial only if one succeeded.
pub record EndedBy (ls : List DeployTargetLog) (x : DeployRow) : Type 0 where
  pub counted_success :
      x.success_targets
      ≡ count_rows (λ l. l.deploy_record_id == x.id && is_target_success l.status) ls
  pub counted_failed :
      x.failed_targets
      ≡ count_rows (λ l. l.deploy_record_id == x.id && is_target_failed l.status) ls
  pub counted_skipped :
      x.skipped_targets
      ≡ count_rows (λ l. l.deploy_record_id == x.id && is_target_skipped l.status) ls
  pub no_lease : x.lease_expires_at ≡ none
  pub success_iff :
      (x.status ≡ DeployStatus.success) → (x.failed_targets ≡ 0) × (x.skipped_targets ≡ 0)
  pub success_of : x.failed_targets ≡ 0 → x.skipped_targets ≡ 0 → x.status ≡ DeployStatus.success
  pub partial_has : x.status ≡ DeployStatus.partial → ltb 0 x.success_targets ≡ true
  pub failed_has_none : x.status ≡ DeployStatus.failed → x.success_targets ≡ 0

ended_row :
    (ls : List DeployTargetLog) (x : DeployRow) (now : ℕ) (text : String) (a b c : ℕ)
    → a ≡ count_rows (λ l. l.deploy_record_id == x.id && is_target_success l.status) ls
    → b ≡ count_rows (λ l. l.deploy_record_id == x.id && is_target_failed l.status) ls
    → c ≡ count_rows (λ l. l.deploy_record_id == x.id && is_target_skipped l.status) ls
    → EndedBy ls (record x {
      status = aggregate_deploy_status a b c;
      success_targets = a;
      failed_targets = b;
      skipped_targets = c;
      lease_expires_at = none;
      finished_at = some now;
      error_summary = text;
      updated_at = now;
    })
unfolding aggregate_deploy_status
ended_row ls x now text a b c p q r = record {
  counted_success = p;
  counted_failed = q;
  counted_skipped = r;
  no_lease = refl;
  success_iff = λ e. ground (arith, e);
  success_of = λ e f. ground (arith, e, f);
  partial_has = λ e. ground (arith, e);
  failed_has_none = λ e. ground (arith, e);
}

row_id : (b : Bool) (u v x : DeployRow) → u.id ≡ v.id → (if b then u else v) ≡ x → v.id ≡ x.id
row_id true u v x e k = sym e ∙ ap (λ (z : DeployRow). z.id) k
row_id false u v x e k = ap (λ (z : DeployRow). z.id) k

-- The rows of an id after the update that ends it.
ended_rows :
    (ls : List DeployTargetLog) (ds : List DeployRow) (id : String) (now : ℕ) (text : String)
    (a b c : ℕ)
    → a ≡ count_rows (λ l. l.deploy_record_id == id && is_target_success l.status) ls
    → b ≡ count_rows (λ l. l.deploy_record_id == id && is_target_failed l.status) ls
    → c ≡ count_rows (λ l. l.deploy_record_id == id && is_target_skipped l.status) ls
    → (x : DeployRow)
    → Memᴰ x (
        update_rows
          (λ x. x.id == id)
          (λ x. record x {
            status = aggregate_deploy_status a b c;
            success_targets = a;
            failed_targets = b;
            skipped_targets = c;
            lease_expires_at = none;
            finished_at = some now;
            error_summary = text;
            updated_at = now;
          })
          ds)
    → x.id ≡ id
    → EndedBy ls x
ended_rows ls ds id now text a b c p q r x m named =
    let (y, n, k) = mem-update_rows (λ (x : DeployRow). x.id == id) _ ds m in
    let hit : (y.id == id) ≡ true = (eq_iff y.id id).1 (row_id (y.id == id) _ y x refl k ∙ named) in
    subst (EndedBy ls) (rw hit at k) (
      ended_row ls y now text a b c (rw (eq_of_== _ _ hit) p) (rw (eq_of_== _ _ hit) q)
        (rw (eq_of_== _ _ hit) r))

-- When the transaction of FinishDeploy returns, the record has ended as its target logs say, and the
-- logs are as they were.
pub finish_tx-EndedBy :
    (id : String) (d : Db)
    → Ends faulty d
        (finish_tx id)
        (λ _ e.
          (e.logs ≡ d.logs) × ((x : DeployRow) → Memᴰ x e.deploys → x.id ≡ id → EndedBy d.logs x))
        (λ _ _. Unit {0})
unfolding finish_tx target_counts
finish_tx-EndedBy id d =
    then_query_one _ _ _ (λ _. tt) (λ _. tt)
      λ row found.
        then_query_one _ _ _ (λ _. tt) (λ _. tt)
          λ release _.
            then_query _ _ (λ _. tt)
              (then_now _ λ t.
                then_exec _ _ _ (λ _. tt)
                  (then_exec _ _ _ (λ _. tt)
                    (Ends-weaken
                      (save_success_states-deploys _ d.logs release id t (target_counts id d) _
                        (refl, refl))
                      (λ _ e q. (
                        q.1,
                        λ x m named.
                            ended_rows d.logs d.deploys id t _ _ _ _ refl refl refl x (rw q.0 at m)
                              named,
                      ))
                      (λ _ _ _. tt))))
