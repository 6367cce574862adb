-- ===== src/Repository/Exclusion/Claim.antt =====
-- A claim, and the targets of running deploys.
use ai_pub.Base.{
  ◌≡◌, refl, sym, ◌∙◌, Bool, false, true, String, List, ◌==◌, ◌&&◌, arith, eq_iff, inl, inr, ◌⊎◌,
  Bool-cases, some, ap, mem-rows_where, mem-first_row, mem-update_rows, exists_row-false,
  update_rows, if◌then◌else◌,
}
use ai_pub.Domain.{is_deploy_running, is_deploy_queued}
use ai_pub.Database.{Db, DeployRow}
use ai_pub.Action.Ends.{
  faulty, Ends, Ends-pure, Keeps, Keeps-bind, Keeps-transaction, then_now, then_exec,
  then_query_row, then_fail_if, keeps_rules,
}
use ai_pub.Repository.Reads.{
  get_release_request-Keeps, get_service_version-Keeps, resolve_deploy_snapshot-Keeps,
}
use ai_pub.Repository.Claim.{
  holds_target, target_busy, claimable, next_deploy, claim_tx, claim_next_deploy,
}
use ai_pub.Repository.Exclusion.{Runs, Awaits, Holds, Exclusive, IsExclusive}

-- The target that a running record holds makes every record with a log for it busy.
busy_of-Holds :
    (d : Db) (a id kind ref_id : String)
    → Holds d.deploys d.logs a kind ref_id
    → Awaits d.logs id kind ref_id
    → target_busy d id ≡ false
    → ⊥
unfolding target_busy holds_target
busy_of-Holds d a id kind ref_id (r, h) k free =
    let quiet = exists_row-false _ d.logs free k.in_logs in
    let same_record : (k.log.deploy_record_id == id) ≡ true = (eq_iff _ _).1 k.of_record in
    let unheld =
      exists_row-false
        (λ l.
          (l.target_type == k.log.target_type && l.target_ref_id == k.log.target_ref_id)
          && holds_target d l)
        d.logs (ground (arith, quiet, same_record)) h.in_logs in
    let same_kind : (h.log.target_type == k.log.target_type) ≡ true =
      (eq_iff _ _).1 (h.of_kind ∙ sym k.of_kind) in
    let same_ref : (h.log.target_ref_id == k.log.target_ref_id) ≡ true =
      (eq_iff _ _).1 (h.of_ref ∙ sym k.of_ref) in
    let stopped =
      exists_row-false (λ x. x.id == h.log.deploy_record_id && is_deploy_running x.status) d.deploys
        (ground (arith, unheld, same_kind, same_ref, h.open_log)) r.in_deploys in
    let same_row : (r.row.id == h.log.deploy_record_id) ≡ true =
      (eq_iff _ _).1 (r.named ∙ sym h.of_record) in
    absurd (ground (arith, stopped, same_row, r.runs))

next_deploy-free :
    (d : Db) {row : DeployRow} → next_deploy d ≡ some row → target_busy d row.id ≡ false
unfolding next_deploy claimable
next_deploy-free d e =
    let chosen = mem-rows_where (claimable d) d.deploys (mem-first_row _ _ e) in
    ground (arith, chosen.1)

-- The claimed record runs, and those that ran before.
module _ (id : String) (g : DeployRow → DeployRow) (keeps : (x : DeployRow) → (g x).id ≡ x.id) where
  abbrev starts : DeployRow → Bool
  starts x = x.id == id && is_deploy_queued x.status

  started_cases :
      (ds : List DeployRow) (a : String) → Runs (update_rows starts g ds) a → (a ≡ id) ⊎ Runs ds a
  started_cases ds a r =
      let (x, m, e) = mem-update_rows starts g ds r.in_deploys in
      elim (Bool-cases (starts x)) [
        | inl t ↦ inl (
            sym r.named
            ∙ (ap (λ (y : DeployRow). y.id) (sym e) ∙ ground (arith, keeps x, eq_iff x.id id)))
        | inr t ↦
            let same : (if starts x then g x else x) ≡ x = ground arith in
            inr (record {
              row = x;
              in_deploys = m;
              named = ap (λ (y : DeployRow). y.id) (sym same ∙ e) ∙ r.named;
              runs = ap (λ (y : DeployRow). is_deploy_running y.status) (sym same ∙ e) ∙ r.runs;
            })
      ]

  start-Exclusive :
      (d : Db)
      → target_busy d id ≡ false
      → IsExclusive d
      → Exclusive (update_rows starts g d.deploys) d.logs
  start-Exclusive d free x = record {
    same = λ a b kind ref_id (r, h) (s, k). elim (started_cases d.deploys a r) [
      | inl p ↦ elim (started_cases d.deploys b s) [
        | inl q ↦ p ∙ sym q
        | inr q ↦ absurd (busy_of-Holds d b id kind ref_id (q, k) (rw (sym p) h) free)
      ]
      | inr p ↦ elim (started_cases d.deploys b s) [
        | inl q ↦ absurd (busy_of-Holds d a id kind ref_id (p, h) (rw (sym q) k) free)
        | inr q ↦ x.same a b kind ref_id (p, h) (q, k)
      ]
    ];
  }

claim_tx-Exclusive :
    (worker_id : String) (d : Db)
    → IsExclusive d
    → Ends faulty d (claim_tx worker_id) (λ _ e. IsExclusive e) (λ _ _. Unit {0})
unfolding claim_tx
claim_tx-Exclusive worker_id d c =
    then_query_row _ _ (λ _. tt) (λ _. tt)
      λ row e. then_now _ λ t.
        then_exec _ _ _ (λ _. tt)
          (then_fail_if _ _ _ (λ _. tt)
            λ started.
              then_exec _ _ _ (λ _. tt)
                (then_fail_if _ _ _ (λ _. tt)
                  λ moved.
                    Ends-pure row
                      (start-Exclusive row.id _ (λ x. refl) d (next_deploy-free d e) c)))

pub claim_next_deploy-IsExclusive :
    (worker_id : String) → Keeps IsExclusive (claim_next_deploy worker_id)
unfolding claim_next_deploy
claim_next_deploy-IsExclusive worker_id =
    Keeps-bind _ _ (Keeps-transaction _ (claim_tx-Exclusive worker_id)) λ row.
      search
        (
          keeps_rules, get_release_request-Keeps, get_service_version-Keeps,
          resolve_deploy_snapshot-Keeps,
        )
        depth 9
