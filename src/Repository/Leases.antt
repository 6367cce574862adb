-- ===== src/Repository/Leases.antt =====
-- Leases (internal/repository/deploy.go): the recovery and the heartbeat.
use ai_pub.Base.{
  ◌≡◌, refl, sym, ap, ◌∙◌, Bool, true, false, not, ◌&&◌, String, List, [], ◌∷◌, map, Memᴰ, ◌==◌,
  ◌≤◌, ℕ, arith, inl, inr, eq_iff, eq_of_==, nat_eq, rows_where, count_rows, count_rows-le,
  count_rows-pos, count_rows-zero, update_rows, mem-update_rows, mem-rows_where_of, Bool-cases,
  if◌then◌else◌, map_congr, map-update_rows,
}
use mathlib.Core.List.Memᴰ
use ai_pub.Domain.{DeployStatus, is_deploy_running}
use ai_pub.Database.{Db, DeployRow}
use ai_pub.Action.{Env, reading, lease_lost}
use ai_pub.Action.Ends.{
  calm, Outcome, Ends, Ends-bind, Ends-pure, Ends-if, Ends-fail_if, Ends-transaction, at_now,
  then_now, then_query, then_exec,
}
use ai_pub.Repository.Claim.{heartbeat_deploy}
use ai_pub.Repository.Finish.{RecoveredDeploy}
use ai_pub.Repository.Recover.{
  is_expired, recovered_of, fail_deploy, recover_one, recover_all, recover_expired_deploys,
}
use ai_pub.Repository.Coupling.{IsCoupled}

-- Each record whose lease is over is among the candidates.
abbrev Covered : ℕ → List DeployRow → List RecoveredDeploy → Type 0
Covered now ds items =
    (x : DeployRow) → Memᴰ x ds → is_expired now x ≡ true → Memᴰ x.id (map (λ i. i.record_id) items)

abbrev fails : ℕ → String → DeployRow → Bool
fails now id x = x.id == id && is_expired now x

-- The update of one candidate leaves the expired ones to the others.
failed-Covered :
    (now : ℕ) (item : RecoveredDeploy) (items : List RecoveredDeploy) (g : DeployRow → DeployRow)
    (ds : List DeployRow)
    → ((x : DeployRow) → is_expired now (g x) ≡ false)
    → Covered now ds (item ∷ items)
    → Covered now (update_rows (fails now item.record_id) g ds) items
failed-Covered now item items g ds over h y m e =
    let (x, n, k) = mem-update_rows (fails now item.record_id) g ds m in
    let still : is_expired now (if fails now item.record_id x then g x else x) ≡ true =
      ap (is_expired now) k ∙ e in
    elim (Bool-cases (fails now item.record_id x)) [
      | inl t ↦ absurd (ground (arith, t, still, over x))
      | inr t ↦
          let same : (if fails now item.record_id x then g x else x) ≡ x = ground arith in
          let ended : is_expired now x ≡ true = ap (is_expired now) (sym same) ∙ still in
          elim (Memᴰ.cases_cons (h x n ended)) [
            | inl q ↦ absurd (ground (arith, t, ended, (eq_iff x.id item.record_id).1 q))
            | inr q ↦ rw (ap (λ (z : DeployRow). z.id) (sym same ∙ k)) at q
          ]
    ]

-- An update that leaves ids and leases alone.
updated-Covered :
    (now : ℕ) (items : List RecoveredDeploy) (p : DeployRow → Bool) (g : DeployRow → DeployRow)
    (ds : List DeployRow)
    → ((x : DeployRow) → ((g x).id ≡ x.id) × (is_expired now (g x) ≡ is_expired now x))
    → Covered now ds items
    → Covered now (update_rows p g ds) items
updated-Covered now items p g ds keeps h y m e =
    let (x, n, k) = mem-update_rows p g ds m in
    let still : is_expired now (if p x then g x else x) ≡ true = ap (is_expired now) k ∙ e in
    let id_same : (if p x then g x else x).id ≡ x.id = ground (arith, (keeps x).0) in
    let id_back : x.id ≡ y.id = sym id_same ∙ ap (λ (z : DeployRow). z.id) k in
    rw id_back at (h x n (ground (arith, (keeps x).1, still)))

Covered-none :
    (now : ℕ) (ds : List DeployRow)
    → Covered now ds []
    → (x : DeployRow) → Memᴰ x ds
    → is_expired now x ≡ false
Covered-none now ds h x m = elim (Bool-cases (is_expired now x)) [
  | inl e ↦ elim (h x m e) [ ]
  | inr e ↦ e
]

-- A record's id, and its status now or after the recovery.
abbrev pub standing : DeployRow → String × DeployStatus
standing x = (x.id, x.status)

abbrev pub recovered_standing : ℕ → DeployRow → String × DeployStatus
recovered_standing now x = (x.id, if is_expired now x then DeployStatus.failed else x.status)

-- No record's lease has expired, and just the records whose lease had expired have failed.
abbrev pub IsRecovered : ℕ → List DeployRow → List DeployRow → Type 0
IsRecovered now before after =
    ((x : DeployRow) → Memᴰ x after → is_expired now x ≡ false)
    × (map standing after ≡ map (recovered_standing now) before)

-- With the candidates that are left, the recovery ends where it would have ended before.
abbrev Recovering : ℕ → List DeployRow → List RecoveredDeploy → List DeployRow → Type 0
Recovering now before items ds =
    Covered now ds items × (map (recovered_standing now) ds ≡ map (recovered_standing now) before)

Recovering-done :
    (now : ℕ) (before ds : List DeployRow) → Recovering now before [] ds → IsRecovered now before ds
Recovering-done now before ds (covered, same) =
    let none_left = Covered-none now ds covered in
    (
      none_left,
      map_congr standing (recovered_standing now) ds (λ x m. rw (none_left x m) refl) ∙ same,
    )

Recovering-failed :
    (now : ℕ) (before : List DeployRow) (item : RecoveredDeploy) (items : List RecoveredDeploy)
    (g : DeployRow → DeployRow) (ds : List DeployRow)
    → ((x : DeployRow)
        → (is_expired now (g x) ≡ false) × ((g x).id ≡ x.id) × ((g x).status ≡ DeployStatus.failed))
    → Recovering now before (item ∷ items) ds
    → Recovering now before items (update_rows (fails now item.record_id) g ds)
Recovering-failed now before item items g ds over (covered, same) = (
  failed-Covered now item items g ds (λ x. (over x).0) covered,
  map-update_rows (recovered_standing now) (fails now item.record_id) g ds kept ∙ same,
)
  where
    kept :
        (x : DeployRow)
        → fails now item.record_id x ≡ true
        → recovered_standing now (g x) ≡ recovered_standing now x
    kept x t =
        let expired : is_expired now x ≡ true = ground (arith, t) in
        rw (expired, (over x).0, (over x).1, (over x).2) refl

Recovering-updated :
    (now : ℕ) (before : List DeployRow) (items : List RecoveredDeploy) (p : DeployRow → Bool)
    (g : DeployRow → DeployRow) (ds : List DeployRow)
    → ((x : DeployRow)
        → ((g x).id ≡ x.id) × (is_expired now (g x) ≡ is_expired now x) × ((g x).status ≡ x.status))
    → Recovering now before items ds
    → Recovering now before items (update_rows p g ds)
Recovering-updated now before items p g ds keeps (covered, same) = (
  updated-Covered now items p g ds (λ x. ((keeps x).0, (keeps x).1)) covered,
  map-update_rows (recovered_standing now) p g ds
        (λ x t. rw ((keeps x).1, (keeps x).0, (keeps x).2) refl)
      ∙ same,
)

recover_all-IsRecovered :
    (now : ℕ) (before : List DeployRow) (items : List RecoveredDeploy) (d : Db)
    → Recovering now before items d.deploys
    → Ends calm d (recover_all now items) (λ _ e. IsRecovered now before e.deploys) (λ _ _. ⊥)
unfolding recover_all recover_one fail_deploy is_expired
recover_all-IsRecovered now before [] d h = Ends-pure [] (Recovering-done now before d.deploys h)
recover_all-IsRecovered now before (item ∷ items) d h =
    then_exec _ _ _ (λ f. absurd f)
      (Ends-if (not (nat_eq (count_rows (fails now item.record_id) d.deploys) 1)) _ _
        (λ skip.
          recover_all-IsRecovered now before items _
            (Recovering-failed now before item items _ d.deploys (λ x. (refl, refl, refl)) h))
        (λ hit.
          Ends-bind _ _
            (then_exec _ _ _ (λ f. absurd f)
              (then_query _ _ (λ f. absurd f)
                (then_exec _ _ _ (λ f. absurd f)
                  (then_exec _ _ _ (λ f. absurd f)
                    (Ends-pure {Q = λ _ e. Recovering now before items e.deploys} tt (
                      Recovering-updated now before items _ _ _ (λ x. (refl, refl, refl))
                        (Recovering-failed now before item items _ d.deploys
                          (λ x. (refl, refl, refl)) h)))))))
            λ _ e q.
              Ends-bind _ _ (recover_all-IsRecovered now before items e q)
                λ rest e' q'. Ends-pure _ q'))

candidates-Covered :
    (now : ℕ) (ds : List DeployRow)
    → Covered now ds (map recovered_of (rows_where (is_expired now) ds))
unfolding recovered_of
candidates-Covered now ds x m e =
    Memᴰ.map (λ (i : RecoveredDeploy). i.record_id)
      (Memᴰ.map recovered_of (mem-rows_where_of (is_expired now) ds m e))

-- When the driver fails no statement, RecoverExpiredDeploys returns; with the time that the clock reads
-- when it is called, no record is running afterwards with an expired lease, the records are those
-- that there were, and just those that ran with an expired lease have another status: they failed.
pub recover_expired_deploys-clears :
    (n : Env) (d : Db)
    → n.faults ≡ []
    → Outcome calm
        (λ _ e. IsRecovered (reading n) d.deploys e.deploys)
        (λ _ _. ⊥)
        (recover_expired_deploys n d)
unfolding recover_expired_deploys
recover_expired_deploys-clears n d quiet = at_now n _ quiet (
    Ends-transaction _
      (then_query _ _ (λ f. absurd f)
        (recover_all-IsRecovered (reading n) d.deploys _ d
          (candidates-Covered (reading n) d.deploys, refl)))
      (λ f. absurd f))

-- A running record of the worker.
pub record IsWorkedBy (ds : List DeployRow) (id worker_id : String) : Type 0 where
  pub row : DeployRow
  pub in_deploys : Memᴰ row ds
  pub named : row.id ≡ id
  pub runs : is_deploy_running row.status ≡ true
  pub by_worker : row.worker_id ≡ worker_id

abbrev beats : String → String → DeployRow → Bool
beats id worker_id x = x.id == id && (is_deploy_running x.status && x.worker_id == worker_id)

beaten :
    (id worker_id : String) (ds : List DeployRow)
    → nat_eq (count_rows (beats id worker_id) ds) 1 ≡ true
    → IsWorkedBy ds id worker_id
beaten id worker_id ds once =
    let (x, m, t) = count_rows-pos (beats id worker_id) ds (ground arith) in
    record {
      row = x;
      in_deploys = m;
      named = eq_of_== _ _ (ground arith);
      runs = ground arith;
      by_worker = eq_of_== _ _ (ground arith);
    }

not_beaten :
    (id worker_id : String) (ds : List DeployRow)
    → count_rows (λ x. x.id == id) ds ≤ 1
    → nat_eq (count_rows (beats id worker_id) ds) 1 ≡ false
    → ¬ IsWorkedBy ds id worker_id
not_beaten id worker_id ds one missed w =
    let fewer = count_rows-le (beats id worker_id) (λ x. x.id == id) ds (λ x t. ground arith) in
    let idle = count_rows-zero (beats id worker_id) ds (ground arith) w.in_deploys in
    ground (
      arith,
      idle,
      w.runs,
      (eq_iff w.row.id id).1 w.named,
      (eq_iff w.row.worker_id worker_id).1 w.by_worker,
    )

-- When the driver fails no statement and records and releases agree, HeartbeatDeploy returns exactly
-- when the record is running and the worker's; it answers a lost lease otherwise.
pub heartbeat_deploy-exact :
    (id worker_id : String) (d : Db)
    → IsCoupled d
    → Ends calm d
        (heartbeat_deploy id worker_id)
        (λ _ _. IsWorkedBy d.deploys id worker_id)
        (λ x _. (x ≡ lease_lost) × ¬ IsWorkedBy d.deploys id worker_id)
unfolding heartbeat_deploy
heartbeat_deploy-exact id worker_id d c = then_now _ λ t.
    then_exec _ _ _ (λ f. absurd f)
      (Ends-fail_if _ _
        (λ missed.
          (refl, not_beaten id worker_id d.deploys (c.one_deploy_row id) (ground (arith, missed))))
        (λ once. beaten id worker_id d.deploys (ground (arith, once))))
