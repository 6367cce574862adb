-- ===== src/Repository/Exclusion.antt =====
-- The targets of running deploys (internal/repository/deploy.go): the invariant, and the tables of
-- deploys and of target logs.
pub mod Reports
pub mod Claim
pub mod Confirm
use ai_pub.Base.{
  ◌≡◌, refl, sym, ap, ◌∙◌, Bool, true, false, String, List, [], ◌∷◌, ◌++◌, Memᴰ, arith, inl, inr,
  update_rows, mem-update_rows, mem-snoc, if◌then◌else◌, Bool-cases,
}
use ai_pub.Domain.{DeployTargetLog, is_deploy_running, is_unfinished}
use ai_pub.Database.{Db, DeployRow}

-- The record `id` is running.
pub record Runs (ds : List DeployRow) (id : String) : Type 0 where
  pub row : DeployRow
  pub in_deploys : Memᴰ row ds
  pub named : row.id ≡ id
  pub runs : is_deploy_running row.status ≡ true

-- The record `id` has not finished the target `kind`, `ref_id`.
pub record Awaits (ls : List DeployTargetLog) (id kind ref_id : String) : Type 0 where
  pub log : DeployTargetLog
  pub in_logs : Memᴰ log ls
  pub of_record : log.deploy_record_id ≡ id
  pub of_kind : log.target_type ≡ kind
  pub of_ref : log.target_ref_id ≡ ref_id
  pub open_log : is_unfinished log.status ≡ true

-- A running record holds the targets that it has not finished.
abbrev pub Holds : List DeployRow → List DeployTargetLog → String → String → String → Type 0
Holds ds ls id kind ref_id = Runs ds id × Awaits ls id kind ref_id

-- One target, one running record.
pub record Exclusive (ds : List DeployRow) (ls : List DeployTargetLog) : Type 0 where
  pub same :
      (a b kind ref_id : String) → Holds ds ls a kind ref_id → Holds ds ls b kind ref_id → a ≡ b

abbrev pub IsExclusive : Db → Type 0
IsExclusive d = Exclusive d.deploys d.logs

-- Nothing is held afterwards that was not held before.
abbrev pub Shrinks :
    List DeployRow → List DeployTargetLog → List DeployRow → List DeployTargetLog → Type 0
Shrinks ds ls ds' ls' =
    (a kind ref_id : String) → Holds ds' ls' a kind ref_id → Holds ds ls a kind ref_id

module _ {ds ds' : List DeployRow} {ls ls' : List DeployTargetLog} where
  pub Shrinks-Exclusive : Shrinks ds ls ds' ls' → Exclusive ds ls → Exclusive ds' ls'
  Shrinks-Exclusive shrinks x = record {
    same = λ a b kind ref_id h k.
        x.same a b kind ref_id (shrinks a kind ref_id h) (shrinks b kind ref_id k);
  }

module _ (p : DeployRow → Bool) (g : DeployRow → DeployRow) {ds : List DeployRow}
    {ls : List DeployTargetLog} where
  -- An update of the records that starts none.
  pub update_deploys-Exclusive :
      ((x : DeployRow) → (g x).id ≡ x.id)
      → ((x : DeployRow)
          → p x ≡ true
          → is_deploy_running (g x).status ≡ true
          → is_deploy_running x.status ≡ true)
      → Exclusive ds ls
      → Exclusive (update_rows p g ds) ls
  update_deploys-Exclusive keeps stops = Shrinks-Exclusive λ a kind ref_id (h, k).
      let (x, m, e) = mem-update_rows p g ds h.in_deploys in
      let same : (if p x then g x else x).id ≡ x.id = ground (arith, keeps x) in
      let ran : is_deploy_running (if p x then g x else x).status ≡ true =
        ap (λ (y : DeployRow). is_deploy_running y.status) e ∙ h.runs in
      (
        record {
          row = x;
          in_deploys = m;
          named = sym same ∙ (ap (λ (y : DeployRow). y.id) e ∙ h.named);
          runs = ground (arith, stops x, ran);
        },
        k,
      )

  -- An update that stops the records.
  pub stop_deploys-Exclusive :
      ((x : DeployRow) → ((g x).id ≡ x.id) × (is_deploy_running (g x).status ≡ false))
      → Exclusive ds ls
      → Exclusive (update_rows p g ds) ls
  stop_deploys-Exclusive over =
      update_deploys-Exclusive (λ x. (over x).0) (λ x t r. absurd (ground (arith, (over x).1, r)))

module _ (y : DeployRow) {ds : List DeployRow} {ls : List DeployTargetLog} where
  -- A record that joins does not run yet.
  pub append_deploy-Exclusive :
      is_deploy_running y.status ≡ false → Exclusive ds ls → Exclusive (ds ++ (y ∷ [])) ls
  append_deploy-Exclusive idle = Shrinks-Exclusive λ a kind ref_id (h, k).
      elim (mem-snoc ds h.in_deploys) [
        | inl m ↦ (record { row = h.row; in_deploys = m; named = h.named; runs = h.runs }, k)
        | inr e ↦
            let ran = ap (λ (x : DeployRow). is_deploy_running x.status) (sym e) ∙ h.runs in
            absurd (ground (arith, idle, ran))
      ]

-- What an update keeps of a target log.
abbrev pub KeepsLog : (DeployTargetLog → DeployTargetLog) → Type 0
KeepsLog g =
    (l : DeployTargetLog)
    → ((g l).deploy_record_id ≡ l.deploy_record_id)
      × ((g l).target_type ≡ l.target_type)
      × ((g l).target_ref_id ≡ l.target_ref_id)

module _ (p : DeployTargetLog → Bool) (g : DeployTargetLog → DeployTargetLog) {ds : List DeployRow}
    {ls : List DeployTargetLog} where
  -- An update of the logs that opens none.
  pub update_logs-Exclusive :
      KeepsLog g
      → ((l : DeployTargetLog)
          → p l ≡ true
          → is_unfinished (g l).status ≡ true
          → is_unfinished l.status ≡ true)
      → Exclusive ds ls
      → Exclusive ds (update_rows p g ls)
  update_logs-Exclusive keeps closes = Shrinks-Exclusive λ a kind ref_id (r, h).
      let (l, m, e) = mem-update_rows p g ls h.in_logs in
      let record_same : (if p l then g l else l).deploy_record_id ≡ l.deploy_record_id =
        ground (arith, (keeps l).0) in
      let kind_same : (if p l then g l else l).target_type ≡ l.target_type =
        ground (arith, (keeps l).1) in
      let ref_same : (if p l then g l else l).target_ref_id ≡ l.target_ref_id =
        ground (arith, (keeps l).2) in
      let left_open : is_unfinished (if p l then g l else l).status ≡ true =
        ap (λ (k : DeployTargetLog). is_unfinished k.status) e ∙ h.open_log in
      (
        r,
        record {
          log = l;
          in_logs = m;
          of_record =
              sym record_same ∙ (ap (λ (k : DeployTargetLog). k.deploy_record_id) e ∙ h.of_record);
          of_kind = sym kind_same ∙ (ap (λ (k : DeployTargetLog). k.target_type) e ∙ h.of_kind);
          of_ref = sym ref_same ∙ (ap (λ (k : DeployTargetLog). k.target_ref_id) e ∙ h.of_ref);
          open_log = ground (arith, closes l, left_open);
        },
      )

module _ (k : DeployTargetLog) {ds : List DeployRow} {ls : List DeployTargetLog} where
  -- A log that joins is not of a running record.
  pub append_log-Exclusive :
      ((x : DeployRow) → Memᴰ x ds → x.id ≡ k.deploy_record_id → is_deploy_running x.status ≡ false)
      → Exclusive ds ls
      → Exclusive ds (ls ++ (k ∷ []))
  append_log-Exclusive idle = Shrinks-Exclusive λ a kind ref_id (r, h).
      elim (mem-snoc ls h.in_logs) [
        | inl m ↦ (
          r,
          record {
            log = h.log;
            in_logs = m;
            of_record = h.of_record;
            of_kind = h.of_kind;
            of_ref = h.of_ref;
            open_log = h.open_log;
          },
        )
        | inr e ↦
            let rest =
              idle r.row r.in_deploys (
                r.named ∙ (sym h.of_record ∙ ap (λ (l : DeployTargetLog). l.deploy_record_id) e)) in
            absurd (ground (arith, rest, r.runs))
      ]
