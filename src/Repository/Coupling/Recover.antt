-- ===== src/Repository/Coupling/Recover.antt =====
-- internal/repository/deploy.go, RecoverExpiredDeploys: records and their releases.
use ai_pub.Base.{
  ◌≡◌, refl, sym, ◌∙◌, Bool, true, false, not, ◌&&◌, some, List, [], ◌∷◌, Memᴰ, ◌==◌, ℕ, inl, inr,
  arith, eq_iff, nat_eq, count_rows, count_rows-le, count_rows-pos, count_rows-zero,
  count_rows-full, update_rows, mem-rows_where, Bool-cases, eq_of_==, if◌then◌else◌, map,
}
use ai_pub.Domain.{
  ReleaseStatus, DeployStatus, ReleaseRequest, is_release_running, is_deploy_running,
}
use ai_pub.Database.{Db, DeployRow}
use ai_pub.Action.Ends.{
  faulty, Ends, Ends-bind, Ends-pure, Ends-if, Ends-weaken, Keeps, Keeps-transaction, then_now,
  then_query, then_exec,
}
use ai_pub.Repository.Finish.{Counts, target_counts, RecoveredDeploy, release_status_of}
use ai_pub.Repository.Recover.{
  recovered_of, is_expired, fail_deploy, recover_one, recover_all, recover_expired_deploys,
}
use ai_pub.Repository.Coupling.{
  KeepsDeploy, deploy_origin, Coupled, IsCoupled, update-Coupled, update_deploys-Coupled,
}

-- A candidate of the recovery names the release of its record, before and after each update.
abbrev Names : List DeployRow → RecoveredDeploy → Type 0
Names ds item =
    (x : DeployRow) → Memᴰ x ds → x.id ≡ item.record_id → x.release_request_id ≡ item.release_id

abbrev AllNames : List DeployRow → List RecoveredDeploy → Type 0
AllNames ds [] = Unit
AllNames ds (item ∷ items) = Names ds item × AllNames ds items

update-Names :
    (p : DeployRow → Bool) (g : DeployRow → DeployRow) (ds : List DeployRow)
    (item : RecoveredDeploy)
    → KeepsDeploy g
    → Names ds item
    → Names (update_rows p g ds) item
update-Names p g ds item keeps h x m e =
    let (x₀, n, k, i, r) = deploy_origin p g keeps ds m in r ∙ h x₀ n (sym i ∙ e)

update-AllNames :
    (p : DeployRow → Bool) (g : DeployRow → DeployRow) (ds : List DeployRow)
    (items : List RecoveredDeploy)
    → KeepsDeploy g
    → AllNames ds items
    → AllNames (update_rows p g ds) items
update-AllNames p g ds [] keeps h = tt
update-AllNames p g ds (item ∷ items) keeps (h, hs) =
    (update-Names p g ds item keeps h, update-AllNames p g ds items keeps hs)

recovered-AllNames :
    (now : ℕ) {ds : List DeployRow} {rs : List ReleaseRequest}
    → Coupled ds rs
    → (xs : List DeployRow) → ((x : DeployRow) → Memᴰ x xs → Memᴰ x ds)
    → AllNames ds (map recovered_of xs)
unfolding recovered_of
recovered-AllNames now c [] sub = tt
recovered-AllNames now c (x ∷ xs) sub = (
  λ y m e. c.one_release y x m (sub x (Memᴰ.head refl)) e,
  recovered-AllNames now c xs (λ y m. sub y (Memᴰ.tail m)),
)

abbrev fail_row : ℕ → DeployRow → DeployRow
fail_row now x = record x {
  status = DeployStatus.failed;
  finished_at = some now;
  error_summary = "worker lease expired";
  updated_at = now;
}

abbrev count_row : Counts → DeployRow → DeployRow
count_row c x = record x {
  success_targets = c.success;
  failed_targets = c.failed;
  skipped_targets = c.skipped;
}

abbrev fail_release_row : ℕ → ReleaseRequest → ReleaseRequest
fail_release_row now x = record x {
  status = ReleaseStatus.failed;
  summary_status = some DeployStatus.failed;
  summary_message = "worker lease expired";
  updated_at = now;
}

running_release :
    (s : DeployStatus)
    → is_deploy_running s ≡ true
    → is_release_running (release_status_of s) ≡ true
unfolding release_status_of
running_release s e = ground arith

not-false : {b : Bool} → not b ≡ true → b ≡ false
not-false e = ground arith

not-true : {b : Bool} → not b ≡ false → b ≡ true
not-true e = ground arith

-- A record that the recovery failed was running, and so was its release, and no other.
module _ (now : ℕ) (item : RecoveredDeploy) {ds : List DeployRow} {rs : List ReleaseRequest}
    (c : Coupled ds rs) (names : Names ds item) where
  abbrev is_failed : DeployRow → Bool
  is_failed x = x.id == item.record_id && is_expired now x

  expired_record :
      nat_eq (count_rows is_failed ds) 1 ≡ true
      → (x : DeployRow) → Memᴰ x ds
      → x.release_request_id ≡ item.release_id
      → is_failed x ≡ true
  expired_record once x m e =
      let (x₀, m₀, t₀) = count_rows-pos is_failed ds (ground arith) in
      let named : x₀.id ≡ item.record_id = ground (arith, eq_iff x₀.id item.record_id) in
      let same = c.one_record x x₀ m m₀ (e ∙ sym (names x₀ m₀ named)) in
      count_rows-full is_failed (λ y. y.id == item.record_id) ds (λ y t. ground arith)
        (ground (arith, c.one_deploy_row item.record_id)) m
        (ground (arith, eq_iff x.id item.record_id))

  untouched :
      nat_eq (count_rows is_failed ds) 1 ≡ false → (x : DeployRow) → Memᴰ x ds → is_failed x ≡ false
  untouched none_hit x m =
      let fewer = count_rows-le is_failed (λ y. y.id == item.record_id) ds (λ y t. ground arith) in
      count_rows-zero is_failed ds (ground (arith, c.one_deploy_row item.record_id)) m

  skip-Coupled :
      nat_eq (count_rows is_failed ds) 1 ≡ false
      → Coupled (update_rows is_failed (fail_row now) ds) rs
  skip-Coupled none_hit =
      update_deploys-Coupled is_failed (fail_row now) (λ x. (refl, refl)) c
        (λ x r m n k s. ground (arith, untouched none_hit x m))

  hit_row :
      nat_eq (count_rows is_failed ds) 1 ≡ true
      → (x : DeployRow) (r : ReleaseRequest) → Memᴰ x ds
      → r.id ≡ x.release_request_id
      → r.status ≡ release_status_of x.status
      → (if r.id == item.release_id && is_release_running r.status
          then fail_release_row now r
          else r).status
        ≡ release_status_of (if is_failed x then fail_row now x else x).status
  unfolding is_expired release_status_of
  hit_row once x r m k s = elim (Bool-cases (is_failed x)) [
    | inl t ↦
        let named : x.id ≡ item.record_id = eq_of_== _ _ (ground arith) in
        let owner : r.id ≡ item.release_id = k ∙ names x m named in
        let runs : is_deploy_running x.status ≡ true = ground arith in
        ground (arith, owner, s, runs, eq_iff r.id item.release_id)
    | inr t ↦ elim (Bool-cases (r.id == item.release_id)) [
      | inl e ↦ let u = expired_record once x m (sym k ∙ eq_of_== _ _ e) in ground (arith, t, u)
      | inr e ↦ ground (arith, s, t, e)
    ]
  ]

  hit-Coupled :
      nat_eq (count_rows is_failed ds) 1 ≡ true
      → (e : Counts)
      → Coupled
          (update_rows
            (λ x. x.id == item.record_id)
            (count_row e)
            (update_rows is_failed (fail_row now) ds))
          (update_rows
            (λ r. r.id == item.release_id && is_release_running r.status)
            (fail_release_row now)
            rs)
  hit-Coupled once e =
      update_deploys-Coupled _ _ (λ x. (refl, refl))
        (update-Coupled is_failed (fail_row now) _ _ (λ x. (refl, refl)) (λ r. refl) c
          (λ x r m n k s. hit_row once x r m k s))
        (λ x r m n k s. ground (arith, s))

recover_all-Coupled :
    (now : ℕ) (items : List RecoveredDeploy) (d : Db)
    → IsCoupled d
    → AllNames d.deploys items
    → Ends faulty d (recover_all now items) (λ _ e. IsCoupled e) (λ _ _. Unit {0})
unfolding recover_all recover_one fail_deploy
recover_all-Coupled now [] d c h = Ends-pure [] c
recover_all-Coupled now (item ∷ items) d c (h, hs) =
    then_exec _ _ _ (λ _. tt)
      (Ends-if _ _ _
        (λ skip.
          recover_all-Coupled now items _ (skip-Coupled now item c h (not-false skip))
            (update-AllNames _ _ d.deploys items (λ x. (refl, refl)) hs))
        (λ hit.
          Ends-bind _ _
            (then_exec _ _ _ (λ _. tt)
              (then_query _ _ (λ _. tt)
                (then_exec _ _ _ (λ _. tt)
                  (then_exec _ _ _ (λ _. tt)
                    (Ends-pure {Q = λ _ e. IsCoupled e × AllNames e.deploys items} tt (
                      hit-Coupled now item c h (not-true hit) (target_counts item.record_id _),
                      update-AllNames _ _ _ items (λ x. (refl, refl))
                          (update-AllNames _ _ d.deploys items (λ x. (refl, refl)) hs),
                    ))))))
            λ _ e q.
              Ends-bind _ _ (recover_all-Coupled now items e q.0 q.1) λ rest e' q'. Ends-pure _ q'))

pub recover_expired_deploys-IsCoupled : Keeps IsCoupled recover_expired_deploys
unfolding recover_expired_deploys
recover_expired_deploys-IsCoupled d c = then_now _ λ now.
    Keeps-transaction _
      (λ e c'.
        then_query _ _ (λ _. tt)
          (Ends-weaken
            (recover_all-Coupled now _ e c'
              (recovered-AllNames now c' _ (λ x m. (mem-rows_where _ _ m).0)))
            (λ _ _ q. q) (λ _ _ _. tt)))
      d c
