-- ===== src/App/Release/Decide/Cancels.antt =====
-- Cancelled releases and their deploy records (internal/app/release.go, Cancel).
use ai_pub.Base.{
  ◌≡◌, sym, ap, ◌∙◌, false, String, some, Memᴰ, ◌==◌, arith, eq_of_==, find_row, mem-find_row,
}
use ai_pub.Domain.{ReleaseStatus, DeployStatus, ReleaseRequest, is_cancellable, is_deploy_queued}
use ai_pub.Database.{Db, DeployRow}
use ai_pub.Action.Ends.{
  faulty, Ends, Ends-bind, Ends-both, Ends-pure, Ends-if, Ends-ignore, Ends-known, Ends-query_row,
  Ends-weaken, then_fail_if, then_insert, then_new_id, then_now, then_query_row,
}
use ai_pub.Repository.Lookup.{get_release_request}
use ai_pub.Repository.Release.{cancel_release}
use ai_pub.Repository.Events.{create_release_event}
use ai_pub.Repository.Claim.{claimable}
use ai_pub.Repository.Finish.{release_status_of}
use ai_pub.Repository.Coupling.{IsCoupled}
use ai_pub.Repository.Coupling.Releases.{cancel_release-IsCoupled}
use ai_pub.App.Release.{Actor, record_event}
use ai_pub.App.Release.Decide.{ActionInput, is_cancelled, cancel_current, cancel}

-- The release that was answered is the one in the table, beside its deploys.
abbrev Answers : String → ReleaseRequest → Db → Type 0
Answers id r e = IsCoupled e × (find_row (λ x. x.id == id) e.releases ≡ some r)

read_again :
    (id user_id : String) (d : Db)
    → Ends faulty d
        (cancel_release id user_id)
        (λ r e. find_row (λ x. x.id == id) e.releases ≡ some r)
        (λ _ _. Unit {0})
unfolding cancel_release get_release_request
read_again id user_id d =
    then_now _
      λ t. Ends-bind _ _ (Ends-known _ tt) λ _ e _. Ends-query_row _ (λ r p. p) (λ _. tt) (λ _. tt)

cancel_release-Answers :
    (id user_id : String) (d : Db)
    → IsCoupled d
    → Ends faulty d (cancel_release id user_id) (Answers id) (λ _ _. Unit {0})
cancel_release-Answers id user_id d c =
    Ends-weaken (Ends-both (cancel_release-IsCoupled id user_id d c) (read_again id user_id d))
      (λ _ _ q. q) (λ _ _ _. tt)

record_event-Answers :
    (id : String) (r : ReleaseRequest) (release_id record_id kind : String) (actor : Actor)
    (text metadata : String) (d : Db)
    → Answers id r d
    → Ends faulty d
        (record_event release_id record_id kind actor text metadata)
        (λ _ e. Answers id r e)
        (λ _ _. Unit {0})
unfolding record_event create_release_event
record_event-Answers id r release_id record_id kind actor text metadata d q = Ends-ignore _ (
    then_new_id _ _ λ event_id.
      then_now _
        λ t. then_insert {E = λ _ e. Answers id r e} _ _ _ (λ _. q) (λ _. q) (λ _. Ends-pure _ q))

cancel_current-Answers :
    (current : ReleaseRequest) (id : String) (input : ActionInput) (d : Db)
    → IsCoupled d
    → Ends faulty d (cancel_current current id input) (Answers id) (λ _ _. Unit {0})
unfolding cancel_current
cancel_current-Answers current id input d c =
    then_fail_if _ _ _ (λ _. tt)
      λ _. Ends-bind _ _ (cancel_release-Answers id _ d c) λ updated e q.
        Ends-if (is_cancelled updated.status) _ _
          (λ _.
            Ends-bind _ _ (record_event-Answers id updated _ _ _ _ _ _ e q)
              λ _ e' k. Ends-pure updated k)
          (λ _. Ends-pure updated q)

cancel-Answers :
    (id : String) (input : ActionInput) (d : Db)
    → IsCoupled d
    → Ends faulty d (cancel id input) (Answers id) (λ _ _. Unit {0})
unfolding cancel get_release_request
cancel-Answers id input d c =
    then_query_row _ _ (λ _. tt) (λ _. tt)
      λ current found.
        Ends-if (is_cancellable current.status) _ _
          (λ _. cancel_current-Answers current id input d c) (λ _. Ends-pure current (c, found))

cancelled_with :
    (s : DeployStatus) (t : ReleaseStatus)
    → t ≡ ReleaseStatus.cancelled
    → t ≡ release_status_of s
    → s ≡ DeployStatus.cancelled
unfolding release_status_of
cancelled_with s t e f = ground (arith, e, f)

-- Where records and releases agree, a release that Cancel answers as cancelled, whether it is so by
-- this call or was before, has only records that are cancelled themselves, and none that a worker can
-- claim any more.
pub cancel-unclaimable :
    (id : String) (input : ActionInput) (d : Db)
    → IsCoupled d
    → Ends faulty d
        (cancel id input)
        (λ r e.
          r.status ≡ ReleaseStatus.cancelled
          → (x : DeployRow) → Memᴰ x e.deploys
          → x.release_request_id ≡ id
          → (x.status ≡ DeployStatus.cancelled) × (claimable e x ≡ false))
        (λ _ _. Unit {0})
unfolding claimable
cancel-unclaimable id input d c =
    Ends-weaken (cancel-Answers id input d c)
      (λ r e q s x m named.
        let (there, hit) = mem-find_row (λ (y : ReleaseRequest). y.id == id) e.releases q.1 in
        let idle =
          cancelled_with x.status r.status s
            (q.0.agree x r m there (eq_of_== _ _ hit ∙ sym named)) in
        (idle, ground (arith, ap is_deploy_queued idle)))
      (λ _ _ _. tt)
