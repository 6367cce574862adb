-- ===== src/App/Release/Decide/Rejects.antt =====
-- A rejection of a release that does not wait (internal/app/release.go, Reject).
use ai_pub.Base.{
  ◌≡◌, refl, ap, true, false, String, Option, some, List, Memᴰ, ◌==◌, ◌&&◌, arith, eq_of_==, inl,
  inr, Bool-cases, find_row, update_rows-none, update_rows,
}
use ai_pub.Domain.{ReleaseRequest, is_pending_confirm}
use ai_pub.Database.{Db, DeployRow}
use ai_pub.Action.Ends.{
  calm, Ends, Ends-bind, Ends-pure, Ends-ignore, Ends-query_row, then_now, then_exec, then_insert,
  then_new_id, then_query_row, then_fail_if,
}
use ai_pub.Repository.Lookup.{get_release_request}
use ai_pub.Repository.Release.{reject_release}
use ai_pub.Repository.Events.{create_release_event}
use ai_pub.App.Release.{Actor, record_event}
use ai_pub.App.Release.Decide.{ActionInput, actor_of, may_act, reject}

some-inj : {o : Option ReleaseRequest} {a b : ReleaseRequest} → o ≡ some a → o ≡ some b → a ≡ b
some-inj p q = cc (p, q)

-- The rows of an id, when the one that is found waits for no confirmation.
unmoved :
    (id : String) (g : ReleaseRequest → ReleaseRequest) (rs : List ReleaseRequest)
    → ((r : ReleaseRequest) → Memᴰ r rs → r.id ≡ id → is_pending_confirm r.status ≡ false)
    → update_rows (λ x. x.id == id && is_pending_confirm x.status) g rs ≡ rs
unmoved id g rs late = update_rows-none _ g rs λ r m. elim (Bool-cases (r.id == id)) [
  | inl e ↦ ground (arith, e, late r m (eq_of_== _ _ e))
  | inr e ↦ ground (arith, e)
]

-- The event log is a table of its own, and its failures are ignored.
record_event-beside :
    {rs : List ReleaseRequest} {ds : List DeployRow} (release_id record_id kind : String)
    (actor : Actor) (text metadata : String) (d : Db)
    → (d.releases ≡ rs) × (d.deploys ≡ ds)
    → Ends calm d
        (record_event release_id record_id kind actor text metadata)
        (λ _ e. (e.releases ≡ rs) × (e.deploys ≡ ds))
        (λ _ _. ⊥)
unfolding record_event create_release_event
record_event-beside {rs} {ds} release_id record_id kind actor text metadata d q = Ends-ignore _ (
    then_new_id _ _ λ id. then_now _ λ t.
      then_insert {E = λ _ e. (e.releases ≡ rs) × (e.deploys ≡ ds)} _ _ _ (λ f. absurd f) (λ _. q)
        (λ _. Ends-pure _ q))

-- When the driver fails no statement, Reject of a release that is found and of which no row waits for
-- its confirmation, as one that is queued or runs, by an actor who may act on it, returns that
-- release, and leaves the releases and the deploys as they were.
pub reject-too_late :
    (id : String) (input : ActionInput) (release : ReleaseRequest) (d : Db)
    → find_row (λ x. x.id == id) d.releases ≡ some release
    → ((r : ReleaseRequest) → Memᴰ r d.releases → r.id ≡ id → is_pending_confirm r.status ≡ false)
    → may_act release (actor_of input) ≡ true
    → Ends calm d
        (reject id input)
        (λ r e. (r ≡ release) × (e.releases ≡ d.releases) × (e.deploys ≡ d.deploys))
        (λ _ _. ⊥)
unfolding reject reject_release get_release_request
reject-too_late id input release d found late may =
    let same : (g : ReleaseRequest → ReleaseRequest)
        → update_rows (λ x. x.id == id && is_pending_confirm x.status) g d.releases ≡ d.releases =
      λ g. unmoved id g d.releases late in
    then_query_row _ _ (λ f. absurd f) (λ n. absurd (cc (n, found)))
      λ r first.
        then_fail_if _ _ _
          (λ h.
            absurd
              (ground (arith, may, h, ap (λ x. may_act x (actor_of input)) (some-inj first found))))
          λ _.
            Ends-bind
              {Q = λ u e. (u ≡ release) × (e.releases ≡ d.releases) × (e.deploys ≡ d.deploys)} _ _
              (then_now _ λ t.
                then_exec _ _ _ (λ f. absurd f)
                  (Ends-query_row _ (λ u q. (some-inj (rw (same _) at q) found, same _, refl))
                    (λ q. cc (rw (same _) at q, found)) (λ f. absurd f)))
              λ u e q.
                Ends-bind _ _ (record_event-beside _ _ _ _ _ _ e (q.1, q.2))
                  λ _ e' k. Ends-pure u (q.0, k.0, k.1)
