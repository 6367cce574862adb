-- ===== src/Repository/Coupling/Releases.antt =====
-- internal/repository/release.go: the operations on releases, and their deploy records.
use ai_pub.Base.{
  count_rows, count_rows-le, count_rows-zero, nat_eq, ◌≤◌, ◌≡◌, refl, Bool, false, ◌&&◌, String,
  List, Memᴰ, ◌==◌, arith, eq_iff, exists_row-false,
}
use ai_pub.Domain.{is_cancellable, ReleaseRequest}
use ai_pub.Database.{Db}
use ai_pub.Action.Ends.{
  Ends-bind, Ends-pure, Ends-exec, Ends-if, Keeps-bind, Keeps-transaction, Keeps, then_now,
  then_exec, then_insert, Keeps-query_row, keeps_rules,
}
use ai_pub.Repository.Lookup.{get_release_request}
use ai_pub.Repository.Finish.{release_status_of}
use ai_pub.Repository.Release.{
  or_new_id, release_allowed, create_release_request, set_release_rollback_of, reject_release,
  cancel_release,
}
use ai_pub.Repository.Coupling.{
  IsCoupled, update-Coupled, update_releases-Coupled, append_release-Coupled,
}

pub set_release_rollback_of-IsCoupled :
    (id rollback_of_id : String) → Keeps IsCoupled (set_release_rollback_of id rollback_of_id)
unfolding set_release_rollback_of get_release_request
set_release_rollback_of-IsCoupled id rollback_of_id d c = then_now _ λ t.
    then_exec _ _ _ (λ _. c)
      (Keeps-query_row _ _ (update_releases-Coupled _ _ (λ r. refl) c λ x r m n e s. ground arith))

pub reject_release-IsCoupled :
    (id user_id reason : String) → Keeps IsCoupled (reject_release id user_id reason)
unfolding reject_release get_release_request release_status_of
reject_release-IsCoupled id user_id reason d c = then_now _ λ t.
    then_exec _ _ _ (λ _. c)
      (Keeps-query_row _ _ (update_releases-Coupled _ _ (λ r. refl) c λ x r m n e s. ground arith))

-- An id that occurs once is affected once or not at all.
not_affected :
    (p : ReleaseRequest → Bool) (id : String) (rs : List ReleaseRequest)
    → count_rows (λ r. r.id == id) rs ≤ 1
    → nat_eq (count_rows (λ r. r.id == id && p r) rs) 1 ≡ false
    → {r : ReleaseRequest} → Memᴰ r rs
    → (r.id == id && p r) ≡ false
not_affected p id rs one h m =
    let fewer =
      count_rows-le (λ (r : ReleaseRequest). r.id == id && p r) (λ r. r.id == id) rs
        (λ r t. ground arith) in
    count_rows-zero (λ r. r.id == id && p r) rs (ground arith) m

pub cancel_release-IsCoupled : (id user_id : String) → Keeps IsCoupled (cancel_release id user_id)
unfolding cancel_release get_release_request release_status_of
cancel_release-IsCoupled id user_id d c = then_now _ λ t.
    Keeps-bind _ _
      (Keeps-transaction _ λ d c.
        then_exec _ _ _ (λ _. tt)
          (Ends-if _ _ _
            (λ once.
              Ends-exec _ _
                (update-Coupled _ _ _ _ (λ x. (refl, refl)) (λ r. refl) c
                  (λ x r m n e s. ground (arith, eq_iff r.id id, eq_iff x.release_request_id id)))
                (λ _. tt))
            (λ other. Ends-pure _ (
              update_releases-Coupled _ _ (λ r. refl) c
                λ x r m n e s. ground (
                  arith,
                  not_affected (λ r. is_cancellable r.status) id d.releases (c.one_row id) other n,
                )))))
      (λ _. Keeps-query_row _) d c

or_new_id-Keeps : {P : Db → Type 0} (id prefix : String) → Keeps P (or_new_id id prefix)
or_new_id-Keeps id prefix = search keeps_rules

pub create_release_request-IsCoupled :
    (item : ReleaseRequest) → Keeps IsCoupled (create_release_request item)
unfolding create_release_request release_allowed
create_release_request-IsCoupled item d c = then_now _ λ t.
    Ends-bind _ _ (or_new_id-Keeps item.id "rel" d c) λ id e c'.
      then_insert _ _ _ (λ _. c') (λ _. c')
        λ allowed. Ends-pure _ (
          append_release-Coupled c' _
            λ r m. exists_row-false (λ x. x.id == id) e.releases (ground arith) m)
