-- ===== src/App/Release/Decide/Allowed.antt =====
-- Who may decide on a release.
use ai_pub.Base.{
  ◌≡◌, refl, Bool, true, false, not, ◌||◌, String, some, arith, ◌==◌, eq_of_==, ◌⊎◌, inl, inr,
  find_row,
}
use ai_pub.Domain.{ReleaseStatus, ReleaseRequest, User, is_pending_confirm}
use ai_pub.Database.{Db}
use ai_pub.Action.Ends.{
  faulty, Ends, Ends-bind, Ends-pure, Ends-raise, Ends-if, Ends-weaken, Ends-known, then_query_row,
  then_fail_if,
}
use ai_pub.Repository.Lookup.{get_release_request, get_user, scan_user-some, without_credentials}
use ai_pub.App.Preflight.{ConfirmMode, self_confirm, admin_confirm, Verdict, is_pass}
use ai_pub.App.Preflight.Blocks.{OnlyReads}
use ai_pub.App.Preflight.Clear.{Clear, preflight-Clear}
use ai_pub.App.Release.{Actor, ReleaseService, is_block}
use ai_pub.App.Release.Decide.{
  ActionInput, actor_of, is_self, subject_of, check_user, check_api_key, check_confirmer,
  answer_decided, confirm_pending, confirm,
}

-- The actors that may confirm: for production an enabled administrator, elsewhere the enabled user
-- or the API key that created the release.
pub data Confirmer (d : Db) (release : ReleaseRequest) (actor : Actor) : ConfirmMode → Type 0 where
  as_admin :
      (user : User)
      → actor.type ≡ "user"
      → find_row (λ x. x.id == actor.id) d.users ≡ some user
      → user.enabled ≡ true
      → user.role ≡ "admin"
      → Confirmer d release actor admin_confirm
  as_creator :
      (user : User)
      → actor.type ≡ "user"
      → find_row (λ x. x.id == actor.id) d.users ≡ some user
      → user.enabled ≡ true
      → release.created_by_type ≡ "user"
      → release.created_by_id ≡ user.id
      → Confirmer d release actor self_confirm
  as_key :
      actor.type ≡ "api_key"
      → release.created_by_type ≡ "api_key"
      → release.created_by_id ≡ actor.id
      → Confirmer d release actor self_confirm

not-false : {b : Bool} → not b ≡ false → b ≡ true
not-false h = ground arith

both-false : {a b : Bool} → (not a || not b) ≡ false → (a ≡ true) × (b ≡ true)
both-false h = (ground arith, ground arith)

module _ (d : Db) (release : ReleaseRequest) (actor : Actor) where
  check_user-Confirmer :
      (mode : ConfirmMode)
      → actor.type ≡ "user"
      → Ends faulty d
          (check_user mode release actor.id)
          (λ _ e. (e ≡ d) × Confirmer d release actor mode)
          (λ _ e. e ≡ d)
  unfolding check_user get_user is_self without_credentials
  check_user-Confirmer self_confirm t =
      then_query_row _ _ (λ _. refl) (λ _. refl)
        λ user scanned.
          let (row, found, same) = scan_user-some _ user scanned in
          rw (← same) (
            then_fail_if _ _ _ (λ _. refl)
              λ enabled.
                then_fail_if _ _ _ (λ _. refl)
                  λ own.
                    then_fail_if _ _ _ (λ _. refl)
                      λ _. Ends-pure _ (
                        refl,
                        Confirmer.as_creator row t found (not-false enabled)
                            (eq_of_== _ _ (both-false own).0) (eq_of_== _ _ (both-false own).1),
                      ))
  check_user-Confirmer admin_confirm t =
      then_query_row _ _ (λ _. refl) (λ _. refl)
        λ user scanned.
          let (row, found, same) = scan_user-some _ user scanned in
          rw (← same) (
            then_fail_if _ _ _ (λ _. refl)
              λ enabled.
                then_fail_if _ _ _ (λ _. refl)
                  λ _.
                    then_fail_if _ _ _ (λ _. refl)
                      λ role. Ends-pure _ (
                        refl,
                        Confirmer.as_admin row t found (not-false enabled)
                            (eq_of_== _ _ (not-false role)),
                      ))

  check_api_key-Confirmer :
      (mode : ConfirmMode)
      → actor.type ≡ "api_key"
      → Ends faulty d
          (check_api_key mode release actor.id)
          (λ _ e. (e ≡ d) × Confirmer d release actor mode)
          (λ _ e. e ≡ d)
  unfolding check_api_key is_self
  check_api_key-Confirmer self_confirm t =
      then_fail_if _ _ _ (λ _. refl)
        λ _.
          then_fail_if _ _ _ (λ _. refl)
            λ own. Ends-pure _ (
              refl,
              Confirmer.as_key t (eq_of_== _ _ (both-false own).0)
                  (eq_of_== _ _ (both-false own).1),
            )
  check_api_key-Confirmer admin_confirm t =
      then_fail_if _ _ _ (λ _. refl) λ h. absurd (ground (arith, h))

  check_confirmer-Confirmer :
      (mode : ConfirmMode)
      → Ends faulty d
          (check_confirmer mode release actor)
          (λ _ e. (e ≡ d) × Confirmer d release actor mode)
          (λ _ e. e ≡ d)
  unfolding check_confirmer
  check_confirmer-Confirmer mode =
      Ends-if (actor.type == "user") _ _ (λ t. check_user-Confirmer mode (eq_of_== _ _ t))
        (λ _.
          Ends-if (actor.type == "api_key") _ _ (λ t. check_api_key-Confirmer mode (eq_of_== _ _ t))
            (λ _. Ends-raise _ refl))

-- The release waits for its confirmation, its subject may be released now, and the actor may do it.
pub record MayConfirm (d : Db) (id : String) (actor : Actor) : Type 0 where
  pub release : ReleaseRequest
  pub mode : ConfirmMode
  pub release_found : find_row (λ x. x.id == id) d.releases ≡ some release
  pub pending : is_pending_confirm release.status ≡ true
  pub clear : Clear d (subject_of release) mode
  pub confirmer : Confirmer d release actor mode

passes : (v : Verdict) → is_block v ≡ false → is_pass v ≡ true
unfolding is_block is_pass
passes v h = ground arith

confirm_pending-MayConfirm :
    (s : ReleaseService)
    → OnlyReads s.outside
    → (release : ReleaseRequest) (id : String) (input : ActionInput) (d : Db)
    → find_row (λ x. x.id == id) d.releases ≡ some release
    → is_pending_confirm release.status ≡ true
    → Ends faulty d
        (confirm_pending s release id input)
        (λ _ e. (e ≡ d) ⊎ MayConfirm d id (actor_of input))
        (λ _ e. (e ≡ d) ⊎ MayConfirm d id (actor_of input))
unfolding confirm_pending
confirm_pending-MayConfirm s reads release id input d release_found pending =
    Ends-bind _ _
      (Ends-weaken (preflight-Clear s.outside reads (subject_of release) d) (λ _ _ q. q)
        (λ _ _ q. inl q))
      λ checked e q. rw q.0 (
        then_fail_if _ _ _ (λ _. inl refl)
          λ unblocked.
            Ends-bind _ _
              (Ends-weaken
                (check_confirmer-Confirmer d release (actor_of input) checked.confirm_mode)
                (λ _ _ k. k) (λ _ _ k. inl k))
              λ user_id e' k.
                Ends-weaken
                  (Ends-known _ (record {
                    release = release;
                    mode = checked.confirm_mode;
                    release_found = release_found;
                    pending = pending;
                    clear = q.1 (passes _ unblocked);
                    confirmer = k.1;
                  }))
                  (λ _ _ p. inr p) (λ _ _ p. inr p))

answer_decided-same :
    (t : ReleaseStatus) (release : ReleaseRequest) (d : Db)
    → Ends faulty d (answer_decided t release) (λ _ e. e ≡ d) (λ _ e. e ≡ d)
unfolding answer_decided
answer_decided-same ReleaseStatus.queued r d = Ends-pure _ refl
answer_decided-same ReleaseStatus.running r d = Ends-pure _ refl
answer_decided-same ReleaseStatus.success r d = Ends-pure _ refl
answer_decided-same ReleaseStatus.failed r d = Ends-pure _ refl
answer_decided-same ReleaseStatus.partial r d = Ends-pure _ refl
answer_decided-same ReleaseStatus.pending_confirm r d = Ends-raise _ refl
answer_decided-same ReleaseStatus.cancelled r d = Ends-raise _ refl
answer_decided-same ReleaseStatus.rejected r d = Ends-raise _ refl

-- Confirm changes nothing, unless the release waits for its confirmation, the preflight of its
-- subject does not block, and the actor may confirm it in the mode of its environment; whether the
-- call returns or fails, and whatever the driver fails. The checker of a Kubernetes deployment only
-- reads.
pub confirm-MayConfirm :
    (s : ReleaseService)
    → OnlyReads s.outside
    → (id : String) (input : ActionInput) (d : Db)
    → Ends faulty d
        (confirm s id input)
        (λ _ e. (e ≡ d) ⊎ MayConfirm d id (actor_of input))
        (λ _ e. (e ≡ d) ⊎ MayConfirm d id (actor_of input))
unfolding confirm get_release_request
confirm-MayConfirm s reads id input d =
    then_query_row _ _ (λ _. inl refl) (λ _. inl refl)
      λ release found.
        Ends-if (is_pending_confirm release.status) _ _
          (λ pending. confirm_pending-MayConfirm s reads release id input d found pending)
          (λ _.
            Ends-weaken (answer_decided-same release.status release d) (λ _ _ q. inl q)
              (λ _ _ q. inl q))
