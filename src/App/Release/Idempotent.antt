-- ===== src/App/Release/Idempotent.antt =====
-- The idempotency key of a release (internal/app/release.go, Create).
use ai_pub.Base.{◌≡◌, refl, true, false, some, ◌==◌, ◌⊎◌, inl, inr, arith, find_row}
use ai_pub.Domain.{ReleaseRequest}
use ai_pub.Database.{Db}
use ai_pub.Action.{Err, Result, ok, err, driver, idempotency_conflict}
use ai_pub.Action.Ends.{
  faulty, Ends, Ends-bind, Ends-pure, Ends-raise, Ends-if, Ends-attempt, Ends-weaken,
  Ends-query_row, then_fail_if,
}
use ai_pub.Repository.Lookup.{find_release_by_idempotency}
use ai_pub.App.Preflight.Blocks.{OnlyReads}
use ai_pub.App.Preflight.Clear.{preflight-Clear}
use ai_pub.App.Release.{
  ReleaseService, CreateReleaseInput, Answered, with_defaults, same_idempotent_create,
  answer_existing, create_keyed, create,
}

module _ (s : ReleaseService) (reads : OnlyReads s.outside) (input : CreateReleaseInput)
    (existing : ReleaseRequest) (d : Db) where
  -- The answer to a request whose key a release has.
  abbrev Repeats : Answered → Db → Type 0
  Repeats r e =
      (same_idempotent_create existing (with_defaults input) ≡ true) × (r.0 ≡ existing) × (e ≡ d)

  abbrev Refuses : Err → Db → Type 0
  Refuses x e =
      (e ≡ d)
      × ((x ≡ driver)
          ⊎ ((x ≡ idempotency_conflict)
              × (same_idempotent_create existing (with_defaults input) ≡ false)))

  answer_existing-Repeats : Ends faulty d (answer_existing s input existing) Repeats Refuses
  unfolding answer_existing
  answer_existing-Repeats =
      then_fail_if _ _ _ (λ h. (refl, inr (refl, ground (arith, h))))
        λ h.
          Ends-bind _ _
            (Ends-attempt {Q = λ _ e. e ≡ d} _ (
              Ends-weaken (preflight-Clear s.outside reads input.subject d) (λ _ _ q. q.0)
                (λ _ _ q. q)))
            λ a e q. Ends-pure _ (ground (arith, h), refl, q)

  keyed_answer :
      (r : Result ReleaseRequest)
      → (r ≡ ok existing) ⊎ (r ≡ err driver)
      → Ends faulty d (create_keyed s input r) Repeats Refuses
  unfolding create_keyed
  keyed_answer r (inl p) = rw p answer_existing-Repeats
  keyed_answer r (inr p) = rw p (Ends-raise driver (refl, inl refl))

-- A request whose key a release already has creates nothing: it is answered with that release if it
-- asks for the same, and refused as a conflict otherwise; or the driver failed the look-up. The
-- checker of a Kubernetes deployment only reads.
pub create-repeats :
    (s : ReleaseService)
    → OnlyReads s.outside
    → (input : CreateReleaseInput) (existing : ReleaseRequest) (d : Db)
    → (input.idempotency_key == "") ≡ false
    → find_row (λ x. x.idempotency_key == input.idempotency_key) d.releases ≡ some existing
    → Ends faulty d
        (create s input)
        (λ r e.
          (same_idempotent_create existing (with_defaults input) ≡ true)
          × (r.0 ≡ existing)
          × (e ≡ d))
        (λ x e.
          (e ≡ d)
          × ((x ≡ driver)
              ⊎ ((x ≡ idempotency_conflict)
                  × (same_idempotent_create existing (with_defaults input) ≡ false))))
unfolding create find_release_by_idempotency create_keyed
create-repeats s reads input existing d keyed found =
    Ends-if (input.idempotency_key == "") _ _ (λ h. absurd (ground (arith, h, keyed)))
      (λ _.
        Ends-bind _ _
          (Ends-attempt {Q = λ r e. (e ≡ d) × ((r ≡ ok existing) ⊎ (r ≡ err driver))} _ (
            Ends-if (input.idempotency_key == "") _ _ (λ h. absurd (ground (arith, h, keyed)))
              (λ _.
                Ends-query_row _ (λ a p. (refl, inl (cc (p, found)))) (λ p. absurd (cc (p, found)))
                  (λ _. (refl, inr refl)))))
          λ r e q. rw q.0 (keyed_answer s reads input existing d r q.1))
