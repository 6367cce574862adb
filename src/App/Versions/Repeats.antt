-- ===== src/App/Versions/Repeats.antt =====
-- internal/app/version_registration.go: a registration that is made again.
use ai_pub.Base.{
  ◌≡◌, refl, true, false, String, some, none, ◌==◌, ◌⊎◌, inl, inr, arith, eq_iff, find_row,
}
use ai_pub.Domain.{Service, ServiceVersion}
use ai_pub.Database.{Db}
use ai_pub.Action.{Result, ok, err, not_found, attempt, ◌>>=◌}
use ai_pub.Action.Ends.{
  calm, faulty, Ends, Ends-bind, Ends-pure, Ends-if, Ends-query_row, Ends-attempt, then_fail_if,
  Ends-weaken,
}
use ai_pub.Repository.Versions.{
  is_service_of, has_key, has_version, get_service_by_slugs, find_version_by_idempotency,
  find_version_by_name,
}
use ai_pub.App.Versions.{
  VersionRegistrationInput, VersionRegistrationResult, found_service, request_hash,
  answer_registered, register_named, register_by_name, register_keyed, register_version,
}
use ai_pub.App.Versions.Registered.{register_version-Registers, answer_registered-Same}

module _ (digest : String → String) (input : VersionRegistrationInput) (d : Db) (v : ServiceVersion)
    (service : Service)
    (located : find_row (is_service_of input.project_key input.service_key d) d.services
      ≡ some service)
    (enabled : service.enabled ≡ true)
    (matches : v.registration_request_hash ≡ request_hash digest input) where
  abbrev Again : VersionRegistrationResult → Db → Type 0
  Again r e = (r.version ≡ v) × (r.created ≡ false) × (e.versions ≡ d.versions)

  same_hash : (v.registration_request_hash == request_hash digest input) ≡ true
  same_hash = (eq_iff _ _).1 matches

  answer_registered-Again : Ends calm d (answer_registered digest input v) Again (λ _ _. ⊥)
  answer_registered-Again =
      Ends-weaken (answer_registered-Same digest input v d) (λ _ _ q. (q.0, q.1, q.2.2))
        (λ _ _ x. x)

  by_name-Again :
      find_row (has_version service.id input.version) d.versions ≡ some v
      → Ends calm d (register_by_name digest input service) Again (λ _ _. ⊥)
  unfolding register_by_name find_version_by_name register_named
  by_name-Again found =
      Ends-bind _ _
        (Ends-attempt {Q = λ r e. (r ≡ ok v) × (e ≡ d)} _ (
          Ends-query_row _ (λ w p. (cc (p, found), refl)) (λ p. absurd (cc (p, found)))
            (λ f. absurd f)))
        λ r e q.
          rw (q.0, q.1)
            (Ends-if (v.registration_request_hash == request_hash digest input) _ _
              (λ _. answer_registered-Again) (λ h. absurd (ground (arith, h, same_hash))))

  -- The look-up by the key finds the version, or nothing.
  keyed-Again :
      (input.idempotency_key == "") ≡ false
      → (r : Result ServiceVersion)
      → (r ≡ ok v)
        ⊎ ((r ≡ err not_found)
            × (find_row (has_version service.id input.version) d.versions ≡ some v))
      → Ends calm d (register_keyed digest input service r) Again (λ _ _. ⊥)
  unfolding register_keyed
  keyed-Again keyed r (inl p) =
      rw p (
        then_fail_if _ _ _ (λ h. absurd (ground (arith, h, same_hash)))
          λ _. answer_registered-Again)
  keyed-Again keyed r (inr (p, found)) = rw p (by_name-Again found)

  by_key-Again :
      (input.idempotency_key == "") ≡ false
      → (find_row (has_key service.id input.idempotency_key) d.versions ≡ some v)
        ⊎ ((find_row (has_key service.id input.idempotency_key) d.versions ≡ none)
            × (find_row (has_version service.id input.version) d.versions ≡ some v))
      → Ends calm d
          (attempt (find_version_by_idempotency service.id input.idempotency_key)
            >>= register_keyed digest input service)
          Again
          (λ _ _. ⊥)
  unfolding find_version_by_idempotency
  by_key-Again keyed finds =
      Ends-bind _ _
        (Ends-attempt
          {Q = λ r e.
            (e ≡ d)
            × ((r ≡ ok v)
                ⊎ ((r ≡ err not_found)
                    × (find_row (has_version service.id input.version) d.versions ≡ some v)))}
          _
          (Ends-if (input.idempotency_key == "") _ _ (λ h. absurd (ground (arith, h, keyed)))
            (λ _.
              Ends-query_row _
                (λ w p.
                  (refl, elim finds [ inl q ↦ inl (cc (p, q)) | inr q ↦ absurd (cc (p, q.0)) ]))
                (λ p. (refl, elim finds [ inl q ↦ absurd (cc (p, q)) | inr q ↦ inr (refl, q.1) ]))
                (λ f. absurd f))))
        λ r e q. rw q.0 (keyed-Again keyed r q.1)

  again :
      ((((input.idempotency_key == "") ≡ false)
          × (find_row (has_key service.id input.idempotency_key) d.versions ≡ some v))
        ⊎ ((((input.idempotency_key == "") ≡ true)
              ⊎ (find_row (has_key service.id input.idempotency_key) d.versions ≡ none))
            × (find_row (has_version service.id input.version) d.versions ≡ some v)))
      → Ends calm d (register_version digest input) Again (λ _ _. ⊥)
  unfolding register_version get_service_by_slugs found_service
  again finds =
      Ends-bind _ _
        (Ends-attempt {Q = λ r e. (r ≡ ok service) × (e ≡ d)} _ (
          Ends-query_row _ (λ w p. (cc (p, located), refl)) (λ p. absurd (cc (p, located)))
            (λ f. absurd f)))
        λ r e q.
          rw (q.0, q.1)
            (Ends-bind _ _ (Ends-pure {Q = λ s e'. (s ≡ service) × (e' ≡ d)} service (refl, refl))
              λ s e' p.
                rw (p.0, p.1)
                  (then_fail_if _ _ _ (λ h. absurd (ground (arith, h, enabled)))
                    λ _.
                      Ends-if (input.idempotency_key == "") _ _
                        (λ blank. by_name-Again (elim finds [
                          | inl q ↦ absurd (ground (arith, blank, q.0))
                          | inr q ↦ q.1
                        ]))
                        (λ keyed. by_key-Again keyed (elim finds [
                          | inl q ↦ inl q.1
                          | inr q ↦ elim q.0 [
                            | inl blank ↦ absurd (ground (arith, blank, keyed))
                            | inr free ↦ inr (free, q.1)
                          ]
                        ]))))

-- A registration that returns can be made again: where the driver fails no statement, the same input
-- is then answered with the same version, nothing is created, and the versions stay. A registration
-- that fails leaves the versions as they were.
pub register_version-repeats :
    (digest : String → String) (input : VersionRegistrationInput) (d : Db)
    → Ends faulty d
        (register_version digest input)
        (λ first e.
          Ends calm e
            (register_version digest input)
            (λ second e'.
              (second.version ≡ first.version)
              × (second.created ≡ false)
              × (e'.versions ≡ e.versions))
            (λ _ _. ⊥))
        (λ _ e. e.versions ≡ d.versions)
register_version-repeats digest input d =
    Ends-weaken (register_version-Registers digest input d)
      (λ r e q. again digest input e r.version q.service q.located q.enabled q.matches q.found)
      (λ _ _ x. x)
