-- ===== src/App/Versions/Registered.antt =====
-- internal/app/version_registration.go: what a registration does to the versions.
use ai_pub.Base.{
  ◌≡◌, refl, ◌∙◌, Bool, true, false, String, some, none, List, [], ◌∷◌, ◌++◌, Memᴰ, ◌==◌, ◌⊎◌, inl,
  inr, arith, eq_refl, eq_of_==, find_row, exists_row, find_row-snoc, mem-find_row, Bool-cases,
}
use ai_pub.Domain.{Service, ServiceVersion}
use ai_pub.Database.{Db}
use ai_pub.Action.{Err, Result, ok, err, not_found, driver}
use ai_pub.Action.Ends.{
  Mode, faulty, Ends, Ends-bind, Ends-pure, Ends-raise, Ends-if, Ends-query_row, Ends-attempt,
  Ends-ignore, Ends-new_id, then_now, then_insert, then_fail_if, Ends-weaken,
}
use ai_pub.Repository.Versions.{
  is_service_of, has_key, has_version, version_allowed, get_service_by_slugs,
  find_version_by_idempotency, find_version_by_name, create_service_version,
  create_service_version_event,
}
use ai_pub.App.Versions.{
  VersionRegistrationInput, VersionRegistrationResult, record_version_registered_event,
  found_service, request_hash, new_version, answer_registered, register_new, register_named,
  register_by_name, register_keyed, register_version,
}

-- The tables that a registration reads are as they were.
abbrev pub Same : Db → Db → Type 0
Same d e = (e.projects ≡ d.projects) × (e.services ≡ d.services) × (e.versions ≡ d.versions)

record_event-Same :
    {c : Mode} {E : Err → Db → Type 0} (v : ServiceVersion) (input : VersionRegistrationInput)
    (created : Bool) (d : Db)
    → Ends c d (record_version_registered_event v input created) (λ _ e. Same d e) E
unfolding record_version_registered_event create_service_version_event
record_event-Same v input created d = Ends-ignore _ (
    Ends-bind _ _ (Ends-new_id {Q = λ _ e. e ≡ d} "vevt" (λ _. refl)) λ id e p. rw p (
      then_now _ λ now.
        then_insert _ _ _ (λ _. (refl, refl, refl)) (λ _. (refl, refl, refl))
          λ _. Ends-pure _ (refl, refl, refl)))

module _ (digest : String → String) (input : VersionRegistrationInput) where
  abbrev hash : String
  hash = request_hash digest input

  -- How the look-ups of a registration find a version.
  abbrev Finds : String → List ServiceVersion → ServiceVersion → Type 0
  Finds id ls v =
      (((input.idempotency_key == "") ≡ false)
        × (find_row (has_key id input.idempotency_key) ls ≡ some v))
      ⊎ ((((input.idempotency_key == "") ≡ true)
            ⊎ (find_row (has_key id input.idempotency_key) ls ≡ none))
          × (find_row (has_version id input.version) ls ≡ some v))

  Finds-mem :
      (id : String) (ls : List ServiceVersion) (v : ServiceVersion) → Finds id ls v → Memᴰ v ls
  Finds-mem id ls v (inl q) = (mem-find_row _ ls q.1).0
  Finds-mem id ls v (inr q) = (mem-find_row _ ls q.1).0

  -- A registration answers with a version that it created or that was there.
  abbrev Stores : List ServiceVersion → List ServiceVersion → VersionRegistrationResult → Type 0
  Stores before after r =
      ((r.created ≡ false) × (after ≡ before))
      ⊎ ((r.created ≡ true) × (after ≡ before ++ (r.version ∷ [])))

  pub record Registers (d : Db) (r : VersionRegistrationResult) (e : Db) : Type 0 where
    pub service : Service
    pub located :
        find_row (is_service_of input.project_key input.service_key e) e.services ≡ some service
    pub enabled : service.enabled ≡ true
    pub matches : r.version.registration_request_hash ≡ hash
    pub found : Finds service.id e.versions r.version
    pub stores : Stores d.versions e.versions r

  -- The answer with a version that is there.
  pub answer_registered-Same :
      {c : Mode} {E : Err → Db → Type 0} (v : ServiceVersion) (d : Db)
      → Ends c d
          (answer_registered digest input v)
          (λ r e. (r.version ≡ v) × (r.created ≡ false) × Same d e)
          E
  unfolding answer_registered
  answer_registered-Same v d =
      Ends-bind _ _ (record_event-Same v input false d) λ _ e same. Ends-pure _ (refl, refl, same)

  module _ (d : Db) (service : Service)
      (located : find_row (is_service_of input.project_key input.service_key d) d.services
        ≡ some service)
      (enabled : service.enabled ≡ true) where
    located-Same :
        (e : Db)
        → e.projects ≡ d.projects
        → e.services ≡ d.services
        → find_row (is_service_of input.project_key input.service_key e) e.services ≡ some service
    unfolding is_service_of
    located-Same e p q = rw (p, q) located

    answer_registered-Registers :
        (v : ServiceVersion)
        → v.registration_request_hash ≡ hash
        → Finds service.id d.versions v
        → Ends faulty d
            (answer_registered digest input v)
            (Registers d)
            (λ _ e. e.versions ≡ d.versions)
    answer_registered-Registers v matches found =
        Ends-weaken (answer_registered-Same v d)
          (λ r e q. record {
            service = service;
            located = located-Same e q.2.0 q.2.1;
            enabled = enabled;
            matches = rw q.0 matches;
            found = rw (q.0, q.2.2) found;
            stores = inl (q.1, q.2.2);
          })
          (λ _ _ x. x)

    -- The version that CreateServiceVersion inserted.
    record Creates (v : ServiceVersion) (e : Db) : Type 0 where
      projects : e.projects ≡ d.projects
      services : e.services ≡ d.services
      appended : e.versions ≡ d.versions ++ (v ∷ [])
      matches : v.registration_request_hash ≡ hash
      named : has_version service.id input.version v ≡ true
      keyed : has_key service.id input.idempotency_key v ≡ true
      name_free : exists_row (has_version service.id input.version) d.versions ≡ false
      key_free :
          (input.idempotency_key == "") ≡ false
          → exists_row (has_key service.id input.idempotency_key) d.versions ≡ false

    create-Creates :
        Ends faulty d
          (create_service_version (new_version digest input service))
          Creates
          (λ _ e. e.versions ≡ d.versions)
    unfolding create_service_version version_allowed new_version has_key has_version request_hash
    create-Creates = Ends-bind _ _ (Ends-new_id {Q = λ _ e. e ≡ d} "ver" (λ _. refl)) λ id e p.
        rw p (
          then_now _ λ now.
            then_insert _ _ _ (λ _. refl) (λ _. refl)
              λ allowed. Ends-pure _ (record {
                projects = refl;
                services = refl;
                appended = refl;
                matches = refl;
                named = ground (arith, eq_refl service.id, eq_refl input.version);
                keyed = ground (arith, eq_refl service.id, eq_refl input.idempotency_key);
                name_free = ground (arith, allowed);
                key_free = λ k. ground (arith, allowed, k);
              }))

    created-Finds : (v : ServiceVersion) (e : Db) → Creates v e → Finds service.id e.versions v
    created-Finds v e q = rw q.appended (elim (Bool-cases (input.idempotency_key == "")) [
      | inl blank ↦ inr (inl blank, find_row-snoc _ d.versions v q.name_free q.named)
      | inr keyed ↦ inl (keyed, find_row-snoc _ d.versions v (q.key_free keyed) q.keyed)
    ])

    register_new-Registers :
        Ends faulty d
          (register_new digest input service)
          (Registers d)
          (λ _ e. e.versions ≡ d.versions)
    unfolding register_new
    register_new-Registers = Ends-bind _ _ create-Creates λ v e q.
        Ends-bind _ _ (record_event-Same v input true e) λ _ e' same. Ends-pure _ (record {
          service = service;
          located = located-Same e' (same.0 ∙ q.projects) (same.1 ∙ q.services);
          enabled = enabled;
          matches = q.matches;
          found = rw same.2 (created-Finds v e q);
          stores = inr (refl, same.2 ∙ q.appended);
        })

    -- What a look-up answered: the version, that there is none, or the driver's error.
    abbrev Answer : (ServiceVersion → Bool) → Result ServiceVersion → Type 0
    Answer p r =
        ((v : ServiceVersion) × (r ≡ ok v) × (find_row p d.versions ≡ some v))
        ⊎ (((r ≡ err not_found) × (find_row p d.versions ≡ none)) ⊎ (r ≡ err driver))

    register_named-Registers :
        ((input.idempotency_key == "") ≡ true)
          ⊎ (find_row (has_key service.id input.idempotency_key) d.versions ≡ none)
        → (r : Result ServiceVersion) → Answer (has_version service.id input.version) r
        → Ends faulty d
            (register_named digest input service r)
            (Registers d)
            (λ _ e. e.versions ≡ d.versions)
    unfolding register_named
    register_named-Registers unkeyed r (inl (v, p, found)) = rw p (
        Ends-if (v.registration_request_hash == hash) _ _
          (λ h. answer_registered-Registers v (eq_of_== _ _ h) (inr (unkeyed, found)))
          (λ _. Ends-raise _ refl))
    register_named-Registers unkeyed r (inr (inl (p, free))) = rw p register_new-Registers
    register_named-Registers unkeyed r (inr (inr p)) = rw p (Ends-raise _ refl)

    register_by_name-Registers :
        ((input.idempotency_key == "") ≡ true)
          ⊎ (find_row (has_key service.id input.idempotency_key) d.versions ≡ none)
        → Ends faulty d
            (register_by_name digest input service)
            (Registers d)
            (λ _ e. e.versions ≡ d.versions)
    unfolding register_by_name find_version_by_name
    register_by_name-Registers unkeyed =
        Ends-bind _ _
          (Ends-attempt {Q = λ r e. (e ≡ d) × Answer (has_version service.id input.version) r} _ (
            Ends-query_row _ (λ v p. (refl, inl (v, refl, p))) (λ p. (refl, inr (inl (refl, p))))
              (λ _. (refl, inr (inr refl)))))
          λ r e q. rw q.0 (register_named-Registers unkeyed r q.1)

    register_keyed-Registers :
        (input.idempotency_key == "") ≡ false
        → (r : Result ServiceVersion) → Answer (has_key service.id input.idempotency_key) r
        → Ends faulty d
            (register_keyed digest input service r)
            (Registers d)
            (λ _ e. e.versions ≡ d.versions)
    unfolding register_keyed
    register_keyed-Registers keyed r (inl (v, p, found)) = rw p (
        then_fail_if _ _ _ (λ _. refl)
          λ h.
            answer_registered-Registers v (eq_of_== _ _ (ground (arith, h))) (inl (keyed, found)))
    register_keyed-Registers keyed r (inr (inl (p, free))) =
        rw p (register_by_name-Registers (inr free))
    register_keyed-Registers keyed r (inr (inr p)) = rw p (Ends-raise _ refl)

  located_service :
      (d : Db) (r : Result Service)
      → ((service : Service) × (r ≡ ok service)
          × (find_row (is_service_of input.project_key input.service_key d) d.services
              ≡ some service))
        ⊎ ((r ≡ err not_found) ⊎ (r ≡ err driver))
      → Ends faulty d
          (found_service r)
          (λ service e.
            (e ≡ d)
            × (find_row (is_service_of input.project_key input.service_key d) d.services
                ≡ some service))
          (λ _ e. e ≡ d)
  unfolding found_service
  located_service d r (inl (service, p, found)) = rw p (Ends-pure service (refl, found))
  located_service d r (inr (inl p)) = rw p (Ends-raise _ refl)
  located_service d r (inr (inr p)) = rw p (Ends-raise _ refl)

  pub register_version-Registers :
      (d : Db)
      → Ends faulty d (register_version digest input) (Registers d) (λ _ e. e.versions ≡ d.versions)
  unfolding register_version get_service_by_slugs find_version_by_idempotency
  register_version-Registers d =
      Ends-bind _ _
        (Ends-attempt
          {Q = λ r e.
            (e ≡ d)
            × (((service : Service) × (r ≡ ok service)
                  × (find_row (is_service_of input.project_key input.service_key d) d.services
                      ≡ some service))
                ⊎ ((r ≡ err not_found) ⊎ (r ≡ err driver)))}
          _
          (Ends-query_row _ (λ v p. (refl, inl (v, refl, p))) (λ p. (refl, inr (inl refl)))
            (λ _. (refl, inr (inr refl)))))
        λ r e q. rw q.0 (
          Ends-bind _ _ (Ends-weaken (located_service d r q.1) (λ _ _ x. x) (λ _ _ x. rw x refl))
            λ service e' located. rw located.0 (
              then_fail_if _ _ _ (λ _. refl)
                λ enabled.
                  Ends-if (input.idempotency_key == "") _ _
                    (λ blank.
                      register_by_name-Registers d service located.1 (ground (arith, enabled))
                        (inl blank))
                    (λ keyed.
                      Ends-bind _ _
                        (Ends-attempt
                          {Q = λ r e.
                            (e ≡ d)
                            × Answer d service located.1 (ground (arith, enabled))
                                (has_key service.id input.idempotency_key) r}
                          _
                          (Ends-if (input.idempotency_key == "") _ _
                            (λ blank. absurd (ground (arith, blank, keyed)))
                            (λ _.
                              Ends-query_row _ (λ v p. (refl, inl (v, refl, p)))
                                (λ p. (refl, inr (inl (refl, p)))) (λ _. (refl, inr (inr refl))))))
                        λ r e q. rw q.0 (
                          register_keyed-Registers d service located.1 (ground (arith, enabled))
                            keyed r q.1))))

-- A registration that returns answers with a version of the request's hash, which is either a
-- stored one, with the versions as they were, or the one row that was added to them.
pub register_version-stores :
    (digest : String → String) (input : VersionRegistrationInput) (d : Db)
    → Ends faulty d
        (register_version digest input)
        (λ r e.
          (r.version.registration_request_hash ≡ request_hash digest input)
          × (((r.created ≡ false) × (e.versions ≡ d.versions) × Memᴰ r.version d.versions)
              ⊎ ((r.created ≡ true) × (e.versions ≡ d.versions ++ (r.version ∷ [])))))
        (λ _ e. e.versions ≡ d.versions)
register_version-stores digest input d =
    Ends-weaken (register_version-Registers digest input d)
      (λ r e q. (
        q.matches,
        elim q.stores [
          | inl s ↦ inl (
            s.0,
            s.1,
            rw s.1 at (Finds-mem digest input q.service.id e.versions r.version q.found),
          )
          | inr s ↦ inr s
        ],
      ))
      (λ _ _ x. x)
