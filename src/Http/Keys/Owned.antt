-- ===== src/Http/Keys/Owned.antt =====
-- internal/httpapi/inventory.go: createAPIKey for a user who is no administrator.
use ai_pub.Base.{
  ◌≡◌, refl, sym, ap, ◌∙◌, false, String, Option, none, some, List, [], ◌∷◌, ◌++◌, ◌==◌, ◌⊎◌, inl,
  inr, arith, Bool-cases, eq_of_==, subst,
}
use ai_pub.Domain.{User, ApiKey}
use ai_pub.Database.{Db, KeyRow}
use ai_pub.Action.{Result, ok, err}
use ai_pub.Action.Ends.{
  faulty, Ends, Ends-bind, Ends-pure, Ends-raise, Ends-weaken, then_fail_if, then_now, then_insert,
}
use ai_pub.Repository.Release.{or_default}
use ai_pub.Repository.Reads.{then_or_new_id}
use ai_pub.Repository.Keys.{create_api_key}
use ai_pub.Http.{HttpRequest, Api, fail, decoded}
use ai_pub.Http.Access.{contains_scope, scope_in, api_key_has_scope}
use ai_pub.Http.Keys.{
  is_admin, with_manager, check_scopes, check_decoded, validate_api_key_scopes,
  handle_create_api_key,
}
use ai_pub.Http.Keys.Reduced.{Holds, Ends-respond}

-- The keys are as they were, or have one more, which is the user's and may not administrate.
abbrev pub OnlyOwned : Api → User → Db → Db → Type 0
OnlyOwned api user d e =
    (e.api_keys ≡ d.api_keys)
    ⊎ ((row : KeyRow) × (e.api_keys ≡ d.api_keys ++ (row ∷ []))
        × (row.key.owner_user_id ≡ user.id)
        × (api_key_has_scope api row.key "admin:write" ≡ false))

check_scopes-grants :
    (seen scopes : List String) (d : Db)
    → Ends faulty d
        (check_scopes seen false scopes)
        (λ _ e. (e ≡ d) × (contains_scope scopes "admin:write" ≡ false))
        (λ _ e. e ≡ d)
unfolding check_scopes contains_scope
check_scopes-grants seen [] d = Ends-pure _ (refl, refl)
check_scopes-grants seen (scope ∷ rest) d =
    then_fail_if _ _ _ (λ _. refl)
      λ _.
        then_fail_if _ _ _ (λ _. refl)
          λ _.
            then_fail_if _ _ _ (λ _. refl)
              λ allowed.
                Ends-weaken (check_scopes-grants (scope ∷ seen) rest d)
                  (λ _ _ q. (q.0, ground (arith, allowed, q.1))) (λ _ _ q. q)

check_decoded-grants :
    (o : Option (Option (List String))) (d : Db)
    → Ends faulty d
        (check_decoded false o)
        (λ _ e. (e ≡ d) × (scope_in o "admin:write" ≡ false) × (¬ (o ≡ none)))
        (λ _ e. e ≡ d)
unfolding check_decoded scope_in
check_decoded-grants none d = Ends-raise _ refl
check_decoded-grants (some none) d = Ends-raise _ refl
check_decoded-grants (some (some scopes)) d =
    Ends-weaken (check_scopes-grants [] scopes d) (λ _ _ q. (q.0, q.1, λ p. absurd (cc p)))
      (λ _ _ q. q)

module _ (api : Api) (user : User) (d : Db) (blank : api.decode_scopes "" ≡ none)
    (random : (e : Db) → Ends faulty e api.random_secret (λ _ x. x ≡ e) (λ _ x. x ≡ e)) where
  default-same : (raw : String) → ¬ (api.decode_scopes raw ≡ none) → or_default raw "[]" ≡ raw
  default-same raw given = elim (Bool-cases (raw == "")) [
    | inl t ↦ absurd (given (ap api.decode_scopes (eq_of_== raw "" t) ∙ blank))
    | inr f ↦ rw f refl
  ]

  create_api_key-owns :
      (item : ApiKey)
      → item.owner_user_id ≡ user.id
      → scope_in (api.decode_scopes item.scopes) "admin:write" ≡ false
      → ¬ (api.decode_scopes item.scopes ≡ none)
      → Holds (OnlyOwned api user d) d (create_api_key api.hash_secret api.random_secret item)
  unfolding create_api_key api_key_has_scope
  create_api_key-owns item owner denied given =
      Ends-bind _ _
        (Ends-weaken (random d) (λ _ _ q. q) (λ _ _ q. inl (ap (λ (x : Db). x.api_keys) q)))
        λ s e p. rw p (
          then_now _ λ now. then_or_new_id item.id "key" _ λ id.
            then_insert _ _ _ (λ _. inl refl) (λ _. inl refl)
              λ _. Ends-pure _ (
                inr (
                  _,
                  refl,
                  owner,
                  subst (λ raw. scope_in (api.decode_scopes raw) "admin:write" ≡ false)
                      (sym (default-same item.scopes given)) denied,
                )))

-- When a user who is no administrator creates an API key, the keys stay as they were, or have one
-- more, which belongs to the user and has not the scope admin:write. An empty text is no JSON, and
-- the random part of a secret changes no table.
pub handle_create_api_key-OnlyOwned :
    (api : Api) (r : HttpRequest) (user : User) (body : Result ApiKey) (d : Db)
    → r.session_user ≡ some user
    → is_admin user ≡ false
    → api.decode_scopes "" ≡ none
    → ((e : Db) → Ends faulty e api.random_secret (λ _ x. x ≡ e) (λ _ x. x ≡ e))
    → Ends faulty d
        (handle_create_api_key api r body)
        (λ _ e. OnlyOwned api user d e)
        (λ _ e. OnlyOwned api user d e)
unfolding handle_create_api_key with_manager validate_api_key_scopes fail decoded
handle_create_api_key-OnlyOwned api r user (err e) d signed plain blank random =
    rw signed (Ends-pure _ (inl refl))
handle_create_api_key-OnlyOwned api r user (ok item) d signed plain blank random =
    rw (signed, plain)
      (Ends-respond (OnlyOwned api user d) _ _ _
        (check_decoded-grants (api.decode_scopes item.scopes) d)
        (λ _ x q. rw q (Ends-pure _ (inl refl)))
        λ _ x q. rw q.0 (
          Ends-respond (OnlyOwned api user d) _ _ _
            (create_api_key-owns api user d blank random (record item { owner_user_id = user.id })
              refl q.1 q.2)
            (λ _ x p. Ends-pure _ p) (λ _ x p. Ends-pure _ p)))
