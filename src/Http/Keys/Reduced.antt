-- ===== src/Http/Keys/Reduced.antt =====
-- internal/httpapi/inventory.go: patchAPIKey for a user who is no administrator.
use ai_pub.Base.{
  ◌≡◌, refl, sym, ap, ◌∙◌, Bool, true, false, not, ◌&&◌, String, Option, none, some, List, [], ◌∷◌,
  Memᴰ, ◌==◌, ◌⊎◌, inl, inr, arith, Bool-cases, eq_of_==, subst, mem-find_row, mem-update_rows,
  Keyed, map, map-update_rows,
}
use ai_pub.Domain.{User, ApiKey}
use ai_pub.Database.{Db, KeyRow}
use ai_pub.Action.{M, Err, Result, ok, err, message, forbidden, pure}
use ai_pub.Action.Ends.{
  faulty, Ends, Ends-bind, Ends-pure, Ends-if, Ends-attempt, Ends-weaken, Ends-exec, then_query_row,
  then_fail_if, then_now, Ends-raise,
}
use ai_pub.Repository.Inventory.{choose}
use ai_pub.Repository.Keys.{get_api_key, set_key, update_api_key}
use ai_pub.Http.{HttpRequest, Response, written, failure, Api, fail, respond, answered, decoded}
use ai_pub.Http.Access.{contains_scope, scope_in, api_key_has_scope}
use ai_pub.Http.Users.{patched}
use ai_pub.Http.Keys.{
  is_admin, with_manager, can_manage_api_key, KeyPatch, patched_key, check_patch, check_scopes,
  check_decoded, validate_api_key_scopes, all_allowed, or_no_scopes, is_subset, scopes_are_subset,
  handle_patch_api_key,
}

abbrev pub Holds : (Db → Type 0) → {A : Type 0} → Db → M A → Type 0
Holds P d m = Ends faulty d m (λ _ e. P e) (λ _ e. P e)

module _ (P : Db → Type 0) {A : Type 0} where
  -- A call whose error is answered.
  pub Ends-respond :
      {B : Type 0} {d : Db} {Q : B → Db → Type 0} {F : Err → Db → Type 0} (m : M B)
      (failed : Err → M (Response A)) (k : B → M (Response A))
      → Ends faulty d m Q F
      → ((e : Err) (x : Db) → F e x → Holds P x (failed e))
      → ((b : B) (x : Db) → Q b x → Holds P x (k b))
      → Holds P d (respond m failed k)
  unfolding respond
  Ends-respond {B} {d} {Q} {F} m failed k h on_error on_value =
      Ends-bind _ _ (Ends-attempt {Q = answer} _ h) go
    where
      answer : Result B → Db → Type 0
      answer (ok b) x = Q b x
      answer (err e) x = F e x

      go : (r : Result B) (x : Db) → answer r x → Holds P x (answered failed k r)
      go (ok b) x q = on_value b x q
      go (err e) x q = on_error e x q

all_allowed-covers :
    (next current : List String) (s : String)
    → all_allowed next current ≡ true
    → contains_scope next s ≡ true
    → contains_scope current s ≡ true
unfolding all_allowed contains_scope
all_allowed-covers [] current s h m = absurd (cc m)
all_allowed-covers (n ∷ rest) current s h m = elim (Bool-cases (n == s)) [
  | inl t ↦
      let here : contains_scope current n ≡ true = ground (arith, h) in
      subst (λ x. contains_scope current x ≡ true) (eq_of_== n s t) here
  | inr f ↦ all_allowed-covers rest current s (ground (arith, h)) (ground (arith, m, f))
]

is_subset-covers :
    (next current : Option (Option (List String))) (s : String)
    → is_subset next current ≡ true
    → scope_in next s ≡ true
    → scope_in current s ≡ true
unfolding is_subset scope_in or_no_scopes
is_subset-covers none current s h m = absurd (cc h)
is_subset-covers (some next) none s h m = absurd (cc h)
is_subset-covers (some none) (some current) s h m = absurd (cc m)
is_subset-covers (some (some next)) (some none) s h m =
    absurd (cc (sym (all_allowed-covers next [] s h m)))
is_subset-covers (some (some next)) (some (some current)) s h m =
    all_allowed-covers next current s h m

choose-same : (given kept : String) → given ≡ kept → choose given kept ≡ kept
unfolding choose
choose-same given kept p =
    rw p (elim (Bool-cases (kept == "")) [ inl t ↦ rw t refl | inr f ↦ rw f refl ])

-- What a key is known by: its id, the hash of its secret and its owner.
abbrev pub identity : KeyRow → String × String × String
identity x = (x.key.id, x.key_hash, x.key.owner_user_id)

-- The keys are those that there were, none with a scope that it did not have.
abbrev pub OnlyReduced : Api → Db → Db → Type 0
OnlyReduced api d e =
    (map identity e.api_keys ≡ map identity d.api_keys)
    × ((x : KeyRow)
        → Memᴰ x e.api_keys
        → (y : KeyRow) × Memᴰ y d.api_keys
          × (identity x ≡ identity y)
          × ((s : String)
              → api_key_has_scope api x.key s ≡ true
              → api_key_has_scope api y.key s ≡ true))

module _ (api : Api) (d : Db) where
  same-OnlyReduced : OnlyReduced api d d
  same-OnlyReduced = (refl, λ x m. (x, m, refl, λ s h. h))

  choose-covers :
      (given kept s : String)
      → scopes_are_subset api given kept ≡ true
      → scope_in (api.decode_scopes (choose given kept)) s ≡ true
      → scope_in (api.decode_scopes kept) s ≡ true
  unfolding choose scopes_are_subset
  choose-covers given kept s h = elim (Bool-cases (given == "")) [
    | inl t ↦ rw t (λ m. m)
    | inr f ↦ rw f (is_subset-covers (api.decode_scopes given) (api.decode_scopes kept) s h)
  ]

  get_api_key-finds :
      (id : String)
      → Ends faulty d
          (get_api_key id)
          (λ k e. (e ≡ d) × ((y : KeyRow) × Memᴰ y d.api_keys × (y.key ≡ k) × (k.id ≡ id)))
          (λ _ e. e ≡ d)
  unfolding get_api_key
  get_api_key-finds id =
      then_query_row _ _ (λ _. refl) (λ _. refl)
        λ row p.
          let (m, t) = mem-find_row _ d.api_keys p in
          Ends-pure _ (refl, (row, m, refl, eq_of_== row.key.id id t))

  module _ (row : KeyRow) (m : Memᴰ row d.api_keys) (keyed : Keyed (λ x. x.key.id) d.api_keys)
      (id scopes : String) (same : row.key.id ≡ id)
      (covers : (s : String)
        → scope_in (api.decode_scopes scopes) s ≡ true
        → scope_in (api.decode_scopes row.key.scopes) s ≡ true) where
    set_key-OnlyReduced :
        (f : ApiKey → ApiKey)
        → ((k : ApiKey) → ((f k).id ≡ k.id) × ((f k).owner_user_id ≡ k.owner_user_id))
        → ((k : ApiKey) → (f k).scopes ≡ scopes)
        → OnlyReduced api d (set_key id f d)
    unfolding set_key api_key_has_scope
    set_key-OnlyReduced f kept set =
        (map-update_rows identity _ _ d.api_keys (λ x t. known x), reduced)
      where
        known : (x : KeyRow) → identity (record x { key = f x.key }) ≡ identity x
        known x = rw ((kept x.key).0, (kept x.key).1) refl

        reduced :
            (x : KeyRow)
            → Memᴰ x (set_key id f d).api_keys
            → (y : KeyRow) × Memᴰ y d.api_keys
              × (identity x ≡ identity y)
              × ((s : String)
                  → api_key_has_scope api x.key s ≡ true
                  → api_key_has_scope api y.key s ≡ true)
        reduced x n =
            let (y, n', e) = mem-update_rows _ _ d.api_keys n in
            elim (Bool-cases (y.key.id == id)) [
              | inl t ↦
                  let one : y ≡ row = keyed y row n' m (eq_of_== _ _ t ∙ sym same) in
                  let now : record y { key = f y.key } ≡ x = rw t at e in
                  (
                    row,
                    m,
                    sym (ap identity now) ∙ known y ∙ ap identity one,
                    λ s h. covers s (
                        subst (λ z. scope_in (api.decode_scopes z) s ≡ true)
                          (sym (ap (λ z. z.key.scopes) now) ∙ set y.key) h),
                  )
              | inr t ↦ let here : y ≡ x = rw t at e in rw (sym here) (y, n', refl, λ s h. h)
            ]

  update_api_key-reduces :
      (row : KeyRow) (item : ApiKey)
      → Keyed (λ x. x.key.id) d.api_keys
      → Memᴰ row d.api_keys
      → (item.scopes ≡ row.key.scopes) ⊎ (scopes_are_subset api item.scopes row.key.scopes ≡ true)
      → Holds (OnlyReduced api d) d (update_api_key row.key.id item)
  unfolding update_api_key
  update_api_key-reduces row item keyed m scopes =
      Ends-bind _ _
        (Ends-weaken (get_api_key-finds row.key.id) (λ _ _ q. q) (λ _ _ q. rw q same-OnlyReduced))
        λ k e (p, (y, n, is, same)).
          let one : y.key ≡ row.key =
            ap (λ (z : KeyRow). z.key) (keyed y row n m (ap (λ (z : ApiKey). z.id) is ∙ same)) in
          rw p (
            then_now _ λ now.
              Ends-bind _ _
                (Ends-exec _ _
                  (set_key-OnlyReduced row m keyed row.key.id (choose item.scopes k.scopes) refl
                    (rw (sym is ∙ one) (covers_choice scopes)) _ (λ _. (refl, refl)) (λ _. refl))
                  (λ _. same-OnlyReduced))
                λ _ _ q. Ends-pure _ q)
    where
      covers_choice :
          (item.scopes ≡ row.key.scopes) ⊎ (scopes_are_subset api item.scopes row.key.scopes ≡ true)
          → (s : String) → scope_in (api.decode_scopes (choose item.scopes row.key.scopes)) s ≡ true
          → scope_in (api.decode_scopes row.key.scopes) s ≡ true
      covers_choice (inl p) s h =
          subst (λ z. scope_in (api.decode_scopes z) s ≡ true)
            (choose-same item.scopes row.key.scopes p) h
      covers_choice (inr p) s h = choose-covers item.scopes row.key.scopes s p h

  check_scopes-reads :
      (seen : List String) (admin : Bool) (scopes : List String)
      → Ends faulty d (check_scopes seen admin scopes) (λ _ e. e ≡ d) (λ _ e. e ≡ d)
  unfolding check_scopes
  check_scopes-reads seen admin [] = Ends-pure _ refl
  check_scopes-reads seen admin (scope ∷ rest) =
      then_fail_if _ _ _ (λ _. refl)
        λ _.
          then_fail_if _ _ _ (λ _. refl)
            λ _. then_fail_if _ _ _ (λ _. refl) λ _. check_scopes-reads (scope ∷ seen) admin rest

  check_decoded-reads :
      (admin : Bool) (o : Option (Option (List String)))
      → Ends faulty d (check_decoded admin o) (λ _ e. e ≡ d) (λ _ e. e ≡ d)
  unfolding check_decoded
  check_decoded-reads admin none = Ends-raise _ refl
  check_decoded-reads admin (some none) = Ends-raise _ refl
  check_decoded-reads admin (some (some scopes)) = check_scopes-reads [] admin scopes

  module _ (user : User) (plain : is_admin user ≡ false) (keyed : Keyed (λ x. x.key.id) d.api_keys)
      (row : KeyRow) (m : Memᴰ row d.api_keys) where
    update_patched :
        (patch : KeyPatch)
        → (patched row.key.scopes patch.scopes ≡ row.key.scopes)
          ⊎ (scopes_are_subset api (patched row.key.scopes patch.scopes) row.key.scopes ≡ true)
        → Holds (OnlyReduced api d) d (
            respond
              (update_api_key row.key.id (patched_key row.key patch))
              (fail 400 "invalid_argument")
              λ item. pure (written 200 item))
    unfolding fail patched_key
    update_patched patch scopes =
        Ends-respond _ _ _ _ (update_api_key-reduces row (patched_key row.key patch) keyed m scopes)
          (λ e x q. Ends-pure _ q) (λ _ x q. Ends-pure _ q)

    check_patch-reduces :
        (given : Option String) (next : M (Response ApiKey))
        → ((patched row.key.scopes given ≡ row.key.scopes)
              ⊎ (scopes_are_subset api (patched row.key.scopes given) row.key.scopes ≡ true)
            → Holds (OnlyReduced api d) d next)
        → Holds (OnlyReduced api d) d (check_patch api user row.key given next)
    unfolding check_patch validate_api_key_scopes fail patched
    check_patch-reduces none next h = h (inl refl)
    check_patch-reduces (some scopes) next h =
        Ends-respond _ _ _ _ (check_decoded-reads (is_admin user) (api.decode_scopes scopes))
          (λ _ x q. rw q (Ends-pure _ same-OnlyReduced))
          (λ _ x q. rw q (
            Ends-if (not (is_admin user) && not (scopes_are_subset api scopes row.key.scopes)) _ _
              (λ _.
                Ends-pure
                  (failure 403 "forbidden" (message "non-admin api key scopes may only be reduced"))
                  same-OnlyReduced)
              (λ allowed. h (inr (ground (arith, allowed, plain))))))

-- When a user who is no administrator changes an API key, every key stays, with its id, the hash of its
-- secret and its owner, no key is added, and none has a scope that it did not have before. An id is
-- the key of one row.
pub handle_patch_api_key-OnlyReduced :
    (api : Api) (r : HttpRequest) (user : User) (body : Result KeyPatch) (d : Db)
    → r.session_user ≡ some user
    → is_admin user ≡ false
    → Keyed (λ x. x.key.id) d.api_keys
    → Ends faulty d
        (handle_patch_api_key api r body)
        (λ _ e. OnlyReduced api d e)
        (λ _ e. OnlyReduced api d e)
unfolding handle_patch_api_key with_manager fail decoded
handle_patch_api_key-OnlyReduced api r user body d signed plain keyed = rw signed (
    Ends-respond (OnlyReduced api d) _ _ _ (get_api_key-finds api d r.id)
      (λ _ x q. rw q (Ends-pure _ (same-OnlyReduced api d)))
      λ k x (p, (row, m, is, _)).
        rw (p, sym is)
          (Ends-if (not (can_manage_api_key user row.key)) _ _
            (λ _. Ends-pure (failure 403 "forbidden" forbidden) (same-OnlyReduced api d))
            (λ _. change row m body)))
  where
    change :
        (row : KeyRow)
        → Memᴰ row d.api_keys
        → (body : Result KeyPatch)
        → Holds (OnlyReduced api d) d (
            decoded body λ patch. check_patch api user row.key patch.scopes (
              respond
                (update_api_key row.key.id (patched_key row.key patch))
                (fail 400 "invalid_argument")
                λ item. pure (written 200 item)))
    change row m (err e) = Ends-pure _ (same-OnlyReduced api d)
    change row m (ok patch) =
        check_patch-reduces api d user plain keyed row m patch.scopes _
          (update_patched api d user plain keyed row m patch)
