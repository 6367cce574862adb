-- ===== src/Http/Access/Granted.antt =====
-- internal/httpapi/auth.go: apiKeyFromBearer, and the stored keys.
use Prim.Native.String.{len}
use ai_pub.Base.{
  ◌≡◌, refl, true, false, String, none, some, List, [], ◌∷◌, Memᴰ, ◌==◌, arith, ltb, find_row,
  mem-find_row, eq_of_==, map, map-update_rows,
}
use ai_pub.Strings.{fields, trim_space}
use ai_pub.Domain.{ApiKey}
use ai_pub.Database.{Db, KeyRow}
use ai_pub.Action.{Result, ok, err, attempt}
use ai_pub.Action.Ends.{
  faulty, Ends, Ends-bind, Ends-pure, Ends-raise, Ends-if, Ends-attempt, Ends-weaken,
  then_query_row, then_fail_if, then_now, Ends-exec,
}
use ai_pub.Repository.Keys.{get_api_key_by_secret, set_key, touch_api_key_last_used, has_secret}
use ai_pub.Http.{HttpRequest, Api}
use ai_pub.Http.Access.{
  lacks_scope, found_key, key_of_secret, bearer_parts, api_key_from_bearer, key_in_context,
  key_of_header,
}

-- A key without the times of its last use and its last change.
abbrev pub timeless : KeyRow → KeyRow
timeless x = record x { key = record (x.key) { last_used_at = none; updated_at = 0 } }

-- The tables differ at most in these times of the keys.
abbrev pub SameButTimes : Db → Db → Type 0
SameButTimes d e =
    (e ≡ record d { api_keys = e.api_keys }) × (map timeless e.api_keys ≡ map timeless d.api_keys)

-- A stored, enabled key with that scope, and the secret that its hash was made of.
pub record Granted (api : Api) (d : Db) (scope : String) (key : ApiKey) : Type 0 where
  pub row : KeyRow
  pub stored : Memᴰ row d.api_keys
  pub is_key : row.key ≡ key
  pub secret : String
  pub hashed : row.key_hash ≡ api.hash_secret secret
  pub enabled : key.enabled ≡ true
  pub scoped : lacks_scope api key scope ≡ false

module _ (api : Api) (d : Db) (scope : String) where
  -- What the look-up of a secret answers.
  abbrev Read : String → Result ApiKey → Type 0
  Read secret (ok key) =
      (row : KeyRow) × Memᴰ row d.api_keys
      × (row.key ≡ key)
      × (row.key_hash ≡ api.hash_secret secret)
  Read secret (err e) = Unit

  row_of :
      (secret : String) (row : KeyRow)
      → find_row (has_secret api.hash_secret secret) d.api_keys ≡ some row
      → Read secret (ok row.key)
  unfolding has_secret
  row_of secret row p =
      let (m, t) = mem-find_row (has_secret api.hash_secret secret) d.api_keys p in
      (row, m, refl, eq_of_== _ _ (ground (arith, t)))

  get_key-Read :
      (secret : String)
      → Ends faulty d
          (attempt (get_api_key_by_secret api.hash_secret secret))
          (λ r e. (e ≡ d) × Read secret r)
          (λ _ _. ⊥)
  unfolding get_api_key_by_secret has_secret
  get_key-Read secret = Ends-attempt _ (
      Ends-if (ltb (len secret) 12) _ _ (λ _. Ends-raise _ (refl, tt))
        (λ _.
          then_query_row (λ e. find_row (has_secret api.hash_secret secret) e.api_keys) _
            (λ _. (refl, tt)) (λ _. (refl, tt))
            λ row p. Ends-pure row.key (refl, row_of secret row p)))

  answered_key :
      (secret : String) (r : Result ApiKey)
      → Read secret r
      → Ends faulty d
          (found_key r)
          (λ key e. (e ≡ d) × Read secret (ok key))
          (λ _ e. SameButTimes d e)
  unfolding found_key
  answered_key secret (ok key) q = Ends-pure key (refl, q)
  answered_key secret (err e) q = Ends-raise _ (refl, refl)

  touch-SameButTimes :
      (id : String)
      → Ends faulty d
          (touch_api_key_last_used id)
          (λ _ e. SameButTimes d e)
          (λ _ e. SameButTimes d e)
  unfolding touch_api_key_last_used set_key
  touch-SameButTimes id = then_now _ λ now.
      Ends-exec _ _ (refl, map-update_rows timeless _ _ d.api_keys (λ x t. refl))
        (λ _. (refl, refl))

  key_of_secret-Granted :
      (secret : String)
      → Ends faulty d
          (key_of_secret api scope secret)
          (λ o e. SameButTimes d e × ((key : ApiKey) × (o ≡ some key) × Granted api d scope key))
          (λ _ e. SameButTimes d e)
  unfolding key_of_secret
  key_of_secret-Granted secret =
      Ends-bind _ _ (Ends-weaken (get_key-Read secret) (λ _ _ q. q) (λ _ _ x. absurd x)) λ r e q.
        rw q.0 (
          Ends-bind _ _ (answered_key secret r q.1) λ key e p. rw p.0 (
            then_fail_if _ _ _ (λ _. (refl, refl))
              λ enabled. then_now _ λ now.
                then_fail_if _ _ _ (λ _. (refl, refl))
                  λ _.
                    then_fail_if _ _ _ (λ _. (refl, refl))
                      λ scoped. Ends-bind _ _ (touch-SameButTimes key.id) λ _ e' same. Ends-pure _ (
                        same,
                        (
                          key,
                          refl,
                          record {
                            row = p.1.0;
                            stored = p.1.1;
                            is_key = p.1.2;
                            secret = secret;
                            hashed = p.1.3;
                            enabled = ground (arith, enabled);
                            scoped = scoped;
                          },
                        ),
                      )))

  bearer_parts-Granted :
      (parts : List String)
      → Ends faulty d
          (bearer_parts api scope parts)
          (λ o e. SameButTimes d e × ((key : ApiKey) × (o ≡ some key) × Granted api d scope key))
          (λ _ e. SameButTimes d e)
  unfolding bearer_parts
  bearer_parts-Granted [] = Ends-raise _ (refl, refl)
  bearer_parts-Granted (a ∷ []) = Ends-raise _ (refl, refl)
  bearer_parts-Granted (a ∷ (b ∷ [])) =
      Ends-if (api.equal_fold a "Bearer") _ _ (λ _. key_of_secret-Granted b)
        (λ _. Ends-raise _ (refl, refl))
  bearer_parts-Granted (a ∷ (b ∷ (c ∷ rest))) = Ends-raise _ (refl, refl)

-- A request that no earlier step has authenticated and that has an Authorization header gets a key
-- only if the key is stored and enabled, its hash is that of some secret, and it has the scope that
-- is asked for; nothing but the times of a key's last use and change changes.
pub api_key_from_bearer-Granted :
    (api : Api) (r : HttpRequest) (scope : String) (d : Db)
    → r.api_key ≡ none
    → (trim_space r.authorization == "") ≡ false
    → Ends faulty d
        (api_key_from_bearer api r scope)
        (λ o e. SameButTimes d e × ((key : ApiKey) × (o ≡ some key) × Granted api d scope key))
        (λ _ e. SameButTimes d e)
unfolding api_key_from_bearer key_in_context key_of_header
api_key_from_bearer-Granted api r scope d fresh given = rw fresh (
    Ends-if (trim_space r.authorization == "") _ _ (λ t. absurd (ground (arith, t, given)))
      (λ _. bearer_parts-Granted api d scope (fields (trim_space r.authorization))))
