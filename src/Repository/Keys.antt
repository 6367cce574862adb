-- ===== src/Repository/Keys.antt =====
-- internal/repository/repository.go: API keys. A secret is shown once; the table has its prefix and
-- its hash.
use Prim.Native.String.{len, slice}
use ai_pub.Base.{
  ℕ, Bool, true, not, ◌&&◌, String, some, List, [], ◌∷◌, ◌++◌, ◌==◌, ltb, nat_eq, find_row,
  rows_where, exists_row, count_rows, update_rows, delete_rows, sort_rows, if◌then◌else◌, concat,
}
use ai_pub.Domain.{ApiKey}
use ai_pub.Database.{Db, KeyRow}
use ai_pub.Action.{
  M, not_found, pure, raise, fail_if, query, query_row, insert, exec, now_utc, ◌>>=◌, ◌>>◌,
}
use ai_pub.Repository.Release.{or_default, or_new_id}
use ai_pub.Repository.Inventory.{choose, newest}
use ai_pub.Repository.Users.{owned_by}

-- `plaintext[:12]`, in bytes; a character that this cuts is left out.
abbrev pub prefix_of : String → String
prefix_of plaintext = slice plaintext 0 12

-- APIKeyWithPlaintext
pub record KeyWithPlaintext : Type 0 where
  pub key : ApiKey
  pub plaintext : String

-- The constraints of `api_keys`: the primary key, and the unique hash.
unfoldable pub key_allowed : KeyRow → Db → Bool
key_allowed item d =
    not (exists_row (λ x. x.key.id == item.key.id) d.api_keys)
    && not (exists_row (λ x. x.key_hash == item.key_hash) d.api_keys)

-- hashSecret is SHA-256, in hex; the random part of a secret comes from crypto/rand.
module _ (hash_secret : String → String) (random_secret : M String) where
  -- CreateAPIKey
  unfoldable pub create_api_key : ApiKey → M KeyWithPlaintext
  unfolding key_allowed
  create_api_key item = do
    random ← random_secret
    let plaintext = concat ("ak_" ∷ random ∷ [])
    now ← now_utc
    id ← or_new_id item.id "key"
    let stored = record item {
      id = id;
      scopes = or_default item.scopes "[]";
      prefix = prefix_of plaintext;
      enabled = true;
      created_at = now;
      updated_at = now;
    }
    let row : KeyRow = record {
      key = stored;
      key_hash = hash_secret plaintext;
      owner_type = "user";
    }
    insert (key_allowed row) (λ d. record d { api_keys = d.api_keys ++ (row ∷ []) })
    pure (record { key = stored; plaintext = plaintext })

module _ (hash_secret : String → String) where
  -- WHERE prefix = ? AND key_hash = ?; a prefix that ends within a character is no stored text.
  unfoldable pub has_secret : String → KeyRow → Bool
  has_secret plaintext x =
      nat_eq (len (prefix_of plaintext)) 12
      && (x.key.prefix == prefix_of plaintext && x.key_hash == hash_secret plaintext)

  -- GetAPIKeyBySecret
  unfoldable pub get_api_key_by_secret : String → M ApiKey
  unfolding has_secret
  get_api_key_by_secret plaintext =
      if ltb (len plaintext) 12
      then raise not_found
      else do row ← query_row (λ d. find_row (has_secret plaintext) d.api_keys); pure row.key

newer_key : KeyRow → KeyRow → Bool
unfolding newest
newer_key x y = newest x.key.created_at x.key.id y.key.created_at y.key.id

scan_keys : List KeyRow → List ApiKey
scan_keys [] = []
scan_keys (x ∷ xs) = x.key ∷ scan_keys xs

-- ListAPIKeys
unfoldable pub list_api_keys : M (List ApiKey)
unfolding newer_key scan_keys
list_api_keys = query (λ d. scan_keys (sort_rows newer_key d.api_keys))

-- ListAPIKeysByUser
unfoldable pub list_api_keys_by_user : String → M (List ApiKey)
unfolding newer_key scan_keys
list_api_keys_by_user user_id =
    query (λ d. scan_keys (sort_rows newer_key (rows_where (owned_by user_id) d.api_keys)))

-- GetAPIKey
unfoldable pub get_api_key : String → M ApiKey
get_api_key id = do row ← query_row (λ d. find_row (λ x. x.key.id == id) d.api_keys); pure row.key

unfoldable pub set_key : String → (ApiKey → ApiKey) → Db → Db
set_key id f d = record d {
  api_keys = update_rows (λ x. x.key.id == id) (λ x. record x { key = f x.key }) d.api_keys;
}

-- TouchAPIKeyLastUsed
unfoldable pub touch_api_key_last_used : String → M ℕ
unfolding set_key
touch_api_key_last_used id = do
  now ← now_utc
  exec (λ d. count_rows (λ x. x.key.id == id) d.api_keys)
      (set_key id (λ k. record k { last_used_at = some now; updated_at = now }))

-- UpdateAPIKey
unfoldable pub update_api_key : String → ApiKey → M ApiKey
unfolding set_key
update_api_key id item = do
  existing ← get_api_key id
  now ← now_utc
  let stored = record existing {
    name = choose item.name existing.name;
    scopes = choose item.scopes existing.scopes;
    enabled = item.enabled;
    updated_at = now;
  }
  exec (λ d. count_rows (λ x. x.key.id == id) d.api_keys)
      (set_key id (λ k. record k {
        name = stored.name;
        scopes = stored.scopes;
        enabled = stored.enabled;
        updated_at = stored.updated_at;
      }))
  pure stored

-- DeleteAPIKey
unfoldable pub delete_api_key : String → M (Unit {0})
delete_api_key id = do
  affected ←
      exec (λ d. count_rows (λ x. x.key.id == id) d.api_keys)
        (λ d. record d { api_keys = delete_rows (λ x. x.key.id == id) d.api_keys })
  fail_if (nat_eq affected 0) not_found
