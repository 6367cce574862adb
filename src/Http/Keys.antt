-- ===== src/Http/Keys.antt =====
-- internal/httpapi/inventory.go: the administration of API keys, by administrators and by the owners
-- of the keys.
pub mod Owned
pub mod Reduced
use ai_pub.Base.{
  ℕ, Bool, true, false, not, ◌&&◌, ◌||◌, String, Option, none, some, List, [], ◌∷◌, ◌==◌, is_one_of,
  if◌then◌else◌,
}
use ai_pub.Domain.{User, ApiKey}
use ai_pub.Action.{
  M, Result, ok, err, message, unauthorized, forbidden, pure, raise, fail_if, ◌>>=◌, ◌>>◌,
}
use ai_pub.Repository.Keys.{
  KeyWithPlaintext, create_api_key, list_api_keys, list_api_keys_by_user, get_api_key,
  update_api_key, delete_api_key,
}
use ai_pub.Http.{HttpRequest, Response, written, Api, fail, decoded, respond}
use ai_pub.Http.Access.{contains_scope}
use ai_pub.Http.Users.{patched}

unfoldable pub is_admin : User → Bool
is_admin user = user.role == "admin"

-- `domain.User{Role: "admin"}`
abbrev no_user : User
no_user = record {
  id = "";
  username = "";
  display_name = "";
  role = "admin";
  enabled = false;
  password_hash = "";
  session_version = 0;
  created_at = 0;
  updated_at = 0;
}

module _ {A : Type 0} where
  unfoldable pub managed_by :
      Api → HttpRequest → (User → M (Response A)) → Option User → M (Response A)
  unfolding fail
  managed_by api r next (some user) = next user
  managed_by api r next none =
      if api.jwt_secret == "" && r.authorization == ""
      then next no_user
      else fail 401 "unauthorized" unauthorized

  -- apiKeyManager, with what its caller does for the user
  unfoldable pub with_manager : Api → HttpRequest → (User → M (Response A)) → M (Response A)
  unfolding managed_by
  with_manager api r next = managed_by api r next r.session_user

-- canManageAPIKey
unfoldable pub can_manage_api_key : User → ApiKey → Bool
unfolding is_admin
can_manage_api_key user key = is_admin user || key.owner_user_id == user.id

-- allowedAPIKeyScopes
abbrev allowed_api_key_scopes : List String
allowed_api_key_scopes =
    "inventory:read" ∷ "release:read" ∷ "release:create" ∷ "release:confirm" ∷ "release:rollback"
    ∷ "deploy:read" ∷ "version:write" ∷ "admin:write" ∷ []

unfoldable pub check_scopes : List String → Bool → List String → M (Unit {0})
check_scopes seen admin [] = pure tt
check_scopes seen admin (scope ∷ rest) = do
  fail_if (not (is_one_of scope allowed_api_key_scopes)) (message "unsupported api key scope")
  fail_if (is_one_of scope seen) (message "duplicate api key scope")
  fail_if (scope == "admin:write" && not admin) (message "non-admin cannot grant admin:write")
  check_scopes (scope ∷ seen) admin rest

unfoldable pub check_decoded : Bool → Option (Option (List String)) → M (Unit {0})
unfolding check_scopes
check_decoded admin none = raise (message "scopes must be a JSON array")
check_decoded admin (some none) = raise (message "scopes must be a JSON array")
check_decoded admin (some (some scopes)) = check_scopes [] admin scopes

-- validateAPIKeyScopes
unfoldable pub validate_api_key_scopes : Api → String → Bool → M (Unit {0})
unfolding check_decoded
validate_api_key_scopes api raw admin = check_decoded admin (api.decode_scopes raw)

unfoldable pub or_no_scopes : Option (List String) → List String
or_no_scopes none = []
or_no_scopes (some scopes) = scopes

unfoldable pub all_allowed : List String → List String → Bool
unfolding contains_scope
all_allowed [] current = true
all_allowed (scope ∷ rest) current = contains_scope current scope && all_allowed rest current

unfoldable pub is_subset : Option (Option (List String)) → Option (Option (List String)) → Bool
unfolding or_no_scopes all_allowed
is_subset none current = false
is_subset (some next) none = false
is_subset (some next) (some current) = all_allowed (or_no_scopes next) (or_no_scopes current)

-- scopesAreSubset
unfoldable pub scopes_are_subset : Api → String → String → Bool
unfolding is_subset
scopes_are_subset api next_raw current_raw =
    is_subset (api.decode_scopes next_raw) (api.decode_scopes current_raw)

-- listAPIKeys
unfoldable pub handle_list_api_keys : Api → HttpRequest → M (Response (List ApiKey))
unfolding with_manager respond fail is_admin
handle_list_api_keys api r = with_manager api r λ user.
    respond (if is_admin user then list_api_keys else list_api_keys_by_user user.id)
      (fail 500 "internal_error") λ items. pure (written 200 items)

-- createAPIKey
unfoldable pub handle_create_api_key :
    Api → HttpRequest → Result ApiKey → M (Response KeyWithPlaintext)
unfolding with_manager decoded respond fail is_admin validate_api_key_scopes
handle_create_api_key api r body = with_manager api r λ user. decoded body λ given.
    let input = if is_admin user then given else record given { owner_user_id = user.id } in
    respond (validate_api_key_scopes api input.scopes (is_admin user)) (fail 400 "invalid_argument")
      λ _.
        respond (create_api_key api.hash_secret api.random_secret input)
          (fail 400 "invalid_argument") λ item. pure (written 201 item)

pub record KeyPatch : Type 0 where
  pub name : Option String
  pub scopes : Option String
  pub enabled : Option Bool

unfoldable pub patched_key : ApiKey → KeyPatch → ApiKey
unfolding patched
patched_key existing patch = record existing {
  name = patched existing.name patch.name;
  scopes = patched existing.scopes patch.scopes;
  enabled = patched existing.enabled patch.enabled;
}

-- What new scopes are checked for.
unfoldable pub check_patch :
    {A : Type 0} → Api → User → ApiKey → Option String → M (Response A) → M (Response A)
unfolding respond fail is_admin validate_api_key_scopes scopes_are_subset
check_patch api user existing none next = next
check_patch api user existing (some scopes) next =
    respond (validate_api_key_scopes api scopes (is_admin user)) (fail 400 "invalid_argument") λ _.
      if not (is_admin user) && not (scopes_are_subset api scopes existing.scopes)
      then fail 403 "forbidden" (message "non-admin api key scopes may only be reduced")
      else next

-- patchAPIKey
unfoldable pub handle_patch_api_key : Api → HttpRequest → Result KeyPatch → M (Response ApiKey)
unfolding with_manager decoded respond fail can_manage_api_key check_patch patched_key
handle_patch_api_key api r body = with_manager api r λ user.
    respond (get_api_key r.id) (fail 500 "internal_error") λ existing.
      if not (can_manage_api_key user existing)
      then fail 403 "forbidden" forbidden
      else decoded body λ patch. check_patch api user existing patch.scopes (
          respond (update_api_key existing.id (patched_key existing patch))
            (fail 400 "invalid_argument") λ item. pure (written 200 item))

-- deleteAPIKey
unfoldable pub handle_delete_api_key : Api → HttpRequest → M (Response String)
unfolding with_manager respond fail can_manage_api_key
handle_delete_api_key api r = with_manager api r λ user.
    if r.id == ""
    then fail 400 "invalid_argument" (message "id is required")
    else respond (get_api_key r.id) (fail 500 "internal_error") λ existing.
      if not (can_manage_api_key user existing)
      then fail 403 "forbidden" forbidden
      else respond (delete_api_key r.id) (fail 400 "invalid_argument") λ _. pure (written 200 r.id)
