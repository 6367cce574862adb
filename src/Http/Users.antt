-- ===== src/Http/Users.antt =====
-- internal/httpapi/inventory.go: the administration of users, and what protects some of them.
use ai_pub.Base.{
  Bool, false, not, ◌&&◌, ◌||◌, String, Option, none, some, List, [], ◌∷◌, ◌==◌, leb, is_one_of,
  if◌then◌else◌,
}
use ai_pub.Strings.{split, trim_space}
use ai_pub.Domain.{User}
use ai_pub.Action.{
  M, Err, Result, is_not_found, protected_user, last_admin_required, delete_self, unauthorized,
  pure, fail_if, ◌>>=◌, ◌>>◌,
}
use ai_pub.Repository.Lookup.{get_user}
use ai_pub.Repository.Users.{
  create_user, update_user, set_user_password, delete_user, count_enabled_admins, is_enabled_admin,
}
use ai_pub.Http.{HttpRequest, Response, written, Api, fail, decoded, respond}

pub record UserPatch : Type 0 where
  pub display_name : Option String
  pub role : Option String
  pub enabled : Option Bool

-- `if patch.X != nil { next.X = *patch.X }`
unfoldable pub patched : {A : Type 0} → A → Option A → A
patched kept none = kept
patched kept (some given) = given

trimmed : Option String → Option String
trimmed none = none
trimmed (some s) = some (trim_space s)

unfoldable pub patched_user : User → UserPatch → User
unfolding patched trimmed
patched_user existing patch = record existing {
  display_name = patched existing.display_name (trimmed patch.display_name);
  role = patched existing.role patch.role;
  enabled = patched existing.enabled patch.enabled;
}

lower_names : Api → List String → List String
lower_names api [] = []
lower_names api (s ∷ rest) =
    let names = lower_names api rest in
    let name = api.to_lower (trim_space s) in if name == "" then names else name ∷ names

-- protectedUsernames
unfoldable pub protected_usernames : Api → List String
unfolding lower_names
protected_usernames api = lower_names api (split api.demo_protected_usernames b',')

-- isDemoProtected
unfoldable pub is_demo_protected : Api → User → Bool
unfolding protected_usernames
is_demo_protected api user =
    api.demo_mode && is_one_of (api.to_lower (trim_space user.username)) (protected_usernames api)

-- isProtectedUser
unfoldable pub is_protected_user : Api → User → Bool
unfolding is_demo_protected
is_protected_user api user = api.equal_fold user.username "admin" || is_demo_protected api user

-- canModifyProtectedUser
unfoldable pub can_modify_protected_user : Api → User → User → Bool
unfolding is_demo_protected
can_modify_protected_user api target actor =
    api.equal_fold target.username "admin"
    && (api.equal_fold actor.username "admin" && not (is_demo_protected api target))

may_modify : Api → User → Option User → Bool
unfolding can_modify_protected_user
may_modify api target none = false
may_modify api target (some actor) = can_modify_protected_user api target actor

-- `if count <= 1 { return errLastAdminRequired }`
unfoldable pub require_other_admin : M (Unit {0})
require_other_admin = do count ← count_enabled_admins; fail_if (leb count 1) last_admin_required

-- validateUserPatch
unfoldable pub validate_user_patch : Api → User → User → Option User → M (Unit {0})
unfolding is_protected_user may_modify require_other_admin is_enabled_admin
validate_user_patch api existing next actor = do
  fail_if (is_protected_user api existing && not (may_modify api existing actor)) protected_user
  fail_if (is_protected_user api existing && not (is_enabled_admin next)) protected_user
  if is_enabled_admin existing && not (is_enabled_admin next) then require_other_admin else pure tt

-- validatePasswordReset
unfoldable pub validate_password_reset : Api → User → User → M (Unit {0})
unfolding is_demo_protected
validate_password_reset api target actor = do
  fail_if (is_demo_protected api target) protected_user
  fail_if (api.equal_fold target.username "admin" && not (api.equal_fold actor.username "admin"))
      protected_user

is_self : User → Option User → Bool
is_self target none = false
is_self target (some actor) = target.id == actor.id

-- validateUserDelete
unfoldable pub validate_user_delete : Api → User → Option User → M (Unit {0})
unfolding is_protected_user is_self require_other_admin is_enabled_admin
validate_user_delete api target actor = do
  fail_if (is_protected_user api target) protected_user
  fail_if (is_self target actor) delete_self
  if is_enabled_admin target then require_other_admin else pure tt

module _ {A : Type 0} where
  -- writeUserProtectionError
  unfoldable pub write_user_protection_error : Err → M (Response A)
  unfolding fail
  write_user_protection_error protected_user = fail 403 "protected_user" protected_user
  write_user_protection_error delete_self = fail 403 "forbidden" delete_self
  write_user_protection_error last_admin_required =
      fail 400 "last_admin_required" last_admin_required
  write_user_protection_error e = fail 500 "internal_error" e

  write_missing : Err → M (Response A)
  unfolding fail
  write_missing e = if is_not_found e then fail 404 "not_found" e else fail 500 "internal_error" e

-- createUser
unfoldable pub handle_create_user : Api → HttpRequest → Result User → M (Response User)
unfolding decoded respond fail
handle_create_user api r body = decoded body λ input.
    respond (create_user input) (fail 400 "invalid_argument") λ item. pure (written 201 item)

-- patchUser
unfoldable pub handle_patch_user : Api → HttpRequest → Result UserPatch → M (Response User)
unfolding decoded respond fail patched_user validate_user_patch write_user_protection_error
handle_patch_user api r body = respond (get_user r.id) (fail 500 "internal_error") λ existing.
    decoded body λ patch.
      let next = patched_user existing patch in
      respond (validate_user_patch api existing next r.session_user) write_user_protection_error
        λ _.
          respond (update_user existing.id next) (fail 400 "invalid_argument")
            λ item. pure (written 200 item)

reset_password : Api → User → Result String → M (Response String)
unfolding decoded respond fail
reset_password api target body = decoded body λ password.
    respond (api.hash_password password) (fail 400 "invalid_argument") λ hash.
      respond (set_user_password target.id hash) (fail 400 "invalid_argument")
        λ _. pure (written 200 target.id)

reset_by : Api → User → Result String → Option User → M (Response String)
unfolding fail respond reset_password validate_password_reset write_user_protection_error
reset_by api target body none = fail 401 "unauthorized" unauthorized
reset_by api target body (some actor) =
    respond (validate_password_reset api target actor) write_user_protection_error
      λ _. reset_password api target body

-- resetUserPassword
unfoldable pub handle_reset_user_password : Api → HttpRequest → Result String → M (Response String)
unfolding respond fail reset_by
handle_reset_user_password api r body =
    respond (get_user r.id) (fail 500 "internal_error")
      λ target. reset_by api target body r.session_user

-- deleteUser
unfoldable pub handle_delete_user : Api → HttpRequest → M (Response String)
unfolding respond write_missing validate_user_delete write_user_protection_error
handle_delete_user api r = respond (get_user r.id) write_missing λ target.
    respond (validate_user_delete api target r.session_user) write_user_protection_error
      λ _. respond (delete_user target.id) write_missing λ _. pure (written 200 target.id)
