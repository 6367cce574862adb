-- ===== src/Http/Access.antt =====
-- internal/httpapi/auth.go and release.go: who a request comes from, and what its API key may do.
pub mod Granted
pub mod Admin
pub mod Revoked
use ai_pub.Base.{
  ℕ, Bool, true, false, not, ◌&&◌, ◌||◌, String, Option, none, some, List, [], ◌∷◌, ◌==◌, ltb,
  nat_eq, if◌then◌else◌,
}
use ai_pub.Strings.{trim_space, fields, has_prefix}
use ai_pub.Domain.{ℤ, pos, negsuc, User, ApiKey}
use ai_pub.Action.{
  M, Err, Result, ok, err, unauthorized, forbidden, is_forbidden, pure, raise, fail_if, attempt,
  now_utc, ◌>>=◌, ◌>>◌,
}
use ai_pub.Auth.{Claims, parse}
use ai_pub.Repository.Users.{get_user_by_username}
use ai_pub.Repository.Keys.{get_api_key_by_secret, touch_api_key_last_used}
use ai_pub.Http.{HttpRequest, Response, Api, fail}

unfoldable pub int_eq : ℤ → ℕ → Bool
int_eq (pos n) k = nat_eq n k
int_eq (negsuc n) k = false

-- The claims of a token against the user as he is stored now.
unfoldable pub admits : Claims → User → Bool
unfolding int_eq
admits claims user =
    user.id == claims.subject
    && (user.enabled && int_eq claims.session_version user.session_version)

unfoldable pub found_session : Claims → Result User → Option User
unfolding admits
found_session claims (ok user) = if admits claims user then some user else none
found_session claims (err e) = none

unfoldable pub claimed_user : Option Claims → M (Option User)
unfolding found_session
claimed_user none = pure none
claimed_user (some claims) = do
  read ← attempt (get_user_by_username claims.username)
  pure (found_session claims read)

-- The user of a session cookie, if its token is good and the user is still as it says.
unfoldable pub session_user_of : Api → Option String → M (Option User)
unfolding claimed_user
session_user_of api none = pure none
session_user_of api (some token) = do
  now ← now_utc
  claimed_user (parse api.codec api.jwt_secret token now)

unfoldable pub contains_scope : List String → String → Bool
contains_scope [] required = false
contains_scope (s ∷ rest) required = s == required || contains_scope rest required

unfoldable pub scope_in : Option (Option (List String)) → String → Bool
unfolding contains_scope
scope_in none required = false
scope_in (some none) required = false
scope_in (some (some scopes)) required = contains_scope scopes required

-- apiKeyHasScope
unfoldable pub api_key_has_scope : Api → ApiKey → String → Bool
unfolding scope_in
api_key_has_scope api key required = scope_in (api.decode_scopes key.scopes) required

unfoldable pub lacks_scope : Api → ApiKey → String → Bool
unfolding api_key_has_scope
lacks_scope api key scope = not (scope == "") && not (api_key_has_scope api key scope)

-- `key.ExpiresAt != nil && key.ExpiresAt.Before(now)`
unfoldable pub is_expired_key : Option ℕ → ℕ → Bool
is_expired_key none now = false
is_expired_key (some t) now = ltb t now

unfoldable pub found_key : Result ApiKey → M ApiKey
found_key (ok key) = pure key
found_key (err e) = raise unauthorized

-- The key with that secret, if it may be used for the scope.
unfoldable pub key_of_secret : Api → String → String → M (Option ApiKey)
unfolding found_key lacks_scope is_expired_key
key_of_secret api scope secret = do
  read ← attempt (get_api_key_by_secret api.hash_secret secret)
  key ← found_key read
  fail_if (not key.enabled) unauthorized
  now ← now_utc
  fail_if (is_expired_key key.expires_at now) unauthorized
  fail_if (lacks_scope api key scope) forbidden
  touch_api_key_last_used key.id
  pure (some key)

bearer_parts : Api → String → List String → M (Option ApiKey)
unfolding key_of_secret
bearer_parts api scope (scheme ∷ (secret ∷ [])) =
    if api.equal_fold scheme "Bearer" then key_of_secret api scope secret else raise unauthorized
bearer_parts api scope _ = raise unauthorized

unfoldable pub key_of_header : Api → String → String → M (Option ApiKey)
unfolding bearer_parts
key_of_header api scope header =
    if header == "" then pure none else bearer_parts api scope (fields header)

unfoldable pub key_in_context : Api → HttpRequest → String → Option ApiKey → M (Option ApiKey)
unfolding lacks_scope key_of_header
key_in_context api r scope (some key) = do
  fail_if (lacks_scope api key scope) forbidden
  pure (some key)
key_in_context api r scope none = key_of_header api scope (trim_space r.authorization)

-- apiKeyFromBearer: no key without the header.
unfoldable pub api_key_from_bearer : Api → HttpRequest → String → M (Option ApiKey)
unfolding key_in_context
api_key_from_bearer api r scope = key_in_context api r scope r.api_key

-- What requireSessionOrAPIKey does with a request: pass it on as it is, with a user, with a key, or
-- refuse it.
pub data Entry : Type 0 where
  open_entry : Entry
  refused : Err → Entry
  as_user : User → Entry
  as_key : Option ApiKey → Entry

keyed_entry : Result (Option ApiKey) → Entry
keyed_entry (ok key) = as_key key
keyed_entry (err e) = refused e

enter_by_key : Api → HttpRequest → M Entry
unfolding keyed_entry
enter_by_key api r =
    if trim_space r.authorization == ""
    then pure (refused unauthorized)
    else do key ← attempt (api_key_from_bearer api r ""); pure (keyed_entry key)

enter_as : Api → HttpRequest → Option User → M Entry
unfolding enter_by_key
enter_as api r (some user) = pure (as_user user)
enter_as api r none = enter_by_key api r

unfoldable pub is_open_path : String → Bool
is_open_path path =
    not (has_prefix path "/api/v1/")
    || (path == "/api/v1/auth/login" || path == "/api/v1/auth/logout")

-- requireSessionOrAPIKey
unfoldable pub require_session_or_api_key : Api → HttpRequest → M Entry
unfolding enter_as is_open_path
require_session_or_api_key api r =
    if api.jwt_secret == "" || is_open_path r.path
    then pure open_entry
    else do user ← session_user_of api r.session_cookie; enter_as api r user

is_some : {A : Type 0} → Option A → Bool
is_some none = false
is_some (some a) = true

-- The service runs without authentication, as the tests of the router do.
unfoldable pub unauthenticated : Api → HttpRequest → Bool
unauthenticated api r = api.jwt_secret == "" && trim_space r.authorization == ""

module _ {A : Type 0} where
  key_allowed : M (Response A) → Result (Option ApiKey) → M (Response A)
  unfolding fail
  key_allowed next (ok key) = next
  key_allowed next (err e) =
      if is_forbidden e then fail 403 "forbidden" e else fail 401 "unauthorized" e

  -- authorizeOptionalAPIKey, for the handlers that do not read the key
  unfoldable pub with_optional_api_key_scope :
      Api → HttpRequest → String → M (Response A) → M (Response A)
  unfolding key_allowed is_some
  with_optional_api_key_scope api r scope next =
      if is_some r.session_user
      then next
      else (attempt (api_key_from_bearer api r scope) >>= key_allowed next)

  admin_only : M (Response A) → M (Response A) → Option User → M (Response A)
  unfolding fail
  admin_only next other none = other
  admin_only next other (some user) =
      if not (user.role == "admin") then fail 403 "forbidden" forbidden else next

  -- withAdmin
  unfoldable pub with_admin : Api → HttpRequest → M (Response A) → M (Response A)
  unfolding admin_only with_optional_api_key_scope unauthenticated
  with_admin api r next =
      admin_only next
        (if unauthenticated api r
          then next
          else with_optional_api_key_scope api r "admin:write" next)
        r.session_user

  -- withAdminSession
  unfoldable pub with_admin_session : Api → HttpRequest → M (Response A) → M (Response A)
  unfolding fail admin_only unauthenticated
  with_admin_session api r next =
      admin_only next (if unauthenticated api r then next else fail 401 "unauthorized" unauthorized)
        r.session_user

  -- withSessionUser
  unfoldable pub with_session_user : Api → HttpRequest → M (Response A) → M (Response A)
  unfolding with_optional_api_key_scope unauthenticated is_some
  with_session_user api r next =
      if is_some r.session_user || unauthenticated api r
      then next
      else with_optional_api_key_scope api r "admin:write" next

  -- The handler behind requireSessionOrAPIKey, with the context that this gives it.
  enter : (HttpRequest → M (Response A)) → HttpRequest → Entry → M (Response A)
  unfolding fail
  enter next r open_entry = next r
  enter next r (refused e) = fail 401 "unauthorized" e
  enter next r (as_user user) = next (record r { session_user = some user })
  enter next r (as_key key) = next (record r { api_key = key })

  unfoldable pub serve : Api → (HttpRequest → M (Response A)) → HttpRequest → M (Response A)
  unfolding enter
  serve api next r = require_session_or_api_key api r >>= enter next r
