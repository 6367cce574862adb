-- ===== src/Http/Session.antt =====
-- internal/httpapi/session.go: logging in, the current user, and users with a password.
pub mod Admitted
use ai_pub.Base.{
  ℕ, ◌+◌, ◌/◌, Bool, false, not, ◌&&◌, String, Option, none, some, ◌==◌, if◌then◌else◌,
}
use ai_pub.Strings.{trim_space}
use ai_pub.Domain.{ℤ, pos, User}
use ai_pub.Action.{M, Result, ok, err, message, unauthorized, pure, attempt, now_utc, ◌>>=◌}
use ai_pub.Auth.{Claims, sign, verify_password}
use ai_pub.Repository.Users.{get_user_by_username, create_user_with_password}
use ai_pub.Http.{HttpRequest, Response, written, Api, fail, decoded, respond}

pub record LoginInput : Type 0 where
  pub username : String
  pub password : String

-- What login answers: the value and the end of the cookie that it sets, and the user.
pub record Session : Type 0 where
  pub token : String
  pub expires_at : ℕ
  pub user : User

unfoldable pub checked_user : Api → String → Result User → Option User
checked_user api password (ok user) =
    if user.enabled && verify_password api.passwords user.password_hash password
    then some user
    else none
checked_user api password (err e) = none

-- Twelve hours, in milliseconds
unfoldable pub session_end : ℕ → ℕ
session_end now = now + 43200000

unfoldable pub claims_of : User → ℕ → Claims
unfolding session_end
claims_of user now = record {
  subject = user.id;
  username = user.username;
  role = user.role;
  session_version = pos user.session_version;
  expires_at = pos (session_end now / 1000);
}

-- The answer with a token, or that the claims could not be written.
unfoldable pub answer_token : User → ℕ → Option String → M (Response Session)
unfolding fail session_end
answer_token user now none = fail 500 "internal_error" (message "json: unsupported value")
answer_token user now (some token) =
    pure (written 200 (record { token = token; expires_at = session_end now; user = user }))

unfoldable pub log_in : Api → Option User → M (Response Session)
unfolding fail answer_token claims_of
log_in api none = fail 401 "invalid_credentials" (message "用户名或密码错误")
log_in api (some user) = do
  now ← now_utc
  answer_token user now (sign api.codec api.jwt_secret (claims_of user now))

-- login
unfoldable pub handle_login : Api → HttpRequest → Result LoginInput → M (Response Session)
unfolding decoded log_in checked_user
handle_login api r body = decoded body λ input. do
  read ← attempt (get_user_by_username (trim_space input.username))
  log_in api (checked_user api input.password read)

answer_user : Option User → M (Response User)
unfolding fail
answer_user none = fail 401 "unauthorized" unauthorized
answer_user (some user) = pure (written 200 user)

-- currentUser
unfoldable pub handle_current_user : HttpRequest → M (Response User)
unfolding answer_user
handle_current_user r = answer_user r.session_user

pub record NewUser : Type 0 where
  pub username : String
  pub display_name : String
  pub role : String
  pub password : String

user_of : NewUser → String → User
user_of input hash = record {
  id = "";
  username = trim_space input.username;
  display_name = trim_space input.display_name;
  role = input.role;
  enabled = false;
  password_hash = hash;
  session_version = 0;
  created_at = 0;
  updated_at = 0;
}

-- createSessionUser
unfoldable pub handle_create_session_user : Api → Result NewUser → M (Response User)
unfolding decoded respond fail user_of
handle_create_session_user api body = decoded body λ input.
    if trim_space input.username == ""
    then fail 400 "invalid_argument" (message "username is required")
    else respond (api.hash_password input.password) (fail 400 "invalid_argument") λ hash.
      respond (create_user_with_password (user_of input hash)) (fail 400 "invalid_argument")
        λ item. pure (written 201 item)
