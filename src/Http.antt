-- ===== src/Http.antt =====
-- internal/httpapi: a request handler reads the request and writes one response. What package
-- net/http has parsed is a record; a body that does not decode is an error.
pub mod Access
pub mod Keys
pub mod Session
pub mod Users
use ai_pub.Base.{ℕ, Bool, true, false, String, Option, none, some, List}
use ai_pub.Domain.{User, ApiKey}
use ai_pub.Action.{M, Err, Result, ok, err, message, pure, attempt, ◌>>=◌}
use ai_pub.Auth.{Codec, Passwords}

-- The parts of a request that handlers read: the path, its `id`, the session cookie, two headers,
-- a query parameter, and what the authentication has put into the context.
pub record HttpRequest : Type 0 where
  pub path : String
  pub id : String
  pub session_cookie : Option String
  pub authorization : String
  pub idempotency_key : String
  pub query : String → String
  pub session_user : Option User
  pub api_key : Option ApiKey

-- writeData and writeError: the status, the data or the code, and the error.
pub data Response (A : Type 0) : Type 0 where
  written : ℕ → A → Response A
  failure : ℕ → String → Err → Response A

-- What the handlers are built with. `to_lower`, `equal_fold` are of package strings, the scopes of a
-- key are JSON (`none` is an error, `some none` a null), `hash_secret` is SHA-256 in hex, and
-- `random_secret` the random part of a new key.
pub record Api : Type 0 where
  pub jwt_secret : String
  pub codec : Codec
  pub passwords : Passwords
  pub hash_password : String → M String
  pub hash_secret : String → String
  pub random_secret : M String
  pub to_lower : String → String
  pub equal_fold : String → String → Bool
  pub decode_scopes : String → Option (Option (List String))
  pub demo_mode : Bool
  pub demo_protected_usernames : String

module _ {A : Type 0} where
  unfoldable pub fail : ℕ → String → Err → M (Response A)
  fail status code e = pure (failure status code e)

  -- `if !decodeJSON(w, r, &input) { return }`
  unfoldable pub decoded : {B : Type 0} → Result B → (B → M (Response A)) → M (Response A)
  unfolding fail
  decoded (ok body) k = k body
  decoded (err e) k = fail 400 "invalid_argument" e

  -- `if err != nil { writeError(…); return }`
  unfoldable pub answered :
      {B : Type 0} → (Err → M (Response A)) → (B → M (Response A)) → Result B → M (Response A)
  answered failed k (ok b) = k b
  answered failed k (err e) = failed e

  -- `item, err := m`, with what to write in either case
  unfoldable pub respond :
      {B : Type 0} → M B → (Err → M (Response A)) → (B → M (Response A)) → M (Response A)
  unfolding answered
  respond m failed k = attempt m >>= answered failed k
