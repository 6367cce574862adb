-- ===== src/Http/Access/Admin.antt =====
-- internal/httpapi/auth.go: requireSessionOrAPIKey and withAdmin together.
use ai_pub.Base.{◌≡◌, ℕ, true, false, String, Option, none, some, Memᴰ, ◌⊎◌}
use ai_pub.Domain.{User, ApiKey}
use ai_pub.Database.{Db}
use ai_pub.Action.{M}
use ai_pub.Action.Ends.{Ends}
use ai_pub.Auth.{Claims, parse}
use ai_pub.Http.{HttpRequest, Response, Api}
use ai_pub.Http.Access.{admits, lacks_scope, Entry, open_entry, refused, as_user, as_key}
use ai_pub.Http.Access.Granted.{SameButTimes, Granted}

-- The cookie of the request has a good token of the user, who is stored as the token says.
pub record SessionShown (api : Api) (d : Db) (r : HttpRequest) (user : User) : Type 0 where
  pub token : String
  pub sent : r.session_cookie ≡ some token
  pub claims : Claims
  pub read_at : ℕ
  pub signed : parse api.codec api.jwt_secret token read_at ≡ some claims
  pub stored : Memᴰ user d.users
  pub current : admits claims user ≡ true

-- The two ways to be an administrator.
pub data AdminShown (api : Api) (d : Db) (r : HttpRequest) : Type 0 where
  by_session : (user : User) → SessionShown api d r user → user.role ≡ "admin" → AdminShown api d r
  by_key :
      (key : ApiKey)
      → Granted api d "" key
      → lacks_scope api key "admin:write" ≡ false
      → AdminShown api d r

module _ (api : Api) (r : HttpRequest) (d : Db) where
  -- What a user that a step has found has shown.
  abbrev Shown : Option User → Type 0
  Shown none = Unit
  Shown (some user) = SessionShown api d r user

  -- What the entry of a request has shown.
  abbrev EntryShown : Entry → Type 0
  EntryShown open_entry = ⊥
  EntryShown (refused x) = Unit
  EntryShown (as_user user) = SessionShown api d r user
  EntryShown (as_key o) = (key : ApiKey) × (o ≡ some key) × Granted api d "" key

module _ {A : Type 0} (api : Api) (r : HttpRequest) (d : Db)
    (action : HttpRequest → M (Response A)) where
  abbrev Let : Db → Type 0
  Let e = SameButTimes d e ⊎ AdminShown api d r
