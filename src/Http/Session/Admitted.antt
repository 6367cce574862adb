-- ===== src/Http/Session/Admitted.antt =====
-- internal/httpapi/session.go and auth.go: the token of a login.
use ai_pub.Base.{
  ◌≡◌, refl, sym, ap, ℕ, ◌/◌, true, false, ◌&&◌, String, Option, none, some, Memᴰ, ◌==◌, inl, inr,
  arith, Bool-cases, eq_refl, eq_of_==, subst, find_row, mem-find_row,
}
use ai_pub.Strings.{trim_space}
use ai_pub.Domain.{pos, User}
use ai_pub.Database.{Db}
use ai_pub.Action.{Result, ok, err}
use ai_pub.Action.Ends.{
  calm, faulty, Ends, Ends-bind, Ends-pure, Ends-attempt, Ends-query_row, then_now,
}
use ai_pub.Auth.{Claims, Codec, sign, is_over, sign_payload, parse, verify_password}
use ai_pub.Auth.Tokens.{IsPlain, parse-sign}
use ai_pub.Repository.Users.{get_user_by_username}
use ai_pub.Http.{HttpRequest, Response, written, failure, Api, fail, decoded}
use ai_pub.Http.Access.{int_eq, admits, claimed_user, found_session}
use ai_pub.Http.Session.{
  LoginInput, Session, checked_user, session_end, claims_of, answer_token, log_in, handle_login,
}

-- The claims are read back from their JSON text.
pub record IsReadable (c : Codec) (claims : Claims) : Type 0 where
  pub text : String
  pub marshals : c.marshal claims ≡ some text
  pub unmarshals : c.unmarshal text ≡ some claims

-- A session of a stored, enabled user who gave his password. At any time until it ends its token is
-- read as claims by which requireSessionOrAPIKey finds that user in the table and lets him in, if the
-- driver does not fail.
pub record IsSession (api : Api) (d : Db) (password : String) (s : Session) : Type 0 where
  pub stored : Memᴰ s.user d.users
  pub enabled : s.user.enabled ≡ true
  pub verified : verify_password api.passwords s.user.password_hash password ≡ true
  pub claims : Claims
  pub admitted : admits claims s.user ≡ true
  pub username : claims.username ≡ s.user.username
  pub read :
      (now : ℕ)
      → is_over (pos (s.expires_at / 1000)) now ≡ false
      → parse api.codec api.jwt_secret s.token now ≡ some claims
  pub lets_in :
      (now : ℕ)
      → is_over (pos (s.expires_at / 1000)) now ≡ false
      → Ends calm d
          (claimed_user (parse api.codec api.jwt_secret s.token now))
          (λ o e. (e ≡ d) × (o ≡ some s.user))
          (λ _ _. ⊥)

-- What a response of login says.
abbrev pub Answered : Api → Db → String → Response Session → Type 0
Answered api d password (written status s) = IsSession api d password s
Answered api d password (failure status code e) = Unit

claims_of-admitted :
    (user : User) (now : ℕ) → user.enabled ≡ true → admits (claims_of user now) user ≡ true
unfolding claims_of admits int_eq
claims_of-admitted user now enabled = rw (eq_refl user.id, enabled) (ground (arith))

-- The users are found by their names: the first of that name is the one.
abbrev Named : Db → User → Type 0
Named d user = find_row (λ x. x.username == user.username) d.users ≡ some user

found-Named :
    (name : String) (d : Db) (user : User)
    → find_row (λ x. x.username == name) d.users ≡ some user
    → Memᴰ user d.users × Named d user
found-Named name d user p =
    let (m, t) = mem-find_row _ d.users p in
    let same : user.username ≡ name = eq_of_== _ _ t in
    (m, subst (λ k. find_row (λ x. x.username == k) d.users ≡ some user) (sym same) p)

claimed_user-finds :
    (claims : Claims) (user : User) (d : Db)
    → claims.username ≡ user.username
    → admits claims user ≡ true
    → Named d user
    → Ends calm d (claimed_user (some claims)) (λ o e. (e ≡ d) × (o ≡ some user)) (λ _ _. ⊥)
unfolding claimed_user get_user_by_username found_session
claimed_user-finds claims user d same admitted there =
    let found : find_row (λ x. x.username == claims.username) d.users ≡ some user =
      subst (λ k. find_row (λ x. x.username == k) d.users ≡ some user) (sym same) there in
    Ends-bind _ _
      (Ends-attempt {Q = λ read e. (e ≡ d) × (read ≡ ok user)} _ (
        Ends-query_row _ (λ u p. let one : u ≡ user = cc (p, found) in (refl, ap ok one))
          (λ p. absurd (cc (p, found))) (λ f. absurd f)))
      λ read e p. rw (p.0, p.1, admitted) (Ends-pure _ (refl, refl))

checked_user-some :
    (api : Api) (password : String) (user : User)
    → user.enabled ≡ true
    → verify_password api.passwords user.password_hash password ≡ true
    → checked_user api password (ok user) ≡ some user
unfolding checked_user
checked_user-some api password user enabled verified =
    let passed : (user.enabled && verify_password api.passwords user.password_hash password)
        ≡ true =
      ground (arith, enabled, verified) in
    rw passed refl

module _ (api : Api) (plain : IsPlain api.codec) (d : Db)
    (json : (user : User)
      → Memᴰ user d.users
      → (now : ℕ) → IsReadable api.codec (claims_of user now))
    (named : (x : User) → Memᴰ x d.users → (x.id == "") ≡ false) where
  Session-of_token :
      (user : User) (password token : String) (now : ℕ)
      → Memᴰ user d.users
      → Named d user
      → user.enabled ≡ true
      → verify_password api.passwords user.password_hash password ≡ true
      → sign api.codec api.jwt_secret (claims_of user now) ≡ some token
      → IsSession api d password
          (record { token = token; expires_at = session_end now; user = user })
  unfolding claims_of
  Session-of_token user password token now stored there enabled verified signed = record {
    stored = stored;
    enabled = enabled;
    verified = verified;
    claims = claims_of user now;
    admitted = claims_of-admitted user now enabled;
    username = refl;
    read = read;
    lets_in = λ at current. rw (read at current) (
        claimed_user-finds (claims_of user now) user d refl (claims_of-admitted user now enabled)
          there);
  }
    where
      read :
          (at : ℕ)
          → is_over (pos (session_end now / 1000)) at ≡ false
          → parse api.codec api.jwt_secret token at ≡ some (claims_of user now)
      read at current =
          let readable = json user stored now in
          parse-sign api.codec plain api.jwt_secret token readable.text (claims_of user now) at
            readable.marshals readable.unmarshals signed (named user stored) current

  answer_token-Answered :
      (user : User) (password : String) (now : ℕ)
      → Memᴰ user d.users
      → Named d user
      → user.enabled ≡ true
      → verify_password api.passwords user.password_hash password ≡ true
      → (o : Option String) → sign api.codec api.jwt_secret (claims_of user now) ≡ o
      → Ends faulty d
          (answer_token user now o)
          (λ x e. (e ≡ d) × Answered api d password x)
          (λ _ _. ⊥)
  unfolding answer_token fail
  answer_token-Answered user password now stored there enabled verified none signed =
      Ends-pure _ (refl, tt)
  answer_token-Answered user password now stored there enabled verified (some token) signed =
      Ends-pure _
        (refl, Session-of_token user password token now stored there enabled verified signed)

  log_in-Answered :
      (password : String) (read : Result User)
      → ((user : User) → read ≡ ok user → Memᴰ user d.users × Named d user)
      → Ends faulty d
          (log_in api (checked_user api password read))
          (λ x e. (e ≡ d) × Answered api d password x)
          (λ _ _. ⊥)
  unfolding log_in checked_user fail
  log_in-Answered password (err e) stored = Ends-pure _ (refl, tt)
  log_in-Answered password (ok user) stored =
      let passed = user.enabled && verify_password api.passwords user.password_hash password in
      elim (Bool-cases passed) [
        | inr f ↦ rw f (Ends-pure _ (refl, tt))
        | inl t ↦
            let (m, there) = stored user refl in
            rw t (
              then_now _ λ now.
                answer_token-Answered user password now m there (ground (arith, t))
                  (ground (arith, t)) _ refl)
      ]

  sign_claims :
      (user : User)
      → Memᴰ user d.users
      → (now : ℕ)
      → (token : String) × (sign api.codec api.jwt_secret (claims_of user now) ≡ some token)
  unfolding sign sign_payload
  sign_claims user m now = rw (json user m now).marshals (_, refl)

-- What login answers with is a session of a stored, enabled user whose password was given: until it
-- ends, its token is read as claims by which requireSessionOrAPIKey finds that user in the same tables
-- and lets him in, if the driver does not fail. Nothing changes. The encoding is plain, the claims of
-- a stored user are read back from their JSON text, and no stored user has an empty id.
pub handle_login-Answered :
    (api : Api) (r : HttpRequest) (input : LoginInput) (d : Db)
    → IsPlain api.codec
    → ((user : User) → Memᴰ user d.users → (now : ℕ) → IsReadable api.codec (claims_of user now))
    → ((x : User) → Memᴰ x d.users → (x.id == "") ≡ false)
    → Ends faulty d
        (handle_login api r (ok input))
        (λ x e. (e ≡ d) × Answered api d input.password x)
        (λ _ _. ⊥)
unfolding handle_login decoded get_user_by_username
handle_login-Answered api r input d plain json named =
    Ends-bind _ _
      (Ends-attempt
        {Q = λ read e.
          (e ≡ d) × ((user : User) → read ≡ ok user → Memᴰ user d.users × Named d user)}
        _
        (Ends-query_row _
          (λ user p.
            (refl, λ u q. let same : user ≡ u = cc q in rw (sym same) (found-Named _ d user p)))
          (λ _. (refl, λ u q. absurd (cc q))) (λ _. (refl, λ u q. absurd (cc q)))))
      λ read e p. rw p.0 (log_in-Answered api plain d json named input.password read p.1)

-- Where the driver fails no statement, a stored, enabled user who logs in with his name and password
-- gets a session: until it ends, its token is read as claims by which requireSessionOrAPIKey finds that
-- user in the same tables and lets him in, if the driver does not fail. The encoding is plain, the claims of a stored user are read back from their
-- JSON text, and no stored user has an empty id.
pub handle_login-IsSession :
    (api : Api) (r : HttpRequest) (input : LoginInput) (user : User) (d : Db)
    → IsPlain api.codec
    → ((user : User) → Memᴰ user d.users → (now : ℕ) → IsReadable api.codec (claims_of user now))
    → ((x : User) → Memᴰ x d.users → (x.id == "") ≡ false)
    → find_row (λ x. x.username == trim_space input.username) d.users ≡ some user
    → user.enabled ≡ true
    → verify_password api.passwords user.password_hash input.password ≡ true
    → Ends calm d
        (handle_login api r (ok input))
        (λ x e.
          (e ≡ d)
          × ((s : Session) × (x ≡ written 200 s)
              × (s.user ≡ user)
              × IsSession api d input.password s))
        (λ _ _. ⊥)
unfolding handle_login decoded get_user_by_username log_in answer_token
handle_login-IsSession api r input user d plain json named found enabled verified =
    let (m, there) = found-Named _ d user found in
    Ends-bind _ _
      (Ends-attempt {Q = λ read e. (e ≡ d) × (read ≡ ok user)} _ (
        Ends-query_row _ (λ u p. let same : u ≡ user = cc (p, found) in (refl, ap ok same))
          (λ p. absurd (cc (p, found))) (λ f. absurd f)))
      λ read e p.
        rw (p.0, p.1, checked_user-some api input.password user enabled verified)
          (then_now _ λ now.
            let (token, signed) = sign_claims api plain d json named user m now in
            rw signed (
              Ends-pure _ (
                refl,
                (
                  _,
                  refl,
                  refl,
                  Session-of_token api plain d json named user input.password token now m there
                      enabled verified signed,
                ),
              )))
