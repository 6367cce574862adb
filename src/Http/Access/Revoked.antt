-- ===== src/Http/Access/Revoked.antt =====
-- internal/repository/repository.go and internal/httpapi/auth.go: changes of a user, and the sessions
-- that the user had.
use ai_pub.Base.{
  ◌≡◌, refl, sym, ap, ◌∙◌, ℕ, ◌+◌, true, false, String, List, Memᴰ, ◌==◌, inl, inr, arith,
  Bool-cases, eq_of_==, eq_refl, update_rows, delete_rows, mem-update_rows, mem-delete_rows, Keyed,
}
use ai_pub.Domain.{ℤ, pos, negsuc, User}
use ai_pub.Database.{Db}
use ai_pub.Action.Ends.{
  faulty, Ends, Ends-bind, Ends-pure, Ends-exec, then_now, Ends-query_row, then_update, then_exec,
  Ends-fail_if, Ends-transaction,
}
use ai_pub.Auth.{Claims}
use ai_pub.Repository.Lookup.{get_user}
use ai_pub.Repository.Users.{set_user, update_user, set_password, set_user_password, delete_user}
use ai_pub.Http.Access.{int_eq, admits}

-- No user is let in with those claims.
abbrev pub IsRevoked : Claims → List User → Type 0
IsRevoked claims users = (x : User) → Memᴰ x users → admits claims x ≡ false

other_version : (z : ℤ) (k : ℕ) → int_eq z k ≡ true → int_eq z (k + 1) ≡ false
unfolding int_eq
other_version (pos n) k h = ground (arith, h)
other_version (negsuc n) k h = refl

is_subject : (claims : Claims) (x : User) → admits claims x ≡ true → x.id ≡ claims.subject
unfolding admits
is_subject claims x h = eq_of_== _ _ (ground (arith, h))

admitted_version :
    (claims : Claims) (x : User)
    → admits claims x ≡ true
    → int_eq claims.session_version x.session_version ≡ true
unfolding admits
admitted_version claims x h = ground (arith, h)

module _ (claims : Claims) (user : User) (users : List User) (m : Memᴰ user users)
    (admitted : admits claims user ≡ true) (keyed : Keyed (λ x. x.id) users) where
  renewed-IsRevoked :
      (f : User → User)
      → ((x : User) → (f x).session_version ≡ x.session_version + 1)
      → IsRevoked claims (update_rows (λ x. x.id == user.id) f users)
  renewed-IsRevoked f next x n = elim (Bool-cases (admits claims x)) [
    | inr out ↦ out
    | inl let_in ↦
        let (y, n', e) = mem-update_rows _ _ users n in
        elim (Bool-cases (y.id == user.id)) [
          | inl t ↦
              let now : f y ≡ x = rw t at e in
              let one : y ≡ user = keyed y user n' m (eq_of_== _ _ t) in
              let version : x.session_version ≡ user.session_version + 1 =
                sym (ap (λ (z : User). z.session_version) now)
                ∙ next y
                ∙ ap (λ (z : User). z.session_version + 1) one in
              let old =
                other_version claims.session_version user.session_version
                  (admitted_version claims user admitted) in
              let new = admitted_version claims x let_in in
              absurd (cc (sym old ∙ (ap (int_eq claims.session_version) (sym version) ∙ new)))
          | inr f' ↦
              let here : y ≡ x = rw f' at e in
              let same : y.id ≡ user.id =
                ap (λ (z : User). z.id) here
                ∙ is_subject claims x let_in
                ∙ sym (is_subject claims user admitted) in
              absurd (cc (sym f' ∙ (ap (λ z. z == user.id) same ∙ eq_refl user.id)))
        ]
  ]

deleted-IsRevoked :
    (claims : Claims) (user : User) (users : List User)
    → admits claims user ≡ true
    → IsRevoked claims (delete_rows (λ x. x.id == user.id) users)
deleted-IsRevoked claims user users admitted x n = elim (Bool-cases (admits claims x)) [
  | inr out ↦ out
  | inl let_in ↦
      let (_, gone) = mem-delete_rows _ users n in
      let same : x.id ≡ user.id =
        is_subject claims x let_in ∙ sym (is_subject claims user admitted) in
      absurd (cc (sym gone ∙ (ap (λ z. z == user.id) same ∙ eq_refl user.id)))
]

-- When SetUserPassword returns, the claims of a token that let the user in let no user in any more;
-- when it fails, nothing has changed. An id is the key of one user.
pub set_user_password-IsRevoked :
    (claims : Claims) (user : User) (password_hash : String) (d : Db)
    → Memᴰ user d.users
    → admits claims user ≡ true
    → Keyed (λ x. x.id) d.users
    → Ends faulty d
        (set_user_password user.id password_hash)
        (λ _ e. IsRevoked claims e.users)
        (λ _ e. e ≡ d)
unfolding set_user_password set_password
set_user_password-IsRevoked claims user password_hash d m admitted keyed = then_now _ λ now.
    Ends-exec _ _ (renewed-IsRevoked claims user d.users m admitted keyed _ (λ x. refl)) (λ _. refl)

-- When UpdateUser returns, the claims of a token that let the user in let no user in any more; when
-- it fails, nothing has changed. An id is the key of one user.
pub update_user-IsRevoked :
    (claims : Claims) (user item : User) (d : Db)
    → Memᴰ user d.users
    → admits claims user ≡ true
    → Keyed (λ x. x.id) d.users
    → Ends faulty d (update_user user.id item) (λ _ e. IsRevoked claims e.users) (λ _ e. e ≡ d)
unfolding update_user set_user get_user
update_user-IsRevoked claims user item d m admitted keyed =
    Ends-bind {Q = λ _ e. e ≡ d} _ _ (Ends-query_row _ (λ _ _. refl) (λ _. refl) (λ _. refl))
      λ existing e p. rw p (
        then_now _ λ now.
          then_update _ _ _ _ (λ _. refl) (λ _. refl)
            λ _. Ends-pure _ (renewed-IsRevoked claims user d.users m admitted keyed _ (λ x. refl)))

-- When DeleteUser returns, the claims of a token that let the user in let no user in any more; when
-- it fails, nothing has changed.
pub delete_user-IsRevoked :
    (claims : Claims) (user : User) (d : Db)
    → admits claims user ≡ true
    → Ends faulty d (delete_user user.id) (λ _ e. IsRevoked claims e.users) (λ _ e. e ≡ d)
unfolding delete_user
delete_user-IsRevoked claims user d admitted =
    Ends-transaction _
      (then_exec _ _ _ (λ _. refl)
        (then_exec _ _ _ (λ _. refl)
          (Ends-fail_if _ _ (λ _. refl) λ _. deleted-IsRevoked claims user d.users admitted)))
      (λ _. refl)
