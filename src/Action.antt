-- ===== src/Action.antt =====
-- How the Go code talks to the database, the clock and the random source: an action takes the
-- environment's script and the database, and returns a value or an error with both. What was
-- written before an error stays written, except in a transaction, which puts the database back.
pub mod Ends
use ai_pub.Base.{ℕ, ◌+◌, Bool, true, false, String, Option, none, some, List, [], ◌∷◌, concat}
use ai_pub.Database.{Db}

-- The sentinel errors, the errors of the database driver (`sql.ErrNoRows` among them), `errors.New` with its text,
-- and an error that another wraps by `%w`.
pub data Err : Type 0 where
  not_found lease_lost preflight_blocked idempotency_conflict : Err
  service_not_found service_disabled version_conflict : Err
  driver constraint no_rows : Err
  unauthorized forbidden : Err
  protected_user last_admin_required delete_self : Err
  message : String → Err
  wrapped : String → Err → Err

-- errors.Is(err, repository.ErrNotFound)
abbrev pub is_not_found : Err → Bool
is_not_found not_found = true
is_not_found (wrapped text e) = is_not_found e
is_not_found _ = false

-- errors.Is(err, errForbidden)
abbrev pub is_forbidden : Err → Bool
is_forbidden forbidden = true
is_forbidden (wrapped text e) = is_forbidden e
is_forbidden _ = false

pub data Result (A : Type 0) : Type 0 where
  ok : A → Result A
  err : Err → Result A

-- What the world outside decides: how far the clock moves at each reading, which statements the
-- driver fails, and the random bytes, in hex, that are left to draw.
pub record Env : Type 0 where
  pub clock : ℕ
  pub elapsed : List ℕ
  pub faults : List Bool
  pub entropy : List String

abbrev pub M : Type 0 → Type 0
M A = Env → Db → Result A × Db × Env

module _ {A : Type 0} where
  unfoldable pub pure : A → M A
  pure a n d = (ok a, d, n)

  unfoldable pub raise : Err → M A
  raise e n d = (err e, d, n)

module _ {A B : Type 0} where
  abbrev pub continue : Result A → (A → M B) → M B
  continue (ok a) f n d = f a n d
  continue (err e) f n d = (err e, d, n)

  infixl 10 ◌>>=◌ ◌>>◌
  unfoldable pub ◌>>=◌ : M A → (A → M B) → M B
  ◌>>=◌ m f n d = let (r, d', n') = m n d in continue r f n' d'

  abbrev pub ◌>>◌ : M A → M B → M B
  m >> k = m >>= λ _. k

-- `if test { return err }`
unfoldable pub fail_if : Bool → Err → M (Unit {0})
fail_if true e n d = (err e, d, n)
fail_if false e n d = (ok tt, d, n)

module _ {A : Type 0} where
  -- `item, err := m`, with the error left to the caller
  unfoldable pub attempt : M A → M (Result A)
  attempt m n d = let (r, d', n') = m n d in (ok r, d', n')

  -- `_, _ = m`
  unfoldable pub ignore : M A → M (Unit {0})
  ignore m n d = let (r, d', n') = m n d in (ok tt, d', n')

  abbrev pub answer : Db → Env → Result (A × Db) → Result A × Db × Env
  answer d n (ok (a, d')) = (ok a, d', n)
  answer d n (err e) = (err e, d, n)

  abbrev issue : List Bool → (Db → Result (A × Db)) → M A
  issue [] f n d = answer d n (f d)
  issue (true ∷ rest) f n d = (err driver, d, record n { faults = rest })
  issue (false ∷ rest) f n d = answer d (record n { faults = rest }) (f d)

  -- One SQL statement: the driver may fail it, a constraint may refuse it.
  unfoldable pub statement : (Db → Result (A × Db)) → M A
  statement f n d = issue n.faults f n d

  abbrev pub found : Err → Db → Option A → Result (A × Db)
  found missing d none = err missing
  found missing d (some a) = ok (a, d)

-- QueryContext, all rows read
unfoldable pub query : {A : Type 0} → (Db → A) → M A
unfolding statement
query f = statement (λ d. ok (f d, d))

-- QueryRowContext and Scan, with the error of a missing row
unfoldable pub query_one : {A : Type 0} → Err → (Db → Option A) → M A
unfolding statement
query_one missing f = statement (λ d. found missing d (f d))

-- with `sql.ErrNoRows` made ErrNotFound by `normalizeNotFound`
unfoldable pub query_row : {A : Type 0} → (Db → Option A) → M A
unfolding query_one
query_row f = query_one not_found f

-- ExecContext of an UPDATE or a DELETE, with the rows affected
unfoldable pub exec : (Db → ℕ) → (Db → Db) → M ℕ
unfolding statement
exec affected f = statement (λ d. ok (affected d, f d))

abbrev pub inserted : Db → Bool → Result (Unit {0} × Db)
inserted d true = ok (tt, d)
inserted d false = err constraint

-- ExecContext of an INSERT, refused where the row breaks a constraint of its table
unfoldable pub insert : (Db → Bool) → (Db → Db) → M (Unit {0})
unfolding statement
insert allowed f = statement (λ d. inserted (f d) (allowed d))

abbrev pub changed : ℕ → Db → Db → Bool → Result (ℕ × Db)
changed affected before after true = ok (affected, after)
changed affected before after false = err constraint

-- ExecContext of an UPDATE, refused where a row that it changes breaks a constraint
unfoldable pub update : (Db → Bool) → (Db → ℕ) → (Db → Db) → M ℕ
unfolding statement
update allowed affected f = statement (λ d. changed (affected d) d (f d) (allowed d))

module _ {A : Type 0} where
  abbrev settle : Db → Result A × Db × Env → Result A × Db × Env
  settle d (ok a, d', n) = (ok a, d', n)
  settle d (err e, d', n) = (err e, d, n)

  -- BeginTx, the body, Commit; the deferred Rollback undoes a body that returned an error, and a
  -- commit that failed.
  unfoldable pub transaction : M A → M A
  unfolding query ◌>>=◌ pure
  transaction body n d =
      settle d ((query (λ _. tt) >>= λ _. body >>= λ a. query (λ _. tt) >>= λ _. pure a) n d)

abbrev advance : List ℕ → Env → Env
advance [] n = n
advance (t ∷ rest) n = record n { clock = n.clock + t; elapsed = rest }

-- What the clock reads when it is read next.
abbrev pub reading : Env → ℕ
reading n = (advance n.elapsed n).clock

-- nowUTC
unfoldable pub now_utc : M ℕ
now_utc n d = let n' = advance n.elapsed n in (ok n'.clock, d, n')

-- The random part of an id is drawn from the environment; without it the id ends in "unknown".
abbrev draw : List String → String → M String
draw [] prefix n d = (ok (concat (prefix ∷ "_unknown" ∷ [])), d, n)
draw (hex ∷ rest) prefix n d =
    (ok (concat (prefix ∷ "_" ∷ hex ∷ [])), d, record n { entropy = rest })

-- domain.NewID
unfoldable pub new_id : String → M String
new_id prefix n d = draw n.entropy prefix n d
