-- ===== src/Action/Ends.antt =====
-- How an action ends, whatever the clock, the random source and the driver do: one rule for each
-- way to build an action. In `calm` mode the driver fails no statement, so a rule that leaves no
-- error possible there proves that the code returns.
use ai_pub.Base.{
  ◌≡◌, refl, ◌∙◌, Bool, true, false, String, Option, none, some, List, [], ◌∷◌, ℕ, if◌then◌else◌,
}
use ai_pub.Database.{Db}
use ai_pub.Action.{
  Err, not_found, driver, constraint, Result, ok, err, Env, M, pure, raise, continue, ◌>>=◌,
  fail_if, answer, issue, found, inserted, changed, advance, reading, draw, settle, attempt, ignore,
  statement, query, query_one, query_row, exec, insert, update, transaction, now_utc, new_id,
}

pub data Mode : Type 0 where
  calm faulty : Mode

-- Whether the driver may fail a statement.
abbrev pub MayFail : Mode → Type 0
MayFail calm = ⊥
MayFail faulty = Unit

abbrev pub Fits : Mode → Env → Type 0
Fits calm n = n.faults ≡ []
Fits faulty n = Unit

-- Drawing from the clock or the random source leaves the driver's faults alone.
Fits-same : (c : Mode) (n n' : Env) → n'.faults ≡ n.faults → Fits c n → Fits c n'
Fits-same calm n n' p w = p ∙ w
Fits-same faulty n n' p w = tt

advance-Fits : (c : Mode) (ts : List ℕ) (n : Env) → Fits c n → Fits c (advance ts n)
advance-Fits c [] n w = w
advance-Fits c (t ∷ ts) n w = Fits-same c n _ refl w

module _ {A : Type 0} where
  abbrev pub Outcome : Mode → (A → Db → Type 0) → (Err → Db → Type 0) → Result A × Db × Env → Type 0
  Outcome c Q E (ok a, d, n) = Q a d × Fits c n
  Outcome c Q E (err e, d, n) = E e d × Fits c n

  -- From `d`, the action returns with `Q` or fails with `E`.
  pub record Ends (c : Mode) (d : Db) (m : M A) (Q : A → Db → Type 0) (E : Err → Db → Type 0)
      : Type 0 where
    pub at : (n : Env) → Fits c n → Outcome c Q E (m n d)

module _ {c : Mode} {A : Type 0} {Q : A → Db → Type 0} {E : Err → Db → Type 0} where
  pub Ends-pure : {d : Db} (a : A) → Q a d → Ends c d (pure a) Q E
  unfolding pure
  Ends-pure a q = record { at = λ n f. (q, f) }

  pub Ends-raise : {d : Db} (e : Err) → E e d → Ends c d (raise e) Q E
  unfolding raise
  Ends-raise e x = record { at = λ n f. (x, f) }

  pub Ends-weaken :
      {d : Db} {m : M A} {Q' : A → Db → Type 0} {E' : Err → Db → Type 0}
      → Ends c d m Q' E'
      → ((a : A) (d' : Db) → Q' a d' → Q a d')
      → ((e : Err) (d' : Db) → E' e d' → E e d')
      → Ends c d m Q E
  Ends-weaken {d} {m} {Q'} {E'} h q e = record { at = λ n f. go (m n d) (h.at n f) }
    where
      go : (r : Result A × Db × Env) → Outcome c Q' E' r → Outcome c Q E r
      go (ok a, d', n') (x, y) = (q a d' x, y)
      go (err b, d', n') (x, y) = (e b d' x, y)

  pub Ends-if :
      {d : Db} (b : Bool) (m k : M A)
      → (b ≡ true → Ends c d m Q E)
      → (b ≡ false → Ends c d k Q E)
      → Ends c d (if b then m else k) Q E
  Ends-if true m k x y = x refl
  Ends-if false m k x y = y refl

module _ {A : Type 0} (Q : A → Db → Type 0) (E : Err → Db → Type 0) (d : Db) where
  -- What a statement that the driver does not fail leads to.
  abbrev Answers : Result (A × Db) → Type 0
  Answers (ok (a, d')) = Q a d'
  Answers (err e) = E e d

  answered :
      (c : Mode) (r : Result (A × Db)) (n : Env)
      → Answers r
      → Fits c n
      → Outcome c Q E (answer d n r)
  answered c (ok (a, d')) n x w = (x, w)
  answered c (err b) n x w = (x, w)

  issued :
      (c : Mode) (f : Db → Result (A × Db)) (faults : List Bool) (n : Env)
      → n.faults ≡ faults
      → Answers (f d)
      → (MayFail c → E driver d)
      → Fits c n
      → Outcome c Q E (issue faults f n d)
  issued c f [] n p q x w = answered c (f d) n q w
  issued calm f (b ∷ rest) n p q x w = absurd (cc (p, w))
  issued faulty f (true ∷ rest) n p q x w = (x tt, tt)
  issued faulty f (false ∷ rest) n p q x w = answered faulty (f d) _ q tt

  found-Answers :
      (missing : Err) (o : Option A)
      → ((a : A) → o ≡ some a → Q a d)
      → (o ≡ none → E missing d)
      → Answers (found missing d o)
  found-Answers missing none q e = e refl
  found-Answers missing (some a) q e = q a refl

module _ (Q : Unit {0} → Db → Type 0) (E : Err → Db → Type 0) (d d' : Db) where
  inserted-Answers :
      (b : Bool)
      → (b ≡ true → Q tt d')
      → (b ≡ false → E constraint d)
      → Answers Q E d (inserted d' b)
  inserted-Answers true q e = q refl
  inserted-Answers false q e = e refl

module _ (Q : ℕ → Db → Type 0) (E : Err → Db → Type 0) (affected : ℕ) (d d' : Db) where
  changed-Answers :
      (b : Bool)
      → (b ≡ true → Q affected d')
      → (b ≡ false → E constraint d)
      → Answers Q E d (changed affected d d' b)
  changed-Answers true q e = q refl
  changed-Answers false q e = e refl

module _ {c : Mode} {A : Type 0} {Q : A → Db → Type 0} {E : Err → Db → Type 0} {d : Db} where
  Ends-statement :
      (f : Db → Result (A × Db))
      → Answers Q E d (f d)
      → (MayFail c → E driver d)
      → Ends c d (statement f) Q E
  unfolding statement
  Ends-statement f q x = record { at = λ n w. issued Q E d c f n.faults n refl q x w }

  pub Ends-query : (f : Db → A) → Q (f d) d → (MayFail c → E driver d) → Ends c d (query f) Q E
  unfolding query
  Ends-query f q x = Ends-statement _ q x

  Ends-query_one :
      (missing : Err) (f : Db → Option A)
      → ((a : A) → f d ≡ some a → Q a d)
      → (f d ≡ none → E missing d)
      → (MayFail c → E driver d)
      → Ends c d (query_one missing f) Q E
  unfolding query_one
  Ends-query_one missing f q e x = Ends-statement _ (found-Answers Q E d missing (f d) q e) x

  pub Ends-query_row :
      (f : Db → Option A)
      → ((a : A) → f d ≡ some a → Q a d)
      → (f d ≡ none → E not_found d)
      → (MayFail c → E driver d)
      → Ends c d (query_row f) Q E
  unfolding query_row
  Ends-query_row f q e x = Ends-query_one not_found f q e x

module _ {c : Mode} {E : Err → Db → Type 0} {d : Db} where
  pub Ends-exec :
      {Q : ℕ → Db → Type 0} (affected : Db → ℕ) (f : Db → Db)
      → Q (affected d) (f d)
      → (MayFail c → E driver d)
      → Ends c d (exec affected f) Q E
  unfolding exec
  Ends-exec affected f q x = Ends-statement _ q x

  pub Ends-insert :
      {Q : Unit {0} → Db → Type 0} (allowed : Db → Bool) (f : Db → Db)
      → (allowed d ≡ true → Q tt (f d))
      → (allowed d ≡ false → E constraint d)
      → (MayFail c → E driver d)
      → Ends c d (insert allowed f) Q E
  unfolding insert
  Ends-insert {Q} allowed f q e x =
      Ends-statement _ (inserted-Answers Q E d (f d) (allowed d) q e) x

  pub Ends-update :
      {Q : ℕ → Db → Type 0} (allowed : Db → Bool) (affected : Db → ℕ) (f : Db → Db)
      → (allowed d ≡ true → Q (affected d) (f d))
      → (allowed d ≡ false → E constraint d)
      → (MayFail c → E driver d)
      → Ends c d (update allowed affected f) Q E
  unfolding update
  Ends-update {Q} allowed affected f q e x =
      Ends-statement _ (changed-Answers Q E (affected d) d (f d) (allowed d) q e) x

  pub Ends-fail_if :
      {Q : Unit {0} → Db → Type 0} (b : Bool) (e : Err)
      → (b ≡ true → E e d)
      → (b ≡ false → Q tt d)
      → Ends c d (fail_if b e) Q E
  unfolding fail_if
  Ends-fail_if true e x q = record { at = λ n w. (x refl, w) }
  Ends-fail_if false e x q = record { at = λ n w. (q refl, w) }

  pub Ends-now_utc : {Q : ℕ → Db → Type 0} → ((t : ℕ) → Q t d) → Ends c d now_utc Q E
  unfolding now_utc
  Ends-now_utc q = record { at = λ n w. (q _, advance-Fits c n.elapsed n w) }

  pub Ends-new_id :
      {Q : String → Db → Type 0} (prefix : String)
      → ((s : String) → Q s d)
      → Ends c d (new_id prefix) Q E
  unfolding new_id
  Ends-new_id {Q} prefix q = record { at = λ n w. go n.entropy n w }
    where
      go : (hs : List String) (n : Env) → Fits c n → Outcome c Q E (draw hs prefix n d)
      go [] n w = (q _, w)
      go (h ∷ hs) n w = (q _, Fits-same c n _ refl w)

module _ {c : Mode} {A B : Type 0} {Q : A → Db → Type 0} {R : B → Db → Type 0}
    {E : Err → Db → Type 0} where
  pub Ends-bind :
      {d : Db} (m : M A) (f : A → M B)
      → Ends c d m Q E
      → ((a : A) (d' : Db) → Q a d' → Ends c d' (f a) R E)
      → Ends c d (m >>= f) R E
  unfolding ◌>>=◌
  Ends-bind {d} m f h k = record { at = λ n w. go (m n d) (h.at n w) }
    where
      go : (r : Result A × Db × Env) → Outcome c Q E r → Outcome c R E (continue r.0 f r.2 r.1)
      go (ok a, d', n') (x, y) = (k a d' x).at n' y
      go (err b, d', n') (x, y) = (x, y)

module _ {c : Mode} {A : Type 0} {E : Err → Db → Type 0} {d : Db} where
  pub Ends-attempt :
      {Q : Result A → Db → Type 0} (m : M A)
      → Ends c d m (λ a d'. Q (ok a) d') (λ e d'. Q (err e) d')
      → Ends c d (attempt m) Q E
  unfolding attempt
  Ends-attempt {Q} m h = record { at = λ n w. go (m n d) (h.at n w) }
    where
      go :
          (r : Result A × Db × Env)
          → Outcome c (λ a d'. Q (ok a) d') (λ e d'. Q (err e) d') r
          → Outcome c Q E (ok r.0, r.1, r.2)
      go (ok a, d', n') (x, y) = (x, y)
      go (err b, d', n') (x, y) = (x, y)

  pub Ends-ignore :
      {Q : Unit {0} → Db → Type 0} (m : M A)
      → Ends c d m (λ a d'. Q tt d') (λ e d'. Q tt d')
      → Ends c d (ignore m) Q E
  unfolding ignore
  Ends-ignore {Q} m h = record { at = λ n w. go (m n d) (h.at n w) }
    where
      go :
          (r : Result A × Db × Env)
          → Outcome c (λ a d'. Q tt d') (λ e d'. Q tt d') r
          → Outcome c Q E (ok tt, r.1, r.2)
      go (ok a, d', n') (x, y) = (x, y)
      go (err b, d', n') (x, y) = (x, y)

  -- A transaction commits what its body did, or leaves the database as it was.
  pub Ends-transaction :
      {Q : A → Db → Type 0} (m : M A)
      → Ends c d m Q (λ e d'. E e d)
      → (MayFail c → E driver d)
      → Ends c d (transaction m) Q E
  unfolding transaction
  Ends-transaction {Q} m h x = record { at = λ n w. go _ (body.at n w) }
    where
      body :
          Ends c d
            (query (λ _. tt) >>= λ _. m >>= λ a. query (λ _. tt) >>= λ _. pure a)
            Q
            (λ e d'. E e d)
      body = Ends-bind _ _ (Ends-query {Q = λ _ d'. d' ≡ d} _ refl x) λ _ d' same.
          Ends-bind m _ (rw same h)
            λ a d'' q. Ends-bind _ _ (Ends-query {Q = λ _ e. Q a e} _ q x) λ _ _ r. Ends-pure a r

      go : (r : Result A × Db × Env) → Outcome c Q (λ e d'. E e d) r → Outcome c Q E (settle d r)
      go (ok a, d', n') (p, y) = (p, y)
      go (err b, d', n') (p, y) = (p, y)

-- The rules for a statement that others follow.
module _ {c : Mode} {B : Type 0} {R : B → Db → Type 0} {E : Err → Db → Type 0} {d : Db} where
  pub then_query :
      {A : Type 0} (f : Db → A) (k : A → M B)
      → (MayFail c → E driver d)
      → Ends c d (k (f d)) R E
      → Ends c d (query f >>= k) R E
  then_query f k x h =
      Ends-bind _ _ (Ends-query {Q = λ a e. (a ≡ f d) × (e ≡ d)} f (refl, refl) x)
        λ a e p. rw (p.0, p.1) h

  pub then_query_one :
      {A : Type 0} (missing : Err) (f : Db → Option A) (k : A → M B)
      → (MayFail c → E driver d)
      → (f d ≡ none → E missing d)
      → ((a : A) → f d ≡ some a → Ends c d (k a) R E)
      → Ends c d (query_one missing f >>= k) R E
  then_query_one missing f k x n h =
      Ends-bind _ _
        (Ends-query_one {Q = λ a e. (f d ≡ some a) × (e ≡ d)} missing f (λ a p. (p, refl)) n x)
        λ a e p. rw p.1 (h a p.0)

  pub then_query_row :
      {A : Type 0} (f : Db → Option A) (k : A → M B)
      → (MayFail c → E driver d)
      → (f d ≡ none → E not_found d)
      → ((a : A) → f d ≡ some a → Ends c d (k a) R E)
      → Ends c d (query_row f >>= k) R E
  unfolding query_row
  then_query_row f k x n h = then_query_one not_found f k x n h

  pub then_exec :
      (affected : Db → ℕ) (f : Db → Db) (k : ℕ → M B)
      → (MayFail c → E driver d)
      → Ends c (f d) (k (affected d)) R E
      → Ends c d (exec affected f >>= k) R E
  then_exec affected f k x h =
      Ends-bind _ _ (Ends-exec {Q = λ a e. (a ≡ affected d) × (e ≡ f d)} affected f (refl, refl) x)
        λ a e p. rw (p.0, p.1) h

  pub then_insert :
      (allowed : Db → Bool) (f : Db → Db) (k : Unit {0} → M B)
      → (MayFail c → E driver d)
      → (allowed d ≡ false → E constraint d)
      → (allowed d ≡ true → Ends c (f d) (k tt) R E)
      → Ends c d (insert allowed f >>= k) R E
  then_insert allowed f k x n h =
      Ends-bind _ _
        (Ends-insert {Q = λ a e. (allowed d ≡ true) × (e ≡ f d)} allowed f (λ p. (p, refl)) n x)
        λ a e p. rw p.1 (h p.0)

  pub then_update :
      (allowed : Db → Bool) (affected : Db → ℕ) (f : Db → Db) (k : ℕ → M B)
      → (MayFail c → E driver d)
      → (allowed d ≡ false → E constraint d)
      → (allowed d ≡ true → Ends c (f d) (k (affected d)) R E)
      → Ends c d (update allowed affected f >>= k) R E
  then_update allowed affected f k x n h =
      Ends-bind _ _
        (Ends-update {Q = λ a e. (allowed d ≡ true) × (a ≡ affected d) × (e ≡ f d)} allowed affected
          f (λ p. (p, refl, refl)) n x)
        λ a e p. rw (p.1, p.2) (h p.0)

  pub then_fail_if :
      (b : Bool) (e : Err) (k : Unit {0} → M B)
      → (b ≡ true → E e d)
      → (b ≡ false → Ends c d (k tt) R E)
      → Ends c d (fail_if b e >>= k) R E
  then_fail_if b e k n h =
      Ends-bind _ _ (Ends-fail_if {Q = λ a d'. (b ≡ false) × (d' ≡ d)} b e n (λ p. (p, refl)))
        λ a d' p. rw p.1 (h p.0)

  pub then_now : (k : ℕ → M B) → ((t : ℕ) → Ends c d (k t) R E) → Ends c d (now_utc >>= k) R E
  then_now k h = Ends-bind _ _ (Ends-now_utc {Q = λ t e. e ≡ d} (λ t. refl)) λ t e p. rw p (h t)

  -- An action that reads the clock first, in a given environment.
  pub at_now :
      (n : Env) (k : ℕ → M B)
      → Fits c n
      → Ends c d (k (reading n)) R E
      → Outcome c R E ((now_utc >>= k) n d)
  unfolding now_utc ◌>>=◌
  at_now n k w h = h.at (advance n.elapsed n) (advance-Fits c n.elapsed n w)

  pub then_new_id :
      (prefix : String) (k : String → M B)
      → ((s : String) → Ends c d (k s) R E)
      → Ends c d (new_id prefix >>= k) R E
  then_new_id prefix k h =
      Ends-bind _ _ (Ends-new_id {Q = λ s e. e ≡ d} prefix (λ s. refl)) λ s e p. rw p (h s)

-- `m` keeps `P`, whether it returns or fails, and however the driver behaves.
abbrev pub Keeps : {A : Type 0} → (Db → Type 0) → M A → Type 0
Keeps P m = (d : Db) → P d → Ends faulty d m (λ _ e. P e) (λ _ e. P e)

module _ {P : Db → Type 0} where
  pub Keeps-query : {A : Type 0} (f : Db → A) → Keeps P (query f)
  Keeps-query f d p = Ends-query f p (λ _. p)

  pub Keeps-query_row : {A : Type 0} (f : Db → Option A) → Keeps P (query_row f)
  unfolding query_row
  Keeps-query_row f d p = Ends-query_one not_found f (λ _ _. p) (λ _. p) (λ _. p)

  pub Keeps-query_one : {A : Type 0} (e : Err) (f : Db → Option A) → Keeps P (query_one e f)
  Keeps-query_one e f d p = Ends-query_one e f (λ _ _. p) (λ _. p) (λ _. p)

  pub Keeps-pure : {A : Type 0} (a : A) → Keeps P (pure a)
  Keeps-pure a d p = Ends-pure a p

  pub Keeps-raise : {A : Type 0} (e : Err) → Keeps P (raise {A = A} e)
  Keeps-raise e d p = Ends-raise e p

  pub Keeps-fail_if : (b : Bool) (e : Err) → Keeps P (fail_if b e)
  Keeps-fail_if b e d p = Ends-fail_if b e (λ _. p) (λ _. p)

  pub Keeps-now_utc : Keeps P now_utc
  Keeps-now_utc d p = Ends-now_utc (λ _. p)

  pub Keeps-new_id : (prefix : String) → Keeps P (new_id prefix)
  Keeps-new_id prefix d p = Ends-new_id prefix (λ _. p)

  pub Keeps-if :
      {A : Type 0} (b : Bool) (m k : M A) → Keeps P m → Keeps P k → Keeps P (if b then m else k)
  Keeps-if true m k x y = x
  Keeps-if false m k x y = y

  pub Keeps-attempt : {A : Type 0} (m : M A) → Keeps P m → Keeps P (attempt m)
  Keeps-attempt m h d p = Ends-attempt m (h d p)

  pub Keeps-ignore : {A : Type 0} (m : M A) → Keeps P m → Keeps P (ignore m)
  Keeps-ignore m h d p = Ends-ignore m (h d p)

  pub Keeps-bind :
      {A B : Type 0} (m : M A) (f : A → M B)
      → Keeps P m
      → ((a : A) → Keeps P (f a))
      → Keeps P (m >>= f)
  Keeps-bind m f h k d p = Ends-bind m f (h d p) (λ a e q. k a e q)

  -- A transaction keeps what its body, when it returns, has established.
  pub Keeps-transaction :
      {A : Type 0} (m : M A)
      → ((d : Db) → P d → Ends faulty d m (λ _ e. P e) (λ _ _. Unit {0}))
      → Keeps P (transaction m)
  Keeps-transaction m h d p =
      Ends-transaction m (Ends-weaken (h d p) (λ _ _ q. q) (λ _ _ _. p)) (λ _. p)

pub ruleset keeps_rules = (
  Keeps-query, Keeps-query_row, Keeps-query_one, Keeps-pure, Keeps-raise, Keeps-fail_if,
  Keeps-now_utc, Keeps-new_id, Keeps-if, Keeps-attempt, Keeps-ignore, Keeps-bind,
)

-- What is known before an action is known after it, however it ends.
pub Ends-known : {A P : Type 0} (m : M A) {d : Db} → P → Ends faulty d m (λ _ _. P) (λ _ _. P)
Ends-known {A} {P} m {d} p = record { at = λ n w. go (m n d) }
  where
    go : (r : Result A × Db × Env) → Outcome faulty (λ _ _. P) (λ _ _. P) r
    go (ok a, d', n') = (p, tt)
    go (err b, d', n') = (p, tt)

-- Two things that hold of the same end hold together.
pub Ends-both :
    {c : Mode} {A : Type 0} {m : M A} {d : Db} {Q R : A → Db → Type 0} {E F : Err → Db → Type 0}
    → Ends c d m Q E
    → Ends c d m R F
    → Ends c d m (λ a e. Q a e × R a e) (λ x e. E x e × F x e)
Ends-both {c} {A} {m} {d} {Q} {R} {E} {F} h k = record {
  at = λ n w. go (m n d) (h.at n w) (k.at n w);
}
  where
    go :
        (r : Result A × Db × Env)
        → Outcome c Q E r
        → Outcome c R F r
        → Outcome c (λ a e. Q a e × R a e) (λ x e. E x e × F x e) r
    go (ok a, d', n') (p, y) (q, z) = ((p, q), y)
    go (err b, d', n') (p, y) (q, z) = ((p, q), y)
