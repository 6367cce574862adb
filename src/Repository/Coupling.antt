-- ===== src/Repository/Coupling.antt =====
-- The statuses of a release and of its deploy record (internal/repository/release.go and deploy.go):
-- when they agree, and the updates and insertions of the two tables.
pub mod Releases
pub mod Confirm
pub mod Deploys
pub mod Recover
use ai_pub.Base.{
  Bool-cases, eq_of_==, ==-ne, ==-false_of_ne, count_rows, count_rows-snoc, count_rows-update_rows,
  count_rows-zero_of_mem, ◌+◌, ◌≤◌, ◌≡◌, refl, sym, ap, ◌∙◌, Bool, true, false, not, ◌&&◌, ◌||◌,
  String, List, [], ◌∷◌, ◌++◌, Memᴰ, ◌==◌, ◌≢◌, inl, inr, arith, eq_iff, find_row, update_rows,
  exists_row, mem-update_rows, mem-update_rows_of, mem-snoc, exists_row-false, if◌then◌else◌, subst,
}
use mathlib.Core.List.Memᴰ
use ai_pub.Domain.{ReleaseStatus, DeployStatus, ReleaseRequest}
use ai_pub.Database.{Db, DeployRow}
use ai_pub.Repository.Finish.{release_status_of}

-- A deploy record fixes the status of its release, which exists; a release has one record, and an
-- id is one row's.
pub record Coupled (ds : List DeployRow) (rs : List ReleaseRequest) : Type 0 where
  pub agree :
      (x : DeployRow) (r : ReleaseRequest)
      → Memᴰ x ds
      → Memᴰ r rs
      → r.id ≡ x.release_request_id
      → r.status ≡ release_status_of x.status
  pub has_release :
      (x : DeployRow) → Memᴰ x ds → (r : ReleaseRequest) × Memᴰ r rs × (r.id ≡ x.release_request_id)
  pub one_record :
      (x y : DeployRow)
      → Memᴰ x ds
      → Memᴰ y ds
      → x.release_request_id ≡ y.release_request_id
      → x.id ≡ y.id
  pub one_release :
      (x y : DeployRow)
      → Memᴰ x ds
      → Memᴰ y ds
      → x.id ≡ y.id
      → x.release_request_id ≡ y.release_request_id
  pub one_row : (id : String) → count_rows (λ r. r.id == id) rs ≤ 1
  pub one_deploy_row : (id : String) → count_rows (λ x. x.id == id) ds ≤ 1

abbrev pub IsCoupled : Db → Type 0
IsCoupled d = Coupled d.deploys d.releases

-- What an update keeps of a row.
abbrev pub KeepsDeploy : (DeployRow → DeployRow) → Type 0
KeepsDeploy g =
    (x : DeployRow) → ((g x).id ≡ x.id) × ((g x).release_request_id ≡ x.release_request_id)

-- Where a row of an updated table comes from.
module _ (p : DeployRow → Bool) (g : DeployRow → DeployRow) (keeps : KeepsDeploy g) where
  set-keeps :
      (x : DeployRow)
      → ((if p x then g x else x).id ≡ x.id)
        × ((if p x then g x else x).release_request_id ≡ x.release_request_id)
  set-keeps x = ground (arith, keeps x)

  deploy_origin :
      (ds : List DeployRow) {y : DeployRow}
      → Memᴰ y (update_rows p g ds)
      → (x : DeployRow) × Memᴰ x ds
        × ((if p x then g x else x) ≡ y)
        × (y.id ≡ x.id)
        × (y.release_request_id ≡ x.release_request_id)
  deploy_origin ds m =
      let (x, n, e) = mem-update_rows p g ds m in
      (
        x,
        n,
        e,
        ap (λ (r : DeployRow). r.id) (sym e) ∙ (set-keeps x).0,
        ap (λ (r : DeployRow). r.release_request_id) (sym e) ∙ (set-keeps x).1,
      )

  keys-update :
      {ds : List DeployRow} {rs rs' : List ReleaseRequest}
      → Coupled ds rs
      → ((x : DeployRow) (r : ReleaseRequest)
          → Memᴰ x (update_rows p g ds)
          → Memᴰ r rs'
          → r.id ≡ x.release_request_id
          → r.status ≡ release_status_of x.status)
      → ((r : ReleaseRequest) → Memᴰ r rs → (s : ReleaseRequest) × Memᴰ s rs' × (s.id ≡ r.id))
      → ((id : String) → count_rows (λ r. r.id == id) rs' ≤ 1)
      → Coupled (update_rows p g ds) rs'
  keys-update {ds} c agree stays one = record {
    one_row = one;
    one_deploy_row = λ id.
        rw (count_rows-update_rows p g (λ x. x.id == id) ds (λ x. ground (arith, keeps x)))
          (c.one_deploy_row id);
    agree = agree;
    has_release = λ x mx.
        let (x₀, nx, ex, ix, rx) = deploy_origin ds mx in
        let (r, mr, e) = c.has_release x₀ nx in
        let (s, ms, k) = stays r mr in (s, ms, k ∙ (e ∙ sym rx));
    one_record = λ x y mx my e.
        let (x₀, nx, ex, ix, rx) = deploy_origin ds mx in
        let (y₀, ny, ey, iy, ry) = deploy_origin ds my in
        ix ∙ (c.one_record x₀ y₀ nx ny (sym rx ∙ e ∙ ry) ∙ sym iy);
    one_release = λ x y mx my e.
        let (x₀, nx, ex, ix, rx) = deploy_origin ds mx in
        let (y₀, ny, ey, iy, ry) = deploy_origin ds my in
        rx ∙ (c.one_release x₀ y₀ nx ny (sym ix ∙ e ∙ iy) ∙ sym ry);
  }

release_origin :
    (q : ReleaseRequest → Bool) (h : ReleaseRequest → ReleaseRequest)
    → ((r : ReleaseRequest) → (h r).id ≡ r.id)
    → (rs : List ReleaseRequest) {s : ReleaseRequest} → Memᴰ s (update_rows q h rs)
    → (r : ReleaseRequest) × Memᴰ r rs × ((if q r then h r else r) ≡ s) × (s.id ≡ r.id)
release_origin q h keeps_id rs m =
    let (r, n, e) = mem-update_rows q h rs m in
    let same : (if q r then h r else r).id ≡ r.id = ground (arith, keeps_id r) in
    (r, n, e, ap (λ (x : ReleaseRequest). x.id) (sym e) ∙ same)

release_stays :
    (q : ReleaseRequest → Bool) (h : ReleaseRequest → ReleaseRequest)
    → ((r : ReleaseRequest) → (h r).id ≡ r.id)
    → (rs : List ReleaseRequest) (r : ReleaseRequest) → Memᴰ r rs
    → (s : ReleaseRequest) × Memᴰ s (update_rows q h rs) × (s.id ≡ r.id)
release_stays q h keeps_id rs r m =
    let same : (if q r then h r else r).id ≡ r.id = ground (arith, keeps_id r) in
    (if q r then h r else r, mem-update_rows_of q h m, same)

one_row-update :
    (q : ReleaseRequest → Bool) (h : ReleaseRequest → ReleaseRequest)
    → ((r : ReleaseRequest) → (h r).id ≡ r.id)
    → (rs : List ReleaseRequest) → ((id : String) → count_rows (λ r. r.id == id) rs ≤ 1)
    → (id : String) → count_rows (λ r. r.id == id) (update_rows q h rs) ≤ 1
one_row-update q h keeps_id rs one id =
    rw (count_rows-update_rows q h (λ r. r.id == id) rs (λ r. ground (arith, keeps_id r))) (one id)

at_most_one : (b : Bool) → (if b then 1 else 0) ≤ 1
at_most_one b = ground arith

module _ (p : DeployRow → Bool) (g : DeployRow → DeployRow) (q : ReleaseRequest → Bool)
    (h : ReleaseRequest → ReleaseRequest) {ds : List DeployRow} {rs : List ReleaseRequest} where
  -- Both tables are updated, and the rows that belong together still agree.
  pub update-Coupled :
      KeepsDeploy g
      → ((r : ReleaseRequest) → (h r).id ≡ r.id)
      → Coupled ds rs
      → ((x : DeployRow) (r : ReleaseRequest)
          → Memᴰ x ds
          → Memᴰ r rs
          → r.id ≡ x.release_request_id
          → r.status ≡ release_status_of x.status
          → (if q r then h r else r).status ≡ release_status_of (if p x then g x else x).status)
      → Coupled (update_rows p g ds) (update_rows q h rs)
  update-Coupled keeps keeps_id c step =
      keys-update p g keeps c
        (λ x' r' mx mr e.
          let (x, m, ex, ix, rx) = deploy_origin p g keeps ds mx in
          let (r, n, er, ir) = release_origin q h keeps_id rs mr in
          let back : r.id ≡ x.release_request_id = sym ir ∙ (e ∙ rx) in
          ap (λ (s : ReleaseRequest). s.status) (sym er)
          ∙ (step x r m n back (c.agree x r m n back)
              ∙ ap (λ (y : DeployRow). release_status_of y.status) ex))
        (release_stays q h keeps_id rs) (one_row-update q h keeps_id rs c.one_row)

module _ (q : ReleaseRequest → Bool) (h : ReleaseRequest → ReleaseRequest) {ds : List DeployRow}
    {rs : List ReleaseRequest} where
  -- Only the releases are updated.
  pub update_releases-Coupled :
      ((r : ReleaseRequest) → (h r).id ≡ r.id)
      → Coupled ds rs
      → ((x : DeployRow) (r : ReleaseRequest)
          → Memᴰ x ds
          → Memᴰ r rs
          → r.id ≡ x.release_request_id
          → r.status ≡ release_status_of x.status
          → (if q r then h r else r).status ≡ release_status_of x.status)
      → Coupled ds (update_rows q h rs)
  update_releases-Coupled keeps_id c step = record {
    agree = λ x r' m mr e.
        let (r, n, er, ir) = release_origin q h keeps_id rs mr in
        let back : r.id ≡ x.release_request_id = sym ir ∙ e in
        ap (λ (s : ReleaseRequest). s.status) (sym er) ∙ step x r m n back (c.agree x r m n back);
    has_release = λ x m.
        let (r, n, e) = c.has_release x m in
        let (s, k, i) = release_stays q h keeps_id rs r n in (s, k, i ∙ e);
    one_row = one_row-update q h keeps_id rs c.one_row;
    one_deploy_row = c.one_deploy_row;
    one_record = c.one_record;
    one_release = c.one_release;
  }

module _ (p : DeployRow → Bool) (g : DeployRow → DeployRow) {ds : List DeployRow}
    {rs : List ReleaseRequest} where
  -- Only the deploys are updated.
  pub update_deploys-Coupled :
      KeepsDeploy g
      → Coupled ds rs
      → ((x : DeployRow) (r : ReleaseRequest)
          → Memᴰ x ds
          → Memᴰ r rs
          → r.id ≡ x.release_request_id
          → r.status ≡ release_status_of x.status
          → r.status ≡ release_status_of (if p x then g x else x).status)
      → Coupled (update_rows p g ds) rs
  update_deploys-Coupled keeps c step =
      keys-update p g keeps c
        (λ x' r mx mr e.
          let (x, m, ex, ix, rx) = deploy_origin p g keeps ds mx in
          step x r m mr (e ∙ rx) (c.agree x r m mr (e ∙ rx))
          ∙ ap (λ (y : DeployRow). release_status_of y.status) ex)
        (λ r m. (r, m, refl)) c.one_row

module _ {ds : List DeployRow} {rs : List ReleaseRequest} (c : Coupled ds rs) where
  -- A new release has an id that no other has.
  pub append_release-Coupled :
      (s : ReleaseRequest)
      → ((r : ReleaseRequest) → Memᴰ r rs → (r.id == s.id) ≡ false)
      → Coupled ds (rs ++ (s ∷ []))
  append_release-Coupled s fresh = record {
    one_row = λ id. elim (Bool-cases (s.id == id)) [
      | inl e ↦
          let none_there = count_rows-zero_of_mem (λ r. r.id == s.id) rs fresh in
          rw (← eq_of_== s.id id e) (
            omega (
              arith,
              count_rows-snoc (λ (r : ReleaseRequest). r.id == s.id) rs s,
              none_there,
              at_most_one (s.id == s.id),
            ))
      | inr e ↦ rw (count_rows-snoc, e) (omega (arith, c.one_row id))
    ];
    agree = λ x r m mr e. elim (mem-snoc rs mr) [
      | inl n ↦ c.agree x r m n e
      | inr n ↦
          let (r₀, n₀, e₀) = c.has_release x m in
          absurd (==-ne _ _ (fresh r₀ n₀) (e₀ ∙ (sym e ∙ ap (λ (t : ReleaseRequest). t.id) n)))
    ];
    has_release = λ x m. let (r, n, e) = c.has_release x m in (r, Memᴰ.append_left (s ∷ []) n, e);
    one_deploy_row = c.one_deploy_row;
    one_record = c.one_record;
    one_release = c.one_release;
  }

  -- A record joins for a release that has none, under an id that none has.
  pub append_deploy-Coupled :
      (y : DeployRow)
      → ((r : ReleaseRequest)
          → Memᴰ r rs
          → r.id ≡ y.release_request_id
          → r.status ≡ release_status_of y.status)
      → ((r : ReleaseRequest) × Memᴰ r rs × (r.id ≡ y.release_request_id))
      → ((x : DeployRow)
          → Memᴰ x ds
          → (x.id ≢ y.id) × (x.release_request_id ≢ y.release_request_id))
      → Coupled (ds ++ (y ∷ [])) rs
  append_deploy-Coupled y agrees owner fresh = record {
    one_row = c.one_row;
    one_deploy_row = λ id. elim (Bool-cases (y.id == id)) [
      | inl e ↦
          let none_there =
            count_rows-zero_of_mem (λ x. x.id == y.id) ds
              (λ x m. ==-false_of_ne x.id y.id (fresh x m).0) in
          rw (← eq_of_== y.id id e) (
            omega (
              arith,
              count_rows-snoc (λ (x : DeployRow). x.id == y.id) ds y,
              none_there,
              at_most_one (y.id == y.id),
            ))
      | inr e ↦ rw (count_rows-snoc, e) (omega (arith, c.one_deploy_row id))
    ];
    agree = λ x r m mr e. elim (mem-snoc ds m) [
      | inl n ↦ c.agree x r n mr e
      | inr same ↦
          agrees r mr (e ∙ ap (λ (t : DeployRow). t.release_request_id) same)
          ∙ ap (λ (t : DeployRow). release_status_of t.status) (sym same)
    ];
    has_release =
        λ x m. elim (mem-snoc ds m) [ inl n ↦ c.has_release x n | inr same ↦ rw same owner ];
    one_record = λ a b ma mb e. elim (mem-snoc ds ma) [
      | inl na ↦ elim (mem-snoc ds mb) [
        | inl nb ↦ c.one_record a b na nb e
        | inr sb ↦ absurd ((fresh a na).1 (cc (e, sb)))
      ]
      | inr sa ↦ elim (mem-snoc ds mb) [
        | inl nb ↦ absurd ((fresh b nb).1 (cc (e, sa)))
        | inr sb ↦ cc (sa, sb)
      ]
    ];
    one_release = λ a b ma mb e. elim (mem-snoc ds ma) [
      | inl na ↦ elim (mem-snoc ds mb) [
        | inl nb ↦ c.one_release a b na nb e
        | inr sb ↦ absurd ((fresh a na).0 (cc (e, sb)))
      ]
      | inr sa ↦ elim (mem-snoc ds mb) [
        | inl nb ↦ absurd ((fresh b nb).0 (cc (e, sa)))
        | inr sb ↦ cc (sa, sb)
      ]
    ];
  }
