-- ===== src/Repository/Queue.antt =====
-- The queue (internal/repository/deploy.go): which record a claim takes.
use ai_pub.Base.{
  ◌≡◌, true, false, ◌≤◌, Memᴰ, none, some, arith, inl, inr, mem-first_row, first_row-least,
  first_row-none, mem-rows_where, mem-rows_where_of, Bool-cases,
}
use ai_pub.Database.{Db, DeployRow}
use ai_pub.Repository.Claim.{claimable, older, next_deploy}

older-le : (x y : DeployRow) → older x y ≡ true → x.created_at ≤ y.created_at
unfolding older
older-le x y h = ground arith

not_older-le : (x y : DeployRow) → older x y ≡ false → y.created_at ≤ x.created_at
unfolding older
not_older-le x y h = ground arith

-- The record that a claim takes is claimable: queued, its release queued in an environment that is
-- not frozen, and no target of it held by a running record; and no claimable record was created
-- before it.
pub next_deploy-oldest :
    (d : Db) (row : DeployRow)
    → next_deploy d ≡ some row
    → Memᴰ row d.deploys
      × (claimable d row ≡ true)
      × ((x : DeployRow) → Memᴰ x d.deploys → claimable d x ≡ true → row.created_at ≤ x.created_at)
unfolding next_deploy
next_deploy-oldest d row e =
    let chosen = mem-rows_where (claimable d) d.deploys (mem-first_row _ _ e) in
    (
      chosen.0,
      chosen.1,
      λ x m t.
          first_row-least older (λ r. r.created_at) older-le not_older-le _ e
            (mem-rows_where_of (claimable d) d.deploys m t),
    )

-- A claim finds no record only when none is claimable.
pub next_deploy-none :
    (d : Db) (x : DeployRow) → next_deploy d ≡ none → Memᴰ x d.deploys → claimable d x ≡ false
unfolding next_deploy
next_deploy-none d x e m = elim (Bool-cases (claimable d x)) [
  | inl t ↦ absurd (first_row-none _ _ e (mem-rows_where_of (claimable d) d.deploys m t))
  | inr t ↦ t
]
