-- ===== src/Base/Columns.antt =====
-- The columns of a table: what is read of each of its rows.
use mathlib.Core.Path.{◌≡◌, refl, ap}
use mathlib.Core.Bool.{Bool, true}
use mathlib.Core.Logic.{inl, inr}
use mathlib.Core.List.{List, [], ◌∷◌, map, Memᴰ}
use ai_pub.Base.Tests.{Bool-cases}
use ai_pub.Base.Rows.{update_rows}

module _ {A B : Type 0} (column : A → B) where
  -- An UPDATE that leaves the column alone.
  pub map-update_rows :
      (p : A → Bool) (g : A → A) (xs : List A)
      → ((x : A) → p x ≡ true → column (g x) ≡ column x)
      → map column (update_rows p g xs) ≡ map column xs
  unfolding update_rows
  map-update_rows p g [] same = refl
  map-update_rows p g (x ∷ xs) same =
      let rest = map-update_rows p g xs same in
      elim (Bool-cases (p x)) [
        | inl t ↦ rw (t, same x t) (ap (λ (ys : List B). column x ∷ ys) rest)
        | inr f ↦ rw f (ap (λ (ys : List B). column x ∷ ys) rest)
      ]

  -- Two columns that agree on the rows of a table.
  pub map_congr :
      (other : A → B) (xs : List A)
      → ((x : A) → Memᴰ x xs → column x ≡ other x)
      → map column xs ≡ map other xs
  map_congr other [] same = refl
  map_congr other (x ∷ xs) same =
      rw (same x (Memᴰ.head refl))
        (ap (λ (ys : List B). other x ∷ ys) (map_congr other xs (λ y m. same y (Memᴰ.tail m))))
