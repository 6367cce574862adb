-- ===== src/Base/Keys.antt =====
-- Tables in which a column is a key: two rows with the same value there are the same row.
use mathlib.Core.Path.{◌≡◌, refl, sym, ap, ◌∙◌}
use mathlib.Core.Logic.{inl, inr}
use mathlib.Core.Bool.{Bool, false}
use mathlib.Core.List.{List, [], ◌∷◌, ◌++◌, Memᴰ}
use native.Mathlib.Omega.{arith}
use Prim.Native.String.{String}
use text.Mathlib.TextEquality.{eq_iff}
use ai_pub.Base.Tests.{◌==◌, if◌then◌else◌, Bool-cases}
use ai_pub.Base.Rows.{
  update_rows, delete_rows, exists_row, mem-snoc, mem-update_rows, mem-delete_rows,
  exists_row-false,
}

module _ {A : Type 0} (f : A → String) where
  abbrev pub Keyed : List A → Type 0
  Keyed ls = (x y : A) → Memᴰ x ls → Memᴰ y ls → f x ≡ f y → x ≡ y

  -- An INSERT that the key's constraint allows.
  pub Keyed-snoc :
      (ls : List A) (y : A)
      → exists_row (λ x. f x == f y) ls ≡ false
      → Keyed ls
      → Keyed (ls ++ (y ∷ []))
  Keyed-snoc ls y fresh h a b m n e = elim (mem-snoc ls m) [
    | inl m' ↦ elim (mem-snoc ls n) [
      | inl n' ↦ h a b m' n' e
      | inr q ↦ absurd (clash a m' (e ∙ ap f q))
    ]
    | inr p ↦ elim (mem-snoc ls n) [
      | inl n' ↦ absurd (clash b n' (sym e ∙ ap f p))
      | inr q ↦ p ∙ sym q
    ]
  ]
    where
      clash : (x : A) → Memᴰ x ls → f x ≡ f y → ⊥
      clash x m e =
          ground (arith, exists_row-false (λ x. f x == f y) ls fresh m, eq_iff (f x) (f y))

  -- An UPDATE that leaves the key alone.
  pub Keyed-update_rows :
      (p : A → Bool) (g : A → A) (ls : List A)
      → ((x : A) → f (g x) ≡ f x)
      → Keyed ls
      → Keyed (update_rows p g ls)
  Keyed-update_rows p g ls same h a b m n e =
      let (x, m', q) = mem-update_rows p g ls m in
      let (y, n', r) = mem-update_rows p g ls n in
      let one = h x y m' n' (sym (kept x) ∙ (ap f q ∙ (e ∙ (sym (ap f r) ∙ kept y)))) in
      sym q ∙ (ap (λ z. if p z then g z else z) one ∙ r)
    where
      kept : (x : A) → f (if p x then g x else x) ≡ f x
      kept x = elim (Bool-cases (p x)) [ inl t ↦ rw t (same x) | inr t ↦ rw t refl ]

  pub Keyed-delete_rows : (p : A → Bool) (ls : List A) → Keyed ls → Keyed (delete_rows p ls)
  Keyed-delete_rows p ls h a b m n e = h a b (mem-delete_rows p ls m).0 (mem-delete_rows p ls n).0 e
