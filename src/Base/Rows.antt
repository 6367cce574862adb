-- ===== src/Base/Rows.antt =====
-- A table is the list of its rows, and a statement's `WHERE` is a Boolean test on a row.
use Prim.Native.Nat.{ℕ, suc, ◌+◌, ◌≤◌, ◌<◌}
use mathlib.Core.Path.{◌≡◌, refl, sym, ap, ◌∙◌}
use mathlib.Core.Bool.{Bool, true, false, ◌||◌}
use mathlib.Core.Logic.{◌⊎◌, inl, inr}
use mathlib.Core.Option.{Option, none, some}
use mathlib.Core.List.{List, [], ◌∷◌, ◌++◌, map, Memᴰ}
use mathlib.Core.List.Memᴰ
use native.Mathlib.Omega.{arith}
use ai_pub.Base.Tests.{if◌then◌else◌, Bool-cases, Option-cases}

module _ {ℓ} {A : Type ℓ} where
  -- SELECT … WHERE p, the first row
  unfoldable pub find_row : (A → Bool) → List A → Option A
  find_row p [] = none
  find_row p (x ∷ xs) = if p x then some x else find_row p xs

  -- SELECT … WHERE p
  unfoldable pub rows_where : (A → Bool) → List A → List A
  rows_where p [] = []
  rows_where p (x ∷ xs) = let rest = rows_where p xs in if p x then x ∷ rest else rest

  -- EXISTS (SELECT 1 … WHERE p)
  unfoldable pub exists_row : (A → Bool) → List A → Bool
  exists_row p [] = false
  exists_row p (x ∷ xs) = p x || exists_row p xs

  -- SELECT COUNT(*) … WHERE p, and the rows affected by an UPDATE … WHERE p
  unfoldable pub count_rows : (A → Bool) → List A → ℕ
  count_rows p [] = 0
  count_rows p (x ∷ xs) = let rest = count_rows p xs in if p x then suc rest else rest

  -- UPDATE … SET g WHERE p
  unfoldable pub update_rows : (A → Bool) → (A → A) → List A → List A
  update_rows p g xs = map (λ x. if p x then g x else x) xs

  -- DELETE … WHERE p
  unfoldable pub delete_rows : (A → Bool) → List A → List A
  delete_rows p [] = []
  delete_rows p (x ∷ xs) = let rest = delete_rows p xs in if p x then rest else x ∷ rest

  -- ORDER BY before … LIMIT 1: the first row that no later row comes before.
  unfoldable pub first_row : (A → A → Bool) → List A → Option A
  first_row before [] = none
  first_row before (x ∷ xs) = elim (first_row before xs) [
    | none ↦ some x
    | some y ↦ if before y x then some y else some x
  ]

  -- ORDER BY before
  insert_row : (A → A → Bool) → A → List A → List A
  insert_row before x [] = x ∷ []
  insert_row before x (y ∷ ys) = if before y x then y ∷ insert_row before x ys else x ∷ y ∷ ys

  unfoldable pub sort_rows : (A → A → Bool) → List A → List A
  unfolding insert_row
  sort_rows before [] = []
  sort_rows before (x ∷ xs) = insert_row before x (sort_rows before xs)

  pub mem-update_rows :
      (p : A → Bool) (g : A → A) (xs : List A) {y : A}
      → Memᴰ y (update_rows p g xs)
      → (x : A) × Memᴰ x xs × ((if p x then g x else x) ≡ y)
  unfolding update_rows
  mem-update_rows p g xs m = Memᴰ.of_map (λ x. if p x then g x else x) xs m

  pub mem-update_rows_of :
      (p : A → Bool) (g : A → A) {xs : List A} {x : A}
      → Memᴰ x xs
      → Memᴰ (if p x then g x else x) (update_rows p g xs)
  unfolding update_rows
  mem-update_rows_of p g m = Memᴰ.map (λ x. if p x then g x else x) m

  pub mem-update_rows_hit :
      (p : A → Bool) (g : A → A) {xs : List A} {x : A}
      → Memᴰ x xs
      → p x ≡ true
      → Memᴰ (g x) (update_rows p g xs)
  mem-update_rows_hit p g m t = rw t at (mem-update_rows_of p g m)

  pub mem-update_rows_kept :
      (p : A → Bool) (g : A → A) {xs : List A} {x : A}
      → Memᴰ x xs
      → p x ≡ false
      → Memᴰ x (update_rows p g xs)
  mem-update_rows_kept p g m t = rw t at (mem-update_rows_of p g m)

  -- A row of a table to which `y` was inserted.
  pub mem-snoc : (xs : List A) {x y : A} → Memᴰ x (xs ++ (y ∷ [])) → Memᴰ x xs ⊎ (x ≡ y)
  mem-snoc xs m = elim (Memᴰ.append_cases xs m) [
    | inl n ↦ inl n
    | inr n ↦ inr (Memᴰ.eq_of_singleton n)
  ]

  pub mem-find_row :
      (p : A → Bool) (xs : List A) {x : A} → find_row p xs ≡ some x → Memᴰ x xs × (p x ≡ true)
  unfolding find_row
  mem-find_row p [] h = cc
  mem-find_row p (y ∷ xs) {x} h = elim (Bool-cases (p y)) [
    | inl e ↦ (Memᴰ.head (ground arith), ground arith)
    | inr e ↦ let (m, t) = mem-find_row p xs (ground arith) in (Memᴰ.tail m, t)
  ]

  pub find_row-none :
      (p : A → Bool) (xs : List A) {x : A} → find_row p xs ≡ none → Memᴰ x xs → p x ≡ false
  unfolding find_row
  find_row-none p [] h m = elim m [ ]
  find_row-none p (y ∷ xs) h (Memᴰ.head e) = ground arith
  find_row-none p (y ∷ xs) h (Memᴰ.tail m) = find_row-none p xs (ground arith) m

  pub find_row-none_of_exists :
      (p : A → Bool) (xs : List A) → exists_row p xs ≡ false → find_row p xs ≡ none
  unfolding find_row exists_row
  find_row-none_of_exists p [] h = refl
  find_row-none_of_exists p (x ∷ xs) h = ground (arith, find_row-none_of_exists p xs)

  -- The row that was inserted is found where no other was.
  pub find_row-snoc :
      (p : A → Bool) (xs : List A) (y : A)
      → exists_row p xs ≡ false
      → p y ≡ true
      → find_row p (xs ++ (y ∷ [])) ≡ some y
  unfolding find_row exists_row
  find_row-snoc p [] y h t = ground arith
  find_row-snoc p (x ∷ xs) y h t = ground (arith, find_row-snoc p xs y)

  -- An element of a list that got `y` in front of it when the test held.
  mem-keep :
      (b : Bool) (y : A) (rest : List A) {x : A}
      → Memᴰ x (if b then y ∷ rest else rest)
      → ((b ≡ true) × (x ≡ y)) ⊎ Memᴰ x rest
  mem-keep true y rest (Memᴰ.head e) = inl (refl, e)
  mem-keep true y rest (Memᴰ.tail m) = inr m
  mem-keep false y rest m = inr m

  pub mem-rows_where :
      (p : A → Bool) (xs : List A) {x : A} → Memᴰ x (rows_where p xs) → Memᴰ x xs × (p x ≡ true)
  unfolding rows_where
  mem-rows_where p [] m = elim m [ ]
  mem-rows_where p (y ∷ xs) m = elim (mem-keep (p y) y (rows_where p xs) m) [
    | inl (t, e) ↦ (Memᴰ.head e, ap p e ∙ t)
    | inr k ↦ let (n, t) = mem-rows_where p xs k in (Memᴰ.tail n, t)
  ]

  pub mem-rows_where_of :
      (p : A → Bool) (xs : List A) {x : A} → Memᴰ x xs → p x ≡ true → Memᴰ x (rows_where p xs)
  unfolding rows_where
  mem-rows_where_of p [] m t = elim m [ ]
  mem-rows_where_of p (y ∷ xs) (Memᴰ.head e) t = rw (sym (ap p e) ∙ t) (Memᴰ.head e)
  mem-rows_where_of p (y ∷ xs) (Memᴰ.tail m) t = elim (Bool-cases (p y)) [
    | inl e ↦ rw e (Memᴰ.tail (mem-rows_where_of p xs m t))
    | inr e ↦ rw e (mem-rows_where_of p xs m t)
  ]

  pub mem-delete_rows :
      (p : A → Bool) (xs : List A) {x : A} → Memᴰ x (delete_rows p xs) → Memᴰ x xs × (p x ≡ false)
  unfolding delete_rows
  mem-delete_rows p [] m = elim m [ ]
  mem-delete_rows p (y ∷ xs) {x} m = elim (Bool-cases (p y)) [
    | inl e ↦ let (n, t) = mem-delete_rows p xs (rw e at m) in (Memᴰ.tail n, t)
    | inr e ↦ elim (Memᴰ.cases_cons (rw e at m)) [
      | inl q ↦ (Memᴰ.head q, ap p q ∙ e)
      | inr k ↦ let (n, t) = mem-delete_rows p xs k in (Memᴰ.tail n, t)
    ]
  ]

  pub mem-delete_rows_of :
      (p : A → Bool) (xs : List A) {x : A} → Memᴰ x xs → p x ≡ false → Memᴰ x (delete_rows p xs)
  unfolding delete_rows
  mem-delete_rows_of p [] m t = elim m [ ]
  mem-delete_rows_of p (y ∷ xs) (Memᴰ.head e) t = rw (sym (ap p e) ∙ t) (Memᴰ.head e)
  mem-delete_rows_of p (y ∷ xs) (Memᴰ.tail m) t = elim (Bool-cases (p y)) [
    | inl e ↦ rw e (mem-delete_rows_of p xs m t)
    | inr e ↦ rw e (Memᴰ.tail (mem-delete_rows_of p xs m t))
  ]

  pub exists_row-false :
      (p : A → Bool) (xs : List A) {x : A} → exists_row p xs ≡ false → Memᴰ x xs → p x ≡ false
  unfolding exists_row
  exists_row-false p [] h m = elim m [ ]
  exists_row-false p (y ∷ xs) h (Memᴰ.head e) = ground arith
  exists_row-false p (y ∷ xs) h (Memᴰ.tail m) = exists_row-false p xs (ground arith) m

  -- Some row was affected, so some row passes the test.
  pub count_rows-pos :
      (p : A → Bool) (xs : List A) → 0 < count_rows p xs → (x : A) × Memᴰ x xs × (p x ≡ true)
  unfolding count_rows
  count_rows-pos p [] h = absurd (omega arith)
  count_rows-pos p (y ∷ xs) h = elim (Bool-cases (p y)) [
    | inl e ↦ (y, Memᴰ.head refl, e)
    | inr e ↦ let (x, m, t) = count_rows-pos p xs (ground arith) in (x, Memᴰ.tail m, t)
  ]

  pub count_rows-zero :
      (p : A → Bool) (xs : List A) {x : A} → count_rows p xs ≡ 0 → Memᴰ x xs → p x ≡ false
  unfolding count_rows
  count_rows-zero p [] h m = elim m [ ]
  count_rows-zero p (y ∷ xs) h (Memᴰ.head e) = ground arith
  count_rows-zero p (y ∷ xs) h (Memᴰ.tail m) = count_rows-zero p xs (ground arith) m

  pub count_rows-pos_of_mem :
      (p : A → Bool) (xs : List A) {x : A} → Memᴰ x xs → p x ≡ true → 0 < count_rows p xs
  count_rows-pos_of_mem p xs m t =
      ground (arith, λ (e : count_rows p xs ≡ 0). count_rows-zero p xs e m)

  pub mem-first_row :
      (before : A → A → Bool) (xs : List A) {x : A} → first_row before xs ≡ some x → Memᴰ x xs
  unfolding first_row
  mem-first_row before [] h = cc
  mem-first_row before (y ∷ xs) {x} h = elim (Option-cases (first_row before xs)) [
    | inl e ↦ Memᴰ.head (ground arith)
    | inr (z, e) ↦ elim (Bool-cases (before z y)) [
      | inl t ↦ Memᴰ.tail (mem-first_row before xs (ground arith))
      | inr t ↦ Memᴰ.head (ground arith)
    ]
  ]

  -- A table with a row has a first one.
  pub first_row-none :
      (before : A → A → Bool) (xs : List A) {x : A} → first_row before xs ≡ none → Memᴰ x xs → ⊥
  unfolding first_row
  first_row-none before [] h m = elim m [ ]
  first_row-none before (z ∷ zs) h m = elim (Option-cases (first_row before zs)) [
    | inl e ↦ absurd (ground arith)
    | inr (w, e) ↦ elim (Bool-cases (before w z)) [
      | inl t ↦ absurd (ground arith)
      | inr t ↦ absurd (ground arith)
    ]
  ]

  -- The first row by an order is least by what the order compares.
  pub first_row-least :
      (before : A → A → Bool) (f : A → ℕ)
      → ((x y : A) → before x y ≡ true → f x ≤ f y)
      → ((x y : A) → before x y ≡ false → f y ≤ f x)
      → (xs : List A) {y x : A} → first_row before xs ≡ some y
      → Memᴰ x xs
      → f y ≤ f x
  unfolding first_row
  first_row-least before f lo hi [] h m = elim m [ ]
  first_row-least before f lo hi (z ∷ zs) {y} {x} h m = elim (Option-cases (first_row before zs)) [
    | inl e ↦ elim (Memᴰ.cases_cons m) [
      | inl q ↦ ground arith
      | inr n ↦ absurd (first_row-none before zs e n)
    ]
    | inr (w, e) ↦ elim (Bool-cases (before w z)) [
      | inl t ↦ elim (Memᴰ.cases_cons m) [
        | inl q ↦ ground (arith, lo w z t)
        | inr n ↦ ground (arith, first_row-least before f lo hi zs e n)
      ]
      | inr t ↦ elim (Memᴰ.cases_cons m) [
        | inl q ↦ ground arith
        | inr n ↦ ground (arith, hi w z t, first_row-least before f lo hi zs e n)
      ]
    ]
  ]

  -- An UPDATE that no row matches changes nothing.
  pub update_rows-none :
      (p : A → Bool) (g : A → A) (xs : List A)
      → ((x : A) → Memᴰ x xs → p x ≡ false)
      → update_rows p g xs ≡ xs
  unfolding update_rows
  update_rows-none p g [] h = refl
  update_rows-none p g (x ∷ xs) h =
      rw (h x (Memᴰ.head refl))
        (ap (λ (ys : List A). x ∷ ys) (update_rows-none p g xs (λ y m. h y (Memᴰ.tail m))))

  pub count_rows-update_rows :
      (p : A → Bool) (g : A → A) (q : A → Bool) (xs : List A)
      → ((x : A) → q (if p x then g x else x) ≡ q x)
      → count_rows q (update_rows p g xs) ≡ count_rows q xs
  unfolding count_rows update_rows
  count_rows-update_rows p g q [] h = refl
  count_rows-update_rows p g q (x ∷ xs) h = ground (arith, h x, count_rows-update_rows p g q xs h)

  pub count_rows-snoc :
      (q : A → Bool) (xs : List A) (y : A)
      → count_rows q (xs ++ (y ∷ [])) ≡ count_rows q xs + (if q y then 1 else 0)
  unfolding count_rows
  count_rows-snoc q [] y = ground arith
  count_rows-snoc q (x ∷ xs) y = ground (arith, count_rows-snoc q xs y)

  pub count_rows-le :
      (p q : A → Bool) (xs : List A)
      → ((x : A) → p x ≡ true → q x ≡ true)
      → count_rows p xs ≤ count_rows q xs
  unfolding count_rows
  count_rows-le p q [] h = omega arith
  count_rows-le p q (x ∷ xs) h = ground (arith, h x, count_rows-le p q xs h)

  pub count_rows-zero_of_mem :
      (q : A → Bool) (xs : List A) → ((x : A) → Memᴰ x xs → q x ≡ false) → count_rows q xs ≡ 0
  unfolding count_rows
  count_rows-zero_of_mem q [] h = refl
  count_rows-zero_of_mem q (x ∷ xs) h =
      let rest = count_rows-zero_of_mem q xs (λ y m. h y (Memᴰ.tail m)) in
      ground (arith, h x (Memᴰ.head refl), rest)

  -- Where as many rows pass the narrower test, the wider one adds none.
  pub count_rows-full :
      (p q : A → Bool) (xs : List A)
      → ((x : A) → p x ≡ true → q x ≡ true)
      → count_rows q xs ≤ count_rows p xs
      → {x : A} → Memᴰ x xs
      → q x ≡ true
      → p x ≡ true
  unfolding count_rows
  count_rows-full p q [] sub h m t = elim m [ ]
  count_rows-full p q (y ∷ xs) sub h {x} (Memᴰ.head e) t =
      let fewer = count_rows-le p q xs sub in
      let ty : q y ≡ true = sym (ap q e) ∙ t in ap p e ∙ ground arith
  count_rows-full p q (y ∷ xs) sub h (Memᴰ.tail m) t =
      let fewer = count_rows-le p q xs sub in count_rows-full p q xs sub (ground (arith, sub y)) m t
