-- ===== src/Prelude/Sort.antt =====
-- A stable insertion sort: Python's `sorted` and SQL's `ORDER BY`.
use mathlib.Core.Bool.{Bool, true, false, ◌||◌}
use mathlib.Core.Logic.{inl, inr}
use mathlib.Core.Path.{◌≡◌, refl, ap, ◌∙◌}
use native.Mathlib.Omega.{arith}
use mathlib.Core.List.{List, [], ◌∷◌}
use claude_swarm.Prelude.Tests.{Comparable, ◌==◌, if◌then◌else◌, Bool-cases}
use claude_swarm.Prelude.Lists.{All, All-map, AllDifferent, contains}

module _ {ℓ} {A : Type ℓ} where
  unfoldable pub insert_by : (A → A → Bool) → A → List A → List A
  insert_by le a [] = a ∷ []
  insert_by le a (x ∷ xs) = if le a x then a ∷ x ∷ xs else x ∷ insert_by le a xs

  unfoldable pub sort_by : (A → A → Bool) → List A → List A
  unfolding insert_by
  sort_by le [] = []
  sort_by le (x ∷ xs) = insert_by le x (sort_by le xs)

module _ {ℓ κ} {A : Type ℓ} (P : A → Type κ) (le : A → A → Bool) where
  All-insert_by : (a : A) (xs : List A) → P a → All P xs → All P (insert_by le a xs)
  unfolding insert_by
  All-insert_by a [] h hs = (h, tt)
  All-insert_by a (x ∷ xs) h hs = elim (Bool-cases (le a x)) [
    | inl e ↦ rw e (h, hs)
    | inr e ↦ rw e (hs.0, All-insert_by a xs h hs.1)
  ]

  All-of_insert_by : (a : A) (xs : List A) → All P (insert_by le a xs) → P a × All P xs
  unfolding insert_by
  All-of_insert_by a [] h = (h.0, tt)
  All-of_insert_by a (x ∷ xs) h = elim (Bool-cases (le a x)) [
    | inl e ↦ let g : All P (a ∷ x ∷ xs) = rw e at h in g
    | inr e ↦
        let g : All P (x ∷ insert_by le a xs) = rw e at h in
        let (ha, hxs) = All-of_insert_by a xs g.1 in (ha, (g.0, hxs))
  ]

  pub All-sort_by : (xs : List A) → All P xs → All P (sort_by le xs)
  unfolding sort_by
  All-sort_by [] h = tt
  All-sort_by (x ∷ xs) h = All-insert_by x (sort_by le xs) h.0 (All-sort_by xs h.1)

  pub All-of_sort_by : (xs : List A) → All P (sort_by le xs) → All P xs
  unfolding sort_by
  All-of_sort_by [] h = tt
  All-of_sort_by (x ∷ xs) h =
      let (hx, hxs) = All-of_insert_by x (sort_by le xs) h in (hx, All-of_sort_by xs hxs)

module _ {ℓ} {A : Type ℓ} (le : A → A → Bool) where
  abbrev pub Sorted : List A → Type ℓ
  Sorted [] = Unit
  Sorted (x ∷ xs) = All (λ y. le x y ≡ true) xs × Sorted xs

  module _ (total : (a b : A) → le a b ≡ false → le b a ≡ true)
      (trans : (a b c : A) → le a b ≡ true → le b c ≡ true → le a c ≡ true) where
    insert_by-Sorted : (a : A) (xs : List A) → Sorted xs → Sorted (insert_by le a xs)
    unfolding insert_by
    insert_by-Sorted a [] s = (tt, tt)
    insert_by-Sorted a (x ∷ xs) s = elim (Bool-cases (le a x)) [
      | inl e ↦ rw e (
        (e, All-map (λ y. le x y ≡ true) (λ y. le a y ≡ true) (λ y h. trans a x y e h) xs s.0),
        s,
      )
      | inr e ↦
          rw e (
            All-insert_by (λ y. le x y ≡ true) le a xs (total a x e) s.0,
            insert_by-Sorted a xs s.1,
          )
    ]

    pub sort_by-Sorted : (xs : List A) → Sorted (sort_by le xs)
    unfolding sort_by
    sort_by-Sorted [] = tt
    sort_by-Sorted (x ∷ xs) = insert_by-Sorted x (sort_by le xs) (sort_by-Sorted xs)

module _ {ℓ} {A : Type ℓ} ⦃c : Comparable A⦄ (le : A → A → Bool) where
  contains-insert_by :
      (a x : A) (xs : List A) → contains a (insert_by le x xs) ≡ (x == a || contains a xs)
  unfolding insert_by
  contains-insert_by a x [] = refl
  contains-insert_by a x (y ∷ ys) = ground (arith, contains-insert_by a x ys)

  pub contains-sort_by : (a : A) (xs : List A) → contains a (sort_by le xs) ≡ contains a xs
  unfolding sort_by
  contains-sort_by a [] = refl
  contains-sort_by a (x ∷ xs) =
      contains-insert_by a x (sort_by le xs) ∙ ap (λ b. x == a || b) (contains-sort_by a xs)

  insert_by-AllDifferent :
      (a : A) (xs : List A)
      → contains a xs ≡ false
      → AllDifferent xs
      → AllDifferent (insert_by le a xs)
  unfolding insert_by
  insert_by-AllDifferent a [] h d = (refl, tt)
  insert_by-AllDifferent a (x ∷ xs) h d = elim (Bool-cases (le a x)) [
    | inl e ↦ rw e (h, d)
    | inr e ↦ rw e (
      ground (arith, contains-insert_by x a xs, c.same_iff a x, c.same_iff x a),
      insert_by-AllDifferent a xs (ground arith) d.1,
    )
  ]

  pub sort_by-AllDifferent : (xs : List A) → AllDifferent xs → AllDifferent (sort_by le xs)
  unfolding sort_by
  sort_by-AllDifferent [] d = tt
  sort_by-AllDifferent (x ∷ xs) d =
      insert_by-AllDifferent x (sort_by le xs) (contains-sort_by x xs ∙ d.0)
        (sort_by-AllDifferent xs d.1)
