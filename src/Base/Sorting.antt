-- ===== src/Base/Sorting.antt =====
-- Python's `min(xs, key=...)` and `sorted(xs, key=...)[0]`, by a strict test `before x y` on keys.
use mathlib.Core.Path.{◌≡◌, refl}
use mathlib.Core.Logic.{◌⊎◌, inl}
use mathlib.Core.Bool.{Bool, true, false}
use mathlib.Core.List.{List, [], ◌∷◌}
use native.Mathlib.Omega.{arith}
use ecoroute_ht.Base.Tests.{if◌then◌else◌}
use ecoroute_ht.Base.Lists.{Member, filter, length}
use Prim.Native.Nat.{suc}

-- The first of the smallest elements of `x ∷ xs`, as both of Python's functions are stable.
unfoldable pub min_by {ℓ} : {A : Type ℓ} → (A → A → Bool) → A → List A → A
min_by before x [] = x
min_by before x (y ∷ ys) = let m = min_by before y ys in if before m x then m else x

-- `before` is a strict order that is total up to ties.
pub record IsStrictWeak {ℓ} {A : Type ℓ} (before : A → A → Bool) : Type ℓ where
  pub irreflexive : (x : A) → before x x ≡ false
  pub asymmetric : (x y : A) → before x y ≡ true → before y x ≡ false
  pub negative_transitive :
      (x y z : A) → before x y ≡ false → before y z ≡ false → before x z ≡ false

module _ {A : Type 0} (before : A → A → Bool) where
  pub min_by-Member : (x : A) (xs : List A) → Member (min_by before x xs) (x ∷ xs)
  unfolding min_by
  min_by-Member x [] = inl refl
  min_by-Member x (y ∷ ys) = ground (arith, min_by-Member y ys)

  -- No element comes before the minimum.
  pub min_by_least :
      IsStrictWeak before
      → (x : A) (xs : List A) (z : A) → Member z (x ∷ xs)
      → before z (min_by before x xs) ≡ false
  unfolding min_by
  min_by_least w x [] z m = ground (arith, w.irreflexive x)
  min_by_least w x (y ∷ ys) z m = ground (
    arith,
    min_by_least w y ys z,
    w.irreflexive x,
    w.asymmetric (min_by before y ys) x,
    w.negative_transitive z (min_by before y ys) x,
  )

-- `sorted(xs, key=...)` and ORDER BY, as a stable insertion sort.
module _ {ℓ} {A : Type ℓ} (before : A → A → Bool) where
  insert_sorted : A → List A → List A
  insert_sorted x [] = x ∷ []
  insert_sorted x (y ∷ ys) =
      let rest = insert_sorted x ys in if before y x then y ∷ rest else x ∷ y ∷ ys

  unfoldable pub sort_by : List A → List A
  unfolding insert_sorted
  sort_by [] = []
  sort_by (x ∷ xs) = insert_sorted x (sort_by xs)

module _ {A : Type 0} (before : A → A → Bool) where
  Member-insert_sorted :
      (z x : A) (ys : List A) → Member z (insert_sorted before x ys) → (z ≡ x) ⊎ Member z ys
  unfolding insert_sorted
  Member-insert_sorted z x [] m = m
  Member-insert_sorted z x (y ∷ ys) m = ground (arith, Member-insert_sorted z x ys)

  pub Member-sort_by : (z : A) (xs : List A) → Member z (sort_by before xs) → Member z xs
  unfolding sort_by
  Member-sort_by z [] m = m
  Member-sort_by z (x ∷ xs) m =
      ground (arith, Member-insert_sorted z x (sort_by before xs), Member-sort_by z xs)

  length-filter-insert_sorted :
      (p : A → Bool) (x : A) (ys : List A)
      → length (filter p (insert_sorted before x ys)) ≡ length (filter p (x ∷ ys))
  unfolding insert_sorted filter
  length-filter-insert_sorted p x [] = refl
  length-filter-insert_sorted p x (y ∷ ys) = ground (arith, length-filter-insert_sorted p x ys)

  -- A test counts as many elements of a sorted list as of the list.
  pub length-filter-sort_by :
      (p : A → Bool) (xs : List A) → length (filter p (sort_by before xs)) ≡ length (filter p xs)
  unfolding sort_by filter
  length-filter-sort_by p [] = refl
  length-filter-sort_by p (x ∷ xs) =
      ground
        (arith, length-filter-insert_sorted p x (sort_by before xs), length-filter-sort_by p xs)

  length-insert_sorted :
      (x : A) (ys : List A) → length (insert_sorted before x ys) ≡ suc (length ys)
  unfolding insert_sorted
  length-insert_sorted x [] = refl
  length-insert_sorted x (y ∷ ys) = ground (arith, length-insert_sorted x ys)

  pub length-sort_by : (xs : List A) → length (sort_by before xs) ≡ length xs
  unfolding sort_by
  length-sort_by [] = refl
  length-sort_by (x ∷ xs) =
      ground (arith, length-insert_sorted x (sort_by before xs), length-sort_by xs)
