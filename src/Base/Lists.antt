-- ===== src/Base/Lists.antt =====
-- Python's comprehensions and generators over lists, by Boolean tests, and membership.
use Prim.Native.Nat.{ℕ, suc, ◌+◌, ◌≤◌}
use mathlib.Core.Path.{◌≡◌, refl, ap, sym, subst}
use mathlib.Core.Logic.{◌⊎◌, inl, inr}
use mathlib.Core.Bool.{Bool, true, false, ◌&&◌, ◌||◌}
use mathlib.Core.Option.{Option, none, some}
use mathlib.Core.List.{List, [], ◌∷◌, ◌++◌, map}
use native.Mathlib.Omega.{arith}
use ecoroute_ht.Base.Tests.{if◌then◌else◌, Bool-cases}

module _ {ℓ} {A : Type ℓ} where
  abbrev pub length : List A → ℕ
  length [] = 0
  length (x ∷ xs) = suc (length xs)

  -- Every element satisfies `P`.
  abbrev pub All {κ} : (A → Type κ) → List A → Type κ
  All P [] = Unit
  All P (x ∷ xs) = P x × All P xs

  -- [x for x in xs if p(x)]
  unfoldable pub filter : (A → Bool) → List A → List A
  filter p [] = []
  filter p (x ∷ xs) = let rest = filter p xs in if p x then x ∷ rest else rest

  -- next((x for x in xs if p(x)), None)
  unfoldable pub find? : (A → Bool) → List A → Option A
  find? p [] = none
  find? p (x ∷ xs) = let rest = find? p xs in if p x then some x else rest

  unfoldable pub any : (A → Bool) → List A → Bool
  any p [] = false
  any p (x ∷ xs) = p x || any p xs

  unfoldable pub all : (A → Bool) → List A → Bool
  all p [] = true
  all p (x ∷ xs) = p x && all p xs

  pub length-append : (xs ys : List A) → length (xs ++ ys) ≡ length xs + length ys
  length-append [] ys = omega arith
  length-append (x ∷ xs) ys = omega (arith, length-append xs ys)

  pub length-filter-le : (p : A → Bool) (xs : List A) → length (filter p xs) ≤ length xs
  unfolding filter
  length-filter-le p [] = omega arith
  length-filter-le p (x ∷ xs) = ground (arith, length-filter-le p xs)

  pub All-weaken {κ μ} :
      (P : A → Type κ) (Q : A → Type μ)
      → ((x : A) → P x → Q x)
      → (xs : List A) → All P xs
      → All Q xs
  All-weaken P Q f [] h = tt
  All-weaken P Q f (x ∷ xs) h = (f x h.0, All-weaken P Q f xs h.1)

  pub All-append {κ} : (P : A → Type κ) (xs ys : List A) → All P xs → All P ys → All P (xs ++ ys)
  All-append P [] ys h k = k
  All-append P (x ∷ xs) ys h k = (h.0, All-append P xs ys h.1 k)

pub length-map {ℓ κ} :
    {A : Type ℓ} {B : Type κ} (f : A → B) (xs : List A) → length (map f xs) ≡ length xs
length-map f [] = refl
length-map f (x ∷ xs) = ap suc (length-map f xs)

module _ {A : Type 0} where
  -- `x in xs`
  abbrev pub Member : A → List A → Type 0
  Member x [] = ⊥
  Member x (y ∷ ys) = (x ≡ y) ⊎ Member x ys

  pub Member-append_right : (x : A) (xs ys : List A) → Member x ys → Member x (xs ++ ys)
  Member-append_right x [] ys m = m
  Member-append_right x (y ∷ xs) ys m = inr (Member-append_right x xs ys m)

  pub Member-append_left : (x : A) (xs ys : List A) → Member x xs → Member x (xs ++ ys)
  Member-append_left x (y ∷ xs) ys (inl e) = inl e
  Member-append_left x (y ∷ xs) ys (inr m) = inr (Member-append_left x xs ys m)
  Member-append_left x [] ys m = absurd m

  pub Member-append : (x : A) (xs ys : List A) → Member x (xs ++ ys) → Member x xs ⊎ Member x ys
  Member-append x [] ys m = inr m
  Member-append x (y ∷ xs) ys (inl e) = inl (inl e)
  Member-append x (y ∷ xs) ys (inr m) = elim (Member-append x xs ys m) [
    | inl k ↦ inl (inr k)
    | inr k ↦ inr k
  ]

  pub All-Member {κ} : (P : A → Type κ) (x : A) (xs : List A) → All P xs → Member x xs → P x
  All-Member P x (y ∷ ys) h (inl e) = subst P (sym e) h.0
  All-Member P x (y ∷ ys) h (inr m) = All-Member P x ys h.1 m
  All-Member P x [] h m = absurd m

  pub All-of_Member {κ} : (P : A → Type κ) (xs : List A) → ((x : A) → Member x xs → P x) → All P xs
  All-of_Member P [] f = tt
  All-of_Member P (y ∷ ys) f = (f y (inl refl), All-of_Member P ys (λ x m. f x (inr m)))

  module _ (p : A → Bool) where
    pub Member-filter : (x : A) (xs : List A) → Member x (filter p xs) → Member x xs × (p x ≡ true)
    unfolding filter
    Member-filter x [] m = absurd m
    Member-filter x (y ∷ ys) m = ground (arith, Member-filter x ys)

    pub filter-Member : (x : A) (xs : List A) → Member x xs → p x ≡ true → Member x (filter p xs)
    unfolding filter
    filter-Member x [] m t = absurd m
    filter-Member x (y ∷ ys) m t = ground (arith, filter-Member x ys)

    pub find?-Member : (x : A) (xs : List A) → find? p xs ≡ some x → Member x xs × (p x ≡ true)
    unfolding find?
    find?-Member x [] e = cc
    find?-Member x (y ∷ ys) e = ground (arith, find?-Member x ys)

    pub find?-none : (x : A) (xs : List A) → find? p xs ≡ none → Member x xs → p x ≡ false
    unfolding find?
    find?-none x [] e m = absurd m
    find?-none x (y ∷ ys) e m = ground (arith, find?-none x ys)

    pub any-false : (x : A) (xs : List A) → any p xs ≡ false → Member x xs → p x ≡ false
    unfolding any
    any-false x [] e m = absurd m
    any-false x (y ∷ ys) e m = ground (arith, any-false x ys)

    pub any-true : (x : A) (xs : List A) → Member x xs → p x ≡ true → any p xs ≡ true
    unfolding any
    any-true x [] m t = absurd m
    any-true x (y ∷ ys) m t = ground (arith, any-true x ys)

    pub any-Member : (xs : List A) → any p xs ≡ true → (x : A) × Member x xs × (p x ≡ true)
    unfolding any
    any-Member [] e = cc
    any-Member (y ∷ ys) e = elim (Bool-cases (p y)) [
      | inl t ↦ (y, inl refl, t)
      | inr f ↦ let (x, m, t) = any-Member ys (ground arith) in (x, inr m, t)
    ]

pub Member-map :
    {A B : Type 0} (f : A → B) (x : A) (xs : List A) → Member x xs → Member (f x) (map f xs)
Member-map f x (y ∷ ys) (inl e) = inl (ap f e)
Member-map f x (y ∷ ys) (inr m) = inr (Member-map f x ys m)
Member-map f x [] m = absurd m

-- A list with an element is not empty.
pub Member-ne-nil : {A : Type 0} (x : A) (xs : List A) → Member x xs → ¬ (xs ≡ [])
Member-ne-nil x xs m e = subst (Member x) e m
