-- ===== src/Safety/Luhn.antt =====
-- safety.py, `luhn_valid`. The digits are those of the text: `char.isdigit()` and `int(char)` of a
-- text that the pattern of a card matched are decimal digits, here numbers below 10.
use ecoroute_ht.Base.{
  ℕ, suc, ◌+◌, ◌-◌, ◌*◌, ◌%◌, ◌<◌, ◌≡◌, ◌≢◌, refl, inl, inr, Bool, true, false, not, ◌&&◌, ◌||◌,
  List, [], ◌∷◌, ◌++◌, arith, ltb, leb, ◌==◌, all, length, length-append, if◌then◌else◌, Bool-cases,
  ◌∙◌,
}

-- The weight of a digit: doubled, less 9 where the double has two digits.
unfoldable pub weigh : Bool → ℕ → ℕ
weigh doubled digit =
    if doubled then (if ltb 9 (digit * 2) then digit * 2 - 9 else digit * 2) else digit

-- The loop from `index` on, with the checksum so far.
unfoldable pub checksum : ℕ → ℕ → ℕ → List ℕ → ℕ
checksum parity index total [] = total
checksum parity index total (digit ∷ digits) =
    checksum parity (suc index) (total + weigh (index % 2 == parity) digit) digits

-- len(set(digits)) == 1
unfoldable pub all_same : List ℕ → Bool
all_same [] = false
all_same (d ∷ ds) = all (λ e. e == d) ds

unfoldable pub luhn_valid : List ℕ → Bool
unfolding checksum all_same
luhn_valid digits =
    if not (leb 13 (length digits) && leb (length digits) 19) || all_same digits
    then false
    else checksum (length digits % 2) 0 0 digits % 10 == 0

-- The checksum is the total so far and the weights of the digits.
weights : ℕ → ℕ → List ℕ → ℕ
weights parity index [] = 0
weights parity index (d ∷ ds) = weigh (index % 2 == parity) d + weights parity (suc index) ds

checksum-eq-weights :
    (parity index total : ℕ) (ds : List ℕ)
    → checksum parity index total ds ≡ total + weights parity index ds
unfolding checksum weights
checksum-eq-weights parity index total [] = omega arith
checksum-eq-weights parity index total (d ∷ ds) =
    omega (arith, checksum-eq-weights parity (suc index) (total + weigh (index % 2 == parity) d) ds)

weights-append :
    (parity index : ℕ) (xs ys : List ℕ)
    → weights parity index (xs ++ ys)
      ≡ weights parity index xs + weights parity (index + length xs) ys
unfolding weights
weights-append parity index [] ys = let e : index + 0 ≡ index = omega arith in rw e (omega arith)
weights-append parity index (x ∷ xs) ys =
    let e : index + suc (length xs) ≡ suc index + length xs = omega arith in
    rw e (omega (arith, weights-append parity (suc index) xs ys))

-- Different digits have different weights.
weigh-injective : (b : Bool) (d e : ℕ) → d < 10 → e < 10 → weigh b d % 10 ≡ weigh b e % 10 → d ≡ e
unfolding weigh
weigh-injective b d e h k p = ground arith

-- The sum that decides: with one digit `d` between `xs` and `ys`.
weights-split :
    (parity : ℕ) (xs ys : List ℕ) (d : ℕ)
    → weights parity 0 (xs ++ d ∷ ys)
      ≡ weights parity 0 xs
        + (weigh (length xs % 2 == parity) d + weights parity (suc (length xs)) ys)
unfolding weights
weights-split parity xs ys d =
    let e : 0 + length xs ≡ length xs = omega arith in
    weights-append parity 0 xs (d ∷ ys) ∙ rw e refl

length-split : (xs ys : List ℕ) (d e : ℕ) → length (xs ++ d ∷ ys) ≡ length (xs ++ e ∷ ys)
length-split xs ys d e = omega (arith, length-append xs (d ∷ ys), length-append xs (e ∷ ys))

-- A valid number has a checksum divisible by 10.
valid-sum : (ds : List ℕ) → luhn_valid ds ≡ true → weights (length ds % 2) 0 ds % 10 ≡ 0
unfolding luhn_valid
valid-sum ds h = ground (arith, checksum-eq-weights (length ds % 2) 0 0 ds)

one-digit : (x y u v : ℕ) → (x + (u + y)) % 10 ≡ 0 → (x + (v + y)) % 10 ≡ 0 → u % 10 ≡ v % 10
one-digit x y u v h k = omega arith

same_digit :
    (xs ys : List ℕ) (d e : ℕ)
    → d < 10
    → e < 10
    → weights (length (xs ++ d ∷ ys) % 2) 0 (xs ++ d ∷ ys) % 10 ≡ 0
    → weights (length (xs ++ e ∷ ys) % 2) 0 (xs ++ e ∷ ys) % 10 ≡ 0
    → d ≡ e
same_digit xs ys d e hd he p q =
    let parity : ℕ = length (xs ++ d ∷ ys) % 2 in
    let q' : weights parity 0 (xs ++ e ∷ ys) % 10 ≡ 0 = rw (length-split xs ys d e) q in
    weigh-injective (length xs % 2 == parity) d e hd he (
      one-digit (weights parity 0 xs) (weights parity (suc (length xs)) ys) _ _
        (rw (weights-split parity xs ys d) at p) (rw (weights-split parity xs ys e) at q'))

-- A card number with one wrong digit is not valid: from a valid number, changing one digit to another
-- gives an invalid one.
pub luhn_valid-one_digit :
    (xs ys : List ℕ) (d e : ℕ)
    → d < 10
    → e < 10
    → d ≢ e
    → luhn_valid (xs ++ d ∷ ys) ≡ true
    → luhn_valid (xs ++ e ∷ ys) ≡ false
luhn_valid-one_digit xs ys d e hd he ne h = elim (Bool-cases (luhn_valid (xs ++ e ∷ ys))) [
  | inr f ↦ f
  | inl t ↦ absurd (ne (same_digit xs ys d e hd he (valid-sum _ h) (valid-sum _ t)))
]
