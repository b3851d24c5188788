-- ===== src/Numbers.antt =====
-- Python's float and decimal.Decimal, as an interface: neither is part of the repository.
-- A literal m * 10^-k of the source is `f_lit m k`; `d_of n` is Decimal(n), `float_of` is float(d)
-- and `decimal_of` is Decimal(str(x)). The laws say that the comparisons of finite floats and of
-- Decimals are total and transitive, that a - a is 0, that literals of two decimals are ordered as their digits are,
-- and that 0 <= 0.01 + 1e-12; nothing else is
-- assumed of sums, products or rounding.
use ecoroute_ht.Base.{
  ℕ, ◌+◌, ◌-◌, ◌*◌, ◌/◌, ◌^◌, ◌≡◌, ◌≤◌, refl, ◌⊎◌, Bool, true, not, ◌&&◌, arith, leb, IsStrictWeak,
}

pub record Arithmetic : Type 1 where
  pub Float : Type 0
  pub Decimal : Type 0
  pub f_lit : ℕ → ℕ → Float
  pub f_add : Float → Float → Float
  pub f_sub : Float → Float → Float
  pub f_mul : Float → Float → Float
  pub f_div : Float → Float → Float
  pub f_le : Float → Float → Bool
  pub d_of : ℕ → Decimal
  pub d_add : Decimal → Decimal → Decimal
  pub d_sub : Decimal → Decimal → Decimal
  pub d_mul : Decimal → Decimal → Decimal
  pub d_div : Decimal → Decimal → Decimal
  pub d_le : Decimal → Decimal → Bool
  pub float_of : Decimal → Float
  pub decimal_of : Float → Decimal
  pub f_le_total : (a b : Float) → (f_le a b ≡ true) ⊎ (f_le b a ≡ true)
  pub f_le_trans : (a b c : Float) → f_le a b ≡ true → f_le b c ≡ true → f_le a c ≡ true
  pub f_sub_self : (a : Float) → f_sub a a ≡ f_lit 0 0
  pub f_cents : (m n : ℕ) → m ≤ n → f_le (f_lit m 2) (f_lit n 2) ≡ true
  pub f_tolerance : f_le (f_lit 0 0) (f_add (f_lit 1 2) (f_lit 1 12)) ≡ true
  pub d_le_total : (a b : Decimal) → (d_le a b ≡ true) ⊎ (d_le b a ≡ true)
  pub d_le_trans : (a b c : Decimal) → d_le a b ≡ true → d_le b c ≡ true → d_le a c ≡ true

module _ (A : Arithmetic) where
  open A use {
    Float, Decimal, f_lit, f_le, d_of, d_le, f_le_total, f_le_trans, d_le_total, d_le_trans,
  }

  -- a < b
  abbrev pub f_lt : Float → Float → Bool
  f_lt a b = not (f_le b a)

  abbrev pub d_lt : Decimal → Decimal → Bool
  d_lt a b = not (d_le b a)

  abbrev pub d_eq : Decimal → Decimal → Bool
  d_eq a b = d_le a b && d_le b a

  -- An integer of the source where a float is expected.
  abbrev pub f_of : ℕ → Float
  f_of n = f_lit n 0

  pub f_lt-IsStrictWeak : IsStrictWeak f_lt
  f_lt-IsStrictWeak = record {
    irreflexive = λ x. ground (arith, f_le_total x x);
    asymmetric = λ x y h. ground (arith, f_le_total x y);
    negative_transitive = λ x y z h k. ground (arith, f_le_trans z y x);
  }

  pub d_lt-IsStrictWeak : IsStrictWeak d_lt
  d_lt-IsStrictWeak = record {
    irreflexive = λ x. ground (arith, d_le_total x x);
    asymmetric = λ x y h. ground (arith, d_le_total x y);
    negative_transitive = λ x y z h k. ground (arith, d_le_trans z y x);
  }

-- The natural numbers meet the interface: a float is a number of millionths, rounded down.
abbrev pub micro : ℕ
micro = 1000000

pub leb_total : (a b : ℕ) → (leb a b ≡ true) ⊎ (leb b a ≡ true)
leb_total a b = ground arith

pub leb_trans : (a b c : ℕ) → leb a b ≡ true → leb b c ≡ true → leb a c ≡ true
leb_trans a b c h k = ground arith

pub sub_self : (a : ℕ) → a - a ≡ 0
sub_self a = omega arith

pub cents_le : (m n : ℕ) → m ≤ n → leb (m * micro / 10 ^ 2) (n * micro / 10 ^ 2) ≡ true
cents_le m n h = ground arith

abbrev pub millionths : Arithmetic
millionths = record {
  Float = ℕ;
  Decimal = ℕ;
  f_lit = λ m k. m * micro / 10 ^ k;
  f_add = λ a b. a + b;
  f_sub = λ a b. a - b;
  f_mul = λ a b. a * b / micro;
  f_div = λ a b. a * micro / b;
  f_le = leb;
  d_of = λ n. n * micro;
  d_add = λ a b. a + b;
  d_sub = λ a b. a - b;
  d_mul = λ a b. a * b / micro;
  d_div = λ a b. a * micro / b;
  d_le = leb;
  float_of = λ d. d;
  decimal_of = λ x. x;
  f_le_total = leb_total;
  f_le_trans = leb_trans;
  f_sub_self = sub_self;
  f_cents = cents_le;
  f_tolerance = refl;
  d_le_total = leb_total;
  d_le_trans = leb_trans;
}
