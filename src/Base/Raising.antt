-- ===== src/Base/Raising.antt =====
-- Code that may raise: the exception is a value of the type `E`.
use mathlib.Core.Path.{◌≡◌, refl}
use mathlib.Core.Logic.{◌⊎◌, inl, inr}
use mathlib.Core.Bool.{Bool, true, false}
use ecoroute_ht.Base.Tests.{if◌then◌else◌}

pub data Outcome {ε α} (E : Type ε) (A : Type α) : Type (ε ⊔ α) where
  ok : A → Outcome E A
  raise : E → Outcome E A

-- What follows a call that may raise.
infixl 5 ◌>>=◌
abbrev pub ◌>>=◌ {ε α β} :
    {E : Type ε} {X : Type α} {Y : Type β} (call : Outcome E X) (then_do : X → Outcome E Y)
    → Outcome E Y
call >>= then_do = elim call [ raise exc ↦ raise exc | ok value ↦ then_do value ]

-- A call after a call: where both together answer, each does.
pub >>=-eq-ok {ε α β} :
    {E : Type ε} {X : Type α} {Y : Type β} {y : Y}
    → (call : Outcome E X) → (then_do : X → Outcome E Y) → call >>= then_do ≡ ok y
    → (value : X) × (call ≡ ok value) × (then_do value ≡ ok y)
>>=-eq-ok (raise exc) then_do answered = cc
>>=-eq-ok (ok value) then_do answered = (value, refl, answered)

pub ok-injective {ε α} :
    {E : Type ε} {X : Type α} {x y : X} → ◌≡◌ {A = Outcome E X} (ok x) (ok y) → x ≡ y
ok-injective same = cc

-- What holds of the answers of two branches holds of the choice of one.
pub if-eq-ok {ε α κ} :
    {E : Type ε} {X : Type α} {x : X}
    → (P : X → Type κ) → (test : Bool) → (first second : Outcome E X) → (first ≡ ok x → P x)
    → (second ≡ ok x → P x)
    → (if test then first else second) ≡ ok x
    → P x
if-eq-ok P false first second on_first on_second answered = on_second answered
if-eq-ok P true first second on_first on_second answered = on_first answered

-- A value, or an exception.
pub Outcome-cases {ℓ κ} :
    {E : Type ℓ} {A : Type κ} (m : Outcome E A) → ((a : A) × (m ≡ ok a)) ⊎ ((e : E) × (m ≡ raise e))
Outcome-cases (ok a) = inl (a, refl)
Outcome-cases (raise e) = inr (e, refl)
