-- ===== src/Agent/Limits.antt =====
-- node-agent/ecoroute_agent/controls/host.py: `GatewayConcurrencyControl` and `NvmlPowerLimitControl`. The product
-- of an integer and a float, cut to an integer, is a parameter; a device takes a limit that is within its
-- constraints unless it refuses every one, and raises at any other.
use ecoroute_ht.Base.{
  ℕ, ◌==◌, ◌≤◌, String, Bool, true, false, ◌&&◌, List, [], ◌∷◌, map, Option, none, some, max, min,
  leb, str_eq, if◌then◌else◌, Outcome, ok, raise, ◌>>=◌,
}
use ecoroute_ht.Agent.Transaction.{HostControl}

-- int(n * p / 100), for the multipliers p / 100 of the source
pub record Scaling : Type 0 where
  pub scale : ℕ → ℕ → ℕ
  pub scale_le : (p n : ℕ) → p ≤ 100 → scale p n ≤ n

-- The JSON values of the two controls.
pub data Setting : Type 0 where
  number : ℕ → Setting
  numbers : List ℕ → Setting
  applied : Setting → Setting
  verification : Bool → Setting
  restored : Setting → Setting

abbrev is_number : Setting → ℕ → Bool
is_number (Setting.number m) n = m == n
is_number _ n = false

-- the multiplier of a profile, in percent
unfoldable pub concurrency_multiplier : String → Option ℕ
concurrency_multiplier s =
    if str_eq s "off"
    then some 100
    else if str_eq s "observe"
    then some 100
    else if str_eq s "balanced"
    then some 90
    else if str_eq s "eco"
    then some 75
    else none

unfoldable pub power_multiplier : String → ℕ
power_multiplier s = if str_eq s "balanced" then 90 else if str_eq s "eco" then 80 else 100

-- A device of NVML.
pub record Device : Type 0 where
  pub minimum : ℕ
  pub maximum : ℕ
  pub original : ℕ  -- the limit when the control was made
  pub limit : ℕ
  pub refusal : Option String  -- the error that any setting raises: no permission, not supported

abbrev pub limits : List Device → List ℕ
limits = map (λ d. d.limit)

-- nvmlDeviceSetPowerManagementLimit for each of zip(handles, targets, strict=True)
unfoldable pub set_limits : List ℕ → List Device → Outcome String (Unit {0}) × List Device
set_limits [] [] = (ok tt, [])
set_limits [] (d ∷ ds) = (raise "zip() argument 2 is shorter than argument 1", d ∷ ds)
set_limits (t ∷ ts) [] = (raise "zip() argument 2 is longer than argument 1", [])
set_limits (t ∷ ts) (d ∷ ds) =
    let rest = set_limits ts ds in
    elim d.refusal [
      | some e ↦ (raise e, d ∷ ds)
      | none ↦
          if leb d.minimum t && leb t d.maximum
          then (rest.0, record d { limit = t } ∷ rest.1)
          else (raise "Invalid Argument", d ∷ ds)
    ]

unfoldable pub same_numbers : List ℕ → List ℕ → Bool
same_numbers [] [] = true
same_numbers (x ∷ xs) (y ∷ ys) = x == y && same_numbers xs ys
same_numbers [] (y ∷ ys) = false
same_numbers (x ∷ xs) [] = false

module _ (S : Scaling) where
  open S use {scale}

  -- GatewayConcurrencyControl(baseline).plan
  unfoldable pub plan_concurrency : ℕ → String → Outcome String ℕ
  unfolding concurrency_multiplier
  plan_concurrency baseline profile = elim (concurrency_multiplier profile) [
    | none ↦ raise profile
    | some p ↦ ok (max 1 (scale p (max 1 baseline)))
  ]

  abbrev concurrency_verified : Setting → Setting → Setting
  concurrency_verified (Setting.number n) target = Setting.verification (is_number target n)
  concurrency_verified plan target = Setting.verification false

  -- its host is the attribute `target`
  abbrev pub gateway_concurrency : ℕ → HostControl Setting String Setting
  gateway_concurrency baseline = record {
    name = "gateway_concurrency";
    snapshot = λ target. ok target;
    plan = λ profile target. plan_concurrency baseline profile >>= λ n. ok (Setting.number n);
    apply = λ plan target. (ok (Setting.applied plan), plan);
    verify = λ plan target. ok (concurrency_verified plan target);
    rollback = λ snapshot target. (ok (Setting.restored snapshot), snapshot);
  }

  unfoldable pub target_for : ℕ → Device → ℕ
  target_for p d = max d.minimum (min d.maximum (scale p d.original))

  -- NvmlPowerLimitControl.plan
  unfoldable pub plan_power : String → List Device → List ℕ
  unfolding power_multiplier target_for
  plan_power profile = map (target_for (power_multiplier profile))

abbrev set_to : Setting → List Device → Outcome String (Unit {0}) × List Device
set_to (Setting.numbers ts) ds = set_limits ts ds
set_to v ds = (raise "not a list", ds)

abbrev power_verified : Setting → List Device → Bool
power_verified (Setting.numbers ts) ds = same_numbers (limits ds) ts
power_verified v ds = false

abbrev answering : Setting → Outcome String (Unit {0}) → Outcome String Setting
answering v (ok done) = ok v
answering v (raise e) = raise e

abbrev pub nvml_power_limit : Scaling → HostControl (List Device) String Setting
nvml_power_limit S = record {
  name = "nvml_power_limit";
  snapshot = λ ds. ok (Setting.numbers (limits ds));
  plan = λ profile ds. ok (Setting.numbers (plan_power S profile ds));
  apply = λ plan ds. (answering (Setting.applied plan) (set_to plan ds).0, (set_to plan ds).1);
  verify = λ plan ds. ok (Setting.verification (power_verified plan ds));
  rollback = λ snapshot ds.
      (answering (Setting.restored snapshot) (set_to snapshot ds).0, (set_to snapshot ds).1);
}
