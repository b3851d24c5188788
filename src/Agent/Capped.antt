-- ===== src/Agent/Capped.antt =====
-- host.py: what the concurrency and the power limit may become.
use ecoroute_ht.Base.{
  none, ℕ, ◌≤◌, ◌≡◌, refl, inl, inr, String, true, ◌&&◌, List, [], ◌∷◌, map, some, max, leb, arith,
  All, ap, ok, Option-cases, ok-injective,
}
use ecoroute_ht.Agent.Limits.{
  Scaling, Device, concurrency_multiplier, power_multiplier, plan_concurrency, plan_power,
  target_for, set_limits, limits,
}

multiplier_le : (s : String) (p : ℕ) → concurrency_multiplier s ≡ some p → p ≤ 100
unfolding concurrency_multiplier
multiplier_le s p e = ground arith

power_multiplier_le : (s : String) → power_multiplier s ≤ 100
unfolding power_multiplier
power_multiplier_le s = ground arith

-- A device takes limits, its constraints leave some limit, and its original limit was within them.
abbrev pub IsConstrained : Device → Type 0
IsConstrained d = (d.minimum ≤ d.original) × (d.original ≤ d.maximum) × (d.refusal ≡ none)

-- What a device has after a plan was applied.
abbrev pub IsLimited : Device → Type 0
IsLimited d = (d.minimum ≤ d.limit) × (d.limit ≤ d.original)

module _ (S : Scaling) where
  open S use {scale, scale_le}

  -- A profile leaves at least one connection and never more than the baseline.
  pub plan_concurrency-bounds :
      (baseline : ℕ) (profile : String) (n : ℕ)
      → plan_concurrency S baseline profile ≡ ok n
      → (1 ≤ n) × (n ≤ max 1 baseline)
  unfolding plan_concurrency
  plan_concurrency-bounds baseline profile n e =
      elim (Option-cases (concurrency_multiplier profile)) [
        | inl h ↦ cc
        | inr (p, h) ↦
            let same : max 1 (scale p (max 1 baseline)) ≡ n =
              ok-injective (rw (plan_concurrency, h) at e) in
            ground (arith, same, scale_le p (max 1 baseline) (multiplier_le profile p h))
      ]

  target_for-bounds :
      (p : ℕ) (d : Device)
      → p ≤ 100
      → IsConstrained d
      → (d.minimum ≤ target_for S p d)
        × (target_for S p d ≤ d.original)
        × (target_for S p d ≤ d.maximum)
  unfolding target_for
  target_for-bounds p d h c = ground (arith, scale_le p d.original h)

  set_limits-targets :
      (p : ℕ) (ds : List Device)
      → p ≤ 100
      → All IsConstrained ds
      → ((set_limits (map (target_for S p) ds) ds).0 ≡ ok tt)
        × (limits (set_limits (map (target_for S p) ds) ds).1 ≡ map (target_for S p) ds)
        × All IsLimited (set_limits (map (target_for S p) ds) ds).1
  unfolding set_limits target_for
  set_limits-targets p [] h c = (refl, refl, tt)
  set_limits-targets p (d ∷ ds) h c =
      let (e, l, k) = set_limits-targets p ds h c.1 in
      let (above, original, below) = target_for-bounds p d h c.0 in
      let t : (leb d.minimum (target_for S p d) && leb (target_for S p d) d.maximum) ≡ true =
        ground (arith, above, below) in
      rw c.0.2 (rw t (e, ap (λ (xs : List ℕ). target_for S p d ∷ xs) l, ((above, original), k)))

  -- Of devices that take limits and whose original limits were within their constraints: a power limit
  -- that a profile plans is taken by every device, is what the verification finds, and is
  -- neither below the device's minimum nor above its original limit.
  pub plan_power-IsLimited :
      (profile : String) (ds : List Device)
      → All IsConstrained ds
      → ((set_limits (plan_power S profile ds) ds).0 ≡ ok tt)
        × (limits (set_limits (plan_power S profile ds) ds).1 ≡ plan_power S profile ds)
        × All IsLimited (set_limits (plan_power S profile ds) ds).1
  unfolding plan_power
  plan_power-IsLimited profile ds c =
      set_limits-targets (power_multiplier profile) ds (power_multiplier_le profile) c
