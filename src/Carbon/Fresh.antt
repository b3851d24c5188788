-- ===== src/Carbon/Fresh.antt =====
-- carbon/service.py: how old a reading may be.
use ecoroute_ht.Base.{
  ℕ, ◌-◌, ◌≤◌, ◌≡◌, ◌≢◌, refl, ◌⊎◌, inl, inr, false, Option, none, some, Outcome, ok, raise,
  ok-injective, ltb, leb, Bool-cases, arith, subst, sym,
}
use ecoroute_ht.Numbers.{Arithmetic}
use ecoroute_ht.Schemas.{Evidence}
use ecoroute_ht.Carbon.Reading.{
  Keys, ProviderError, Settings, Clock, Place, CarbonReading, State, aged, from_rows, no_reading,
  refresh, through_cache, reading, freshness_target, maximum_age, override_reading,
  grid_override_state, is_caught,
}

module _ (A : Arithmetic) (Metadata : Type 0) (keys : Keys Metadata) (settings : Settings)
    (clock : Clock) (stale : ℕ) (p : Place) where
  abbrev R : Type 0
  R = CarbonReading A Metadata keys

  -- A time at which the code reads the clock.
  abbrev IsRead : ℕ → Type 0
  IsRead t = (t ≡ clock.at_cache) ⊎ ((t ≡ clock.after_provider) ⊎ (t ≡ clock.at_row))

  -- A reading within the allowance, and within the target unless it is marked as stale.
  pub record IsRecent (r : R) : Type 0 where
    pub read_at : ℕ
    pub on_clock : IsRead read_at
    pub allowed : read_at - r.observed_at ≤ maximum_age settings stale
    pub fresh : r.evidence ≢ Evidence.stale → read_at - r.observed_at ≤ freshness_target settings

  aged-IsRecent :
      (t : ℕ)
      → (r : R) → IsRead t
      → t - r.observed_at ≤ maximum_age settings stale
      → IsRecent (aged A Metadata keys (freshness_target settings) t r)
  unfolding aged
  aged-IsRecent t r on within =
      elim (Bool-cases (ltb (freshness_target settings) (t - r.observed_at))) [
        | inl old ↦
            rw (old, aged)
              (record {
                read_at = t;
                on_clock = on;
                allowed = within;
                fresh = λ ne. absurd (ne refl);
              })
        | inr new ↦
            rw (new, aged)
              (record { read_at = t; on_clock = on; allowed = within; fresh = λ ne. ground arith })
      ]

  -- the default reading, which is marked
  abbrev IsMissing : R → Type 0
  IsMissing r = r ≡ no_reading A Metadata keys clock.at_row p

  from_rows-cases :
      (o : Option R)
      → (r : R)
      → from_rows A Metadata keys
          (freshness_target settings)
          (maximum_age settings stale)
          clock.at_row
          p
          o
        ≡ r
      → IsRecent r ⊎ IsMissing r
  unfolding from_rows
  from_rows-cases none r e = inr (sym e)
  from_rows-cases (some x) r e =
      elim (Bool-cases (leb (clock.at_row - x.observed_at) (maximum_age settings stale))) [
        | inl t ↦ inl (
            subst IsRecent (rw t at e)
              (aged-IsRecent clock.at_row x (inr (inr refl)) (ground arith)))
        | inr n ↦ inr (sym (rw n at e))
      ]

  -- What the service may answer outside the demonstrations.
  abbrev pub IsAnswer : R → Type 0
  IsAnswer r = IsRecent r ⊎ IsMissing r

  ok_not_raise : (r : R) (x : ProviderError) → ok r ≢ raise x
  ok_not_raise r x h = cc

  refresh-IsAnswer :
      (o : Outcome ProviderError R)
      → (s : State A Metadata keys) → (r : R)
      → (refresh A Metadata keys settings clock stale p o s).0 ≡ ok r
      → IsAnswer r
  unfolding refresh
  refresh-IsAnswer (raise x) s r e = elim (Bool-cases (is_caught x)) [
    | inl t ↦ from_rows-cases _ r (ok-injective (rw (t, refresh) at e))
    | inr n ↦ absurd (ok_not_raise r x (sym (rw (n, refresh) at e)))
  ]
  refresh-IsAnswer (ok x) s r e =
      elim (Bool-cases (ltb (maximum_age settings stale) (clock.after_provider - x.observed_at))) [
        | inl t ↦ from_rows-cases _ r (ok-injective (rw (t, refresh) at e))
        | inr n ↦ inl (
            subst IsRecent (ok-injective (rw (n, refresh) at e))
              (aged-IsRecent clock.after_provider x (inr (inl refl)) (ground arith)))
      ]

  through_cache-IsAnswer :
      (o : Outcome ProviderError R)
      → (c : Option (Option R)) → (s : State A Metadata keys) → (r : R)
      → (through_cache A Metadata keys settings clock stale p o c s).0 ≡ ok r
      → IsAnswer r
  unfolding through_cache
  through_cache-IsAnswer o none s r e = refresh-IsAnswer o s r e
  through_cache-IsAnswer o (some none) s r e = refresh-IsAnswer o _ r e
  through_cache-IsAnswer o (some (some x)) s r e =
      elim (Bool-cases (leb (clock.at_cache - x.observed_at) (maximum_age settings stale))) [
        | inl t ↦ inl (
            subst IsRecent (ok-injective (rw (t, through_cache) at e))
              (aged-IsRecent clock.at_cache x (inl refl) (ground arith)))
        | inr n ↦ refresh-IsAnswer o _ r (rw (n, through_cache) at e)
      ]

  -- Outside the demonstration mode a reading is the simulated override, the marked default, or no
  -- older than the policy allows, and no older than the freshness target unless it is marked as stale,
  -- whether it came from the cache, from the provider or from the table.
  pub reading-IsAnswer :
      (fixture : R)
      → (o : Outcome ProviderError R) → (s : State A Metadata keys) → (r : R)
      → settings.demo_mode ≡ false
      → (reading A Metadata keys settings clock stale p fixture o s).0 ≡ ok r
      → (r ≡ override_reading A Metadata keys clock.at_cache p) ⊎ IsAnswer r
  unfolding reading
  reading-IsAnswer fixture o s r live e =
      elim (Bool-cases (grid_override_state A Metadata keys s).0) [
        | inl t ↦ inl (sym (ok-injective (rw t at (rw (live, reading) at e))))
        | inr n ↦ inr (through_cache-IsAnswer o _ _ r (rw n at (rw (live, reading) at e)))
      ]
