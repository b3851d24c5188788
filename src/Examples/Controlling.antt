-- ===== src/Examples/Controlling.antt =====
-- transaction.py on the simulator's profile.
use ecoroute_ht.Base.{◌≡◌, refl, true, String, [], ◌∷◌, none}
use ecoroute_ht.Agent.Transaction.{System, Snapshots, take_snapshots, apply, restore}
use ecoroute_ht.Agent.Atomic.{SameShown, IsAtomic, apply-IsAtomic}
use ecoroute_ht.Agent.Restoration.{apply_each, restore-first}
use ecoroute_ht.Agent.Simulator.{Value, simulator, values, simulator-IsIsolated}

abbrev observing : System Value String Value
observing = record { host = Value.profile "observe"; file = none }

abbrev taken : Snapshots Value String Value
taken = ("simulator_profile", Value.profile "observe") ∷ []

-- a profile that there is not
apply-IsAtomic_example :
    IsAtomic Value String Value values
      (simulator ∷ [])
      observing
      (apply Value String Value values (simulator ∷ []) "turbo" observing)
unfolding take_snapshots
apply-IsAtomic_example =
    apply-IsAtomic Value String Value values (simulator ∷ []) simulator-IsIsolated observing "turbo"
      taken refl

restore-first_example :
    ((restore Value String Value values (simulator ∷ []) (
        apply_each Value String Value values
          (simulator ∷ [])
          ("eco" ∷ "turbo" ∷ "balanced" ∷ [])
          observing)).0.passed
      ≡ true)
    × ((restore Value String Value values (simulator ∷ []) (
          apply_each Value String Value values
            (simulator ∷ [])
            ("eco" ∷ "turbo" ∷ "balanced" ∷ [])
            observing)).1.file
        ≡ none)
    × SameShown Value String Value values
        (simulator ∷ [])
        (Value.profile "observe")
        (restore Value String Value values (simulator ∷ []) (
          apply_each Value String Value values
            (simulator ∷ [])
            ("eco" ∷ "turbo" ∷ "balanced" ∷ [])
            observing)).1.host
unfolding take_snapshots
restore-first_example =
    restore-first Value String Value values (simulator ∷ []) simulator-IsIsolated observing taken
      "eco" ("turbo" ∷ "balanced" ∷ []) refl refl
