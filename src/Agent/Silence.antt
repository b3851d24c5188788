-- ===== src/Agent/Silence.antt =====
-- main.py of the agent: the server is silent for longer than half a minute, and then answers again.
use ecoroute_ht.Base.{
  ℕ, ◌+◌, ◌-◌, String, ◌≤◌, ◌<◌, ◌≡◌, refl, sym, ◌∙◌, ◌⊎◌, inl, inr, true, false, not, ◌&&◌, List,
  ◌++◌, [], ◌∷◌, none, some, length, leb, ltb, max, any, arith, All, if-holds, ok, subst,
  Bool-cases,
}
use ecoroute_ht.Agent.Transaction.{System}
use ecoroute_ht.Agent.Simulator.{Value}
use ecoroute_ht.Agent.Loop.{
  DesiredState, LoopState, RoundInput, is_resting_value, adopt, lose, drain, heartbeat, telemetry,
  tick, run_rounds, schedule,
}

module _ {Sample : Type 0} where
  -- What a failed heartbeat leaves as it is.
  lose-schedule :
      (now : ℕ) (a : LoopState Sample)
      → ((lose now a).last_heartbeat_success ≡ a.last_heartbeat_success)
        × ((lose now a).applied_version ≡ a.applied_version)
  unfolding lose
  lose-schedule now a =
      if-holds
        (λ (b : LoopState Sample).
          (b.last_heartbeat_success ≡ a.last_heartbeat_success)
          × (b.applied_version ≡ a.applied_version))
        (ltb 30 (now - a.last_heartbeat_success) && not (is_resting_value a.system.host)) _ _
        (λ _. (refl, refl)) (λ _. (refl, refl))

  lose-resting :
      (now : ℕ) (a : LoopState Sample)
      → a.last_heartbeat_success + 30 < now
      → is_resting_value (lose now a).system.host ≡ true
  unfolding lose any
  lose-resting now a h =
      if-holds (λ (b : LoopState Sample). is_resting_value b.system.host ≡ true)
        (ltb 30 (now - a.last_heartbeat_success) && not (is_resting_value a.system.host)) _ _
        (λ _. refl) (λ f. ground (arith, f))

  lose-still :
      (now : ℕ) (a : LoopState Sample)
      → is_resting_value a.system.host ≡ true
      → (lose now a).system ≡ a.system
  unfolding lose
  lose-still now a h =
      if-holds (λ (b : LoopState Sample). b.system ≡ a.system)
        (ltb 30 (now - a.last_heartbeat_success) && not (is_resting_value a.system.host)) _ _
        (λ t. absurd (ground (arith, t))) (λ _. refl)

  -- A round whose heartbeat, if it is due, fails.
  tick-silent :
      (i : RoundInput Sample) (a : LoopState Sample)
      → i.heartbeat ≡ none
      → (b : LoopState Sample) × (tick i a ≡ ok b)
        × (b.last_heartbeat_success ≡ a.last_heartbeat_success)
        × (b.next_heartbeat ≤ max a.next_heartbeat (i.now + 5))
        × (a.next_heartbeat ≤ i.now
            → a.last_heartbeat_success + 30 < i.now
            → is_resting_value b.system.host ≡ true)
  unfolding tick telemetry heartbeat
  tick-silent i a e = elim (Bool-cases (leb a.next_heartbeat i.now)) [
    | inl t ↦ (
      telemetry i (schedule i.now (lose i.now a)),
      rw (t, e) refl,
      (lose-schedule i.now a).0,
      ground arith,
      λ due late. lose-resting i.now a late,
    )
    | inr f ↦ (telemetry i a, rw f refl, refl, ground arith, λ due late. absurd (ground arith))
  ]

  -- The server has been silent for more than half a minute at the last of some rounds, each of the others at
  -- least five seconds before it; then the profile is one of rest.
  pub run_rounds-resting :
      (is : List (RoundInput Sample)) (i : RoundInput Sample) (a : LoopState Sample)
      → All (λ (j : RoundInput Sample). (j.heartbeat ≡ none) × (j.now + 5 ≤ i.now)) is
      → i.heartbeat ≡ none
      → a.next_heartbeat ≤ i.now
      → a.last_heartbeat_success + 30 < i.now
      → (b : LoopState Sample) × (run_rounds (is ++ i ∷ []) a ≡ ok b)
        × (is_resting_value b.system.host ≡ true)
  unfolding run_rounds
  run_rounds-resting [] i a h e due late =
      let (b, p, _, _, rests) = tick-silent i a e in (b, rw p refl, rests due late)
  run_rounds-resting (j ∷ is) i a h e due late =
      let (b, p, same, next, _) = tick-silent j a h.0.0 in
      let (c, q, rests) =
        run_rounds-resting is i b h.1 e (ground (arith, h.0.1, next)) (ground (arith, same)) in
      (c, rw p q, rests)

  drain-still :
      (now posts : ℕ) (a : LoopState Sample)
      → a.last_heartbeat_success ≡ now
      → ((drain now posts a).system ≡ a.system)
        × ((drain now posts a).applied_version ≡ a.applied_version)
  unfolding drain lose
  drain-still now posts a e =
      if-holds
        (λ (b : LoopState Sample). (b.system ≡ a.system) × (b.applied_version ≡ a.applied_version))
        (ltb posts (length a.events)) _ _
        (λ _.
          if-holds
            (λ (b : LoopState Sample).
              (b.system ≡ a.system) × (b.applied_version ≡ a.applied_version))
            (ltb 30 (now - a.last_heartbeat_success) && not (is_resting_value a.system.host)) _ _
            (λ t. absurd (ground (arith, t, e))) (λ _. (refl, refl)))
        (λ _. (refl, refl))

  -- The heartbeat fails, or its answer is of a version that was applied.
  abbrev pub IsOld : ℕ → RoundInput Sample → Type 0
  IsOld version i =
      (i.heartbeat ≡ none) ⊎ ((d : DesiredState) × (i.heartbeat ≡ some d) × (d.version ≤ version))

  abbrev pub IsStill : LoopState Sample → LoopState Sample → Type 0
  IsStill a b = (b.system ≡ a.system) × (b.applied_version ≡ a.applied_version)

  heartbeat-IsStill :
      (i : RoundInput Sample) (a : LoopState Sample)
      → IsOld a.applied_version i
      → is_resting_value a.system.host ≡ true
      → (b : LoopState Sample) × (heartbeat i.now i.posts i.heartbeat a ≡ ok b) × IsStill a b
  unfolding heartbeat adopt
  heartbeat-IsStill i a (inl e) rests =
      (lose i.now a, rw e refl, (lose-still i.now a rests, (lose-schedule i.now a).1))
  heartbeat-IsStill i a (inr (d, e, old)) rests =
      let heard = record a { last_heartbeat_success = i.now } in
      let none_new : ltb a.applied_version d.version ≡ false = ground arith in
      (drain i.now i.posts heard, rw (e, none_new) refl, drain-still i.now i.posts heard refl)

  tick-IsStill :
      (i : RoundInput Sample) (a : LoopState Sample)
      → IsOld a.applied_version i
      → is_resting_value a.system.host ≡ true
      → (b : LoopState Sample) × (tick i a ≡ ok b) × IsStill a b
  unfolding tick telemetry
  tick-IsStill i a old rests = elim (Bool-cases (leb a.next_heartbeat i.now)) [
    | inl t ↦
        let (b, p, (s, v)) = heartbeat-IsStill i a old rests in
        (telemetry i (schedule i.now b), rw (t, p) refl, (s, v))
    | inr f ↦ (telemetry i a, rw f refl, (refl, refl))
  ]

  -- An agent whose profile is one of rest keeps it, whatever the server asks for under a version that was
  -- applied.
  pub run_rounds-IsStill :
      (is : List (RoundInput Sample)) (a : LoopState Sample)
      → All (IsOld a.applied_version) is
      → is_resting_value a.system.host ≡ true
      → (b : LoopState Sample) × (run_rounds is a ≡ ok b) × IsStill a b
  unfolding run_rounds
  run_rounds-IsStill [] a h rests = (a, refl, (refl, refl))
  run_rounds-IsStill (i ∷ is) a h rests =
      let (b, p, (s, v)) = tick-IsStill i a h.0 rests in
      let (c, q, (t, w)) =
        run_rounds-IsStill is b (subst (λ n. All (IsOld n) is) (sym v) h.1) (
          subst (λ (y : System Value String Value). is_resting_value y.host ≡ true) (sym s)
            rests) in
      (c, rw p q, (t ∙ s, w ∙ v))
