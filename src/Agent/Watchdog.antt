-- ===== src/Agent/Watchdog.antt =====
-- main.py of the agent: the versions, the buffers, and what the loss of the heartbeat does.
use ecoroute_ht.Base.{
  if-eq-ok, String, ℕ, zero, suc, ◌-◌, ◌≤◌, ◌≡◌, not, ◌&&◌, List, [], ◌∷◌, map, Option, none, some,
  length, length-append, leb, ltb, arith, if-holds, ok, >>=-eq-ok, ok-injective, subst,
}
use ecoroute_ht.Agent.Transaction.{TransactionResult}
use ecoroute_ht.Agent.Simulator.{Value}
use ecoroute_ht.Agent.Loop.{
  DesiredState, LoopState, RoundInput, is_resting, is_resting_value, push, push_all, drop, report,
  rest, change, adopt, lose, drain, heartbeat, telemetry, tick, run_rounds, loss_event, reported,
  restoration, application, schedule,
}

length-push :
    {X : Type 0} (n : ℕ) (x : X) (xs : List X) → 1 ≤ n → length xs ≤ n → length (push n x xs) ≤ n
unfolding push
length-push n x [] b h = omega arith
length-push n x (y ∷ ys) b h = ground (arith, length-append ys (x ∷ []))

length-push_all :
    {X : Type 0} (n : ℕ) (xs kept : List X)
    → 1 ≤ n
    → length kept ≤ n
    → length (push_all n xs kept) ≤ n
unfolding push_all
length-push_all n [] kept b h = h
length-push_all n (x ∷ xs) kept b h =
    length-push_all n xs (push n x kept) b (length-push n x kept b h)

length-drop : {X : Type 0} (n : ℕ) (xs : List X) → length (drop n xs) ≤ length xs
unfolding drop
length-drop zero xs = omega arith
length-drop (suc n) [] = omega arith
length-drop (suc n) (x ∷ xs) = omega (arith, length-drop n xs)

module _ {Sample : Type 0} where
  -- The buffers are within their limits.
  pub record IsBounded (a : LoopState Sample) : Type 0 where
    pub samples : length a.samples ≤ 60
    pub events : length a.events ≤ 100

  report-IsBounded :
      (version : ℕ) (result : TransactionResult Value String Value) (a : LoopState Sample)
      → IsBounded a
      → IsBounded (report version result a)
  unfolding report
  report-IsBounded version result a b = record {
    samples = b.samples;
    events =
        length-push_all 100 (map (reported version result.passed) result.events) a.events
          (omega arith) b.events;
  }

  rest-IsBounded : (d : DesiredState) (a : LoopState Sample) → IsBounded a → IsBounded (rest d a)
  unfolding rest
  rest-IsBounded d a b =
      report-IsBounded d.version (restoration a.system).0 _
        (record { samples = b.samples; events = b.events })

  change-IsBounded :
      (d : DesiredState) (a b : LoopState Sample) → IsBounded a → change d a ≡ ok b → IsBounded b
  unfolding change
  change-IsBounded d a b h e =
      let (result, _, p) = >>=-eq-ok (application d.profile a.system).0 _ e in
      subst IsBounded (ok-injective p) (
        report-IsBounded d.version result (record a { system = (application d.profile a.system).1 })
          (record { samples = h.samples; events = h.events }))

  adopt-IsBounded :
      (d : DesiredState) (a b : LoopState Sample) → IsBounded a → adopt d a ≡ ok b → IsBounded b
  unfolding adopt
  adopt-IsBounded d a b h =
      if-eq-ok IsBounded (ltb a.applied_version d.version) _ _
        (if-eq-ok IsBounded (is_resting d.profile) _ _
          (λ e. subst IsBounded (ok-injective e) (rest-IsBounded d a h)) (change-IsBounded d a b h))
        (λ e. subst IsBounded (ok-injective e) h)

  lose-IsBounded : (now : ℕ) (a : LoopState Sample) → IsBounded a → IsBounded (lose now a)
  unfolding lose
  lose-IsBounded now a b =
      if-holds IsBounded
        (ltb 30 (now - a.last_heartbeat_success) && not (is_resting_value a.system.host)) _ _
        (λ _. record {
          samples = b.samples;
          events =
              length-push_all 100
                (map (loss_event a.applied_version) (restoration a.system).0.events) a.events
                (omega arith) b.events;
        })
        (λ _. b)

  drain-IsBounded :
      (now posts : ℕ) (a : LoopState Sample) → IsBounded a → IsBounded (drain now posts a)
  unfolding drain
  drain-IsBounded now posts a b =
      let left = record a { events = drop posts a.events } in
      let h : IsBounded left = record {
        samples = b.samples;
        events = omega (arith, length-drop posts a.events, b.events);
      } in
      if-holds IsBounded (ltb posts (length a.events)) _ _ (λ _. lose-IsBounded now left h) (λ _. h)

  heartbeat-IsBounded :
      (now posts : ℕ) (answer : Option DesiredState) (a b : LoopState Sample)
      → IsBounded a
      → heartbeat now posts answer a ≡ ok b
      → IsBounded b
  unfolding heartbeat
  heartbeat-IsBounded now posts none a b h e =
      subst IsBounded (ok-injective e) (lose-IsBounded now a h)
  heartbeat-IsBounded now posts (some d) a b h e =
      let (c, p, q) = >>=-eq-ok (adopt d (record a { last_heartbeat_success = now })) _ e in
      subst IsBounded (ok-injective q) (
        drain-IsBounded now posts c
          (adopt-IsBounded d _ c (record { samples = h.samples; events = h.events }) p))

  telemetry-IsBounded :
      (i : RoundInput Sample) (a : LoopState Sample) → IsBounded a → IsBounded (telemetry i a)
  unfolding telemetry
  telemetry-IsBounded i a h = record {
    samples =
        if-holds (λ (xs : List Sample). length xs ≤ 60) i.telemetry _ _ (λ _. omega arith)
          (λ _. length-push 60 _ a.samples (omega arith) h.samples);
    events = h.events;
  }

  tick-IsBounded :
      (i : RoundInput Sample) (a b : LoopState Sample) → IsBounded a → tick i a ≡ ok b → IsBounded b
  unfolding tick
  tick-IsBounded i a b h =
      if-eq-ok IsBounded (leb a.next_heartbeat i.now) _ _
        (λ e.
          let (c, p, q) = >>=-eq-ok (heartbeat i.now i.posts i.heartbeat a) _ e in
          let k = heartbeat-IsBounded i.now i.posts i.heartbeat a c h p in
          subst IsBounded (ok-injective q) (
            telemetry-IsBounded i (schedule i.now c)
              (record { samples = k.samples; events = k.events })))
        (λ e. subst IsBounded (ok-injective e) (telemetry-IsBounded i a h))

  -- However long the server is away, at most 60 samples and 100 events are kept.
  pub run_rounds-IsBounded :
      (is : List (RoundInput Sample)) (a b : LoopState Sample)
      → IsBounded a
      → run_rounds is a ≡ ok b
      → IsBounded b
  unfolding run_rounds
  run_rounds-IsBounded [] a b h e = subst IsBounded (ok-injective e) h
  run_rounds-IsBounded (i ∷ is) a b h e =
      let (c, p, q) = >>=-eq-ok (tick i a) _ e in
      run_rounds-IsBounded is c b (tick-IsBounded i a c h p) q
