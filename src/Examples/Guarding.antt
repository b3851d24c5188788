-- ===== src/Examples/Guarding.antt =====
-- The agent's loop and controls on short runs.
use ecoroute_ht.Base.{
  ℕ, zero, suc, ◌*◌, ◌/◌, ◌≤◌, ◌≡◌, refl, inr, true, false, [], ◌∷◌, none, some, any, arith, All,
  ok,
}
use ecoroute_ht.Agent.Simulator.{Value}
use ecoroute_ht.Agent.Loop.{
  LoopState, RoundInput, is_resting_value, run_rounds, tick, heartbeat, lose, telemetry, push,
  push_all,
}
use ecoroute_ht.Agent.Watchdog.{IsBounded, run_rounds-IsBounded}
use ecoroute_ht.Agent.Silence.{IsStill, run_rounds-resting, run_rounds-IsStill}
use ecoroute_ht.Agent.Limits.{Scaling, Device, limits, plan_power, set_limits}
use ecoroute_ht.Agent.Capped.{IsLimited, plan_power-IsLimited}

-- a round in which the server does not answer
abbrev silent_at : ℕ → RoundInput ℕ
silent_at now = record {
  now = now;
  heartbeat = none;
  posts = 0;
  telemetry = false;
  sample = λ active. 7;
}

abbrev eco_agent : LoopState ℕ
eco_agent = record {
  system = record { host = Value.profile "eco"; file = none };
  applied_version = 3;
  samples = [];
  events = [];
  last_heartbeat_success = 100;
  next_heartbeat = 105;
}

run_rounds-resting_example :
    (b : LoopState ℕ) × (run_rounds (silent_at 110 ∷ silent_at 131 ∷ []) eco_agent ≡ ok b)
    × (is_resting_value b.system.host ≡ true)
run_rounds-resting_example =
    run_rounds-resting (silent_at 110 ∷ []) (silent_at 131) eco_agent ((refl, omega arith), tt) refl
      (omega arith) (omega arith)

abbrev resting_agent : LoopState ℕ
resting_agent = record eco_agent { system = record { host = Value.profile "observe"; file = none } }

-- the server asks for the version that was applied before the loss
abbrev asked_again : RoundInput ℕ
asked_again = record (silent_at 140) { heartbeat = some (record { version = 3; profile = "eco" }) }

run_rounds-IsStill_example :
    (b : LoopState ℕ) × (run_rounds (asked_again ∷ []) resting_agent ≡ ok b)
    × IsStill resting_agent b
unfolding any
run_rounds-IsStill_example =
    run_rounds-IsStill (asked_again ∷ []) resting_agent
      (inr (record { version = 3; profile = "eco" }, refl, omega arith), tt) refl

abbrev silent_agent : LoopState ℕ
silent_agent = record resting_agent { samples = 7 ∷ []; next_heartbeat = 115 }

one_silent_round : run_rounds (silent_at 110 ∷ []) resting_agent ≡ ok silent_agent
unfolding run_rounds tick heartbeat lose telemetry push push_all any
one_silent_round = refl

run_rounds-IsBounded_example : IsBounded silent_agent
run_rounds-IsBounded_example =
    run_rounds-IsBounded (silent_at 110 ∷ []) resting_agent silent_agent
      (record { samples = omega arith; events = omega arith }) one_silent_round

mul_le : (p n : ℕ) → p ≤ 100 → n * p ≤ 100 * n
mul_le p zero h = omega arith
mul_le p (suc n) h = omega (arith, mul_le p n h)

scaled_le : (p n : ℕ) → p ≤ 100 → n * p / 100 ≤ n
scaled_le p n h = omega (arith, mul_le p n h)

abbrev scaling : Scaling
scaling = record { scale = λ p n. n * p / 100; scale_le = scaled_le }

abbrev device : Device
device = record {
  minimum = 100000;
  maximum = 350000;
  original = 320000;
  limit = 320000;
  refusal = none;
}

plan_power-IsLimited_example :
    ((set_limits (plan_power scaling "eco" (device ∷ [])) (device ∷ [])).0 ≡ ok tt)
    × (limits (set_limits (plan_power scaling "eco" (device ∷ [])) (device ∷ [])).1
        ≡ plan_power scaling "eco" (device ∷ []))
    × All IsLimited (set_limits (plan_power scaling "eco" (device ∷ [])) (device ∷ [])).1
plan_power-IsLimited_example =
    plan_power-IsLimited scaling "eco" (device ∷ []) ((omega arith, omega arith, refl), tt)
