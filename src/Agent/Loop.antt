-- ===== src/Agent/Loop.antt =====
-- node-agent/ecoroute_agent/main.py: the loop of `run`, with the simulator's control. What the server answers
-- and when is an input of each round. Times are in seconds.
use ecoroute_ht.Base.{
  ℕ, zero, suc, ◌+◌, ◌-◌, String, Bool, false, not, ◌&&◌, List, ◌++◌, [], ◌∷◌, map, Option, none,
  some, length, leb, ltb, if◌then◌else◌, Outcome, ok, ◌>>=◌,
}
use ecoroute_ht.Schemas.{str_in}
use ecoroute_ht.Agent.Transaction.{Action, Event, TransactionResult, System, apply, restore}
use ecoroute_ht.Agent.Simulator.{Value, simulator, values}

-- The heartbeat's answer.
pub record DesiredState : Type 0 where
  pub version : ℕ
  pub profile : String

pub data EventAction : Type 0 where
  action : Action → EventAction
  heartbeat_loss_rollback : EventAction

pub data EventStatus : Type 0 where
  completed rolled_back : EventStatus

pub record AgentEvent : Type 0 where
  pub desired_state_version : ℕ
  pub control : String
  pub action : EventAction
  pub status : EventStatus
  pub result : Value

-- The variables of the loop; the host of the system is the control's attribute `active`.
pub record LoopState (Sample : Type 0) : Type 0 where
  pub system : System Value String Value
  pub applied_version : ℕ
  pub samples : List Sample
  pub events : List AgentEvent
  pub last_heartbeat_success : ℕ
  pub next_heartbeat : ℕ

-- A round: the time, the heartbeat's answer unless it failed, how many events can be posted before a
-- post fails, whether the telemetry arrives, and the model's sample.
pub record RoundInput (Sample : Type 0) : Type 0 where
  pub now : ℕ
  pub heartbeat : Option DesiredState
  pub posts : ℕ
  pub telemetry : Bool
  pub sample : Value → Sample

-- profile in {"off", "observe"}
abbrev pub is_resting : String → Bool
is_resting s = str_in s ("off" ∷ "observe" ∷ [])

abbrev pub is_resting_value : Value → Bool
is_resting_value (Value.profile s) = is_resting s
is_resting_value _ = false

-- deque(maxlen=n).append(x)
unfoldable pub push : {X : Type 0} → ℕ → X → List X → List X
push n x [] = x ∷ []
push n x (y ∷ ys) = if leb n (length (y ∷ ys)) then ys ++ x ∷ [] else y ∷ ys ++ x ∷ []

unfoldable pub push_all : {X : Type 0} → ℕ → List X → List X → List X
unfolding push
push_all n [] kept = kept
push_all n (x ∷ xs) kept = push_all n xs (push n x kept)

-- popleft after each post that arrives
unfoldable pub drop : {X : Type 0} → ℕ → List X → List X
drop zero xs = xs
drop (suc n) [] = []
drop (suc n) (x ∷ xs) = drop n xs

abbrev pub status_of : Bool → EventStatus
status_of b = if b then EventStatus.completed else EventStatus.rolled_back

abbrev pub loss_event : ℕ → Event Value String Value → AgentEvent
loss_event version e = record {
  desired_state_version = version;
  control = e.control;
  action = EventAction.heartbeat_loss_rollback;
  status = EventStatus.rolled_back;
  result = e.result;
}

abbrev pub reported : ℕ → Bool → Event Value String Value → AgentEvent
reported version passed e = record {
  desired_state_version = version;
  control = e.control;
  action = EventAction.action e.action;
  status = status_of passed;
  result = e.result;
}

-- transaction.restore()
abbrev pub restoration :
    System Value String Value → TransactionResult Value String Value × System Value String Value
restoration = restore Value String Value values (simulator ∷ [])

abbrev pub application :
    String
    → System Value String Value
    → Outcome String (TransactionResult Value String Value) × System Value String Value
application = apply Value String Value values (simulator ∷ [])

-- control.active = profile
abbrev pub set_active : String → System Value String Value → System Value String Value
set_active profile s = record s { host = Value.profile profile }

module _ {Sample : Type 0} where
  -- the events of a result, and the version where it passed
  unfoldable pub report :
      ℕ → TransactionResult Value String Value → LoopState Sample → LoopState Sample
  unfolding push_all
  report version result a = record a {
    events = push_all 100 (map (reported version result.passed) result.events) a.events;
    applied_version = if result.passed then version else a.applied_version;
  }

  -- a target profile of rest is restored to
  unfoldable pub rest : DesiredState → LoopState Sample → LoopState Sample
  unfolding restore report
  rest d a =
      let (result, s) = restoration a.system in
      report d.version result
        (record a { system = if result.passed then set_active d.profile s else s })

  unfoldable pub change : DesiredState → LoopState Sample → Outcome String (LoopState Sample)
  unfolding apply report
  change d a =
      let (outcome, s) = application d.profile a.system in
      outcome >>= λ result. ok (report d.version result (record a { system = s }))

  -- what the heartbeat's answer asks for, if it is new
  unfoldable pub adopt : DesiredState → LoopState Sample → Outcome String (LoopState Sample)
  unfolding rest change
  adopt d a =
      if ltb a.applied_version d.version
      then if is_resting d.profile then ok (rest d a) else change d a
      else ok a

  -- except httpx.HTTPError
  unfoldable pub lose : ℕ → LoopState Sample → LoopState Sample
  unfolding restore push_all
  lose now a =
      let (result, s) = restoration a.system in
      if ltb 30 (now - a.last_heartbeat_success) && not (is_resting_value a.system.host)
      then record a {
        system = set_active "observe" s;
        events = push_all 100 (map (loss_event a.applied_version) result.events) a.events;
      }
      else a

  -- the posts of the events, of which one may fail
  unfoldable pub drain : ℕ → ℕ → LoopState Sample → LoopState Sample
  unfolding drop lose
  drain now posts a =
      let left = record a { events = drop posts a.events } in
      if ltb posts (length a.events) then lose now left else left

  -- what follows the heartbeat's answer, or its failure
  unfoldable pub heartbeat :
      ℕ → ℕ → Option DesiredState → LoopState Sample → Outcome String (LoopState Sample)
  unfolding adopt drain lose
  heartbeat now posts none a = ok (lose now a)
  heartbeat now posts (some d) a =
      adopt d (record a { last_heartbeat_success = now }) >>= λ b. ok (drain now posts b)

  abbrev pub schedule : ℕ → LoopState Sample → LoopState Sample
  schedule now a = record a { next_heartbeat = now + 5 }

  -- the sample is kept until the telemetry arrives
  unfoldable pub telemetry : RoundInput Sample → LoopState Sample → LoopState Sample
  unfolding push
  telemetry i a =
      let samples = push 60 (i.sample a.system.host) a.samples in
      record a { samples = if i.telemetry then [] else samples }

  -- one round of `while not stop.is_set()`
  unfoldable pub tick : RoundInput Sample → LoopState Sample → Outcome String (LoopState Sample)
  unfolding heartbeat telemetry
  tick i a =
      if leb a.next_heartbeat i.now
      then (heartbeat i.now i.posts i.heartbeat a >>= λ b. ok (telemetry i (schedule i.now b)))
      else ok (telemetry i a)

  -- the rounds, one after another; an exception that is not caught ends them
  unfoldable pub run_rounds :
      List (RoundInput Sample) → LoopState Sample → Outcome String (LoopState Sample)
  unfolding tick
  run_rounds [] a = ok a
  run_rounds (i ∷ is) a = tick i a >>= run_rounds is
