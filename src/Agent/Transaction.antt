-- ===== src/Agent/Transaction.antt =====
-- node-agent/ecoroute_agent/controls/transaction.py, `ControlTransaction`. A control is what the
-- protocol `HostControl` says: operations on the host, each of which may raise, and `apply` and
-- `rollback` may change the host and then raise. Plans, snapshots and results are JSON values.
use ecoroute_ht.Base.{
  String, Bool, true, false, not, ◌&&◌, List, [], ◌∷◌, ◌++◌, map, filter, any, Option, none, some,
  str_eq, Outcome, ok, raise, ◌>>=◌, if◌then◌else◌,
}

-- list(reversed(xs))
unfoldable pub reversed {ℓ} : {X : Type ℓ} → List X → List X
reversed [] = []
reversed (x ∷ xs) = reversed xs ++ x ∷ []

pub data Action : Type 0 where
  applied verified rolled_back failed : Action

-- What the module takes from JSON and from str().
pub record Values (Value : Type 0) : Type 0 where
  pub passed : Value → Bool  -- value.get("passed", False)
  pub error : String → Value  -- {"error": text}
  pub not_restored : String → Value  -- {"passed": False, "error": text}
  pub unavailable : List String → Value  -- the controls of a snapshot that are missing, sorted
  pub verification_failed : String → String  -- the text of the RuntimeError, by the control's name
  pub key_error : String → String

module _ (Host Desired Value : Type 0) where
  pub record HostControl : Type 0 where
    pub name : String
    pub snapshot : Host → Outcome String Value
    pub plan : Desired → Host → Outcome String Value
    pub apply : Value → Host → Outcome String Value × Host
    pub verify : Value → Host → Outcome String Value
    pub rollback : Value → Host → Outcome String Value × Host

  pub record Event : Type 0 where
    pub control : String
    pub action : Action
    pub result : Value

  -- a dict of the snapshots by the controls' names, the last one put in front
  abbrev pub Snapshots : Type 0
  Snapshots = List (String × Value)

  unfoldable pub lookup : String → Snapshots → Option Value
  lookup name [] = none
  lookup name ((n, v) ∷ rest) = let r = lookup name rest in if str_eq n name then some v else r

  -- The host and the snapshot file.
  pub record System : Type 0 where
    pub host : Host
    pub file : Option Snapshots

  -- Where the loop over the controls stands: the controls tracked for a rollback, the latest first.
  pub record Progress : Type 0 where
    pub raised : Option String
    pub tracked : List HostControl
    pub events : List Event
    pub host : Host

  pub record TransactionResult : Type 0 where
    pub passed : Bool
    pub events : List Event

  unfoldable pub take_snapshots : List HostControl → Host → Snapshots → Outcome String Snapshots
  take_snapshots [] h taken = ok taken
  take_snapshots (c ∷ cs) h taken =
      c.snapshot h >>= (λ v. take_snapshots cs h ((c.name, v) ∷ taken))

  module _ (values : Values Value) where
    -- the `for` inside `try`
    unfoldable pub forward : Desired → List HostControl → Progress → Progress
    forward desired [] p = p
    forward desired (c ∷ cs) p = elim (c.plan desired p.host) [
      | raise e ↦ record p { raised = some e }
      | ok plan ↦
          let (outcome, h) = c.apply plan p.host in
          elim outcome [
            | raise e ↦ record p { raised = some e; tracked = c ∷ p.tracked; host = h }
            | ok result ↦ elim (c.verify plan h) [
              | raise e ↦ record {
                raised = some e;
                tracked = c ∷ p.tracked;
                events =
                    p.events
                    ++ record { control = c.name; action = Action.applied; result = result } ∷ [];
                host = h;
              }
              | ok verification ↦
                  let events =
                    p.events
                    ++ record { control = c.name; action = Action.applied; result = result }
                      ∷ record { control = c.name; action = Action.verified; result = verification }
                      ∷ [] in
                  let next = forward desired cs (record {
                    raised = none;
                    tracked = c ∷ p.tracked;
                    events = events;
                    host = h;
                  }) in
                  if values.passed verification then next else record {
                    raised = some (values.verification_failed c.name);
                    tracked = c ∷ p.tracked;
                    events = events;
                    host = h;
                  }
            ]
          ]
    ]

    -- the rollbacks on the path of failure: here an exception is not caught
    unfoldable pub undo : Snapshots → List HostControl → Host → Outcome String (List Event) × Host
    undo snapshots [] h = (ok [], h)
    undo snapshots (c ∷ cs) h = elim (lookup c.name snapshots) [
      | none ↦ (raise (values.key_error c.name), h)
      | some v ↦
          let (outcome, h') = c.rollback v h in
          elim outcome [
            | raise e ↦ (raise e, h')
            | ok result ↦
                let (rest, h'') = undo snapshots cs h' in
                (
                  rest >>= (λ events. ok (
                      record { control = c.name; action = Action.rolled_back; result = result }
                      ∷ events)),
                  h'',
                )
          ]
    ]

    unfoldable pub finish :
        Snapshots → Option Snapshots → Progress → Outcome String TransactionResult × System
    unfolding undo
    finish snapshots file p = elim p.raised [
      | none ↦
          (ok (record { passed = true; events = p.events }), record { host = p.host; file = file })
      | some e ↦
          let (undone, h) = undo snapshots p.tracked p.host in
          (
            undone >>= (λ events. ok (record {
              passed = false;
              events =
                  p.events
                  ++ events
                  ++ record {
                    control = "transaction";
                    action = Action.failed;
                    result = values.error e;
                  }
                    ∷ [];
            })),
            record { host = h; file = file },
          )
    ]

    -- the file is written only where there is none
    abbrev pub kept_or : Option Snapshots → Snapshots → Snapshots
    kept_or none snapshots = snapshots
    kept_or (some old) snapshots = old

    unfoldable pub apply :
        List HostControl → Desired → System → Outcome String TransactionResult × System
    unfolding take_snapshots forward finish
    apply controls desired s = elim (take_snapshots controls s.host []) [
      | raise e ↦ (raise e, s)
      | ok snapshots ↦ finish snapshots (some (kept_or s.file snapshots)) (
          forward desired controls
            (record { raised = none; tracked = []; events = []; host = s.host }))
    ]

    -- the rollback of one control, whose exceptions are caught
    unfoldable pub restore_one : Snapshots → HostControl → Host → (Bool × Event) × Host
    unfolding lookup
    restore_one snapshots c h = elim (lookup c.name snapshots) [
      | none ↦ (
        (
          false,
          record {
            control = c.name;
            action = Action.rolled_back;
            result = values.not_restored (values.key_error c.name);
          },
        ),
        h,
      )
      | some v ↦
          let (outcome, h') = c.rollback v h in
          elim outcome [
            | raise e ↦ (
              (
                false,
                record {
                  control = c.name;
                  action = Action.rolled_back;
                  result = values.not_restored e;
                },
              ),
              h',
            )
            | ok result ↦ (
              (true, record { control = c.name; action = Action.rolled_back; result = result }),
              h',
            )
          ]
    ]

    unfoldable pub restore_all : Snapshots → List HostControl → Host → TransactionResult × Host
    unfolding restore_one
    restore_all snapshots [] h = (record { passed = true; events = [] }, h)
    restore_all snapshots (c ∷ cs) h =
        let ((passed, event), h') = restore_one snapshots c h in
        let (rest, h'') = restore_all snapshots cs h' in
        (record { passed = passed && rest.passed; events = event ∷ rest.events }, h'')

    -- set(snapshots) - current_names
    unfoldable pub missing : Snapshots → List HostControl → List String
    missing snapshots controls =
        filter (λ n. not (any (λ c. str_eq c.name n) controls)) (map (λ e. e.0) snapshots)

    abbrev pub missing_events : List String → List Event
    missing_events [] = []
    missing_events names =
        record {
          control = "transaction";
          action = Action.rolled_back;
          result = values.unavailable names;
        }
        ∷ []

    abbrev pub is_nil : List String → Bool
    is_nil [] = true
    is_nil (_ ∷ _) = false

    unfoldable pub restore : List HostControl → System → TransactionResult × System
    unfolding restore_all missing
    restore controls s = elim s.file [
      | none ↦ (record { passed = true; events = [] }, s)
      | some snapshots ↦
          let names = missing snapshots controls in
          let (rest, h) = restore_all snapshots (reversed controls) s.host in
          let passed = is_nil names && rest.passed in
          (
            record { passed = passed; events = missing_events names ++ rest.events },
            record { host = h; file = if passed then none else some snapshots },
          )
    ]
