-- ===== src/Worker/Execute.antt =====
-- main.py, `execute_job`. The handlers of the job kinds are parameters: what a handler does to the
-- database, and whether it returns, defers or raises. So are the clock at each of its readings and what
-- `publish_event` raises. Where it raises after a failure, the exception leaves `execute_job`, with the
-- store as it is then.
use ecoroute_ht.Base.{
  ℕ, ◌+◌, String, Bool, true, false, ◌||◌, [], ◌∷◌, ◌++◌, Option, none, some, ltb, if◌then◌else◌,
}
use Prim.Native.String.{◌++◌ as append}
use ecoroute_ht.Schemas.{Uuid}
use ecoroute_ht.Worker.Jobs.{
  Job, JobStatus, Kind, Store, EventType, is_dataset, is_training, get_job, put_job,
  set_domain_failure, finish_job, defer_job, fail_or_retry, job_error,
}

pub data HandlerResult : Type 0 where
  returned : String → HandlerResult
  deferred : ℕ → String → HandlerResult
  -- a PermanentJobError or ValueError, and any other exception: its type's name and its text
  raised_permanent raised : String → String → HandlerResult

abbrev pub Handler : Type 0
Handler = Job → Store → HandlerResult × Store

abbrev pub is_terminal : JobStatus → Bool
is_terminal JobStatus.completed = true
is_terminal JobStatus.cancelled = true
is_terminal JobStatus.failed = true
is_terminal _ = false

abbrev pub is_failed : JobStatus → Bool
is_failed JobStatus.failed = true
is_failed _ = false

abbrev pub completion_event : Kind → Option Uuid → EventType
completion_event Kind.demo_load (some _) = EventType.benchmark_status
completion_event Kind.carbon_refresh _ = EventType.carbon_updated
completion_event Kind.cache_cleanup _ = EventType.cache_invalidated
completion_event Kind.endpoint_health _ = EventType.endpoint_health
completion_event k _ =
    if is_training k || is_dataset k then EventType.training_status else EventType.route_completed

-- the type's name and the text of an exception, and whether it is a PermanentJobError or ValueError
pub record Failure : Type 0 where
  pub name : String
  pub message : String
  pub permanent : Bool

-- utcnow() at each of its calls in a run, and what publish_event raises in it, if it does
pub record Moments : Type 0 where
  pub tested : ℕ  -- at the test of available_at
  pub locked : ℕ  -- where the row is locked
  pub ended : ℕ  -- where the job is finished, deferred, failed or retried
  pub failed : ℕ  -- where it is failed or retried after its event could not be published
  pub raises : EventType → Option Failure

abbrev pub publish : Moments → EventType → Uuid → Store → Store
publish r e id s = elim (r.raises e) [
  | none ↦ record s { events = s.events ++ (e, id) ∷ [] }
  | some f ↦ s
]

-- the part after an exception; the row is that of the failed or retried job
unfoldable pub fail : Moments → ℕ → Job → Failure → Store → Store
unfolding fail_or_retry get_job set_domain_failure job_error
fail r now job f s =
    let next = fail_or_retry now job.id (job_error f.name f.message) f.permanent s in
    elim (get_job job.id next.jobs) [
      | none ↦ next
      | some row ↦
          if is_failed row.status
          then publish r
              (if is_training job.kind || is_dataset job.kind
                then EventType.training_status
                else EventType.route_failed)
              job.id (set_domain_failure row f.message next)
          else next
    ]

-- the event of a finished job, published inside the `try` block
unfoldable pub announce : Moments → Job → EventType → Option Failure → Store → Store
unfolding fail
announce r job e none s = publish r e job.id s
announce r job e (some f) s = fail r r.failed job f s

-- the row is as the handler left it, with the columns that the event depends on
unfoldable pub after_finish : Moments → Job → Option Job → Store → Store
unfolding announce
after_finish r job none s = s
after_finish r job (some row) s =
    announce r job (completion_event job.kind row.benchmark_id)
      (r.raises (completion_event job.kind row.benchmark_id)) s

-- the part after the handler has returned a result
unfoldable pub complete : Moments → Job → String → Store → Store
unfolding finish_job get_job after_finish
complete r job output s =
    after_finish r job (get_job job.id s.jobs) (finish_job r.ended job.id output s)

-- an unsupported kind fails at once, with no event
unfoldable pub reject : ℕ → Job → String → Store → Store
unfolding fail_or_retry get_job set_domain_failure job_error
reject now job kind s =
    let message = append "unsupported job kind: " kind in
    let next = fail_or_retry now job.id (job_error "PermanentJobError" message) true s in
    elim (get_job job.id next.jobs) [ none ↦ next | some row ↦ set_domain_failure row message next ]

abbrev pub failure_of : String → String → Bool → Failure
failure_of name message permanent = record { name = name; message = message; permanent = permanent }

unfoldable pub settle : Moments → Job → HandlerResult × Store → Store
unfolding complete fail defer_job
settle r job (HandlerResult.returned output, s) = complete r job output s
settle r job (HandlerResult.deferred delay output, s) = defer_job r.ended job.id delay output s
settle r job (HandlerResult.raised_permanent name message, s) =
    fail r r.ended job (failure_of name message true) s
settle r job (HandlerResult.raised name message, s) =
    fail r r.ended job (failure_of name message false) s

abbrev pub started : ℕ → Job → Job
started now j = record j {
  status = JobStatus.running;
  locked_at = some now;
  attempts = j.attempts + 1;
}

-- HANDLERS.get(kind), and the run of the handler on the row as it was committed
unfoldable pub dispatch : (Kind → Handler) → Moments → Job → Kind → Store → Store
unfolding settle reject
dispatch handlers r job (Kind.unsupported kind) s = reject r.ended job kind s
dispatch handlers r job kind s = settle r job (handlers kind (started r.locked job) s)

abbrev pub released : Job → Job
released j = record j { locked_at = none }

-- the run of a due job
unfoldable pub run_job : (Kind → Handler) → Moments → Job → Store → Store
unfolding put_job dispatch
run_job handlers r job s =
    dispatch handlers r job job.kind (record s { jobs = put_job job.id (started r.locked) s.jobs })

-- the row as it was selected, `none` where there is none or another transaction holds it
unfoldable pub execute_row : (Kind → Handler) → Moments → Option Job → Store → Store
unfolding run_job put_job
execute_row handlers r none s = s
execute_row handlers r (some job) s =
    if is_terminal job.status
    then s
    else if ltb r.tested job.available_at
    then record s { jobs = put_job job.id released s.jobs }
    else run_job handlers r job s

-- `free` says that no other transaction holds the row (skip_locked)
unfoldable pub execute_job : (Kind → Handler) → Moments → Bool → Uuid → Store → Store
unfolding execute_row get_job
execute_job handlers r free id s =
    execute_row handlers r (if free then get_job id s.jobs else none) s
