-- ===== src/Worker/Jobs.antt =====
-- worker/ecoroute_worker/main.py: the rows that a worker reads and writes, and the ends of a job.
-- A time is a number of seconds, and the tables are lists of rows with distinct ids.
use text.Mathlib.Text.{starts_with}
use Prim.Native.String.{slice, find, [], ◌∷◌, ◌++◌ as append}
use Prim.Native.Nat.{zero, suc}
use ecoroute_ht.Base.{
  ℕ, ◌+◌, String, Bool, true, false, not, ◌&&◌, List, map, Option, none, some, find?, ◌==◌, leb,
  if◌then◌else◌,
}
use ecoroute_ht.Schemas.{Uuid}

pub data JobStatus : Type 0 where
  queued running completed failed cancelled : JobStatus

-- The keys of HANDLERS, and any other text.
pub data Kind : Type 0 where
  dataset_generate dataset_finalize training_validate training_launch training_poll : Kind
  training_evaluate training_deploy training_export training_cancel endpoint_health : Kind
  carbon_refresh cache_cleanup retention_cleanup report_generate demo_load : Kind
  unsupported : String → Kind

pub data DatasetStatus : Type 0 where
  draft generating review_required approved failed : DatasetStatus

pub data RunStatus : Type 0 where
  draft generating review_required approved validating queued training evaluating : RunStatus
  completed deploying deployed cancelling cancelled failed exported : RunStatus

pub record Job : Type 0 where
  pub id : Uuid
  pub kind : Kind
  pub idempotency_key : String
  pub status : JobStatus
  pub attempts : ℕ
  pub available_at : ℕ
  pub locked_at : Option ℕ
  pub completed_at : Option ℕ
  pub error : Option String
  pub output : Option String
  pub dataset_id : Option Uuid  -- input["dataset_id"]
  pub training_run_id : Option Uuid  -- input["training_run_id"]
  pub benchmark_id : Option Uuid  -- input["benchmark_id"]

pub record Dataset : Type 0 where
  pub id : Uuid
  pub status : DatasetStatus

pub record Run : Type 0 where
  pub id : Uuid
  pub status : RunStatus
  pub error_code : Option String
  pub error_message : Option String

pub data EventType : Type 0 where
  training_status benchmark_status carbon_updated cache_invalidated endpoint_health : EventType
  route_completed route_failed : EventType

-- The database, and the events published so far.
pub record Store : Type 0 where
  pub jobs : List Job
  pub datasets : List Dataset
  pub runs : List Run
  pub events : List (EventType × Uuid)

-- kind.startswith("dataset.")
abbrev pub is_dataset : Kind → Bool
is_dataset Kind.dataset_generate = true
is_dataset Kind.dataset_finalize = true
is_dataset (Kind.unsupported s) = starts_with s "dataset."
is_dataset _ = false

abbrev pub is_training : Kind → Bool
is_training Kind.training_validate = true
is_training Kind.training_launch = true
is_training Kind.training_poll = true
is_training Kind.training_evaluate = true
is_training Kind.training_deploy = true
is_training Kind.training_export = true
is_training Kind.training_cancel = true
is_training (Kind.unsupported s) = starts_with s "training."
is_training _ = false

unfoldable pub get_job : Uuid → List Job → Option Job
get_job id = find? (λ j. j.id == id)

unfoldable pub put_job : Uuid → (Job → Job) → List Job → List Job
put_job id f = map (λ j. if j.id == id then f j else j)

abbrev is_approved : DatasetStatus → Bool
is_approved DatasetStatus.approved = true
is_approved _ = false

-- run.status in {"cancelled", "deployed", "exported"}
abbrev pub is_settled : RunStatus → Bool
is_settled RunStatus.cancelled = true
is_settled RunStatus.deployed = true
is_settled RunStatus.exported = true
is_settled _ = false

abbrev pub fail_dataset : Dataset → Dataset
fail_dataset d = if is_approved d.status then d else record d { status = DatasetStatus.failed }

-- text[:n]
unfoldable pub first : ℕ → String → String
first zero _ = []
first (suc n) [] = []
first (suc n) (c ∷ s) = c ∷ first n s

-- message.split(":", 1)[0][:100]; where there is no colon, `find` is past the end of the text
unfoldable pub error_code : String → String
unfolding first
error_code message = first 100 (slice message 0 (find message ":"))

-- f"{type(exc).__name__}: {str(exc)[:9000]}"
unfoldable pub job_error : String → String → String
unfolding first
job_error name message = append name (append ": " (first 9000 message))

abbrev pub fail_run : String → Run → Run
fail_run message r = if is_settled r.status then r else record r {
  status = RunStatus.failed;
  error_code = some (error_code message);
  error_message = some (first 10000 message);
}

-- rows named by an optional id of the job's input
abbrev with_id : Option Uuid → Uuid → Bool
with_id none id = false
with_id (some i) id = id == i

unfoldable pub set_domain_failure : Job → String → Store → Store
set_domain_failure job message s = record s {
  datasets =
      map (λ d. if is_dataset job.kind && with_id job.dataset_id d.id then fail_dataset d else d)
        s.datasets;
  runs =
      map
        (λ r.
          if is_training job.kind && with_id job.training_run_id r.id
          then fail_run message r
          else r)
        s.runs;
}

-- Each of the next three ends a run of the job `id`, if its row is still there.
unfoldable pub finish_job : ℕ → Uuid → String → Store → Store
unfolding put_job
finish_job now id output s = record s {
  jobs =
      put_job id
        (λ j. record j {
          output = some output;
          status = JobStatus.completed;
          error = none;
          locked_at = none;
          completed_at = some now;
        })
        s.jobs;
}

unfoldable pub defer_job : ℕ → Uuid → ℕ → String → Store → Store
unfolding put_job
defer_job now id delay output s = record s {
  jobs =
      put_job id
        (λ j. record j {
          output = some output;
          status = JobStatus.queued;
          locked_at = none;
          available_at = now + delay;
        })
        s.jobs;
}

-- RETRY_SECONDS[attempts - 1]; the index -1 is that of the last
unfoldable pub retry_delay : ℕ → ℕ
retry_delay attempts = if attempts == 1 then 15 else if attempts == 2 then 60 else 300

abbrev pub retry_limit : ℕ
retry_limit = 3  -- len(RETRY_SECONDS)

unfoldable pub retried : ℕ → String → Bool → Job → Job
unfolding retry_delay
retried now message permanent j =
    if not permanent && leb j.attempts retry_limit
    then record j {
      error = some message;
      locked_at = none;
      status = JobStatus.queued;
      available_at = now + retry_delay j.attempts;
    }
    else record j {
      error = some message;
      locked_at = none;
      status = JobStatus.failed;
      completed_at = some now;
    }

unfoldable pub fail_or_retry : ℕ → Uuid → String → Bool → Store → Store
unfolding put_job retried
fail_or_retry now id message permanent s = record s {
  jobs = put_job id (retried now message permanent) s.jobs;
}
