-- ===== src/Examples/Working.antt =====
-- main.py on a store of one job, with a handler that always raises and one that polls.
use ecoroute_ht.Base.{
  ℕ, ◌≡◌, refl, true, false, [], ◌∷◌, none, some, ltb, arith, if◌then◌else◌, ◌<◌, ◌≤◌, find?,
}
use ecoroute_ht.Worker.Jobs.{Job, JobStatus, Kind, Store, get_job}
use ecoroute_ht.Worker.Execute.{Handler, HandlerResult, Moments, failure_of, execute_job}
use ecoroute_ht.Worker.Redelivered.{requeued, execute_job-once, execute_job-again}
use ecoroute_ht.Worker.Retries.{KeepsRow, handled}
use ecoroute_ht.Worker.Limits.{runs, IsRow, Raises, Defers, raising-fails, deferred-fails}

abbrev pub job : Job
job = record {
  id = 7;
  kind = Kind.training_poll;
  idempotency_key = "poll-3-1";
  status = JobStatus.queued;
  attempts = 0;
  available_at = 100;
  locked_at = none;
  completed_at = none;
  error = none;
  output = none;
  dataset_id = none;
  training_run_id = some 3;
  benchmark_id = none;
}

abbrev store : Store
store = record { jobs = job ∷ []; datasets = []; runs = []; events = [] }

abbrev failing : Kind → Handler
failing k j s = (HandlerResult.raised "TimeoutError" "timed out", s)

abbrev polling : Kind → Handler
polling k j s = (
  if ltb j.attempts 4
      then HandlerResult.deferred 15 "running"
      else HandlerResult.raised "TimeoutError" "timed out",
  s,
)

failing-KeepsRow : (k : Kind) → KeepsRow (failing k)
unfolding KeepsRow
failing-KeepsRow k j s = refl

polling-KeepsRow : (k : Kind) → KeepsRow (polling k)
unfolding KeepsRow
polling-KeepsRow k j s = refl

abbrev at : ℕ → Moments
at t = record { tested = t; locked = t; ended = t; failed = t; raises = λ e. none }

-- Redis does not answer where the event of the job's end is published
abbrev without_redis : ℕ → Moments
without_redis t = record (at t) {
  raises = λ e. some (failure_of "ConnectionError" "refused" false);
}

failing-Raises : (r : Moments) → (j : Job) → (s : Store) → Raises (handled failing r j s).0
failing-Raises r j s = ("TimeoutError", ("timed out", refl))

polling-Defers :
    (r : Moments) → (j : Job) → (s : Store) → j.attempts < 3 → Defers 15 (handled polling r j s).0
polling-Defers r j s few = ("running", ground arith)

polling-Raises :
    (r : Moments) → (j : Job) → (s : Store) → 3 ≤ j.attempts → Raises (handled polling r j s).0
polling-Raises r j s many = ("TimeoutError", ("timed out", ground arith))

abbrev returning : Kind → Handler
returning k j s = (HandlerResult.returned "done", s)

returning-KeepsRow : (k : Kind) → KeepsRow (returning k)
unfolding KeepsRow
returning-KeepsRow k j s = refl

waiting : IsRow 7 JobStatus.queued 0 100 store
unfolding get_job find?
waiting = record {
  row = job;
  found = refl;
  in_status = refl;
  after_runs = refl;
  due_at = refl;
  supported = refl;
}

abbrev once : Store
once = runs failing (at 100 ∷ at 105 ∷ at 110 ∷ []) 7 store

abbrev twice : Store
twice = runs failing (at 115 ∷ at 174 ∷ []) 7 once

abbrev thrice : Store
thrice = runs failing (at 175 ∷ []) 7 twice

abbrev out_of_runs : Store
out_of_runs = execute_job failing (at 475) true 7 thrice

raising-fails_example :
    IsRow 7 JobStatus.queued 1 115 once
    × IsRow 7 JobStatus.queued 2 175 twice
    × IsRow 7 JobStatus.queued 3 475 thrice
    × IsRow 7 JobStatus.failed 4 475 out_of_runs
    × (runs failing (at 476 ∷ at 900 ∷ []) 7 out_of_runs ≡ out_of_runs)
raising-fails_example =
    raising-fails failing failing-KeepsRow 7 failing-Raises 100 (at 100) (at 115) (at 175) (at 475)
      (at 105 ∷ at 110 ∷ []) (at 174 ∷ []) [] (at 476 ∷ at 900 ∷ []) store waiting (omega arith)
      (omega arith, (omega arith, tt)) (omega arith) (omega arith, tt) (omega arith) tt
      (omega arith) once twice thrice out_of_runs refl refl refl refl

deferred-fails_example :
    IsRow 7 JobStatus.failed 4 145 (runs polling (at 100 ∷ at 115 ∷ at 130 ∷ at 145 ∷ []) 7 store)
deferred-fails_example =
    deferred-fails polling polling-KeepsRow 7 15 polling-Defers polling-Raises 100 (at 100) (at 115)
      (at 130) (at 145) store waiting (omega arith) (omega arith) (omega arith) (omega arith)

execute_job-once_example :
    (get_job 7 (execute_job returning (at 120) true 7 store).jobs
      ≡ some (record job {
        status = JobStatus.completed;
        output = some "done";
        attempts = 1;
        completed_at = some 120;
      }))
    × (runs returning (at 121 ∷ at 180 ∷ []) 7 (execute_job returning (at 120) true 7 store)
        ≡ execute_job returning (at 120) true 7 store)
unfolding get_job find?
execute_job-once_example =
    execute_job-once returning returning-KeepsRow 7 (at 120) store job "done" (at 121 ∷ at 180 ∷ [])
      refl refl refl (omega arith) refl refl

abbrev unpublished : Store
unpublished = execute_job returning (without_redis 120) true 7 store

abbrev published : Store
published = execute_job returning (at 135) true 7 unpublished

execute_job-again_example :
    (get_job 7 unpublished.jobs
      ≡ some (requeued 120 120 "done" (failure_of "ConnectionError" "refused" false) job))
    × (get_job 7 published.jobs
        ≡ some (record job {
          status = JobStatus.completed;
          output = some "done";
          attempts = 2;
          available_at = 135;
          completed_at = some 135;
        }))
unfolding get_job find?
execute_job-again_example =
    execute_job-again returning returning-KeepsRow 7 (without_redis 120) (at 135) store job
      (failure_of "ConnectionError" "refused" false) "done" "done" refl refl refl refl (omega arith)
      (λ j t. refl) refl refl (omega arith) (λ j t. refl) refl unpublished published refl refl
