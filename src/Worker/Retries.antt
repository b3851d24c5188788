-- ===== src/Worker/Retries.antt =====
-- main.py: what a run of `execute_job` leaves in the row of its job.
use ecoroute_ht.Base.{
  ℕ, ◌+◌, ◌≡◌, refl, sym, subst, ap, ◌∙◌, String, Bool, true, false, List, [], ◌∷◌, Option, none,
  some, find?, ◌==◌, ltb, Bool-cases, inl, inr, ◌≤◌, ◌<◌, find?-Member, ==_iff,
}
use mathlib.Core.Option.{map as option_map}
use native.Mathlib.Omega.{arith}
use ecoroute_ht.Schemas.{Uuid}
use ecoroute_ht.Worker.Jobs.{
  Job, JobStatus, Kind, EventType, Store, get_job, put_job, finish_job, defer_job, fail_or_retry,
  retried, job_error,
}
use ecoroute_ht.Worker.Execute.{
  Handler, HandlerResult, Failure, Moments, failure_of, completion_event, started, released,
  is_terminal, announce, after_finish, complete, fail, settle, dispatch, run_job, execute_job,
  execute_row,
}

-- The row of a job that a handler has returned a result for.
abbrev pub finished : ℕ → String → Job → Job
finished now output j = record j {
  output = some output;
  status = JobStatus.completed;
  error = none;
  locked_at = none;
  completed_at = some now;
}

unfoldable pub row_after_event : ℕ → Option Failure → Job → Job
unfolding retried job_error
row_after_event now none j = j
row_after_event now (some f) j = retried now (job_error f.name f.message) f.permanent j

-- The row that a run of a supported job leaves, by what its handler did.
unfoldable pub row_after : Moments → HandlerResult → Job → Job
unfolding retried job_error row_after_event
row_after r (HandlerResult.returned output) j =
    row_after_event r.failed (r.raises (completion_event j.kind j.benchmark_id))
      (finished r.ended output j)
row_after r (HandlerResult.deferred delay output) j = record j {
  output = some output;
  status = JobStatus.queued;
  locked_at = none;
  available_at = r.ended + delay;
}
row_after r (HandlerResult.raised_permanent name message) j =
    retried r.ended (job_error name message) true j
row_after r (HandlerResult.raised name message) j = retried r.ended (job_error name message) false j

-- A handler that leaves its own row of the jobs alone.
unfoldable pub KeepsRow : Handler → Type 0
unfolding get_job
KeepsRow h = (j : Job) → (s : Store) → get_job j.id (h j s).1.jobs ≡ get_job j.id s.jobs

find-id : (id : Uuid) → (js : List Job) → (j : Job) → get_job id js ≡ some j → j.id ≡ id
unfolding get_job
find-id id js j e = (==_iff j.id id).0 (find?-Member (λ x. x.id == id) j js e).1

-- Reading back a changed row.
pub get_job-put_job :
    (id : Uuid)
    → (f : Job → Job) → ((j : Job) → (f j).id ≡ j.id)
    → (js : List Job) → get_job id (put_job id f js) ≡ option_map f (get_job id js)
unfolding get_job put_job find?
get_job-put_job id f keeps [] = refl
get_job-put_job id f keeps (j ∷ js) =
    let rest = get_job-put_job id f keeps js in
    elim (Bool-cases (j.id == id)) [
      | inl t ↦ rw t (rw (keeps j) (rw t refl))
      | inr n ↦ rw n (rw n rest)
    ]

abbrev pub is_supported : Kind → Bool
is_supported (Kind.unsupported _) = false
is_supported _ = true

dispatch-supported :
    (h : Kind → Handler)
    → (r : Moments) → (job : Job) → (k : Kind) → (s : Store) → is_supported k ≡ true
    → dispatch h r job k s ≡ settle r job (h k (started r.locked job) s)
unfolding dispatch
dispatch-supported h r job (Kind.unsupported _) s e = cc
dispatch-supported h r job _ s e = refl

fail-jobs :
    (r : Moments)
    → (now : ℕ) → (job : Job) → (f : Failure) → (s : Store)
    → (fail r now job f s).jobs
      ≡ (fail_or_retry now job.id (job_error f.name f.message) f.permanent s).jobs
unfolding fail
fail-jobs r now job f s = ground arith

retried-id :
    (now : ℕ)
    → (message : String) → (permanent : Bool) → (j : Job)
    → (retried now message permanent j).id ≡ j.id
unfolding retried
retried-id now message permanent j = ground arith

fail-row :
    (r : Moments)
    → (now : ℕ) → (job : Job) → (f : Failure) → (s : Store)
    → get_job job.id (fail r now job f s).jobs
      ≡ option_map (retried now (job_error f.name f.message) f.permanent) (get_job job.id s.jobs)
unfolding fail_or_retry
fail-row r now job f s = rw (fail-jobs r now job f s) (
    get_job-put_job job.id (retried now (job_error f.name f.message) f.permanent)
      (retried-id now (job_error f.name f.message) f.permanent) s.jobs)

announce-some :
    (r : Moments)
    → (job : Job) → (e : EventType) → (f : Failure) → (s : Store)
    → announce r job e (some f) s ≡ fail r r.failed job f s
unfolding announce
announce-some r job e f s = refl

-- an event changes no row
publish-jobs :
    (r : Moments)
    → (job : Job) → (e : EventType) → (s : Store) → (announce r job e none s).jobs ≡ s.jobs
unfolding announce
publish-jobs r job e s = ground arith

announce-row :
    (r : Moments)
    → (job x : Job) → (e : EventType) → (o : Option Failure) → (s : Store)
    → get_job job.id s.jobs ≡ some x
    → get_job job.id (announce r job e o s).jobs ≡ some (row_after_event r.failed o x)
unfolding row_after_event
announce-row r job x e none s found = rw (publish-jobs r job e s) found
announce-row r job x e (some f) s found =
    ap (get_job job.id) (ap (λ t. t.jobs) (announce-some r job e f s))
    ∙ fail-row r r.failed job f s
    ∙ ap (option_map (retried r.failed (job_error f.name f.message) f.permanent)) found

-- The part after the handler leaves the row that `row_after` says, in place of the started one.
settle-row :
    (r : Moments)
    → (job : Job) → (o : HandlerResult) → (s : Store)
    → get_job job.id s.jobs ≡ some (started r.locked job)
    → get_job job.id (settle r job (o, s)).jobs ≡ some (row_after r o (started r.locked job))
unfolding settle row_after finish_job complete defer_job after_finish
settle-row r job (HandlerResult.returned output) s found =
    let done =
      get_job-put_job job.id (finished r.ended output) (λ j. refl) s.jobs
      ∙ ap (option_map (finished r.ended output)) found in
    ap (λ o. get_job job.id (after_finish r job o (finish_job r.ended job.id output s)).jobs) found
    ∙ announce-row r job (finished r.ended output (started r.locked job))
        (completion_event job.kind job.benchmark_id)
        (r.raises (completion_event job.kind job.benchmark_id)) (finish_job r.ended job.id output s)
        done
settle-row r job (HandlerResult.deferred delay output) s found =
    get_job-put_job job.id (row_after r (HandlerResult.deferred delay output)) (λ j. refl) s.jobs
    ∙ ap (option_map (row_after r (HandlerResult.deferred delay output))) found
settle-row r job (HandlerResult.raised_permanent name message) s found =
    fail-row r r.ended job (failure_of name message true) s
    ∙ ap (option_map (retried r.ended (job_error name message) true)) found
settle-row r job (HandlerResult.raised name message) s found =
    fail-row r r.ended job (failure_of name message false) s
    ∙ ap (option_map (retried r.ended (job_error name message) false)) found

-- What the handler of a due job answers, on the row as it was committed.
abbrev pub handled : (Kind → Handler) → Moments → Job → Store → HandlerResult × Store
handled h r job s =
    h job.kind (started r.locked job) (record s { jobs = put_job job.id (started r.locked) s.jobs })

run_job-row :
    (h : Kind → Handler)
    → ((k : Kind) → KeepsRow (h k))
    → (r : Moments) → (s : Store) → (job : Job) → get_job job.id s.jobs ≡ some job
    → is_supported job.kind ≡ true
    → get_job job.id (run_job h r job s).jobs
      ≡ some (row_after r (handled h r job s).0 (started r.locked job))
unfolding run_job KeepsRow
run_job-row h keeps r s job found supported =
    let s' = record s { jobs = put_job job.id (started r.locked) s.jobs } in
    let kept = keeps job.kind (started r.locked job) s' in
    let begun = get_job-put_job job.id (started r.locked) (λ j. refl) s.jobs in
    rw (dispatch-supported h r job job.kind s' supported) (
      settle-row r job (handled h r job s).0 (handled h r job s).1
        (kept ∙ begun ∙ ap (option_map (started r.locked)) found))

-- A run of a due job, whose handler leaves its own row alone, leaves in the store the row that
-- `row_after` says for what the handler answered, with one attempt more.
pub execute_job-row :
    (h : Kind → Handler)
    → ((k : Kind) → KeepsRow (h k))
    → (r : Moments) → (id : Uuid) → (s : Store) → (job : Job) → get_job id s.jobs ≡ some job
    → is_terminal job.status ≡ false
    → is_supported job.kind ≡ true
    → job.available_at ≤ r.tested
    → get_job id (execute_job h r true id s).jobs
      ≡ some (row_after r (handled h r job s).0 (started r.locked job))
unfolding execute_job execute_row
execute_job-row h keeps r id s job found live supported due =
    let not_early : ltb r.tested job.available_at ≡ false = ground arith in
    let same = find-id id s.jobs job found in
    let found' = subst (λ i. get_job i s.jobs ≡ some job) (sym same) found in
    rw found (
      rw live (
        rw not_early (
          subst
            (λ i.
              get_job i (run_job h r job s).jobs
              ≡ some (row_after r (handled h r job s).0 (started r.locked job)))
            same (run_job-row h keeps r s job found' supported))))

-- A job before its time is not run: only its lock is lifted.
pub execute_job-early :
    (h : Kind → Handler)
    → (r : Moments) → (id : Uuid) → (s : Store) → (job : Job) → get_job id s.jobs ≡ some job
    → is_terminal job.status ≡ false
    → r.tested < job.available_at
    → get_job id (execute_job h r true id s).jobs ≡ some (released job)
unfolding execute_job execute_row
execute_job-early h r id s job found live early =
    let too_early : ltb r.tested job.available_at ≡ true = ground arith in
    let same = find-id id s.jobs job found in
    rw found (
      rw live (
        rw too_early (
          ap (λ i. get_job id (put_job i released s.jobs)) same
          ∙ get_job-put_job id released (λ j. refl) s.jobs
          ∙ ap (option_map released) found)))

-- A job that has ended is not run again, whoever asks.
pub execute_job-terminal :
    (h : Kind → Handler)
    → (r : Moments) → (free : Bool) → (id : Uuid) → (s : Store) → (job : Job)
    → get_job id s.jobs ≡ some job
    → is_terminal job.status ≡ true
    → execute_job h r free id s ≡ s
unfolding execute_job execute_row
execute_job-terminal h r free id s job found ended = ground arith
