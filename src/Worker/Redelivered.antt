-- ===== src/Worker/Redelivered.antt =====
-- main.py: a job whose handler returns, when its id is delivered again, and when the event of its end
-- cannot be published.
use ecoroute_ht.Base.{ℕ, ◌+◌, ◌≡◌, refl, ap, ◌∙◌, String, true, false, List, none, some, ◌≤◌}
use ecoroute_ht.Schemas.{Uuid}
use ecoroute_ht.Worker.Jobs.{Job, JobStatus, Kind, Store, get_job, retried, retry_delay, job_error}
use ecoroute_ht.Worker.Execute.{
  Handler, HandlerResult, Moments, Failure, completion_event, started, is_terminal, execute_job,
}
use ecoroute_ht.Worker.Retries.{
  KeepsRow, row_after, row_after_event, finished, handled, is_supported, execute_job-row,
}
use ecoroute_ht.Worker.Limits.{runs, ended_runs}

-- The row of a job that ended with a result at one time, and is queued again at another.
abbrev pub requeued : ℕ → ℕ → String → Failure → Job → Job
requeued ended failed output f j = record j {
  status = JobStatus.queued;
  output = some output;
  error = some (job_error f.name f.message);
  attempts = 1;
  locked_at = none;
  available_at = failed + 15;
  completed_at = some ended;
}

module _ (h : Kind → Handler) (keeps : (k : Kind) → KeepsRow (h k)) (id : Uuid) where
  returned_row :
      (r : Moments)
      → (s : Store) → (job : Job) → (output : String) → get_job id s.jobs ≡ some job
      → is_terminal job.status ≡ false
      → is_supported job.kind ≡ true
      → job.available_at ≤ r.tested
      → (handled h r job s).0 ≡ HandlerResult.returned output
      → get_job id (execute_job h r true id s).jobs
        ≡ some (
            row_after_event r.failed
              (r.raises (completion_event job.kind job.benchmark_id))
              (finished r.ended output (started r.locked job)))
  unfolding row_after
  returned_row r s job output found live supported due e =
      execute_job-row h keeps r id s job found live supported due
      ∙ ap (λ o. some (row_after r o (started r.locked job))) e

  -- A due job of a supported kind, whose handlers leave its row alone, whose handler returns a result
  -- and whose event is published, is completed with that result by one run, and no later delivery of
  -- its id, at any time, changes the store.
  pub execute_job-once :
      (r : Moments)
      → (s : Store) → (job : Job) → (output : String) → (later : List Moments)
      → get_job id s.jobs ≡ some job
      → is_terminal job.status ≡ false
      → is_supported job.kind ≡ true
      → job.available_at ≤ r.tested
      → (handled h r job s).0 ≡ HandlerResult.returned output
      → r.raises (completion_event job.kind job.benchmark_id) ≡ none
      → (get_job id (execute_job h r true id s).jobs
          ≡ some (record job {
            status = JobStatus.completed;
            output = some output;
            error = none;
            attempts = job.attempts + 1;
            locked_at = none;
            completed_at = some r.ended;
          }))
        × (runs h later id (execute_job h r true id s) ≡ execute_job h r true id s)
  unfolding row_after_event
  execute_job-once r s job output later found live supported due e quiet =
      let row =
        returned_row r s job output found live supported due e
        ∙ ap
            (λ o.
              some (row_after_event r.failed o (finished r.ended output (started r.locked job))))
            quiet in
      (row, ended_runs h keeps id later (execute_job h r true id s) _ row refl)

  -- Where the event of a first run's result cannot be published, for a reason that is not permanent,
  -- the finished job is queued again with its result, for 15 seconds after that failure; a run then
  -- calls the handler once more, and completes it with the second result and two attempts.
  pub execute_job-again :
      (r₁ r₂ : Moments)
      → (s : Store) → (job : Job) → (f : Failure) → (output₁ output₂ : String)
      → get_job id s.jobs ≡ some job
      → is_terminal job.status ≡ false
      → is_supported job.kind ≡ true
      → job.attempts ≡ 0
      → job.available_at ≤ r₁.tested
      → ((j : Job) → (t : Store) → (handled h r₁ j t).0 ≡ HandlerResult.returned output₁)
      → r₁.raises (completion_event job.kind job.benchmark_id) ≡ some f
      → f.permanent ≡ false
      → r₁.failed + 15 ≤ r₂.tested
      → ((j : Job) → (t : Store) → (handled h r₂ j t).0 ≡ HandlerResult.returned output₂)
      → r₂.raises (completion_event job.kind job.benchmark_id) ≡ none
      → (s₁ s₂ : Store) → s₁ ≡ execute_job h r₁ true id s
      → s₂ ≡ execute_job h r₂ true id s₁
      → (get_job id s₁.jobs ≡ some (requeued r₁.ended r₁.failed output₁ f job))
        × (get_job id s₂.jobs
            ≡ some (record job {
              status = JobStatus.completed;
              output = some output₂;
              error = none;
              attempts = 2;
              locked_at = none;
              available_at = r₁.failed + 15;
              completed_at = some r₂.ended;
            }))
  unfolding row_after_event retried retry_delay
  execute_job-again r₁ r₂ s job f output₁ output₂ found live supported zero due₁ e₁ loud retry due₂
        e₂ quiet s₁ s₂ is₁ is₂ =
      let row₁ : get_job id s₁.jobs ≡ some (requeued r₁.ended r₁.failed output₁ f job) =
        ap (λ (t : Store). get_job id t.jobs) is₁
        ∙ returned_row r₁ s job output₁ found live supported due₁ (e₁ job s)
        ∙ rw (loud, retry, zero) refl in
      (
        row₁,
        ap (λ (t : Store). get_job id t.jobs) is₂
            ∙ returned_row r₂ s₁ (requeued r₁.ended r₁.failed output₁ f job) output₂ row₁ refl
                supported due₂ (e₂ (requeued r₁.ended r₁.failed output₁ f job) s₁)
            ∙ rw quiet refl,
      )
