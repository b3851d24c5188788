-- ===== src/Worker/Limits.antt =====
-- main.py: how many runs a job gets, with RETRY_SECONDS and the attempts that every run counts.
use ecoroute_ht.Base.{
  ℕ, ◌+◌, ◌≡◌, refl, sym, subst, ap, ◌∙◌, String, true, false, List, [], ◌∷◌, none, some, ◌≤◌, ◌<◌,
  leb, All,
}
use native.Mathlib.Omega.{arith}
use ecoroute_ht.Schemas.{Uuid}
use ecoroute_ht.Worker.Jobs.{Job, JobStatus, Kind, Store, get_job, retried, retry_delay, job_error}
use ecoroute_ht.Worker.Execute.{Handler, HandlerResult, Moments, started, is_terminal, execute_job}
use ecoroute_ht.Worker.Retries.{
  KeepsRow, row_after, handled, is_supported, execute_job-row, execute_job-early,
  execute_job-terminal,
}

-- The worker gets the id of the same job once and again.
unfoldable pub runs : (Kind → Handler) → List Moments → Uuid → Store → Store
unfolding execute_job
runs h [] id s = s
runs h (r ∷ rs) id s = runs h rs id (execute_job h r true id s)

-- The row of `id` is a job of a supported kind in a state, after so many runs.
pub record IsRow (id : Uuid) (status : JobStatus) (attempts : ℕ) (available_at : ℕ) (s : Store)
    : Type 0 where
  pub row : Job
  pub found : get_job id s.jobs ≡ some row
  pub in_status : row.status ≡ status
  pub after_runs : row.attempts ≡ attempts
  pub due_at : row.available_at ≡ available_at
  pub supported : is_supported row.kind ≡ true

abbrev pub Raises : HandlerResult → Type 0
Raises r = (name : String) × ((message : String) × (r ≡ HandlerResult.raised name message))

abbrev pub Defers : ℕ → HandlerResult → Type 0
Defers delay r = (output : String) × (r ≡ HandlerResult.deferred delay output)

abbrev again : ℕ → String → Job → Job
again now message j = record j {
  error = some message;
  locked_at = none;
  status = JobStatus.queued;
  available_at = now + retry_delay j.attempts;
}

abbrev out : ℕ → String → Job → Job
out now message j = record j {
  error = some message;
  locked_at = none;
  status = JobStatus.failed;
  completed_at = some now;
}

retried-again :
    (now : ℕ)
    → (message : String) → (j : Job) → j.attempts ≤ 3
    → retried now message false j ≡ again now message j
unfolding retried
retried-again now message j few =
    let within : leb j.attempts 3 ≡ true = ground arith in rw within refl

retried-out :
    (now : ℕ)
    → (message : String) → (j : Job) → 3 < j.attempts
    → retried now message false j ≡ out now message j
unfolding retried
retried-out now message j many =
    let within : leb j.attempts 3 ≡ false = ground arith in rw within refl

module _ (h : Kind → Handler) (keeps : (k : Kind) → KeepsRow (h k)) (id : Uuid) where
  -- the row after the next run of a queued job
  next_row :
      (r : Moments)
      → (n t : ℕ) → (s : Store) → (w : IsRow id JobStatus.queued n t s) → t ≤ r.tested
      → get_job id (execute_job h r true id s).jobs
        ≡ some (row_after r (handled h r w.row s).0 (started r.locked w.row))
  next_row r n t s w due =
      let live : is_terminal w.row.status ≡ false = rw w.in_status refl in
      let not_early : w.row.available_at ≤ r.tested =
        subst (λ a. a ≤ r.tested) (sym w.due_at) due in
      execute_job-row h keeps r id s w.row w.found live w.supported not_early

  -- deliveries before its time leave a queued job as it waits
  early_run :
      (r : Moments)
      → (n t : ℕ) → (s : Store) → IsRow id JobStatus.queued n t s
      → r.tested < t
      → IsRow id JobStatus.queued n t (execute_job h r true id s)
  early_run r n t s w early =
      let live : is_terminal w.row.status ≡ false = rw w.in_status refl in
      let too_early : r.tested < w.row.available_at =
        subst (λ a. r.tested < a) (sym w.due_at) early in
      record {
        row = record w.row { locked_at = none };
        found = execute_job-early h r id s w.row w.found live too_early;
        in_status = w.in_status;
        after_runs = w.after_runs;
        due_at = w.due_at;
        supported = w.supported;
      }

  early_runs :
      (rs : List Moments)
      → (n t : ℕ) → (s : Store) → IsRow id JobStatus.queued n t s
      → All (λ r. r.tested < t) rs
      → IsRow id JobStatus.queued n t (runs h rs id s)
  unfolding runs
  early_runs [] n t s w early = w
  early_runs (r ∷ rs) n t s w (early, rest) =
      early_runs rs n t (execute_job h r true id s) (early_run r n t s w early) rest

  -- a job that has ended is left alone by every later delivery
  pub ended_runs :
      (rs : List Moments)
      → (s : Store) → (job : Job) → get_job id s.jobs ≡ some job
      → is_terminal job.status ≡ true
      → runs h rs id s ≡ s
  unfolding runs
  ended_runs [] s job found ended = refl
  ended_runs (r ∷ rs) s job found ended =
      ap (runs h rs id) (execute_job-terminal h r true id s job found ended)
      ∙ ended_runs rs s job found ended

  deferred_run :
      (r : Moments)
      → (n t delay : ℕ) → (s : Store) → (w : IsRow id JobStatus.queued n t s) → t ≤ r.tested
      → Defers delay (handled h r w.row s).0
      → IsRow id JobStatus.queued (n + 1) (r.ended + delay) (execute_job h r true id s)
  unfolding row_after
  deferred_run r n t delay s w due (output, e) = record {
    row = row_after r (HandlerResult.deferred delay output) (started r.locked w.row);
    found = next_row r n t s w due ∙ ap (λ o. some (row_after r o (started r.locked w.row))) e;
    in_status = refl;
    after_runs = ap (λ a. a + 1) w.after_runs;
    due_at = refl;
    supported = w.supported;
  }

  retried_run :
      (r : Moments)
      → (n t : ℕ) → (s : Store) → (w : IsRow id JobStatus.queued n t s) → t ≤ r.tested
      → n < 3
      → Raises (handled h r w.row s).0
      → IsRow id JobStatus.queued
          (n + 1)
          (r.ended + retry_delay (n + 1))
          (execute_job h r true id s)
  unfolding row_after
  retried_run r n t s w due few (name, (message, e)) =
      let j = started r.locked w.row in
      let within : j.attempts ≤ 3 = subst (λ a. a + 1 ≤ 3) (sym w.after_runs) (omega arith) in
      record {
        row = again r.ended (job_error name message) j;
        found =
            next_row r n t s w due
            ∙ ap (λ o. some (row_after r o j)) e
            ∙ ap some (retried-again r.ended (job_error name message) j within);
        in_status = refl;
        after_runs = ap (λ a. a + 1) w.after_runs;
        due_at = ap (λ a. r.ended + retry_delay (a + 1)) w.after_runs;
        supported = w.supported;
      }

  last_run :
      (r : Moments)
      → (n t : ℕ) → (s : Store) → (w : IsRow id JobStatus.queued n t s) → t ≤ r.tested
      → 3 ≤ n
      → Raises (handled h r w.row s).0
      → IsRow id JobStatus.failed (n + 1) t (execute_job h r true id s)
  unfolding row_after
  last_run r n t s w due many (name, (message, e)) =
      let j = started r.locked w.row in
      let beyond : 3 < j.attempts = subst (λ a. 3 < a + 1) (sym w.after_runs) (omega arith) in
      record {
        row = out r.ended (job_error name message) j;
        found =
            next_row r n t s w due
            ∙ ap (λ o. some (row_after r o j)) e
            ∙ ap some (retried-out r.ended (job_error name message) j beyond);
        in_status = refl;
        after_runs = ap (λ a. a + 1) w.after_runs;
        due_at = w.due_at;
        supported = w.supported;
      }

  -- A queued job of a supported kind that has not run yet, and whose handlers leave the row alone and
  -- always raise an error that is not permanent, waits after its first three runs until 15, 60 and 300
  -- seconds after they ended, however often it is delivered before that. The fourth run, at its time,
  -- leaves it failed, and is its last: later deliveries change nothing.
  pub raising-fails :
      ((r : Moments) → (j : Job) → (s : Store) → Raises (handled h r j s).0)
      → (t : ℕ) → (r₁ r₂ r₃ r₄ : Moments) → (e₁ e₂ e₃ later : List Moments) → (s : Store)
      → IsRow id JobStatus.queued 0 t s
      → t ≤ r₁.tested
      → All (λ e. e.tested < r₁.ended + 15) e₁
      → r₁.ended + 15 ≤ r₂.tested
      → All (λ e. e.tested < r₂.ended + 60) e₂
      → r₂.ended + 60 ≤ r₃.tested
      → All (λ e. e.tested < r₃.ended + 300) e₃
      → r₃.ended + 300 ≤ r₄.tested
      → (s₁ s₂ s₃ s₄ : Store) → s₁ ≡ runs h (r₁ ∷ e₁) id s
      → s₂ ≡ runs h (r₂ ∷ e₂) id s₁
      → s₃ ≡ runs h (r₃ ∷ e₃) id s₂
      → s₄ ≡ execute_job h r₄ true id s₃
      → IsRow id JobStatus.queued 1 (r₁.ended + 15) s₁
        × IsRow id JobStatus.queued 2 (r₂.ended + 60) s₂
        × IsRow id JobStatus.queued 3 (r₃.ended + 300) s₃
        × IsRow id JobStatus.failed 4 (r₃.ended + 300) s₄
        × (runs h later id s₄ ≡ s₄)
  unfolding runs retry_delay
  raising-fails raises t r₁ r₂ r₃ r₄ e₁ e₂ e₃ later s w₀ due₁ early₁ due₂ early₂ due₃ early₃ due₄ s₁
        s₂ s₃ s₄ is₁ is₂ is₃ is₄ =
      let w₁ : IsRow id JobStatus.queued 1 (r₁.ended + 15) s₁ =
        subst (IsRow id JobStatus.queued 1 (r₁.ended + 15)) (sym is₁) (
          early_runs e₁ 1 (r₁.ended + 15) _
            (retried_run r₁ 0 t s w₀ due₁ (omega arith) (raises r₁ w₀.row s)) early₁) in
      let w₂ : IsRow id JobStatus.queued 2 (r₂.ended + 60) s₂ =
        subst (IsRow id JobStatus.queued 2 (r₂.ended + 60)) (sym is₂) (
          early_runs e₂ 2 (r₂.ended + 60) _
            (retried_run r₂ 1 (r₁.ended + 15) s₁ w₁ due₂ (omega arith) (raises r₂ w₁.row s₁))
            early₂) in
      let w₃ : IsRow id JobStatus.queued 3 (r₃.ended + 300) s₃ =
        subst (IsRow id JobStatus.queued 3 (r₃.ended + 300)) (sym is₃) (
          early_runs e₃ 3 (r₃.ended + 300) _
            (retried_run r₃ 2 (r₂.ended + 60) s₂ w₂ due₃ (omega arith) (raises r₃ w₂.row s₂))
            early₃) in
      let w₄ : IsRow id JobStatus.failed 4 (r₃.ended + 300) s₄ =
        subst (IsRow id JobStatus.failed 4 (r₃.ended + 300)) (sym is₄)
          (last_run r₄ 3 (r₃.ended + 300) s₃ w₃ due₄ (omega arith) (raises r₄ w₃.row s₃)) in
      (w₁, w₂, w₃, w₄, ended_runs later s₄ w₄.row w₄.found (rw w₄.in_status refl))

  -- A job that was deferred in each of its first three runs has failed after its first error, one
  -- that is not permanent included: the deferred runs have used up its retries.
  pub deferred-fails :
      (delay : ℕ)
      → ((r : Moments)
          → (j : Job) → (s : Store) → j.attempts < 3
          → Defers delay (handled h r j s).0)
      → ((r : Moments) → (j : Job) → (s : Store) → 3 ≤ j.attempts → Raises (handled h r j s).0)
      → (t : ℕ) → (r₁ r₂ r₃ r₄ : Moments) → (s : Store) → IsRow id JobStatus.queued 0 t s
      → t ≤ r₁.tested
      → r₁.ended + delay ≤ r₂.tested
      → r₂.ended + delay ≤ r₃.tested
      → r₃.ended + delay ≤ r₄.tested
      → IsRow id JobStatus.failed 4 (r₃.ended + delay) (runs h (r₁ ∷ r₂ ∷ r₃ ∷ r₄ ∷ []) id s)
  unfolding runs
  deferred-fails delay defers raises t r₁ r₂ r₃ r₄ s w₀ due₁ due₂ due₃ due₄ =
      let s₁ = execute_job h r₁ true id s in
      let s₂ = execute_job h r₂ true id s₁ in
      let s₃ = execute_job h r₃ true id s₂ in
      let early : (n : ℕ) → n < 3 → (w : Job) → w.attempts ≡ n → w.attempts < 3 =
        (λ n few w e. subst (λ a. a < 3) (sym e) few) in
      let w₁ =
        deferred_run r₁ 0 t delay s w₀ due₁
          (defers r₁ w₀.row s (early 0 (omega arith) w₀.row w₀.after_runs)) in
      let w₂ =
        deferred_run r₂ 1 (r₁.ended + delay) delay s₁ w₁ due₂
          (defers r₂ w₁.row s₁ (early 1 (omega arith) w₁.row w₁.after_runs)) in
      let w₃ =
        deferred_run r₃ 2 (r₂.ended + delay) delay s₂ w₂ due₃
          (defers r₃ w₂.row s₂ (early 2 (omega arith) w₂.row w₂.after_runs)) in
      last_run r₄ 3 (r₃.ended + delay) s₃ w₃ due₄ (omega arith)
        (raises r₄ w₃.row s₃ (subst (λ a. 3 ≤ a) (sym w₃.after_runs) (omega arith)))
