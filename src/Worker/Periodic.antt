-- ===== src/Worker/Periodic.antt =====
-- main.py: `_ensure_periodic_jobs`.
use Prim.Native.String.{◌++◌ as append}
use ecoroute_ht.Base.{
  ℕ, ◌/◌, ◌≡◌, refl, sym, ap, ◌∙◌, subst, inl, inr, String, Bool, true, false, List, [], ◌∷◌, ◌++◌,
  any, none, str_eq, eq_iff, arith, if◌then◌else◌, Member,
}
use ecoroute_ht.Schemas.{Uuid}
use ecoroute_ht.Worker.Jobs.{Job, JobStatus, Kind}

pub record Schedule : Type 0 where
  pub kind : Kind
  pub name : String
  pub seconds : ℕ

abbrev pub schedules : List Schedule
schedules =
    record { kind = Kind.endpoint_health; name = "endpoint.health"; seconds = 30 }
    ∷ record { kind = Kind.carbon_refresh; name = "carbon.refresh"; seconds = 120 }
    ∷ record { kind = Kind.cache_cleanup; name = "cache.cleanup"; seconds = 300 }
    ∷ record { kind = Kind.retention_cleanup; name = "retention.cleanup"; seconds = 3600 }
    ∷ []

-- Times in one half minute are in one period of each schedule.
same_quotients :
    (now later : ℕ)
    → now / 30 ≡ later / 30
    → (later / 30 ≡ now / 30)
      × (later / 120 ≡ now / 120)
      × (later / 300 ≡ now / 300)
      × (later / 3600 ≡ now / 3600)
same_quotients now later e = (omega arith, omega arith, omega arith, omega arith)

-- str() of a number and the ids of new rows, by their keys
module _ (str : ℕ → String) (new_id : String → Uuid) where
  unfoldable pub period_key : ℕ → Schedule → String
  period_key now s = append "periodic:" (append s.name (append ":" (str (now / s.seconds))))

  abbrev pub has_key : String → List Job → Bool
  has_key key = any (λ j. str_eq j.idempotency_key key)

  abbrev periodic_job : ℕ → Schedule → Job
  periodic_job now s = record {
    id = new_id (period_key now s);
    kind = s.kind;
    idempotency_key = period_key now s;
    status = JobStatus.queued;
    attempts = 0;
    available_at = now;
    locked_at = none;
    completed_at = none;
    error = none;
    output = none;
    dataset_id = none;
    training_run_id = none;
    benchmark_id = none;
  }

  unfoldable pub ensure : ℕ → Schedule → List Job → List Job
  unfolding period_key
  ensure now s jobs =
      if has_key (period_key now s) jobs then jobs else jobs ++ periodic_job now s ∷ []

  unfoldable pub ensure_all : ℕ → List Schedule → List Job → List Job
  unfolding ensure
  ensure_all now [] jobs = jobs
  ensure_all now (s ∷ ss) jobs = ensure_all now ss (ensure now s jobs)

  -- `workspace` says that there is one
  unfoldable pub ensure_periodic_jobs : Bool → ℕ → List Job → List Job
  unfolding ensure_all
  ensure_periodic_jobs workspace now jobs =
      if workspace then ensure_all now schedules jobs else jobs

  has_key-append :
      (key : String) (xs ys : List Job) → has_key key xs ≡ true → has_key key (xs ++ ys) ≡ true
  unfolding any
  has_key-append key [] ys h = cc
  has_key-append key (x ∷ xs) ys h = ground (arith, has_key-append key xs ys)

  has_key-last :
      (key : String) (xs : List Job) (j : Job)
      → j.idempotency_key ≡ key
      → has_key key (xs ++ j ∷ []) ≡ true
  unfolding any
  has_key-last key [] j e = ground (arith, (eq_iff j.idempotency_key key).1 e)
  has_key-last key (x ∷ xs) j e = ground (arith, has_key-last key xs j e)

  ensure-keeps :
      (key : String) (now : ℕ) (s : Schedule) (jobs : List Job)
      → has_key key jobs ≡ true
      → has_key key (ensure now s jobs) ≡ true
  unfolding ensure
  ensure-keeps key now s jobs h =
      ground (arith, has_key-append key jobs (periodic_job now s ∷ []) h)

  ensure-has_key :
      (now : ℕ) (s : Schedule) (jobs : List Job)
      → has_key (period_key now s) (ensure now s jobs) ≡ true
  unfolding ensure
  ensure-has_key now s jobs =
      ground (arith, has_key-last (period_key now s) jobs (periodic_job now s) refl)

  ensure_all-keeps :
      (key : String) (now : ℕ) (ss : List Schedule) (jobs : List Job)
      → has_key key jobs ≡ true
      → has_key key (ensure_all now ss jobs) ≡ true
  unfolding ensure_all
  ensure_all-keeps key now [] jobs h = h
  ensure_all-keeps key now (s ∷ ss) jobs h =
      ensure_all-keeps key now ss _ (ensure-keeps key now s jobs h)

  ensure_all-has_key :
      (now : ℕ) (ss : List Schedule) (jobs : List Job) (s : Schedule)
      → Member s ss
      → has_key (period_key now s) (ensure_all now ss jobs) ≡ true
  unfolding ensure_all
  ensure_all-has_key now [] jobs s m = absurd m
  ensure_all-has_key now (x ∷ xs) jobs s (inl e) =
      ensure_all-keeps _ now xs _ (rw e (ensure-has_key now x jobs))
  ensure_all-has_key now (x ∷ xs) jobs s (inr m) = ensure_all-has_key now xs _ s m

  ensure_all-same :
      (now : ℕ) (ss : List Schedule) (jobs : List Job)
      → ((s : Schedule) → Member s ss → has_key (period_key now s) jobs ≡ true)
      → ensure_all now ss jobs ≡ jobs
  unfolding ensure_all
  ensure_all-same now [] jobs h = refl
  ensure_all-same now (s ∷ ss) jobs h =
      let there = h s (inl refl) in
      let same : ensure now s jobs ≡ jobs = rw (there, ensure) refl in
      ap (ensure_all now ss) same ∙ ensure_all-same now ss jobs (λ x m. h x (inr m))

  -- the keys of one half minute are those of another time in it
  period_key-same :
      (now later : ℕ)
      → now / 30 ≡ later / 30
      → (s : Schedule) → Member s schedules
      → period_key later s ≡ period_key now s
  unfolding period_key
  period_key-same now later e s m =
      let (at_30, at_120, at_300, at_3600) = same_quotients now later e in
      let quotient : later / s.seconds ≡ now / s.seconds = elim m [
        | inl k ↦ subst (λ x. later / x.seconds ≡ now / x.seconds) (sym k) at_30
        | inr m₁ ↦ elim m₁ [
          | inl k ↦ subst (λ x. later / x.seconds ≡ now / x.seconds) (sym k) at_120
          | inr m₂ ↦ elim m₂ [
            | inl k ↦ subst (λ x. later / x.seconds ≡ now / x.seconds) (sym k) at_300
            | inr m₃ ↦ elim m₃ [
              | inl k ↦ subst (λ x. later / x.seconds ≡ now / x.seconds) (sym k) at_3600
              | inr none_left ↦ absurd none_left
            ]
          ]
        ]
      ] in
      ap (λ n. append "periodic:" (append s.name (append ":" (str n)))) quotient

  -- Another round in the same half minute adds no job.
  pub ensure_periodic_jobs-once :
      (workspace : Bool) (now later : ℕ) (jobs : List Job)
      → now / 30 ≡ later / 30
      → ensure_periodic_jobs workspace later (ensure_periodic_jobs workspace now jobs)
        ≡ ensure_periodic_jobs workspace now jobs
  unfolding ensure_periodic_jobs
  ensure_periodic_jobs-once false now later jobs e = refl
  ensure_periodic_jobs-once true now later jobs e =
      ensure_all-same later schedules _
        (λ s m. rw (period_key-same now later e s m) (ensure_all-has_key now schedules jobs s m))
