-- ===== src/Worker/Queue.antt =====
-- main.py: `_enqueue_due_jobs`. The stream of Redis is the list of the ids
-- that were added. The rows that another transaction holds are left out by `free` (skip_locked).
use ecoroute_ht.Base.{
  ℕ, suc, ◌-◌, ◌≡◌, inl, inr, Bool, true, false, ◌&&◌, List, [], ◌∷◌, map, filter, any, Option,
  none, some, ltb, leb, ◌==◌, if◌then◌else◌, Member, Member-filter, sort_by, Member-sort_by,
  &&_true, zero,
}
use ecoroute_ht.Schemas.{Uuid}
use ecoroute_ht.Worker.Jobs.{Job, JobStatus}

abbrev pub is_queued : JobStatus → Bool
is_queued JobStatus.queued = true
is_queued _ = false

-- locked_at is None or locked_at < stale
abbrev pub unlocked : ℕ → Option ℕ → Bool
unlocked stale none = true
unlocked stale (some t) = ltb t stale

unfoldable pub is_due : ℕ → Job → Bool
is_due now j = is_queued j.status && leb j.available_at now && unlocked (now - 300) j.locked_at

unfoldable pub take : ℕ → List Job → List Job
take n [] = []
take zero (j ∷ js) = []
take (suc n) (j ∷ js) = j ∷ take n js

-- the rows of the query: ORDER BY available_at LIMIT 100
unfoldable pub due_jobs : ℕ → (Job → Bool) → List Job → List Job
unfolding is_due take
due_jobs now free jobs =
    take 100 (
      sort_by (λ a b. ltb a.available_at b.available_at)
        (filter (λ j. is_due now j && free j) jobs))

-- the row is one of those
unfoldable pub is_among : List Job → Job → Bool
is_among chosen j = any (λ d. d.id == j.id) chosen

abbrev pub lock : ℕ → Job → Job
lock now j = record j { locked_at = some now }

-- the rows, and what is added to the stream
unfoldable pub enqueue_due_jobs : ℕ → (Job → Bool) → List Job → List Job × List Uuid
unfolding due_jobs is_among
enqueue_due_jobs now free jobs =
    let due = due_jobs now free jobs in
    (map (λ j. if is_among due j then lock now j else j) jobs, map (λ j. j.id) due)

Member-take : (n : ℕ) (j : Job) (js : List Job) → Member j (take n js) → Member j js
unfolding take
Member-take n j [] m = absurd m
Member-take zero j (k ∷ js) m = absurd m
Member-take (suc n) j (k ∷ js) (inl e) = inl e
Member-take (suc n) j (k ∷ js) (inr m) = inr (Member-take n j js m)

-- A job of the query is a row, is queued, and its time has come.
due_jobs-is_due :
    (now : ℕ) (free : Job → Bool) (jobs : List Job) (j : Job)
    → Member j (due_jobs now free jobs)
    → Member j jobs × (is_due now j ≡ true)
unfolding due_jobs
due_jobs-is_due now free jobs j m =
    let before = λ (a b : Job). ltb a.available_at b.available_at in
    let wanted = λ (x : Job). is_due now x && free x in
    let sorted = Member-take 100 j _ m in
    let (row, ok) =
      Member-filter wanted j jobs (Member-sort_by before j (filter wanted jobs) sorted) in
    (row, (&&_true (is_due now j) (free j) ok).0)
