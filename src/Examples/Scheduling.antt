-- ===== src/Examples/Scheduling.antt =====
-- main.py and handlers.py: rounds of the periodic jobs and of the health checks.
use ecoroute_ht.Base.{ℕ, ◌≡◌, ◌↔◌, ◌<◌, ◌+◌, refl, String, true, false, [], ◌∷◌, none}
use ecoroute_ht.Schemas.{Health}
use ecoroute_ht.Worker.Periodic.{ensure_periodic_jobs, ensure_periodic_jobs-once}
use ecoroute_ht.Worker.Health.{Probe, Counter, Endpoint, check, passes, check-streaks}
use ecoroute_ht.Examples.Working.{job}

abbrev str : ℕ → String
str n = "7"

ensure_periodic_jobs-once_example :
    ensure_periodic_jobs str
      (λ key. 9)
      true
      220
      (ensure_periodic_jobs str (λ key. 9) true 211 (job ∷ []))
    ≡ ensure_periodic_jobs str (λ key. 9) true 211 (job ∷ [])
ensure_periodic_jobs-once_example =
    ensure_periodic_jobs-once str (λ key. 9) true 211 220 (job ∷ []) refl

abbrev endpoint : Endpoint
endpoint = record {
  id = 1;
  enabled = true;
  deleted_at = none;
  latency_p95_ms = 500;
  credential_configured = true;
  health_state = Health.unhealthy;
  last_health_at = none;
  last_health_error = none;
  successes = Counter.missing;
  failures = Counter.counted 6 290;
}

check-streaks_example :
    (((check 60
          (Probe.answered true 200 none)
          (check 30 (Probe.answered true 300 none) endpoint)).health_state
        ≡ Health.healthy)
      ↔ ((passes (Probe.answered true 300 none) endpoint ≡ true)
          × (passes (Probe.answered true 200 none) endpoint ≡ true)
          × (60 < 30 + 300)))
    × (((check 60
            (Probe.answered true 200 none)
            (check 30 (Probe.answered true 300 none) endpoint)).health_state
          ≡ Health.unhealthy)
        ↔ ((passes (Probe.answered true 300 none) endpoint ≡ false)
            × (passes (Probe.answered true 200 none) endpoint ≡ false)
            × (60 < 30 + 300)))
check-streaks_example =
    check-streaks 30 60 (Probe.answered true 300 none) (Probe.answered true 200 none) endpoint refl
