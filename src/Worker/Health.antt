-- ===== src/Worker/Health.antt =====
-- worker/ecoroute_worker/jobs/handlers.py, `handle_endpoint_health`: the streaks of an endpoint's health
-- checks. The two counters are Redis keys that expire 300 seconds after they last changed; a key that is
-- missing or has expired counts as 0. A check reads the clock once.
use ecoroute_ht.Base.{
  ℕ, ◌+◌, ◌≡◌, ◌↔◌, refl, String, Bool, true, false, not, ◌&&◌, List, map, Option, none, some,
  is_none, leb, ltb, arith, if◌then◌else◌, Bool-cases, ◌⊎◌, inl, inr, ◌≤◌, ◌<◌, false≢true, sym,
  ◌∙◌,
}
use Prim.Native.String.{◌++◌ as append}
use ecoroute_ht.Schemas.{Uuid, Health}
use ecoroute_ht.Worker.Jobs.{first}

-- What the provider answers: the status, `latencyMs` and `message`, or the type of an exception.
pub data Probe : Type 0 where
  answered : Bool → ℕ → Option String → Probe
  raised : String → Probe

-- A Redis key: there is none, or its number and the time at which it expires.
pub data Counter : Type 0 where
  missing : Counter
  counted : ℕ → ℕ → Counter

-- what INCR reads
unfoldable pub count_at : ℕ → Counter → ℕ
count_at now Counter.missing = 0
count_at now (Counter.counted n expires_at) = if ltb now expires_at then n else 0

-- INCR and then EXPIRE key 300
unfoldable pub incr : ℕ → Counter → Counter
unfolding count_at
incr now c = Counter.counted (count_at now c + 1) (now + 300)

pub record Endpoint : Type 0 where
  pub id : Uuid
  pub enabled : Bool
  pub deleted_at : Option ℕ
  pub latency_p95_ms : ℕ
  pub credential_configured : Bool
  pub health_state : Health
  pub last_health_at : Option ℕ
  pub last_health_error : Option String
  pub successes : Counter  -- ecoroute:health:{id}:success
  pub failures : Counter  -- ecoroute:health:{id}:failure

-- endpoint.latency_p95_ms > 0 and latency_ms > endpoint.latency_p95_ms
abbrev pub too_slow : ℕ → Endpoint → Bool
too_slow latency e = ltb 0 e.latency_p95_ms && ltb e.latency_p95_ms latency

unfoldable pub pass : ℕ → Endpoint → Endpoint
unfolding incr count_at
pass now e = record e {
  successes = incr now e.successes;
  failures = Counter.missing;
  health_state = if leb 2 (count_at now e.successes + 1) then Health.healthy else Health.degraded;
  last_health_error = none;
}

unfoldable pub failure : ℕ → String → Endpoint → Endpoint
unfolding first incr count_at
failure now message e = record e {
  failures = incr now e.failures;
  successes = Counter.missing;
  health_state = if leb 2 (count_at now e.failures + 1) then Health.unhealthy else Health.degraded;
  last_health_error = some (first 2000 message);
}

unfoldable pub unconfigured : Endpoint → Endpoint
unconfigured e = record e {
  health_state = Health.unknown;
  last_health_error = some "Credential is not configured";
  successes = Counter.missing;
  failures = Counter.missing;
}

abbrev message_of : Bool → Option String → String
message_of true m = "Health latency exceeded the configured p95 SLO"
message_of false none = "Provider health check failed"
message_of false (some m) = m

-- one turn of the loop, of an endpoint with a credential
unfoldable pub probe : ℕ → Probe → Endpoint → Endpoint
unfolding pass failure
probe now (answered healthy latency message) e =
    let e' = record e { last_health_at = some now } in
    if healthy && not (too_slow latency e)
    then pass now e'
    else failure now (message_of (too_slow latency e) message) e'
probe now (raised name) e =
    failure now (append name ": health check failed") (record e { last_health_at = some now })

unfoldable pub check : ℕ → Probe → Endpoint → Endpoint
unfolding probe unconfigured
check now p e =
    if e.credential_configured
    then probe now p e
    else unconfigured (record e { last_health_at = some now })

-- the endpoints of the query, and the others as they were; `probes` asks the provider
unfoldable pub handle_endpoint_health : ℕ → (Endpoint → Probe) → List Endpoint → List Endpoint
unfolding check
handle_endpoint_health now probes =
    map (λ e. if e.enabled && is_none e.deleted_at then check now (probes e) e else e)

-- Whether a check of the endpoint passes.
abbrev pub passes : Probe → Endpoint → Bool
passes (answered healthy latency message) e = healthy && not (too_slow latency e)
passes (raised name) e = false

probe-kept :
    (now : ℕ) (p : Probe) (e : Endpoint)
    → ((probe now p e).credential_configured ≡ e.credential_configured)
      × ((probe now p e).latency_p95_ms ≡ e.latency_p95_ms)
unfolding probe pass failure
probe-kept now (answered h l m) e = (ground arith, ground arith)
probe-kept now (raised n) e = (refl, refl)

-- The counters after a check: the one grows, the other is reset.
probe-counts :
    (now : ℕ) (p : Probe) (e : Endpoint)
    → ((passes p e ≡ true)
        × ((probe now p e).successes ≡ Counter.counted (count_at now e.successes + 1) (now + 300))
        × ((probe now p e).failures ≡ Counter.missing)
        × ((probe now p e).health_state
            ≡ (if leb 2 (count_at now e.successes + 1) then Health.healthy else Health.degraded)))
      ⊎ ((passes p e ≡ false)
          × ((probe now p e).failures ≡ Counter.counted (count_at now e.failures + 1) (now + 300))
          × ((probe now p e).successes ≡ Counter.missing)
          × ((probe now p e).health_state ≡ (
              if leb 2 (count_at now e.failures + 1) then Health.unhealthy else Health.degraded)))
unfolding probe pass failure incr
probe-counts now (answered h l m) e = elim (Bool-cases (h && not (too_slow l e))) [
  | inl t ↦ inl (t, rw (t, probe) refl, rw (t, probe) refl, rw (t, probe) refl)
  | inr n ↦ inr (n, rw (n, probe) refl, rw (n, probe) refl, rw (n, probe) refl)
]
probe-counts now (raised n) e = inr (refl, refl, refl, refl)

-- Whether an endpoint passes does not depend on earlier checks.
passes-probe : (now : ℕ) (p q : Probe) (e : Endpoint) → passes q (probe now p e) ≡ passes q e
passes-probe now p (answered h l m) e = let (_, same) = probe-kept now p e in rw same refl
passes-probe now p (raised n) e = refl

probe-healthy :
    (now : ℕ) (q : Probe) (e : Endpoint)
    → ((probe now q e).health_state ≡ Health.healthy)
      ↔ ((passes q e ≡ true) × (1 ≤ count_at now e.successes))
probe-healthy now q e = elim (probe-counts now q e) [
  | inl (t, s, f, h) ↦ rw h (ground arith, ground arith)
  | inr (n, f, s, h) ↦ rw h (ground arith, ground arith)
]

probe-unhealthy :
    (now : ℕ) (q : Probe) (e : Endpoint)
    → ((probe now q e).health_state ≡ Health.unhealthy)
      ↔ ((passes q e ≡ false) × (1 ≤ count_at now e.failures))
probe-unhealthy now q e = elim (probe-counts now q e) [
  | inl (t, s, f, h) ↦ rw h (ground arith, ground arith)
  | inr (n, f, s, h) ↦ rw h (ground arith, ground arith)
]

check-configured :
    (now : ℕ) (p : Probe) (e : Endpoint)
    → e.credential_configured ≡ true
    → check now p e ≡ probe now p e
unfolding check
check-configured now p e h = rw (h, check) refl

-- A counter that was just raised from `n`, and the other, which was deleted.
count-raised :
    (t₁ t₂ n : ℕ) → (1 ≤ count_at t₂ (Counter.counted (n + 1) (t₁ + 300))) ↔ (t₂ < t₁ + 300)
unfolding count_at
count-raised t₁ t₂ n = elim (Bool-cases (ltb t₂ (t₁ + 300))) [
  | inl t ↦ rw t (λ x. ground arith, λ x. omega arith)
  | inr n ↦ rw n (λ x. absurd (omega arith), λ x. absurd (ground arith))
]

count-missing : (now : ℕ) → ¬ (1 ≤ count_at now Counter.missing)
unfolding count_at
count-missing now x = absurd (omega arith)

-- Two checks of an endpoint with a credential leave it healthy exactly when both passed and the second
-- came less than 300 seconds after the first, and unhealthy exactly when neither passed and the second
-- came that soon, whatever the checks before them found.
pub check-streaks :
    (t₁ t₂ : ℕ) (p q : Probe) (e : Endpoint)
    → e.credential_configured ≡ true
    → (((check t₂ q (check t₁ p e)).health_state ≡ Health.healthy)
        ↔ ((passes p e ≡ true) × (passes q e ≡ true) × (t₂ < t₁ + 300)))
      × (((check t₂ q (check t₁ p e)).health_state ≡ Health.unhealthy)
          ↔ ((passes p e ≡ false) × (passes q e ≡ false) × (t₂ < t₁ + 300)))
check-streaks t₁ t₂ p q e h =
    let e₁ = probe t₁ p e in
    let (kept, _) = probe-kept t₁ p e in
    let same = passes-probe t₁ p q e in
    let good = probe-healthy t₂ q e₁ in
    let bad = probe-unhealthy t₂ q e₁ in
    rw (check-configured t₁ p e h) (
      rw (check-configured t₂ q e₁ (rw kept h)) (elim (probe-counts t₁ p e) [
        | inl (t, s, f, _) ↦
            let soon = count-raised t₁ t₂ (count_at t₁ e.successes) in
            let none_failed : ¬ (1 ≤ count_at t₂ e₁.failures) = rw f (count-missing t₂) in
            (
              (
                λ x. (t, rw same at (good.0 x).0, soon.0 (rw s at (good.0 x).1)),
                λ (x, y, z). good.1 (rw same y, rw s (soon.1 z)),
              ),
              (λ x. absurd (none_failed (bad.0 x).1), λ (x, y, z). absurd (false≢true (sym x ∙ t))),
            )
        | inr (n, f, s, _) ↦
            let soon = count-raised t₁ t₂ (count_at t₁ e.failures) in
            let none_passed : ¬ (1 ≤ count_at t₂ e₁.successes) = rw s (count-missing t₂) in
            (
              (
                λ x. absurd (none_passed (good.0 x).1),
                λ (x, y, z). absurd (false≢true (sym n ∙ x)),
              ),
              (
                λ x. (n, rw same at (bad.0 x).0, soon.0 (rw f at (bad.0 x).1)),
                λ (x, y, z). bad.1 (rw same y, rw f (soon.1 z)),
              ),
            )
      ]))
