-- ===== src/Gateway/Liveness.antt =====
-- api/gateway.py: when a request is answered. One endpoint that answers is enough, be it the selected one
-- or the fallback that stands in for it.
use ecoroute_ht.Base.{
  ℕ, ◌≡◌, refl, sym, subst, ◌⊎◌, inl, inr, not, ◌&&◌, ◌==◌, ltb, if-holds, Bool, true, false, some,
  arith, ok, raise,
}
use ecoroute_ht.Numbers.{Arithmetic}
use ecoroute_ht.Schemas.{is_specialized}
use ecoroute_ht.Routing.Candidate.{EndpointCandidate}
use ecoroute_ht.Routing.Quality.{Verdict}
use ecoroute_ht.Gateway.Ledger.{Purpose, add_attempt, failed_attempt, Ledger, fall_back}
use ecoroute_ht.Gateway.Upstream.{ProviderError, Message, invoke}
use ecoroute_ht.Gateway.Context.{
  Response, Routed, Served, ask, format_for, is_retryable, quality_fallback, transport_fallback,
  verdict_of,
}
use ecoroute_ht.Gateway.Settle.{settle}
use ecoroute_ht.Gateway.Complete.{
  fallen_back, finish, finish_fallback, fallback_verdict, after_quality_fallback,
  try_quality_fallback, after_verdict, judge_message, judge, after_transport_fallback, retry,
  after_first, complete,
}

module _ {A : Arithmetic} {Json Vector Completion : Type 0}
    (r : Routed A Json Vector Completion) where
  open r use {query, body, completions}

  -- The answer is that of the endpoint.
  abbrev pub IsAnsweredBy : EndpointCandidate A → Bool → Served A Vector Completion → Type 0
  IsAnsweredBy c used v =
      (response : Response Completion) × (v.0 ≡ ok response)
      × (response.endpoint_id ≡ c.id)
      × (response.fallback_used ≡ used)

  -- The provider answers call `n` in time, with a message, and the verdict on it is `verdict`.
  pub record Judged (n : ℕ) (c : EndpointCandidate A) (verdict : Message → Verdict A Json)
      (passed : Bool) : Type 0 where
    pub raw : Completion
    pub message : Message
    pub is_answer : invoke A Json Completion r.timeout r.providers n c (format_for r c) ≡ ok raw
    pub has_choices : completions.has_choices raw ≡ true
    pub is_message : completions.message (completions.set_model body.model raw) ≡ some message
    pub is_verdict : (verdict message).passed ≡ passed

  abbrev pub first_verdict : EndpointCandidate A → Message → Verdict A Json
  first_verdict c =
      verdict_of r c (is_specialized c.quality_tier) r.force_failure query.policy.min_slm_confidence

  abbrev pub second_verdict : EndpointCandidate A → Message → Verdict A Json
  second_verdict c = verdict_of r c false false (A.f_lit 80 2)

  -- The selected endpoint answers; or it fails for a time and the transport fallback answers; or its
  -- output does not pass and the quality fallback answers.
  abbrev pub IsServiceable : EndpointCandidate A → Type 0
  IsServiceable c =
      Judged 1 c (first_verdict c) true
      ⊎ (((e : ProviderError) × (f : EndpointCandidate A) × (invoke A Json Completion r.timeout
                r.providers 1 c (format_for r c)
              ≡ raise e)
            × (is_retryable e.code ≡ true)
            × (transport_fallback r c ≡ some f)
            × Judged 2 f (first_verdict f) true)
          ⊎ (Judged 1 c (first_verdict c) false
              × (query.policy.quality_fallback_enabled ≡ true)
              × (f : EndpointCandidate A) × (quality_fallback r c ≡ some f)
              × Judged 2 f (second_verdict f) true))

  finish-answers :
      (c : EndpointCandidate A) (x : Completion) (v : Verdict A Json) (used : Bool)
      (l : Ledger A Vector Completion)
      → v.passed ≡ true
      → IsAnsweredBy c used (finish r c x v used l)
  unfolding finish settle
  finish-answers c x v used l t =
      if-holds (IsAnsweredBy c used) (not v.passed) _ _ (λ f. absurd (ground arith))
        (λ _. (_, refl, refl, refl))

  after_verdict-answers :
      (n : ℕ) (c : EndpointCandidate A) (x : Completion) (v : Verdict A Json)
      (l : Ledger A Vector Completion)
      → v.passed ≡ true
      → IsAnsweredBy c (n == 2) (after_verdict r n c x v l)
  unfolding after_verdict
  after_verdict-answers n c x v l t =
      if-holds (IsAnsweredBy c (n == 2))
        (not v.passed && query.policy.quality_fallback_enabled && ltb n 2) _ _
        (λ f. absurd (ground arith)) (λ _. finish-answers c x v (n == 2) l t)

  judge-answers :
      (n : ℕ) (c : EndpointCandidate A) (l : Ledger A Vector Completion)
      → (j : Judged n c (first_verdict c) true) → IsAnsweredBy c (n == 2) (judge r n c j.raw l)
  unfolding judge judge_message
  judge-answers n c l j =
      if-holds (IsAnsweredBy c (n == 2)) (not (completions.has_choices j.raw)) _ _
        (λ f. absurd (ground (arith, j.has_choices)))
        (λ _.
          subst
            (λ o.
              IsAnsweredBy c (n == 2)
                (judge_message r n c (completions.set_model body.model j.raw) o l))
            (sym j.is_message)
            (after_verdict-answers n c _ (first_verdict c j.message) _ j.is_verdict))

  after_quality_fallback-answers :
      (f : EndpointCandidate A) (l : Ledger A Vector Completion)
      → (j : Judged 2 f (second_verdict f) true)
      → IsAnsweredBy f true (after_quality_fallback r f (ok j.raw, l))
  unfolding after_quality_fallback finish_fallback
  after_quality_fallback-answers f l j =
      if-holds (IsAnsweredBy f true) (not (completions.has_choices j.raw)) _ _
        (λ t. absurd (ground (arith, j.has_choices)))
        (λ _.
          finish-answers f (completions.set_model body.model j.raw)
            (fallback_verdict r f (completions.set_model body.model j.raw)) true
            (fallen_back r f (completions.set_model body.model j.raw) l)
            (rw j.is_message j.is_verdict))

  try-answers :
      (c f : EndpointCandidate A) (x : Completion) (v : Verdict A Json)
      (l : Ledger A Vector Completion)
      → Judged 2 f (second_verdict f) true
      → IsAnsweredBy f true (try_quality_fallback r c x v (some f) l)
  unfolding try_quality_fallback ask
  try-answers c f x v l j =
      subst (λ m. IsAnsweredBy f true (after_quality_fallback r f (m, (ask r 2 f l).1)))
        (sym j.is_answer) (after_quality_fallback-answers f (ask r 2 f l).1 j)

  quality-answers :
      (c f : EndpointCandidate A) (x : Completion) (v : Verdict A Json)
      (l : Ledger A Vector Completion)
      → v.passed ≡ false
      → query.policy.quality_fallback_enabled ≡ true
      → quality_fallback r c ≡ some f
      → Judged 2 f (second_verdict f) true
      → IsAnsweredBy f true (after_verdict r 1 c x v l)
  unfolding after_verdict
  quality-answers c f x v l p q e j =
      if-holds (IsAnsweredBy f true) (not v.passed && query.policy.quality_fallback_enabled && true)
        _ _
        (λ _.
          subst (λ o. IsAnsweredBy f true (try_quality_fallback r c x v o l)) (sym e)
            (try-answers c f x v l j))
        (λ b. absurd (ground arith))

  judge-quality-answers :
      (c f : EndpointCandidate A) (l : Ledger A Vector Completion)
      → (j : Judged 1 c (first_verdict c) false) → query.policy.quality_fallback_enabled ≡ true
      → quality_fallback r c ≡ some f
      → Judged 2 f (second_verdict f) true
      → IsAnsweredBy f true (judge r 1 c j.raw l)
  unfolding judge judge_message
  judge-quality-answers c f l j q e k =
      if-holds (IsAnsweredBy f true) (not (completions.has_choices j.raw)) _ _
        (λ t. absurd (ground (arith, j.has_choices)))
        (λ _.
          subst
            (λ o.
              IsAnsweredBy f true
                (judge_message r 1 c (completions.set_model body.model j.raw) o l))
            (sym j.is_message)
            (quality-answers c f _ (first_verdict c j.message) _ j.is_verdict q e k))

  retry-answers :
      (e : ProviderError) (f : EndpointCandidate A) (l : Ledger A Vector Completion)
      → Judged 2 f (first_verdict f) true
      → IsAnsweredBy f true (retry r e true (some f) l)
  unfolding retry after_transport_fallback ask
  retry-answers e f l j =
      let moved : Ledger A Vector Completion = fall_back f.id l in
      subst (λ m. IsAnsweredBy f true (after_transport_fallback r f (m, (ask r 2 f moved).1)))
        (sym j.is_answer) (judge-answers 2 f (ask r 2 f moved).1 j)

  after_first-answers :
      (c f : EndpointCandidate A) (e : ProviderError) (l : Ledger A Vector Completion)
      → is_retryable e.code ≡ true
      → transport_fallback r c ≡ some f
      → Judged 2 f (first_verdict f) true
      → IsAnsweredBy f true (after_first r c (raise e, l))
  unfolding after_first
  after_first-answers c f e l t p j =
      rw (t, p)
        (retry-answers e f (add_attempt (failed_attempt 1 c.id Purpose.selected e.code) l) j)

  -- Where the selected endpoint answers in time with an output that passes, or fails for a time and the
  -- eligible transport fallback does so, or answers with an output that does not pass and the eligible
  -- quality fallback does so, the client is answered.
  pub complete-answers :
      (c : EndpointCandidate A) (l : Ledger A Vector Completion)
      → IsServiceable c
      → (f : EndpointCandidate A) × (used : Bool) × IsAnsweredBy f used (complete r c l)
  unfolding complete ask after_first
  complete-answers c l (inl j) = (
    c,
    false,
    subst (λ m. IsAnsweredBy c false (after_first r c (m, (ask r 1 c l).1))) (sym j.is_answer)
        (judge-answers 1 c (ask r 1 c l).1 j),
  )
  complete-answers c l (inr (inl (e, f, p, t, q, j))) = (
    f,
    true,
    subst (λ m. IsAnsweredBy f true (after_first r c (m, (ask r 1 c l).1))) (sym p)
        (after_first-answers c f e (ask r 1 c l).1 t q j),
  )
  complete-answers c l (inr (inr (j, q, f, e, k))) = (
    f,
    true,
    subst (λ m. IsAnsweredBy f true (after_first r c (m, (ask r 1 c l).1))) (sym j.is_answer)
        (judge-quality-answers c f (ask r 1 c l).1 j q e k),
  )
