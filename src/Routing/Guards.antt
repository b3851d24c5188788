-- ===== src/Routing/Guards.antt =====
-- classifier.py: what no answer of the adapter can change, and what it means for the selection.
use ecoroute_ht.Base.{
  ◌≡◌, ◌≢◌, refl, sym, subst, ap, ◌∙◌, inl, inr, Bool, true, false, ◌||◌, List, Outcome, ok, raise,
  Member, arith, Bool-cases, false≢true,
}
use ecoroute_ht.Numbers.{Arithmetic}
use ecoroute_ht.Schemas.{
  Level, TaskType, Capability, QualityTier, NormalizedRequestFeatures, RouterClassification,
  is_high,
}
use ecoroute_ht.Routing.Candidate.{EndpointCandidate}
use ecoroute_ht.Routing.Exclusion.{Query}
use ecoroute_ht.Routing.Ranking.{Selection}
use ecoroute_ht.Routing.Selection.{select_candidate}
use ecoroute_ht.Routing.Soundness.{select_candidate-IsAdmissible}
use ecoroute_ht.Routing.Classifier.{
  Reader, RouterError, is_personal, must_escalate, required_by, task_of, by_task,
  deterministic_classify, guarded, adapted, classify, trusted,
}

module _ (A : Arithmetic) (reader : Reader) (f : NormalizedRequestFeatures) where
  open A use {f_lit, f_le, f_cents}

  abbrev IsGuarded : RouterClassification A → Type 0
  IsGuarded c = (c.slm_eligible ≡ false) × (c.cache_eligible ≡ false)

  by_task-IsGuarded :
      (t : TaskType × Level) → is_personal f ≡ true → IsGuarded (by_task A reader f t)
  unfolding by_task
  by_task-IsGuarded (task, level) h = rw h (ground arith, ground arith)

  deterministic-IsGuarded :
      (must_escalate f || is_personal f) ≡ true → IsGuarded (deterministic_classify A reader f)
  unfolding deterministic_classify
  deterministic-IsGuarded h = elim (Bool-cases (must_escalate f)) [
    | inl t ↦ rw (t, deterministic_classify) (refl, refl)
    | inr n ↦
        let personal : is_personal f ≡ true = ground arith in
        let g =
          by_task-IsGuarded (task_of A reader (is_personal f) (reader.lower f.normalized_text))
            personal in
        rw (n, deterministic_classify) (ground (arith, g.0), ground (arith, g.1))
  ]

  guarded-IsGuarded :
      (d value : RouterClassification A)
      → (must_escalate f || is_personal f) ≡ true
      → IsGuarded (guarded A reader f d value)
  unfolding guarded
  guarded-IsGuarded d value h = (ground arith, ground arith)

  adapted-IsGuarded :
      (d : RouterClassification A)
      → (adapter : Outcome RouterError (RouterClassification A))
      → (must_escalate f || is_personal f) ≡ true
      → IsGuarded (adapted A reader f d adapter)
  unfolding adapted
  adapted-IsGuarded d (ok value) h = guarded-IsGuarded d value h
  adapted-IsGuarded d (raise e) h = (refl, refl)

  -- A request with a tool, an image, a secret, personal data or context, or an uncertain number is
  -- eligible for no specialized model and for no cache, whatever the adapter answers.
  pub classify-IsGuarded :
      (configured : Bool)
      → (adapter : Outcome RouterError (RouterClassification A))
      → (must_escalate f || is_personal f) ≡ true
      → ((classify A reader configured adapter f).slm_eligible ≡ false)
        × ((classify A reader configured adapter f).cache_eligible ≡ false)
  unfolding classify
  classify-IsGuarded configured adapter h =
      let d = deterministic-IsGuarded h in
      let a = adapted-IsGuarded (deterministic_classify A reader f) adapter h in
      (ground (arith, d.0, a.0), ground (arith, d.1, a.1))

  -- A tool or an image needs an endpoint that has the capability.
  required_by_complete :
      ((f.has_tools ≡ true) → Member Capability.tools (required_by f))
      × ((f.has_multimodal ≡ true) → Member Capability.vision (required_by f))
  unfolding required_by
  required_by_complete = (
    λ t. rw t (inr (inl refl)),
    λ v. elim (Bool-cases f.has_tools) [
      | inl t ↦ rw t (rw v (inr (inr (inl refl))))
      | inr n ↦ rw n (rw v (inr (inl refl)))
    ],
  )

  -- A request that escalates is classified by its flags alone: the adapter is not asked.
  classify-escalated :
      (configured : Bool)
      → (adapter : Outcome RouterError (RouterClassification A)) → must_escalate f ≡ true
      → (is_high (classify A reader configured adapter f).risk ≡ true)
        × ((classify A reader configured adapter f).required_capabilities ≡ required_by f)
        × ((classify A reader configured adapter f).confidence ≡ f_lit 99 2)
  unfolding classify deterministic_classify
  classify-escalated configured adapter h =
      let sure = f_cents 90 99 (omega arith) in rw (h, classify) (rw sure (refl, refl, refl))

  -- What the policy's confidence leaves of a classification.
  trusted-cases :
      (minimum : A.Float)
      → (c : RouterClassification A) → is_high c.risk ≡ true
      → (is_high (trusted A reader minimum c).risk ≡ true)
        × (f_le minimum c.confidence ≡ true → trusted A reader minimum c ≡ c)
  unfolding trusted
  trusted-cases minimum c high = elim (Bool-cases (f_le minimum c.confidence)) [
    | inl t ↦ rw (t, trusted) (high, λ _. refl)
    | inr n ↦ rw (n, trusted) (refl, λ t. absurd (false≢true t))
  ]

  -- The selection for a classified request with tools or images, whose classification is replaced where
  -- its confidence is below that of the policy, is of a frontier endpoint, whatever the adapter answers.
  -- Where the policy asks for a confidence of at most 0.99, the endpoint has the capability.
  pub select_candidate-capable :
      (configured : Bool)
      → (adapter : Outcome RouterError (RouterClassification A)) → (q : Query A)
      → (cs : List (EndpointCandidate A)) → (s : Selection A)
      → q.classification
        ≡ trusted A reader q.policy.min_router_confidence (classify A reader configured adapter f)
      → select_candidate A q cs ≡ ok s
      → (f.has_tools || f.has_multimodal) ≡ true
      → (s.selected.quality_tier ≡ QualityTier.frontier)
        × (f_le q.policy.min_router_confidence (f_lit 99 2) ≡ true
            → (f.has_tools ≡ true → Member Capability.tools s.selected.capabilities)
              × (f.has_multimodal ≡ true → Member Capability.vision s.selected.capabilities))
  select_candidate-capable configured adapter q cs s classified e h =
      let a = (select_candidate-IsAdmissible A q cs s e).1 in
      let escalates : must_escalate f ≡ true = ground arith in
      let c = classify A reader configured adapter f in
      let (high, required, sure) = classify-escalated configured adapter escalates in
      let (still_high, kept) = trusted-cases q.policy.min_router_confidence c high in
      let risky = ap (λ x. is_high x.risk) classified ∙ still_high in
      (
        a.frontier_if_high (rw risky refl),
        λ low.
            let needs : q.classification.required_capabilities ≡ required_by f =
              ap (λ x. x.required_capabilities)
                (classified
                  ∙ kept (subst (λ y. f_le q.policy.min_router_confidence y ≡ true) (sym sure) low))
              ∙ required in
            (
              λ t.
                  a.is_capable Capability.tools (
                    subst (λ ks. Member Capability.tools ks) (sym needs)
                      (required_by_complete.0 t)),
              λ v. a.is_capable Capability.vision (
                  subst (λ ks. Member Capability.vision ks) (sym needs) (required_by_complete.1 v)),
            ),
      )

  -- No specialized endpoint is selected for a classified request with a tool, an image, a secret,
  -- personal data or context, or an uncertain number, whatever the adapter answers.
  pub select_candidate-general :
      (configured : Bool)
      → (adapter : Outcome RouterError (RouterClassification A)) → (q : Query A)
      → (cs : List (EndpointCandidate A)) → (s : Selection A)
      → q.classification ≡ classify A reader configured adapter f
      → select_candidate A q cs ≡ ok s
      → (must_escalate f || is_personal f) ≡ true
      → s.selected.quality_tier ≢ QualityTier.specialized
  select_candidate-general configured adapter q cs s classified e h special =
      let a = (select_candidate-IsAdmissible A q cs s e).1 in
      let eligible = (a.specialized_in_domain special).0 in
      let barred =
        ap (λ c. c.slm_eligible) classified ∙ (classify-IsGuarded configured adapter h).0 in
      false≢true (sym barred ∙ eligible)
