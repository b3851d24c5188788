-- ===== src/Routing/Admission.antt =====
-- The hard constraints on an endpoint, described apart from the order in which the code tests them.
use ecoroute_ht.Base.{
  subst, eq_iff, refl, str_eq, &&_true, ℕ, ◌+◌, ◌≤◌, ◌≡◌, ◌⊎◌, ◌↔◌, inl, inr, Bool, true, false,
  not, ◌&&◌, ◌||◌, List, [], ◌∷◌, none, any, all, is_none, ltb, arith, Member, any-Member, any-true,
  Bool-cases, ◌==◌, ==_iff,
}
use ecoroute_ht.Numbers.{Arithmetic}
use ecoroute_ht.Schemas.{
  Capability, QualityTier, RuleValue, capability_eq, is_high, is_frontier, is_specialized, str_in,
  task_name,
}
use ecoroute_ht.Routing.Candidate.{EndpointCandidate}
use ecoroute_ht.Routing.Exclusion.{
  Query, exclusion_reason, is_empty, truthy, is_unhealthy, required_rank, quality_rank,
  minimum_quality, matching_rule, status_usable, is_experimental, issubset, over_budget,
  below_minimum_quality, outside_policy, outside_regions, breaks_privacy, is_demanding,
  out_of_domain, task_not_allowed, experimental_blocked,
}

-- `not in` a list that restricts nothing when it is empty
listed_iff {ℓ} :
    {X : Type ℓ} (xs : List X) (b : Bool)
    → ((not (is_empty xs) && not b) ≡ false) ↔ ((xs ≡ []) ⊎ (b ≡ true))
listed_iff [] b = (λ h. inl refl, λ h. refl)
listed_iff (x ∷ xs) b = ground arith

contains_iff :
    {X : Type 0} (p : X → Bool) (x : X)
    → ((y : X) → (p y ≡ true) ↔ (y ≡ x))
    → (xs : List X) → ((not (is_empty xs) && not (any p xs)) ≡ false) ↔ ((xs ≡ []) ⊎ Member x xs)
contains_iff p x found xs = (
  λ h. elim ((listed_iff xs (any p xs)).0 h) [
    | inl e ↦ inl e
    | inr t ↦ let (y, m, e) = any-Member p xs t in inr (subst (λ z. Member z xs) ((found y).0 e) m)
  ],
  λ h.
      (listed_iff xs (any p xs)).1
        (elim h [ inl e ↦ inl e | inr m ↦ inr (any-true p x xs m ((found x).1 refl)) ]),
)

capability_eq_iff : (a b : Capability) → (capability_eq a b ≡ true) ↔ (b ≡ a)
capability_eq_iff a b = ground arith

includes_iff :
    (cs : List Capability) (k : Capability) → (any (capability_eq k) cs ≡ true) ↔ Member k cs
includes_iff cs k = (
  λ h.
      let (y, m, e) = any-Member (capability_eq k) cs h in
      subst (λ z. Member z cs) ((capability_eq_iff k y).0 e) m,
  λ m. any-true (capability_eq k) k cs m ((capability_eq_iff k k).1 refl),
)

issubset_sound :
    (required capabilities : List Capability)
    → issubset required capabilities ≡ true
    → (k : Capability) → Member k required
    → Member k capabilities
unfolding issubset all
issubset_sound (r ∷ rs) cs h k (inl e) = rw e ((includes_iff cs r).0 (&&_true _ _ h).0)
issubset_sound (r ∷ rs) cs h k (inr m) = issubset_sound rs cs (&&_true _ _ h).1 k m
issubset_sound [] cs h k m = absurd m

issubset_complete :
    (required capabilities : List Capability)
    → ((k : Capability) → Member k required → Member k capabilities)
    → issubset required capabilities ≡ true
unfolding issubset all
issubset_complete [] cs f = refl
issubset_complete (r ∷ rs) cs f =
    rw ((includes_iff cs r).1 (f r (inl refl))) (issubset_complete rs cs (λ k m. f k (inr m)))

-- A rule that names no tier, or an empty text, requires rank 0.
rank_of_empty : required_rank (RuleValue.text "") ≡ 0
unfolding required_rank
rank_of_empty = refl

not-below :
    (v : RuleValue) (rank : ℕ)
    → (truthy v && ltb rank (required_rank v)) ≡ false
    → required_rank v ≤ rank
not-below (RuleValue.text s) rank h = elim (Bool-cases (str_eq s "")) [
  | inl e ↦ rw ((eq_iff s "").0 e) (omega (arith, rank_of_empty))
  | inr f ↦ ground arith
]
not-below RuleValue.null rank h = unfold required_rank in omega arith
not-below (RuleValue.other b) rank h = unfold required_rank in omega arith

usable_domain :
    (s e n u : Bool) → e ≡ true → n ≡ false → u ≡ true → (s && (not e || n || not u)) ≡ false
usable_domain s e n u p q r = ground arith

usable_task : (s t l : Bool) → t ≡ true → l ≡ true → (s && (not t || not l)) ≡ false
usable_task s t l p q = ground arith

usable_model : (s x a : Bool) → (x ≡ true → a ≡ true) → (s && x && not a) ≡ false
usable_model s x a p = ground arith

module _ (A : Arithmetic) where
  open A use {d_of, d_add, d_mul, d_div, d_le, decimal_of}

  module _ (q : Query A) (c : EndpointCandidate A) where
    open q use {features, classification, policy, baseline}

    pub record IsAdmissible : Type 0 where
      pub is_enabled : c.enabled ≡ true
      pub is_reachable : is_unhealthy c.health_state ≡ false
      pub allowed_by_policy :
          (policy.enabled_endpoint_ids ≡ []) ⊎ Member c.id policy.enabled_endpoint_ids
      pub allowed_region :
          (policy.allowed_regions ≡ []) ⊎ (str_in c.region policy.allowed_regions ≡ true)
      pub keeps_private :
          policy.sensitive_requires_self_hosted ≡ true
          → (features.contains_pii || features.is_personalized) ≡ true
          → c.self_hosted ≡ true
      pub is_capable :
          (k : Capability) → Member k classification.required_capabilities → Member k c.capabilities
      pub good_enough :
          required_rank (minimum_quality (matching_rule policy.task_rules classification.task_type))
          ≤ quality_rank c.quality_tier
      pub fits :
          features.input_token_estimate + classification.predicted_output_tokens
          ≤ c.context_window_tokens
      pub is_fast : c.latency_p95_ms ≤ policy.max_latency_ms
      pub within_budget : over_budget A q c ≡ false
      pub frontier_if_high :
          (is_high classification.risk || is_high classification.complexity) ≡ true
          → c.quality_tier ≡ QualityTier.frontier
      pub specialized_in_domain :
          c.quality_tier ≡ QualityTier.specialized
          → (classification.slm_eligible ≡ true)
            × (is_none c.slm_profile_id ≡ false)
            × (status_usable c.slm_profile_status ≡ true)
            × (str_in (task_name classification.task_type) c.allowed_task_types ≡ true)
            × (str_in features.requested_language c.supported_languages ≡ true)
            × (is_experimental c.slm_profile_status ≡ true
                → policy.allow_experimental_models ≡ true)

    -- What the ladder of tests has established where it gives no reason.
    record Passed : Type 0 where
      p_enabled : c.enabled ≡ true
      p_healthy : is_unhealthy c.health_state ≡ false
      p_policy : outside_policy A q c ≡ false
      p_regions : outside_regions A q c ≡ false
      p_privacy : breaks_privacy A q c ≡ false
      p_capable : issubset classification.required_capabilities c.capabilities ≡ true
      p_quality : below_minimum_quality A q c ≡ false
      p_fits :
          features.input_token_estimate + classification.predicted_output_tokens
          ≤ c.context_window_tokens
      p_fast : c.latency_p95_ms ≤ policy.max_latency_ms
      p_budget : over_budget A q c ≡ false
      p_tier :
          ((is_demanding A q c ≡ true) × (is_frontier c.quality_tier ≡ true))
          ⊎ ((is_demanding A q c ≡ false)
              × (out_of_domain A q c ≡ false)
              × (task_not_allowed A q c ≡ false)
              × (experimental_blocked A q c ≡ false))

    passed_of_none : exclusion_reason A q c ≡ none → Passed
    unfolding exclusion_reason
    passed_of_none h = ground arith

    none_of_passed : Passed → exclusion_reason A q c ≡ none
    unfolding exclusion_reason
    none_of_passed p = ground arith

    policy_iff :
        (outside_policy A q c ≡ false)
        ↔ ((policy.enabled_endpoint_ids ≡ []) ⊎ Member c.id policy.enabled_endpoint_ids)
    unfolding outside_policy
    policy_iff =
        contains_iff (λ (i : ℕ). i == c.id) c.id (λ i. ==_iff i c.id) policy.enabled_endpoint_ids

    regions_iff :
        (outside_regions A q c ≡ false)
        ↔ ((policy.allowed_regions ≡ []) ⊎ (str_in c.region policy.allowed_regions ≡ true))
    unfolding outside_regions
    regions_iff = listed_iff policy.allowed_regions (str_in c.region policy.allowed_regions)

    quality_le :
        below_minimum_quality A q c ≡ false
        → required_rank (minimum_quality (matching_rule policy.task_rules classification.task_type))
          ≤ quality_rank c.quality_tier
    unfolding below_minimum_quality
    quality_le h =
        not-below (minimum_quality (matching_rule policy.task_rules classification.task_type))
          (quality_rank c.quality_tier) h

    below_of_le :
        required_rank (minimum_quality (matching_rule policy.task_rules classification.task_type))
          ≤ quality_rank c.quality_tier
        → below_minimum_quality A q c ≡ false
    unfolding below_minimum_quality
    below_of_le h = ground arith

    tier_of : Passed → (is_demanding A q c ≡ true) → c.quality_tier ≡ QualityTier.frontier
    tier_of p h = ground arith

    specialized_of :
        (is_demanding A q c ≡ false)
        → (out_of_domain A q c ≡ false)
        → (task_not_allowed A q c ≡ false)
        → (experimental_blocked A q c ≡ false)
        → c.quality_tier ≡ QualityTier.specialized
        → (classification.slm_eligible ≡ true)
          × (is_none c.slm_profile_id ≡ false)
          × (status_usable c.slm_profile_status ≡ true)
          × (str_in (task_name classification.task_type) c.allowed_task_types ≡ true)
          × (str_in features.requested_language c.supported_languages ≡ true)
          × (is_experimental c.slm_profile_status ≡ true → policy.allow_experimental_models ≡ true)
    unfolding out_of_domain task_not_allowed experimental_blocked
    specialized_of d o t x e = ground arith

    frontier_ne_specialized :
        is_frontier c.quality_tier ≡ true → c.quality_tier ≡ QualityTier.specialized → ⊥
    frontier_ne_specialized f e = ground arith

    domain_of :
        Passed
        → c.quality_tier ≡ QualityTier.specialized
        → (classification.slm_eligible ≡ true)
          × (is_none c.slm_profile_id ≡ false)
          × (status_usable c.slm_profile_status ≡ true)
          × (str_in (task_name classification.task_type) c.allowed_task_types ≡ true)
          × (str_in features.requested_language c.supported_languages ≡ true)
          × (is_experimental c.slm_profile_status ≡ true → policy.allow_experimental_models ≡ true)
    domain_of p e = elim p.p_tier [
      | inl (d, f) ↦ absurd (frontier_ne_specialized f e)
      | inr (d, o, t, x) ↦ specialized_of d o t x e
    ]

    admissible_of_passed : Passed → IsAdmissible
    unfolding is_demanding breaks_privacy
    admissible_of_passed p = record {
      is_enabled = p.p_enabled;
      is_reachable = p.p_healthy;
      allowed_by_policy = policy_iff.0 p.p_policy;
      allowed_region = regions_iff.0 p.p_regions;
      keeps_private = λ s f. ground (arith, p.p_privacy);
      is_capable = issubset_sound _ _ p.p_capable;
      good_enough = quality_le p.p_quality;
      fits = p.p_fits;
      is_fast = p.p_fast;
      within_budget = p.p_budget;
      frontier_if_high = tier_of p;
      specialized_in_domain = λ e. domain_of p e;
    }

    frontier_of_eq : c.quality_tier ≡ QualityTier.frontier → is_frontier c.quality_tier ≡ true
    frontier_of_eq e = ground arith

    specialized_of_test :
        is_specialized c.quality_tier ≡ true → c.quality_tier ≡ QualityTier.specialized
    specialized_of_test t = ground arith

    tier_of_admissible :
        IsAdmissible
        → ((is_demanding A q c ≡ true) × (is_frontier c.quality_tier ≡ true))
          ⊎ ((is_demanding A q c ≡ false)
              × (out_of_domain A q c ≡ false)
              × (task_not_allowed A q c ≡ false)
              × (experimental_blocked A q c ≡ false))
    unfolding is_demanding out_of_domain task_not_allowed experimental_blocked
    tier_of_admissible a = elim (Bool-cases (is_demanding A q c)) [
      | inl t ↦ inl (t, frontier_of_eq (a.frontier_if_high t))
      | inr f ↦ elim (Bool-cases (is_specialized c.quality_tier)) [
        | inl s ↦
            let (e, p, u, t, l, x) = a.specialized_in_domain (specialized_of_test s) in
            inr (f, usable_domain _ _ _ _ e p u, usable_task _ _ _ t l, usable_model _ _ _ x)
        | inr g ↦ inr (f, ground arith, ground arith, ground arith)
      ]
    ]

    passed_of_admissible : IsAdmissible → Passed
    unfolding breaks_privacy
    passed_of_admissible a = record {
      p_enabled = a.is_enabled;
      p_healthy = a.is_reachable;
      p_policy = policy_iff.1 a.allowed_by_policy;
      p_regions = regions_iff.1 a.allowed_region;
      p_privacy = ground (arith, a.keeps_private);
      p_capable = issubset_complete _ _ a.is_capable;
      p_quality = below_of_le a.good_enough;
      p_fits = a.fits;
      p_fast = a.is_fast;
      p_budget = a.within_budget;
      p_tier = tier_of_admissible a;
    }

    -- A candidate has no excluded reason exactly when it meets every hard constraint.
    pub exclusion_reason_iff : (exclusion_reason A q c ≡ none) ↔ IsAdmissible
    exclusion_reason_iff =
        (λ h. admissible_of_passed (passed_of_none h), λ a. none_of_passed (passed_of_admissible a))
