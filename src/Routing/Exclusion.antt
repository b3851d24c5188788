-- ===== src/Routing/Exclusion.antt =====
-- engine.py, the loop of `select_candidate` over the candidates: the snapshot of each candidate and
-- the first reason that excludes it.
use ecoroute_ht.Base.{
  ℕ, ◌+◌, ◌==◌, String, Bool, true, false, not, ◌&&◌, ◌||◌, List, [], ◌∷◌, map, Option, none, some,
  is_none, or_else, all, any, find?, str_eq, ltb, if◌then◌else◌,
}
use ecoroute_ht.Numbers.{Arithmetic, d_lt, d_eq}
use ecoroute_ht.Schemas.{
  Uuid, QualityTier, Evidence, ProcessingLocation, GridAttribution, Capability, Health, TaskType,
  RuleValue, TaskRule, NormalizedRequestFeatures, RouterClassification, RoutingPolicyConfig,
  task_name, is_high, is_frontier, is_specialized, capability_eq, str_in,
}
use ecoroute_ht.Routing.Candidate.{EndpointCandidate, estimate_cost, estimate_energy}

pub data ExclusionReason : Type 0 where
  endpoint_disabled endpoint_unhealthy policy_not_allowed region_not_allowed : ExclusionReason
  privacy_requires_self_hosted capability_mismatch minimum_quality_tier : ExclusionReason
  context_window_exceeded latency_limit_exceeded cost_limit_exceeded : ExclusionReason
  frontier_required specialized_domain_mismatch specialized_task_not_allowed : ExclusionReason
  experimental_model_not_allowed endpoint_health_unknown : ExclusionReason
  specialized_reserved_for_dirty_grid : ExclusionReason

abbrev pub is_unhealthy : Health → Bool
is_unhealthy Health.unhealthy = true
is_unhealthy _ = false

abbrev pub is_unknown_health : Health → Bool
is_unknown_health Health.unknown = true
is_unknown_health _ = false

-- rule.get(key), with None where the key is missing
pub rule_get? : String → TaskRule → Option RuleValue
rule_get? key [] = none
rule_get? key ((k, v) ∷ rest) = if str_eq k key then some v else rule_get? key rest

-- rule.get(first, rule.get(second))
unfoldable pub rule_get : String → String → TaskRule → RuleValue
unfolding rule_get?
rule_get first second rule =
    or_else (rule_get? first rule) (or_else (rule_get? second rule) RuleValue.null)

abbrev rule_value_is : RuleValue → String → Bool
rule_value_is (RuleValue.text s) t = str_eq s t
rule_value_is _ t = false

-- bool(value)
abbrev pub truthy : RuleValue → Bool
truthy (RuleValue.text s) = not (str_eq s "")
truthy RuleValue.null = false
truthy (RuleValue.other b) = b

abbrev pub quality_rank : QualityTier → ℕ
quality_rank QualityTier.specialized = 1
quality_rank QualityTier.small = 1
quality_rank QualityTier.standard = 2
quality_rank QualityTier.frontier = 3

-- quality_rank.get(str(value), 0): no other value prints as the name of a tier
unfoldable pub required_rank : RuleValue → ℕ
required_rank (RuleValue.text s) =
    if str_eq s "specialized" || str_eq s "small"
    then 1
    else if str_eq s "standard"
    then 2
    else if str_eq s "frontier"
    then 3
    else 0
required_rank _ = 0

unfoldable pub matching_rule : List TaskRule → TaskType → TaskRule
unfolding rule_get task_name
matching_rule rules task =
    or_else
      (find? (λ rule. rule_value_is (rule_get "taskType" "task_type" rule) (task_name task)) rules)
      []

unfoldable pub minimum_quality : TaskRule → RuleValue
unfolding rule_get
minimum_quality = rule_get "minimumQualityTier" "minimum_quality_tier"

abbrev pub is_empty {ℓ} : {X : Type ℓ} → List X → Bool
is_empty [] = true
is_empty (_ ∷ _) = false

-- required.issubset(capabilities)
unfoldable pub issubset : List Capability → List Capability → Bool
issubset required capabilities = all (λ c. any (capability_eq c) capabilities) required

-- status not in {"ready", "active", "deployed", "experimental"}
unfoldable pub status_usable : Option String → Bool
status_usable none = false
status_usable (some s) = str_in s ("ready" ∷ "active" ∷ "deployed" ∷ "experimental" ∷ [])

unfoldable pub is_experimental : Option String → Bool
is_experimental none = false
is_experimental (some s) = str_eq s "experimental"

module _ (A : Arithmetic) where
  open A use {Float, Decimal, d_of, d_add, d_mul, d_div, decimal_of, f_mul}

  -- The parts of a request that the loop reads, and what stands above the loop.
  pub record Query : Type 0 where
    pub features : NormalizedRequestFeatures
    pub classification : RouterClassification A
    pub policy : RoutingPolicyConfig A
    pub baseline : EndpointCandidate A
    pub fallback_id : Uuid

  module _ (q : Query) (c : EndpointCandidate A) where
    open q use {features, classification, policy, baseline}

    unfoldable pub cost : Decimal
    cost = estimate_cost A c features.input_token_estimate classification.predicted_output_tokens

    unfoldable pub over_budget : Bool
    unfolding cost
    over_budget =
        let baseline_cost =
          estimate_cost A baseline features.input_token_estimate
            classification.predicted_output_tokens in
        not (d_eq A baseline_cost (d_of 0))
        && d_lt A
            (d_mul baseline_cost
              (d_add (d_of 1) (d_div (decimal_of policy.max_cost_increase_pct) (d_of 100))))
            cost

    unfoldable pub below_minimum_quality : Bool
    below_minimum_quality =
        let minimum = minimum_quality (matching_rule policy.task_rules classification.task_type) in
        truthy minimum && ltb (quality_rank c.quality_tier) (required_rank minimum)

    -- The compound tests of the ladder, in its order.
    unfoldable pub outside_policy : Bool
    outside_policy =
        not (is_empty policy.enabled_endpoint_ids)
        && not (any (λ i. i == c.id) policy.enabled_endpoint_ids)

    unfoldable pub outside_regions : Bool
    outside_regions =
        not (is_empty policy.allowed_regions) && not (str_in c.region policy.allowed_regions)

    unfoldable pub breaks_privacy : Bool
    breaks_privacy =
        policy.sensitive_requires_self_hosted
        && (features.contains_pii || features.is_personalized)
        && not c.self_hosted

    unfoldable pub is_demanding : Bool
    is_demanding = is_high classification.risk || is_high classification.complexity

    unfoldable pub out_of_domain : Bool
    out_of_domain =
        is_specialized c.quality_tier
        && (not classification.slm_eligible
            || is_none c.slm_profile_id
            || not (status_usable c.slm_profile_status))

    unfoldable pub task_not_allowed : Bool
    task_not_allowed =
        is_specialized c.quality_tier
        && (not (str_in (task_name classification.task_type) c.allowed_task_types)
            || not (str_in features.requested_language c.supported_languages))

    unfoldable pub experimental_blocked : Bool
    experimental_blocked =
        is_specialized c.quality_tier
        && is_experimental c.slm_profile_status
        && not policy.allow_experimental_models

    unfoldable pub exclusion_reason : Option ExclusionReason
    exclusion_reason =
        if not c.enabled
        then some ExclusionReason.endpoint_disabled
        else if is_unhealthy c.health_state
        then some ExclusionReason.endpoint_unhealthy
        else if outside_policy
        then some ExclusionReason.policy_not_allowed
        else if outside_regions
        then some ExclusionReason.region_not_allowed
        else if breaks_privacy
        then some ExclusionReason.privacy_requires_self_hosted
        else if not (issubset classification.required_capabilities c.capabilities)
        then some ExclusionReason.capability_mismatch
        else if below_minimum_quality
        then some ExclusionReason.minimum_quality_tier
        else if ltb c.context_window_tokens
            (features.input_token_estimate + classification.predicted_output_tokens)
        then some ExclusionReason.context_window_exceeded
        else if ltb policy.max_latency_ms c.latency_p95_ms
        then some ExclusionReason.latency_limit_exceeded
        else if over_budget
        then some ExclusionReason.cost_limit_exceeded
        else if is_demanding
        then (if is_frontier c.quality_tier then none else some ExclusionReason.frontier_required)
        else if out_of_domain
        then some ExclusionReason.specialized_domain_mismatch
        else if task_not_allowed
        then some ExclusionReason.specialized_task_not_allowed
        else if experimental_blocked
        then some ExclusionReason.experimental_model_not_allowed
        else none

  pub record CandidateSnapshot : Type 0 where
    pub endpoint_id : Uuid
    pub name : String
    pub provider : String
    pub quality_tier : QualityTier
    pub estimated_energy_kwh : Float
    pub estimated_cost_usd : Decimal
    pub estimated_carbon_g : Option Float
    pub latency_p95_ms : ℕ
    pub evidence : Evidence
    pub region : String
    pub azure_deployment_type : Option String
    pub grid_zone : String
    pub carbon_evidence : Evidence
    pub processing_location_evidence : ProcessingLocation
    pub grid_attribution : GridAttribution
    pub carbon_source : String
    pub score : Option Float
    pub excluded_reason : Option ExclusionReason

  unfoldable pub snapshot : Query → EndpointCandidate A → CandidateSnapshot
  unfolding cost
  snapshot q c =
      let energy =
        estimate_energy A c q.features.input_token_estimate
          q.classification.predicted_output_tokens in
      record {
        endpoint_id = c.id;
        name = c.name;
        provider = c.provider;
        quality_tier = c.quality_tier;
        estimated_energy_kwh = energy;
        estimated_cost_usd = cost q c;
        estimated_carbon_g =
            if c.carbon_available then some (f_mul energy c.grid_intensity) else none;
        latency_p95_ms = c.latency_p95_ms;
        evidence = c.energy_evidence;
        region = c.region;
        azure_deployment_type = c.azure_deployment_type;
        grid_zone = c.grid_zone;
        carbon_evidence = c.carbon_evidence;
        processing_location_evidence = c.processing_location_evidence;
        grid_attribution = c.grid_attribution;
        carbon_source = c.carbon_source;
        score = none;
        excluded_reason = exclusion_reason q c;
      }

  -- A candidate beside its snapshot, which later stages of the selection change in place.
  pub record Entry : Type 0 where
    pub candidate : EndpointCandidate A
    pub snapshot : CandidateSnapshot

  unfoldable pub assess : Query → List (EndpointCandidate A) → List Entry
  unfolding snapshot
  assess q = map (λ c. record { candidate = c; snapshot = snapshot q c })
