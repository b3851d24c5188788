-- ===== src/Examples/Selecting.antt =====
-- engine.py on two endpoints, with the numbers of `millionths`.
use ecoroute_ht.Base.{
  ◌*◌, ◌≡◌, refl, inl, inr, true, false, List, [], ◌∷◌, none, ok, raise, Outcome, Member, all, any,
  find?, filter, min_by,
}
use ecoroute_ht.Numbers.{millionths, micro}
use ecoroute_ht.Schemas.{
  Level, QualityTier, Evidence, ProcessingLocation, GridAttribution, Capability, Health, TaskType,
  Source, NormalizedRequestFeatures, RouterClassification, RoutingPolicyConfig, task_name,
}
use ecoroute_ht.Routing.Candidate.{
  EndpointCandidate, estimate_cost, estimate_energy, grid_state, routing_grid_intensity,
  evidence_penalty,
}
use ecoroute_ht.Routing.Exclusion.{
  Query, assess, snapshot, minimum_quality, matching_rule, exclusion_reason, outside_policy,
  outside_regions, breaks_privacy, issubset, below_minimum_quality, over_budget, cost, is_demanding,
  out_of_domain, task_not_allowed, experimental_blocked, is_experimental, required_rank, rule_get,
  status_usable,
}
use ecoroute_ht.Routing.Ranking.{
  Selection, SelectionError, SelectionReason, withhold_unknown_health, available_carbon_values,
  carbons, maximum, merge, minimum, normalized, pick, reserve_specialized, scored, tied, weighted,
}
use ecoroute_ht.Routing.Selection.{
  select_candidate, choose, fallback_error, general_or, local_grid, prefer_specialized, select_from,
  specialized_or,
}
use ecoroute_ht.Routing.Admission.{IsAdmissible, exclusion_reason_iff}
use ecoroute_ht.Routing.Soundness.{select_candidate-IsAdmissible}
use ecoroute_ht.Routing.Totality.{Returns}
use ecoroute_ht.Routing.Decision.{select_candidate_iff}

abbrev pub frontier_endpoint : EndpointCandidate millionths
frontier_endpoint = record {
  id = 1;
  name = "frontier";
  provider = "openai";
  quality_tier = QualityTier.frontier;
  capabilities = Capability.text ∷ Capability.streaming ∷ [];
  context_window_tokens = 128000;
  input_usd_per_million_tokens = 5 * micro;
  output_usd_per_million_tokens = 15 * micro;
  fixed_request_kwh = 100;
  input_kwh_per_1k_tokens = 300;
  output_kwh_per_1k_tokens = 900;
  energy_evidence = Evidence.estimated;
  latency_p95_ms = 900;
  grid_intensity = 400 * micro;
  enabled = true;
  health_state = Health.healthy;
  slm_profile_id = none;
  carbon_available = true;
  region = "us-east";
  self_hosted = false;
  slm_profile_status = none;
  allowed_task_types = [];
  supported_languages = [];
  grid_zone = "US-MIDA-PJM";
  carbon_evidence = Evidence.measured;
  carbon_source = "electricity-maps";
  processing_location_evidence = ProcessingLocation.provider_contract;
  grid_attribution = GridAttribution.physical_grid;
  azure_deployment_type = none;
  routing_override = none;
}

abbrev pub small_endpoint : EndpointCandidate millionths
small_endpoint = record frontier_endpoint {
  id = 2;
  name = "small";
  quality_tier = QualityTier.small;
  input_usd_per_million_tokens = micro;
  output_usd_per_million_tokens = 2 * micro;
  latency_p95_ms = 300;
}

abbrev pub features : NormalizedRequestFeatures
features = record {
  normalized_text = "what is the return window";
  assistant_turn_count = 0;
  input_token_estimate = 20;
  has_tools = false;
  has_multimodal = false;
  contains_pii = false;
  contains_secrets = false;
  is_personalized = false;
  deterministic = true;
  requested_language = "en";
  detection_uncertain = false;
  system_prompt_hash = "h";
  tool_schema_hash = none;
  response_format_hash = none;
}

abbrev pub classification : RouterClassification millionths
classification = record {
  complexity = Level.low;
  task_type = TaskType.policy_qa;
  risk = Level.low;
  slm_eligible = true;
  cache_eligible = true;
  required_capabilities = Capability.text ∷ [];
  predicted_output_tokens = 100;
  confidence = 900000;
  rationale_code = "faq";
  classification_source = Source.deterministic;
}

abbrev pub policy : RoutingPolicyConfig millionths
policy = record {
  enabled_endpoint_ids = [];
  min_router_confidence = 700000;
  min_slm_confidence = 800000;
  max_latency_ms = 5000;
  max_cost_increase_pct = 10 * micro;
  clean_threshold_gco2_kwh = 150 * micro;
  dirty_threshold_gco2_kwh = 500 * micro;
  semantic_cache_enabled = true;
  semantic_cache_task_types = TaskType.policy_qa ∷ [];
  semantic_similarity_threshold = 930000;
  cache_ttl_seconds = 3600;
  quality_fallback_enabled = true;
  allow_experimental_models = false;
  allow_stale_carbon_minutes = 60;
  allowed_regions = [];
  sensitive_requires_self_hosted = true;
  weights = record {
    carbon = 400000;
    cost = 200000;
    latency = 150000;
    quality = 200000;
    evidence = 50000;
  };
  task_rules = [];
  namespace_version = 1;
}

abbrev pub query : Query millionths
query = record {
  features = features;
  classification = classification;
  policy = policy;
  baseline = frontier_endpoint;
  fallback_id = 1;
}

abbrev pub endpoints : List (EndpointCandidate millionths)
endpoints = frontier_endpoint ∷ small_endpoint ∷ []

-- the selection, where there is one
unfoldable selected_or :
    Selection millionths → Outcome SelectionError (Selection millionths) → Selection millionths
selected_or s (ok x) = x
selected_or s (raise e) = s

unfoldable no_selection : Selection millionths
no_selection = record {
  selected = frontier_endpoint;
  entries = [];
  reason = SelectionReason.weighted_score;
}

unfoldable chosen : Selection millionths
unfolding selected_or no_selection
chosen = selected_or no_selection (select_candidate millionths query endpoints)

-- the weighted scores prefer the small endpoint
chosen_small : chosen.selected.id ≡ 2
unfolding chosen no_selection selected_or choose fallback_error general_or local_grid
    prefer_specialized select_from specialized_or select_candidate withhold_unknown_health
    available_carbon_values carbons maximum merge minimum normalized pick reserve_specialized scored
    tied weighted is_demanding cost experimental_blocked is_experimental out_of_domain required_rank
    rule_get snapshot status_usable task_not_allowed exclusion_reason outside_policy outside_regions
    breaks_privacy issubset below_minimum_quality minimum_quality matching_rule over_budget assess
    evidence_penalty grid_state routing_grid_intensity estimate_cost estimate_energy task_name
    filter any all find? min_by
chosen_small = refl

chosen_ok : select_candidate millionths query endpoints ≡ ok chosen
unfolding chosen no_selection selected_or choose fallback_error general_or local_grid
    prefer_specialized select_from specialized_or select_candidate withhold_unknown_health
    available_carbon_values carbons maximum merge minimum normalized pick reserve_specialized scored
    tied weighted is_demanding cost experimental_blocked is_experimental out_of_domain required_rank
    rule_get snapshot status_usable task_not_allowed exclusion_reason outside_policy outside_regions
    breaks_privacy issubset below_minimum_quality minimum_quality matching_rule over_budget assess
    evidence_penalty grid_state routing_grid_intensity estimate_cost estimate_energy task_name
    filter any all find? min_by
chosen_ok = refl

exclusion_reason_iff_example : IsAdmissible millionths query small_endpoint
unfolding exclusion_reason outside_policy outside_regions breaks_privacy issubset
    below_minimum_quality over_budget cost is_demanding out_of_domain task_not_allowed
    experimental_blocked all any minimum_quality matching_rule find? estimate_cost
exclusion_reason_iff_example = (exclusion_reason_iff millionths query small_endpoint).0 refl

select_candidate_iff_example : Returns (select_candidate millionths query endpoints)
select_candidate_iff_example =
    (select_candidate_iff millionths query endpoints).1
      (small_endpoint, (inr (inl refl), exclusion_reason_iff_example))

select_candidate-IsAdmissible_example :
    Member chosen.selected endpoints × IsAdmissible millionths query chosen.selected
select_candidate-IsAdmissible_example =
    select_candidate-IsAdmissible millionths query endpoints chosen chosen_ok
