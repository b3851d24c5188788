-- ===== src/Examples/Classifying.antt =====
-- classifier.py and engine.py on a request with a tool and personal data, whose adapter answers that a
-- specialized model and the caches may serve it.
use ecoroute_ht.Base.{
  ◌≡◌, ◌≢◌, refl, inl, inr, true, false, List, [], ◌∷◌, ok, Outcome, Member, all, any, find?,
}
use text.Mathlib.Text.{◌==◌ as text_eq}
use ecoroute_ht.Numbers.{millionths}
use ecoroute_ht.Schemas.{Capability, QualityTier, NormalizedRequestFeatures, RouterClassification}
use ecoroute_ht.Routing.Candidate.{EndpointCandidate, estimate_cost}
use ecoroute_ht.Routing.Exclusion.{
  Query, minimum_quality, matching_rule, exclusion_reason, outside_policy, outside_regions,
  breaks_privacy, issubset, below_minimum_quality, over_budget, cost, is_demanding,
}
use ecoroute_ht.Routing.Selection.{select_candidate}
use ecoroute_ht.Routing.Admission.{IsAdmissible, exclusion_reason_iff}
use ecoroute_ht.Routing.Totality.{Returns}
use ecoroute_ht.Routing.Decision.{select_candidate_iff}
use ecoroute_ht.Routing.Classifier.{
  trusted, Reader, RouterError, classify, deterministic_classify, required_by,
}
use ecoroute_ht.Routing.Guards.{
  classify-IsGuarded, select_candidate-capable, select_candidate-general,
}
use ecoroute_ht.Examples.Selecting.{
  features, classification, policy, frontier_endpoint, small_endpoint,
}

abbrev reader : Reader
reader = record { lower = λ s. s; matches = λ w s. false; contains = λ part s. text_eq part s }

abbrev personal_features : NormalizedRequestFeatures
personal_features = record features { has_tools = true; contains_pii = true }

abbrev answer : Outcome RouterError (RouterClassification millionths)
answer = ok classification

abbrev classified : RouterClassification millionths
classified = classify millionths reader true answer personal_features

classify-IsGuarded_example : (classified.slm_eligible ≡ false) × (classified.cache_eligible ≡ false)
classify-IsGuarded_example = classify-IsGuarded millionths reader personal_features true answer refl

abbrev tool_endpoint : EndpointCandidate millionths
tool_endpoint = record frontier_endpoint {
  id = 3;
  name = "tools";
  capabilities = Capability.text ∷ Capability.tools ∷ [];
}

abbrev query : Query millionths
query = record {
  features = personal_features;
  classification = classified;
  policy = record policy { sensitive_requires_self_hosted = false };
  baseline = frontier_endpoint;
  fallback_id = 1;
}

abbrev endpoints : List (EndpointCandidate millionths)
endpoints = small_endpoint ∷ tool_endpoint ∷ []

tool_endpoint-IsAdmissible : IsAdmissible millionths query tool_endpoint
unfolding exclusion_reason outside_policy outside_regions breaks_privacy issubset
    below_minimum_quality over_budget cost is_demanding all any minimum_quality matching_rule find?
    estimate_cost classify deterministic_classify required_by
tool_endpoint-IsAdmissible = (exclusion_reason_iff millionths query tool_endpoint).0 refl

selects : Returns (select_candidate millionths query endpoints)
selects =
    (select_candidate_iff millionths query endpoints).1
      (tool_endpoint, (inr (inl refl), tool_endpoint-IsAdmissible))

select_candidate-capable_example :
    (selects.0.selected.quality_tier ≡ QualityTier.frontier)
    × (millionths.f_le 700000 990000 ≡ true
        → (true ≡ true → Member Capability.tools selects.0.selected.capabilities)
          × (false ≡ true → Member Capability.vision selects.0.selected.capabilities))
unfolding trusted classify
select_candidate-capable_example =
    select_candidate-capable millionths reader personal_features true answer query endpoints
      selects.0 refl selects.1 refl

select_candidate-general_example : selects.0.selected.quality_tier ≢ QualityTier.specialized
select_candidate-general_example =
    select_candidate-general millionths reader personal_features true answer query endpoints
      selects.0 refl selects.1 refl
