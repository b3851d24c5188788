-- ===== src/Routing/Caching.antt =====
-- engine.py, `exact_cache_eligible` and `semantic_cache_eligible`. A classification may be absent.
use ecoroute_ht.Base.{
  ◌≡◌, Bool, true, false, not, ◌&&◌, List, Option, none, some, any, arith, ltb, leb, str_eq,
}
use ecoroute_ht.Numbers.{Arithmetic}
use ecoroute_ht.Schemas.{
  NormalizedRequestFeatures, RouterClassification, RoutingPolicyConfig, TaskType, is_high,
  task_name,
}

-- No request with tools, images, personal data, secrets or an uncertain detection is reusable.
pub record IsReusable (f : NormalizedRequestFeatures) : Type 0 where
  pub no_tools : f.has_tools ≡ false
  pub no_images : f.has_multimodal ≡ false
  pub no_pii : f.contains_pii ≡ false
  pub no_secrets : f.contains_secrets ≡ false
  pub not_personalized : f.is_personalized ≡ false
  pub certain : f.detection_uncertain ≡ false
  pub repeatable : f.deterministic ≡ true

-- task in tasks
unfoldable pub task_in : TaskType → List TaskType → Bool
task_in t = any (λ s. str_eq (task_name t) (task_name s))

module _ (A : Arithmetic) where
  -- classification is None or test(classification)
  abbrev absent_or : Option (RouterClassification A) → (RouterClassification A → Bool) → Bool
  absent_or none test = true
  absent_or (some c) test = test c

  unfoldable pub exact_cache_eligible :
      NormalizedRequestFeatures → RoutingPolicyConfig A → Option (RouterClassification A) → Bool
  exact_cache_eligible features policy classification =
      not features.has_tools
      && not features.has_multimodal
      && not features.contains_pii
      && not features.contains_secrets
      && not features.is_personalized
      && not features.detection_uncertain
      && features.deterministic
      && ltb 0 policy.cache_ttl_seconds
      && absent_or classification (λ c. not (is_high c.risk))
      && absent_or classification (λ c. c.cache_eligible)

  unfoldable pub semantic_cache_eligible :
      NormalizedRequestFeatures → RoutingPolicyConfig A → Option (RouterClassification A) → Bool
  semantic_cache_eligible features policy classification =
      exact_cache_eligible features policy classification
      && policy.semantic_cache_enabled
      && leb features.assistant_turn_count 1
      && absent_or classification (λ c. task_in c.task_type policy.semantic_cache_task_types)

  module _ (f : NormalizedRequestFeatures) (p : RoutingPolicyConfig A) where
    -- A request that is eligible for the exact cache is reusable.
    pub exact-IsReusable :
        (c : Option (RouterClassification A)) → exact_cache_eligible f p c ≡ true → IsReusable f
    unfolding exact_cache_eligible
    exact-IsReusable none h = ground arith
    exact-IsReusable (some c) h = ground arith

    -- The semantic cache is for requests that are eligible for the exact one.
    pub semantic_exact :
        (c : Option (RouterClassification A))
        → semantic_cache_eligible f p c ≡ true
        → exact_cache_eligible f p c ≡ true
    unfolding semantic_cache_eligible
    semantic_exact none h = ground arith
    semantic_exact (some c) h = ground arith
