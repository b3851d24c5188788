-- ===== src/Schemas.antt =====
-- gateway/ecoroute/api/schemas.py: the closed vocabularies (`Literal` types), the features of a
-- request, the router's classification and the routing policy. A uuid.UUID is its 128-bit integer:
-- str() of a UUID has a fixed width, so texts are ordered as the integers are.
use ecoroute_ht.Base.{ℕ, String, Bool, true, false, List, Option, ◌==◌, str_eq, any}
use ecoroute_ht.Numbers.{Arithmetic}

abbrev pub Uuid : Type 0
Uuid = ℕ

pub data Level : Type 0 where
  low medium high : Level

pub data QualityTier : Type 0 where
  specialized small standard frontier : QualityTier

pub data Evidence : Type 0 where
  measured estimated stale simulated : Evidence

pub data ProcessingLocation : Type 0 where
  provider_contract operator_declared self_hosted unknown simulated : ProcessingLocation

pub data GridAttribution : Type 0 where
  electricity_maps_data_center physical_grid regional_proxy operator_declared : GridAttribution
  unknown simulated : GridAttribution

pub data Capability : Type 0 where
  text json_schema tools vision streaming : Capability

pub data Health : Type 0 where
  healthy degraded unhealthy unknown : Health

pub data TaskType : Type 0 where
  policy_qa order_support summarization classification extraction reply_draft : TaskType
  tool_workflow legal safety coding general_reasoning unknown : TaskType

pub data Source : Type 0 where
  deterministic trained_adapter fail_closed : Source

-- The text of a task type, for comparisons with the values of JSON objects.
unfoldable pub task_name : TaskType → String
task_name TaskType.policy_qa = "policy_qa"
task_name TaskType.order_support = "order_support"
task_name TaskType.summarization = "summarization"
task_name TaskType.classification = "classification"
task_name TaskType.extraction = "extraction"
task_name TaskType.reply_draft = "reply_draft"
task_name TaskType.tool_workflow = "tool_workflow"
task_name TaskType.legal = "legal"
task_name TaskType.safety = "safety"
task_name TaskType.coding = "coding"
task_name TaskType.general_reasoning = "general_reasoning"
task_name TaskType.unknown = "unknown"

abbrev pub is_high : Level → Bool
is_high Level.high = true
is_high _ = false

abbrev pub is_low : Level → Bool
is_low Level.low = true
is_low _ = false

abbrev pub is_specialized : QualityTier → Bool
is_specialized QualityTier.specialized = true
is_specialized _ = false

abbrev pub is_frontier : QualityTier → Bool
is_frontier QualityTier.frontier = true
is_frontier _ = false

abbrev capability_number : Capability → ℕ
capability_number Capability.text = 0
capability_number Capability.json_schema = 1
capability_number Capability.tools = 2
capability_number Capability.vision = 3
capability_number Capability.streaming = 4

abbrev pub capability_eq : Capability → Capability → Bool
capability_eq a b = capability_number a == capability_number b

-- `s in texts`
abbrev pub str_in : String → List String → Bool
str_in s = any (str_eq s)

pub record NormalizedRequestFeatures : Type 0 where
  pub normalized_text : String
  pub assistant_turn_count : ℕ
  pub input_token_estimate : ℕ
  pub has_tools : Bool
  pub has_multimodal : Bool
  pub contains_pii : Bool
  pub contains_secrets : Bool
  pub is_personalized : Bool
  pub deterministic : Bool
  pub requested_language : String
  pub detection_uncertain : Bool
  pub system_prompt_hash : String
  pub tool_schema_hash : Option String
  pub response_format_hash : Option String

-- A value of a task rule, a JSON object: a text, None, or another value by its truth.
pub data RuleValue : Type 0 where
  text : String → RuleValue
  null : RuleValue
  other : Bool → RuleValue

abbrev pub TaskRule : Type 0
TaskRule = List (String × RuleValue)

module _ (A : Arithmetic) where
  open A use {Float}

  pub record RouterClassification : Type 0 where
    pub complexity : Level
    pub task_type : TaskType
    pub risk : Level
    pub slm_eligible : Bool
    pub cache_eligible : Bool
    pub required_capabilities : List Capability
    pub predicted_output_tokens : ℕ
    pub confidence : Float
    pub rationale_code : String
    pub classification_source : Source

  pub record RoutingWeights : Type 0 where
    pub carbon : Float
    pub cost : Float
    pub latency : Float
    pub quality : Float
    pub evidence : Float

  pub record RoutingPolicyConfig : Type 0 where
    pub enabled_endpoint_ids : List Uuid
    pub min_router_confidence : Float
    pub min_slm_confidence : Float
    pub max_latency_ms : ℕ
    pub max_cost_increase_pct : Float
    pub clean_threshold_gco2_kwh : Float
    pub dirty_threshold_gco2_kwh : Float
    pub semantic_cache_enabled : Bool
    pub semantic_cache_task_types : List TaskType
    pub semantic_similarity_threshold : Float
    pub cache_ttl_seconds : ℕ
    pub quality_fallback_enabled : Bool
    pub allow_experimental_models : Bool
    pub allow_stale_carbon_minutes : ℕ
    pub allowed_regions : List String
    pub sensitive_requires_self_hosted : Bool
    pub weights : RoutingWeights
    pub task_rules : List TaskRule
    pub namespace_version : ℕ
