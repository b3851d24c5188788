-- ===== src/Routing/Classifier.antt =====
-- gateway/ecoroute/routing/classifier.py: the deterministic classification of a request and its merge
-- with the trained adapter's. The regular expressions are Python's: parameters. The adapter's answer is
-- that of the HTTP call, of json.loads, of the translation of its labels and of the validation.
use ecoroute_ht.Base.{
  ℕ, String, Bool, true, false, not, ◌&&◌, ◌||◌, List, [], ◌∷◌, ◌++◌, Outcome, ok, raise, filter,
  if◌then◌else◌,
}
use ecoroute_ht.Numbers.{Arithmetic, f_lt}
use ecoroute_ht.Schemas.{
  Level, TaskType, Capability, Source, NormalizedRequestFeatures, RouterClassification,
  capability_eq, is_high, is_low,
}

pub data Words : Type 0 where
  tool_or_vision legal_words safety_words summary_words sorting_words complex_reasoning : Words
  code_words order_words policy_words conditional_policy : Words

pub record Reader : Type 0 where
  pub lower : String → String
  pub matches : Words → String → Bool  -- pattern.search(text) is not None
  pub contains : String → String → Bool  -- part in text

pub data RouterError : Type 0 where
  timeout http_error invalid_output : RouterError

-- the six flags that guard the specialized models and the caches
abbrev pub is_personal : NormalizedRequestFeatures → Bool
is_personal f = f.contains_pii || f.is_personalized || f.detection_uncertain

abbrev pub must_escalate : NormalizedRequestFeatures → Bool
must_escalate f = f.contains_secrets || f.has_tools || f.has_multimodal

unfoldable pub required_by : NormalizedRequestFeatures → List Capability
required_by f =
    Capability.text
    ∷ ((if f.has_tools then Capability.tools ∷ [] else [])
        ++ (if f.has_multimodal then Capability.vision ∷ [] else []))

abbrev is_unknown_task : TaskType → Bool
is_unknown_task TaskType.unknown = true
is_unknown_task _ = false

abbrev is_policy : TaskType → Bool
is_policy TaskType.policy_qa = true
is_policy _ = false

abbrev is_reasoning : TaskType → Bool
is_reasoning TaskType.coding = true
is_reasoning TaskType.general_reasoning = true
is_reasoning _ = false

abbrev is_in_domain : TaskType → Bool
is_in_domain TaskType.policy_qa = true
is_in_domain TaskType.summarization = true
is_in_domain TaskType.classification = true
is_in_domain TaskType.extraction = true
is_in_domain _ = false

abbrev is_medium : Level → Bool
is_medium Level.medium = true
is_medium _ = false

module _ (A : Arithmetic) (reader : Reader) where
  open A use {Float, f_lit, f_le}
  open reader use {lower, matches, contains}

  -- the task and the complexity by the words of the text
  unfoldable pub task_of : Bool → String → TaskType × Level
  task_of personalized text =
      if matches Words.summary_words text
      then (TaskType.summarization, Level.medium)
      else if matches Words.sorting_words text
      then (
        if contains "extract" text then TaskType.extraction else TaskType.classification,
        Level.medium,
      )
      else if matches Words.complex_reasoning text
      then (
        if matches Words.code_words text then TaskType.coding else TaskType.general_reasoning,
        Level.high,
      )
      else if matches Words.order_words text && personalized
      then (TaskType.order_support, Level.medium)
      else if matches Words.policy_words text
          && (matches Words.conditional_policy text || personalized)
      then (TaskType.policy_qa, Level.medium)
      else if matches Words.policy_words text
      then (TaskType.policy_qa, Level.low)
      else (TaskType.unknown, Level.medium)

  -- a classification of high risk and complexity, which no specialized model or cache serves
  abbrev escalated :
      TaskType → List Capability → ℕ → Float → String → Source → RouterClassification A
  escalated task required tokens confidence rationale source = record {
    complexity = Level.high;
    task_type = task;
    risk = Level.high;
    slm_eligible = false;
    cache_eligible = false;
    required_capabilities = required;
    predicted_output_tokens = tokens;
    confidence = confidence;
    rationale_code = rationale;
    classification_source = source;
  }

  unfoldable pub rationale_of : Bool → TaskType → String
  rationale_of conditional task =
      if conditional
      then "CONDITIONAL_POLICY_INTERPRETATION"
      else if is_policy task
      then "PUBLIC_POLICY_LOOKUP"
      else if is_in_domain task
      then "SUPPORTED_DOMAIN_TASK"
      else if is_reasoning task
      then "COMPLEX_REASONING"
      else "UNKNOWN_TASK"

  unfoldable pub by_task : NormalizedRequestFeatures → TaskType × Level → RouterClassification A
  unfolding rationale_of required_by
  by_task f (task, complexity) =
      let conditional = is_policy task && is_medium complexity in
      record {
        complexity = complexity;
        task_type = task;
        risk =
            if is_personal f || conditional || is_reasoning task || is_unknown_task task
            then Level.medium
            else Level.low;
        slm_eligible = is_in_domain task && not (is_personal f);
        cache_eligible = is_policy task && is_low complexity && not (is_personal f);
        required_capabilities = required_by f;
        predicted_output_tokens = if is_low complexity then 96 else 192;
        confidence = if is_unknown_task task then f_lit 75 2 else f_lit 95 2;
        rationale_code = rationale_of conditional task;
        classification_source = Source.deterministic;
      }

  unfoldable pub deterministic_classify : NormalizedRequestFeatures → RouterClassification A
  unfolding by_task task_of required_by
  deterministic_classify f =
      let text = lower f.normalized_text in
      if must_escalate f
      then escalated (if f.has_tools then TaskType.tool_workflow else TaskType.unknown)
          (required_by f) 256 (f_lit 99 2) "DETERMINISTIC_SAFETY_ESCALATION" Source.deterministic
      else if matches Words.tool_or_vision text
      then escalated TaskType.tool_workflow (Capability.text ∷ Capability.tools ∷ []) 256
          (f_lit 98 2) "TOOL_EXECUTION_REQUIRED" Source.deterministic
      else if matches Words.legal_words text
      then escalated TaskType.legal (required_by f) 480 (f_lit 98 2) "LEGAL_INTERPRETATION"
          Source.deterministic
      else if matches Words.safety_words text
      then escalated TaskType.safety (required_by f) 320 (f_lit 96 2) "SAFETY_CRITICAL"
          Source.deterministic
      else by_task f (task_of (is_personal f) text)

  abbrev pub fail_closed : String → RouterClassification A
  fail_closed rationale =
      escalated TaskType.unknown (Capability.text ∷ []) 256 (f_lit 0 1) rationale Source.fail_closed

  -- list(dict.fromkeys(xs)): each value where it first stands
  unfoldable pub first_of_each : List Capability → List Capability
  first_of_each [] = []
  first_of_each (k ∷ ks) = k ∷ filter (λ x. not (capability_eq k x)) (first_of_each ks)

  -- the adapter's classification under the guards of the request
  unfoldable pub guarded :
      NormalizedRequestFeatures
      → RouterClassification A
      → RouterClassification A
      → RouterClassification A
  unfolding first_of_each
  guarded f deterministic value =
      if f_lt A value.confidence (f_lit 70 2) || is_unknown_task value.task_type
      then fail_closed "ROUTER_LOW_CONFIDENCE"
      else record value {
        required_capabilities =
            first_of_each (value.required_capabilities ++ deterministic.required_capabilities);
        slm_eligible = if must_escalate f || is_personal f then false else value.slm_eligible;
        cache_eligible = if must_escalate f || is_personal f then false else value.cache_eligible;
        risk = if is_personal f && is_low value.risk then Level.medium else value.risk;
        classification_source = Source.trained_adapter;
      }

  abbrev pub rationale_of_error : RouterError → String
  rationale_of_error RouterError.timeout = "ROUTER_TIMEOUT"
  rationale_of_error RouterError.http_error = "ROUTER_HTTP_ERROR"
  rationale_of_error RouterError.invalid_output = "ROUTER_INVALID_OUTPUT"

  unfoldable pub adapted :
      NormalizedRequestFeatures
      → RouterClassification A
      → Outcome RouterError (RouterClassification A)
      → RouterClassification A
  unfolding guarded
  adapted f deterministic (ok value) = guarded f deterministic value
  adapted f deterministic (raise e) = fail_closed (rationale_of_error e)

  -- `configured` says that the settings name an adapter
  unfoldable pub classify :
      Bool
      → Outcome RouterError (RouterClassification A)
      → NormalizedRequestFeatures
      → RouterClassification A
  unfolding deterministic_classify adapted
  classify configured adapter f =
      let deterministic = deterministic_classify f in
      if is_high deterministic.risk && f_le (f_lit 90 2) deterministic.confidence
      then deterministic
      else if not configured
      then deterministic
      else adapted f deterministic adapter

  -- api/gateway.py: a classification below the confidence of the policy is replaced
  unfoldable pub trusted : Float → RouterClassification A → RouterClassification A
  trusted minimum c =
      if f_lt A c.confidence minimum then fail_closed "ROUTER_BELOW_POLICY_CONFIDENCE" else c
