-- ===== src/Routing/Quality.antt =====
-- routing/quality.py, `verify_output`. Python's texts, json and jsonschema are parameters: what they
-- find in a text, the value that it parses to, and the fields of the support contract with their casts.
use ecoroute_ht.Base.{
  ℕ, String, Bool, true, false, not, List, [], ◌∷◌, Option, none, some, any, all, ltb,
  if◌then◌else◌,
}
use ecoroute_ht.Numbers.{Arithmetic, f_lt}
use ecoroute_ht.Schemas.{TaskType, str_in}

module _ (A : Arithmetic) (Json : Type 0) where
  open A use {Float, f_le}

  -- float(value): json.loads and float accept NaN too
  pub data Number : Type 0 where
    nan : Number
    number : Float → Number

  pub record Contract : Type 0 where
    pub answer : String
    pub confidence : Number
    pub policy_ids : List String
    pub needs_human : Bool

  pub record Checks : Type 0 where
    pub is_blank : String → Bool  -- not raw.strip()
    pub len : String → ℕ
    pub has_secret : String → Bool
    pub lower : String → String
    pub contains : String → String → Bool  -- phrase in text
    pub loads : String → Option Json  -- none where json.loads raises
    pub contract : Json → Option Contract  -- none where a field is missing or a cast raises
    pub is_schema : Json → Bool  -- check_schema does not raise
    pub validates : Json → Json → Bool  -- the schema, the value

  -- response_format: its type, and for json_schema the schema, if it is an object.
  pub data ResponseFormat : Type 0 where
    free_text json_object : ResponseFormat
    json_schema : Option Json → ResponseFormat

  pub record Verdict : Type 0 where
    pub passed : Bool
    pub reason : String
    pub confidence : Option Number
    pub policy_ids : List String
    pub answer : Option String

  abbrev rejected : String → Verdict
  rejected reason = record {
    passed = false;
    reason = reason;
    confidence = none;
    policy_ids = [];
    answer = none;
  }

  -- PROHIBITED_PROMISES
  abbrev pub prohibited_promises : List String
  prohibited_promises =
      "i have issued the refund" ∷ "your refund has been processed" ∷ "i cancelled your order"
      ∷ "i changed your order" ∷ []

  -- KNOWN_POLICY_IDS
  abbrev pub known_policy_ids : List String
  known_policy_ids =
      "returns-30-day" ∷ "final-sale" ∷ "exchange-stock" ∷ "shipping-standard" ∷ "shipping-delay"
      ∷ "refund-timing" ∷ []

  -- x < y, which is False where x is NaN
  unfoldable pub is_below : Number → Float → Bool
  is_below Number.nan y = false
  is_below (Number.number x) y = f_lt A x y

  -- the task types that a specialized model may answer
  abbrev pub is_allowlisted : TaskType → Bool
  is_allowlisted TaskType.policy_qa = true
  is_allowlisted TaskType.summarization = true
  is_allowlisted TaskType.classification = true
  is_allowlisted TaskType.extraction = true
  is_allowlisted _ = false

  module _ (checks : Checks) where
    open checks use {
      is_blank, len, has_secret, lower, contains, loads, contract, is_schema, validates,
    }

    unfoldable pub promises : String → Bool
    promises raw = any (λ phrase. contains phrase (lower raw)) prohibited_promises

    -- the checks of the requested format: the reason of a rejection
    unfoldable pub format_error : ResponseFormat → Option Json → Option String
    format_error ResponseFormat.free_text value = none
    format_error ResponseFormat.json_object none = some "invalid_requested_json"
    format_error ResponseFormat.json_object (some v) = none
    format_error (ResponseFormat.json_schema schema) none = some "invalid_requested_json"
    format_error (ResponseFormat.json_schema none) (some v) = some "missing_requested_json_schema"
    format_error (ResponseFormat.json_schema (some schema)) (some v) =
        if not (is_schema schema)
        then some "invalid_requested_json_schema"
        else if not (validates schema v)
        then some "json_schema_validation_failed"
        else none

    unfoldable pub all_known : List String → Bool
    all_known = all (λ i. str_in i known_policy_ids)

    -- the checks of the support contract
    unfoldable pub check_contract : TaskType → Float → Contract → Verdict
    unfolding all_known is_below
    check_contract task minimum c =
        if is_below c.confidence minimum
        then record (rejected "low_support_confidence") { confidence = some c.confidence }
        else if c.needs_human
        then record (rejected "human_escalation_required") { confidence = some c.confidence }
        else if not (all_known c.policy_ids)
        then record (rejected "unknown_policy_id") { policy_ids = c.policy_ids }
        else if not (is_allowlisted task)
        then rejected "task_outside_slm_allowlist"
        else record {
          passed = true;
          reason = "support_contract_passed";
          confidence = some c.confidence;
          policy_ids = c.policy_ids;
          answer = some c.answer;
        }

    abbrev pub contract_of : Option Json → Option Contract
    contract_of none = none
    contract_of (some v) = contract v

    unfoldable pub check_support : TaskType → Float → Option Contract → Verdict
    unfolding check_contract
    check_support task minimum none = rejected "invalid_support_contract"
    check_support task minimum (some c) = check_contract task minimum c

    unfoldable pub after_format : TaskType → Bool → Float → String → Option String → Verdict
    unfolding check_support
    after_format task specialized minimum raw (some reason) = rejected reason
    after_format task specialized minimum raw none =
        if not specialized
        then record {
          passed = true;
          reason = "deterministic_checks_passed";
          confidence = none;
          policy_ids = [];
          answer = some raw;
        }
        else check_support task minimum (contract_of (loads raw))

    unfoldable pub verify_output :
        TaskType → Bool → Bool → ResponseFormat → ℕ → Float → String → Verdict
    unfolding promises format_error after_format
    verify_output task specialized force_failure format maximum_characters minimum raw =
        if force_failure
        then rejected "demo_forced_failure"
        else if is_blank raw
        then rejected "empty_output"
        else if ltb maximum_characters (len raw)
        then rejected "output_too_long"
        else if has_secret raw
        then rejected "possible_secret_echo"
        else if promises raw
        then rejected "prohibited_promise"
        else after_format task specialized minimum raw (format_error format (loads raw))
