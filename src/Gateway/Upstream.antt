-- ===== src/Gateway/Upstream.antt =====
-- api/gateway.py: `request_for_endpoint` and `invoke`, and what a completion is read for. The providers,
-- the clock and the JSON of a completion are parameters; times are in milliseconds from the start of
-- the request. An endpoint's row and its candidate have the same id, tier and capabilities.
use ecoroute_ht.Base.{
  ℕ, ◌-◌, String, Bool, true, false, ◌&&◌, Option, none, some, any, leb, if◌then◌else◌, Outcome, ok,
  raise,
}
use ecoroute_ht.Numbers.{Arithmetic}
use ecoroute_ht.Schemas.{Capability, TaskType, capability_eq}
use ecoroute_ht.Routing.Candidate.{EndpointCandidate}
use ecoroute_ht.Routing.Ranking.{SelectionReason}
use ecoroute_ht.Routing.Quality.{ResponseFormat}

pub record ProviderError : Type 0 where
  pub message : String
  pub code : String
  pub status_code : ℕ

-- What a call of a provider may raise.
pub data CallError : Type 0 where
  timed_out : CallError
  provider_error : ProviderError → CallError

-- choices[0]["message"]: whether it has tool calls, and the text of its content
pub record Message : Type 0 where
  pub tool_calls : Bool
  pub content : String

-- SUPPORT_CONTRACT_TASKS
abbrev pub has_support_contract : TaskType → Bool
has_support_contract TaskType.policy_qa = true
has_support_contract TaskType.summarization = true
has_support_contract TaskType.classification = true
has_support_contract TaskType.extraction = true
has_support_contract _ = false

-- the upstream's failure of a wait
abbrev pub upstream_timeout : ProviderError
upstream_timeout = record {
  message = "Upstream timed out";
  code = "upstream_timeout";
  status_code = 504;
}

abbrev pub deadline_exceeded : ProviderError
deadline_exceeded = record {
  message = "Request deadline exceeded";
  code = "upstream_timeout";
  status_code = 504;
}

-- The JSON object of a completion, as far as the gateway reads and changes it. A number of tokens that
-- is missing has the default that is given.
pub record Completions (Completion : Type 0) : Type 0 where
  pub has_choices : Completion → Bool  -- choices is a list and not empty
  pub message : Completion → Option Message  -- of the first choice
  pub prompt_tokens : Completion → ℕ → ℕ
  pub completion_tokens : Completion → ℕ → ℕ
  pub text_length : Completion → ℕ  -- len(str(completion))
  pub set_model : String → Completion → Completion
  pub set_content : String → Completion → Completion
  pub set_debug : SelectionReason → Bool → Completion → Completion

module _ (A : Arithmetic) (Json Completion : Type 0) where
  -- The parts of the request body that are read.
  pub record Body : Type 0 where
    pub model : String
    pub has_tools : Bool
    pub response_format : Option (ResponseFormat A Json)
    pub stream : Bool
    pub include_usage : Bool  -- stream_options["include_usage"]
    pub debug : Bool  -- metadata["ecoroute_debug"], in the demonstration mode

  -- The providers: when call `n` is made, how long it takes, and what it answers.
  pub record Providers : Type 0 where
    pub elapsed : ℕ → ℕ
    pub takes : ℕ → ℕ
    pub chat :
        ℕ → EndpointCandidate A → Option (ResponseFormat A Json) → Outcome CallError Completion

  -- the response format of `request_for_endpoint(endpoint)`, where `schema` is the support contract's
  unfoldable pub request_format :
      Json → Body → TaskType → EndpointCandidate A → Option (ResponseFormat A Json)
  request_format schema body task endpoint = elim body.response_format [
    | some format ↦ some format
    | none ↦
        if has_support_contract task
          && any (capability_eq Capability.json_schema) endpoint.capabilities
        then some (ResponseFormat.json_schema (some schema))
        else none
  ]

  -- a TimeoutError becomes a ProviderError
  abbrev pub relabel : Outcome CallError Completion → Outcome ProviderError Completion
  relabel (ok completion) = ok completion
  relabel (raise CallError.timed_out) = raise upstream_timeout
  relabel (raise (CallError.provider_error e)) = raise e

  -- the deadline is past before call `n`
  abbrev pub is_late : ℕ → Providers → ℕ → Bool
  is_late timeout providers n = leb timeout (providers.elapsed n)

  unfoldable pub invoke :
      ℕ
      → Providers
      → ℕ
      → EndpointCandidate A
      → Option (ResponseFormat A Json)
      → Outcome ProviderError Completion
  invoke timeout providers n endpoint format =
      if is_late timeout providers n
      then raise deadline_exceeded
      else if leb (timeout - providers.elapsed n) (providers.takes n)
      then raise upstream_timeout
      else relabel (providers.chat n endpoint format)
