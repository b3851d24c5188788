-- ===== src/Gateway/Context.antt =====
-- api/gateway.py, `chat_completions`: what stands before the first call of a provider, the call itself,
-- the endpoints that may serve in place of the selected one, and the verdict on an output.
use ecoroute_ht.Base.{
  ℕ, ◌*◌, ◌/◌, ◌==◌, String, Bool, true, not, ◌&&◌, List, [], ◌∷◌, map, filter, Option, none, some,
  or_else, any, find?, max, starts_with, if◌then◌else◌, Outcome,
}
use ecoroute_ht.Numbers.{Arithmetic}
use ecoroute_ht.Schemas.{Uuid, Capability, is_frontier, capability_eq, str_in}
use ecoroute_ht.Routing.Candidate.{EndpointCandidate, GridState}
use ecoroute_ht.Routing.Exclusion.{Query, Entry}
use ecoroute_ht.Routing.Ranking.{SelectionReason, is_eligible}
use ecoroute_ht.Routing.Quality.{Checks, ResponseFormat, Verdict, verify_output}
use ecoroute_ht.Cache.Entries.{EntryKey}
use ecoroute_ht.Gateway.Ledger.{Purpose, AttemptStatus, Attempt, Ledger, Raised, called}
use ecoroute_ht.Gateway.Upstream.{
  ProviderError, Message, Completions, Body, Providers, request_format, is_late, invoke,
}

-- What the handler answers with.
pub record Response (Completion : Type 0) : Type 0 where
  pub completion : Completion
  pub endpoint_id : Uuid
  pub fallback_used : Bool

-- the codes after which the transport fallback is tried
abbrev pub is_retryable : String → Bool
is_retryable code =
    str_in code
      ("rate_limit_error" ∷ "upstream_timeout" ∷ "upstream_transport_error" ∷ "upstream_error" ∷ [])

-- the error_type of a provider's failure with no fallback
unfoldable pub error_type_of : ProviderError → String
error_type_of e =
    if e.status_code == 429
    then "rate_limit_error"
    else if e.status_code == 504
    then "upstream_timeout"
    else if starts_with e.code "upstream_auth"
    then "upstream_configuration_error"
    else "upstream_error"

abbrev pub error_of : ProviderError → String → Raised
error_of e error_type = Raised.error (record {
  message = e.message;
  status_code = e.status_code;
  code = e.code;
  error_type = error_type;
})

abbrev pub bad_gateway : String → String → Raised
bad_gateway message code =
    Raised.error
      (record { message = message; status_code = 502; code = code; error_type = "upstream_error" })

-- purpose="selected" if attempt_number == 1 else "transport_fallback"
abbrev pub purpose_of : ℕ → Purpose
purpose_of n = if n == 1 then Purpose.selected else Purpose.transport_fallback

-- the lifetime of a stored answer: int(ttl * factor), and a minute at least
unfoldable pub ttl_for : ℕ → GridState → ℕ
ttl_for ttl GridState.clean = max 60 (ttl / 2)
ttl_for ttl GridState.dirty = max 60 (ttl * 2)
ttl_for ttl _ = max 60 ttl

module _ (A : Arithmetic) (Json Vector Completion : Type 0) where
  -- What stands before the first call: the request, the selection, and the parameters.
  pub record Routed : Type 0 where
    pub query : Query A
    pub body : Body A Json Completion
    pub candidates : List (EndpointCandidate A)
    pub entries : List (Entry A)
    pub reason : SelectionReason
    pub accounting_baseline : EndpointCandidate A
    pub grid_state : GridState  -- decision.grid_state
    pub force_failure : Bool
    pub support_schema : Json
    pub timeout : ℕ
    pub providers : Providers A Json Completion
    pub completions : Completions Completion
    pub checks : Checks A Json
    pub encode : String → Vector
    pub now : ℕ
    pub key : EntryKey
    pub entry_id : Uuid
    pub logical_model_id : Uuid

-- The answer or the exception, and what was written.
abbrev pub Served : Arithmetic → Type 0 → Type 0 → Type 0
Served A Vector Completion = Outcome Raised (Response Completion) × Ledger A Vector Completion

module _ {A : Arithmetic} {Json Vector Completion : Type 0}
    (r : Routed A Json Vector Completion) where
  open r use {query, body, candidates, entries, completions, checks}

  abbrev pub format_for : EndpointCandidate A → Option (ResponseFormat A Json)
  format_for = request_format A Json Completion r.support_schema body query.classification.task_type

  -- call `n`: the answer, and the ledger with the call, if the deadline lets it be made
  unfoldable pub ask :
      ℕ
      → EndpointCandidate A
      → Ledger A Vector Completion
      → Outcome ProviderError Completion × Ledger A Vector Completion
  unfolding invoke request_format
  ask n endpoint l = (
    invoke A Json Completion r.timeout r.providers n endpoint (format_for endpoint),
    if is_late A Json Completion r.timeout r.providers n then l else called endpoint.id l,
  )

  -- the ids of the snapshots with no excluded reason
  unfoldable pub eligible_ids : List Uuid
  eligible_ids = map (λ e. e.snapshot.endpoint_id) (filter (is_eligible A) entries)

  abbrev pub is_required_fallback : EndpointCandidate A → EndpointCandidate A → Bool
  is_required_fallback selected c =
      c.id == query.fallback_id && not (c.id == selected.id) && any (λ i. i == c.id) eligible_ids

  unfoldable pub transport_fallback : EndpointCandidate A → Option (EndpointCandidate A)
  unfolding eligible_ids
  transport_fallback selected = find? (is_required_fallback selected) candidates

  unfoldable pub quality_fallback : EndpointCandidate A → Option (EndpointCandidate A)
  unfolding eligible_ids
  quality_fallback selected =
      find? (λ c. is_required_fallback selected c && is_frontier c.quality_tier && c.enabled)
        candidates

  abbrev pub free_text_or : Option (ResponseFormat A Json) → ResponseFormat A Json
  free_text_or format = or_else format ResponseFormat.free_text

  abbrev pub allowed_tool_call : Verdict A Json
  allowed_tool_call = record {
    passed = true;
    reason = "allowed_tool_call";
    confidence = none;
    policy_ids = [];
    answer = none;
  }

  unfoldable pub verdict_of : EndpointCandidate A → Bool → Bool → A.Float → Message → Verdict A Json
  unfolding verify_output request_format
  verdict_of endpoint specialized force_failure minimum m =
      if m.tool_calls
        && body.has_tools
        && any (capability_eq Capability.tools) endpoint.capabilities
      then allowed_tool_call
      else verify_output A Json checks query.classification.task_type specialized force_failure
          (free_text_or (format_for endpoint)) 32000 minimum m.content

  abbrev pub completed_attempt :
      ℕ → EndpointCandidate A → Purpose → Completion → Verdict A Json → Attempt
  completed_attempt n endpoint purpose completion verdict = record {
    attempt_number = n;
    endpoint_id = endpoint.id;
    purpose = purpose;
    status = AttemptStatus.completed;
    error_code = none;
    input_tokens = some (completions.prompt_tokens completion query.features.input_token_estimate);
    output_tokens = some (completions.completion_tokens completion 0);
    passed = some verdict.passed;
  }
