-- ===== src/Gateway/Route.antt =====
-- api/gateway.py, `chat_completions` from the selection on: the row and the decision, and whether the
-- answer is streamed as it arrives.
use ecoroute_ht.Base.{
  ℕ, String, Bool, true, false, not, ◌&&◌, ◌||◌, List, none, some, if◌then◌else◌, Outcome, ok,
  raise,
}
use ecoroute_ht.Numbers.{Arithmetic}
use ecoroute_ht.Schemas.{Uuid, TaskType, is_specialized}
use ecoroute_ht.Routing.Candidate.{EndpointCandidate, GridState, grid_state}
use ecoroute_ht.Routing.Exclusion.{Query}
use ecoroute_ht.Routing.Ranking.{Selection, SelectionError}
use ecoroute_ht.Routing.Selection.{select_candidate}
use ecoroute_ht.Routing.Quality.{Checks}
use ecoroute_ht.Cache.Entries.{EntryKey}
use ecoroute_ht.Gateway.Ledger.{DecisionReason, Published, Ledger, Raised, fail_row, publish}
use ecoroute_ht.Gateway.Upstream.{Body, Completions, Providers}
use ecoroute_ht.Gateway.Context.{Response, Routed}
use ecoroute_ht.Gateway.Relay.{Streaming, Streamed}
use ecoroute_ht.Gateway.Complete.{complete}
use ecoroute_ht.Gateway.Stream.{stream_response}

-- the task types whose outputs the quality fallback checks
abbrev pub is_checked_task : TaskType → Bool
is_checked_task TaskType.policy_qa = true
is_checked_task TaskType.order_support = true
is_checked_task _ = false

-- the exceptions of a selection that are a ValueError
abbrev pub is_value_error : SelectionError → Bool
is_value_error SelectionError.fallback_unavailable = true
is_value_error (SelectionError.fallback_excluded reason) = true
is_value_error _ = false

abbrev pub no_eligible_endpoint : String → Raised
no_eligible_endpoint message = Raised.error (record {
  message = message;
  status_code = 422;
  code = "no_eligible_endpoint";
  error_type = "routing_error";
})

-- An answer in one piece, or the chunks of a stream.
pub data Reply (Completion Chunk : Type 0) : Type 0 where
  whole : Response Completion → Reply Completion Chunk
  live : Streamed Chunk → Reply Completion Chunk

module _ {Completion Chunk : Type 0} where
  abbrev pub as_whole :
      Outcome Raised (Response Completion) → Outcome Raised (Reply Completion Chunk)
  as_whole (ok x) = ok (Reply.whole x)
  as_whole (raise e) = raise e

  abbrev pub as_live : Outcome Raised (Streamed Chunk) → Outcome Raised (Reply Completion Chunk)
  as_live (ok x) = ok (Reply.live x)
  as_live (raise e) = raise e

module _ (A : Arithmetic) (Json Vector Completion Chunk : Type 0) where
  -- What stands before the selection.
  pub record Handling : Type 0 where
    pub query : Query A
    pub body : Body A Json Completion
    pub candidates : List (EndpointCandidate A)
    pub accounting_baseline : EndpointCandidate A
    pub force_failure : Bool
    pub support_schema : Json
    pub timeout : ℕ
    pub providers : Providers A Json Completion
    pub completions : Completions Completion
    pub checks : Checks A Json
    pub encode : String → Vector
    pub now : ℕ
    pub key : EntryKey
    pub entry_id : Uuid
    pub logical_model_id : Uuid
    pub streaming : Streaming Chunk Completion
    pub describe : SelectionError → String  -- str(exc)

module _ {A : Arithmetic} {Json Vector Completion Chunk : Type 0}
    (h : Handling A Json Vector Completion Chunk) where
  open h use {query}

  -- the state of the selected endpoint's grid
  unfoldable pub selected_grid_state : EndpointCandidate A → GridState
  unfolding grid_state
  selected_grid_state c =
      grid_state A (if c.carbon_available then some c.grid_intensity else none)
        query.policy.clean_threshold_gco2_kwh query.policy.dirty_threshold_gco2_kwh

  unfoldable pub routed : Selection A → Routed A Json Vector Completion
  unfolding selected_grid_state
  routed selection = record {
    query = query;
    body = h.body;
    candidates = h.candidates;
    entries = selection.entries;
    reason = selection.reason;
    accounting_baseline = h.accounting_baseline;
    grid_state = selected_grid_state selection.selected;
    force_failure = h.force_failure;
    support_schema = h.support_schema;
    timeout = h.timeout;
    providers = h.providers;
    completions = h.completions;
    checks = h.checks;
    encode = h.encode;
    now = h.now;
    key = h.key;
    entry_id = h.entry_id;
    logical_model_id = h.logical_model_id;
  }

  unfoldable pub requires_post_validator : EndpointCandidate A → Bool
  requires_post_validator selected =
      is_specialized selected.quality_tier
      || query.policy.quality_fallback_enabled && is_checked_task query.classification.task_type

  unfoldable pub live_stream : EndpointCandidate A → Bool
  unfolding requires_post_validator
  live_stream selected =
      h.body.stream
      && A.f_le (A.f_lit 90 2) query.classification.confidence
      && not (requires_post_validator selected)

  -- the row and the decision of a selection
  abbrev pub decide : Selection A → Ledger A Vector Completion → Ledger A Vector Completion
  decide selection l = publish (Published.route_selected selection.selected.id) (record l {
    row = record l.row { selected_endpoint_id = some selection.selected.id };
    decision = some (record {
      selected_endpoint_id = selection.selected.id;
      selection_reason = DecisionReason.by_selection selection.reason;
    });
  })

  unfoldable pub serve :
      Selection A
      → Ledger A Vector Completion
      → Outcome Raised (Reply Completion Chunk) × Ledger A Vector Completion
  unfolding live_stream routed stream_response complete
  serve selection l =
      let r = routed selection in
      let selected = selection.selected in
      if live_stream selected
      then (let v = stream_response r h.streaming selected l in (as_live v.0, v.1))
      else (let v = complete r selected l in (as_whole v.0, v.1))

  unfoldable pub after_selection :
      Outcome SelectionError (Selection A)
      → Ledger A Vector Completion
      → Outcome Raised (Reply Completion Chunk) × Ledger A Vector Completion
  unfolding serve
  after_selection (ok selection) l = serve selection (decide selection l)
  after_selection (raise e) l =
      if is_value_error e
      then (raise (no_eligible_endpoint (h.describe e)), fail_row "no_eligible_endpoint" l)
      else (raise Raised.unhandled, l)

  unfoldable pub route :
      Ledger A Vector Completion
      → Outcome Raised (Reply Completion Chunk) × Ledger A Vector Completion
  unfolding select_candidate after_selection
  route l = after_selection (select_candidate A query h.candidates) l
