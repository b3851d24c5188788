-- ===== src/Examples/Serving.antt =====
-- api/gateway.py on the two endpoints of `Selecting`: a completion is its text, and so is a chunk.
use ecoroute_ht.Base.{
  String, ◌≡◌, refl, true, false, [], ◌∷◌, none, some, ok, raise, all, any, find?, filter, min_by,
}
use ecoroute_ht.Numbers.{millionths}
use ecoroute_ht.Schemas.{task_name}
use ecoroute_ht.Routing.Candidate.{
  estimate_cost, estimate_energy, grid_state, routing_grid_intensity, evidence_penalty,
}
use ecoroute_ht.Routing.Exclusion.{
  assess, snapshot, minimum_quality, matching_rule, exclusion_reason, outside_policy,
  outside_regions, breaks_privacy, issubset, below_minimum_quality, over_budget, cost, is_demanding,
  out_of_domain, task_not_allowed, experimental_blocked, is_experimental, required_rank, rule_get,
  status_usable,
}
use ecoroute_ht.Routing.Ranking.{
  Selection, withhold_unknown_health, available_carbon_values, carbons, maximum, merge, minimum,
  normalized, pick, reserve_specialized, scored, tied, weighted,
}
use ecoroute_ht.Routing.Selection.{
  select_candidate, choose, fallback_error, general_or, local_grid, prefer_specialized, select_from,
  specialized_or,
}
use ecoroute_ht.Gateway.Route.{
  route, after_selection, serve, routed, selected_grid_state, live_stream, requires_post_validator,
}
use ecoroute_ht.Gateway.Context.{
  ask, eligible_ids, transport_fallback, quality_fallback, verdict_of, error_type_of, ttl_for,
}
use ecoroute_ht.Gateway.Upstream.{request_format, invoke}
use ecoroute_ht.Gateway.Settle.{with_answer, impact_of, keep, store_passed, settle}
use ecoroute_ht.Gateway.Complete.{
  finish, finish_fallback, after_quality_fallback, try_quality_fallback, after_verdict,
  judge_message, judge, after_transport_fallback, retry, after_first, complete,
}
use ecoroute_ht.Routing.Quality.{
  promises, format_error, all_known, is_below, check_contract, check_support, after_format,
  verify_output,
}
use ecoroute_ht.Routing.Caching.{exact_cache_eligible}
use ecoroute_ht.Cache.Entries.{store_entry, store_after, invalidate, is_active_for}
use ecoroute_ht.Carbon.Impact.{calculate_impact}
use ecoroute_ht.Gateway.Ledger.{GatewayError, Raised, RequestStatus, Ledger}
use ecoroute_ht.Gateway.Upstream.{Body, CallError, Completions, Providers, ProviderError}
use ecoroute_ht.Gateway.Context.{Response}
use ecoroute_ht.Gateway.Live.{Chunks, Round}
use ecoroute_ht.Gateway.Relay.{Opening, Streaming, Streamed}
use ecoroute_ht.Gateway.Route.{Handling}
use ecoroute_ht.Gateway.Served.{
  IsFailed, IsFresh, IsWithin, route-IsWithin, route-IsFailed, route-private,
}
use ecoroute_ht.Examples.Selecting.{features, query, endpoints, frontier_endpoint}
use ecoroute_ht.Examples.Storing.{key}
use ecoroute_ht.Examples.Verifying.{checks}

abbrev pub body : Body millionths String String
body = record {
  model = "support";
  has_tools = false;
  response_format = none;
  stream = false;
  include_usage = true;
  debug = false;
}

abbrev pub completions : Completions String
completions = record {
  has_choices = λ s. true;
  message = λ s. some (record { tool_calls = false; content = s });
  prompt_tokens = λ s d. d;
  completion_tokens = λ s d. d;
  text_length = λ s. 40;
  set_model = λ model s. s;
  set_content = λ answer s. answer;
  set_debug = λ reason used s. s;
}

-- every call is answered after 100 milliseconds
abbrev pub providers : Providers millionths String String
providers = record {
  elapsed = λ n. 50;
  takes = λ n. 100;
  chat = λ n endpoint format. ok "within 30 days";
}

abbrev pub chunks : Chunks String String
chunks = record {
  contents = λ s. s ∷ [];
  finish_reasons = λ s. [];
  usage = λ s. none;
  set_model = λ model s. s;
  join = λ parts. "text";
  len = λ s. 4;
  compose = λ first model content reason usage. content;
  usage_chunk = λ first model usage. "usage";
}

abbrev streaming : Streaming String String
streaming = record {
  chunks = chunks;
  opening = λ n id. Opening.opens "within" (Round.receives " 30 days" ∷ []);
  has_gone = false;
  connections = 0;
  max_connections = 100;
}

abbrev pub handling : Handling millionths String String String String
handling = record {
  query = query;
  body = body;
  candidates = endpoints;
  accounting_baseline = frontier_endpoint;
  force_failure = false;
  support_schema = "schema";
  timeout = 45000;
  providers = providers;
  completions = completions;
  checks = checks;
  encode = λ s. s;
  now = 2000;
  key = key;
  entry_id = 9;
  logical_model_id = 6;
  streaming = streaming;
  describe = λ e. "no eligible endpoint";
}

abbrev pub ledger : Ledger millionths String String
ledger = record {
  row = record {
    status = RequestStatus.routing;
    error_code = none;
    selected_endpoint_id = none;
    fallback_used = false;
    output_tokens = none;
  };
  attempts = [];
  decision = none;
  published = [];
  impacts = [];
  cache = record { entries = []; exact = [] };
  calls = [];
}

fresh : (h : Handling millionths String String String String) → IsFresh h ledger
fresh h = record { routing = refl; fallback_used = refl; no_calls = refl; no_impacts = refl }

route-IsWithin_example : IsWithin handling ledger (route handling ledger).1.calls
route-IsWithin_example = route-IsWithin handling ledger (fresh handling)

abbrev response : Response String
response = record { completion = "within 30 days"; endpoint_id = 2; fallback_used = false }

abbrev live_handling : Handling millionths String String String String
live_handling = record handling {
  query = record query { policy = record query.policy { quality_fallback_enabled = false } };
  body = record body { stream = true };
}

abbrev streamed : Streamed String
streamed = record {
  sent = "within" ∷ " 30 days" ∷ "usage" ∷ [];
  endpoint_id = 2;
  fallback_used = false;
}

abbrev unauthorized : ProviderError
unauthorized = record {
  message = "Upstream authentication failed";
  code = "upstream_auth_error";
  status_code = 502;
}

abbrev failing_handling : Handling millionths String String String String
failing_handling = record handling {
  providers = record providers {
    chat = λ n endpoint format. raise (CallError.provider_error unauthorized);
  };
}

abbrev configuration_error : GatewayError
configuration_error = record {
  message = "Upstream authentication failed";
  status_code = 502;
  code = "upstream_auth_error";
  error_type = "upstream_configuration_error";
}

refused : (route failing_handling ledger).0 ≡ raise (Raised.error configuration_error)
unfolding choose fallback_error general_or local_grid prefer_specialized select_from specialized_or
    select_candidate withhold_unknown_health available_carbon_values carbons maximum merge minimum
    normalized pick reserve_specialized scored tied weighted is_demanding cost experimental_blocked
    is_experimental out_of_domain required_rank rule_get snapshot status_usable task_not_allowed
    exclusion_reason outside_policy outside_regions breaks_privacy issubset below_minimum_quality
    minimum_quality matching_rule over_budget assess evidence_penalty grid_state
    routing_grid_intensity estimate_cost estimate_energy task_name filter any all find? min_by route
    after_selection serve routed selected_grid_state live_stream requires_post_validator ask
    eligible_ids transport_fallback quality_fallback verdict_of error_type_of ttl_for request_format
    invoke with_answer impact_of keep store_passed settle finish finish_fallback
    after_quality_fallback try_quality_fallback after_verdict judge_message judge
    after_transport_fallback retry after_first complete promises format_error all_known is_below
    check_contract check_support after_format verify_output exact_cache_eligible store_entry
    store_after invalidate is_active_for calculate_impact
refused = refl

route-IsFailed_example :
    IsFailed failing_handling ledger configuration_error (route failing_handling ledger).1
route-IsFailed_example =
    route-IsFailed failing_handling ledger configuration_error (fresh failing_handling) refused

abbrev tool_handling : Handling millionths String String String String
tool_handling = record handling {
  query = record query { features = record features { has_tools = true } };
}

route-private_example : (route tool_handling ledger).1.cache ≡ ledger.cache
route-private_example =
    route-private tool_handling ledger (fresh tool_handling) (λ reusable. cc (reusable.no_tools))
