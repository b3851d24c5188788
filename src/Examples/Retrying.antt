-- ===== src/Examples/Retrying.antt =====
-- api/gateway.py on a request that is routed to the small endpoint of `Selecting`: its provider fails, or
-- the frontier endpoint stands in.
use ecoroute_ht.Base.{
  String, ◌≡◌, ◌≢◌, refl, inl, inr, Bool, true, false, List, [], ◌∷◌, some, ok, raise, all, any,
  find?, filter, min_by,
}
use ecoroute_ht.Numbers.{millionths}
use ecoroute_ht.Schemas.{task_name}
use ecoroute_ht.Routing.Candidate.{
  estimate_cost, estimate_energy, grid_state, routing_grid_intensity, evidence_penalty,
}
use ecoroute_ht.Routing.Exclusion.{
  assess, snapshot, minimum_quality, matching_rule, exclusion_reason, outside_policy,
  outside_regions, breaks_privacy, issubset, below_minimum_quality, over_budget, cost, is_demanding,
  out_of_domain, task_not_allowed, experimental_blocked, is_experimental, required_rank, rule_get,
  status_usable,
}
use ecoroute_ht.Routing.Ranking.{
  withhold_unknown_health, available_carbon_values, carbons, maximum, merge, minimum, normalized,
  pick, reserve_specialized, scored, tied, weighted,
}
use ecoroute_ht.Routing.Selection.{
  select_candidate, choose, fallback_error, general_or, local_grid, prefer_specialized, select_from,
  specialized_or,
}
use ecoroute_ht.Gateway.Context.{
  ask, eligible_ids, transport_fallback, quality_fallback, verdict_of, error_type_of, ttl_for,
}
use ecoroute_ht.Gateway.Upstream.{request_format, invoke}
use ecoroute_ht.Gateway.Settle.{with_answer, impact_of, keep, store_passed, settle}
use ecoroute_ht.Gateway.Complete.{
  finish, finish_fallback, after_quality_fallback, try_quality_fallback, after_verdict,
  judge_message, judge, after_transport_fallback, retry, after_first, complete,
}
use ecoroute_ht.Routing.Quality.{
  promises, format_error, all_known, is_below, check_contract, check_support, after_format,
  verify_output,
}
use ecoroute_ht.Routing.Caching.{exact_cache_eligible}
use ecoroute_ht.Cache.Entries.{store_entry, store_after, invalidate, is_active_for}
use ecoroute_ht.Carbon.Impact.{calculate_impact}
use ecoroute_ht.Gateway.Upstream.{CallError, Providers, ProviderError}
use ecoroute_ht.Gateway.Live.{Round, live_events}
use ecoroute_ht.Examples.Selecting.{query, endpoints, frontier_endpoint}
use ecoroute_ht.Examples.Storing.{key}
use ecoroute_ht.Examples.Verifying.{checks}
use ecoroute_ht.Base.{map, ◌==◌, if◌then◌else◌}
use ecoroute_ht.Routing.Candidate.{EndpointCandidate, GridState}
use ecoroute_ht.Routing.Ranking.{SelectionReason}
use ecoroute_ht.Gateway.Context.{is_retryable, Routed, format_for}
use ecoroute_ht.Gateway.Live.{nothing_heard}
use ecoroute_ht.Gateway.Forwarded.{
  heard_by, keeping, received, is_finished, is_receipt, live_events-keeping,
}
use ecoroute_ht.Gateway.Liveness.{Judged, first_verdict, IsAnsweredBy, complete-answers}
use ecoroute_ht.Gateway.Streaming.{decided}
use ecoroute_ht.Gateway.Ledger.{Ledger, DecisionReason}
use ecoroute_ht.Gateway.Stale.{complete-stale}
use ecoroute_ht.Examples.Serving.{body, completions, providers, chunks, ledger}
use ecoroute_ht.Examples.Selecting.{small_endpoint}

-- the small endpoint fails for a time
abbrev unsteady : Providers millionths String String
unsteady = record providers {
  chat = λ n endpoint format.
      if n == 1
      then raise (
          CallError.provider_error
            (record { message = "Upstream failed"; code = "upstream_error"; status_code = 502 }))
      else ok "within 30 days";
}

abbrev unsteady_request : Routed millionths String String String
unsteady_request = record {
  query = query;
  body = body;
  candidates = endpoints;
  entries = assess millionths query endpoints;
  reason = SelectionReason.weighted_score;
  accounting_baseline = frontier_endpoint;
  grid_state = GridState.clean;
  force_failure = false;
  support_schema = "schema";
  timeout = 45000;
  providers = unsteady;
  completions = completions;
  checks = checks;
  encode = λ s. s;
  now = 2000;
  key = key;
  entry_id = 9;
  logical_model_id = 6;
}

abbrev transient : ProviderError
transient = record { message = "Upstream failed"; code = "upstream_error"; status_code = 502 }

code_retryable : is_retryable transient.code ≡ true
unfolding any
code_retryable = refl

first_fails :
    invoke millionths String String 45000 unsteady 1 small_endpoint
      (format_for unsteady_request small_endpoint)
    ≡ raise transient
unfolding invoke
first_fails = refl

frontier_stands_in : transport_fallback unsteady_request small_endpoint ≡ some frontier_endpoint
unfolding choose fallback_error general_or local_grid prefer_specialized select_from specialized_or
    select_candidate withhold_unknown_health available_carbon_values carbons maximum merge minimum
    normalized pick reserve_specialized scored tied weighted is_demanding cost experimental_blocked
    is_experimental out_of_domain required_rank rule_get snapshot status_usable task_not_allowed
    exclusion_reason outside_policy outside_regions breaks_privacy issubset below_minimum_quality
    minimum_quality matching_rule over_budget assess evidence_penalty grid_state
    routing_grid_intensity estimate_cost estimate_energy task_name filter any all find? min_by ask
    eligible_ids transport_fallback quality_fallback verdict_of error_type_of ttl_for request_format
    invoke with_answer impact_of keep store_passed settle finish finish_fallback
    after_quality_fallback try_quality_fallback after_verdict judge_message judge
    after_transport_fallback retry after_first complete promises format_error all_known is_below
    check_contract check_support after_format verify_output exact_cache_eligible store_entry
    store_after invalidate is_active_for calculate_impact
frontier_stands_in = refl

abbrev decided_ledger : Ledger millionths String String
decided_ledger = record ledger {
  decision = some (record {
    selected_endpoint_id = small_endpoint.id;
    selection_reason = DecisionReason.by_selection SelectionReason.weighted_score;
  });
}

complete-stale_example :
    ((complete unsteady_request small_endpoint decided_ledger).1.row.selected_endpoint_id ≡ some 1)
    × (decided (complete unsteady_request small_endpoint decided_ledger).1.decision
        ≡ some small_endpoint.id)
    × (frontier_endpoint.id ≢ small_endpoint.id)
complete-stale_example =
    complete-stale unsteady_request small_endpoint frontier_endpoint transient decided_ledger
      first_fails code_retryable frontier_stands_in refl

second_passes :
    Judged unsteady_request 2 frontier_endpoint
      (first_verdict unsteady_request frontier_endpoint)
      true
unfolding choose fallback_error general_or local_grid prefer_specialized select_from specialized_or
    select_candidate withhold_unknown_health available_carbon_values carbons maximum merge minimum
    normalized pick reserve_specialized scored tied weighted is_demanding cost experimental_blocked
    is_experimental out_of_domain required_rank rule_get snapshot status_usable task_not_allowed
    exclusion_reason outside_policy outside_regions breaks_privacy issubset below_minimum_quality
    minimum_quality matching_rule over_budget assess evidence_penalty grid_state
    routing_grid_intensity estimate_cost estimate_energy task_name filter any all find? min_by ask
    eligible_ids transport_fallback quality_fallback verdict_of error_type_of ttl_for request_format
    invoke with_answer impact_of keep store_passed settle finish finish_fallback
    after_quality_fallback try_quality_fallback after_verdict judge_message judge
    after_transport_fallback retry after_first complete promises format_error all_known is_below
    check_contract check_support after_format verify_output exact_cache_eligible store_entry
    store_after invalidate is_active_for calculate_impact
second_passes = record {
  raw = "within 30 days";
  message = record { tool_calls = false; content = "within 30 days" };
  is_answer = refl;
  has_choices = refl;
  is_message = refl;
  is_verdict = refl;
}

complete-answers_example :
    (f : EndpointCandidate millionths) × (used : Bool) × IsAnsweredBy unsteady_request f used
      (complete unsteady_request small_endpoint ledger)
complete-answers_example = complete-answers unsteady_request small_endpoint ledger (
    inr (
      inl (
        transient, frontier_endpoint, first_fails, code_retryable, frontier_stands_in,
        second_passes,
      )))

abbrev rounds : List (Round String)
rounds = Round.receives "b" ∷ Round.cancelled ∷ []

live_events-keeping_example :
    (heard_by (live_events chunks "support" false "a" rounds)
      ≡ keeping chunks "support" nothing_heard
          (map (chunks.set_model "support") ("a" ∷ received rounds)))
    × (is_finished (live_events chunks "support" false "a" rounds) ≡ all is_receipt rounds)
live_events-keeping_example = live_events-keeping chunks "support" "a" rounds
