-- ===== src/Gateway/Settle.antt =====
-- api/gateway.py, `chat_completions`: the end of a request whose output passed: the impact record, the
-- caches and the answer.
use ecoroute_ht.Base.{
  ℕ, ◌/◌, String, Bool, ◌&&◌, ◌++◌, [], ◌∷◌, Option, none, some, max, if◌then◌else◌, ok,
}
use ecoroute_ht.Numbers.{Arithmetic}
use ecoroute_ht.Schemas.{task_name, is_specialized}
use ecoroute_ht.Routing.Candidate.{EndpointCandidate}
use ecoroute_ht.Routing.Caching.{exact_cache_eligible}
use ecoroute_ht.Routing.Quality.{Verdict}
use ecoroute_ht.Carbon.Impact.{ImpactCalculation, calculate_impact}
use ecoroute_ht.Cache.Entries.{Answer, store_entry}
use ecoroute_ht.Gateway.Ledger.{RequestStatus, Published, Stored, Ledger, publish}
use ecoroute_ht.Gateway.Context.{Routed, Served, ttl_for}

module _ {A : Arithmetic} {Json Vector Completion : Type 0}
    (r : Routed A Json Vector Completion) where
  open r use {query, body, completions}

  -- the answer of a support contract takes the place of the content
  unfoldable pub with_answer : EndpointCandidate A → Option String → Completion → Completion
  with_answer endpoint none completion = completion
  with_answer endpoint (some answer) completion =
      if is_specialized endpoint.quality_tier
      then completions.set_content answer completion
      else completion

  abbrev pub input_tokens_of : Completion → ℕ
  input_tokens_of completion =
      completions.prompt_tokens completion query.features.input_token_estimate

  abbrev pub output_tokens_of : Completion → ℕ
  output_tokens_of completion =
      completions.completion_tokens completion (max 1 (completions.text_length completion / 4))

  unfoldable pub impact_of : EndpointCandidate A → ℕ → ℕ → ImpactCalculation A
  unfolding calculate_impact
  impact_of endpoint input_tokens output_tokens =
      calculate_impact A r.accounting_baseline endpoint input_tokens output_tokens (A.f_lit 2 6)
        r.accounting_baseline.carbon_available endpoint.carbon_available

  abbrev pub completion_impact : EndpointCandidate A → Completion → ImpactCalculation A
  completion_impact endpoint completion =
      impact_of endpoint (input_tokens_of completion) (output_tokens_of completion)

  -- what is stored of an output that passed
  abbrev pub answer_of :
      EndpointCandidate A → Completion → ImpactCalculation A → Answer A Vector (Stored A Completion)
  answer_of endpoint completion impact = record {
    id = r.entry_id;
    logical_model_id = r.logical_model_id;
    payload = record {
      completion = completion;
      source_endpoint_id = endpoint.id;
      baseline_energy_kwh = impact.baseline_energy_kwh;
      baseline_cost_usd = impact.baseline_cost_usd;
    };
    task_type = task_name query.classification.task_type;
    verdict_task_type = some (task_name query.classification.task_type);
    ttl_seconds = ttl_for query.policy.cache_ttl_seconds r.grid_state;
  }

  abbrev pub is_storable : Bool
  is_storable = exact_cache_eligible A query.features query.policy (some query.classification)

  -- cache.store_entry
  unfoldable pub keep :
      EndpointCandidate A
      → Completion
      → ImpactCalculation A
      → Ledger A Vector Completion
      → Ledger A Vector Completion
  unfolding store_entry
  keep endpoint completion impact l = record l {
    cache =
        (store_entry A Vector (Stored A Completion) r.encode r.now r.key query.features
          (answer_of endpoint completion impact) l.cache).1;
  }

  unfoldable pub store_passed :
      EndpointCandidate A
      → Completion
      → Verdict A Json
      → Ledger A Vector Completion
      → Ledger A Vector Completion
  unfolding keep exact_cache_eligible impact_of
  store_passed endpoint completion verdict l =
      if is_storable && verdict.passed
      then publish Published.cache_stored
          (keep endpoint completion (completion_impact endpoint completion) l)
      else l

  -- the row is completed and the impact is recorded
  abbrev pub complete_row :
      EndpointCandidate A → Completion → Ledger A Vector Completion → Ledger A Vector Completion
  complete_row endpoint completion l = record l {
    row = record l.row {
      status = RequestStatus.completed;
      output_tokens = some (output_tokens_of completion);
    };
    impacts = l.impacts ++ completion_impact endpoint completion ∷ [];
  }

  abbrev pub debugged : Bool → Completion → Completion
  debugged fallback_used completion =
      if body.debug then completions.set_debug r.reason fallback_used completion else completion

  unfoldable pub settle :
      EndpointCandidate A
      → Completion
      → Verdict A Json
      → Bool
      → Ledger A Vector Completion
      → Served A Vector Completion
  unfolding with_answer store_passed
  settle endpoint completion verdict fallback_used l =
      let answered = with_answer endpoint verdict.answer completion in
      (
        ok (record {
          completion = debugged fallback_used answered;
          endpoint_id = endpoint.id;
          fallback_used = fallback_used;
        }),
        publish (Published.route_completed endpoint.id fallback_used)
            (store_passed endpoint answered verdict (complete_row endpoint answered l)),
      )
