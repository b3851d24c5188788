-- ===== src/Gateway/Complete.antt =====
-- api/gateway.py, `chat_completions` from the first call of a provider on, where the answer is not
-- streamed as it arrives: the transport fallback, the checks of the output, and the quality fallback.
-- One function for each stretch between two calls.
use ecoroute_ht.Base.{
  ℕ, ◌==◌, String, Bool, true, false, not, ◌&&◌, Option, none, some, or_else, ltb, if◌then◌else◌,
  Outcome, ok, raise,
}
use ecoroute_ht.Numbers.{Arithmetic}
use ecoroute_ht.Schemas.{Uuid, is_specialized}
use ecoroute_ht.Routing.Candidate.{EndpointCandidate}
use ecoroute_ht.Routing.Quality.{Verdict}
use ecoroute_ht.Gateway.Ledger.{
  Purpose, Decision, DecisionReason, Published, Ledger, Raised, add_attempt, publish, fall_back,
  fail_row, failed_attempt,
}
use ecoroute_ht.Gateway.Upstream.{ProviderError, Message}
use ecoroute_ht.Gateway.Context.{
  Routed, Served, ask, bad_gateway, completed_attempt, error_of, error_type_of, is_retryable,
  purpose_of, quality_fallback, transport_fallback, verdict_of,
}
use ecoroute_ht.Gateway.Settle.{settle}

-- fallback_choices[0].get("message", {})
abbrev pub empty_message : Message
empty_message = record { tool_calls = false; content = "" }

-- the decision follows the quality fallback
abbrev pub decide_fallback : Uuid → Option Decision → Option Decision
decide_fallback id none = none
decide_fallback id (some d) =
    some (record { selected_endpoint_id = id; selection_reason = DecisionReason.quality_fallback })

module _ {A : Arithmetic} {Vector Completion : Type 0} where
  -- the row fails, the event is published, and the exception is raised
  abbrev pub give_up : Raised → String → Ledger A Vector Completion → Served A Vector Completion
  give_up exc code l = (raise exc, publish (Published.route_failed code) (fail_row code l))

module _ {A : Arithmetic} {Json Vector Completion : Type 0}
    (r : Routed A Json Vector Completion) where
  open r use {query, body, completions}

  unfoldable pub finish :
      EndpointCandidate A
      → Completion
      → Verdict A Json
      → Bool
      → Ledger A Vector Completion
      → Served A Vector Completion
  unfolding settle
  finish endpoint completion verdict fallback_used l =
      if not verdict.passed
      then give_up
          (bad_gateway "The selected response failed required quality validation"
            "quality_validation_failed")
          "quality_validation_failed" l
      else settle r endpoint completion verdict fallback_used l

  abbrev pub fallback_verdict : EndpointCandidate A → Completion → Verdict A Json
  fallback_verdict endpoint completion =
      verdict_of r endpoint false false (A.f_lit 80 2)
        (or_else (completions.message completion) empty_message)

  -- the attempt of the quality fallback, and the row and the decision, which follow it
  abbrev pub fallen_back :
      EndpointCandidate A → Completion → Ledger A Vector Completion → Ledger A Vector Completion
  fallen_back endpoint completion l =
      let attempt =
        completed_attempt r 2 endpoint Purpose.quality_fallback completion
          (fallback_verdict endpoint completion) in
      let l = add_attempt attempt l in
      fall_back endpoint.id (record l { decision = decide_fallback endpoint.id l.decision })

  -- the completion of the quality fallback, which has choices
  unfoldable pub finish_fallback :
      EndpointCandidate A → Completion → Ledger A Vector Completion → Served A Vector Completion
  unfolding finish verdict_of
  finish_fallback endpoint completion l =
      finish endpoint completion (fallback_verdict endpoint completion) true
        (fallen_back endpoint completion l)

  unfoldable pub after_quality_fallback :
      EndpointCandidate A
      → Outcome ProviderError Completion × Ledger A Vector Completion
      → Served A Vector Completion
  unfolding finish_fallback
  after_quality_fallback endpoint (raise e, l) =
      give_up
        (Raised.error (record {
          message = "Frontier quality fallback failed";
          status_code = e.status_code;
          code = e.code;
          error_type = "upstream_error";
        }))
        e.code (add_attempt (failed_attempt 2 endpoint.id Purpose.quality_fallback e.code) l)
  after_quality_fallback endpoint (ok completion, l) =
      if not (completions.has_choices completion)
      then (
        raise (
            bad_gateway "Frontier fallback returned an invalid Chat Completion"
              "upstream_invalid_response"),
        fail_row "upstream_invalid_response" l,
      )
      else finish_fallback endpoint (completions.set_model body.model completion) l

  -- the output did not pass; the fallback is asked where there is one
  unfoldable pub try_quality_fallback :
      EndpointCandidate A
      → Completion
      → Verdict A Json
      → Option (EndpointCandidate A)
      → Ledger A Vector Completion
      → Served A Vector Completion
  unfolding ask finish after_quality_fallback
  try_quality_fallback endpoint completion verdict none l =
      finish endpoint completion verdict false l
  try_quality_fallback endpoint completion verdict (some fallback) l =
      after_quality_fallback fallback (ask r 2 fallback l)

  -- attempt_number < 2; `fallback_used` is that it is not
  unfoldable pub after_verdict :
      ℕ
      → EndpointCandidate A
      → Completion
      → Verdict A Json
      → Ledger A Vector Completion
      → Served A Vector Completion
  unfolding finish try_quality_fallback quality_fallback
  after_verdict n endpoint completion verdict l =
      if not verdict.passed && query.policy.quality_fallback_enabled && ltb n 2
      then try_quality_fallback endpoint completion verdict (quality_fallback r endpoint) l
      else finish endpoint completion verdict (n == 2) l

  unfoldable pub judge_message :
      ℕ
      → EndpointCandidate A
      → Completion
      → Option Message
      → Ledger A Vector Completion
      → Served A Vector Completion
  unfolding after_verdict verdict_of
  judge_message n endpoint completion none l = (raise Raised.unhandled, l)
  judge_message n endpoint completion (some m) l =
      let verdict =
        verdict_of r endpoint (is_specialized endpoint.quality_tier) r.force_failure
          query.policy.min_slm_confidence m in
      after_verdict n endpoint completion verdict
        (add_attempt (completed_attempt r n endpoint (purpose_of n) completion verdict) l)

  -- the completion of attempt `n`
  unfoldable pub judge :
      ℕ → EndpointCandidate A → Completion → Ledger A Vector Completion → Served A Vector Completion
  unfolding judge_message
  judge n endpoint completion l =
      if not (completions.has_choices completion)
      then (
        raise (
            bad_gateway "Upstream returned an invalid Chat Completion" "upstream_invalid_response"),
        fail_row "upstream_invalid_response" (
            add_attempt (failed_attempt n endpoint.id (purpose_of n) "upstream_invalid_response")
              l),
      )
      else let completion = completions.set_model body.model completion in
        judge_message n endpoint completion (completions.message completion) l

  unfoldable pub after_transport_fallback :
      EndpointCandidate A
      → Outcome ProviderError Completion × Ledger A Vector Completion
      → Served A Vector Completion
  unfolding judge
  after_transport_fallback endpoint (ok completion, l) = judge 2 endpoint completion l
  after_transport_fallback endpoint (raise e, l) =
      give_up (error_of e "upstream_error") e.code
        (add_attempt (failed_attempt 2 endpoint.id Purpose.transport_fallback e.code) l)

  unfoldable pub retry :
      ProviderError
      → Bool
      → Option (EndpointCandidate A)
      → Ledger A Vector Completion
      → Served A Vector Completion
  unfolding ask after_transport_fallback error_type_of
  retry e true (some fallback) l =
      after_transport_fallback fallback (ask r 2 fallback (fall_back fallback.id l))
  retry e true none l = give_up (error_of e (error_type_of e)) e.code l
  retry e false fallback l = give_up (error_of e (error_type_of e)) e.code l

  unfoldable pub after_first :
      EndpointCandidate A
      → Outcome ProviderError Completion × Ledger A Vector Completion
      → Served A Vector Completion
  unfolding judge retry transport_fallback
  after_first selected (ok completion, l) = judge 1 selected completion l
  after_first selected (raise e, l) =
      retry e (is_retryable e.code) (transport_fallback r selected)
        (add_attempt (failed_attempt 1 selected.id Purpose.selected e.code) l)

  unfoldable pub complete :
      EndpointCandidate A → Ledger A Vector Completion → Served A Vector Completion
  unfolding ask after_first
  complete selected l = after_first selected (ask r 1 selected l)
