-- ===== src/Gateway/Stream.antt =====
-- api/gateway.py, `chat_completions` where the answer is streamed as it arrives: the wait for the first
-- chunk, and the fallback before it.
use ecoroute_ht.Base.{ℕ, Bool, true, false, List, Option, none, some, Outcome, ok, raise}
use ecoroute_ht.Numbers.{Arithmetic}
use ecoroute_ht.Schemas.{Uuid}
use ecoroute_ht.Routing.Candidate.{EndpointCandidate}
use ecoroute_ht.Gateway.Ledger.{
  Purpose, Decision, DecisionReason, Ledger, Raised, called, add_attempt, fall_back, fail_row,
  failed_attempt,
}
use ecoroute_ht.Gateway.Upstream.{ProviderError, upstream_timeout}
use ecoroute_ht.Gateway.Context.{Routed, error_of, is_retryable, transport_fallback}
use ecoroute_ht.Gateway.Live.{Round}
use ecoroute_ht.Gateway.Relay.{Opening, Streaming, Streamed, start_stream}

abbrev pub no_first_chunk : ProviderError
no_first_chunk = record {
  message = "Upstream stream ended without a chunk";
  code = "upstream_invalid_response";
  status_code = 502;
}

-- the decision follows the transport fallback
abbrev pub decide_before_stream : Uuid → Option Decision → Option Decision
decide_before_stream id none = none
decide_before_stream id (some d) = some (record {
  selected_endpoint_id = id;
  selection_reason = DecisionReason.transport_fallback_before_stream;
})

module _ {A : Arithmetic} {Json Vector Completion Chunk : Type 0}
    (r : Routed A Json Vector Completion) (s : Streaming Chunk Completion) where
  unfoldable pub preflight_stream : ℕ → Uuid → Outcome ProviderError (Chunk × List (Round Chunk))
  preflight_stream n id = elim (s.opening n id) [
    | Opening.opens first rounds ↦ ok (first, rounds)
    | Opening.no_chunk ↦ raise no_first_chunk
    | Opening.timed_out ↦ raise upstream_timeout
    | Opening.fails e ↦ raise e
  ]

  unfoldable pub after_second_preflight :
      EndpointCandidate A
      → Outcome ProviderError (Chunk × List (Round Chunk))
      → Ledger A Vector Completion
      → Outcome Raised (Streamed Chunk) × Ledger A Vector Completion
  unfolding start_stream
  after_second_preflight endpoint (ok (first, rounds)) l =
      start_stream r s 2 endpoint first rounds l
  after_second_preflight endpoint (raise e) l = (
    raise (error_of e "upstream_error"),
    fail_row e.code
        (add_attempt (failed_attempt 2 endpoint.id Purpose.transport_fallback e.code) l),
  )

  unfoldable pub switch_stream :
      ProviderError
      → Bool
      → Option (EndpointCandidate A)
      → Ledger A Vector Completion
      → Outcome Raised (Streamed Chunk) × Ledger A Vector Completion
  unfolding preflight_stream after_second_preflight
  switch_stream e true (some fallback) l =
      after_second_preflight fallback (preflight_stream 2 fallback.id) (
        called fallback.id (
          fall_back fallback.id
            (record l { decision = decide_before_stream fallback.id l.decision })))
  switch_stream e true none l = (raise (error_of e "upstream_error"), fail_row e.code l)
  switch_stream e false fallback l = (raise (error_of e "upstream_error"), fail_row e.code l)

  unfoldable pub after_first_preflight :
      EndpointCandidate A
      → Outcome ProviderError (Chunk × List (Round Chunk))
      → Ledger A Vector Completion
      → Outcome Raised (Streamed Chunk) × Ledger A Vector Completion
  unfolding start_stream switch_stream transport_fallback
  after_first_preflight selected (ok (first, rounds)) l = start_stream r s 1 selected first rounds l
  after_first_preflight selected (raise e) l =
      switch_stream e (is_retryable e.code) (transport_fallback r selected)
        (add_attempt (failed_attempt 1 selected.id Purpose.selected e.code) l)

  unfoldable pub stream_response :
      EndpointCandidate A
      → Ledger A Vector Completion
      → Outcome Raised (Streamed Chunk) × Ledger A Vector Completion
  unfolding preflight_stream after_first_preflight
  stream_response selected l =
      after_first_preflight selected (preflight_stream 1 selected.id) (called selected.id l)
