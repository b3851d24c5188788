-- ===== src/Gateway/Relay.antt =====
-- api/gateway.py, `chat_completions` where the answer is streamed as it arrives, once the first chunk is
-- there: the limit of `_stream_response`, and the settlement of `live_events`. The ledger is the one
-- after the client has read the response to its end, or the generator was closed.
use ecoroute_ht.Base.{
  ℕ, ◌==◌, String, Bool, true, ◌&&◌, List, ◌++◌, [], ◌∷◌, none, some, is_none, or_else, leb,
  if◌then◌else◌, Outcome, ok, raise,
}
use ecoroute_ht.Numbers.{Arithmetic}
use ecoroute_ht.Schemas.{Uuid}
use ecoroute_ht.Routing.Candidate.{EndpointCandidate}
use ecoroute_ht.Gateway.Ledger.{
  RequestStatus, AttemptStatus, Attempt, Published, Ledger, Raised, add_attempt, publish,
}
use ecoroute_ht.Gateway.Upstream.{ProviderError}
use ecoroute_ht.Gateway.Context.{Routed, purpose_of}
use ecoroute_ht.Gateway.Settle.{impact_of, is_storable, keep}
use ecoroute_ht.Gateway.Live.{
  Usage, Chunks, Round, Heard, StreamFailure, Ended, estimated_output, live_events,
}

-- How a stream opens.
pub data Opening (Chunk : Type 0) : Type 0 where
  opens : Chunk → List (Round Chunk) → Opening Chunk
  no_chunk timed_out : Opening Chunk
  fails : ProviderError → Opening Chunk

pub record Streaming (Chunk Completion : Type 0) : Type 0 where
  pub chunks : Chunks Chunk Completion
  pub opening : ℕ → Uuid → Opening Chunk  -- of attempt `n` at an endpoint
  pub has_gone : Bool  -- the client has gone before the first chunk is passed on
  pub connections : ℕ  -- those of stream_connections that are taken
  pub max_connections : ℕ

-- The chunks that the client was sent, and the endpoint that the headers name.
pub record Streamed (Chunk : Type 0) : Type 0 where
  pub sent : List Chunk
  pub endpoint_id : Uuid
  pub fallback_used : Bool

abbrev pub too_many_connections : Raised
too_many_connections = Raised.error (record {
  message = "Too many streaming connections";
  status_code = 429;
  code = "sse_connection_limit";
  error_type = "rate_limit_error";
})

abbrev pub failure_code : StreamFailure → String
failure_code StreamFailure.client_cancelled = "client_cancelled"
failure_code StreamFailure.partial_stream_error = "partial_stream_error"

abbrev pub row_status : StreamFailure → RequestStatus
row_status StreamFailure.client_cancelled = RequestStatus.client_cancelled
row_status StreamFailure.partial_stream_error = RequestStatus.partial_stream_error

abbrev pub attempt_status : StreamFailure → AttemptStatus
attempt_status StreamFailure.client_cancelled = AttemptStatus.client_cancelled
attempt_status StreamFailure.partial_stream_error = AttemptStatus.partial_stream_error

-- the attempt of that number is changed
unfoldable pub update_attempt : ℕ → (Attempt → Attempt) → List Attempt → List Attempt
update_attempt n f [] = []
update_attempt n f (a ∷ others) =
    let rest = update_attempt n f others in if a.attempt_number == n then f a ∷ others else a ∷ rest

module _ {A : Arithmetic} {Json Vector Completion Chunk : Type 0}
    (r : Routed A Json Vector Completion) (s : Streaming Chunk Completion) where
  open r use {query, body}
  open s use {chunks}

  unfoldable pub update_stream_failure :
      ℕ → StreamFailure → Ledger A Vector Completion → Ledger A Vector Completion
  unfolding update_attempt
  update_stream_failure n failure l =
      publish (Published.route_failed (failure_code failure)) (record l {
        row = record l.row {
          status = row_status failure;
          error_code = some (failure_code failure);
        };
        attempts =
            update_attempt n
              (λ a. record a {
                status = attempt_status failure;
                error_code = some (failure_code failure);
              })
              l.attempts;
      })

  -- upstream_usage or the estimates
  abbrev pub usage_of : Heard Chunk → Usage
  usage_of h = or_else h.upstream_usage (record {
    prompt_tokens = some query.features.input_token_estimate;
    completion_tokens = some (estimated_output chunks body.model h);
  })

  abbrev pub prompt_tokens_of : Heard Chunk → ℕ
  prompt_tokens_of h = or_else (usage_of h).prompt_tokens query.features.input_token_estimate

  abbrev pub completion_tokens_of : Heard Chunk → ℕ
  completion_tokens_of h =
      or_else (usage_of h).completion_tokens (estimated_output chunks body.model h)

  abbrev pub completion_of : Chunk → Heard Chunk → Completion
  completion_of first h =
      chunks.compose first body.model (chunks.join h.content_parts) h.finish_reason (usage_of h)

  -- the row and the attempt are completed, the impact is recorded, and the answer is stored
  unfoldable pub settle_stream :
      ℕ
      → EndpointCandidate A
      → Chunk
      → Heard Chunk
      → Ledger A Vector Completion
      → Ledger A Vector Completion
  unfolding update_attempt impact_of keep
  settle_stream n endpoint first h l =
      let impact = impact_of r endpoint (prompt_tokens_of h) (completion_tokens_of h) in
      let settled : Ledger A Vector Completion = record l {
        row = record l.row {
          status = RequestStatus.completed;
          output_tokens = some (completion_tokens_of h);
        };
        attempts =
            update_attempt n
              (λ a. record a {
                status = AttemptStatus.completed;
                output_tokens = some (completion_tokens_of h);
                passed = some true;
              })
              l.attempts;
        impacts = l.impacts ++ impact ∷ [];
      } in
      publish (Published.route_completed endpoint.id (n == 2))
        (if is_storable r then keep r endpoint (completion_of first h) impact settled else settled)

  abbrev pub last_chunks : Chunk → Heard Chunk → List Chunk
  last_chunks first h =
      if body.include_usage && is_none h.upstream_usage
      then chunks.usage_chunk first body.model (usage_of h) ∷ []
      else []

  unfoldable pub after_events :
      ℕ
      → EndpointCandidate A
      → Chunk
      → Ended Chunk
      → Ledger A Vector Completion
      → Outcome Raised (Streamed Chunk) × Ledger A Vector Completion
  unfolding settle_stream update_stream_failure
  after_events n endpoint first (Ended.finished h) l = (
    ok (record {
      sent = h.sent ++ last_chunks first h;
      endpoint_id = endpoint.id;
      fallback_used = n == 2;
    }),
    settle_stream n endpoint first h l,
  )
  after_events n endpoint first (Ended.stopped failure h) l = (
    ok (record { sent = h.sent; endpoint_id = endpoint.id; fallback_used = n == 2 }),
    update_stream_failure n failure l,
  )
  after_events n endpoint first (Ended.abandoned h) l =
      (ok (record { sent = h.sent; endpoint_id = endpoint.id; fallback_used = n == 2 }), l)

  abbrev pub streaming_attempt : ℕ → EndpointCandidate A → Attempt
  streaming_attempt n endpoint = record {
    attempt_number = n;
    endpoint_id = endpoint.id;
    purpose = purpose_of n;
    status = AttemptStatus.streaming;
    error_code = none;
    input_tokens = some query.features.input_token_estimate;
    output_tokens = none;
    passed = none;
  }

  -- attempt `n` has its first chunk
  unfoldable pub start_stream :
      ℕ
      → EndpointCandidate A
      → Chunk
      → List (Round Chunk)
      → Ledger A Vector Completion
      → Outcome Raised (Streamed Chunk) × Ledger A Vector Completion
  unfolding live_events after_events
  start_stream n endpoint first rounds l =
      let streaming = add_attempt (streaming_attempt n endpoint) l in
      if leb s.max_connections s.connections
      then (raise too_many_connections, streaming)
      else after_events n endpoint first (live_events chunks body.model s.has_gone first rounds)
          streaming
