-- ===== src/Gateway/Streaming.antt =====
-- api/gateway.py: how a request ends whose answer is streamed as it arrives.
use ecoroute_ht.Base.{
  ℕ, ◌≡◌, refl, ◌⊎◌, inl, inr, ◌==◌, Bool, true, List, ◌++◌, [], ◌∷◌, Option, none, some, length,
  leb, if-holds, Outcome, ok, raise,
}
use ecoroute_ht.Numbers.{Arithmetic}
use ecoroute_ht.Schemas.{Uuid}
use ecoroute_ht.Routing.Candidate.{EndpointCandidate}
use ecoroute_ht.Cache.Entries.{CacheStore}
use ecoroute_ht.Gateway.Ledger.{
  RequestStatus, Stored, Decision, Ledger, Published, Raised, publish, GatewayError,
}
use ecoroute_ht.Gateway.Context.{Routed}
use ecoroute_ht.Gateway.Settle.{impact_of, keep, is_storable}
use ecoroute_ht.Gateway.Live.{Round, Ended, Heard, StreamFailure, live_events}
use ecoroute_ht.Gateway.Relay.{
  Opening, Streaming, Streamed, prompt_tokens_of, completion_tokens_of, after_events, settle_stream,
  update_stream_failure,
}
use ecoroute_ht.Gateway.Stream.{decide_before_stream}
use ecoroute_ht.Gateway.Concluded.{IsCalled}

-- the endpoint that the decision names
abbrev pub decided : Option Decision → Option Uuid
decided none = none
decided (some d) = some d.selected_endpoint_id

-- decision that names an endpoint keeps naming one
pub decided-decide :
    (id : Uuid) (o : Option Decision) (old : Uuid)
    → decided o ≡ some old
    → decided (decide_before_stream id o) ≡ some id
decided-decide id none old h = cc
decided-decide id (some d) old h = refl

module _ {A : Arithmetic} {Json Vector Completion Chunk : Type 0}
    (r : Routed A Json Vector Completion) (s : Streaming Chunk Completion)
    (cache : CacheStore A Vector (Stored A Completion)) where
  -- A stream that has not started; `used` is whether the fallback serves it.
  pub record IsWaiting (c : EndpointCandidate A) (used : Bool) (l : Ledger A Vector Completion)
      : Type 0 where
    pub routing : l.row.status ≡ RequestStatus.routing
    pub selected : l.row.selected_endpoint_id ≡ some c.id
    pub fallback_used : l.row.fallback_used ≡ used
    pub agreed : decided l.decision ≡ some c.id
    pub no_impacts : l.impacts ≡ []
    pub same_cache : l.cache ≡ cache

  -- The stream of the endpoint opened, and was closed where it had passed on a chunk.
  abbrev pub IsAbandoned : Uuid → Bool → Type 0
  IsAbandoned id used =
      (n : ℕ) × (first : Chunk) × (rounds : List (Round Chunk)) × (h : Heard Chunk) × ((n == 2)
        ≡ used)
      × (s.opening n id ≡ Opening.opens first rounds)
      × (live_events s.chunks r.body.model s.has_gone first rounds ≡ Ended.abandoned h)

  -- The request is completed with one impact, and stored only if it is eligible for the exact cache;
  -- or it was cut short and nothing is accounted or stored. Where the generator was closed at a chunk,
  -- the row is still that of a request that is being routed.
  abbrev pub IsOver : Uuid → Bool → Ledger A Vector Completion → Type 0
  IsOver id used l =
      ((l.row.status ≡ RequestStatus.completed)
        × (length l.impacts ≡ 1)
        × ((is_storable r ≡ true) ⊎ (l.cache ≡ cache)))
      ⊎ (((l.row.status ≡ RequestStatus.client_cancelled)
            ⊎ ((l.row.status ≡ RequestStatus.partial_stream_error)
                ⊎ ((l.row.status ≡ RequestStatus.routing) × IsAbandoned id used)))
          × (l.impacts ≡ [])
          × (l.cache ≡ cache))

  -- A stream that was started: the request is over, and the row, the decision and the headers agree.
  pub record IsRelayed (reply : Streamed Chunk) (l : Ledger A Vector Completion) : Type 0 where
    pub over : IsOver reply.endpoint_id reply.fallback_used l
    pub selected : l.row.selected_endpoint_id ≡ some reply.endpoint_id
    pub agreed : decided l.decision ≡ some reply.endpoint_id
    pub fallback_used : l.row.fallback_used ≡ reply.fallback_used

  -- The row has failed with the code of the error; but where the connections are taken, the request
  -- is still being routed.
  pub record IsTurnedAway (e : GatewayError) (l : Ledger A Vector Completion) : Type 0 where
    pub settled :
        ((l.row.status ≡ RequestStatus.failed) × (l.row.error_code ≡ some e.code))
        ⊎ ((leb s.max_connections s.connections ≡ true)
            × (l.row.status ≡ RequestStatus.routing)
            × (e.code ≡ "sse_connection_limit"))
    pub no_impacts : l.impacts ≡ []
    pub same_cache : l.cache ≡ cache

  abbrev pub IsStreamEnd : Outcome Raised (Streamed Chunk) → Ledger A Vector Completion → Type 0
  IsStreamEnd (ok reply) l = IsRelayed reply l
  IsStreamEnd (raise (Raised.error e)) l = IsTurnedAway e l
  IsStreamEnd (raise Raised.unhandled) l = ⊥

  abbrev pub IsStreamed : Outcome Raised (Streamed Chunk) × Ledger A Vector Completion → Type 0
  IsStreamed v = IsCalled r 2 v.1 × IsStreamEnd v.0 v.1

  settle_stream-IsRelayed :
      (n : ℕ) (c : EndpointCandidate A) (first : Chunk) (h : Heard Chunk) (sent : List Chunk)
      (l : Ledger A Vector Completion)
      → IsCalled r 2 l
      → IsWaiting c (n == 2) l
      → IsStreamed (
        ok (record { sent = sent; endpoint_id = c.id; fallback_used = n == 2 }),
        settle_stream r s n c first h l,
      )
  unfolding settle_stream keep
  settle_stream-IsRelayed n c first h sent l k w =
      let over : length
            (l.impacts ++ impact_of r c (prompt_tokens_of r s h) (completion_tokens_of r s h) ∷ [])
          ≡ 1 =
        rw w.no_impacts refl in
      if-holds
        (λ (m : Ledger A Vector Completion). IsStreamed (
          ok (record { sent = sent; endpoint_id = c.id; fallback_used = n == 2 }),
          publish (Published.route_completed c.id (n == 2)) m,
        ))
        (is_storable r) _ _
        (λ t. (
          record { few = k.few; admitted = k.admitted },
          record {
            over = inl (refl, over, inl t);
            selected = w.selected;
            agreed = w.agreed;
            fallback_used = w.fallback_used;
          },
        ))
        (λ _. (
          record { few = k.few; admitted = k.admitted },
          record {
            over = inl (refl, over, inr w.same_cache);
            selected = w.selected;
            agreed = w.agreed;
            fallback_used = w.fallback_used;
          },
        ))

  pub after_events-IsStreamed :
      (n : ℕ) (c : EndpointCandidate A) (first : Chunk) (rounds : List (Round Chunk))
      (e : Ended Chunk) (l : Ledger A Vector Completion)
      → s.opening n c.id ≡ Opening.opens first rounds
      → live_events s.chunks r.body.model s.has_gone first rounds ≡ e
      → IsCalled r 2 l
      → IsWaiting c (n == 2) l
      → IsStreamed (after_events r s n c first e l)
  unfolding after_events update_stream_failure
  after_events-IsStreamed n c first rounds (Ended.finished h) l o q k w =
      settle_stream-IsRelayed n c first h _ l k w
  after_events-IsStreamed n c first rounds (Ended.stopped StreamFailure.client_cancelled h) l o q k
        w =
      (
        record { few = k.few; admitted = k.admitted },
        record {
          over = inr (inl refl, w.no_impacts, w.same_cache);
          selected = w.selected;
          agreed = w.agreed;
          fallback_used = w.fallback_used;
        },
      )
  after_events-IsStreamed n c first rounds (Ended.stopped StreamFailure.partial_stream_error h) l o
        q k w =
      (
        record { few = k.few; admitted = k.admitted },
        record {
          over = inr (inr (inl refl), w.no_impacts, w.same_cache);
          selected = w.selected;
          agreed = w.agreed;
          fallback_used = w.fallback_used;
        },
      )
  after_events-IsStreamed n c first rounds (Ended.abandoned h) l o q k w = (
    record { few = k.few; admitted = k.admitted },
    record {
      over =
          inr
            (inr (inr (w.routing, (n, first, rounds, h, refl, o, q))), w.no_impacts, w.same_cache);
      selected = w.selected;
      agreed = w.agreed;
      fallback_used = w.fallback_used;
    },
  )
