-- ===== src/Gateway/Streamed.antt =====
-- api/gateway.py: the end of a streamed request, from its first call on.
use ecoroute_ht.Base.{
  ℕ, ◌≡◌, refl, inl, inr, ◌==◌, Bool, true, false, List, [], ◌∷◌, Option, none, some, length-append,
  leb, arith, Member, All-append, filter, if-holds, Outcome, ok, raise,
}
use ecoroute_ht.Numbers.{Arithmetic}
use ecoroute_ht.Schemas.{Uuid}
use ecoroute_ht.Routing.Candidate.{EndpointCandidate}
use ecoroute_ht.Routing.Exclusion.{Entry}
use ecoroute_ht.Routing.Ranking.{is_eligible}
use ecoroute_ht.Cache.Entries.{CacheStore}
use ecoroute_ht.Gateway.Ledger.{Stored, Ledger}
use ecoroute_ht.Gateway.Upstream.{ProviderError}
use ecoroute_ht.Gateway.Context.{Routed, is_retryable, transport_fallback}
use ecoroute_ht.Gateway.Live.{Round, live_events}
use ecoroute_ht.Gateway.Relay.{Opening, Streaming, start_stream}
use ecoroute_ht.Gateway.Stream.{
  after_second_preflight, switch_stream, after_first_preflight, stream_response, preflight_stream,
}
use ecoroute_ht.Gateway.Concluded.{IsServing, IsCalled}
use ecoroute_ht.Gateway.Ending.{fallback-IsServing}
use ecoroute_ht.Gateway.Completing.{transport_fallback-some}
use ecoroute_ht.Gateway.Streaming.{decided-decide, IsWaiting, IsStreamed, after_events-IsStreamed}

module _ {A : Arithmetic} {Json Vector Completion Chunk : Type 0}
    (r : Routed A Json Vector Completion) (s : Streaming Chunk Completion)
    (cache : CacheStore A Vector (Stored A Completion))
    (serving : (e : Entry A)
      → Member e (filter (is_eligible A) r.entries)
      → IsServing r e.snapshot.endpoint_id) where
  preflight-opens :
      (n : ℕ) (id : Uuid) (first : Chunk) (rounds : List (Round Chunk))
      → preflight_stream r s n id ≡ ok (first, rounds)
      → s.opening n id ≡ Opening.opens first rounds
  unfolding preflight_stream
  preflight-opens n id first rounds p = ground arith

  start_stream-IsStreamed :
      (n : ℕ) (c : EndpointCandidate A) (first : Chunk) (rounds : List (Round Chunk))
      (l : Ledger A Vector Completion)
      → s.opening n c.id ≡ Opening.opens first rounds
      → IsCalled r 2 l
      → IsWaiting r s cache c (n == 2) l
      → IsStreamed r s cache (start_stream r s n c first rounds l)
  unfolding start_stream
  start_stream-IsStreamed n c first rounds l o k w =
      if-holds (IsStreamed r s cache) (leb s.max_connections s.connections) _ _
        (λ t. (
          record { few = k.few; admitted = k.admitted },
          record {
            settled = inr (t, w.routing, refl);
            no_impacts = w.no_impacts;
            same_cache = w.same_cache;
          },
        ))
        (λ _.
          after_events-IsStreamed r s cache n c first rounds
            (live_events s.chunks r.body.model s.has_gone first rounds) _ o refl
            (record { few = k.few; admitted = k.admitted })
            (record {
              routing = w.routing;
              selected = w.selected;
              fallback_used = w.fallback_used;
              agreed = w.agreed;
              no_impacts = w.no_impacts;
              same_cache = w.same_cache;
            }))

  after_second-IsStreamed :
      (c : EndpointCandidate A) (m : Outcome ProviderError (Chunk × List (Round Chunk)))
      (l : Ledger A Vector Completion)
      → preflight_stream r s 2 c.id ≡ m
      → IsCalled r 2 l
      → IsWaiting r s cache c true l
      → IsStreamed r s cache (after_second_preflight r s c m l)
  unfolding after_second_preflight
  after_second-IsStreamed c (ok (first, rounds)) l p k w =
      start_stream-IsStreamed 2 c first rounds l (preflight-opens 2 c.id first rounds p) k w
  after_second-IsStreamed c (raise e) l p k w = (
    record { few = k.few; admitted = k.admitted },
    record { settled = inl (refl, refl); no_impacts = w.no_impacts; same_cache = w.same_cache },
  )

  switch_stream-IsStreamed :
      (e : ProviderError) (retryable : Bool) (selected : EndpointCandidate A)
      (f : Option (EndpointCandidate A)) (l : Ledger A Vector Completion)
      → transport_fallback r selected ≡ f
      → IsCalled r 1 l
      → IsWaiting r s cache selected false l
      → IsStreamed r s cache (switch_stream r s e retryable f l)
  unfolding switch_stream
  switch_stream-IsStreamed e true selected none l p k w = (
    record { few = ground (arith, k.few); admitted = k.admitted },
    record { settled = inl (refl, refl); no_impacts = w.no_impacts; same_cache = w.same_cache },
  )
  switch_stream-IsStreamed e false selected f l p k w = (
    record { few = ground (arith, k.few); admitted = k.admitted },
    record { settled = inl (refl, refl); no_impacts = w.no_impacts; same_cache = w.same_cache },
  )
  switch_stream-IsStreamed e true selected (some f) l p k w =
      after_second-IsStreamed f (preflight_stream r s 2 f.id) _ refl
        (record {
          few = ground (arith, k.few, length-append l.calls (f.id ∷ []));
          admitted = All-append (IsServing r) l.calls (f.id ∷ []) k.admitted (
            fallback-IsServing r f selected serving
                (transport_fallback-some r l.cache serving selected f p),
            tt,
          );
        })
        (record {
          routing = w.routing;
          selected = refl;
          fallback_used = refl;
          agreed = decided-decide f.id l.decision selected.id w.agreed;
          no_impacts = w.no_impacts;
          same_cache = w.same_cache;
        })

  after_first-IsStreamed :
      (c : EndpointCandidate A) (m : Outcome ProviderError (Chunk × List (Round Chunk)))
      (l : Ledger A Vector Completion)
      → preflight_stream r s 1 c.id ≡ m
      → IsCalled r 1 l
      → IsWaiting r s cache c false l
      → IsStreamed r s cache (after_first_preflight r s c m l)
  unfolding after_first_preflight
  after_first-IsStreamed c (ok (first, rounds)) l p k w =
      start_stream-IsStreamed 1 c first rounds l (preflight-opens 1 c.id first rounds p)
        (record { few = ground (arith, k.few); admitted = k.admitted }) w
  after_first-IsStreamed c (raise e) l p k w =
      switch_stream-IsStreamed e (is_retryable e.code) c (transport_fallback r c) _ refl
        (record { few = k.few; admitted = k.admitted })
        (record {
          routing = w.routing;
          selected = w.selected;
          fallback_used = w.fallback_used;
          agreed = w.agreed;
          no_impacts = w.no_impacts;
          same_cache = w.same_cache;
        })

  -- A streamed request ends, where the selected endpoint serves.
  pub stream_response-IsStreamed :
      (c : EndpointCandidate A) (l : Ledger A Vector Completion)
      → IsServing r c.id
      → IsCalled r 0 l
      → IsWaiting r s cache c false l
      → IsStreamed r s cache (stream_response r s c l)
  unfolding stream_response
  stream_response-IsStreamed c l serves k w =
      after_first-IsStreamed c (preflight_stream r s 1 c.id) _ refl
        (record {
          few = ground (arith, k.few, length-append l.calls (c.id ∷ []));
          admitted = All-append (IsServing r) l.calls (c.id ∷ []) k.admitted (serves, tt);
        })
        (record {
          routing = w.routing;
          selected = w.selected;
          fallback_used = w.fallback_used;
          agreed = w.agreed;
          no_impacts = w.no_impacts;
          same_cache = w.same_cache;
        })
