-- ===== src/Gateway/Served.antt =====
-- api/gateway.py, `chat_completions` from the selection on: which endpoints a request reaches, and how it
-- ends.
use ecoroute_ht.Base.{
  filter, ◌≤◌, ◌≡◌, refl, subst, ◌⊎◌, inl, inr, true, false, List, [], some, length, leb, arith,
  Member, All, if-holds, Outcome, ok, raise,
}
use ecoroute_ht.Numbers.{Arithmetic}
use ecoroute_ht.Schemas.{Uuid}
use ecoroute_ht.Routing.Candidate.{EndpointCandidate}
use ecoroute_ht.Routing.Exclusion.{Entry}
use ecoroute_ht.Routing.Ranking.{is_eligible, Selection, SelectionError}
use ecoroute_ht.Routing.Selection.{select_candidate}
use ecoroute_ht.Routing.Admission.{IsAdmissible}
use ecoroute_ht.Routing.Soundness.{select_candidate-IsAdmissible, eligible_id-IsAdmissible}
use ecoroute_ht.Routing.Caching.{IsReusable, exact_cache_eligible, exact-IsReusable}
use ecoroute_ht.Gateway.Ledger.{RequestStatus, Ledger, Raised, GatewayError}
use ecoroute_ht.Gateway.Context.{Response}
use ecoroute_ht.Gateway.Relay.{Streamed}
use ecoroute_ht.Gateway.Route.{
  Reply, Handling, as_live, as_whole, routed, live_stream, decide, serve, after_selection, route,
  is_value_error,
}
use ecoroute_ht.Gateway.Concluded.{IsServing, IsDelivered, IsConcluded}
use ecoroute_ht.Gateway.Completing.{complete-IsConcluded}
use ecoroute_ht.Gateway.Streaming.{IsRelayed, IsStreamed}
use ecoroute_ht.Gateway.Streamed.{stream_response-IsStreamed}

module _ {A : Arithmetic} {Json Vector Completion Chunk : Type 0}
    (h : Handling A Json Vector Completion Chunk) (l : Ledger A Vector Completion) where
  -- Nothing was asked or accounted for the request.
  pub record IsFresh : Type 0 where
    pub routing : l.row.status ≡ RequestStatus.routing
    pub fallback_used : l.row.fallback_used ≡ false
    pub no_calls : l.calls ≡ []
    pub no_impacts : l.impacts ≡ []

  -- The calls are at most two, of candidates that meet every hard constraint.
  abbrev pub IsWithin : List Uuid → Type 0
  IsWithin calls =
      (length calls ≤ 2)
      × All
          (λ id.
            (c : EndpointCandidate A) × Member c h.candidates
            × (c.id ≡ id)
            × IsAdmissible A h.query c)
          calls

  -- The row has failed with the code of the error, unless the connections are taken; nothing is
  -- accounted or stored.
  pub record IsFailed (e : GatewayError) (after : Ledger A Vector Completion) : Type 0 where
    pub settled :
        ((after.row.status ≡ RequestStatus.failed) × (after.row.error_code ≡ some e.code))
        ⊎ ((leb h.streaming.max_connections h.streaming.connections ≡ true)
            × (after.row.status ≡ RequestStatus.routing)
            × (e.code ≡ "sse_connection_limit"))
    pub no_impacts : after.impacts ≡ []
    pub same_cache : after.cache ≡ l.cache

  abbrev pub IsAnswered :
      Outcome Raised (Reply Completion Chunk) → Ledger A Vector Completion → Type 0
  IsAnswered (ok (Reply.whole response)) after =
      (s : Selection A) × (select_candidate A h.query h.candidates ≡ ok s)
      × IsDelivered (routed h s) l.cache response after
  IsAnswered (ok (Reply.live reply)) after =
      (s : Selection A) × (select_candidate A h.query h.candidates ≡ ok s)
      × IsRelayed (routed h s) h.streaming l.cache reply after
  IsAnswered (raise (Raised.error e)) after = IsFailed e after
  IsAnswered (raise Raised.unhandled) after =
      (after.row.status ≡ RequestStatus.routing) × (after.cache ≡ l.cache)

  abbrev pub IsServed :
      Outcome Raised (Reply Completion Chunk) × Ledger A Vector Completion → Type 0
  IsServed v = IsWithin v.1.calls × IsAnswered v.0 v.1

  module _ (s : Selection A) (e : select_candidate A h.query h.candidates ≡ ok s) where
    whole-IsServed :
        (v : Outcome Raised (Response Completion)) (after : Ledger A Vector Completion)
        → IsConcluded (routed h s) l.cache (v, after)
        → IsServed (as_whole v, after)
    unfolding routed
    whole-IsServed (ok response) after (k, d) = ((k.few, k.admitted), (s, e, d))
    whole-IsServed (raise (Raised.error x)) after (k, d) = (
      (k.few, k.admitted),
      record {
        settled = inl (d.failed, d.coded);
        no_impacts = d.no_impacts;
        same_cache = d.same_cache;
      },
    )
    whole-IsServed (raise Raised.unhandled) after (k, d) = ((k.few, k.admitted), d)

    live-IsServed :
        (v : Outcome Raised (Streamed Chunk)) (after : Ledger A Vector Completion)
        → IsStreamed (routed h s) h.streaming l.cache (v, after)
        → IsServed (as_live v, after)
    unfolding routed
    live-IsServed (ok reply) after (k, d) = ((k.few, k.admitted), (s, e, d))
    live-IsServed (raise (Raised.error x)) after (k, d) = (
      (k.few, k.admitted),
      record { settled = d.settled; no_impacts = d.no_impacts; same_cache = d.same_cache },
    )
    live-IsServed (raise Raised.unhandled) after (k, d) = absurd d

    serve-IsServed : IsFresh → IsServed (serve h s (decide h s l))
    unfolding serve routed
    serve-IsServed f =
        let (m, a) = select_candidate-IsAdmissible A h.query h.candidates s e in
        let serving : (x : Entry A)
            → Member x (filter (is_eligible A) s.entries)
            → IsServing (routed h s) x.snapshot.endpoint_id =
          eligible_id-IsAdmissible A h.query h.candidates s e in
        if-holds IsServed (live_stream h s.selected) _ _
          (λ _. live-IsServed _ _ (
            stream_response-IsStreamed (routed h s) h.streaming l.cache serving s.selected _
              (s.selected, m, refl, a)
              (record { few = ground (arith, f.no_calls); admitted = rw f.no_calls tt })
              (record {
                routing = f.routing;
                selected = refl;
                fallback_used = f.fallback_used;
                agreed = refl;
                no_impacts = f.no_impacts;
                same_cache = refl;
              })))
          (λ _. whole-IsServed _ _ (
            complete-IsConcluded (routed h s) l.cache serving s.selected _ (s.selected, m, refl, a)
              (record { few = ground (arith, f.no_calls); admitted = rw f.no_calls tt })
              (record {
                routing = f.routing;
                selected = refl;
                fallback_used = f.fallback_used;
                no_impacts = f.no_impacts;
                same_cache = refl;
              })))

  after_selection-IsServed :
      (m : Outcome SelectionError (Selection A))
      → select_candidate A h.query h.candidates ≡ m
      → IsFresh
      → IsServed (after_selection h m l)
  unfolding after_selection
  after_selection-IsServed (ok s) e f = serve-IsServed s e f
  after_selection-IsServed (raise x) e f =
      if-holds IsServed (is_value_error x) _ _
        (λ _. (
          (ground (arith, f.no_calls), rw f.no_calls tt),
          record { settled = inl (refl, refl); no_impacts = f.no_impacts; same_cache = refl },
        ))
        (λ _. ((ground (arith, f.no_calls), rw f.no_calls tt), (f.routing, refl)))

  route-IsServed : IsFresh → IsServed (route h l)
  unfolding route
  route-IsServed f = after_selection-IsServed (select_candidate A h.query h.candidates) refl f

  -- A fresh request reaches at most two endpoints, each with the id of a candidate that meets every
  -- hard constraint, whatever the providers answer, fallbacks and streams included.
  pub route-IsWithin : IsFresh → IsWithin (route h l).1.calls
  route-IsWithin f = (route-IsServed f).0

  -- Where a fresh request is answered with an error, its row has failed with the code of the error, and
  -- nothing is accounted or stored. The exception is a stream where every connection is taken, which
  -- leaves the row as one that is being routed.
  pub route-IsFailed :
      (e : GatewayError)
      → IsFresh
      → (route h l).0 ≡ raise (Raised.error e)
      → IsFailed e (route h l).1
  route-IsFailed e f p = subst (λ o. IsAnswered o (route h l).1) p (route-IsServed f).1

  IsAnswered-private :
      (o : Outcome Raised (Reply Completion Chunk)) (after : Ledger A Vector Completion)
      → IsAnswered o after
      → (exact_cache_eligible A h.query.features h.query.policy (some h.query.classification)
          ≡ true)
        ⊎ (after.cache ≡ l.cache)
  unfolding routed
  IsAnswered-private (ok (Reply.whole x)) after (s, e, d) = d.private
  IsAnswered-private (ok (Reply.live x)) after (s, e, d) = elim d.over [
    | inl k ↦ k.2
    | inr k ↦ inr k.2
  ]
  IsAnswered-private (raise (Raised.error e)) after d = inr d.same_cache
  IsAnswered-private (raise Raised.unhandled) after d = inr d.1

  -- A fresh request whose features are not reusable, with tools, images, personal data, a secret, an
  -- uncertain number or a random answer, leaves the caches as they were.
  pub route-private : IsFresh → ¬ IsReusable h.query.features → (route h l).1.cache ≡ l.cache
  route-private f n = elim (IsAnswered-private (route h l).0 (route h l).1 (route-IsServed f).1) [
    | inl t ↦ absurd (n (exact-IsReusable A h.query.features h.query.policy _ t))
    | inr same ↦ same
  ]
