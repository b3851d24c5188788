-- ===== src/Gateway/Completing.antt =====
-- api/gateway.py: the rest of the way of a routed request, from its first call to the verdict.
use ecoroute_ht.Base.{
  ℕ, ◌≤◌, ◌≡◌, refl, ◌==◌, Bool, true, false, not, Option, none, some, filter, find?-Member, arith,
  Member, if-holds, Outcome, ok, raise,
}
use ecoroute_ht.Numbers.{Arithmetic}
use ecoroute_ht.Schemas.{is_specialized}
use ecoroute_ht.Routing.Candidate.{EndpointCandidate}
use ecoroute_ht.Routing.Exclusion.{Entry}
use ecoroute_ht.Routing.Ranking.{is_eligible}
use ecoroute_ht.Cache.Entries.{CacheStore}
use ecoroute_ht.Gateway.Ledger.{fall_back, GatewayError, Raised, Stored, Ledger}
use ecoroute_ht.Gateway.Upstream.{ProviderError, Message}
use ecoroute_ht.Gateway.Context.{
  is_retryable, Routed, ask, format_for, is_required_fallback, transport_fallback, verdict_of,
}
use ecoroute_ht.Gateway.Complete.{
  give_up, judge_message, judge, after_transport_fallback, retry, after_first, complete,
}
use ecoroute_ht.Gateway.Ending.{
  after_verdict-IsConcluded, ask-answer, ask-IsOpen, ask-IsCalled, fallback-IsServing,
  verdict-accepted, verdict-IsText,
}
use ecoroute_ht.Gateway.Concluded.{IsServing, IsCalled, IsOpen, IsConcluded}

module _ {A : Arithmetic} {Json Vector Completion : Type 0} (r : Routed A Json Vector Completion)
    (cache : CacheStore A Vector (Stored A Completion))
    (serving : (e : Entry A)
      → Member e (filter (is_eligible A) r.entries)
      → IsServing r e.snapshot.endpoint_id) where
  open r use {query, body, completions, providers, candidates}

  judge_message-IsConcluded :
      (n : ℕ) (c : EndpointCandidate A) (x raw : Completion) (m : Option Message)
      (l : Ledger A Vector Completion)
      → n ≤ 2
      → providers.chat n c (format_for r c) ≡ ok raw
      → x ≡ completions.set_model body.model raw
      → completions.message x ≡ m
      → IsCalled r n l
      → IsOpen r cache c (n == 2) l
      → IsConcluded r cache (judge_message r n c x m l)
  unfolding judge_message
  judge_message-IsConcluded n c x raw none l b h p q k o =
      (record { few = ground (arith, k.few); admitted = k.admitted }, (o.routing, o.same_cache))
  judge_message-IsConcluded n c x raw (some m) l b h p q k o =
      after_verdict-IsConcluded r cache serving n c x
        (verdict_of r c (is_specialized c.quality_tier) r.force_failure
          query.policy.min_slm_confidence m)
        _ b (record { few = k.few; admitted = k.admitted })
        (record {
          routing = o.routing;
          selected = o.selected;
          fallback_used = o.fallback_used;
          no_impacts = o.no_impacts;
          same_cache = o.same_cache;
        })
        λ t. record {
          number = n;
          raw = raw;
          message = m;
          is_answer = h;
          is_completion = p;
          is_message = rw q refl;
          vetted = verdict-accepted r c _ _ _ m t;
          text = verdict-IsText r c _ _ _ m t;
        }

  judge-IsConcluded :
      (n : ℕ) (c : EndpointCandidate A) (x : Completion) (l : Ledger A Vector Completion)
      → n ≤ 2
      → providers.chat n c (format_for r c) ≡ ok x
      → IsCalled r n l
      → IsOpen r cache c (n == 2) l
      → IsConcluded r cache (judge r n c x l)
  unfolding judge
  judge-IsConcluded n c x l b h k o =
      if-holds (IsConcluded r cache) (not (completions.has_choices x)) _ _
        (λ _. (
          record { few = ground (arith, k.few); admitted = k.admitted },
          record {
            failed = refl;
            coded = refl;
            no_impacts = o.no_impacts;
            same_cache = o.same_cache;
          },
        ))
        (λ _. judge_message-IsConcluded n c _ x _ l b h refl refl k o)

  pub transport_fallback-some :
      (selected c : EndpointCandidate A)
      → transport_fallback r selected ≡ some c
      → is_required_fallback r selected c ≡ true
  unfolding transport_fallback
  transport_fallback-some selected c e = (find?-Member _ c candidates e).1

  after_transport_fallback-IsConcluded :
      (c : EndpointCandidate A) (l : Ledger A Vector Completion)
      (m : Outcome ProviderError Completion)
      → ((x : Completion) → m ≡ ok x → providers.chat 2 c (format_for r c) ≡ ok x)
      → IsCalled r 2 l
      → IsOpen r cache c true l
      → IsConcluded r cache (after_transport_fallback r c (m, l))
  unfolding after_transport_fallback
  after_transport_fallback-IsConcluded c l (ok x) h k o =
      judge-IsConcluded 2 c x l (omega arith) (h x refl) k o
  after_transport_fallback-IsConcluded c l (raise e) h k o = (
    record { few = k.few; admitted = k.admitted },
    record { failed = refl; coded = refl; no_impacts = o.no_impacts; same_cache = o.same_cache },
  )

  give_up-IsConcluded :
      (e : GatewayError) (c : EndpointCandidate A) (l : Ledger A Vector Completion)
      → IsCalled r 1 l
      → IsOpen r cache c false l
      → IsConcluded r cache (give_up (Raised.error e) e.code l)
  give_up-IsConcluded e c l k o = (
    record { few = ground (arith, k.few); admitted = k.admitted },
    record { failed = refl; coded = refl; no_impacts = o.no_impacts; same_cache = o.same_cache },
  )

  retry-IsConcluded :
      (e : ProviderError) (retryable : Bool) (selected : EndpointCandidate A)
      (f : Option (EndpointCandidate A)) (l : Ledger A Vector Completion)
      → transport_fallback r selected ≡ f
      → IsCalled r 1 l
      → IsOpen r cache selected false l
      → IsConcluded r cache (retry r e retryable f l)
  unfolding retry
  retry-IsConcluded e true selected none l p k o = give_up-IsConcluded _ selected l k o
  retry-IsConcluded e false selected f l p k o = give_up-IsConcluded _ selected l k o
  retry-IsConcluded e true selected (some f) l p k o =
      let moved : Ledger A Vector Completion = fall_back f.id l in
      after_transport_fallback-IsConcluded f (ask r 2 f moved).1 (ask r 2 f moved).0
        (ask-answer r cache serving 2 f moved)
        (ask-IsCalled r 1 f moved
          (fallback-IsServing r f selected serving (transport_fallback-some selected f p))
          (record { few = k.few; admitted = k.admitted }))
        (ask-IsOpen r cache serving 2 f f true moved (record {
          routing = o.routing;
          selected = refl;
          fallback_used = refl;
          no_impacts = o.no_impacts;
          same_cache = o.same_cache;
        }))

  after_first-IsConcluded :
      (selected : EndpointCandidate A) (l : Ledger A Vector Completion)
      (m : Outcome ProviderError Completion)
      → ((x : Completion) → m ≡ ok x → providers.chat 1 selected (format_for r selected) ≡ ok x)
      → IsCalled r 1 l
      → IsOpen r cache selected false l
      → IsConcluded r cache (after_first r selected (m, l))
  unfolding after_first
  after_first-IsConcluded s l (ok x) h k o = judge-IsConcluded 1 s x l (omega arith) (h x refl) k o
  after_first-IsConcluded s l (raise e) h k o =
      retry-IsConcluded e (is_retryable e.code) s (transport_fallback r s) _ refl
        (record { few = k.few; admitted = k.admitted })
        (record {
          routing = o.routing;
          selected = o.selected;
          fallback_used = o.fallback_used;
          no_impacts = o.no_impacts;
          same_cache = o.same_cache;
        })

  -- A routed request is concluded, where the selected endpoint serves.
  pub complete-IsConcluded :
      (selected : EndpointCandidate A) (l : Ledger A Vector Completion)
      → IsServing r selected.id
      → IsCalled r 0 l
      → IsOpen r cache selected false l
      → IsConcluded r cache (complete r selected l)
  unfolding complete
  complete-IsConcluded selected l s k o =
      after_first-IsConcluded selected (ask r 1 selected l).1 (ask r 1 selected l).0
        (ask-answer r cache serving 1 selected l) (ask-IsCalled r 0 selected l s k)
        (ask-IsOpen r cache serving 1 selected selected false l o)
