-- ===== src/Gateway/Stale.antt =====
-- api/gateway.py: the decision of a request after its transport fallback. The branch that streams and
-- the quality fallback change it with the row; the transport fallback of an answer in one piece does
-- not.
use ecoroute_ht.Base.{
  ℕ, ◌≡◌, ◌≢◌, refl, sym, ap, ◌∙◌, subst, inl, inr, not, ◌&&◌, Bool, true, false, Bool-cases,
  Option, none, some, find?-Member, arith, if-holds, Outcome, ok, raise,
}
use ecoroute_ht.Numbers.{Arithmetic}
use ecoroute_ht.Schemas.{is_specialized}
use ecoroute_ht.Routing.Candidate.{EndpointCandidate}
use ecoroute_ht.Routing.Quality.{Verdict}
use ecoroute_ht.Gateway.Ledger.{Ledger, Purpose, add_attempt, failed_attempt, fall_back}
use ecoroute_ht.Gateway.Upstream.{ProviderError, Message, is_late, invoke}
use ecoroute_ht.Gateway.Context.{
  Routed, Served, ask, completed_attempt, format_for, is_retryable, is_required_fallback,
  purpose_of, transport_fallback, verdict_of,
}
use ecoroute_ht.Gateway.Settle.{keep, is_storable, settle, store_passed}
use ecoroute_ht.Gateway.Complete.{
  finish, after_verdict, judge_message, judge, after_transport_fallback, retry, after_first,
  complete,
}
use ecoroute_ht.Gateway.Streaming.{decided}

module _ {A : Arithmetic} {Json Vector Completion : Type 0}
    (r : Routed A Json Vector Completion) where
  open r use {query, body, completions}

  -- The endpoint of the row and the decision are those of a ledger before.
  abbrev pub Stays : Ledger A Vector Completion → Ledger A Vector Completion → Type 0
  Stays l m = (m.row.selected_endpoint_id ≡ l.row.selected_endpoint_id) × (m.decision ≡ l.decision)

  finish-Stays :
      (c : EndpointCandidate A) (x : Completion) (v : Verdict A Json) (used : Bool)
      (l : Ledger A Vector Completion)
      → Stays l (finish r c x v used l).1
  unfolding finish settle store_passed keep
  finish-Stays c x v used l =
      if-holds (λ (s : Served A Vector Completion). Stays l s.1) (not v.passed) _ _
        (λ _. (refl, refl))
        (λ _. elim (Bool-cases (is_storable r && v.passed)) [
          | inl t ↦ (ground arith, ground arith)
          | inr f ↦ (ground arith, ground arith)
        ])

  after_verdict-Stays :
      (c : EndpointCandidate A) (x : Completion) (v : Verdict A Json)
      (l : Ledger A Vector Completion)
      → Stays l (after_verdict r 2 c x v l).1
  unfolding after_verdict
  after_verdict-Stays c x v l =
      if-holds (λ (s : Served A Vector Completion). Stays l s.1)
        (not v.passed && query.policy.quality_fallback_enabled && false) _ _
        (λ t. absurd (ground arith)) (λ _. finish-Stays c x v true l)

  judge_message-Stays :
      (c : EndpointCandidate A) (x : Completion) (m : Option Message)
      (l : Ledger A Vector Completion)
      → Stays l (judge_message r 2 c x m l).1
  unfolding judge_message
  judge_message-Stays c x none l = (refl, refl)
  judge_message-Stays c x (some m) l =
      let verdict =
        verdict_of r c (is_specialized c.quality_tier) r.force_failure
          query.policy.min_slm_confidence m in
      after_verdict-Stays c x verdict
        (add_attempt (completed_attempt r 2 c (purpose_of 2) x verdict) l)

  after_transport_fallback-Stays :
      (c : EndpointCandidate A) (m : Outcome ProviderError Completion)
      (l : Ledger A Vector Completion)
      → Stays l (after_transport_fallback r c (m, l)).1
  unfolding after_transport_fallback judge
  after_transport_fallback-Stays c (raise e) l = (refl, refl)
  after_transport_fallback-Stays c (ok x) l =
      if-holds (λ (s : Served A Vector Completion). Stays l s.1) (not (completions.has_choices x)) _
        _ (λ _. (refl, refl)) (λ _. judge_message-Stays c _ _ l)

  ask-Stays :
      (n : ℕ) (c : EndpointCandidate A) (l : Ledger A Vector Completion) → Stays l (ask r n c l).1
  unfolding ask
  ask-Stays n c l =
      if-holds (Stays l) (is_late A Json Completion r.timeout r.providers n) _ _ (λ _. (refl, refl))
        (λ _. (refl, refl))

  retry-Stays :
      (e : ProviderError) (f : EndpointCandidate A) (l : Ledger A Vector Completion)
      → ((retry r e true (some f) l).1.row.selected_endpoint_id ≡ some f.id)
        × ((retry r e true (some f) l).1.decision ≡ l.decision)
  unfolding retry
  retry-Stays e f l =
      let moved : Ledger A Vector Completion = fall_back f.id l in
      let (p, q) = ask-Stays 2 f moved in
      let (s, t) = after_transport_fallback-Stays f (ask r 2 f moved).0 (ask r 2 f moved).1 in
      (s ∙ p, t ∙ q)

  after_first-Stays :
      (c f : EndpointCandidate A) (e : ProviderError) (l : Ledger A Vector Completion)
      → is_retryable e.code ≡ true
      → transport_fallback r c ≡ some f
      → ((after_first r c (raise e, l)).1.row.selected_endpoint_id ≡ some f.id)
        × ((after_first r c (raise e, l)).1.decision ≡ l.decision)
  unfolding after_first
  after_first-Stays c f e l t p =
      rw (t, p) (retry-Stays e f (add_attempt (failed_attempt 1 c.id Purpose.selected e.code) l))

  fallback-ne : (c f : EndpointCandidate A) → transport_fallback r c ≡ some f → f.id ≢ c.id
  unfolding transport_fallback
  fallback-ne c f p same =
      let (m, required) = find?-Member (is_required_fallback r c) f r.candidates p in ground arith

  -- Where the decision of a request that is answered in one piece names the selected endpoint, that
  -- endpoint fails for a time and there is a transport fallback, the row ends with the fallback's id,
  -- and the decision still names the endpoint that failed, which is another.
  pub complete-stale :
      (c f : EndpointCandidate A) (e : ProviderError) (l : Ledger A Vector Completion)
      → invoke A Json Completion r.timeout r.providers 1 c (format_for r c) ≡ raise e
      → is_retryable e.code ≡ true
      → transport_fallback r c ≡ some f
      → decided l.decision ≡ some c.id
      → ((complete r c l).1.row.selected_endpoint_id ≡ some f.id)
        × (decided (complete r c l).1.decision ≡ some c.id)
        × (f.id ≢ c.id)
  unfolding complete ask
  complete-stale c f e l h t p names =
      let (q, d) : ((complete r c l).1.row.selected_endpoint_id ≡ some f.id)
          × ((complete r c l).1.decision ≡ (ask r 1 c l).1.decision) =
        subst
          (λ m.
            ((after_first r c (m, (ask r 1 c l).1)).1.row.selected_endpoint_id ≡ some f.id)
            × ((after_first r c (m, (ask r 1 c l).1)).1.decision ≡ (ask r 1 c l).1.decision))
          (sym h) (after_first-Stays c f e (ask r 1 c l).1 t p) in
      (q, ap decided (d ∙ (ask-Stays 1 c l).1) ∙ names, fallback-ne c f p)
