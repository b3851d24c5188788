-- ===== src/Gateway/Ending.antt =====
-- api/gateway.py: a request that is routed to an endpoint that meets every hard constraint is concluded.
use ecoroute_ht.Base.{
  ℕ, suc, ◌≤◌, ◌≡◌, refl, sym, or_else, subst, ◌⊎◌, inl, inr, ◌==◌, ==_iff, Bool, true, false, not,
  ◌&&◌, List, [], ◌∷◌, Option, none, some, any, map, filter, find?-Member, length-append, ltb,
  arith, Member, All-append, Bool-cases, if-holds, Outcome, ok, raise,
}
use ecoroute_ht.Numbers.{Arithmetic}
use ecoroute_ht.Schemas.{QualityTier, Capability, capability_eq, is_specialized, is_frontier}
use ecoroute_ht.Routing.Candidate.{EndpointCandidate}
use ecoroute_ht.Routing.Exclusion.{Entry}
use ecoroute_ht.Routing.Ranking.{is_eligible}
use ecoroute_ht.Routing.Quality.{Verdict}
use ecoroute_ht.Routing.Accepted.{IsAccepted, verify_output-IsAccepted, verify_output-IsWorded}
use ecoroute_ht.Cache.Entries.{CacheStore}
use ecoroute_ht.Gateway.Ledger.{Stored, Ledger}
use ecoroute_ht.Gateway.Upstream.{ProviderError, Message, is_late, invoke}
use ecoroute_ht.Gateway.Context.{
  Routed, ask, eligible_ids, format_for, free_text_or, is_required_fallback, quality_fallback,
  verdict_of,
}
use ecoroute_ht.Gateway.Complete.{
  empty_message, fallback_verdict, finish_fallback, after_quality_fallback, try_quality_fallback,
  after_verdict,
}
use ecoroute_ht.Gateway.Concluded.{
  IsServing, IsText, Origin, IsCalled, IsOpen, IsConcluded, finish-IsConcluded, refused,
}

frontier-is_specialized : (t : QualityTier) → is_frontier t ≡ true → is_specialized t ≡ false
frontier-is_specialized t h = ground arith

find?-map-any :
    {X : Type 0} (f : X → ℕ) (n : ℕ) (xs : List X)
    → any (λ i. i == n) (map f xs) ≡ true
    → (x : X) × Member x xs × (f x ≡ n)
unfolding any
find?-map-any f n [] h = cc
find?-map-any f n (x ∷ xs) h = elim (Bool-cases (f x == n)) [
  | inl t ↦ (x, inl refl, (==_iff (f x) n).0 t)
  | inr e ↦ let (y, m, p) = find?-map-any f n xs (ground arith) in (y, inr m, p)
]

module _ {A : Arithmetic} {Json Vector Completion : Type 0}
    (r : Routed A Json Vector Completion) where
  open r use {query, body, completions, checks, candidates, entries, providers, timeout}

  invoke-answer :
      (n : ℕ) (c : EndpointCandidate A) (x : Completion)
      → invoke A Json Completion timeout providers n c (format_for r c) ≡ ok x
      → providers.chat n c (format_for r c) ≡ ok x
  unfolding invoke
  invoke-answer n c x h = ground arith

  pub verdict-IsText :
      (c : EndpointCandidate A) (specialized force : Bool) (minimum : A.Float) (m : Message)
      → (verdict_of r c specialized force minimum m).passed ≡ true
      → IsText r specialized m (verdict_of r c specialized force minimum m).answer
  unfolding verdict_of
  verdict-IsText c specialized force minimum m h =
      elim (Bool-cases
        (m.tool_calls && body.has_tools && any (capability_eq Capability.tools) c.capabilities)) [
          | inl t ↦ rw t (inl refl)
          | inr f ↦ rw f (
              inr (
                verify_output-IsWorded A Json checks query.classification.task_type specialized
                  (free_text_or r (format_for r c)) 32000 minimum m.content force (rw f at h)))
        ]

  pub verdict-accepted :
      (c : EndpointCandidate A) (specialized force : Bool) (minimum : A.Float) (m : Message)
      → (verdict_of r c specialized force minimum m).passed ≡ true
      → ((m.tool_calls && body.has_tools && any (capability_eq Capability.tools) c.capabilities)
          ≡ true)
        ⊎ IsAccepted A Json checks query.classification.task_type specialized
            (free_text_or r (format_for r c))
            32000
            minimum
            m.content
  unfolding verdict_of
  verdict-accepted c specialized force minimum m h =
      elim (Bool-cases
        (m.tool_calls && body.has_tools && any (capability_eq Capability.tools) c.capabilities)) [
          | inl t ↦ inl t
          | inr f ↦
              inr
                (verify_output-IsAccepted A Json checks query.classification.task_type specialized
                  (free_text_or r (format_for r c)) 32000 minimum m.content force (rw f at h)).1
        ]

  pub ask-IsCalled :
      (n : ℕ) (c : EndpointCandidate A) (l : Ledger A Vector Completion)
      → IsServing r c.id
      → IsCalled r n l
      → IsCalled r (suc n) (ask r (suc n) c l).1
  unfolding ask
  ask-IsCalled n c l s k =
      if-holds (IsCalled r (suc n)) (is_late A Json Completion timeout providers (suc n)) _ _
        (λ _. record { few = ground (arith, k.few); admitted = k.admitted })
        (λ _. record {
          few = ground (arith, k.few, length-append l.calls (c.id ∷ []));
          admitted = All-append (IsServing r) l.calls (c.id ∷ []) k.admitted (s, tt);
        })

  pub fallback-IsServing :
      (c selected : EndpointCandidate A)
      → ((e : Entry A)
          → Member e (filter (is_eligible A) entries)
          → IsServing r e.snapshot.endpoint_id)
      → is_required_fallback r selected c ≡ true
      → IsServing r c.id
  unfolding eligible_ids
  fallback-IsServing c selected serving h =
      let (e, m, p) =
        find?-map-any (λ (e : Entry A). e.snapshot.endpoint_id) c.id
          (filter (is_eligible A) entries) (ground arith) in
      subst (IsServing r) p (serving e m)

  quality_fallback-some :
      (selected c : EndpointCandidate A)
      → quality_fallback r selected ≡ some c
      → (is_required_fallback r selected c ≡ true) × (is_frontier c.quality_tier ≡ true)
  unfolding quality_fallback
  quality_fallback-some selected c e =
      let (m, t) = find?-Member _ c candidates e in (ground (arith, t), ground (arith, t))

module _ {A : Arithmetic} {Json Vector Completion : Type 0} (r : Routed A Json Vector Completion)
    (cache : CacheStore A Vector (Stored A Completion))
    (serving : (e : Entry A)
      → Member e (filter (is_eligible A) r.entries)
      → IsServing r e.snapshot.endpoint_id) where
  open r use {query, body, completions, checks, candidates, entries, providers, timeout}

  Origin-of_fallback :
      (c : EndpointCandidate A) (raw : Completion)
      → is_frontier c.quality_tier ≡ true
      → providers.chat 2 c (format_for r c) ≡ ok raw
      → (fallback_verdict r c (completions.set_model body.model raw)).passed ≡ true
      → Origin r c
          (completions.set_model body.model raw)
          (fallback_verdict r c (completions.set_model body.model raw)).answer
  Origin-of_fallback c raw f h t = record {
    number = 2;
    raw = raw;
    message = or_else (completions.message (completions.set_model body.model raw)) empty_message;
    is_answer = h;
    is_completion = refl;
    is_message = refl;
    vetted = elim (verdict-accepted r c false false (A.f_lit 80 2) _ t) [
      | inl call ↦ inl call
      | inr a ↦ inr (record {
        not_blank = a.not_blank;
        not_long = a.not_long;
        no_secret = a.no_secret;
        no_promise = a.no_promise;
        well_formed = a.well_formed;
        supported = λ s. absurd (ground (arith, frontier-is_specialized c.quality_tier f));
      })
    ];
    text =
        subst
          (λ b.
            IsText r b
              (or_else (completions.message (completions.set_model body.model raw)) empty_message)
              (fallback_verdict r c (completions.set_model body.model raw)).answer)
          (sym (frontier-is_specialized c.quality_tier f))
          (verdict-IsText r c false false (A.f_lit 80 2) _ t);
  }

  after_quality_fallback-IsConcluded :
      (c selected : EndpointCandidate A) (l : Ledger A Vector Completion)
      (m : Outcome ProviderError Completion)
      → is_frontier c.quality_tier ≡ true
      → ((x : Completion) → m ≡ ok x → providers.chat 2 c (format_for r c) ≡ ok x)
      → IsCalled r 2 l
      → IsOpen r cache selected false l
      → IsConcluded r cache (after_quality_fallback r c (m, l))
  unfolding after_quality_fallback finish_fallback
  after_quality_fallback-IsConcluded c selected l (raise e) f h k o = (
    record { few = k.few; admitted = k.admitted },
    record { failed = refl; coded = refl; no_impacts = o.no_impacts; same_cache = o.same_cache },
  )
  after_quality_fallback-IsConcluded c selected l (ok x) f h k o =
      if-holds (IsConcluded r cache) (not (completions.has_choices x)) _ _
        (λ _. refused r cache _ selected false l k o)
        (λ _.
          finish-IsConcluded r cache c (completions.set_model body.model x)
            (fallback_verdict r c (completions.set_model body.model x)) true _
            (record { few = k.few; admitted = k.admitted })
            (record {
              routing = o.routing;
              selected = refl;
              fallback_used = refl;
              no_impacts = o.no_impacts;
              same_cache = o.same_cache;
            })
            (Origin-of_fallback c x f (h x refl)))

  pub ask-IsOpen :
      (n : ℕ) (c d : EndpointCandidate A) (used : Bool) (l : Ledger A Vector Completion)
      → IsOpen r cache d used l
      → IsOpen r cache d used (ask r n c l).1
  unfolding ask
  ask-IsOpen n c d used l o =
      if-holds (IsOpen r cache d used) (is_late A Json Completion timeout providers n) _ _ (λ _. o)
        (λ _. record {
          routing = o.routing;
          selected = o.selected;
          fallback_used = o.fallback_used;
          no_impacts = o.no_impacts;
          same_cache = o.same_cache;
        })

  pub ask-answer :
      (n : ℕ) (c : EndpointCandidate A) (l : Ledger A Vector Completion) (x : Completion)
      → (ask r n c l).0 ≡ ok x
      → providers.chat n c (format_for r c) ≡ ok x
  unfolding ask
  ask-answer n c l x h = invoke-answer r n c x h

  try_quality_fallback-IsConcluded :
      (c : EndpointCandidate A) (x : Completion) (v : Verdict A Json)
      (f : Option (EndpointCandidate A)) (l : Ledger A Vector Completion)
      → quality_fallback r c ≡ f
      → IsCalled r 1 l
      → IsOpen r cache c false l
      → (v.passed ≡ true → Origin r c x v.answer)
      → IsConcluded r cache (try_quality_fallback r c x v f l)
  unfolding try_quality_fallback
  try_quality_fallback-IsConcluded c x v none l e k o s =
      finish-IsConcluded r cache c x v false l
        (record { few = ground (arith, k.few); admitted = k.admitted }) o s
  try_quality_fallback-IsConcluded c x v (some f) l e k o s =
      let (required, frontier) = quality_fallback-some r c f e in
      after_quality_fallback-IsConcluded f c (ask r 2 f l).1 (ask r 2 f l).0 frontier
        (ask-answer 2 f l) (ask-IsCalled r 1 f l (fallback-IsServing r f c serving required) k)
        (ask-IsOpen 2 f c false l o)

  pub after_verdict-IsConcluded :
      (n : ℕ) (c : EndpointCandidate A) (x : Completion) (v : Verdict A Json)
      (l : Ledger A Vector Completion)
      → n ≤ 2
      → IsCalled r n l
      → IsOpen r cache c (n == 2) l
      → (v.passed ≡ true → Origin r c x v.answer)
      → IsConcluded r cache (after_verdict r n c x v l)
  unfolding after_verdict
  after_verdict-IsConcluded n c x v l b k o s =
      if-holds (IsConcluded r cache)
        (not v.passed && query.policy.quality_fallback_enabled && ltb n 2) _ _
        (λ t.
          try_quality_fallback-IsConcluded c x v (quality_fallback r c) l refl
            (record { few = ground (arith, k.few); admitted = k.admitted })
            (record {
              routing = o.routing;
              selected = o.selected;
              fallback_used = ground (arith, o.fallback_used);
              no_impacts = o.no_impacts;
              same_cache = o.same_cache;
            })
            s)
        (λ _.
          finish-IsConcluded r cache c x v (n == 2) l
            (record { few = ground (arith, k.few); admitted = k.admitted }) o s)
