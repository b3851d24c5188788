-- ===== src/Gateway/Concluded.antt =====
-- api/gateway.py: how a request ends from the first call of a provider on. Every function of `Complete`
-- keeps what the one before it has established.
use ecoroute_ht.Base.{
  none, false, ap, ℕ, String, ◌≤◌, ◌≡◌, refl, subst, ◌⊎◌, inl, inr, Bool, true, not, ◌&&◌, [],
  Option, some, or_else, any, length, arith, Member, All, Bool-cases, if-holds, Outcome, ok, raise,
}
use ecoroute_ht.Numbers.{Arithmetic}
use ecoroute_ht.Schemas.{Uuid, Capability, capability_eq, is_specialized}
use ecoroute_ht.Routing.Candidate.{EndpointCandidate}
use ecoroute_ht.Routing.Quality.{Contract, Verdict, contract_of}
use ecoroute_ht.Routing.Admission.{IsAdmissible}
use ecoroute_ht.Routing.Accepted.{IsAccepted}
use ecoroute_ht.Cache.Entries.{CacheStore}
use ecoroute_ht.Gateway.Ledger.{RequestStatus, Stored, fail_row, Ledger, Raised, GatewayError}
use ecoroute_ht.Gateway.Upstream.{Message}
use ecoroute_ht.Gateway.Context.{Response, Routed, Served, format_for, free_text_or}
use ecoroute_ht.Gateway.Settle.{
  complete_row, debugged, is_storable, keep, settle, store_passed, with_answer,
}
use ecoroute_ht.Gateway.Complete.{empty_message, finish}

module _ {A : Arithmetic} {Json Vector Completion : Type 0}
    (r : Routed A Json Vector Completion) where
  open r use {query, body, completions, checks}

  -- The id of a candidate that meets every hard constraint.
  abbrev pub IsServing : Uuid → Type 0
  IsServing id =
      (c : EndpointCandidate A) × Member c r.candidates × (c.id ≡ id) × IsAdmissible A query c

  -- A message that is an allowed tool call, or text that is accepted.
  abbrev pub IsVetted : EndpointCandidate A → Message → Type 0
  IsVetted c m =
      ((m.tool_calls && body.has_tools && any (capability_eq Capability.tools) c.capabilities)
        ≡ true)
      ⊎ IsAccepted A Json checks query.classification.task_type (is_specialized c.quality_tier)
          (free_text_or r (format_for r c)) 32000 query.policy.min_slm_confidence m.content

  -- The text that may take the place of a message: none for a tool call, else the message's own text if
  -- the model is not specialized, or the answer of its support contract.
  abbrev pub IsText : Bool → Message → Option String → Type 0
  IsText specialized m answer =
      (answer ≡ none)
      ⊎ (((specialized ≡ false) × (answer ≡ some m.content))
          ⊎ ((k : Contract A Json) × (contract_of A Json checks (checks.loads m.content) ≡ some k)
              × (answer ≡ some k.answer)))

  -- Where a completion comes from: the provider of an endpoint, with a message that is vetted, and the
  -- text that takes the message's place.
  pub record Origin (c : EndpointCandidate A) (completion : Completion) (answer : Option String)
      : Type 0 where
    pub number : ℕ
    pub raw : Completion
    pub message : Message
    pub is_answer : r.providers.chat number c (format_for r c) ≡ ok raw
    pub is_completion : completion ≡ completions.set_model body.model raw
    pub is_message : or_else (completions.message completion) empty_message ≡ message
    pub vetted : IsVetted c message
    pub text : IsText (is_specialized c.quality_tier) message answer

  -- The calls that were made: of candidates that meet every hard constraint, and at most `n`.
  pub record IsCalled (n : ℕ) (l : Ledger A Vector Completion) : Type 0 where
    pub few : length l.calls ≤ n
    pub admitted : All IsServing l.calls

module _ {A : Arithmetic} {Json Vector Completion : Type 0} (r : Routed A Json Vector Completion)
    (cache : CacheStore A Vector (Stored A Completion)) where
  -- What a request that has no answer yet has written; `used` is whether a fallback serves it.
  pub record IsOpen (c : EndpointCandidate A) (used : Bool) (l : Ledger A Vector Completion)
      : Type 0 where
    pub routing : l.row.status ≡ RequestStatus.routing
    pub selected : l.row.selected_endpoint_id ≡ some c.id
    pub fallback_used : l.row.fallback_used ≡ used
    pub no_impacts : l.impacts ≡ []
    pub same_cache : l.cache ≡ cache

  -- A specialized endpoint's completion is returned with the text as its content, where there is one,
  -- and any other completion is returned as it is.
  abbrev IsReturned :
      EndpointCandidate A → Completion → Option String → Response Completion → Type 0
  IsReturned c x answer response =
      (((is_specialized c.quality_tier ≡ false) ⊎ (answer ≡ none))
        × (response.completion ≡ debugged r response.fallback_used x))
      ⊎ ((text : String) × (answer ≡ some text)
          × (is_specialized c.quality_tier ≡ true)
          × (response.completion
              ≡ debugged r response.fallback_used (r.completions.set_content text x)))

  with_answer-cases :
      (c : EndpointCandidate A) (x : Completion) (answer : Option String)
      → (((is_specialized c.quality_tier ≡ false) ⊎ (answer ≡ none))
          × (with_answer r c answer x ≡ x))
        ⊎ ((text : String) × (answer ≡ some text)
            × (is_specialized c.quality_tier ≡ true)
            × (with_answer r c answer x ≡ r.completions.set_content text x))
  unfolding with_answer
  with_answer-cases c x none = inl (inr refl, refl)
  with_answer-cases c x (some text) = elim (Bool-cases (is_specialized c.quality_tier)) [
    | inl t ↦ inr (text, refl, t, rw t refl)
    | inr f ↦ inl (inl f, rw f refl)
  ]

  IsReturned-with_answer :
      (c : EndpointCandidate A) (x : Completion) (answer : Option String) (used : Bool) (id : Uuid)
      → IsReturned c x answer (record {
        completion = debugged r used (with_answer r c answer x);
        endpoint_id = id;
        fallback_used = used;
      })
  IsReturned-with_answer c x answer used id = elim (with_answer-cases c x answer) [
    | inl (h, e) ↦ inl (h, ap (debugged r used) e)
    | inr (text, is, t, e) ↦ inr (text, is, t, ap (debugged r used) e)
  ]

  -- The answer is that of the endpoint of the row, vetted, with its text or that of its support
  -- contract, and the row is completed with one impact.
  -- Only an answer to a request that is eligible for the exact cache is stored.
  pub record IsDelivered (response : Response Completion) (l : Ledger A Vector Completion)
      : Type 0 where
    pub endpoint : EndpointCandidate A
    pub completion : Completion
    pub answer : Option String
    pub source : Origin r endpoint completion answer
    pub named : endpoint.id ≡ response.endpoint_id
    pub returned : IsReturned endpoint completion answer response
    pub completed : l.row.status ≡ RequestStatus.completed
    pub selected : l.row.selected_endpoint_id ≡ some response.endpoint_id
    pub fallback_used : l.row.fallback_used ≡ response.fallback_used
    pub one_impact : length l.impacts ≡ 1
    pub private : (is_storable r ≡ true) ⊎ (l.cache ≡ cache)

  -- The row has failed with the code of the error, and nothing is accounted or stored.
  pub record IsRefused (e : GatewayError) (l : Ledger A Vector Completion) : Type 0 where
    pub failed : l.row.status ≡ RequestStatus.failed
    pub coded : l.row.error_code ≡ some e.code
    pub no_impacts : l.impacts ≡ []
    pub same_cache : l.cache ≡ cache

  abbrev pub IsEnd : Outcome Raised (Response Completion) → Ledger A Vector Completion → Type 0
  IsEnd (ok response) l = IsDelivered response l
  IsEnd (raise (Raised.error e)) l = IsRefused e l
  IsEnd (raise Raised.unhandled) l = (l.row.status ≡ RequestStatus.routing) × (l.cache ≡ cache)

  abbrev pub IsConcluded : Served A Vector Completion → Type 0
  IsConcluded v = IsCalled r 2 v.1 × IsEnd v.0 v.1

  store_passed-impacts :
      (c : EndpointCandidate A) (x : Completion) (v : Verdict A Json)
      (l : Ledger A Vector Completion)
      → ((store_passed r c x v l).impacts ≡ l.impacts)
        × ((store_passed r c x v l).row ≡ l.row)
        × ((store_passed r c x v l).calls ≡ l.calls)
        × ((is_storable r ≡ true) ⊎ ((store_passed r c x v l).cache ≡ l.cache))
  unfolding store_passed keep
  store_passed-impacts c x v l = elim (Bool-cases (is_storable r)) [
    | inl t ↦ (ground arith, ground arith, ground arith, inl t)
    | inr f ↦ (ground arith, ground arith, ground arith, inr (ground arith))
  ]

  settle-IsConcluded :
      (c : EndpointCandidate A) (x : Completion) (v : Verdict A Json) (used : Bool)
      (l : Ledger A Vector Completion)
      → IsCalled r 2 l
      → IsOpen c used l
      → Origin r c x v.answer
      → IsConcluded (settle r c x v used l)
  unfolding settle
  settle-IsConcluded c x v used l k o s =
      let (p, q, t, g) =
        store_passed-impacts c (with_answer r c v.answer x) v
          (complete_row r c (with_answer r c v.answer x) l) in
      (
        record { few = rw t k.few; admitted = rw t k.admitted },
        record {
          endpoint = c;
          completion = x;
          answer = v.answer;
          source = s;
          named = refl;
          returned = IsReturned-with_answer c x v.answer used c.id;
          completed = rw q refl;
          selected = rw q o.selected;
          fallback_used = rw q o.fallback_used;
          one_impact = rw (p, o.no_impacts) refl;
          private =
              subst
                (λ (z : CacheStore A Vector (Stored A Completion)).
                  (is_storable r ≡ true)
                  ⊎ ((store_passed r c (with_answer r c v.answer x) v
                        (complete_row r c (with_answer r c v.answer x) l)).cache
                      ≡ z))
                o.same_cache g;
        },
      )

  -- a request that is given up after it was open
  pub refused :
      (e : GatewayError) (c : EndpointCandidate A) (used : Bool) (l : Ledger A Vector Completion)
      → IsCalled r 2 l
      → IsOpen c used l
      → IsConcluded (raise (Raised.error e), fail_row e.code l)
  refused e c used l k o = (
    record { few = k.few; admitted = k.admitted },
    record { failed = refl; coded = refl; no_impacts = o.no_impacts; same_cache = o.same_cache },
  )

  pub finish-IsConcluded :
      (c : EndpointCandidate A) (x : Completion) (v : Verdict A Json) (used : Bool)
      (l : Ledger A Vector Completion)
      → IsCalled r 2 l
      → IsOpen c used l
      → (v.passed ≡ true → Origin r c x v.answer)
      → IsConcluded (finish r c x v used l)
  unfolding finish
  finish-IsConcluded c x v used l k o s =
      if-holds IsConcluded (not v.passed) _ _
        (λ f. (
          record { few = k.few; admitted = k.admitted },
          record {
            failed = refl;
            coded = refl;
            no_impacts = o.no_impacts;
            same_cache = o.same_cache;
          },
        ))
        (λ t. settle-IsConcluded c x v used l k o (s (ground arith)))
