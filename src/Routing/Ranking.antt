-- ===== src/Routing/Ranking.antt =====
-- engine.py, `_normalized` and the stages of `select_candidate` below its loop. The source shares
-- each snapshot between `snapshots` and `eligible` and keeps `eligible` as the entries whose snapshot
-- has no excluded reason; the model keeps one list of entries and computes `eligible` from it.
use ecoroute_ht.Base.{
  ◌==◌, Bool, true, false, not, ◌&&◌, ◌||◌, List, [], ◌∷◌, map, Option, none, some, is_none,
  or_else, any, filter, ltb, if◌then◌else◌, min_by, Outcome, ok, raise, ◌>>=◌,
}
use ecoroute_ht.Numbers.{Arithmetic, f_of, f_lt, d_lt, d_eq}
use ecoroute_ht.Schemas.{is_specialized}
use ecoroute_ht.Routing.Candidate.{EndpointCandidate, evidence_penalty, quality_penalty}
use ecoroute_ht.Routing.Exclusion.{ExclusionReason, Query, Entry, is_unknown_health}

-- The exceptions: the two messages of ValueError, and what `next` and indexing would raise.
pub data SelectionError : Type 0 where
  fallback_unavailable : SelectionError
  fallback_excluded : Option ExclusionReason → SelectionError
  stop_iteration index_error : SelectionError

pub data SelectionReason : Type 0 where
  dirty_grid_specialized_preference weighted_score : SelectionReason

module _ (A : Arithmetic) where
  open A use {Float, f_lit, f_add, f_sub, f_mul, f_div, f_le, float_of}

  pub record Selection : Type 0 where
    pub selected : EndpointCandidate A
    pub entries : List (Entry A)
    pub reason : SelectionReason

  abbrev pub is_eligible : Entry A → Bool
  is_eligible e = is_none e.snapshot.excluded_reason

  abbrev pub exclude : ExclusionReason → Entry A → Entry A
  exclude r e = record e { snapshot = record e.snapshot { excluded_reason = some r } }

  abbrev pub set_score : Float → Entry A → Entry A
  set_score s e = record e { snapshot = record e.snapshot { score = some s } }

  abbrev pub has_unknown_health : Entry A → Bool
  has_unknown_health e = is_unknown_health e.candidate.health_state

  -- unknown health is allowed only where no eligible candidate has known health
  unfoldable pub withhold_unknown_health : List (Entry A) → List (Entry A)
  withhold_unknown_health entries =
      if any (λ e. not (has_unknown_health e)) (filter is_eligible entries)
      then map
          (λ e.
            if is_eligible e && has_unknown_health e
            then exclude ExclusionReason.endpoint_health_unknown e
            else e)
          entries
      else entries

  abbrev pub is_specialized_entry : Entry A → Bool
  is_specialized_entry e = is_specialized e.candidate.quality_tier

  unfoldable pub reserve_specialized : List (Entry A) → List (Entry A)
  reserve_specialized = map λ e.
      if is_eligible e && is_specialized_entry e
      then exclude ExclusionReason.specialized_reserved_for_dirty_grid e
      else e

  -- key=(estimated_cost_usd, str(id))
  abbrev pub cheaper : Entry A → Entry A → Bool
  cheaper x y =
      d_lt A x.snapshot.estimated_cost_usd y.snapshot.estimated_cost_usd
      || d_eq A x.snapshot.estimated_cost_usd y.snapshot.estimated_cost_usd
        && ltb x.candidate.id y.candidate.id

  -- key=(estimated_cost_usd, latency_p95_ms, str(id))
  abbrev pub cheaper_or_faster : Entry A → Entry A → Bool
  cheaper_or_faster x y =
      d_lt A x.snapshot.estimated_cost_usd y.snapshot.estimated_cost_usd
      || d_eq A x.snapshot.estimated_cost_usd y.snapshot.estimated_cost_usd
        && (ltb x.snapshot.latency_p95_ms y.snapshot.latency_p95_ms
            || x.snapshot.latency_p95_ms == y.snapshot.latency_p95_ms
              && ltb x.candidate.id y.candidate.id)

  abbrev pub f_min : Float → Float → Float
  f_min a b = if f_lt A b a then b else a

  unfoldable pub minimum : Float → List Float → Float
  minimum x [] = x
  minimum x (y ∷ ys) = minimum (f_min x y) ys

  unfoldable pub maximum : Float → List Float → Float
  maximum x [] = x
  maximum x (y ∷ ys) = maximum (if f_lt A x y then y else x) ys

  -- `_normalized` of `x ∷ xs`: min() of no values would raise, and no caller passes none
  unfoldable pub normalized : Float → List Float → List Float
  unfolding minimum maximum
  normalized x xs =
      let low = minimum x xs in
      let high = maximum x xs in
      if f_lt A (f_sub high low) (f_lit 1 12)
      then map (λ _. f_lit 0 1) (x ∷ xs)
      else map (λ value. f_div (f_sub value low) (f_sub high low)) (x ∷ xs)

  unfoldable pub available_carbon_values : List (Entry A) → List Float
  available_carbon_values [] = []
  available_carbon_values (e ∷ es) =
      let rest = available_carbon_values es in
      elim e.snapshot.estimated_carbon_g [
        | some g ↦ if e.candidate.carbon_available then g ∷ rest else rest
        | none ↦ rest
      ]

  abbrev pub normalized_list : List Float → List Float
  normalized_list [] = []
  normalized_list (x ∷ xs) = normalized x xs

  -- the value of a candidate with no reading: 1.0 if normalized_available else 0.0
  abbrev pub unknown_reading : List Float → Float
  unknown_reading [] = f_lit 0 1
  unknown_reading (_ ∷ _) = f_lit 1 1

  -- the iterator `available_iter` is the list of what is left
  unfoldable pub carbons : Float → List Float → List (Entry A) → Outcome SelectionError (List Float)
  carbons worst iter [] = ok []
  carbons worst iter (e ∷ es) = elim e.candidate.carbon_available [
    | true ↦ elim iter [
      | [] ↦ raise SelectionError.stop_iteration
      | v ∷ vs ↦ (carbons worst vs es >>= λ rest. ok (v ∷ rest))
    ]
    | false ↦ (carbons worst iter es >>= λ rest. ok (worst ∷ rest))
  ]

  unfoldable pub scored :
      Query A → List Float → List Float → List Float → List (Entry A) → List (Entry A)
  scored q (carbon ∷ cs) (cost ∷ ds) (latency ∷ ls) (e ∷ es) =
      let w = q.policy.weights in
      set_score
        (f_add
          (f_add
            (f_add (f_add (f_mul w.carbon carbon) (f_mul w.cost cost)) (f_mul w.latency latency))
            (f_mul w.quality (quality_penalty A e.candidate.quality_tier)))
          (f_mul w.evidence (evidence_penalty A e.candidate)))
        e
      ∷ scored q cs ds ls es
  scored q _ _ _ _ = []

  -- the snapshots after the eligible ones have been scored
  unfoldable pub merge : List (Entry A) → List (Entry A) → List (Entry A)
  merge [] ss = []
  merge (x ∷ xs) [] = x ∷ xs
  merge (x ∷ xs) (s ∷ ss) = if is_eligible x then s ∷ merge xs ss else x ∷ merge xs (s ∷ ss)

  abbrev pub score_or_zero : Entry A → Float
  score_or_zero e = or_else e.snapshot.score (f_of A 0)

  unfoldable pub tied : List (Entry A) → List (Entry A)
  unfolding minimum
  tied [] = []
  tied (e ∷ es) =
      filter
        (λ x.
          f_le (f_sub (score_or_zero x) (minimum (score_or_zero e) (map score_or_zero es)))
            (f_add (f_lit 1 2) (f_lit 1 12)))
        (e ∷ es)

  unfoldable pub pick : List (Entry A) → List (Entry A) → Outcome SelectionError Selection
  pick entries [] = raise SelectionError.index_error
  pick entries (t ∷ ts) = ok (record {
    selected = (min_by cheaper_or_faster t ts).candidate;
    entries = entries;
    reason = SelectionReason.weighted_score;
  })

  -- the eligible entries are `e ∷ es`
  unfoldable pub weighted :
      Query A → List (Entry A) → Entry A → List (Entry A) → Outcome SelectionError Selection
  unfolding pick tied merge scored carbons normalized
  weighted q entries e es =
      let available = normalized_list (available_carbon_values (e ∷ es)) in
      carbons (unknown_reading available) available (e ∷ es) >>= λ cs.
      let costs =
        normalized (float_of e.snapshot.estimated_cost_usd)
          (map (λ x. float_of x.snapshot.estimated_cost_usd) es) in
      let latencies =
        normalized (f_of A e.snapshot.latency_p95_ms)
          (map (λ x. f_of A x.snapshot.latency_p95_ms) es) in
      let ranked = scored q cs costs latencies (e ∷ es) in pick (merge entries ranked) (tied ranked)
