-- ===== src/Routing/Selection.antt =====
-- engine.py, `select_candidate` as a whole.
use ecoroute_ht.Base.{
  Bool, ◌==◌, not, ◌&&◌, List, [], ◌∷◌, map, none, some, filter, find?, if◌then◌else◌, min_by,
  Outcome, ok, raise,
}
use ecoroute_ht.Numbers.{Arithmetic, f_of}
use ecoroute_ht.Schemas.{is_high}
use ecoroute_ht.Routing.Candidate.{
  EndpointCandidate, GridState, is_dirty, grid_state, routing_grid_intensity,
}
use ecoroute_ht.Routing.Exclusion.{Query, Entry, assess}
use ecoroute_ht.Routing.Ranking.{
  SelectionError, SelectionReason, Selection, is_eligible, is_specialized_entry, set_score,
  withhold_unknown_health, reserve_specialized, cheaper, weighted,
}

module _ (A : Arithmetic) where
  -- the exception raised where no candidate is eligible
  unfoldable pub fallback_error :
      Query A → List (EndpointCandidate A) → List (Entry A) → SelectionError
  fallback_error q candidates entries = elim (find? (λ c. c.id == q.fallback_id) candidates) [
    | none ↦ SelectionError.fallback_unavailable
    | some fallback ↦ elim (find? (λ e. e.snapshot.endpoint_id == fallback.id) entries) [
      | none ↦ SelectionError.stop_iteration
      | some e ↦ SelectionError.fallback_excluded e.snapshot.excluded_reason
    ]
  ]

  unfoldable pub local_grid : Query A → GridState
  unfolding grid_state routing_grid_intensity
  local_grid q =
      grid_state A (routing_grid_intensity A q.baseline) q.policy.clean_threshold_gco2_kwh
        q.policy.dirty_threshold_gco2_kwh

  unfoldable pub prefer_specialized : List (Entry A) → Entry A → List (Entry A) → Selection A
  prefer_specialized entries s ss =
      let best = min_by (cheaper A) s ss in
      record {
        selected = best.candidate;
        entries =
            map (λ e. if e.candidate.id == best.candidate.id then set_score A (f_of A 0) e else e)
              entries;
        reason = SelectionReason.dirty_grid_specialized_preference;
      }

  -- `if specialized:` on the specialized eligible entries, where the eligible ones are `e ∷ es`
  unfoldable pub specialized_or :
      Query A
      → List (Entry A)
      → Entry A
      → List (Entry A)
      → List (Entry A)
      → Outcome SelectionError (Selection A)
  specialized_or q entries e es [] = weighted A q entries e es
  specialized_or q entries e es (s ∷ ss) = ok (prefer_specialized entries s ss)

  -- `if general_candidates:` on the others
  unfoldable pub general_or :
      Query A
      → List (Entry A)
      → Entry A
      → List (Entry A)
      → List (Entry A)
      → Outcome SelectionError (Selection A)
  general_or q entries e es [] = weighted A q entries e es
  general_or q entries e es (g ∷ gs) = weighted A q (reserve_specialized A entries) g gs

  abbrev pub is_general : Entry A → Bool
  is_general x = not (is_specialized_entry A x)

  -- local_grid == "dirty" and complexity in {"low", "medium"}
  abbrev pub wants_specialized : Query A → Bool
  wants_specialized q = is_dirty (local_grid q) && not (is_high q.classification.complexity)

  abbrev pub wants_general : Query A → Bool
  wants_general q = not (is_dirty (local_grid q)) && not (is_high q.classification.complexity)

  unfoldable pub choose :
      Query A → List (Entry A) → Entry A → List (Entry A) → Outcome SelectionError (Selection A)
  unfolding prefer_specialized local_grid specialized_or general_or
  choose q entries e es =
      if wants_specialized q
      then specialized_or q entries e es (filter (is_specialized_entry A) (e ∷ es))
      else if wants_general q
      then general_or q entries e es (filter is_general (e ∷ es))
      else weighted A q entries e es

  unfoldable pub select_from :
      Query A
      → List (EndpointCandidate A)
      → List (Entry A)
      → List (Entry A)
      → Outcome SelectionError (Selection A)
  unfolding choose fallback_error
  select_from q candidates entries [] = raise (fallback_error q candidates entries)
  select_from q candidates entries (e ∷ es) = choose q entries e es

  unfoldable pub select_candidate :
      Query A → List (EndpointCandidate A) → Outcome SelectionError (Selection A)
  unfolding select_from
  select_candidate q candidates =
      let entries = withhold_unknown_health A (assess A q candidates) in
      select_from q candidates entries (filter (is_eligible A) entries)
