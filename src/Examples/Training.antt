-- ===== src/Examples/Training.antt =====
-- state.py on the whole life of a run.
use ecoroute_ht.Base.{◌+◌, ◌≤◌, refl, List, [], ◌∷◌, any}
use ecoroute_ht.Worker.Jobs.{RunStatus}
use ecoroute_ht.Worker.Training.{
  transitions, is_allowed, validate_transition, follow, follow_bounded,
}

abbrev life : List RunStatus
life =
    RunStatus.generating ∷ RunStatus.review_required ∷ RunStatus.approved ∷ RunStatus.validating
    ∷ RunStatus.queued ∷ RunStatus.training ∷ RunStatus.evaluating ∷ RunStatus.completed
    ∷ RunStatus.deploying ∷ RunStatus.deployed ∷ RunStatus.exported ∷ []

follow_bounded_example : (11 + 0 ≤ 11) × (11 ≤ 11)
unfolding follow validate_transition is_allowed transitions any
follow_bounded_example = follow_bounded RunStatus.draft RunStatus.exported life refl
