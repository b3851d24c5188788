-- ===== src/Worker/Training.antt =====
-- worker/ecoroute_worker/freesolo/state.py: the transitions of a training run.
use ecoroute_ht.Base.{
  ℕ, ◌+◌, ◌≤◌, ◌<◌, ◌≡◌, ◌≢◌, inl, inr, String, Bool, true, List, [], ◌∷◌, any, length, ◌==◌, arith,
  Outcome, ok, raise, if◌then◌else◌, Bool-cases, ◌>>=◌, >>=-eq-ok, ok-injective, subst, sym,
}
use ecoroute_ht.Worker.Jobs.{RunStatus}

abbrev status_number : RunStatus → ℕ
status_number RunStatus.draft = 0
status_number RunStatus.generating = 1
status_number RunStatus.review_required = 2
status_number RunStatus.approved = 3
status_number RunStatus.validating = 4
status_number RunStatus.queued = 5
status_number RunStatus.training = 6
status_number RunStatus.evaluating = 7
status_number RunStatus.completed = 8
status_number RunStatus.deploying = 9
status_number RunStatus.deployed = 10
status_number RunStatus.cancelling = 11
status_number RunStatus.cancelled = 12
status_number RunStatus.failed = 13
status_number RunStatus.exported = 14

abbrev status_eq : RunStatus → RunStatus → Bool
status_eq a b = status_number a == status_number b

-- TRANSITIONS
unfoldable pub transitions : RunStatus → List RunStatus
transitions RunStatus.draft = RunStatus.generating ∷ RunStatus.approved ∷ RunStatus.failed ∷ []
transitions RunStatus.generating = RunStatus.review_required ∷ RunStatus.failed ∷ []
transitions RunStatus.review_required = RunStatus.approved ∷ RunStatus.failed ∷ []
transitions RunStatus.approved = RunStatus.validating ∷ RunStatus.failed ∷ []
transitions RunStatus.validating = RunStatus.queued ∷ RunStatus.failed ∷ []
transitions RunStatus.queued = RunStatus.training ∷ RunStatus.failed ∷ []
transitions RunStatus.training = RunStatus.evaluating ∷ RunStatus.cancelling ∷ RunStatus.failed ∷ []
transitions RunStatus.evaluating = RunStatus.completed ∷ RunStatus.failed ∷ []
transitions RunStatus.completed = RunStatus.deploying ∷ RunStatus.exported ∷ []
transitions RunStatus.deploying = RunStatus.deployed ∷ RunStatus.failed ∷ []
transitions RunStatus.deployed = RunStatus.exported ∷ []
transitions RunStatus.cancelling = RunStatus.cancelled ∷ RunStatus.failed ∷ []
transitions RunStatus.cancelled = []
transitions RunStatus.failed = []
transitions RunStatus.exported = []

unfoldable pub is_allowed : RunStatus → RunStatus → Bool
unfolding transitions
is_allowed current target = any (λ s. status_eq s target) (transitions current)

-- where the transition is not allowed, a ValueError
unfoldable pub validate_transition : RunStatus → RunStatus → Outcome String RunStatus
unfolding is_allowed
validate_transition current target =
    if is_allowed current target then ok target else raise "invalid training state transition"

-- The transitions that a run may still make at most.
abbrev steps_left : RunStatus → ℕ
steps_left RunStatus.draft = 11
steps_left RunStatus.generating = 10
steps_left RunStatus.review_required = 9
steps_left RunStatus.approved = 8
steps_left RunStatus.validating = 7
steps_left RunStatus.queued = 6
steps_left RunStatus.training = 5
steps_left RunStatus.evaluating = 4
steps_left RunStatus.completed = 3
steps_left RunStatus.deploying = 2
steps_left RunStatus.deployed = 1
steps_left RunStatus.cancelling = 1
steps_left RunStatus.cancelled = 0
steps_left RunStatus.failed = 0
steps_left RunStatus.exported = 0

is_allowed-lt : (a b : RunStatus) → is_allowed a b ≡ true → steps_left b < steps_left a
unfolding is_allowed transitions any
is_allowed-lt a b h = ground arith

steps_left_bounded : (a : RunStatus) → steps_left a ≤ 11
steps_left_bounded a = ground arith

raise_ne_ok :
    (s : RunStatus)
    → ◌≢◌ {A = Outcome String RunStatus} (raise "invalid training state transition") (ok s)
raise_ne_ok s h = cc

-- one transition after another
unfoldable pub follow : RunStatus → List RunStatus → Outcome String RunStatus
unfolding validate_transition
follow a [] = ok a
follow a (b ∷ bs) = validate_transition a b >>= (λ s. follow s bs)

validate_transition-is_allowed :
    (a b s : RunStatus) → validate_transition a b ≡ ok s → (is_allowed a b ≡ true) × (s ≡ b)
unfolding validate_transition
validate_transition-is_allowed a b s h = elim (Bool-cases (is_allowed a b)) [
  | inl t ↦ (t, sym (ok-injective (rw (t, validate_transition) at h)))
  | inr n ↦ absurd (raise_ne_ok s (rw (n, validate_transition) at h))
]

-- A life of a training run by its transitions has an end: from any status there are at most as many
-- transitions as `steps_left` says, eleven from a draft.
pub follow_bounded :
    (a c : RunStatus) (path : List RunStatus)
    → follow a path ≡ ok c
    → (length path + steps_left c ≤ steps_left a) × (length path ≤ 11)
unfolding follow
follow_bounded a c [] h = let same = ok-injective h in (rw same (omega arith), omega arith)
follow_bounded a c (b ∷ bs) h =
    let (s, valid, rest) = >>=-eq-ok (validate_transition a b) _ h in
    let (allowed, is_b) = validate_transition-is_allowed a b s valid in
    let (ih, _) = follow_bounded b c bs (subst (λ x. follow x bs ≡ ok c) is_b rest) in
    let step = is_allowed-lt a b allowed in
    let top = steps_left_bounded a in (omega arith, omega arith)
