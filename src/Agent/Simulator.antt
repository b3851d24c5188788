-- ===== src/Agent/Simulator.antt =====
-- transaction.py, `SimulatorProfileControl`: its host is the attribute `active`.
use ecoroute_ht.Base.{
  ◌≡◌, refl, sym, subst, ap, ◌∙◌, inl, inr, String, Bool, false, List, [], ◌∷◌, Outcome, ok, raise,
  Member, str_eq, if◌then◌else◌,
}
use ecoroute_ht.Schemas.{str_in}
use ecoroute_ht.Agent.Transaction.{HostControl, Values}
use ecoroute_ht.Agent.Rollback.{IsIsolated}

-- The JSON values that the control answers with, and those that a transaction adds.
pub data Value : Type 0 where
  profile : String → Value
  applied_profile : String → Value
  verification : Bool → Value
  restored : Value → Value
  error : String → Value
  unavailable : List String → Value

abbrev pub is_profile : Value → String → Bool
is_profile (Value.profile s) t = str_eq s t
is_profile _ t = false

-- profile in {"off", "observe", "balanced", "eco"}
abbrev pub is_valid : String → Bool
is_valid s = str_in s ("off" ∷ "observe" ∷ "balanced" ∷ "eco" ∷ [])

abbrev pub plan_profile : String → Value → Outcome String Value
plan_profile desired active =
    if is_valid desired then ok (Value.profile desired) else raise "invalid profile"

abbrev pub apply_profile : Value → Value → Outcome String Value × Value
apply_profile (Value.profile s) active = (ok (Value.applied_profile s), Value.profile s)
apply_profile v active = (ok v, v)

abbrev pub verify_profile : Value → Value → Outcome String Value
verify_profile (Value.profile s) active = ok (Value.verification (is_profile active s))
verify_profile v active = ok (Value.verification false)

abbrev pub simulator : HostControl Value String Value
simulator = record {
  name = "simulator_profile";
  snapshot = λ active. ok active;
  plan = plan_profile;
  apply = apply_profile;
  verify = verify_profile;
  rollback = λ snapshot active. (ok (Value.restored snapshot), snapshot);
}

abbrev passed_value : Value → Bool
passed_value (Value.verification b) = b
passed_value _ = false

abbrev pub values : Values Value
values = record {
  passed = passed_value;
  error = Value.error;
  not_restored = Value.error;
  unavailable = Value.unavailable;
  verification_failed = λ name. "verification failed for simulator_profile";
  key_error = λ name. name;
}

only : (c : HostControl Value String Value) → Member c (simulator ∷ []) → c ≡ simulator
only c (inl e) = e
only c (inr m) = absurd m

abbrev Restores : Value → Value → HostControl Value String Value → Type 0
Restores v h c =
    ((r : Value) × ((c.rollback v h).0 ≡ ok r)) × (c.snapshot (c.rollback v h).1 ≡ ok v)

-- The simulator alone meets what a transaction asks of its controls.
pub simulator-IsIsolated : IsIsolated Value String Value values (simulator ∷ [])
simulator-IsIsolated = record {
  named = λ c d mc md e. only c mc ∙ sym (only d md);
  apply_alone = λ c d mc md ne plan h. absurd (ne (ap (λ x. x.name) (only c mc ∙ sym (only d md))));
  rollback_alone = λ c d mc md ne v h. absurd (ne (ap (λ x. x.name) (only c mc ∙ sym (only d md))));
  rollback_back =
      λ c mc v h. subst (Restores v h) (sym (only c mc)) ((Value.restored v, refl), refl);
}
