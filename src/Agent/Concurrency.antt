-- ===== src/Agent/Concurrency.antt =====
-- host.py: `GatewayConcurrencyControl` meets what a transaction asks of its controls.
use ecoroute_ht.Base.{
  ◌≡◌, refl, sym, ap, ◌∙◌, subst, inl, inr, ℕ, String, Bool, false, [], ◌∷◌, Member, ok,
}
use ecoroute_ht.Agent.Transaction.{HostControl, Values}
use ecoroute_ht.Agent.Rollback.{IsIsolated}
use ecoroute_ht.Agent.Limits.{Scaling, Setting, gateway_concurrency}

abbrev passed_setting : Setting → Bool
passed_setting (Setting.verification b) = b
passed_setting _ = false

-- The JSON texts of a transaction, of which none is read.
abbrev pub setting_values : Values Setting
setting_values = record {
  passed = passed_setting;
  error = λ text. Setting.numbers [];
  not_restored = λ text. Setting.verification false;
  unavailable = λ names. Setting.verification false;
  verification_failed = λ name. "verification failed for gateway_concurrency";
  key_error = λ name. name;
}

module _ (S : Scaling) (baseline : ℕ) where
  abbrev IsOnly : HostControl Setting String Setting → Type 0
  IsOnly c = c ≡ gateway_concurrency S baseline

  only :
      (c : HostControl Setting String Setting)
      → Member c (gateway_concurrency S baseline ∷ [])
      → IsOnly c
  only c (inl e) = e
  only c (inr m) = absurd m

  abbrev Restores : Setting → Setting → HostControl Setting String Setting → Type 0
  Restores v h c =
      ((r : Setting) × ((c.rollback v h).0 ≡ ok r)) × (c.snapshot (c.rollback v h).1 ≡ ok v)

  -- The control of the gateway's concurrency is isolated: a rollback to a target succeeds and brings it
  -- back.
  pub gateway_concurrency-IsIsolated :
      IsIsolated Setting String Setting setting_values (gateway_concurrency S baseline ∷ [])
  gateway_concurrency-IsIsolated = record {
    named = λ c d mc md e. only c mc ∙ sym (only d md);
    apply_alone =
        λ c d mc md ne plan h. absurd (ne (ap (λ x. x.name) (only c mc ∙ sym (only d md))));
    rollback_alone =
        λ c d mc md ne v h. absurd (ne (ap (λ x. x.name) (only c mc ∙ sym (only d md))));
    rollback_back =
        λ c mc v h. subst (Restores v h) (sym (only c mc)) ((Setting.restored v, refl), refl);
  }
