-- ===== src/Agent/Restoration.antt =====
-- transaction.py: `restore` after any number of transactions.
use ecoroute_ht.Base.{
  ◌≡◌, refl, sym, subst, ap, ◌∙◌, inl, inr, true, ◌&&◌, List, [], ◌∷◌, Option, filter, any, none,
  some, str_eq, eq_iff, Outcome-cases, >>=-eq-ok, ok, Member, ok-injective, Option-cases, any-true,
}
use ecoroute_ht.Agent.Transaction.{
  Action, HostControl, Snapshots, lookup, System, Progress, Values, take_snapshots, finish, apply,
  restore_one, restore_all, restore, reversed, missing, kept_or,
}
use ecoroute_ht.Agent.Rollback.{IsIsolated, Tracked, Tracked-rollback}
use ecoroute_ht.Agent.Atomic.{
  AllHeld, SameShown, taken-AllHeld, apply-taken, Member-reversed, reversed-Member,
}

module _ (Host Desired Value : Type 0) (values : Values Value)
    (controls : List (HostControl Host Desired Value)) where
  abbrev Control : Type 0
  Control = HostControl Host Desired Value

  abbrev Taken : Type 0
  Taken = Snapshots Host Desired Value

  finish-file :
      (taken : Taken) (file : Option Taken) (p : Progress Host Desired Value)
      → (finish Host Desired Value values taken file p).1.file ≡ file
  unfolding finish
  finish-file taken file p = elim (Option-cases p.raised) [
    | inl q ↦ rw (q, finish) refl
    | inr (e, q) ↦ rw (q, finish) refl
  ]

  apply-file :
      (s : System Host Desired Value) (desired : Desired) (taken : Taken)
      → take_snapshots Host Desired Value controls s.host [] ≡ ok taken
      → (apply Host Desired Value values controls desired s).1.file
        ≡ some (kept_or Host Desired Value values s.file taken)
  apply-file s desired taken e =
      rw (apply-taken Host Desired Value values controls s desired taken e)
        (finish-file taken (some (kept_or Host Desired Value values s.file taken)) _)

  -- The snapshots in the file stay those of the first transaction.
  apply-keeps_file :
      (s : System Host Desired Value) (desired : Desired) (first : Taken)
      → s.file ≡ some first
      → (apply Host Desired Value values controls desired s).1.file ≡ some first
  unfolding apply
  apply-keeps_file s desired first q =
      elim (Outcome-cases (take_snapshots Host Desired Value controls s.host [])) [
        | inl (taken, e) ↦
            apply-file s desired taken e
            ∙ ap (λ f. some (kept_or Host Desired Value values f taken)) q
        | inr (x, e) ↦ rw (e, apply) q
      ]

  -- one transaction after another
  unfoldable pub apply_each : List Desired → System Host Desired Value → System Host Desired Value
  unfolding apply
  apply_each [] s = s
  apply_each (d ∷ ds) s = apply_each ds (apply Host Desired Value values controls d s).1

  apply_each-keeps_file :
      (ds : List Desired) (s : System Host Desired Value) (first : Taken)
      → s.file ≡ some first
      → (apply_each ds s).file ≡ some first
  unfolding apply_each
  apply_each-keeps_file [] s first q = q
  apply_each-keeps_file (d ∷ ds) s first q =
      apply_each-keeps_file ds _ first (apply-keeps_file s d first q)

  -- Every name in the snapshots is that of a control.
  missing-put :
      (d : Control) (v : Value) (taken : Taken)
      → Member d controls
      → missing Host Desired Value values taken controls ≡ []
      → missing Host Desired Value values ((d.name, v) ∷ taken) controls ≡ []
  unfolding missing filter
  missing-put d v taken md q =
      let known : any (λ c. str_eq c.name d.name) controls ≡ true =
        any-true (λ (c : Control). str_eq c.name d.name) d controls md
          ((eq_iff d.name d.name).1 refl) in
      rw known q

  take_snapshots-missing :
      (h : Host) (cs : List Control) (taken all : Taken)
      → ((c : Control) → Member c cs → Member c controls)
      → missing Host Desired Value values taken controls ≡ []
      → take_snapshots Host Desired Value cs h taken ≡ ok all
      → missing Host Desired Value values all controls ≡ []
  unfolding take_snapshots
  take_snapshots-missing h [] taken all sub q e =
      subst (λ t. missing Host Desired Value values t controls ≡ []) (ok-injective e) q
  take_snapshots-missing h (d ∷ cs) taken all sub q e =
      let (v, shown, rest) = >>=-eq-ok (d.snapshot h) _ e in
      take_snapshots-missing h cs ((d.name, v) ∷ taken) all (λ x m. sub x (inr m))
        (missing-put d v taken (sub d (inl refl)) q) rest

  restore_one-ok :
      (taken : Taken) (d : Control) (h : Host) (v r : Value)
      → lookup Host Desired Value d.name taken ≡ some v
      → (d.rollback v h).0 ≡ ok r
      → restore_one Host Desired Value values taken d h ≡ (
        (true, record { control = d.name; action = Action.rolled_back; result = r }),
        (d.rollback v h).1,
      )
  unfolding restore_one
  restore_one-ok taken d h v r found q = rw (found, restore_one) (rw q refl)

  restore_all-back :
      (i : IsIsolated Host Desired Value values controls) (first h : Host) (taken : Taken)
      (cs : List Control)
      → AllHeld Host Desired Value values controls first taken
      → ((c : Control) → Member c cs → Member c controls)
      → Tracked Host Desired Value values controls first h cs
      → ((restore_all Host Desired Value values taken cs h).0.passed ≡ true)
        × SameShown Host Desired Value values controls first
            (restore_all Host Desired Value values taken cs h).1
  unfolding restore_all
  restore_all-back i first h taken [] held sub t =
      (refl, λ c mc. elim (t c mc) [ inl m ↦ absurd m | inr same ↦ same ])
  restore_all-back i first h taken (d ∷ ds) held sub t =
      let md = sub d (inl refl) in
      let (v, (found, shown)) = held d md in
      let ((r, q), back) = i.rollback_back d md v h in
      let t' = Tracked-rollback Host Desired Value values controls i first h ds d v md shown t in
      let rest =
        restore_all-back i first (d.rollback v h).1 taken ds held (λ x m. sub x (inr m)) t' in
      let one = restore_one-ok taken d h v r found q in
      subst
        (λ o.
          ((o.0.0 && (restore_all Host Desired Value values taken ds o.1).0.passed) ≡ true)
          × SameShown Host Desired Value values controls first
              (restore_all Host Desired Value values taken ds o.1).1)
        (sym one) rest

  -- What `restore` leaves of a restoration that passed.
  restore-passed :
      (s : System Host Desired Value) (taken : Taken)
      → s.file ≡ some taken
      → missing Host Desired Value values taken controls ≡ []
      → (restore_all Host Desired Value values taken (reversed controls) s.host).0.passed ≡ true
      → ((restore Host Desired Value values controls s).0.passed ≡ true)
        × ((restore Host Desired Value values controls s).1.file ≡ none)
        × ((restore Host Desired Value values controls s).1.host
            ≡ (restore_all Host Desired Value values taken (reversed controls) s.host).1)
  unfolding restore
  restore-passed s taken q known passed = rw (q, restore) (rw known (rw passed (refl, refl, refl)))

  -- On isolated controls: after any number of transactions, passed or failed, the first of which found no snapshot file, a
  -- restoration passes, removes the file, and every control shows what it showed before the first.
  pub restore-first :
      (i : IsIsolated Host Desired Value values controls) (s : System Host Desired Value)
      (taken : Taken) (desired : Desired) (others : List Desired)
      → s.file ≡ none
      → take_snapshots Host Desired Value controls s.host [] ≡ ok taken
      → ((restore Host Desired Value values controls (apply_each (desired ∷ others) s)).0.passed
          ≡ true)
        × ((restore Host Desired Value values controls (apply_each (desired ∷ others) s)).1.file
            ≡ none)
        × SameShown Host Desired Value values controls s.host
            (restore Host Desired Value values controls (apply_each (desired ∷ others) s)).1.host
  unfolding apply_each missing filter
  restore-first i s taken desired others fresh e =
      let s₁ = (apply Host Desired Value values controls desired s).1 in
      let s₂ = apply_each others s₁ in
      let written : s₁.file ≡ some taken =
        apply-file s desired taken e
        ∙ ap (λ f. some (kept_or Host Desired Value values f taken)) fresh in
      let kept = apply_each-keeps_file others s₁ taken written in
      let known = take_snapshots-missing s.host controls [] taken (λ c m. m) refl e in
      let (passed, back) =
        restore_all-back i s.host s₂.host taken (reversed controls)
          (taken-AllHeld Host Desired Value values controls i s.host taken e)
          (λ c m. reversed-Member c controls m) (λ c mc. inl (Member-reversed c controls mc)) in
      let (ok', gone, same) = restore-passed s₂ taken kept known passed in
      (ok', gone, λ c mc. ap (λ h. c.snapshot h) same ∙ back c mc)
