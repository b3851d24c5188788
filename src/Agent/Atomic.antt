-- ===== src/Agent/Atomic.antt =====
-- transaction.py: `apply` and `restore` as wholes, on controls that are isolated from each other.
use ecoroute_ht.Base.{
  ◌≡◌, refl, sym, subst, ◌⊎◌, inl, inr, String, true, false, List, [], ◌∷◌, ◌++◌, Option, none,
  some, Outcome, ok, Member, Option-cases, Member-append_right, Member-append_left, Member-append,
}
use ecoroute_ht.Agent.Transaction.{
  Action, HostControl, Event, Snapshots, System, Progress, TransactionResult, Values,
  take_snapshots, forward, undo, finish, apply, reversed, kept_or,
}
use ecoroute_ht.Agent.Rollback.{
  IsIsolated, Holds, IsTracking, undo-IsBack, forward-IsTracking, take_snapshots-Holds,
}

pub Member-reversed : {X : Type 0} (x : X) (xs : List X) → Member x xs → Member x (reversed xs)
unfolding reversed
Member-reversed x (y ∷ ys) (inl e) = Member-append_right x (reversed ys) (y ∷ []) (inl e)
Member-reversed x (y ∷ ys) (inr m) =
    Member-append_left x (reversed ys) (y ∷ []) (Member-reversed x ys m)
Member-reversed x [] m = absurd m

pub reversed-Member : {X : Type 0} (x : X) (xs : List X) → Member x (reversed xs) → Member x xs
unfolding reversed
reversed-Member x [] m = absurd m
reversed-Member x (y ∷ ys) m = elim (Member-append x (reversed ys) (y ∷ []) m) [
  | inl k ↦ inr (reversed-Member x ys k)
  | inr k ↦ elim k [ inl e ↦ inl e | inr a ↦ absurd a ]
]

module _ (Host Desired Value : Type 0) (values : Values Value)
    (controls : List (HostControl Host Desired Value)) where
  abbrev Control : Type 0
  Control = HostControl Host Desired Value

  abbrev pub AllHeld : Host → Snapshots Host Desired Value → Type 0
  AllHeld first taken =
      (c : Control) → Member c controls → Holds Host Desired Value values controls first taken c

  pub taken-AllHeld :
      (i : IsIsolated Host Desired Value values controls) (h : Host)
      (taken : Snapshots Host Desired Value)
      → take_snapshots Host Desired Value controls h [] ≡ ok taken
      → AllHeld h taken
  taken-AllHeld i h taken e c mc =
      take_snapshots-Holds Host Desired Value values controls i h controls [] taken (λ x m. m) e c
        mc (inr mc)

  -- every control shows on the second host what it shows on the first
  abbrev pub SameShown : Host → Host → Type 0
  SameShown first h = (c : Control) → Member c controls → c.snapshot h ≡ c.snapshot first

  -- The answer of a transaction: it passed, or every control shows what it showed before.
  abbrev pub IsAtomic :
      System Host Desired Value
      → Outcome String (TransactionResult Host Desired Value) × System Host Desired Value
      → Type 0
  IsAtomic s a =
      (r : TransactionResult Host Desired Value) × ((a.0 ≡ ok r)
        × ((r.passed ≡ true) ⊎ SameShown s.host a.1.host))

  finish-failed :
      (taken : Snapshots Host Desired Value) (file : Option (Snapshots Host Desired Value))
      (p : Progress Host Desired Value) (e : String) (events : List (Event Host Desired Value))
      → p.raised ≡ some e
      → (undo Host Desired Value values taken p.tracked p.host).0 ≡ ok events
      → finish Host Desired Value values taken file p ≡ (
        ok (record {
          passed = false;
          events =
              p.events
              ++ events
              ++ record { control = "transaction"; action = Action.failed; result = values.error e }
                ∷ [];
        }),
        record { host = (undo Host Desired Value values taken p.tracked p.host).1; file = file },
      )
  unfolding finish
  finish-failed taken file p e events q undone = rw (q, finish) (rw undone refl)

  finish-passed :
      (taken : Snapshots Host Desired Value) (file : Option (Snapshots Host Desired Value))
      (p : Progress Host Desired Value)
      → p.raised ≡ none
      → finish Host Desired Value values taken file p
        ≡ (ok (record { passed = true; events = p.events }), record { host = p.host; file = file })
  unfolding finish
  finish-passed taken file p q = rw (q, finish) refl

  finish-IsAtomic :
      (i : IsIsolated Host Desired Value values controls) (s : System Host Desired Value)
      (taken : Snapshots Host Desired Value) (file : Option (Snapshots Host Desired Value))
      (p : Progress Host Desired Value)
      → AllHeld s.host taken
      → IsTracking Host Desired Value values controls s.host p
      → IsAtomic s (finish Host Desired Value values taken file p)
  finish-IsAtomic i s taken file p held (known, tracked) = elim (Option-cases p.raised) [
    | inl q ↦ subst (IsAtomic s) (sym (finish-passed taken file p q)) (_, (refl, inl refl))
    | inr (e, q) ↦
        let ((events, undone), back) =
          undo-IsBack Host Desired Value values controls i s.host p.host taken p.tracked held known
            tracked in
        subst (IsAtomic s) (sym (finish-failed taken file p e events q undone))
          (_, (refl, inr back))
  ]

  pub apply-taken :
      (s : System Host Desired Value) (desired : Desired) (taken : Snapshots Host Desired Value)
      → take_snapshots Host Desired Value controls s.host [] ≡ ok taken
      → apply Host Desired Value values controls desired s
        ≡ finish Host Desired Value values taken
            (some (kept_or Host Desired Value values s.file taken))
            (forward Host Desired Value values desired controls
              (record { raised = none; tracked = []; events = []; host = s.host }))
  unfolding apply
  apply-taken s desired taken e = rw (e, apply) refl

  -- On isolated controls, a transaction whose snapshots can be taken answers, and either it passed or every control shows
  -- what it showed before, whatever its controls raised and whatever of the host they had changed.
  pub apply-IsAtomic :
      (i : IsIsolated Host Desired Value values controls) (s : System Host Desired Value)
      (desired : Desired) (taken : Snapshots Host Desired Value)
      → take_snapshots Host Desired Value controls s.host [] ≡ ok taken
      → IsAtomic s (apply Host Desired Value values controls desired s)
  apply-IsAtomic i s desired taken e = subst (IsAtomic s) (sym (apply-taken s desired taken e)) (
      finish-IsAtomic i s taken _ _ (taken-AllHeld i s.host taken e) (
        forward-IsTracking Host Desired Value values controls i s.host desired controls (λ c m. m)))
