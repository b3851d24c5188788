-- ===== src/Agent/Rollback.antt =====
-- transaction.py: what a failed transaction and a restoration leave on the host.
use ecoroute_ht.Base.{
  ◌≡◌, ◌≢◌, refl, sym, subst, ap, ◌∙◌, ◌⊎◌, inl, inr, String, List, [], ◌∷◌, Option, none, some,
  str_eq, eq_iff, Outcome, Outcome-cases, >>=-eq-ok, ok, ◌>>=◌, Bool-cases, Member, ok-injective,
  false≢true,
}
use ecoroute_ht.Agent.Transaction.{
  Action, HostControl, Event, Snapshots, lookup, Progress, Values, take_snapshots, forward, undo,
}

module _ (Host Desired Value : Type 0) (values : Values Value)
    (controls : List (HostControl Host Desired Value)) where
  abbrev pub Control : Type 0
  Control = HostControl Host Desired Value

  -- Each control changes only what its own snapshot shows, and a rollback to a snapshot succeeds and
  -- brings it back. A control is known by its name.
  pub record IsIsolated : Type 0 where
    pub named : (c d : Control) → Member c controls → Member d controls → c.name ≡ d.name → c ≡ d
    pub apply_alone :
        (c d : Control)
        → Member c controls
        → Member d controls
        → c.name ≢ d.name
        → (plan : Value) → (h : Host) → c.snapshot (d.apply plan h).1 ≡ c.snapshot h
    pub rollback_alone :
        (c d : Control)
        → Member c controls
        → Member d controls
        → c.name ≢ d.name
        → (v : Value) → (h : Host) → c.snapshot (d.rollback v h).1 ≡ c.snapshot h
    pub rollback_back :
        (c : Control)
        → Member c controls
        → (v : Value) → (h : Host)
        → ((r : Value) × ((c.rollback v h).0 ≡ ok r)) × (c.snapshot (c.rollback v h).1 ≡ ok v)

  -- The snapshots hold that of `c` on the host `h`.
  abbrev pub Holds : Host → Snapshots Host Desired Value → Control → Type 0
  Holds h taken c =
      (v : Value) × ((lookup Host Desired Value c.name taken ≡ some v) × (c.snapshot h ≡ ok v))

  -- The name of `c` is that of `d`, or not.
  name-cases : (c d : Control) → (c.name ≡ d.name) ⊎ (c.name ≢ d.name)
  name-cases c d = elim (Bool-cases (str_eq c.name d.name)) [
    | inl t ↦ inl ((eq_iff c.name d.name).0 t)
    | inr n ↦ inr (λ e. false≢true (sym n ∙ (eq_iff c.name d.name).1 e))
  ]

  Holds-put :
      (i : IsIsolated) (h : Host) (taken : Snapshots Host Desired Value) (c d : Control) (v : Value)
      → Member c controls
      → Member d controls
      → Holds h taken c
      → d.snapshot h ≡ ok v
      → Holds h ((d.name, v) ∷ taken) c
  unfolding lookup
  Holds-put i h taken c d v mc md (w, (found, shown)) e = elim (Bool-cases (str_eq d.name c.name)) [
    | inl t ↦
        let same = i.named d c md mc ((eq_iff d.name c.name).0 t) in
        (v, (rw t refl, subst (λ x. x.snapshot h ≡ ok v) same e))
    | inr n ↦ (w, (rw n found, shown))
  ]

  Holds-new :
      (i : IsIsolated) (h : Host) (taken : Snapshots Host Desired Value) (d : Control) (v : Value)
      → d.snapshot h ≡ ok v
      → Holds h ((d.name, v) ∷ taken) d
  unfolding lookup
  Holds-new i h taken d v e = let t = (eq_iff d.name d.name).1 refl in (v, (rw t refl, e))

  -- What `take_snapshots` answers holds the snapshot of every control that it went through.
  pub take_snapshots-Holds :
      (i : IsIsolated) (h : Host) (cs : List Control) (taken all : Snapshots Host Desired Value)
      → ((c : Control) → Member c cs → Member c controls)
      → take_snapshots Host Desired Value cs h taken ≡ ok all
      → (c : Control) → Member c controls
      → (Holds h taken c) ⊎ Member c cs
      → Holds h all c
  unfolding take_snapshots
  take_snapshots-Holds i h [] taken all sub e c mc (inl k) =
      subst (λ t. Holds h t c) (ok-injective e) k
  take_snapshots-Holds i h [] taken all sub e c mc (inr m) = absurd m
  take_snapshots-Holds i h (d ∷ cs) taken all sub e c mc k =
      let (v, shown, rest) = >>=-eq-ok (d.snapshot h) _ e in
      let sub' : (x : Control) → Member x cs → Member x controls = λ x m. sub x (inr m) in
      let next = take_snapshots-Holds i h cs ((d.name, v) ∷ taken) all sub' rest c mc in
      elim k [
        | inl held ↦ next (inl (Holds-put i h taken c d v mc (sub d (inl refl)) held shown))
        | inr m ↦ elim m [
          | inl same ↦ next (
              inl (
                subst (λ x. Holds h ((d.name, v) ∷ taken) x) (sym same)
                  (Holds-new i h taken d v shown)))
          | inr later ↦ next (inr later)
        ]
      ]

  -- Every control either is to be rolled back or shows what it showed at first.
  abbrev pub Tracked : Host → Host → List Control → Type 0
  Tracked first h tracked =
      (c : Control) → Member c controls → Member c tracked ⊎ (c.snapshot h ≡ c.snapshot first)

  Tracked-apply :
      (i : IsIsolated) (first h : Host) (tracked : List Control) (d : Control) (plan : Value)
      → Member d controls
      → Tracked first h tracked
      → Tracked first (d.apply plan h).1 (d ∷ tracked)
  Tracked-apply i first h tracked d plan md t c mc = elim (name-cases c d) [
    | inl e ↦ inl (inl (i.named c d mc md e))
    | inr n ↦ elim (t c mc) [
      | inl m ↦ inl (inr m)
      | inr same ↦ inr (i.apply_alone c d mc md n plan h ∙ same)
    ]
  ]

  -- A rollback brings the control back, and leaves the others.
  pub Tracked-rollback :
      (i : IsIsolated) (first h : Host) (tracked : List Control) (d : Control) (v : Value)
      → Member d controls
      → d.snapshot first ≡ ok v
      → Tracked first h (d ∷ tracked)
      → Tracked first (d.rollback v h).1 tracked
  Tracked-rollback i first h tracked d v md shown t c mc = elim (name-cases c d) [
    | inl e ↦
        let same = i.named c d mc md e in
        inr (
          subst (λ x. x.snapshot (d.rollback v h).1 ≡ x.snapshot first) (sym same)
            ((i.rollback_back d md v h).1 ∙ sym shown))
    | inr n ↦ elim (t c mc) [
      | inl m ↦ elim m [ inl e ↦ absurd (n (ap (λ x. x.name) e)) | inr later ↦ inl later ]
      | inr same ↦ inr (i.rollback_alone c d mc md n v h ∙ same)
    ]
  ]

  -- What an exception keeps, and the `apply` of each control, is kept by the loop.
  forward-keeps :
      (Inv : Progress Host Desired Value → Type 0)
      → ((e : String)
          → (p : Progress Host Desired Value) → Inv p
          → Inv (record p { raised = some e }))
      → ((d : Control)
          → Member d controls
          → (plan : Value) → (p : Progress Host Desired Value) → (raised : Option String)
          → (events : List (Event Host Desired Value)) → Inv p
          → Inv (record {
            raised = raised;
            tracked = d ∷ p.tracked;
            events = events;
            host = (d.apply plan p.host).1;
          }))
      → (desired : Desired) → (cs : List Control) → (p : Progress Host Desired Value)
      → ((c : Control) → Member c cs → Member c controls)
      → Inv p
      → Inv (forward Host Desired Value values desired cs p)
  unfolding forward
  forward-keeps Inv raises applies desired [] p sub t = t
  forward-keeps Inv raises applies desired (d ∷ cs) p sub t =
      let sub' : (x : Control) → Member x cs → Member x controls = λ x m. sub x (inr m) in
      let md = sub d (inl refl) in
      elim (Outcome-cases (d.plan desired p.host)) [
        | inr (e, q) ↦ rw (q, forward) (raises e p t)
        | inl (plan, q) ↦
            rw (q, forward)
              (elim (Outcome-cases (d.apply plan p.host).0) [
                | inr (e, q₁) ↦ rw q₁ (applies d md plan p _ _ t)
                | inl (r, q₁) ↦
                    rw q₁ (elim (Outcome-cases (d.verify plan (d.apply plan p.host).1)) [
                      | inr (e, q₂) ↦ rw q₂ (applies d md plan p _ _ t)
                      | inl (v, q₂) ↦ rw q₂ (elim (Bool-cases (values.passed v)) [
                        | inl y ↦ rw y (
                            forward-keeps Inv raises applies desired cs _ sub'
                              (applies d md plan p _ _ t))
                        | inr n ↦ rw n (applies d md plan p _ _ t)
                      ])
                    ])
              ])
      ]

  abbrev pub IsTracking : Host → Progress Host Desired Value → Type 0
  IsTracking first p =
      ((c : Control) → Member c p.tracked → Member c controls) × Tracked first p.host p.tracked

  pub forward-IsTracking :
      (i : IsIsolated) (first : Host) (desired : Desired) (cs : List Control)
      → ((c : Control) → Member c cs → Member c controls)
      → IsTracking first (
          forward Host Desired Value values desired cs
            (record { raised = none; tracked = []; events = []; host = first }))
  forward-IsTracking i first desired cs sub =
      forward-keeps (IsTracking first) (λ e p t. t)
        (λ d md plan p raised events (k, t). (
          λ x m. elim m [ inl e ↦ subst (λ y. Member y controls) (sym e) md | inr n ↦ k x n ],
          Tracked-apply i first p.host p.tracked d plan md t,
        ))
        desired cs _ sub (λ c m. absurd m, λ c mc. inr refl)

  undo-step :
      (taken : Snapshots Host Desired Value) (d : Control) (ds : List Control) (h : Host)
      (v r : Value)
      → lookup Host Desired Value d.name taken ≡ some v
      → (d.rollback v h).0 ≡ ok r
      → undo Host Desired Value values taken (d ∷ ds) h ≡ (
        (undo Host Desired Value values taken ds (d.rollback v h).1).0 >>= (λ events.
            ok (record { control = d.name; action = Action.rolled_back; result = r } ∷ events)),
        (undo Host Desired Value values taken ds (d.rollback v h).1).1,
      )
  unfolding undo
  undo-step taken d ds h v r found q = rw (found, undo) (rw q refl)

  abbrev pub IsBack : Host → Outcome String (List (Event Host Desired Value)) × Host → Type 0
  IsBack first u =
      ((events : List (Event Host Desired Value)) × (u.0 ≡ ok events))
      × ((c : Control) → Member c controls → c.snapshot u.1 ≡ c.snapshot first)

  -- The rollbacks on the path of failure succeed, and every control shows what it showed at first.
  pub undo-IsBack :
      (i : IsIsolated) (first h : Host) (taken : Snapshots Host Desired Value)
      (tracked : List Control)
      → ((c : Control) → Member c controls → Holds first taken c)
      → ((c : Control) → Member c tracked → Member c controls)
      → Tracked first h tracked
      → IsBack first (undo Host Desired Value values taken tracked h)
  unfolding undo
  undo-IsBack i first h taken [] held sub t =
      (([], refl), λ c mc. elim (t c mc) [ inl m ↦ absurd m | inr same ↦ same ])
  undo-IsBack i first h taken (d ∷ ds) held sub t =
      let md = sub d (inl refl) in
      let sub' : (x : Control) → Member x ds → Member x controls = λ x m. sub x (inr m) in
      let (v, (found, shown)) = held d md in
      let ((r, q), back) = i.rollback_back d md v h in
      let t' = Tracked-rollback i first h ds d v md shown t in
      let ((events, q'), shows) = undo-IsBack i first (d.rollback v h).1 taken ds held sub' t' in
      subst (IsBack first) (sym (undo-step taken d ds h v r found q)) (
        (
          _,
          ap
              (λ m. m >>= (λ es.
                ok (record { control = d.name; action = Action.rolled_back; result = r } ∷ es)))
              q',
        ),
        shows,
      )
