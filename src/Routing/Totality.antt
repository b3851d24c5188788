-- ===== src/Routing/Totality.antt =====
-- Where some candidate is admissible a selection returns: no iterator runs out, and the tie is never
-- empty.
use ecoroute_ht.Base.{
  ℕ, suc, ◌≤◌, ◌≡◌, ◌≢◌, refl, ap, sym, subst, ◌∙◌, inl, inr, Bool, true, false, not, ◌&&◌, List,
  [], ◌∷◌, map, none, arith, Member, All, Member-filter, filter-Member, any-Member, any, Member-map,
  Member-ne-nil, filter, length, length-map, Outcome, ok, Bool-cases, if◌then◌else◌,
}
use ecoroute_ht.Numbers.{Arithmetic, f_of}
use ecoroute_ht.Routing.Candidate.{EndpointCandidate}
use ecoroute_ht.Routing.Exclusion.{
  Query, Entry, ExclusionReason, exclusion_reason, assess, snapshot,
}
use ecoroute_ht.Routing.Ranking.{
  is_eligible, exclude, withhold_unknown_health, f_min, minimum, maximum, normalized,
  available_carbon_values, normalized_list, scored, tied, pick, weighted, has_unknown_health,
  carbons, unknown_reading, score_or_zero,
}
use ecoroute_ht.Routing.Selection.{
  select_candidate, specialized_or, general_or, choose, select_from, is_general, wants_specialized,
  wants_general,
}
use ecoroute_ht.Routing.Admission.{IsAdmissible, exclusion_reason_iff}
use ecoroute_ht.Routing.Soundness.{Vouched, Vouched-filter, Vouched-assess, Vouched-withhold}

-- The result is a value.
abbrev pub Returns {ℓ κ} : {E : Type ℓ} {X : Type κ} → Outcome E X → Type (ℓ ⊔ κ)
Returns {E} {X} m = (x : X) × ◌≡◌ {A = Outcome E X} m (ok x)

module _ (A : Arithmetic) where
  open A use {Float, f_sub, f_lit, f_add, f_le, f_sub_self, f_tolerance}

  count_available : List (Entry A) → ℕ
  count_available [] = 0
  count_available (e ∷ es) =
      let n = count_available es in if e.candidate.carbon_available then suc n else n

  length-normalized : (x : Float) (xs : List Float) → length (normalized A x xs) ≡ suc (length xs)
  unfolding normalized
  length-normalized x xs = ground (
    arith,
    length-map (λ (_ : Float). f_lit 0 1) xs,
    length-map
        (λ (v : Float).
          A.f_div (f_sub v (minimum A x xs)) (f_sub (maximum A x xs) (minimum A x xs)))
        xs,
  )

  length-normalized_list : (xs : List Float) → length (normalized_list A xs) ≡ length xs
  length-normalized_list [] = refl
  length-normalized_list (x ∷ xs) = length-normalized x xs

  carbons_total :
      (worst : Float) (iter : List Float) (es : List (Entry A))
      → count_available es ≤ length iter
      → (gs : List Float) × (carbons A worst iter es ≡ ok gs) × (length gs ≡ length es)
  unfolding carbons count_available
  carbons_total worst iter [] h = ([], refl, refl)
  carbons_total worst [] (e ∷ es) h = elim (Bool-cases e.candidate.carbon_available) [
    | inl t ↦ absurd (ground arith)
    | inr f ↦
        let (gs, p, n) = carbons_total worst [] es (ground arith) in
        (worst ∷ gs, ground arith, ap suc n)
  ]
  carbons_total worst (v ∷ vs) (e ∷ es) h = elim (Bool-cases e.candidate.carbon_available) [
    | inl t ↦
        let (gs, p, n) = carbons_total worst vs es (ground arith) in
        (v ∷ gs, ground arith, ap suc n)
    | inr f ↦
        let (gs, p, n) = carbons_total worst (v ∷ vs) es (ground arith) in
        (worst ∷ gs, ground arith, ap suc n)
  ]

  minimum-Member : (x : Float) (xs : List Float) → Member (minimum A x xs) (x ∷ xs)
  unfolding minimum
  minimum-Member x [] = inl refl
  minimum-Member x (y ∷ ys) = ground (arith, minimum-Member (f_min A x y) ys)

  Member-scores :
      (v : Float) (es : List (Entry A))
      → Member v (map (score_or_zero A) es)
      → (e : Entry A) × Member e es × (score_or_zero A e ≡ v)
  Member-scores v (e ∷ es) (inl p) = (e, inl refl, sym p)
  Member-scores v (e ∷ es) (inr m) = let (x, n, p) = Member-scores v es m in (x, inr n, p)
  Member-scores v [] m = absurd m

  tied-cons : (e : Entry A) (es : List (Entry A)) → tied A (e ∷ es) ≢ []
  unfolding tied
  tied-cons e es h =
      let (x, m, p) =
        Member-scores _ (e ∷ es) (minimum-Member (score_or_zero A e) (map (score_or_zero A) es)) in
      subst (Member x) h (filter-Member _ x (e ∷ es) m (rw p (rw f_sub_self f_tolerance)))

  pick_total : (es ts : List (Entry A)) → ts ≢ [] → Returns (pick A es ts)
  unfolding pick
  pick_total es [] h = absurd (h refl)
  pick_total es (t ∷ ts) h = (_, refl)

  module _ (q : Query A) where
    scored-cons :
        (gs bs ls : List Float) (e : Entry A) (es : List (Entry A))
        → length gs ≡ suc (length es)
        → length bs ≡ suc (length es)
        → length ls ≡ suc (length es)
        → (r : Entry A) × (rs : List (Entry A)) × (scored A q gs bs ls (e ∷ es) ≡ r ∷ rs)
    unfolding scored
    scored-cons (g ∷ gs) (b ∷ bs) (l ∷ ls) e es h k m = (_, _, refl)
    scored-cons [] _ _ e es h k m = absurd (omega arith)
    scored-cons (g ∷ gs) [] _ e es h k m = absurd (omega arith)
    scored-cons (g ∷ gs) (b ∷ bs) [] e es h k m = absurd (omega arith)

    module _ (cs : List (EndpointCandidate A)) where
      available_enough :
          (es : List (Entry A))
          → All (Vouched A q cs) es
          → count_available es ≤ length (available_carbon_values A es)
      unfolding count_available available_carbon_values
      available_enough [] h = omega arith
      available_enough (e ∷ es) h = ground (arith, available_enough es h.1, h.0.2)

      weighted_total :
          (entries : List (Entry A)) (e : Entry A) (es : List (Entry A))
          → All (Vouched A q cs) (e ∷ es)
          → Returns (weighted A q entries e es)
      unfolding weighted
      weighted_total entries e es h =
          let available = normalized_list A (available_carbon_values A (e ∷ es)) in
          let (gs, p, n) = carbons_total (unknown_reading A available) available (e ∷ es) (
            rw (length-normalized_list (available_carbon_values A (e ∷ es)))
              (available_enough (e ∷ es) h)) in
          let (r, rs, s) =
            scored-cons gs
              (normalized A (A.float_of e.snapshot.estimated_cost_usd)
                (map (λ x. A.float_of x.snapshot.estimated_cost_usd) es))
              (normalized A (f_of A e.snapshot.latency_p95_ms)
                (map (λ x. f_of A x.snapshot.latency_p95_ms) es))
              e es n (length-normalized _ _ ∙ ap suc (length-map _ es))
              (length-normalized _ _ ∙ ap suc (length-map _ es)) in
          rw (p, s) (pick_total _ _ (tied-cons r rs))

      if_total {ℓ κ} :
          {E : Type ℓ} {X : Type κ} (b : Bool) (m n : Outcome E X)
          → Returns m
          → Returns n
          → Returns (if b then m else n)
      if_total true m n h k = h
      if_total false m n h k = k

      specialized_or_total :
          (entries : List (Entry A)) (e : Entry A) (es xs : List (Entry A))
          → All (Vouched A q cs) (e ∷ es)
          → Returns (specialized_or A q entries e es xs)
      unfolding specialized_or
      specialized_or_total entries e es [] h = weighted_total entries e es h
      specialized_or_total entries e es (x ∷ xs) h = (_, refl)

      general_or_total :
          (entries : List (Entry A)) (e : Entry A) (es xs : List (Entry A))
          → All (Vouched A q cs) (e ∷ es)
          → All (Vouched A q cs) xs
          → Returns (general_or A q entries e es xs)
      unfolding general_or
      general_or_total entries e es [] h k = weighted_total entries e es h
      general_or_total entries e es (x ∷ xs) h k = weighted_total _ x xs k

      choose_total :
          (entries : List (Entry A)) (e : Entry A) (es : List (Entry A))
          → All (Vouched A q cs) (e ∷ es)
          → Returns (choose A q entries e es)
      unfolding choose
      choose_total entries e es h =
          if_total (wants_specialized A q) _ _ (specialized_or_total entries e es _ h) (
            if_total (wants_general A q) _ _
              (general_or_total entries e es _ h (Vouched-filter A q cs (is_general A) (e ∷ es) h))
              (weighted_total entries e es h))

      select_from_total :
          (entries xs : List (Entry A))
          → All (Vouched A q cs) xs
          → xs ≢ []
          → Returns (select_from A q cs entries xs)
      unfolding select_from
      select_from_total entries [] h k = absurd (k refl)
      select_from_total entries (x ∷ xs) h k = choose_total entries x xs h

      retain : Entry A → Entry A
      retain e =
          if is_eligible A e && has_unknown_health A e
          then exclude A ExclusionReason.endpoint_health_unknown e
          else e

      retain_known : (e : Entry A) → not (has_unknown_health A e) ≡ true → retain e ≡ e
      unfolding retain
      retain_known e h = ground arith

      retained :
          (es : List (Entry A))
          → any (λ e. not (has_unknown_health A e)) (filter (is_eligible A) es) ≡ true
          → filter (is_eligible A) (map retain es) ≢ []
      retained es t =
          let (x, m, known) = any-Member _ (filter (is_eligible A) es) t in
          let (n, eligible) = Member-filter (is_eligible A) x es m in
          Member-ne-nil x _ (
            filter-Member (is_eligible A) x (map retain es)
              (rw (← retain_known x known) (Member-map retain x es n)) eligible)

      withhold-ne-nil :
          (es : List (Entry A))
          → filter (is_eligible A) es ≢ []
          → filter (is_eligible A) (withhold_unknown_health A es) ≢ []
      unfolding withhold_unknown_health retain
      withhold-ne-nil es h =
          elim (Bool-cases (any (λ e. not (has_unknown_health A e)) (filter (is_eligible A) es))) [
            | inl t ↦ rw t (retained es t)
            | inr f ↦ rw f h
          ]

      entry_of : EndpointCandidate A → Entry A
      entry_of c = record { candidate = c; snapshot = snapshot A q c }

      eligible_of :
          (c : EndpointCandidate A)
          → exclusion_reason A q c ≡ none
          → is_eligible A (entry_of c) ≡ true
      unfolding entry_of snapshot
      eligible_of c h = rw h

      assess-ne-nil :
          (c : EndpointCandidate A)
          → Member c cs
          → exclusion_reason A q c ≡ none
          → filter (is_eligible A) (assess A q cs) ≢ []
      unfolding assess entry_of
      assess-ne-nil c m h = Member-ne-nil (entry_of c) _ (
          filter-Member (is_eligible A) (entry_of c) (assess A q cs) (Member-map entry_of c cs m)
            (eligible_of c h))

      -- Where some candidate meets every hard constraint the selection returns.
      pub select_candidate_total :
          (c : EndpointCandidate A)
          → Member c cs
          → IsAdmissible A q c
          → Returns (select_candidate A q cs)
      unfolding select_candidate
      select_candidate_total c m a =
          let v = Vouched-withhold A q cs (assess A q cs) (Vouched-assess A q cs cs (λ c m. m)) in
          select_from_total _ _ (Vouched-filter A q cs (is_eligible A) _ v)
            (withhold-ne-nil (assess A q cs) (assess-ne-nil c m ((exclusion_reason_iff A q c).1 a)))
