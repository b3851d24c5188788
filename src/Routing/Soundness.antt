-- ===== src/Routing/Soundness.antt =====
-- What a selection returns: an admissible candidate, and snapshots that excuse no candidate.
use ecoroute_ht.Base.{
  is_some, if-eq-ok, ok-injective, subst, any, is_none, Option, ◌≡◌, refl, inl, inr, sym, Bool,
  true, false, not, ◌&&◌, List, [], ◌∷◌, map, none, arith, Member, All, All-Member, All-of_Member,
  All-weaken, Member-filter, min_by, min_by-Member, filter, ok, >>=-eq-ok, Bool-cases,
  if◌then◌else◌, ◌==◌,
}
use ecoroute_ht.Numbers.{Arithmetic, f_of}
use ecoroute_ht.Routing.Candidate.{EndpointCandidate}
use ecoroute_ht.Routing.Exclusion.{
  Query, Entry, ExclusionReason, exclusion_reason, assess, snapshot,
}
use ecoroute_ht.Routing.Ranking.{
  Selection, is_eligible, is_specialized_entry, exclude, set_score, cheaper, cheaper_or_faster,
  withhold_unknown_health, reserve_specialized, scored, merge, tied, weighted, has_unknown_health,
  carbons, pick,
}
use ecoroute_ht.Routing.Selection.{
  select_candidate, specialized_or, general_or, choose, wants_specialized, wants_general,
  is_general, select_from, prefer_specialized,
}
use ecoroute_ht.Routing.Admission.{IsAdmissible, exclusion_reason_iff}

All-if {ℓ κ} :
    {X : Type ℓ} (P : X → Type κ) (b : Bool) (xs ys : List X)
    → All P xs
    → All P ys
    → All P (if b then xs else ys)
All-if P true xs ys h k = h
All-if P false xs ys h k = k

reason_none : (o : Option ExclusionReason) → is_none o ≡ true → o ≡ none
reason_none o h = ground arith

module _ (A : Arithmetic) (q : Query A) (cs : List (EndpointCandidate A)) where
  -- An entry comes from the candidates, is not excused from its reason, and has a carbon estimate
  -- where its candidate has a reading. Its snapshot has the candidate's id.
  abbrev pub Vouched : Entry A → Type 0
  Vouched e =
      Member e.candidate cs
      × (e.snapshot.excluded_reason ≡ none → exclusion_reason A q e.candidate ≡ none)
      × (e.candidate.carbon_available ≡ true → is_some e.snapshot.estimated_carbon_g ≡ true)
      × (e.snapshot.endpoint_id ≡ e.candidate.id)

  Vouched-map :
      (f : Entry A → Entry A)
      → ((e : Entry A) → Vouched e → Vouched (f e))
      → (es : List (Entry A)) → All Vouched es
      → All Vouched (map f es)
  Vouched-map f keep [] h = tt
  Vouched-map f keep (e ∷ es) h = (keep e h.0, Vouched-map f keep es h.1)

  pub Vouched-filter :
      (p : Entry A → Bool) (es : List (Entry A)) → All Vouched es → All Vouched (filter p es)
  Vouched-filter p es h =
      All-of_Member Vouched (filter p es)
        (λ x m. All-Member Vouched x es h (Member-filter p x es m).0)

  estimate_some :
      (c : EndpointCandidate A)
      → c.carbon_available ≡ true
      → is_some (snapshot A q c).estimated_carbon_g ≡ true
  unfolding snapshot
  estimate_some c h = rw h

  pub Vouched-assess :
      (ds : List (EndpointCandidate A))
      → ((c : EndpointCandidate A) → Member c ds → Member c cs)
      → All Vouched (assess A q ds)
  unfolding assess
  Vouched-assess [] f = tt
  Vouched-assess (d ∷ ds) f =
      ((f d (inl refl), λ h. h, estimate_some d, refl), Vouched-assess ds (λ c m. f c (inr m)))

  Vouched-exclude :
      (b : Bool) (r : ExclusionReason) (e : Entry A)
      → Vouched e
      → Vouched (if b then exclude A r e else e)
  Vouched-exclude true r e v = (v.0, λ h. cc, v.2, v.3)
  Vouched-exclude false r e v = v

  Vouched-score :
      (b : Bool) (e : Entry A) → Vouched e → Vouched (if b then set_score A (f_of A 0) e else e)
  Vouched-score true e v = v
  Vouched-score false e v = v

  pub Vouched-withhold :
      (es : List (Entry A)) → All Vouched es → All Vouched (withhold_unknown_health A es)
  unfolding withhold_unknown_health
  Vouched-withhold es h =
      All-if Vouched (any (λ e. not (has_unknown_health A e)) (filter (is_eligible A) es)) _ es
        (Vouched-map _ (λ e v. Vouched-exclude (is_eligible A e && has_unknown_health A e) _ e v) es
          h)
        h

  pub Vouched-reserve :
      (es : List (Entry A)) → All Vouched es → All Vouched (reserve_specialized A es)
  unfolding reserve_specialized
  Vouched-reserve es h =
      Vouched-map _ (λ e v. Vouched-exclude (is_eligible A e && is_specialized_entry A e) _ e v) es
        h

  Vouched-merge :
      (es ss : List (Entry A)) → All Vouched es → All Vouched ss → All Vouched (merge A es ss)
  unfolding merge
  Vouched-merge [] ss h k = tt
  Vouched-merge (x ∷ xs) [] h k = h
  Vouched-merge (x ∷ xs) (s ∷ ss) h k = elim (Bool-cases (is_eligible A x)) [
    | inl t ↦ rw t (k.0, Vouched-merge xs ss h.1 k.1)
    | inr f ↦ rw f (h.0, Vouched-merge xs (s ∷ ss) h.1 k)
  ]

  -- An entry that is still eligible.
  abbrev pub Chosen : Entry A → Type 0
  Chosen e = Vouched e × (is_eligible A e ≡ true)

  pub Chosen-eligible :
      (es : List (Entry A)) → All Vouched es → All Chosen (filter (is_eligible A) es)
  Chosen-eligible es h =
      All-of_Member Chosen (filter (is_eligible A) es)
        λ x m. let (n, t) = Member-filter (is_eligible A) x es m in (All-Member Vouched x es h n, t)

  pub Chosen-filter :
      (p : Entry A → Bool) (es : List (Entry A)) → All Chosen es → All Chosen (filter p es)
  Chosen-filter p es h =
      All-of_Member Chosen (filter p es)
        (λ x m. All-Member Chosen x es h (Member-filter p x es m).0)

  Chosen-scored :
      (gs bs ls : List A.Float) (es : List (Entry A))
      → All Chosen es
      → All Chosen (scored A q gs bs ls es)
  unfolding scored
  Chosen-scored (g ∷ gs) (b ∷ bs) (l ∷ ls) (e ∷ es) h = (h.0, Chosen-scored gs bs ls es h.1)
  Chosen-scored [] _ _ _ h = tt
  Chosen-scored (g ∷ gs) [] _ _ h = tt
  Chosen-scored (g ∷ gs) (b ∷ bs) [] _ h = tt
  Chosen-scored (g ∷ gs) (b ∷ bs) (l ∷ ls) [] h = tt

  Chosen-tied : (es : List (Entry A)) → All Chosen es → All Chosen (tied A es)
  unfolding tied
  Chosen-tied [] h = tt
  Chosen-tied (e ∷ es) h = Chosen-filter _ (e ∷ es) h

  pub record IsSound (s : Selection A) : Type 0 where
    pub is_candidate : Member s.selected cs
    pub no_reason : exclusion_reason A q s.selected ≡ none
    pub vouched : All Vouched s.entries

  IsSound-of_Chosen :
      (e : Entry A) (s : Selection A)
      → Chosen e
      → All Vouched s.entries
      → e.candidate ≡ s.selected
      → IsSound s
  IsSound-of_Chosen e s ((m, r, _, _), t) h p = record {
    is_candidate = rw (← p) m;
    no_reason = rw (← p) (r (reason_none e.snapshot.excluded_reason t));
    vouched = h;
  }

  pick-IsSound :
      (es ts : List (Entry A)) {s : Selection A}
      → All Vouched es
      → All Chosen ts
      → pick A es ts ≡ ok s
      → IsSound s
  unfolding pick
  pick-IsSound es [] h k e = cc
  pick-IsSound es (t ∷ ts) h k e =
      let best = min_by (cheaper_or_faster A) t ts in
      subst IsSound (ok-injective e) (
        IsSound-of_Chosen best _
          (All-Member Chosen best (t ∷ ts) k (min_by-Member (cheaper_or_faster A) t ts)) h refl)

  weighted-IsSound :
      (es : List (Entry A)) (x : Entry A) (xs : List (Entry A)) {s : Selection A}
      → All Vouched es
      → All Chosen (x ∷ xs)
      → weighted A q es x xs ≡ ok s
      → IsSound s
  unfolding weighted
  weighted-IsSound es x xs h k e =
      let (gs, p, r) = >>=-eq-ok (carbons A _ _ (x ∷ xs)) _ e in
      pick-IsSound (merge A es (scored A q gs _ _ (x ∷ xs))) (tied A (scored A q gs _ _ (x ∷ xs)))
        (Vouched-merge es _ h
          (All-weaken Chosen Vouched (λ y c. c.0) _ (Chosen-scored gs _ _ (x ∷ xs) k)))
        (Chosen-tied _ (Chosen-scored gs _ _ (x ∷ xs) k)) r

  prefer-IsSound :
      (es : List (Entry A)) (x : Entry A) (xs : List (Entry A))
      → All Vouched es
      → All Chosen (x ∷ xs)
      → IsSound (prefer_specialized A es x xs)
  unfolding prefer_specialized
  prefer-IsSound es x xs h k =
      let best = min_by (cheaper A) x xs in
      IsSound-of_Chosen best _ (All-Member Chosen best (x ∷ xs) k (min_by-Member (cheaper A) x xs))
        (Vouched-map _ (λ e v. Vouched-score (e.candidate.id == best.candidate.id) e v) es h) refl

  specialized_or-IsSound :
      (es : List (Entry A)) (x : Entry A) (xs ys : List (Entry A)) {s : Selection A}
      → All Vouched es
      → All Chosen (x ∷ xs)
      → All Chosen ys
      → specialized_or A q es x xs ys ≡ ok s
      → IsSound s
  unfolding specialized_or
  specialized_or-IsSound es x xs [] h k l e = weighted-IsSound es x xs h k e
  specialized_or-IsSound es x xs (y ∷ ys) h k l e =
      subst IsSound (ok-injective e) (prefer-IsSound es y ys h l)

  general_or-IsSound :
      (es : List (Entry A)) (x : Entry A) (xs ys : List (Entry A)) {s : Selection A}
      → All Vouched es
      → All Chosen (x ∷ xs)
      → All Chosen ys
      → general_or A q es x xs ys ≡ ok s
      → IsSound s
  unfolding general_or
  general_or-IsSound es x xs [] h k l e = weighted-IsSound es x xs h k e
  general_or-IsSound es x xs (y ∷ ys) h k l e =
      weighted-IsSound (reserve_specialized A es) y ys (Vouched-reserve es h) l e

  choose-IsSound :
      (es : List (Entry A)) (x : Entry A) (xs : List (Entry A)) {s : Selection A}
      → All Vouched es
      → All Chosen (x ∷ xs)
      → choose A q es x xs ≡ ok s
      → IsSound s
  unfolding choose
  choose-IsSound es x xs h k =
      if-eq-ok IsSound (wants_specialized A q) _ _
        (specialized_or-IsSound es x xs _ h k (Chosen-filter (is_specialized_entry A) (x ∷ xs) k))
        (if-eq-ok IsSound (wants_general A q) _ _
          (general_or-IsSound es x xs _ h k (Chosen-filter (is_general A) (x ∷ xs) k))
          (weighted-IsSound es x xs h k))

  select_from-IsSound :
      (es xs : List (Entry A)) {s : Selection A}
      → All Vouched es
      → All Chosen xs
      → select_from A q cs es xs ≡ ok s
      → IsSound s
  unfolding select_from
  select_from-IsSound es [] h k e = cc
  select_from-IsSound es (x ∷ xs) h k e = choose-IsSound es x xs h k e

  -- A successful selection is sound.
  select_candidate-IsSound : (s : Selection A) → select_candidate A q cs ≡ ok s → IsSound s
  unfolding select_candidate
  select_candidate-IsSound s e =
      let v = Vouched-withhold (assess A q cs) (Vouched-assess cs (λ c m. m)) in
      select_from-IsSound _ _ v (Chosen-eligible _ v) e

  -- The selected endpoint is one of the candidates and meets every hard constraint.
  pub select_candidate-IsAdmissible :
      (s : Selection A)
      → select_candidate A q cs ≡ ok s
      → Member s.selected cs × IsAdmissible A q s.selected
  select_candidate-IsAdmissible s e =
      let r = select_candidate-IsSound s e in
      (r.is_candidate, (exclusion_reason_iff A q s.selected).0 r.no_reason)

  -- Every snapshot of a selection that has no excluded reason is that of a candidate that meets every
  -- hard constraint.
  pub unexcluded-IsAdmissible :
      (s : Selection A)
      → select_candidate A q cs ≡ ok s
      → (e : Entry A) → Member e s.entries
      → e.snapshot.excluded_reason ≡ none
      → Member e.candidate cs × IsAdmissible A q e.candidate
  unexcluded-IsAdmissible s h e m n =
      let v = All-Member Vouched e s.entries (select_candidate-IsSound s h).vouched m in
      (v.0, (exclusion_reason_iff A q e.candidate).0 (v.1 n))

  -- An id that a snapshot with no excluded reason has is that of an admissible candidate.
  pub eligible_id-IsAdmissible :
      (s : Selection A)
      → select_candidate A q cs ≡ ok s
      → (e : Entry A) → Member e (filter (is_eligible A) s.entries)
      → (c : EndpointCandidate A) × Member c cs
        × (c.id ≡ e.snapshot.endpoint_id)
        × IsAdmissible A q c
  eligible_id-IsAdmissible s h e m =
      let (n, t) = Member-filter (is_eligible A) e s.entries m in
      let v = All-Member Vouched e s.entries (select_candidate-IsSound s h).vouched n in
      let (k, a) = unexcluded-IsAdmissible s h e n (reason_none e.snapshot.excluded_reason t) in
      (e.candidate, k, sym v.3, a)
