-- ===== src/Routing/Accepted.antt =====
-- quality.py: what a verdict that passed says of the output.
use ecoroute_ht.Base.{
  ℕ, ◌≤◌, ◌≡◌, refl, String, Bool, true, false, Option, none, some, arith, ◌⊎◌, inl, inr,
  Bool-cases, subst, sym,
}
use ecoroute_ht.Numbers.{Arithmetic}
use ecoroute_ht.Schemas.{TaskType}
use ecoroute_ht.Routing.Quality.{
  Number, is_below, Verdict, Contract, Checks, ResponseFormat, is_allowlisted, promises,
  format_error, all_known, check_contract, check_support, contract_of, after_format, verify_output,
}

module _ (A : Arithmetic) (Json : Type 0) (checks : Checks A Json) (task : TaskType)
    (specialized : Bool) (format : ResponseFormat A Json) (maximum : ℕ) (minimum : A.Float)
    (raw : String) where
  open A use {f_le}

  -- A confidence that is not below the minimum, or that is NaN.
  abbrev pub IsEnough : Number A Json → Type 0
  IsEnough n = (n ≡ Number.nan) ⊎ ((x : A.Float) × (n ≡ Number.number x) × (f_le minimum x ≡ true))

  IsEnough-is_below : (n : Number A Json) → is_below A Json n minimum ≡ false → IsEnough n
  unfolding is_below
  IsEnough-is_below Number.nan h = inl refl
  IsEnough-is_below (Number.number x) h = inr (x, refl, ground arith)

  -- A contract that a specialized model may answer with.
  pub record IsSupported (c : Contract A Json) : Type 0 where
    pub confident : IsEnough c.confidence
    pub automatic : c.needs_human ≡ false
    pub known : all_known A Json checks c.policy_ids ≡ true
    pub in_allowlist : is_allowlisted A Json task ≡ true

  pub record IsAccepted : Type 0 where
    pub not_blank : checks.is_blank raw ≡ false
    pub not_long : checks.len raw ≤ maximum
    pub no_secret : checks.has_secret raw ≡ false
    pub no_promise : promises A Json checks raw ≡ false
    pub well_formed : format_error A Json checks format (checks.loads raw) ≡ none
    pub supported :
        specialized ≡ true
        → (c : Contract A Json) × ((contract_of A Json checks (checks.loads raw) ≡ some c)
            × IsSupported c)

  contract-IsSupported :
      (c : Contract A Json)
      → (check_contract A Json checks task minimum c).passed ≡ true
      → IsSupported c
  unfolding check_contract
  contract-IsSupported c h = record {
    confident = IsEnough-is_below c.confidence (ground arith);
    automatic = ground arith;
    known = ground arith;
    in_allowlist = ground arith;
  }

  support-IsSupported :
      (o : Option (Contract A Json))
      → (check_support A Json checks task minimum o).passed ≡ true
      → (c : Contract A Json) × ((o ≡ some c) × IsSupported c)
  unfolding check_support
  support-IsSupported none h = cc
  support-IsSupported (some c) h = (c, (refl, contract-IsSupported c h))

  after_format-IsSupported :
      (o : Option String)
      → (after_format A Json checks task specialized minimum raw o).passed ≡ true
      → (o ≡ none)
        × (specialized ≡ true
            → (c : Contract A Json) × ((contract_of A Json checks (checks.loads raw) ≡ some c)
                × IsSupported c))
  unfolding after_format
  after_format-IsSupported (some r) h = cc
  after_format-IsSupported none h = (refl, λ t. support-IsSupported _ (rw t at h))

  -- An output that passes is not blank, not too long, echoes no secret and makes no prohibited promise,
  -- has the requested format, and from a specialized model it carries a support contract whose
  -- confidence is at least the minimum or NaN, with known policies, for a task that such a model may
  -- answer and no human need see.
  pub verify_output-IsAccepted :
      (force_failure : Bool)
      → (verify_output A Json checks task specialized force_failure format maximum minimum
          raw).passed
        ≡ true
      → (force_failure ≡ false) × IsAccepted
  unfolding verify_output
  verify_output-IsAccepted force h =
      let last : (after_format A Json checks task specialized minimum raw
            (format_error A Json checks format (checks.loads raw))).passed
          ≡ true =
        ground arith in
      let (formed, support) = after_format-IsSupported _ last in
      (
        ground arith,
        record {
          not_blank = ground arith;
          not_long = ground arith;
          no_secret = ground arith;
          no_promise = ground arith;
          well_formed = formed;
          supported = support;
        },
      )

  -- The text of a verdict: the output itself if the model is not specialized, or the answer of its
  -- support contract.
  abbrev pub IsWorded : Option String → Type 0
  IsWorded answer =
      ((specialized ≡ false) × (answer ≡ some raw))
      ⊎ ((c : Contract A Json) × (contract_of A Json checks (checks.loads raw) ≡ some c)
          × (answer ≡ some c.answer))

  contract-answer :
      (c : Contract A Json)
      → (check_contract A Json checks task minimum c).passed ≡ true
      → (check_contract A Json checks task minimum c).answer ≡ some c.answer
  unfolding check_contract
  contract-answer c h = ground arith

  support-IsWorded :
      (o : Option (Contract A Json))
      → contract_of A Json checks (checks.loads raw) ≡ o
      → (check_support A Json checks task minimum o).passed ≡ true
      → IsWorded (check_support A Json checks task minimum o).answer
  unfolding check_support
  support-IsWorded none e h = cc
  support-IsWorded (some c) e h = inr (c, e, contract-answer c h)

  after_format-IsWorded :
      (o : Option String)
      → (after_format A Json checks task specialized minimum raw o).passed ≡ true
      → IsWorded (after_format A Json checks task specialized minimum raw o).answer
  unfolding after_format
  after_format-IsWorded (some x) h = cc
  after_format-IsWorded none h = elim (Bool-cases specialized) [
    | inl t ↦
        let verdict =
          check_support A Json checks task minimum (contract_of A Json checks (checks.loads raw)) in
        let same : after_format A Json checks task specialized minimum raw none ≡ verdict =
          rw t refl in
        subst (λ (v : Verdict A Json). IsWorded v.answer) (sym same)
          (support-IsWorded _ refl (subst (λ (v : Verdict A Json). v.passed ≡ true) same h))
    | inr f ↦
        let same : (after_format A Json checks task specialized minimum raw none).answer
            ≡ some raw =
          rw f refl in
        inl (f, same)
  ]

  -- An output that passes is answered with its own text, if the model is not specialized, or with that
  -- of its support contract.
  pub verify_output-IsWorded :
      (force_failure : Bool)
      → (verify_output A Json checks task specialized force_failure format maximum minimum
          raw).passed
        ≡ true
      → IsWorded
          (verify_output A Json checks task specialized force_failure format maximum minimum
            raw).answer
  unfolding verify_output
  verify_output-IsWorded force h =
      let format_reason = format_error A Json checks format (checks.loads raw) in
      let last : (after_format A Json checks task specialized minimum raw format_reason).passed
          ≡ true =
        ground arith in
      let same : (verify_output A Json checks task specialized force format maximum minimum
            raw).answer
          ≡ (after_format A Json checks task specialized minimum raw format_reason).answer =
        ground arith in
      subst IsWorded (sym same) (after_format-IsWorded format_reason last)
