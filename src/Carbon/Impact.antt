-- ===== src/Carbon/Impact.antt =====
-- carbon/impact.py, `calculate_impact` and `sampled_watts_to_kwh`.
use ecoroute_ht.Base.{ℕ, Bool, ◌&&◌, List, [], ◌∷◌}
use ecoroute_ht.Numbers.{Arithmetic}
use ecoroute_ht.Routing.Candidate.{EndpointCandidate, estimate_cost, estimate_energy, f_max}

module _ (A : Arithmetic) where
  open A use {Float, Decimal, f_lit, f_add, f_sub, f_mul, f_div, d_sub}

  pub record ImpactCalculation : Type 0 where
    pub baseline_energy_kwh : Float
    pub actual_energy_kwh : Float
    pub baseline_carbon_g : Float
    pub actual_carbon_g : Float
    pub raw_carbon_delta_g : Float
    pub avoided_carbon_g : Float
    pub baseline_cost_usd : Decimal
    pub actual_cost_usd : Decimal
    pub cost_delta_usd : Decimal
    pub carbon_accounting_available : Bool

  unfoldable pub calculate_impact :
      EndpointCandidate A → EndpointCandidate A → ℕ → ℕ → Float → Bool → Bool → ImpactCalculation
  calculate_impact baseline selected input_tokens output_tokens router_energy_kwh on_baseline
        on_selected =
      let baseline_energy = estimate_energy A baseline input_tokens output_tokens in
      let actual_energy =
        f_add (estimate_energy A selected input_tokens output_tokens) router_energy_kwh in
      let baseline_carbon = f_mul baseline_energy baseline.grid_intensity in
      let actual_carbon = f_mul actual_energy selected.grid_intensity in
      let baseline_cost = estimate_cost A baseline input_tokens output_tokens in
      let actual_cost = estimate_cost A selected input_tokens output_tokens in
      record {
        baseline_energy_kwh = baseline_energy;
        actual_energy_kwh = actual_energy;
        baseline_carbon_g = baseline_carbon;
        actual_carbon_g = actual_carbon;
        raw_carbon_delta_g = f_sub baseline_carbon actual_carbon;
        avoided_carbon_g = f_max A (f_lit 0 0) (f_sub baseline_carbon actual_carbon);
        baseline_cost_usd = baseline_cost;
        actual_cost_usd = actual_cost;
        cost_delta_usd = d_sub actual_cost baseline_cost;
        carbon_accounting_available = on_baseline && on_selected;
      }

  -- the trapezoids between one sample and the next; sum() starts at 0
  unfoldable pub watt_seconds : Float → Float × Float → List (Float × Float) → Float
  watt_seconds total left [] = total
  watt_seconds total left (right ∷ samples) =
      watt_seconds
        (f_add total (f_mul (f_div (f_add left.1 right.1) (f_lit 2 0)) (f_sub right.0 left.0)))
        right samples

  unfoldable pub sampled_watts_to_kwh : List (Float × Float) → Float
  unfolding watt_seconds
  sampled_watts_to_kwh [] = f_lit 0 1
  sampled_watts_to_kwh (_ ∷ []) = f_lit 0 1
  sampled_watts_to_kwh (left ∷ right ∷ samples) =
      f_div (watt_seconds (f_lit 0 0) left (right ∷ samples)) (f_lit 3600000 0)
