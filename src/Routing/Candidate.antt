-- ===== src/Routing/Candidate.antt =====
-- gateway/ecoroute/routing/engine.py: the endpoint candidate, its estimates and penalties, and the
-- state of a grid.
use ecoroute_ht.Base.{ℕ, String, Bool, true, false, List, Option, none, some, if◌then◌else◌}
use ecoroute_ht.Numbers.{Arithmetic, f_of, f_lt}
use ecoroute_ht.Schemas.{
  Uuid, QualityTier, Evidence, ProcessingLocation, GridAttribution, Capability, Health,
}

pub data GridState : Type 0 where
  clean moderate dirty unknown : GridState

abbrev pub is_dirty : GridState → Bool
is_dirty GridState.dirty = true
is_dirty _ = false

module _ (A : Arithmetic) where
  open A use {Float, Decimal, f_lit, f_add, f_mul, f_div, f_le, d_of, d_add, d_mul, d_div}

  pub record EndpointCandidate : Type 0 where
    pub id : Uuid
    pub name : String
    pub provider : String
    pub quality_tier : QualityTier
    pub capabilities : List Capability
    pub context_window_tokens : ℕ
    pub input_usd_per_million_tokens : Decimal
    pub output_usd_per_million_tokens : Decimal
    pub fixed_request_kwh : Float
    pub input_kwh_per_1k_tokens : Float
    pub output_kwh_per_1k_tokens : Float
    pub energy_evidence : Evidence
    pub latency_p95_ms : ℕ
    pub grid_intensity : Float
    pub enabled : Bool
    pub health_state : Health
    pub slm_profile_id : Option Uuid
    pub carbon_available : Bool
    pub region : String
    pub self_hosted : Bool
    pub slm_profile_status : Option String
    pub allowed_task_types : List String
    pub supported_languages : List String
    pub grid_zone : String
    pub carbon_evidence : Evidence
    pub carbon_source : String
    pub processing_location_evidence : ProcessingLocation
    pub grid_attribution : GridAttribution
    pub azure_deployment_type : Option String
    pub routing_override : Option Float  -- the field `routing_grid_intensity`

  unfoldable pub routing_grid_intensity : EndpointCandidate → Option Float
  routing_grid_intensity c = elim c.routing_override [
    | some x ↦ some x
    | none ↦ if c.carbon_available then some c.grid_intensity else none
  ]

  abbrev pub quality_penalty : QualityTier → Float
  quality_penalty QualityTier.frontier = f_lit 0 1
  quality_penalty QualityTier.standard = f_lit 2 1
  quality_penalty QualityTier.small = f_lit 45 2
  quality_penalty QualityTier.specialized = f_lit 15 2

  abbrev evidence_level_penalty : Evidence → Float
  evidence_level_penalty Evidence.measured = f_lit 0 1
  evidence_level_penalty Evidence.estimated = f_lit 1 1
  evidence_level_penalty Evidence.stale = f_lit 3 1
  evidence_level_penalty Evidence.simulated = f_lit 4 1

  abbrev processing_location_penalty : ProcessingLocation → Float
  processing_location_penalty ProcessingLocation.provider_contract = f_lit 5 2
  processing_location_penalty ProcessingLocation.operator_declared = f_lit 3 1
  processing_location_penalty ProcessingLocation.self_hosted = f_lit 0 1
  processing_location_penalty ProcessingLocation.unknown = f_lit 5 1
  processing_location_penalty ProcessingLocation.simulated = f_lit 4 1

  abbrev grid_attribution_penalty : GridAttribution → Float
  grid_attribution_penalty GridAttribution.electricity_maps_data_center = f_lit 0 1
  grid_attribution_penalty GridAttribution.physical_grid = f_lit 0 1
  grid_attribution_penalty GridAttribution.regional_proxy = f_lit 25 2
  grid_attribution_penalty GridAttribution.operator_declared = f_lit 35 2
  grid_attribution_penalty GridAttribution.unknown = f_lit 5 1
  grid_attribution_penalty GridAttribution.simulated = f_lit 4 1

  -- max(a, b): the first of the largest.
  abbrev pub f_max : Float → Float → Float
  f_max a b = if f_lt A a b then b else a

  unfoldable pub evidence_penalty : EndpointCandidate → Float
  evidence_penalty c =
      f_max
        (f_max
          (f_max (evidence_level_penalty c.energy_evidence)
            (evidence_level_penalty c.carbon_evidence))
          (processing_location_penalty c.processing_location_evidence))
        (grid_attribution_penalty c.grid_attribution)

  unfoldable pub estimate_cost : EndpointCandidate → ℕ → ℕ → Decimal
  estimate_cost c input_tokens output_tokens =
      d_div
        (d_add (d_mul (d_of input_tokens) c.input_usd_per_million_tokens)
          (d_mul (d_of output_tokens) c.output_usd_per_million_tokens))
        (d_of 1000000)

  unfoldable pub estimate_energy : EndpointCandidate → ℕ → ℕ → Float
  estimate_energy c input_tokens output_tokens =
      f_add
        (f_add c.fixed_request_kwh
          (f_div (f_mul (f_of A input_tokens) c.input_kwh_per_1k_tokens) (f_of A 1000)))
        (f_div (f_mul (f_of A output_tokens) c.output_kwh_per_1k_tokens) (f_of A 1000))

  unfoldable pub grid_state : Option Float → Float → Float → GridState
  grid_state none low high = GridState.unknown
  grid_state (some intensity) low high =
      if f_le intensity low
      then GridState.clean
      else if f_le high intensity
      then GridState.dirty
      else GridState.moderate
