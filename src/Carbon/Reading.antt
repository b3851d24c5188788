-- ===== src/Carbon/Reading.antt =====
-- carbon/service.py, `CarbonService.reading`, with `CarbonReading` of api/schemas.py. Times are numbers
-- of seconds. Redis keeps readings, or a text that is no reading; when it drops one is not modelled.
-- The providers and the metadata, JSON objects, are parameters.
use Prim.Native.String.{◌++◌ as append}
use ecoroute_ht.Base.{
  ℕ, ◌-◌, ◌*◌, String, Bool, true, false, not, ◌&&◌, List, [], ◌∷◌, ◌++◌, Option, none, some,
  filter, str_eq, max, leb, ltb, min_by, Outcome, ok, raise, if◌then◌else◌, max,
}
use ecoroute_ht.Numbers.{Arithmetic}
use ecoroute_ht.Schemas.{Evidence}

-- What the code takes from Python's texts and the metadata that it writes itself.
pub record Keys (Metadata : Type 0) : Type 0 where
  pub casefold : String → String
  pub dashes : String → String  -- text.replace("_", "-")
  pub override_metadata : Option String → Option String → Metadata
  pub missing_metadata : Option String → Option String → Metadata

-- the exceptions of a provider by their class
pub data ProviderError : Type 0 where
  timeout_error type_error os_error value_error http_error : String → ProviderError
  key_error index_error attribute_error other_error : String → ProviderError

-- except (TimeoutError, TypeError, OSError, ValueError, httpx.HTTPError)
unfoldable pub is_caught : ProviderError → Bool
is_caught (ProviderError.timeout_error e) = true
is_caught (ProviderError.type_error e) = true
is_caught (ProviderError.os_error e) = true
is_caught (ProviderError.value_error e) = true
is_caught (ProviderError.http_error e) = true
is_caught _ = false

pub record Settings : Type 0 where
  pub demo_mode : Bool
  pub freshness_target_minutes : ℕ

-- utcnow() at the test of the cache, after the provider, and at the test of the last row
pub record Clock : Type 0 where
  pub at_cache : ℕ
  pub after_provider : ℕ
  pub at_row : ℕ

pub record Place : Type 0 where
  pub zone : String
  pub provider : Option String
  pub region : Option String

-- a text that is not None and not empty
abbrev pub truthy_text : Option String → Bool
truthy_text none = false
truthy_text (some s) = not (str_eq s "")

abbrev text_of : Option String → String
text_of none = ""
text_of (some s) = s

abbrev pub freshness_target : Settings → ℕ
freshness_target settings = settings.freshness_target_minutes * 60

abbrev pub maximum_age : Settings → ℕ → ℕ
maximum_age settings allow_stale_minutes =
    max settings.freshness_target_minutes allow_stale_minutes * 60

module _ (A : Arithmetic) (Metadata : Type 0) (keys : Keys Metadata) where
  open A use {Float, f_lit}
  open keys use {casefold, dashes, override_metadata, missing_metadata}

  pub record CarbonReading : Type 0 where
    pub zone : String
    pub intensity_gco2_kwh : Float
    pub observed_at : ℕ
    pub fetched_at : ℕ
    pub source : String
    pub evidence : Evidence
    pub metadata : Metadata

  -- a row of carbon_readings
  pub record Row : Type 0 where
    pub lookup_key : String
    pub reading : CarbonReading

  -- Redis and the table; `none` in the cache is a text that is not valid.
  pub record State : Type 0 where
    pub override : Option String
    pub cache : List (String × Option CarbonReading)
    pub rows : List Row

  unfoldable pub carbon_lookup_key : Option String → Option String → String
  carbon_lookup_key provider region =
      if truthy_text provider && truthy_text region
      then append "dc:"
          (append (casefold (text_of provider)) (append ":" (dashes (casefold (text_of region)))))
      else "zone"

  unfoldable pub carbon_cache_key : Place → String
  unfolding carbon_lookup_key
  carbon_cache_key p =
      append "ecoroute:carbon:" (append p.zone (append ":" (carbon_lookup_key p.provider p.region)))

  unfoldable pub cache_get :
      String → List (String × Option CarbonReading) → Option (Option CarbonReading)
  cache_get key [] = none
  cache_get key ((k, v) ∷ rest) = let r = cache_get key rest in if str_eq k key then some v else r

  unfoldable pub cache_delete :
      String → List (String × Option CarbonReading) → List (String × Option CarbonReading)
  cache_delete key = filter (λ e. not (str_eq e.0 key))

  -- GRID_OVERRIDE_INTENSITIES has one key; another value is deleted
  unfoldable pub grid_override_state : State → Bool × State
  grid_override_state s = elim s.override [
    | none ↦ (false, s)
    | some value ↦ if str_eq value "dirty" then (true, s) else (false, record s { override = none })
  ]

  abbrev pub override_reading : ℕ → Place → CarbonReading
  override_reading now p = record {
    zone = p.zone;
    intensity_gco2_kwh = f_lit 650 0;
    observed_at = now;
    fetched_at = now;
    source = "ecoroute-grid-override:dirty";
    evidence = Evidence.simulated;
    metadata = override_metadata p.provider p.region;
  }

  abbrev pub no_reading : ℕ → Place → CarbonReading
  no_reading now p = record {
    zone = p.zone;
    intensity_gco2_kwh = f_lit 275 0;
    observed_at = now;
    fetched_at = now;
    source = "ecoroute-default-no-reading";
    evidence = Evidence.stale;
    metadata = missing_metadata p.provider p.region;
  }

  -- max(timedelta(0), now - observed_at), as subtraction stops at 0
  abbrev pub age : ℕ → CarbonReading → ℕ
  age now r = now - r.observed_at

  -- the reading, stale where it is older than the target
  unfoldable pub aged : ℕ → ℕ → CarbonReading → CarbonReading
  aged target now r = if ltb target (age now r) then record r { evidence = Evidence.stale } else r

  unfoldable pub latest : Place → List Row → Option CarbonReading
  unfolding carbon_lookup_key
  latest p rows =
      elim (filter
        (λ w.
          str_eq w.reading.zone p.zone
          && str_eq w.lookup_key (carbon_lookup_key p.provider p.region))
        rows) [
          | [] ↦ none
          | w ∷ ws ↦
              some (min_by (λ a b. ltb b.reading.observed_at a.reading.observed_at) w ws).reading
        ]

  -- the `except` block
  unfoldable pub from_rows : ℕ → ℕ → ℕ → Place → Option CarbonReading → CarbonReading
  unfolding aged
  from_rows target maximum now p none = no_reading now p
  from_rows target maximum now p (some r) =
      if leb (age now r) maximum then aged target now r else no_reading now p

  abbrev put_cache : String → CarbonReading → State → State
  put_cache key r s = record s { cache = (key, some r) ∷ cache_delete key s.cache }

  abbrev add_row : Place → CarbonReading → State → State
  add_row p r s = record s {
    rows =
        s.rows ++ record { lookup_key = carbon_lookup_key p.provider p.region; reading = r } ∷ [];
  }

  -- the `try` block and its handler, after the test of the cache
  unfoldable pub refresh :
      Settings
      → Clock
      → ℕ
      → Place
      → Outcome ProviderError CarbonReading
      → State
      → Outcome ProviderError CarbonReading × State
  unfolding aged latest from_rows carbon_cache_key cache_delete is_caught
  refresh settings clock allow_stale_minutes p (ok r) s =
      let target = freshness_target settings in
      let maximum = maximum_age settings allow_stale_minutes in
      let fresh = aged target clock.after_provider r in
      if ltb maximum (age clock.after_provider r)
      then (ok (from_rows target maximum clock.at_row p (latest p s.rows)), s)
      else (ok fresh, add_row p fresh (put_cache (carbon_cache_key p) fresh s))
  refresh settings clock allow_stale_minutes p (raise e) s =
      if is_caught e
      then (
        ok (
            from_rows (freshness_target settings) (maximum_age settings allow_stale_minutes)
              clock.at_row p (latest p s.rows)),
        s,
      )
      else (raise e, s)

  -- the test of the cache
  unfoldable pub through_cache :
      Settings
      → Clock
      → ℕ
      → Place
      → Outcome ProviderError CarbonReading
      → Option (Option CarbonReading)
      → State
      → Outcome ProviderError CarbonReading × State
  unfolding refresh
  through_cache settings clock stale p answer none s = refresh settings clock stale p answer s
  through_cache settings clock stale p answer (some none) s =
      refresh settings clock stale p answer
        (record s { cache = cache_delete (carbon_cache_key p) s.cache })
  through_cache settings clock stale p answer (some (some r)) s =
      let next =
        refresh settings clock stale p answer
          (record s { cache = cache_delete (carbon_cache_key p) s.cache }) in
      if leb (age clock.at_cache r) (maximum_age settings stale)
      then (ok (aged (freshness_target settings) clock.at_cache r), s)
      else next

  -- `fixture` and `answer` are what the fixture and the configured provider answer for the place
  unfoldable pub reading :
      Settings
      → Clock
      → ℕ
      → Place
      → CarbonReading
      → Outcome ProviderError CarbonReading
      → State
      → Outcome ProviderError CarbonReading × State
  unfolding grid_override_state through_cache cache_get carbon_cache_key
  reading settings clock allow_stale_minutes p fixture answer s =
      let (override, s') = grid_override_state s in
      let next =
        through_cache settings clock allow_stale_minutes p answer
          (cache_get (carbon_cache_key p) s'.cache) s' in
      if settings.demo_mode
      then (ok fixture, s)
      else if override
      then (ok (override_reading clock.at_cache p), s')
      else next
