-- ===== src/Examples/Reading.antt =====
-- carbon/service.py where the provider fails and the last row of the table is an hour old.
use ecoroute_ht.Base.{◌≡◌, refl, ◌⊎◌, String, false, [], ◌∷◌, none, Outcome, raise, filter, min_by}
use ecoroute_ht.Numbers.{millionths}
use ecoroute_ht.Schemas.{Evidence}
use ecoroute_ht.Carbon.Reading.{
  Keys, ProviderError, Settings, Clock, Place, CarbonReading, State, reading, override_reading,
  carbon_lookup_key, carbon_cache_key, cache_get, through_cache, refresh, latest, from_rows, aged,
  grid_override_state, is_caught,
}
use ecoroute_ht.Carbon.Fresh.{IsAnswer, reading-IsAnswer}

abbrev keys : Keys String
keys = record {
  casefold = λ s. s;
  dashes = λ s. s;
  override_metadata = λ a b. "override";
  missing_metadata = λ a b. "missing";
}

abbrev settings : Settings
settings = record { demo_mode = false; freshness_target_minutes = 30 }

abbrev clock : Clock
clock = record { at_cache = 10000; after_provider = 10002; at_row = 10003 }

abbrev place : Place
place = record { zone = "DE"; provider = none; region = none }

abbrev last : CarbonReading millionths String keys
last = record {
  zone = "DE";
  intensity_gco2_kwh = 300000000;
  observed_at = 6400;
  fetched_at = 6410;
  source = "electricity-maps";
  evidence = Evidence.measured;
  metadata = "row";
}

abbrev state : State millionths String keys
state = record {
  override = none;
  cache = [];
  rows = record { lookup_key = "zone"; reading = last } ∷ [];
}

abbrev failed : Outcome ProviderError (CarbonReading millionths String keys)
failed = raise (ProviderError.http_error "ConnectTimeout")

abbrev stale_last : CarbonReading millionths String keys
stale_last = record last { evidence = Evidence.stale }

reading-IsAnswer_example :
    (stale_last ≡ override_reading millionths String keys 10000 place)
    ⊎ IsAnswer millionths String keys settings clock 120 place stale_last
unfolding reading carbon_lookup_key carbon_cache_key cache_get through_cache refresh latest
    from_rows aged grid_override_state is_caught filter min_by
reading-IsAnswer_example =
    reading-IsAnswer millionths String keys settings clock 120 place last failed state stale_last
      refl refl
