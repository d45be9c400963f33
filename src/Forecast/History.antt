-- ===== src/Forecast/History.antt =====
-- The history that a provider is given: gather_history of
-- backend/app/services/forecast_service.py.
use urja_setu.Base.{ℕ, ◌-◌, true, ltb, Option, none, some, get_or, List, [], ◌∷◌, map}
use urja_setu.Base.Decimal.{Signed, add_signed}
use urja_setu.Base.Dict.{Dict, lookup, insert}
use urja_setu.Base.Sorting.{sorted}
use urja_setu.Identity.Store.{Meter}
use urja_setu.Telemetry.Contract.{TelemetryReading}
use urja_setu.Telemetry.Queries.{list_for_site}
use urja_setu.Forecast.Contract.{HistoricalObservation}

-- `_HistoryBucket`
pub record HistoryBucket : Type 0 where
  pub interval_end : ℕ
  pub generation_kw : Option Signed
  pub load_kw : Option Signed
  pub energy_kwh : Option Signed

unfoldable pub accumulate : Option Signed → Option Signed → Option Signed
unfolding add_signed
accumulate total none = total
accumulate none (some value) = some value
accumulate (some total) (some value) = some (add_signed total value)

unfoldable pub add_reading : HistoryBucket → TelemetryReading → HistoryBucket
unfolding accumulate
add_reading b row = record {
  interval_end = b.interval_end;
  generation_kw = accumulate b.generation_kw row.generation_kw;
  load_kw = accumulate b.load_kw row.load_kw;
  energy_kwh = accumulate b.energy_kwh row.energy_kwh;
}

abbrev pub new_bucket : TelemetryReading → HistoryBucket
new_bucket row = record {
  interval_end = row.interval_end;
  generation_kw = none;
  load_kw = none;
  energy_kwh = none;
}

unfoldable pub buckets_of : Dict HistoryBucket → List TelemetryReading → Dict HistoryBucket
unfolding lookup insert add_reading
buckets_of buckets [] = buckets
buckets_of buckets (row ∷ rows) =
    buckets_of
      (insert row.interval_start
        (add_reading (get_or (lookup row.interval_start buckets) (new_bucket row)) row) buckets)
      rows

abbrev pub observation : ℕ × HistoryBucket → HistoricalObservation
observation (start, b) = record {
  interval_start = start;
  interval_end = b.interval_end;
  generation_kw = b.generation_kw;
  load_kw = b.load_kw;
  energy_kwh = b.energy_kwh;
}

-- The difference stops at 0, the epoch, which is before every reading.
unfoldable pub gather_history :
    List Meter → List TelemetryReading → ℕ → (end window : ℕ) → List HistoricalObservation
unfolding list_for_site buckets_of sorted
gather_history meters readings site end window = map observation (
    sorted (λ (x : ℕ × HistoryBucket) (y : ℕ × HistoryBucket). ltb x.0 y.0)
      (buckets_of [] (list_for_site meters readings site (end - window) end true 100000 0)))
