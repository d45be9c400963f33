-- ===== src/Telemetry/Tests.antt =====
-- Runs of the telemetry component on concrete input.
use urja_setu.Base.{
  ◌≡◌, refl, ℕ, true, false, ◌+◌, ◌||◌, is_some, if◌then◌else◌, Option, none, some, List, [], ◌∷◌,
  ◌++◌, Result, ok, err,
}
use urja_setu.Base.Decimal.{decimal, Signed, plain}
use urja_setu.Telemetry.Contract.{
  TelemetryQualityStatus, valid, missing, stale, out_of_order, duplicate, invalid_value, meter,
  NormalizedReading, TelemetryReading, exists_for_interval, has_any_measurement, overflows,
}
use urja_setu.Telemetry.Quality.{classify_reading, first_invalid_value}
use urja_setu.Telemetry.Service.{
  Registry, Ingestion, BatchIngestion, TelemetryError, integrity, meter_not_found, ingest_reading,
  ingest_batch, require_meter,
}
use urja_setu.Telemetry.Outcome.{IngestionOutcome, to_model, includes, series}
use urja_setu.Telemetry.Loop.{returned, left_by, ingest_each}
use urja_setu.Telemetry.Batch.{ingest_batch-ingest_each}
use urja_setu.Telemetry.Storing.{ingest_reading-returns}
use urja_setu.Telemetry.Gaps.{is_gap, ingest_batch-gap}

abbrev registry : Registry
registry = record { meters = 7 ∷ []; energy_assets = 3 ∷ [] }

abbrev measured_at : ℕ → Option Signed → NormalizedReading
measured_at start load = record {
  meter_id = 7;
  timestamp = start;
  interval_start = start;
  interval_end = start + 900;
  source = meter;
  energy_asset_id = none;
  generation_kw = none;
  load_kw = load;
  grid_import_kw = none;
  grid_export_kw = none;
  energy_kwh = none;
  battery_soc = none;
  source_unavailable = false;
}

abbrev load_of : ℕ → Option Signed
load_of n = some (plain (decimal n 1))

abbrev gap_at : ℕ → NormalizedReading
gap_at start = measured_at start none

abbrev statuses : Result TelemetryError BatchIngestion → List TelemetryQualityStatus
statuses (err e) = []
statuses (ok b) = all b.outcomes
  where
    all : List IngestionOutcome → List TelemetryQualityStatus
    all [] = []
    all (o ∷ outcomes) = o.assessment.status ∷ all outcomes

-- One upload: in order, the same interval again, a gap, an earlier interval, a negative load.
abbrev upload : List NormalizedReading
upload =
    measured_at 1800 (load_of 25)
    ∷ measured_at 1800 (load_of 30)
    ∷ gap_at 2700
    ∷ measured_at 900 (load_of 20)
    ∷ measured_at 3600 (some (record { negative = true; size = decimal 1 1 }))
    ∷ []

statuses-upload :
    statuses (ingest_batch 3000 1000 registry [] upload)
    ≡ valid ∷ duplicate ∷ missing ∷ out_of_order ∷ invalid_value ∷ []
unfolding ingest_batch
statuses-upload = refl

abbrev one_row : List TelemetryReading
unfolding to_model
one_row = to_model (measured_at 1800 (load_of 25)) (record { status = valid; reason = none }) ∷ []

recorded_gap_raises : ingest_reading 3000 1000 registry one_row (gap_at 1800) ≡ err integrity
unfolding ingest_reading one_row
recorded_gap_raises = refl

unknown_meter :
    ingest_reading 3000 1000 (record { meters = []; energy_assets = [] }) [] (gap_at 0)
    ≡ err meter_not_found
unfolding ingest_reading
unknown_meter = refl

late :
    (classify_reading
      (measured_at 0 (load_of 1))
      3000
      (record { latest_interval_start = none; duplicate_exists = false })
      1000).status
    ≡ stale
unfolding classify_reading
late = refl

ingest_batch-ingest_each_example :
    left_by (ingest_batch 3000 1000 registry [] upload)
    ≡ returned (ingest_each 3000 1000 registry [] upload)
ingest_batch-ingest_each_example = ingest_batch-ingest_each 3000 1000 registry [] upload

gap_recorded : exists_for_interval (series (gap_at 1800)) 1800 one_row ≡ true
unfolding exists_for_interval one_row
gap_recorded = refl

gap_is_gap : is_gap (gap_at 1800) ≡ true
unfolding is_gap
gap_is_gap = refl

ingest_batch-gap_example :
    left_by (
      ingest_batch 3000 1000 registry one_row
        ((measured_at 2700 (load_of 20) ∷ []) ++ gap_at 1800 ∷ []))
    ≡ none
ingest_batch-gap_example =
    ingest_batch-gap 3000 1000 registry one_row (measured_at 2700 (load_of 20) ∷ []) (gap_at 1800)
      [] gap_is_gap gap_recorded

registered : includes 7 registry.meters ≡ true
unfolding includes
registered = refl

measured : has_any_measurement (measured_at 2700 (load_of 20)) ≡ true
unfolding has_any_measurement
measured = refl

narrow : overflows (load_of 20) ≡ false
unfolding overflows
narrow = refl

nothing_overflows : overflows none ≡ false
unfolding overflows
nothing_overflows = refl

registered_meter : require_meter registry 7 ≡ ok tt
unfolding includes
registered_meter = refl

ingest_reading-returns_example :
    (i : Ingestion) × (ingest_reading 3000 1000 registry one_row (measured_at 2700 (load_of 20))
      ≡ ok i)
    × (i.readings ≡ (
        if is_some (first_invalid_value (measured_at 2700 (load_of 20)))
          || exists_for_interval (series (measured_at 2700 (load_of 20))) 2700 one_row
        then one_row
        else one_row ++ to_model (measured_at 2700 (load_of 20)) i.outcome.assessment ∷ []))
ingest_reading-returns_example =
    ingest_reading-returns 3000 1000 registry one_row (measured_at 2700 (load_of 20))
      registered_meter refl refl measured
      (nothing_overflows, narrow, nothing_overflows, nothing_overflows, nothing_overflows)
