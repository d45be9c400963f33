-- ===== src/Telemetry/Service.antt =====
-- Ingestion: ingest_reading and ingest_batch of backend/app/services/telemetry_service.py. The rows
-- are the state; the registered meters and assets are only read.
use urja_setu.Base.{
  ℕ, Bool, false, not, ◌||◌, length, Option, none, some, List, [], ◌∷◌, ◌++◌, if◌then◌else◌, Result,
  ok, ◌>>=◌, ◌>>◌, raise_if,
}
use urja_setu.Telemetry.Contract.{
  TelemetryQualityStatus, NormalizedReading, TelemetryReading, exists_for_interval, is_violation,
  later, latest_interval_start,
}
use urja_setu.Telemetry.Quality.{classify_reading}
use urja_setu.Telemetry.Outcome.{
  includes, is_storable, IngestionOutcome, to_model, series, outcome_of,
}
use urja_setu.Telemetry.Staged.{
  Staged, nothing_staged, staged_at, is_staged, stage_reading, remember, stage_stored,
}

pub data TelemetryError : Type 0 where
  meter_not_found energy_asset_not_found integrity : TelemetryError

pub record Registry : Type 0 where
  pub meters : List ℕ
  pub energy_assets : List ℕ

-- `_notify_site`
pub record TelemetryUpdated : Type 0 where
  pub entity_id : ℕ
  pub quality_status : TelemetryQualityStatus
  pub count : ℕ

-- `add_all` and its flush: the database takes the rows one by one, and raises at one it refuses.
unfoldable pub add_all :
    List TelemetryReading → List TelemetryReading → Result TelemetryError (List TelemetryReading)
unfolding is_violation
add_all [] rows = ok rows
add_all (row ∷ new) rows =
    raise_if (is_violation row rows) integrity >> add_all new (rows ++ row ∷ [])

-- What one reading leaves: the rows, the outcome and the notice, if one is sent.
pub record Ingestion : Type 0 where
  pub readings : List TelemetryReading
  pub outcome : IngestionOutcome
  pub notice : Option TelemetryUpdated

pub record BatchIngestion : Type 0 where
  pub readings : List TelemetryReading
  pub outcomes : List IngestionOutcome
  pub notice : Option TelemetryUpdated

-- The rows of the outcomes that have one.
unfoldable pub storable : List IngestionOutcome → List TelemetryReading
storable [] = []
storable (o ∷ outcomes) = elim o.reading [
  | none ↦ storable outcomes
  | some row ↦ row ∷ storable outcomes
]

abbrev pub notice_of : List TelemetryReading → ℕ → Option TelemetryUpdated
notice_of [] count = none
notice_of (row ∷ []) count =
    some (record { entity_id = row.meter_id; quality_status = row.quality_status; count = count })
notice_of (row ∷ next ∷ rows) count = notice_of (next ∷ rows) count

-- What `ingest_reading` adds for an outcome.
abbrev pub add :
    Option TelemetryReading → List TelemetryReading → Result TelemetryError (List TelemetryReading)
add none rows = ok rows
add (some row) rows = raise_if (is_violation row rows) integrity >> ok (rows ++ row ∷ [])

module _ (registry : Registry) where
  abbrev pub require_meter : ℕ → Result TelemetryError (Unit {0})
  require_meter id = raise_if (not (includes id registry.meters)) meter_not_found

  abbrev pub require_asset : Option ℕ → Result TelemetryError (Unit {0})
  require_asset none = ok tt
  require_asset (some id) =
      raise_if (not (includes id registry.energy_assets)) energy_asset_not_found

  -- The two checks of a batch, which are not repeated for what is verified.
  abbrev pub require_new_meter : ℕ → List ℕ → Result TelemetryError (Unit {0})
  require_new_meter id verified = if includes id verified then ok tt else require_meter id

  abbrev pub require_new_asset : Option ℕ → List ℕ → Result TelemetryError (Unit {0})
  require_new_asset none verified = ok tt
  require_new_asset (some id) verified =
      if includes id verified then ok tt else require_asset (some id)

module _ (evaluated_at staleness_threshold : ℕ) where
  unfoldable pub classify_and_build :
      List TelemetryReading
      → NormalizedReading
      → (extra_latest : Option ℕ) → (extra_duplicate : Bool) → IngestionOutcome
  unfolding latest_interval_start later exists_for_interval classify_reading is_storable to_model
  classify_and_build rows r extra_latest extra_duplicate = outcome_of r (
      classify_reading r evaluated_at
        (record {
          latest_interval_start = later (latest_interval_start (series r) rows) extra_latest;
          duplicate_exists =
              extra_duplicate || exists_for_interval (series r) r.interval_start rows;
        })
        staleness_threshold)

  module _ (registry : Registry) where
    unfoldable pub ingest_reading :
        List TelemetryReading → NormalizedReading → Result TelemetryError Ingestion
    unfolding classify_and_build includes is_violation
    ingest_reading rows r = do
      require_meter registry r.meter_id
      require_asset registry r.energy_asset_id
      let outcome = classify_and_build rows r none false
      readings ← add outcome.reading rows
      ok (record {
        readings = readings;
        outcome = outcome;
        notice = notice_of (storable (outcome ∷ [])) 1;
      })

    -- The loop over the readings, on the rows of before the batch.
    unfoldable pub batch_outcomes :
        List TelemetryReading
        → Staged
        → List NormalizedReading
        → Result TelemetryError (List IngestionOutcome)
    unfolding classify_and_build includes staged_at is_staged remember stage_reading
    batch_outcomes rows staged [] = ok []
    batch_outcomes rows staged (r ∷ readings) = do
      require_new_meter registry r.meter_id staged.verified_meters
      require_new_asset registry r.energy_asset_id staged.verified_assets
      let outcome =
          classify_and_build rows r (staged_at (series r) staged.staged_latest)
            (is_staged (series r) r.interval_start staged.staged_intervals)
      rest ← batch_outcomes rows (stage_stored r outcome (remember r staged)) readings
      ok (outcome ∷ rest)

    unfoldable pub ingest_batch :
        List TelemetryReading → List NormalizedReading → Result TelemetryError BatchIngestion
    unfolding batch_outcomes storable add_all
    ingest_batch rows readings = do
      outcomes ← batch_outcomes rows nothing_staged readings
      stored ← add_all (storable outcomes) rows
      ok (record {
        readings = stored;
        outcomes = outcomes;
        notice = notice_of (storable outcomes) (length (storable outcomes));
      })
