-- ===== src/Telemetry/Outcome.antt =====
-- What one reading comes to: IngestionOutcome, NON_STORABLE_STATUSES and _to_model of
-- backend/app/services/telemetry_service.py.
use urja_setu.Base.{
  ℕ, Bool, true, false, ◌&&◌, ◌==◌, length, Option, none, some, is_some, List, any, filter,
  if◌then◌else◌,
}
use urja_setu.Telemetry.Contract.{
  TelemetryQualityStatus, duplicate, invalid_value, is_usable, NormalizedReading, TelemetryReading,
  Series,
}
use urja_setu.Telemetry.Quality.{QualityAssessment}

unfoldable pub includes : ℕ → List ℕ → Bool
unfolding any
includes id ids = any (λ j. j == id) ids

unfoldable pub is_storable : TelemetryQualityStatus → Bool
is_storable duplicate = false
is_storable invalid_value = false
is_storable _ = true

pub record IngestionOutcome : Type 0 where
  pub assessment : QualityAssessment
  pub reading : Option TelemetryReading

-- `stored`
abbrev pub is_stored : IngestionOutcome → Bool
is_stored o = is_some o.reading

-- `accepted`
unfoldable pub accepted : List IngestionOutcome → ℕ
unfolding filter is_usable
accepted outcomes =
    length
      (filter (λ (o : IngestionOutcome). is_usable o.assessment.status && is_stored o) outcomes)

unfoldable pub to_model : NormalizedReading → QualityAssessment → TelemetryReading
to_model r assessment = record {
  meter_id = r.meter_id;
  energy_asset_id = r.energy_asset_id;
  timestamp = r.timestamp;
  interval_start = r.interval_start;
  interval_end = r.interval_end;
  generation_kw = r.generation_kw;
  load_kw = r.load_kw;
  grid_import_kw = r.grid_import_kw;
  grid_export_kw = r.grid_export_kw;
  energy_kwh = r.energy_kwh;
  battery_soc = r.battery_soc;
  quality_status = assessment.status;
  source = r.source;
}

abbrev pub series : NormalizedReading → Series
series r = record { meter_of = r.meter_id; asset_of = r.energy_asset_id }

abbrev pub outcome_of : NormalizedReading → QualityAssessment → IngestionOutcome
outcome_of r assessment = record {
  assessment = assessment;
  reading = if is_storable assessment.status then some (to_model r assessment) else none;
}
