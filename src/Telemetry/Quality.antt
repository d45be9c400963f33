-- ===== src/Telemetry/Quality.antt =====
-- The classification of a reading: backend/app/domain/policies/telemetry_quality.py. A reason is
-- the branch that writes it.
use urja_setu.Base.{ℕ, Bool, false, ◌+◌, ltb, Option, none, some, List, [], ◌∷◌, if◌then◌else◌}
use urja_setu.Base.Decimal.{Signed}
use urja_setu.Telemetry.Contract.{
  TelemetryQualityStatus, valid, missing, stale, out_of_order, duplicate, invalid_value,
  source_unavailable, NormalizedReading, has_any_measurement, is_negative, is_no_percentage,
}

-- Fifteen minutes.
abbrev pub default_staleness_threshold : ℕ
default_staleness_threshold = 900000000

pub record SeriesContext : Type 0 where
  pub latest_interval_start : Option ℕ
  pub duplicate_exists : Bool

pub data Channel : Type 0 where
  generation load grid_import grid_export energy : Channel

pub data InvalidValue : Type 0 where
  interval_reversed soc_out_of_range : InvalidValue
  negative_channel : Channel → InvalidValue

pub data QualityReason : Type 0 where
  reported_unavailable nothing_measured already_recorded precedes_latest too_old : QualityReason
  impossible : InvalidValue → QualityReason

pub record QualityAssessment : Type 0 where
  pub status : TelemetryQualityStatus
  pub reason : Option QualityReason

abbrev pub assessed : TelemetryQualityStatus → QualityReason → QualityAssessment
assessed status reason = record { status = status; reason = some reason }

abbrev pub value_of : NormalizedReading → Channel → Option Signed
value_of r generation = r.generation_kw
value_of r load = r.load_kw
value_of r grid_import = r.grid_import_kw
value_of r grid_export = r.grid_export_kw
value_of r energy = r.energy_kwh

-- The loop over the channels, and what follows it.
unfoldable pub first_negative :
    NormalizedReading → List Channel → Option InvalidValue → Option InvalidValue
unfolding is_negative
first_negative r [] rest = rest
first_negative r (c ∷ channels) rest =
    if is_negative (value_of r c) then some (negative_channel c) else first_negative r channels rest

unfoldable pub first_invalid_value : NormalizedReading → Option InvalidValue
unfolding first_negative is_no_percentage
first_invalid_value r =
    if ltb r.interval_end r.interval_start
    then some interval_reversed
    else first_negative r (generation ∷ load ∷ grid_import ∷ grid_export ∷ energy ∷ [])
        (if is_no_percentage r.battery_soc then some soc_out_of_range else none)

abbrev pub precedes : ℕ → Option ℕ → Bool
precedes start none = false
precedes start (some latest) = ltb start latest

-- What is said of a reading that was measured and is possible.
unfoldable pub classify_measured : NormalizedReading → ℕ → SeriesContext → ℕ → QualityAssessment
classify_measured r at context threshold =
    if context.duplicate_exists
    then assessed duplicate already_recorded
    else if precedes r.interval_start context.latest_interval_start
    then assessed out_of_order precedes_latest
    else if ltb (r.interval_end + threshold) at
    then assessed stale too_old
    else record { status = valid; reason = none }

unfoldable pub classify_reading :
    NormalizedReading
    → (evaluated_at : ℕ) → SeriesContext
    → (staleness_threshold : ℕ) → QualityAssessment
unfolding first_invalid_value has_any_measurement classify_measured
classify_reading r at context threshold =
    if r.source_unavailable
    then assessed source_unavailable reported_unavailable
    else elim (first_invalid_value r) [
      | some invalid ↦ assessed invalid_value (impossible invalid)
      | none ↦
          if has_any_measurement r
          then classify_measured r at context threshold
          else assessed missing nothing_measured
    ]
