-- ===== src/Telemetry/Contract.antt =====
-- What a telemetry adapter hands over and what is stored of it:
-- backend/app/domain/interfaces/telemetry.py, db/models/telemetry.py and domain/enums.py.
use urja_setu.Base.{
  ℕ, Bool, true, false, ◌==◌, ◌&&◌, ◌||◌, ltb, Option, none, some, is_some, List, [], ◌∷◌, any,
}
use urja_setu.Base.Decimal.{Decimal, decimal, less, quantize, Signed, is_below_zero}

pub data TelemetryQualityStatus : Type 0 where
  valid missing stale out_of_order duplicate invalid_value source_unavailable :
      TelemetryQualityStatus

unfoldable pub is_usable : TelemetryQualityStatus → Bool
is_usable valid = true
is_usable _ = false

pub data TelemetrySource : Type 0 where
  meter inverter simulator import manual : TelemetrySource

-- `none` is a channel that the device does not measure.
pub record NormalizedReading : Type 0 where
  pub meter_id : ℕ
  pub timestamp : ℕ
  pub interval_start : ℕ
  pub interval_end : ℕ
  pub source : TelemetrySource
  pub energy_asset_id : Option ℕ
  pub generation_kw : Option Signed
  pub load_kw : Option Signed
  pub grid_import_kw : Option Signed
  pub grid_export_kw : Option Signed
  pub energy_kwh : Option Signed
  pub battery_soc : Option Signed
  pub source_unavailable : Bool

unfoldable pub has_any_measurement : NormalizedReading → Bool
has_any_measurement r =
    is_some r.generation_kw
    || (is_some r.load_kw
        || (is_some r.grid_import_kw
            || (is_some r.grid_export_kw || (is_some r.energy_kwh || is_some r.battery_soc))))

-- The columns that a reading fills; the four energies by channel stay empty.
pub record TelemetryReading : Type 0 where
  pub meter_id : ℕ
  pub energy_asset_id : Option ℕ
  pub timestamp : ℕ
  pub interval_start : ℕ
  pub interval_end : ℕ
  pub generation_kw : Option Signed
  pub load_kw : Option Signed
  pub grid_import_kw : Option Signed
  pub grid_export_kw : Option Signed
  pub energy_kwh : Option Signed
  pub battery_soc : Option Signed
  pub quality_status : TelemetryQualityStatus
  pub source : TelemetrySource

-- A meter, and the asset that the reading is about, if it is about one.
pub record Series : Type 0 where
  pub meter_of : ℕ
  pub asset_of : Option ℕ

-- `_asset_predicate`, where NULL is equal to NULL.
unfoldable pub eqb_asset : Option ℕ → Option ℕ → Bool
eqb_asset none none = true
eqb_asset (some a) (some b) = a == b
eqb_asset _ _ = false

unfoldable pub eqb_series : Series → Series → Bool
unfolding eqb_asset
eqb_series s t = (s.meter_of == t.meter_of) && eqb_asset s.asset_of t.asset_of

abbrev pub series_of : TelemetryReading → Series
series_of row = record { meter_of = row.meter_id; asset_of = row.energy_asset_id }

-- A channel that a check keeps from being negative.
unfoldable pub is_negative : Option Signed → Bool
is_negative none = false
is_negative (some x) = is_below_zero x

abbrev pub battery_soc_max : Decimal
battery_soc_max = decimal 100 0

unfoldable pub is_no_percentage : Option Signed → Bool
unfolding less
is_no_percentage none = false
is_no_percentage (some x) = is_below_zero x || less battery_soc_max x.size

-- More than the 14 digits of a column that has 4 of them after the point.
unfoldable pub overflows : Option Signed → Bool
unfolding quantize
overflows none = false
overflows (some x) = ltb 99999999999999 (quantize 4 x.size)

-- The checks and the widths of the columns.
unfoldable pub is_out_of_bounds : TelemetryReading → Bool
unfolding is_negative is_no_percentage overflows
is_out_of_bounds row =
    ltb row.interval_end row.interval_start
    || (is_negative row.generation_kw
        || (is_negative row.load_kw
            || (is_negative row.grid_import_kw
                || (is_negative row.grid_export_kw
                    || (is_negative row.energy_kwh
                        || (is_no_percentage row.battery_soc
                            || (overflows row.generation_kw
                                || (overflows row.load_kw
                                    || (overflows row.grid_import_kw
                                        || (overflows row.grid_export_kw
                                            || overflows row.energy_kwh))))))))))

-- `exists_for_interval`
unfoldable pub exists_for_interval : Series → ℕ → List TelemetryReading → Bool
unfolding any eqb_series
exists_for_interval series start rows =
    any
      (λ (row : TelemetryReading).
        eqb_series (series_of row) series && (row.interval_start == start))
      rows

-- What the database does not take: a second row of the natural key, or one out of bounds.
unfoldable pub is_violation : TelemetryReading → List TelemetryReading → Bool
unfolding exists_for_interval is_out_of_bounds
is_violation row rows =
    exists_for_interval (series_of row) row.interval_start rows || is_out_of_bounds row

-- `max` of what is there.
unfoldable pub later : Option ℕ → Option ℕ → Option ℕ
later none b = b
later (some a) none = some a
later (some a) (some b) = elim (ltb a b) [ true ↦ some b | false ↦ some a ]

abbrev pub start_in : Series → TelemetryReading → Option ℕ
start_in series row = elim (eqb_series (series_of row) series) [
  | true ↦ some row.interval_start
  | false ↦ none
]

unfoldable pub latest_interval_start : Series → List TelemetryReading → Option ℕ
unfolding later eqb_series
latest_interval_start series [] = none
latest_interval_start series (row ∷ rows) =
    later (start_in series row) (latest_interval_start series rows)
