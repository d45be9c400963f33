-- ===== src/Forecast/Store.antt =====
-- The rows of forecasts and their queries: backend/app/db/models/forecasting.py and
-- repositories/forecasting.py.
use urja_setu.Base.{
  ℕ, Bool, true, false, ◌&&◌, ◌||◌, ◌==◌, ltb, leb, Option, none, some, List, [], ◌∷◌, map, any,
  filter,
}
use urja_setu.Base.Int.{ℤ, ltb_ℤ, pos, neg}
use urja_setu.Base.Decimal.{Signed, quantize}
use urja_setu.Base.Dict.{Dict, lookup, insert}
use urja_setu.Base.Rows.{find_row}
use urja_setu.Base.Sorting.{sorted}
use urja_setu.Forecast.Contract.{ForecastType, same_type, ForecastRunStatus, completed}

pub record ForecastRun : Type 0 where
  pub id : ℕ
  pub forecast_type : ForecastType
  pub provider : ℕ
  pub model_version : ℕ
  pub horizon_start : ℕ
  pub horizon_end : ℕ
  pub status : ForecastRunStatus
  pub created_at : ℕ

pub record ForecastPoint : Type 0 where
  pub forecast_run_id : ℕ
  pub site_id : ℕ
  pub interval_start : ℕ
  pub interval_end : ℕ
  pub predicted_kw : Option ℤ
  pub predicted_kwh : Option ℤ
  pub confidence : Option ℤ
  pub lower_bound : Option ℤ
  pub upper_bound : Option ℤ

pub record Forecasts : Type 0 where
  pub runs : List ForecastRun
  pub points : List ForecastPoint
  pub next_id : ℕ

-- A column of four places.
unfoldable pub to_column : Option Signed → Option ℤ
unfolding quantize neg
to_column none = none
to_column (some x) =
    some
      (elim x.negative [ true ↦ neg (pos (quantize 4 x.size)) | false ↦ pos (quantize 4 x.size) ])

abbrev pub are_reversed : Option ℤ → Option ℤ → Bool
are_reversed (some lower) (some upper) = ltb_ℤ upper lower
are_reversed _ _ = false

abbrev pub is_same_bucket : ForecastPoint → ForecastPoint → Bool
is_same_bucket p q =
    (p.forecast_run_id == q.forecast_run_id)
    && ((p.site_id == q.site_id) && (p.interval_start == q.interval_start))

-- The unique key, and the checks that the service does not make itself; the widths of the columns
-- are left out.
unfoldable pub is_point_refused : ForecastPoint → List ForecastPoint → Bool
unfolding any
is_point_refused p points =
    any (is_same_bucket p) points
    || (leb p.interval_end p.interval_start || are_reversed p.lower_bound p.upper_bound)

abbrev pub find_run : ℕ → List ForecastRun → Option ForecastRun
find_run id runs = find_row (λ (r : ForecastRun). r.id) id runs

abbrev pub is_completed : ForecastRunStatus → Bool
is_completed completed = true
is_completed _ = false

abbrev pub is_of_type : Option ForecastType → ForecastType → Bool
is_of_type none type = true
is_of_type (some wanted) type = same_type type wanted

-- A point with the time at which its run was made.
pub record DatedPoint : Type 0 where
  pub made_at : ℕ
  pub point : ForecastPoint

-- The join on the runs that are completed and of the type.
unfoldable pub dated : Option ForecastType → List ForecastRun → List ForecastPoint → List DatedPoint
unfolding find_row
dated type runs [] = []
dated type runs (p ∷ points) =
    let rest = dated type runs points in
    elim (find_run p.forecast_run_id runs) [
      | none ↦ rest
      | some run ↦ elim (is_completed run.status && is_of_type type run.forecast_type) [
        | true ↦ record { made_at = run.created_at; point = p } ∷ rest
        | false ↦ rest
      ]
    ]

abbrev pub is_in_window : ℕ → ℕ → ℕ → DatedPoint → Bool
is_in_window site start end d =
    (d.point.site_id == site)
    && (leb start d.point.interval_start && ltb d.point.interval_start end)

-- By interval, and the newest run last.
abbrev pub comes_before : DatedPoint → DatedPoint → Bool
comes_before x y =
    ltb x.point.interval_start y.point.interval_start
    || ((x.point.interval_start == y.point.interval_start) && ltb x.made_at y.made_at)

unfoldable pub dated_for_site :
    ℕ → (start end : ℕ) → Option ForecastType → Forecasts → List DatedPoint
unfolding dated filter sorted
dated_for_site site start end type f =
    sorted comes_before (filter (is_in_window site start end) (dated type f.runs f.points))

abbrev pub point_of : DatedPoint → ForecastPoint
point_of d = d.point

-- `list_for_site`
unfoldable pub points_for_site :
    ℕ → (start end : ℕ) → Option ForecastType → Forecasts → List ForecastPoint
unfolding dated_for_site
points_for_site site start end type f = map point_of (dated_for_site site start end type f)

-- The loop that keeps the last point of each interval.
unfoldable pub keep_last : Dict ForecastPoint → List ForecastPoint → Dict ForecastPoint
unfolding insert
keep_last newest [] = newest
keep_last newest (p ∷ points) = keep_last (insert p.interval_start p newest) points

-- `[newest[key] for key in ...]`; every key is there.
unfoldable pub values_at : Dict ForecastPoint → List ℕ → List ForecastPoint
unfolding lookup
values_at newest [] = []
values_at newest (key ∷ keys) =
    let rest = values_at newest keys in elim (lookup key newest) [ none ↦ rest | some p ↦ p ∷ rest ]

unfoldable pub latest_per_interval_for_site :
    ℕ → (start end : ℕ) → ForecastType → Forecasts → List ForecastPoint
unfolding points_for_site keep_last values_at sorted
latest_per_interval_for_site site start end type f =
    let newest = keep_last [] (points_for_site site start end (some type) f) in
    values_at newest (sorted ltb (map (λ (entry : ℕ × ForecastPoint). entry.0) newest))
