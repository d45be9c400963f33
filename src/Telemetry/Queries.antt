-- ===== src/Telemetry/Queries.antt =====
-- What is read of a site's telemetry: the queries of backend/app/repositories/telemetry.py. Rows
-- that tie in an order stand as they were added.
use urja_setu.Base.{
  ℕ, zero, suc, Bool, true, ◌&&◌, ltb, leb, ◌==◌, Option, none, some, List, [], ◌∷◌, filter, any,
}
use urja_setu.Base.Sorting.{sorted}
use urja_setu.Identity.Store.{Meter}
use urja_setu.Telemetry.Contract.{TelemetryReading, is_usable}

-- The join through `meters.site_id`.
unfoldable pub is_at_site : List Meter → ℕ → TelemetryReading → Bool
unfolding any
is_at_site meters site row =
    any (λ (m : Meter). (m.id == row.meter_id) && (m.site_id == site)) meters

abbrev pub passes : Bool → TelemetryReading → Bool
passes true row = is_usable row.quality_status
passes _ row = true

unfoldable pub take : ℕ → List TelemetryReading → List TelemetryReading
take zero rows = []
take (suc n) [] = []
take (suc n) (row ∷ rows) = row ∷ take n rows

unfoldable pub drop : ℕ → List TelemetryReading → List TelemetryReading
drop zero rows = rows
drop (suc n) [] = []
drop (suc n) (row ∷ rows) = drop n rows

abbrev newest : List TelemetryReading → Option TelemetryReading
newest [] = none
newest (row ∷ rows) = some row

unfoldable pub latest_for_site :
    List Meter → List TelemetryReading → ℕ → (only_valid : Bool) → Option TelemetryReading
unfolding sorted filter is_at_site is_usable
latest_for_site meters rows site only_valid = newest (
    sorted (λ (x : TelemetryReading) (y : TelemetryReading). ltb y.interval_start x.interval_start)
      (filter (λ row. is_at_site meters site row && passes only_valid row) rows))

unfoldable pub list_for_site :
    List Meter
    → List TelemetryReading
    → ℕ
    → (start end : ℕ) → (only_valid : Bool) → (limit offset : ℕ) → List TelemetryReading
unfolding sorted filter is_at_site is_usable take drop
list_for_site meters rows site start end only_valid limit offset = take limit (
    drop offset (
      sorted (λ (x : TelemetryReading) (y : TelemetryReading). ltb x.timestamp y.timestamp)
        (filter
          (λ (row : TelemetryReading).
            is_at_site meters site row
            && (leb start row.timestamp && (leb row.timestamp end && passes only_valid row)))
          rows)))
