-- ===== src/Telemetry/Staged.antt =====
-- What a batch remembers of its own readings: the dictionaries and sets of ingest_batch in
-- backend/app/services/telemetry_service.py.
use urja_setu.Base.{
  ℕ, Bool, true, ◌&&◌, ◌==◌, ltb, Option, none, some, List, [], ◌∷◌, ◌++◌, any, if◌then◌else◌,
}
use urja_setu.Telemetry.Contract.{NormalizedReading, Series, eqb_series}
use urja_setu.Telemetry.Outcome.{includes, IngestionOutcome, is_stored, series}

-- What a batch has staged and verified so far.
pub record Staged : Type 0 where
  pub staged_latest : List (Series × ℕ)
  pub staged_intervals : List (Series × ℕ)
  pub verified_meters : List ℕ
  pub verified_assets : List ℕ

abbrev pub nothing_staged : Staged
nothing_staged = record {
  staged_latest = [];
  staged_intervals = [];
  verified_meters = [];
  verified_assets = [];
}

unfoldable pub staged_at : Series → List (Series × ℕ) → Option ℕ
unfolding eqb_series
staged_at s [] = none
staged_at s ((t, start) ∷ staged) = if eqb_series t s then some start else staged_at s staged

unfoldable pub stage : Series → ℕ → List (Series × ℕ) → List (Series × ℕ)
unfolding eqb_series
stage s start [] = (s, start) ∷ []
stage s start ((t, old) ∷ staged) =
    if eqb_series t s then (s, start) ∷ staged else (t, old) ∷ stage s start staged

unfoldable pub is_staged : Series → ℕ → List (Series × ℕ) → Bool
unfolding any eqb_series
is_staged s start staged =
    any (λ (entry : Series × ℕ). eqb_series entry.0 s && (entry.1 == start)) staged

-- The test of a reading against the latest one staged in its series.
abbrev pub is_newer : ℕ → Option ℕ → Bool
is_newer start none = true
is_newer start (some previous) = ltb previous start

unfoldable pub stage_reading : NormalizedReading → Staged → Staged
unfolding staged_at stage
stage_reading r staged = record {
  staged_latest =
      if is_newer r.interval_start (staged_at (series r) staged.staged_latest)
      then stage (series r) r.interval_start staged.staged_latest
      else staged.staged_latest;
  staged_intervals = staged.staged_intervals ++ (series r, r.interval_start) ∷ [];
  verified_meters = staged.verified_meters;
  verified_assets = staged.verified_assets;
}

abbrev pub remember_asset : Option ℕ → List ℕ → List ℕ
remember_asset none verified = verified
remember_asset (some id) verified = if includes id verified then verified else id ∷ verified

unfoldable pub remember : NormalizedReading → Staged → Staged
unfolding includes
remember r staged = record {
  staged_latest = staged.staged_latest;
  staged_intervals = staged.staged_intervals;
  verified_meters =
      if includes r.meter_id staged.verified_meters
      then staged.verified_meters
      else r.meter_id ∷ staged.verified_meters;
  verified_assets = remember_asset r.energy_asset_id staged.verified_assets;
}

-- `continue` on a reading that is not stored.
abbrev pub stage_stored : NormalizedReading → IngestionOutcome → Staged → Staged
stage_stored r o staged = if is_stored o then stage_reading r staged else staged
