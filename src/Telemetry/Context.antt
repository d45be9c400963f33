-- ===== src/Telemetry/Context.antt =====
-- The context of a reading in a batch is that of the rows with the batch's own: _classify_and_build of
-- backend/app/services/telemetry_service.py.
use urja_setu.Base.{◌≡◌, refl, sym, ap, ◌∙◌, ℕ, Bool, true, false, ◌||◌, none, List, ◌++◌}
use urja_setu.Telemetry.Contract.{
  NormalizedReading, TelemetryReading, exists_for_interval, later, latest_interval_start,
}
use urja_setu.Telemetry.Quality.{classify_reading}
use urja_setu.Telemetry.Series.{
  exists_for_interval-append, latest_interval_start-append, later-none,
}
use urja_setu.Telemetry.Service.{Registry, classify_and_build}
use urja_setu.Telemetry.Staged.{Staged, staged_at, is_staged}
use urja_setu.Telemetry.Outcome.{series, outcome_of}
use urja_setu.Telemetry.Staging.{Tracks}

or_swap : (a b : Bool) → (a || b) ≡ (b || a)
or_swap true true = refl
or_swap true false = refl
or_swap false true = refl
or_swap false false = refl

module _ (at threshold : ℕ) (registry : Registry) where
  latest_own :
      (rows own : List TelemetryReading) (staged : Staged) (r : NormalizedReading)
      → Tracks registry staged own
      → later (latest_interval_start (series r) rows) (staged_at (series r) staged.staged_latest)
        ≡ later (latest_interval_start (series r) (rows ++ own)) none
  latest_own rows own staged r t =
      ap (later (latest_interval_start (series r) rows)) (t.latest (series r))
      ∙ sym (later-none _ ∙ latest_interval_start-append (series r) rows own)

  recorded_own :
      (rows own : List TelemetryReading) (staged : Staged) (r : NormalizedReading)
      → Tracks registry staged own
      → (is_staged (series r) r.interval_start staged.staged_intervals
          || exists_for_interval (series r) r.interval_start rows)
        ≡ exists_for_interval (series r) r.interval_start (rows ++ own)
  recorded_own rows own staged r t =
      let here = t.intervals (series r) r.interval_start in
      rw here (
        or_swap (exists_for_interval (series r) r.interval_start own)
          (exists_for_interval (series r) r.interval_start rows)
        ∙ sym (exists_for_interval-append (series r) r.interval_start rows own))

  -- The context of a reading in a batch is that of the rows with the batch's own.
  pub classify_and_build-Tracks :
      (rows own : List TelemetryReading) (staged : Staged) (r : NormalizedReading)
      → Tracks registry staged own
      → classify_and_build at threshold rows r
          (staged_at (series r) staged.staged_latest)
          (is_staged (series r) r.interval_start staged.staged_intervals)
        ≡ classify_and_build at threshold (rows ++ own) r none false
  unfolding classify_and_build
  classify_and_build-Tracks rows own staged r t =
      ap (λ context. outcome_of r (classify_reading r at context threshold))
        (λ i. record {
          latest_interval_start = latest_own rows own staged r t i;
          duplicate_exists = recorded_own rows own staged r t i;
        })
