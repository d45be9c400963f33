-- ===== src/Telemetry/Storing.antt =====
-- What the classification promises the database: ingest_reading of
-- backend/app/services/telemetry_service.py.
use urja_setu.Base.{
  some-injective, test_passed, none-is_some, false-is_true, ◌≡◌, refl, sym, ap, ◌∙◌, ℕ, true, false,
  Bool, ◌+◌, not, is_some, if◌then◌else◌, ◌||◌, ltb, inl, inr, Bool-cases, Option, none, some,
  Option-cases, List, [], ◌∷◌, ◌++◌, append_none, subst, ok,
}
use urja_setu.Telemetry.Contract.{
  NormalizedReading, TelemetryReading, has_any_measurement, overflows, is_out_of_bounds,
  is_violation, is_negative, is_no_percentage, exists_for_interval, series_of, later,
  latest_interval_start, valid, stale, out_of_order,
}
use urja_setu.Telemetry.Quality.{
  SeriesContext, QualityAssessment, first_invalid_value, classify_measured, classify_reading,
  interval_reversed, first_negative, assessed, precedes, precedes_latest, too_old,
}
use urja_setu.Telemetry.Service.{
  Registry, classify_and_build, add, storable, Ingestion, ingest_reading, require_meter,
  require_asset,
}
use urja_setu.Telemetry.Outcome.{is_storable, to_model, series, outcome_of}

-- No channel is wider than its column.
abbrev pub FitsColumns : NormalizedReading → Type 0
FitsColumns r =
    (overflows r.generation_kw ≡ false)
    × (overflows r.load_kw ≡ false)
    × (overflows r.grid_import_kw ≡ false)
    × (overflows r.grid_export_kw ≡ false)
    × (overflows r.energy_kwh ≡ false)

is_out_of_bounds_of_possible :
    (r : NormalizedReading) (a : QualityAssessment)
    → first_invalid_value r ≡ none
    → FitsColumns r
    → is_out_of_bounds (to_model r a) ≡ false
unfolding first_invalid_value first_negative is_out_of_bounds to_model
is_out_of_bounds_of_possible r a h fits =
    let (ordered, h1) = test_passed (ltb r.interval_end r.interval_start) interval_reversed _ h in
    let (generation, h2) = test_passed (is_negative r.generation_kw) _ _ h1 in
    let (load, h3) = test_passed (is_negative r.load_kw) _ _ h2 in
    let (import, h4) = test_passed (is_negative r.grid_import_kw) _ _ h3 in
    let (export, h5) = test_passed (is_negative r.grid_export_kw) _ _ h4 in
    let (energy, h6) = test_passed (is_negative r.energy_kwh) _ _ h5 in
    let (soc, h7) = test_passed (is_no_percentage r.battery_soc) _ _ h6 in
    rw
      (
        ordered, generation, load, import, export, energy, soc, fits.0, fits.1, fits.2, fits.3,
        fits.4,
      )
      refl

abbrev context_of : List TelemetryReading → NormalizedReading → SeriesContext
context_of rows r = record {
  latest_interval_start = later (latest_interval_start (series r) rows) none;
  duplicate_exists = false || exists_for_interval (series r) r.interval_start rows;
}

-- A reading that is written was possible and new.
storable_measured :
    (r : NormalizedReading) (at : ℕ) (context : SeriesContext) (threshold : ℕ)
    → r.source_unavailable ≡ false
    → has_any_measurement r ≡ true
    → is_storable (classify_reading r at context threshold).status ≡ true
    → (first_invalid_value r ≡ none) × (context.duplicate_exists ≡ false)
unfolding classify_reading classify_measured is_storable
storable_measured r at context threshold available measured kept =
    elim (Option-cases (first_invalid_value r)) [
      | inr (x, invalid) ↦ absurd (false-is_true (rw (available, invalid) at kept))
      | inl possible ↦ elim (Bool-cases context.duplicate_exists) [
        | inr new ↦ (possible, new)
        | inl old ↦ absurd (false-is_true (rw (available, possible, measured, old) at kept))
      ]
    ]

added :
    (a : QualityAssessment) (reading : Option TelemetryReading) (rows : List TelemetryReading)
    → ((row : TelemetryReading) → reading ≡ some row → is_violation row rows ≡ false)
    → add reading rows ≡ ok (rows ++ storable (record { assessment = a; reading = reading } ∷ []))
unfolding storable
added a none rows taken = ap ok (sym (append_none rows))
added a (some row) rows taken = rw (taken row refl) refl

storable_taken :
    (r : NormalizedReading) (a : QualityAssessment) (rows : List TelemetryReading)
    → (is_storable a.status ≡ true → is_violation (to_model r a) rows ≡ false)
    → (row : TelemetryReading) → (outcome_of r a).reading ≡ some row
    → is_violation row rows ≡ false
storable_taken r a rows taken row h = elim (Bool-cases (is_storable a.status)) [
  | inr dropped ↦ absurd (none-is_some row (rw dropped at h))
  | inl kept ↦ subst (λ x. is_violation x rows ≡ false) (some-injective (rw kept at h)) (taken kept)
]

is_violation_of_neither :
    (row : TelemetryReading) (rows : List TelemetryReading)
    → exists_for_interval (series_of row) row.interval_start rows ≡ false
    → is_out_of_bounds row ≡ false
    → is_violation row rows ≡ false
unfolding is_violation
is_violation_of_neither row rows new bounded = rw (new, bounded) refl

is_violation_of_measured :
    (at threshold : ℕ) (rows : List TelemetryReading) (r : NormalizedReading)
    (context : SeriesContext)
    → r.source_unavailable ≡ false
    → has_any_measurement r ≡ true
    → FitsColumns r
    → context.duplicate_exists ≡ exists_for_interval (series r) r.interval_start rows
    → is_storable (classify_reading r at context threshold).status ≡ true
    → is_violation (to_model r (classify_reading r at context threshold)) rows ≡ false
unfolding to_model
is_violation_of_measured at threshold rows r context available measured fits e kept =
    let (possible, new) = storable_measured r at context threshold available measured kept in
    let row = to_model r (classify_reading r at context threshold) in
    is_violation_of_neither row rows (sym e ∙ new)
      (is_out_of_bounds_of_possible r (classify_reading r at context threshold) possible fits)

kept_if_new :
    (follows is_old : Bool)
    → is_storable
        (if follows
          then assessed out_of_order precedes_latest
          else if is_old
          then assessed stale too_old
          else record { status = valid; reason = none }).status
      ≡ true
unfolding is_storable
kept_if_new true is_old = refl
kept_if_new false true = refl
kept_if_new false false = refl

-- What is written of a reading that was available and measured: nothing where it is impossible or its
-- interval is recorded, and else the reading with its status, valid, late or stale.
is_storable_of_measured :
    (r : NormalizedReading) (at : ℕ) (context : SeriesContext) (threshold : ℕ)
    → r.source_unavailable ≡ false
    → has_any_measurement r ≡ true
    → is_storable (classify_reading r at context threshold).status
      ≡ not (is_some (first_invalid_value r) || context.duplicate_exists)
unfolding classify_reading classify_measured is_storable
is_storable_of_measured r at context threshold available measured =
    elim (Option-cases (first_invalid_value r)) [
      | inr (x, invalid) ↦ rw (available, invalid) refl
      | inl possible ↦ elim (Bool-cases context.duplicate_exists) [
        | inl old ↦ rw (available, possible, measured, old) refl
        | inr new ↦
            rw (available, possible, measured, new)
              (kept_if_new (precedes r.interval_start context.latest_interval_start)
                (ltb (r.interval_end + threshold) at))
      ]
    ]

storable_unless :
    (r : NormalizedReading) (a : QualityAssessment) (rows : List TelemetryReading)
    (is_dropped : Bool)
    → is_storable a.status ≡ not is_dropped
    → (rows ++ storable (outcome_of r a ∷ []))
      ≡ (if is_dropped then rows else rows ++ to_model r a ∷ [])
unfolding storable
storable_unless r a rows true h = rw h (append_none rows)
storable_unless r a rows false h = rw h refl

module _ (at threshold : ℕ) (registry : Registry) where
  -- A reading of a registered meter, of its asset if it names one, that was available, measures
  -- something and fits the columns is always ingested: the call returns; where the reading is
  -- impossible or its series has a reading of its interval, the rows stay as they were, and else
  -- they have one more, which is the reading with the status that it was given.
  pub ingest_reading-returns :
      (rows : List TelemetryReading) (r : NormalizedReading)
      → require_meter registry r.meter_id ≡ ok tt
      → require_asset registry r.energy_asset_id ≡ ok tt
      → r.source_unavailable ≡ false
      → has_any_measurement r ≡ true
      → FitsColumns r
      → (i : Ingestion) × (ingest_reading at threshold registry rows r ≡ ok i)
        × (i.readings ≡ (
            if is_some (first_invalid_value r)
              || exists_for_interval (series r) r.interval_start rows
            then rows
            else rows ++ to_model r i.outcome.assessment ∷ []))
  unfolding ingest_reading classify_and_build
  ingest_reading-returns rows r meter asset available measured fits =
      let o = classify_and_build at threshold rows r none false in
      rw
        (
          meter,
          asset,
          added o.assessment o.reading rows (
              storable_taken r o.assessment rows (
                is_violation_of_measured at threshold rows r (context_of rows r) available measured
                  fits refl)),
        )
        (
          _,
          refl,
          storable_unless r o.assessment rows _
              (is_storable_of_measured r at (context_of rows r) threshold available measured),
        )
