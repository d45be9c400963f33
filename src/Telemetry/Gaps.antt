-- ===== src/Telemetry/Gaps.antt =====
-- A gap that is reported for an interval that is already recorded: ingest_batch of
-- backend/app/services/telemetry_service.py and the precedence of
-- backend/app/domain/policies/telemetry_quality.py.
use urja_setu.Base.{
  false-is_true, ◌≡◌, ◌≢◌, refl, sym, ap, ◌∙◌, ℕ, Bool, true, false, not, ◌||◌, ◌&&◌, is_some, inl,
  inr, Bool-cases, Option, none, some, Option-cases, List, [], ◌∷◌, ◌++◌, Result, ok, err,
  Result-cases, >>=-eq-ok, raise_if-eq-ok, append_none, ok-injective, ◌>>=◌,
}
use urja_setu.Telemetry.Contract.{
  NormalizedReading, TelemetryReading, has_any_measurement, is_violation, exists_for_interval,
  series_of,
}
use urja_setu.Telemetry.Quality.{SeriesContext, first_invalid_value, classify_reading}
use urja_setu.Telemetry.Series.{exists_for_interval-append}
use urja_setu.Telemetry.Service.{
  TelemetryError, Registry, classify_and_build, add, Ingestion, ingest_reading, ingest_batch,
  require_meter, require_asset,
}
use urja_setu.Telemetry.Outcome.{is_storable, to_model, series, outcome_of}
use urja_setu.Telemetry.Loop.{returned, left_by, ingest_each}
use urja_setu.Telemetry.Batch.{ingest_batch-ingest_each}

-- A reading that reports no measurement: its source was unavailable, or nothing in it is measured,
-- and nothing impossible.
unfoldable pub is_gap : NormalizedReading → Bool
unfolding first_invalid_value has_any_measurement
is_gap r =
    r.source_unavailable || (not (is_some (first_invalid_value r)) && not (has_any_measurement r))

storable_gap :
    (r : NormalizedReading) (at : ℕ) (context : SeriesContext) (threshold : ℕ)
    → is_gap r ≡ true
    → is_storable (classify_reading r at context threshold).status ≡ true
unfolding is_gap classify_reading is_storable
storable_gap r at context threshold gap = elim (Bool-cases r.source_unavailable) [
  | inl unavailable ↦ rw unavailable refl
  | inr available ↦ elim (Option-cases (first_invalid_value r)) [
    | inr (x, invalid) ↦ absurd (false-is_true (rw (available, invalid) at gap))
    | inl possible ↦ elim (Bool-cases (has_any_measurement r)) [
      | inl measured ↦ absurd (false-is_true (rw (available, possible, measured) at gap))
      | inr empty ↦ rw (available, possible, empty) refl
    ]
  ]
]

outcome_of_gap :
    (r : NormalizedReading) (at : ℕ) (context : SeriesContext) (threshold : ℕ)
    → is_gap r ≡ true
    → (outcome_of r (classify_reading r at context threshold)).reading
      ≡ some (to_model r (classify_reading r at context threshold))
outcome_of_gap r at context threshold gap = rw (storable_gap r at context threshold gap) refl

add-ok :
    (reading : Option TelemetryReading) (rows : List TelemetryReading)
    {left : List TelemetryReading}
    → add reading rows ≡ ok left
    → (new : List TelemetryReading) × (left ≡ rows ++ new)
add-ok none rows h = ([], sym (ok-injective h) ∙ sym (append_none rows))
add-ok (some row) rows h =
    let (_, kept) = raise_if-eq-ok (is_violation row rows) _ _ h in
    (row ∷ [], sym (ok-injective kept))

is_violation_of_recorded :
    (row : TelemetryReading) (rows : List TelemetryReading)
    → exists_for_interval (series_of row) row.interval_start rows ≡ true
    → is_violation row rows ≡ true
unfolding is_violation
is_violation_of_recorded row rows old = rw old refl

lost :
    {A B : Type 0} (call : Result TelemetryError A) (rest : A → Result TelemetryError B)
    → returned call ≡ none
    → returned (call >>= rest) ≡ none
lost (err e) rest h = refl
lost (ok a) rest h = absurd cc

module _ (at threshold : ℕ) (registry : Registry) where
  ingest_reading-added :
      (rows : List TelemetryReading) (r : NormalizedReading) {i : Ingestion}
      → ingest_reading at threshold registry rows r ≡ ok i
      → add (classify_and_build at threshold rows r none false).reading rows ≡ ok i.readings
  unfolding ingest_reading
  ingest_reading-added rows r {i = i} h =
      let (_, _, registered) = >>=-eq-ok (require_meter registry r.meter_id) _ h in
      let (_, _, judged) = >>=-eq-ok (require_asset registry r.energy_asset_id) _ registered in
      let (left, added, built) =
        >>=-eq-ok (add (classify_and_build at threshold rows r none false).reading rows) _ judged in
      let same : left ≡ i.readings = ap (λ (j : Ingestion). j.readings) (ok-injective built) in
      added ∙ ap ok same

  -- What is recorded stays recorded.
  ingest_reading-appends :
      (rows : List TelemetryReading) (r : NormalizedReading) {i : Ingestion}
      → ingest_reading at threshold registry rows r ≡ ok i
      → (new : List TelemetryReading) × (i.readings ≡ rows ++ new)
  ingest_reading-appends rows r h = add-ok _ rows (ingest_reading-added rows r h)

  ingest_reading-gap :
      (rows : List TelemetryReading) (r : NormalizedReading) {i : Ingestion}
      → is_gap r ≡ true
      → exists_for_interval (series r) r.interval_start rows ≡ true
      → ingest_reading at threshold registry rows r ≢ ok i
  unfolding classify_and_build
  ingest_reading-gap rows r gap old h =
      let added = ingest_reading-added rows r h in
      let a = (classify_and_build at threshold rows r none false).assessment in
      let written : add (some (to_model r a)) rows ≡ ok _ =
        ap (λ reading. add reading rows) (sym (outcome_of_gap r at _ threshold gap)) ∙ added in
      let (taken, _) = raise_if-eq-ok (is_violation (to_model r a) rows) _ _ written in
      let refused = is_violation_of_recorded (to_model r a) rows old in absurd cc

  ingest_each-gap :
      (rows : List TelemetryReading) (before : List NormalizedReading) (r : NormalizedReading)
      (after : List NormalizedReading)
      → is_gap r ≡ true
      → exists_for_interval (series r) r.interval_start rows ≡ true
      → returned (ingest_each at threshold registry rows (before ++ r ∷ after)) ≡ none
  unfolding ingest_each
  ingest_each-gap rows [] r after gap old =
      elim (Result-cases (ingest_reading at threshold registry rows r)) [
        | inr (e, raised) ↦ rw raised refl
        | inl (i, ingested) ↦ absurd (ingest_reading-gap rows r gap old ingested)
      ]
  ingest_each-gap rows (b ∷ before) r after gap old =
      elim (Result-cases (ingest_reading at threshold registry rows b)) [
        | inr (e, raised) ↦ rw raised refl
        | inl (i, ingested) ↦
            let (new, appended) = ingest_reading-appends rows b ingested in
            let kept : exists_for_interval (series r) r.interval_start i.readings ≡ true =
              rw (appended, exists_for_interval-append (series r) r.interval_start rows new, old)
                refl in
            rw ingested (lost _ _ (ingest_each-gap i.readings before r after gap kept))
      ]

  -- A reading that reports no measurement, for an interval of its series that is recorded already,
  -- takes the whole of its batch down: the call raises, and nothing of the batch is kept.
  pub ingest_batch-gap :
      (rows : List TelemetryReading) (before : List NormalizedReading) (r : NormalizedReading)
      (after : List NormalizedReading)
      → is_gap r ≡ true
      → exists_for_interval (series r) r.interval_start rows ≡ true
      → left_by (ingest_batch at threshold registry rows (before ++ r ∷ after)) ≡ none
  ingest_batch-gap rows before r after gap old =
      ingest_batch-ingest_each at threshold registry rows (before ++ r ∷ after)
      ∙ ingest_each-gap rows before r after gap old
