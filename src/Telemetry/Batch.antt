-- ===== src/Telemetry/Batch.antt =====
-- A batch against its readings one by one: ingest_batch and ingest_reading of
-- backend/app/services/telemetry_service.py.
use urja_setu.Base.{
  ok-is_err, ◌≡◌, subst, is_some, refl, sym, ap, ◌∙◌, ℕ, false, inl, inr, ◌⊎◌, Bool-cases, none,
  some, List, [], ◌∷◌, ◌++◌, append_none, append_assoc, if◌then◌else◌, Result, ok, err, ◌>>=◌, ◌>>◌,
  Result-cases, >>=-eq-ok,
}
use urja_setu.Telemetry.Contract.{NormalizedReading, TelemetryReading, is_violation}
use urja_setu.Telemetry.Quality.{QualityAssessment}
use urja_setu.Telemetry.Service.{
  TelemetryError, integrity, Registry, classify_and_build, add, add_all, storable, ingest_reading,
  batch_outcomes, ingest_batch, require_meter, require_asset,
}
use urja_setu.Telemetry.Staged.{Staged, nothing_staged, stage_reading, stage_stored, remember}
use urja_setu.Telemetry.Outcome.{is_storable, to_model, outcome_of, IngestionOutcome}
use urja_setu.Telemetry.Staging.{
  Tracks, stage_reading-Tracks, remember-Tracks, nothing_staged-Tracks, require_new_meter-Tracks,
  require_new_asset-Tracks,
}
use urja_setu.Telemetry.Loop.{
  returned, left_by, ingest_each, finish, prepend, cons_outcome, each_after, finish_unstored,
  finish_stored, finish_refused,
}
use urja_setu.Telemetry.Context.{classify_and_build-Tracks}

module _ (at threshold : ℕ) (registry : Registry) where
  outcome-cases :
      (r : NormalizedReading) (a : QualityAssessment)
      → ((outcome_of r a).reading ≡ none) ⊎ ((outcome_of r a).reading ≡ some (to_model r a))
  outcome-cases r a = elim (Bool-cases (is_storable a.status)) [
    | inl kept ↦ rw kept (inr refl)
    | inr dropped ↦ rw dropped (inl refl)
  ]

  abbrev add_each :
      IngestionOutcome
      → List NormalizedReading
      → Result TelemetryError (List TelemetryReading)
      → Result TelemetryError (List TelemetryReading × List IngestionOutcome)
  add_each o readings call = call >>= λ left.
      ingest_each at threshold registry left readings >>= λ rest. ok (rest.0, o ∷ rest.1)

  continued :
      List TelemetryReading
      → Staged
      → NormalizedReading
      → List NormalizedReading
      → IngestionOutcome
      → Result TelemetryError (List IngestionOutcome)
  continued rows staged r readings o =
      cons_outcome o (batch_outcomes at threshold registry rows (stage_stored r o staged) readings)

  -- One reading more, of an outcome that is the same in both.
  after_outcome :
      (rows own : List TelemetryReading) (staged : Staged) (r : NormalizedReading)
      (readings : List NormalizedReading) (a : QualityAssessment) (o : IngestionOutcome)
      → (o.reading ≡ none) ⊎ (o.reading ≡ some (to_model r a))
      → ((later_own : List TelemetryReading) (later_staged : Staged)
          → Tracks registry later_staged later_own
          → returned (
              finish
                (rows ++ later_own)
                (batch_outcomes at threshold registry rows later_staged readings))
            ≡ returned (ingest_each at threshold registry (rows ++ later_own) readings))
      → Tracks registry staged own
      → returned (
          finish (rows ++ own) (
            cons_outcome o
              (batch_outcomes at threshold registry rows (stage_stored r o staged) readings)))
        ≡ returned (add_each o readings (add o.reading (rows ++ own)))
  after_outcome rows own staged r readings a o (inl unstored) rest t =
      let now = rows ++ own in
      let passed : stage_stored r o staged ≡ staged =
        ap (λ reading. if is_some reading then stage_reading r staged else staged) unstored in
      finish_unstored o now _ unstored
      ∙ ap
          (λ state.
            prepend o
              (returned (finish now (batch_outcomes at threshold registry rows state readings))))
          passed
      ∙ ap (prepend o) (rest own staged t)
      ∙ sym (each_after o (ingest_each at threshold registry now readings))
      ∙ ap (λ reading. returned (add_each o readings (add reading now))) (sym unstored)
  after_outcome rows own staged r readings a o (inr stored) rest t =
      let row = to_model r a in
      let now = rows ++ own in
      let new = stage_reading r staged in
      let passed : stage_stored r o staged ≡ new =
        ap (λ reading. if is_some reading then new else staged) stored in
      let batch = batch_outcomes at threshold registry rows (stage_stored r o staged) readings in
      let tracked = stage_reading-Tracks registry staged own r a t in
      elim (Bool-cases (is_violation row now)) [
        | inl refused ↦
            let raised : add (some row) now ≡ err integrity = rw refused refl in
            finish_refused o row now batch stored refused
            ∙ ap (λ call. returned (add_each o readings call)) (sym raised)
            ∙ ap (λ reading. returned (add_each o readings (add reading now))) (sym stored)
        | inr taken ↦
            let added : add (some row) now ≡ ok (now ++ row ∷ []) = rw taken refl in
            finish_stored o row now batch stored taken
            ∙ ap
                (λ state. prepend o (
                  returned (
                    finish (now ++ row ∷ [])
                      (batch_outcomes at threshold registry rows state readings))))
                passed
            ∙ ap
                (λ left.
                  prepend o (
                    returned
                      (finish left (batch_outcomes at threshold registry rows new readings))))
                (append_assoc rows own (row ∷ []))
            ∙ ap (prepend o) (rest (own ++ row ∷ []) new tracked)
            ∙ ap (λ left. prepend o (returned (ingest_each at threshold registry left readings)))
                (sym (append_assoc rows own (row ∷ [])))
            ∙ sym (each_after o (ingest_each at threshold registry (now ++ row ∷ []) readings))
            ∙ ap (λ call. returned (add_each o readings call)) (sym added)
            ∙ ap (λ reading. returned (add_each o readings (add reading now))) (sym stored)
      ]

  ingest_each_step :
      (now : List TelemetryReading) (r : NormalizedReading) (readings : List NormalizedReading)
      → require_meter registry r.meter_id ≡ ok tt
      → require_asset registry r.energy_asset_id ≡ ok tt
      → ingest_each at threshold registry now (r ∷ readings)
        ≡ add_each
            (classify_and_build at threshold now r none false)
            readings
            (add (classify_and_build at threshold now r none false).reading now)
  unfolding ingest_each ingest_reading
  ingest_each_step now r readings meter asset =
      rw (meter, asset)
        (elim (Result-cases (add (classify_and_build at threshold now r none false).reading now)) [
          | inl (left, added) ↦ rw added refl
          | inr (e, raised) ↦ rw raised refl
        ])

  batch_step :
      (rows own : List TelemetryReading) (staged : Staged) (r : NormalizedReading)
      (readings : List NormalizedReading)
      → Tracks registry staged own
      → require_meter registry r.meter_id ≡ ok tt
      → require_asset registry r.energy_asset_id ≡ ok tt
      → batch_outcomes at threshold registry rows staged (r ∷ readings)
        ≡ continued rows
            (remember r staged)
            r
            readings
            (classify_and_build at threshold (rows ++ own) r none false)
  unfolding batch_outcomes cons_outcome continued
  batch_step rows own staged r readings t meter asset =
      rw
        (
          require_new_meter-Tracks registry r.meter_id staged.verified_meters t.meters,
          require_new_asset-Tracks registry r.energy_asset_id staged.verified_assets t.assets,
          meter,
          asset,
        )
        (ap (continued rows (remember r staged) r readings)
          (classify_and_build-Tracks at threshold registry rows own staged r t))

  batch_raises :
      (rows own : List TelemetryReading) (staged : Staged) (r : NormalizedReading)
      (readings : List NormalizedReading) {e : TelemetryError}
      → Tracks registry staged own
      → (require_meter registry r.meter_id >> require_asset registry r.energy_asset_id) ≡ err e
      → returned
          (finish (rows ++ own) (batch_outcomes at threshold registry rows staged (r ∷ readings)))
        ≡ returned (ingest_each at threshold registry (rows ++ own) (r ∷ readings))
  unfolding finish batch_outcomes ingest_each ingest_reading
  batch_raises rows own staged r readings t raised =
      rw
        (
          require_new_meter-Tracks registry r.meter_id staged.verified_meters t.meters,
          require_new_asset-Tracks registry r.energy_asset_id staged.verified_assets t.assets,
        )
        (elim (Result-cases (require_meter registry r.meter_id)) [
          | inr (e, unknown) ↦ rw unknown refl
          | inl (u, known) ↦ elim (Result-cases (require_asset registry r.energy_asset_id)) [
            | inr (e, unknown) ↦ rw (known, unknown) refl
            | inl (v, asset) ↦ absurd (ok-is_err _ _ (rw (known, asset) at raised))
          ]
        ])

  batch_each :
      (rows own : List TelemetryReading) (staged : Staged) (readings : List NormalizedReading)
      → Tracks registry staged own
      → returned (finish (rows ++ own) (batch_outcomes at threshold registry rows staged readings))
        ≡ returned (ingest_each at threshold registry (rows ++ own) readings)
  unfolding finish batch_outcomes ingest_each storable add_all continued classify_and_build
  batch_each rows own staged [] t = refl
  batch_each rows own staged (r ∷ readings) t =
      elim (Result-cases
        (require_meter registry r.meter_id >> require_asset registry r.energy_asset_id)) [
          | inr (e, raised) ↦ batch_raises rows own staged r readings t raised
          | inl (u, both) ↦
              let (v, meter, asset) = >>=-eq-ok (require_meter registry r.meter_id) _ both in
              let o = classify_and_build at threshold (rows ++ own) r none false in
              ap (λ call. returned (finish (rows ++ own) call))
                (batch_step rows own staged r readings t meter asset)
              ∙ after_outcome rows own (remember r staged) r readings o.assessment o
                  (outcome-cases r o.assessment)
                  (λ later_own later_staged. batch_each rows later_own later_staged readings)
                  (remember-Tracks registry staged own r meter asset t)
              ∙ ap returned (sym (ingest_each_step (rows ++ own) r readings meter asset))
        ]

  finish_nothing :
      (rows : List TelemetryReading) (readings : List NormalizedReading)
      → left_by (ingest_batch at threshold registry rows readings)
        ≡ returned (finish rows (batch_outcomes at threshold registry rows nothing_staged readings))
  unfolding ingest_batch finish
  finish_nothing rows readings =
      elim (Result-cases (batch_outcomes at threshold registry rows nothing_staged readings)) [
        | inr (e, raised) ↦ rw raised refl
        | inl (outcomes, judged) ↦ elim (Result-cases (add_all (storable outcomes) rows)) [
          | inr (e, raised) ↦ rw (judged, raised) refl
          | inl (stored, added) ↦ rw (judged, added) refl
        ]
      ]

  -- A batch returns just when its readings return one by one, and then it leaves the same rows, and
  -- says the same of each reading.
  pub ingest_batch-ingest_each :
      (rows : List TelemetryReading) (readings : List NormalizedReading)
      → left_by (ingest_batch at threshold registry rows readings)
        ≡ returned (ingest_each at threshold registry rows readings)
  ingest_batch-ingest_each rows readings =
      finish_nothing rows readings
      ∙ subst
          (λ now.
            returned
              (finish now (batch_outcomes at threshold registry rows nothing_staged readings))
            ≡ returned (ingest_each at threshold registry now readings))
          (append_none rows)
          (batch_each rows [] nothing_staged readings (nothing_staged-Tracks registry))
