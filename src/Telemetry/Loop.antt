-- ===== src/Telemetry/Loop.antt =====
-- The loop of a batch from its outcomes, and a reference for it: the readings one by one. ingest_batch
-- and ingest_reading of backend/app/services/telemetry_service.py.
use urja_setu.Base.{
  ◌≡◌, refl, ℕ, true, false, inl, inr, Option, none, some, List, [], ◌∷◌, ◌++◌, Result, ok, err,
  ◌>>=◌, Result-cases,
}
use urja_setu.Telemetry.Contract.{NormalizedReading, TelemetryReading, is_violation}
use urja_setu.Telemetry.Service.{
  TelemetryError, Registry, add_all, storable, ingest_reading, BatchIngestion,
}
use urja_setu.Telemetry.Outcome.{IngestionOutcome}

-- What is left of a call when the exception is not told.
abbrev pub returned : {A : Type 0} → Result TelemetryError A → Option A
returned (ok a) = some a
returned (err e) = none

-- The rows and the outcomes that a batch leaves.
abbrev pub left_by :
    Result TelemetryError BatchIngestion → Option (List TelemetryReading × List IngestionOutcome)
left_by (ok b) = some (b.readings, b.outcomes)
left_by (err e) = none

-- The rest of a batch, from what was classified of it.
unfoldable pub finish :
    List TelemetryReading
    → Result TelemetryError (List IngestionOutcome)
    → Result TelemetryError (List TelemetryReading × List IngestionOutcome)
unfolding storable add_all
finish now call = do
  outcomes ← call
  stored ← add_all (storable outcomes) now
  ok (stored, outcomes)

unfoldable pub prepend :
    IngestionOutcome
    → Option (List TelemetryReading × List IngestionOutcome)
    → Option (List TelemetryReading × List IngestionOutcome)
prepend o none = none
prepend o (some left) = some (left.0, o ∷ left.1)

unfoldable pub cons_outcome :
    IngestionOutcome
    → Result TelemetryError (List IngestionOutcome)
    → Result TelemetryError (List IngestionOutcome)
cons_outcome o call = call >>= λ rest. ok (o ∷ rest)

pub each_after :
    (o : IngestionOutcome)
    (call : Result TelemetryError (List TelemetryReading × List IngestionOutcome))
    → returned (call >>= λ rest. ok (rest.0, o ∷ rest.1)) ≡ prepend o (returned call)
unfolding prepend
each_after o (err e) = refl
each_after o (ok left) = refl

pub finish_unstored :
    (o : IngestionOutcome) (now : List TelemetryReading)
    (call : Result TelemetryError (List IngestionOutcome))
    → o.reading ≡ none
    → returned (finish now (cons_outcome o call)) ≡ prepend o (returned (finish now call))
unfolding finish prepend cons_outcome storable
finish_unstored o now (err e) none_stored = refl
finish_unstored o now (ok outcomes) none_stored =
    elim (Result-cases (add_all (storable outcomes) now)) [
      | inl (stored, added) ↦ rw (none_stored, added) refl
      | inr (e, raised) ↦ rw (none_stored, raised) refl
    ]

pub finish_stored :
    (o : IngestionOutcome) (row : TelemetryReading) (now : List TelemetryReading)
    (call : Result TelemetryError (List IngestionOutcome))
    → o.reading ≡ some row
    → is_violation row now ≡ false
    → returned (finish now (cons_outcome o call))
      ≡ prepend o (returned (finish (now ++ row ∷ []) call))
unfolding finish prepend cons_outcome storable add_all
finish_stored o row now (err e) stored taken = refl
finish_stored o row now (ok outcomes) stored taken =
    elim (Result-cases (add_all (storable outcomes) (now ++ row ∷ []))) [
      | inl (rows, added) ↦ rw (stored, taken, added) refl
      | inr (e, raised) ↦ rw (stored, taken, raised) refl
    ]

pub finish_refused :
    (o : IngestionOutcome) (row : TelemetryReading) (now : List TelemetryReading)
    (call : Result TelemetryError (List IngestionOutcome))
    → o.reading ≡ some row
    → is_violation row now ≡ true
    → returned (finish now (cons_outcome o call)) ≡ none
unfolding finish cons_outcome storable add_all
finish_refused o row now (err e) stored refused = refl
finish_refused o row now (ok outcomes) stored refused = rw (stored, refused) refl

module _ (at threshold : ℕ) (registry : Registry) where
  -- The readings in their order, each by a call of its own, up to the first that raises.
  unfoldable pub ingest_each :
      List TelemetryReading
      → List NormalizedReading
      → Result TelemetryError (List TelemetryReading × List IngestionOutcome)
  unfolding ingest_reading
  ingest_each rows [] = ok (rows, [])
  ingest_each rows (r ∷ readings) = do
    i ← ingest_reading at threshold registry rows r
    rest ← ingest_each i.readings readings
    ok (rest.0, i.outcome ∷ rest.1)
