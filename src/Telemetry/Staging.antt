-- ===== src/Telemetry/Staging.antt =====
-- What a batch has staged stands for the rows it is about to write: the dictionaries of ingest_batch
-- in backend/app/services/telemetry_service.py.
use urja_setu.Base.{
  ◌≡◌, refl, sym, ap, ◌∙◌, ℕ, Bool, true, false, not, ◌==◌, ==→eq, subst, ok, raise_if, inl, inr,
  Bool-cases, Option, none, some, List, [], ◌∷◌, ◌++◌, All, any, arith, if◌then◌else◌,
}
use urja_setu.Telemetry.Contract.{
  NormalizedReading, TelemetryReading, Series, series_of, eqb_series, exists_for_interval, later,
  start_in, latest_interval_start,
}
use urja_setu.Telemetry.Series.{
  eqb_series→eq, any-append, exists_for_interval-append, latest_interval_start-append, later-none,
}
use urja_setu.Telemetry.Quality.{QualityAssessment}
use urja_setu.Telemetry.Service.{
  Registry, TelemetryError, require_meter, require_asset, require_new_meter, require_new_asset,
}
use urja_setu.Telemetry.Staged.{
  Staged, nothing_staged, staged_at, stage, is_staged, is_newer, stage_reading, remember,
  remember_asset,
}
use urja_setu.Telemetry.Outcome.{to_model, includes}
use urja_setu.Telemetry.Stages.{staged_at_if, same_either}

-- The staged state agrees with the rows.
pub record Tracks (registry : Registry) (staged : Staged) (rows : List TelemetryReading)
    : Type 0 where
  pub latest : (s : Series) → staged_at s staged.staged_latest ≡ latest_interval_start s rows
  pub intervals :
      (s : Series) (start : ℕ)
      → is_staged s start staged.staged_intervals ≡ exists_for_interval s start rows
  pub meters : All (λ id. includes id registry.meters ≡ true) staged.verified_meters
  pub assets : All (λ id. includes id registry.energy_assets ≡ true) staged.verified_assets

newer :
    (old : Option ℕ) (start : ℕ)
    → later old (some start) ≡ (if is_newer start old then some start else old)
unfolding later
newer none start = refl
newer (some old) start = ground arith

latest_of_own :
    (s : Series) (row : TelemetryReading)
    → eqb_series (series_of row) s ≡ true
    → latest_interval_start s (row ∷ []) ≡ some row.interval_start
unfolding latest_interval_start later
latest_of_own s row hit =
    let own : start_in s row ≡ some row.interval_start = rw (start_in, hit) refl in
    later-none (start_in s row) ∙ own

latest_of_other :
    (s : Series) (row : TelemetryReading)
    → eqb_series (series_of row) s ≡ false
    → latest_interval_start s (row ∷ []) ≡ none
unfolding latest_interval_start later
latest_of_other s row miss =
    let other : start_in s row ≡ none = rw (start_in, miss) refl in
    later-none (start_in s row) ∙ other

latest_of_staged :
    (staged : List (Series × ℕ)) (rows : List TelemetryReading) (row : TelemetryReading)
    (s : Series)
    → ((t : Series) → staged_at t staged ≡ latest_interval_start t rows)
    → staged_at s (
        if is_newer row.interval_start (staged_at (series_of row) staged)
        then stage (series_of row) row.interval_start staged
        else staged)
      ≡ latest_interval_start s (rows ++ row ∷ [])
unfolding latest_interval_start later
latest_of_staged staged rows row s tracked =
    let own = series_of row in
    let start = row.interval_start in
    let appended = latest_interval_start-append s rows (row ∷ []) in
    let staged_now = staged_at_if (is_newer start (staged_at own staged)) own s start staged in
    staged_now ∙ (elim (Bool-cases (eqb_series own s)) [
      | inl hit ↦
          let here : staged_at own staged ≡ latest_interval_start s rows =
            ap (λ t. staged_at t staged) (eqb_series→eq own s hit) ∙ tracked s in
          rw (hit, appended, latest_of_own s row hit, here, tracked s)
            (sym (newer (latest_interval_start s rows) start))
      | inr miss ↦
          rw (miss, appended, latest_of_other s row miss)
            (same_either (is_newer start (staged_at own staged)) (staged_at s staged)
              ∙ tracked s
              ∙ sym (later-none (latest_interval_start s rows)))
    ])

pub stage_reading-Tracks :
    (registry : Registry) (staged : Staged) (rows : List TelemetryReading) (r : NormalizedReading)
    (a : QualityAssessment)
    → Tracks registry staged rows
    → Tracks registry (stage_reading r staged) (rows ++ to_model r a ∷ [])
unfolding stage_reading is_staged to_model exists_for_interval
stage_reading-Tracks registry staged rows r a t = record {
  latest = λ s. latest_of_staged staged.staged_latest rows (to_model r a) s t.latest;
  intervals = λ s start.
      any-append _ staged.staged_intervals _
      ∙ (rw (exists_for_interval-append s start rows (to_model r a ∷ []), t.intervals s start)
          refl);
  meters = t.meters;
  assets = t.assets;
}

raised_not : (b : Bool) (e : TelemetryError) → raise_if (not b) e ≡ ok tt → b ≡ true
raised_not true e h = refl
raised_not false e h = absurd cc

includes-All : (P : ℕ → Type 0) (id : ℕ) (ids : List ℕ) → includes id ids ≡ true → All P ids → P id
unfolding includes any
includes-All P id [] h a = absurd cc
includes-All P id (j ∷ ids) h a = elim (Bool-cases (j == id)) [
  | inl same ↦ subst P (==→eq j id same) a.0
  | inr other ↦ includes-All P id ids (rw other at h) a.1
]

-- What is verified needs no second look.
pub require_new_meter-Tracks :
    (registry : Registry) (id : ℕ) (verified : List ℕ)
    → All (λ j. includes j registry.meters ≡ true) verified
    → require_new_meter registry id verified ≡ require_meter registry id
require_new_meter-Tracks registry id verified known = elim (Bool-cases (includes id verified)) [
  | inl old ↦
      rw (old, includes-All (λ j. includes j registry.meters ≡ true) id verified old known) refl
  | inr new ↦ rw new refl
]

pub require_new_asset-Tracks :
    (registry : Registry) (asset : Option ℕ) (verified : List ℕ)
    → All (λ j. includes j registry.energy_assets ≡ true) verified
    → require_new_asset registry asset verified ≡ require_asset registry asset
require_new_asset-Tracks registry none verified known = refl
require_new_asset-Tracks registry (some id) verified known =
    elim (Bool-cases (includes id verified)) [
      | inl old ↦
          rw
            (
              old,
              includes-All (λ j. includes j registry.energy_assets ≡ true) id verified old known,
            )
            refl
      | inr new ↦ rw new refl
    ]

remembered :
    (P : ℕ → Type 0) (b : Bool) (id : ℕ) (ids : List ℕ)
    → P id
    → All P ids
    → All P (if b then ids else id ∷ ids)
remembered P true id ids p known = known
remembered P false id ids p known = (p, known)

remembered_asset :
    (registry : Registry) (asset : Option ℕ) (verified : List ℕ)
    → require_asset registry asset ≡ ok tt
    → All (λ j. includes j registry.energy_assets ≡ true) verified
    → All (λ j. includes j registry.energy_assets ≡ true) (remember_asset asset verified)
remembered_asset registry none verified registered known = known
remembered_asset registry (some id) verified registered known =
    remembered (λ j. includes j registry.energy_assets ≡ true) (includes id verified) id verified
      (raised_not _ _ registered) known

pub remember-Tracks :
    (registry : Registry) (staged : Staged) (rows : List TelemetryReading) (r : NormalizedReading)
    → require_meter registry r.meter_id ≡ ok tt
    → require_asset registry r.energy_asset_id ≡ ok tt
    → Tracks registry staged rows
    → Tracks registry (remember r staged) rows
unfolding remember
remember-Tracks registry staged rows r meter asset t = record {
  latest = t.latest;
  intervals = t.intervals;
  meters =
      remembered (λ j. includes j registry.meters ≡ true)
        (includes r.meter_id staged.verified_meters) r.meter_id staged.verified_meters
        (raised_not _ _ meter) t.meters;
  assets = remembered_asset registry r.energy_asset_id staged.verified_assets asset t.assets;
}

pub nothing_staged-Tracks : (registry : Registry) → Tracks registry nothing_staged []
unfolding staged_at latest_interval_start is_staged exists_for_interval any
nothing_staged-Tracks registry = record {
  latest = λ s. refl;
  intervals = λ s start. refl;
  meters = tt;
  assets = tt;
}
