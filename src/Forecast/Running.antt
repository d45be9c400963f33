-- ===== src/Forecast/Running.antt =====
-- What a run leaves, whatever the provider does: run_forecast of
-- backend/app/services/forecast_service.py.
use urja_setu.Base.{
  some-injective, none-is_some, ◌≡◌, refl, ℕ, ◌+◌, ◌<◌, inl, inr, some, Option-cases, List, [], ◌∷◌,
  ◌++◌, subst, map, All, All-append, All-map, arith, Result-cases,
}
use urja_setu.Base.Rows.{find_row-update_row}
use urja_setu.Identity.Store.{Meter}
use urja_setu.Telemetry.Contract.{TelemetryReading}
use urja_setu.Forecast.Contract.{completed, failed, ForecastResult, ForecastProvider}
use urja_setu.Forecast.Store.{ForecastRun, Forecasts}
use urja_setu.Forecast.Service.{
  row_of_point, add_points, RunRequest, set_run, request_of, new_run, may_run, accepted_result,
  mark_failed, store_result, run_forecast,
}
use urja_setu.Forecast.Checks.{validate_result}
use urja_setu.Forecast.Horizon.{InHorizon, validate_result-none, add_points-ok}
use urja_setu.Forecast.Placing.{
  IsPlaced, IsForecasts, find_new, IsPlaced-set_run, placed_rows, known_after, IsPlaced-append,
}

-- A run that is written and never finished leaves the points where they were.
begun-IsForecasts :
    (f : Forecasts) (run : ForecastRun)
    → run.id ≡ f.next_id
    → IsForecasts f
    → IsForecasts (record f { runs = f.runs ++ run ∷ []; next_id = f.next_id + 1 })
begun-IsForecasts f run same i = record {
  known =
      All-append (λ r. r.id < f.next_id + 1) f.runs (run ∷ [])
        (All-map (λ (r : ForecastRun). r.id < f.next_id) (λ (r : ForecastRun). r.id < f.next_id + 1)
          f.runs (λ r less. omega (arith, less)) i.known)
        (omega (arith, same), tt);
  placed =
      All-map (IsPlaced f.runs) (IsPlaced (f.runs ++ run ∷ [])) f.points
        (IsPlaced-append f.runs run) i.placed;
}

module _ (sites : List ℕ) (meters : List Meter) (readings : List TelemetryReading)
    (provider : ForecastProvider) where
  accepted_result-InHorizon :
      (r : RunRequest) {result : ForecastResult}
      → accepted_result sites meters readings provider r ≡ some result
      → All (InHorizon (request_of sites meters readings r)) result.points
  unfolding accepted_result
  accepted_result-InHorizon r {result = result} h =
      let request = request_of sites meters readings r in
      elim (Option-cases (provider.predict request)) [
        | inl raised ↦ absurd (none-is_some result (rw (accepted_result, raised) at h))
        | inr (answer, returned) ↦ elim (Option-cases (validate_result answer request)) [
          | inr (problem, wrong) ↦
              absurd (none-is_some result (rw (accepted_result, returned, wrong) at h))
          | inl right ↦
              let same : some answer ≡ some result = rw (accepted_result, returned, right) at h in
              subst (λ (x : ForecastResult). All (InHorizon request) x.points) (some-injective same)
                (validate_result-none answer request right)
        ]
      ]

  mark_failed-IsForecasts :
      (r : RunRequest) (now : ℕ) (f : Forecasts)
      → IsForecasts f
      → IsForecasts
          (mark_failed sites meters readings provider
            (new_run sites meters readings provider r f.next_id now)
            (record f {
              runs = f.runs ++ new_run sites meters readings provider r f.next_id now ∷ [];
              next_id = f.next_id + 1;
            })).forecasts
  unfolding mark_failed
  mark_failed-IsForecasts r now f i =
      let run = new_run sites meters readings provider r f.next_id now in
      let done : ForecastRun = record run { status = failed } in
      record {
        known = known_after f run done refl refl i.known;
        placed =
            All-map (IsPlaced f.runs) (IsPlaced (set_run done (f.runs ++ run ∷ []))) f.points
              (λ p placed. IsPlaced-set_run f.next_id f.runs run done p refl i.known placed)
              i.placed;
      }

  store_result-IsForecasts :
      (r : RunRequest) (now : ℕ) (f : Forecasts) (result : ForecastResult)
      → All (InHorizon (request_of sites meters readings r)) result.points
      → IsForecasts f
      → let run = new_run sites meters readings provider r f.next_id now in
        let begun : Forecasts = record f { runs = f.runs ++ run ∷ []; next_id = f.next_id + 1 } in
        IsForecasts
          (store_result sites meters readings provider run r.site_id result begun).forecasts
  unfolding store_result
  store_result-IsForecasts r now f result h i =
      let run = new_run sites meters readings provider r f.next_id now in
      let rows = map (row_of_point f.next_id r.site_id) result.points in
      let done : ForecastRun = record run {
        status = completed;
        model_version = result.model_version;
      } in
      let runs = set_run done (f.runs ++ run ∷ []) in
      elim (Result-cases (add_points rows f.points)) [
        | inr (e, refused) ↦ rw (store_result, refused) (begun-IsForecasts f run refl i)
        | inl (points, added) ↦
            rw (store_result, added)
              (let (appended, bounds) = add_points-ok rows f.points added in
                record {
                  known = known_after f run done refl refl i.known;
                  placed = rw appended (
                      All-append (IsPlaced runs) f.points rows
                        (All-map (IsPlaced f.runs) (IsPlaced runs) f.points
                          (λ p placed.
                            IsPlaced-set_run f.next_id f.runs run done p refl i.known placed)
                          i.placed)
                        (placed_rows runs (request_of sites meters readings r) done r.site_id
                          result.points
                          (find_row-update_row (λ (r : ForecastRun). r.id) f.next_id (λ _. done)
                            (f.runs ++ run ∷ []) (λ r _. refl) (find_new run f.runs i.known))
                          refl refl refl h bounds));
                })
      ]

  -- A run of any provider, whatever it returns and whether or not it raises, keeps the forecasts in
  -- order: every stored point belongs to a completed run, starts within its horizon, ends after it
  -- starts, and has its bounds the right way round.
  pub run_forecast-IsForecasts :
      (r : RunRequest) (now : ℕ) (f : Forecasts)
      → IsForecasts f
      → IsForecasts (run_forecast sites meters readings provider r now f).forecasts
  unfolding run_forecast
  run_forecast-IsForecasts r now f i =
      elim (Result-cases (may_run sites meters readings provider r)) [
        | inr (e, refused) ↦ rw (run_forecast, refused) i
        | inl (_, allowed) ↦
            elim (Option-cases (accepted_result sites meters readings provider r)) [
              | inl nothing ↦
                  rw (run_forecast, allowed, nothing) (mark_failed-IsForecasts r now f i)
              | inr (result, given) ↦
                  rw (run_forecast, allowed, given)
                    (store_result-IsForecasts r now f result (accepted_result-InHorizon r given) i)
            ]
      ]
