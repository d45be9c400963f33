-- ===== src/Forecast/Stuck.antt =====
-- A prediction with its bounds the wrong way round: _validate_result and run_forecast of
-- backend/app/services/forecast_service.py, and the checks of db/models/forecasting.py.
use urja_setu.Base.{
  ◌≡◌, refl, ℕ, true, some, List, map, false, All-In, In, ok, err, Result-cases, inl, inr,
}
use urja_setu.Base.Unique.{In-map}
use urja_setu.Identity.Store.{Meter}
use urja_setu.Telemetry.Contract.{TelemetryReading}
use urja_setu.Forecast.Contract.{PredictedPoint, ForecastResult, ForecastProvider}
use urja_setu.Forecast.Store.{ForecastPoint, Forecasts, to_column, are_reversed, find_run}
use urja_setu.Forecast.Service.{
  ForecastError, row_of_point, add_points, RunRequest, new_run, may_run, accepted_result,
  store_result, run_forecast,
}
use urja_setu.Forecast.Placing.{IsForecasts, find_new}
use urja_setu.Forecast.Horizon.{add_points-ok}

add_points-reversed :
    (run site : ℕ) (points : List PredictedPoint) (rows : List ForecastPoint) {p : PredictedPoint}
    → In p points
    → are_reversed (to_column p.lower_bound) (to_column p.upper_bound) ≡ true
    → (e : ForecastError) × (add_points (map (row_of_point run site) points) rows ≡ err e)
unfolding row_of_point
add_points-reversed run site points rows {p = p} m reversed =
    let new = map (row_of_point run site) points in
    elim (Result-cases (add_points new rows)) [
      | inr (e, raised) ↦ (e, raised)
      | inl (left, added) ↦
          let (_, bounds) = add_points-ok new rows added in
          let ordered =
            All-In (λ (q : ForecastPoint). are_reversed q.lower_bound q.upper_bound ≡ false) bounds
              (In-map (row_of_point run site) points m) in
          absurd cc
    ]

-- Where the provider returns a result that passes the checks, with a point whose lower bound lies
-- above its upper one, the call raises, and the run that it began is left as running.
pub run_forecast-reversed :
    (sites : List ℕ) (meters : List Meter) (readings : List TelemetryReading)
    (provider : ForecastProvider) (r : RunRequest) (now : ℕ) (f : Forecasts)
    {result : ForecastResult} {p : PredictedPoint}
    → IsForecasts f
    → may_run sites meters readings provider r ≡ ok tt
    → accepted_result sites meters readings provider r ≡ some result
    → In p result.points
    → are_reversed (to_column p.lower_bound) (to_column p.upper_bound) ≡ true
    → (find_run f.next_id (run_forecast sites meters readings provider r now f).forecasts.runs
        ≡ some (new_run sites meters readings provider r f.next_id now))
      × ((e : ForecastError) × ((run_forecast sites meters readings provider r now f).answer
            ≡ err e))
unfolding run_forecast
run_forecast-reversed sites meters readings provider r now f {result = result} i allowed given m
      reversed =
    let run = new_run sites meters readings provider r f.next_id now in
    let (e, raised) = add_points-reversed f.next_id r.site_id result.points f.points m reversed in
    rw (run_forecast, allowed, given, store_result, raised) (find_new run f.runs i.known, (e, refl))
