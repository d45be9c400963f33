-- ===== src/Forecast/Tests.antt =====
-- Runs of the forecast component on concrete input.
use urja_setu.Base.{◌≡◌, refl, ℕ, true, Option, none, some, [], ◌∷◌, here, ok, err}
use urja_setu.Base.Decimal.{decimal, Signed, plain}
use urja_setu.Base.Int.{pos}
use urja_setu.Forecast.Contract.{
  ForecastType, solar, load, PredictedPoint, ForecastResult, ForecastProvider,
}
use urja_setu.Forecast.Store.{Forecasts, to_column, are_reversed, find_run}
use urja_setu.Forecast.Service.{
  ForecastError, RunRequest, new_run, may_run, accepted_result, run_forecast, surplus_for_site,
}
use urja_setu.Forecast.Running.{run_forecast-IsForecasts}
use urja_setu.Forecast.Placing.{IsForecasts}
use urja_setu.Forecast.Stuck.{run_forecast-reversed}

abbrev kw : ℕ → Option Signed
kw n = some (plain (decimal n 0))

abbrev predicted : ℕ → Option Signed → Option Signed → PredictedPoint
predicted power lower upper = record {
  interval_start = 3600000000;
  interval_end = 7200000000;
  predicted_kw = kw power;
  predicted_kwh = none;
  confidence = none;
  lower_bound = lower;
  upper_bound = upper;
}

abbrev provider_of : PredictedPoint → ForecastProvider
provider_of p = record {
  name = 1;
  model_version = 1;
  supports = λ _. true;
  predict = λ request.
      some (record { forecast_type = request.forecast_type; model_version = 2; points = p ∷ [] });
}

abbrev run_of : ForecastType → RunRequest
run_of type = record {
  site_id = 5;
  forecast_type = type;
  horizon_start = 3600000000;
  horizon_end = 7200000000;
  interval = 900000000;
  history_window = 900000000;
  at = none;
}

abbrev no_forecasts : Forecasts
no_forecasts = record { runs = []; points = []; next_id = 1 }

abbrev attempt : ForecastProvider → ForecastType → ℕ → Forecasts → Forecasts
attempt provider type now f = (run_forecast (5 ∷ []) [] [] provider (run_of type) now f).forecasts

-- Two solar runs, of which the newer one counts, and a load run.
abbrev day : Forecasts
day = attempt (provider_of (predicted 3 none none)) load 30 (
    attempt (provider_of (predicted 7 none none)) solar 20
      (attempt (provider_of (predicted 9 none none)) solar 10 no_forecasts))

surplus_of_day :
    surplus_for_site day 5 0 9000000000
    ≡ record {
      interval_start = 3600000000;
      interval_end = 7200000000;
      generation_kw = some (pos 70000);
      load_kw = some (pos 30000);
      surplus_kw = some (pos 40000);
    }
      ∷ []
unfolding surplus_for_site run_forecast
surplus_of_day = refl

no_forecasts-IsForecasts : IsForecasts no_forecasts
no_forecasts-IsForecasts = record { known = tt; placed = tt }

abbrev crossed : PredictedPoint
crossed = predicted 4 (kw 9) (kw 2)

allowed : may_run (5 ∷ []) [] [] (provider_of crossed) (run_of solar) ≡ ok tt
unfolding may_run
allowed = refl

abbrev crossed_result : ForecastResult
crossed_result = record { forecast_type = solar; model_version = 2; points = crossed ∷ [] }

given : accepted_result (5 ∷ []) [] [] (provider_of crossed) (run_of solar) ≡ some crossed_result
unfolding accepted_result
given = refl

crossed_bounds : are_reversed (to_column (kw 9)) (to_column (kw 2)) ≡ true
unfolding to_column
crossed_bounds = refl

run_forecast-reversed_example :
    (find_run 1
        (run_forecast
          (5 ∷ [])
          []
          []
          (provider_of crossed)
          (run_of solar)
          10
          no_forecasts).forecasts.runs
      ≡ some (new_run (5 ∷ []) [] [] (provider_of crossed) (run_of solar) 1 10))
    × ((e : ForecastError) × ((run_forecast
            (5 ∷ [])
            []
            []
            (provider_of crossed)
            (run_of solar)
            10
            no_forecasts).answer
          ≡ err e))
run_forecast-reversed_example =
    run_forecast-reversed (5 ∷ []) [] [] (provider_of crossed) (run_of solar) 10 no_forecasts
      no_forecasts-IsForecasts allowed given here crossed_bounds

run_forecast-IsForecasts_example :
    IsForecasts
      (run_forecast
        (5 ∷ [])
        []
        []
        (provider_of (predicted 7 none none))
        (run_of solar)
        10
        no_forecasts).forecasts
run_forecast-IsForecasts_example =
    run_forecast-IsForecasts (5 ∷ []) [] [] (provider_of (predicted 7 none none)) (run_of solar) 10
      no_forecasts no_forecasts-IsForecasts
