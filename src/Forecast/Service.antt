-- ===== src/Forecast/Service.antt =====
-- The forecast service: backend/app/services/forecast_service.py. The provider is an argument, as is
-- the telemetry that its history is taken from.
use urja_setu.Base.{
  ℕ, ◌+◌, not, ◌==◌, leb, Option, none, some, get_or, List, [], ◌∷◌, ◌++◌, map, any, Result, ok,
  err, ◌>>◌, raise_if,
}
use urja_setu.Base.Rows.{update_row}
use urja_setu.Identity.Store.{Meter}
use urja_setu.Telemetry.Contract.{TelemetryReading}
use urja_setu.Forecast.Contract.{
  ForecastType, solar, load, running, completed, failed, ForecastRequest, PredictedPoint,
  ForecastResult, ForecastProvider,
}
use urja_setu.Forecast.Store.{
  ForecastRun, ForecastPoint, Forecasts, to_column, is_point_refused, latest_per_interval_for_site,
}
use urja_setu.Forecast.Surplus.{SurplusPoint, Predicted, calculate_surplus}
use urja_setu.Forecast.Checks.{validate_result}
use urja_setu.Forecast.History.{gather_history}

pub data ForecastError : Type 0 where
  site_not_found horizon_invalid interval_invalid type_unsupported : ForecastError
  provider_failed integrity : ForecastError

unfoldable pub row_of_point : ℕ → ℕ → PredictedPoint → ForecastPoint
unfolding to_column
row_of_point run site p = record {
  forecast_run_id = run;
  site_id = site;
  interval_start = p.interval_start;
  interval_end = p.interval_end;
  predicted_kw = to_column p.predicted_kw;
  predicted_kwh = to_column p.predicted_kwh;
  confidence = to_column p.confidence;
  lower_bound = to_column p.lower_bound;
  upper_bound = to_column p.upper_bound;
}

-- `add_all` and its flush.
unfoldable pub add_points :
    List ForecastPoint → List ForecastPoint → Result ForecastError (List ForecastPoint)
unfolding is_point_refused
add_points [] points = ok points
add_points (p ∷ new) points =
    raise_if (is_point_refused p points) integrity >> add_points new (points ++ p ∷ [])

unfoldable pub validate_horizon : (start end interval : ℕ) → Result ForecastError (Unit {0})
validate_horizon start end interval =
    raise_if (leb end start) horizon_invalid >> raise_if (leb interval 0) interval_invalid

pub record RunRequest : Type 0 where
  pub site_id : ℕ
  pub forecast_type : ForecastType
  pub horizon_start : ℕ
  pub horizon_end : ℕ
  pub interval : ℕ
  pub history_window : ℕ
  pub at : Option ℕ

-- What is committed, and what the caller is told.
pub record Attempt : Type 0 where
  pub forecasts : Forecasts
  pub answer : Result ForecastError ForecastRun

unfoldable pub set_run : ForecastRun → List ForecastRun → List ForecastRun
unfolding update_row
set_run run runs = update_row (λ (r : ForecastRun). r.id) run.id (λ _. run) runs

module _ (sites : List ℕ) (meters : List Meter) (readings : List TelemetryReading) where
  abbrev pub require_site : ℕ → Result ForecastError (Unit {0})
  require_site site = raise_if (not (any (λ s. s == site) sites)) site_not_found

  abbrev pub request_of : RunRequest → ForecastRequest
  request_of r = record {
    site_id = r.site_id;
    forecast_type = r.forecast_type;
    horizon_start = r.horizon_start;
    horizon_end = r.horizon_end;
    interval = r.interval;
    history = gather_history meters readings r.site_id r.horizon_start r.history_window;
  }

  module _ (provider : ForecastProvider) where
    -- The guards that come before the run is written.
    unfoldable pub may_run : RunRequest → Result ForecastError (Unit {0})
    unfolding any validate_horizon
    may_run r = do
      require_site r.site_id
      validate_horizon r.horizon_start r.horizon_end r.interval
      raise_if (not (provider.supports r.forecast_type)) type_unsupported

    abbrev pub new_run : RunRequest → (id now : ℕ) → ForecastRun
    new_run r id now = record {
      id = id;
      forecast_type = r.forecast_type;
      provider = provider.name;
      model_version = provider.model_version;
      horizon_start = r.horizon_start;
      horizon_end = r.horizon_end;
      status = running;
      created_at = get_or r.at now;
    }

    -- The result, where the provider returns one that passes the checks.
    unfoldable pub accepted_result : RunRequest → Option ForecastResult
    unfolding validate_result gather_history
    accepted_result r = elim (provider.predict (request_of r)) [
      | none ↦ none
      | some result ↦ elim (validate_result result (request_of r)) [
        | none ↦ some result
        | some problem ↦ none
      ]
    ]

    -- `_mark_failed`, and the exception that follows it.
    unfoldable pub mark_failed : ForecastRun → Forecasts → Attempt
    unfolding set_run
    mark_failed run f = record {
      forecasts = record f { runs = set_run (record run { status = failed }) f.runs };
      answer = err provider_failed;
    }

    unfoldable pub store_result : ForecastRun → ℕ → ForecastResult → Forecasts → Attempt
    unfolding set_run row_of_point add_points
    store_result run site result f =
        elim (add_points (map (row_of_point run.id site) result.points) f.points) [
          | err e ↦ record { forecasts = f; answer = err e }
          | ok points ↦
              let done : ForecastRun = record run {
                status = completed;
                model_version = result.model_version;
              } in
              record {
                forecasts = record f { runs = set_run done f.runs; points = points };
                answer = ok done;
              }
        ]

    unfoldable pub run_forecast : RunRequest → (now : ℕ) → Forecasts → Attempt
    unfolding may_run accepted_result mark_failed store_result
    run_forecast r now f = elim (may_run r) [
      | err e ↦ record { forecasts = f; answer = err e }
      | ok _ ↦
          let run = new_run r f.next_id now in
          let begun : Forecasts = record f { runs = f.runs ++ run ∷ []; next_id = f.next_id + 1 } in
          elim (accepted_result r) [
            | none ↦ mark_failed run begun
            | some result ↦ store_result run r.site_id result begun
          ]
    ]

-- `get_surplus_for_site`, without the check that the site exists.
abbrev pub predicted_of : ForecastPoint → Predicted
predicted_of p = (p.interval_start, p.interval_end, p.predicted_kw)

unfoldable pub surplus_for_site : Forecasts → ℕ → (start end : ℕ) → List SurplusPoint
unfolding latest_per_interval_for_site calculate_surplus
surplus_for_site f site start end =
    calculate_surplus (map predicted_of (latest_per_interval_for_site site start end solar f))
      (map predicted_of (latest_per_interval_for_site site start end load f))
