-- ===== src/Forecast/Contract.antt =====
-- What a provider of forecasts is asked and what it answers:
-- backend/app/domain/interfaces/forecasting.py and domain/enums.py. The names of a provider and of
-- its versions stand for texts that are only stored.
use urja_setu.Base.{ℕ, Bool, true, false, Option, List}
use urja_setu.Base.Decimal.{Signed}

pub data ForecastType : Type 0 where
  solar load surplus : ForecastType

abbrev pub same_type : ForecastType → ForecastType → Bool
same_type solar solar = true
same_type load load = true
same_type surplus surplus = true
same_type _ _ = false

pub data ForecastRunStatus : Type 0 where
  pending running completed failed : ForecastRunStatus

pub record HistoricalObservation : Type 0 where
  pub interval_start : ℕ
  pub interval_end : ℕ
  pub generation_kw : Option Signed
  pub load_kw : Option Signed
  pub energy_kwh : Option Signed

pub record ForecastRequest : Type 0 where
  pub site_id : ℕ
  pub forecast_type : ForecastType
  pub horizon_start : ℕ
  pub horizon_end : ℕ
  pub interval : ℕ
  pub history : List HistoricalObservation

pub record PredictedPoint : Type 0 where
  pub interval_start : ℕ
  pub interval_end : ℕ
  pub predicted_kw : Option Signed
  pub predicted_kwh : Option Signed
  pub confidence : Option Signed
  pub lower_bound : Option Signed
  pub upper_bound : Option Signed

pub record ForecastResult : Type 0 where
  pub forecast_type : ForecastType
  pub model_version : ℕ
  pub points : List PredictedPoint

-- `predict` returns a result or raises.
pub record ForecastProvider : Type 0 where
  pub name : ℕ
  pub model_version : ℕ
  pub supports : ForecastType → Bool
  pub predict : ForecastRequest → Option ForecastResult
