-- ===== src/Trading.antt =====
-- The market over the services around it: what market_service.py of backend/app/services takes from
-- identity_service.py and forecast_service.py.
pub mod Selling
pub mod Paying
mod Tests
use urja_setu.Base.{ℕ, Bool, Option, none, some, is_some, Result, ok, err}
use urja_setu.Base.Rows.{find_row}
use urja_setu.Identity.Store.{IdentityRegistry, find_site}
use urja_setu.Identity.Eligibility.{EligibilityDecision}
use urja_setu.Identity.Service.{IdentityError, get_eligibility}
use urja_setu.Forecast.Store.{Forecasts}
use urja_setu.Forecast.Surplus.{total_exportable_kwh}
use urja_setu.Forecast.Service.{surplus_for_site}
use urja_setu.Market.Service.{Directory}

-- `none` is a user who is not found.
abbrev pub sells : Result IdentityError (EligibilityDecision × ℕ) → Option Bool
sells (ok answer) = some answer.0.can_sell
sells (err e) = none

abbrev pub buys : Result IdentityError (EligibilityDecision × ℕ) → Option Bool
buys (ok answer) = some answer.0.can_buy
buys (err e) = none

-- The directory that the market asks, at the time of the call.
unfoldable pub directory : IdentityRegistry → Forecasts → (now : ℕ) → Directory
unfolding get_eligibility surplus_for_site total_exportable_kwh find_row
directory registry forecasts now = record {
  has_site = λ site. is_some (find_site site registry.sites);
  can_buy = λ user. buys (get_eligibility registry user none now);
  can_sell = λ user. sells (get_eligibility registry user none now);
  exportable_kwh =
      λ site start end. total_exportable_kwh (surplus_for_site forecasts site start end);
}
