-- ===== src/Trading/Tests.antt =====
-- An order over the whole platform, on concrete input.
mod Paying
use urja_setu.Base.{◌≡◌, refl, ℕ, true, false, Option, none, some, [], ◌∷◌, In, Result, ok, err}
use urja_setu.Base.Decimal.{decimal, less}
use urja_setu.Base.Int.{pos}
use urja_setu.Identity.Vocabulary.{
  prosumer, active, discom_verified, utility_account, verified, meter_data, market_participation,
  pv, in_service,
}
use urja_setu.Identity.Store.{IdentityRegistry, Site}
use urja_setu.Identity.Sellers.{IsSeller}
use urja_setu.Forecast.Contract.{ForecastType, solar, load, completed}
use urja_setu.Forecast.Store.{ForecastRun, ForecastPoint, Forecasts}
use urja_setu.Forecast.Surplus.{total_exportable_kwh}
use urja_setu.Forecast.Service.{surplus_for_site}
use urja_setu.Market.Vocabulary.{opened, sell, day_ahead, accepts_orders}
use urja_setu.Market.Store.{Market, Order}
use urja_setu.Market.Service.{OrderRequest, MarketError, new_order, place_order, user_not_eligible}
use urja_setu.Trading.{directory}
use urja_setu.Trading.Selling.{place_order-IsSeller}

-- One prosumer with a verified meter and a record of the connection.
abbrev registry_with : (expires_at : Option ℕ) → IdentityRegistry
registry_with expires_at = record {
  users = record { id = 1; email = none; has_name = true; role = prosumer; status = active } ∷ [];
  utility_accounts = [];
  consents =
      record { user_id = 1; scope = market_participation; granted_at = 0; revoked_at = none }
      ∷ record { user_id = 1; scope = meter_data; granted_at = 0; revoked_at = none }
      ∷ [];
  sites = record { id = 5; owner_user_id = 1; grid_node_id = none } ∷ [];
  meters =
      record {
        id = 7;
        site_id = 5;
        external_meter_ref = none;
        verification_level = discom_verified;
        active = true;
      }
      ∷ [];
  energy_assets =
      record { id = 8; site_id = 5; asset_type = pv; capacity_kw = 5000; status = in_service } ∷ [];
  inverters = [];
  verification_records =
      record {
        user_id = 1;
        asset_id = none;
        verification_type = utility_account;
        verification_level = discom_verified;
        status = verified;
        verified_at = some 0;
        expires_at = expires_at;
      }
      ∷ [];
  grid_nodes = [];
  next_id = 9;
}

abbrev run_of : ℕ → ForecastType → ForecastRun
run_of id type = record {
  id = id;
  forecast_type = type;
  provider = 1;
  model_version = 1;
  horizon_start = 0;
  horizon_end = 7200000000;
  status = completed;
  created_at = id;
}

abbrev point_of_run : ℕ → ℕ → ForecastPoint
point_of_run id power = record {
  forecast_run_id = id;
  site_id = 5;
  interval_start = 3600000000;
  interval_end = 7200000000;
  predicted_kw = some (pos power);
  predicted_kwh = none;
  confidence = none;
  lower_bound = none;
  upper_bound = none;
}

-- 7 kW against 3 kW, for an hour.
abbrev forecasts : Forecasts
forecasts = record {
  runs = run_of 1 solar ∷ run_of 2 load ∷ [];
  points = point_of_run 1 70000 ∷ point_of_run 2 30000 ∷ [];
  next_id = 3;
}

abbrev open_market : Market
open_market = record {
  sessions =
      record {
        id = 4;
        market_date = 1;
        market_type = day_ahead;
        status = opened;
        opened_at = some 1;
        closed_at = none;
        cleared_at = none;
      }
      ∷ [];
  orders = [];
  trades = [];
  events = [];
  notices = [];
  next_id = 10;
}

abbrev offer : ℕ → OrderRequest
offer energy = record {
  market_session_id = 4;
  user_id = 1;
  site_id = 5;
  side = sell;
  energy_kwh = energy;
  delivery_start = 3600000000;
  delivery_end = 7200000000;
  max_price = none;
  min_price = some 40000;
  node_id = none;
  forecast_basis_id = none;
  reliability_score = none;
  at = none;
}

-- A record that has expired no longer counts.
expired_record_refused :
    place_order (directory (registry_with (some 40)) forecasts 50) (offer 39000) 50 open_market
    ≡ err user_not_eligible
unfolding place_order directory accepts_orders less
expired_record_refused = refl

abbrev placed_by : Result MarketError (Order × Market) → Order × Market
placed_by (ok x) = x
placed_by (err e) = (new_order (offer 0) 0 0, open_market)

abbrev offered : Result MarketError (Order × Market)
offered = place_order (directory (registry_with none) forecasts 50) (offer 39000) 50 open_market

offer_accepted : offered ≡ ok (placed_by offered)
unfolding place_order directory accepts_orders less
offer_accepted = refl

place_order-IsSeller_example :
    IsSeller (registry_with none) 1 50
    × ((s : Site) × In s (registry_with none).sites × (s.id ≡ 5))
    × (less
          (total_exportable_kwh (surplus_for_site forecasts 5 3600000000 7200000000))
          (decimal 39000 4)
        ≡ false)
place_order-IsSeller_example =
    place_order-IsSeller (registry_with none) forecasts (offer 39000) 50 open_market offer_accepted
      refl

-- 4 kWh are there to sell, and no more.
surplus_is_short :
    less
      (total_exportable_kwh (surplus_for_site forecasts 5 3600000000 7200000000))
      (decimal 40001 4)
    ≡ true
unfolding total_exportable_kwh surplus_for_site less
surplus_is_short = refl
