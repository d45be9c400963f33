-- ===== src/Pricing/Tests/Books.antt =====
-- The books of one trade, which the tests of pricing share.
use urja_setu.Base.{none, some, [], ◌∷◌}
use urja_setu.Base.Int.{pos}
use urja_setu.Base.Decimal.{decimal}
use urja_setu.Market.Vocabulary.{buy, sell, filled}
use urja_setu.Market.Store.{Order}
use urja_setu.Grid.Contract.{safe, unknown, connection_point, accept, reject}
use urja_setu.Grid.Network.{GridNode}
use urja_setu.Grid.Service.{GridValidationRun}
use urja_setu.Forecast.Store.{ForecastPoint}
use urja_setu.Identity.Vocabulary.{pv, in_service}
use urja_setu.Pricing.Store.{PricedTrade, PriceBooks}

abbrev pub bought : Order
bought = record {
  id = 1;
  market_session_id = 0;
  user_id = 11;
  site_id = 21;
  node_id = some 31;
  side = buy;
  energy_kwh = 20000;
  min_price = none;
  max_price = some 60000;
  delivery_start = 25200000000;
  delivery_end = 28800000000;
  forecast_basis_id = none;
  reliability_score = none;
  status = filled;
  matched_kwh = 20000;
  created_at = 5;
}

abbrev pub sold : Order
sold = record bought {
  id = 2;
  user_id = 12;
  site_id = 22;
  node_id = some 32;
  side = sell;
  forecast_basis_id = some 41;
}

abbrev pub trade : PricedTrade
trade = record {
  id = 3;
  buy_order_id = 1;
  sell_order_id = 2;
  quantity_kwh = pos 20000;
  clearing_price = pos 50000;
  delivery_start = 25200000000;
  delivery_end = 28800000000;
  grid_validation_id = none;
}

-- Two runs of the trade: the later one found the network safe.
abbrev pub later_run : GridValidationRun
later_run = record {
  id = 52;
  trade_id = some 3;
  grid_snapshot_id = none;
  simulation_engine = "solver";
  engine_version = "1";
  status = safe;
  metrics = record {
    min_voltage_pu = none;
    max_voltage_pu = none;
    max_line_loading_pct = some (decimal 85 0);
    max_transformer_loading_pct = none;
  };
  decision = accept;
  created_at = 9;
}

abbrev pub earlier_run : GridValidationRun
earlier_run = record later_run { id = 51; status = unknown; decision = reject; created_at = 8 }

abbrev pub seller_node : GridNode
seller_node = record {
  id = 32;
  node_type = connection_point;
  nominal_voltage_kv = decimal 4 1;
  parent_node_id = none;
  feeder_id = some "F1";
  rated_capacity_kw = none;
}

abbrev pub morning : ForecastPoint
morning = record {
  forecast_run_id = 41;
  site_id = 22;
  interval_start = 25200000000;
  interval_end = 27000000000;
  predicted_kw = none;
  predicted_kwh = none;
  confidence = some (pos 8500);
  lower_bound = none;
  upper_bound = none;
}

abbrev pub noon : ForecastPoint
noon = record morning {
  interval_start = 27000000000;
  interval_end = 28800000000;
  confidence = some (pos 9000);
}

abbrev pub books : PriceBooks
books = record {
  trades = trade ∷ [];
  orders = bought ∷ sold ∷ [];
  validations = earlier_run ∷ later_run ∷ [];
  forecasts = noon ∷ morning ∷ [];
  nodes = seller_node ∷ record seller_node { id = 31 } ∷ [];
  assets =
      record { id = 61; site_id = 22; asset_type = pv; capacity_kw = 50000; status = in_service }
      ∷ [];
  breakdowns = [];
  events = [];
  notices = [];
  next_id = 70;
  rank_of = λ _. 0;
}
