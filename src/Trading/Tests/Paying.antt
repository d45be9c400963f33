-- ===== src/Trading/Tests/Paying.antt =====
-- A trade that is priced and then settled, on concrete input.
use urja_setu.Base.{
  ℕ, ◌≡◌, refl, min, false, err, any, if◌then◌else◌, Option, none, some, [], ◌∷◌, ok, filter,
}
use urja_setu.Base.Int.{pos, negsuc, neg, ◌+ℤ◌, ◌-ℤ◌}
use urja_setu.Base.Decimal.{decimal, quantize, mul, div, less}
use urja_setu.Base.Rows.{find_row}
use urja_setu.Grid.Contract.{accept, safe}
use urja_setu.Pricing.Contract.{PricingResult, PricingEngine, components_sum}
use urja_setu.Pricing.Check.{validate_result, check_parts}
use urja_setu.Pricing.Store.{PriceBooks, is_row_refused, latest_breakdown}
use urja_setu.Pricing.Service.{price_trade, row_of, store_row, get_breakdown}
use urja_setu.Settlement.Contract.{ActualEnergy, SettlementRequest}
use urja_setu.Settlement.Policy.{
  default_policy, quantize_energy, reconcile, reconcile_measured, percent, quantize_amount,
  is_within,
}
use urja_setu.Settlement.Calculator.{
  gross_amount, settle_request, is_imprecise, lines_of, settle_outcome, account, balancing_amount,
  fee_amount, standard_calculator,
}
use urja_setu.Settlement.Outcomes.{is_unstorable}
use urja_setu.Settlement.Store.{Settlement, Books, row_refused, calculator_failed}
use urja_setu.Settlement.Service.{
  build_request, settle_trade, forecast_quantity, is_reconciliation_refused, is_too_wide,
}
use urja_setu.Trading.Paying.{stored_prices, settle_trade-stored_prices}

-- The trade was cleared at 5 rupees.
abbrev price_books : PriceBooks
price_books = record {
  trades =
      record {
        id = 5;
        buy_order_id = 1;
        sell_order_id = 2;
        quantity_kwh = pos 40000;
        clearing_price = pos 50000;
        delivery_start = 100;
        delivery_end = 200;
        grid_validation_id = none;
      }
      ∷ [];
  orders = [];
  validations = [];
  forecasts = [];
  nodes = [];
  assets = [];
  breakdowns = [];
  events = [];
  notices = [];
  next_id = 70;
  rank_of = λ _. 0;
}

-- An engine that takes a quarter of a rupee off.
abbrev discounted : PricingResult
discounted = record {
  formula_version = "flat";
  engine = "flat";
  base_market_price = pos 50000;
  time_component = negsuc 2499;
  congestion_component = pos 0;
  imbalance_component = pos 0;
  local_renewable_component = pos 0;
  final_price = pos 47500;
  components = [];
  recommended_decision = accept;
  grid_status = safe;
}

abbrev flat : PricingEngine
flat = record { name = "flat"; formula_version = "flat"; quote = λ _. some discounted }

abbrev priced_books : PriceBooks
priced_books = store_row (row_of 70 0 250 5 discounted) price_books

prices_flat :
    price_trade flat 5 none 250 price_books ≡ ok (row_of 70 0 250 5 discounted, priced_books)
unfolding price_trade validate_result check_parts components_sum is_row_refused ◌+ℤ◌
prices_flat = refl

abbrev delivered : (site_id start end : ℕ) → Option ActualEnergy
delivered site_id start end = some (record {
  window_start = start;
  window_end = end;
  quantity_kwh = some (decimal 32 1);
  reading_count = 4;
})

abbrev books : Books
books = record {
  trades =
      record {
        id = 5;
        buy_order_id = 1;
        sell_order_id = 2;
        quantity_kwh = 40000;
        delivery_start = 100;
        delivery_end = 200;
        grid_validation_id = none;
      }
      ∷ [];
  orders =
      record { id = 1; user_id = 11; site_id = 21; forecast_basis_id = none }
      ∷ record { id = 2; user_id = 12; site_id = 22; forecast_basis_id = none }
      ∷ [];
  forecasts = [];
  reconciliations = [];
  settlements = [];
  events = [];
  notices = [];
  next_id = 100;
}

abbrev request : SettlementRequest
request = record {
  trade_id = 5;
  buyer_user_id = 11;
  seller_user_id = 12;
  committed_kwh = decimal 40000 4;
  effective_price = record { price = 47500; source_id = some 70; formula_version = some "flat" };
  delivery_start = 100;
  delivery_end = 200;
  actual = record {
    window_start = 100;
    window_end = 200;
    quantity_kwh = some (decimal 32 1);
    reading_count = 4;
  };
  forecast_kwh = none;
  forecast_basis_id = none;
  grid_validation_id = none;
}

fits_columns :
    (is_imprecise (settle_request default_policy request) ≡ false)
    × (is_unstorable (settle_request default_policy request) ≡ false)
unfolding settle_request settle_outcome reconcile reconcile_measured account gross_amount
    quantize_amount quantize mul quantize_energy balancing_amount is_within less ◌-ℤ◌ fee_amount
    is_reconciliation_refused is_too_wide is_imprecise percent div any lines_of neg
fits_columns = (refl, refl)

settle_trade-stored_prices_example :
    (row : Settlement) × (after : Books) × (price : ℕ) × (settle_trade
        (stored_prices priced_books delivered)
        (standard_calculator default_policy)
        5
        none
        300
        books
      ≡ (if is_imprecise (settle_request default_policy request)
          then (books, err calculator_failed)
          else if is_unstorable (settle_request default_policy request)
          then (books, err row_refused)
          else (after, ok row)))
    × (pos 47500 ≡ pos price)
    × (row.gross_inr
        ≡ pos (
            gross_amount
              (min (quantize_energy (decimal 40000 4)) (quantize_energy (decimal 32 1)))
              price))
unfolding find_row build_request stored_prices get_breakdown forecast_quantity store_row
    latest_breakdown filter
settle_trade-stored_prices_example =
    settle_trade-stored_prices flat none 250 price_books delivered default_policy none 300 books
      {request = request} tt prices_flat refl refl refl refl
