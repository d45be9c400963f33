-- ===== src/Pricing/Tests/Trades.antt =====
-- Pricing a stored trade on concrete input, and the theorems of the service at work on it.
use urja_setu.Base.{
  ◌≡◌, ◌↔◌, refl, true, false, none, some, [], arith, ok, err, any, filter, if◌then◌else◌,
}
use urja_setu.Base.Int.{pos, negsuc, neg, ◌+ℤ◌, ltb_ℤ}
use urja_setu.Base.Decimal.{decimal, mul, div, less, minus, least, greatest}
use urja_setu.Base.Rows.{find_row}
use urja_setu.Market.Price.{quantize_price}
use urja_setu.Grid.Contract.{safe, unknown, accept, reprice, permits_trade}
use urja_setu.Pricing.Contract.{PricingResult, PricingEngine, components_sum}
use urja_setu.Pricing.Engine.{priced, is_imprecise, component_engine}
use urja_setu.Pricing.Check.{engine_failed, negative_price, validate_result, check_parts}
use urja_setu.Pricing.Store.{
  PricedTrade, PriceBooks, row_refused, trade_not_found, breakdown_not_found, engine_error,
  is_row_refused,
}
use urja_setu.Pricing.Assembly.{build_request, grid_state, forecast_confidence, is_local_renewable}
use urja_setu.Pricing.Service.{quote_trade, price_trade, get_breakdown, row_of, store_row}
use urja_setu.Pricing.Breakdowns.{IsPriceBooks, price_trade-IsPriceBooks}
use urja_setu.Pricing.Applying.{price_trade-get_breakdown}
use urja_setu.Pricing.Refusals.{IsUnstorable, price_trade-IsUnstorable}
use urja_setu.Pricing.Caution.{IsBacked, quote_trade-IsBacked}
use urja_setu.Pricing.Standard.{standard_row, stored_or_refused, price_trade-component_engine}
use urja_setu.Pricing.Tests.{parameters, accepted}
use urja_setu.Pricing.Tests.Books.{bought, sold, trade, books}

confidence_of_weakest :
    forecast_confidence (some sold) trade books.forecasts ≡ some (decimal 8500 4)
unfolding forecast_confidence
confidence_of_weakest = refl

qualifies : is_local_renewable (some bought) (some sold) books ≡ true
unfolding is_local_renewable any
qualifies = refl

-- The seller's node alone is no proof of locality.
unlocated : is_local_renewable (some (record bought { node_id = none })) (some sold) books ≡ false
unfolding is_local_renewable any
unlocated = refl

latest_counts : (grid_state trade books.validations).grid_validation_id ≡ some 52
unfolding grid_state filter
latest_counts = refl

never_judged : (grid_state trade []).status ≡ unknown
unfolding grid_state filter
never_judged = refl

-- An engine with one answer.
abbrev answer : PricingResult
answer = record {
  formula_version = "flat";
  engine = "flat";
  base_market_price = pos 50000;
  time_component = negsuc 2499;
  congestion_component = pos 100;
  imbalance_component = pos 0;
  local_renewable_component = pos 0;
  final_price = pos 47600;
  components = [];
  recommended_decision = accept;
  grid_status = safe;
}

abbrev answering : PricingResult → PricingEngine
answering q = record { name = "flat"; formula_version = "flat"; quote = λ _. some q }

abbrev priced_once : PriceBooks
priced_once = store_row (row_of 70 0 100 3 answer) books

prices_flat :
    price_trade (answering answer) 3 none 100 books ≡ ok (row_of 70 0 100 3 answer, priced_once)
unfolding price_trade validate_result check_parts components_sum is_row_refused ◌+ℤ◌
prices_flat = refl

unknown_trade : price_trade (answering answer) 4 none 100 books ≡ err trade_not_found
unfolding price_trade
unknown_trade = refl

unpriced : get_breakdown books 3 ≡ err breakdown_not_found
unfolding get_breakdown
unpriced = refl

books-IsPriceBooks : IsPriceBooks books
books-IsPriceBooks = record {
  explained = tt;
  of_trades = tt;
  audited = refl;
  published = refl;
  older = tt;
  distinct = tt;
}

price_trade-IsPriceBooks_example : IsPriceBooks priced_once
price_trade-IsPriceBooks_example =
    price_trade-IsPriceBooks (answering answer) 3 none 100 books books-IsPriceBooks prices_flat

prices_again :
    price_trade (answering answer) 3 (some 101) 105 priced_once
    ≡ ok (row_of 71 0 101 3 answer, store_row (row_of 71 0 101 3 answer) priced_once)
unfolding price_trade validate_result check_parts components_sum is_row_refused ◌+ℤ◌
prices_again = refl

-- Of two breakdowns the later applies.
price_trade-get_breakdown_example :
    get_breakdown (store_row (row_of 71 0 101 3 answer) priced_once) 3
    ≡ ok (row_of 71 0 101 3 answer)
unfolding store_row
price_trade-get_breakdown_example =
    price_trade-get_breakdown (answering answer) 3 (some 101) 105 priced_once
      ((λ _. omega arith), tt) prices_again

-- A negative base price, made good by the time of day.
abbrev sunken : PricingResult
sunken = record answer {
  base_market_price = negsuc 99;
  time_component = pos 100;
  congestion_component = pos 0;
  final_price = pos 0;
}

refuses_sunken : price_trade (answering sunken) 3 none 100 books ≡ err row_refused
unfolding price_trade validate_result check_parts components_sum is_row_refused ◌+ℤ◌
refuses_sunken = refl

price_trade-IsUnstorable_example :
    price_trade (answering sunken) 3 none 100 books ≡ err row_refused
    ↔ IsUnstorable (answering sunken) 3 100 books
price_trade-IsUnstorable_example = price_trade-IsUnstorable (answering sunken) 3 none 100 books

quotes_safe :
    quote_trade (component_engine parameters) books 3
    ≡ ok (priced parameters (build_request books trade))
unfolding quote_trade component_engine priced validate_result check_parts components_sum ◌+ℤ◌ neg
    quantize_price mul less div minus least greatest permits_trade
quotes_safe = refl

repriced : (priced parameters (build_request books trade)).recommended_decision ≡ reprice
unfolding priced build_request permits_trade quantize_price mul less div minus least
repriced = refl

quote_trade-IsBacked_example :
    (t : PricedTrade) × (find_row (λ (x : PricedTrade). x.id) 3 books.trades ≡ some t)
    × IsBacked t books.validations
quote_trade-IsBacked_example =
    quote_trade-IsBacked parameters books 3 quotes_safe (λ h. let r = repriced in cc)

price_trade-component_engine_example :
    price_trade (component_engine parameters) 3 none 100 books ≡ (
      if is_imprecise (priced parameters (build_request books trade))
      then err (engine_error engine_failed)
      else if ltb_ℤ (priced parameters (build_request books trade)).final_price (pos 0)
      then err (engine_error negative_price)
      else stored_or_refused (standard_row parameters 100 books trade) books)
unfolding find_row
price_trade-component_engine_example =
    price_trade-component_engine parameters 3 none 100 books refl accepted (omega arith) refl
