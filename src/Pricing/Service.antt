-- ===== src/Pricing/Service.antt =====
-- The pricing service (backend/app/services/pricing_service.py): quoting a request or a trade, and
-- pricing a trade as a transaction. The engine is a parameter.
use urja_setu.Base.{
  ℕ, ◌+◌, Option, [], ◌∷◌, ◌++◌, Result, ok, err, ◌>>=◌, ◌>>◌, raise_if, or_raise, get_or,
}
use urja_setu.Base.Rows.{find_row}
use urja_setu.Pricing.Contract.{PricingRequest, PricingResult, PricingEngine}
use urja_setu.Pricing.Check.{PricingEngineError, engine_failed, validate_result}
use urja_setu.Pricing.Assembly.{build_request}
use urja_setu.Pricing.Store.{
  PricedTrade, PriceComponents, PriceBooks, PricingError, trade_not_found, breakdown_not_found,
  row_refused, engine_error, is_row_refused, latest_breakdown,
}

unfoldable pub quote : PricingEngine → PricingRequest → Result PricingEngineError PricingResult
unfolding validate_result
quote engine request = do
  result ← or_raise (engine.quote request) engine_failed
  validate_result result
  ok result

-- The error of an engine, raised further.
abbrev pub reraised : {A : Type 0} → Result PricingEngineError A → Result PricingError A
reraised (ok a) = ok a
reraised (err e) = err (engine_error e)

-- `_get_trade`
unfoldable pub get_trade : PriceBooks → ℕ → Result PricingError PricedTrade
unfolding find_row
get_trade b trade_id =
    or_raise (find_row (λ (t : PricedTrade). t.id) trade_id b.trades) trade_not_found

unfoldable pub quote_trade : PricingEngine → PriceBooks → ℕ → Result PricingError PricingResult
unfolding get_trade quote build_request
quote_trade engine b trade_id = do
  t ← get_trade b trade_id
  reraised (quote engine (build_request b t))

abbrev pub row_of : (id rank created_at trade_id : ℕ) → PricingResult → PriceComponents
row_of id rank created_at trade_id q = record {
  id = id;
  rank = rank;
  created_at = created_at;
  trade_id = trade_id;
  base_market_price = q.base_market_price;
  time_component = q.time_component;
  congestion_component = q.congestion_component;
  imbalance_component = q.imbalance_component;
  local_renewable_component = q.local_renewable_component;
  final_price = q.final_price;
  formula_version = q.formula_version;
}

-- The row, its audit event and its notice.
unfoldable pub store_row : PriceComponents → PriceBooks → PriceBooks
store_row row b = record b {
  breakdowns = b.breakdowns ++ row ∷ [];
  events = b.events ++ row ∷ [];
  notices = b.notices ++ row ∷ [];
  next_id = b.next_id + 1;
}

unfoldable pub price_trade :
    PricingEngine
    → (trade_id : ℕ) → (at : Option ℕ) → (now : ℕ) → PriceBooks
    → Result PricingError (PriceComponents × PriceBooks)
unfolding get_trade quote build_request is_row_refused store_row
price_trade engine trade_id at now b = do
  t ← get_trade b trade_id
  result ← reraised (quote engine (build_request b t))
  let row = row_of b.next_id (b.rank_of b.next_id) (get_or at now) t.id result
  raise_if (is_row_refused row) row_refused
  ok (row, store_row row b)

unfoldable pub get_breakdown : PriceBooks → ℕ → Result PricingError PriceComponents
unfolding latest_breakdown
get_breakdown b trade_id = or_raise (latest_breakdown trade_id b.breakdowns) breakdown_not_found
