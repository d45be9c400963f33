-- ===== src/Market/Tests.antt =====
-- Runs of the market on concrete input, and its theorems at work on them.
mod Day
use urja_setu.Base.{
  ◌<◌, ◌↔◌, is_some, In, ℕ, ◌≤◌, ◌≡◌, refl, inl, true, none, some, [], ◌∷◌, ◌++◌, ◌+◌, ◌*◌, arith,
  filter, ok, All, here,
}
use urja_setu.Base.Decimal.{decimal, div_half_up, quantize, less}
use urja_setu.Base.Dict.{lookup, insert}
use urja_setu.Base.Rows.{find_row, update_row}
use urja_setu.Base.Int.{pos}
use urja_setu.Base.Sorting.{IsSorted, sorted, insert_sorted}
use urja_setu.Market.Vocabulary.{
  day_ahead, buy, sell, opened, closed, cleared, open_order, accepts_orders,
}
use urja_setu.Market.Book.{
  OrderBookEntry, OrderBook, MatchingRequest, ProposedTrade, MatchingResult,
}
use urja_setu.Market.Price.{
  prices_cross, quantize_price, midpoint_clearing_price, IsMidpoint,
  midpoint_clearing_price-IsMidpoint,
}
use urja_setu.Market.Engine.{
  buy_before, sell_before, sorted_buys, sorted_sells, match_orders, match_buys, match_buy, start,
  remaining_dict, match_sells, propose, commit, result_of, unmatched, arrived_before, trade_price,
}
use urja_setu.Market.Engine.Fills.{filled}
use urja_setu.Market.Engine.Limits.{IsBook, match_orders-le-remaining}
use urja_setu.Market.Engine.Outcome.{IsMatched, match_orders-IsMatched}
use urja_setu.Market.Engine.Clearing.{match_orders-IsFilledOff}
use urja_setu.Market.Engine.Holdings.{IsFilledOff}
use urja_setu.Market.Engine.Exhaustion.{CanTrade}
use urja_setu.Market.Engine.Priority.{IsRanked, IsBetterBuy, IsBetterSell, sorted_sides-IsRanked}
use urja_setu.Market.Boundary.{validate_result, known_entries, known_remaining}
use urja_setu.Market.Boundary.Soundness.{IsAccepted, validate_result_sound}
use urja_setu.Market.Boundary.Engine.{IsSided, match_orders-validate_result}
use urja_setu.Market.Store.{Market, MarketSession, find_session, get_for_date, order_accepted}
use urja_setu.Market.Service.{
  Directory, OrderRequest, open_session, place_order, close_session, may_place, get_session,
  require_eligibility, validate_order_shape, require_forecast_surplus, new_order, placed_event,
}
use urja_setu.Market.Service.Clearing.{clear_session}
use urja_setu.Market.Service.Invariant.{IsMarket}
use urja_setu.Market.Service.Safety.{clear_session-IsMarket}
use urja_setu.Market.Service.Baseline.{baseline_engine, clear_session-succeeds}
use urja_setu.Market.Service.Lifecycle.{
  opens, closes, places, Reachable, begin, step, empty_market, Reachable-IsMarket,
}
use urja_setu.Market.Service.Finality.{Step-keeps_cleared}

-- 10.5 kWh wanted at up to 6 rupees; 4 and 8 kWh on offer from 4 and 5 rupees.
abbrev wanted : OrderBookEntry
wanted = record {
  order_id = 1;
  side = buy;
  user_id = 11;
  site_id = 21;
  remaining_kwh = 105000;
  delivery_start = 100;
  delivery_end = 200;
  created_at = 1;
  node_id = none;
  max_price = some 60000;
  min_price = none;
  reliability_score = none;
}

abbrev cheap : OrderBookEntry
cheap = record {
  order_id = 2;
  side = sell;
  user_id = 12;
  site_id = 22;
  remaining_kwh = 40000;
  delivery_start = 100;
  delivery_end = 200;
  created_at = 2;
  node_id = none;
  max_price = none;
  min_price = some 40000;
  reliability_score = none;
}

abbrev dear : OrderBookEntry
dear = record cheap {
  order_id = 3;
  user_id = 13;
  remaining_kwh = 80000;
  min_price = some 50001;
  delivery_start = 150;
}

abbrev book : OrderBook
book = record {
  market_session_id = 7;
  market_date = 20000;
  market_type = day_ahead;
  buys = wanted ∷ [];
  sells = dear ∷ cheap ∷ [];
}

abbrev request : MatchingRequest
request = record { order_book = book; cleared_at = 90 }

abbrev first : ProposedTrade
first = record {
  buy_order_id = 1;
  sell_order_id = 2;
  quantity_kwh = pos 40000;
  clearing_price = pos 50000;
  delivery_start = 100;
  delivery_end = 200;
}

abbrev second : ProposedTrade
second = record {
  buy_order_id = 1;
  sell_order_id = 3;
  quantity_kwh = pos 65000;
  clearing_price = pos 55001;
  delivery_start = 150;
  delivery_end = 200;
}

abbrev result : MatchingResult
result = record {
  engine = "baseline";
  engine_version = "1";
  trades = first ∷ second ∷ [];
  unmatched_buy_order_ids = [];
  unmatched_sell_order_ids = 3 ∷ [];
}

run : match_orders "baseline" "1" request ≡ some result
unfolding match_orders match_buys sorted_buys sorted filter match_buy lookup start remaining_dict
    insert match_sells sorted_sells sell_before propose midpoint_clearing_price commit result_of
    unmatched div_half_up quantize insert_sorted arrived_before buy_before trade_price prices_cross
    quantize_price
run = refl

book-IsBook : IsBook book
book-IsBook = record {
  buy_ids = (tt, tt);
  sell_ids = ((ground arith, tt), (tt, tt));
  apart = ((ground arith, (ground arith, tt)), tt);
}

book-IsSided : IsSided book
book-IsSided = record { buy_sides = (refl, tt); sell_sides = (refl, (refl, tt)) }

midpoint_clearing_price-IsMidpoint_example :
    IsMidpoint 60000 50001 (midpoint_clearing_price 60000 50001)
midpoint_clearing_price-IsMidpoint_example = midpoint_clearing_price-IsMidpoint 60000 50001

sorted_sides-IsRanked_example :
    IsRanked IsBetterBuy (sorted_buys book)
    × IsRanked IsBetterSell (sorted_sells book)
    × ((e : OrderBookEntry)
        → In e (sorted_buys book)
          ↔ (In e book.buys × ((0 < e.remaining_kwh) × (is_some e.max_price ≡ true))))
    × ((e : OrderBookEntry)
        → In e (sorted_sells book)
          ↔ (In e book.sells × ((0 < e.remaining_kwh) × (is_some e.min_price ≡ true))))
sorted_sides-IsRanked_example = sorted_sides-IsRanked book

match_orders-IsMatched_example :
    (r : MatchingResult) × (match_orders "baseline" "1" request ≡ some r)
    × All (IsMatched book) r.trades
match_orders-IsMatched_example = match_orders-IsMatched "baseline" "1" request

match_orders-le-remaining_example : filled 1 result.trades ≤ 105000
match_orders-le-remaining_example =
    match_orders-le-remaining "baseline" "1" request wanted book-IsBook run (inl here)

wanted-CanTrade : CanTrade wanted dear
unfolding prices_cross
wanted-CanTrade = record { users = ground arith; limits = refl; windows = ground arith }

match_orders-IsFilledOff_example : IsFilledOff wanted dear result.trades
match_orders-IsFilledOff_example =
    match_orders-IsFilledOff "baseline" "1" request wanted dear book-IsBook run here here
      wanted-CanTrade

result_passes : validate_result result book ≡ ok tt
result_passes = match_orders-validate_result "baseline" "1" request book-IsBook book-IsSided run

validate_result_sound_example :
    All (IsAccepted book) result.trades
    × ((id : ℕ) → filled id result.trades ≤ known_remaining (known_entries book) id)
validate_result_sound_example = validate_result_sound result book result_passes
