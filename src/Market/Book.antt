-- ===== src/Market/Book.antt =====
-- The matching contract (backend/app/domain/interfaces/market.py). Identifiers are numbers, as they
-- are only compared and ordered. Times are microseconds. Energy and prices are whole numbers of
-- ten-thousandths, the precision of their columns. Those of an order are not negative, by the
-- constraints on its columns; those of a trade come from an engine, and may be.
use urja_setu.Base.{ℕ, Option, List, Bool, ltb, length, is_empty, sum_of, ◌&&◌, ◌||◌}
use urja_setu.Market.Vocabulary.{OrderSide, buy, sell, MarketType}
use urja_setu.Base.Int.{ℤ, sum_ℤ}
use Prim.Native.String.{String}

pub record OrderBookEntry : Type 0 where
  pub order_id : ℕ
  pub side : OrderSide
  pub user_id : ℕ
  pub site_id : ℕ
  pub remaining_kwh : ℕ
  pub delivery_start : ℕ
  pub delivery_end : ℕ
  pub created_at : ℕ
  pub node_id : Option ℕ
  pub max_price : Option ℕ
  pub min_price : Option ℕ
  pub reliability_score : Option ℕ

limit_of : OrderSide → OrderBookEntry → Option ℕ
limit_of buy e = e.max_price
limit_of sell e = e.min_price

-- The price bound that applies to the order's side.
unfoldable pub limit_price : OrderBookEntry → Option ℕ
unfolding limit_of
limit_price e = limit_of e.side e

-- Half-open windows that share some time.
unfoldable pub overlaps : OrderBookEntry → OrderBookEntry → Bool
overlaps a b = ltb a.delivery_start b.delivery_end && ltb b.delivery_start a.delivery_end

pub record OrderBook : Type 0 where
  pub market_session_id : ℕ
  pub market_date : ℕ
  pub market_type : MarketType
  pub buys : List OrderBookEntry
  pub sells : List OrderBookEntry

unfoldable pub total_demand_kwh : OrderBook → ℕ
total_demand_kwh book = sum_of (λ e. e.remaining_kwh) book.buys

unfoldable pub total_supply_kwh : OrderBook → ℕ
total_supply_kwh book = sum_of (λ e. e.remaining_kwh) book.sells

abbrev pub is_empty_book : OrderBook → Bool
is_empty_book book = is_empty book.buys || is_empty book.sells

pub record MatchingRequest : Type 0 where
  pub order_book : OrderBook
  pub cleared_at : ℕ

pub record ProposedTrade : Type 0 where
  pub buy_order_id : ℕ
  pub sell_order_id : ℕ
  pub quantity_kwh : ℤ
  pub clearing_price : ℤ
  pub delivery_start : ℕ
  pub delivery_end : ℕ

pub record MatchingResult : Type 0 where
  pub engine : String
  pub engine_version : String
  pub trades : List ProposedTrade
  pub unmatched_buy_order_ids : List ℕ
  pub unmatched_sell_order_ids : List ℕ

unfoldable pub matched_kwh : MatchingResult → ℤ
matched_kwh r = sum_ℤ (λ t. t.quantity_kwh) r.trades

abbrev pub trade_count : MatchingResult → ℕ
trade_count r = length r.trades
