-- ===== src/Market/Store.antt =====
-- The rows that the market keeps (backend/app/db/models/market.py) and the queries over them
-- (backend/app/repositories/market.py), with the audit events and notifications that it emits. The
-- identifier of a new row, random in the program, is drawn from a counter.
use urja_setu.Base.{
  ℕ, ◌-◌, Bool, true, false, Option, none, some, List, [], ◌∷◌, ltb, ◌==◌, ◌&&◌, if◌then◌else◌,
  filter,
}
use urja_setu.Base.Int.{ℤ}
use urja_setu.Base.Rows.{find_row, update_row}
use urja_setu.Base.Sorting.{sorted}
use urja_setu.Market.Vocabulary.{
  MarketType, day_ahead, MarketSessionStatus, OrderSide, OrderStatus, TradeStatus, is_active,
}
use Prim.Native.String.{String}

pub record MarketSession : Type 0 where
  pub id : ℕ
  pub market_date : ℕ
  pub market_type : MarketType
  pub status : MarketSessionStatus
  pub opened_at : Option ℕ
  pub closed_at : Option ℕ
  pub cleared_at : Option ℕ

-- The column checks keep `matched_kwh` between zero and `energy_kwh`.
pub record Order : Type 0 where
  pub id : ℕ
  pub market_session_id : ℕ
  pub user_id : ℕ
  pub site_id : ℕ
  pub node_id : Option ℕ
  pub side : OrderSide
  pub energy_kwh : ℕ
  pub min_price : Option ℕ
  pub max_price : Option ℕ
  pub delivery_start : ℕ
  pub delivery_end : ℕ
  pub forecast_basis_id : Option ℕ
  pub reliability_score : Option ℕ
  pub status : OrderStatus
  pub matched_kwh : ℕ
  pub created_at : ℕ

abbrev pub order_remaining_kwh : Order → ℕ
order_remaining_kwh o = o.energy_kwh - o.matched_kwh

pub record Trade : Type 0 where
  pub id : ℕ
  pub buy_order_id : ℕ
  pub sell_order_id : ℕ
  pub quantity_kwh : ℤ
  pub clearing_price : ℤ
  pub delivery_start : ℕ
  pub delivery_end : ℕ
  pub status : TradeStatus
  pub matching_engine : String
  pub matching_engine_version : String
  pub created_at : ℕ

-- The events that the market records: who, how much, at what price, when.
pub data MarketEvent : Type 0 where
  order_placed :
      (order_id user_id site_id : ℕ)
      → OrderSide
      → (energy_kwh : ℕ) → (limit_price : Option ℕ) → (delivery_start delivery_end occurred_at : ℕ)
      → MarketEvent
  market_cleared :
      (session_id market_date trade_count : ℕ)
      → (matched_kwh : ℤ) → (engine version : String) → (occurred_at : ℕ) → MarketEvent
  trade_proposed :
      (trade_id buy_order_id sell_order_id : ℕ)
      → (quantity_kwh clearing_price : ℤ) → (delivery_start delivery_end occurred_at : ℕ)
      → MarketEvent

-- What the dashboard is told.
pub data Notice : Type 0 where
  order_accepted : (order_id session_id : ℕ) → OrderSide → (energy_kwh : ℕ) → OrderStatus → Notice
  clearing_started : (session_id market_date : ℕ) → (engine : String) → Notice
  trade_noticed :
      (trade_id session_id : ℕ) → (quantity_kwh clearing_price : ℤ) → TradeStatus → Notice

pub record Market : Type 0 where
  pub sessions : List MarketSession
  pub orders : List Order
  pub trades : List Trade
  pub events : List MarketEvent
  pub notices : List Notice
  pub next_id : ℕ

abbrev pub same_type : MarketType → MarketType → Bool
same_type day_ahead day_ahead = true

-- `MarketSessionRepository.get_for_date`
unfoldable pub get_for_date : ℕ → MarketType → List MarketSession → Option MarketSession
get_for_date market_date market_type [] = none
get_for_date market_date market_type (s ∷ sessions) =
    if s.market_date == market_date && same_type s.market_type market_type
    then some s
    else get_for_date market_date market_type sessions

-- `MarketSessionRepository.get` and `OrderRepository.get`
abbrev pub find_session : ℕ → List MarketSession → Option MarketSession
find_session = find_row (λ (s : MarketSession). s.id)

abbrev pub find_order : ℕ → List Order → Option Order
find_order = find_row (λ (o : Order). o.id)

-- A write to the session or the order of that id, and to it alone.
abbrev pub set_session : MarketSession → List MarketSession → List MarketSession
set_session s = update_row (λ (x : MarketSession). x.id) s.id (λ _. s)

abbrev pub set_order : Order → List Order → List Order
set_order o = update_row (λ (x : Order). x.id) o.id (λ _. o)

abbrev pub placed_before : Order → Order → Bool
placed_before y x =
    if ltb y.created_at x.created_at
    then true
    else if ltb x.created_at y.created_at
    then false
    else ltb y.id x.id

abbrev pub is_active_in : ℕ → Order → Bool
is_active_in session_id o = o.market_session_id == session_id && is_active o.status

-- `OrderRepository.list_active_for_session`, of either side.
unfoldable pub list_active_for_session : ℕ → List Order → List Order
list_active_for_session session_id orders =
    sorted placed_before (filter (is_active_in session_id) orders)
