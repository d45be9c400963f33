-- ===== src/Market/Service.antt =====
-- The market service (backend/app/services/market_service.py): sessions, orders, the order book and
-- clearing. Each operation is one transaction: it returns the committed market or raises, and
-- then nothing of it is kept.
pub mod Clearing
pub mod Invariant
pub mod Projection
pub mod Filling
pub mod Safety
pub mod Baseline
pub mod Exactness
pub mod Bookkeeping
pub mod Lifecycle
pub mod Finality
use urja_setu.Base.{
  ℕ, ◌+◌, Bool, true, false, not, Option, none, some, List, [], ◌∷◌, ◌++◌, map, leb, ltb, ◌==◌,
  ◌&&◌, is_some, get_or, filter, Result, ok, err, ◌>>=◌, ◌>>◌, raise_if, or_raise, if◌then◌else◌,
}
use urja_setu.Base.Decimal.{Decimal, decimal, less}
use urja_setu.Market.Vocabulary.{
  MarketType, MarketSessionStatus, opened, closed, accepts_orders, OrderSide, buy, sell, is_buy,
  is_sell, OrderStatus, open_order, cancelled, is_active,
}
use urja_setu.Market.Book.{OrderBookEntry, OrderBook}
use urja_setu.Market.Store.{
  MarketSession, Order, order_remaining_kwh, MarketEvent, order_placed, Notice, order_accepted,
  Market, get_for_date, find_session, find_order, set_session, set_order, list_active_for_session,
}
use urja_setu.Market.Boundary.{MatchingEngineError}

-- The reasons for which an operation is refused, by their codes; `row_refused` is what the database
-- raises.
pub data MarketError : Type 0 where
  session_already_exists session_not_found state_invalid : MarketError
  site_not_found user_not_found user_not_eligible : MarketError
  order_quantity_invalid order_window_invalid order_price_required : MarketError
  insufficient_forecast_surplus order_not_found key_error row_refused : MarketError
  matching_engine_failed : MatchingEngineError → MarketError

-- What the market asks of the services around it: the known sites, what the eligibility policy
-- decides of a user, if it exists, and the energy that a site's forecast leaves to offer.
pub record Directory : Type 0 where
  pub has_site : ℕ → Bool
  pub can_buy : ℕ → Option Bool
  pub can_sell : ℕ → Option Bool
  pub exportable_kwh : (site_id delivery_start delivery_end : ℕ) → Decimal

abbrev pub is_opened : MarketSessionStatus → Bool
is_opened opened = true
is_opened _ = false

-- `add` gives the new session the next identifier.
unfoldable pub open_session :
    (market_date : ℕ)
    → MarketType
    → (at : Option ℕ) → (now : ℕ) → Market
    → Result MarketError (MarketSession × Market)
open_session market_date market_type at now m = do
  raise_if (is_some (get_for_date market_date market_type m.sessions)) session_already_exists
  let s : MarketSession = record {
    id = m.next_id;
    market_date = market_date;
    market_type = market_type;
    status = opened;
    opened_at = some (get_or at now);
    closed_at = none;
    cleared_at = none;
  }
  ok (s, record m { sessions = m.sessions ++ s ∷ []; next_id = m.next_id + 1 })

unfoldable pub get_session : ℕ → Market → Result MarketError MarketSession
get_session id m = or_raise (find_session id m.sessions) session_not_found

-- A moment that comes before one that is recorded.
abbrev pub is_before : ℕ → Option ℕ → Bool
is_before moment none = false
is_before moment (some recorded) = ltb moment recorded

-- The check `closed_after_opened` of the table refuses a time before the opening.
unfoldable pub close_session :
    ℕ → (at : Option ℕ) → (now : ℕ) → Market → Result MarketError (MarketSession × Market)
unfolding get_session
close_session id at now m = do
  s ← get_session id m
  raise_if (not (is_opened s.status)) state_invalid
  raise_if (is_before (get_or at now) s.opened_at) row_refused
  let s' : MarketSession = record s { status = closed; closed_at = some (get_or at now) }
  ok (s', record m { sessions = set_session s' m.sessions })

pub record OrderRequest : Type 0 where
  pub market_session_id : ℕ
  pub user_id : ℕ
  pub site_id : ℕ
  pub side : OrderSide
  pub energy_kwh : ℕ
  pub delivery_start : ℕ
  pub delivery_end : ℕ
  pub max_price : Option ℕ
  pub min_price : Option ℕ
  pub node_id : Option ℕ
  pub forecast_basis_id : Option ℕ
  pub reliability_score : Option ℕ
  pub at : Option ℕ

unfoldable pub require_eligibility : Directory → ℕ → OrderSide → Result MarketError (Unit {0})
require_eligibility dir user_id side = do
  permitted ←
      or_raise (if is_sell side then dir.can_sell user_id else dir.can_buy user_id) user_not_found
  raise_if (not permitted) user_not_eligible

unfoldable pub require_forecast_surplus :
    Directory → ℕ → (energy_kwh delivery_start delivery_end : ℕ) → Result MarketError (Unit {0})
require_forecast_surplus dir site_id energy_kwh delivery_start delivery_end =
    raise_if (less (dir.exportable_kwh site_id delivery_start delivery_end) (decimal energy_kwh 4))
      insufficient_forecast_surplus

unfoldable pub validate_order_shape : OrderRequest → Result MarketError (Unit {0})
validate_order_shape r = do
  raise_if (leb r.energy_kwh 0) order_quantity_invalid
  raise_if (leb r.delivery_end r.delivery_start) order_window_invalid
  raise_if (is_buy r.side && not (is_some r.max_price)) order_price_required
  raise_if (is_sell r.side && not (is_some r.min_price)) order_price_required

abbrev pub new_order : OrderRequest → (id now : ℕ) → Order
new_order r id now = record {
  id = id;
  market_session_id = r.market_session_id;
  user_id = r.user_id;
  site_id = r.site_id;
  node_id = r.node_id;
  side = r.side;
  energy_kwh = r.energy_kwh;
  min_price = r.min_price;
  max_price = r.max_price;
  delivery_start = r.delivery_start;
  delivery_end = r.delivery_end;
  forecast_basis_id = r.forecast_basis_id;
  reliability_score = r.reliability_score;
  status = open_order;
  matched_kwh = 0;
  created_at = get_or r.at now;
}

abbrev pub placed_event : Order → MarketEvent
placed_event o =
    order_placed o.id o.user_id o.site_id o.side o.energy_kwh
      (if is_buy o.side then o.max_price else o.min_price) o.delivery_start o.delivery_end
      o.created_at

-- The guards of `place_order`, in their order.
unfoldable pub may_place : Directory → OrderRequest → Market → Result MarketError (Unit {0})
unfolding get_session require_eligibility validate_order_shape require_forecast_surplus
may_place dir r m = do
  s ← get_session r.market_session_id m
  raise_if (not (accepts_orders s.status)) state_invalid
  raise_if (not (dir.has_site r.site_id)) site_not_found
  require_eligibility dir r.user_id r.side
  validate_order_shape r
  if is_sell r.side
      then require_forecast_surplus dir r.site_id r.energy_kwh r.delivery_start r.delivery_end
      else ok tt

unfoldable pub place_order :
    Directory → OrderRequest → (now : ℕ) → Market → Result MarketError (Order × Market)
unfolding may_place
place_order dir r now m = do
  may_place dir r m
  let o = new_order r m.next_id now
  ok (
    o,
    record m {
      orders = m.orders ++ o ∷ [];
      events = m.events ++ placed_event o ∷ [];
      notices =
          m.notices ++ order_accepted o.id o.market_session_id o.side o.energy_kwh o.status ∷ [];
      next_id = m.next_id + 1;
    },
  )

unfoldable pub get_order : ℕ → Market → Result MarketError Order
get_order id m = or_raise (find_order id m.orders) order_not_found

unfoldable pub cancel_order : ℕ → Market → Result MarketError (Order × Market)
unfolding get_order
cancel_order id m = do
  o ← get_order id m
  raise_if (not (is_active o.status)) state_invalid
  let o' : Order = record o { status = cancelled }
  ok (o', record m { orders = set_order o' m.orders })

unfoldable pub to_entry : Order → OrderBookEntry
to_entry o = record {
  order_id = o.id;
  side = o.side;
  user_id = o.user_id;
  site_id = o.site_id;
  remaining_kwh = order_remaining_kwh o;
  delivery_start = o.delivery_start;
  delivery_end = o.delivery_end;
  created_at = o.created_at;
  node_id = o.node_id;
  max_price = o.max_price;
  min_price = o.min_price;
  reliability_score = o.reliability_score;
}

-- The entries of the session's active orders.
abbrev pub active_entries : ℕ → Market → List OrderBookEntry
active_entries id m = map to_entry (list_active_for_session id m.orders)

abbrev pub book_of : MarketSession → List OrderBookEntry → OrderBook
book_of s entries = record {
  market_session_id = s.id;
  market_date = s.market_date;
  market_type = s.market_type;
  buys = filter (λ e. is_buy e.side) entries;
  sells = filter (λ e. is_sell e.side) entries;
}

unfoldable pub build_order_book : ℕ → Market → Result MarketError OrderBook
unfolding get_session
build_order_book id m = do s ← get_session id m; ok (book_of s (active_entries id m))
