-- ===== src/Market/Tests/Day.antt =====
-- A day of the market on concrete input, and the theorems of the service at work on it.
use urja_setu.Base.{ℕ, ◌≡◌, refl, true, filter, none, some, [], ◌∷◌, ◌++◌, ◌+◌, ok}
use urja_setu.Base.Decimal.{decimal, less}
use urja_setu.Base.Rows.{find_row, update_row}
use urja_setu.Market.Vocabulary.{
  day_ahead, buy, sell, opened, closed, cleared, open_order, accepts_orders,
}
use urja_setu.Market.Store.{
  Market, MarketSession, find_session, get_for_date, order_accepted, market_cleared,
}
use urja_setu.Base.Int.{pos}
use urja_setu.Market.Service.{
  Directory, OrderRequest, open_session, place_order, close_session, may_place, get_session,
  require_eligibility, validate_order_shape, require_forecast_surplus, new_order, placed_event,
}
use urja_setu.Market.Service.Clearing.{clear_session}
use urja_setu.Market.Service.Invariant.{IsMarket}
use urja_setu.Market.Service.Baseline.{baseline_engine, clear_session-succeeds}
use urja_setu.Market.Service.Bookkeeping.{IsBooked}
use urja_setu.Market.Service.Lifecycle.{
  opens, closes, places, Reachable, begin, step, empty_market, Reachable-IsMarket,
}
use urja_setu.Market.Service.Finality.{is_clearing_of, Step-keeps_cleared}

-- A day: the session opens, the two orders arrive, the session closes.
abbrev directory : Directory
directory = record {
  has_site = λ _. true;
  can_buy = λ _. some true;
  can_sell = λ _. some true;
  exportable_kwh = λ _ _ _. decimal 125 1;
}

abbrev session : MarketSession
session = record {
  id = 0;
  market_date = 20000;
  market_type = day_ahead;
  status = opened;
  opened_at = some 10;
  closed_at = none;
  cleared_at = none;
}

abbrev closed_session : MarketSession
closed_session = record session { status = closed; closed_at = some 50 }

abbrev buy_request : OrderRequest
buy_request = record {
  market_session_id = 0;
  user_id = 11;
  site_id = 21;
  side = buy;
  energy_kwh = 105000;
  delivery_start = 100;
  delivery_end = 200;
  max_price = some 60000;
  min_price = none;
  node_id = none;
  forecast_basis_id = none;
  reliability_score = none;
  at = some 20;
}

abbrev sell_request : OrderRequest
sell_request = record buy_request {
  user_id = 12;
  site_id = 22;
  side = sell;
  energy_kwh = 125000;
  max_price = none;
  min_price = some 50000;
  at = none;
}

abbrev after_open : Market
after_open = record empty_market { sessions = session ∷ []; next_id = 1 }

opened_day : open_session 20000 day_ahead (some 10) 11 empty_market ≡ ok (session, after_open)
unfolding open_session get_for_date
opened_day = refl

abbrev placed : OrderRequest → ℕ → ℕ → Market → Market
placed r id now m = record m {
  orders = m.orders ++ new_order r id now ∷ [];
  events = m.events ++ placed_event (new_order r id now) ∷ [];
  notices = m.notices ++ order_accepted id 0 r.side r.energy_kwh open_order ∷ [];
  next_id = id + 1;
}

abbrev after_buy : Market
after_buy = placed buy_request 1 21 after_open

abbrev after_sell : Market
after_sell = placed sell_request 2 30 after_buy

bought_day :
    place_order directory buy_request 21 after_open ≡ ok (new_order buy_request 1 21, after_buy)
unfolding place_order may_place get_session find_row accepts_orders require_eligibility
    validate_order_shape
bought_day = refl

sold_day :
    place_order directory sell_request 30 after_buy ≡ ok (new_order sell_request 2 30, after_sell)
unfolding place_order may_place get_session find_row accepts_orders require_eligibility
    validate_order_shape require_forecast_surplus less
sold_day = refl

abbrev after_close : Market
after_close = record after_sell { sessions = closed_session ∷ [] }

closed_day : close_session 0 (some 50) 51 after_sell ≡ ok (closed_session, after_close)
unfolding close_session get_session find_row update_row
closed_day = refl

day : Reachable after_close
day =
    step
      (step
        (step (step begin (opens 20000 day_ahead (some 10) 11 session opened_day))
          (places directory buy_request 21 (new_order buy_request 1 21) bought_day))
        (places directory sell_request 30 (new_order sell_request 2 30) sold_day))
      (closes 0 (some 50) 51 closed_session closed_day)

Reachable-IsMarket_example : IsMarket after_close × IsBooked after_close
Reachable-IsMarket_example = Reachable-IsMarket day

found_closed : find_session 0 after_close.sessions ≡ some closed_session
unfolding find_row
found_closed = refl

clear_session-succeeds_example :
    (m' : Market) × (clear_session (baseline_engine "baseline" "1") 0 (some 60) 61 after_close
      ≡ (m', ok tt))
    × (find_session 0 m'.sessions
        ≡ some (record closed_session { status = cleared; cleared_at = some 60 }))
clear_session-succeeds_example =
    clear_session-succeeds "baseline" "1" 0 (some 60) 61 after_close (Reachable-IsMarket day).0
      found_closed refl refl refl refl

abbrev cleared_session : MarketSession
cleared_session = record closed_session { status = cleared; cleared_at = some 60 }

abbrev after_clear : Market
after_clear = record empty_market {
  sessions = cleared_session ∷ [];
  events = market_cleared 0 20000 0 (pos 0) "baseline" "1" 60 ∷ [];
  next_id = 1;
}

abbrev next_session : MarketSession
next_session = record session { id = 1; market_date = 20001; opened_at = some 70 }

reopened :
    open_session 20001 day_ahead none 70 after_clear
    ≡ ok (
      next_session,
      record after_clear { sessions = cleared_session ∷ next_session ∷ []; next_id = 2 },
    )
unfolding open_session get_for_date
reopened = refl

found_cleared : find_session 0 after_clear.sessions ≡ some cleared_session
unfolding find_row
found_cleared = refl

Step-keeps_cleared_example :
    (find_session 0 (cleared_session ∷ next_session ∷ []) ≡ some cleared_session)
    × (filter (is_clearing_of 0) after_clear.events ≡ filter (is_clearing_of 0) after_clear.events)
Step-keeps_cleared_example =
    Step-keeps_cleared 0 {s = cleared_session} refl
      (opens 20001 day_ahead none 70 next_session reopened) found_cleared
