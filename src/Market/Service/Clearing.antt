-- ===== src/Market/Service/Clearing.antt =====
-- Clearing a session: `clear_session` of backend/app/services/market_service.py. The engine is a
-- parameter, any function of the request that returns a result or raises.
use urja_setu.Base.{
  ℕ, ◌+◌, Bool, ltb, is_empty, ◌&&◌, ◌||◌, not, Option, some, List, [], ◌∷◌, ◌++◌, map, leb, ◌==◌,
  get_or, any, Result, ok, err, ◌>>=◌, ◌>>◌, raise_if, or_raise, if◌then◌else◌,
}
use urja_setu.Base.Rows.{update_row}
use urja_setu.Base.Int.{pos_part}
use urja_setu.Market.Vocabulary.{cleared, can_clear, filled, partially_filled, proposed}
use urja_setu.Market.Book.{MatchingRequest, MatchingResult, ProposedTrade, matched_kwh, trade_count}
use urja_setu.Market.Store.{
  MarketSession, Order, Trade, MarketEvent, market_cleared, trade_proposed, clearing_started,
  trade_noticed, Market, set_session, list_active_for_session,
}
use urja_setu.Market.Boundary.{MatchingEngineError, engine_failed, validate_result}
use urja_setu.Market.Service.{
  MarketError, key_error, row_refused, is_before, matching_engine_failed, state_invalid,
  get_session, build_order_book,
}
use Prim.Native.String.{String, len}

pub record MatchingEngine : Type 0 where
  pub name : String
  pub match : MatchingRequest → Option MatchingResult

-- `_apply_fill`
unfoldable pub apply_fill : Order → ℕ → Order
apply_fill o quantity_kwh =
    let matched = o.matched_kwh + quantity_kwh in
    record o {
      matched_kwh = matched;
      status = if leb o.energy_kwh matched then filled else partially_filled;
    }

-- The same of the stored order of that id.
abbrev pub fill_order : ℕ → ℕ → List Order → List Order
fill_order id quantity_kwh = update_row (λ (o : Order). o.id) id (λ o. apply_fill o quantity_kwh)

-- `orders[order_id]` raises for an id that is not among those of the active orders. A quantity that
-- has passed the check of the result is not negative.
unfoldable pub apply_fills :
    (active : List Order) → List ProposedTrade → List Order → Result MarketError (List Order)
apply_fills active [] orders = ok orders
apply_fills active (t ∷ trades) orders = do
  raise_if (not (any (λ o. o.id == t.buy_order_id) active)) key_error
  let bought = fill_order t.buy_order_id (pos_part t.quantity_kwh) orders
  raise_if (not (any (λ o. o.id == t.sell_order_id) active)) key_error
  apply_fills active trades (fill_order t.sell_order_id (pos_part t.quantity_kwh) bought)

-- The new trades, with the identifiers from `id` upwards, created at the call's one reading of the clock.
unfoldable pub new_trades : MatchingResult → (now id : ℕ) → List ProposedTrade → List Trade
new_trades r now id [] = []
new_trades r now id (t ∷ trades) =
    record {
      id = id;
      buy_order_id = t.buy_order_id;
      sell_order_id = t.sell_order_id;
      quantity_kwh = t.quantity_kwh;
      clearing_price = t.clearing_price;
      delivery_start = t.delivery_start;
      delivery_end = t.delivery_end;
      status = proposed;
      matching_engine = r.engine;
      matching_engine_version = r.engine_version;
      created_at = now;
    }
    ∷ new_trades r now (id + 1) trades

abbrev pub or_engine_failed : {A : Type 0} → Result MatchingEngineError A → Result MarketError A
or_engine_failed (ok a) = ok a
or_engine_failed (err e) = err (matching_engine_failed e)

abbrev pub trade_event : Trade → MarketEvent
trade_event t =
    trade_proposed t.id t.buy_order_id t.sell_order_id t.quantity_kwh t.clearing_price
      t.delivery_start t.delivery_end t.created_at

-- What the transaction writes once the result is trusted.
abbrev pub record_clearing :
    MarketSession → (cleared_at now : ℕ) → MatchingResult → List Order → Market → Market
record_clearing s cleared_at now r orders m =
    let trades = new_trades r now m.next_id r.trades in
    record m {
      sessions =
          set_session (record s { status = cleared; cleared_at = some cleared_at }) m.sessions;
      orders = orders;
      trades = m.trades ++ trades;
      events =
          m.events
          ++ market_cleared s.id s.market_date (trade_count r) (matched_kwh r) r.engine
              r.engine_version cleared_at
            ∷ map trade_event trades;
      notices =
          m.notices
          ++ map (λ t. trade_noticed t.id s.id t.quantity_kwh t.clearing_price t.status) trades;
      next_id = m.next_id + trade_count r;
    }

-- The columns of a trade do not take the name or the version of its engine.
abbrev pub is_engine_refused : MatchingResult → Bool
is_engine_refused r = ltb 64 (len r.engine) || ltb 64 (len r.engine_version)

-- What the database refuses of it: a session that is cleared before it was closed
-- (`cleared_after_closed`), and trades of an engine whose name or version is too wide.
unfoldable pub is_clearing_refused : MarketSession → (cleared_at : ℕ) → MatchingResult → Bool
is_clearing_refused s cleared_at r =
    is_before cleared_at s.closed_at || (not (is_empty r.trades) && is_engine_refused r)

-- From the start of the clearing on.
unfoldable pub clear_book :
    MatchingEngine → MarketSession → (cleared_at now : ℕ) → Market → Result MarketError Market
clear_book engine s cleared_at now m = do
  book ← build_order_book s.id m
  r ← or_engine_failed (
      or_raise (engine.match (record { order_book = book; cleared_at = cleared_at })) engine_failed)
  or_engine_failed (validate_result r book)
  orders ← apply_fills (list_active_for_session s.id m.orders) r.trades m.orders
  raise_if (is_clearing_refused s cleared_at r) row_refused
  ok (record_clearing s cleared_at now r orders m)

-- The one notification that a failure does not take back.
abbrev pub announce : MatchingEngine → MarketSession → Market → Market
announce engine s m = record m {
  notices = m.notices ++ clearing_started s.id s.market_date engine.name ∷ [];
}

-- What is kept of a transaction: where it raised, what was there before it.
unfoldable pub kept : {A : Type 0} → A → Result MarketError A → A × Result MarketError (Unit {0})
kept before (ok after) = (after, ok tt)
kept before (err e) = (before, err e)

-- The guards of `clear_session`.
unfoldable pub may_clear : ℕ → Market → Result MarketError MarketSession
may_clear id m = do s ← get_session id m; raise_if (not (can_clear s.status)) state_invalid; ok s

-- Once the guards have answered.
unfoldable pub clear_checked :
    MatchingEngine
    → (at : Option ℕ) → (now : ℕ) → Market
    → Result MarketError MarketSession
    → Market × Result MarketError (Unit {0})
clear_checked engine at now m (err e) = (m, err e)
clear_checked engine at now m (ok s) =
    let m' = announce engine s m in kept m' (clear_book engine s (get_or at now) now m')

-- The market afterwards, and whether the call raised.
unfoldable pub clear_session :
    MatchingEngine
    → ℕ
    → (at : Option ℕ) → (now : ℕ) → Market
    → Market × Result MarketError (Unit {0})
clear_session engine id at now m = clear_checked engine at now m (may_clear id m)
