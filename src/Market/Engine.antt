-- ===== src/Market/Engine.antt =====
-- The baseline matching engine (backend/app/domain/policies/market_matching.py). A raised exception
-- is `none`; the two running dicts and the list of trades are the state of the loops.
pub mod Pairing
pub mod Loop
pub mod Fills
pub mod Outcome
pub mod Limits
pub mod Exhaustion
pub mod Holdings
pub mod Clearing
pub mod Priority
use urja_setu.Base.{
  ℕ, ◌-◌, min, max, Bool, true, false, not, ◌&&◌, Option, none, some, List, [], ◌∷◌, ◌++◌, map, ltb,
  leb, ◌==◌, if◌then◌else◌, is_some, get_or, filter,
}
use urja_setu.Base.Int.{pos, pos_part}
use urja_setu.Base.Dict.{Dict, lookup, insert}
use urja_setu.Base.Sorting.{sorted}
use urja_setu.Market.Book.{
  OrderBookEntry, OrderBook, MatchingRequest, ProposedTrade, MatchingResult, is_empty_book,
}
use urja_setu.Market.Price.{prices_cross, midpoint_clearing_price}
use Prim.Native.String.{String}

-- Arrival, then id: the tie-break of both sides.
unfoldable pub arrived_before : OrderBookEntry → OrderBookEntry → Bool
arrived_before y x =
    if ltb y.created_at x.created_at
    then true
    else if ltb x.created_at y.created_at
    then false
    else ltb y.order_id x.order_id

-- Buys by `(-max_price, created_at, order_id)`.
unfoldable pub buy_before : OrderBookEntry → OrderBookEntry → Bool
unfolding arrived_before
buy_before y x =
    let q = get_or y.max_price 0 in
    let p = get_or x.max_price 0 in
    if ltb p q then true else if ltb q p then false else arrived_before y x

-- Sells by `(min_price, created_at, order_id)`.
unfoldable pub sell_before : OrderBookEntry → OrderBookEntry → Bool
unfolding arrived_before
sell_before y x =
    let q = get_or y.min_price 0 in
    let p = get_or x.min_price 0 in
    if ltb q p then true else if ltb p q then false else arrived_before y x

abbrev pub is_valid_buy : OrderBookEntry → Bool
is_valid_buy b = ltb 0 b.remaining_kwh && is_some b.max_price

abbrev pub is_valid_sell : OrderBookEntry → Bool
is_valid_sell s = ltb 0 s.remaining_kwh && is_some s.min_price

unfoldable pub sorted_buys : OrderBook → List OrderBookEntry
sorted_buys book = sorted buy_before (filter is_valid_buy book.buys)

unfoldable pub sorted_sells : OrderBook → List OrderBookEntry
sorted_sells book = sorted sell_before (filter is_valid_sell book.sells)

pub record MatchState : Type 0 where
  pub rem_buys : Dict ℕ
  pub rem_sells : Dict ℕ
  pub trades : List ProposedTrade

-- `{e.order_id: e.remaining_kwh for e in entries}`, filled from the left.
unfoldable pub remaining_dict : Dict ℕ → List OrderBookEntry → Dict ℕ
remaining_dict d [] = d
remaining_dict d (e ∷ entries) = remaining_dict (insert e.order_id e.remaining_kwh d) entries

-- `d[order_id]`, of an order whose key the dict was built with.
abbrev pub remaining : ℕ → Dict ℕ → ℕ
remaining order_id d = get_or (lookup order_id d) 0

-- What one buy and one sell come to: `continue`, a trade, or an exception.
pub data Attempt : Type 0 where
  skip crash : Attempt
  deal : ProposedTrade → Attempt

-- The two assertions and the call of the pricing rule.
unfoldable pub trade_price : Option ℕ → Option ℕ → Option ℕ
trade_price (some buy_max) (some sell_min) = midpoint_clearing_price buy_max sell_min
trade_price _ _ = none

unfoldable pub propose : OrderBookEntry → OrderBookEntry → MatchState → Attempt
unfolding prices_cross trade_price
propose buy sell st =
    if sell.user_id == buy.user_id
    then skip
    else if leb (remaining sell.order_id st.rem_sells) 0
    then skip
    else if not (prices_cross buy.max_price sell.min_price)
    then skip
    else let overlap_start = max buy.delivery_start sell.delivery_start in
      let overlap_end = min buy.delivery_end sell.delivery_end in
      if leb overlap_end overlap_start
      then skip
      else let qty =
          min (remaining buy.order_id st.rem_buys) (remaining sell.order_id st.rem_sells) in
        if leb qty 0 then skip else elim (trade_price buy.max_price sell.min_price) [
          | none ↦ crash
          | some price ↦ deal (record {
            buy_order_id = buy.order_id;
            sell_order_id = sell.order_id;
            quantity_kwh = pos qty;
            clearing_price = pos price;
            delivery_start = overlap_start;
            delivery_end = overlap_end;
          })
        ]

-- `trades.append(trade)` and the two subtractions. The quantity of a deal is not negative.
unfoldable pub commit : ProposedTrade → MatchState → MatchState
commit t st = record {
  rem_buys =
      insert t.buy_order_id (remaining t.buy_order_id st.rem_buys - pos_part t.quantity_kwh)
        st.rem_buys;
  rem_sells =
      insert t.sell_order_id (remaining t.sell_order_id st.rem_sells - pos_part t.quantity_kwh)
        st.rem_sells;
  trades = st.trades ++ t ∷ [];
}

-- The inner loop; it breaks where the trade used the buy up.
unfoldable pub match_sells : OrderBookEntry → List OrderBookEntry → MatchState → Option MatchState
match_sells buy [] st = some st
match_sells buy (sell ∷ sells) st = elim (propose buy sell st) [
  | skip ↦ match_sells buy sells st
  | crash ↦ none
  | deal t ↦ elim (leb (remaining buy.order_id (commit t st).rem_buys) 0) [
    | true ↦ some (commit t st)
    | false ↦ match_sells buy sells (commit t st)
  ]
]

-- The outer loop's body.
unfoldable pub match_buy : List OrderBookEntry → OrderBookEntry → MatchState → Option MatchState
match_buy sells buy st =
    if leb (remaining buy.order_id st.rem_buys) 0 then some st else match_sells buy sells st

unfoldable pub match_buys :
    List OrderBookEntry → List OrderBookEntry → MatchState → Option MatchState
match_buys sells [] st = some st
match_buys sells (buy ∷ buys) st = elim (match_buy sells buy st) [
  | none ↦ none
  | some st' ↦ match_buys sells buys st'
]

unfoldable pub start : OrderBook → MatchState
start book = record {
  rem_buys = remaining_dict [] (sorted_buys book);
  rem_sells = remaining_dict [] (sorted_sells book);
  trades = [];
}

abbrev order_ids : List OrderBookEntry → List ℕ
order_ids entries = map (λ e. e.order_id) entries

-- `[e.order_id for e in entries if rem.get(e.order_id, e.remaining_kwh) > ZERO]`
unfoldable pub unmatched : Dict ℕ → List OrderBookEntry → List ℕ
unmatched rem entries =
    order_ids (filter (λ e. ltb 0 (get_or (lookup e.order_id rem) e.remaining_kwh)) entries)

module _ (name version : String) where
  unfoldable pub result_of : OrderBook → MatchState → MatchingResult
  result_of book st = record {
    engine = name;
    engine_version = version;
    trades = st.trades;
    unmatched_buy_order_ids = unmatched st.rem_buys book.buys;
    unmatched_sell_order_ids = unmatched st.rem_sells book.sells;
  }

  abbrev no_trades : OrderBook → MatchingResult
  no_trades book = record {
    engine = name;
    engine_version = version;
    trades = [];
    unmatched_buy_order_ids = order_ids book.buys;
    unmatched_sell_order_ids = order_ids book.sells;
  }

  -- `BaselineMatchingEngine.match`
  unfoldable pub match_orders : MatchingRequest → Option MatchingResult
  match_orders request =
      let book = request.order_book in
      if is_empty_book book
      then some (no_trades book)
      else elim (match_buys (sorted_sells book) (sorted_buys book) (start book)) [
        | none ↦ none
        | some st ↦ some (result_of book st)
      ]
