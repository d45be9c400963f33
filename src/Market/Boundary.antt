-- ===== src/Market/Boundary.antt =====
-- The check of an engine's output before it is trusted: `_validate_result` of
-- backend/app/services/market_service.py.
pub mod Parts
pub mod Soundness
pub mod Completeness
pub mod Engine
use urja_setu.Base.{
  ℕ, Bool, true, false, not, Option, none, some, List, [], ◌∷◌, ◌++◌, ltb, leb, Result, ok, ◌>>=◌,
  ◌>>◌, raise_if, or_raise, get_or,
}
use urja_setu.Base.Int.{ℤ, pos, ◌+ℤ◌, ltb_ℤ, leb_ℤ}
use urja_setu.Base.Dict.{Dict, lookup, insert}
use urja_setu.Market.Vocabulary.{OrderSide, buy, sell}
use urja_setu.Market.Book.{OrderBookEntry, OrderBook, ProposedTrade, MatchingResult}

-- The reasons of a MatchingEngineError.
pub data MatchingEngineError : Type 0 where
  outside_book wrong_side non_positive_quantity negative_price empty_window over_filled
        engine_failed :
      MatchingEngineError

abbrev pub same_side : OrderSide → OrderSide → Bool
same_side buy buy = true
same_side sell sell = true
same_side _ _ = false

-- `{entry.order_id: entry for entry in entries}`, filled from the left.
unfoldable pub entry_dict : Dict OrderBookEntry → List OrderBookEntry → Dict OrderBookEntry
entry_dict d [] = d
entry_dict d (e ∷ entries) = entry_dict (insert e.order_id e d) entries

abbrev pub known_entries : OrderBook → Dict OrderBookEntry
known_entries book = entry_dict [] (book.buys ++ book.sells)

-- `committed.get(order_id, ZERO)`
abbrev pub committed_to : ℕ → Dict ℤ → ℤ
committed_to id committed = get_or (lookup id committed) (pos 0)

-- The inner loop's body: one side of a trade.
unfoldable pub check_side :
    Dict OrderBookEntry → ℕ → OrderSide → ℤ → Dict ℤ → Result MatchingEngineError (Dict ℤ)
check_side known id expected_side quantity committed = do
  entry ← or_raise (lookup id known) outside_book
  raise_if (not (same_side entry.side expected_side)) wrong_side
  ok (insert id (committed_to id committed +ℤ quantity) committed)

-- The outer loop's body.
unfoldable pub check_trade :
    Dict OrderBookEntry → ProposedTrade → Dict ℤ → Result MatchingEngineError (Dict ℤ)
check_trade known t committed = do
  bought ← check_side known t.buy_order_id buy t.quantity_kwh committed
  sold ← check_side known t.sell_order_id sell t.quantity_kwh bought
  raise_if (leb_ℤ t.quantity_kwh (pos 0)) non_positive_quantity
  raise_if (ltb_ℤ t.clearing_price (pos 0)) negative_price
  raise_if (leb t.delivery_end t.delivery_start) empty_window
  ok sold

unfoldable pub check_trades :
    Dict OrderBookEntry → List ProposedTrade → Dict ℤ → Result MatchingEngineError (Dict ℤ)
check_trades known [] committed = ok committed
check_trades known (t ∷ trades) committed =
    check_trade known t committed >>= check_trades known trades

abbrev pub energy_of : Option OrderBookEntry → ℕ
energy_of none = 0
energy_of (some e) = e.remaining_kwh

-- `known[order_id].remaining_kwh`, of an id that the first loop has found in the book.
abbrev pub known_remaining : Dict OrderBookEntry → ℕ → ℕ
known_remaining known id = energy_of (lookup id known)

-- The loop over `committed.items()`.
unfoldable pub check_fills : Dict OrderBookEntry → Dict ℤ → Result MatchingEngineError (Unit {0})
check_fills known [] = ok tt
check_fills known ((id, total) ∷ committed) =
    let rest = check_fills known committed in
    raise_if (ltb_ℤ (pos (known_remaining known id)) total) over_filled >> rest

unfoldable pub validate_result : MatchingResult → OrderBook → Result MatchingEngineError (Unit {0})
validate_result result book =
    let known = known_entries book in check_trades known result.trades [] >>= check_fills known
