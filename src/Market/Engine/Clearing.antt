-- ===== src/Market/Engine/Clearing.antt =====
-- The trades of `match` (backend/app/domain/policies/market_matching.py) against the orders that
-- could trade.
use urja_setu.Base.{
  ◌≡◌, refl, inl, inr, true, false, Option, some, List, [], ◌∷◌, arith, All, In, All-In, In-filter,
  is_empty,
}
use urja_setu.Base.Sorting.{In-sorted}
use urja_setu.Market.Book.{OrderBookEntry, OrderBook, MatchingRequest, MatchingResult}
use urja_setu.Market.Engine.{
  MatchState, match_buys, match_orders, sorted_buys, sorted_sells, start, is_valid_buy,
  is_valid_sell, buy_before, sell_before, result_of,
}
use urja_setu.Market.Engine.Loop.{Ends-map}
use urja_setu.Market.Engine.Fills.{IsBalanced}
use urja_setu.Market.Engine.Outcome.{match_orders-Ends}
use urja_setu.Market.Engine.Limits.{
  IsBook, start_energy, start-le-remaining, buy_not_started, sell_not_started,
  match_buys-IsBalanced,
}
use urja_setu.Market.Engine.Exhaustion.{CanTrade, IsSpent, SettlesAll, match_buys_settles}
use mathlib.Core.Path.{subst}
use Prim.Native.String.{String}
use urja_setu.Market.Engine.Holdings.{
  Ends-both, buy_starts_with, sell_starts_with, IsFilledOff, empty_filled, valid_or_empty,
  crossed-ne-none,
}

In-sorted_buys :
    {e : OrderBookEntry} (book : OrderBook)
    → In e book.buys
    → is_valid_buy e ≡ true
    → In e (sorted_buys book)
unfolding sorted_buys
In-sorted_buys book m valid = In-sorted buy_before _ (In-filter is_valid_buy book.buys valid m)

In-sorted_sells :
    {e : OrderBookEntry} (book : OrderBook)
    → In e book.sells
    → is_valid_sell e ≡ true
    → In e (sorted_sells book)
unfolding sorted_sells
In-sorted_sells book m valid = In-sorted sell_before _ (In-filter is_valid_sell book.sells valid m)

module _ {buy sell : OrderBookEntry} (book : OrderBook) (st : MatchState) (b : IsBook book)
    (balanced : IsBalanced (start_energy book) st)
    (settled : SettlesAll (sorted_sells book) (sorted_buys book) (start book) st)
    (inb : In buy book.buys) (ins : In sell book.sells) (c : CanTrade buy sell) where
  -- Of two orders that entered the run, the one that is spent is filled.
  entered-IsFilledOff :
      is_valid_buy buy ≡ true → is_valid_sell sell ≡ true → IsFilledOff buy sell st.trades
  entered-IsFilledOff vb vs =
      let below = settled.0 in
      let of_buy =
        All-In (λ x. All (λ s. CanTrade x s → IsSpent x s st) (sorted_sells book)) settled.1
          (In-sorted_buys book inb vb) in
      elim (All-In (λ s. CanTrade buy s → IsSpent buy s st) of_buy (In-sorted_sells book ins vs)
        c) [
          | inl spent ↦ inl (
              let sum = balanced buy.order_id in
              let other = below.sells buy.order_id in
              omega (
                arith,
                start-le-remaining book b (inl inb),
                buy_not_started book b inb,
                buy_starts_with book b inb vb,
              ))
          | inr spent ↦ inr (
              let sum = balanced sell.order_id in
              let other = below.buys sell.order_id in
              omega (
                arith,
                start-le-remaining book b (inr ins),
                sell_not_started book b ins,
                sell_starts_with book b ins vs,
              ))
        ]

  -- At the end of the run one of two orders that could trade is filled.
  run-IsFilledOff : IsFilledOff buy sell st.trades
  run-IsFilledOff =
      let (has_max, has_min) = crossed-ne-none buy.max_price sell.min_price c.limits in
      elim (valid_or_empty buy.max_price buy.remaining_kwh has_max) [
        | inr nothing ↦ inl (empty_filled book st b balanced (inl inb) nothing)
        | inl vb ↦ elim (valid_or_empty sell.min_price sell.remaining_kwh has_min) [
          | inr nothing ↦ inr (empty_filled book st b balanced (inr ins) nothing)
          | inl vs ↦ entered-IsFilledOff vb vs
        ]
      ]

In-not_empty : {e : OrderBookEntry} (xs : List OrderBookEntry) → In e xs → is_empty xs ≡ false
In-not_empty (x ∷ xs) m = refl
In-not_empty [] m = elim m [ ]

-- In a book of distinct ids, of a buy and a sell of different users whose limits cross and whose
-- windows share some time, the returned trades fill one of the two entirely.
pub match_orders-IsFilledOff :
    (name version : String) (request : MatchingRequest) {r : MatchingResult}
    (buy sell : OrderBookEntry)
    → IsBook request.order_book
    → match_orders name version request ≡ some r
    → In buy request.order_book.buys
    → In sell request.order_book.sells
    → CanTrade buy sell
    → IsFilledOff buy sell r.trades
unfolding result_of
match_orders-IsFilledOff name version request {r} buy sell b h inb ins c =
    let book = request.order_book in
    let run : Option MatchState = match_buys (sorted_sells book) (sorted_buys book) (start book) in
    let (r', h', filled_off) =
      match_orders-Ends name version request (λ x. IsFilledOff buy sell x.trades)
        (λ nothing.
          absurd (ground (arith, In-not_empty book.buys inb, In-not_empty book.sells ins)))
        (Ends-map
          (λ st.
            IsBalanced (start_energy book) st
            × SettlesAll (sorted_sells book) (sorted_buys book) (start book) st)
          (λ st. IsFilledOff buy sell st.trades) run
          (λ st p. run-IsFilledOff book st b p.0 p.1 inb ins c)
          (Ends-both (IsBalanced (start_energy book))
            (SettlesAll (sorted_sells book) (sorted_buys book) (start book)) run
            (match_buys-IsBalanced book)
            (match_buys_settles (sorted_sells book) (sorted_buys book) (start book)))) in
    let same : r' ≡ r = cc in
    subst (λ (x : MatchingResult). IsFilledOff buy sell x.trades) same filled_off
