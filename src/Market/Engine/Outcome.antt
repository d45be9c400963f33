-- ===== src/Market/Engine/Outcome.antt =====
-- The outcome of `match` (backend/app/domain/policies/market_matching.py): what it returns and the
-- terms of its trades.
use urja_setu.Base.{
  ◌≡◌, inl, inr, true, some, [], ◌∷◌, All, In, In-All, All-filter, Bool-cases, Option-cases,
  All-append,
}
use urja_setu.Base.Sorting.{All-sorted}
use urja_setu.Market.Book.{
  OrderBookEntry, OrderBook, MatchingRequest, ProposedTrade, MatchingResult, is_empty_book,
}
use urja_setu.Market.Engine.{
  MatchState, deal, propose, commit, match_buys, sorted_buys, sorted_sells, start, buy_before,
  sell_before, is_valid_buy, is_valid_sell, result_of, no_trades, match_orders,
}
use urja_setu.Market.Engine.Pairing.{IsFair, propose-IsFair}
use urja_setu.Market.Engine.Loop.{Ends, match_buys-Ends}
use Prim.Native.String.{String}

-- The trade pairs a buy and a sell of the book.
pub record IsMatched (book : OrderBook) (t : ProposedTrade) : Type 0 where
  pub buy : OrderBookEntry
  pub sell : OrderBookEntry
  pub in_buys : In buy book.buys
  pub in_sells : In sell book.sells
  pub fair : IsFair buy sell t

pub All-sorted_buys :
    (P : OrderBookEntry → Type 0) (book : OrderBook)
    → All P book.buys
    → All (λ b. P b × (is_valid_buy b ≡ true)) (sorted_buys book)
unfolding sorted_buys
All-sorted_buys P book h =
    All-sorted buy_before (λ b. P b × (is_valid_buy b ≡ true)) _
      (All-filter P is_valid_buy book.buys h)

pub All-sorted_sells :
    (P : OrderBookEntry → Type 0) (book : OrderBook)
    → All P book.sells
    → All (λ s. P s × (is_valid_sell s ≡ true)) (sorted_sells book)
unfolding sorted_sells
All-sorted_sells P book h =
    All-sorted sell_before (λ s. P s × (is_valid_sell s ≡ true)) _
      (All-filter P is_valid_sell book.sells h)

module _ (name version : String) (request : MatchingRequest) where
  -- From the loops to the result, which is the empty one where a side of the book is empty.
  pub match_orders-Ends :
      (Q : MatchingResult → Type 0)
      → (is_empty_book request.order_book ≡ true → Q (no_trades name version request.order_book))
      → Ends
          (λ st. Q (result_of name version request.order_book st))
          (match_buys
            (sorted_sells request.order_book)
            (sorted_buys request.order_book)
            (start request.order_book))
      → (r : MatchingResult) × (match_orders name version request ≡ some r) × Q r
  unfolding match_orders
  match_orders-Ends Q empty h = elim (Bool-cases (is_empty_book request.order_book)) [
    | inl nothing ↦ (no_trades name version request.order_book, rw nothing, empty nothing)
    | inr both ↦
        elim (Option-cases (
          match_buys (sorted_sells request.order_book) (sorted_buys request.order_book)
            (start request.order_book))) [
              | inl crashed ↦ absurd (rw (crashed, Ends) at h)
              | inr (st, ended) ↦ (
                result_of name version request.order_book st,
                rw (both, ended),
                rw (ended, Ends) at h,
              )
            ]
  ]

  -- Matching always returns, and every trade pairs a buy of the book with a sell of the book: of two
  -- different users, at a price that neither limit forbids, for some energy, over the time that
  -- the two delivery windows share.
  pub match_orders-IsMatched :
      (r : MatchingResult) × (match_orders name version request ≡ some r)
      × All (IsMatched request.order_book) r.trades
  unfolding start result_of commit
  match_orders-IsMatched =
      match_orders-Ends (λ r. All (IsMatched book) r.trades) (λ _. tt)
        (match_buys-Ends (λ b. In b book.buys × (is_valid_buy b ≡ true))
          (λ s. In s book.sells × (is_valid_sell s ≡ true)) (λ st. All (IsMatched book) st.trades)
          keep (sorted_sells book) (sorted_buys book) (start book)
          (All-sorted_buys (λ b. In b book.buys) book (In-All book.buys))
          (All-sorted_sells (λ s. In s book.sells) book (In-All book.sells)) tt)
    where
      book : OrderBook
      book = request.order_book

      keep :
          (b s : OrderBookEntry) (st : MatchState) (t : ProposedTrade)
          → In b book.buys × (is_valid_buy b ≡ true)
          → In s book.sells × (is_valid_sell s ≡ true)
          → propose b s st ≡ deal t
          → All (IsMatched book) st.trades
          → All (IsMatched book) (commit t st).trades
      keep b s st t inb ins dealt h =
          let matched : IsMatched book t = record {
            buy = b;
            sell = s;
            in_buys = inb.0;
            in_sells = ins.0;
            fair = (propose-IsFair b s st dealt).0;
          } in
          All-append (IsMatched book) st.trades (t ∷ []) h (matched, tt)
