-- ===== src/Market/Engine/Limits.antt =====
-- The limits of `match` (backend/app/domain/policies/market_matching.py): how much the trades take
-- from an order.
use urja_setu.Base.{
  ℕ, ◌+◌, ◌≤◌, ◌≡◌, sym, ap, ◌≢◌, ◌⊎◌, inl, inr, some, List, [], ◌∷◌, arith, All, In, All-In,
  All-map,
}
use urja_setu.Base.Dict.{lookup}
use urja_setu.Base.Unique.{HasUnique, HasUnique-In}
use urja_setu.Market.Book.{OrderBookEntry, OrderBook, MatchingRequest, MatchingResult}
use urja_setu.Market.Engine.{
  remaining, sorted_buys, sorted_sells, start, result_of, match_orders, match_buys,
}
use urja_setu.Market.Engine.Pairing.{propose-IsFair}
use urja_setu.Market.Engine.Loop.{Ends, Ends-map, match_buys-Ends}
use urja_setu.Market.Engine.Fills.{filled, IsBalanced, commit-IsBalanced, remaining_dict-le}
use urja_setu.Market.Engine.Outcome.{All-sorted_buys, All-sorted_sells, match_orders-Ends}
use Prim.Native.String.{String}

-- No id stands twice in the list.
abbrev pub HasUniqueIds : List OrderBookEntry → Type 0
HasUniqueIds = HasUnique (λ e. e.order_id)

-- What the database gives a book: no id stands twice, on one side or across.
pub record IsBook (book : OrderBook) : Type 0 where
  pub buy_ids : HasUniqueIds book.buys
  pub sell_ids : HasUniqueIds book.sells
  pub apart : All (λ b. All (λ s. s.order_id ≢ b.order_id) book.sells) book.buys

-- What the dicts start with for an id is bounded by the entries that carry it.
remaining-buys-le :
    (book : OrderBook) (id c : ℕ)
    → All (λ x. x.order_id ≡ id → x.remaining_kwh ≤ c) book.buys
    → remaining id (start book).rem_buys ≤ c
unfolding start lookup
remaining-buys-le book id c h =
    remaining_dict-le id c (sorted_buys book) []
      (All-map _ (λ x. x.order_id ≡ id → x.remaining_kwh ≤ c) (sorted_buys book) (λ x p. p.0)
        (All-sorted_buys (λ x. x.order_id ≡ id → x.remaining_kwh ≤ c) book h))
      (omega arith)

remaining-sells-le :
    (book : OrderBook) (id c : ℕ)
    → All (λ x. x.order_id ≡ id → x.remaining_kwh ≤ c) book.sells
    → remaining id (start book).rem_sells ≤ c
unfolding start lookup
remaining-sells-le book id c h =
    remaining_dict-le id c (sorted_sells book) []
      (All-map _ (λ x. x.order_id ≡ id → x.remaining_kwh ≤ c) (sorted_sells book) (λ x p. p.0)
        (All-sorted_sells (λ x. x.order_id ≡ id → x.remaining_kwh ≤ c) book h))
      (omega arith)

-- Within a list of distinct ids, an entry bounds the entries that carry its id.
bounded_by :
    {e : OrderBookEntry} (xs : List OrderBookEntry)
    → HasUniqueIds xs
    → In e xs
    → All (λ x. x.order_id ≡ e.order_id → x.remaining_kwh ≤ e.remaining_kwh) xs
bounded_by {e} xs u m =
    All-map (λ x. x.order_id ≡ e.order_id → x ≡ e) _ xs
      (λ x f same. let p : x ≡ e = f same in rw p (omega arith))
      (HasUnique-In (λ e. e.order_id) xs u m)

absent :
    (id : ℕ) (xs : List OrderBookEntry)
    → All (λ x. x.order_id ≢ id) xs
    → All (λ x. x.order_id ≡ id → x.remaining_kwh ≤ 0) xs
absent id xs h = All-map (λ x. x.order_id ≢ id) _ xs (λ x ne same. absurd (ne same)) h

pub All-unit : (xs : List OrderBookEntry) → All (λ x. Unit {0}) xs
All-unit [] = tt
All-unit (x ∷ xs) = (tt, All-unit xs)

-- What the two dicts start with for an id.
abbrev pub start_energy : OrderBook → ℕ → ℕ
start_energy book id = remaining id (start book).rem_buys + remaining id (start book).rem_sells

-- The run keeps the books: what is filled and what is left make what it started with.
pub match_buys-IsBalanced :
    (book : OrderBook)
    → Ends
        (IsBalanced (start_energy book))
        (match_buys (sorted_sells book) (sorted_buys book) (start book))
unfolding start
match_buys-IsBalanced book =
    match_buys-Ends (λ b. Unit {0}) (λ s. Unit {0}) (IsBalanced (start_energy book))
      (λ b s st t _ _ dealt h.
        commit-IsBalanced (start_energy book) st t (propose-IsFair b s st dealt).1 h)
      (sorted_sells book) (sorted_buys book) (start book) (All-unit (sorted_buys book))
      (All-unit (sorted_sells book)) (λ id. omega arith)

module _ {e : OrderBookEntry} (book : OrderBook) (b : IsBook book) where
  -- The sells' dict knows nothing of a buy.
  pub buy_not_started : In e book.buys → remaining e.order_id (start book).rem_sells ≤ 0
  buy_not_started m = remaining-sells-le book e.order_id 0 (
      absent e.order_id book.sells
        (All-In (λ x. All (λ s. s.order_id ≢ x.order_id) book.sells) b.apart m))

  -- The buys' dict knows nothing of a sell.
  pub sell_not_started : In e book.sells → remaining e.order_id (start book).rem_buys ≤ 0
  sell_not_started m = remaining-buys-le book e.order_id 0 (
      absent e.order_id book.buys (
        All-map (λ x. All (λ s. s.order_id ≢ x.order_id) book.sells) (λ x. x.order_id ≢ e.order_id)
          book.buys (λ x apart same. All-In (λ s. s.order_id ≢ x.order_id) apart m (sym same))
          b.apart))

  -- In a book of distinct ids the two dicts together start with at most the entry's own energy.
  pub start-le-remaining :
      In e book.buys ⊎ In e book.sells → start_energy book e.order_id ≤ e.remaining_kwh
  start-le-remaining (inl m) =
      let own =
        remaining-buys-le book e.order_id e.remaining_kwh (bounded_by book.buys b.buy_ids m) in
      omega (arith, buy_not_started m)
  start-le-remaining (inr m) =
      let own =
        remaining-sells-le book e.order_id e.remaining_kwh (bounded_by book.sells b.sell_ids m) in
      omega (arith, sell_not_started m)

module _ (name version : String) (request : MatchingRequest) where
  -- What the dicts start with for an id bounds what the trades take from it.
  match_orders-filled :
      (id : ℕ)
      → (r : MatchingResult) × (match_orders name version request ≡ some r)
        × (filled id r.trades ≤ start_energy request.order_book id)
  unfolding result_of start lookup
  match_orders-filled id =
      match_orders-Ends name version request
        (λ r. filled id r.trades ≤ start_energy request.order_book id) (λ _. omega arith)
        (Ends-map (IsBalanced (start_energy request.order_book))
          (λ st. filled id st.trades ≤ start_energy request.order_book id) _
          (λ st h. let e = h id in omega arith) (match_buys-IsBalanced request.order_book))

  -- In a book whose ids are distinct, the trades take from a buy order no more than its remaining
  -- energy, and from a sell order no more than its remaining energy.
  pub match_orders-le-remaining :
      {r : MatchingResult} (e : OrderBookEntry)
      → IsBook request.order_book
      → match_orders name version request ≡ some r
      → In e request.order_book.buys ⊎ In e request.order_book.sells
      → filled e.order_id r.trades ≤ e.remaining_kwh
  match_orders-le-remaining {r} e b h side =
      let (r', h', bound) = match_orders-filled e.order_id in
      let same : r' ≡ r = cc in
      let equal : filled e.order_id r'.trades ≡ filled e.order_id r.trades =
        ap (λ (x : MatchingResult). filled e.order_id x.trades) same in
      omega (arith, start-le-remaining request.order_book b side)
