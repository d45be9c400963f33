-- ===== src/Market/Engine/Holdings.antt =====
-- What an entry of the book has left at the start of matching, and when a pair is filled off
-- (backend/app/domain/policies/market_matching.py).
use urja_setu.Base.{
  ℕ, ◌≤◌, ◌≡◌, ◌≢◌, refl, ◌&&◌, is_some, ltb, ◌⊎◌, true, Option, none, some, List, [], ◌∷◌, arith,
  All, In, here, there, In-filter, All-map,
}
use urja_setu.Base.Dict.{insert}
use urja_setu.Base.Sorting.{In-sorted}
use urja_setu.Base.Unique.{HasUnique-In}
use urja_setu.Market.Book.{OrderBookEntry, OrderBook, ProposedTrade}
use urja_setu.Market.Price.{prices_cross}
use urja_setu.Market.Engine.{
  MatchState, remaining, remaining_dict, sorted_buys, sorted_sells, start, is_valid_buy,
  is_valid_sell, buy_before, sell_before,
}
use urja_setu.Market.Engine.Loop.{Ends}
use urja_setu.Market.Engine.Fills.{filled, IsBalanced, remaining-insert}
use urja_setu.Market.Engine.Outcome.{All-sorted_buys, All-sorted_sells}
use urja_setu.Market.Engine.Limits.{IsBook, start_energy, start-le-remaining}

pub Ends-both :
    (P Q : MatchState → Type 0) (o : Option MatchState)
    → Ends P o
    → Ends Q o
    → Ends (λ st. P st × Q st) o
Ends-both P Q none h k = h
Ends-both P Q (some st) h k = (h, k)

-- The dict holds at least a bound that every entry with the id, and the dict before, have.
remaining_dict-ge :
    (id c : ℕ) (entries : List OrderBookEntry) (d : _)
    → All (λ e. e.order_id ≡ id → c ≤ e.remaining_kwh) entries
    → c ≤ remaining id d
    → c ≤ remaining id (remaining_dict d entries)
unfolding remaining_dict
remaining_dict-ge id c [] d h k = k
remaining_dict-ge id c (e ∷ entries) d h k =
    remaining_dict-ge id c entries (insert e.order_id e.remaining_kwh d) h.1
      (ground (arith, h.0, remaining-insert e.order_id id e.remaining_kwh d))

-- The same, where an entry of the list has the id.
remaining_dict-ge_In :
    {e : OrderBookEntry} (id c : ℕ) (entries : List OrderBookEntry) (d : _)
    → All (λ x. x.order_id ≡ id → c ≤ x.remaining_kwh) entries
    → In e entries
    → e.order_id ≡ id
    → c ≤ remaining id (remaining_dict d entries)
unfolding remaining_dict
remaining_dict-ge_In id c [] d h m same = elim m [ ]
remaining_dict-ge_In id c (e ∷ entries) d h here same =
    remaining_dict-ge id c entries (insert e.order_id e.remaining_kwh d) h.1
      (ground (arith, h.0 same, remaining-insert e.order_id id e.remaining_kwh d))
remaining_dict-ge_In id c (x ∷ entries) d h (there m) same =
    remaining_dict-ge_In id c entries (insert x.order_id x.remaining_kwh d) h.1 m same

module _ {e : OrderBookEntry} (book : OrderBook) (b : IsBook book) where
  -- A buy that enters the run starts with its own energy.
  pub buy_starts_with :
      In e book.buys
      → is_valid_buy e ≡ true
      → e.remaining_kwh ≤ remaining e.order_id (start book).rem_buys
  unfolding start sorted_buys
  buy_starts_with m valid =
      remaining_dict-ge_In e.order_id e.remaining_kwh (sorted_buys book) []
        (All-map (λ x. (x.order_id ≡ e.order_id → x ≡ e) × (is_valid_buy x ≡ true))
          (λ x. x.order_id ≡ e.order_id → e.remaining_kwh ≤ x.remaining_kwh) (sorted_buys book)
          (λ x f same. let p : x ≡ e = f.0 same in rw p (omega arith))
          (All-sorted_buys (λ x. x.order_id ≡ e.order_id → x ≡ e) book
            (HasUnique-In (λ e. e.order_id) book.buys b.buy_ids m)))
        (In-sorted buy_before _ (In-filter is_valid_buy book.buys valid m)) refl

  -- A sell that enters the run starts with its own energy.
  pub sell_starts_with :
      In e book.sells
      → is_valid_sell e ≡ true
      → e.remaining_kwh ≤ remaining e.order_id (start book).rem_sells
  unfolding start sorted_sells
  sell_starts_with m valid =
      remaining_dict-ge_In e.order_id e.remaining_kwh (sorted_sells book) []
        (All-map (λ x. (x.order_id ≡ e.order_id → x ≡ e) × (is_valid_sell x ≡ true))
          (λ x. x.order_id ≡ e.order_id → e.remaining_kwh ≤ x.remaining_kwh) (sorted_sells book)
          (λ x f same. let p : x ≡ e = f.0 same in rw p (omega arith))
          (All-sorted_sells (λ x. x.order_id ≡ e.order_id → x ≡ e) book
            (HasUnique-In (λ e. e.order_id) book.sells b.sell_ids m)))
        (In-sorted sell_before _ (In-filter is_valid_sell book.sells valid m)) refl

-- All of one of the two orders is filled.
abbrev pub IsFilledOff : OrderBookEntry → OrderBookEntry → List ProposedTrade → Type 0
IsFilledOff buy sell trades =
    (filled buy.order_id trades ≡ buy.remaining_kwh)
    ⊎ (filled sell.order_id trades ≡ sell.remaining_kwh)

-- An order with no energy is filled from the start.
pub empty_filled :
    {e : OrderBookEntry} (book : OrderBook) (st : MatchState)
    → IsBook book
    → IsBalanced (start_energy book) st
    → In e book.buys ⊎ In e book.sells
    → e.remaining_kwh ≡ 0
    → filled e.order_id st.trades ≡ e.remaining_kwh
empty_filled {e} book st b balanced side nothing =
    let sum = balanced e.order_id in omega (arith, start-le-remaining book b side)

pub valid_or_empty :
    (limit : Option ℕ) (kwh : ℕ) → limit ≢ none → ((ltb 0 kwh && is_some limit) ≡ true) ⊎ (kwh ≡ 0)
valid_or_empty none kwh h = absurd (h refl)
valid_or_empty (some l) kwh h = ground arith

pub crossed-ne-none : (bm sm : Option ℕ) → prices_cross bm sm ≡ true → (bm ≢ none) × (sm ≢ none)
unfolding prices_cross
crossed-ne-none bm sm h = ground arith
