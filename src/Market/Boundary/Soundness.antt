-- ===== src/Market/Boundary/Soundness.antt =====
-- What the check of backend/app/services/market_service.py has seen of a result that it passes.
use urja_setu.Base.{
  ℕ, Bool, ◌≤◌, ◌<◌, ◌≡◌, refl, sym, ap, ◌∙◌, inl, inr, some, List, [], ◌∷◌, ◌++◌, arith, ok,
  >>=-eq-ok, All, All-map, In, In-All, if◌then◌else◌, ◌==◌, ==→eq, Bool-cases, Option-cases,
}
use urja_setu.Base.Int.{ℤ, pos, pos_part, ◌+ℤ◌, ◌≤ℤ◌, +ℤ_zero, zero_+ℤ, +ℤ_pos_pos}
use urja_setu.Base.Dict.{Dict, lookup, insert, All-insert}
use urja_setu.Market.Vocabulary.{OrderSide, buy, sell}
use urja_setu.Market.Book.{OrderBookEntry, OrderBook, ProposedTrade, MatchingResult}
use urja_setu.Market.Engine.Fills.{fill, filled}
use urja_setu.Market.Boundary.{
  committed_to, known_entries, entry_dict, known_remaining, check_trade, check_trades, check_fills,
  validate_result,
}
use urja_setu.Market.Boundary.Parts.{
  PassesSide, PassesTrade, check_trade-PassesTrade, committed_to-insert,
}

-- The trade is one between two orders of the book, each on its side.
pub record IsAccepted (book : OrderBook) (t : ProposedTrade) : Type 0 where
  pub buyer : OrderBookEntry
  pub seller : OrderBookEntry
  pub buyer_known : In buyer (book.buys ++ book.sells)
  pub seller_known : In seller (book.buys ++ book.sells)
  pub buyer_id : t.buy_order_id ≡ buyer.order_id
  pub seller_id : t.sell_order_id ≡ seller.order_id
  pub buyer_side : buyer.side ≡ buy
  pub seller_side : seller.side ≡ sell
  pub some_energy : pos 1 ≤ℤ t.quantity_kwh
  pub price_bound : pos 0 ≤ℤ t.clearing_price
  pub some_time : t.delivery_start < t.delivery_end

-- What a dict holds under a key has what every item of the dict has.
pub All-lookup :
    {V : Type 0} (P : ℕ × V → Type 0) (k : ℕ) (d : Dict V) {v : V}
    → All P d
    → lookup k d ≡ some v
    → P (k, v)
unfolding lookup
All-lookup P k [] h e = absurd cc
All-lookup P k ((j, w) ∷ d) {v = v} h e = elim (Bool-cases (j == k)) [
  | inl same ↦
      let key : j ≡ k = ==→eq j k same in
      let value : w ≡ v = ground arith in rw (sym key, sym value) h.0
  | inr other ↦ All-lookup P k d h.1 (rw other at e)
]

entry_dict-In :
    (P : ℕ × OrderBookEntry → Type 0) (entries : List OrderBookEntry) (d : Dict OrderBookEntry)
    → All (λ e. P (e.order_id, e)) entries
    → All P d
    → All P (entry_dict d entries)
unfolding entry_dict
entry_dict-In P [] d h k = k
entry_dict-In P (e ∷ entries) d h k =
    entry_dict-In P entries (insert e.order_id e d) h.1 (All-insert P e.order_id e d h.0 k)

pub known_entries-In :
    (book : OrderBook) (id : ℕ) {e : OrderBookEntry}
    → lookup id (known_entries book) ≡ some e
    → (id ≡ e.order_id) × In e (book.buys ++ book.sells)
known_entries-In book id h =
    let entries = book.buys ++ book.sells in
    All-lookup (λ item. (item.0 ≡ item.1.order_id) × In item.1 entries) id (known_entries book)
      (entry_dict-In (λ item. (item.0 ≡ item.1.order_id) × In item.1 entries) entries []
        (All-map (λ e. In e entries) _ entries (λ e m. (refl, m)) (In-All entries)) tt)
      h

PassesTrade-IsAccepted :
    (book : OrderBook) (t : ProposedTrade) {committed committed' : Dict ℤ}
    → PassesTrade (known_entries book) t committed committed'
    → IsAccepted book t
PassesTrade-IsAccepted book t p =
    let (buyer_id, buyer_known) = known_entries-In book t.buy_order_id p.bought.found in
    let (seller_id, seller_known) = known_entries-In book t.sell_order_id p.sold.found in
    record {
      buyer = p.bought.entry;
      seller = p.sold.entry;
      buyer_known = buyer_known;
      seller_known = seller_known;
      buyer_id = buyer_id;
      seller_id = seller_id;
      buyer_side = p.bought.right_side;
      seller_side = p.sold.right_side;
      some_energy = p.some_energy;
      price_bound = p.price_bound;
      some_time = p.some_time;
    }

PassesSide-added :
    {known : Dict OrderBookEntry} {side : OrderSide} (k : ℕ) (q : ℤ) (committed committed' : Dict ℤ)
    (id : ℕ)
    → PassesSide known k side q committed committed'
    → committed_to id committed' ≡ committed_to id committed +ℤ (if k == id then q else pos 0)
PassesSide-added k q committed committed' id p =
    let added : insert k (committed_to k committed +ℤ q) committed ≡ committed' = p.added in
    let now = committed_to-insert k id (committed_to k committed +ℤ q) committed in
    ap (committed_to id) (sym added) ∙ now ∙ elim (Bool-cases (k == id)) [
      | inl same ↦ let e : k ≡ id = ==→eq k id same in rw (same, e) refl
      | inr other ↦ rw other (sym (+ℤ_zero (committed_to id committed)))
    ]

pub pos_pos_part : (q : ℤ) → pos 1 ≤ℤ q → q ≡ pos (pos_part q)
pos_pos_part q h = ground arith

pos-if : (b : Bool) (n : ℕ) → (if b then pos n else pos 0) ≡ pos (if b then n else 0)
pos-if b n = ground arith

-- The running dict counts what the trade takes from each order.
pub PassesTrade-fill :
    {known : Dict OrderBookEntry} (t : ProposedTrade) (committed committed' : Dict ℤ) (id : ℕ)
    → PassesTrade known t committed committed'
    → committed_to id committed' ≡ committed_to id committed +ℤ pos (fill id t)
PassesTrade-fill t committed committed' id p =
    let whole = pos_pos_part t.quantity_kwh p.some_energy in
    let bought = PassesSide-added t.buy_order_id t.quantity_kwh committed p.between id p.bought in
    let sold = PassesSide-added t.sell_order_id t.quantity_kwh p.between committed' id p.sold in
    let n = pos_part t.quantity_kwh in
    let first = pos-if (t.buy_order_id == id) n in
    let second = pos-if (t.sell_order_id == id) n in
    let together =
      +ℤ_pos_pos (committed_to id committed) (if t.buy_order_id == id then n else 0)
        (if t.sell_order_id == id then n else 0) in
    cc

check_trades_sound :
    (book : OrderBook) (trades : List ProposedTrade) (committed : Dict ℤ) {committed' : Dict ℤ}
    → check_trades (known_entries book) trades committed ≡ ok committed'
    → All (IsAccepted book) trades
      × ((id : ℕ)
          → committed_to id committed' ≡ committed_to id committed +ℤ pos (filled id trades))
unfolding check_trades
check_trades_sound book [] committed {committed' = committed'} h =
    let same : committed ≡ committed' = ground arith in
    (tt, λ id. ap (committed_to id) (sym same) ∙ sym (+ℤ_zero (committed_to id committed)))
check_trades_sound book (t ∷ trades) committed {committed' = committed'} h =
    let (next, first, rest) = >>=-eq-ok (check_trade (known_entries book) t committed) _ h in
    let passed = check_trade-PassesTrade (known_entries book) t committed first in
    let (accepted, counted) = check_trades_sound book trades next rest in
    (
      (PassesTrade-IsAccepted book t passed, accepted),
      λ id.
          let one = PassesTrade-fill t committed next id passed in
          let others = counted id in
          let together = +ℤ_pos_pos (committed_to id committed) (fill id t) (filled id trades) in
          cc,
    )

-- Every total that the second loop has seen is within the order's remaining energy.
check_fills_sound :
    (known : Dict OrderBookEntry) (committed : Dict ℤ)
    → check_fills known committed ≡ ok tt
    → All (λ item. item.1 ≤ℤ pos (known_remaining known item.0)) committed
unfolding check_fills
check_fills_sound known [] h = tt
check_fills_sound known ((id, total) ∷ committed) h =
    (ground arith, check_fills_sound known committed (ground arith))

committed_to-le :
    (known : Dict OrderBookEntry) (committed : Dict ℤ) (id : ℕ)
    → All (λ item. item.1 ≤ℤ pos (known_remaining known item.0)) committed
    → committed_to id committed ≤ℤ pos (known_remaining known id)
committed_to-le known committed id h = elim (Option-cases (lookup id committed)) [
  | inl missing ↦ rw missing (omega arith)
  | inr (total, found) ↦
      let bound =
        All-lookup (λ item. item.1 ≤ℤ pos (known_remaining known item.0)) id committed h found in
      rw found bound
]

-- An engine's result that passes the check has only trades between a buy and a sell order of the
-- book, for some energy, at a price that is not negative and over a window that is not empty; and
-- together they take from each order of the book no more than its remaining energy.
pub validate_result_sound :
    (result : MatchingResult) (book : OrderBook)
    → validate_result result book ≡ ok tt
    → All (IsAccepted book) result.trades
      × ((id : ℕ) → filled id result.trades ≤ known_remaining (known_entries book) id)
unfolding validate_result lookup
validate_result_sound result book h =
    let (committed, first, rest) =
      >>=-eq-ok (check_trades (known_entries book) result.trades []) _ h in
    let (accepted, counted) = check_trades_sound book result.trades [] first in
    (
      accepted,
      λ id.
          let total = counted id in
          let bound =
            committed_to-le (known_entries book) committed id
              (check_fills_sound (known_entries book) committed rest) in
          let alone : committed_to id [] +ℤ pos (filled id result.trades)
              ≡ pos (filled id result.trades) =
            zero_+ℤ (filled id result.trades) in
          let sum : committed_to id committed ≡ pos (filled id result.trades) = total ∙ alone in
          ground (arith, sum, bound),
    )
