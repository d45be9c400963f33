-- ===== src/Market/Boundary/Engine.antt =====
-- The baseline engine before the check of backend/app/services/market_service.py.
use urja_setu.Base.{
  ℕ, ◌≤◌, ◌≡◌, refl, sym, ap, ◌∙◌, subst, ◌⊎◌, inl, inr, ◌≢◌, none, some, List, [], ◌∷◌, ◌++◌,
  arith, ok, All, All-append, All-map, In, here, there, All-In, Option-cases, ==_self, ==→eq, ◌==◌,
  Bool-cases,
}
use urja_setu.Base.Int.{zero_+ℤ}
use urja_setu.Base.Dict.{Dict, lookup, insert, lookup-insert}
use urja_setu.Market.Vocabulary.{buy, sell}
use urja_setu.Base.Unique.{HasUnique-In}
use urja_setu.Market.Book.{
  OrderBookEntry, OrderBook, ProposedTrade, MatchingRequest, MatchingResult,
}
use urja_setu.Market.Engine.{match_orders}
use urja_setu.Market.Engine.Fills.{filled}
use urja_setu.Market.Engine.Outcome.{IsMatched, match_orders-IsMatched}
use urja_setu.Market.Engine.Limits.{IsBook, match_orders-le-remaining}
use urja_setu.Market.Boundary.{
  energy_of, entry_dict, known_entries, known_remaining, validate_result,
}
use urja_setu.Market.Boundary.Soundness.{known_entries-In}
use urja_setu.Market.Boundary.Completeness.{IsKnown, check_trades_complete}
use Prim.Native.String.{String}

-- Every entry stands on its own side of the book.
pub record IsSided (book : OrderBook) : Type 0 where
  pub buy_sides : All (λ e. e.side ≡ buy) book.buys
  pub sell_sides : All (λ e. e.side ≡ sell) book.sells

-- An entry whose id is its own is found under it.
lookup-entry_dict :
    {e : OrderBookEntry} (entries : List OrderBookEntry) (d : Dict OrderBookEntry)
    → All (λ x. x.order_id ≡ e.order_id → x ≡ e) entries
    → (lookup e.order_id d ≡ some e) ⊎ In e entries
    → lookup e.order_id (entry_dict d entries) ≡ some e
unfolding entry_dict
lookup-entry_dict [] d own (inl found) = found
lookup-entry_dict [] d own (inr m) = elim m [ ]
lookup-entry_dict {e} (x ∷ entries) d own (inr here) =
    lookup-entry_dict entries (insert e.order_id e d) own.1
      (inl (lookup-insert e.order_id e.order_id e d ∙ rw (==_self e.order_id) refl))
lookup-entry_dict {e} (x ∷ entries) d own (inr (there m)) =
    lookup-entry_dict entries (insert x.order_id x d) own.1 (inr m)
lookup-entry_dict {e} (x ∷ entries) d own (inl found) =
    lookup-entry_dict entries (insert x.order_id x d) own.1 (
      inl (
        lookup-insert x.order_id e.order_id x d ∙ elim (Bool-cases (x.order_id == e.order_id)) [
          | inl same ↦ rw same (ap some (own.0 (==→eq x.order_id e.order_id same)))
          | inr other ↦ rw other found
        ]))

In-append : {e : OrderBookEntry} (xs ys : List OrderBookEntry) → In e xs ⊎ In e ys → In e (xs ++ ys)
In-append [] ys (inl m) = elim m [ ]
In-append [] ys (inr m) = m
In-append (x ∷ xs) ys (inl here) = here
In-append (x ∷ xs) ys (inl (there m)) = there (In-append xs ys (inl m))
In-append (x ∷ xs) ys (inr m) = there (In-append xs ys (inr m))

In-split : {e : OrderBookEntry} (xs ys : List OrderBookEntry) → In e (xs ++ ys) → In e xs ⊎ In e ys
In-split [] ys m = inr m
In-split (x ∷ xs) ys here = inl here
In-split (x ∷ xs) ys (there m) = elim (In-split xs ys m) [ inl k ↦ inl (there k) | inr k ↦ inr k ]

module _ {e : OrderBookEntry} (book : OrderBook) (b : IsBook book) where
  own_id :
      In e book.buys ⊎ In e book.sells
      → All (λ x. x.order_id ≡ e.order_id → x ≡ e) (book.buys ++ book.sells)
  own_id (inl m) =
      All-append (λ x. x.order_id ≡ e.order_id → x ≡ e) book.buys book.sells
        (HasUnique-In (λ e. e.order_id) book.buys b.buy_ids m)
        (All-map (λ s. s.order_id ≢ e.order_id) (λ x. x.order_id ≡ e.order_id → x ≡ e) book.sells
          (λ x apart same. absurd (apart same))
          (All-In (λ x. All (λ s. s.order_id ≢ x.order_id) book.sells) b.apart m))
  own_id (inr m) =
      All-append (λ x. x.order_id ≡ e.order_id → x ≡ e) book.buys book.sells
        (All-map (λ x. All (λ s. s.order_id ≢ x.order_id) book.sells)
          (λ x. x.order_id ≡ e.order_id → x ≡ e) book.buys
          (λ x apart same. absurd (All-In (λ s. s.order_id ≢ x.order_id) apart m (sym same)))
          b.apart)
        (HasUnique-In (λ e. e.order_id) book.sells b.sell_ids m)

  lookup-known_entries :
      In e book.buys ⊎ In e book.sells → lookup e.order_id (known_entries book) ≡ some e
  lookup-known_entries side =
      lookup-entry_dict (book.buys ++ book.sells) [] (own_id side)
        (inr (In-append book.buys book.sells side))

IsMatched-IsKnown :
    (book : OrderBook) (t : ProposedTrade)
    → IsBook book
    → IsSided book
    → IsMatched book t
    → IsKnown (known_entries book) t
IsMatched-IsKnown book t b sided m = record {
  buyer = m.buy;
  seller = m.sell;
  buyer_found = rw m.fair.buyer (lookup-known_entries book b (inl m.in_buys));
  seller_found = rw m.fair.seller (lookup-known_entries book b (inr m.in_sells));
  buyer_side = All-In (λ e. e.side ≡ buy) sided.buy_sides m.in_buys;
  seller_side = All-In (λ e. e.side ≡ sell) sided.sell_sides m.in_sells;
  some_energy = m.fair.some_energy;
  price_bound = let floor = m.fair.above_floor in omega arith;
  some_time = m.fair.some_time;
}

-- Known trades take nothing from an unknown order.
filled_of_unknown :
    (known : Dict OrderBookEntry) (id : ℕ) (trades : List ProposedTrade)
    → All (IsKnown known) trades
    → lookup id known ≡ none
    → filled id trades ≡ 0
filled_of_unknown known id [] k missing = refl
filled_of_unknown known id (t ∷ trades) k missing =
    let rest = filled_of_unknown known id trades k.1 missing in
    let bought = k.0.buyer_found in
    let sold = k.0.seller_found in ground (arith, ==→eq t.buy_order_id id, ==→eq t.sell_order_id id)

fits_known :
    (known : Dict OrderBookEntry) (id own : ℕ) (trades : List ProposedTrade) {e : OrderBookEntry}
    → lookup id known ≡ some e
    → id ≡ own
    → filled own trades ≤ e.remaining_kwh
    → filled id trades ≤ known_remaining known id
fits_known known id own trades {e = e} found key bound =
    let energy : known_remaining known id ≡ e.remaining_kwh = ap energy_of found in
    let moved : filled id trades ≡ filled own trades = rw key refl in
    omega (arith, energy, moved, bound)

-- Of a book of distinct ids with every entry on its own side, the result of the baseline engine
-- passes the check.
pub match_orders-validate_result :
    (name version : String) (request : MatchingRequest) {r : MatchingResult}
    → IsBook request.order_book
    → IsSided request.order_book
    → match_orders name version request ≡ some r
    → validate_result r request.order_book ≡ ok tt
unfolding validate_result lookup
match_orders-validate_result name version request {r} b sided h =
    let book = request.order_book in
    let known = known_entries book in
    let (r', h', matched') = match_orders-IsMatched name version request in
    let same : r' ≡ r = cc in
    let matched : All (IsMatched book) r.trades =
      subst (λ (x : MatchingResult). All (IsMatched book) x.trades) same matched' in
    let all_known : All (IsKnown known) r.trades =
      All-map (IsMatched book) (IsKnown known) r.trades (λ t. IsMatched-IsKnown book t b sided)
        matched in
    let fits : (id : ℕ) → filled id r.trades ≤ known_remaining known id = λ id.
      elim (Option-cases (lookup id known)) [
        | inl missing ↦
            let nothing = filled_of_unknown known id r.trades all_known missing in omega arith
        | inr (e, found) ↦
            let (key, m) = known_entries-In book id found in
            let bound : filled e.order_id r.trades ≤ e.remaining_kwh =
              match_orders-le-remaining name version request e b h
                (In-split book.buys book.sells m) in
            fits_known known id e.order_id r.trades found key bound
      ] in
    let (committed, passes, fills) =
      check_trades_complete known r.trades [] all_known
        (λ id. rw (zero_+ℤ (filled id r.trades)) (let bound = fits id in omega arith)) tt in
    rw passes fills
