-- ===== src/Market/Boundary/Completeness.antt =====
-- What passes the check of backend/app/services/market_service.py.
use urja_setu.Base.{
  ℕ, ◌≤◌, ◌<◌, ◌≡◌, refl, sym, ap, ◌∙◌, subst, some, List, [], ◌∷◌, arith, ok, All, ==_self,
}
use urja_setu.Base.Int.{ℤ, pos, pos_part, ◌+ℤ◌, ◌≤ℤ◌, +ℤ_pos_pos}
use urja_setu.Base.Dict.{Dict, lookup, insert, All-insert}
use urja_setu.Market.Vocabulary.{OrderSide, buy, sell}
use urja_setu.Market.Book.{OrderBookEntry, ProposedTrade}
use urja_setu.Market.Engine.Fills.{fill, filled}
use urja_setu.Market.Boundary.{
  committed_to, known_remaining, check_side, check_trade, check_trades, check_fills,
}
use urja_setu.Market.Boundary.Parts.{PassesTrade, check_trade-PassesTrade, committed_to-insert}
use urja_setu.Market.Boundary.Soundness.{PassesTrade-fill, pos_pos_part}

-- A trade between two known orders, each on its side.
pub record IsKnown (known : Dict OrderBookEntry) (t : ProposedTrade) : Type 0 where
  pub buyer : OrderBookEntry
  pub seller : OrderBookEntry
  pub buyer_found : lookup t.buy_order_id known ≡ some buyer
  pub seller_found : lookup t.sell_order_id known ≡ some seller
  pub buyer_side : buyer.side ≡ buy
  pub seller_side : seller.side ≡ sell
  pub some_energy : pos 1 ≤ℤ t.quantity_kwh
  pub price_bound : pos 0 ≤ℤ t.clearing_price
  pub some_time : t.delivery_start < t.delivery_end

-- Every total of the dict is within the order's remaining energy.
abbrev pub IsWithin : Dict OrderBookEntry → Dict ℤ → Type 0
IsWithin known committed = All (λ item. item.1 ≤ℤ pos (known_remaining known item.0)) committed

check_fills_complete :
    (known : Dict OrderBookEntry) (committed : Dict ℤ)
    → IsWithin known committed
    → check_fills known committed ≡ ok tt
unfolding check_fills
check_fills_complete known [] h = refl
check_fills_complete known ((id, total) ∷ committed) h =
    ground (arith, check_fills_complete known committed h.1)

check_side_complete :
    (known : Dict OrderBookEntry) (id : ℕ) (side : OrderSide) (q : ℤ) (committed : Dict ℤ)
    {e : OrderBookEntry}
    → lookup id known ≡ some e
    → e.side ≡ side
    → check_side known id side q committed
      ≡ ok (insert id (committed_to id committed +ℤ q) committed)
unfolding check_side
check_side_complete known id buy q committed found right = rw (found, right) refl
check_side_complete known id sell q committed found right = rw (found, right) refl

check_trade_complete :
    (known : Dict OrderBookEntry) (t : ProposedTrade) (committed : Dict ℤ)
    → IsKnown known t
    → (committed' : Dict ℤ) × (check_trade known t committed ≡ ok committed')
unfolding check_trade
check_trade_complete known t committed k =
    let q = t.quantity_kwh in
    let between = insert t.buy_order_id (committed_to t.buy_order_id committed +ℤ q) committed in
    let after = insert t.sell_order_id (committed_to t.sell_order_id between +ℤ q) between in
    let first =
      check_side_complete known t.buy_order_id buy q committed k.buyer_found k.buyer_side in
    let second =
      check_side_complete known t.sell_order_id sell q between k.seller_found k.seller_side in
    let energy = k.some_energy in
    let price = k.price_bound in
    let time = k.some_time in (after, rw (first, second) (ground arith))

le-+ℤ_pos : (a : ℤ) (m n : ℕ) (c : ℤ) → m ≤ n → a +ℤ pos n ≤ℤ c → a +ℤ pos m ≤ℤ c
unfolding ◌+ℤ◌
le-+ℤ_pos a m n c h k = ground arith

fill_of_buyer : (t : ProposedTrade) → pos_part t.quantity_kwh ≤ fill t.buy_order_id t
fill_of_buyer t = ground (arith, ==_self t.buy_order_id)

-- A trade that fits keeps every total within the order's energy.
PassesTrade-IsWithin :
    (known : Dict OrderBookEntry) (t : ProposedTrade) (committed committed' : Dict ℤ)
    → PassesTrade known t committed committed'
    → ((id : ℕ) → committed_to id committed +ℤ pos (fill id t) ≤ℤ pos (known_remaining known id))
    → IsWithin known committed
    → IsWithin known committed'
PassesTrade-IsWithin known t committed committed' p fits h =
    let q = t.quantity_kwh in
    let P : ℕ × ℤ → Type 0 = λ item. item.1 ≤ℤ pos (known_remaining known item.0) in
    let b = t.buy_order_id in
    let s = t.sell_order_id in
    let whole : q ≡ pos (pos_part q) = pos_pos_part q p.some_energy in
    let bought : committed_to b committed +ℤ q ≤ℤ pos (known_remaining known b) = rw whole (
      le-+ℤ_pos (committed_to b committed) (pos_part q) (fill b t) (pos (known_remaining known b))
        (fill_of_buyer t) (fits b)) in
    let between : IsWithin known p.between =
      subst (All P) p.bought.added
        (All-insert P b (committed_to b committed +ℤ q) committed bought h) in
    let total : committed_to s committed' ≡ committed_to s committed +ℤ pos (fill s t) =
      PassesTrade-fill t committed committed' s p in
    let value : committed_to s committed' ≡ committed_to s p.between +ℤ q =
      ap (committed_to s) (sym p.sold.added)
      ∙ committed_to-insert s s (committed_to s p.between +ℤ q) p.between
      ∙ rw (==_self s) refl in
    let sold : committed_to s p.between +ℤ q ≤ℤ pos (known_remaining known s) =
      subst (λ v. v ≤ℤ pos (known_remaining known s)) (sym total ∙ value) (fits s) in
    subst (All P) p.sold.added
      (All-insert P s (committed_to s p.between +ℤ q) p.between sold between)

-- Known trades that together fit into the orders' energy pass both loops.
pub check_trades_complete :
    (known : Dict OrderBookEntry) (trades : List ProposedTrade) (committed : Dict ℤ)
    → All (IsKnown known) trades
    → ((id : ℕ)
        → committed_to id committed +ℤ pos (filled id trades) ≤ℤ pos (known_remaining known id))
    → IsWithin known committed
    → (committed' : Dict ℤ) × (check_trades known trades committed ≡ ok committed')
      × (check_fills known committed' ≡ ok tt)
unfolding check_trades
check_trades_complete known [] committed k fits h =
    (committed, refl, check_fills_complete known committed h)
check_trades_complete known (t ∷ trades) committed k fits h =
    let (next, passes) = check_trade_complete known t committed k.0 in
    let p = check_trade-PassesTrade known t committed passes in
    let fits_next : (id : ℕ)
        → committed_to id next +ℤ pos (filled id trades) ≤ℤ pos (known_remaining known id) =
      λ id.
        subst (λ v. v ≤ℤ pos (known_remaining known id))
          (sym (+ℤ_pos_pos (committed_to id committed) (fill id t) (filled id trades))
            ∙ ap (λ v. v +ℤ pos (filled id trades)) (sym (PassesTrade-fill t committed next id p)))
          (fits id) in
    let within =
      PassesTrade-IsWithin known t committed next p
        (λ id.
          le-+ℤ_pos (committed_to id committed) (fill id t) (filled id (t ∷ trades))
            (pos (known_remaining known id)) (omega arith) (fits id))
        h in
    let (after, rest, fills) = check_trades_complete known trades next k.1 fits_next within in
    (after, rw passes rest, fills)
