-- ===== src/Market/Service/Bookkeeping.antt =====
-- The rows of the orders beside those of the trades, through the operations of
-- backend/app/services/market_service.py.
use urja_setu.Base.{
  ℕ, ◌+◌, ◌<◌, ◌≡◌, refl, sym, not, Option, List, [], ◌∷◌, ◌++◌, arith, All, All-map, All-append,
  All-In, ok, err, Result, raise_if-eq-ok, or_raise-eq-ok, >>=-eq-ok, subst, get_or, sum_of,
  sum_of-append, if◌then◌else◌, ◌==◌,
}
use urja_setu.Base.Int.{pos_part}
use urja_setu.Base.Rows.{All-update_row, find_row-In}
use urja_setu.Market.Vocabulary.{is_active, cancelled}
use urja_setu.Market.Book.{OrderBookEntry, MatchingResult, ProposedTrade, trade_count}
use urja_setu.Market.Store.{
  MarketSession, Order, Trade, Market, find_order, list_active_for_session,
}
use urja_setu.Market.Engine.Fills as Fills
use urja_setu.Market.Boundary.Soundness.{IsAccepted, validate_result_sound}
use urja_setu.Market.Service.{
  MarketError, Directory, OrderRequest, place_order, may_place, cancel_order, get_order,
  active_entries, book_of, to_entry,
}
use urja_setu.Market.Service.Clearing.{
  MatchingEngine, new_trades, clear_book, clear_session, clear_checked, announce, may_clear,
}
use urja_setu.Market.Service.Invariant.{IsMarket, snd_of_ok}
use urja_setu.Market.Service.Projection.{All-book_of, All-active_entries}
use urja_setu.Market.Service.Safety.{
  IsCleared, clear_book-IsCleared, kept-IsMarket, announce-IsMarket,
}
use urja_setu.Market.Service.Exactness.{apply_fills-exact}

-- The energy that a recorded trade takes from an order, on either side.
abbrev taken_by : ℕ → Trade → ℕ
taken_by id t =
    (if t.buy_order_id == id then pos_part t.quantity_kwh else 0)
    + (if t.sell_order_id == id then pos_part t.quantity_kwh else 0)

abbrev pub taken : ℕ → List Trade → ℕ
taken id trades = sum_of (taken_by id) trades

pub record IsBooked (m : Market) : Type 0 where
  pub matched : All (λ (o : Order). o.matched_kwh ≡ taken o.id m.trades) m.orders
  pub drawn :
      All (λ (t : Trade). (t.buy_order_id < m.next_id) × (t.sell_order_id < m.next_id)) m.trades

-- No trade names an order that is yet to be placed.
taken_of_new :
    (n : ℕ) (trades : List Trade)
    → All (λ (t : Trade). (t.buy_order_id < n) × (t.sell_order_id < n)) trades
    → taken n trades ≡ 0
taken_of_new n [] h = refl
taken_of_new n (t ∷ trades) h = let rest = taken_of_new n trades h.1 in ground (arith, h.0.0, h.0.1)

pub le_drawn :
    (n k : ℕ) (trades : List Trade)
    → All (λ (t : Trade). (t.buy_order_id < n) × (t.sell_order_id < n)) trades
    → All (λ (t : Trade). (t.buy_order_id < n + k) × (t.sell_order_id < n + k)) trades
le_drawn n k trades h =
    All-map _ (λ (t : Trade). (t.buy_order_id < n + k) × (t.sell_order_id < n + k)) trades
      (λ (t : Trade) (p : (t.buy_order_id < n) × (t.sell_order_id < n)).
        (omega (arith, p.0), omega (arith, p.1)))
      h

pub place_order-IsBooked :
    (dir : Directory) (r : OrderRequest) (now : ℕ) (m : Market) {o : Order} {m' : Market}
    → IsBooked m
    → place_order dir r now m ≡ ok (o, m')
    → IsBooked m'
unfolding place_order
place_order-IsBooked dir r now m h e =
    let (_, passed, wrote) = >>=-eq-ok (may_place dir r m) _ e in
    subst IsBooked (snd_of_ok wrote) (record {
      matched =
          All-append (λ (o : Order). o.matched_kwh ≡ taken o.id m.trades) m.orders _ h.matched
            (sym (taken_of_new m.next_id m.trades h.drawn), tt);
      drawn = le_drawn m.next_id 1 m.trades h.drawn;
    })

pub cancel_order-IsBooked :
    (id : ℕ) (m : Market) {o : Order} {m' : Market}
    → IsMarket m
    → IsBooked m
    → cancel_order id m ≡ ok (o, m')
    → IsBooked m'
unfolding cancel_order get_order
cancel_order-IsBooked id m k h e =
    let (o, found, rest) = >>=-eq-ok (get_order id m) _ e in
    let (guard, wrote) = raise_if-eq-ok (not (is_active o.status)) _ _ rest in
    let P : Order → Type 0 = λ o. o.matched_kwh ≡ taken o.id m.trades in
    let inside =
      (find_row-In (λ (x : Order). x.id) id m.orders
        (or_raise-eq-ok (find_order id m.orders) _ found)).1 in
    subst IsBooked (snd_of_ok wrote) (record {
      matched =
          All-update_row (λ (x : Order). x.id) P P o.id (λ _. record o { status = cancelled })
            m.orders (λ _ _ _. All-In P h.matched inside) (λ _ p _. p) k.order_ids h.matched;
      drawn = h.drawn;
    })

-- The recorded trades take what the proposed ones do.
taken-new_trades :
    (r : MatchingResult) (now n id : ℕ) (trades : List ProposedTrade)
    → taken id (new_trades r now n trades) ≡ Fills.filled id trades
unfolding new_trades
taken-new_trades r now n id [] = refl
taken-new_trades r now n id (t ∷ trades) =
    let rest = taken-new_trades r now (n + 1) id trades in omega arith

new_trades-drawn :
    (r : MatchingResult) (now n c : ℕ) (trades : List ProposedTrade)
    → All (λ (t : ProposedTrade). (t.buy_order_id < c) × (t.sell_order_id < c)) trades
    → All (λ (t : Trade). (t.buy_order_id < c) × (t.sell_order_id < c)) (new_trades r now n trades)
unfolding new_trades
new_trades-drawn r now n c [] h = tt
new_trades-drawn r now n c (t ∷ trades) h = (h.0, new_trades-drawn r now (n + 1) c trades h.1)

-- Accepted trades name orders of the market.
accepted-drawn :
    (s : MarketSession) (id : ℕ) (m : Market) (trades : List ProposedTrade)
    → IsMarket m
    → All (IsAccepted (book_of s (active_entries id m))) trades
    → All
        (λ (t : ProposedTrade). (t.buy_order_id < m.next_id) × (t.sell_order_id < m.next_id))
        trades
unfolding to_entry
accepted-drawn s id m trades h accepted =
    let P : OrderBookEntry → Type 0 = λ e. e.order_id < m.next_id in
    let all = All-book_of P s (active_entries id m) (All-active_entries P id m h.order_ids_drawn) in
    All-map (IsAccepted (book_of s (active_entries id m))) _ trades
      (λ t a.
        (rw a.buyer_id (All-In P all a.buyer_known), rw a.seller_id (All-In P all a.seller_known)))
      accepted

IsCleared-IsBooked :
    (s : MarketSession) (cleared_at now : ℕ) (m : Market) {m' : Market}
    → IsMarket m
    → IsBooked m
    → IsCleared s cleared_at now m m'
    → IsBooked m'
IsCleared-IsBooked s cleared_at now m k h c =
    let trades = new_trades c.result now m.next_id c.result.trades in
    let n = trade_count c.result in
    let (accepted, _) =
      validate_result_sound c.result (book_of c.page (active_entries s.id m)) c.valid in
    let total : ℕ → ℕ = λ id. taken id (m.trades ++ trades) in
    let sums : (id : ℕ) → taken id m.trades + Fills.filled id c.result.trades ≡ total id = λ id.
      omega (
        arith,
        sum_of-append (taken_by id) m.trades trades,
        taken-new_trades c.result now m.next_id id c.result.trades,
      ) in
    subst IsBooked c.recorded (record {
      matched =
          apply_fills-exact total (list_active_for_session s.id m.orders) c.result.trades m.orders
            c.applied k.order_ids
            (All-map (λ (o : Order). o.matched_kwh ≡ taken o.id m.trades)
              (λ (o : Order). o.matched_kwh + Fills.filled o.id c.result.trades ≡ total o.id)
              m.orders (λ o e. omega (arith, e, sums o.id)) h.matched);
      drawn = le_drawn m.next_id n (m.trades ++ trades) (
          All-append _ m.trades trades h.drawn (
            new_trades-drawn c.result now m.next_id m.next_id c.result.trades
              (accepted-drawn c.page s.id m c.result.trades k accepted)));
    })

clear_checked-IsBooked :
    (engine : MatchingEngine) (at : Option ℕ) (now : ℕ) (m : Market)
    (r : Result MarketError MarketSession)
    → IsMarket m
    → IsBooked m
    → IsBooked (clear_checked engine at now m r).0
unfolding clear_checked
clear_checked-IsBooked engine at now m (err e) k h = h
clear_checked-IsBooked engine at now m (ok s) k h =
    let m1 = announce engine s m in
    let h1 : IsBooked m1 = record { matched = h.matched; drawn = h.drawn } in
    kept-IsMarket IsBooked m1 (clear_book engine s (get_or at now) now m1) h1 (λ after done.
      IsCleared-IsBooked s (get_or at now) now m1 (announce-IsMarket engine s m k) h1
        (clear_book-IsCleared engine s (get_or at now) now m1 done))

-- Whatever the engine returns, clearing keeps what is matched of each order equal to what the
-- recorded trades take from it.
pub clear_session-IsBooked :
    (engine : MatchingEngine) (id : ℕ) (at : Option ℕ) (now : ℕ) (m : Market)
    → IsMarket m
    → IsBooked m
    → IsBooked (clear_session engine id at now m).0
unfolding clear_session
clear_session-IsBooked engine id at now m k h =
    clear_checked-IsBooked engine at now m (may_clear id m) k h
