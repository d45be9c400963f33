-- ===== src/Market/Service/Exactness.antt =====
-- What a clearing fills of each order, exactly: `_apply_fills` of
-- backend/app/services/market_service.py.
use urja_setu.Base.{
  ℕ, ◌+◌, ◌≡◌, ap, ◌≢◌, not, List, [], ◌∷◌, arith, All, All-map, any, ok, raise_if-eq-ok,
  ok-injective, subst, if◌then◌else◌, ◌==◌, ==_self,
}
use urja_setu.Base.Int.{pos_part}
use urja_setu.Base.Rows.{All-update_row, HasUnique-update_row}
use urja_setu.Base.Unique.{HasUnique}
use urja_setu.Market.Book.{ProposedTrade}
use urja_setu.Market.Store.{Order}
use urja_setu.Market.Engine.Fills as Fills
use urja_setu.Market.Service.Clearing.{apply_fill, fill_order, apply_fills}

-- What is matched and what is still to be filled add up to the same.
fill_order-exact :
    (total need left : ℕ → ℕ) (id q : ℕ) (orders : List Order)
    → left id + q ≡ need id
    → ((j : ℕ) → (j ≢ id) → left j ≡ need j)
    → HasUnique (λ (o : Order). o.id) orders
    → All (λ (o : Order). o.matched_kwh + need o.id ≡ total o.id) orders
    → All (λ (o : Order). o.matched_kwh + left o.id ≡ total o.id) (fill_order id q orders)
unfolding apply_fill
fill_order-exact total need left id q orders own others u h =
    All-update_row (λ (o : Order). o.id) (λ (o : Order). o.matched_kwh + need o.id ≡ total o.id)
      (λ (o : Order). o.matched_kwh + left o.id ≡ total o.id) id (λ o. apply_fill o q) orders
      (λ o same p.
        let at_id : need o.id ≡ need id = ap need same in
        let left_at : left o.id ≡ left id = ap left same in omega (arith, p))
      (λ o p other. omega (arith, p, others o.id other)) u h

fill_order-HasUnique :
    (id q : ℕ) (orders : List Order)
    → HasUnique (λ (o : Order). o.id) orders
    → HasUnique (λ (o : Order). o.id) (fill_order id q orders)
unfolding apply_fill
fill_order-HasUnique id q orders u =
    HasUnique-update_row (λ (o : Order). o.id) id (λ o. apply_fill o q) orders (λ _ e. e) u

pub apply_fills-exact :
    (total : ℕ → ℕ) (active : List Order) (trades : List ProposedTrade) (orders : List Order)
    {orders' : List Order}
    → apply_fills active trades orders ≡ ok orders'
    → HasUnique (λ (o : Order). o.id) orders
    → All (λ (o : Order). o.matched_kwh + Fills.filled o.id trades ≡ total o.id) orders
    → All (λ (o : Order). o.matched_kwh ≡ total o.id) orders'
unfolding apply_fills
apply_fills-exact total active [] orders e u h =
    subst (All (λ (o : Order). o.matched_kwh ≡ total o.id)) (ok-injective e) (
      All-map (λ (o : Order). o.matched_kwh + 0 ≡ total o.id)
        (λ (o : Order). o.matched_kwh ≡ total o.id) orders (λ o p. omega arith) h)
apply_fills-exact total active (t ∷ trades) orders e u h =
    let q = pos_part t.quantity_kwh in
    let (b, e) = raise_if-eq-ok (not (any (λ (o : Order). o.id == t.buy_order_id) active)) _ _ e in
    let (s, e) = raise_if-eq-ok (not (any (λ (o : Order). o.id == t.sell_order_id) active)) _ _ e in
    let middle : ℕ → ℕ = λ id. (if t.sell_order_id == id then q else 0) + Fills.filled id trades in
    let bought =
      fill_order-exact total (λ id. Fills.filled id (t ∷ trades)) middle t.buy_order_id q orders
        (ground (arith, ==_self t.buy_order_id)) (λ j other. ground arith) u h in
    let u1 = fill_order-HasUnique t.buy_order_id q orders u in
    let sold =
      fill_order-exact total middle (λ id. Fills.filled id trades) t.sell_order_id q
        (fill_order t.buy_order_id q orders) (ground (arith, ==_self t.sell_order_id))
        (λ j other. ground arith) u1 bought in
    apply_fills-exact total active trades
      (fill_order t.sell_order_id q (fill_order t.buy_order_id q orders)) e
      (fill_order-HasUnique t.sell_order_id q _ u1) sold
