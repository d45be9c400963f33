-- ===== src/Market/Service/Filling.antt =====
-- What applying the trades of a result does to the orders.
use urja_setu.Base.{
  ℕ, ◌+◌, ◌≤◌, ◌<◌, ◌≡◌, refl, ap, inl, inr, true, not, List, [], ◌∷◌, arith, All, All-map, any, ok,
  raise_if-eq-ok, ok-injective, subst, leb, Bool-cases, if◌then◌else◌, ◌==◌, ==_self, In, here,
  there,
}
use urja_setu.Base.Int.{pos, pos_part, ◌≤ℤ◌}
use urja_setu.Base.Rows.{All-update_row, HasUnique-update_row}
use urja_setu.Base.Unique.{HasUnique}
use urja_setu.Market.Book.{ProposedTrade}
use urja_setu.Market.Store.{Order}
use urja_setu.Market.Engine.Fills.{fill}
use urja_setu.Market.Engine.Fills as Fills
use urja_setu.Market.Service.Clearing.{apply_fill, fill_order, apply_fills}
use urja_setu.Market.Service.Invariant.{IsSound}

pub apply_fill-IsSound :
    (o : Order) (q : ℕ)
    → 0 < q
    → o.matched_kwh + q ≤ o.energy_kwh
    → IsSound o
    → IsSound (apply_fill o q)
unfolding apply_fill
apply_fill-IsSound o q some_energy fits h =
    elim (Bool-cases (leb o.energy_kwh (o.matched_kwh + q))) [
      | inl full ↦ record {
        some_energy = h.some_energy;
        within = fits;
        some_time = h.some_time;
        buy_limit = h.buy_limit;
        sell_limit = h.sell_limit;
        open_is_untouched = λ e. absurd (ground arith);
        active_has_energy = λ e. absurd (ground arith);
        filled_is_full = λ _. ground arith;
      }
      | inr part ↦ record {
        some_energy = h.some_energy;
        within = fits;
        some_time = h.some_time;
        buy_limit = h.buy_limit;
        sell_limit = h.sell_limit;
        open_is_untouched = λ e. absurd (ground arith);
        active_has_energy = λ _. ground arith;
        filled_is_full = λ e. absurd (ground arith);
      }
    ]

-- A sound order with room for what is still to be filled of it.
abbrev pub HasRoom : (ℕ → ℕ) → Order → Type 0
HasRoom need o = IsSound o × (o.matched_kwh + need o.id ≤ o.energy_kwh)

abbrev pub HasIds : ℕ → List Order → Type 0
HasIds n orders = HasUnique (λ (o : Order). o.id) orders × All (λ (o : Order). o.id < n) orders

fill_order-HasIds :
    (n id q : ℕ) (orders : List Order) → HasIds n orders → HasIds n (fill_order id q orders)
unfolding apply_fill
fill_order-HasIds n id q orders h = (
  HasUnique-update_row (λ (o : Order). o.id) id (λ o. apply_fill o q) orders (λ _ e. e) h.0,
  All-update_row (λ (o : Order). o.id) (λ o. o.id < n) (λ o. o.id < n) id (λ o. apply_fill o q)
      orders (λ _ _ lt. lt) (λ _ lt _. lt) h.0 h.1,
)

fill_order-HasRoom :
    (need left : ℕ → ℕ) (id q : ℕ) (orders : List Order)
    → 0 < q
    → left id + q ≤ need id
    → ((j : ℕ) → left j ≤ need j)
    → HasUnique (λ (o : Order). o.id) orders
    → All (HasRoom need) orders
    → All (HasRoom left) (fill_order id q orders)
unfolding apply_fill
fill_order-HasRoom need left id q orders some_energy own others u h =
    All-update_row (λ (o : Order). o.id) (HasRoom need) (HasRoom left) id (λ o. apply_fill o q)
      orders
      (λ o same p.
        let at_id : need o.id ≡ need id = ap need same in
        let left_at : left o.id ≡ left id = ap left same in
        (apply_fill-IsSound o q some_energy (omega (arith, p.1)) p.0, omega (arith, p.1)))
      (λ o p _. (p.0, omega (arith, p.1, others o.id))) u h

-- Trades for some energy, within the room of every order, leave all orders sound.
pub apply_fills-IsSound :
    (n : ℕ) (active : List Order) (trades : List ProposedTrade) (orders : List Order)
    {orders' : List Order}
    → apply_fills active trades orders ≡ ok orders'
    → All (λ (t : ProposedTrade). pos 1 ≤ℤ t.quantity_kwh) trades
    → HasIds n orders
    → All (HasRoom (λ id. Fills.filled id trades)) orders
    → All IsSound orders' × HasIds n orders'
unfolding apply_fills
apply_fills-IsSound n active [] orders e some_energy ids h =
    let same = ok-injective e in
    subst (λ os. All IsSound os × HasIds n os) same
      (All-map (HasRoom (λ id. 0)) IsSound orders (λ o p. p.0) h, ids)
apply_fills-IsSound n active (t ∷ trades) orders e some_energy ids h =
    let q = pos_part t.quantity_kwh in
    let (b, e) = raise_if-eq-ok (not (any (λ (o : Order). o.id == t.buy_order_id) active)) _ _ e in
    let (s, e) = raise_if-eq-ok (not (any (λ (o : Order). o.id == t.sell_order_id) active)) _ _ e in
    let middle : ℕ → ℕ = λ id. (if t.sell_order_id == id then q else 0) + Fills.filled id trades in
    let positive : 0 < q = let p = some_energy.0 in omega arith in
    let bought =
      fill_order-HasRoom (λ id. Fills.filled id (t ∷ trades)) middle t.buy_order_id q orders
        positive (ground (arith, ==_self t.buy_order_id)) (λ j. omega arith) ids.0 h in
    let ids_bought = fill_order-HasIds n t.buy_order_id q orders ids in
    let sold =
      fill_order-HasRoom middle (λ id. Fills.filled id trades) t.sell_order_id q
        (fill_order t.buy_order_id q orders) positive (ground (arith, ==_self t.sell_order_id))
        (λ j. omega arith) ids_bought.0 bought in
    apply_fills-IsSound n active trades
      (fill_order t.sell_order_id q (fill_order t.buy_order_id q orders)) e some_energy.1
      (fill_order-HasIds n t.sell_order_id q _ ids_bought) sold

any-In :
    (id : ℕ) (active : List Order) {o : Order}
    → In o active
    → o.id ≡ id
    → any (λ (x : Order). x.id == id) active ≡ true
unfolding any
any-In id [] m e = elim m [ ]
any-In id (o ∷ active) here e = ground (arith, ==_self id)
any-In id (x ∷ active) (there m) e = ground (arith, any-In id active m e)

-- Among the active orders, by its identifier.
pub record IsActiveId (active : List Order) (id : ℕ) : Type 0 where
  pub order : Order
  pub listed : In order active
  pub named : order.id ≡ id

-- Trades between active orders are applied without an exception.
pub apply_fills-returns :
    (active : List Order) (trades : List ProposedTrade) (orders : List Order)
    → All
        (λ (t : ProposedTrade).
          IsActiveId active t.buy_order_id × IsActiveId active t.sell_order_id)
        trades
    → (orders' : List Order) × (apply_fills active trades orders ≡ ok orders')
unfolding apply_fills
apply_fills-returns active [] orders h = (orders, refl)
apply_fills-returns active (t ∷ trades) orders h =
    let q = pos_part t.quantity_kwh in
    let b = any-In t.buy_order_id active h.0.0.listed h.0.0.named in
    let s = any-In t.sell_order_id active h.0.1.listed h.0.1.named in
    let (orders', e) =
      apply_fills-returns active trades
        (fill_order t.sell_order_id q (fill_order t.buy_order_id q orders)) h.1 in
    (orders', rw (b, s) e)
