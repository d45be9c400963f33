-- ===== src/Market/Service/Invariant.antt =====
-- The well-formed market, through the operations of backend/app/services/market_service.py.
use urja_setu.Base.{
  ℕ, get_or, ◌+◌, ◌≤◌, ◌<◌, ◌≡◌, refl, sym, ap, ◌∙◌, ◌≢◌, true, not, Option, List, arith, All,
  All-map, All-append, is_some, ok, Result, >>=-eq-ok, subst, raise_if-eq-ok, ok-injective,
  or_raise-eq-ok, All-In,
}
use urja_setu.Base.Rows.{update_row, find_row-In, All-update_row, HasUnique-update_row}
use urja_setu.Base.Unique.{HasUnique, HasUnique-append}
use urja_setu.Market.Vocabulary.{
  MarketType, is_buy, is_sell, open_order, filled, cancelled, is_active, accepts_orders,
}
use urja_setu.Market.Store.{MarketSession, Order, Market, find_order, get_for_date, set_session}
use urja_setu.Market.Service.{
  Directory, OrderRequest, open_session, close_session, place_order, may_place, cancel_order,
  new_order, validate_order_shape, get_order, get_session, is_opened, is_before,
  require_eligibility,
}

-- An order in good standing: some energy, no more of it matched than there is, a window, the limit
-- of its side, and a status that says how far it is filled.
pub record IsSound (o : Order) : Type 0 where
  pub some_energy : 0 < o.energy_kwh
  pub within : o.matched_kwh ≤ o.energy_kwh
  pub some_time : o.delivery_start < o.delivery_end
  pub buy_limit : is_buy o.side ≡ true → is_some o.max_price ≡ true
  pub sell_limit : is_sell o.side ≡ true → is_some o.min_price ≡ true
  pub open_is_untouched : o.status ≡ open_order → o.matched_kwh ≡ 0
  pub active_has_energy : is_active o.status ≡ true → o.matched_kwh < o.energy_kwh
  pub filled_is_full : o.status ≡ filled → o.matched_kwh ≡ o.energy_kwh

pub record IsMarket (m : Market) : Type 0 where
  pub orders : All IsSound m.orders
  pub order_ids : HasUnique (λ (o : Order). o.id) m.orders
  pub order_ids_drawn : All (λ (o : Order). o.id < m.next_id) m.orders
  pub session_ids : HasUnique (λ (s : MarketSession). s.id) m.sessions
  pub session_ids_drawn : All (λ (s : MarketSession). s.id < m.next_id) m.sessions

-- The rows that an operation does not write are as before; what it draws is new.
le_drawn :
    {A : Type 0} (id : A → ℕ) (n : ℕ) (xs : List A)
    → All (λ x. id x < n) xs
    → All (λ x. id x < n + 1) xs
le_drawn id n xs h = All-map (λ x. id x < n) (λ x. id x < n + 1) xs (λ x lt. omega arith) h

new_drawn :
    {A : Type 0} (id : A → ℕ) (n : ℕ) (xs : List A)
    → All (λ x. id x < n) xs
    → All (λ x. id x ≢ n) xs
new_drawn id n xs h = All-map (λ x. id x < n) (λ x. id x ≢ n) xs (λ x lt e. ground arith) h

-- Of two results of an operation the second one is the market.
pub snd_of_ok :
    {E A : Type 0} {a b : A} {m m' : Market}
    → Path (Result E (A × Market)) (ok (a, m)) (ok (b, m'))
    → m ≡ m'
snd_of_ok h = ap (λ p. p.1) (ok-injective h)

pub open_session-IsMarket :
    (market_date : ℕ) (market_type : MarketType) (at : Option ℕ) (now : ℕ) (m : Market)
    {s : MarketSession} {m' : Market}
    → IsMarket m
    → open_session market_date market_type at now m ≡ ok (s, m')
    → IsMarket m'
unfolding open_session
open_session-IsMarket market_date market_type at now m h e =
    let (free, wrote) =
      raise_if-eq-ok (is_some (get_for_date market_date market_type m.sessions)) _ _ e in
    subst IsMarket (snd_of_ok wrote) (record {
      orders = h.orders;
      order_ids = h.order_ids;
      order_ids_drawn = le_drawn (λ (o : Order). o.id) m.next_id m.orders h.order_ids_drawn;
      session_ids =
          HasUnique-append (λ (s : MarketSession). s.id) m.sessions _ h.session_ids
            (new_drawn (λ (s : MarketSession). s.id) m.next_id m.sessions h.session_ids_drawn);
      session_ids_drawn =
          All-append (λ (s : MarketSession). s.id < m.next_id + 1) m.sessions _
            (le_drawn (λ (s : MarketSession). s.id) m.next_id m.sessions h.session_ids_drawn)
            (omega arith, tt);
    })

-- Writing a session keeps the rows in order.
pub set_session-IsMarket :
    (m : Market) (s : MarketSession)
    → IsMarket m
    → IsMarket (record m { sessions = set_session s m.sessions })
set_session-IsMarket m s h = record {
  orders = h.orders;
  order_ids = h.order_ids;
  order_ids_drawn = h.order_ids_drawn;
  session_ids =
      HasUnique-update_row (λ (x : MarketSession). x.id) s.id (λ _. s) m.sessions (λ x _. refl)
        h.session_ids;
  session_ids_drawn =
      All-update_row (λ (x : MarketSession). x.id) (λ x. x.id < m.next_id) (λ x. x.id < m.next_id)
        s.id (λ _. s) m.sessions (λ x same lt. rw (sym same) lt) (λ x lt _. lt) h.session_ids
        h.session_ids_drawn;
}

pub close_session-IsMarket :
    (id : ℕ) (at : Option ℕ) (now : ℕ) (m : Market) {s : MarketSession} {m' : Market}
    → IsMarket m
    → close_session id at now m ≡ ok (s, m')
    → IsMarket m'
unfolding close_session
close_session-IsMarket id at now m h e =
    let (s, found, rest) = >>=-eq-ok (get_session id m) _ e in
    let (guard, rest) = raise_if-eq-ok (not (is_opened s.status)) _ _ rest in
    let (_, wrote) = raise_if-eq-ok (is_before (get_or at now) s.opened_at) _ _ rest in
    subst IsMarket (snd_of_ok wrote) (set_session-IsMarket m _ h)

-- A write of orders that keeps their identifiers and their standing keeps the market's.
pub write_orders-IsMarket :
    (m : Market) (id : ℕ) (f : Order → Order)
    → IsMarket m
    → ((o : Order) → o.id ≡ id → (f o).id ≡ id)
    → ((o : Order) → o.id ≡ id → IsSound o → IsSound (f o))
    → IsMarket (record m { orders = update_row (λ (o : Order). o.id) id f m.orders })
write_orders-IsMarket m id f h same sound = record {
  orders =
      All-update_row (λ (o : Order). o.id) IsSound IsSound id f m.orders sound (λ x k _. k)
        h.order_ids h.orders;
  order_ids = HasUnique-update_row (λ (o : Order). o.id) id f m.orders same h.order_ids;
  order_ids_drawn =
      All-update_row (λ (o : Order). o.id) (λ o. o.id < m.next_id) (λ o. o.id < m.next_id) id f
        m.orders (λ o e lt. rw (same o e ∙ sym e) lt) (λ x lt _. lt) h.order_ids h.order_ids_drawn;
  session_ids = h.session_ids;
  session_ids_drawn = h.session_ids_drawn;
}

cancelled-IsSound : (o : Order) → IsSound o → IsSound (record o { status = cancelled })
cancelled-IsSound o h = record {
  some_energy = h.some_energy;
  within = h.within;
  some_time = h.some_time;
  buy_limit = h.buy_limit;
  sell_limit = h.sell_limit;
  open_is_untouched = λ e. absurd cc;
  active_has_energy = λ e. absurd cc;
  filled_is_full = λ e. absurd cc;
}

pub cancel_order-IsMarket :
    (id : ℕ) (m : Market) {o : Order} {m' : Market}
    → IsMarket m
    → cancel_order id m ≡ ok (o, m')
    → IsMarket m'
unfolding cancel_order get_order
cancel_order-IsMarket id m h e =
    let (o, found, rest) = >>=-eq-ok (get_order id m) _ e in
    let (guard, wrote) = raise_if-eq-ok (not (is_active o.status)) _ _ rest in
    let sound =
      All-In IsSound h.orders
        (find_row-In (λ (x : Order). x.id) id m.orders
          (or_raise-eq-ok (find_order id m.orders) _ found)).1 in
    subst IsMarket (snd_of_ok wrote) (
      write_orders-IsMarket m o.id (λ _. record o { status = cancelled }) h (λ _ _. refl)
        (λ _ _ _. cancelled-IsSound o sound))

new_order-IsSound :
    (r : OrderRequest) (id now : ℕ) → validate_order_shape r ≡ ok tt → IsSound (new_order r id now)
unfolding validate_order_shape
new_order-IsSound r id now h = record {
  some_energy = ground arith;
  within = omega arith;
  some_time = ground arith;
  buy_limit = λ e. ground arith;
  sell_limit = λ e. ground arith;
  open_is_untouched = λ _. refl;
  active_has_energy = λ _. ground arith;
  filled_is_full = λ e. absurd (ground arith);
}

may_place-shape :
    (dir : Directory) (r : OrderRequest) (m : Market)
    → may_place dir r m ≡ ok tt
    → validate_order_shape r ≡ ok tt
unfolding may_place
may_place-shape dir r m h =
    let (s, found, rest) = >>=-eq-ok (get_session r.market_session_id m) _ h in
    let (accepting, rest) = raise_if-eq-ok (not (accepts_orders s.status)) _ _ rest in
    let (site, rest) = raise_if-eq-ok (not (dir.has_site r.site_id)) _ _ rest in
    let (_, eligible, rest) = >>=-eq-ok (require_eligibility dir r.user_id r.side) _ rest in
    let (_, shaped, rest) = >>=-eq-ok (validate_order_shape r) _ rest in shaped

pub place_order-IsMarket :
    (dir : Directory) (r : OrderRequest) (now : ℕ) (m : Market) {o : Order} {m' : Market}
    → IsMarket m
    → place_order dir r now m ≡ ok (o, m')
    → IsMarket m'
unfolding place_order
place_order-IsMarket dir r now m h e =
    let (_, passed, wrote) = >>=-eq-ok (may_place dir r m) _ e in
    subst IsMarket (snd_of_ok wrote) (record {
      orders =
          All-append IsSound m.orders _ h.orders
            (new_order-IsSound r m.next_id now (may_place-shape dir r m passed), tt);
      order_ids =
          HasUnique-append (λ (o : Order). o.id) m.orders _ h.order_ids
            (new_drawn (λ (o : Order). o.id) m.next_id m.orders h.order_ids_drawn);
      order_ids_drawn =
          All-append (λ (o : Order). o.id < m.next_id + 1) m.orders _
            (le_drawn (λ (o : Order). o.id) m.next_id m.orders h.order_ids_drawn) (omega arith, tt);
      session_ids = h.session_ids;
      session_ids_drawn =
          le_drawn (λ (s : MarketSession). s.id) m.next_id m.sessions h.session_ids_drawn;
    })
