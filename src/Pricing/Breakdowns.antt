-- ===== src/Pricing/Breakdowns.antt =====
-- The stored breakdowns, whatever engine computed them: `price_trade` of
-- backend/app/services/pricing_service.py.
use urja_setu.Base.{
  ℕ, ◌+◌, ◌<◌, ◌≡◌, refl, sym, ap, ◌∙◌, true, false, not, neither, not-false, ==→eq, is_some,
  Option, some, List, [], ◌∷◌, ◌++◌, arith, All, All-map, All-append, ok, err, Result,
  raise_if-eq-ok, or_raise-eq-ok, ok-injective, >>=-eq-ok, get_or,
}
use urja_setu.Base.Int.{ℤ, pos, ◌≤ℤ◌, eqb_ℤ, eq_of_parts, ltb_ℤ, pos_part, neg_part}
use urja_setu.Base.Rows.{find_row, find_row-In}
use urja_setu.Base.Unique.{HasUnique, HasUnique-append}
use urja_setu.Pricing.Contract.{PricingResult, PricingEngine}
use urja_setu.Pricing.Check.{PricingEngineError}
use urja_setu.Pricing.Assembly.{build_request}
use urja_setu.Pricing.Store.{
  PricedTrade, PriceComponents, PriceBooks, row_refused, is_row_refused, row_sum,
}
use urja_setu.Pricing.Service.{quote, reraised, row_of, store_row, price_trade, get_trade}

-- A breakdown that explains its price.
pub record IsBreakdown (r : PriceComponents) : Type 0 where
  pub adds_up : row_sum r ≡ r.final_price
  pub some_base : pos 0 ≤ℤ r.base_market_price
  pub some_price : pos 0 ≤ℤ r.final_price
  pub congestion_is_charge : pos 0 ≤ℤ r.congestion_component
  pub imbalance_is_charge : pos 0 ≤ℤ r.imbalance_component
  pub renewable_is_incentive : r.local_renewable_component ≤ℤ pos 0

-- Each breakdown explains its price and is of a trade, with its one event and its one notice.
pub record IsPriceBooks (b : PriceBooks) : Type 0 where
  pub explained : All IsBreakdown b.breakdowns
  pub of_trades :
      All
        (λ (r : PriceComponents).
          is_some (find_row (λ (t : PricedTrade). t.id) r.trade_id b.trades) ≡ true)
        b.breakdowns
  pub audited : b.events ≡ b.breakdowns
  pub published : b.notices ≡ b.breakdowns
  pub older : All (λ (r : PriceComponents). r.id < b.next_id) b.breakdowns
  pub distinct : HasUnique (λ (r : PriceComponents). r.id) b.breakdowns

not_ltb_ℤ : (a b : ℤ) → ltb_ℤ a b ≡ false → b ≤ℤ a
not_ltb_ℤ a b h = ground arith

pub taken-IsBreakdown : (r : PriceComponents) → is_row_refused r ≡ false → IsBreakdown r
unfolding is_row_refused
taken-IsBreakdown r h =
    let (_, h1) = neither _ _ h in
    let (sum, h2) = neither (not (eqb_ℤ (row_sum r) r.final_price)) _ h1 in
    let (base, h3) = neither (ltb_ℤ r.base_market_price (pos 0)) _ h2 in
    let (price, h4) = neither (ltb_ℤ r.final_price (pos 0)) _ h3 in
    let (congestion, h5) = neither (ltb_ℤ r.congestion_component (pos 0)) _ h4 in
    let (imbalance, renewable) = neither (ltb_ℤ r.imbalance_component (pos 0)) _ h5 in
    record {
      adds_up = eq_of_parts (row_sum r) r.final_price (
          ==→eq (pos_part (row_sum r) + neg_part r.final_price) _
            (not-false (eqb_ℤ (row_sum r) r.final_price) sum));
      some_base = not_ltb_ℤ r.base_market_price (pos 0) base;
      some_price = not_ltb_ℤ r.final_price (pos 0) price;
      congestion_is_charge = not_ltb_ℤ r.congestion_component (pos 0) congestion;
      imbalance_is_charge = not_ltb_ℤ r.imbalance_component (pos 0) imbalance;
      renewable_is_incentive = not_ltb_ℤ (pos 0) r.local_renewable_component renewable;
    }

-- What a call that returned has done.
pub record IsPriced (engine : PricingEngine) (trade_id moment : ℕ) (b : PriceBooks)
    (priced : PriceComponents × PriceBooks) : Type 0 where
  pub trade : PricedTrade
  pub found : find_row (λ (t : PricedTrade). t.id) trade_id b.trades ≡ some trade
  pub result : PricingResult
  pub quoted : quote engine (build_request b trade) ≡ ok result
  pub taken : is_row_refused priced.0 ≡ false
  pub row : priced.0 ≡ row_of b.next_id (b.rank_of b.next_id) moment trade.id result
  pub books : priced.1 ≡ store_row priced.0 b

pub reraised-eq-ok :
    {A : Type 0} (r : Result PricingEngineError A) {a : A} → reraised r ≡ ok a → r ≡ ok a
reraised-eq-ok (ok x) h = ap ok (ok-injective h)
reraised-eq-ok (err e) h = absurd cc

pub price_trade-IsPriced :
    (engine : PricingEngine) (trade_id : ℕ) (at : Option ℕ) (now : ℕ) (b : PriceBooks)
    {priced : PriceComponents × PriceBooks}
    → price_trade engine trade_id at now b ≡ ok priced
    → IsPriced engine trade_id (get_or at now) b priced
unfolding price_trade get_trade
price_trade-IsPriced engine trade_id at now b {priced} h =
    let (t, found, h1) = >>=-eq-ok (get_trade b trade_id) _ h in
    let (q, quoted, h2) = >>=-eq-ok (reraised (quote engine (build_request b t))) _ h1 in
    let (taken, same) =
      raise_if-eq-ok
        (is_row_refused (row_of b.next_id (b.rank_of b.next_id) (get_or at now) t.id q)) row_refused
        _ h2 in
    let row = row_of b.next_id (b.rank_of b.next_id) (get_or at now) t.id q in
    let pair : Path (PriceComponents × PriceBooks) (row, store_row row b) priced =
      ok-injective same in
    let first = ap (λ (x : PriceComponents × PriceBooks). x.0) pair in
    record {
      trade = t;
      found = or_raise-eq-ok _ _ found;
      result = q;
      quoted = reraised-eq-ok _ quoted;
      taken = ap is_row_refused (sym first) ∙ taken;
      row = sym first;
      books =
          sym (ap (λ (x : PriceComponents × PriceBooks). x.1) pair)
          ∙ ap (λ (x : PriceComponents). store_row x b) first;
    }

store_row-IsPriceBooks :
    (row : PriceComponents) (b : PriceBooks)
    → IsBreakdown row
    → is_some (find_row (λ (t : PricedTrade). t.id) row.trade_id b.trades) ≡ true
    → row.id ≡ b.next_id
    → IsPriceBooks b
    → IsPriceBooks (store_row row b)
unfolding store_row
store_row-IsPriceBooks row b explained of_trade new h = record {
  explained = All-append _ b.breakdowns (row ∷ []) h.explained (explained, tt);
  of_trades = All-append _ b.breakdowns (row ∷ []) h.of_trades (of_trade, tt);
  audited = ap (λ (rows : List PriceComponents). rows ++ row ∷ []) h.audited;
  published = ap (λ (rows : List PriceComponents). rows ++ row ∷ []) h.published;
  older =
      All-append _ b.breakdowns (row ∷ []) (All-map _ _ b.breakdowns (λ r lt. omega arith) h.older)
        (omega arith, tt);
  distinct =
      HasUnique-append _ b.breakdowns row h.distinct
        (All-map _ _ b.breakdowns (λ r lt same. omega arith) h.older);
}

-- With any engine, whatever it returns, pricing a trade keeps the books: every stored breakdown is
-- of a trade and explains its price, which its parts add up to; neither the price nor its base is
-- negative, congestion and imbalance are charges and the local-renewable term is none; each
-- breakdown has its one event and its one notice; and no two have one identifier.
pub price_trade-IsPriceBooks :
    (engine : PricingEngine) (trade_id : ℕ) (at : Option ℕ) (now : ℕ) (b : PriceBooks)
    {priced : PriceComponents × PriceBooks}
    → IsPriceBooks b
    → price_trade engine trade_id at now b ≡ ok priced
    → IsPriceBooks priced.1
price_trade-IsPriceBooks engine trade_id at now b {priced} h returned =
    let p = price_trade-IsPriced engine trade_id at now b returned in
    let own = (find_row-In _ trade_id b.trades p.found).0 in
    let trade : priced.0.trade_id ≡ trade_id =
      ap (λ (r : PriceComponents). r.trade_id) p.row ∙ own in
    rw (p.books) (
      store_row-IsPriceBooks priced.0 b (taken-IsBreakdown priced.0 p.taken)
        (rw (trade, p.found) refl) (ap (λ (r : PriceComponents). r.id) p.row) h)
