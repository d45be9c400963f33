-- ===== src/Pricing/Applying.antt =====
-- The breakdown that applies to a trade: `price_trade` and `get_breakdown` of
-- backend/app/services/pricing_service.py.
use urja_setu.Base.{
  ℕ, ◌<◌, ◌==◌, ◌≡◌, refl, ap, ◌∙◌, true, some, ==→eq, Option, [], ◌∷◌, ◌++◌, arith, All, All-map,
  All-filter, filter, filter-append, ok, get_or,
}
use urja_setu.Base.Sorting.{first_by-append}
use urja_setu.Base.Rows.{find_row-In}
use urja_setu.Pricing.Contract.{PricingEngine}
use urja_setu.Pricing.Store.{PriceComponents, PriceBooks, is_newer, latest_breakdown}
use urja_setu.Pricing.Service.{store_row, price_trade, get_breakdown}
use urja_setu.Pricing.Breakdowns.{price_trade-IsPriced}

is_newer_of :
    (new old : PriceComponents) → old.created_at < new.created_at → is_newer new old ≡ true
is_newer_of new old time = ground arith

latest_breakdown-append :
    (trade_id : ℕ) (row : PriceComponents) (b : PriceBooks)
    → row.trade_id ≡ trade_id
    → All (λ (r : PriceComponents). r.trade_id ≡ trade_id → is_newer row r ≡ true) b.breakdowns
    → latest_breakdown trade_id (b.breakdowns ++ row ∷ []) ≡ some row
unfolding latest_breakdown filter
latest_breakdown-append trade_id row b own newer =
    let kept : (row.trade_id == trade_id) ≡ true = ground arith in
    rw
      (
        filter-append (λ (r : PriceComponents). r.trade_id == trade_id) b.breakdowns (row ∷ []),
        kept,
      )
      (first_by-append is_newer row _ (
        All-map _ _ _ (λ r h. h.0 (==→eq r.trade_id trade_id h.1))
          (All-filter _ (λ (r : PriceComponents). r.trade_id == trade_id) b.breakdowns newer)))

-- The breakdown that is read after a pricing is the one that the pricing returned, if every earlier
-- breakdown of the trade is dated before it.
pub price_trade-get_breakdown :
    (engine : PricingEngine) (trade_id : ℕ) (at : Option ℕ) (now : ℕ) (b : PriceBooks)
    {priced : PriceComponents × PriceBooks}
    → All
        (λ (r : PriceComponents). r.trade_id ≡ trade_id → r.created_at < get_or at now)
        b.breakdowns
    → price_trade engine trade_id at now b ≡ ok priced
    → get_breakdown priced.1 trade_id ≡ ok priced.0
unfolding get_breakdown store_row
price_trade-get_breakdown engine trade_id at now b {priced} dated returned =
    let p = price_trade-IsPriced engine trade_id at now b returned in
    let own = (find_row-In _ trade_id b.trades p.found).0 in
    let trade : priced.0.trade_id ≡ trade_id =
      ap (λ (r : PriceComponents). r.trade_id) p.row ∙ own in
    let moment = ap (λ (r : PriceComponents). r.created_at) p.row in
    let last = latest_breakdown-append trade_id priced.0 b trade (
      All-map _ _ b.breakdowns (λ r earlier same. is_newer_of priced.0 r (rw moment (earlier same)))
        dated) in
    rw (p.books, last) refl
