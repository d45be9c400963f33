-- ===== src/Trading/Paying.antt =====
-- Settling over the stored prices: PricingServicePriceResolver of
-- backend/app/services/settlement_service.py, which reads pricing_service.py beside it.
use urja_setu.Base.{
  ℕ, ◌<◌, ◌≡◌, sym, ap, ◌∙◌, min, false, Option, none, some, some-injective, All, arith, ok, err,
  Result, >>=-eq-ok, or_raise, or_raise-eq-ok, ok-injective, get_or, ◌==◌, if◌then◌else◌,
}
use urja_setu.Base.Int.{ℤ, pos, pos_part, ◌≤ℤ◌}
use urja_setu.Base.Decimal.{Decimal}
use urja_setu.Base.Rows.{find_row}
use urja_setu.Pricing.Contract.{PricingEngine}
use urja_setu.Pricing.Store.{PriceComponents, PriceBooks, PricingError}
use urja_setu.Pricing.Service.{price_trade, get_breakdown}
use urja_setu.Pricing.Breakdowns.{price_trade-IsPriced, taken-IsBreakdown}
use urja_setu.Pricing.Applying.{price_trade-get_breakdown}
use urja_setu.Settlement.Contract.{EffectivePrice, ActualEnergy, SettlementRequest}
use urja_setu.Settlement.Policy.{SettlementPolicy, quantize_energy}
use urja_setu.Settlement.Calculator.{
  gross_amount, settle_request, is_imprecise, standard_calculator,
}
use urja_setu.Settlement.Store.{
  Resolvers, SettledTrade, OrderParty, Settlement, Books, orders_missing, price_unknown,
  energy_unknown, row_refused, calculator_failed,
}
use urja_setu.Settlement.Service.{build_request, settle_trade}
use urja_setu.Settlement.Outcomes.{is_unstorable, settle_trade-measured}
use Prim.Native.String.{len}

-- A stored price is not negative, by a check of its table.
abbrev pub price_of_breakdown : Result PricingError PriceComponents → Option EffectivePrice
price_of_breakdown (err e) = none
price_of_breakdown (ok row) = some (record {
  price = pos_part row.final_price;
  source_id = some row.id;
  formula_version = some row.formula_version;
})

-- The prices of the books, and a source of measured energy.
unfoldable pub stored_prices :
    PriceBooks → (energy : (site_id start end : ℕ) → Option ActualEnergy) → Resolvers
unfolding get_breakdown
stored_prices books energy = record {
  effective_price_for = λ trade_id. price_of_breakdown (get_breakdown books trade_id);
  actual_energy_for = energy;
}

build_request-effective_price :
    (res : Resolvers) (t : SettledTrade) (b : Books) {request : SettlementRequest}
    → build_request res t b ≡ ok request
    → res.effective_price_for t.id ≡ some request.effective_price
unfolding build_request
build_request-effective_price res t b h =
    let (bought, _, h1) =
      >>=-eq-ok
        (or_raise (find_row (λ (o : OrderParty). o.id) t.buy_order_id b.orders) orders_missing) _
        h in
    let (sold, _, h2) =
      >>=-eq-ok
        (or_raise (find_row (λ (o : OrderParty). o.id) t.sell_order_id b.orders) orders_missing) _
        h1 in
    let (price, priced, h3) =
      >>=-eq-ok (or_raise (res.effective_price_for t.id) price_unknown) _ h2 in
    let (actual, _, same) =
      >>=-eq-ok
        (or_raise (res.actual_energy_for sold.site_id t.delivery_start t.delivery_end)
          energy_unknown)
        _ h3 in
    or_raise-eq-ok _ _ priced
    ∙ ap (λ (r : SettlementRequest). some r.effective_price) (ok-injective same)

eq_pos : (x : ℤ) → pos 0 ≤ℤ x → x ≡ pos (pos_part x)
eq_pos x h = ground arith

-- Where a trade was priced, by any engine, and every earlier breakdown of it is dated before that,
-- settling it over the stored prices under the standard rules and a policy with a version, once its
-- delivery is measured, pays the price that the pricing returned for the energy delivered, up to
-- the commitment; or it fails, and changes nothing, where a number has more than 28 digits or a row
-- does not fit its columns.
pub settle_trade-stored_prices :
    (engine : PricingEngine) (priced_at : Option ℕ) (clock : ℕ) (books : PriceBooks)
    {priced : PriceComponents × PriceBooks} (energy : (site_id start end : ℕ) → Option ActualEnergy)
    (policy : SettlementPolicy) (at : Option ℕ) (now : ℕ) (b : Books) {t : SettledTrade}
    {request : SettlementRequest} {quantity : Decimal}
    → All
        (λ (r : PriceComponents). r.trade_id ≡ t.id → r.created_at < get_or priced_at clock)
        books.breakdowns
    → price_trade engine t.id priced_at clock books ≡ ok priced
    → find_row (λ (x : SettledTrade). x.id) t.id b.trades ≡ some t
    → build_request (stored_prices priced.1 energy) t b ≡ ok request
    → (len policy.policy_version == 0) ≡ false
    → request.actual.quantity_kwh ≡ some quantity
    → (row : Settlement) × (after : Books) × (price : ℕ) × (settle_trade
          (stored_prices priced.1 energy)
          (standard_calculator policy)
          t.id
          at
          now
          b
        ≡ (if is_imprecise (settle_request policy request)
            then (b, err calculator_failed)
            else if is_unstorable (settle_request policy request)
            then (b, err row_refused)
            else (after, ok row)))
      × (priced.0.final_price ≡ pos price)
      × (row.gross_inr
          ≡ pos (
              gross_amount
                (min (quantize_energy request.committed_kwh) (quantize_energy quantity))
                price))
unfolding stored_prices
settle_trade-stored_prices engine priced_at clock books {priced} energy policy at now b {t}
      {request} {quantity} dated returned found built named measured =
    let res = stored_prices priced.1 energy in
    let p = price_trade-IsPriced engine t.id priced_at clock books returned in
    let read = price_trade-get_breakdown engine t.id priced_at clock books dated returned in
    let asked = build_request-effective_price res t b built in
    let paid : request.effective_price.price ≡ pos_part priced.0.final_price = sym (
      ap (λ (x : EffectivePrice). x.price)
        (some-injective (sym (ap price_of_breakdown read) ∙ asked))) in
    let (row, after, settled, _, money, _) =
      settle_trade-measured res policy at now b found built named measured in
    let delivered = min (quantize_energy request.committed_kwh) (quantize_energy quantity) in
    (
      row,
      after,
      pos_part priced.0.final_price,
      settled,
      eq_pos priced.0.final_price (taken-IsBreakdown priced.0 p.taken).some_price,
      money ∙ ap (λ price. pos (gross_amount delivered price)) paid,
    )
