-- ===== src/Pricing/Standard.antt =====
-- Pricing a trade with the standard engine: `price_trade` of
-- backend/app/services/pricing_service.py over backend/app/domain/policies/dynamic_pricing.py.
use urja_setu.Base.{
  ℕ, ◌≡◌, refl, ap, ◌∙◌, Bool, true, false, Bool-cases, inl, inr, ◌==◌, Option, none, some, arith,
  ok, err, Result, if◌then◌else◌, get_or,
}
use urja_setu.Base.Int.{pos, ◌≤ℤ◌, ltb_ℤ}
use urja_setu.Base.Rows.{find_row}
use urja_setu.Pricing.Contract.{PricingRequest, PricingResult, PricingEngine}
use urja_setu.Pricing.Policy.{PricingParameters, checked_parameters}
use urja_setu.Pricing.Engine.{priced, is_imprecise, component_engine}
use urja_setu.Pricing.Check.{PricingEngineError, engine_failed, negative_price, validate_result}
use urja_setu.Pricing.Quoting.{quote-of_base, priced-IsExplained, IsExplained-validate_result}
use urja_setu.Pricing.Assembly.{build_request}
use urja_setu.Pricing.Store.{
  PricedTrade, PriceComponents, PriceBooks, PricingError, row_refused, engine_error, has_overflow,
  is_row_refused,
}
use urja_setu.Pricing.Service.{row_of, store_row, price_trade, get_trade, quote}
use urja_setu.Pricing.Refusals.{checked-is_row_refused, or_false}
use Prim.Native.String.{len}

-- What the standard engine quotes for the trade, as a row.
abbrev pub standard_row :
    PricingParameters → (moment : ℕ) → PriceBooks → PricedTrade → PriceComponents
standard_row p moment b t =
    row_of b.next_id (b.rank_of b.next_id) moment t.id (priced p (build_request b t))

-- The answer of an engine, stored or refused by its size.
abbrev pub stored_or_refused :
    PriceComponents → PriceBooks → Result PricingError (PriceComponents × PriceBooks)
stored_or_refused row b = if has_overflow row then err row_refused else ok (row, store_row row b)

or_failed :
    (engine : PricingEngine) (trade_id : ℕ) (at : Option ℕ) (now : ℕ) (b : PriceBooks)
    {t : PricedTrade}
    → find_row (λ (x : PricedTrade). x.id) trade_id b.trades ≡ some t
    → engine.quote (build_request b t) ≡ none
    → price_trade engine trade_id at now b ≡ err (engine_error engine_failed)
unfolding price_trade get_trade quote
or_failed engine trade_id at now b found failed = rw (found, failed) refl

module _ (engine : PricingEngine) (trade_id : ℕ) (at : Option ℕ) (now : ℕ) (b : PriceBooks)
    {t : PricedTrade} {q : PricingResult}
    (found : find_row (λ (x : PricedTrade). x.id) trade_id b.trades ≡ some t)
    (answered : engine.quote (build_request b t) ≡ some q) where
  price_trade_raised :
      (e : PricingEngineError)
      → validate_result q ≡ err e
      → price_trade engine trade_id at now b ≡ err (engine_error e)
  unfolding price_trade get_trade quote
  price_trade_raised e bad = rw (found, answered, bad) refl

  price_trade_checked :
      validate_result q ≡ ok tt
      → pos 0 ≤ℤ q.base_market_price
      → price_trade engine trade_id at now b
        ≡ stored_or_refused (row_of b.next_id (b.rank_of b.next_id) (get_or at now) t.id q) b
  unfolding price_trade get_trade quote
  price_trade_checked checked base =
      let row = row_of b.next_id (b.rank_of b.next_id) (get_or at now) t.id q in
      let size =
        checked-is_row_refused q b.next_id (b.rank_of b.next_id) (get_or at now) t.id checked in
      let fits : is_row_refused row ≡ has_overflow row =
        size ∙ or_false (has_overflow row) _ (ground arith) in
      elim (Bool-cases (has_overflow row)) [
        | inl over ↦ rw (found, answered, checked, fits, over) refl
        | inr within ↦ rw (found, answered, checked, fits, within) refl
      ]

priced_base : (p : PricingParameters) (r : PricingRequest) → pos 0 ≤ℤ (priced p r).base_market_price
unfolding priced
priced_base p r = omega arith

by_sign :
    {A : Type 0} {verdict : Result PricingEngineError (Unit {0})} {outcome raised kept : A}
    (is_negative : Bool)
    → verdict ≡ (if is_negative then err negative_price else ok tt)
    → (verdict ≡ err negative_price → outcome ≡ raised)
    → (verdict ≡ ok tt → outcome ≡ kept)
    → outcome ≡ (if is_negative then raised else kept)
by_sign true e below fine = below e
by_sign false e below fine = fine e

-- Of a stored trade whose clearing price is not negative, under parameters that pass their own check
-- and have a version, pricing with the standard engine raises where an amount has more than 28 digits or where the final price is
-- negative, is refused where the row does
-- not fit the columns, and otherwise stores the row of the quote and returns it.
pub price_trade-component_engine :
    (p : PricingParameters) (trade_id : ℕ) (at : Option ℕ) (now : ℕ) (b : PriceBooks)
    {t : PricedTrade}
    → find_row (λ (x : PricedTrade). x.id) trade_id b.trades ≡ some t
    → checked_parameters p ≡ some p
    → pos 0 ≤ℤ t.clearing_price
    → (len p.formula_version == 0) ≡ false
    → price_trade (component_engine p) trade_id at now b ≡ (
        if is_imprecise (priced p (build_request b t))
        then err (engine_error engine_failed)
        else if ltb_ℤ (priced p (build_request b t)).final_price (pos 0)
        then err (engine_error negative_price)
        else stored_or_refused (standard_row p (get_or at now) b t) b)
unfolding component_engine build_request
price_trade-component_engine p trade_id at now b {t} found valid some_price named =
    let r = build_request b t in
    let engine = component_engine p in
    let quoted = quote-of_base p r some_price in
    let verdict = IsExplained-validate_result r (priced p r) (priced-IsExplained p r valid) named in
    elim (Bool-cases (is_imprecise (priced p r))) [
      | inl long ↦ rw long (
          or_failed engine trade_id at now b found
            (quoted ∙ ap (λ (c : Bool). if c then none else some (priced p r)) long))
      | inr precise ↦
          let answered =
            quoted ∙ ap (λ (c : Bool). if c then none else some (priced p r)) precise in
          rw precise (
            by_sign (ltb_ℤ (priced p r).final_price (pos 0)) verdict
              (price_trade_raised engine trade_id at now b found answered negative_price)
              (λ checked.
                price_trade_checked engine trade_id at now b found answered checked
                  (priced_base p r)))
    ]
