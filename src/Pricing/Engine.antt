-- ===== src/Pricing/Engine.antt =====
-- The quote of the standard engine: `recommend` and `ComponentPricingEngine.quote` of
-- backend/app/domain/policies/dynamic_pricing.py.
use urja_setu.Base.{Bool, leb, ◌^◌, not, ◌||◌, Option, none, some, [], ◌∷◌, if◌then◌else◌}
use urja_setu.Base.Int.{ℤ, abs, pos, pos_part, ◌+ℤ◌, ltb_ℤ, leb_ℤ}
use urja_setu.Base.Decimal.{decimal, div, less}
use urja_setu.Market.Price.{quantize_price}
use urja_setu.Grid.Contract.{
  GridValidationStatus, permits_trade, GridValidationDecision, accept, reprice, reject,
}
use urja_setu.Pricing.Contract.{base, PricingRequest, PricingResult, PricingEngine}
use urja_setu.Pricing.Policy.{
  PricingParameters, time_component, congestion_component, imbalance_component,
  local_renewable_component,
}

unfoldable pub recommend :
    GridValidationStatus → (base_price surcharge : ℤ) → PricingParameters → GridValidationDecision
recommend status base_price surcharge p =
    if not (permits_trade status)
    then reject
    else if leb_ℤ base_price (pos 0) || leb_ℤ surcharge (pos 0)
    then accept
    else if less p.reprice_threshold_fraction
        (div (decimal (pos_part surcharge) 4) (decimal (pos_part base_price) 4))
    then reprice
    else accept

-- `quote`, of a base price that is not negative.
unfoldable pub priced : PricingParameters → PricingRequest → PricingResult
unfolding time_component congestion_component imbalance_component local_renewable_component
    recommend
priced p r =
    let base_price = pos (quantize_price (decimal (pos_part r.base_price) 4)) in
    let time_part = time_component r p in
    let congestion_part = congestion_component r p in
    let imbalance_part = imbalance_component r p in
    let renewable_part = local_renewable_component r p in
    record {
      formula_version = p.formula_version;
      engine = p.engine_name;
      base_market_price = base_price;
      time_component = time_part.amount;
      congestion_component = congestion_part.amount;
      imbalance_component = imbalance_part.amount;
      local_renewable_component = renewable_part.amount;
      final_price =
          base_price +ℤ time_part.amount +ℤ congestion_part.amount +ℤ imbalance_part.amount
          +ℤ renewable_part.amount;
      components =
          record { kind = base; amount = base_price }
          ∷ time_part
          ∷ congestion_part
          ∷ imbalance_part
          ∷ renewable_part
          ∷ [];
      recommended_decision = recommend r.grid_status base_price congestion_part.amount p;
      grid_status = r.grid_status;
    }

-- An amount of more than 28 digits, where `quantize` raises.
abbrev pub is_unquantised : ℤ → Bool
is_unquantised amount = leb (10 ^ 28) (abs amount)

-- One of the quantised amounts is too long.
unfoldable pub is_imprecise : PricingResult → Bool
is_imprecise q =
    is_unquantised q.base_market_price
    || (is_unquantised q.time_component
        || (is_unquantised q.congestion_component
            || (is_unquantised q.imbalance_component
                || is_unquantised q.local_renewable_component)))

-- `quote`: `none` is the raised ValueError or InvalidOperation.
unfoldable pub quote : PricingParameters → PricingRequest → Option PricingResult
unfolding priced is_imprecise
quote p r =
    let q = priced p r in if ltb_ℤ r.base_price (pos 0) || is_imprecise q then none else some q

-- `ComponentPricingEngine`
unfoldable pub component_engine : PricingParameters → PricingEngine
unfolding quote
component_engine p = record {
  name = p.engine_name;
  formula_version = p.formula_version;
  quote = quote p;
}
