-- ===== src/Pricing/Tests.antt =====
-- Quotes of the standard engine on concrete input, and its theorems at work on them.
mod Books
mod Trades
use urja_setu.Base.{◌≡◌, refl, true, false, none, some, [], ◌∷◌, arith, ok, err, any, if◌then◌else◌}
use urja_setu.Base.Int.{pos, neg, ◌+ℤ◌, ltb_ℤ}
use urja_setu.Base.Decimal.{decimal, mul, div, less, plus, minus, least, greatest}
use urja_setu.Market.Price.{quantize_price}
use urja_setu.Grid.Contract.{safe, permits_trade, reprice}
use urja_setu.Pricing.Contract.{peak, solar, PricingRequest, PricingResult}
use urja_setu.Pricing.Policy.{PricingParameters, TariffBand, checked_parameters}
use urja_setu.Pricing.Engine.{priced, is_imprecise, quote}
use urja_setu.Pricing.Check.{negative_price, validate_result}
use urja_setu.Pricing.Quoting.{IsExplained, quote-IsExplained, quote-validate_result}

-- The program's defaults.
abbrev evening : TariffBand
evening = record {
  band = peak;
  start_hour = 18;
  end_hour = 22;
  fraction = record { negative = false; size = decimal 10 2 };
}

abbrev daytime : TariffBand
daytime = record {
  band = solar;
  start_hour = 9;
  end_hour = 16;
  fraction = record { negative = true; size = decimal 5 2 };
}

abbrev parameters : PricingParameters
parameters = record {
  formula_version = "1.0.0";
  engine_name = "component_pricing";
  local_utc_offset = 19800000000;
  tariff_bands = evening ∷ daytime ∷ [];
  congestion_threshold_pct = decimal 70 0;
  congestion_max_fraction = decimal 25 2;
  imbalance_per_uncertainty = decimal 10 2;
  unknown_confidence_fraction = decimal 5 2;
  local_renewable_fraction = decimal 5 2;
  reprice_threshold_fraction = decimal 2 2;
}

-- At 12:30 local time, 85 % of the rating, confidence 0.85, local and renewable.
abbrev midday : PricingRequest
midday = record {
  base_price = pos 50000;
  quantity_kwh = pos 20000;
  delivery_start = 25200000000;
  delivery_end = 28800000000;
  grid_status = safe;
  grid_metrics = some (record {
    min_voltage_pu = none;
    max_voltage_pu = none;
    max_line_loading_pct = some (decimal 85 0);
    max_transformer_loading_pct = none;
  });
  caused_violations = [];
  forecast_confidence = some (decimal 85 2);
  is_local_renewable = true;
  trade_id = none;
  grid_validation_id = none;
  forecast_basis_id = none;
}

-- 5.00 - 0.25 + 0.625 + 0.075 - 0.25 rupees.
midday_price : (priced parameters midday).final_price ≡ pos 52000
unfolding priced ◌+ℤ◌ neg quantize_price mul less div minus least greatest
midday_price = refl

midday_decision : (priced parameters midday).recommended_decision ≡ reprice
unfolding priced permits_trade quantize_price mul less div minus least
midday_decision = refl

pub accepted : checked_parameters parameters ≡ some parameters
unfolding checked_parameters less plus greatest any
accepted = refl

-- The smallest base price, with discounts of a half and of two fifths: the rounded parts take all
-- of it, although the fractions are below one.
abbrev steep : PricingParameters
steep = record parameters {
  tariff_bands = record daytime { fraction = record { negative = true; size = decimal 5 1 } } ∷ [];
  imbalance_per_uncertainty = decimal 0 0;
  local_renewable_fraction = decimal 4 1;
}

abbrev smallest : PricingRequest
smallest = record midday {
  base_price = pos 1;
  grid_metrics = some (record {
    min_voltage_pu = none;
    max_voltage_pu = none;
    max_line_loading_pct = some (decimal 50 0);
    max_transformer_loading_pct = none;
  });
}

steep_accepted : checked_parameters steep ≡ some steep
unfolding checked_parameters less plus greatest any
steep_accepted = refl

price_of_zero : (priced steep smallest).final_price ≡ pos 0
unfolding priced ◌+ℤ◌ neg quantize_price mul less div minus least greatest
price_of_zero = refl

quote-IsExplained_example :
    (q : PricingResult) × (quote parameters midday ≡ (if is_imprecise q then none else some q))
    × IsExplained midday q
quote-IsExplained_example = quote-IsExplained parameters midday accepted (omega arith)
