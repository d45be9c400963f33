-- ===== src/Pricing/Check.antt =====
-- The check of an engine's price: `_validate_result` of backend/app/services/pricing_service.py.
use urja_setu.Base.{not, ◌||◌, ◌==◌, Result, ◌>>◌, raise_if}
use urja_setu.Base.Int.{pos, ltb_ℤ, eqb_ℤ}
use urja_setu.Pricing.Contract.{PricingResult, components_sum}
use Prim.Native.String.{len}

pub data PricingEngineError : Type 0 where
  engine_failed parts_do_not_add_up negative_price charge_pays_buyer : PricingEngineError
  incentive_is_charge no_formula_version : PricingEngineError

-- The checks of the signs of the parts and of the version.
unfoldable pub check_parts : PricingResult → Result PricingEngineError (Unit {0})
check_parts r = do
  raise_if (ltb_ℤ r.congestion_component (pos 0) || ltb_ℤ r.imbalance_component (pos 0))
      charge_pays_buyer
  raise_if (ltb_ℤ (pos 0) r.local_renewable_component) incentive_is_charge
  raise_if (len r.formula_version == 0) no_formula_version

unfoldable pub validate_result : PricingResult → Result PricingEngineError (Unit {0})
unfolding check_parts
validate_result r = do
  raise_if (not (eqb_ℤ (components_sum r) r.final_price)) parts_do_not_add_up
  raise_if (ltb_ℤ r.final_price (pos 0)) negative_price
  check_parts r
