-- ===== src/Pricing/Contract.antt =====
-- The pricing contract (backend/app/domain/interfaces/pricing.py) and its vocabulary. A price is
-- counted in ten-thousandths of a rupee per kWh. The texts of the reasons are left out.
use urja_setu.Base.{ℕ, Bool, Option, List}
use urja_setu.Base.Int.{ℤ, ◌+ℤ◌, ◌-ℤ◌, sum_ℤ}
use urja_setu.Base.Decimal.{Decimal}
use urja_setu.Grid.Contract.{
  GridValidationStatus, GridValidationDecision, GridMetrics, GridViolation,
}
use Prim.Native.String.{String}

pub data TimeOfDayBand : Type 0 where
  peak solar normal : TimeOfDayBand

pub data PriceComponentKind : Type 0 where
  base time congestion imbalance local_renewable : PriceComponentKind

pub record PriceComponent : Type 0 where
  pub kind : PriceComponentKind
  pub amount : ℤ

pub record PricingRequest : Type 0 where
  pub base_price : ℤ
  pub quantity_kwh : ℤ
  pub delivery_start : ℕ
  pub delivery_end : ℕ
  pub grid_status : GridValidationStatus
  pub grid_metrics : Option GridMetrics
  pub caused_violations : List GridViolation
  pub forecast_confidence : Option Decimal
  pub is_local_renewable : Bool
  pub trade_id : Option ℕ
  pub grid_validation_id : Option ℕ
  pub forecast_basis_id : Option ℕ

pub record PricingResult : Type 0 where
  pub formula_version : String
  pub engine : String
  pub base_market_price : ℤ
  pub time_component : ℤ
  pub congestion_component : ℤ
  pub imbalance_component : ℤ
  pub local_renewable_component : ℤ
  pub final_price : ℤ
  pub components : List PriceComponent
  pub recommended_decision : GridValidationDecision
  pub grid_status : GridValidationStatus

unfoldable pub adjustment : PricingResult → ℤ
adjustment r = r.final_price -ℤ r.base_market_price

unfoldable pub components_sum : PricingResult → ℤ
components_sum r =
    r.base_market_price +ℤ r.time_component +ℤ r.congestion_component +ℤ r.imbalance_component
    +ℤ r.local_renewable_component

-- The amounts of the itemised parts, added up.
abbrev pub itemised_sum : PricingResult → ℤ
itemised_sum r = sum_ℤ (λ (c : PriceComponent). c.amount) r.components

-- An engine: its name, its version, and its answer to a request; `none` is an exception.
pub record PricingEngine : Type 0 where
  pub name : String
  pub formula_version : String
  pub quote : PricingRequest → Option PricingResult
