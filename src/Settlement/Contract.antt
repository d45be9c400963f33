-- ===== src/Settlement/Contract.antt =====
-- The settlement contract (backend/app/domain/interfaces/settlement.py). Energy is counted in
-- ten-thousandths of a kWh, a price in ten-thousandths of a rupee, money in hundredths. Measured
-- energy is not negative, by the check on its column; what a calculator returns may be.
use urja_setu.Base.{ℕ, Bool, true, false, Option, none, some, List, is_some}
use urja_setu.Base.Int.{ℤ, pos, ◌+ℤ◌, ltb_ℤ, eqb_ℤ}
use urja_setu.Base.Decimal.{Decimal}
use Prim.Native.String.{String}

pub data ReconciliationStatus : Type 0 where
  awaiting_telemetry reconciled : ReconciliationStatus

-- `ReconciliationStatus.is_complete`
abbrev pub is_complete : ReconciliationStatus → Bool
is_complete reconciled = true
is_complete awaiting_telemetry = false

pub data SettlementStatus : Type 0 where
  pending settled superseded : SettlementStatus

abbrev pub is_settled : SettlementStatus → Bool
is_settled settled = true
is_settled _ = false

pub record ActualEnergy : Type 0 where
  pub window_start : ℕ
  pub window_end : ℕ
  pub quantity_kwh : Option Decimal
  pub reading_count : ℕ

abbrev pub is_measured : ActualEnergy → Bool
is_measured actual = is_some actual.quantity_kwh

pub record EffectivePrice : Type 0 where
  pub price : ℕ
  pub source_id : Option ℕ
  pub formula_version : Option String

-- What the text of the reason says.
pub data Reason : Type 0 where
  unmeasured within_band over_delivered : Reason
  shortfall_charged : (balancing_kwh : ℕ) → Reason
  other_reason : String → Reason

pub record ReconciliationOutcome : Type 0 where
  pub committed_kwh : ℤ
  pub actual_kwh : Option ℤ
  pub deviation_kwh : Option ℤ
  pub deviation_pct : Option ℤ
  pub within_tolerance : Bool
  pub balancing_kwh : ℤ
  pub settled_kwh : Option ℤ
  pub status : ReconciliationStatus
  pub reason : Reason
  pub policy_version : String

is_negative : Option ℤ → Bool
is_negative none = false
is_negative (some d) = ltb_ℤ d (pos 0)

unfoldable pub is_shortfall : ReconciliationOutcome → Bool
unfolding is_negative
is_shortfall o = is_negative o.deviation_kwh

pub record SettlementRequest : Type 0 where
  pub trade_id : ℕ
  pub buyer_user_id : ℕ
  pub seller_user_id : ℕ
  pub committed_kwh : Decimal
  pub effective_price : EffectivePrice
  pub delivery_start : ℕ
  pub delivery_end : ℕ
  pub actual : ActualEnergy
  pub forecast_kwh : Option Decimal
  pub forecast_basis_id : Option ℕ
  pub grid_validation_id : Option ℕ

-- `label` and the numbers of an itemised entry.
pub data LineLabel : Type 0 where
  energy_delivered platform_fee balancing_charge : LineLabel

pub record SettlementLine : Type 0 where
  pub label : LineLabel
  pub quantity_kwh : Option ℤ
  pub price : Option ℕ
  pub amount_inr : ℤ

pub record SettlementResult : Type 0 where
  pub trade_id : ℕ
  pub buyer_user_id : ℕ
  pub seller_user_id : ℕ
  pub settled_kwh : ℤ
  pub effective_price : ℕ
  pub gross_inr : ℤ
  pub fee_inr : ℤ
  pub balancing_inr : ℤ
  pub buyer_debit_inr : ℤ
  pub seller_credit_inr : ℤ
  pub status : SettlementStatus
  pub policy_version : String
  pub reconciliation : ReconciliationOutcome
  pub price_components_id : Option ℕ
  pub forecast_basis_id : Option ℕ
  pub grid_validation_id : Option ℕ
  pub lines : List SettlementLine

unfoldable pub platform_retained_inr : SettlementResult → ℤ
platform_retained_inr r = r.fee_inr +ℤ r.balancing_inr

unfoldable pub ledger_balances : SettlementResult → Bool
unfolding platform_retained_inr
ledger_balances r = eqb_ℤ r.buyer_debit_inr (r.seller_credit_inr +ℤ platform_retained_inr r)

pub record SettlementCalculator : Type 0 where
  pub name : String
  pub policy_version : String
  pub settle : SettlementRequest → Option SettlementResult
