-- ===== src/Settlement/Store.antt =====
-- The rows that settling reads and writes (backend/app/db/models/settlement.py), the events that it
-- emits, and its sources.
use urja_setu.Base.{ℕ, Option, List}
use urja_setu.Base.Int.{ℤ}
use urja_setu.Settlement.Contract.{
  SettlementStatus, ActualEnergy, EffectivePrice, ReconciliationOutcome, SettlementResult,
}

-- What settlement reads of a trade and of an order.
pub record SettledTrade : Type 0 where
  pub id : ℕ
  pub buy_order_id : ℕ
  pub sell_order_id : ℕ
  pub quantity_kwh : ℕ
  pub delivery_start : ℕ
  pub delivery_end : ℕ
  pub grid_validation_id : Option ℕ

pub record OrderParty : Type 0 where
  pub id : ℕ
  pub user_id : ℕ
  pub site_id : ℕ
  pub forecast_basis_id : Option ℕ

pub record ForecastPoint : Type 0 where
  pub run_id : ℕ
  pub interval_start : ℕ
  pub interval_end : ℕ
  pub predicted_kwh : Option ℕ

pub record MeterReconciliation : Type 0 where
  pub id : ℕ
  pub trade_id : ℕ
  pub outcome : ReconciliationOutcome
  pub created_at : ℕ

pub record Settlement : Type 0 where
  pub id : ℕ
  pub trade_id : ℕ
  pub buyer_user_id : ℕ
  pub seller_user_id : ℕ
  pub settled_kwh : ℤ
  pub gross_inr : ℤ
  pub fee_inr : ℤ
  pub balancing_inr : ℤ
  pub seller_credit_inr : ℤ
  pub buyer_debit_inr : ℤ
  pub status : SettlementStatus
  pub settled_at : ℕ

-- The audit events of the two transactions.
pub data SettlementEvent : Type 0 where
  trade_reconciled : MeterReconciliation → (forecast_basis_id : Option ℕ) → SettlementEvent
  trade_settled : Settlement → SettlementResult → SettlementEvent

pub data SettlementNotice : Type 0 where
  reconciliation_updated : MeterReconciliation → SettlementNotice
  settlement_updated : Settlement → SettlementNotice

pub record Books : Type 0 where
  pub trades : List SettledTrade
  pub orders : List OrderParty
  pub forecasts : List ForecastPoint
  pub reconciliations : List MeterReconciliation
  pub settlements : List Settlement
  pub events : List SettlementEvent
  pub notices : List SettlementNotice
  pub next_id : ℕ

-- What a call raises; `row_refused` is what the database raises.
pub data SettlementError : Type 0 where
  trade_not_found orders_missing price_unknown energy_unknown calculator_failed : SettlementError
  unbalanced negative_amount unreconciled no_policy_version : SettlementError
  not_reconcilable row_refused : SettlementError

-- Where the price and the measured energy come from; either may raise.
pub record Resolvers : Type 0 where
  pub effective_price_for : ℕ → Option EffectivePrice
  pub actual_energy_for : (site_id start end : ℕ) → Option ActualEnergy
