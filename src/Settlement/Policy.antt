-- ===== src/Settlement/Policy.antt =====
-- Reconciliation (backend/app/domain/policies/settlement.py).
use urja_setu.Base.{ℕ, ◌-◌, min, Bool, false, not, ◌&&◌, Option, none, some, ltb, if◌then◌else◌}
use urja_setu.Base.Int.{ℤ, pos, neg, abs, sub_ℕ, ltb_ℤ}
use urja_setu.Base.Decimal.{Decimal, decimal, mul, div, quantize, less}
use urja_setu.Settlement.Contract.{
  awaiting_telemetry, reconciled, ActualEnergy, Reason, unmeasured, within_band, over_delivered,
  shortfall_charged, ReconciliationOutcome,
}
use Prim.Native.String.{String}

unfoldable pub quantize_amount : Decimal → ℕ
quantize_amount d = quantize 2 d

unfoldable pub quantize_energy : Decimal → ℕ
quantize_energy d = quantize 4 d

-- Fractions and the multiplier; none of them is negative.
pub record SettlementPolicy : Type 0 where
  pub policy_version : String
  pub calculator_name : String
  pub tolerance_fraction : Decimal
  pub balancing_price_multiplier : Decimal
  pub platform_fee_fraction : Decimal

-- `__post_init__`: `none` is the raised ValueError.
unfoldable pub checked_policy : SettlementPolicy → Option SettlementPolicy
checked_policy p =
    if less p.tolerance_fraction (decimal 1 0) && less p.platform_fee_fraction (decimal 1 0)
    then some p
    else none

abbrev pub default_policy : SettlementPolicy
default_policy = record {
  policy_version = "1.0.0";
  calculator_name = "standard_settlement";
  tolerance_fraction = decimal 5 2;
  balancing_price_multiplier = decimal 1 0;
  platform_fee_fraction = decimal 0 0;
}

-- `quantize_energy(deviation / committed * HUNDRED)`, which keeps the sign of the deviation.
unfoldable pub percent : ℤ → ℕ → ℤ
percent deviation committed =
    let size =
      quantize_energy
        (mul (div (decimal (abs deviation) 4) (decimal committed 4)) (decimal 100 0)) in
    if ltb_ℤ deviation (pos 0) then neg (pos size) else pos size

abbrev pub deviation_percent : ℤ → ℕ → Option ℤ
deviation_percent deviation committed =
    if ltb 0 committed then some (percent deviation committed) else none

-- `abs(deviation) <= committed * policy.tolerance_fraction`
unfoldable pub is_within : SettlementPolicy → (committed : ℕ) → (deviation : ℤ) → Bool
is_within policy committed deviation =
    not (less (mul (decimal committed 4) policy.tolerance_fraction) (decimal (abs deviation) 4))

-- `_describe`, by the branch that writes the text.
abbrev pub describe : Bool → ℕ → Reason
describe within balancing =
    if within
    then within_band
    else if ltb 0 balancing
    then shortfall_charged balancing
    else over_delivered

-- The branch of a measured window.
unfoldable pub reconcile_measured :
    SettlementPolicy → (committed actual : ℕ) → ReconciliationOutcome
reconcile_measured policy committed actual =
    let deviation = sub_ℕ actual committed in
    let within = is_within policy committed deviation in
    let shortfall = committed - actual in
    let balancing = if within then 0 else quantize_energy (decimal shortfall 4) in
    record {
      committed_kwh = pos committed;
      actual_kwh = some (pos actual);
      deviation_kwh = some deviation;
      deviation_pct = deviation_percent deviation committed;
      within_tolerance = within;
      balancing_kwh = pos balancing;
      settled_kwh = some (pos (min committed actual));
      status = reconciled;
      reason = describe within balancing;
      policy_version = policy.policy_version;
    }

unfoldable pub reconcile_unmeasured : SettlementPolicy → (committed : ℕ) → ReconciliationOutcome
reconcile_unmeasured policy committed = record {
  committed_kwh = pos committed;
  actual_kwh = none;
  deviation_kwh = none;
  deviation_pct = none;
  within_tolerance = false;
  balancing_kwh = pos 0;
  settled_kwh = none;
  status = awaiting_telemetry;
  reason = unmeasured;
  policy_version = policy.policy_version;
}

unfoldable pub reconcile_quantity :
    SettlementPolicy → (committed : ℕ) → Option Decimal → ReconciliationOutcome
reconcile_quantity policy committed none = reconcile_unmeasured policy committed
reconcile_quantity policy committed (some quantity) =
    reconcile_measured policy committed (quantize_energy quantity)

unfoldable pub reconcile : SettlementPolicy → Decimal → ActualEnergy → ReconciliationOutcome
unfolding reconcile_quantity
reconcile policy committed actual =
    reconcile_quantity policy (quantize_energy committed) actual.quantity_kwh
