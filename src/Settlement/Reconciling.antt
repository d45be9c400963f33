-- ===== src/Settlement/Reconciling.antt =====
-- The outcomes of `reconcile` (backend/app/domain/policies/settlement.py).
use urja_setu.Base.{
  ℕ, ◌+◌, ◌≤◌, ◌≡◌, refl, ◌⊎◌, true, false, Option, none, some, min, arith, if◌then◌else◌, ◌-◌,
}
use urja_setu.Base.Int.{ℤ, pos, sub_ℕ, ◌+ℤ◌}
use urja_setu.Base.Decimal.{Decimal, decimal, quantize}
use urja_setu.Settlement.Contract.{
  reconciled, awaiting_telemetry, ActualEnergy, ReconciliationOutcome, is_shortfall,
}
use urja_setu.Settlement.Policy.{
  SettlementPolicy, quantize_energy, is_within, reconcile_measured, reconcile_unmeasured,
  reconcile_quantity, reconcile,
}

-- Energy that is already counted in ten-thousandths is not rounded.
pub quantize_energy-decimal : (n : ℕ) → quantize_energy (decimal n 4) ≡ n
unfolding quantize_energy quantize
quantize_energy-decimal n = omega arith

-- The outcome of a measured window: delivered energy is settled up to the commitment, and the rest
-- of the commitment is balanced if and only if the deviation is out of the band.
pub record IsReconciled (policy : SettlementPolicy) (committed actual : ℕ)
    (o : ReconciliationOutcome) : Type 0 where
  pub settled : ℕ
  pub balancing : ℕ
  pub complete : o.status ≡ reconciled
  pub measured : o.actual_kwh ≡ some (pos actual)
  pub settled_is : o.settled_kwh ≡ some (pos settled)
  pub balancing_is : o.balancing_kwh ≡ pos balancing
  pub deviation : ℤ
  pub deviation_is : o.deviation_kwh ≡ some deviation
  pub deviates : pos committed +ℤ deviation ≡ pos actual
  pub up_to_commitment : settled ≤ committed
  pub up_to_delivery : settled ≤ actual
  pub one_of_them : (settled ≡ committed) ⊎ (settled ≡ actual)
  pub band : o.within_tolerance ≡ is_within policy committed deviation
  pub balanced_out_of_band : o.within_tolerance ≡ false → settled + balancing ≡ committed
  pub free_within_band : o.within_tolerance ≡ true → balancing ≡ 0

sub_ℕ-deviates : (c a : ℕ) → pos c +ℤ sub_ℕ a c ≡ pos a
unfolding ◌+ℤ◌
sub_ℕ-deviates c a = ground arith

pub reconcile_measured-IsReconciled :
    (policy : SettlementPolicy) (committed actual : ℕ)
    → IsReconciled policy committed actual (reconcile_measured policy committed actual)
unfolding reconcile_measured
reconcile_measured-IsReconciled policy committed actual =
    let within = is_within policy committed (sub_ℕ actual committed) in
    record {
      settled = min committed actual;
      balancing = if within then 0 else quantize_energy (decimal (committed - actual) 4);
      complete = refl;
      measured = refl;
      settled_is = refl;
      balancing_is = refl;
      deviation = sub_ℕ actual committed;
      deviation_is = refl;
      deviates = sub_ℕ-deviates committed actual;
      up_to_commitment = omega arith;
      up_to_delivery = omega arith;
      one_of_them = ground arith;
      band = refl;
      balanced_out_of_band =
          λ out. rw out (omega (arith, quantize_energy-decimal (committed - actual)));
      free_within_band = λ inside. rw inside refl;
    }

-- What is recorded of a window without measurement: that the question is open. It is no shortfall,
-- nothing is settled and nothing is balanced.
pub record IsAwaiting (o : ReconciliationOutcome) : Type 0 where
  pub open_question : o.status ≡ awaiting_telemetry
  pub nothing_settled : o.settled_kwh ≡ none
  pub nothing_balanced : o.balancing_kwh ≡ pos 0
  pub no_deviation : o.deviation_kwh ≡ none
  pub no_shortfall : is_shortfall o ≡ false
  pub no_verdict : o.within_tolerance ≡ false

abbrev pub IsReconciliation : SettlementPolicy → ℕ → Option Decimal → ReconciliationOutcome → Type 0
IsReconciliation policy committed none o = IsAwaiting o
IsReconciliation policy committed (some quantity) o =
    IsReconciled policy committed (quantize_energy quantity) o

reconcile_quantity-IsReconciliation :
    (policy : SettlementPolicy) (committed : ℕ) (quantity : Option Decimal)
    → IsReconciliation policy committed quantity (reconcile_quantity policy committed quantity)
unfolding reconcile_quantity reconcile_unmeasured is_shortfall
reconcile_quantity-IsReconciliation policy committed none = record {
  open_question = refl;
  nothing_settled = refl;
  nothing_balanced = refl;
  no_deviation = refl;
  no_shortfall = refl;
  no_verdict = refl;
}
reconcile_quantity-IsReconciliation policy committed (some quantity) =
    reconcile_measured-IsReconciled policy committed (quantize_energy quantity)

-- Of a measured window the delivered energy is settled, up to the commitment; the rest of the
-- commitment is balanced where the deviation is out of the tolerance band, and nothing is where it
-- is in the band. Of a window without measurement the question stays open: that is no shortfall,
-- and nothing is settled or balanced.
pub reconcile-IsReconciliation :
    (policy : SettlementPolicy) (committed : Decimal) (actual : ActualEnergy)
    → IsReconciliation policy
        (quantize_energy committed)
        actual.quantity_kwh
        (reconcile policy committed actual)
unfolding reconcile
reconcile-IsReconciliation policy committed actual =
    reconcile_quantity-IsReconciliation policy (quantize_energy committed) actual.quantity_kwh
