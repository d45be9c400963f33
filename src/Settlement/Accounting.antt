-- ===== src/Settlement/Accounting.antt =====
-- The amounts of `settle` (backend/app/domain/policies/settlement.py).
use urja_setu.Base.{ℕ, ◌≡◌, refl, sym, true, false, Option, none, some, arith, ok, ◌==◌, subst}
use urja_setu.Base.Int.{ℤ, pos, ◌+ℤ◌, ◌-ℤ◌, eqb_ℤ}
use urja_setu.Base.Decimal.{Decimal}
use urja_setu.Settlement.Contract.{
  SettlementRequest, ReconciliationOutcome, reconciled, ledger_balances, platform_retained_inr,
}
use urja_setu.Settlement.Policy.{
  SettlementPolicy, quantize_energy, reconcile, reconcile_quantity, reconcile_measured,
}
use urja_setu.Settlement.Calculator.{settle_request, settle_outcome, account, empty_result}
use urja_setu.Settlement.Service.{validate_result}
use Prim.Native.String.{len}

-- What is taken off the gross amount and what is left of it make the gross amount.
retained_and_credit :
    (gross fee charge : ℕ)
    → eqb_ℤ (pos gross) (pos gross -ℤ pos fee -ℤ pos charge +ℤ (pos fee +ℤ pos charge)) ≡ true
unfolding ◌+ℤ◌ ◌-ℤ◌
retained_and_credit gross fee charge = ground arith

settle_outcome-ledger_balances :
    (policy : SettlementPolicy) (request : SettlementRequest) (o : ReconciliationOutcome)
    (q : Option ℤ)
    → ledger_balances (settle_outcome policy request o q) ≡ true
unfolding settle_outcome account empty_result ledger_balances platform_retained_inr ◌+ℤ◌
settle_outcome-ledger_balances policy request o none = refl
settle_outcome-ledger_balances policy request o (some q) = retained_and_credit _ _ _

-- Under every policy, of every request, measured or not, what the buyer is debited is what the
-- seller is credited and what the platform retains.
pub settle_request-ledger_balances :
    (policy : SettlementPolicy) (request : SettlementRequest)
    → ledger_balances (settle_request policy request) ≡ true
unfolding settle_request
settle_request-ledger_balances policy request = settle_outcome-ledger_balances policy request _ _

account-validate_result :
    (policy : SettlementPolicy) (request : SettlementRequest) (o : ReconciliationOutcome) (n : ℕ)
    → (len policy.policy_version == 0) ≡ false
    → o.status ≡ reconciled
    → validate_result (account policy request o n) ≡ ok tt
unfolding validate_result account settle_outcome
account-validate_result policy request o n named complete =
    let balanced = settle_outcome-ledger_balances policy request o (some (pos n)) in
    rw (balanced, complete, named) (ground arith)

settle_quantity-validate_result :
    (policy : SettlementPolicy) (request : SettlementRequest) (committed : ℕ) (quantity : Decimal)
    → (len policy.policy_version == 0) ≡ false
    → validate_result (
        settle_outcome policy request
          (reconcile_quantity policy committed (some quantity))
          (reconcile_quantity policy committed (some quantity)).settled_kwh)
      ≡ ok tt
unfolding settle_outcome reconcile_quantity reconcile_measured
settle_quantity-validate_result policy request committed quantity named =
    account-validate_result policy request
      (reconcile_measured policy committed (quantize_energy quantity)) _ named refl

-- Of a request whose delivery is measured, the standard rules under a policy with a version give a
-- settlement that the service accepts.
pub settle_request-validate_result :
    (policy : SettlementPolicy) (request : SettlementRequest) {quantity : Decimal}
    → (len policy.policy_version == 0) ≡ false
    → request.actual.quantity_kwh ≡ some quantity
    → validate_result (settle_request policy request) ≡ ok tt
unfolding settle_request reconcile
settle_request-validate_result policy request {quantity} named measured =
    subst
      (λ q.
        validate_result (
          settle_outcome policy request
            (reconcile_quantity policy (quantize_energy request.committed_kwh) q)
            (reconcile_quantity policy (quantize_energy request.committed_kwh) q).settled_kwh)
        ≡ ok tt)
      (sym measured)
      (settle_quantity-validate_result policy request (quantize_energy request.committed_kwh)
        quantity named)
