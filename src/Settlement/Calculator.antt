-- ===== src/Settlement/Calculator.antt =====
-- The accounting of a settlement: `StandardSettlementCalculator` of
-- backend/app/domain/policies/settlement.py.
use urja_setu.Base.{
  ℕ, ◌*◌, ◌^◌, Bool, false, ◌||◌, Option, none, some, List, [], ◌∷◌, ◌++◌, ltb, leb, any, get_or,
  if◌then◌else◌,
}
use urja_setu.Base.Int.{ℤ, pos, abs, ◌-ℤ◌, pos_part}
use urja_setu.Base.Decimal.{decimal, mul}
use urja_setu.Settlement.Contract.{
  pending, settled, ReconciliationOutcome, SettlementRequest, energy_delivered, platform_fee,
  balancing_charge, SettlementLine, SettlementResult, SettlementCalculator,
}
use urja_setu.Settlement.Policy.{quantize_amount, SettlementPolicy, reconcile}

-- `settled * price`, in paise.
unfoldable pub gross_amount : (settled_kwh price : ℕ) → ℕ
gross_amount settled_kwh price = quantize_amount (mul (decimal settled_kwh 4) (decimal price 4))

unfoldable pub fee_amount : SettlementPolicy → (gross : ℕ) → ℕ
fee_amount policy gross = quantize_amount (mul (decimal gross 2) policy.platform_fee_fraction)

unfoldable pub balancing_amount : SettlementPolicy → (balancing price : ℕ) → ℕ
balancing_amount policy balancing price =
    quantize_amount
      (mul (mul (decimal balancing 4) (decimal price 4)) policy.balancing_price_multiplier)

-- The price of the balancing line is rounded to paise; it is counted in ten-thousandths as others are.
unfoldable pub lines_of :
    SettlementPolicy → (settled_kwh balancing price gross fee charge : ℕ) → List SettlementLine
lines_of policy settled_kwh balancing price gross fee charge =
    record {
      label = energy_delivered;
      quantity_kwh = some (pos settled_kwh);
      price = some price;
      amount_inr = pos gross;
    }
      ∷ (if ltb 0 fee
          then record {
            label = platform_fee;
            quantity_kwh = none;
            price = none;
            amount_inr = pos fee;
          }
            ∷ []
          else [])
    ++ (if ltb 0 charge
        then record {
          label = balancing_charge;
          quantity_kwh = some (pos balancing);
          price =
              some
                (100 * quantize_amount (mul (decimal price 4) policy.balancing_price_multiplier));
          amount_inr = pos charge;
        }
          ∷ []
        else [])

-- The measured branch of `settle`. The quantities of a reconciliation are not negative, and the
-- difference of amounts in paise is one, so rounding it changes nothing.
unfoldable pub account :
    SettlementPolicy
    → SettlementRequest
    → ReconciliationOutcome
    → (settled_kwh : ℕ) → SettlementResult
account policy request outcome settled_kwh =
    let price = request.effective_price.price in
    let balancing = pos_part outcome.balancing_kwh in
    let gross = gross_amount settled_kwh price in
    let fee = fee_amount policy gross in
    let charge = balancing_amount policy balancing price in
    record {
      trade_id = request.trade_id;
      buyer_user_id = request.buyer_user_id;
      seller_user_id = request.seller_user_id;
      settled_kwh = pos settled_kwh;
      effective_price = price;
      gross_inr = pos gross;
      fee_inr = pos fee;
      balancing_inr = pos charge;
      buyer_debit_inr = pos gross;
      seller_credit_inr = pos gross -ℤ pos fee -ℤ pos charge;
      status = settled;
      policy_version = policy.policy_version;
      reconciliation = outcome;
      price_components_id = request.effective_price.source_id;
      forecast_basis_id = request.forecast_basis_id;
      grid_validation_id = request.grid_validation_id;
      lines = lines_of policy settled_kwh balancing price gross fee charge;
    }

-- `_empty`
unfoldable pub empty_result :
    SettlementPolicy → SettlementRequest → ReconciliationOutcome → SettlementResult
empty_result policy request outcome = record {
  trade_id = request.trade_id;
  buyer_user_id = request.buyer_user_id;
  seller_user_id = request.seller_user_id;
  settled_kwh = pos 0;
  effective_price = request.effective_price.price;
  gross_inr = pos 0;
  fee_inr = pos 0;
  balancing_inr = pos 0;
  buyer_debit_inr = pos 0;
  seller_credit_inr = pos 0;
  status = pending;
  policy_version = policy.policy_version;
  reconciliation = outcome;
  price_components_id = request.effective_price.source_id;
  forecast_basis_id = request.forecast_basis_id;
  grid_validation_id = request.grid_validation_id;
  lines = [];
}

-- Where nothing was measured there is nothing to account.
unfoldable pub settle_outcome :
    SettlementPolicy → SettlementRequest → ReconciliationOutcome → Option ℤ → SettlementResult
settle_outcome policy request outcome none = empty_result policy request outcome
settle_outcome policy request outcome (some settled_kwh) =
    account policy request outcome (pos_part settled_kwh)

-- `StandardSettlementCalculator.settle`, where it does not raise.
unfoldable pub settle_request : SettlementPolicy → SettlementRequest → SettlementResult
settle_request policy request =
    let outcome = reconcile policy request.committed_kwh request.actual in
    settle_outcome policy request outcome outcome.settled_kwh

-- A number of more than 28 digits, where `quantize` raises.
abbrev pub is_unquantised : ℤ → Bool
is_unquantised n = leb (10 ^ 28) (abs n)

abbrev pub is_some_unquantised : Option ℤ → Bool
is_some_unquantised none = false
is_some_unquantised (some n) = is_unquantised n

-- The price of the balancing line is the one price of a line that is quantised, to paise.
unfoldable pub is_long_line : SettlementLine → Bool
is_long_line l = elim l.label [ balancing_charge ↦ leb (10 ^ 30) (get_or l.price 0) | _ ↦ false ]

-- A number that is quantised on the way to the result is too long. The committed energy is not
-- among them, as it comes from a column that quantises it.
unfoldable pub is_imprecise : SettlementResult → Bool
unfolding is_long_line
is_imprecise r =
    is_some_unquantised r.reconciliation.actual_kwh
    || (is_some_unquantised r.reconciliation.deviation_pct
        || (is_unquantised r.reconciliation.balancing_kwh
            || (is_unquantised r.gross_inr
                || (is_unquantised r.fee_inr
                    || (is_unquantised r.balancing_inr || any is_long_line r.lines)))))

-- `StandardSettlementCalculator`: `none` is the InvalidOperation of `quantize`.
abbrev pub standard_calculator : SettlementPolicy → SettlementCalculator
standard_calculator policy = record {
  name = policy.calculator_name;
  policy_version = policy.policy_version;
  settle =
      λ request. let r = settle_request policy request in if is_imprecise r then none else some r;
}
