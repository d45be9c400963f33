-- ===== src/Settlement/Tests.antt =====
-- Runs of the settlement on concrete input, and its theorems at work on them.
use urja_setu.Base.{
  ◌≡◌, refl, ◌++◌, min, true, false, any, if◌then◌else◌, none, some, [], ◌∷◌, arith, ok, err,
}
use urja_setu.Base.Int.{pos, neg, ◌-ℤ◌}
use urja_setu.Base.Rows.{find_row}
use urja_setu.Base.Decimal.{decimal, mul, div, quantize, less}
use urja_setu.Settlement.Contract.{ActualEnergy, EffectivePrice, SettlementRequest, ledger_balances}
use urja_setu.Settlement.Policy.{
  default_policy, quantize_energy, reconcile, quantize_amount, reconcile_measured, percent,
  is_within,
}
use urja_setu.Settlement.Calculator.{
  settle_request, is_imprecise, lines_of, standard_calculator, gross_amount, settle_outcome,
  account, fee_amount, balancing_amount,
}
use urja_setu.Settlement.Reconciling.{IsReconciliation, IsAwaiting, reconcile-IsReconciliation}
use urja_setu.Settlement.Service.{
  build_request, settle_trade, forecast_quantity, is_reconciliation_refused, is_too_wide,
}
use urja_setu.Settlement.Store.{
  Resolvers, SettledTrade, OrderParty, Settlement, MeterReconciliation, Books, not_reconcilable,
  row_refused, calculator_failed,
}
use urja_setu.Settlement.Accounting.{settle_request-ledger_balances}
use urja_setu.Settlement.Ledger.{IsLedger, standing, settle_trade-IsLedger}
use urja_setu.Settlement.Outcomes.{
  standard_calculator-IsOfTrade, is_unstorable, settle_trade-measured, settle_trade-unmeasured,
}

abbrev measured : ActualEnergy
measured = record {
  window_start = 100;
  window_end = 200;
  quantity_kwh = some (decimal 32 1);
  reading_count = 4;
}

abbrev missing : ActualEnergy
missing = record { window_start = 100; window_end = 200; quantity_kwh = none; reading_count = 0 }

abbrev price : EffectivePrice
price = record { price = 50000; source_id = some 77; formula_version = some "1.0.0" }

abbrev trade : SettledTrade
trade = record {
  id = 5;
  buy_order_id = 1;
  sell_order_id = 2;
  quantity_kwh = 40000;
  delivery_start = 100;
  delivery_end = 200;
  grid_validation_id = none;
}

abbrev buyer : OrderParty
buyer = record { id = 1; user_id = 11; site_id = 21; forecast_basis_id = none }

abbrev seller : OrderParty
seller = record { id = 2; user_id = 12; site_id = 22; forecast_basis_id = none }

abbrev books : Books
books = record {
  trades = trade ∷ [];
  orders = buyer ∷ seller ∷ [];
  forecasts = [];
  reconciliations = [];
  settlements = [];
  events = [];
  notices = [];
  next_id = 100;
}

abbrev sources : ActualEnergy → Resolvers
sources actual = record {
  effective_price_for = λ _. some price;
  actual_energy_for = λ _ _ _. some actual;
}

abbrev request : ActualEnergy → SettlementRequest
request actual = record {
  trade_id = 5;
  buyer_user_id = 11;
  seller_user_id = 12;
  committed_kwh = decimal 40000 4;
  effective_price = price;
  delivery_start = 100;
  delivery_end = 200;
  actual = actual;
  forecast_kwh = none;
  forecast_basis_id = none;
  grid_validation_id = none;
}

-- 3.2 of 4 kWh at 5 rupees: 16 rupees for the energy, and 4 for what the grid supplied.
amounts :
    ((settle_request default_policy (request measured)).gross_inr ≡ pos 1600)
    × ((settle_request default_policy (request measured)).balancing_inr ≡ pos 400)
    × ((settle_request default_policy (request measured)).seller_credit_inr ≡ pos 1200)
unfolding settle_request settle_outcome reconcile reconcile_measured account gross_amount
    quantize_amount quantize mul quantize_energy balancing_amount is_within less ◌-ℤ◌ fee_amount
amounts = (refl, refl, refl)

found : find_row (λ (x : SettledTrade). x.id) 5 books.trades ≡ some trade
unfolding find_row
found = refl

built_measured : build_request (sources measured) trade books ≡ ok (request measured)
unfolding build_request find_row forecast_quantity
built_measured = refl

built_missing : build_request (sources missing) trade books ≡ ok (request missing)
unfolding build_request find_row forecast_quantity
built_missing = refl

reconcile-IsReconciliation_example :
    IsReconciliation default_policy
      (quantize_energy (decimal 40000 4))
      (some (decimal 32 1))
      (reconcile default_policy (decimal 40000 4) measured)
reconcile-IsReconciliation_example =
    reconcile-IsReconciliation default_policy (decimal 40000 4) measured

settle_request-ledger_balances_example :
    ledger_balances (settle_request default_policy (request measured)) ≡ true
settle_request-ledger_balances_example =
    settle_request-ledger_balances default_policy (request measured)

empty_books : IsLedger books
empty_books = record { accounted = tt; at_most_one = λ _. omega arith }

settle_trade-IsLedger_example :
    IsLedger
      (settle_trade (sources measured) (standard_calculator default_policy) 5 none 300 books).0
settle_trade-IsLedger_example =
    settle_trade-IsLedger (sources measured) (standard_calculator default_policy) 5 none 300 books
      (standard_calculator-IsOfTrade default_policy) empty_books

fits_columns :
    (is_imprecise (settle_request default_policy (request measured)) ≡ false)
    × (is_unstorable (settle_request default_policy (request measured)) ≡ false)
unfolding settle_request settle_outcome reconcile reconcile_measured account gross_amount
    quantize_amount quantize mul quantize_energy balancing_amount is_within less ◌-ℤ◌ fee_amount
    is_reconciliation_refused is_too_wide is_imprecise percent div any lines_of neg
fits_columns = (refl, refl)

settle_trade-measured_example :
    (row : Settlement) × (b' : Books) × (settle_trade
        (sources measured)
        (standard_calculator default_policy)
        5
        none
        300
        books
      ≡ (if is_imprecise (settle_request default_policy (request measured))
          then (books, err calculator_failed)
          else if is_unstorable (settle_request default_policy (request measured))
          then (books, err row_refused)
          else (b', ok row)))
    × (row.settled_kwh
        ≡ pos (min (quantize_energy (decimal 40000 4)) (quantize_energy (decimal 32 1))))
    × (row.gross_inr
        ≡ pos (
            gross_amount
              (min (quantize_energy (decimal 40000 4)) (quantize_energy (decimal 32 1)))
              50000))
    × (standing 5 b'.settlements ≡ 1)
settle_trade-measured_example =
    settle_trade-measured (sources measured) default_policy none 300 books found built_measured refl
      refl

settle_trade-unmeasured_example :
    ((settle_trade (sources missing) (standard_calculator default_policy) 5 none 300 books).1
      ≡ err not_reconcilable)
    × ((settle_trade
          (sources missing)
          (standard_calculator default_policy)
          5
          none
          300
          books).0.settlements
        ≡ [])
    × (row : MeterReconciliation) × ((settle_trade
          (sources missing)
          (standard_calculator default_policy)
          5
          none
          300
          books).0.reconciliations
        ≡ [] ++ row ∷ [])
    × IsAwaiting row.outcome
settle_trade-unmeasured_example =
    settle_trade-unmeasured (sources missing) default_policy none 300 books found built_missing refl
