-- ===== src/Settlement/Service.antt =====
-- The settlement service (backend/app/services/settlement_service.py): reconciling and settling a
-- trade as transactions on the ledger's rows. The sources of the price and of the measured energy
-- and the calculator are parameters of each call, as in the code.
use urja_setu.Base.{
  ℕ, ◌+◌, Bool, leb, true, not, ◌&&◌, ◌||◌, Option, none, some, List, [], ◌∷◌, ◌++◌, map, is_empty,
  ltb, ◌==◌, Result, ok, err, ◌>>=◌, ◌>>◌, raise_if, or_raise, if◌then◌else◌, get_or, sum_of,
}
use urja_setu.Base.Decimal.{Decimal, decimal}
use urja_setu.Base.Int.{ℤ, pos, abs, ltb_ℤ}
use urja_setu.Base.Rows.{find_row}
use urja_setu.Settlement.Contract.{
  is_complete, settled, superseded, is_settled, ReconciliationOutcome, SettlementRequest,
  SettlementResult, ledger_balances, SettlementCalculator,
}
use Prim.Native.String.{len}
use urja_setu.Settlement.Store.{
  SettledTrade, OrderParty, ForecastPoint, MeterReconciliation, Settlement, Books, SettlementError,
  Resolvers, trade_reconciled, trade_settled, reconciliation_updated, settlement_updated,
  trade_not_found, orders_missing, price_unknown, energy_unknown, calculator_failed, unbalanced,
  negative_amount, unreconciled, no_policy_version, not_reconcilable, row_refused,
}

-- The predicted energy of a point that meets the delivery window.
abbrev pub covers : SettledTrade → ForecastPoint → Bool
covers t p = ltb p.interval_start t.delivery_end && ltb t.delivery_start p.interval_end

unfoldable pub predictions : ℕ → SettledTrade → List ForecastPoint → List ℕ
predictions run t [] = []
predictions run t (p ∷ points) =
    let rest = predictions run t points in
    elim p.predicted_kwh [
      | none ↦ rest
      | some kwh ↦ if (p.run_id == run) && covers t p then kwh ∷ rest else rest
    ]

-- `_forecast_quantity`
unfoldable pub forecast_quantity : OrderParty → SettledTrade → List ForecastPoint → Option Decimal
forecast_quantity o t points = elim o.forecast_basis_id [
  | none ↦ none
  | some run ↦
      let covering = predictions run t points in
      if is_empty covering then none else some (decimal (sum_of (λ kwh. kwh) covering) 4)
]

unfoldable pub build_request :
    Resolvers → SettledTrade → Books → Result SettlementError SettlementRequest
build_request res t b = do
  bought ← or_raise (find_row (λ (o : OrderParty). o.id) t.buy_order_id b.orders) orders_missing
  sold ← or_raise (find_row (λ (o : OrderParty). o.id) t.sell_order_id b.orders) orders_missing
  price ← or_raise (res.effective_price_for t.id) price_unknown
  actual ←
      or_raise (res.actual_energy_for sold.site_id t.delivery_start t.delivery_end) energy_unknown
  ok (record {
    trade_id = t.id;
    buyer_user_id = bought.user_id;
    seller_user_id = sold.user_id;
    committed_kwh = decimal t.quantity_kwh 4;
    effective_price = price;
    delivery_start = t.delivery_start;
    delivery_end = t.delivery_end;
    actual = actual;
    forecast_kwh = forecast_quantity sold t b.forecasts;
    forecast_basis_id = sold.forecast_basis_id;
    grid_validation_id = t.grid_validation_id;
  })

-- `_calculate`
unfoldable pub calculate :
    Resolvers → SettlementCalculator → ℕ → Books → Result SettlementError SettlementResult
calculate res calc trade_id b = do
  t ← or_raise (find_row (λ (x : SettledTrade). x.id) trade_id b.trades) trade_not_found
  request ← build_request res t b
  or_raise (calc.settle request) calculator_failed

-- An energy and an amount that do not fit their columns: of fourteen digits, four of them decimal,
-- and of sixteen, two of them decimal.
abbrev pub is_wide_energy : ℤ → Bool
is_wide_energy kwh = leb 100000000000000 (abs kwh)

abbrev pub is_wide_amount : ℤ → Bool
is_wide_amount inr = leb 10000000000000000 (abs inr)

unfoldable pub is_measurement_refused :
    (actual_kwh deviation_kwh : Option ℤ) → (within_tolerance : Bool) → Bool
is_measurement_refused none none within = within
is_measurement_refused (some actual) (some deviation) within =
    is_wide_energy actual || (ltb_ℤ actual (pos 0) || is_wide_energy deviation)
is_measurement_refused _ _ within = true

-- The table of reconciliations does not take the row. The committed energy is that of the trade,
-- whose own column is no wider and refuses what is not positive.
unfoldable pub is_reconciliation_refused : ReconciliationOutcome → Bool
unfolding is_measurement_refused
is_reconciliation_refused o =
    is_measurement_refused o.actual_kwh o.deviation_kwh o.within_tolerance
    || (is_wide_energy o.balancing_kwh || ltb_ℤ o.balancing_kwh (pos 0))

unfoldable pub is_too_wide : SettlementResult → Bool
is_too_wide r =
    is_wide_energy r.settled_kwh
    || (is_wide_amount r.gross_inr
        || (is_wide_amount r.fee_inr
            || (is_wide_amount r.balancing_inr
                || (is_wide_amount r.seller_credit_inr || is_wide_amount r.buyer_debit_inr))))

unfoldable pub has_negative : SettlementResult → Bool
has_negative r =
    ltb_ℤ r.settled_kwh (pos 0)
    || (ltb_ℤ r.gross_inr (pos 0)
        || (ltb_ℤ r.fee_inr (pos 0)
            || (ltb_ℤ r.balancing_inr (pos 0) || ltb_ℤ r.buyer_debit_inr (pos 0))))

-- The table of settlements does not take the row; that its sides agree is checked before.
unfoldable pub is_settlement_refused : SettlementResult → Bool
unfolding is_too_wide has_negative
is_settlement_refused r = is_too_wide r || has_negative r

-- `_record_reconciliation`
unfoldable pub record_reconciliation :
    (trade_id now : ℕ) → SettlementResult → Books → MeterReconciliation × Books
record_reconciliation trade_id now r b =
    let row : MeterReconciliation = record {
      id = b.next_id;
      trade_id = trade_id;
      outcome = r.reconciliation;
      created_at = now;
    } in
    (
      row,
      record b {
        reconciliations = b.reconciliations ++ row ∷ [];
        events = b.events ++ trade_reconciled row r.forecast_basis_id ∷ [];
        next_id = b.next_id + 1;
      },
    )

unfoldable pub reconcile_trade :
    Resolvers
    → SettlementCalculator
    → (trade_id now : ℕ) → Books
    → Result SettlementError (MeterReconciliation × Books)
unfolding calculate record_reconciliation is_reconciliation_refused
reconcile_trade res calc trade_id now b = do
  r ← calculate res calc trade_id b
  raise_if (is_reconciliation_refused r.reconciliation) row_refused
  let (row, b') = record_reconciliation trade_id now r b
  ok (row, record b' { notices = b'.notices ++ reconciliation_updated row ∷ [] })

-- `_validate_result`
unfoldable pub validate_result : SettlementResult → Result SettlementError (Unit {0})
validate_result r = do
  raise_if (not (ledger_balances r)) unbalanced
  raise_if (ltb_ℤ r.settled_kwh (pos 0) || ltb_ℤ r.gross_inr (pos 0)) negative_amount
  raise_if (not (is_complete r.reconciliation.status)) unreconciled
  raise_if (len r.policy_version == 0) no_policy_version

-- A standing settlement of the trade is superseded.
unfoldable pub supersede : ℕ → Settlement → Settlement
supersede trade_id s =
    if (s.trade_id == trade_id) && is_settled s.status then record s { status = superseded } else s

abbrev pub new_settlement : SettlementResult → (id moment : ℕ) → Settlement
new_settlement r id moment = record {
  id = id;
  trade_id = r.trade_id;
  buyer_user_id = r.buyer_user_id;
  seller_user_id = r.seller_user_id;
  settled_kwh = r.settled_kwh;
  gross_inr = r.gross_inr;
  fee_inr = r.fee_inr;
  balancing_inr = r.balancing_inr;
  seller_credit_inr = r.seller_credit_inr;
  buyer_debit_inr = r.buyer_debit_inr;
  status = settled;
  settled_at = moment;
}

-- What a settlement writes after its reconciliation.
unfoldable pub record_settlement :
    (trade_id moment : ℕ) → SettlementResult → Books → Settlement × Books
record_settlement trade_id moment r b =
    let row = new_settlement r b.next_id moment in
    (
      row,
      record b {
        settlements = map (supersede trade_id) b.settlements ++ row ∷ [];
        events = b.events ++ trade_settled row r ∷ [];
        notices = b.notices ++ settlement_updated row ∷ [];
        next_id = b.next_id + 1;
      },
    )

-- The end of `settle_trade`, from the check on: where it raises, nothing of the call is kept.
unfoldable pub finish_settlement :
    (trade_id moment : ℕ)
    → SettlementResult
    → (before recorded : Books) → Result SettlementError (Unit {0})
    → Books × Result SettlementError Settlement
finish_settlement trade_id moment r before recorded (err e) = (before, err e)
finish_settlement trade_id moment r before recorded (ok _) =
    let (row, after) = record_settlement trade_id moment r recorded in
    if is_settlement_refused r then (before, err row_refused) else (after, ok row)

-- `settle_trade` once the calculation has answered. A trade whose energy is not measured is
-- refused, and the reconciliation is kept.
unfoldable pub settle_calculated :
    (trade_id now moment : ℕ)
    → Books
    → Result SettlementError SettlementResult
    → Books × Result SettlementError Settlement
settle_calculated trade_id now moment b (err e) = (b, err e)
settle_calculated trade_id now moment b (ok r) =
    let recorded = (record_reconciliation trade_id now r b).1 in
    if is_reconciliation_refused r.reconciliation
    then (b, err row_refused)
    else if not (is_complete r.reconciliation.status)
    then (recorded, err not_reconcilable)
    else finish_settlement trade_id moment r b recorded (validate_result r)

-- The books afterwards, and the new row or what was raised.
unfoldable pub settle_trade :
    Resolvers
    → SettlementCalculator
    → (trade_id : ℕ) → (at : Option ℕ) → (now : ℕ) → Books
    → Books × Result SettlementError Settlement
settle_trade res calc trade_id at now b =
    settle_calculated trade_id now (get_or at now) b (calculate res calc trade_id b)
