-- ===== src/Settlement/Outcomes.antt =====
-- Settling a trade under the standard rules: `settle_trade` of
-- backend/app/services/settlement_service.py.
use urja_setu.Base.{
  some-injective, any, ℕ, Bool, Bool-cases, inl, inr, ◌||◌, if◌then◌else◌, ◌≡◌, refl, sym, ap, ◌∙◌,
  min, true, false, Option, none, some, [], ◌∷◌, ◌++◌, map, arith, ok, err, get_or, subst, ◌==◌,
  ==_self, sum_of-append,
}
use urja_setu.Base.Int.{ℤ, pos}
use urja_setu.Base.Decimal.{Decimal}
use urja_setu.Base.Rows.{find_row}
use urja_setu.Settlement.Contract.{
  SettlementRequest, SettlementResult, ReconciliationOutcome, is_complete,
}
use urja_setu.Settlement.Policy.{
  SettlementPolicy, quantize_energy, reconcile, reconcile_quantity, reconcile_measured,
  reconcile_unmeasured,
}
use urja_setu.Settlement.Calculator.{
  settle_request, is_imprecise, standard_calculator, settle_outcome, account, empty_result,
  gross_amount,
}
use urja_setu.Settlement.Reconciling.{IsAwaiting, IsReconciliation, reconcile-IsReconciliation}
use urja_setu.Settlement.Accounting.{settle_request-validate_result}
use urja_setu.Settlement.Service.{
  calculate, build_request, validate_result, supersede, new_settlement, record_settlement,
  finish_settlement, settle_calculated, settle_trade, record_reconciliation,
  is_reconciliation_refused, is_settlement_refused, is_too_wide, has_negative,
}
use urja_setu.Settlement.Store.{
  Resolvers, SettledTrade, Settlement, MeterReconciliation, Books, not_reconcilable, row_refused,
  calculator_failed,
}
use urja_setu.Settlement.Ledger.{
  IsOfTrade, standing, stands_for, standing-supersede, build_request-trade_id,
}
use Prim.Native.String.{len}

settle_outcome-trade_id :
    (policy : SettlementPolicy) (request : SettlementRequest) (o : ReconciliationOutcome)
    (q : Option ℤ)
    → (settle_outcome policy request o q).trade_id ≡ request.trade_id
unfolding settle_outcome account empty_result
settle_outcome-trade_id policy request o none = refl
settle_outcome-trade_id policy request o (some q) = refl

settle_outcome-reconciliation :
    (policy : SettlementPolicy) (request : SettlementRequest) (o : ReconciliationOutcome)
    (q : Option ℤ)
    → (settle_outcome policy request o q).reconciliation ≡ o
unfolding settle_outcome account empty_result
settle_outcome-reconciliation policy request o none = refl
settle_outcome-reconciliation policy request o (some q) = refl

pub standard_calculator-IsOfTrade :
    (policy : SettlementPolicy) → IsOfTrade (standard_calculator policy)
unfolding settle_request
standard_calculator-IsOfTrade policy request r h =
    elim (Bool-cases (is_imprecise (settle_request policy request))) [
      | inl long ↦ let e = rw long at h in absurd cc
      | inr precise ↦
          ap (λ (x : SettlementResult). x.trade_id) (sym (some-injective (rw precise at h)))
          ∙ settle_outcome-trade_id policy request _ _
    ]

-- What is known of the result of a measured delivery.
settle_request-measured :
    (policy : SettlementPolicy) (request : SettlementRequest) {quantity : Decimal}
    → request.actual.quantity_kwh ≡ some quantity
    → (is_complete (settle_request policy request).reconciliation.status ≡ true)
      × ((settle_request policy request).settled_kwh
          ≡ pos (min (quantize_energy request.committed_kwh) (quantize_energy quantity)))
      × ((settle_request policy request).gross_inr
          ≡ pos (
              gross_amount
                (min (quantize_energy request.committed_kwh) (quantize_energy quantity))
                request.effective_price.price))
unfolding settle_request settle_outcome account reconcile reconcile_quantity reconcile_measured
settle_request-measured policy request measured = rw measured (refl, refl, refl)

standing-record_settlement :
    (trade_id moment : ℕ) (r : SettlementResult) (b : Books)
    → r.trade_id ≡ trade_id
    → standing trade_id (record_settlement trade_id moment r b).1.settlements ≡ 1
unfolding record_settlement
standing-record_settlement trade_id moment r b same =
    let row = new_settlement r b.next_id moment in
    let sum =
      sum_of-append (stands_for trade_id) (map (supersede trade_id) b.settlements) (row ∷ []) in
    let left = standing-supersede trade_id trade_id b.settlements in
    ground (arith, sum, left, same, ==_self trade_id)

unmeasured-is_taken :
    (policy : SettlementPolicy) (request : SettlementRequest)
    → request.actual.quantity_kwh ≡ none
    → is_reconciliation_refused (reconcile policy request.committed_kwh request.actual) ≡ false
unfolding reconcile reconcile_quantity reconcile_unmeasured is_reconciliation_refused
unmeasured-is_taken policy request missing = rw missing refl

unmeasured-is_precise :
    (policy : SettlementPolicy) (request : SettlementRequest)
    → request.actual.quantity_kwh ≡ none
    → is_imprecise (settle_request policy request) ≡ false
unfolding settle_request settle_outcome empty_result reconcile reconcile_quantity
    reconcile_unmeasured is_imprecise any
unmeasured-is_precise policy request missing = rw missing refl

-- No amount of the standard rules is negative.
settle_outcome-has_negative :
    (policy : SettlementPolicy) (request : SettlementRequest) (o : ReconciliationOutcome)
    (q : Option ℤ)
    → has_negative (settle_outcome policy request o q) ≡ false
unfolding settle_outcome account empty_result has_negative
settle_outcome-has_negative policy request o none = refl
settle_outcome-has_negative policy request o (some q) = ground arith

settle_request-has_negative :
    (policy : SettlementPolicy) (request : SettlementRequest)
    → has_negative (settle_request policy request) ≡ false
unfolding settle_request
settle_request-has_negative policy request = settle_outcome-has_negative policy request _ _

-- A row of the two tables is too wide.
abbrev pub is_unstorable : SettlementResult → Bool
is_unstorable r = is_reconciliation_refused r.reconciliation || is_too_wide r

settle_request-unmeasured :
    (policy : SettlementPolicy) (request : SettlementRequest)
    → request.actual.quantity_kwh ≡ none
    → (is_complete (settle_request policy request).reconciliation.status ≡ false)
      × IsAwaiting (settle_request policy request).reconciliation
      × (is_reconciliation_refused (settle_request policy request).reconciliation ≡ false)
unfolding settle_request
settle_request-unmeasured policy request missing =
    let awaiting : IsAwaiting (reconcile policy request.committed_kwh request.actual) =
      subst
        (λ q.
          IsReconciliation policy (quantize_energy request.committed_kwh) q
            (reconcile policy request.committed_kwh request.actual))
        missing (reconcile-IsReconciliation policy request.committed_kwh request.actual) in
    let kept =
      settle_outcome-reconciliation policy request
        (reconcile policy request.committed_kwh request.actual)
        (reconcile policy request.committed_kwh request.actual).settled_kwh in
    (
      ap (λ (o : ReconciliationOutcome). is_complete o.status) kept
          ∙ ap is_complete awaiting.open_question,
      subst IsAwaiting (sym kept) awaiting,
      ap is_reconciliation_refused kept ∙ unmeasured-is_taken policy request missing,
    )

settle_calculated_complete :
    (trade_id now moment : ℕ) (b : Books) (r : SettlementResult)
    → is_complete r.reconciliation.status ≡ true
    → validate_result r ≡ ok tt
    → has_negative r ≡ false
    → settle_calculated trade_id now moment b (ok r) ≡ (
        if is_unstorable r then (b, err row_refused) else (
          (record_settlement trade_id moment r (record_reconciliation trade_id now r b).1).1,
          ok (record_settlement trade_id moment r (record_reconciliation trade_id now r b).1).0,
        ))
unfolding settle_calculated finish_settlement is_settlement_refused
settle_calculated_complete trade_id now moment b r complete valid signs =
    elim (Bool-cases (is_reconciliation_refused r.reconciliation)) [
      | inl refused ↦ rw refused refl
      | inr taken ↦ elim (Bool-cases (is_too_wide r)) [
        | inl over ↦ rw (taken, over, complete, valid, over) refl
        | inr fits ↦ rw (taken, fits, complete, valid, fits, signs) refl
      ]
    ]

settle_calculated-open :
    (trade_id now moment : ℕ) (b : Books) (r : SettlementResult)
    → is_complete r.reconciliation.status ≡ false
    → is_reconciliation_refused r.reconciliation ≡ false
    → settle_calculated trade_id now moment b (ok r)
      ≡ ((record_reconciliation trade_id now r b).1, err not_reconcilable)
unfolding settle_calculated
settle_calculated-open trade_id now moment b r still_open taken = rw (taken, still_open) refl

module _ (res : Resolvers) (policy : SettlementPolicy) (at : Option ℕ) (now : ℕ) (b : Books)
    {t : SettledTrade} {request : SettlementRequest}
    (found : find_row (λ (x : SettledTrade). x.id) t.id b.trades ≡ some t)
    (built : build_request res t b ≡ ok request) where
  calculate-standard :
      is_imprecise (settle_request policy request) ≡ false
      → calculate res (standard_calculator policy) t.id b ≡ ok (settle_request policy request)
  unfolding calculate
  calculate-standard precise = rw (found, built, precise) refl

  settle_trade-imprecise :
      is_imprecise (settle_request policy request) ≡ true
      → settle_trade res (standard_calculator policy) t.id at now b ≡ (b, err calculator_failed)
  unfolding calculate settle_trade settle_calculated
  settle_trade-imprecise long = rw (found, built, long) refl

  -- Settling a trade whose delivery is measured, under the standard rules and a policy with a
  -- version, fails and changes nothing where a number has more than 28 digits or a row does not fit
  -- its columns; otherwise the trade is settled, for the delivered energy up to the commitment, at the effective price, and
  -- afterwards exactly one settlement stands for it.
  pub settle_trade-measured :
      {quantity : Decimal}
      → (len policy.policy_version == 0) ≡ false
      → request.actual.quantity_kwh ≡ some quantity
      → (row : Settlement) × (b' : Books) × (settle_trade res
            (standard_calculator policy)
            t.id
            at
            now
            b
          ≡ (if is_imprecise (settle_request policy request)
              then (b, err calculator_failed)
              else if is_unstorable (settle_request policy request)
              then (b, err row_refused)
              else (b', ok row)))
        × (row.settled_kwh
            ≡ pos (min (quantize_energy request.committed_kwh) (quantize_energy quantity)))
        × (row.gross_inr
            ≡ pos (
                gross_amount
                  (min (quantize_energy request.committed_kwh) (quantize_energy quantity))
                  request.effective_price.price))
        × (standing t.id b'.settlements ≡ 1)
  unfolding settle_trade record_settlement settle_request
  settle_trade-measured named measured =
      let r = settle_request policy request in
      let (complete, amount, money) = settle_request-measured policy request measured in
      let valid = settle_request-validate_result policy request named measured in
      let recorded = (record_reconciliation t.id now r b).1 in
      let moment = get_or at now in
      let of_trade : r.trade_id ≡ t.id =
        settle_outcome-trade_id policy request _ _ ∙ build_request-trade_id res t b built in
      let run =
        settle_calculated_complete t.id now moment b r complete valid
          (settle_request-has_negative policy request) in
      (
        (record_settlement t.id moment r recorded).0,
        (record_settlement t.id moment r recorded).1,
        elim (Bool-cases (is_imprecise r)) [
          | inl long ↦ rw long (settle_trade-imprecise long)
          | inr precise ↦
              rw precise
                (ap (settle_calculated t.id now moment b) (calculate-standard precise) ∙ run)
        ],
        amount,
        money,
        standing-record_settlement t.id moment r recorded of_trade,
      )

  -- A trade whose delivery is not measured is refused under the standard rules: no settlement is
  -- written or changed, and one more reconciliation says that the question is open.
  pub settle_trade-unmeasured :
      request.actual.quantity_kwh ≡ none
      → ((settle_trade res (standard_calculator policy) t.id at now b).1 ≡ err not_reconcilable)
        × ((settle_trade res (standard_calculator policy) t.id at now b).0.settlements
            ≡ b.settlements)
        × (row : MeterReconciliation) × ((settle_trade res
              (standard_calculator policy)
              t.id
              at
              now
              b).0.reconciliations
            ≡ b.reconciliations ++ row ∷ [])
        × IsAwaiting row.outcome
  unfolding settle_trade record_reconciliation
  settle_trade-unmeasured missing =
      let r = settle_request policy request in
      let (still_open, awaiting, taken) = settle_request-unmeasured policy request missing in
      let recorded = (record_reconciliation t.id now r b).1 in
      let run : settle_trade res (standard_calculator policy) t.id at now b
          ≡ (recorded, err not_reconcilable) =
        ap (settle_calculated t.id now (get_or at now) b)
          (calculate-standard (unmeasured-is_precise policy request missing))
        ∙ settle_calculated-open t.id now (get_or at now) b r still_open taken in
      (
        ap (λ p. p.1) run,
        ap (λ p. p.0.settlements) run,
        (record_reconciliation t.id now r b).0,
        ap (λ p. p.0.reconciliations) run,
        awaiting,
      )
