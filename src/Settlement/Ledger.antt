-- ===== src/Settlement/Ledger.antt =====
-- The settlements on the books, whatever calculator computed them: `settle_trade` of
-- backend/app/services/settlement_service.py.
use urja_setu.Base.{
  ℕ, ◌+◌, ◌≤◌, ◌≡◌, refl, sym, ap, ◌∙◌, inl, inr, true, not, ◌&&◌, Option, some, List, [], ◌∷◌, map,
  arith, All, All-map, All-append, ok, err, Result, raise_if-eq-ok, or_raise-eq-ok, ok-injective,
  >>=-eq-ok, Bool-cases, if◌then◌else◌, ◌==◌, ==→eq, or_raise, sum_of, sum_of-append, get_or,
}
use urja_setu.Base.Int.{ℤ, pos, ◌+ℤ◌, ◌≤ℤ◌, eqb_ℤ, eq_of_parts, pos_part, neg_part}
use urja_setu.Base.Rows.{find_row, find_row-In}
use urja_setu.Base.Unique.{All-of-map}
use urja_setu.Settlement.Contract.{
  SettlementRequest, SettlementResult, SettlementCalculator, ledger_balances, platform_retained_inr,
  is_complete, is_settled,
}
use urja_setu.Settlement.Service.{
  calculate, build_request, validate_result, supersede, new_settlement, record_settlement,
  finish_settlement, settle_calculated, settle_trade, record_reconciliation,
  is_reconciliation_refused, is_settlement_refused,
}
use urja_setu.Settlement.Store.{
  Resolvers, SettledTrade, OrderParty, Settlement, Books, SettlementError, trade_not_found,
  orders_missing, price_unknown, energy_unknown,
}

-- A settlement whose two sides agree, of amounts that are not negative.
pub record IsAccounted (s : Settlement) : Type 0 where
  pub balanced : s.buyer_debit_inr ≡ s.seller_credit_inr +ℤ (s.fee_inr +ℤ s.balancing_inr)
  pub some_energy : pos 0 ≤ℤ s.settled_kwh
  pub some_gross : pos 0 ≤ℤ s.gross_inr

-- One for a settlement that stands for the trade.
abbrev pub stands_for : ℕ → Settlement → ℕ
stands_for trade_id s = if (s.trade_id == trade_id) && is_settled s.status then 1 else 0

-- How many settlements stand for a trade.
abbrev pub standing : ℕ → List Settlement → ℕ
standing trade_id rows = sum_of (stands_for trade_id) rows

pub record IsLedger (b : Books) : Type 0 where
  pub accounted : All IsAccounted b.settlements
  pub at_most_one : (trade_id : ℕ) → standing trade_id b.settlements ≤ 1

-- A calculator answers for the trade that it is asked about.
abbrev pub IsOfTrade : SettlementCalculator → Type 0
IsOfTrade calc =
    (request : SettlementRequest) (r : SettlementResult)
    → calc.settle request ≡ some r
    → r.trade_id ≡ request.trade_id

eqb_ℤ-eq : (a b : ℤ) → eqb_ℤ a b ≡ true → a ≡ b
eqb_ℤ-eq a b h = eq_of_parts a b (==→eq (pos_part a + neg_part b) (pos_part b + neg_part a) h)

validate_result-IsAccounted :
    (r : SettlementResult) (id moment : ℕ)
    → validate_result r ≡ ok tt
    → IsAccounted (new_settlement r id moment)
unfolding validate_result ledger_balances platform_retained_inr
validate_result-IsAccounted r id moment h =
    let (balances, rest) = raise_if-eq-ok (not (ledger_balances r)) _ _ h in
    record {
      balanced =
          eqb_ℤ-eq r.buyer_debit_inr (r.seller_credit_inr +ℤ platform_retained_inr r)
            (ground arith);
      some_energy = ground arith;
      some_gross = ground arith;
    }

supersede-IsAccounted : (k : ℕ) (s : Settlement) → IsAccounted s → IsAccounted (supersede k s)
unfolding supersede
supersede-IsAccounted k s h = elim (Bool-cases ((s.trade_id == k) && is_settled s.status)) [
  | inl stood ↦
      rw stood
        (record { balanced = h.balanced; some_energy = h.some_energy; some_gross = h.some_gross })
  | inr stays ↦ rw stays h
]

-- Superseding takes every standing settlement of the trade, and none of another.
pub standing-supersede :
    (t k : ℕ) (rows : List Settlement)
    → standing t (map (supersede k) rows) ≡ (if t == k then 0 else standing t rows)
unfolding supersede
standing-supersede t k [] = ground arith
standing-supersede t k (s ∷ rows) =
    let rest = standing-supersede t k rows in
    elim (Bool-cases ((s.trade_id == k) && is_settled s.status)) [
      | inl stood ↦ rw stood (ground (arith, rest, stood))
      | inr stays ↦ rw stays (ground (arith, rest, stays))
    ]

record_settlement-IsLedger :
    (trade_id moment : ℕ) (r : SettlementResult) (b : Books)
    → r.trade_id ≡ trade_id
    → validate_result r ≡ ok tt
    → IsLedger b
    → IsLedger (record_settlement trade_id moment r b).1
unfolding record_settlement
record_settlement-IsLedger trade_id moment r b same valid h =
    let row = new_settlement r b.next_id moment in
    let old = map (supersede trade_id) b.settlements in
    record {
      accounted =
          All-append IsAccounted old (row ∷ [])
            (All-of-map (supersede trade_id) IsAccounted b.settlements (
              All-map IsAccounted (λ s. IsAccounted (supersede trade_id s)) b.settlements
                (supersede-IsAccounted trade_id) h.accounted))
            (validate_result-IsAccounted r b.next_id moment valid, tt);
      at_most_one = λ t.
          let sum = sum_of-append (stands_for t) old (row ∷ []) in
          let left = standing-supersede t trade_id b.settlements in
          let bound = h.at_most_one t in ground (arith, sum, left, bound, same);
    }

pub build_request-trade_id :
    (res : Resolvers) (t : SettledTrade) (b : Books) {request : SettlementRequest}
    → build_request res t b ≡ ok request
    → request.trade_id ≡ t.id
unfolding build_request
build_request-trade_id res t b built =
    let (_, _, built) =
      >>=-eq-ok
        (or_raise (find_row (λ (o : OrderParty). o.id) t.buy_order_id b.orders) orders_missing) _
        built in
    let (sold, _, built) =
      >>=-eq-ok
        (or_raise (find_row (λ (o : OrderParty). o.id) t.sell_order_id b.orders) orders_missing) _
        built in
    let (_, _, built) = >>=-eq-ok (or_raise (res.effective_price_for t.id) price_unknown) _ built in
    let (_, _, built) =
      >>=-eq-ok
        (or_raise (res.actual_energy_for sold.site_id t.delivery_start t.delivery_end)
          energy_unknown)
        _ built in
    ap (λ (x : SettlementRequest). x.trade_id) (sym (ok-injective built))

calculate-trade_id :
    (res : Resolvers) (calc : SettlementCalculator) (trade_id : ℕ) (b : Books)
    {r : SettlementResult}
    → IsOfTrade calc
    → calculate res calc trade_id b ≡ ok r
    → r.trade_id ≡ trade_id
unfolding calculate
calculate-trade_id res calc trade_id b {r} of_trade h =
    let (t, found, h) =
      >>=-eq-ok (or_raise (find_row (λ (x : SettledTrade). x.id) trade_id b.trades) trade_not_found)
        _ h in
    let (request, built, h) = >>=-eq-ok (build_request res t b) _ h in
    let key =
      (find_row-In (λ (x : SettledTrade). x.id) trade_id b.trades (or_raise-eq-ok _ _ found)).0 in
    of_trade request r (or_raise-eq-ok (calc.settle request) _ h)
    ∙ build_request-trade_id res t b built
    ∙ key

record_reconciliation-IsLedger :
    (trade_id now : ℕ) (r : SettlementResult) (b : Books)
    → IsLedger b
    → IsLedger (record_reconciliation trade_id now r b).1
unfolding record_reconciliation
record_reconciliation-IsLedger trade_id now r b h = record {
  accounted = h.accounted;
  at_most_one = h.at_most_one;
}

finish_settlement-IsLedger :
    (trade_id moment : ℕ) (r : SettlementResult) (before recorded : Books)
    (checked : Result SettlementError (Unit {0}))
    → validate_result r ≡ checked
    → r.trade_id ≡ trade_id
    → IsLedger before
    → IsLedger recorded
    → IsLedger (finish_settlement trade_id moment r before recorded checked).0
unfolding finish_settlement
finish_settlement-IsLedger trade_id moment r before recorded (err e) eq same h k = h
finish_settlement-IsLedger trade_id moment r before recorded (ok _) eq same h k =
    elim (Bool-cases (is_settlement_refused r)) [
      | inl refused ↦ rw refused h
      | inr taken ↦ rw taken (record_settlement-IsLedger trade_id moment r recorded same eq k)
    ]

settle_calculated-IsLedger :
    (trade_id now moment : ℕ) (b : Books) (calculated : Result SettlementError SettlementResult)
    → ((r : SettlementResult) → calculated ≡ ok r → r.trade_id ≡ trade_id)
    → IsLedger b
    → IsLedger (settle_calculated trade_id now moment b calculated).0
unfolding settle_calculated
settle_calculated-IsLedger trade_id now moment b (err e) of_trade h = h
settle_calculated-IsLedger trade_id now moment b (ok r) of_trade h =
    let recorded = (record_reconciliation trade_id now r b).1 in
    let k = record_reconciliation-IsLedger trade_id now r b h in
    elim (Bool-cases (is_reconciliation_refused r.reconciliation)) [
      | inl refused ↦ rw refused h
      | inr taken ↦ elim (Bool-cases (is_complete r.reconciliation.status)) [
        | inl complete ↦
            rw (taken, complete)
              (finish_settlement-IsLedger trade_id moment r b recorded (validate_result r) refl
                (of_trade r refl) h k)
        | inr open_still ↦ rw (taken, open_still) k
      ]
    ]

-- With any calculator that answers for the trade it is asked about, and any sources of prices and
-- measurements, settling a trade keeps the ledger: the two sides of every settlement agree, no
-- settled energy or gross amount is negative, and at most one settlement stands for a trade.
pub settle_trade-IsLedger :
    (res : Resolvers) (calc : SettlementCalculator) (trade_id : ℕ) (at : Option ℕ) (now : ℕ)
    (b : Books)
    → IsOfTrade calc
    → IsLedger b
    → IsLedger (settle_trade res calc trade_id at now b).0
unfolding settle_trade
settle_trade-IsLedger res calc trade_id at now b of_trade h =
    settle_calculated-IsLedger trade_id now (get_or at now) b (calculate res calc trade_id b)
      (λ r answered. calculate-trade_id res calc trade_id b of_trade answered) h
