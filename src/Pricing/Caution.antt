-- ===== src/Pricing/Caution.antt =====
-- The recommendation for a stored trade: `quote_trade` of backend/app/services/pricing_service.py
-- with the standard engine, over the validation runs of the grid.
use urja_setu.Base.{
  ℕ, ◌≤◌, ◌≡◌, ◌≢◌, ◌⊎◌, refl, sym, ap, ◌∙◌, true, Bool-cases, inl, inr, ==→eq, Option-cases, some,
  some-injective, List, arith, In, All, All-map, All-filter, In-All, In-filter, filter, ok,
  >>=-eq-ok, or_raise, or_raise-eq-ok, ok-injective, ==_self, All-In,
}
use urja_setu.Base.Rows.{find_row, find_row-In}
use urja_setu.Base.Sorting.{first_by-least}
use urja_setu.Grid.Contract.{GridValidationStatus, safe, unsafe, unknown, reject, permits_trade}
use urja_setu.Grid.Service.{GridValidationRun}
use urja_setu.Pricing.Contract.{PricingRequest, PricingResult, PricingEngine}
use urja_setu.Pricing.Policy.{PricingParameters}
use urja_setu.Pricing.Engine.{priced, component_engine}
use urja_setu.Pricing.Quoting.{recommend-of_unsafe, quote-eq-priced}
use urja_setu.Pricing.Store.{PricedTrade, PriceBooks}
use urja_setu.Grid.Trades.{is_run_of, is_later, latest_run}
use urja_setu.Pricing.Assembly.{cited_run, run_for, grid_state, build_request}
use urja_setu.Pricing.Breakdowns.{reraised-eq-ok}
use urja_setu.Pricing.Check.{engine_failed, validate_result}
use urja_setu.Pricing.Service.{quote, quote_trade, get_trade}

-- A run that found the network safe, which the trade cites, or which is the trade's own with no
-- later run of it.
pub record IsBacked (t : PricedTrade) (runs : List GridValidationRun) : Type 0 where
  pub run : GridValidationRun
  pub recorded : In run runs
  pub found_safe : run.status ≡ safe
  pub counts :
      (t.grid_validation_id ≡ some run.id)
      ⊎ ((run.trade_id ≡ some t.id)
          × All
              (λ (r : GridValidationRun). r.trade_id ≡ some t.id → r.created_at ≤ run.created_at)
              runs)

is_run_of→eq : (id : ℕ) (r : GridValidationRun) → is_run_of id r ≡ true → r.trade_id ≡ some id
is_run_of→eq id r h = elim (Option-cases (r.trade_id)) [
  | inl none_there ↦ let e = rw none_there at h in absurd cc
  | inr (other, is) ↦ is ∙ ap some (==→eq other id (rw is at h))
]

is_run_of_eq : (id : ℕ) (r : GridValidationRun) → r.trade_id ≡ some id → is_run_of id r ≡ true
is_run_of_eq id r h = rw h (==_self id)

latest_run-least :
    (id : ℕ) (runs : List GridValidationRun) {run : GridValidationRun}
    → latest_run id runs ≡ some run
    → In run runs
      × (run.trade_id ≡ some id)
      × All (λ (r : GridValidationRun). r.trade_id ≡ some id → r.created_at ≤ run.created_at) runs
unfolding latest_run
latest_run-least id runs {run} h =
    let (m, least) =
      first_by-least is_later (λ x y. ground arith) (λ x y z. ground arith) (λ x. ground arith)
        (filter (is_run_of id) runs) h in
    let kept = All-In _ (All-filter (λ r. In r runs) (is_run_of id) runs (In-All runs)) m in
    (
      kept.0,
      is_run_of→eq id run kept.1,
      All-map _ _ runs
          (λ r there own.
            let late =
              All-In _ least (In-filter (is_run_of id) runs (is_run_of_eq id r own) there) in
            ground arith)
          (In-All runs),
    )

cited_run-In :
    (t : PricedTrade) (runs : List GridValidationRun) {run : GridValidationRun}
    → cited_run t runs ≡ some run
    → (t.grid_validation_id ≡ some run.id) × In run runs
unfolding cited_run
cited_run-In t runs h = elim (Option-cases (t.grid_validation_id)) [
  | inl uncited ↦ let e = rw uncited at h in absurd cc
  | inr (id, cites) ↦
      let (same, m) = find_row-In (λ (r : GridValidationRun). r.id) id runs (rw cites at h) in
      (cites ∙ ap some (sym same), m)
]

run_for-IsBacked :
    (t : PricedTrade) (runs : List GridValidationRun) {run : GridValidationRun}
    → run_for t runs ≡ some run
    → run.status ≡ safe
    → IsBacked t runs
unfolding run_for cited_run
run_for-IsBacked t runs {run} h found_safe = elim (Option-cases (cited_run t runs)) [
  | inl uncited ↦
      let (m, own, latest) = latest_run-least t.id runs (rw (run_for, uncited) at h) in
      record { run = run; recorded = m; found_safe = found_safe; counts = inr (own, latest) }
  | inr (cited, e) ↦
      let same : cited ≡ run = some-injective (rw (run_for, e) at h) in
      let (names, m) = cited_run-In t runs (e ∙ ap some same) in
      record { run = run; recorded = m; found_safe = found_safe; counts = inl names }
]

permitted : (status : GridValidationStatus) → permits_trade status ≡ true → status ≡ safe
unfolding permits_trade
permitted safe h = refl
permitted unsafe h = absurd cc
permitted unknown h = absurd cc

grid_state-IsBacked :
    (t : PricedTrade) (runs : List GridValidationRun)
    → (grid_state t runs).status ≡ safe
    → IsBacked t runs
unfolding grid_state
grid_state-IsBacked t runs h = elim (Option-cases (run_for t runs)) [
  | inl unjudged ↦ let e = rw unjudged at h in absurd cc
  | inr (run, judged) ↦ run_for-IsBacked t runs judged (rw judged at h)
]

quote-answered :
    (engine : PricingEngine) (r : PricingRequest) {q : PricingResult}
    → quote engine r ≡ ok q
    → engine.quote r ≡ some q
unfolding quote
quote-answered engine r h =
    let (answer, answered, h1) = >>=-eq-ok (or_raise (engine.quote r) engine_failed) _ h in
    let (_, _, same) = >>=-eq-ok (validate_result answer) _ h1 in
    or_raise-eq-ok _ _ answered ∙ ap some (ok-injective same)

quote-recommends :
    (p : PricingParameters) (r : PricingRequest) {q : PricingResult}
    → quote (component_engine p) r ≡ ok q
    → q.recommended_decision ≢ reject
    → r.grid_status ≡ safe
unfolding component_engine priced
quote-recommends p r {q} h open_to = elim (Bool-cases (permits_trade r.grid_status)) [
  | inl permits ↦ permitted r.grid_status permits
  | inr barred ↦
      let same = quote-eq-priced p r (quote-answered (component_engine p) r h) in
      absurd (
        open_to (
          ap (λ (x : PricingResult). x.recommended_decision) same
          ∙ recommend-of_unsafe r.grid_status (priced p r).base_market_price
              (priced p r).congestion_component p barred))
]

-- Where the standard engine prices a stored trade and does not recommend to reject it, a run of
-- the books found its network safe: the run that the trade cites, or else a run of this trade
-- than which no run of it is later.
pub quote_trade-IsBacked :
    (p : PricingParameters) (b : PriceBooks) (trade_id : ℕ) {q : PricingResult}
    → quote_trade (component_engine p) b trade_id ≡ ok q
    → q.recommended_decision ≢ reject
    → (t : PricedTrade) × (find_row (λ (x : PricedTrade). x.id) trade_id b.trades ≡ some t)
      × IsBacked t b.validations
unfolding quote_trade get_trade build_request
quote_trade-IsBacked p b trade_id h open_to =
    let (t, found, h1) = >>=-eq-ok (get_trade b trade_id) _ h in
    (
      t,
      or_raise-eq-ok _ _ found,
      grid_state-IsBacked t b.validations
          (quote-recommends p (build_request b t) (reraised-eq-ok _ h1) open_to),
    )
