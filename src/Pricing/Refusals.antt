-- ===== src/Pricing/Refusals.antt =====
-- What the table of breakdowns refuses of the answers that pass the check: `price_trade` of
-- backend/app/services/pricing_service.py over backend/app/db/models/pricing.py.
use urja_setu.Base.{
  ℕ, ◌≡◌, ◌↔◌, refl, sym, ap, ◌∙◌, true, false, Bool, Bool-cases, inl, inr, not, ◌||◌, neither,
  Option, Option-cases, some, ok, err, Result-cases, raise_if-eq-ok, get_or,
}
use urja_setu.Base.Int.{pos, ltb_ℤ, eqb_ℤ}
use urja_setu.Base.Rows.{find_row}
use urja_setu.Pricing.Contract.{PricingResult, PricingEngine, components_sum}
use urja_setu.Pricing.Check.{validate_result, check_parts}
use urja_setu.Pricing.Assembly.{build_request}
use urja_setu.Pricing.Store.{
  PricedTrade, PriceBooks, row_refused, is_row_refused, row_sum, has_overflow,
}
use urja_setu.Pricing.Service.{quote, row_of, price_trade, get_trade}

pub or_false : (a b : Bool) → b ≡ false → (a || b) ≡ a
or_false true b h = refl
or_false false b h = h

pub checked-is_row_refused :
    (q : PricingResult) (id rank moment trade_id : ℕ)
    → validate_result q ≡ ok tt
    → is_row_refused (row_of id rank moment trade_id q)
      ≡ (has_overflow (row_of id rank moment trade_id q) || ltb_ℤ q.base_market_price (pos 0))
unfolding validate_result check_parts is_row_refused row_sum components_sum
checked-is_row_refused q id rank moment trade_id h =
    let (sum, h1) = raise_if-eq-ok (not (eqb_ℤ (components_sum q) q.final_price)) _ _ h in
    let (price, h2) = raise_if-eq-ok (ltb_ℤ q.final_price (pos 0)) _ _ h1 in
    let (charges, h3) =
      raise_if-eq-ok (ltb_ℤ q.congestion_component (pos 0) || ltb_ℤ q.imbalance_component (pos 0)) _
        _ h2 in
    let (congestion, imbalance) = neither (ltb_ℤ q.congestion_component (pos 0)) _ charges in
    let (renewable, _) = raise_if-eq-ok (ltb_ℤ (pos 0) q.local_renewable_component) _ _ h3 in
    rw (sum, price, congestion, imbalance, renewable)
      (ap (λ e. has_overflow (row_of id rank moment trade_id q) || e)
        (or_false (ltb_ℤ q.base_market_price (pos 0)) false refl))

-- The trade is in the books, and the engine answers for it with a result that passes the check and
-- that has a negative base price or does not fit the columns.
pub record IsUnstorable (engine : PricingEngine) (trade_id moment : ℕ) (b : PriceBooks)
    : Type 0 where
  pub trade : PricedTrade
  pub found : find_row (λ (t : PricedTrade). t.id) trade_id b.trades ≡ some trade
  pub result : PricingResult
  pub answered : engine.quote (build_request b trade) ≡ some result
  pub checked : validate_result result ≡ ok tt
  pub unfit :
      (has_overflow (row_of b.next_id (b.rank_of b.next_id) moment trade.id result)
        || ltb_ℤ result.base_market_price (pos 0))
      ≡ true

-- With any engine whose amounts have at most four decimals, pricing a trade is refused by the database if and only if the trade is in the
-- books and the engine answers with a result that passes the check of the service and yet has a
-- negative base price, an amount of more than eight digits before the point, or a version of more
-- than 64 characters.
pub price_trade-IsUnstorable :
    (engine : PricingEngine) (trade_id : ℕ) (at : Option ℕ) (now : ℕ) (b : PriceBooks)
    → price_trade engine trade_id at now b ≡ err row_refused
      ↔ IsUnstorable engine trade_id (get_or at now) b
unfolding price_trade get_trade quote
price_trade-IsUnstorable engine trade_id at now b = (
  λ h. elim (Option-cases (find_row (λ (t : PricedTrade). t.id) trade_id b.trades)) [
    | inl missing ↦ let e = rw missing at h in absurd cc
    | inr (t, found) ↦ elim (Option-cases (engine.quote (build_request b t))) [
      | inl failed ↦ let e = rw (found, failed) at h in absurd cc
      | inr (q, answered) ↦ elim (Result-cases (validate_result q)) [
        | inr (reason, bad) ↦ let e = rw (found, answered, bad) at h in absurd cc
        | inl (_, checked) ↦
            elim (Bool-cases
              (is_row_refused (row_of b.next_id (b.rank_of b.next_id) (get_or at now) t.id q))) [
                | inr taken ↦ let e = rw (found, answered, checked, taken) at h in absurd cc
                | inl refused ↦ record {
                  trade = t;
                  found = found;
                  result = q;
                  answered = answered;
                  checked = checked;
                  unfit =
                      sym (
                        checked-is_row_refused q b.next_id (b.rank_of b.next_id) (get_or at now)
                          t.id checked)
                      ∙ refused;
                }
              ]
      ]
    ]
  ],
  λ u.
      let refused =
        checked-is_row_refused u.result b.next_id (b.rank_of b.next_id) (get_or at now) u.trade.id
          u.checked
        ∙ u.unfit in
      rw (u.found, u.answered, u.checked, refused) refl,
)
