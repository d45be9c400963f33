-- ===== src/Pricing/Quoting.antt =====
-- The quotes of the standard engine (backend/app/domain/policies/dynamic_pricing.py).
use urja_setu.Base.{
  ◌≡◌, refl, sym, Bool-cases, inl, inr, some-injective, false, ◌||◌, none, some, arith, ok, err,
  ◌==◌, if◌then◌else◌,
}
use urja_setu.Base.Int.{ℤ, pos, neg, ◌+ℤ◌, ◌≤ℤ◌, ltb_ℤ, sum_ℤ, +ℤ_zero, +ℤ_assoc, eqb_ℤ_self}
use urja_setu.Grid.Contract.{GridValidationStatus, permits_trade, reject}
use urja_setu.Pricing.Contract.{PricingRequest, PricingResult, components_sum, itemised_sum}
use urja_setu.Pricing.Policy.{
  PricingParameters, checked_parameters, part_of, local_renewable_component,
}
use urja_setu.Pricing.Charges.{congestion_component-is_charge, imbalance_component-is_charge}
use urja_setu.Pricing.Engine.{priced, is_imprecise, quote, recommend}
use urja_setu.Pricing.Check.{negative_price, validate_result, check_parts}
use Prim.Native.String.{len}

-- A price that its parts explain: they add up to it, the charges are not negative, the incentive
-- is not positive, and the trade is to be rejected if and only if its network was not shown safe.
pub record IsExplained (r : PricingRequest) (q : PricingResult) : Type 0 where
  pub adds_up : components_sum q ≡ q.final_price
  pub itemised : itemised_sum q ≡ q.final_price
  pub congestion_is_charge : pos 0 ≤ℤ q.congestion_component
  pub imbalance_is_charge : pos 0 ≤ℤ q.imbalance_component
  pub renewable_is_incentive : q.local_renewable_component ≤ℤ pos 0
  pub unsafe_is_rejected : permits_trade r.grid_status ≡ false → q.recommended_decision ≡ reject
  pub safe_is_not : q.recommended_decision ≡ reject → permits_trade r.grid_status ≡ false

five_parts : (a b c d e : ℤ) → a +ℤ (b +ℤ (c +ℤ (d +ℤ (e +ℤ pos 0)))) ≡ a +ℤ b +ℤ c +ℤ d +ℤ e
five_parts a b c d e = simp (+ℤ_zero, +ℤ_assoc) refl

renewable-le-zero :
    (r : PricingRequest) (p : PricingParameters) → (local_renewable_component r p).amount ≤ℤ pos 0
unfolding local_renewable_component part_of neg
renewable-le-zero r p = ground arith

recommend-reject :
    (status : GridValidationStatus) (base surcharge : ℤ) (p : PricingParameters)
    → recommend status base surcharge p ≡ reject
    → permits_trade status ≡ false
unfolding recommend
recommend-reject status base surcharge p h = ground arith

pub recommend-of_unsafe :
    (status : GridValidationStatus) (base surcharge : ℤ) (p : PricingParameters)
    → permits_trade status ≡ false
    → recommend status base surcharge p ≡ reject
unfolding recommend
recommend-of_unsafe status base surcharge p h = rw h refl

pub priced-IsExplained :
    (p : PricingParameters) (r : PricingRequest)
    → checked_parameters p ≡ some p
    → IsExplained r (priced p r)
unfolding priced components_sum sum_ℤ
priced-IsExplained p r checked = record {
  adds_up = refl;
  itemised = five_parts _ _ _ _ _;
  congestion_is_charge = congestion_component-is_charge r p checked;
  imbalance_is_charge = imbalance_component-is_charge r p;
  renewable_is_incentive = renewable-le-zero r p;
  unsafe_is_rejected = λ e.
      recommend-of_unsafe r.grid_status (priced p r).base_market_price
        (priced p r).congestion_component p e;
  safe_is_not = λ e.
      recommend-reject r.grid_status (priced p r).base_market_price
        (priced p r).congestion_component p e;
}

pub quote-of_base :
    (p : PricingParameters) (r : PricingRequest)
    → pos 0 ≤ℤ r.base_price
    → quote p r ≡ (if is_imprecise (priced p r) then none else some (priced p r))
unfolding quote
quote-of_base p r h = let fine : ltb_ℤ r.base_price (pos 0) ≡ false = ground arith in rw fine refl

pub quote-eq-priced :
    (p : PricingParameters) (r : PricingRequest) {q : PricingResult}
    → quote p r ≡ some q
    → q ≡ priced p r
unfolding quote
quote-eq-priced p r h =
    elim (Bool-cases (ltb_ℤ r.base_price (pos 0) || is_imprecise (priced p r))) [
      | inl below ↦ let e = rw below at h in absurd cc
      | inr fine ↦ sym (some-injective (rw fine at h))
    ]

-- Under parameters that pass their own check, of a base price that is not negative the standard
-- engine raises if an amount has more than 28 digits, and else it quotes a price, and it is one that
-- its parts explain: they add up to it as columns and as itemised, congestion and imbalance
-- are never paid to the buyer, the local-renewable term is never a charge, and the recommendation
-- is to reject if and only if the network was not shown to be safe.
pub quote-IsExplained :
    (p : PricingParameters) (r : PricingRequest)
    → checked_parameters p ≡ some p
    → pos 0 ≤ℤ r.base_price
    → (q : PricingResult) × (quote p r ≡ (if is_imprecise q then none else some q))
      × IsExplained r q
quote-IsExplained p r checked h = (priced p r, quote-of_base p r h, priced-IsExplained p r checked)

pub IsExplained-validate_result :
    (r : PricingRequest) (q : PricingResult)
    → IsExplained r q
    → (len q.formula_version == 0) ≡ false
    → validate_result q ≡ (if ltb_ℤ q.final_price (pos 0) then err negative_price else ok tt)
unfolding validate_result check_parts
IsExplained-validate_result r q h named =
    let adds_up = h.adds_up in
    let congestion = h.congestion_is_charge in
    let imbalance = h.imbalance_is_charge in
    let renewable = h.renewable_is_incentive in
    rw adds_up (ground (arith, eqb_ℤ_self q.final_price))

-- Under parameters that pass their own check and have a version, what the standard engine quotes of a base price that is not
-- negative is refused by the service's check if the final price is negative, and for no other
-- reason.
pub quote-validate_result :
    (p : PricingParameters) (r : PricingRequest)
    → checked_parameters p ≡ some p
    → pos 0 ≤ℤ r.base_price
    → (len p.formula_version == 0) ≡ false
    → (q : PricingResult) × (quote p r ≡ (if is_imprecise q then none else some q))
      × (validate_result q ≡ (if ltb_ℤ q.final_price (pos 0) then err negative_price else ok tt))
unfolding priced
quote-validate_result p r checked h named = (
  priced p r,
  quote-of_base p r h,
  IsExplained-validate_result r (priced p r) (priced-IsExplained p r checked) named,
)
