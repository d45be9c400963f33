-- ===== src/Pricing/Charges.antt =====
-- The signs of the charges of backend/app/domain/policies/dynamic_pricing.py.
use urja_setu.Base.{ℕ, ◌≡◌, refl, true, false, Bool-cases, inl, inr, Option, none, some, arith}
use urja_setu.Base.Int.{pos, ◌≤ℤ◌, pos_part}
use urja_setu.Base.Decimal.{Decimal, decimal, less, least, greatest, minus}
use urja_setu.Grid.Contract.{GridValidationStatus, safe, unsafe, unknown, GridMetrics}
use urja_setu.Pricing.Contract.{PricingRequest}
use urja_setu.Pricing.Policy.{
  PricingParameters, Fraction, checked_parameters, part_of, loading_fraction, congestion_fraction,
  imbalance_fraction, congestion_component, imbalance_component,
}

less-asymmetric : (a b : Decimal) → less a b ≡ true → less b a ≡ false
unfolding less
less-asymmetric a b h = ground arith

less-irreflexive : (a : Decimal) → less a a ≡ false
unfolding less
less-irreflexive a = ground arith

minus-negative : (a b : Decimal) → less a b ≡ false → (minus a b).negative ≡ false
unfolding minus
minus-negative a b h = rw h refl

minus-least : (a b : Decimal) → (minus b (least a b)).negative ≡ false
unfolding least
minus-least a b = elim (Bool-cases (less b a)) [
  | inl above ↦ rw above (minus-negative b b (less-irreflexive b))
  | inr within ↦ rw within (minus-negative b a within)
]

-- The congestion threshold of parameters that are constructed is below the full rating.
threshold_below :
    (p : PricingParameters)
    → checked_parameters p ≡ some p
    → less p.congestion_threshold_pct (decimal 100 0) ≡ true
unfolding checked_parameters
threshold_below p h = elim (Bool-cases (less p.congestion_threshold_pct (decimal 100 0))) [
  | inl below ↦ below
  | inr above ↦ ground arith
]

loading_fraction-negative :
    (loading : Option Decimal) (p : PricingParameters)
    → less p.congestion_threshold_pct (decimal 100 0) ≡ true
    → (loading_fraction loading p).negative ≡ false
unfolding loading_fraction least
loading_fraction-negative none p h = refl
loading_fraction-negative (some loading) p h =
    let span =
      minus-negative (decimal 100 0) p.congestion_threshold_pct
        (less-asymmetric p.congestion_threshold_pct (decimal 100 0) h) in
    elim (Bool-cases (less p.congestion_threshold_pct loading)) [
      | inr within ↦ rw within refl
      | inl over ↦ elim (Bool-cases (less (decimal 100 0) loading)) [
        | inl full ↦ rw (over, full, span) refl
        | inr part ↦
            let above =
              minus-negative loading p.congestion_threshold_pct
                (less-asymmetric p.congestion_threshold_pct loading over) in
            rw (over, part, above) span
      ]
    ]

congestion_fraction-negative :
    (status : GridValidationStatus) (metrics : Option GridMetrics) (p : PricingParameters)
    → less p.congestion_threshold_pct (decimal 100 0) ≡ true
    → (congestion_fraction status metrics p).negative ≡ false
unfolding congestion_fraction
congestion_fraction-negative unsafe metrics p h = refl
congestion_fraction-negative unknown metrics p h = refl
congestion_fraction-negative safe metrics p h = loading_fraction-negative _ p h

imbalance_fraction-negative :
    (confidence : Option Decimal) (p : PricingParameters)
    → (imbalance_fraction confidence p).negative ≡ false
unfolding imbalance_fraction
imbalance_fraction-negative none p = refl
imbalance_fraction-negative (some confidence) p =
    minus-least (greatest confidence (decimal 0 0)) (decimal 1 0)

part_of-charge : (n : ℕ) (f : Fraction) → f.negative ≡ false → pos 0 ≤ℤ part_of n f
unfolding part_of
part_of-charge n f h = rw h (omega arith)

pub congestion_component-is_charge :
    (r : PricingRequest) (p : PricingParameters)
    → checked_parameters p ≡ some p
    → pos 0 ≤ℤ (congestion_component r p).amount
unfolding congestion_component
congestion_component-is_charge r p h =
    part_of-charge (pos_part r.base_price) (congestion_fraction r.grid_status r.grid_metrics p)
      (congestion_fraction-negative r.grid_status r.grid_metrics p (threshold_below p h))

pub imbalance_component-is_charge :
    (r : PricingRequest) (p : PricingParameters) → pos 0 ≤ℤ (imbalance_component r p).amount
unfolding imbalance_component
imbalance_component-is_charge r p =
    part_of-charge (pos_part r.base_price) (imbalance_fraction r.forecast_confidence p)
      (imbalance_fraction-negative r.forecast_confidence p)
