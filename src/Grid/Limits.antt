-- ===== src/Grid/Limits.antt =====
-- The metrics of a network against its limits: `evaluate_metrics` of
-- backend/app/domain/policies/grid_limits.py and `cross_check` of
-- backend/app/services/grid_validation_service.py.
use urja_setu.Base.{
  append-eq-empty, ◌≡◌, refl, ◌↔◌, true, false, Bool, ap, Option, none, some, [], ◌∷◌, ◌≤◌, ◌*◌,
  ◌^◌, arith, if◌then◌else◌,
}
use urja_setu.Base.Decimal.{Decimal, less}
use urja_setu.Grid.Contract.{
  GridValidationStatus, safe, unsafe, unknown, GridViolationType, under_voltage, over_voltage,
  line_overload, transformer_overload, GridLimits, GridMetrics, GridValidationResult,
}
use urja_setu.Grid.Policy.{floor_breach, ceiling_breach, evaluate_metrics, violation_of}
use urja_setu.Grid.Service.{cross_check}

-- `a ≤ b`
unfoldable pub IsAtMost : Decimal → Decimal → Type 0
IsAtMost a b = a.coefficient * 10 ^ b.places ≤ b.coefficient * 10 ^ a.places

-- A metric that was computed is not below the limit.
unfoldable pub HasFloor : Option Decimal → Decimal → Type 0
HasFloor none limit = Unit
HasFloor (some observed) limit = IsAtMost limit observed

-- A metric that was computed is not above the limit.
unfoldable pub HasCeiling : Option Decimal → Decimal → Type 0
HasCeiling none limit = Unit
HasCeiling (some observed) limit = IsAtMost observed limit

-- Every metric that was computed is within its limit.
pub record IsWithin (m : GridMetrics) (l : GridLimits) : Type 0 where
  pub lowest : HasFloor m.min_voltage_pu l.min_voltage_pu
  pub highest : HasCeiling m.max_voltage_pu l.max_voltage_pu
  pub lines : HasCeiling m.max_line_loading_pct l.max_line_loading_pct
  pub transformers : HasCeiling m.max_transformer_loading_pct l.max_transformer_loading_pct

less-false : (a b : Decimal) → less a b ≡ false → IsAtMost b a
unfolding less IsAtMost
less-false a b h = ground arith

less_of : (a b : Decimal) → IsAtMost b a → less a b ≡ false
unfolding less IsAtMost
less_of a b h = ground arith

unlisted : {A : Type 0} (b : Bool) (v : A) → (if b then v ∷ [] else []) ≡ [] → b ≡ false
unlisted true v h = absurd cc
unlisted false v h = refl

floor_breach-empty :
    (type : GridViolationType) (o : Option Decimal) (limit : Decimal)
    → floor_breach type o limit ≡ [] ↔ HasFloor o limit
unfolding floor_breach HasFloor
floor_breach-empty type none limit = (λ _. tt, λ _. refl)
floor_breach-empty type (some d) limit = (
  λ h. less-false d limit (unlisted (less d limit) (violation_of type d limit) h),
  λ h. ap (λ b. if b then violation_of type d limit ∷ [] else []) (less_of d limit h),
)

ceiling_breach-empty :
    (type : GridViolationType) (o : Option Decimal) (limit : Decimal)
    → ceiling_breach type o limit ≡ [] ↔ HasCeiling o limit
unfolding ceiling_breach HasCeiling
ceiling_breach-empty type none limit = (λ _. tt, λ _. refl)
ceiling_breach-empty type (some d) limit = (
  λ h. less-false limit d (unlisted (less limit d) (violation_of type d limit) h),
  λ h. ap (λ b. if b then violation_of type d limit ∷ [] else []) (less_of limit d h),
)

evaluate_metrics-empty :
    (m : GridMetrics) (l : GridLimits) → evaluate_metrics m l ≡ [] ↔ IsWithin m l
unfolding evaluate_metrics
evaluate_metrics-empty m l = (
  λ h.
      let (rest, transformers) = append-eq-empty _ _ h in
      let (rest, lines) = append-eq-empty _ _ rest in
      let (lowest, highest) = append-eq-empty _ _ rest in
      record {
        lowest = (floor_breach-empty under_voltage m.min_voltage_pu _).0 lowest;
        highest = (ceiling_breach-empty over_voltage m.max_voltage_pu _).0 highest;
        lines = (ceiling_breach-empty line_overload m.max_line_loading_pct _).0 lines;
        transformers =
            (ceiling_breach-empty transformer_overload m.max_transformer_loading_pct _).0
              transformers;
      },
  λ w.
      rw
        (
          (floor_breach-empty under_voltage m.min_voltage_pu l.min_voltage_pu).1 w.lowest,
          (ceiling_breach-empty over_voltage m.max_voltage_pu l.max_voltage_pu).1 w.highest,
          (ceiling_breach-empty line_overload m.max_line_loading_pct l.max_line_loading_pct).1
              w.lines,
          (ceiling_breach-empty transformer_overload m.max_transformer_loading_pct
                l.max_transformer_loading_pct).1
              w.transformers,
        )
        refl,
)

-- The cross-check finds nothing if and only if every metric that was computed is within its limit,
-- or the engine does not report safety.
pub cross_check-IsWithin :
    (r : GridValidationResult) (l : GridLimits)
    → cross_check r l ≡ [] ↔ (r.status ≡ safe → IsWithin r.metrics l)
unfolding cross_check
cross_check-IsWithin r l = go (r.status)
  where
    go :
        (status : GridValidationStatus)
        → (elim status [ safe ↦ evaluate_metrics r.metrics l | _ ↦ [] ]) ≡ []
          ↔ (status ≡ safe → IsWithin r.metrics l)
    go safe = (
      λ h _. (evaluate_metrics-empty r.metrics l).0 h,
      λ h. (evaluate_metrics-empty r.metrics l).1 (h refl),
    )
    go unsafe = (λ h e. absurd cc, λ _. refl)
    go unknown = (λ h e. absurd cc, λ _. refl)
