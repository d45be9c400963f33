-- ===== src/Grid/Policy.antt =====
-- Operating limits and the decision that they imply
-- (backend/app/domain/policies/grid_limits.py). The texts are left out.
use urja_setu.Base.{◌&&◌, Option, none, some, List, [], ◌∷◌, ◌++◌, is_empty, if◌then◌else◌, ℕ}
use urja_setu.Base.Decimal.{Decimal, decimal, less}
use urja_setu.Base.Decimal.{plain}
use urja_setu.Grid.Contract.{
  GridValidationStatus, safe, unsafe, unknown, permits_trade, GridValidationDecision, accept,
  reject, GridViolationType, under_voltage, over_voltage, line_overload, transformer_overload,
  GridLimits, GridMetrics, GridViolation,
}

abbrev pub default_limits : GridLimits
default_limits = record {
  min_voltage_pu = decimal 94 2;
  max_voltage_pu = decimal 106 2;
  max_line_loading_pct = decimal 100 0;
  max_transformer_loading_pct = decimal 100 0;
}

-- A violation of the whole network.
abbrev pub violation_of : GridViolationType → (observed limit : Decimal) → GridViolation
violation_of type observed limit = record {
  violation_type = type;
  element_id = none;
  observed = observed;
  limit = plain limit;
}

-- A metric that was computed and is below its limit.
unfoldable pub floor_breach : GridViolationType → Option Decimal → Decimal → List GridViolation
unfolding less
floor_breach type none limit = []
floor_breach type (some observed) limit =
    if less observed limit then violation_of type observed limit ∷ [] else []

-- A metric that was computed and is above its limit.
unfoldable pub ceiling_breach : GridViolationType → Option Decimal → Decimal → List GridViolation
unfolding less
ceiling_breach type none limit = []
ceiling_breach type (some observed) limit =
    if less limit observed then violation_of type observed limit ∷ [] else []

unfoldable pub evaluate_metrics : GridMetrics → GridLimits → List GridViolation
unfolding floor_breach ceiling_breach
evaluate_metrics m l =
    floor_breach under_voltage m.min_voltage_pu l.min_voltage_pu
    ++ ceiling_breach over_voltage m.max_voltage_pu l.max_voltage_pu
    ++ ceiling_breach line_overload m.max_line_loading_pct l.max_line_loading_pct
    ++ ceiling_breach transformer_overload m.max_transformer_loading_pct
        l.max_transformer_loading_pct

-- A network that was called safe while an element has no rating is unknown.
unfoldable pub resolve_status : GridValidationStatus → (unrated : List ℕ) → GridValidationStatus
resolve_status safe (_ ∷ _) = unknown
resolve_status reported _ = reported

unfoldable pub effective_status :
    GridValidationStatus → (caused : List GridViolation) → GridValidationStatus
effective_status unknown _ = unknown
effective_status status (_ ∷ _) = unsafe
effective_status status [] = status

unfoldable pub decide :
    GridValidationStatus → (caused : List GridViolation) → GridValidationDecision
unfolding permits_trade
decide status caused = if permits_trade status && is_empty caused then accept else reject
