-- ===== src/Grid/Contract.antt =====
-- The grid validation contract (backend/app/domain/interfaces/grid.py) and its vocabulary.
-- Identifiers are numbers, times are microseconds. Voltages, loadings and operating limits are not
-- negative; what an engine writes as the limit of a violation may be, and carries a sign.
use urja_setu.Base.{
  ℕ, Bool, true, false, not, ◌&&◌, ◌==◌, ltb, if◌then◌else◌, Option, none, some, get_or, List, [],
  ◌∷◌, ◌++◌, map, filter, any,
}
use urja_setu.Base.Decimal.{Decimal, Signed, decimal, div, plain, add_signed}
use urja_setu.Base.Dict.{Dict, lookup, insert}
use urja_setu.Base.Sorting.{sorted}
use Prim.Native.String.{String}

pub data GridValidationStatus : Type 0 where
  safe unsafe unknown : GridValidationStatus

-- Only a network that was shown to be safe lets a trade through.
unfoldable pub permits_trade : GridValidationStatus → Bool
permits_trade safe = true
permits_trade _ = false

pub data GridValidationDecision : Type 0 where
  accept reprice reduce shift reject : GridValidationDecision

pub data GridViolationType : Type 0 where
  under_voltage over_voltage line_overload transformer_overload : GridViolationType

unfoldable pub same_type : (a b : GridViolationType) → Bool
same_type under_voltage under_voltage = true
same_type over_voltage over_voltage = true
same_type line_overload line_overload = true
same_type transformer_overload transformer_overload = true
same_type _ _ = false

pub data GridNodeType : Type 0 where
  substation feeder transformer connection_point : GridNodeType

pub record NetworkNode : Type 0 where
  pub node_id : ℕ
  pub node_type : GridNodeType
  pub nominal_voltage_kv : Decimal
  pub parent_node_id : Option ℕ
  pub feeder_id : Option String

-- `none` is a rating that the twin does not record.
pub record NetworkLine : Type 0 where
  pub line_id : ℕ
  pub from_node_id : ℕ
  pub to_node_id : ℕ
  pub rating_kw : Option Decimal

pub record NetworkTransformer : Type 0 where
  pub transformer_id : ℕ
  pub from_node_id : ℕ
  pub to_node_id : ℕ
  pub rating_kw : Option Decimal

pub record NetworkModel : Type 0 where
  pub version : String
  pub nodes : List NetworkNode
  pub lines : List NetworkLine
  pub transformers : List NetworkTransformer

abbrev pub is_none : {A : Type 0} → Option A → Bool
is_none none = true
is_none (some _) = false

-- The lines and the transformers without a rating.
unfoldable pub unrated_elements : NetworkModel → List ℕ
unfolding filter
unrated_elements n =
    map (λ (l : NetworkLine). l.line_id) (filter (λ (l : NetworkLine). is_none l.rating_kw) n.lines)
    ++ map (λ (t : NetworkTransformer). t.transformer_id)
        (filter (λ (t : NetworkTransformer). is_none t.rating_kw) n.transformers)

pub record NodeInjection : Type 0 where
  pub node_id : ℕ
  pub active_power_kw : Signed

-- `NodeInjection.from_energy`, over an interval in microseconds: the energy over the hours, which
-- are positive if the interval is; `none` is the raised ValueError.
unfoldable pub from_energy : (node_id : ℕ) → Signed → (interval : ℕ) → Option NodeInjection
unfolding div
from_energy node_id energy_kwh interval =
    if interval == 0
    then none
    else some (record {
      node_id = node_id;
      active_power_kw = record {
        negative = energy_kwh.negative;
        size = div energy_kwh.size (div (decimal interval 6) (decimal 3600 0));
      };
    })

-- `-power`
abbrev pub opposite_power : Signed → Signed
opposite_power power = record { negative = not power.negative; size = power.size }

pub record GridLimits : Type 0 where
  pub min_voltage_pu : Decimal
  pub max_voltage_pu : Decimal
  pub max_line_loading_pct : Decimal
  pub max_transformer_loading_pct : Decimal

pub record GridMetrics : Type 0 where
  pub min_voltage_pu : Option Decimal
  pub max_voltage_pu : Option Decimal
  pub max_line_loading_pct : Option Decimal
  pub max_transformer_loading_pct : Option Decimal

pub record GridViolation : Type 0 where
  pub violation_type : GridViolationType
  pub element_id : Option ℕ
  pub observed : Decimal
  pub limit : Signed

pub record GridValidationRequest : Type 0 where
  pub network : NetworkModel
  pub limits : GridLimits
  pub interval_start : ℕ
  pub interval_end : ℕ
  pub baseline_injections : List NodeInjection
  pub proposed_injections : List NodeInjection

unfoldable pub add_injections : Dict Signed → List NodeInjection → Dict Signed
unfolding insert lookup add_signed
add_injections totals [] = totals
add_injections totals (i ∷ injections) =
    let total =
      add_signed (get_or (lookup i.node_id totals) (plain (decimal 0 0))) i.active_power_kw in
    add_injections (insert i.node_id total totals) injections

abbrev pub injection_of : ℕ × Signed → NodeInjection
injection_of (node_id, total) = record { node_id = node_id; active_power_kw = total }

-- `combined_injections`; the order of the nodes is that of their identifiers.
unfoldable pub combined_injections : GridValidationRequest → List NodeInjection
unfolding add_injections sorted
combined_injections q = map injection_of (
    sorted (λ (x : ℕ × Signed) (y : ℕ × Signed). ltb x.0 y.0)
      (add_injections [] (q.baseline_injections ++ q.proposed_injections)))

pub record GridValidationResult : Type 0 where
  pub engine : String
  pub engine_version : String
  pub status : GridValidationStatus
  pub metrics : GridMetrics
  pub violations : List GridViolation
  pub baseline_violations : List GridViolation

unfoldable pub same_element : (a b : Option ℕ) → Bool
same_element none none = true
same_element (some a) (some b) = a == b
same_element _ _ = false

-- The type and the element are those of a violation that was there before.
unfoldable pub is_already : List GridViolation → GridViolation → Bool
unfolding any same_type same_element
is_already baseline v =
    any
      (λ (b : GridViolation).
        same_type b.violation_type v.violation_type && same_element b.element_id v.element_id)
      baseline

unfoldable pub caused_violations : GridValidationResult → List GridViolation
unfolding filter is_already
caused_violations r = filter (λ v. not (is_already r.baseline_violations v)) r.violations

-- An engine: its name, its version, and its answer to a request; `none` is an exception.
pub record GridEngine : Type 0 where
  pub name : String
  pub engine_version : String
  pub validate : GridValidationRequest → Option GridValidationResult
