-- ===== src/Grid/Tests.antt =====
-- Judgements on concrete input, and the theorems of the grid at work on them.
mod Trades
use urja_setu.Base.{All, List}
use urja_setu.Grid.Contract.{unrated_elements}
use urja_setu.Grid.Contract.{substation, transformer, connection_point}
use urja_setu.Grid.Network.{GridNode, build_network, selected}
use urja_setu.Grid.Twin.{IsRatedChild, build_network-unrated_elements}
use urja_setu.Base.{◌≡◌, refl, ◌↔◌, none, some, [], ◌∷◌, err, arith, map, filter}
use urja_setu.Base.Decimal.{decimal}
use urja_setu.Grid.Contract.{
  GridValidationStatus, safe, unknown, GridValidationDecision, accept, reject, NetworkNode,
  NetworkLine, NetworkModel, GridMetrics, GridViolation, under_voltage, GridValidationRequest,
  GridValidationResult, GridEngine,
}
use urja_setu.Grid.Policy.{default_limits, violation_of}
use urja_setu.Grid.Service.{
  Occasion, Records, GridValidationRun, engine_failed, validate_scenario, validate_result,
  cross_check,
}
use urja_setu.Grid.Limits.{IsWithin, cross_check-IsWithin}
use urja_setu.Grid.Outcomes.{Accepts, IsShownSafe, validate_scenario-Accepts}
use urja_setu.Grid.Registry.{IsRegistry, validate_scenario-IsRegistry}

abbrev house : NetworkNode
house = record {
  node_id = 1;
  node_type = substation;
  nominal_voltage_kv = decimal 4 1;
  parent_node_id = none;
  feeder_id = none;
}

abbrev wire : NetworkLine
wire = record { line_id = 2; from_node_id = 1; to_node_id = 2; rating_kw = some (decimal 25 0) }

abbrev street : NetworkModel
street = record {
  version = "phase-1-twin";
  nodes = house ∷ [];
  lines = wire ∷ [];
  transformers = [];
}

abbrev scenario : GridValidationRequest
scenario = record {
  network = street;
  limits = default_limits;
  interval_start = 0;
  interval_end = 3600000000;
  baseline_injections = [];
  proposed_injections = [];
}

-- The voltage is low with and without the trade.
abbrev measured : GridMetrics
measured = record {
  min_voltage_pu = some (decimal 93 2);
  max_voltage_pu = some (decimal 101 2);
  max_line_loading_pct = some (decimal 80 0);
  max_transformer_loading_pct = none;
}

abbrev low : GridViolation
low = violation_of under_voltage (decimal 93 2) (decimal 94 2)

abbrev answer : GridValidationResult
answer = record {
  engine = "solver";
  engine_version = "1";
  status = safe;
  metrics = measured;
  violations = low ∷ [];
  baseline_violations = low ∷ [];
}

abbrev steady : GridEngine
steady = record { name = "solver"; engine_version = "1"; validate = λ _. some answer }

abbrev broken : GridEngine
broken = record { name = "solver"; engine_version = "1"; validate = λ _. none }

abbrev occasion : Occasion
occasion = record { trade_id = some 7; grid_snapshot_id = none; at = 5 }

abbrev no_records : Records
no_records = record { runs = []; audits = []; notices = []; next_id = 1 }

abbrev verdict_of : GridValidationRun → GridValidationStatus × GridValidationDecision
verdict_of r = (r.status, r.decision)

runs_accepted :
    map verdict_of (validate_scenario no_records steady scenario occasion).0.runs
    ≡ (safe, accept) ∷ []
unfolding validate_scenario validate_result
runs_accepted = refl

-- Without the rating of the line, the same answer is not enough.
runs_unrated :
    map verdict_of
      (validate_scenario no_records steady
        (record scenario {
          network = record street { lines = record wire { rating_kw = none } ∷ [] };
        })
        occasion).0.runs
    ≡ (unknown, reject) ∷ []
unfolding validate_scenario validate_result
runs_unrated = refl

cross_check-low : cross_check answer default_limits ≡ low ∷ []
unfolding cross_check
cross_check-low = refl

no_records-IsRegistry : IsRegistry no_records
unfolding filter
no_records-IsRegistry = record {
  verdicts = tt;
  audited = refl;
  published = tt;
  older = tt;
  distinct = tt;
}

validate_scenario-Accepts_example :
    Accepts (validate_scenario no_records steady scenario occasion) ↔ IsShownSafe steady scenario
validate_scenario-Accepts_example = validate_scenario-Accepts no_records steady scenario occasion

validate_scenario-IsRegistry_example :
    IsRegistry (validate_scenario no_records steady scenario occasion).0
validate_scenario-IsRegistry_example =
    validate_scenario-IsRegistry no_records steady scenario occasion no_records-IsRegistry

abbrev stored : List GridNode
stored =
    record {
      id = 1;
      node_type = substation;
      nominal_voltage_kv = decimal 11 0;
      parent_node_id = none;
      feeder_id = none;
      rated_capacity_kw = none;
    }
    ∷ record {
      id = 2;
      node_type = transformer;
      nominal_voltage_kv = decimal 4 1;
      parent_node_id = some 1;
      feeder_id = none;
      rated_capacity_kw = some (decimal 100 0);
    }
    ∷ record {
      id = 3;
      node_type = connection_point;
      nominal_voltage_kv = decimal 4 1;
      parent_node_id = some 2;
      feeder_id = none;
      rated_capacity_kw = none;
    }
    ∷ []

unrated_stored : unrated_elements (build_network stored none "phase-1-twin") ≡ 3 ∷ []
unfolding unrated_elements build_network
unrated_stored = refl

build_network-unrated_elements_example :
    unrated_elements (build_network stored none "phase-1-twin") ≡ []
    ↔ All (IsRatedChild (selected none stored)) (selected none stored)
build_network-unrated_elements_example =
    build_network-unrated_elements stored none "phase-1-twin"
      (((λ e. omega arith), ((λ e. omega arith), tt)), (((λ e. omega arith), tt), (tt, tt)))
