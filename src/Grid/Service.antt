-- ===== src/Grid/Service.antt =====
-- The grid validation service (backend/app/services/grid_validation_service.py): judging a
-- scenario and recording the judgement. The engine is a parameter. The hash of the inputs and the
-- text of the reason are left out, and so is the rounding of the metrics by their columns.
use urja_setu.Base.{
  ℕ, suc, Bool, false, ◌==◌, leb, Option, none, some, List, [], ◌∷◌, any, is_empty, Result, ok, err,
  ◌>>◌, raise_if,
}
use urja_setu.Base.Decimal.{less}
use urja_setu.Base.Decimal.{is_below_zero}
use urja_setu.Grid.Contract.{
  GridValidationStatus, safe, unknown, GridValidationDecision, reject, GridMetrics, GridViolation,
  GridLimits, GridValidationRequest, GridValidationResult, GridEngine, unrated_elements,
  caused_violations,
}
use urja_setu.Grid.Policy.{evaluate_metrics, resolve_status, effective_status, decide}
use Prim.Native.String.{String, len}

pub data GridError : Type 0 where
  interval_invalid network_empty engine_failed no_engine_identifier negative_limit
        minimum_above_maximum quantity_invalid no_duration run_not_found snapshot_refused :
      GridError

-- What a call records beside the request: the trade, the snapshot, and the time.
pub record Occasion : Type 0 where
  pub trade_id : Option ℕ
  pub grid_snapshot_id : Option ℕ
  pub at : ℕ

pub record GridValidationRun : Type 0 where
  pub id : ℕ
  pub trade_id : Option ℕ
  pub grid_snapshot_id : Option ℕ
  pub simulation_engine : String
  pub engine_version : String
  pub status : GridValidationStatus
  pub metrics : GridMetrics
  pub decision : GridValidationDecision
  pub created_at : ℕ

-- The committed rows and events, the latest first, and the next identifier.
pub record Records : Type 0 where
  pub runs : List GridValidationRun
  pub audits : List GridValidationRun
  pub notices : List GridValidationRun
  pub next_id : ℕ

-- A minimum voltage above the maximum, where both were computed.
unfoldable pub is_crossed : GridMetrics → Bool
unfolding less
is_crossed m = elim (m.min_voltage_pu) [
  | none ↦ false
  | some lowest ↦ elim (m.max_voltage_pu) [ none ↦ false | some highest ↦ less highest lowest ]
]

unfoldable pub validate_result : GridValidationResult → Result GridError (Unit {0})
unfolding any is_crossed
validate_result r = do
  raise_if (len r.engine == 0) no_engine_identifier
  raise_if (any (λ (v : GridViolation). is_below_zero v.limit) r.violations) negative_limit
  raise_if (is_crossed r.metrics) minimum_above_maximum

abbrev pub no_metrics : GridMetrics
no_metrics = record {
  min_voltage_pu = none;
  max_voltage_pu = none;
  max_line_loading_pct = none;
  max_transformer_loading_pct = none;
}

-- The run of an engine that failed.
unfoldable pub failed_run : Records → GridEngine → Occasion → GridValidationRun
failed_run s engine o = record {
  id = s.next_id;
  trade_id = o.trade_id;
  grid_snapshot_id = o.grid_snapshot_id;
  simulation_engine = engine.name;
  engine_version = engine.engine_version;
  status = unknown;
  metrics = no_metrics;
  decision = reject;
  created_at = o.at;
}

-- The status that is recorded of a result.
unfoldable pub status_of : GridValidationRequest → GridValidationResult → GridValidationStatus
unfolding effective_status resolve_status unrated_elements caused_violations
status_of q r =
    effective_status (resolve_status r.status (unrated_elements q.network)) (caused_violations r)

-- The run of a result.
unfoldable pub judged_run :
    Records → GridValidationRequest → GridValidationResult → Occasion → GridValidationRun
unfolding status_of decide caused_violations
judged_run s q r o = record {
  id = s.next_id;
  trade_id = o.trade_id;
  grid_snapshot_id = o.grid_snapshot_id;
  simulation_engine = r.engine;
  engine_version = r.engine_version;
  status = status_of q r;
  metrics = r.metrics;
  decision = decide (status_of q r) (caused_violations r);
  created_at = o.at;
}

-- The run is added, and audited where it judges a trade.
unfoldable pub record_run : Records → GridValidationRun → Records
record_run s run = record s {
  runs = run ∷ s.runs;
  audits = elim (run.trade_id) [ none ↦ s.audits | some _ ↦ run ∷ s.audits ];
  next_id = suc s.next_id;
}

unfoldable pub notify : Records → GridValidationRun → Records
notify s run = record s { notices = run ∷ s.notices }

-- After the check of a result: what is committed, and the run or the exception.
unfoldable pub keep_result :
    Records
    → GridValidationRequest
    → GridValidationResult
    → Occasion
    → Result GridError (Unit {0})
    → Records × Result GridError GridValidationRun
unfolding judged_run record_run notify
keep_result s q r o (err e) = (s, err e)
keep_result s q r o (ok _) = let run = judged_run s q r o in (notify (record_run s run) run, ok run)

-- After the engine: a failure is committed as a run before it is raised.
unfoldable pub conclude :
    Records
    → GridEngine
    → GridValidationRequest
    → Occasion
    → Option GridValidationResult
    → Records × Result GridError GridValidationRun
unfolding failed_run record_run keep_result validate_result
conclude s engine q o none = (record_run s (failed_run s engine o), err engine_failed)
conclude s engine q o (some r) = keep_result s q r o (validate_result r)

-- The checks before the engine is asked.
unfoldable pub check_scenario : GridValidationRequest → Result GridError (Unit {0})
check_scenario q = do
  raise_if (leb q.interval_end q.interval_start) interval_invalid
  raise_if (is_empty q.network.nodes) network_empty

unfoldable pub ask_engine :
    Records
    → GridEngine
    → GridValidationRequest
    → Occasion
    → Result GridError (Unit {0})
    → Records × Result GridError GridValidationRun
unfolding conclude
ask_engine s engine q o (err e) = (s, err e)
ask_engine s engine q o (ok _) = conclude s engine q o (engine.validate q)

unfoldable pub validate_scenario :
    Records
    → GridEngine
    → GridValidationRequest
    → Occasion
    → Records × Result GridError GridValidationRun
unfolding ask_engine check_scenario
validate_scenario s engine q o = ask_engine s engine q o (check_scenario q)

-- The violations of the limits that an engine which reports safety leaves out.
unfoldable pub cross_check : GridValidationResult → GridLimits → List GridViolation
unfolding evaluate_metrics
cross_check r limits = elim (r.status) [ safe ↦ evaluate_metrics r.metrics limits | _ ↦ [] ]
