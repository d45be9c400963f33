-- ===== src/Grid/Trades.antt =====
-- The grid's side of a trade, and its snapshots (backend/app/services/grid_validation_service.py,
-- backend/app/db/models/grid.py and backend/app/repositories/grid.py): validate_trade,
-- record_snapshot, get_validation_run and latest_for_trade. Measures have the precision and the
-- width of their columns. Of two rows of one time the code lets the database choose; here it is the
-- one that stands first.
use urja_setu.Base.{
  ℕ, suc, ◌-◌, Bool, false, true, not, ◌&&◌, ◌||◌, ◌==◌, ltb, leb, Option, none, some, List, [],
  ◌∷◌, filter, Result, ok, err, ◌>>=◌, ◌>>◌, raise_if, or_raise,
}
use urja_setu.Base.Decimal.{Signed, is_below_zero, less_signed}
use urja_setu.Base.Rows.{find_row}
use urja_setu.Base.Sorting.{first_by}
use urja_setu.Grid.Contract.{
  NodeInjection, from_energy, opposite_power, GridLimits, GridValidationRequest, GridEngine,
}
use urja_setu.Grid.Network.{GridNode, build_network}
use urja_setu.Grid.Service.{
  GridError, interval_invalid, quantity_invalid, no_duration, run_not_found, snapshot_refused,
  Occasion, GridValidationRun, Records, validate_scenario,
}
use Prim.Native.String.{String, compare, len}
use Prim.Native.Nat.{Ordering}

pub record GridSnapshot : Type 0 where
  pub id : ℕ
  pub feeder_id : Option String
  pub captured_at : ℕ
  pub system_load_kw : Option Signed
  pub generation_kw : Option Signed
  pub transformer_loading_pct : Option Signed
  pub max_line_loading_pct : Option Signed
  pub min_voltage_pu : Option Signed
  pub max_voltage_pu : Option Signed

-- The tables of the grid, and the snapshots that were announced.
pub record GridBooks : Type 0 where
  pub records : Records
  pub nodes : List GridNode
  pub snapshots : List GridSnapshot
  pub announced : List GridSnapshot

-- The arguments of `validate_trade`.
pub record TradeProposal : Type 0 where
  pub trade_id : ℕ
  pub seller_node_id : ℕ
  pub buyer_node_id : ℕ
  pub quantity_kwh : Signed
  pub delivery_start : ℕ
  pub delivery_end : ℕ
  pub feeder_id : Option String
  pub baseline_injections : List NodeInjection
  pub limits : GridLimits
  pub at : ℕ

-- `x > 0`
abbrev pub is_positive : Signed → Bool
is_positive x = not x.negative && ltb 0 x.size.coefficient

-- What the seller injects, the buyer withdraws.
unfoldable pub transfer : GridBooks → TradeProposal → NodeInjection → GridValidationRequest
unfolding build_network
transfer g t injection = record {
  network = build_network g.nodes t.feeder_id "phase-1-twin";
  limits = t.limits;
  interval_start = t.delivery_start;
  interval_end = t.delivery_end;
  baseline_injections = t.baseline_injections;
  proposed_injections =
      injection
      ∷ record {
        node_id = t.buyer_node_id;
        active_power_kw = opposite_power injection.active_power_kw;
      }
      ∷ [];
}

-- `validate_trade` up to its call of `validate_scenario`.
unfoldable pub scenario_of : GridBooks → TradeProposal → Result GridError GridValidationRequest
unfolding transfer from_energy
scenario_of g t = do
  raise_if (leb t.delivery_end t.delivery_start) interval_invalid
  raise_if (not (is_positive t.quantity_kwh)) quantity_invalid
  injection ←
      or_raise (from_energy t.seller_node_id t.quantity_kwh (t.delivery_end - t.delivery_start))
        no_duration
  ok (transfer g t injection)

abbrev pub is_of_feeder : String → GridSnapshot → Bool
is_of_feeder name s = elim (s.feeder_id) [
  | none ↦ false
  | some f ↦ elim (compare f name) [ Ordering.eq ↦ true | _ ↦ false ]
]

abbrev pub is_captured_later : GridSnapshot → GridSnapshot → Bool
is_captured_later y x = ltb x.captured_at y.captured_at

-- `GridSnapshotRepository.latest_for_feeder`
unfoldable pub latest_for_feeder : String → List GridSnapshot → Option GridSnapshot
unfolding filter first_by
latest_for_feeder name snapshots = first_by is_captured_later (filter (is_of_feeder name) snapshots)

abbrev pub id_of : Option GridSnapshot → Option ℕ
id_of none = none
id_of (some s) = some s.id

-- The snapshot that the run cites: none for an empty name.
unfoldable pub snapshot_id : GridBooks → Option String → Option ℕ
unfolding latest_for_feeder
snapshot_id g none = none
snapshot_id g (some name) = elim (len name == 0) [
  | true ↦ none
  | false ↦ id_of (latest_for_feeder name g.snapshots)
]

unfoldable pub occasion_of : GridBooks → TradeProposal → Occasion
unfolding snapshot_id
occasion_of g t = record {
  trade_id = some t.trade_id;
  grid_snapshot_id = snapshot_id g t.feeder_id;
  at = t.at;
}

-- The judgement of the scenario, over the tables.
unfoldable pub judge :
    GridBooks
    → GridEngine
    → Occasion
    → Result GridError GridValidationRequest
    → GridBooks × Result GridError GridValidationRun
unfolding validate_scenario
judge g engine o (err e) = (g, err e)
judge g engine o (ok q) =
    let outcome = validate_scenario g.records engine q o in
    (record g { records = outcome.0 }, outcome.1)

unfoldable pub validate_trade :
    GridBooks → GridEngine → TradeProposal → GridBooks × Result GridError GridValidationRun
unfolding judge scenario_of occasion_of
validate_trade g engine t = judge g engine (occasion_of g t) (scenario_of g t)

abbrev pub is_negative_measure : Option Signed → Bool
is_negative_measure none = false
is_negative_measure (some x) = is_below_zero x

-- The checks of the table.
unfoldable pub is_snapshot_refused : GridSnapshot → Bool
unfolding less_signed
is_snapshot_refused s =
    is_negative_measure s.min_voltage_pu
    || (is_negative_measure s.max_voltage_pu
        || (elim (s.min_voltage_pu) [
          | none ↦ false
          | some lowest ↦ elim (s.max_voltage_pu) [
            | none ↦ false
            | some highest ↦ less_signed highest lowest
          ]
        ]
            || (is_negative_measure s.max_line_loading_pct
                || is_negative_measure s.transformer_loading_pct)))

-- `record_snapshot`, of the row but for its identifier.
unfoldable pub record_snapshot :
    GridSnapshot → GridBooks → Result GridError (GridSnapshot × GridBooks)
unfolding is_snapshot_refused
record_snapshot observed g = do
  let s = record observed { id = g.records.next_id }
  raise_if (is_snapshot_refused s) snapshot_refused
  ok (
    s,
    record g {
      records = record g.records { next_id = suc g.records.next_id };
      snapshots = s ∷ g.snapshots;
      announced = s ∷ g.announced;
    },
  )

unfoldable pub get_validation_run : GridBooks → ℕ → Result GridError GridValidationRun
unfolding find_row
get_validation_run g id =
    or_raise (find_row (λ (r : GridValidationRun). r.id) id g.records.runs) run_not_found

-- A run is ordered before another if it was created later.
abbrev pub is_later : GridValidationRun → GridValidationRun → Bool
is_later y x = ltb x.created_at y.created_at

abbrev pub is_run_of : ℕ → GridValidationRun → Bool
is_run_of trade_id run = elim (run.trade_id) [ none ↦ false | some id ↦ id == trade_id ]

-- `latest_for_trade`
unfoldable pub latest_run : ℕ → List GridValidationRun → Option GridValidationRun
unfolding filter first_by
latest_run trade_id runs = first_by is_later (filter (is_run_of trade_id) runs)
