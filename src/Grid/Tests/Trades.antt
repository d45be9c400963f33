-- ===== src/Grid/Tests/Trades.antt =====
-- Judging trades and keeping snapshots on concrete input, and the theorem of trades at work on it.
use urja_setu.Base.{ℕ, Option, ◌≡◌, ◌↔◌, refl, none, some, [], ◌∷◌, err, map, filter}
use urja_setu.Base.Decimal.{decimal, plain, div, less, add_signed, fix}
use urja_setu.Base.Dict.{lookup, insert}
use urja_setu.Base.Sorting.{sorted}
use urja_setu.Grid.Contract.{
  substation, connection_point, GridValidationDecision, accept, NodeInjection, from_energy,
  combined_injections,
}
use urja_setu.Grid.Network.{GridNode}
use urja_setu.Grid.Policy.{default_limits}
use urja_setu.Grid.Service.{
  GridValidationRun, quantity_invalid, interval_invalid, snapshot_refused, run_not_found,
  validate_result, validate_scenario,
}
use urja_setu.Grid.Trades.{
  GridSnapshot, GridBooks, TradeProposal, validate_trade, record_snapshot, get_validation_run,
  snapshot_id,
}
use urja_setu.Grid.Transfer.{AcceptsTrade, IsSafeTransfer, validate_trade-IsSafeTransfer}
use urja_setu.Grid.Tests.{steady, no_records, scenario}

abbrev seller : GridNode
seller = record {
  id = 1;
  node_type = substation;
  nominal_voltage_kv = decimal 4 1;
  parent_node_id = none;
  feeder_id = some "F1";
  rated_capacity_kw = none;
}

abbrev buyer : GridNode
buyer = record seller {
  id = 2;
  node_type = connection_point;
  parent_node_id = some 1;
  rated_capacity_kw = some (decimal 25 0);
}

abbrev snapshot : GridSnapshot
snapshot = record {
  id = 0;
  feeder_id = some "F1";
  captured_at = 3;
  system_load_kw = some (plain (decimal 40 0));
  generation_kw = none;
  transformer_loading_pct = none;
  max_line_loading_pct = some (plain (decimal 60 0));
  min_voltage_pu = some (plain (decimal 97 2));
  max_voltage_pu = some (plain (decimal 102 2));
}

abbrev tables : GridBooks
tables = record {
  records = no_records;
  nodes = seller ∷ buyer ∷ [];
  snapshots = record snapshot { id = 9 } ∷ record snapshot { id = 8; captured_at = 4 } ∷ [];
  announced = [];
}

-- Three kilowatt hours in half an hour.
abbrev proposal : TradeProposal
proposal = record {
  trade_id = 7;
  seller_node_id = 1;
  buyer_node_id = 2;
  quantity_kwh = plain (decimal 3 0);
  delivery_start = 0;
  delivery_end = 1800000000;
  feeder_id = some "F1";
  baseline_injections = [];
  limits = default_limits;
  at = 5;
}

six_kilowatts :
    from_energy 1 (plain (decimal 3 0)) 1800000000
    ≡ some
        (record { node_id = 1; active_power_kw = plain (decimal 6000000000000000000000000000 27) })
unfolding from_energy div
six_kilowatts = refl

latest_observed : snapshot_id tables (some "F1") ≡ some 8
unfolding snapshot_id filter
latest_observed = refl

unnamed_feeder : snapshot_id tables (some "") ≡ none
unfolding snapshot_id
unnamed_feeder = refl

no_energy :
    (validate_trade tables steady (record proposal { quantity_kwh = plain (decimal 0 0) })).1
    ≡ err quantity_invalid
unfolding validate_trade
no_energy = refl

no_window :
    (validate_trade tables steady (record proposal { delivery_end = 0 })).1 ≡ err interval_invalid
unfolding validate_trade
no_window = refl

accepted_trade :
    map {B = Option ℕ × Option ℕ × GridValidationDecision}
      (λ (r : GridValidationRun). (r.trade_id, r.grid_snapshot_id, r.decision))
      (validate_trade tables steady proposal).0.records.runs
    ≡ (some 7, some 8, accept) ∷ []
unfolding validate_trade validate_scenario validate_result filter
accepted_trade = refl

reversed_voltages :
    record_snapshot (record snapshot { min_voltage_pu = some (plain (decimal 103 2)) }) tables
    ≡ err snapshot_refused
unfolding record_snapshot less
reversed_voltages = refl

no_run : get_validation_run tables 1 ≡ err run_not_found
unfolding get_validation_run
no_run = refl

-- The proposal is added to what the node injects already.
added_up :
    map {B = ℕ × ℕ}
      (λ (i : NodeInjection). (i.node_id, i.active_power_kw.size.coefficient))
      (combined_injections (record scenario {
        baseline_injections =
            record { node_id = 2; active_power_kw = plain (decimal 1 0) }
            ∷ record { node_id = 1; active_power_kw = plain (decimal 5 0) }
            ∷ [];
        proposed_injections = record { node_id = 2; active_power_kw = plain (decimal 2 0) } ∷ [];
      }))
    ≡ (1, 5) ∷ (2, 3) ∷ []
unfolding combined_injections sorted add_signed fix insert lookup
added_up = refl

validate_trade-IsSafeTransfer_example :
    AcceptsTrade (validate_trade tables steady proposal) ↔ IsSafeTransfer tables steady proposal
validate_trade-IsSafeTransfer_example = validate_trade-IsSafeTransfer tables steady proposal
