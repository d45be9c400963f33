-- ===== src/Pricing/Assembly.antt =====
-- What a price depends on, collected for a trade: `build_request` of
-- backend/app/services/pricing_service.py and what it calls.
use urja_setu.Base.{
  ℕ, Bool, true, false, ◌&&◌, ◌==◌, ltb, if◌then◌else◌, Option, none, some, List, [], ◌∷◌, any,
  filter,
}
use urja_setu.Base.Int.{ℤ, pos_part, ltb_ℤ}
use urja_setu.Base.Decimal.{Decimal, decimal}
use urja_setu.Base.Rows.{find_row}
use urja_setu.Base.Sorting.{sorted}
use urja_setu.Market.Store.{Order, find_order}
use urja_setu.Grid.Contract.{GridValidationStatus, unknown, GridMetrics, GridViolation}
use urja_setu.Grid.Network.{GridNode}
use urja_setu.Grid.Service.{GridValidationRun}
use urja_setu.Grid.Trades.{latest_run}
use urja_setu.Forecast.Store.{ForecastPoint}
use urja_setu.Identity.Vocabulary.{EnergyAssetType, pv, EnergyAssetStatus, in_service}
use urja_setu.Identity.Store.{EnergyAsset}
use urja_setu.Pricing.Contract.{PricingRequest}
use urja_setu.Pricing.Store.{PricedTrade, PriceBooks}
use Prim.Native.String.{compare}
use Prim.Native.Nat.{Ordering}

-- The run that the trade cites.
unfoldable pub cited_run : PricedTrade → List GridValidationRun → Option GridValidationRun
unfolding find_row
cited_run t runs = elim (t.grid_validation_id) [
  | none ↦ none
  | some id ↦ find_row (λ (r : GridValidationRun). r.id) id runs
]

-- The run that counts for the trade: the cited one, or else the latest.
unfoldable pub run_for : PricedTrade → List GridValidationRun → Option GridValidationRun
unfolding cited_run latest_run
run_for t runs = elim (cited_run t runs) [ some run ↦ some run | none ↦ latest_run t.id runs ]

pub record GridState : Type 0 where
  pub status : GridValidationStatus
  pub metrics : Option GridMetrics
  pub caused_violations : List GridViolation
  pub grid_validation_id : Option ℕ

abbrev pub state_of : Option GridValidationRun → GridState
state_of none = record {
  status = unknown;
  metrics = none;
  caused_violations = [];
  grid_validation_id = none;
}
state_of (some run) = record {
  status = run.status;
  metrics = some run.metrics;
  caused_violations = [];
  grid_validation_id = some run.id;
}

-- `_grid_state`
unfoldable pub grid_state : PricedTrade → List GridValidationRun → GridState
unfolding run_for
grid_state t runs = state_of (run_for t runs)

abbrev pub starts_before : ForecastPoint → ForecastPoint → Bool
starts_before x y = ltb x.interval_start y.interval_start

-- `ForecastPointRepository.list_for_run`
unfoldable pub list_for_run : ℕ → List ForecastPoint → List ForecastPoint
unfolding filter sorted
list_for_run run points =
    sorted starts_before (filter (λ (p : ForecastPoint). p.forecast_run_id == run) points)

abbrev pub overlaps : PricedTrade → ForecastPoint → Bool
overlaps t p = ltb p.interval_start t.delivery_end && ltb t.delivery_start p.interval_end

-- The confidences of the points that cover the delivery.
unfoldable pub covering : PricedTrade → List ForecastPoint → List ℤ
covering t [] = []
covering t (p ∷ points) =
    let rest = covering t points in
    elim (p.confidence) [ none ↦ rest | some c ↦ if overlaps t p then c ∷ rest else rest ]

-- `min(...)`, of a list that is not empty.
unfoldable pub least_of : List ℤ → Option ℤ
least_of [] = none
least_of (c ∷ cs) =
    let rest = least_of cs in
    elim rest [ none ↦ some c | some least ↦ if ltb_ℤ least c then some least else some c ]

-- A column that a check keeps between zero and one.
abbrev pub of_column : Option ℤ → Option Decimal
of_column none = none
of_column (some c) = some (decimal (pos_part c) 4)

-- `_forecast_confidence`
unfoldable pub forecast_confidence :
    Option Order → PricedTrade → List ForecastPoint → Option Decimal
unfolding list_for_run covering least_of
forecast_confidence none t points = none
forecast_confidence (some order) t points = elim (order.forecast_basis_id) [
  | none ↦ none
  | some run ↦ of_column (least_of (covering t (list_for_run run points)))
]

abbrev pub find_node : ℕ → List GridNode → Option GridNode
find_node id nodes = find_row (λ (n : GridNode). n.id) id nodes

-- Both nodes have a feeder, and it is one.
unfoldable pub on_one_feeder : Option GridNode → Option GridNode → Bool
on_one_feeder (some buyer) (some seller) = elim (buyer.feeder_id) [
  | none ↦ false
  | some a ↦ elim (seller.feeder_id) [
    | none ↦ false
    | some b ↦ elim (compare a b) [ Ordering.eq ↦ true | _ ↦ false ]
  ]
]
on_one_feeder _ _ = false

-- `_same_feeder`
unfoldable pub same_feeder : List GridNode → (buyer seller : Option ℕ) → Bool
unfolding on_one_feeder find_row
same_feeder nodes (some buyer) (some seller) =
    on_one_feeder (find_node buyer nodes) (find_node seller nodes)
same_feeder nodes _ _ = false

abbrev pub is_pv : EnergyAssetType → Bool
is_pv pv = true
is_pv _ = false

abbrev pub is_in_service : EnergyAssetStatus → Bool
is_in_service in_service = true
is_in_service _ = false

-- An active PV asset of the site.
abbrev pub is_active_pv : ℕ → EnergyAsset → Bool
is_active_pv site a = (a.site_id == site) && (is_pv a.asset_type && is_in_service a.status)

-- `_is_local_renewable`
unfoldable pub is_local_renewable : Option Order → Option Order → PriceBooks → Bool
unfolding same_feeder any
is_local_renewable (some bought) (some sold) b =
    same_feeder b.nodes bought.node_id sold.node_id && any (is_active_pv sold.site_id) b.assets
is_local_renewable _ _ b = false

abbrev pub basis_of : Option Order → Option ℕ
basis_of none = none
basis_of (some order) = order.forecast_basis_id

unfoldable pub build_request : PriceBooks → PricedTrade → PricingRequest
unfolding grid_state forecast_confidence is_local_renewable
build_request b t =
    let grid = grid_state t b.validations in
    let sold = find_order t.sell_order_id b.orders in
    let bought = find_order t.buy_order_id b.orders in
    record {
      base_price = t.clearing_price;
      quantity_kwh = t.quantity_kwh;
      delivery_start = t.delivery_start;
      delivery_end = t.delivery_end;
      grid_status = grid.status;
      grid_metrics = grid.metrics;
      caused_violations = grid.caused_violations;
      forecast_confidence = forecast_confidence sold t b.forecasts;
      is_local_renewable = is_local_renewable bought sold b;
      trade_id = some t.id;
      grid_validation_id = grid.grid_validation_id;
      forecast_basis_id = basis_of sold;
    }
