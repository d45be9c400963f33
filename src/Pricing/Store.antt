-- ===== src/Pricing/Store.antt =====
-- The rows that pricing reads and writes: backend/app/db/models/pricing.py, and what is read of a
-- trade. The widths of the columns are those of the table: twelve digits, four of them decimal, and
-- a version of 64 characters.
use urja_setu.Base.{
  ℕ, Bool, true, false, not, leb, ltb, ◌==◌, ◌||◌, if◌then◌else◌, Option, List, filter,
}
use urja_setu.Base.Int.{ℤ, pos, abs, ◌+ℤ◌, ltb_ℤ, eqb_ℤ}
use urja_setu.Base.Sorting.{first_by}
use urja_setu.Market.Store.{Order}
use urja_setu.Grid.Network.{GridNode}
use urja_setu.Grid.Service.{GridValidationRun}
use urja_setu.Forecast.Store.{ForecastPoint}
use urja_setu.Identity.Store.{EnergyAsset}
use urja_setu.Pricing.Check.{PricingEngineError}
use Prim.Native.String.{String, len}

pub record PricedTrade : Type 0 where
  pub id : ℕ
  pub buy_order_id : ℕ
  pub sell_order_id : ℕ
  pub quantity_kwh : ℤ
  pub clearing_price : ℤ
  pub delivery_start : ℕ
  pub delivery_end : ℕ
  pub grid_validation_id : Option ℕ

-- `rank` is the place of the random identifier in the order of identifiers.
pub record PriceComponents : Type 0 where
  pub id : ℕ
  pub rank : ℕ
  pub created_at : ℕ
  pub trade_id : ℕ
  pub base_market_price : ℤ
  pub time_component : ℤ
  pub congestion_component : ℤ
  pub imbalance_component : ℤ
  pub local_renewable_component : ℤ
  pub final_price : ℤ
  pub formula_version : String

-- The committed rows; the breakdowns, the events and the notices with the oldest first. Identifiers
-- are random: `rank_of` gives the rank of the one that each new row draws, and may be any function.
pub record PriceBooks : Type 0 where
  pub trades : List PricedTrade
  pub orders : List Order
  pub validations : List GridValidationRun
  pub forecasts : List ForecastPoint
  pub nodes : List GridNode
  pub assets : List EnergyAsset
  pub breakdowns : List PriceComponents
  pub events : List PriceComponents
  pub notices : List PriceComponents
  pub next_id : ℕ
  pub rank_of : ℕ → ℕ

-- What a call raises; `row_refused` is what the database raises.
pub data PricingError : Type 0 where
  trade_not_found breakdown_not_found row_refused : PricingError
  engine_error : PricingEngineError → PricingError

unfoldable pub row_sum : PriceComponents → ℤ
row_sum r =
    r.base_market_price +ℤ r.time_component +ℤ r.congestion_component +ℤ r.imbalance_component
    +ℤ r.local_renewable_component

-- An amount that does not fit its column.
abbrev pub overflows : ℤ → Bool
overflows x = leb 1000000000000 (abs x)

unfoldable pub has_overflow : PriceComponents → Bool
has_overflow r =
    overflows r.base_market_price
    || (overflows r.time_component
        || (overflows r.congestion_component
            || (overflows r.imbalance_component
                || (overflows r.local_renewable_component
                    || (overflows r.final_price || ltb 64 (len r.formula_version))))))

-- The table does not take the row.
unfoldable pub is_row_refused : PriceComponents → Bool
unfolding row_sum has_overflow
is_row_refused r =
    has_overflow r
    || (not (eqb_ℤ (row_sum r) r.final_price)
        || (ltb_ℤ r.base_market_price (pos 0)
            || (ltb_ℤ r.final_price (pos 0)
                || (ltb_ℤ r.congestion_component (pos 0)
                    || (ltb_ℤ r.imbalance_component (pos 0)
                        || ltb_ℤ (pos 0) r.local_renewable_component)))))

-- A breakdown that is ordered before another: the later one, and of one time the one
-- whose identifier is the greater.
abbrev pub is_newer : PriceComponents → PriceComponents → Bool
is_newer y x =
    if ltb x.created_at y.created_at
    then true
    else if ltb y.created_at x.created_at
    then false
    else ltb x.rank y.rank

-- `PriceComponentsRepository.latest_for_trade`
unfoldable pub latest_breakdown : ℕ → List PriceComponents → Option PriceComponents
unfolding filter first_by
latest_breakdown trade_id rows =
    first_by is_newer (filter (λ (r : PriceComponents). r.trade_id == trade_id) rows)
