-- ===== src/Pricing/Policy.antt =====
-- The component formula (backend/app/domain/policies/dynamic_pricing.py). A moment is a number of
-- microseconds. Percentages, confidences and the parameters but the fractions of the tariff bands
-- are not negative; what is computed from them by subtraction carries its sign.
use urja_setu.Base.{
  ℕ, ◌+◌, ◌/◌, ◌%◌, Bool, true, false, not, ◌&&◌, Option, none, some, List, [], ◌∷◌, ltb, leb, any,
  if◌then◌else◌,
}
use urja_setu.Base.Int.{ℤ, pos, pos_part, neg}
use urja_setu.Base.Decimal.{Decimal, decimal, mul, div, less, minus, least, greatest, plus}
use urja_setu.Market.Price.{quantize_price}
use urja_setu.Grid.Contract.{GridValidationStatus, safe, unsafe, unknown, GridMetrics}
use urja_setu.Pricing.Contract.{
  TimeOfDayBand, peak, solar, normal, PriceComponent, time, congestion, imbalance, local_renewable,
  PricingRequest,
}
use Prim.Native.String.{String}

-- A signed fraction of the base price.
pub record Fraction : Type 0 where
  pub negative : Bool
  pub size : Decimal

pub record TariffBand : Type 0 where
  pub band : TimeOfDayBand
  pub start_hour : ℕ
  pub end_hour : ℕ
  pub fraction : Fraction

unfoldable pub contains : TariffBand → ℕ → Bool
contains b hour = leb b.start_hour hour && ltb hour b.end_hour

pub record PricingParameters : Type 0 where
  pub formula_version : String
  pub engine_name : String
  pub local_utc_offset : ℕ
  pub tariff_bands : List TariffBand
  pub congestion_threshold_pct : Decimal
  pub congestion_max_fraction : Decimal
  pub imbalance_per_uncertainty : Decimal
  pub unknown_confidence_fraction : Decimal
  pub local_renewable_fraction : Decimal
  pub reprice_threshold_fraction : Decimal

abbrev pub same_band : TimeOfDayBand → TimeOfDayBand → Bool
same_band peak peak = true
same_band solar solar = true
same_band normal normal = true
same_band _ _ = false

-- The `__post_init__` of a band: hours within a day, and none that wraps midnight.
unfoldable pub is_valid_band : TariffBand → Bool
is_valid_band b =
    ltb b.start_hour 24 && ltb 0 b.end_hour && leb b.end_hour 24 && ltb b.start_hour b.end_hour

-- `max((-b.fraction for b in bands if b.fraction < ZERO), default=ZERO)`
unfoldable pub deepest_band_discount : List TariffBand → Decimal
deepest_band_discount [] = decimal 0 0
deepest_band_discount (b ∷ bands) =
    let rest = deepest_band_discount bands in
    if b.fraction.negative then greatest b.fraction.size rest else rest

unfoldable pub deepest_discount : PricingParameters → Decimal
unfolding deepest_band_discount
deepest_discount p = plus p.local_renewable_fraction (deepest_band_discount p.tariff_bands)

-- Each band is declared at most once.
unfoldable pub has_band : TimeOfDayBand → List TariffBand → Bool
has_band band bands = any (λ (b : TariffBand). same_band b.band band) bands

unfoldable pub are_distinct : List TariffBand → Bool
unfolding has_band
are_distinct [] = true
are_distinct (b ∷ bands) = not (has_band b.band bands) && are_distinct bands

unfoldable pub are_valid : List TariffBand → Bool
unfolding is_valid_band
are_valid [] = true
are_valid (b ∷ bands) = is_valid_band b && are_valid bands

-- The `__post_init__` of the parameters: `none` is the raised ValueError.
unfoldable pub checked_parameters : PricingParameters → Option PricingParameters
unfolding are_valid are_distinct deepest_discount
checked_parameters p =
    if are_valid p.tariff_bands
      && less (decimal 0 0) p.congestion_threshold_pct
      && less p.congestion_threshold_pct (decimal 100 0)
      && less (deepest_discount p) (decimal 1 0)
      && are_distinct p.tariff_bands
    then some p
    else none

-- `(moment + offset).hour`
unfoldable pub local_hour : ℕ → PricingParameters → ℕ
local_hour moment p = (moment + p.local_utc_offset) / 3600000000 % 24

unfoldable pub band_at : ℕ → List TariffBand → TimeOfDayBand
unfolding contains
band_at hour [] = normal
band_at hour (b ∷ bands) = if contains b hour then b.band else band_at hour bands

unfoldable pub band_for : ℕ → PricingParameters → TimeOfDayBand
unfolding local_hour band_at
band_for moment p = band_at (local_hour moment p) p.tariff_bands

abbrev pub no_fraction : Fraction
no_fraction = record { negative = false; size = decimal 0 0 }

-- `next((b.fraction for b in bands if b.band is band), ZERO)`
unfoldable pub fraction_of : TimeOfDayBand → List TariffBand → Fraction
fraction_of band [] = no_fraction
fraction_of band (b ∷ bands) = if same_band b.band band then b.fraction else fraction_of band bands

-- `quantize_price(base * fraction)`, of a base price that is not negative.
unfoldable pub part_of : (base_price : ℕ) → Fraction → ℤ
part_of base_price fraction =
    let part = pos (quantize_price (mul (decimal base_price 4) fraction.size)) in
    if fraction.negative then neg part else part

abbrev pub charge : Decimal → Fraction
charge size = record { negative = false; size = size }

unfoldable pub time_component : PricingRequest → PricingParameters → PriceComponent
unfolding band_for fraction_of part_of
time_component r p =
    let fraction = fraction_of (band_for r.delivery_start p) p.tariff_bands in
    record { kind = time; amount = part_of (pos_part r.base_price) fraction }

-- The larger of the loadings that were computed.
larger_of : Option Decimal → Option Decimal → Option Decimal
larger_of none b = b
larger_of (some a) none = some a
larger_of (some a) (some b) = some (greatest a b)

unfoldable pub utilisation_pct : Option GridMetrics → Option Decimal
unfolding larger_of
utilisation_pct none = none
utilisation_pct (some m) = larger_of m.max_line_loading_pct m.max_transformer_loading_pct

-- The surcharge of a safe network at a loading.
unfoldable pub loading_fraction : Option Decimal → PricingParameters → Fraction
unfolding minus least
loading_fraction none p = charge p.congestion_max_fraction
loading_fraction (some loading) p =
    if not (less p.congestion_threshold_pct loading)
    then no_fraction
    else let span = minus (decimal 100 0) p.congestion_threshold_pct in
      let over = minus (least loading (decimal 100 0)) p.congestion_threshold_pct in
      record {
        negative = if over.negative then not span.negative else span.negative;
        size = mul p.congestion_max_fraction (div over.size span.size);
      }

unfoldable pub congestion_fraction :
    GridValidationStatus → Option GridMetrics → PricingParameters → Fraction
unfolding utilisation_pct loading_fraction
congestion_fraction unsafe metrics p = charge p.congestion_max_fraction
congestion_fraction unknown metrics p = charge p.congestion_max_fraction
congestion_fraction safe metrics p = loading_fraction (utilisation_pct metrics) p

unfoldable pub congestion_component : PricingRequest → PricingParameters → PriceComponent
unfolding congestion_fraction part_of
congestion_component r p = record {
  kind = congestion;
  amount = part_of (pos_part r.base_price) (congestion_fraction r.grid_status r.grid_metrics p);
}

unfoldable pub imbalance_fraction : Option Decimal → PricingParameters → Fraction
unfolding minus least greatest
imbalance_fraction none p = charge p.unknown_confidence_fraction
imbalance_fraction (some confidence) p =
    let bounded = least (greatest confidence (decimal 0 0)) (decimal 1 0) in
    let uncertainty = minus (decimal 1 0) bounded in
    record {
      negative = uncertainty.negative;
      size = mul uncertainty.size p.imbalance_per_uncertainty;
    }

unfoldable pub imbalance_component : PricingRequest → PricingParameters → PriceComponent
unfolding imbalance_fraction part_of
imbalance_component r p = record {
  kind = imbalance;
  amount = part_of (pos_part r.base_price) (imbalance_fraction r.forecast_confidence p);
}

unfoldable pub local_renewable_component : PricingRequest → PricingParameters → PriceComponent
unfolding part_of
local_renewable_component r p =
    if not r.is_local_renewable then record { kind = local_renewable; amount = pos 0 } else record {
      kind = local_renewable;
      amount = neg (part_of (pos_part r.base_price) (charge p.local_renewable_fraction));
    }
