-- ===== src/Market/Price.antt =====
-- The clearing price of a pairing (backend/app/domain/policies/clearing_price.py). A price is a
-- whole number of ten-thousandths of a rupee per kWh.
use urja_setu.Base.{
  ℕ, ◌+◌, ◌*◌, ◌≤◌, ◌<◌, ◌≡◌, sym, subst, inl, inr, ltb→lt, Bool, Bool-cases, false, Option, none,
  some, arith, ltb, leb, if◌then◌else◌,
}
use urja_setu.Base.Decimal.{Decimal, decimal, quantize}

-- `none` where an order lacks its side's bound.
unfoldable pub prices_cross : Option ℕ → Option ℕ → Bool
prices_cross (some buy_max) (some sell_min) = leb sell_min buy_max
prices_cross _ _ = false

unfoldable pub quantize_price : Decimal → ℕ
unfolding quantize
quantize_price d = quantize 4 d

-- `none` is the raised PriceCrossError. A half of a sum of prices has five decimals.
unfoldable pub midpoint_clearing_price : ℕ → ℕ → Option ℕ
unfolding quantize_price
midpoint_clearing_price buy_max sell_min =
    if ltb buy_max sell_min
    then none
    else some (quantize_price (decimal ((buy_max + sell_min) * 5) 5))

-- Orders that cross get a price that lies between the two limits and splits the range evenly, to
-- within half a unit of the last place.
pub midpoint_between :
    (buy_max sell_min : ℕ)
    → sell_min ≤ buy_max
    → (p : ℕ) × (midpoint_clearing_price buy_max sell_min ≡ some p)
      × (sell_min ≤ p)
      × (p ≤ buy_max)
      × (buy_max + sell_min ≤ 2 * p)
      × (2 * p ≤ buy_max + sell_min + 1)
unfolding midpoint_clearing_price
midpoint_between b s h = (
  quantize_price (decimal ((b + s) * 5) 5),
  ground arith,
  omega arith,
  omega arith,
  omega arith,
  omega arith,
)

-- The prices that may clear two limits: none where they do not cross, and otherwise one between
-- them that splits the range evenly, to within half a unit of the last place.
pub data IsMidpoint (buy_max sell_min : ℕ) : Option ℕ → Type 0 where
  apart : buy_max < sell_min → IsMidpoint buy_max sell_min none
  between :
      (p : ℕ)
      → sell_min ≤ p
      → p ≤ buy_max
      → buy_max + sell_min ≤ 2 * p
      → 2 * p ≤ buy_max + sell_min + 1
      → IsMidpoint buy_max sell_min (some p)

-- Two limits that do not cross get no price, and two that cross get one that lies between them and
-- splits the range evenly, to within half a unit of the last place.
pub midpoint_clearing_price-IsMidpoint :
    (buy_max sell_min : ℕ) → IsMidpoint buy_max sell_min (midpoint_clearing_price buy_max sell_min)
unfolding midpoint_clearing_price
midpoint_clearing_price-IsMidpoint b s = elim (Bool-cases (ltb b s)) [
  | inl below ↦ rw below (apart (ltb→lt b s below))
  | inr meets ↦
      let (p, made, low, high, half, over) = midpoint_between b s (ground arith) in
      subst (IsMidpoint b s) (sym made) (between p low high half over)
]
