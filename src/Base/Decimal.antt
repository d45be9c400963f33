-- ===== src/Base/Decimal.antt =====
-- What the code uses of Python's `decimal`, on magnitudes: rounding half up by `quantize`, and the
-- product and the quotient in the default context of 28 digits, rounded half to even. Sums,
-- differences and comparisons of the program's quantities are exact in that context and are written
-- on plain numbers. A sign is carried beside the magnitude, as both roundings are symmetric.
use Prim.Native.Nat.{ℕ, zero, suc, ◌+◌, ◌-◌, ◌*◌, ◌/◌, ◌%◌, ◌^◌}
use mathlib.Core.Path.{◌≡◌, refl}
use mathlib.Core.Bool.{Bool, true, false, ◌&&◌}
use urja_setu.Base.Tests.{ltb, ◌==◌, if◌then◌else◌}

-- a / b to the nearest integer, halves upwards.
unfoldable pub div_half_up : ℕ → ℕ → ℕ
div_half_up a b = (2 * a + b) / (2 * b)

-- a / b to the nearest integer, halves to the even one.
unfoldable pub div_half_even : ℕ → ℕ → ℕ
div_half_even a b =
    let q = a / b in
    let twice = 2 * (a % b) in if ltb twice b then q else if ltb b twice then q + 1 else q + q % 2

-- The value is `coefficient` / 10 ^ `places`.
pub record Decimal : Type 0 where
  pub coefficient : ℕ
  pub places : ℕ

-- `len(str(n))`, on fuel; the number itself is enough.
digits_from : ℕ → ℕ → ℕ
digits_from zero n = 1
digits_from (suc fuel) n = elim (ltb n 10) [ true ↦ 1 | false ↦ suc (digits_from fuel (n / 10)) ]

unfoldable pub digits : ℕ → ℕ
unfolding digits_from
digits n = digits_from n n

abbrev pub precision : ℕ
precision = 28

-- Rounding to the context's precision.
unfoldable pub fix : Decimal → Decimal
unfolding digits div_half_even
fix d =
    let extra = digits d.coefficient - precision in
    if extra == 0 then d else record {
      coefficient = div_half_even d.coefficient (10 ^ extra);
      places = d.places - extra;
    }

unfoldable pub mul : Decimal → Decimal → Decimal
unfolding fix
mul a b = fix (record { coefficient = a.coefficient * b.coefficient; places = a.places + b.places })

-- A digit beyond the precision that keeps the rounding right where the quotient is not exact.
unfoldable pub sticky : ℕ → ℕ → ℕ
sticky quotient remainder =
    if remainder == 0 then quotient else if quotient % 5 == 0 then quotient + 1 else quotient

-- For a divisor that is not zero, and a dividend not over 29 digits longer than the divisor.
unfoldable pub div : Decimal → Decimal → Decimal
unfolding fix sticky digits
div a b =
    let shift = digits b.coefficient + precision + 1 - digits a.coefficient in
    let scaled = a.coefficient * 10 ^ shift in
    fix (record {
      coefficient = sticky (scaled / b.coefficient) (scaled % b.coefficient);
      places = a.places + shift - b.places;
    })

-- `value.quantize(Decimal(10) ** -places, rounding=ROUND_HALF_UP)`, as a number of quanta.
unfoldable pub quantize : ℕ → Decimal → ℕ
unfolding div_half_up
quantize places d = div_half_up (d.coefficient * 10 ^ places) (10 ^ d.places)

-- `a < b`
unfoldable pub less : Decimal → Decimal → Bool
less a b = ltb (a.coefficient * 10 ^ b.places) (b.coefficient * 10 ^ a.places)

abbrev pub decimal : ℕ → ℕ → Decimal
decimal coefficient places = record { coefficient = coefficient; places = places }

one_third : div (decimal 100000 4) (decimal 300000 4) ≡ decimal 3333333333333333333333333333 28
unfolding div
one_third = refl

two_thirds : (div (decimal 200000 4) (decimal 300000 4)).coefficient ≡ 6666666666666666666666666667
unfolding div
two_thirds = refl

half_up : quantize 2 (decimal 12345 3) ≡ 1235
unfolding quantize
half_up = refl

-- `a - b`, of a difference that is not negative; it is exact within the precision.
unfoldable pub subtract : Decimal → Decimal → Decimal
subtract a b = record {
  coefficient = a.coefficient * 10 ^ b.places - b.coefficient * 10 ^ a.places;
  places = a.places + b.places;
}

-- `min(a, b)`
unfoldable pub least : Decimal → Decimal → Decimal
unfolding less
least a b = if less b a then b else a

-- `max(a, b)`
unfoldable pub greatest : Decimal → Decimal → Decimal
unfolding less
greatest a b = if less a b then b else a

-- `a + b`; it is exact within the precision.
unfoldable pub plus : Decimal → Decimal → Decimal
plus a b = record {
  coefficient = a.coefficient * 10 ^ b.places + b.coefficient * 10 ^ a.places;
  places = a.places + b.places;
}

pub record Signed : Type 0 where
  pub negative : Bool
  pub size : Decimal

abbrev pub plain : Decimal → Signed
plain d = record { negative = false; size = d }

-- `a - b`; it is exact within the precision.
unfoldable pub minus : Decimal → Decimal → Signed
unfolding less subtract
minus a b =
    if less a b
    then record { negative = true; size = subtract b a }
    else record { negative = false; size = subtract a b }

-- `x < 0`
abbrev pub is_below_zero : Signed → Bool
is_below_zero x = x.negative && ltb 0 x.size.coefficient

-- `a < b`, of signed values.
unfoldable pub less_signed : Signed → Signed → Bool
unfolding less
less_signed a b =
    if is_below_zero a
    then (if is_below_zero b then less b.size a.size else true)
    else (if is_below_zero b then false else less a.size b.size)

-- `a + b`, rounded to the context's precision.
unfoldable pub add_signed : Signed → Signed → Signed
unfolding fix plus subtract less
add_signed a b = elim a.negative [
  | true ↦ elim b.negative [
    | true ↦ record { negative = true; size = fix (plus a.size b.size) }
    | false ↦
        if less a.size b.size
        then record { negative = false; size = fix (subtract b.size a.size) }
        else record { negative = true; size = fix (subtract a.size b.size) }
  ]
  | false ↦ elim b.negative [
    | true ↦
        if less a.size b.size
        then record { negative = true; size = fix (subtract b.size a.size) }
        else record { negative = false; size = fix (subtract a.size b.size) }
    | false ↦ record { negative = false; size = fix (plus a.size b.size) }
  ]
]
