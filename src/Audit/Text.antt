-- ===== src/Audit/Text.antt =====
-- The texts that `canonicalise` of backend/app/domain/policies/audit_chain.py asks Python for:
-- `format(value, "f")` of a Decimal, `isoformat` of a moment in UTC and `str` of a UUID; and the
-- order of texts by code points.
use urja_setu.Base.{
  ℕ, zero, suc, ◌+◌, ◌-◌, ◌*◌, ◌/◌, ◌%◌, ◌^◌, ◌≡◌, refl, Bool, true, false, [], ◌∷◌, ltb, leb, ◌==◌,
  if◌then◌else◌,
}
use urja_setu.Base.Decimal.{Decimal, decimal}
use urja_setu.Audit.Value.{Text, codes}

-- `a <= b` of texts.
unfoldable pub leb_text : Text → Text → Bool
leb_text [] b = true
leb_text (x ∷ a) [] = false
leb_text (x ∷ a) (y ∷ b) = if ltb x y then true else if ltb y x then false else leb_text a b

unfoldable pub eqb_text : Text → Text → Bool
eqb_text [] [] = true
eqb_text (x ∷ a) (y ∷ b) = if x == y then eqb_text a b else false
eqb_text _ _ = false

-- The decimal digits of a number before a text, on fuel; the number itself is enough.
unfoldable pub show_from : ℕ → ℕ → Text → Text
show_from zero n rest = (48 + n) ∷ rest
show_from (suc fuel) n rest = elim (ltb n 10) [
  | true ↦ (48 + n) ∷ rest
  | false ↦ show_from fuel (n / 10) ((48 + n % 10) ∷ rest)
]

unfoldable pub show_nat : ℕ → Text → Text
unfolding show_from
show_nat n rest = show_from n n rest

-- The last `width` digits of a number, with leading zeros.
unfoldable pub padded : ℕ → ℕ → Text → Text
padded zero n rest = rest
padded (suc width) n rest = padded width (n / 10) ((48 + n % 10) ∷ rest)

unfoldable pub fraction_text : Decimal → Text
unfolding padded
fraction_text d =
    if d.places == 0 then [] else b'.' ∷ padded d.places (d.coefficient % 10 ^ d.places) []

-- `format(value, "f")`
unfoldable pub decimal_text : Bool → Decimal → Text
unfolding show_nat fraction_text
decimal_text negative d =
    let digits = show_nat (d.coefficient / 10 ^ d.places) (fraction_text d) in
    if negative then b'-' ∷ digits else digits

pub record Civil : Type 0 where
  pub year : ℕ
  pub month : ℕ
  pub day : ℕ

-- The date that is `days` after 1970-01-01, counted by eras of 400 years from 0000-03-01.
unfoldable pub civil : ℕ → Civil
civil days =
    let z = days + 719468 in
    let doe = z % 146097 in
    let yoe = (doe + doe / 36524 - doe / 1460 - doe / 146096) / 365 in
    let doy = doe - (365 * yoe + yoe / 4 - yoe / 100) in
    let mp = (5 * doy + 2) / 153 in
    let month = if ltb mp 10 then mp + 3 else mp - 9 in
    record {
      year = yoe + z / 146097 * 400 + (if leb month 2 then 1 else 0);
      month = month;
      day = doy - (153 * mp + 2) / 5 + 1;
    }

-- `isoformat(timespec="microseconds")` in UTC.
unfoldable pub moment_text : ℕ → Text
unfolding padded civil
moment_text t =
    let date = civil (t / 86400000000) in
    let seconds = t / 1000000 in
    padded 4 date.year (
      b'-'
      ∷ padded 2 date.month (
          b'-'
          ∷ padded 2 date.day (
              b'T'
              ∷ padded 2 (seconds / 3600 % 24) (
                  b':'
                  ∷ padded 2 (seconds / 60 % 60) (
                      b':'
                      ∷ padded 2 (seconds % 60)
                          (b'.' ∷ padded 6 (t % 1000000) (codes "+00:00")))))))

unfoldable pub hex_digit : ℕ → ℕ
hex_digit n = if ltb n 10 then 48 + n else 87 + n

-- The last `width` hexadecimal digits.
unfoldable pub hex : ℕ → ℕ → Text → Text
unfolding hex_digit
hex zero n rest = rest
hex (suc width) n rest = hex width (n / 16) (hex_digit (n % 16) ∷ rest)

-- `str` of a UUID of that value.
unfoldable pub uuid_text : ℕ → Text
unfolding hex
uuid_text n = hex 8 (n / 16 ^ 24) (
    b'-'
    ∷ hex 4 (n / 16 ^ 20)
        (b'-' ∷ hex 4 (n / 16 ^ 16) (b'-' ∷ hex 4 (n / 16 ^ 12) (b'-' ∷ hex 12 n []))))

a_price : decimal_text true (decimal 60500 4) ≡ codes "-6.0500"
unfolding decimal_text
a_price = refl

a_moment : moment_text 1785542400123456 ≡ codes "2026-08-01T00:00:00.123456+00:00"
unfolding moment_text
a_moment = refl

a_leap_day : moment_text 1709164800000000 ≡ codes "2024-02-29T00:00:00.000000+00:00"
unfolding moment_text
a_leap_day = refl

a_uuid :
    uuid_text 24197857161011715162171839636988778096 ≡ codes "12345678-1234-5678-1234-567812345670"
unfolding uuid_text
a_uuid = refl
