-- ===== src/Forecast/Surplus.antt =====
-- The expected surplus of a site: backend/app/domain/policies/surplus.py. Powers are counted in
-- ten-thousandths of a kW, and durations in microseconds, of whole seconds.
use urja_setu.Base.{ℕ, ◌-◌, not, ltb, Option, none, some, is_some, List, [], ◌∷◌, ◌++◌, map, filter}
use urja_setu.Base.Int.{ℤ, ◌-ℤ◌, pos_part}
use urja_setu.Base.Dict.{Dict, lookup, insert}
use urja_setu.Base.Sorting.{sorted}
use urja_setu.Base.Decimal.{Decimal, decimal, mul, div, plus, fix}

pub record SurplusPoint : Type 0 where
  pub interval_start : ℕ
  pub interval_end : ℕ
  pub generation_kw : Option ℤ
  pub load_kw : Option ℤ
  pub surplus_kw : Option ℤ

abbrev pub exportable_kw : SurplusPoint → ℕ
exportable_kw p = elim p.surplus_kw [ none ↦ 0 | some kw ↦ pos_part kw ]

abbrev pub zero_kwh : Decimal
zero_kwh = decimal 0 0

-- The loop, from the total so far.
unfoldable pub exportable_from : Decimal → List SurplusPoint → Decimal
unfolding mul div plus fix
exportable_from total [] = total
exportable_from total (p ∷ points) =
    let hours = div (decimal (p.interval_end - p.interval_start) 6) (decimal 3600 0) in
    exportable_from (fix (plus total (mul (decimal (exportable_kw p) 4) hours))) points

unfoldable pub total_exportable_kwh : List SurplusPoint → Decimal
unfolding exportable_from
total_exportable_kwh points = exportable_from zero_kwh points

-- A forecast interval: its start, its end, and what is predicted of it.
abbrev pub Predicted : Type 0
Predicted = ℕ × ℕ × Option ℤ

-- `{start: (end, value) for start, end, value in forecast}`
unfoldable pub by_start_from : Dict (ℕ × Option ℤ) → List Predicted → Dict (ℕ × Option ℤ)
unfolding insert
by_start_from d [] = d
by_start_from d ((start, end, value) ∷ forecast) =
    by_start_from (insert start (end, value) d) forecast

abbrev pub keys : Dict (ℕ × Option ℤ) → List ℕ
keys d = map (λ (entry : ℕ × (ℕ × Option ℤ)). entry.0) d

-- `sorted(gen.keys() | load.keys())`
unfoldable pub starts : Dict (ℕ × Option ℤ) → Dict (ℕ × Option ℤ) → List ℕ
unfolding sorted filter lookup
starts gen load =
    sorted ltb (keys gen ++ filter (λ start. not (is_some (lookup start gen))) (keys load))

abbrev pub value_in : Option (ℕ × Option ℤ) → Option ℤ
value_in none = none
value_in (some entry) = entry.1

abbrev pub difference : Option ℤ → Option ℤ → Option ℤ
difference (some gen) (some load) = some (gen -ℤ load)
difference _ _ = none

-- `gen_end or load_end`
abbrev pub end_of : Option (ℕ × Option ℤ) → Option (ℕ × Option ℤ) → Option ℕ
end_of (some gen) load = some gen.0
end_of none (some load) = some load.0
end_of none none = none

unfoldable pub points_at : Dict (ℕ × Option ℤ) → Dict (ℕ × Option ℤ) → List ℕ → List SurplusPoint
unfolding lookup ◌-ℤ◌
points_at gen load [] = []
points_at gen load (start ∷ rest) =
    let others = points_at gen load rest in
    elim (end_of (lookup start gen) (lookup start load)) [
      | none ↦ others
      | some end ↦
          record {
            interval_start = start;
            interval_end = end;
            generation_kw = value_in (lookup start gen);
            load_kw = value_in (lookup start load);
            surplus_kw = difference (value_in (lookup start gen)) (value_in (lookup start load));
          }
          ∷ others
    ]

unfoldable pub calculate_surplus : List Predicted → List Predicted → List SurplusPoint
unfolding by_start_from starts points_at
calculate_surplus generation consumption =
    let gen = by_start_from [] generation in
    let load = by_start_from [] consumption in points_at gen load (starts gen load)
