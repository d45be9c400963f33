-- ===== src/Forecast/Placing.antt =====
-- The forecasts in order, and the points of one more run: backend/app/services/forecast_service.py.
use urja_setu.Base.{
  ◌≡◌, refl, ◌∙◌, ℕ, ◌+◌, ◌≤◌, ◌<◌, true, false, ◌==◌, ==_self, inl, inr, Bool-cases, some, List,
  [], ◌∷◌, ◌++◌, map, All, All-append, All-map, All-In, arith,
}
use urja_setu.Base.Rows.{find_row, update_row, find_row-In, find_row-append, find_row-update_other}
use urja_setu.Forecast.Contract.{ForecastRequest, PredictedPoint}
use urja_setu.Forecast.Store.{
  ForecastRun, ForecastPoint, Forecasts, are_reversed, is_completed, find_run,
}
use urja_setu.Forecast.Service.{row_of_point, set_run}
use urja_setu.Forecast.Horizon.{InHorizon}

-- The point belongs to a completed run, starts in its horizon, and is in order.
abbrev pub IsPlaced : List ForecastRun → ForecastPoint → Type 0
IsPlaced runs p =
    (run : ForecastRun) × (find_run p.forecast_run_id runs ≡ some run)
    × (is_completed run.status ≡ true)
    × (run.horizon_start ≤ p.interval_start)
    × (p.interval_start < run.horizon_end)
    × (p.interval_start < p.interval_end)
    × (are_reversed p.lower_bound p.upper_bound ≡ false)

pub record IsForecasts (f : Forecasts) : Type 0 where
  pub known : All (λ r. r.id < f.next_id) f.runs
  pub placed : All (IsPlaced f.runs) f.points

All-set_run :
    (P : ForecastRun → Type 0) (run : ForecastRun) (runs : List ForecastRun)
    → P run
    → All P runs
    → All P (set_run run runs)
unfolding set_run update_row
All-set_run P run [] p h = tt
All-set_run P run (r ∷ runs) p h = elim (Bool-cases (r.id == run.id)) [
  | inl same ↦ rw same (p, h.1)
  | inr other ↦ rw other (h.0, All-set_run P run runs p h.1)
]

pub find_new :
    (run : ForecastRun) (runs : List ForecastRun)
    → All (λ r. r.id < run.id) runs
    → find_run run.id (runs ++ run ∷ []) ≡ some run
unfolding find_row
find_new run [] h = rw (==_self run.id) refl
find_new run (r ∷ runs) h =
    let other : (r.id == run.id) ≡ false = ground (arith, h.0) in rw other (find_new run runs h.1)

pub IsPlaced-set_run :
    (n : ℕ) (runs : List ForecastRun) (begun run : ForecastRun) (p : ForecastPoint)
    → run.id ≡ n
    → All (λ r. r.id < n) runs
    → IsPlaced runs p
    → IsPlaced (set_run run (runs ++ begun ∷ [])) p
unfolding set_run
IsPlaced-set_run n runs begun run p same known (owner, found, done, begins, before, lasts, bounds) =
    let (owns, m) = find_row-In (λ (r : ForecastRun). r.id) p.forecast_run_id runs found in
    let less : owner.id < n = All-In (λ r. r.id < n) known m in
    let kept =
      find_row-update_other (λ (r : ForecastRun). r.id) p.forecast_run_id run.id (λ _. run)
        (runs ++ begun ∷ []) (λ r _. refl) (ground (arith, owns, less, same)) in
    (
      owner,
      kept ∙ find_row-append (λ (r : ForecastRun). r.id) p.forecast_run_id runs (begun ∷ []) found,
      done,
      begins,
      before,
      lasts,
      bounds,
    )

-- The points of a result that is stored stand in its run.
pub placed_rows :
    (runs : List ForecastRun) (request : ForecastRequest) (run : ForecastRun) (site : ℕ)
    (points : List PredictedPoint)
    → find_run run.id runs ≡ some run
    → is_completed run.status ≡ true
    → run.horizon_start ≡ request.horizon_start
    → run.horizon_end ≡ request.horizon_end
    → All (InHorizon request) points
    → All
        (λ p. are_reversed p.lower_bound p.upper_bound ≡ false)
        (map (row_of_point run.id site) points)
    → All (IsPlaced runs) (map (row_of_point run.id site) points)
unfolding row_of_point
placed_rows runs request run site [] found done s e h b = tt
placed_rows runs request run site (p ∷ points) found done s e h b = (
  (run, found, done, rw s h.0.0, rw e h.0.1, h.0.2, b.0),
  placed_rows runs request run site points found done s e h.1 b.1,
)

pub known_after :
    (f : Forecasts) (begun run : ForecastRun)
    → begun.id ≡ f.next_id
    → run.id ≡ f.next_id
    → All (λ r. r.id < f.next_id) f.runs
    → All (λ r. r.id < f.next_id + 1) (set_run run (f.runs ++ begun ∷ []))
known_after f begun run b r known =
    All-set_run (λ r. r.id < f.next_id + 1) run (f.runs ++ begun ∷ []) (omega (arith, r))
      (All-append (λ r. r.id < f.next_id + 1) f.runs (begun ∷ [])
        (All-map (λ (r : ForecastRun). r.id < f.next_id) (λ (r : ForecastRun). r.id < f.next_id + 1)
          f.runs (λ r less. omega (arith, less)) known)
        (omega (arith, b), tt))

pub IsPlaced-append :
    (runs : List ForecastRun) (run : ForecastRun) (p : ForecastPoint)
    → IsPlaced runs p
    → IsPlaced (runs ++ run ∷ []) p
IsPlaced-append runs run p (owner, found, rest, begins, before, lasts, bounds) = (
  owner,
  find_row-append (λ (r : ForecastRun). r.id) p.forecast_run_id runs (run ∷ []) found,
  rest,
  begins,
  before,
  lasts,
  bounds,
)
