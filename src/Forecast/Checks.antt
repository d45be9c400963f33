-- ===== src/Forecast/Checks.antt =====
-- What a request and the result of a provider are checked for: _validate_horizon and
-- _validate_result of backend/app/services/forecast_service.py.
use urja_setu.Base.{
  ℕ, Bool, false, not, ◌&&◌, ◌||◌, ◌==◌, ltb, leb, Option, none, some, List, [], ◌∷◌, any,
  if◌then◌else◌,
}
use urja_setu.Base.Decimal.{Signed, decimal, less, is_below_zero}
use urja_setu.Forecast.Contract.{same_type, ForecastRequest, PredictedPoint, ForecastResult}

-- What is wrong with the result of a provider.
pub data ProviderProblem : Type 0 where
  wrong_type no_points interval_reversed repeated_interval : ProviderProblem
  outside_horizon confidence_out_of_range : ProviderProblem

abbrev pub is_no_probability : Option Signed → Bool
is_no_probability none = false
is_no_probability (some c) = is_below_zero c || less (decimal 1 0) c.size

-- The loop over the points, with the intervals seen so far.
unfoldable pub problem_in :
    ForecastRequest → (seen : List ℕ) → List PredictedPoint → Option ProviderProblem
unfolding any less
problem_in request seen [] = none
problem_in request seen (p ∷ points) =
    let rest = problem_in request (p.interval_start ∷ seen) points in
    if leb p.interval_end p.interval_start
    then some interval_reversed
    else if any (λ start. start == p.interval_start) seen
    then some repeated_interval
    else if not
        (leb request.horizon_start p.interval_start && ltb p.interval_start request.horizon_end)
    then some outside_horizon
    else if is_no_probability p.confidence
    then some confidence_out_of_range
    else rest

-- `_validate_result`
unfoldable pub validate_result : ForecastResult → ForecastRequest → Option ProviderProblem
unfolding problem_in
validate_result result request =
    if not (same_type result.forecast_type request.forecast_type)
    then some wrong_type
    else elim result.points [
      | [] ↦ some no_points
      | p ∷ points ↦ problem_in request [] (p ∷ points)
    ]
