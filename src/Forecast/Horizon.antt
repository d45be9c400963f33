-- ===== src/Forecast/Horizon.antt =====
-- What a result that passes the checks has: _validate_result of
-- backend/app/services/forecast_service.py, and the insertion of its points.
use urja_setu.Base.{
  test_passed, neither, ◌≡◌, sym, ◌∙◌, ℕ, ◌≤◌, ◌<◌, false, not, ◌&&◌, ltb, leb, none, some, List,
  [], ◌∷◌, ◌++◌, All, arith, ok, ok-injective, raise_if-eq-ok, append_assoc, append_none,
}
use urja_setu.Forecast.Contract.{ForecastRequest, PredictedPoint, ForecastResult}
use urja_setu.Forecast.Store.{ForecastPoint, are_reversed, is_point_refused}
use urja_setu.Forecast.Service.{add_points}
use urja_setu.Forecast.Checks.{no_points}
use urja_setu.Forecast.Checks.{problem_in, validate_result}

abbrev pub InHorizon : ForecastRequest → PredictedPoint → Type 0
InHorizon request p =
    (request.horizon_start ≤ p.interval_start)
    × (p.interval_start < request.horizon_end)
    × (p.interval_start < p.interval_end)

pub in_horizon :
    (start end at : ℕ) → not (leb start at && ltb at end) ≡ false → (start ≤ at) × (at < end)
in_horizon start end at h = ground arith

pub after : (start end : ℕ) → leb end start ≡ false → start < end
after start end h = ground arith

pub problem_in-none :
    (request : ForecastRequest) (seen : List ℕ) (points : List PredictedPoint)
    → problem_in request seen points ≡ none
    → All (InHorizon request) points
unfolding problem_in
problem_in-none request seen [] h = tt
problem_in-none request seen (p ∷ points) h =
    let (ordered, h1) = test_passed _ _ _ h in
    let (new, h2) = test_passed _ _ _ h1 in
    let (within, h3) = test_passed _ _ _ h2 in
    let (sure, rest) = test_passed _ _ _ h3 in
    let (begins, before) =
      in_horizon request.horizon_start request.horizon_end p.interval_start within in
    (
      (begins, before, after p.interval_start p.interval_end ordered),
      problem_in-none request (p.interval_start ∷ seen) points rest,
    )

pub validate_result-none :
    (result : ForecastResult) (request : ForecastRequest)
    → validate_result result request ≡ none
    → All (InHorizon request) result.points
unfolding validate_result
validate_result-none result request h =
    let (same, checked) = test_passed _ _ _ h in in_points request result.points checked
  where
    in_points :
        (request : ForecastRequest) (points : List PredictedPoint)
        → (elim points [ [] ↦ some no_points | p ∷ rest ↦ problem_in request [] (p ∷ rest) ]) ≡ none
        → All (InHorizon request) points
    in_points request [] h = tt
    in_points request (p ∷ points) h = problem_in-none request [] (p ∷ points) h

pub add_points-ok :
    (new points : List ForecastPoint) {left : List ForecastPoint}
    → add_points new points ≡ ok left
    → (left ≡ points ++ new) × All (λ p. are_reversed p.lower_bound p.upper_bound ≡ false) new
unfolding add_points is_point_refused
add_points-ok [] points h = (sym (ok-injective h) ∙ sym (append_none points), tt)
add_points-ok (p ∷ new) points h =
    let (taken, rest) = raise_if-eq-ok (is_point_refused p points) _ _ h in
    let (_, checked) = neither _ _ taken in
    let (_, bounds) = neither _ _ checked in
    let (appended, others) = add_points-ok new (points ++ p ∷ []) rest in
    (appended ∙ append_assoc points (p ∷ []) new, (bounds, others))
