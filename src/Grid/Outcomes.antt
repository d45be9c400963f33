-- ===== src/Grid/Outcomes.antt =====
-- What `validate_scenario` returns and keeps (backend/app/services/grid_validation_service.py), with
-- any engine, right or wrong.
use urja_setu.Base.{
  ◌≡◌, ◌≢◌, refl, ap, ◌∙◌, ◌↔◌, true, false, Bool, Option, none, some, List, [], ◌∷◌, ok, err,
  Result, raise_if, raise_if-eq-ok, ok-injective, leb, is_empty, ◌<◌, arith,
}
use urja_setu.Grid.Contract.{accept, GridValidationRequest, GridValidationResult, GridEngine}
use urja_setu.Grid.Service.{
  GridError, Occasion, GridValidationRun, Records, validate_result, judged_run, conclude,
  keep_result, ask_engine, check_scenario, validate_scenario,
}
use urja_setu.Grid.Judging.{IsCleared, judged_run-accept}

-- The call returns a run, and it accepts.
pub record Accepts (outcome : Records × Result GridError GridValidationRun) : Type 0 where
  pub run : GridValidationRun
  pub returned : outcome.1 ≡ ok run
  pub accepted : run.decision ≡ accept

-- The scenario is well-formed, and the engine has cleared it in an answer that passes the check.
pub record IsShownSafe (engine : GridEngine) (q : GridValidationRequest) : Type 0 where
  pub interval : q.interval_start < q.interval_end
  pub network : q.network.nodes ≢ []
  pub result : GridValidationResult
  pub answered : engine.validate q ≡ some result
  pub checked : validate_result result ≡ ok tt
  pub cleared : IsCleared q result

raise_if-passed : (b : Bool) (e : GridError) → raise_if b e ≡ ok tt → b ≡ false
raise_if-passed true e h = absurd cc
raise_if-passed false e h = refl

is_empty→ne : {A : Type 0} (xs : List A) → is_empty xs ≡ false → xs ≢ []
is_empty→ne [] h e = absurd cc
is_empty→ne (x ∷ xs) h e = absurd cc

is_empty_of_ne : {A : Type 0} (xs : List A) → xs ≢ [] → is_empty xs ≡ false
is_empty_of_ne [] h = absurd (h refl)
is_empty_of_ne (x ∷ xs) h = refl

check_scenario-eq-ok :
    (q : GridValidationRequest)
    → check_scenario q ≡ ok tt
    → (q.interval_start < q.interval_end) × (q.network.nodes ≢ [])
unfolding check_scenario
check_scenario-eq-ok q h =
    let (interval, rest) = raise_if-eq-ok (leb q.interval_end q.interval_start) _ _ h in
    (ground arith, is_empty→ne q.network.nodes (raise_if-passed _ _ rest))

check_scenario_of :
    (q : GridValidationRequest)
    → q.interval_start < q.interval_end
    → q.network.nodes ≢ []
    → check_scenario q ≡ ok tt
unfolding check_scenario
check_scenario_of q interval network =
    let positive : leb q.interval_end q.interval_start ≡ false = ground arith in
    rw (positive, is_empty_of_ne q.network.nodes network) refl

module _ (s : Records) (engine : GridEngine) (q : GridValidationRequest) (o : Occasion) where
  keep_result-Accepts :
      (r : GridValidationResult) (passed : Result GridError (Unit {0}))
      → Accepts (keep_result s q r o passed)
      → (passed ≡ ok tt) × IsCleared q r
  unfolding keep_result
  keep_result-Accepts r (err e) a = let h = a.returned in absurd cc
  keep_result-Accepts r (ok _) a = (
    refl,
    (judged_run-accept s q r o).0
        (ap (λ (x : GridValidationRun). x.decision) (ok-injective a.returned) ∙ a.accepted),
  )

  keep_result-of_cleared :
      (r : GridValidationResult) (passed : Result GridError (Unit {0}))
      → passed ≡ ok tt
      → IsCleared q r
      → Accepts (keep_result s q r o passed)
  unfolding keep_result
  keep_result-of_cleared r (err e) h c = absurd cc
  keep_result-of_cleared r (ok _) h c = record {
    run = judged_run s q r o;
    returned = refl;
    accepted = (judged_run-accept s q r o).1 c;
  }

  conclude-Accepts :
      (answer : Option GridValidationResult)
      → Accepts (conclude s engine q o answer)
      → (r : GridValidationResult) × (answer ≡ some r) × (validate_result r ≡ ok tt) × IsCleared q r
  unfolding conclude
  conclude-Accepts none a = let e = a.returned in absurd cc
  conclude-Accepts (some r) a =
      let (passed, cleared) = keep_result-Accepts r (validate_result r) a in
      (r, refl, passed, cleared)

  ask_engine-Accepts :
      (allowed : Result GridError (Unit {0}))
      → Accepts (ask_engine s engine q o allowed)
      → (allowed ≡ ok tt)
        × (r : GridValidationResult) × (engine.validate q ≡ some r)
        × (validate_result r ≡ ok tt)
        × IsCleared q r
  unfolding ask_engine
  ask_engine-Accepts (err e) a = let h = a.returned in absurd cc
  ask_engine-Accepts (ok u) a =
      let (r, answered, checked, cleared) = conclude-Accepts (engine.validate q) a in
      (refl, r, answered, checked, cleared)

  -- With any engine, a scenario is accepted if and only if its interval is positive, its network
  -- has a node, and the engine answers with a result that passes the check, calls the network
  -- safe, and reports no violation that was not there before the trade, while every line and
  -- every transformer of the network has a rating.
  pub validate_scenario-Accepts : Accepts (validate_scenario s engine q o) ↔ IsShownSafe engine q
  unfolding validate_scenario ask_engine conclude
  validate_scenario-Accepts = (
    λ a.
        let (allowed, r, answered, checked, cleared) = ask_engine-Accepts (check_scenario q) a in
        let (interval, network) = check_scenario-eq-ok q allowed in
        record {
          interval = interval;
          network = network;
          result = r;
          answered = answered;
          checked = checked;
          cleared = cleared;
        },
    λ h.
        rw (check_scenario_of q h.interval h.network, h.answered)
          (keep_result-of_cleared h.result (validate_result h.result) h.checked h.cleared),
  )
