-- ===== src/Grid/Registry.antt =====
-- The committed records of `validate_scenario` (backend/app/services/grid_validation_service.py),
-- with any engine, right or wrong.
use urja_setu.Base.{
  ◌≡◌, ◌≢◌, refl, Option, none, some, is_some, List, ◌∷◌, filter, All, All-map, In, here, there, ok,
  err, Result, ℕ, ◌<◌, arith,
}
use urja_setu.Base.Unique.{HasUnique}
use urja_setu.Grid.Contract.{
  GridValidationStatus, safe, unsafe, unknown, accept, reject, permits_trade, GridViolation,
  GridValidationRequest, GridValidationResult, GridEngine,
}
use urja_setu.Grid.Policy.{decide}
use urja_setu.Grid.Service.{
  GridError, Occasion, GridValidationRun, Records, validate_result, failed_run, status_of,
  judged_run, record_run, notify, conclude, keep_result, ask_engine, check_scenario,
  validate_scenario,
}

-- A run is of a safe network if it accepts, and it rejects otherwise.
pub record IsVerdict (run : GridValidationRun) : Type 0 where
  pub accepts_safe : run.decision ≡ accept → run.status ≡ safe
  pub rejects_else : run.status ≢ safe → run.decision ≡ reject

-- The records that agree with each other.
pub record IsRegistry (s : Records) : Type 0 where
  pub verdicts : All IsVerdict s.runs
  pub audited : s.audits ≡ filter (λ (r : GridValidationRun). is_some r.trade_id) s.runs
  pub published : All (λ (r : GridValidationRun). In r s.runs) s.notices
  pub older : All (λ (r : GridValidationRun). r.id < s.next_id) s.runs
  pub distinct : HasUnique (λ (r : GridValidationRun). r.id) s.runs

decide-accept :
    (status : GridValidationStatus) (caused : List GridViolation)
    → decide status caused ≡ accept
    → status ≡ safe
unfolding decide permits_trade
decide-accept safe caused h = refl
decide-accept unsafe caused h = absurd cc
decide-accept unknown caused h = absurd cc

decide-reject :
    (status : GridValidationStatus) (caused : List GridViolation)
    → status ≢ safe
    → decide status caused ≡ reject
unfolding decide permits_trade
decide-reject safe caused h = absurd (h refl)
decide-reject unsafe caused h = refl
decide-reject unknown caused h = refl

judged_run-IsVerdict :
    (s : Records) (q : GridValidationRequest) (r : GridValidationResult) (o : Occasion)
    → IsVerdict (judged_run s q r o)
unfolding judged_run
judged_run-IsVerdict s q r o = record {
  accepts_safe = decide-accept (status_of q r) _;
  rejects_else = decide-reject (status_of q r) _;
}

failed_run-IsVerdict :
    (s : Records) (engine : GridEngine) (o : Occasion) → IsVerdict (failed_run s engine o)
unfolding failed_run
failed_run-IsVerdict s engine o = record { accepts_safe = λ h. absurd cc; rejects_else = λ _. refl }

audited_with :
    (run : GridValidationRun) (runs audits : List GridValidationRun)
    → audits ≡ filter (λ (r : GridValidationRun). is_some r.trade_id) runs
    → (trade : Option ℕ) → run.trade_id ≡ trade
    → (elim trade [ none ↦ audits | some _ ↦ run ∷ audits ])
      ≡ filter (λ (r : GridValidationRun). is_some r.trade_id) (run ∷ runs)
unfolding filter
audited_with run runs audits h none e = rw e h
audited_with run runs audits h (some _) e = rw (e, h) refl

record_run-IsRegistry :
    (s : Records) (run : GridValidationRun)
    → IsRegistry s
    → IsVerdict run
    → run.id ≡ s.next_id
    → IsRegistry (record_run s run)
unfolding record_run
record_run-IsRegistry s run h v new = record {
  verdicts = (v, h.verdicts);
  audited = audited_with run s.runs s.audits h.audited (run.trade_id) refl;
  published = All-map _ _ s.notices (λ r m. there m) h.published;
  older = (omega arith, All-map _ _ s.runs (λ r lt. omega arith) h.older);
  distinct = (All-map _ _ s.runs (λ r lt same. omega arith) h.older, h.distinct);
}

module _ (s : Records) (engine : GridEngine) (q : GridValidationRequest) (o : Occasion) where
  keep_result-IsRegistry :
      (r : GridValidationResult) (passed : Result GridError (Unit {0}))
      → IsRegistry s
      → IsRegistry (keep_result s q r o passed).0
  unfolding keep_result notify record_run judged_run
  keep_result-IsRegistry r (err e) h = h
  keep_result-IsRegistry r (ok _) h =
      let run = judged_run s q r o in
      let k = record_run-IsRegistry s run h (judged_run-IsVerdict s q r o) refl in
      record {
        verdicts = k.verdicts;
        audited = k.audited;
        published = (here, k.published);
        older = k.older;
        distinct = k.distinct;
      }

  conclude-IsRegistry :
      (answer : Option GridValidationResult)
      → IsRegistry s
      → IsRegistry (conclude s engine q o answer).0
  unfolding conclude failed_run
  conclude-IsRegistry none h =
      record_run-IsRegistry s (failed_run s engine o) h (failed_run-IsVerdict s engine o) refl
  conclude-IsRegistry (some r) h = keep_result-IsRegistry r (validate_result r) h

  ask_engine-IsRegistry :
      (allowed : Result GridError (Unit {0}))
      → IsRegistry s
      → IsRegistry (ask_engine s engine q o allowed).0
  unfolding ask_engine
  ask_engine-IsRegistry (err e) h = h
  ask_engine-IsRegistry (ok _) h = conclude-IsRegistry (engine.validate q) h

  -- With any engine, judging a scenario keeps the registry: a run that accepts is of a safe network
  -- and any other network is rejected, the audited runs are those of trades, in order, every
  -- published run is committed, and no two runs have one identifier.
  pub validate_scenario-IsRegistry : IsRegistry s → IsRegistry (validate_scenario s engine q o).0
  unfolding validate_scenario
  validate_scenario-IsRegistry h = ask_engine-IsRegistry (check_scenario q) h
