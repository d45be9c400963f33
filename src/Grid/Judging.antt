-- ===== src/Grid/Judging.antt =====
-- The judgements of `validate_scenario` (backend/app/services/grid_validation_service.py), with any
-- engine.
use urja_setu.Base.{
  not-false, append-eq-empty, ◌≡◌, refl, ◌↔◌, inl, inr, true, false, not, Bool-cases, Bool, List,
  [], ◌∷◌, map, filter, All, All-map, ℕ,
}
use urja_setu.Grid.Contract.{
  GridValidationStatus, safe, unsafe, unknown, accept, permits_trade, NetworkLine,
  NetworkTransformer, NetworkModel, GridViolation, GridValidationRequest, GridValidationResult,
  is_none, is_already, unrated_elements, caused_violations,
}
use urja_setu.Grid.Policy.{resolve_status, effective_status, decide}
use urja_setu.Grid.Service.{Occasion, Records, status_of, judged_run}

module _ {A : Type 0} where
  filter-eq-empty : (p : A → Bool) (xs : List A) → filter p xs ≡ [] → All (λ x. p x ≡ false) xs
  unfolding filter
  filter-eq-empty p [] h = tt
  filter-eq-empty p (x ∷ xs) h = elim (Bool-cases (p x)) [
    | inl kept ↦ let k : x ∷ filter p xs ≡ [] = rw kept at h in absurd cc
    | inr dropped ↦ (dropped, filter-eq-empty p xs (rw dropped at h))
  ]

  filter_of_none : (p : A → Bool) (xs : List A) → All (λ x. p x ≡ false) xs → filter p xs ≡ []
  unfolding filter
  filter_of_none p [] h = refl
  filter_of_none p (x ∷ xs) h = rw (h.0) (filter_of_none p xs h.1)

  map-eq-empty : {B : Type 0} (f : A → B) (xs : List A) → map f xs ≡ [] → xs ≡ []
  map-eq-empty f [] h = refl
  map-eq-empty f (x ∷ xs) h = absurd cc

-- The engine calls the network safe, every line and transformer has a rating, and every violation
-- was there before the trade.
pub record IsCleared (q : GridValidationRequest) (r : GridValidationResult) : Type 0 where
  pub reported : r.status ≡ safe
  pub rated_lines : All (λ (l : NetworkLine). is_none l.rating_kw ≡ false) q.network.lines
  pub rated_transformers :
      All (λ (t : NetworkTransformer). is_none t.rating_kw ≡ false) q.network.transformers
  pub causes_nothing :
      All (λ (v : GridViolation). is_already r.baseline_violations v ≡ true) r.violations

verdict-accept :
    (reported : GridValidationStatus) (unrated : List ℕ) (caused : List GridViolation)
    → decide (effective_status (resolve_status reported unrated) caused) caused ≡ accept
    → (reported ≡ safe) × (unrated ≡ []) × (caused ≡ [])
unfolding resolve_status effective_status decide permits_trade
verdict-accept safe [] [] h = (refl, refl, refl)
verdict-accept safe [] (_ ∷ _) h = absurd cc
verdict-accept safe (_ ∷ _) caused h = absurd cc
verdict-accept unsafe unrated [] h = absurd cc
verdict-accept unsafe unrated (_ ∷ _) h = absurd cc
verdict-accept unknown unrated caused h = absurd cc

verdict_of_cleared :
    {reported : GridValidationStatus} {unrated : List ℕ} {caused : List GridViolation}
    → reported ≡ safe
    → unrated ≡ []
    → caused ≡ []
    → decide (effective_status (resolve_status reported unrated) caused) caused ≡ accept
unfolding resolve_status effective_status decide permits_trade
verdict_of_cleared a b c = rw (a, b, c) refl

pub unrated-eq-empty :
    (n : NetworkModel)
    → unrated_elements n ≡ []
    → All (λ (l : NetworkLine). is_none l.rating_kw ≡ false) n.lines
      × All (λ (t : NetworkTransformer). is_none t.rating_kw ≡ false) n.transformers
unfolding unrated_elements
unrated-eq-empty n h =
    let (lines, transformers) = append-eq-empty _ _ h in
    (
      filter-eq-empty _ _ (map-eq-empty _ _ lines),
      filter-eq-empty _ _ (map-eq-empty _ _ transformers),
    )

not-true : (b : Bool) → b ≡ true → not b ≡ false
not-true true h = refl
not-true false h = absurd cc

caused-eq-empty :
    (r : GridValidationResult)
    → caused_violations r ≡ []
    → All (λ (v : GridViolation). is_already r.baseline_violations v ≡ true) r.violations
unfolding caused_violations
caused-eq-empty r h =
    All-map _ _ r.violations (λ v e. not-false _ e) (filter-eq-empty _ r.violations h)

pub unrated_of_rated :
    (n : NetworkModel)
    → All (λ (l : NetworkLine). is_none l.rating_kw ≡ false) n.lines
    → All (λ (t : NetworkTransformer). is_none t.rating_kw ≡ false) n.transformers
    → unrated_elements n ≡ []
unfolding unrated_elements
unrated_of_rated n lines transformers =
    rw
      (
        filter_of_none (λ (l : NetworkLine). is_none l.rating_kw) n.lines lines,
        filter_of_none (λ (t : NetworkTransformer). is_none t.rating_kw) n.transformers
            transformers,
      )
      refl

caused_of_none :
    (r : GridValidationResult)
    → All (λ (v : GridViolation). is_already r.baseline_violations v ≡ true) r.violations
    → caused_violations r ≡ []
unfolding caused_violations
caused_of_none r h =
    filter_of_none _ r.violations (All-map _ _ r.violations (λ v e. not-true _ e) h)

pub judged_run-accept :
    (s : Records) (q : GridValidationRequest) (r : GridValidationResult) (o : Occasion)
    → (judged_run s q r o).decision ≡ accept ↔ IsCleared q r
unfolding judged_run status_of
judged_run-accept s q r o = (
  λ h.
      let (reported, rated, nothing) = verdict-accept r.status _ _ h in
      let (lines, transformers) = unrated-eq-empty q.network rated in
      record {
        reported = reported;
        rated_lines = lines;
        rated_transformers = transformers;
        causes_nothing = caused-eq-empty r nothing;
      },
  λ c.
      verdict_of_cleared c.reported (unrated_of_rated q.network c.rated_lines c.rated_transformers)
        (caused_of_none r c.causes_nothing),
)
