-- ===== src/Telemetry/Stages.antt =====
-- What the dictionaries of a batch answer after a write: backend/app/services/telemetry_service.py.
use urja_setu.Base.{
  ◌≡◌, refl, sym, ap, ◌∙◌, ℕ, Bool, true, false, inl, inr, Bool-cases, some, List, [], ◌∷◌,
  if◌then◌else◌,
}
use urja_setu.Telemetry.Contract.{Series, eqb_series}
use urja_setu.Telemetry.Series.{eqb_series→eq, eqb_series_self}
use urja_setu.Telemetry.Staged.{staged_at, stage}

staged_at-stage :
    (s t : Series) (start : ℕ) (staged : List (Series × ℕ))
    → staged_at t (stage s start staged)
      ≡ (if eqb_series s t then some start else staged_at t staged)
unfolding staged_at stage
staged_at-stage s t start [] = refl
staged_at-stage s t start ((u, old) ∷ staged) = elim (Bool-cases (eqb_series u s)) [
  | inl same ↦ elim (Bool-cases (eqb_series s t)) [
    | inl hit ↦ rw (same, hit) refl
    | inr miss ↦
        let skipped : eqb_series u t ≡ false =
          ap (λ v. eqb_series v t) (eqb_series→eq u s same) ∙ miss in
        rw (same, miss, skipped) refl
  ]
  | inr other ↦ elim (Bool-cases (eqb_series u t)) [
    | inl hit ↦ elim (Bool-cases (eqb_series s t)) [
      | inl both ↦
          let us : u ≡ s = eqb_series→eq u t hit ∙ sym (eqb_series→eq s t both) in
          let same : eqb_series u s ≡ true = ap (eqb_series u) (sym us) ∙ eqb_series_self u in
          absurd cc
      | inr miss ↦ rw (other, hit, miss) refl
    ]
    | inr miss ↦ rw (other, miss) (staged_at-stage s t start staged)
  ]
]

pub staged_at_if :
    (b : Bool) (s t : Series) (start : ℕ) (staged : List (Series × ℕ))
    → staged_at t (if b then stage s start staged else staged) ≡ (
        if b
        then (if eqb_series s t then some start else staged_at t staged)
        else staged_at t staged)
staged_at_if true s t start staged = staged_at-stage s t start staged
staged_at_if false s t start staged = refl

pub same_either : {A : Type 0} (b : Bool) (x : A) → (if b then x else x) ≡ x
same_either true x = refl
same_either false x = refl
