-- ===== src/Identity/Evidence.antt =====
-- What stands behind a decision of eligibility: the evidence that the services of
-- backend/app/services/identity_service.py gather for domain/policies/eligibility.py.
use urja_setu.Base.{
  both, ◌≡◌, refl, ℕ, Bool, true, false, ◌&&◌, ltb, ◌⊎◌, inl, inr, Bool-cases, List, [], subst, ◌∷◌,
  ◌++◌, map, any, filter, In, here, there, if◌then◌else◌,
}
use urja_setu.Identity.Vocabulary.{
  VerificationLevel, no_level, self_declared, document_verified, discom_verified, rank,
}
use urja_setu.Identity.Eligibility.{VerificationEvidence, is_in_force, resolve_from}
use urja_setu.Identity.Service.{strongest_from, strongest}

module _ {A : Type 0} where
  skip-In : {a b c : A} {xs : List A} → In a (b ∷ xs) → In a (b ∷ c ∷ xs)
  skip-In here = here
  skip-In (there m) = there (there m)

  kept-In :
      (p : A → Bool) {a : A} (x : A) (xs : List A)
      → (In a (filter p xs) → In a xs × (p a ≡ true))
      → (b : Bool) → p x ≡ b
      → In a (if b then x ∷ filter p xs else filter p xs)
      → In a (x ∷ xs) × (p a ≡ true)
  kept-In p x xs rest true e here = (here, e)
  kept-In p x xs rest true e (there m) = let (n, t) = rest m in (there n, t)
  kept-In p x xs rest false e m = let (n, t) = rest m in (there n, t)

  pub filter-In : (p : A → Bool) {a : A} (xs : List A) → In a (filter p xs) → In a xs × (p a ≡ true)
  unfolding filter
  filter-In p [] m = elim m [ ]
  filter-In p (x ∷ xs) m = kept-In p x xs (filter-In p xs) (p x) refl m

  pub any-In : (p : A → Bool) (xs : List A) → any p xs ≡ true → (a : A) × In a xs × (p a ≡ true)
  unfolding any
  any-In p [] h = absurd cc
  any-In p (x ∷ xs) h = elim (Bool-cases (p x)) [
    | inl hit ↦ (x, here, hit)
    | inr miss ↦ let (a, m, hit) = any-In p xs (rw miss at h) in (a, there m, hit)
  ]

  pub append-In : {a : A} (xs ys : List A) → In a (xs ++ ys) → In a xs ⊎ In a ys
  append-In [] ys m = inr m
  append-In (x ∷ xs) ys here = inl here
  append-In (x ∷ xs) ys (there m) = elim (append-In xs ys m) [
    | inl n ↦ inl (there n)
    | inr n ↦ inr n
  ]

  split-In : {a b : A} {xs : List A} → In a (b ∷ xs) → (b ≡ a) ⊎ In a xs
  split-In here = inl refl
  split-In (there m) = inr m

  pub map-In :
      {B : Type 0} (f : B → A) {a : A} (xs : List B)
      → In a (map f xs)
      → (b : B) × In b xs × (f b ≡ a)
  map-In f [] m = elim m [ ]
  map-In f (x ∷ xs) m = elim (split-In m) [
    | inl e ↦ (x, here, e)
    | inr n ↦ let (b, k, e) = map-In f xs n in (b, there k, e)
  ]

strongest_from-In :
    (best : VerificationLevel) (levels : List VerificationLevel)
    → In (strongest_from best levels) (best ∷ levels)
unfolding strongest_from
strongest_from-In best [] = here
strongest_from-In best (level ∷ levels) = elim (Bool-cases (ltb (rank best) (rank level))) [
  | inl less ↦ rw less (there (strongest_from-In level levels))
  | inr more ↦ rw more (skip-In (strongest_from-In best levels))
]

is_top :
    (level : VerificationLevel)
    → ltb (rank level) (rank discom_verified) ≡ false
    → level ≡ discom_verified
unfolding rank
is_top no_level h = absurd cc
is_top self_declared h = absurd cc
is_top document_verified h = absurd cc
is_top discom_verified h = refl

-- The strongest of the levels is one of them.
pub strongest_at_top :
    (levels : List VerificationLevel) (last : VerificationLevel)
    → ltb (rank (strongest (levels ++ last ∷ []))) (rank discom_verified) ≡ false
    → In discom_verified levels ⊎ (last ≡ discom_verified)
unfolding strongest
strongest_at_top levels last h = elim (append-In levels (last ∷ []) (found levels last h)) [
  | inl m ↦ inl m
  | inr m ↦ inr (only m)
]
  where
    only : {x y : VerificationLevel} → In x (y ∷ []) → y ≡ x
    only here = refl
    only (there m) = elim m [ ]

    found :
        (levels : List VerificationLevel) (last : VerificationLevel)
        → ltb (rank (strongest (levels ++ last ∷ []))) (rank discom_verified) ≡ false
        → In discom_verified (levels ++ last ∷ [])
    found [] last h = subst (λ level. In level (last ∷ [])) (is_top last h) here
    found (level ∷ levels) last h =
        subst (λ l. In l (level ∷ levels ++ last ∷ []))
          (is_top (strongest_from level (levels ++ last ∷ [])) h)
          (strongest_from-In level (levels ++ last ∷ []))

-- A level that the records give is that of one in force.
pub resolve_from-In :
    (best : VerificationLevel) (evidence : List VerificationEvidence) (at : ℕ)
    → resolve_from best evidence at ≡ discom_verified
    → (best ≡ discom_verified)
      ⊎ ((e : VerificationEvidence) × In e evidence
          × (is_in_force e at ≡ true)
          × (e.level ≡ discom_verified))
unfolding resolve_from
resolve_from-In best [] at h = inl h
resolve_from-In best (e ∷ evidence) at h =
    elim (Bool-cases (is_in_force e at && ltb (rank best) (rank e.level))) [
      | inr passed ↦ later best e evidence at (resolve_from-In best evidence at (rw passed at h))
      | inl taken ↦ elim (resolve_from-In e.level evidence at (rw taken at h)) [
        | inl top ↦
            inr (e, here, (both (is_in_force e at) (ltb (rank best) (rank e.level)) taken).0, top)
        | inr (f, m, force, top) ↦ inr (f, there m, force, top)
      ]
    ]
  where
    later :
        (best : VerificationLevel) (e : VerificationEvidence) (evidence : List VerificationEvidence)
        (at : ℕ)
        → ((best ≡ discom_verified)
            ⊎ ((f : VerificationEvidence) × In f evidence
                × (is_in_force f at ≡ true)
                × (f.level ≡ discom_verified)))
        → ((best ≡ discom_verified)
            ⊎ ((f : VerificationEvidence) × In f (e ∷ evidence)
                × (is_in_force f at ≡ true)
                × (f.level ≡ discom_verified)))
    later best e evidence at (inl top) = inl top
    later best e evidence at (inr (f, m, force, top)) = inr (f, there m, force, top)
