-- ===== src/Base/Sorting.antt =====
-- Python's `sorted`: stable, by a strict order on the entries. `before y x` is `key(y) < key(x)`.
use mathlib.Core.Path.{◌≡◌, refl, sym, ap, ◌∙◌, subst}
use mathlib.Core.Bool.{Bool, true, false}
use mathlib.Core.Option.{Option, none, some}
use mathlib.Core.List.{List, [], ◌∷◌, ◌++◌, map}
use native.Mathlib.Omega.{arith}
use urja_setu.Base.Tests.{if◌then◌else◌, Bool-cases, some-injective}
use urja_setu.Base.Lists.{All, All-map, All-In, In, In-All, here, there}
use mathlib.Core.Logic.{◌⊎◌, inl, inr}

List-cases : {A : Type 0} (xs : List A) → (xs ≡ []) ⊎ ((x : A) × (rest : List A) × (xs ≡ x ∷ rest))
List-cases [] = inl refl
List-cases (x ∷ rest) = inr (x, rest, refl)

module _ {A : Type 0} (before : A → A → Bool) where
  -- The new entry stands in front of those that do not come before it.
  unfoldable pub insert_sorted : A → List A → List A
  insert_sorted x [] = x ∷ []
  insert_sorted x (y ∷ ys) = if before y x then y ∷ insert_sorted x ys else x ∷ y ∷ ys

  unfoldable pub sorted : List A → List A
  unfolding insert_sorted
  sorted [] = []
  sorted (x ∷ xs) = insert_sorted x (sorted xs)

  pub All-insert_sorted :
      (P : A → Type 0) (x : A) (ys : List A) → P x → All P ys → All P (insert_sorted x ys)
  unfolding insert_sorted
  All-insert_sorted P x [] p h = (p, tt)
  All-insert_sorted P x (y ∷ ys) p h = ground (arith, All-insert_sorted P x ys p)

  -- A property of every entry survives sorting.
  pub All-sorted : (P : A → Type 0) (xs : List A) → All P xs → All P (sorted xs)
  unfolding sorted
  All-sorted P [] h = tt
  All-sorted P (x ∷ xs) h = All-insert_sorted P x (sorted xs) h.0 (All-sorted P xs h.1)

  In-insert_sorted : {a : A} (x : A) (ys : List A) → In a (x ∷ ys) → In a (insert_sorted x ys)
  unfolding insert_sorted
  In-insert_sorted x [] m = m
  In-insert_sorted x (y ∷ ys) here = elim (Bool-cases (before y x)) [
    | inl b ↦ rw b (there (In-insert_sorted x ys here))
    | inr b ↦ rw b here
  ]
  In-insert_sorted x (y ∷ ys) (there here) = elim (Bool-cases (before y x)) [
    | inl b ↦ rw b here
    | inr b ↦ rw b (there here)
  ]
  In-insert_sorted x (y ∷ ys) (there (there m)) = elim (Bool-cases (before y x)) [
    | inl b ↦ rw b (there (In-insert_sorted x ys (there m)))
    | inr b ↦ rw b (there (there m))
  ]

  -- Sorting loses no entry.
  pub In-sorted : {a : A} (xs : List A) → In a xs → In a (sorted xs)
  unfolding sorted
  In-sorted [] m = elim m [ ]
  In-sorted (x ∷ xs) here = In-insert_sorted x (sorted xs) here
  In-sorted (x ∷ xs) (there m) = In-insert_sorted x (sorted xs) (there (In-sorted xs m))

  -- `ORDER BY … LIMIT 1`
  unfoldable pub first_by : List A → Option A
  unfolding sorted
  first_by xs = elim (sorted xs) [ [] ↦ none | x ∷ _ ↦ some x ]

  -- No entry comes before one that stands in front of it.
  abbrev pub IsSorted : List A → Type 0
  IsSorted [] = Unit
  IsSorted (x ∷ xs) = All (λ y. before y x ≡ false) xs × IsSorted xs

  module _ (asym : (x y : A) → before x y ≡ true → before y x ≡ false)
      (trans : (x y z : A) → before y x ≡ false → before z y ≡ false → before z x ≡ false) where
    insert_sorted-IsSorted : (x : A) (ys : List A) → IsSorted ys → IsSorted (insert_sorted x ys)
    unfolding insert_sorted
    insert_sorted-IsSorted x [] h = (tt, tt)
    insert_sorted-IsSorted x (y ∷ ys) h = elim (Bool-cases (before y x)) [
      | inl b ↦ rw b (
        All-insert_sorted (λ z. before z y ≡ false) x ys (asym y x b) h.0,
        insert_sorted-IsSorted x ys h.1,
      )
      | inr b ↦ rw b (
        (
          b,
          All-map (λ z. before z y ≡ false) (λ z. before z x ≡ false) ys (λ z. trans x y z b) h.0,
        ),
        h,
      )
    ]

    pub sorted-IsSorted : (xs : List A) → IsSorted (sorted xs)
    unfolding sorted
    sorted-IsSorted [] = tt
    sorted-IsSorted (x ∷ xs) = insert_sorted-IsSorted x (sorted xs) (sorted-IsSorted xs)

    head-least :
        {a y : A} {zs : List A}
        → before a a ≡ false
        → IsSorted (a ∷ zs)
        → In y (a ∷ zs)
        → before y a ≡ false
    head-least self s here = self
    head-least self s (there m) = All-In _ s.0 m

    -- What `ORDER BY … LIMIT 1` returns is a row, and no row comes before it.
    pub first_by-least :
        (irreflexive : (x : A) → before x x ≡ false) (xs : List A) {a : A}
        → first_by xs ≡ some a
        → In a xs × All (λ y. before y a ≡ false) xs
    unfolding first_by
    first_by-least irreflexive xs {a} h = elim (List-cases (sorted xs)) [
      | inl empty ↦ let e = rw (first_by, empty) at h in absurd cc
      | inr (x, rest, e) ↦
          let found : x ≡ a = some-injective (rw (first_by, e) at h) in
          let listed : All (λ y. In y xs) (x ∷ rest) =
            subst (All (λ y. In y xs)) e (All-sorted (λ y. In y xs) xs (In-All xs)) in
          let ordered : IsSorted (x ∷ rest) = subst IsSorted e (sorted-IsSorted xs) in
          rw (sym found) (
            listed.0,
            All-map _ _ xs
                (λ y m. head-least (irreflexive x) ordered (subst (In y) e (In-sorted xs m)))
                (In-All xs),
          )
    ]

sorted_append_leading :
    {A : Type 0} (before : A → A → Bool) (x : A) (ys : List A)
    → All (λ y. before x y ≡ true) ys
    → (rest : List A) × (sorted before (ys ++ x ∷ []) ≡ x ∷ rest)
unfolding sorted insert_sorted
sorted_append_leading before x [] h = ([], refl)
sorted_append_leading before x (y ∷ ys) h =
    let (rest, e) = sorted_append_leading before x ys h.1 in
    let step = h.0 in (insert_sorted before y rest, rw (e, step) refl)

-- An entry at the end that comes before all the others is the first.
pub first_by-append :
    {A : Type 0} (before : A → A → Bool) (x : A) (ys : List A)
    → All (λ y. before x y ≡ true) ys
    → first_by before (ys ++ x ∷ []) ≡ some x
unfolding first_by
first_by-append before x ys h =
    let (rest, e) = sorted_append_leading before x ys h in rw (first_by, e) refl

-- A map that keeps the order can be taken before the sorting.
module _ {A B : Type 0} (f : A → B) (before : A → A → Bool) (earlier : B → B → Bool)
    (same : (x y : A) → before x y ≡ earlier (f x) (f y)) where
  map-insert_sorted :
      (x : A) (ys : List A)
      → map f (insert_sorted before x ys) ≡ insert_sorted earlier (f x) (map f ys)
  unfolding insert_sorted
  map-insert_sorted x [] = refl
  map-insert_sorted x (y ∷ ys) = elim (Bool-cases (before y x)) [
    | inl b ↦ rw (b, sym (same y x) ∙ b) (ap (λ zs. f y ∷ zs) (map-insert_sorted x ys))
    | inr b ↦ rw (b, sym (same y x) ∙ b) refl
  ]

  pub map-sorted : (xs : List A) → map f (sorted before xs) ≡ sorted earlier (map f xs)
  unfolding sorted
  map-sorted [] = refl
  map-sorted (x ∷ xs) =
      map-insert_sorted x (sorted before xs) ∙ ap (insert_sorted earlier (f x)) (map-sorted xs)
