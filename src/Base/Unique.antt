-- ===== src/Base/Unique.antt =====
-- Lists in which no identifier stands twice.
use Prim.Native.Nat.{ℕ}
use mathlib.Core.Path.{◌≡◌, refl, sym}
use mathlib.Core.Logic.{◌≢◌, inl, inr}
use mathlib.Core.Bool.{Bool}
use mathlib.Core.List.{List, [], ◌∷◌, ◌++◌, map}
use urja_setu.Base.Tests.{Bool-cases}
use urja_setu.Base.Lists.{All, All-map, All-In, All-append, In, here, there, filter, All-filter}
use urja_setu.Base.Sorting.{sorted, insert_sorted, All-sorted, All-insert_sorted}

pub In-map : {A B : Type 0} (f : A → B) {a : A} (xs : List A) → In a xs → In (f a) (map f xs)
In-map f [] m = elim m [ ]
In-map f (x ∷ xs) here = here
In-map f (x ∷ xs) (there m) = there (In-map f xs m)

pub All-of-map :
    {A B : Type 0} (f : A → B) (P : B → Type 0) (xs : List A)
    → All (λ x. P (f x)) xs
    → All P (map f xs)
All-of-map f P [] h = tt
All-of-map f P (x ∷ xs) h = (h.0, All-of-map f P xs h.1)

module _ {A : Type 0} (id : A → ℕ) where
  abbrev pub HasUnique : List A → Type 0
  HasUnique [] = Unit
  HasUnique (x ∷ xs) = All (λ y. id y ≢ id x) xs × HasUnique xs

  -- The entries of a list that carry an entry's id are that entry.
  pub HasUnique-In :
      {e : A} (xs : List A) → HasUnique xs → In e xs → All (λ x. id x ≡ id e → x ≡ e) xs
  HasUnique-In [] u m = elim m [ ]
  HasUnique-In (x ∷ xs) u here = (
    λ _. refl,
    All-map (λ y. id y ≢ id x) (λ y. id y ≡ id x → y ≡ x) xs (λ y ne same. absurd (ne same)) u.0,
  )
  HasUnique-In {e} (x ∷ xs) u (there m) =
      (λ same. absurd (All-In (λ y. id y ≢ id x) u.0 m (sym same)), HasUnique-In xs u.1 m)

  pub HasUnique-filter : (p : A → Bool) (xs : List A) → HasUnique xs → HasUnique (filter p xs)
  unfolding filter
  HasUnique-filter p [] u = tt
  HasUnique-filter p (x ∷ xs) u = elim (Bool-cases (p x)) [
    | inl kept ↦ rw kept (
      All-map _ (λ y. id y ≢ id x) (filter p xs) (λ y h. h.0)
          (All-filter (λ y. id y ≢ id x) p xs u.0),
      HasUnique-filter p xs u.1,
    )
    | inr dropped ↦ rw dropped (HasUnique-filter p xs u.1)
  ]

  HasUnique-insert_sorted :
      (before : A → A → Bool) (x : A) (ys : List A)
      → All (λ y. id y ≢ id x) ys
      → HasUnique ys
      → HasUnique (insert_sorted before x ys)
  unfolding insert_sorted
  HasUnique-insert_sorted before x [] ne u = (tt, tt)
  HasUnique-insert_sorted before x (y ∷ ys) ne u = elim (Bool-cases (before y x)) [
    | inl b ↦ rw b (
      All-insert_sorted before (λ z. id z ≢ id y) x ys (λ same. ne.0 (sym same)) u.0,
      HasUnique-insert_sorted before x ys ne.1 u.1,
    )
    | inr b ↦ rw b (ne, u)
  ]

  pub HasUnique-sorted :
      (before : A → A → Bool) (xs : List A) → HasUnique xs → HasUnique (sorted before xs)
  unfolding sorted
  HasUnique-sorted before [] u = tt
  HasUnique-sorted before (x ∷ xs) u =
      HasUnique-insert_sorted before x (sorted before xs)
        (All-sorted before (λ y. id y ≢ id x) xs u.0) (HasUnique-sorted before xs u.1)

  -- One more entry, of a new identifier.
  pub HasUnique-append :
      (xs : List A) (x : A) → HasUnique xs → All (λ y. id y ≢ id x) xs → HasUnique (xs ++ x ∷ [])
  HasUnique-append [] x u new = (tt, tt)
  HasUnique-append (y ∷ xs) x u new = (
    All-append (λ z. id z ≢ id y) xs (x ∷ []) u.0 (λ same. new.0 (sym same), tt),
    HasUnique-append xs x u.1 new.1,
  )

pub HasUnique-map :
    {A B : Type 0} (f : A → B) (id : B → ℕ) (xs : List A)
    → HasUnique (λ x. id (f x)) xs
    → HasUnique id (map f xs)
HasUnique-map f id [] u = tt
HasUnique-map f id (x ∷ xs) u =
    (All-of-map f (λ y. id y ≢ id (f x)) xs u.0, HasUnique-map f id xs u.1)
