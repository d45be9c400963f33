-- ===== src/Base/Rows.antt =====
-- A table as the list of its rows: reading and writing the row of an identifier.
use Prim.Native.Nat.{ℕ}
use mathlib.Core.Path.{◌≡◌, refl, sym, ◌∙◌}
use mathlib.Core.Logic.{◌≢◌, inl, inr}
use mathlib.Core.Option.{Option, none, some}
use mathlib.Core.List.{List, [], ◌∷◌, ◌++◌}
use native.Mathlib.Omega.{arith}
use urja_setu.Base.Tests.{◌==◌, if◌then◌else◌, Bool-cases, ==_self, ==→eq}
use urja_setu.Base.Lists.{All, In, here, there}
use urja_setu.Base.Unique.{HasUnique}

module _ {A : Type 0} (key : A → ℕ) where
  -- `session.get(model, id)`
  unfoldable pub find_row : ℕ → List A → Option A
  find_row id [] = none
  find_row id (x ∷ xs) = if key x == id then some x else find_row id xs

  -- A write to the row of that identifier.
  unfoldable pub update_row : ℕ → (A → A) → List A → List A
  update_row id f [] = []
  update_row id f (x ∷ xs) = if key x == id then f x ∷ xs else x ∷ update_row id f xs

  pub find_row-In :
      (id : ℕ) (xs : List A) {a : A} → find_row id xs ≡ some a → (key a ≡ id) × In a xs
  unfolding find_row
  find_row-In id [] h = absurd cc
  find_row-In id (x ∷ xs) {a = a} h = elim (Bool-cases (key x == id)) [
    | inl same ↦
        let found : some x ≡ some a = rw same at h in
        let e : x ≡ a = cc in (rw (sym e) (==→eq (key x) id same), rw (sym e) here)
    | inr other ↦ let (k, m) = find_row-In id xs (rw other at h) in (k, there m)
  ]

  -- A property of every row outlives a write that gives it to the new row.
  pub All-update_row :
      (P Q : A → Type 0) (id : ℕ) (f : A → A) (xs : List A)
      → ((x : A) → key x ≡ id → P x → Q (f x))
      → ((x : A) → P x → (key x ≢ id → Q x))
      → HasUnique key xs
      → All P xs
      → All Q (update_row id f xs)
  unfolding update_row
  All-update_row P Q id f [] new old u h = tt
  All-update_row P Q id f (x ∷ xs) new old u h = elim (Bool-cases (key x == id)) [
    | inl same ↦
        let e : key x ≡ id = ==→eq (key x) id same in
        rw same (new x e h.0, others x id P Q xs e old u.0 h.1)
    | inr other ↦
        rw other
          (old x h.0 (ground (arith, ==_self id)), All-update_row P Q id f xs new old u.1 h.1)
  ]
    where
      others :
          (x : A) (id : ℕ) (P Q : A → Type 0) (xs : List A)
          → key x ≡ id
          → ((y : A) → P y → (key y ≢ id → Q y))
          → All (λ y. key y ≢ key x) xs
          → All P xs
          → All Q xs
      others x id P Q [] e old ne h = tt
      others x id P Q (y ∷ ys) e old ne h =
          (old y h.0 (λ same. ne.0 cc), others x id P Q ys e old ne.1 h.1)

  -- A write that keeps the identifier keeps them distinct.
  pub HasUnique-update_row :
      (id : ℕ) (f : A → A) (xs : List A)
      → ((x : A) → key x ≡ id → key (f x) ≡ id)
      → HasUnique key xs
      → HasUnique key (update_row id f xs)
  unfolding update_row
  HasUnique-update_row id f [] k u = tt
  HasUnique-update_row id f (x ∷ xs) k u = elim (Bool-cases (key x == id)) [
    | inl same ↦
        let e : key x ≡ id = ==→eq (key x) id same in
        let kept : key (f x) ≡ key x = k x e ∙ sym e in rw same (rw kept u.0, u.1)
    | inr other ↦ rw other (
      All-update_row (λ y. key y ≢ key x) (λ y. key y ≢ key x) id f xs
          (λ y e ne same. ne (e ∙ sym (k y e) ∙ same)) (λ y ne _. ne) u.1 u.0,
      HasUnique-update_row id f xs k u.1,
    )
  ]

  pub find_row-update_row :
      (id : ℕ) (f : A → A) (xs : List A) {a : A}
      → ((x : A) → key x ≡ id → key (f x) ≡ id)
      → find_row id xs ≡ some a
      → find_row id (update_row id f xs) ≡ some (f a)
  unfolding find_row update_row
  find_row-update_row id f [] k h = absurd cc
  find_row-update_row id f (x ∷ xs) {a = a} k h = elim (Bool-cases (key x == id)) [
    | inl same ↦
        let found : some x ≡ some a = rw same at h in
        let e : x ≡ a = cc in rw (same, k x (==→eq (key x) id same), ==_self id, e) refl
    | inr other ↦ rw (other, other) (find_row-update_row id f xs k (rw other at h))
  ]

  -- Neither a write to another row nor a new row at the end changes what is found.
  pub find_row-update_other :
      (j id : ℕ) (f : A → A) (xs : List A)
      → ((x : A) → key x ≡ id → key (f x) ≡ id)
      → j ≢ id
      → find_row j (update_row id f xs) ≡ find_row j xs
  unfolding find_row update_row
  find_row-update_other j id f [] k ne = refl
  find_row-update_other j id f (x ∷ xs) k ne =
      ground (arith, ==→eq (key x) id, k x, find_row-update_other j id f xs k ne)

  pub find_row-append :
      (id : ℕ) (xs ys : List A) {a : A} → find_row id xs ≡ some a → find_row id (xs ++ ys) ≡ some a
  unfolding find_row
  find_row-append id [] ys h = absurd cc
  find_row-append id (x ∷ xs) ys h = elim (Bool-cases (key x == id)) [
    | inl same ↦ rw same (rw same at h)
    | inr other ↦ rw other (find_row-append id xs ys (rw other at h))
  ]
