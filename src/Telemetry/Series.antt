-- ===== src/Telemetry/Series.antt =====
-- Series of rows: the latest interval and the recorded ones, of backend/app/repositories/telemetry.py.
use urja_setu.Base.{
  both, ◌≡◌, refl, sym, ap, ◌∙◌, ℕ, Bool, true, ◌||◌, ◌==◌, ==_self, ==→eq, inl, inr, Bool-cases,
  Option, none, some, List, [], ◌∷◌, ◌++◌, any, arith,
}
use urja_setu.Telemetry.Contract.{
  TelemetryReading, Series, eqb_asset, eqb_series, exists_for_interval, later, start_in,
  latest_interval_start,
}

eqb_asset→eq : (a b : Option ℕ) → eqb_asset a b ≡ true → a ≡ b
unfolding eqb_asset
eqb_asset→eq none none h = refl
eqb_asset→eq none (some b) h = absurd cc
eqb_asset→eq (some a) none h = absurd cc
eqb_asset→eq (some a) (some b) h = ap some (==→eq a b h)

eqb_asset_self : (a : Option ℕ) → eqb_asset a a ≡ true
unfolding eqb_asset
eqb_asset_self none = refl
eqb_asset_self (some a) = ==_self a

pub eqb_series→eq : (s t : Series) → eqb_series s t ≡ true → s ≡ t
unfolding eqb_series
eqb_series→eq s t h =
    let (m, a) = both (s.meter_of == t.meter_of) (eqb_asset s.asset_of t.asset_of) h in
    λ i. record {
      meter_of = ==→eq s.meter_of t.meter_of m i;
      asset_of = eqb_asset→eq s.asset_of t.asset_of a i;
    }

pub eqb_series_self : (s : Series) → eqb_series s s ≡ true
unfolding eqb_series
eqb_series_self s = rw (==_self s.meter_of) (eqb_asset_self s.asset_of)

pub any-append :
    {A : Type 0} (p : A → Bool) (xs ys : List A) → any p (xs ++ ys) ≡ (any p xs || any p ys)
unfolding any
any-append p [] ys = refl
any-append p (x ∷ xs) ys = elim (Bool-cases (p x)) [
  | inl passed ↦ rw passed refl
  | inr failed ↦ rw failed (any-append p xs ys)
]

pub exists_for_interval-append :
    (s : Series) (start : ℕ) (xs ys : List TelemetryReading)
    → exists_for_interval s start (xs ++ ys)
      ≡ (exists_for_interval s start xs || exists_for_interval s start ys)
unfolding exists_for_interval
exists_for_interval-append s start xs ys = any-append _ xs ys

pub later-none : (a : Option ℕ) → later a none ≡ a
unfolding later
later-none none = refl
later-none (some a) = refl

later_assoc : (a b c : Option ℕ) → later (later a b) c ≡ later a (later b c)
unfolding later
later_assoc none b c = refl
later_assoc (some a) none c = refl
later_assoc (some a) (some b) none = later-none (later (some a) (some b))
later_assoc (some a) (some b) (some c) = ground arith

pub latest_interval_start-append :
    (s : Series) (xs ys : List TelemetryReading)
    → latest_interval_start s (xs ++ ys)
      ≡ later (latest_interval_start s xs) (latest_interval_start s ys)
unfolding latest_interval_start later
latest_interval_start-append s [] ys = refl
latest_interval_start-append s (x ∷ xs) ys =
    ap (later (start_in s x)) (latest_interval_start-append s xs ys)
    ∙ sym (later_assoc (start_in s x) (latest_interval_start s xs) (latest_interval_start s ys))
