-- ===== src/Audit/Json/RoundTrip.antt =====
-- Canonical JSON is read back: `canonical_json` of backend/app/domain/policies/audit_chain.py.
use urja_setu.Base.{
  some-injective, ℕ, suc, ◌+◌, ◌-◌, ◌≤◌, ◌≡◌, refl, sym, ap, ◌∙◌, true, false, Option, some, [],
  ◌∷◌, ◌==◌, length, arith,
}
use urja_setu.Base.Int.{pos, negsuc}
use urja_setu.Audit.Value.{Text, Value, Json, null, string, boolean, number, object, array}
use urja_setu.Audit.Value.{Members, close, member, Elements, nil, cons}
use urja_setu.Audit.Text.{show_nat}
use urja_setu.Audit.Canonical.{>>=-eq-some, canonicalise}
use urja_setu.Audit.Json.{
  canonical_json, quote, dumps, dumps_members, dumps_further, dumps_elements, dumps_others,
}
use urja_setu.Audit.Json.Reading.{
  is_digit, read, read_nat, read_object, read_further, read_array, read_others,
}
use urja_setu.Audit.Json.Texts.{IsStop, read_nat-show_nat, show_from-cons, read_text-escape}

-- The fuel that reading a value back takes.
unfoldable mutual
  pub need : Json → ℕ
  need null = 2
  need (boolean b) = 2
  need (string t) = length t + 3
  need (number z) = 2
  need (object ms) = need_members ms + 3
  need (array es) = need_elements es + 3

  pub need_members : Members → ℕ
  need_members close = 1
  need_members (member k v ms) = length k + need v + need_members ms + 3

  pub need_elements : Elements → ℕ
  need_elements nil = 1
  need_elements (cons v es) = need v + need_elements es + 3

show_nat-cons :
    (n : ℕ) (rest : Text) → (c : ℕ) × (t : Text) × (show_nat n rest ≡ c ∷ t) × (is_digit c ≡ true)
unfolding show_nat
show_nat-cons n rest = show_from-cons n n rest (omega arith)

read-show_nat :
    (n fuel : ℕ) (rest : Text)
    → IsStop rest
    → read (suc fuel) (show_nat n rest) ≡ some (number (pos n), rest)
unfolding read
read-show_nat n fuel rest h =
    let (c, t, starts, digit) = show_nat-cons n rest in
    let value : read_nat 0 (c ∷ t) ≡ (n, rest) =
      ap (read_nat 0) (sym starts) ∙ read_nat-show_nat n rest h in
    rw starts (rw (digit, read) (rw value refl))

dumps_further-IsStop : (ms : Members) (rest : Text) → IsStop (dumps_further ms (b'}' ∷ rest))
unfolding dumps
dumps_further-IsStop close rest = refl
dumps_further-IsStop (member k v ms) rest = refl

dumps_others-IsStop : (es : Elements) (rest : Text) → IsStop (dumps_others es (b']' ∷ rest))
unfolding dumps
dumps_others-IsStop nil rest = refl
dumps_others-IsStop (cons v es) rest = refl

-- A value does not begin with a closing bracket.
dumps-cons :
    (j : Json) (rest : Text) → (c : ℕ) × (t : Text) × (dumps j rest ≡ c ∷ t) × ((c == b']') ≡ false)
unfolding dumps
dumps-cons null rest = (b'n', _, refl, refl)
dumps-cons (boolean true) rest = (b't', _, refl, refl)
dumps-cons (boolean false) rest = (b'f', _, refl, refl)
dumps-cons (string t) rest = (b'"', _, refl, refl)
dumps-cons (number (pos n)) rest =
    let (c, t, starts, digit) = show_nat-cons n rest in (c, t, starts, ground arith)
dumps-cons (number (negsuc n)) rest = (b'-', _, refl, refl)
dumps-cons (object ms) rest = (b'{', _, refl, refl)
dumps-cons (array es) rest = (b'[', _, refl, refl)

mutual
  unfolding read dumps need quote

  read-dumps :
      (j : Json) (fuel : ℕ) (rest : Text)
      → need j ≤ fuel
      → IsStop rest
      → read fuel (dumps j rest) ≡ some (j, rest)
  read-dumps null fuel rest h s = let e : fuel ≡ suc (suc (fuel - 2)) = omega arith in rw e refl
  read-dumps (boolean true) fuel rest h s =
      let e : fuel ≡ suc (suc (fuel - 2)) = omega arith in rw e refl
  read-dumps (boolean false) fuel rest h s =
      let e : fuel ≡ suc (suc (fuel - 2)) = omega arith in rw e refl
  read-dumps (string t) fuel rest h s =
      let e : fuel ≡ suc (suc (fuel - 2)) = omega arith in
      rw e (rw (read_text-escape t (fuel - 2) rest (omega arith)) refl)
  read-dumps (number (pos n)) fuel rest h s =
      let e : fuel ≡ suc (fuel - 1) = omega arith in rw e (read-show_nat n (fuel - 1) rest s)
  read-dumps (number (negsuc n)) fuel rest h s =
      let e : fuel ≡ suc (suc (fuel - 2)) = omega arith in
      rw e (rw (read_nat-show_nat (suc n) rest s) refl)
  read-dumps (object ms) fuel rest h s =
      let e : fuel ≡ suc (suc (fuel - 2)) = omega arith in
      rw e (rw (read_object-dumps_members ms (fuel - 2) rest (omega arith)) refl)
  read-dumps (array es) fuel rest h s =
      let e : fuel ≡ suc (suc (fuel - 2)) = omega arith in
      rw e (rw (read_array-dumps_elements es (fuel - 2) rest (omega arith)) refl)

  read_object-dumps_members :
      (ms : Members) (fuel : ℕ) (rest : Text)
      → need_members ms ≤ fuel
      → read_object fuel (dumps_members ms (b'}' ∷ rest)) ≡ some (ms, rest)
  read_object-dumps_members close fuel rest h =
      let e : fuel ≡ suc (fuel - 1) = omega arith in rw e refl
  read_object-dumps_members (member k v ms) fuel rest h =
      let e : fuel ≡ suc (suc (fuel - 2)) = omega arith in
      rw e (
        rw
          (
            read_text-escape k (fuel - 2) (b':' ∷ dumps v (dumps_further ms (b'}' ∷ rest)))
                (omega arith),
            read-dumps v (fuel - 2) (dumps_further ms (b'}' ∷ rest)) (omega arith)
                (dumps_further-IsStop ms rest),
            read_further-dumps_further ms (fuel - 2) rest (omega arith),
          )
          refl)

  read_further-dumps_further :
      (ms : Members) (fuel : ℕ) (rest : Text)
      → need_members ms ≤ fuel
      → read_further fuel (dumps_further ms (b'}' ∷ rest)) ≡ some (ms, rest)
  read_further-dumps_further close fuel rest h =
      let e : fuel ≡ suc (fuel - 1) = omega arith in rw e refl
  read_further-dumps_further (member k v ms) fuel rest h =
      let e : fuel ≡ suc (suc (fuel - 2)) = omega arith in
      rw e (
        rw
          (
            read_text-escape k (fuel - 2) (b':' ∷ dumps v (dumps_further ms (b'}' ∷ rest)))
                (omega arith),
            read-dumps v (fuel - 2) (dumps_further ms (b'}' ∷ rest)) (omega arith)
                (dumps_further-IsStop ms rest),
            read_further-dumps_further ms (fuel - 2) rest (omega arith),
          )
          refl)

  read_array-dumps_elements :
      (es : Elements) (fuel : ℕ) (rest : Text)
      → need_elements es ≤ fuel
      → read_array fuel (dumps_elements es (b']' ∷ rest)) ≡ some (es, rest)
  read_array-dumps_elements nil fuel rest h =
      let e : fuel ≡ suc (fuel - 1) = omega arith in rw e refl
  read_array-dumps_elements (cons v es) fuel rest h =
      let e : fuel ≡ suc (suc (fuel - 2)) = omega arith in
      let (c, t, starts, open_ended) = dumps-cons v (dumps_others es (b']' ∷ rest)) in
      let value : read (fuel - 2) (c ∷ t) ≡ some (v, dumps_others es (b']' ∷ rest)) =
        ap (read (fuel - 2)) (sym starts)
        ∙ read-dumps v (fuel - 2) (dumps_others es (b']' ∷ rest)) (omega arith)
            (dumps_others-IsStop es rest) in
      rw (e, starts)
        (rw (open_ended, read_array)
          (rw (value, read_others-dumps_others es (fuel - 2) rest (omega arith)) refl))

  read_others-dumps_others :
      (es : Elements) (fuel : ℕ) (rest : Text)
      → need_elements es ≤ fuel
      → read_others fuel (dumps_others es (b']' ∷ rest)) ≡ some (es, rest)
  read_others-dumps_others nil fuel rest h =
      let e : fuel ≡ suc (fuel - 1) = omega arith in rw e refl
  read_others-dumps_others (cons v es) fuel rest h =
      let e : fuel ≡ suc (suc (fuel - 2)) = omega arith in
      rw e (
        rw
          (
            read-dumps v (fuel - 2) (dumps_others es (b']' ∷ rest)) (omega arith)
                (dumps_others-IsStop es rest),
            read_others-dumps_others es (fuel - 2) rest (omega arith),
          )
          refl)

pub dumps-injective : (a b : Json) → dumps a [] ≡ dumps b [] → a ≡ b
dumps-injective a b h =
    let fuel = need a + need b in
    let same : Path (Option (Json × Text)) (some (a, [])) (some (b, [])) =
      sym (read-dumps a fuel [] (omega arith) tt)
      ∙ ap (read fuel) h
      ∙ read-dumps b fuel [] (omega arith) tt in
    ap (λ (r : Json × Text). r.0) (some-injective same)

-- Two values have the same canonical text only if they have the same canonical form: the bytes that
-- are hashed tell apart whatever canonicalisation tells apart.
pub canonical_json-injective :
    (v w : Value) {t : Text}
    → canonical_json v ≡ some t
    → canonical_json w ≡ some t
    → (j : Json) × (canonicalise v ≡ some j) × (canonicalise w ≡ some j)
unfolding canonical_json
canonical_json-injective v w h k =
    let (j, first, written) = >>=-eq-some (canonicalise v) _ h in
    let (i, second, again) = >>=-eq-some (canonicalise w) _ k in
    let same : i ≡ j = dumps-injective i j (some-injective again ∙ sym (some-injective written)) in
    (j, first, second ∙ ap some same)
