-- ===== src/Audit/Json/Texts.antt =====
-- Reading back what is written of numbers and of texts.
use urja_setu.Base.{
  ap, ==→eq, ℕ, zero, suc, ◌+◌, ◌-◌, ◌*◌, ◌/◌, ◌%◌, ◌≤◌, ◌<◌, ◌≡◌, refl, ◌∙◌, true, false, Option,
  some, [], ◌∷◌, ltb, ◌==◌, if◌then◌else◌, Bool-cases, inl, inr, length, arith,
}
use urja_setu.Audit.Value.{Text}
use urja_setu.Audit.Text.{show_from, show_nat, hex_digit}
use urja_setu.Audit.Canonical.{◌>>=◌}
use urja_setu.Audit.Json.{escape_char, escape}
use urja_setu.Audit.Json.Reading.{is_digit, read_nat, hex_value, read_char, read_text}

-- The text does not begin with a digit.
abbrev pub IsStop : Text → Type 0
IsStop [] = Unit
IsStop (c ∷ t) = is_digit c ≡ false

read_nat_of_stop : (n : ℕ) (rest : Text) → IsStop rest → read_nat n rest ≡ (n, rest)
unfolding read_nat
read_nat_of_stop n [] h = refl
read_nat_of_stop n (c ∷ t) h = rw h refl

read_nat_step :
    (acc d m : ℕ) (rest : Text)
    → d < 10
    → acc * 10 + d ≡ m
    → read_nat acc ((48 + d) ∷ rest) ≡ read_nat m rest
unfolding read_nat
read_nat_step acc d m rest h e =
    let digit : is_digit (48 + d) ≡ true = ground arith in
    let value : acc * 10 + (48 + d - 48) ≡ m = omega arith in rw (digit, value) refl

read_nat-show_from :
    (fuel n : ℕ) (rest : Text) → n ≤ fuel → read_nat 0 (show_from fuel n rest) ≡ read_nat n rest
unfolding show_from
read_nat-show_from zero n rest h = read_nat_step 0 n n rest (omega arith) (omega arith)
read_nat-show_from (suc fuel) n rest h = elim (Bool-cases (ltb n 10)) [
  | inl small ↦ rw (small, show_from) (read_nat_step 0 n n rest (ground arith) (omega arith))
  | inr large ↦
      rw (large, show_from)
        (read_nat-show_from fuel (n / 10) ((48 + n % 10) ∷ rest) (ground arith)
          ∙ read_nat_step (n / 10) (n % 10) n rest (omega arith) (omega arith))
]

pub read_nat-show_nat :
    (n : ℕ) (rest : Text) → IsStop rest → read_nat 0 (show_nat n rest) ≡ (n, rest)
unfolding show_nat
read_nat-show_nat n rest h = read_nat-show_from n n rest (omega arith) ∙ read_nat_of_stop n rest h

-- A number begins with a digit.
pub show_from-cons :
    (fuel n : ℕ) (rest : Text)
    → n ≤ fuel
    → (c : ℕ) × (t : Text) × (show_from fuel n rest ≡ c ∷ t) × (is_digit c ≡ true)
unfolding show_from
show_from-cons zero n rest h = (48 + n, rest, refl, ground arith)
show_from-cons (suc fuel) n rest h = elim (Bool-cases (ltb n 10)) [
  | inl small ↦ rw (small, show_from) (48 + n, rest, refl, ground arith)
  | inr large ↦
      rw (large, show_from) (show_from-cons fuel (n / 10) ((48 + n % 10) ∷ rest) (ground arith))
]

hex_value-hex_digit : (n : ℕ) → n < 16 → hex_value (hex_digit n) ≡ n
unfolding hex_value hex_digit
hex_value-hex_digit n h = ground arith

hex_pair :
    (c : ℕ) → c < 256 → 16 * hex_value (hex_digit (c / 16)) + hex_value (hex_digit (c % 16)) ≡ c
hex_pair c h =
    omega (
      arith,
      hex_value-hex_digit (c / 16) (omega arith),
      hex_value-hex_digit (c % 16) (omega arith),
    )

-- What reading a text gives, with one more character in front.
abbrev with_char : ℕ → Option (Text × Text) → Option (Text × Text)
with_char c call = call >>= λ r. some (c ∷ r.0, r.1)

read_text-control :
    (fuel c : ℕ) (rest : Text)
    → c < 32
    → read_text
        (suc fuel)
        (b'\\' ∷ b'u' ∷ b'0' ∷ b'0' ∷ hex_digit (c / 16) ∷ hex_digit (c % 16) ∷ rest)
      ≡ with_char c (read_text fuel rest)
unfolding read_text
read_text-control fuel c rest h =
    ap (λ (d : ℕ). with_char d (read_text fuel rest)) (hex_pair c (omega arith))

read_text-plain :
    (fuel c : ℕ) (rest : Text)
    → (c == b'"') ≡ false
    → (c == b'\\') ≡ false
    → read_text (suc fuel) (c ∷ rest) ≡ with_char c (read_text fuel rest)
unfolding read_text
read_text-plain fuel c rest h k = rw (h, read_text) (rw (k, read_char) refl)

-- A test of the character `k`, which has a short name.
read_text-short :
    (fuel c k name : ℕ) (rest longer : Text)
    → read_text (suc fuel) (b'\\' ∷ name ∷ rest) ≡ with_char k (read_text fuel rest)
    → ((c == k) ≡ false → read_text (suc fuel) longer ≡ with_char c (read_text fuel rest))
    → read_text (suc fuel) (if c == k then b'\\' ∷ name ∷ rest else longer)
      ≡ with_char c (read_text fuel rest)
read_text-short fuel c k name rest longer short long = elim (Bool-cases (c == k)) [
  | inl e ↦ rw e (rw (==→eq c k e) short)
  | inr other ↦ rw other (long other)
]

-- An escaped character is no closing quote, and is read back.
pub read_text-escape_char :
    (fuel c : ℕ) (rest : Text)
    → read_text (suc fuel) (escape_char c rest) ≡ with_char c (read_text fuel rest)
unfolding escape_char read_text
read_text-escape_char fuel c rest = read_text-short fuel c b'"' b'"' rest _ refl (λ not_quote.
    read_text-short fuel c b'\\' b'\\' rest _ refl (λ not_slash.
      read_text-short fuel c 8 b'b' rest _ refl (λ _.
        read_text-short fuel c 9 b't' rest _ refl (λ _.
          read_text-short fuel c 10 b'n' rest _ refl (λ _.
            read_text-short fuel c 12 b'f' rest _ refl (λ _.
              read_text-short fuel c 13 b'r' rest _ refl (λ _. elim (Bool-cases (ltb c 32)) [
                | inl low ↦ rw low (read_text-control fuel c rest (ground arith))
                | inr high ↦ rw high (read_text-plain fuel c rest not_quote not_slash)
              ])))))))

-- A quoted text is read back, from after its opening quote.
pub read_text-escape :
    (t : Text) (fuel : ℕ) (rest : Text)
    → length t < fuel
    → read_text fuel (escape t (b'"' ∷ rest)) ≡ some (t, rest)
unfolding escape read_text
read_text-escape t zero rest h = absurd (omega arith)
read_text-escape [] (suc fuel) rest h = refl
read_text-escape (c ∷ t) (suc fuel) rest h =
    read_text-escape_char fuel c (escape t (b'"' ∷ rest))
    ∙ ap (with_char c) (read_text-escape t fuel rest (omega arith))
