-- ===== src/Audit/Json/Reading.antt =====
-- A reader of canonical JSON, on fuel: an independent description of what a text stands for.
use urja_setu.Base.{
  ℕ, zero, suc, ◌+◌, ◌-◌, ◌*◌, Bool, true, false, ◌&&◌, Option, none, some, [], ◌∷◌, leb, ◌==◌,
  if◌then◌else◌,
}
use urja_setu.Base.Int.{ℤ, pos, negsuc}
use urja_setu.Audit.Value.{Text, Json, null, string, boolean, number, object, array}
use urja_setu.Audit.Value.{Members, close, member, Elements, nil, cons}
use urja_setu.Audit.Canonical.{◌>>=◌}

abbrev pub is_digit : ℕ → Bool
is_digit c = leb 48 c && leb c 57

unfoldable pub read_nat : ℕ → Text → ℕ × Text
read_nat acc [] = (acc, [])
read_nat acc (c ∷ t) = if is_digit c then read_nat (acc * 10 + (c - 48)) t else (acc, c ∷ t)

abbrev pub opposite : ℕ → ℤ
opposite zero = pos 0
opposite (suc n) = negsuc n

unfoldable pub hex_value : ℕ → ℕ
hex_value c = if leb c 57 then c - 48 else c - 87

-- After `\u`.
unfoldable pub read_code : Text → Option (ℕ × Text)
unfolding hex_value
read_code (a ∷ b ∷ x ∷ y ∷ t) = some (16 * hex_value x + hex_value y, t)
read_code _ = none

-- After a backslash.
unfoldable pub read_escape : Text → Option (ℕ × Text)
unfolding read_code
read_escape [] = none
read_escape (c ∷ t) =
    if c == b'"'
    then some (b'"', t)
    else if c == b'\\'
    then some (b'\\', t)
    else if c == b'b'
    then some (8, t)
    else if c == b't'
    then some (9, t)
    else if c == b'n'
    then some (10, t)
    else if c == b'f'
    then some (12, t)
    else if c == b'r'
    then some (13, t)
    else if c == b'u'
    then read_code t
    else none

unfoldable pub read_char : ℕ → Text → Option (ℕ × Text)
unfolding read_escape
read_char c t = if c == b'\\' then read_escape t else some (c, t)

-- After the opening quote, up to the closing one.
unfoldable pub read_text : ℕ → Text → Option (Text × Text)
unfolding read_char
read_text zero t = none
read_text (suc fuel) [] = none
read_text (suc fuel) (c ∷ t) = elim (c == b'"') [
  | true ↦ some ([], t)
  | false ↦ do (d, t) ← read_char c t; (s, t) ← read_text fuel t; some (d ∷ s, t)
]

abbrev pub rest_of : Text → Text
rest_of [] = []
rest_of (c ∷ t) = t

unfoldable mutual
  unfolding read_nat read_text

  pub read : ℕ → Text → Option (Json × Text)
  read zero t = none
  read (suc fuel) [] = none
  read (suc fuel) (c ∷ t) = elim (is_digit c) [
    | true ↦ let (n, t) = read_nat 0 (c ∷ t) in some (number (pos n), t)
    | false ↦ read_other fuel c t
  ]

  pub read_other : ℕ → ℕ → Text → Option (Json × Text)
  read_other zero c t = none
  read_other (suc fuel) c t =
      if c == b'-'
      then (let (n, t) = read_nat 0 t in some (number (opposite n), t))
      else if c == b'n'
      then some (null, rest_of (rest_of (rest_of t)))
      else if c == b't'
      then some (boolean true, rest_of (rest_of (rest_of t)))
      else if c == b'f'
      then some (boolean false, rest_of (rest_of (rest_of (rest_of t))))
      else if c == b'"'
      then (do (s, t) ← read_text fuel t; some (string s, t))
      else if c == b'{'
      then (do (ms, t) ← read_object fuel t; some (object ms, t))
      else (do (es, t) ← read_array fuel t; some (array es, t))

  -- After the opening brace.
  pub read_object : ℕ → Text → Option (Members × Text)
  read_object zero t = none
  read_object (suc fuel) [] = none
  read_object (suc fuel) (c ∷ t) = elim (c == b'}') [
    | true ↦ some (close, t)
    | false ↦ read_members fuel t
  ]

  -- After the quote of a key.
  pub read_members : ℕ → Text → Option (Members × Text)
  read_members zero t = none
  read_members (suc fuel) t = do
    (k, t) ← read_text fuel t
    (v, t) ← read fuel (rest_of t)
    (ms, t) ← read_further fuel t
    some (member k v ms, t)

  pub read_further : ℕ → Text → Option (Members × Text)
  read_further zero t = none
  read_further (suc fuel) [] = none
  read_further (suc fuel) (c ∷ t) = elim (c == b'}') [
    | true ↦ some (close, t)
    | false ↦ read_members fuel (rest_of t)
  ]

  -- After the opening bracket.
  pub read_array : ℕ → Text → Option (Elements × Text)
  read_array zero t = none
  read_array (suc fuel) [] = none
  read_array (suc fuel) (c ∷ t) = elim (c == b']') [
    | true ↦ some (nil, t)
    | false ↦ read_elements fuel (c ∷ t)
  ]

  pub read_elements : ℕ → Text → Option (Elements × Text)
  read_elements zero t = none
  read_elements (suc fuel) t = do
    (v, t) ← read fuel t
    (es, t) ← read_others fuel t
    some (cons v es, t)

  pub read_others : ℕ → Text → Option (Elements × Text)
  read_others zero t = none
  read_others (suc fuel) [] = none
  read_others (suc fuel) (c ∷ t) = elim (c == b']') [
    | true ↦ some (nil, t)
    | false ↦ read_elements fuel t
  ]
