-- ===== src/Audit/Json.antt =====
-- `canonical_json` of backend/app/domain/policies/audit_chain.py: `json.dumps` without spaces and
-- without escapes for other scripts, of a canonical value, whose keys are sorted. Each function
-- writes before the text that follows.
pub mod Reading
pub mod Texts
pub mod RoundTrip
use urja_setu.Base.{
  ℕ, suc, ◌+◌, ◌/◌, ◌%◌, Bool, true, false, ◌||◌, Option, none, some, List, [], ◌∷◌, ◌++◌, ltb,
  ◌==◌, if◌then◌else◌,
}
use urja_setu.Base.Int.{ℤ, pos, negsuc}
use urja_setu.Audit.Value.{Text, codes, Value, Json, null, string, boolean, number, object, array}
use urja_setu.Audit.Value.{Members, close, member, Elements, nil, cons}
use urja_setu.Audit.Text.{show_nat, hex_digit}
use urja_setu.Audit.Canonical.{canonicalise, ◌>>=◌}

-- A control character has a short name or its code in four hexadecimal digits.
unfoldable pub escape_char : ℕ → Text → Text
unfolding hex_digit
escape_char c rest =
    if c == b'"'
    then b'\\' ∷ b'"' ∷ rest
    else if c == b'\\'
    then b'\\' ∷ b'\\' ∷ rest
    else if c == 8
    then b'\\' ∷ b'b' ∷ rest
    else if c == 9
    then b'\\' ∷ b't' ∷ rest
    else if c == 10
    then b'\\' ∷ b'n' ∷ rest
    else if c == 12
    then b'\\' ∷ b'f' ∷ rest
    else if c == 13
    then b'\\' ∷ b'r' ∷ rest
    else if ltb c 32
    then b'\\' ∷ b'u' ∷ b'0' ∷ b'0' ∷ hex_digit (c / 16) ∷ hex_digit (c % 16) ∷ rest
    else c ∷ rest

unfoldable pub escape : Text → Text → Text
unfolding escape_char
escape [] rest = rest
escape (c ∷ t) rest = escape_char c (escape t rest)

unfoldable pub quote : Text → Text → Text
unfolding escape
quote t rest = b'"' ∷ escape t (b'"' ∷ rest)

unfoldable mutual
  unfolding quote show_nat

  pub dumps : Json → Text → Text
  dumps null rest = b'n' ∷ b'u' ∷ b'l' ∷ b'l' ∷ rest
  dumps (boolean true) rest = b't' ∷ b'r' ∷ b'u' ∷ b'e' ∷ rest
  dumps (boolean false) rest = b'f' ∷ b'a' ∷ b'l' ∷ b's' ∷ b'e' ∷ rest
  dumps (string t) rest = quote t rest
  dumps (number (pos n)) rest = show_nat n rest
  dumps (number (negsuc n)) rest = b'-' ∷ show_nat (suc n) rest
  dumps (object ms) rest = b'{' ∷ dumps_members ms (b'}' ∷ rest)
  dumps (array es) rest = b'[' ∷ dumps_elements es (b']' ∷ rest)

  pub dumps_members : Members → Text → Text
  dumps_members close rest = rest
  dumps_members (member k v ms) rest = quote k (b':' ∷ dumps v (dumps_further ms rest))

  pub dumps_further : Members → Text → Text
  dumps_further close rest = rest
  dumps_further (member k v ms) rest = b',' ∷ quote k (b':' ∷ dumps v (dumps_further ms rest))

  pub dumps_elements : Elements → Text → Text
  dumps_elements nil rest = rest
  dumps_elements (cons v es) rest = dumps v (dumps_others es rest)

  pub dumps_others : Elements → Text → Text
  dumps_others nil rest = rest
  dumps_others (cons v es) rest = b',' ∷ dumps v (dumps_others es rest)

unfoldable pub canonical_json : Value → Option Text
unfolding canonicalise dumps
canonical_json v = do j ← canonicalise v; some (dumps j [])
