-- ===== src/Audit/Value.antt =====
-- What a payload may hold (backend/app/domain/policies/audit_chain.py), and the JSON values that it
-- becomes. A text is the list of its code points. A moment is a number of microseconds from 1970 in
-- UTC; `naive_moment` is one without a time zone. A negative amount carries its sign.
use urja_setu.Base.{ℕ, Bool, List, [], ◌∷◌}
use urja_setu.Base.Int.{ℤ}
use urja_setu.Base.Decimal.{Decimal}
use Prim.Native.String.{String}
use Prim.Native.Char.{code}

abbrev pub Text : Type 0
Text = List ℕ

-- The code points of a literal.
abbrev pub codes : String → Text
codes String.[] = []
codes (String.◌∷◌ c s) = code c ∷ codes s

mutual
  pub data Value : Type 0 where
    none_value : Value
    text : Text → Value
    flag : Bool → Value
    int : ℤ → Value
    enum : Value → Value
    amount : Bool → Decimal → Value
    float : Value
    moment : ℕ → Value
    naive_moment : ℕ → Value
    uuid : ℕ → Value
    mapping : Fields → Value
    sequence : Items → Value
    other : Value

  -- A dict, in its order.
  pub data Fields : Type 0 where
    end : Fields
    field : Text → Value → Fields → Fields

  pub data Items : Type 0 where
    stop : Items
    item : Value → Items → Items

mutual
  pub data Json : Type 0 where
    null : Json
    string : Text → Json
    boolean : Bool → Json
    number : ℤ → Json
    object : Members → Json
    array : Elements → Json

  pub data Members : Type 0 where
    close : Members
    member : Text → Json → Members → Members

  pub data Elements : Type 0 where
    nil : Elements
    cons : Json → Elements → Elements

-- A JSON value read back from its column.
unfoldable mutual
  pub of_json : Json → Value
  of_json null = none_value
  of_json (string t) = text t
  of_json (boolean b) = flag b
  of_json (number z) = int z
  of_json (object ms) = mapping (of_members ms)
  of_json (array es) = sequence (of_elements es)

  pub of_members : Members → Fields
  of_members close = end
  of_members (member k v ms) = field k (of_json v) (of_members ms)

  pub of_elements : Elements → Items
  of_elements nil = stop
  of_elements (cons v es) = item (of_json v) (of_elements es)
