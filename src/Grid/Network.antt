-- ===== src/Grid/Network.antt =====
-- Projecting the stored twin into a network: `build_network` of
-- backend/app/services/grid_validation_service.py.
use urja_setu.Base.{
  ℕ, zero, suc, Bool, true, false, ◌==◌, Option, none, some, List, [], ◌∷◌, map, any, filter,
  get_or, if◌then◌else◌,
}
use urja_setu.Base.Dict.{Dict, lookup, insert}
use urja_setu.Base.Decimal.{Decimal}
use urja_setu.Grid.Contract.{
  GridNodeType, transformer, NetworkNode, NetworkLine, NetworkTransformer, NetworkModel,
}
use Prim.Native.String.{String, compare}
use Prim.Native.Nat.{Ordering}

pub record GridNode : Type 0 where
  pub id : ℕ
  pub node_type : GridNodeType
  pub nominal_voltage_kv : Decimal
  pub parent_node_id : Option ℕ
  pub feeder_id : Option String
  pub rated_capacity_kw : Option Decimal

-- `list(limit=n)`
unfoldable pub first : {A : Type 0} → ℕ → List A → List A
first zero xs = []
first (suc n) [] = []
first (suc n) (x ∷ xs) = x ∷ first n xs

abbrev pub node_of : GridNode → NetworkNode
node_of r = record {
  node_id = r.id;
  node_type = r.node_type;
  nominal_voltage_kv = r.nominal_voltage_kv;
  parent_node_id = r.parent_node_id;
  feeder_id = r.feeder_id;
}

unfoldable pub is_on : String → GridNode → Bool
is_on name r = elim (r.feeder_id) [
  | none ↦ false
  | some f ↦ elim (compare f name) [ Ordering.eq ↦ true | _ ↦ false ]
]

-- The rows of the feeder that was asked for, of at most 10,000.
unfoldable pub selected : Option String → List GridNode → List GridNode
unfolding first filter is_on
selected none rows = first 10000 rows
selected (some name) rows = filter (is_on name) (first 10000 rows)

-- `{node.id: node.rated_capacity_kw for node in nodes}`, on from a dict.
unfoldable pub ratings_of : List GridNode → Dict (Option Decimal) → Dict (Option Decimal)
unfolding insert
ratings_of [] d = d
ratings_of (r ∷ rows) d = ratings_of rows (insert r.id r.rated_capacity_kw d)

unfoldable pub is_known : List GridNode → ℕ → Bool
unfolding any
is_known rows id = any (λ (r : GridNode). r.id == id) rows

-- `ratings.get(id)`
unfoldable pub rating_in : Dict (Option Decimal) → ℕ → Option Decimal
unfolding lookup
rating_in ratings id = get_or (lookup id ratings) none

-- The parent of a node whose parent is one of the nodes.
unfoldable pub known_parent : List GridNode → GridNode → Option ℕ
unfolding is_known
known_parent all r = elim (r.parent_node_id) [
  | none ↦ none
  | some parent ↦ if is_known all parent then some parent else none
]

-- The connection of a node that has a parent among the nodes, put before the others.
unfoldable pub with_edge :
    GridNodeType
    → (id : ℕ) → Option ℕ
    → Option Decimal
    → List NetworkLine × List NetworkTransformer
    → List NetworkLine × List NetworkTransformer
with_edge type id none rating edges = edges
with_edge transformer id (some parent) rating (lines, transformers) = (
  lines,
  record { transformer_id = id; from_node_id = parent; to_node_id = id; rating_kw = rating }
      ∷ transformers,
)
with_edge _ id (some parent) rating (lines, transformers) = (
  record { line_id = id; from_node_id = parent; to_node_id = id; rating_kw = rating } ∷ lines,
  transformers,
)

unfoldable pub connect :
    List GridNode
    → Dict (Option Decimal)
    → List GridNode
    → List NetworkLine × List NetworkTransformer
unfolding with_edge known_parent rating_in
connect all ratings [] = ([], [])
connect all ratings (r ∷ rows) =
    with_edge r.node_type r.id (known_parent all r) (rating_in ratings r.id)
      (connect all ratings rows)

unfoldable pub network_of : String → List GridNode → NetworkModel
unfolding connect ratings_of
network_of version nodes =
    let edges = connect nodes (ratings_of nodes []) nodes in
    record { version = version; nodes = map node_of nodes; lines = edges.0; transformers = edges.1 }

unfoldable pub build_network : List GridNode → Option String → String → NetworkModel
unfolding network_of selected
build_network rows name version = network_of version (selected name rows)
