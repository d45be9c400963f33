-- ===== src/Grid/Twin.antt =====
-- The network of the stored twin: `build_network` of
-- backend/app/services/grid_validation_service.py.
use urja_setu.Base.{
  ◌≡◌, ◌≢◌, refl, sym, ap, ◌∙◌, ◌↔◌, true, false, Option, none, some, List, [], ◌∷◌, All, All-map,
  In, here, there, In-All, is_some, ℕ, zero, suc, ◌==◌, get_or, if◌then◌else◌, arith,
}
use urja_setu.Base.Dict.{Dict, lookup, insert, lookup-insert}
use urja_setu.Base.Unique.{HasUnique, HasUnique-filter}
use urja_setu.Base.Decimal.{Decimal}
use urja_setu.Grid.Contract.{NetworkLine, NetworkTransformer, is_none, unrated_elements}
use Prim.Native.String.{String}
use urja_setu.Grid.Judging.{unrated-eq-empty, unrated_of_rated}
use urja_setu.Grid.Contract.{GridNodeType, substation, feeder, transformer, connection_point}
use urja_setu.Grid.Network.{
  GridNode, ratings_of, rating_in, known_parent, with_edge, connect, first, network_of, selected,
  build_network,
}

abbrev HasUniqueIds : List GridNode → Type 0
HasUniqueIds rows = HasUnique (λ (r : GridNode). r.id) rows

lookup-ratings_of-other :
    (id : ℕ) (rows : List GridNode) (d : Dict (Option Decimal))
    → All (λ (r : GridNode). r.id ≢ id) rows
    → lookup id (ratings_of rows d) ≡ lookup id d
unfolding ratings_of
lookup-ratings_of-other id [] d h = refl
lookup-ratings_of-other id (r ∷ rows) d h =
    let other : (r.id == id) ≡ false = let ne = h.0 in ground arith in
    lookup-ratings_of-other id rows (insert r.id r.rated_capacity_kw d) h.1
    ∙ lookup-insert r.id id r.rated_capacity_kw d
    ∙ ap (λ b. if b then some r.rated_capacity_kw else lookup id d) other

lookup-ratings_of :
    {r : GridNode} (rows : List GridNode) (d : Dict (Option Decimal))
    → HasUniqueIds rows
    → In r rows
    → lookup r.id (ratings_of rows d) ≡ some r.rated_capacity_kw
unfolding ratings_of
lookup-ratings_of [] d u m = elim m [ ]
lookup-ratings_of {r} (_ ∷ rows) d u here =
    let same : (r.id == r.id) ≡ true = ground arith in
    lookup-ratings_of-other r.id rows (insert r.id r.rated_capacity_kw d) u.0
    ∙ lookup-insert r.id r.id r.rated_capacity_kw d
    ∙ ap (λ b. if b then some r.rated_capacity_kw else lookup r.id d) same
lookup-ratings_of (x ∷ rows) d u (there m) =
    lookup-ratings_of rows (insert x.id x.rated_capacity_kw d) u.1 m

-- All the edges have ratings.
record IsRated (edges : List NetworkLine × List NetworkTransformer) : Type 0 where
  lines : All (λ (l : NetworkLine). is_none l.rating_kw ≡ false) edges.0
  transformers : All (λ (t : NetworkTransformer). is_none t.rating_kw ≡ false) edges.1

-- A node that has a parent among the nodes has a rating.
abbrev pub IsRatedChild : List GridNode → GridNode → Type 0
IsRatedChild all r = is_some (known_parent all r) ≡ true → is_none r.rated_capacity_kw ≡ false

with_line-IsRated :
    (id parent : ℕ) (rating : Option Decimal) (edges : List NetworkLine × List NetworkTransformer)
    → IsRated (with_edge substation id (some parent) rating edges)
      ↔ ((is_some (some parent) ≡ true → is_none rating ≡ false) × IsRated edges)
unfolding with_edge
with_line-IsRated id parent rating edges = (
  λ h. (λ _. h.lines.0, record { lines = h.lines.1; transformers = h.transformers }),
  λ h. record { lines = (h.0 refl, h.1.lines); transformers = h.1.transformers },
)

with_edge-IsRated :
    (type : GridNodeType) (id : ℕ) (parent : Option ℕ) (rating : Option Decimal)
    (edges : List NetworkLine × List NetworkTransformer)
    → IsRated (with_edge type id parent rating edges)
      ↔ ((is_some parent ≡ true → is_none rating ≡ false) × IsRated edges)
unfolding with_edge
with_edge-IsRated type id none rating edges = (λ h. (λ e. absurd cc, h), λ h. h.1)
with_edge-IsRated transformer id (some parent) rating edges = (
  λ h. (λ _. h.transformers.0, record { lines = h.lines; transformers = h.transformers.1 }),
  λ h. record { lines = h.1.lines; transformers = (h.0 refl, h.1.transformers) },
)
with_edge-IsRated substation id (some parent) rating edges =
    with_line-IsRated id parent rating edges
with_edge-IsRated feeder id (some parent) rating edges = with_line-IsRated id parent rating edges
with_edge-IsRated connection_point id (some parent) rating edges =
    with_line-IsRated id parent rating edges

connect-IsRated :
    (all rows : List GridNode) (ratings : Dict (Option Decimal))
    → All (λ (r : GridNode). rating_in ratings r.id ≡ r.rated_capacity_kw) rows
    → IsRated (connect all ratings rows) ↔ All (IsRatedChild all) rows
unfolding connect
connect-IsRated all [] ratings h = (λ _. tt, λ _. record { lines = tt; transformers = tt })
connect-IsRated all (r ∷ rows) ratings h =
    let step =
      with_edge-IsRated r.node_type r.id (known_parent all r) (rating_in ratings r.id)
        (connect all ratings rows) in
    let rest = connect-IsRated all rows ratings h.1 in
    (
      λ w. let (child, others) = step.0 w in (λ e. ap is_none (sym h.0) ∙ child e, rest.0 others),
      λ a. step.1 (λ e. ap is_none h.0 ∙ a.0 e, rest.1 a.1),
    )

All-first : {A : Type 0} (P : A → Type 0) (n : ℕ) (xs : List A) → All P xs → All P (first n xs)
unfolding first
All-first P zero xs h = tt
All-first P (suc n) [] h = tt
All-first P (suc n) (x ∷ xs) h = (h.0, All-first P n xs h.1)

HasUnique-first :
    {A : Type 0} (id : A → ℕ) (n : ℕ) (xs : List A) → HasUnique id xs → HasUnique id (first n xs)
unfolding first
HasUnique-first id zero xs h = tt
HasUnique-first id (suc n) [] h = tt
HasUnique-first id (suc n) (x ∷ xs) h = (All-first _ n xs h.0, HasUnique-first id n xs h.1)

selected-HasUniqueIds :
    (rows : List GridNode) (name : Option String)
    → HasUniqueIds rows
    → HasUniqueIds (selected name rows)
unfolding selected
selected-HasUniqueIds rows none u = HasUnique-first _ 10000 rows u
selected-HasUniqueIds rows (some name) u =
    HasUnique-filter _ _ (first 10000 rows) (HasUnique-first _ 10000 rows u)

-- Of the stored nodes, whose identifiers are distinct, the network has every rating if and only if
-- each selected node whose parent is selected too is stored with a rating.
pub build_network-unrated_elements :
    (rows : List GridNode) (name : Option String) (version : String)
    → HasUnique (λ (r : GridNode). r.id) rows
    → unrated_elements (build_network rows name version) ≡ []
      ↔ All (IsRatedChild (selected name rows)) (selected name rows)
unfolding build_network network_of rating_in
build_network-unrated_elements rows name version distinct =
    let nodes = selected name rows in
    let unique = selected-HasUniqueIds rows name distinct in
    let own : All (λ (r : GridNode). rating_in (ratings_of nodes []) r.id ≡ r.rated_capacity_kw)
        nodes =
      All-map _ _ nodes (λ r m. ap (λ o. get_or o none) (lookup-ratings_of nodes [] unique m))
        (In-All nodes) in
    let whole = connect-IsRated nodes nodes (ratings_of nodes []) own in
    (
      λ h.
          let (lines, transformers) = unrated-eq-empty (network_of version nodes) h in
          whole.0 (record { lines = lines; transformers = transformers }),
      λ h. let w = whole.1 h in unrated_of_rated (network_of version nodes) w.lines w.transformers,
    )
