-- ===== src/Graph/Memory.antt =====
-- `InMemoryKnowledgeGraphStore`: a dict of nodes, a list of edges, and the set of the identities of
-- the edges, which a write looks up instead of the list.
pub mod Laws
pub mod Histories
pub mod Loading
pub mod Queries
pub mod Snapshots
use coruscant.Prelude.{
  ℕ, String, Bool, Option, none, some, List, [], ◌∷◌, ◌++◌, map, foldl, ◌&&◌, length, keep, ◌==◌,
  string_eq, pair_eq, elem, if◌then◌else◌, add, Result, ok, raise, ◌>>=◌,
}
use coruscant.Prelude.Dict
use coruscant.Prelude.Dict.{Dict}
use coruscant.Graph.Types.{EntityId, GraphNode, GraphEdge}

-- `_EdgeId`: the source, the relation and the target
abbrev pub EdgeId : Type 0
EdgeId = EntityId × (String × EntityId)

pub record Store : Type 0 where
  pub nodes : Dict EntityId GraphNode
  pub edges : List GraphEdge
  pub edge_ids : List EdgeId

abbrev pub empty : Store
empty = record { nodes = []; edges = []; edge_ids = [] }

abbrev pub source_of : GraphEdge → EntityId
source_of e = (e.source_kind, e.source_key)

abbrev pub target_of : GraphEdge → EntityId
target_of e = (e.target_kind, e.target_key)

abbrev pub identity : GraphEdge → EdgeId
identity e = (source_of e, (e.relation, target_of e))

-- the setter of `edges`
unfoldable pub set_edges : List GraphEdge → Store → Store
set_edges value s = record s {
  edges = value;
  edge_ids = foldl (λ ids e. add (identity e) ids) [] value;
}

unfoldable pub upsert_node : GraphNode → Store → Store
upsert_node n s = record s { nodes = Dict.set (n.kind, n.key) n s.nodes }

unfoldable pub upsert_edge : GraphEdge → Store → Store
upsert_edge e s =
    if elem (identity e) s.edge_ids
    then s
    else record s { edges = s.edges ++ e ∷ []; edge_ids = add (identity e) s.edge_ids }

unfoldable pub get_node : Store → EntityId → Option GraphNode
get_node s i = Dict.get i s.nodes

abbrev pub values : Dict EntityId GraphNode → List GraphNode
values = map (λ entry. entry.1)

unfoldable pub nodes_of_kind : Store → String → List GraphNode
nodes_of_kind s kind = values (keep (λ entry. entry.0.0 == kind) s.nodes)

unfoldable pub outgoing : Store → EntityId → List GraphEdge
outgoing s i = keep (λ e. e.source_kind == i.0 && e.source_key == i.1) s.edges

unfoldable pub incoming : Store → EntityId → List GraphEdge
incoming s i = keep (λ e. e.target_kind == i.0 && e.target_key == i.1) s.edges

unfoldable pub edges_by_relation : Store → String → List GraphEdge
edges_by_relation s relation = keep (λ e. e.relation == relation) s.edges

unfoldable pub all_nodes : Store → List GraphNode
all_nodes s = values s.nodes

unfoldable pub all_edges : Store → List GraphEdge
all_edges s = s.edges

unfoldable pub node_count : Store → ℕ
node_count s = length s.nodes

unfoldable pub edge_count : Store → ℕ
edge_count s = length s.edges

-- `neighbors` and `neighbors_in`, inherited from the port
unfoldable pub neighbors : Store → EntityId → List (GraphEdge × Option GraphNode)
unfolding outgoing get_node
neighbors s i = map (λ e. (e, get_node s (target_of e))) (outgoing s i)

unfoldable pub neighbors_in : Store → EntityId → List (GraphEdge × Option GraphNode)
unfolding incoming get_node
neighbors_in s i = map (λ e. (e, get_node s (source_of e))) (incoming s i)

-- pydantic's `model_dump` and `model_validate` of the two models, on rows of some type. A row that is no
-- node, or no edge, raises.
pub record Models (Row : Type 0) : Type 0 where
  pub dump_node : GraphNode → Row
  pub dump_edge : GraphEdge → Row
  pub validate_node : Row → Result GraphNode
  pub validate_edge : Row → Result GraphEdge

-- What `to_dict` returns and `from_dict` reads. A missing list is `none`.
pub record Snapshot (Row : Type 0) : Type 0 where
  pub nodes : Option (List Row)
  pub edges : Option (List Row)

abbrev pub or_nil : {A : Type 0} → Option (List A) → List A
or_nil none = []
or_nil (some xs) = xs

module _ {Row : Type 0} (m : Models Row) where
  unfoldable pub to_dict : Store → Snapshot Row
  unfolding all_nodes all_edges
  to_dict s = record {
    nodes = some (map m.dump_node (all_nodes s));
    edges = some (map m.dump_edge (all_edges s));
  }

  -- Each loop of `from_dict`: a row is validated, and written if it is valid.
  unfoldable pub read_rows :
      {A : Type 0} → (Row → Result A) → (A → Store → Store) → List Row → Store → Result Store
  read_rows validate upsert [] s = ok s
  read_rows validate upsert (row ∷ rows) s = elim (validate row) [
    | raise e ↦ raise e
    | ok a ↦ read_rows validate upsert rows (upsert a s)
  ]

  unfoldable pub from_dict : Snapshot Row → Result Store
  unfolding read_rows upsert_node upsert_edge
  from_dict d = do
    with_nodes ← read_rows m.validate_node upsert_node (or_nil d.nodes) empty
    read_rows m.validate_edge upsert_edge (or_nil d.edges) with_nodes
