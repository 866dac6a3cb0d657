-- ===== src/Resolution/Canonical.antt =====
-- `pinned_from_store` and `project_canonical` of knowledge_graph/resolution.py: the canonical ids in
-- the graph.
pub mod Stamped
mod Tests
use coruscant.Prelude.{
  ℕ, ◌+◌, String, Bool, true, false, Option, none, some, List, [], ◌∷◌, foldl, length, leb, ◌==◌,
  if◌then◌else◌, Result, ok, raise, key_error, ◌>>=◌, string_eq, pair_eq, string_ord, pair_ord,
}
use coruscant.Prelude.Dict
use coruscant.Prelude.Dict.{Dict}
use coruscant.Prelude.Sort.{sort_by}
use coruscant.Graph.Types.{str, int, Properties, EntityId, GraphNode, GraphEdge}
use coruscant.Graph.Memory.{Store, upsert_node, upsert_edge, get_node, all_nodes}
use coruscant.Graph.Substrate.{public, tier, stamp, get_str}
use coruscant.Resolution.Cluster.{ClusterResult, first_of, itself}

-- The id of the node, if it has one: a text that is not empty.
abbrev pub id_of : Properties → Option String
id_of props = elim (get_str "canonical_id" props) [
  | none ↦ none
  | some cid ↦ if cid == "" then none else some cid
]

abbrev pub pin : Dict EntityId String → GraphNode → Dict EntityId String
pin pinned node = elim (id_of node.properties) [
  | none ↦ pinned
  | some cid ↦ Dict.set (node.kind, node.key) cid pinned
]

unfoldable pub pinned_from_store : Store → Dict EntityId String
pinned_from_store s = foldl pin [] (all_nodes s)

-- The stamp on a member that is in the store.
unfoldable pub stamp_member : String → Store → EntityId → Store
stamp_member cid s (kind, key) = elim (get_node s (kind, key)) [
  | none ↦ s
  | some node ↦
      upsert_node
        (record {
          kind = kind;
          key = key;
          properties = Dict.set "canonical_id" (str cid) node.properties;
        })
        s
]

-- The body of the inner `for` loop.
unfoldable pub project_member : String → String → Store → EntityId → Result Store
project_member cid observed_at s (kind, key) = do
  props ← stamp [] "resolver" (tier public) observed_at none none
  ok (
      upsert_edge
        (record {
          source_kind = kind;
          source_key = key;
          relation = "resolves_to";
          target_kind = "Canonical";
          target_key = cid;
          properties = props;
        })
        (stamp_member cid s (kind, key)))

unfoldable pub project_members : String → String → Store → List EntityId → Result Store
project_members cid observed_at s [] = ok s
project_members cid observed_at s (m ∷ ms) = do
  s' ← project_member cid observed_at s m
  project_members cid observed_at s' ms

-- The node of a cluster.
abbrev pub canonical_node : String → List EntityId → GraphNode
canonical_node cid comp = record {
  kind = "Canonical";
  key = cid;
  properties = ("name", str cid) ∷ ("source", str "resolver") ∷ ("members", int (length comp)) ∷ [];
}

-- The body of the outer `for` loop, with the count of clusters projected. An id that is missing
-- raises. `next(iter(comp))` is a member of the set, here the first of the list.
unfoldable pub project_cluster :
    ClusterResult → String → Store × ℕ → List EntityId → Result (Store × ℕ)
project_cluster result observed_at (s, projected) comp =
    if leb 2 (length comp)
    then elim (first_of comp) [
      | none ↦ ok (s, projected)
      | some first ↦ elim (Dict.get first result.canonical_id) [
        | none ↦ raise key_error
        | some cid ↦ do
          s' ←
              project_members cid observed_at (upsert_node (canonical_node cid comp) s)
                (sort_by itself comp)
          ok (s', projected + 1)
      ]
    ]
    else ok (s, projected)

unfoldable pub project_all :
    ClusterResult → String → Store × ℕ → List (List EntityId) → Result (Store × ℕ)
project_all result observed_at st [] = ok st
project_all result observed_at st (comp ∷ comps) = do
  st' ← project_cluster result observed_at st comp
  project_all result observed_at st' comps

-- `project_canonical`
unfoldable pub project_canonical : Store → ClusterResult → String → Result (Store × ℕ)
project_canonical s result observed_at = project_all result observed_at (s, 0) result.clusters
