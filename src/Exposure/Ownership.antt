-- ===== src/Exposure/Ownership.antt =====
-- The parts that the two traversals of exposure/ownership_graph.py share.
use coruscant.Prelude.{String, Bool, Option, none, some, List, [], ◌∷◌, keep, elem, ◌==◌, string_eq}
use coruscant.Graph.Types.{EntityId, GraphEdge}
use coruscant.Graph.Memory.{Store, get_node}
use coruscant.Graph.Substrate.{as_of, get_str}

-- `EntityRef` of exposure/queries.py
pub record EntityRef : Type 0 where
  pub kind : String
  pub key : String
  pub name : String

-- `_name`
unfoldable pub name_of : Store → EntityId → String
name_of s (kind, key) = elim (get_node s (kind, key)) [
  | none ↦ key
  | some node ↦ elim (get_str "name" node.properties) [ none ↦ key | some name ↦ name ]
]

-- `_ref`
unfoldable pub ref : Store → EntityId → EntityRef
ref s (kind, key) = record { kind = kind; key = key; name = name_of s (kind, key) }

-- `_OWNERSHIP_RELATIONS`
abbrev pub ownership_relations : List String
ownership_relations = "owns" ∷ "beneficial_owner_of" ∷ "consolidates" ∷ []

-- `[e for e in edges if e.relation in _OWNERSHIP_RELATIONS]`, `as_of` if a date is given
unfoldable pub current_ownership : Option String → List GraphEdge → List GraphEdge
current_ownership none edges = keep (λ e. elem e.relation ownership_relations) edges
current_ownership (some on) edges = as_of (keep (λ e. elem e.relation ownership_relations) edges) on

-- `_is_unresolved`
unfoldable pub is_unresolved : Store → EntityId → Bool
is_unresolved s i = elim (get_node s i) [
  | none ↦ Bool.false
  | some node ↦ elim (get_str "ownership_status" node.properties) [
    | none ↦ Bool.false
    | some status ↦ status == "unresolved"
  ]
]
