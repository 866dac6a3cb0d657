-- ===== src/Exposure/Queries/Profile.antt =====
-- `entity_profile` and `list_entities` of exposure/queries.py.
use coruscant.Prelude.{
  String, Bool, Option, none, some, List, [], ◌∷◌, ◌++◌, map, keep, Result, ok, ◌>>=◌,
  if◌then◌else◌, ◌==◌, string_eq, string_ord, pair_ord, true,
}
use coruscant.Prelude.Sort.{sort_by}
use coruscant.Prelude.Groups.{set_of}
use coruscant.Graph.Types.{Properties, GraphNode, GraphEdge, EntityId}
use coruscant.Graph.Memory.{Store, get_node, outgoing, incoming, all_nodes, source_of, target_of}
use coruscant.Graph.Substrate.{TierArg, can_see}
use coruscant.Exposure.Ownership.{EntityRef, ref}
use coruscant.Exposure.Queries.Props.{Text, detail_of, provenance}

pub record Relationship : Type 0 where
  pub relation : String
  pub direction : String
  pub other : EntityRef
  pub source : Option String
  pub detail : Option String

pub record EntityProfile : Type 0 where
  pub entity : EntityRef
  pub properties : Properties
  pub relationships : List Relationship
  pub mentioned_in : List String

module _ (t : Text) (s : Store) where
  unfoldable pub relationship : String → EntityId → GraphEdge → Relationship
  relationship direction other e = record {
    relation = e.relation;
    direction = direction;
    other = ref s other;
    source = provenance e.properties;
    detail = detail_of t e.properties;
  }

  module _ (clearance : TierArg) where
    -- The loop over the edges that leave the entity. `store.neighbors` pairs each with its end, which
    -- the loop leaves alone.
    unfoldable pub outward : List GraphEdge → Result (List Relationship)
    unfolding relationship
    outward [] = ok []
    outward (e ∷ es) =
        let rest = outward es in
        if e.relation == "mentions" then rest else do
          seen ← can_see e.properties clearance
          found ← rest
          ok (if seen then relationship "out" (target_of e) e ∷ found else found)

    -- The loop over the edges that arrive: what it adds to the relationships and to the mentions.
    unfoldable pub inward : List GraphEdge → Result (List Relationship × List String)
    unfolding relationship
    inward [] = ok ([], [])
    inward (e ∷ es) =
        let rest = inward es in
        do
          seen ← can_see e.properties clearance
          (found, mentions) ← rest
          ok (
              if e.relation == "mentions"
              then (found, if seen then e.source_key ∷ mentions else mentions)
              else ((if seen then relationship "in" (source_of e) e ∷ found else found), mentions))

    unfoldable pub entity_profile : String → String → Result (Option EntityProfile)
    entity_profile kind key = elim (get_node s (kind, key)) [
      | none ↦ ok none
      | some node ↦ do
        out ← outward (outgoing s (kind, key))
        (found, mentions) ← inward (incoming s (kind, key))
        ok (
            some (record {
              entity = ref s (kind, key);
              properties = node.properties;
              relationships = out ++ found;
              mentioned_in = sort_by (λ id. id) (set_of mentions);
            }))
    ]

-- Of one kind, or of any.
abbrev of_kind : Option String → GraphNode → Bool
of_kind none node = true
of_kind (some kind) node = node.kind == kind

-- `lambda r: (r.kind, r.name)`
abbrev by_kind : EntityRef → String × String
by_kind r = (r.kind, r.name)

unfoldable pub list_entities : Store → Option String → List EntityRef
list_entities s kind =
    sort_by by_kind (map (λ node. ref s (node.kind, node.key)) (keep (of_kind kind) (all_nodes s)))
