-- ===== src/Resolution/Canonical/Tests.antt =====
-- A run of the projection, and its theorem at it.
use coruscant.Prelude.{
  ℕ, ◌≡◌, refl, String, [], ◌∷◌, Result, ok, raise, add, str_le, string_eq, pair_eq, string_ord,
  pair_ord,
}
use coruscant.Prelude.Sort.{sort_by}
use coruscant.Graph.Types.{str, EntityId, GraphNode}
use coruscant.Graph.Memory.{Store, empty, upsert_node, upsert_edge, get_node, all_nodes}
use coruscant.Graph.Substrate.{parse_tier, coerce_tier, stamp}
use coruscant.Resolution.Cluster.{ClusterResult}
use coruscant.Resolution.Canonical.{
  pinned_from_store, stamp_member, project_member, project_members, project_cluster, project_all,
  project_canonical,
}
use coruscant.Resolution.Canonical.Stamped.{IsProjection, project_canonical-IsProjection}

program : Unit {0}
unfolding upsert_node upsert_edge get_node all_nodes parse_tier coerce_tier stamp pinned_from_store
    stamp_member project_member project_members project_cluster project_all project_canonical
    sort_by str_le add
program = tt

abbrev node : String → String → EntityId × GraphNode
node kind key =
    ((kind, key), record { kind = kind; key = key; properties = ("name", str key) ∷ [] })

abbrev people : Store
people = record {
  nodes = node "Person" "ann" ∷ node "Person" "anne" ∷ [];
  edges = [];
  edge_ids = [];
}

abbrev one_person : ClusterResult
one_person = record {
  clusters = (("Person", "ann") ∷ ("Person", "anne") ∷ []) ∷ [];
  canonical_id = (("Person", "ann"), "cid-1") ∷ (("Person", "anne"), "cid-1") ∷ [];
  blocked = [];
}

projection : Result (Store × ℕ)
unfolding program
projection = project_canonical people one_person "2026-01-05"

after : Store
unfolding program projection
after = elim projection [ ok st ↦ st.0 | raise e ↦ empty ]

after_run : project_canonical people one_person "2026-01-05" ≡ ok (after, 1)
unfolding program projection after
after_run = refl

-- The ids are read back from the nodes.
after_pinned :
    pinned_from_store after ≡ (("Person", "ann"), "cid-1") ∷ (("Person", "anne"), "cid-1") ∷ []
unfolding program projection after
after_pinned = refl

project_canonical-IsProjection_example : IsProjection people after
project_canonical-IsProjection_example =
    project_canonical-IsProjection people after one_person "2026-01-05" 1 after_run
