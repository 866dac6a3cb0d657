-- ===== src/Graph/Reach/Tests.antt =====
-- A run of `reachable`, and its theorems at it.
use coruscant.Prelude.{◌≤◌, ◌≡◌, refl, ◌≢◌, ◌↔◌, String, some, [], ◌∷◌, ok, string_eq, pair_eq}
use coruscant.Prelude.Dict
use coruscant.Graph.Types.{EntityId, GraphEdge}
use coruscant.Graph.Memory.{Store, outgoing, incoming}
use coruscant.Graph.Reach.{Distances, neighbours, reach_one, reach_all, reach_loop, reachable}
use coruscant.Graph.Reach.Walks.{IsDistance}
use coruscant.Graph.Reach.Results.{reachable-returns, reachable_iff}

program : Unit {0}
unfolding outgoing incoming neighbours reach_one reach_all reach_loop reachable
program = tt

abbrev supplies : String → String → GraphEdge
supplies source target = record {
  source_kind = "Company";
  source_key = source;
  relation = "supplies";
  target_kind = "Company";
  target_key = target;
  properties = [];
}

-- A ring of three.
abbrev ring : Store
ring = record {
  nodes = [];
  edges = supplies "a" "b" ∷ supplies "b" "c" ∷ supplies "c" "a" ∷ [];
  edge_ids = [];
}

abbrev downstream : Distances
downstream = (("Company", "b"), 1) ∷ (("Company", "c"), 2) ∷ []

ring_out : reachable ring "supplies" "out" 5 ("Company", "a") ≡ some (ok downstream)
unfolding program
ring_out = refl

ring_any :
    reachable ring "supplies" "any" 5 ("Company", "a")
    ≡ some (ok ((("Company", "b"), 1) ∷ (("Company", "c"), 1) ∷ []))
unfolding program
ring_any = refl

reachable-returns_example :
    (r : Distances) × (reachable ring "supplies" "out" 5 ("Company", "a") ≡ some (ok r))
reachable-returns_example = reachable-returns ring "supplies" "out" 5 ("Company", "a")

reachable_iff_example : (Dict.get ("Company", "c") downstream ≡ some 2) ↔ (
    (◌≢◌ {A = EntityId} ("Company", "c") ("Company", "a"))
    × (2 ≤ 5)
    × IsDistance ring "supplies" "out" ("Company", "a") ("Company", "c") 2)
reachable_iff_example =
    reachable_iff ring "supplies" "out" 5 ("Company", "a") ring_out ("Company", "c") 2
