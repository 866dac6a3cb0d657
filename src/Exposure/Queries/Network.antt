-- ===== src/Exposure/Queries/Network.antt =====
-- The companies whose filings name a company that is exposed: the last loop of `jurisdiction_exposure`
-- and of `sector_exposure` in exposure/queries.py.
pub mod Pairs
use coruscant.Prelude.{
  String, Bool, not, ◌&&◌, Option, List, [], ◌∷◌, elem, if◌then◌else◌, string_eq, pair_eq, map,
}
use coruscant.Graph.Types.{GraphEdge}
use coruscant.Graph.Memory.{Store, edges_by_relation}
use coruscant.Graph.Substrate.{get_str}
use coruscant.Exposure.Ownership.{EntityRef, ref}

pub record NetworkProximity : Type 0 where
  pub company : EntityRef
  pub names : EntityRef
  pub entity_name : Option String
  pub source : Option String

unfoldable pub proximity : Store → GraphEdge → NetworkProximity
proximity s e = record {
  company = ref s ("Company", e.source_key);
  names = ref s ("Company", e.target_key);
  entity_name = get_str "entity_name" e.properties;
  source = get_str "source_uri" e.properties;
}

-- (source, target)
abbrev pub company_pair : GraphEdge → String × String
company_pair e = (e.source_key, e.target_key)

-- The edges that the loop reports, where `seen` holds the pairs that were reported.
unfoldable pub naming : List String → List (String × String) → List GraphEdge → List GraphEdge
naming exposed seen [] = []
naming exposed seen (e ∷ es) =
    let skipped = naming exposed seen es in
    let reported = naming exposed (company_pair e ∷ seen) es in
    if elem e.target_key exposed && not (elem e.source_key exposed)
    then (if elem (company_pair e) seen then skipped else e ∷ reported)
    else skipped

unfoldable pub network : Store → List String → List NetworkProximity
unfolding naming proximity
network s exposed = map (proximity s) (naming exposed [] (edges_by_relation s "references"))
