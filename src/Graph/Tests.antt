-- ===== src/Graph/Tests.antt =====
-- Runs of the store and of the policy on edges, and each theorem at concrete data.
use coruscant.Prelude.{
  ◌≡◌, refl, ◌↔◌, true, List, [], ◌∷◌, foldl, arith, ok, raise, value_error, add, str_le,
  string_ord, Memᴰ, none, some, String, Result, ◌>>=◌, string_eq, pair_eq, nat_eq,
}
use coruscant.Graph.Types.{EntityId, str, Properties, GraphNode, GraphEdge}
use coruscant.Graph.Memory.{
  Store, empty, upsert_node, upsert_edge, to_dict, from_dict, get_node, Models, Snapshot, outgoing,
  incoming, all_nodes, all_edges, read_rows,
}
use coruscant.Graph.Memory.Laws.{IsValid, Write, node, edge, write, empty-IsValid, writes-IsValid}
use coruscant.Graph.Memory.Histories
use coruscant.Graph.Memory.Histories.{last_node}
use coruscant.Graph.Memory.Loading.{Loaded, from_dict-Loaded}
use coruscant.Prelude.Dict
use coruscant.Prelude.Dict.{Dict}
use coruscant.Graph.Memory.Snapshots.{IsFaithful, from_dict-to_dict}
use coruscant.Graph.Substrate.{
  AccessTier, get_str, legitimate_interest, aggregator_licensed, label, parse_tier, coerce_tier,
  tier_of, can_see, visible_at, visible, valid_on, as_of, stamp,
}
use coruscant.Graph.Substrate.Access.{seen_by, visible_iff, visible_at_mono}

program : Unit {0}
unfolding upsert_node upsert_edge add to_dict from_dict outgoing incoming parse_tier coerce_tier
    tier_of can_see visible_at visible valid_on as_of stamp str_le write read_rows all_nodes
    all_edges
program = tt

abbrev company : GraphNode
company = record { kind = "Company"; key = "acme"; properties = ("name", str "Acme") ∷ [] }

-- An edge from 2019 on, for those with a legitimate interest.
abbrev holding : GraphEdge
holding = record {
  source_kind = "Person";
  source_key = "ann";
  relation = "owns";
  target_kind = "Company";
  target_key = "acme";
  properties = ("access_tier", str "legitimate-interest") ∷ ("valid_from", str "2019-01-01") ∷ [];
}

-- The same edge from another source, with a label that is no tier's.
abbrev rival : GraphEdge
rival = record holding { properties = ("access_tier", str "secret") ∷ [] }

abbrev writes : List Write
writes = edge holding ∷ node company ∷ edge rival ∷ []

abbrev written : Store
written = record {
  nodes = (("Company", "acme"), company) ∷ [];
  edges = holding ∷ [];
  edge_ids = (("Person", "ann"), ("owns", ("Company", "acme"))) ∷ [];
}

-- The second write of the edge is ignored.
first_write_wins : foldl write empty writes ≡ written
unfolding program
first_write_wins = refl

written-IsValid : IsValid written
unfolding program
written-IsValid = writes-IsValid writes empty empty-IsValid

writes-IsValid_example : IsValid (foldl write empty writes)
writes-IsValid_example = writes-IsValid writes empty empty-IsValid

written-firsts_example :
    (all_edges (Histories.written writes) ≡ holding ∷ [])
    × ((i : EntityId) → get_node (Histories.written writes) i ≡ last_node i (company ∷ []))
written-firsts_example = Histories.written-firsts writes

-- Rows as dicts: a field is a text or a dict of properties.
data Field : Type 0 where
  text : String → Field
  table : Properties → Field

abbrev text_at : String → Dict String Field → Result String
text_at key row = elim (Dict.get key row) [ some (text s) ↦ ok s | _ ↦ raise value_error ]

abbrev properties_of : Dict String Field → Result Properties
properties_of row = elim (Dict.get "properties" row) [
  | none ↦ ok []
  | some (table props) ↦ ok props
  | some (text s) ↦ raise value_error
]

abbrev models : Models (Dict String Field)
models = record {
  dump_node =
      λ n. ("kind", text n.kind) ∷ ("key", text n.key) ∷ ("properties", table n.properties) ∷ [];
  dump_edge = λ e.
      ("source_kind", text e.source_kind)
      ∷ ("source_key", text e.source_key)
      ∷ ("relation", text e.relation)
      ∷ ("target_kind", text e.target_kind)
      ∷ ("target_key", text e.target_key)
      ∷ ("properties", table e.properties)
      ∷ [];
  validate_node = λ row. do
    kind ← text_at "kind" row
    key ← text_at "key" row
    props ← properties_of row
    ok (record { kind = kind; key = key; properties = props });
  validate_edge = λ row. do
    source_kind ← text_at "source_kind" row
    source_key ← text_at "source_key" row
    relation ← text_at "relation" row
    target_kind ← text_at "target_kind" row
    target_key ← text_at "target_key" row
    props ← properties_of row
    ok (record {
      source_kind = source_kind;
      source_key = source_key;
      relation = relation;
      target_kind = target_kind;
      target_key = target_key;
      properties = props;
    });
}

models-IsFaithful : IsFaithful models
models-IsFaithful = record { node_back = λ n. refl; edge_back = λ e. refl }

from_dict-to_dict_example :
    (t : Store) × (from_dict models (to_dict models written) ≡ ok t)
    × (t.nodes ≡ written.nodes)
    × (t.edges ≡ written.edges)
    × IsValid t
from_dict-to_dict_example = from_dict-to_dict models written models-IsFaithful written-IsValid

-- The second row of the nodes has no key.
abbrev broken : Snapshot (Dict String Field)
broken = record {
  nodes = some (models.dump_node company ∷ (("kind", text "Company") ∷ []) ∷ []);
  edges = none;
}

broken_test : from_dict models broken ≡ raise value_error
unfolding program
broken_test = refl

from_dict-Loaded_example : Loaded models broken (from_dict models broken)
from_dict-Loaded_example = from_dict-Loaded models broken

seen_at : visible (holding ∷ rival ∷ []) (label "restricted-authority") ≡ ok (holding ∷ [])
unfolding program
seen_at = refl

visible_iff_example :
    (t : AccessTier) × (coerce_tier (label "restricted-authority") ≡ ok t)
    × ((e : GraphEdge)
        → (Memᴰ e (holding ∷ []) ↔ (
            Memᴰ e (holding ∷ rival ∷ [])
            × (can_see e.properties (label "restricted-authority") ≡ ok true)))
          × (can_see e.properties (label "restricted-authority")
              ≡ ok (seen_by t (get_str "access_tier" e.properties))))
visible_iff_example = visible_iff (label "restricted-authority") (holding ∷ rival ∷ []) seen_at

unknown_label_test : visible (holding ∷ []) (label "secret") ≡ raise value_error
unfolding program
unknown_label_test = refl

visible_at_mono_example : Memᴰ holding (visible_at aggregator_licensed (holding ∷ []))
unfolding program
visible_at_mono_example =
    visible_at_mono legitimate_interest aggregator_licensed (holding ∷ []) (omega arith)
      (Memᴰ.head refl)

abbrev stamped : Properties
stamped =
    ("source", str "psc")
    ∷ ("access_tier", str "public")
    ∷ ("observed_at", str "2024-05-01")
    ∷ ("valid_to", str "2025-01-01")
    ∷ []
