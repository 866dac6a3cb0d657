-- ===== src/Graph/Memory/Snapshots.antt =====
-- `to_dict` and `from_dict`: a snapshot carries the whole store.
use mathlib.Core.List.{append_assoc, append-nil}
use coruscant.Prelude.{
  ◌≡◌, refl, ap, sym, ◌∙◌, List, [], ◌∷◌, ◌++◌, foldl, All, Distinct, Distinct-middle, map-append,
  subst, string_eq, pair_eq, Result, ok, arith, map, false, elem,
}
use coruscant.Prelude.Dict
use coruscant.Prelude.Dict.{Dict}
use coruscant.Graph.Types.{EntityId, GraphNode, GraphEdge}
use coruscant.Graph.Memory.{
  Store, empty, identity, values, upsert_node, upsert_edge, Models, to_dict, from_dict, all_nodes,
  all_edges,
}
use coruscant.Graph.Memory.Laws.{
  IsValid, identities, empty-IsValid, upsert_edge-IsValid, upsert_node-IsValid,
}
use coruscant.Graph.Memory.Loading.{AreRows, read_rows-ok}

abbrev IsKeyed : EntityId × GraphNode → Type 0
IsKeyed entry = entry.0 ≡ (entry.1.kind, entry.1.key)

abbrev load_nodes : Store → List GraphNode → Store
load_nodes = foldl (λ s n. upsert_node n s)

abbrev load_edges : Store → List GraphEdge → Store
load_edges = foldl (λ s e. upsert_edge e s)

new_key :
    (before : Dict EntityId GraphNode) (i : EntityId) (n : GraphNode) (d : Dict EntityId GraphNode)
    → Distinct (Dict.keys (before ++ (i, n) ∷ d))
    → elem i (Dict.keys before) ≡ false
new_key before i n d u =
    Distinct-middle (Dict.keys before) i (Dict.keys d) (
      subst Distinct (map-append (λ (entry : EntityId × GraphNode). entry.0) before ((i, n) ∷ d)) u)

upsert_new :
    (i : EntityId) (n : GraphNode) (s : Store)
    → i ≡ (n.kind, n.key)
    → elem i (Dict.keys s.nodes) ≡ false
    → upsert_node n s ≡ record s { nodes = s.nodes ++ (i, n) ∷ [] }
unfolding upsert_node
upsert_new i n s p new =
    ap (λ l. record s { nodes = l })
      (subst (λ j. Dict.set j n s.nodes ≡ s.nodes ++ (i, n) ∷ []) p (Dict.set_new i n s.nodes new))

load_nodes-append :
    (d : Dict EntityId GraphNode) (s : Store)
    → All IsKeyed d
    → Distinct (Dict.keys (s.nodes ++ d))
    → load_nodes s (values d) ≡ record s { nodes = s.nodes ++ d }
load_nodes-append [] s k u = ap (λ l. record s { nodes = l }) (sym (append-nil s.nodes))
load_nodes-append ((i, n) ∷ d) s k u =
    let joined = append_assoc s.nodes ((i, n) ∷ []) d in
    ap (λ (t : Store). load_nodes t (values d)) (upsert_new i n s k.0 (new_key s.nodes i n d u))
    ∙ load_nodes-append d (record s { nodes = s.nodes ++ (i, n) ∷ [] }) k.1
        (subst (λ l. Distinct (Dict.keys l)) (sym joined) u)
    ∙ ap (λ l. record s { nodes = l }) joined

load_nodes-IsValid : (ns : List GraphNode) (s : Store) → IsValid s → IsValid (load_nodes s ns)
load_nodes-IsValid [] s h = h
load_nodes-IsValid (n ∷ ns) s h =
    load_nodes-IsValid ns (upsert_node n s) (upsert_node-IsValid n s h)

load_edges-IsValid : (es : List GraphEdge) (s : Store) → IsValid s → IsValid (load_edges s es)
load_edges-IsValid [] s h = h
load_edges-IsValid (e ∷ es) s h =
    load_edges-IsValid es (upsert_edge e s) (upsert_edge-IsValid e s h)

absent :
    (before : List GraphEdge) (e : GraphEdge) (es : List GraphEdge)
    → Distinct (identities (before ++ e ∷ es))
    → elem (identity e) (identities before) ≡ false
absent before e es u =
    Distinct-middle (identities before) (identity e) (identities es)
      (subst Distinct (map-append identity before (e ∷ es)) u)

upsert_absent :
    (e : GraphEdge) (s : Store)
    → IsValid s
    → elem (identity e) (identities s.edges) ≡ false
    → ((upsert_edge e s).edges ≡ s.edges ++ e ∷ []) × ((upsert_edge e s).nodes ≡ s.nodes)
unfolding upsert_edge
upsert_absent e s h new = rw (h.indexed (identity e) ∙ new) (refl, refl)

load_edges-append :
    (es : List GraphEdge) (s : Store)
    → IsValid s
    → Distinct (identities (s.edges ++ es))
    → ((load_edges s es).edges ≡ s.edges ++ es) × ((load_edges s es).nodes ≡ s.nodes)
load_edges-append [] s h u = (sym (append-nil s.edges), refl)
load_edges-append (e ∷ es) s h u =
    let joined = append_assoc s.edges (e ∷ []) es in
    let (edges, nodes) = upsert_absent e s h (absent s.edges e es u) in
    let (p, q) =
      load_edges-append es (upsert_edge e s) (upsert_edge-IsValid e s h)
        (rw edges (subst (λ l. Distinct (identities l)) (sym joined) u)) in
    (p ∙ ap (λ l. l ++ es) edges ∙ joined, q ∙ nodes)

-- What pydantic promises of the two models: validation gives back what was dumped.
pub record IsFaithful {Row : Type 0} (m : Models Row) : Type 0 where
  pub node_back : (n : GraphNode) → m.validate_node (m.dump_node n) ≡ ok n
  pub edge_back : (e : GraphEdge) → m.validate_edge (m.dump_edge e) ≡ ok e

map_back :
    {Row A : Type 0} (dump : A → Row) (validate : Row → Result A)
    → ((a : A) → validate (dump a) ≡ ok a)
    → (xs : List A) → AreRows validate (map dump xs) xs
map_back dump validate back [] = refl
map_back dump validate back (a ∷ xs) = ground (arith, back a, map_back dump validate back xs)

-- If pydantic gives back what it dumped: the snapshot of a valid store is read, and the store that is read
-- has its nodes and its edges, in their order, and is valid.
pub from_dict-to_dict :
    {Row : Type 0} (m : Models Row) (s : Store)
    → IsFaithful m
    → IsValid s
    → (t : Store) × (from_dict m (to_dict m s) ≡ ok t)
      × (t.nodes ≡ s.nodes)
      × (t.edges ≡ s.edges)
      × IsValid t
unfolding from_dict to_dict all_nodes all_edges
from_dict-to_dict m s back h =
    let loaded = load_nodes empty (values s.nodes) in
    let nodes = load_nodes-append s.nodes empty h.keyed h.distinct_nodes in
    let valid = load_nodes-IsValid (values s.nodes) empty empty-IsValid in
    let (p, q) = load_edges-append s.edges loaded valid (rw nodes h.distinct) in
    (
      load_edges loaded s.edges,
      ground (
        arith,
        read_rows-ok m m.validate_node upsert_node (map m.dump_node (values s.nodes))
            (values s.nodes) empty
            (map_back m.dump_node m.validate_node back.node_back (values s.nodes)),
        read_rows-ok m m.validate_edge upsert_edge (map m.dump_edge s.edges) s.edges loaded
            (map_back m.dump_edge m.validate_edge back.edge_back s.edges),
      ),
      q ∙ ap (λ (t : Store). t.nodes) nodes,
      p ∙ ap (λ (t : Store). t.edges ++ s.edges) nodes,
      load_edges-IsValid s.edges loaded valid,
    )
