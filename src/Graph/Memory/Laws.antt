-- ===== src/Graph/Memory/Laws.antt =====
-- The set of identities agrees with the edges, and no sequence of writes touches an edge that is there.
use coruscant.Prelude.{
  ◌≡◌, refl, ap, sym, ◌∙◌, Bool, false, ◌||◌, List, [], ◌∷◌, ◌++◌, map, foldl, arith, All, elem,
  elem-add, elem-append, Distinct, Distinct-concat, map-append, Bool-cases, inl, inr, ◌==◌,
  string_eq, pair_eq,
}
use coruscant.Prelude.Dict
use coruscant.Prelude.Dict.{Dict}
use coruscant.Graph.Types.{GraphNode, GraphEdge}
use coruscant.Graph.Memory.{Store, EdgeId, empty, identity, upsert_node, upsert_edge}
use mathlib.Core.List.{append_assoc, append-nil}

abbrev pub identities : List GraphEdge → List EdgeId
identities = map identity

pub record IsValid (s : Store) : Type 0 where
  pub indexed : (i : EdgeId) → elem i s.edge_ids ≡ elem i (identities s.edges)
  pub distinct : Distinct (identities s.edges)
  pub keyed : All (λ entry. entry.0 ≡ (entry.1.kind, entry.1.key)) s.nodes
  pub distinct_nodes : Distinct (Dict.keys s.nodes)

swap_or : (a b : Bool) → (a || b) ≡ (b || (a || false))
swap_or a b = ground arith

-- One call of the store's write methods.
pub data Write : Type 0 where
  node : GraphNode → Write
  edge : GraphEdge → Write

unfoldable pub write : Store → Write → Store
write s (node n) = upsert_node n s
write s (edge e) = upsert_edge e s

pub empty-IsValid : IsValid empty
empty-IsValid = record { indexed = λ i. refl; distinct = tt; keyed = tt; distinct_nodes = tt }

pub upsert_node-IsValid : (n : GraphNode) (s : Store) → IsValid s → IsValid (upsert_node n s)
unfolding upsert_node
upsert_node-IsValid n s h = record {
  indexed = h.indexed;
  distinct = h.distinct;
  keyed = Dict.set-All _ (n.kind, n.key) n s.nodes h.keyed (λ j p. p);
  distinct_nodes = Dict.set-Distinct (n.kind, n.key) n s.nodes h.distinct_nodes;
}

pub upsert_edge-IsValid : (e : GraphEdge) (s : Store) → IsValid s → IsValid (upsert_edge e s)
unfolding upsert_edge
upsert_edge-IsValid e s h = elim (Bool-cases (elem (identity e) s.edge_ids)) [
  | inl old ↦ rw old h
  | inr new ↦ rw new (record {
    indexed = λ i.
        rw (elem-add i (identity e) s.edge_ids, h.indexed i, map-append identity s.edges (e ∷ []))
          (rw (elem-append i (identities s.edges) (identity e ∷ []))
            (swap_or (i == identity e) (elem i (identities s.edges))));
    distinct = rw (map-append identity s.edges (e ∷ [])) (
        Distinct-concat (identity e) (identities s.edges) h.distinct
          (sym (h.indexed (identity e)) ∙ new));
    keyed = h.keyed;
    distinct_nodes = h.distinct_nodes;
  })
]

pub write-IsValid : (w : Write) (s : Store) → IsValid s → IsValid (write s w)
unfolding write
write-IsValid (node n) s h = upsert_node-IsValid n s h
write-IsValid (edge e) s h = upsert_edge-IsValid e s h

-- Every sequence of writes keeps the invariant.
pub writes-IsValid : (ws : List Write) (s : Store) → IsValid s → IsValid (foldl write s ws)
writes-IsValid [] s h = h
writes-IsValid (w ∷ ws) s h = writes-IsValid ws (write s w) (write-IsValid w s h)

write_keeps :
    (w : Write) (s : Store) → (later : List GraphEdge) × ((write s w).edges ≡ s.edges ++ later)
unfolding write upsert_node upsert_edge
write_keeps (node n) s = ([], sym (append-nil s.edges))
write_keeps (edge e) s = elim (Bool-cases (elem (identity e) s.edge_ids)) [
  | inl old ↦ ([], rw old (sym (append-nil s.edges)))
  | inr new ↦ (e ∷ [], rw new)
]

-- Writes only add edges, behind those that are there: no edge is replaced, moved or lost.
pub writes_keep :
    (ws : List Write) (s : Store)
    → (later : List GraphEdge) × ((foldl write s ws).edges ≡ s.edges ++ later)
writes_keep [] s = ([], sym (append-nil s.edges))
writes_keep (w ∷ ws) s =
    let (now, p) = write_keeps w s in
    let (after, q) = writes_keep ws (write s w) in
    (now ++ after, q ∙ ap (λ l. l ++ after) p ∙ append_assoc s.edges now after)
