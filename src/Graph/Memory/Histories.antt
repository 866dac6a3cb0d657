-- ===== src/Graph/Memory/Histories.antt =====
-- The store by what was written to it, without its dict and its index.
use coruscant.Prelude.{
  ◌≡◌, refl, sym, ap, ◌∙◌, Bool, true, false, not, ◌&&◌, Option, none, some, List, [], ◌∷◌, ◌++◌,
  keep, foldl, arith, elem, ◌==◌, if◌then◌else◌, string_eq, pair_eq, map-append, elem-append, Eq,
  Bool-cases, Bool-cases, inl, inl, inr, inr,
}
use mathlib.Core.List.{append_assoc, append-nil}
use coruscant.Prelude.Dict.{get-set}
use coruscant.Graph.Types.{EntityId, GraphNode, GraphEdge}
use coruscant.Graph.Memory.{
  Store, empty, identity, upsert_node, upsert_edge, get_node, all_edges, map, map, map,
}
use coruscant.Graph.Memory.Laws.{
  IsValid, Write, node, edge, write, write-IsValid, empty-IsValid, identities,
}

-- Two edges are the same if the kinds and the keys of their ends and their relations are.
abbrev pub same_edge : GraphEdge → GraphEdge → Bool
same_edge a b =
    a.source_kind == b.source_kind
    && a.source_key == b.source_key
    && a.relation == b.relation
    && a.target_kind == b.target_kind
    && a.target_key == b.target_key

-- The edges of a list without those that are the same as one before them.
abbrev pub firsts : List GraphEdge → List GraphEdge
firsts [] = []
firsts (e ∷ es) = e ∷ keep (λ x. not (same_edge e x)) (firsts es)

-- The node of a kind and a key that comes last in a list.
abbrev pub last_node : EntityId → List GraphNode → Option GraphNode
last_node i [] = none
last_node i (n ∷ ns) = elim (last_node i ns) [
  | some later ↦ some later
  | none ↦ if n.kind == i.0 && n.key == i.1 then some n else none
]

-- The nodes and the edges that are written.
abbrev pub nodes_in : List Write → List GraphNode
nodes_in [] = []
nodes_in (node n ∷ ws) = n ∷ nodes_in ws
nodes_in (edge e ∷ ws) = nodes_in ws

abbrev pub edges_in : List Write → List GraphEdge
edges_in [] = []
edges_in (node n ∷ ws) = edges_in ws
edges_in (edge e ∷ ws) = e ∷ edges_in ws

same_edge-identity : (a b : GraphEdge) → same_edge a b ≡ (identity a == identity b)
same_edge-identity a b = ground arith

module _ {A K : Type 0} ⦃k : Eq K⦄ (f : A → K) where
  -- The elements of the second list with keys that the first does not have.
  abbrev unseen : List A → List A → List A
  unseen known = keep (λ x. not (elem (f x) (map f known)))

  unseen_same :
      (known : List A) (e : A) (es : List A)
      → elem (f e) (map f known) ≡ true
      → unseen known (keep (λ x. not (f e == f x)) es) ≡ unseen known es
  unseen_same known e [] h = refl
  unseen_same known e (x ∷ es) h = ground (
    arith,
    h,
    unseen_same known e es h,
    k.same_iff (f e) (f x),
    λ (q : f e ≡ f x). ap (λ i. elem i (map f known)) q,
  )

  unseen_new :
      (known : List A) (e : A) (es : List A)
      → unseen known (keep (λ x. not (f e == f x)) es) ≡ unseen (known ++ e ∷ []) es
  unseen_new known e [] = refl
  unseen_new known e (x ∷ es) = ground (
    arith,
    unseen_new known e es,
    ap (elem (f x)) (map-append f known (e ∷ [])),
    elem-append (f x) (map f known) (f e ∷ []),
    k.same_iff (f e) (f x),
    k.same_iff (f x) (f e),
  )

  unseen_empty : (es : List A) → unseen [] es ≡ es
  unseen_empty [] = refl
  unseen_empty (e ∷ es) = ap (◌∷◌ e) (unseen_empty es)

-- In `firsts`, the edges behind one are those with another identity.
by_identity :
    (e : GraphEdge) (es : List GraphEdge)
    → keep (λ x. not (same_edge e x)) es ≡ keep (λ x. not (identity e == identity x)) es
by_identity e es = λ i. keep (λ x. not (same_edge-identity e x i)) es

firsts_old :
    (known : List GraphEdge) (e : GraphEdge) (es : List GraphEdge)
    → elem (identity e) (identities known) ≡ true
    → unseen identity known (firsts (e ∷ es)) ≡ unseen identity known (firsts es)
firsts_old known e es old = rw old (
    ap (unseen identity known) (by_identity e (firsts es))
    ∙ unseen_same identity known e (firsts es) old)

firsts_new :
    (known : List GraphEdge) (e : GraphEdge) (es : List GraphEdge)
    → elem (identity e) (identities known) ≡ false
    → unseen identity known (firsts (e ∷ es)) ≡ e ∷ unseen identity (known ++ e ∷ []) (firsts es)
firsts_new known e es new = rw new (
    ap (◌∷◌ e) (
      ap (unseen identity known) (by_identity e (firsts es))
      ∙ unseen_new identity known e (firsts es)))

edges-foldl :
    (ws : List Write) (s : Store)
    → IsValid s
    → (foldl write s ws).edges ≡ s.edges ++ unseen identity s.edges (firsts (edges_in ws))
unfolding write upsert_node upsert_edge
edges-foldl [] s h = sym (append-nil s.edges)
edges-foldl (node n ∷ ws) s h = edges-foldl ws (upsert_node n s) (write-IsValid (node n) s h)
edges-foldl (edge e ∷ ws) s h =
    let after = edges-foldl ws (upsert_edge e s) (write-IsValid (edge e) s h) in
    elim (Bool-cases (elem (identity e) (identities s.edges))) [
      | inl old ↦
          let same : upsert_edge e s ≡ s = ground (arith, h.indexed (identity e), old) in
          after
          ∙ ap (λ (t : Store). t.edges ++ unseen identity t.edges (firsts (edges_in ws))) same
          ∙ ap (λ es. s.edges ++ es) (sym (firsts_old s.edges e (edges_in ws) old))
      | inr new ↦
          let same : (upsert_edge e s).edges ≡ s.edges ++ e ∷ [] =
            ground (arith, h.indexed (identity e), new) in
          after
          ∙ ap (λ es. es ++ unseen identity es (firsts (edges_in ws))) same
          ∙ append_assoc s.edges (e ∷ [])
              (unseen identity (s.edges ++ e ∷ []) (firsts (edges_in ws)))
          ∙ ap (λ es. s.edges ++ es) (sym (firsts_new s.edges e (edges_in ws) new))
    ]

nodes-foldl :
    (ws : List Write) (s : Store) (i : EntityId)
    → get_node (foldl write s ws) i
      ≡ (elim (last_node i (nodes_in ws)) [ none ↦ get_node s i | some n ↦ some n ])
unfolding write get_node upsert_node upsert_edge
nodes-foldl [] s i = refl
nodes-foldl (node n ∷ ws) s i =
    ground (arith, nodes-foldl ws (upsert_node n s) i, get-set (n.kind, n.key) i n s.nodes)
nodes-foldl (edge e ∷ ws) s i = ground (arith, nodes-foldl ws (upsert_edge e s) i)

-- The store that a sequence of writes makes of an empty one.
abbrev pub written : List Write → Store
written = foldl write empty

-- Of the edges that are written, exactly those are stored that no edge with the same ends and the same
-- relation came before, in the order in which they were written; and a node is found as it was written last.
pub written-firsts :
    (ws : List Write)
    → (all_edges (written ws) ≡ firsts (edges_in ws))
      × ((i : EntityId) → get_node (written ws) i ≡ last_node i (nodes_in ws))
unfolding all_edges get_node
written-firsts ws = (
  edges-foldl ws empty empty-IsValid ∙ unseen_empty identity (firsts (edges_in ws)),
  λ i. ground (arith, nodes-foldl ws empty i),
)
