-- ===== src/Graph/Memory/Loading.antt =====
-- `from_dict` on any snapshot: what it reads, and where it raises.
use coruscant.Prelude.{
  ◌≡◌, refl, sym, ap, ◌∙◌, ◌⊎◌, List, [], ◌∷◌, ◌++◌, map, foldl, Result, ok, raise, Error, arith,
  Result-cases, inl, inr, subst,
}
use coruscant.Graph.Types.{EntityId, GraphNode, GraphEdge}
use coruscant.Graph.Memory.{
  Store, empty, upsert_node, upsert_edge, get_node, all_edges, Models, Snapshot, or_nil, read_rows,
  from_dict,
}
use coruscant.Graph.Memory.Laws.{Write, node, edge, write}
use coruscant.Graph.Memory.Histories.{
  firsts, last_node, nodes_in, edges_in, written, written-firsts,
}

module _ {Row A : Type 0} (validate : Row → Result A) where
  -- The rows are those of the values, in their order.
  abbrev pub AreRows : List Row → List A → Type 0
  AreRows rows vs = map validate rows ≡ map ok vs

  -- The rows before one are valid, and that one raises the error.
  abbrev pub StopsAt : List Row → Error → Type 0
  StopsAt rows x =
      (before : List A) × (rest : List (Result A)) × (map validate rows
        ≡ map ok before ++ raise x ∷ rest)

  rows-cases :
      (rows : List Row) → ((vs : List A) × AreRows rows vs) ⊎ ((x : Error) × StopsAt rows x)
  rows-cases [] = inl ([], refl)
  rows-cases (row ∷ rows) = elim (Result-cases (validate row)) [
    | inr (x, bad) ↦ inr (x, ([], map validate rows, ap (λ r. r ∷ map validate rows) bad))
    | inl (a, good) ↦ elim (rows-cases rows) [
      | inl (vs, h) ↦ inl (a ∷ vs, ap (λ r. r ∷ map validate rows) good ∙ ap (◌∷◌ (ok a)) h)
      | inr (x, (before, rest, h)) ↦
          inr (x, (a ∷ before, rest, ap (λ r. r ∷ map validate rows) good ∙ ap (◌∷◌ (ok a)) h))
    ]
  ]

module _ {Row A : Type 0} (m : Models Row) (validate : Row → Result A)
    (upsert : A → Store → Store) where
  pub read_rows-ok :
      (rows : List Row) (vs : List A) (s : Store)
      → AreRows validate rows vs
      → read_rows m validate upsert rows s ≡ ok (foldl (λ t a. upsert a t) s vs)
  unfolding read_rows
  read_rows-ok [] [] s h = refl
  read_rows-ok [] (a ∷ vs) s h = absurd (cc h)
  read_rows-ok (row ∷ rows) [] s h = absurd (cc h)
  read_rows-ok (row ∷ rows) (a ∷ vs) s h = ground (arith, h, read_rows-ok rows vs (upsert a s))

  pub read_rows-raise :
      (rows : List Row) (x : Error) (s : Store)
      → StopsAt validate rows x
      → read_rows m validate upsert rows s ≡ raise x
  unfolding read_rows
  read_rows-raise [] x s ([], rest, h) = absurd (cc h)
  read_rows-raise [] x s (a ∷ before, rest, h) = absurd (cc h)
  read_rows-raise (row ∷ rows) x s ([], rest, h) = ground (arith, h)
  read_rows-raise (row ∷ rows) x s (a ∷ before, rest, h) =
      let later : map validate rows ≡ map ok before ++ raise x ∷ rest = ground (arith, h) in
      ground (arith, h, read_rows-raise rows x (upsert a s) (before, rest, later))

-- The writes of some nodes, and then of some edges.
abbrev pub node_writes : List GraphNode → List Write → List Write
node_writes [] ws = ws
node_writes (n ∷ ns) ws = node n ∷ node_writes ns ws

abbrev pub edge_writes : List GraphEdge → List Write
edge_writes = map edge

edges_in-writes :
    (ns : List GraphNode) (es : List GraphEdge) → edges_in (node_writes ns (edge_writes es)) ≡ es
edges_in-writes [] [] = refl
edges_in-writes [] (e ∷ es) = ap (◌∷◌ e) (edges_in-writes [] es)
edges_in-writes (n ∷ ns) es = edges_in-writes ns es

nodes_in-writes :
    (ns : List GraphNode) (es : List GraphEdge) → nodes_in (node_writes ns (edge_writes es)) ≡ ns
nodes_in-writes [] [] = refl
nodes_in-writes [] (e ∷ es) = nodes_in-writes [] es
nodes_in-writes (n ∷ ns) es = ap (◌∷◌ n) (nodes_in-writes ns es)

foldl-writes :
    (ns : List GraphNode) (es : List GraphEdge) (s : Store)
    → foldl (λ t e. upsert_edge e t) (foldl (λ t n. upsert_node n t) s ns) es
      ≡ foldl write s (node_writes ns (edge_writes es))
unfolding write
foldl-writes [] [] s = refl
foldl-writes [] (e ∷ es) s = foldl-writes [] es (upsert_edge e s)
foldl-writes (n ∷ ns) es s = foldl-writes ns es (upsert_node n s)

module _ {Row : Type 0} (m : Models Row) (d : Snapshot Row) where
  -- What a reading has given, by how it ended.
  abbrev pub Loaded : Result Store → Type 0
  Loaded (ok s) =
      (ns : List GraphNode) × (es : List GraphEdge) × AreRows m.validate_node (or_nil d.nodes) ns
      × AreRows m.validate_edge (or_nil d.edges) es
      × (all_edges s ≡ firsts es)
      × ((i : EntityId) → get_node s i ≡ last_node i ns)
  Loaded (raise x) =
      StopsAt m.validate_node (or_nil d.nodes) x
      ⊎ ((ns : List GraphNode) × AreRows m.validate_node (or_nil d.nodes) ns
          × StopsAt m.validate_edge (or_nil d.edges) x)

  both_read :
      (ns : List GraphNode) (es : List GraphEdge)
      → AreRows m.validate_node (or_nil d.nodes) ns
      → AreRows m.validate_edge (or_nil d.edges) es
      → from_dict m d ≡ ok (written (node_writes ns (edge_writes es)))
  unfolding from_dict
  both_read ns es hn he = ground (
    arith,
    read_rows-ok m m.validate_node upsert_node (or_nil d.nodes) ns empty hn,
    read_rows-ok m m.validate_edge upsert_edge (or_nil d.edges) es
        (foldl (λ t n. upsert_node n t) empty ns) he,
    ap ok (foldl-writes ns es empty),
  )

  -- A snapshot is read if all its rows are valid: then the edges are those of the rows that no row with the
  -- same ends and relation came before, and a node is found vs the last of its rows has it. Else the
  -- error is that of the first row that is not valid, those of the nodes before those of the edges.
  pub from_dict-Loaded : Loaded (from_dict m d)
  unfolding from_dict
  from_dict-Loaded = elim (rows-cases m.validate_node (or_nil d.nodes)) [
    | inr (x, stops) ↦
        let same : from_dict m d ≡ raise x =
          ground
            (arith, read_rows-raise m m.validate_node upsert_node (or_nil d.nodes) x empty stops) in
        subst Loaded (sym same) (inl stops)
    | inl (ns, hn) ↦ elim (rows-cases m.validate_edge (or_nil d.edges)) [
      | inr (x, stops) ↦
          let nodes = foldl (λ t n. upsert_node n t) empty ns in
          let same : from_dict m d ≡ raise x = ground (
            arith,
            read_rows-ok m m.validate_node upsert_node (or_nil d.nodes) ns empty hn,
            read_rows-raise m m.validate_edge upsert_edge (or_nil d.edges) x nodes stops,
          ) in
          subst Loaded (sym same) (inr (ns, hn, stops))
      | inl (es, he) ↦
          let ws = node_writes ns (edge_writes es) in
          let (edges, nodes) = written-firsts ws in
          subst Loaded (sym (both_read ns es hn he)) (
            ns,
            es,
            hn,
            he,
            edges ∙ ap firsts (edges_in-writes ns es),
            λ i. nodes i ∙ ap (last_node i) (nodes_in-writes ns es),
          )
    ]
  ]
