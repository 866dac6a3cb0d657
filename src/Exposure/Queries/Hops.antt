-- ===== src/Exposure/Queries/Hops.antt =====
-- `company_network` of exposure/queries.py: the companies within some hops over the `references` edges,
-- each with a chain of evidence.
use coruscant.Prelude.{
  ℕ, zero, suc, ◌+◌, min, max, String, Option, none, some, List, [], ◌∷◌, ◌++◌, foldl, length, leb,
  ◌==◌, if◌then◌else◌, string_eq, string_ord, nat_ord, pair_ord, Result, ok, raise,
}
use coruscant.Prelude.Dict
use coruscant.Prelude.Dict.{Dict}
use coruscant.Prelude.Sort.{sort_by}
use coruscant.Graph.Types.{GraphEdge}
use coruscant.Graph.Memory.{Store, get_node, edges_by_relation}
use coruscant.Graph.Substrate.{get_str}
use coruscant.Graph.Reach.{reachable, Distances}
use coruscant.Exposure.Ownership.{EntityRef, ref}

pub record NetworkStep : Type 0 where
  pub from_company : EntityRef
  pub to_company : EntityRef
  pub source : Option String

pub record NetworkReach : Type 0 where
  pub company : EntityRef
  pub hops : ℕ
  pub path : List NetworkStep

pub record CompanyNetwork : Type 0 where
  pub company : EntityRef
  pub max_hops : ℕ
  pub reached : List NetworkReach

-- (neighbour, edge), under each company
abbrev pub Adjacency : Type 0
Adjacency = Dict String (List (String × GraphEdge))

-- `adjacency.setdefault(key, []).append(entry)`
unfoldable pub link_to : String → String × GraphEdge → Adjacency → Adjacency
link_to key entry d = Dict.set key (Dict.get_or key [] d ++ entry ∷ []) d

unfoldable pub adjacency : List GraphEdge → Adjacency
unfolding link_to
adjacency es =
    foldl (λ d e. link_to e.target_key (e.source_key, e) (link_to e.source_key (e.target_key, e) d))
      [] es

-- key -> (parent, citing edge), or None for the source
abbrev pub Parents : Type 0
Parents = Dict String (Option (String × GraphEdge))

abbrev pub Queue : Type 0
Queue = List (String × ℕ)

-- The body of the `for` loop.
unfoldable pub visit_one : String → ℕ → Queue × Parents → String × GraphEdge → Queue × Parents
visit_one node depth (queue, parents) (neighbour, e) = elim (Dict.get neighbour parents) [
  | some _ ↦ (queue, parents)
  | none ↦ (queue ++ (neighbour, depth + 1) ∷ [], Dict.set neighbour (some (node, e)) parents)
]

module _ (links : Adjacency) (max_hops : ℕ) where
  -- The `while` loop; `none` if the fuel runs out.
  unfoldable pub parents_loop : ℕ → Queue × Parents → Option Parents
  unfolding visit_one
  parents_loop fuel ([], parents) = some parents
  parents_loop zero (entry ∷ queue, parents) = none
  parents_loop (suc fuel) ((node, depth) ∷ queue, parents) =
      let stopped = parents_loop fuel (queue, parents) in
      let visited =
        parents_loop fuel
          (foldl (visit_one node depth) (queue, parents) (Dict.get_or node [] links)) in
      if leb max_hops depth then stopped else visited

module _ (s : Store) where
  -- A round for the source and for each end of an edge is enough.
  unfoldable pub reference_parents : String → ℕ → Option Parents
  unfolding adjacency parents_loop
  reference_parents source_key max_hops =
      let es = edges_by_relation s "references" in
      parents_loop (adjacency es) max_hops (1 + (length es + length es))
        ((source_key, 0) ∷ [], (source_key, none) ∷ [])

  unfoldable pub network_step : String → String → GraphEdge → NetworkStep
  network_step parent cursor e = record {
    from_company = ref s ("Company", parent);
    to_company = ref s ("Company", cursor);
    source = get_str "source_uri" e.properties;
  }

  -- The steps to the cursor, before those that are found; `none` if the fuel runs out.
  unfoldable pub path_loop : Parents → ℕ → String → List NetworkStep → Option (List NetworkStep)
  unfolding network_step
  path_loop parents zero cursor steps = none
  path_loop parents (suc fuel) cursor steps = elim (Dict.get cursor parents) [
    | some (some (parent, e)) ↦ path_loop parents fuel parent (network_step parent cursor e ∷ steps)
    | _ ↦ some steps
  ]

  -- `_path_from_parents`: each step goes one up, so that a round for each company is enough.
  unfoldable pub path_from_parents : Parents → String → Option (List NetworkStep)
  unfolding path_loop
  path_from_parents parents target = path_loop parents (1 + length parents) target []

  -- The comprehension over the companies that are reached.
  unfoldable pub reaches : Parents → Distances → Option (List NetworkReach)
  unfolding path_from_parents
  reaches parents [] = some []
  reaches parents (((kind, key), distance) ∷ rest) =
      let others = reaches parents rest in
      if kind == "Company"
      then elim (path_from_parents parents key) [
        | none ↦ none
        | some path ↦ elim others [
          | none ↦ none
          | some found ↦
              some
                (record { company = ref s ("Company", key); hops = distance; path = path } ∷ found)
        ]
      ]
      else others

-- `lambda r: (r.hops, r.company.name)`
abbrev by_hops : NetworkReach → ℕ × String
by_hops r = (r.hops, r.company.name)

-- `max(1, min(max_hops, 6))`, for a number that is not negative
abbrev pub clamp_hops : ℕ → ℕ
clamp_hops max_hops = max 1 (min max_hops 6)

unfoldable pub company_network : Store → String → ℕ → Option (Result CompanyNetwork)
unfolding reference_parents reaches
company_network s key max_hops =
    let hops = clamp_hops max_hops in
    let company = ref s ("Company", key) in
    elim (get_node s ("Company", key)) [
      | none ↦ some (ok (record { company = company; max_hops = hops; reached = [] }))
      | some node ↦ elim (reachable s "references" "any" hops ("Company", key)) [
        | none ↦ none
        | some (raise e) ↦ some (raise e)
        | some (ok reached) ↦ elim (reference_parents s key hops) [
          | none ↦ none
          | some parents ↦ elim (reaches s parents reached) [
            | none ↦ none
            | some records ↦ some (
                ok (record {
                  company = company;
                  max_hops = hops;
                  reached = sort_by by_hops records;
                }))
          ]
        ]
      ]
    ]
