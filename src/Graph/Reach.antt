-- ===== src/Graph/Reach.antt =====
-- `reachable` of knowledge_graph/store.py: the nodes within some hops along one relation.
pub mod Walks
pub mod Layers
pub mod Rounds
pub mod Results
mod Tests
use coruscant.Prelude.{
  ℕ, zero, suc, ◌+◌, String, Bool, ◌||◌, Option, none, some, List, [], ◌∷◌, ◌++◌, map, keep, foldl,
  length, leb, ◌==◌, if◌then◌else◌, Result, ok, raise, key_error, string_eq, pair_eq,
}
use coruscant.Prelude.Dict
use coruscant.Prelude.Dict.{Dict}
use coruscant.Graph.Types.{EntityId, GraphEdge}
use coruscant.Graph.Memory.{Store, outgoing, incoming, source_of, target_of}

-- `direction in ("out", "any")` and `direction in ("in", "any")`
abbrev pub goes_out : String → Bool
goes_out direction = direction == "out" || direction == "any"

abbrev pub goes_in : String → Bool
goes_in direction = direction == "in" || direction == "any"

abbrev pub Distances : Type 0
Distances = Dict EntityId ℕ

module _ (s : Store) (relation direction : String) where
  unfoldable pub neighbours : EntityId → List EntityId
  neighbours current =
      (if goes_out direction
        then map target_of (keep (λ e. e.relation == relation) (outgoing s current))
        else [])
      ++ (if goes_in direction
          then map source_of (keep (λ e. e.relation == relation) (incoming s current))
          else [])

  -- The body of the `for` loop.
  unfoldable pub reach_one : ℕ → List EntityId × Distances → EntityId → List EntityId × Distances
  reach_one depth (queue, dist) n = elim (Dict.get n dist) [
    | some _ ↦ (queue, dist)
    | none ↦ (queue ++ n ∷ [], Dict.set n (depth + 1) dist)
  ]

  module _ (max_hops : ℕ) where
    -- The body of the `while` loop, for a node of the given depth.
    unfoldable pub reach_all : ℕ → EntityId → List EntityId × Distances → List EntityId × Distances
    reach_all depth current st =
        if leb max_hops depth then st else foldl (reach_one depth) st (neighbours current)

    -- The `while` loop; `none` if the fuel runs out. `dist[current]` raises if it is missing.
    unfoldable pub reach_loop : ℕ → List EntityId × Distances → Option (Result Distances)
    reach_loop fuel ([], dist) = some (ok dist)
    reach_loop zero (current ∷ queue, dist) = none
    reach_loop (suc fuel) (current ∷ queue, dist) = elim (Dict.get current dist) [
      | none ↦ some (raise key_error)
      | some depth ↦ reach_loop fuel (reach_all depth current (queue, dist))
    ]

    -- A round for the start and for each end of an edge is enough.
    unfoldable pub reachable : EntityId → Option (Result Distances)
    reachable start =
        elim (reach_loop (1 + (length s.edges + length s.edges)) (start ∷ [], (start, 0) ∷ [])) [
          | none ↦ none
          | some (raise e) ↦ some (raise e)
          | some (ok dist) ↦ some (ok (Dict.remove start dist))
        ]
