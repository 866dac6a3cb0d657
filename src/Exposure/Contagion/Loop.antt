-- ===== src/Exposure/Contagion/Loop.antt =====
-- The `while` loop of `group_contagion` ends: no node is put into the queue twice.
use coruscant.Prelude.{
  ℕ, zero, suc, ◌+◌, ◌≤◌, ◌<◌, ◌≡◌, refl, sym, Bool, false, not, Option, some, String, List, [],
  ◌∷◌, ◌++◌, map, foldl, length, length-append, length-map, Memᴰ, Memᴰ-map, Memᴰ-append, elem,
  elem-add, add, count_if, count_if-lt, length-count_if-le, arith, Bool-cases, inl, inr, ==_refl,
  leb, pair_eq, string_eq,
}
use coruscant.Graph.Types.{EntityId}
use coruscant.Graph.Memory.{Store, source_of, target_of}
use coruscant.Graph.Substrate.{AccessTier}
use coruscant.Exposure.Contagion.{
  ContagionHop, Entry, Found, reach, adjacent, expand, search, first_found, rounds,
}
use coruscant.Exposure.Contagion.Steps.{adjacent_iff}

-- Both ends of every stored edge.
abbrev ends : Store → List EntityId
ends s = map source_of s.edges ++ map target_of s.edges

is_new : List EntityId → EntityId → Bool
is_new seen n = not (elem n seen)

unseen : Store → List EntityId → ℕ
unfolding is_new
unseen s seen = count_if (is_new seen) (ends s)

unseen-add-lt :
    (s : Store) (n : EntityId) (seen : List EntityId)
    → Memᴰ n (ends s)
    → elem n seen ≡ false
    → unseen s (add n seen) < unseen s seen
unfolding unseen
unseen-add-lt s n seen m h =
    count_if-lt (is_new seen) (is_new (add n seen)) (λ x k. ground (arith, k, elem-add x n seen)) n
      (ends s) m (ground (arith, h)) (ground (arith, elem-add n n seen, ==_refl n))

module _ (s : Store) where
  -- How many entries the loop can still take.
  abbrev weight : List Entry × Found → ℕ
  weight (queue, found) = length queue + unseen s found.seen

  reach-weight :
      (path : List ContagionHop) (st : List Entry × Found) (step : EntityId × ContagionHop)
      → Memᴰ step.0 (ends s)
      → weight (reach s path st step) ≤ weight st
  unfolding reach
  reach-weight path (queue, found) (n, h) m = elim (Bool-cases (elem n found.seen)) [
    | inl old ↦ rw old (omega arith)
    | inr new ↦ rw new (
        omega (
          arith,
          unseen-add-lt s n found.seen m new,
          length-append queue ((n, path ++ h ∷ []) ∷ []),
        ))
  ]

  reach_each-weight :
      (path : List ContagionHop) (steps : List (EntityId × ContagionHop)) (st : List Entry × Found)
      → ((x : EntityId × ContagionHop) → Memᴰ x steps → Memᴰ x.0 (ends s))
      → weight (foldl (reach s path) st steps) ≤ weight st
  reach_each-weight path [] st m = omega arith
  reach_each-weight path (x ∷ xs) st m = omega (
    arith,
    reach-weight path st x (m x (Memᴰ.head refl)),
    reach_each-weight path xs (reach s path st x) (λ y t. m y (Memᴰ.tail t)),
  )

  module _ (clearance : AccessTier) (on : Option String) where
    adjacent-mem-ends :
        (i : EntityId) (x : EntityId × ContagionHop)
        → Memᴰ x (adjacent s clearance on i).0
        → Memᴰ x.0 (ends s)
    adjacent-mem-ends i (j, h) m =
        let w = (adjacent_iff s clearance on i j h).0 m in
        (Memᴰ-append j (map source_of s.edges) (map target_of s.edges)).1 (elim w.ends [
          | inl t ↦ inl ((Memᴰ-map source_of j s.edges).1 (w.edge, w.evidence.stored, sym t.1))
          | inr t ↦ inr ((Memᴰ-map target_of j s.edges).1 (w.edge, w.evidence.stored, sym t.1))
        ])

    module _ (limit : ℕ) where
      expand-weight :
          (entry : Entry) (st : List Entry × Found)
          → weight (expand s clearance on limit entry st) ≤ weight st
      unfolding expand
      expand-weight (i, path) (queue, found) = elim (Bool-cases (leb limit (length path))) [
        | inl far ↦ rw far (omega arith)
        | inr near ↦
            rw near (
              reach_each-weight path (adjacent s clearance on i).0 (queue, _) (adjacent-mem-ends i))
      ]

      search_ends :
          (fuel : ℕ) (st : List Entry × Found)
          → weight st ≤ fuel
          → (found : Found) × (search s clearance on limit fuel st ≡ some found)
      unfolding search
      search_ends fuel ([], found) h = (found, refl)
      search_ends zero (entry ∷ queue, found) h = absurd (omega arith)
      search_ends (suc fuel) (entry ∷ queue, found) h =
          search_ends fuel (expand s clearance on limit entry (queue, found))
            (omega (arith, expand-weight entry (queue, found)))

      -- The fuel of `group_contagion` is enough.
      pub search_ends_at :
          (i : EntityId)
          → (found : Found) × (search s clearance on limit (rounds s) ((i, []) ∷ [], first_found i)
              ≡ some found)
      unfolding unseen
      search_ends_at i =
          search_ends (rounds s) ((i, []) ∷ [], first_found i)
            (omega (
              arith,
              length-count_if-le (is_new (i ∷ [])) (ends s),
              length-append (map source_of s.edges) (map target_of s.edges),
              length-map source_of s.edges,
              length-map target_of s.edges,
            ))
