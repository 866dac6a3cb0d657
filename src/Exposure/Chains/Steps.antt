-- ===== src/Exposure/Chains/Steps.antt =====
-- The `while` loop ends: every frame on the stack has a bounded tree of owners below it.
use coruscant.Prelude.{
  ℕ, zero, suc, ◌+◌, ◌-◌, ◌*◌, ◌≤◌, ◌<◌, ◌≡◌, refl, String, Option, none, some, ap, string_eq, List,
  [], ◌∷◌, foldl, length, length-keep-le, All, arith, elem, keep, keep, ap,
}
use coruscant.Graph.Types.{EntityId, GraphEdge}
use coruscant.Graph.Memory.{Store, incoming}
use coruscant.Graph.Substrate.{AccessTier, visible_at, as_of}
use coruscant.Exposure.Ownership.{current_ownership, ownership_relations}
use coruscant.Exposure.Chains.{
  OwnershipChain, Frame, owner_edges, follow, visit, step, walk, budget,
}

length-owned-le :
    (edges : List GraphEdge)
    → length (keep (λ (e : GraphEdge). elem e.relation ownership_relations) edges) ≤ length edges
length-owned-le = length-keep-le _

length-as_of-le : (edges : List GraphEdge) (on : String) → length (as_of edges on) ≤ length edges
unfolding as_of
length-as_of-le edges on = length-keep-le _ edges

length-current_ownership-le :
    (on : Option String) (edges : List GraphEdge)
    → length (current_ownership on edges) ≤ length edges
unfolding current_ownership
length-current_ownership-le none edges = length-owned-le edges
length-current_ownership-le (some on) edges = omega (
  arith,
  length-as_of-le (keep (λ e. elem e.relation ownership_relations) edges) on,
  length-owned-le edges,
)

length-incoming-le : (s : Store) (i : EntityId) → length (incoming s i) ≤ length s.edges
unfolding incoming
length-incoming-le s i = length-keep-le _ s.edges

length-visible_at-le :
    (c : AccessTier) (edges : List GraphEdge) → length (visible_at c edges) ≤ length edges
unfolding visible_at
length-visible_at-le c edges = length-keep-le _ edges

budget_step :
    (size limit depth : ℕ)
    → depth < limit
    → budget size (limit - depth) ≡ 1 + size * budget size (limit - depth - 1)
unfolding budget
budget_step size limit depth h =
    let e : limit - depth ≡ suc (limit - depth - 1) = omega arith in ap (budget size) e

mul_le : {a b : ℕ} (n : ℕ) → a ≤ b → a * n ≤ b * n
mul_le n h = grind arith

module _ (s : Store) (clearance : AccessTier) (on : Option String) where
  length-owner_edges-le : (i : EntityId) → length (owner_edges s clearance on i).0 ≤ length s.edges
  unfolding owner_edges
  length-owner_edges-le i = omega (
    arith,
    length-visible_at-le clearance (current_ownership on (incoming s i)),
    length-current_ownership-le on (incoming s i),
    length-incoming-le s i,
  )

  module _ (limit : ℕ) where
    abbrev IsShallow : Frame → Type 0
    IsShallow f = f.depth < limit

    -- How many rounds the stack can still take.
    abbrev weight : List Frame → ℕ
    weight [] = 0
    weight (f ∷ stack) = budget (length s.edges) (limit - f.depth) + weight stack

    follow-weight :
        (f : Frame) (st : List OwnershipChain × List Frame) (e : GraphEdge)
        → IsShallow f
        → All IsShallow st.1
        → let st' = follow s clearance on limit f st e in
          All IsShallow st'.1
          × (weight st'.1 ≤ weight st.1 + budget (length s.edges) (limit - f.depth - 1))
    unfolding follow
    follow-weight f (chains, stack) e h k = ground arith

    follow_each-weight :
        (f : Frame) (es : List GraphEdge) (st : List OwnershipChain × List Frame)
        → IsShallow f
        → All IsShallow st.1
        → let st' = foldl (follow s clearance on limit f) st es in
          All IsShallow st'.1
          × (weight st'.1 ≤ weight st.1 + length es * budget (length s.edges) (limit - f.depth - 1))
    follow_each-weight f [] st h k = (k, omega arith)
    follow_each-weight f (e ∷ es) st h k =
        let (shallow, w) = follow-weight f st e h k in
        let (shallow', w') =
          follow_each-weight f es (follow s clearance on limit f st e) h shallow in
        (shallow', omega arith)

    visit-weight :
        (f : Frame) (shown : List GraphEdge × ℕ) (chains : List OwnershipChain) (stack : List Frame)
        → length shown.0 ≤ length s.edges
        → IsShallow f
        → All IsShallow stack
        → let st' = visit s clearance on limit f shown (chains, stack) in
          All IsShallow st'.1 × (weight st'.1 < weight (f ∷ stack))
    unfolding visit
    visit-weight f ([], withheld) chains stack n h k =
        (k, omega (arith, budget_step (length s.edges) limit f.depth h))
    visit-weight f (e ∷ es, withheld) chains stack n h k =
        let (shallow, w) = follow_each-weight f (e ∷ es) (chains, stack) h k in
        (
          shallow,
          omega (
            arith,
            budget_step (length s.edges) limit f.depth h,
            mul_le (budget (length s.edges) (limit - f.depth - 1)) n,
          ),
        )

    -- With the weight of the stack as fuel, the loop ends.
    pub walk_ends :
        (fuel : ℕ) (chains : List OwnershipChain) (stack : List Frame)
        → All IsShallow stack
        → weight stack ≤ fuel
        → (out : List OwnershipChain) × (walk s clearance on limit fuel (chains, stack) ≡ some out)
    unfolding walk
    walk_ends fuel chains [] h k = (chains, refl)
    walk_ends zero chains (f ∷ stack) h k =
        absurd (omega (arith, budget_step (length s.edges) limit f.depth h.0))
    walk_ends (suc fuel) chains (f ∷ stack) h k =
        let st = step s clearance on limit f (chains, stack) in
        let (shallow, w) =
          visit-weight f (owner_edges s clearance on f.node) chains stack
            (length-owner_edges-le f.node) h.0 h.1 in
        walk_ends fuel st.0 st.1 shallow (omega arith)
