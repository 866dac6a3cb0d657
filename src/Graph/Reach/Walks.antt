-- ===== src/Graph/Reach/Walks.antt =====
-- The steps and walks that `reachable` is about.
use coruscant.Prelude.{
  ℕ, suc, ◌≡◌, refl, sym, ◌⊎◌, inl, inr, ◌↔◌, ◌≤◌, String, Bool, true, false, List, [], map, keep,
  Memᴰ, Memᴰ-map, Memᴰ-append, Memᴰ-keep, ◌==◌, if◌then◌else◌, string_eq,
}
use mathlib.Core.List.Memᴰ
use coruscant.Graph.Memory.Queries.{outgoing_iff, incoming_iff}
use text.Mathlib.TextEquality.{eq_iff}
use coruscant.Graph.Types.{EntityId, GraphEdge}
use coruscant.Graph.Memory.{Store, outgoing, incoming, source_of, target_of}
use coruscant.Graph.Reach.{goes_out, goes_in, neighbours}

module _ (s : Store) (relation direction : String) where
  -- A stored edge of the relation, taken forwards or backwards as the direction allows.
  pub record IsStep (i j : EntityId) : Type 0 where
    pub edge : GraphEdge
    pub stored : Memᴰ edge s.edges
    pub related : edge.relation ≡ relation
    pub ends :
        ((goes_out direction ≡ true) × (source_of edge ≡ i) × (target_of edge ≡ j))
        ⊎ ((goes_in direction ≡ true) × (target_of edge ≡ i) × (source_of edge ≡ j))

  -- The walks of so many steps.
  pub data IsWalk (i : EntityId) : EntityId → ℕ → Type 0 where
    here : IsWalk i i 0
    onward : {j k : EntityId} {n : ℕ} → IsWalk i j n → IsStep j k → IsWalk i k (suc n)

  -- The least number of steps of a walk.
  pub record IsDistance (i j : EntityId) (n : ℕ) : Type 0 where
    pub walk : IsWalk i j n
    pub shortest : (m : ℕ) → IsWalk i j m → n ≤ m

  -- One of the two lists that are joined, for the ends `near` and `far` of its edges.
  side_iff :
      (allowed : Bool) (near far : GraphEdge → EntityId) (edges : List GraphEdge) (i j : EntityId)
      → ((e : GraphEdge) → Memᴰ e edges ↔ (Memᴰ e s.edges × (near e ≡ i)))
      → Memᴰ j (if allowed then map far (keep (λ e. e.relation == relation) edges) else []) ↔ (
          (e : GraphEdge) × Memᴰ e s.edges
          × (e.relation ≡ relation)
          × ((allowed ≡ true) × (near e ≡ i) × (far e ≡ j)))
  side_iff false near far edges i j stands =
      (λ m. absurd (Memᴰ.not-nil m), λ (e, m, r, (a, n, f)). absurd (cc a))
  side_iff true near far edges i j stands =
      let among = Memᴰ-map far j (keep (λ (e : GraphEdge). e.relation == relation) edges) in
      let kept = λ (e : GraphEdge). Memᴰ-keep (λ (x : GraphEdge). x.relation == relation) e edges in
      (
        λ m.
            let (e, k, p) = among.0 m in
            let (held, r) = (kept e).0 k in
            let (stored, n) = (stands e).0 held in
            (e, stored, (eq_iff e.relation relation).0 r, (refl, n, sym p)),
        λ (e, stored, r, (a, n, f)).
            among.1
              (e, (kept e).1 ((stands e).1 (stored, n), (eq_iff e.relation relation).1 r), sym f),
      )

  pub neighbours_iff : (i j : EntityId) → Memᴰ j (neighbours s relation direction i) ↔ IsStep i j
  unfolding neighbours
  neighbours_iff i j =
      let outs =
        side_iff (goes_out direction) source_of target_of (outgoing s i) i j (outgoing_iff s i) in
      let ins =
        side_iff (goes_in direction) target_of source_of (incoming s i) i j (incoming_iff s i) in
      let both = Memᴰ-append j _ _ in
      (
        λ m. elim (both.0 m) [
          | inl o ↦
              let (e, t, r, w) = outs.0 o in
              record { edge = e; stored = t; related = r; ends = inl w }
          | inr n ↦
              let (e, t, r, w) = ins.0 n in
              record { edge = e; stored = t; related = r; ends = inr w }
        ],
        λ w. elim w.ends [
          | inl t ↦ both.1 (inl (outs.1 (w.edge, w.stored, w.related, t)))
          | inr t ↦ both.1 (inr (ins.1 (w.edge, w.stored, w.related, t)))
        ],
      )
