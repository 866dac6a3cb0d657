-- ===== src/Exposure/Contagion/Steps.antt =====
-- The steps of `_adjacent`, and the paths that they make.
use coruscant.Prelude.{
  ◌≡◌, refl, sym, ap, ◌⊎◌, inl, inr, ◌↔◌, String, Option, List, [], ◌∷◌, ◌++◌, map, Memᴰ,
  Memᴰ-append, string_eq, pair_eq, Memᴰ-map, ◌∙◌, ◌≤◌,
}
use coruscant.Graph.Memory.Queries.{outgoing_iff, incoming_iff}
use coruscant.Graph.Types.{EntityId, GraphEdge}
use coruscant.Graph.Memory.{Store, incoming, outgoing, source_of, target_of}
use coruscant.Graph.Substrate.{AccessTier, visible_at}
use coruscant.Graph.Substrate.Access.{visible_at_iff}
use coruscant.Exposure.Ownership.{current_ownership}
use coruscant.Exposure.Chains.Routes.{current_ownership_iff}
use coruscant.Exposure.Chains.Ends.{IsEvidence}
use coruscant.Exposure.Contagion.{ContagionHop, Direction, go_up, go_down, hop, adjacent, ℕ, length}

pair_path : {A B : Type 0} {x y : A} {u v : B} → x ≡ y → u ≡ v → ◌≡◌ {A = A × B} (x, u) (y, v)
pair_path p q = rw (p, q) refl

module _ (s : Store) (clearance : AccessTier) (on : Option String) where
  -- The hop is the evidence for a step from one node to the other along a stored ownership edge,
  -- up to its source or down to its target, that the clearance shows and that holds on the date.
  pub record IsHop (i : EntityId) (h : ContagionHop) (j : EntityId) : Type 0 where
    pub edge : GraphEdge
    pub evidence : IsEvidence s clearance on edge
    pub ends :
        ((target_of edge ≡ i) × (source_of edge ≡ j) × (h ≡ hop s go_up i j edge))
        ⊎ ((source_of edge ≡ i) × (target_of edge ≡ j) × (h ≡ hop s go_down i j edge))

  -- The paths of such steps, in the order they are taken.
  pub data IsPath (i : EntityId) : List ContagionHop → EntityId → Type 0 where
    stay : IsPath i [] i
    step :
        {path : List ContagionHop} {j k : EntityId} {h : ContagionHop}
        → IsPath i path j
        → IsHop j h k
        → IsPath i (path ++ h ∷ []) k

  -- The least number of hops of a path from one node to the other.
  pub record IsDistance (i j : EntityId) (d : ℕ) : Type 0 where
    pub path : List ContagionHop
    pub reaches : IsPath i path j
    pub counted : length path ≡ d
    pub shortest : (other : List ContagionHop) → IsPath i other j → d ≤ length other

  seen_iff :
      (e : GraphEdge) (edges : List GraphEdge)
      → ((x : GraphEdge) → Memᴰ x edges → Memᴰ x s.edges)
      → Memᴰ e (visible_at clearance (current_ownership on edges))
        ↔ (Memᴰ e edges × IsEvidence s clearance on e)
  seen_iff e edges stored =
      let shown = visible_at_iff clearance e (current_ownership on edges) in
      let current = current_ownership_iff on e edges in
      (
        λ m.
            let (held, seen) = shown.0 m in
            let (among, ownership, now) = current.0 held in
            (
              among,
              record { stored = stored e among; ownership = ownership; current = now; seen = seen },
            ),
        λ (m, w). shown.1 (current.1 (m, w.ownership, w.current), w.seen),
      )

  -- One of the two lists that `_adjacent` joins, for the ends `near` and `far` of its edges.
  side_iff :
      (d : Direction) (near far : GraphEdge → EntityId) (edges : List GraphEdge) (i j : EntityId)
      (h : ContagionHop)
      → ((x : GraphEdge) → Memᴰ x edges ↔ (Memᴰ x s.edges × (near x ≡ i)))
      → Memᴰ {A = EntityId × ContagionHop}
          (j, h)
          (map
            (λ e. (far e, hop s d i (far e) e))
            (visible_at clearance (current_ownership on edges)))
        ↔ ((e : GraphEdge) × IsEvidence s clearance on e
            × ((near e ≡ i) × (far e ≡ j) × (h ≡ hop s d i j e)))
  side_iff d near far edges i j h stands =
      let among =
        Memᴰ-map (λ e. (far e, hop s d i (far e) e)) (j, h)
          (visible_at clearance (current_ownership on edges)) in
      let seen = λ (e : GraphEdge). seen_iff e edges (λ x q. ((stands x).0 q).0) in
      (
        λ m.
            let (e, n, p) = among.0 m in
            let (k, w) = (seen e).0 n in
            (
              e,
              w,
              (
                ((stands e).0 k).1,
                ap (λ x. x.0) (sym p),
                ap (λ x. x.1) p ∙ ap (λ x. hop s d i x e) (ap (λ x. x.0) (sym p)),
              ),
            ),
        λ (e, w, (at, from, p)). among.1 (
          e,
          (seen e).1 ((stands e).1 (w.stored, at), w),
          pair_path (sym from) (p ∙ ap (λ x. hop s d i x e) (sym from)),
        ),
      )

  -- `_adjacent` returns exactly the steps from the node.
  pub adjacent_iff :
      (i j : EntityId) (h : ContagionHop)
      → Memᴰ {A = EntityId × ContagionHop} (j, h) (adjacent s clearance on i).0 ↔ IsHop i h j
  unfolding adjacent
  adjacent_iff i j h =
      let ups = side_iff go_up target_of source_of (incoming s i) i j h (incoming_iff s i) in
      let downs = side_iff go_down source_of target_of (outgoing s i) i j h (outgoing_iff s i) in
      let both = Memᴰ-append (j, h) _ _ in
      (
        λ m. elim (both.0 m) [
          | inl u ↦ let (e, w, t) = ups.0 u in record { edge = e; evidence = w; ends = inl t }
          | inr d ↦ let (e, w, t) = downs.0 d in record { edge = e; evidence = w; ends = inr t }
        ],
        λ w. elim w.ends [
          | inl t ↦ both.1 (inl (ups.1 (w.edge, w.evidence, t)))
          | inr t ↦ both.1 (inr (downs.1 (w.edge, w.evidence, t)))
        ],
      )
