-- ===== src/Exposure/Chains/Routes.antt =====
-- The ways up from a company, as a relation on the stored edges that does not mention the walk.
pub mod Sound
pub mod Complete
use coruscant.Prelude.{
  ℕ, ◌+◌, ◌≤◌, ◌<◌, ◌≡◌, refl, ◌↔◌, String, Bool, true, false, Option, none, some, List, [], ◌∷◌,
  ◌++◌, map, Memᴰ, Memᴰ-keep, arith, elem, add, leb, if◌then◌else◌, string_eq, pair_eq, keep, ◌==◌,
  ◌&&◌, ap,
}
use coruscant.Graph.Memory.Queries.{incoming_iff}
use text.Mathlib.TextEquality.{eq_iff}
use coruscant.Graph.Types.{EntityId, GraphEdge}
use coruscant.Graph.Memory.{Store, incoming, source_of, target_of}
use coruscant.Graph.Substrate.{AccessTier, tier_rank, tier_of, visible_at, valid_on, as_of}
use coruscant.Graph.Substrate.Access.{visible_at_iff, IfGiven}
use coruscant.Exposure.Ownership.{EntityRef, current_ownership, ownership_relations}
use coruscant.Exposure.Chains.{
  ChainLink, Terminal, cycle, max_depth, restricted, OwnershipChain, chain, link, last_holder,
  terminal_for, owner_edges,
}

pub current_ownership_iff :
    (on : Option String) (e : GraphEdge) (edges : List GraphEdge)
    → Memᴰ e (current_ownership on edges) ↔ (
        Memᴰ e edges
        × (elem e.relation ownership_relations ≡ true)
        × IfGiven on (λ d. valid_on e.properties d ≡ true))
unfolding current_ownership as_of
current_ownership_iff none e edges =
    ground (arith, Memᴰ-keep (λ (x : GraphEdge). elem x.relation ownership_relations) e edges)
current_ownership_iff (some d) e edges = ground (
  arith,
  Memᴰ-keep (λ (x : GraphEdge). elem x.relation ownership_relations) e edges,
  Memᴰ-keep (λ (x : GraphEdge). valid_on x.properties d) e
      (keep (λ (x : GraphEdge). elem x.relation ownership_relations) edges),
)

module _ (s : Store) (clearance : AccessTier) (on : Option String) where
  -- An ownership edge of the store into the node, that the clearance shows and that holds on the
  -- date, if one is given.
  pub record OwnerEdge (i : EntityId) (e : GraphEdge) : Type 0 where
    pub stored : Memᴰ e s.edges
    pub into : target_of e ≡ i
    pub ownership : elem e.relation ownership_relations ≡ true
    pub current : IfGiven on (λ d. valid_on e.properties d ≡ true)
    pub seen : tier_rank (tier_of e.properties) ≤ tier_rank clearance

  -- Why a route stops at a node with no owner that is seen.
  abbrev pub end_of : EntityId → Option String → Terminal
  end_of i last =
      if leb 1 (owner_edges s clearance on i).1 then restricted else terminal_for s i last

  module _ (limit : ℕ) where
    -- The routes up from a node, given the keys on the way to it, its depth and the relation of the
    -- last hop: the edges that are climbed, and why there is no further one.
    pub data Route
        : EntityId → List String → ℕ → Option String → List GraphEdge → Terminal → Type 0 where
      top :
          {i : EntityId} {visited : List String} {depth : ℕ} {last : Option String} {t : Terminal}
          → ((e : GraphEdge) → ¬ OwnerEdge i e)
          → t ≡ end_of i last
          → Route i visited depth last [] t
      back :
          {i : EntityId} {visited : List String} {depth : ℕ} {last : Option String} {e : GraphEdge}
          → OwnerEdge i e
          → elem e.source_key visited ≡ true
          → Route i visited depth last (e ∷ []) cycle
      deep :
          {i : EntityId} {visited : List String} {depth : ℕ} {last : Option String} {e : GraphEdge}
          → OwnerEdge i e
          → elem e.source_key visited ≡ false
          → limit ≤ depth + 1
          → Route i visited depth last (e ∷ []) max_depth
      up :
          {i : EntityId} {visited : List String} {depth : ℕ} {last : Option String} {e : GraphEdge}
          {es : List GraphEdge} {t : Terminal}
          → OwnerEdge i e
          → elem e.source_key visited ≡ false
          → depth + 1 < limit
          → Route (source_of e) (add e.source_key visited) (depth + 1) (some e.relation) es t
          → Route i visited depth last (e ∷ es) t

  -- `_owner_edges` returns exactly the owner edges.
  pub owner_edges_iff :
      (i : EntityId) (e : GraphEdge) → Memᴰ e (owner_edges s clearance on i).0 ↔ OwnerEdge i e
  unfolding owner_edges
  owner_edges_iff i e =
      let shown = visible_at_iff clearance e (current_ownership on (incoming s i)) in
      let current = current_ownership_iff on e (incoming s i) in
      let stored = incoming_iff s i e in
      (
        λ m.
            let (held, seen) = shown.0 m in
            let (entering, ownership, now) = current.0 held in
            let (present, into) = stored.0 entering in
            record {
              stored = present;
              into = into;
              ownership = ownership;
              current = now;
              seen = seen;
            },
        λ o. shown.1 (current.1 (stored.1 (o.stored, o.into), o.ownership, o.current), o.seen),
      )

-- The chain that a route is reported as.
abbrev pub report : Store → List GraphEdge → Terminal → OwnershipChain
report s es t = chain (map (link s) es) t (last_holder (map (link s) es))
