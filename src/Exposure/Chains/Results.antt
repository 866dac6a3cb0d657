-- ===== src/Exposure/Chains/Results.antt =====
-- What `ownership_chains` returns.
use coruscant.Prelude.{
  ℕ, ◌-◌, ap, ◌≤◌, ◌≡◌, refl, ◌≢◌, ◌↔◌, inr, String, Option, some, List, [], ◌∷◌, map, length,
  length-map, Memᴰ, All, arith, ok, All-mem, sym, subst, string_ord, nat_ord, pair_ord,
}
use coruscant.Prelude.Sort.{Memᴰ-sort_by}
use coruscant.Graph.Types.{GraphNode, GraphEdge}
use coruscant.Graph.Memory.{Store, get_node}
use coruscant.Graph.Substrate.{AccessTier, TierArg, coerce_tier}
use coruscant.Exposure.Ownership.{ref}
use coruscant.Exposure.Chains.{
  OwnershipChain, link, CompanyOwnershipChains, start, clamp_depth, budget, walk, tally, sort_key,
  ownership_chains,
}
use coruscant.Exposure.Chains.Steps.{walk_ends}
use coruscant.Exposure.Chains.Ends.{
  IsEvidence, IsJoined, HasNewKeys, Route-IsEvidence, Route-IsJoined, Route-HasNewKeys,
  Route-length-le,
}
use coruscant.Exposure.Chains.Routes.Sound.{IsReport, walk-IsReport, first-IsOnRoute}
use coruscant.Exposure.Chains.Routes.Complete.{walk-reports}

map_proper : {A B : Type 0} (f : A → B) (xs : List A) → xs ≢ [] → map f xs ≢ []
map_proper f [] h = λ p. h refl
map_proper f (x ∷ xs) h = λ p. cc

length-pos : {A : Type 0} (xs : List A) → xs ≢ [] → 1 ≤ length xs
length-pos [] h = absurd (h refl)
length-pos (x ∷ xs) h = omega arith

module _ (s : Store) (key kind : String) (clearance : TierArg) (on : Option String) (depth : ℕ)
    {c : AccessTier} {n : GraphNode} (known : coerce_tier clearance ≡ ok c)
    (present : get_node s (kind, key) ≡ some n) where
  abbrev limit : ℕ
  limit = clamp_depth depth

  first_fuel :
      budget (length s.edges) (limit - (start kind key).depth) ≡ budget (length s.edges) limit
  first_fuel =
      let e : limit - (start kind key).depth ≡ limit = omega arith in ap (budget (length s.edges)) e

  found :
      (out : List OwnershipChain) × (walk s c on limit
          (budget (length s.edges) limit)
          ([], start kind key ∷ [])
        ≡ some out)
  found =
      walk_ends s c on limit (budget (length s.edges) limit) [] (start kind key ∷ [])
        (omega arith, tt) (omega (arith, first_fuel))

  -- For a company that is in the store and a clearance that is a tier, `ownership_chains` returns: the
  -- walk ends within its fuel, cycles or not.
  pub ownership_chains-returns :
      (r : CompanyOwnershipChains) × (ownership_chains s key kind clearance on depth ≡ ok (some r))
  unfolding ownership_chains
  ownership_chains-returns =
      let (out, e) = found in (tally (ref s (kind, key)) out, ground (arith, present, known, e))

  pub returned :
      {r : CompanyOwnershipChains}
      → ownership_chains s key kind clearance on depth ≡ ok (some r)
      → (out : List OwnershipChain) × (walk s c on limit
            (budget (length s.edges) limit)
            ([], start kind key ∷ [])
          ≡ some out)
        × (r ≡ tally (ref s (kind, key)) out)
  unfolding ownership_chains
  returned {r} h = let (out, e) = found in (out, e, ground (arith, present, known, e, h))

  -- For a company that is in the store and a clearance that is a tier: the chains are exactly the
  -- reports of the routes up from the company of one hop or more: no chain is invented and no
  -- route is left out.
  pub ownership_chains_iff :
      {r : CompanyOwnershipChains}
      → ownership_chains s key kind clearance on depth ≡ ok (some r)
      → (x : OwnershipChain)
      → Memᴰ x r.chains ↔ IsReport s c on (clamp_depth depth) (start kind key) x
  unfolding tally
  ownership_chains_iff {r} h x =
      let (out, e, p) = returned h in
      let sorted = Memᴰ-sort_by sort_key x out in
      (
        λ m.
            All-mem (IsReport s c on limit (start kind key))
              (walk-IsReport s c on limit (start kind key) (budget (length s.edges) limit) []
                (start kind key ∷ []) e (tt, first-IsOnRoute s c on limit (start kind key) refl))
              (sorted.0 (subst (λ (t : CompanyOwnershipChains). Memᴰ x t.chains) p m)),
        λ w.
            subst (λ (t : CompanyOwnershipChains). Memᴰ x t.chains) (sym p)
              (sorted.1 (
                walk-reports s c on limit (budget (length s.edges) limit) [] (start kind key ∷ []) x
                  e
                  (inr (
                    start kind key,
                    w.edges,
                    w.end,
                    Memᴰ.head refl,
                    w.route,
                    sym w.reported,
                    map_proper (link s) w.edges w.proper,
                  )))),
      )

  -- For a company that is in the store and a clearance that is a tier: every chain is a path of
  -- stored ownership edges, from the company up: each edge is one that the clearance shows and
  -- that holds on the date, each leads into the holder of the edge before, and no holder's key
  -- comes twice, but for the last one of a chain that is marked as a cycle.
  pub chain_path :
      {r : CompanyOwnershipChains} {x : OwnershipChain}
      → ownership_chains s key kind clearance on depth ≡ ok (some r)
      → Memᴰ x r.chains
      → (es : List GraphEdge) × (x.links ≡ map (link s) es)
        × All (IsEvidence s c on) es
        × IsJoined (kind, key) es
        × HasNewKeys (key ∷ []) es x.terminal
  chain_path {r} {x} h m =
      let w = (ownership_chains_iff h x).0 m in
      (
        w.edges,
        ap (λ (y : OwnershipChain). y.links) w.reported,
        Route-IsEvidence s c on limit w.route,
        Route-IsJoined s c on limit w.route,
        subst (HasNewKeys (key ∷ []) w.edges)
            (ap (λ (y : OwnershipChain). y.terminal) (sym w.reported))
            (Route-HasNewKeys s c on limit w.route),
      )

  -- For a company that is in the store and a clearance that is a tier: a chain has between one
  -- hop and as many as the clamped depth, which `depth` counts.
  pub chain_depth :
      {r : CompanyOwnershipChains} {x : OwnershipChain}
      → ownership_chains s key kind clearance on depth ≡ ok (some r)
      → Memᴰ x r.chains
      → (x.depth ≡ length x.links) × (1 ≤ x.depth) × (x.depth ≤ clamp_depth depth)
  chain_depth {r} {x} h m =
      let w = (ownership_chains_iff h x).0 m in
      let d : x.depth ≡ length (map (link s) w.edges) =
        ap (λ (y : OwnershipChain). y.depth) w.reported in
      let l : length x.links ≡ length (map (link s) w.edges) =
        ap (λ (y : OwnershipChain). length y.links) w.reported in
      omega (
        arith,
        d,
        l,
        length-map (link s) w.edges,
        Route-length-le s c on limit w.route (omega arith),
        length-pos w.edges w.proper,
      )
