-- ===== src/Exposure/Chains/Terminals.antt =====
-- Why the chains of `ownership_chains` stop, and how they are counted.
use coruscant.Prelude.{
  ℕ, ◌+◌, ◌≤◌, ◌≡◌, refl, ◌≢◌, ◌↔◌, ◌⊎◌, inl, inr, String, true, false, Option, none, some, List,
  [], ◌∷◌, map, length, count_if, Memᴰ, arith, ok, Option-cases, Result-cases, ap, sym, ◌∙◌, subst,
  string_eq, string_ord, nat_ord, pair_ord,
}
use text.Mathlib.TextEquality.{eq_iff}
use mathlib.Core.List.Memᴰ
use coruscant.Prelude.Sort.{sort_by, IsSortedBy, sort_by-IsSortedBy}
use coruscant.Graph.Types.{EntityId, GraphNode, GraphEdge}
use coruscant.Graph.Memory.{Store, get_node, source_of}
use coruscant.Graph.Substrate.{AccessTier, TierArg, coerce_tier}
use coruscant.Exposure.Ownership.{EntityRef, ref, is_unresolved}
use coruscant.Exposure.Chains.{
  OwnershipChain, CompanyOwnershipChains, Terminal, beneficial_owner, root, unresolved, cycle,
  max_depth, restricted, tally, sort_key, is_resolved, is_partial, is_cyclic, is_restricted,
  owner_edges, ownership_chains, terminal_for, link, clamp_depth,
}
use coruscant.Exposure.Chains.Ends.{last_edge, Route-EndsAt, EndsAt}
use coruscant.Exposure.Chains.Routes.{Route, OwnerEdge, end_of, owner_edges_iff}
use coruscant.Exposure.Chains.Results.{ownership_chains_iff, returned}

classes :
    (cs : List OwnershipChain)
    → count_if (λ c. is_resolved c.terminal) cs
        + count_if (λ c. is_partial c.terminal) cs
        + count_if (λ c. is_cyclic c.terminal) cs
      ≡ length cs
classes [] = omega arith
classes (c ∷ cs) = ground (arith, classes cs)

restricted-le :
    (cs : List OwnershipChain)
    → count_if (λ c. is_restricted c.terminal) cs ≤ count_if (λ c. is_partial c.terminal) cs
restricted-le [] = omega arith
restricted-le (c ∷ cs) = ground (arith, restricted-le cs)

tally_counts :
    (company : EntityRef) (out : List OwnershipChain)
    → let t = tally company out in
      IsSortedBy sort_key t.chains
      × (t.resolved_chains + t.partial_chains + t.cyclic_chains ≡ length t.chains)
      × (t.restricted_chains ≤ t.partial_chains)
unfolding tally
tally_counts company out =
    let chains = sort_by sort_key out in
    (sort_by-IsSortedBy sort_key out, classes chains, restricted-le chains)

ownership_chains-tally :
    (s : Store) (key kind : String) (clearance : TierArg) (on : Option String) (depth : ℕ)
    {r : CompanyOwnershipChains}
    → ownership_chains s key kind clearance on depth ≡ ok (some r)
    → (out : List OwnershipChain) × (r ≡ tally (ref s (kind, key)) out)
unfolding ownership_chains
ownership_chains-tally s key kind clearance on depth {r} h =
    elim (Option-cases (get_node s (kind, key))) [
      | inl absent ↦ ([], ground arith)
      | inr (n, present) ↦ elim (Result-cases (coerce_tier clearance)) [
        | inr (x, unknown) ↦ absurd (ground arith)
        | inl (c, known) ↦
            let (out, e, p) = returned s key kind clearance on depth known present h in (out, p)
      ]
    ]

-- The chains that are returned are sorted by depth, terminal and holder's name, and each is counted
-- as resolved, partial or cyclic, once; the restricted ones are among the partial ones.
pub ownership_chains_counts :
    (s : Store) (key kind : String) (clearance : TierArg) (on : Option String) (depth : ℕ)
    {r : CompanyOwnershipChains}
    → ownership_chains s key kind clearance on depth ≡ ok (some r)
    → IsSortedBy sort_key r.chains
      × (r.resolved_chains + r.partial_chains + r.cyclic_chains ≡ length r.chains)
      × (r.restricted_chains ≤ r.partial_chains)
ownership_chains_counts s key kind clearance on depth {r} h =
    let (out, e) = ownership_chains-tally s key kind clearance on depth h in
    subst
      (λ (t : CompanyOwnershipChains).
        IsSortedBy sort_key t.chains
        × (t.resolved_chains + t.partial_chains + t.cyclic_chains ≡ length t.chains)
        × (t.restricted_chains ≤ t.partial_chains))
      (sym e) (tally_counts (ref s (kind, key)) out)

-- A company that is not in the store has no chains, whatever the clearance is.
pub ownership_chains_absent :
    (s : Store) (key kind : String) (clearance : TierArg) (on : Option String) (depth : ℕ)
    → get_node s (kind, key) ≡ none
    → ownership_chains s key kind clearance on depth ≡ ok (some (tally (ref s (kind, key)) []))
unfolding ownership_chains
ownership_chains_absent s key kind clearance on depth h = ground arith

last_edge_proper : (es : List GraphEdge) → es ≢ [] → (e : GraphEdge) × (last_edge es ≡ some e)
last_edge_proper [] h = absurd (h refl)
last_edge_proper (e ∷ []) h = (e, refl)
last_edge_proper (x ∷ e ∷ es) h = last_edge_proper (e ∷ es) (λ p. cc)

-- What the end of a chain says, for one that is not cut off: by the last edge, and by the owner edges
-- of its holder that are withheld.
pub record EndsAs (s : Store) (c : AccessTier) (on : Option String) (e : GraphEdge) (t : Terminal)
    : Type 0 where
  pub none_seen : (x : GraphEdge) → ¬ OwnerEdge s c on (source_of e) x
  pub hidden : (t ≡ restricted) ↔ (1 ≤ (owner_edges s c on (source_of e)).1)
  pub person : (t ≡ beneficial_owner) ↔ (
      ((owner_edges s c on (source_of e)).1 ≡ 0)
      × ((e.relation ≡ "beneficial_owner_of") ⊎ (e.source_kind ≡ "Person")))
  pub unknown :
      t ≡ unresolved
      → (is_unresolved s (source_of e) ≡ true)
        × (e.relation ≢ "beneficial_owner_of")
        × (e.source_kind ≢ "Person")
  pub resolved : t ≡ root → is_unresolved s (source_of e) ≡ false

EndsAs-end_of :
    (s : Store) (c : AccessTier) (on : Option String) (e : GraphEdge)
    → ((x : GraphEdge) → ¬ OwnerEdge s c on (source_of e) x)
    → EndsAs s c on e (end_of s c on (source_of e) (some e.relation))
unfolding terminal_for
EndsAs-end_of s c on e none_above = record {
  none_seen = none_above;
  hidden = ground arith;
  person = ground (arith, eq_iff e.relation "beneficial_owner_of", eq_iff e.source_kind "Person");
  unknown = ground (arith, eq_iff e.relation "beneficial_owner_of", eq_iff e.source_kind "Person");
  resolved = ground arith;
}

nil_of_no_mem : {A : Type 0} (xs : List A) → ((a : A) → Memᴰ a xs → ⊥) → xs ≡ []
nil_of_no_mem [] h = refl
nil_of_no_mem (x ∷ xs) h = absurd (h x (Memᴰ.head refl))

no-Route :
    {s : Store} {c : AccessTier} {on : Option String} (limit : ℕ) {i : EntityId}
    {visited : List String} {depth : ℕ} {last : Option String} {es : List GraphEdge} {t : Terminal}
    → (owner_edges s c on i).0 ≡ []
    → Route s c on limit i visited depth last es t
    → es ≢ []
    → ⊥
no-Route limit {i} unseen (Route.top none_above end) h = h refl
no-Route {s} {c} {on} limit {i} unseen (Route.back {e} o old) h =
    Memᴰ.not-nil (subst (Memᴰ e) unseen ((owner_edges_iff s c on i e).1 o))
no-Route {s} {c} {on} limit {i} unseen (Route.deep {e} o new far) h =
    Memᴰ.not-nil (subst (Memᴰ e) unseen ((owner_edges_iff s c on i e).1 o))
no-Route {s} {c} {on} limit {i} unseen (Route.up {e} o new near r) h =
    Memᴰ.not-nil (subst (Memᴰ e) unseen ((owner_edges_iff s c on i e).1 o))

module _ (s : Store) (key kind : String) (clearance : TierArg) (on : Option String) (depth : ℕ)
    {c : AccessTier} {n : GraphNode} (known : coerce_tier clearance ≡ ok c)
    (present : get_node s (kind, key) ≡ some n) where
  -- For a company that is in the store and a clearance that is a tier: a chain that is no cycle
  -- and not cut off at the depth ends at a holder with no owner that is seen. It is marked
  -- restricted exactly if an owner of that holder is withheld, and else as a beneficial owner
  -- exactly if the last edge is a beneficial-owner edge or the holder is a person, of whatever
  -- relation; else it is unresolved if the holder is marked so, and a root if not.
  pub chain_end :
      {r : CompanyOwnershipChains} {x : OwnershipChain}
      → ownership_chains s key kind clearance on depth ≡ ok (some r)
      → Memᴰ x r.chains
      → x.terminal ≢ cycle
      → x.terminal ≢ max_depth
      → (es : List GraphEdge) × (e : GraphEdge) × (x.links ≡ map (link s) es)
        × (last_edge es ≡ some e)
        × EndsAs s c on e x.terminal
        × (x.complete ≡ is_resolved x.terminal)
  chain_end {r} {x} h m no_cycle not_cut =
      let w = (ownership_chains_iff s key kind clearance on depth known present h x).0 m in
      let t : x.terminal ≡ w.end = ap (λ (y : OwnershipChain). y.terminal) w.reported in
      let (e, p) = last_edge_proper w.edges w.proper in
      (
        w.edges,
        e,
        ap (λ (y : OwnershipChain). y.links) w.reported,
        p,
        elim (subst (λ o. EndsAt s c on (clamp_depth depth) o w.end) p
            (Route-EndsAt s c on (clamp_depth depth) w.route)) [
              | inl is_cycle ↦ absurd (no_cycle (t ∙ is_cycle))
              | inr (inl is_cut) ↦ absurd (not_cut (t ∙ is_cut))
              | inr (inr (none_above, end)) ↦
                  subst (EndsAs s c on e) (sym (t ∙ end)) (EndsAs-end_of s c on e none_above)
            ],
        ap (λ (y : OwnershipChain). y.complete) w.reported ∙ ap is_resolved (sym t),
      )

  -- For a company that is in the store and a clearance that is a tier: if no owner of the company
  -- itself is seen, there are no chains and none is counted as restricted, even where owners of
  -- the company are withheld.
  pub withheld_at_company :
      {r : CompanyOwnershipChains}
      → ownership_chains s key kind clearance on depth ≡ ok (some r)
      → (owner_edges s c on (kind, key)).0 ≡ []
      → (r.chains ≡ []) × (r.restricted_chains ≡ 0)
  withheld_at_company {r} h unseen =
      let no_chain = λ (x : OwnershipChain) (m : Memᴰ x r.chains).
        let w = (ownership_chains_iff s key kind clearance on depth known present h x).0 m in
        no-Route (clamp_depth depth) unseen w.route w.proper in
      let empty = nil_of_no_mem r.chains no_chain in
      let (_, counted, among) = ownership_chains_counts s key kind clearance on depth h in
      (empty, omega (arith, counted, among, ap length empty))
