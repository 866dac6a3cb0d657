-- ===== src/Exposure/Chains/Ends.antt =====
-- What every route has: its hops are joined, seen and bounded, no key comes back before its end, and
-- its end says what stands there.
use coruscant.Prelude.{
  ℕ, ◌+◌, ◌≤◌, ◌<◌, ◌≡◌, refl, ◌≢◌, ◌↔◌, ◌⊎◌, inl, inr, String, true, false, Option, none, some,
  List, [], ◌∷◌, length, Memᴰ, All, arith, elem, add, string_eq,
}
use coruscant.Graph.Types.{EntityId, GraphEdge}
use coruscant.Graph.Memory.{Store, source_of, target_of}
use coruscant.Graph.Substrate.{AccessTier, tier_rank, tier_of, valid_on}
use coruscant.Graph.Substrate.Access.{IfGiven}
use coruscant.Exposure.Ownership.{ownership_relations}
use coruscant.Exposure.Chains.{Terminal, cycle, max_depth, terminal_for}
use coruscant.Exposure.Chains.Routes.{OwnerEdge, Route, top, back, deep, up, end_of}

-- Each edge leads into the source of the one before it, and the first into the node.
abbrev pub IsJoined : EntityId → List GraphEdge → Type 0
IsJoined i [] = Unit
IsJoined i (e ∷ es) = (target_of e ≡ i) × IsJoined (source_of e) es

-- The keys of all holders but the last are new, and the last one is on the path exactly if the
-- route is a cycle.
abbrev pub HasNewKeys : List String → List GraphEdge → Terminal → Type 0
HasNewKeys visited [] t = t ≢ cycle
HasNewKeys visited (e ∷ []) t = (elem e.source_key visited ≡ true) ↔ (t ≡ cycle)
HasNewKeys visited (e ∷ e' ∷ es) t =
    (elem e.source_key visited ≡ false) × HasNewKeys (add e.source_key visited) (e' ∷ es) t

abbrev pub last_edge : List GraphEdge → Option GraphEdge
last_edge [] = none
last_edge (e ∷ []) = some e
last_edge (_ ∷ e ∷ es) = last_edge (e ∷ es)

module _ (s : Store) (clearance : AccessTier) (on : Option String) where
  -- An ownership edge of the store that the clearance shows and that holds on the date.
  pub record IsEvidence (e : GraphEdge) : Type 0 where
    pub stored : Memᴰ e s.edges
    pub ownership : elem e.relation ownership_relations ≡ true
    pub current : IfGiven on (λ d. valid_on e.properties d ≡ true)
    pub seen : tier_rank (tier_of e.properties) ≤ tier_rank clearance

  OwnerEdge-IsEvidence :
      {i : EntityId} {e : GraphEdge} → OwnerEdge s clearance on i e → IsEvidence e
  OwnerEdge-IsEvidence o = record {
    stored = o.stored;
    ownership = o.ownership;
    current = o.current;
    seen = o.seen;
  }

  end_of-ne-cycle : (i : EntityId) (last : Option String) → end_of s clearance on i last ≢ cycle
  unfolding terminal_for
  end_of-ne-cycle i last = ground arith

  module _ (limit : ℕ) where
    pub Route-length-le :
        {i : EntityId} {visited : List String} {depth : ℕ} {last : Option String}
        {es : List GraphEdge} {t : Terminal}
        → Route s clearance on limit i visited depth last es t
        → depth < limit
        → length es + depth ≤ limit
    Route-length-le (top none_above end) h = omega arith
    Route-length-le (back o old) h = omega arith
    Route-length-le (deep o new far) h = omega arith
    Route-length-le (up o new near r) h = omega (arith, Route-length-le r near)

    pub Route-IsEvidence :
        {i : EntityId} {visited : List String} {depth : ℕ} {last : Option String}
        {es : List GraphEdge} {t : Terminal}
        → Route s clearance on limit i visited depth last es t
        → All IsEvidence es
    Route-IsEvidence (top none_above end) = tt
    Route-IsEvidence (back o old) = (OwnerEdge-IsEvidence o, tt)
    Route-IsEvidence (deep o new far) = (OwnerEdge-IsEvidence o, tt)
    Route-IsEvidence (up o new near r) = (OwnerEdge-IsEvidence o, Route-IsEvidence r)

    pub Route-IsJoined :
        {i : EntityId} {visited : List String} {depth : ℕ} {last : Option String}
        {es : List GraphEdge} {t : Terminal}
        → Route s clearance on limit i visited depth last es t
        → IsJoined i es
    Route-IsJoined (top none_above end) = tt
    Route-IsJoined (back o old) = (o.into, tt)
    Route-IsJoined (deep o new far) = (o.into, tt)
    Route-IsJoined (up o new near r) = (o.into, Route-IsJoined r)

    HasNewKeys-cons :
        (visited : List String) (e : GraphEdge) (es : List GraphEdge) (t : Terminal)
        → elem e.source_key visited ≡ false
        → HasNewKeys (add e.source_key visited) es t
        → HasNewKeys visited (e ∷ es) t
    HasNewKeys-cons visited e [] t new h = (λ old. cc, λ p. absurd (h p))
    HasNewKeys-cons visited e (e' ∷ es) t new h = (new, h)

    pub Route-HasNewKeys :
        {i : EntityId} {visited : List String} {depth : ℕ} {last : Option String}
        {es : List GraphEdge} {t : Terminal}
        → Route s clearance on limit i visited depth last es t
        → HasNewKeys visited es t
    Route-HasNewKeys (top {i} {last} none_above end) = λ p. end_of-ne-cycle i last (cc)
    Route-HasNewKeys (back o old) = (λ p. refl, λ p. old)
    Route-HasNewKeys (deep o new far) = (λ p. cc, λ p. cc)
    Route-HasNewKeys (up {visited} {e} {es} {t} o new near r) =
        HasNewKeys-cons visited e es t new (Route-HasNewKeys r)

    -- Where a route ends that is neither a cycle nor cut off.
    abbrev pub EndsAt : Option GraphEdge → Terminal → Type 0
    EndsAt none t = Unit
    EndsAt (some e) t =
        (t ≡ cycle)
        ⊎ ((t ≡ max_depth)
            ⊎ (((x : GraphEdge) → ¬ OwnerEdge s clearance on (source_of e) x)
                × (t ≡ end_of s clearance on (source_of e) (some e.relation))))

    EndsAt-cons :
        (e : GraphEdge) (es : List GraphEdge) {visited : List String} {depth : ℕ} (t : Terminal)
        → Route s clearance on limit (source_of e) visited depth (some e.relation) es t
        → EndsAt (last_edge es) t
        → EndsAt (last_edge (e ∷ es)) t
    EndsAt-cons e [] t (top none_above end) h = inr (inr (none_above, end))
    EndsAt-cons e (e' ∷ es) t r h = h

    pub Route-EndsAt :
        {i : EntityId} {visited : List String} {depth : ℕ} {last : Option String}
        {es : List GraphEdge} {t : Terminal}
        → Route s clearance on limit i visited depth last es t
        → EndsAt (last_edge es) t
    Route-EndsAt (top none_above end) = tt
    Route-EndsAt (back o old) = inl refl
    Route-EndsAt (deep o new far) = inr (inl refl)
    Route-EndsAt (up {e} {es} {t} o new near r) = EndsAt-cons e es t r (Route-EndsAt r)
