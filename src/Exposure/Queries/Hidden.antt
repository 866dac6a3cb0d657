-- ===== src/Exposure/Queries/Hidden.antt =====
-- A store without the edges above a clearance: what the gated queries of exposure/queries.py return at
-- the clearance does not depend on those edges.
pub mod Profiles
use coruscant.Prelude.{
  ◌≡◌, refl, Bool, List, [], ◌∷◌, ◌++◌, String, Option, none, some, keep, arith, Result, ok, raise,
  ◌>>=◌, ap, sym, ◌∙◌, leb, map, ◌==◌, true, false, string_eq, ◌&&◌, Bool-cases, inl, inr, subst,
  if◌then◌else◌, keep_twice, keep_comm, keep-append, keep_comm, keep_comm, keep_comm,
}
use coruscant.Graph.Types.{GraphEdge, EntityId}
use coruscant.Graph.Memory.{
  target_of, source_of, Store, outgoing, incoming, edges_by_relation, get_node, all_nodes,
}
use coruscant.Graph.Substrate.{
  AccessTier, TierArg, coerce_tier, tier_of, tier_rank, visible_at, visible, can_see, as_of,
  valid_on,
}
use coruscant.Exposure.Ownership.{ref, name_of}
use coruscant.Exposure.Queries.Props.{Text, as_of_date}
use coruscant.Exposure.Queries.Panels.{
  screening_hit, lei_anchor, screening_overview, resolution_overview,
}
use coruscant.Exposure.Queries.Funds.{fund_holding, fund_ref, fund_holdings, holds_edges}
use coruscant.Exposure.Queries.Profile.{outward, inward, entity_profile, relationship}

unfoldable pub hide : AccessTier → Store → Store
hide c s = record s { edges = visible_at c s.edges }

module _ (c : AccessTier) where
  abbrev pub shown : GraphEdge → Bool
  shown e = leb (tier_rank (tier_of e.properties)) (tier_rank c)

  -- To show what is shown changes nothing, at any date.
  visible_at_dated :
      (d : Option String) (es : List GraphEdge)
      → visible_at c (as_of_date d (visible_at c es)) ≡ visible_at c (as_of_date d es)
  unfolding as_of_date as_of visible_at
  visible_at_dated none es = keep_twice shown es
  visible_at_dated (some on) es =
      keep_comm shown (λ e. valid_on e.properties on) (keep shown es)
      ∙ ap (keep (λ e. valid_on e.properties on)) (keep_twice shown es)
      ∙ keep_comm (λ e. valid_on e.properties on) shown es

  keep-visible_at :
      (p : GraphEdge → Bool) (es : List GraphEdge)
      → keep p (visible_at c es) ≡ visible_at c (keep p es)
  unfolding visible_at
  keep-visible_at p es = keep_comm p shown es

  visible_at-append :
      (xs ys : List GraphEdge) → visible_at c (xs ++ ys) ≡ visible_at c xs ++ visible_at c ys
  unfolding visible_at
  visible_at-append xs ys = keep-append shown xs ys

  module _ (s : Store) where
    edges_by_relation-hide :
        (relation : String)
        → edges_by_relation (hide c s) relation ≡ visible_at c (edges_by_relation s relation)
    unfolding hide edges_by_relation visible_at
    edges_by_relation-hide relation = keep_comm (λ e. e.relation == relation) shown s.edges

    -- The nodes are all there.
    pub get_node-hide : (i : EntityId) → get_node (hide c s) i ≡ get_node s i
    unfolding hide get_node
    get_node-hide i = refl

    pub ref-hide : ref (hide c s) ≡ ref s
    unfolding hide get_node ref name_of
    ref-hide = refl

    screening_hit-hide : screening_hit (hide c s) ≡ screening_hit s
    unfolding hide get_node ref name_of screening_hit
    screening_hit-hide = refl

    lei_anchor-hide : lei_anchor (hide c s) ≡ lei_anchor s
    unfolding hide get_node ref name_of lei_anchor
    lei_anchor-hide = refl

    fund_holding-hide : fund_holding (hide c s) ≡ fund_holding s
    unfolding hide get_node ref name_of fund_holding
    fund_holding-hide = refl

    fund_ref-hide : (t : Text) (key : String) → fund_ref t (hide c s) key ≡ fund_ref t s key
    unfolding hide get_node name_of fund_ref
    fund_ref-hide t key = refl

    pub outgoing-hide : (i : EntityId) → outgoing (hide c s) i ≡ visible_at c (outgoing s i)
    unfolding hide outgoing visible_at
    outgoing-hide i = keep_comm (λ e. e.source_kind == i.0 && e.source_key == i.1) shown s.edges

    pub incoming-hide : (i : EntityId) → incoming (hide c s) i ≡ visible_at c (incoming s i)
    unfolding hide incoming visible_at
    incoming-hide i = keep_comm (λ e. e.target_kind == i.0 && e.target_key == i.1) shown s.edges

  module _ (clearance : TierArg) (known : coerce_tier clearance ≡ ok c) where
    visible-hide :
        (d : Option String) (es : List GraphEdge)
        → visible (as_of_date d (visible_at c es)) clearance ≡ visible (as_of_date d es) clearance
    unfolding visible
    visible-hide d es = rw (known, visible_at_dated d es) refl

    module _ (s : Store) (d : Option String) where
      visible_relation-hide :
          (relation : String)
          → visible (as_of_date d (edges_by_relation (hide c s) relation)) clearance
            ≡ visible (as_of_date d (edges_by_relation s relation)) clearance
      visible_relation-hide relation =
          rw (edges_by_relation-hide s relation) (visible-hide d (edges_by_relation s relation))

      holds_edges-hide :
          (key : String)
          → visible (holds_edges (hide c s) key d) clearance
            ≡ visible (holds_edges s key d) clearance
      unfolding holds_edges
      holds_edges-hide key =
          rw
            (
              outgoing-hide s ("Fund", key),
              keep-visible_at (λ e. e.relation == "holds") (outgoing s ("Fund", key)),
            )
            (visible-hide d (keep (λ e. e.relation == "holds") (outgoing s ("Fund", key))))

      visible_relations-hide :
          (first second : String)
          → visible
              (as_of_date d
                (edges_by_relation (hide c s) first ++ edges_by_relation (hide c s) second))
              clearance
            ≡ visible
                (as_of_date d (edges_by_relation s first ++ edges_by_relation s second))
                clearance
      visible_relations-hide first second =
          rw
            (
              edges_by_relation-hide s first,
              edges_by_relation-hide s second,
              sym (visible_at-append (edges_by_relation s first) (edges_by_relation s second)),
            )
            (visible-hide d (edges_by_relation s first ++ edges_by_relation s second))

    module _ (t : Text) (s : Store) (d : Option String) where
      screening_overview-hide :
          screening_overview t (hide c s) clearance d ≡ screening_overview t s clearance d
      unfolding screening_overview
      screening_overview-hide = grind (
        arith,
        get_node-hide s ("ScreeningRun", "latest"),
        screening_hit-hide s,
        visible_relation-hide s d "screening_candidate",
        visible_relations-hide s d "pep" "sanctioned",
      )

      resolution_overview-hide :
          resolution_overview t (hide c s) clearance d ≡ resolution_overview t s clearance d
      unfolding resolution_overview
      resolution_overview-hide = grind (
        arith,
        get_node-hide s ("AnchorRun", "latest"),
        lei_anchor-hide s,
        visible_relation-hide s d "has_lei",
        visible_relation-hide s d "lei_candidate",
      )

      fund_holdings-hide :
          (key : String)
          → fund_holdings t (hide c s) key clearance d ≡ fund_holdings t s key clearance d
      unfolding fund_holdings
      fund_holdings-hide key = grind (
        arith,
        get_node-hide s ("Fund", key),
        fund_holding-hide s,
        fund_ref-hide s t key,
        holds_edges-hide s d key,
      )

-- If the clearance is that of the tier `c`, the screening panel, the panel on identifiers and the
-- holdings of a fund are the same with and without the edges that are above it, at any date.
pub panels-hide :
    (c : AccessTier) (clearance : TierArg)
    → coerce_tier clearance ≡ ok c
    → (t : Text) (s : Store) (d : Option String) (fund : String)
    → (screening_overview t (hide c s) clearance d ≡ screening_overview t s clearance d)
      × (resolution_overview t (hide c s) clearance d ≡ resolution_overview t s clearance d)
      × (fund_holdings t (hide c s) fund clearance d ≡ fund_holdings t s fund clearance d)
panels-hide c clearance known t s d fund = (
  screening_overview-hide c clearance known t s d,
  resolution_overview-hide c clearance known t s d,
  fund_holdings-hide c clearance known t s d fund,
)
