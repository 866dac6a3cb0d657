-- ===== src/Graph/Substrate/Access.antt =====
-- The policy on tiers: an edge is seen exactly at a clearance that reaches its tier.
use coruscant.Prelude.{
  Bool, ◌==◌, ◌||◌, string_eq, ◌≡◌, refl, ap, ◌↔◌, ◌≤◌, true, none, some, List, Memᴰ, Memᴰ-keep,
  arith, ok, leb, String, ◌<=◌, string_ord, pair_ord, nat_ord, Result-cases, inl, inr,
}
use coruscant.Graph.Types.{Properties, GraphEdge}
use coruscant.Graph.Substrate.{
  AccessTier, aggregator_licensed, tier_rank, value, parse_tier, TierArg, coerce_tier, tier_of,
  can_see, visible_at, visible, get_str, valid_on, as_of, Option, Bool,
}

-- Each label is read as the tier that has it.
pub parse_tier-value : (t : AccessTier) → parse_tier (value t) ≡ some t
unfolding parse_tier
parse_tier-value AccessTier.public = refl
parse_tier-value AccessTier.legitimate_interest = refl
parse_tier-value AccessTier.restricted_authority = refl
parse_tier-value AccessTier.aggregator_licensed = refl

-- The edges of `visible_at`: those of the list whose tier the clearance reaches.
pub visible_at_iff :
    (c : AccessTier) (e : GraphEdge) (edges : List GraphEdge)
    → Memᴰ e (visible_at c edges)
      ↔ (Memᴰ e edges × (tier_rank (tier_of e.properties) ≤ tier_rank c))
unfolding visible_at
visible_at_iff c e edges = ground (
  arith,
  Memᴰ-keep (λ (x : GraphEdge). leb (tier_rank (tier_of x.properties)) (tier_rank c)) e edges,
)

-- `visible` returns exactly the edges that `can_see` accepts.
pub visible-can_see :
    (clearance : TierArg) (edges : List GraphEdge) {shown : List GraphEdge}
    → visible edges clearance ≡ ok shown
    → (e : GraphEdge) → Memᴰ e shown ↔ (Memᴰ e edges × (can_see e.properties clearance ≡ ok true))
unfolding visible can_see
visible-can_see clearance edges {shown} h e = elim (Result-cases (coerce_tier clearance)) [
  | inl (t, known) ↦
      ground (arith, visible_at_iff t e edges, λ (p : shown ≡ visible_at t edges). ap (Memᴰ e) p)
  | inr (x, unknown) ↦ absurd (ground arith)
]

-- Whether a tier sees an edge, by the edge's label and without the ranks. No label is public, and a label
-- that is no tier's is for the highest tier alone.
abbrev pub seen_by : AccessTier → Option String → Bool
seen_by AccessTier.aggregator_licensed label = true
seen_by t none = true
seen_by AccessTier.public (some raw) = raw == "public"
seen_by AccessTier.legitimate_interest (some raw) = raw == "public" || raw == "legitimate-interest"
seen_by AccessTier.restricted_authority (some raw) =
    raw == "public" || raw == "legitimate-interest" || raw == "restricted-authority"

rank-seen_by :
    (t : AccessTier) (props : Properties)
    → leb (tier_rank (tier_of props)) (tier_rank t) ≡ seen_by t (get_str "access_tier" props)
unfolding tier_of parse_tier
rank-seen_by AccessTier.public props = ground arith
rank-seen_by AccessTier.legitimate_interest props = ground arith
rank-seen_by AccessTier.restricted_authority props = ground arith
rank-seen_by AccessTier.aggregator_licensed props = ground arith

-- If `visible` returns, the clearance is that of a tier; it returns exactly the edges that `can_see` accepts,
-- and `can_see` accepts an edge exactly if the tier sees its label: an edge without a label is public, and one
-- with a label that is no tier's is for `aggregator_licensed` alone.
pub visible_iff :
    (clearance : TierArg) (edges : List GraphEdge) {shown : List GraphEdge}
    → visible edges clearance ≡ ok shown
    → (t : AccessTier) × (coerce_tier clearance ≡ ok t)
      × ((e : GraphEdge)
          → (Memᴰ e shown ↔ (Memᴰ e edges × (can_see e.properties clearance ≡ ok true)))
            × (can_see e.properties clearance
                ≡ ok (seen_by t (get_str "access_tier" e.properties))))
unfolding visible can_see
visible_iff clearance edges {shown} h = elim (Result-cases (coerce_tier clearance)) [
  | inl (t, known) ↦ (
    t,
    known,
    λ e. (visible-can_see clearance edges h e, ground (arith, known, rank-seen_by t e.properties)),
  )
  | inr (x, unknown) ↦ absurd (ground arith)
]

-- A higher clearance shows no less.
pub visible_at_mono :
    (low high : AccessTier) (edges : List GraphEdge) {e : GraphEdge}
    → tier_rank low ≤ tier_rank high
    → Memᴰ e (visible_at low edges)
    → Memᴰ e (visible_at high edges)
visible_at_mono low high edges {e} le m =
    grind (arith, visible_at_iff low e edges, visible_at_iff high e edges)

-- An edge with a label that is no tier's is seen by nobody below `aggregator_licensed`.
pub unknown_label_hidden :
    (c : AccessTier) (e : GraphEdge) (edges : List GraphEdge) {raw : String}
    → get_str "access_tier" e.properties ≡ some raw
    → parse_tier raw ≡ none
    → Memᴰ e (visible_at c edges)
    → c ≡ aggregator_licensed
unfolding tier_of
unknown_label_hidden AccessTier.aggregator_licensed e edges p q m = refl
unknown_label_hidden c e edges p q m = ground (arith, visible_at_iff c e edges)

-- A bound that is absent is open.
abbrev pub IfGiven : Option String → (String → Type 0) → Type 0
IfGiven none P = Unit
IfGiven (some s) P = P s

-- An edge is valid at a moment if the moment is not before its start and not after its end, in
-- the order of texts.
pub valid_on_iff :
    (props : Properties) (on : String)
    → (valid_on props on ≡ true) ↔ (
        IfGiven (get_str "valid_from" props) (λ lo. (lo <= on) ≡ true)
        × IfGiven (get_str "valid_to" props) (λ hi. (on <= hi) ≡ true))
unfolding valid_on
valid_on_iff props on = ground arith

-- The edges of `as_of` are those of the list that are valid at the moment.
pub as_of_iff :
    (on : String) (e : GraphEdge) (edges : List GraphEdge)
    → Memᴰ e (as_of edges on) ↔ (
        Memᴰ e edges
        × IfGiven (get_str "valid_from" e.properties) (λ lo. (lo <= on) ≡ true)
        × IfGiven (get_str "valid_to" e.properties) (λ hi. (on <= hi) ≡ true))
unfolding as_of
as_of_iff on e edges = ground (
  arith,
  Memᴰ-keep (λ (x : GraphEdge). valid_on x.properties on) e edges,
  valid_on_iff e.properties on,
)
