-- ===== src/Exposure/Queries/Owners/Totals.antt =====
-- The numbers of `ownership_overview`.
use coruscant.Prelude.{
  ℕ, ◌+◌, ◌≤◌, ◌≡◌, refl, ap, ◌∙◌, String, Bool, true, false, ◌&&◌, List, [], ◌∷◌, ◌++◌, map, keep,
  length, count_if, elem, leb, arith, ok, ◌==◌, string_eq, if◌then◌else◌, keep-append,
  length-append, length-append, length-keep-le,
}
use coruscant.Prelude.Dict.{Dict}
use coruscant.Graph.Types.{GraphEdge}
use coruscant.Graph.Memory.{Store, edges_by_relation}
use coruscant.Graph.Substrate.{
  TierArg, AccessTier, coerce_tier, visible, visible_at, tier_of, tier_rank,
}
use coruscant.Exposure.Ownership.{ownership_relations}
use coruscant.Exposure.Queries.Props.{Text, edges_of}
use coruscant.Exposure.Queries.Owners.{OwnershipOverview, ownership_overview}
use coruscant.Exposure.Queries.Owners.Accounts.{foldl-count_edge}

abbrev bit : Bool → ℕ
bit b = if b then 1 else 0

count_if-append :
    (p : GraphEdge → Bool) (xs ys : List GraphEdge)
    → count_if p (xs ++ ys) ≡ count_if p xs + count_if p ys
count_if-append p [] ys = omega arith
count_if-append p (x ∷ xs) ys = ground (arith, count_if-append p xs ys)

count_if-keep :
    (p q : GraphEdge → Bool) (xs : List GraphEdge)
    → count_if p (keep q xs) ≡ count_if (λ x. q x && p x) xs
count_if-keep p q [] = refl
count_if-keep p q (x ∷ xs) = ground (arith, count_if-keep p q xs)

length-keep : (q : GraphEdge → Bool) (xs : List GraphEdge) → length (keep q xs) ≡ count_if q xs
length-keep q [] = refl
length-keep q (x ∷ xs) = ground (arith, length-keep q xs)

-- Three tests that share out a fourth share out the count.
count_if_parts :
    (p q r all : GraphEdge → Bool)
    → ((e : GraphEdge) → bit (p e) + (bit (q e) + bit (r e)) ≡ bit (all e))
    → (es : List GraphEdge) → count_if p es + (count_if q es + count_if r es) ≡ count_if all es
count_if_parts p q r all h [] = refl
count_if_parts p q r all h (e ∷ es) = omega (arith, h e, count_if_parts p q r all h es)

abbrev pub is_shown : AccessTier → GraphEdge → Bool
is_shown c e = leb (tier_rank (tier_of e.properties)) (tier_rank c)

only_one : (a x y : String) → (x == y) ≡ false → (a == x) ≡ true → (a == y) ≡ false
only_one a x y apart h = let same : a ≡ x = (string_eq.same_iff a x).0 h in rw same apart

-- One relation has one name.
one_relation :
    (a b : String) (v : Bool)
    → elem b ownership_relations ≡ true
    → bit ((a == "owns") && (v && (a == b)))
        + (bit ((a == "beneficial_owner_of") && (v && (a == b)))
            + bit ((a == "consolidates") && (v && (a == b))))
      ≡ bit ((a == b) && v)
one_relation a b v known = ground (
  arith,
  string_eq.same_iff a b,
  only_one a "owns" "beneficial_owner_of" refl,
  only_one a "owns" "consolidates" refl,
  only_one a "beneficial_owner_of" "consolidates" refl,
)

one_of_relations :
    (a : String)
    → bit (a == "owns") + (bit (a == "beneficial_owner_of") + bit (a == "consolidates"))
      ≡ bit (elem a ownership_relations)
one_of_relations a = ground (
  arith,
  only_one a "owns" "beneficial_owner_of" refl,
  only_one a "owns" "consolidates" refl,
  only_one a "beneficial_owner_of" "consolidates" refl,
)

module _ (c : AccessTier) (s : Store) where
  -- The edges with a relation that the clearance reaches.
  abbrev pub shown_with : String → ℕ
  shown_with relation = count_if (λ e. e.relation == relation && is_shown c e) s.edges

  count_part :
      (relation part : String)
      → count_if (λ e. e.relation == relation) (visible_at c (edges_by_relation s part))
        ≡ count_if (λ e. e.relation == part && (is_shown c e && e.relation == relation)) s.edges
  unfolding visible_at edges_by_relation
  count_part relation part =
      count_if-keep (λ e. e.relation == relation) (is_shown c)
        (keep (λ e. e.relation == part) s.edges)
      ∙ count_if-keep (λ e. is_shown c e && e.relation == relation) (λ e. e.relation == part)
          s.edges

  visible_at-edges_of :
      visible_at c (edges_of s ownership_relations)
      ≡ visible_at c (edges_by_relation s "owns")
        ++ (visible_at c (edges_by_relation s "beneficial_owner_of")
            ++ (visible_at c (edges_by_relation s "consolidates") ++ []))
  unfolding visible_at edges_of
  visible_at-edges_of =
      rw
        (
          keep-append (is_shown c) (edges_by_relation s "owns") (
              edges_by_relation s "beneficial_owner_of"
              ++ (edges_by_relation s "consolidates" ++ [])),
          keep-append (is_shown c) (edges_by_relation s "beneficial_owner_of")
              (edges_by_relation s "consolidates" ++ []),
          keep-append (is_shown c) (edges_by_relation s "consolidates") [],
        )
        refl

  count_shown :
      (relation : String)
      → elem relation ownership_relations ≡ true
      → count_if (λ e. e.relation == relation) (visible_at c (edges_of s ownership_relations))
        ≡ shown_with relation
  count_shown relation known =
      let is = λ (e : GraphEdge). e.relation == relation in
      let own = visible_at c (edges_by_relation s "owns") in
      let benefit = visible_at c (edges_by_relation s "beneficial_owner_of") in
      let control = visible_at c (edges_by_relation s "consolidates") in
      ap (count_if is) visible_at-edges_of
      ∙ omega (
        arith,
        count_if-append is own (benefit ++ (control ++ [])),
        count_if-append is benefit (control ++ []),
        count_if-append is control [],
        count_part relation "owns",
        count_part relation "beneficial_owner_of",
        count_part relation "consolidates",
        count_if_parts (λ e. e.relation == "owns" && (is_shown c e && e.relation == relation))
            (λ e. e.relation == "beneficial_owner_of" && (is_shown c e && e.relation == relation))
            (λ e. e.relation == "consolidates" && (is_shown c e && e.relation == relation))
            (λ e. e.relation == relation && is_shown c e)
            (λ e. one_relation e.relation relation (is_shown c e) known) s.edges,
      )

  length-edges_of :
      length (edges_of s ownership_relations)
      ≡ count_if (λ e. elem e.relation ownership_relations) s.edges
  unfolding edges_of edges_by_relation
  length-edges_of = omega (
    arith,
    length-append (edges_by_relation s "owns")
        (edges_by_relation s "beneficial_owner_of" ++ (edges_by_relation s "consolidates" ++ [])),
    length-append (edges_by_relation s "beneficial_owner_of")
        (edges_by_relation s "consolidates" ++ []),
    length-append (edges_by_relation s "consolidates") [],
    length-keep (λ e. e.relation == "owns") s.edges,
    length-keep (λ e. e.relation == "beneficial_owner_of") s.edges,
    length-keep (λ e. e.relation == "consolidates") s.edges,
    count_if_parts (λ e. e.relation == "owns") (λ e. e.relation == "beneficial_owner_of")
        (λ e. e.relation == "consolidates") (λ e. elem e.relation ownership_relations)
        (λ e. one_of_relations e.relation) s.edges,
  )

  length-part : (part : String) → length (visible_at c (edges_by_relation s part)) ≡ shown_with part
  unfolding visible_at edges_by_relation
  length-part part =
      length-keep (is_shown c) (keep (λ e. e.relation == part) s.edges)
      ∙ count_if-keep (is_shown c) (λ e. e.relation == part) s.edges

  length-visible_at :
      length (visible_at c (edges_of s ownership_relations))
      ≡ shown_with "owns" + (shown_with "beneficial_owner_of" + shown_with "consolidates")
  length-visible_at =
      let own = visible_at c (edges_by_relation s "owns") in
      let benefit = visible_at c (edges_by_relation s "beneficial_owner_of") in
      let control = visible_at c (edges_by_relation s "consolidates") in
      ap length visible_at-edges_of
      ∙ omega (
        arith,
        length-append own (benefit ++ (control ++ [])),
        length-append benefit (control ++ []),
        length-append control [],
        length-part "owns",
        length-part "beneficial_owner_of",
        length-part "consolidates",
      )

  length-shown-le :
      length (visible_at c (edges_of s ownership_relations))
      ≤ length (edges_of s ownership_relations)
  unfolding visible_at
  length-shown-le = length-keep-le (is_shown c) (edges_of s ownership_relations)

-- When `ownership_overview` returns at a clearance that is the tier `c`, it counts under each of the three
-- relations the edges that the tier reaches, and these with the number that is withheld are all edges
-- with the three relations.
pub ownership_overview_counts :
    (t : Text) (s : Store) (clearance : TierArg) (c : AccessTier) {r : OwnershipOverview}
    → coerce_tier clearance ≡ ok c
    → ownership_overview t s clearance ≡ ok r
    → (r.owns ≡ shown_with c s "owns")
      × (r.beneficial_owner_of ≡ shown_with c s "beneficial_owner_of")
      × (r.consolidates ≡ shown_with c s "consolidates")
      × (r.owns + r.beneficial_owner_of + r.consolidates + r.restricted
          ≡ count_if (λ e. elem e.relation ownership_relations) s.edges)
unfolding ownership_overview visible
ownership_overview_counts t s clearance c {r} known h =
    let shown = visible_at c (edges_of s ownership_relations) in
    let zero : Dict String ℕ = map (λ relation. (relation, 0)) ownership_relations in
    ground (
      arith,
      foldl-count_edge "owns" zero shown,
      foldl-count_edge "beneficial_owner_of" zero shown,
      foldl-count_edge "consolidates" zero shown,
      count_shown c s "owns" refl,
      count_shown c s "beneficial_owner_of" refl,
      count_shown c s "consolidates" refl,
      length-edges_of c s,
      length-visible_at c s,
      length-shown-le c s,
    )
