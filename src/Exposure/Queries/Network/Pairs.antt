-- ===== src/Exposure/Queries/Network/Pairs.antt =====
-- The pairs of companies that the loop over the `references` edges reports.
use mathlib.Core.List.Memᴰ
use coruscant.Prelude.{
  ◌≡◌, ◌↔◌, refl, sym, ap, subst, String, true, false, List, [], ◌∷◌, map, elem, Distinct, Memᴰ,
  Memᴰ-map, Memᴰ-cons, arith, ◌==◌, ==_refl, string_eq, pair_eq, pair_same_iff, elem_iff,
}
use coruscant.Graph.Types.{GraphEdge}
use coruscant.Exposure.Ownership.{ref}
use coruscant.Graph.Memory.{Store, edges_by_relation}
use coruscant.Exposure.Queries.Network.{
  NetworkProximity, proximity, company_pair, naming, network, ref,
}

-- The first of the pair is not exposed, and its filing names the second, which is.
abbrev pub NamesExposed : List String → GraphEdge → Type 0
NamesExposed exposed e = (elem e.target_key exposed ≡ true) × (elem e.source_key exposed ≡ false)

module _ (exposed : List String) where
  -- Whether a pair is reported.
  elem-naming :
      (p : String × String) (seen : List (String × String)) (es : List GraphEdge)
      → (elem p (map company_pair (naming exposed seen es)) ≡ true) ↔ (
          (elem p (map company_pair es) ≡ true)
          × (elem p seen ≡ false)
          × (elem p.1 exposed ≡ true)
          × (elem p.0 exposed ≡ false))
  unfolding naming
  elem-naming p seen [] = (λ h. absurd (cc h), λ (h, _, _, _). absurd (cc h))
  elem-naming p seen (e ∷ es) = ground (
    arith,
    elem-naming p seen es,
    elem-naming p (company_pair e ∷ seen) es,
    λ (h : (p == company_pair e) ≡ true).
        ap (λ q. elem q seen) ((pair_same_iff p (company_pair e)).0 h),
    λ (h : (p == company_pair e) ≡ true).
        ap (λ q. elem q.1 exposed) ((pair_same_iff p (company_pair e)).0 h),
    λ (h : (p == company_pair e) ≡ true).
        ap (λ q. elem q.0 exposed) ((pair_same_iff p (company_pair e)).0 h),
  )

  naming-Distinct :
      (seen : List (String × String)) (es : List GraphEdge)
      → Distinct (map company_pair (naming exposed seen es))
  unfolding naming
  naming-Distinct seen [] = tt
  naming-Distinct seen (e ∷ es) = ground (
    arith,
    naming-Distinct seen es,
    naming-Distinct (company_pair e ∷ seen) es,
    elem-naming (company_pair e) (company_pair e ∷ seen) es,
    ==_refl (company_pair e),
  )

  naming-NamesExposed :
      (e : GraphEdge) (seen : List (String × String)) (es : List GraphEdge)
      → Memᴰ e (naming exposed seen es)
      → Memᴰ e es × NamesExposed exposed e
  unfolding naming
  naming-NamesExposed e seen [] m = absurd (Memᴰ.not-nil m)
  naming-NamesExposed e seen (x ∷ es) m = ground (
    arith,
    m,
    naming-NamesExposed e seen es,
    naming-NamesExposed e (company_pair x ∷ seen) es,
    Memᴰ-cons e x (naming exposed (company_pair x ∷ seen) es),
    Memᴰ-cons e x es,
    λ (same : e ≡ x). ap (λ (y : GraphEdge). elem y.target_key exposed) same,
    λ (same : e ≡ x). ap (λ (y : GraphEdge). elem y.source_key exposed) same,
  )

abbrev pub pair_in : NetworkProximity → String × String
pair_in n = (n.company.key, n.names.key)

-- The loop's report for a set of exposed companies: each entry stands on a `references` edge from a
-- company that is not exposed to one that is, each pair that has such an edge is there, and once.
abbrev pub IsNetwork : Store → List String → List NetworkProximity → Type 0
IsNetwork s exposed found =
    ((n : NetworkProximity)
      → Memᴰ n found
      → (e : GraphEdge) × Memᴰ e (edges_by_relation s "references")
        × NamesExposed exposed e
        × (n ≡ proximity s e))
    × ((e : GraphEdge)
        → Memᴰ e (edges_by_relation s "references")
        → NamesExposed exposed e
        → elem (company_pair e) (map pair_in found) ≡ true)
    × Distinct (map pair_in found)

pairs-proximity :
    (s : Store) (es : List GraphEdge) → map pair_in (map (proximity s) es) ≡ map company_pair es
unfolding proximity ref
pairs-proximity s [] = refl
pairs-proximity s (e ∷ es) = ap (◌∷◌ (company_pair e)) (pairs-proximity s es)

pub network-IsNetwork :
    (s : Store) (exposed : List String) → IsNetwork s exposed (network s exposed)
unfolding network
network-IsNetwork s exposed =
    let references = edges_by_relation s "references" in
    let found = naming exposed [] references in
    (
      λ n m.
          let (e, there, same) = (Memᴰ-map (proximity s) n found).0 m in
          let (is, names) = naming-NamesExposed exposed e [] references there in
          (e, is, names, same),
      λ e m names. rw (pairs-proximity s found) (
          (elem-naming exposed (company_pair e) [] references).1 (
            (elem_iff (company_pair e) (map company_pair references)).1
                ((Memᴰ-map company_pair (company_pair e) references).1 (e, m, refl)),
            refl,
            names.0,
            names.1,
          )),
      subst Distinct (sym (pairs-proximity s found)) (naming-Distinct exposed [] references),
    )
