-- ===== src/Exposure/Queries/Owners/Accounts.antt =====
-- What `company_owners` and `ownership_overview` show and what they count.
use coruscant.Prelude.{
  ℕ, ◌+◌, ◌-◌, ◌≤◌, ◌≡◌, ◌↔◌, ap, String, true, Option, none, some, List, [], ◌∷◌, map, foldl, keep,
  length, count_if, elem, leb, Memᴰ, Memᴰ-map, Memᴰ-keep, length-map, length-keep-le, arith, ok,
  ◌==◌, string_eq, inl, inr, Result-cases,
}
use coruscant.Prelude.Dict
use coruscant.Prelude.Dict.{Dict, get-set}
use coruscant.Graph.Types.{GraphEdge}
use coruscant.Graph.Memory.{Store, incoming, target_of}
use coruscant.Graph.Memory.Queries.{incoming_iff}
use coruscant.Graph.Substrate.{
  TierArg, coerce_tier, visible, visible_at, valid_on, can_see, tier_of, tier_rank, as_of,
}
use coruscant.Graph.Substrate.Access.{IfGiven, visible-can_see}
use coruscant.Exposure.Ownership.{ownership_relations}
use coruscant.Exposure.Queries.Props.{as_of_date}
use coruscant.Exposure.Queries.Owners.{
  OwnerEdge, CompanyOwners, owner_edge, statements, company_owners, count_edge,
}

-- A statement of ownership on the company that is valid at the date, if one is given.
abbrev pub IsStatement : Store → String → Option String → GraphEdge → Type 0
IsStatement s key d e =
    Memᴰ e s.edges
    × (target_of e ≡ ("Company", key))
    × (elem e.relation ownership_relations ≡ true)
    × IfGiven d (λ on. valid_on e.properties on ≡ true)

pub statements_iff :
    (s : Store) (key : String) (d : Option String) (e : GraphEdge)
    → Memᴰ e (statements s key d) ↔ IsStatement s key d e
unfolding statements as_of_date as_of
statements_iff s key none e = ground (
  arith,
  Memᴰ-keep (λ (x : GraphEdge). elem x.relation ownership_relations) e
      (incoming s ("Company", key)),
  incoming_iff s ("Company", key) e,
)
statements_iff s key (some on) e = ground (
  arith,
  Memᴰ-keep (λ (x : GraphEdge). valid_on x.properties on) e
      (keep (λ (x : GraphEdge). elem x.relation ownership_relations) (incoming s ("Company", key))),
  Memᴰ-keep (λ (x : GraphEdge). elem x.relation ownership_relations) e
      (incoming s ("Company", key)),
  incoming_iff s ("Company", key) e,
)

pub length-visible :
    (clearance : TierArg) (es : List GraphEdge) {shown : List GraphEdge}
    → visible es clearance ≡ ok shown
    → length shown ≤ length es
unfolding visible visible_at
length-visible clearance es {shown} h = elim (Result-cases (coerce_tier clearance)) [
  | inl (c, known) ↦
      let same : shown ≡ keep (λ e. leb (tier_rank (tier_of e.properties)) (tier_rank c)) es =
        ground (arith, known, h) in
      rw same (length-keep-le (λ e. leb (tier_rank (tier_of e.properties)) (tier_rank c)) es)
  | inr (x, unknown) ↦ absurd (ground (arith, unknown, h))
]

-- When `company_owners` returns, the owners that it shows are the statements that the clearance may
-- see, and these with the number that is withheld are all the statements on the company.
pub company_owners_iff :
    (s : Store) (key : String) (clearance : TierArg) (d : Option String) {r : CompanyOwners}
    → company_owners s key clearance d ≡ ok r
    → (length r.owners + r.restricted ≡ length (statements s key d))
      × ((o : OwnerEdge)
          → Memᴰ o r.owners ↔ (
              (e : GraphEdge) × IsStatement s key d e
              × (can_see e.properties clearance ≡ ok true)
              × (o ≡ owner_edge e)))
unfolding company_owners
company_owners_iff s key clearance d {r} h =
    elim (Result-cases (visible (statements s key d) clearance)) [
      | inl (shown, v) ↦
          let owners : r.owners ≡ map owner_edge shown = ground (arith, v, h) in
          let restricted : r.restricted ≡ length (statements s key d) - length shown =
            ground (arith, v, h) in
          (
            omega (
              arith,
              ap length owners,
              length-map owner_edge shown,
              restricted,
              length-visible clearance (statements s key d) v,
            ),
            λ o. rw owners (
              λ m.
                  let (e, n, same) = (Memᴰ-map owner_edge o shown).0 m in
                  let (there, seen) = (visible-can_see clearance (statements s key d) v e).0 n in
                  (e, (statements_iff s key d e).0 there, seen, same),
              λ (e, is, seen, same). (Memᴰ-map owner_edge o shown).1 (
                e,
                (visible-can_see clearance (statements s key d) v e).1
                    ((statements_iff s key d e).1 is, seen),
                same,
              ),
            ),
          )
      | inr (x, v) ↦ absurd (ground (arith, v, h))
    ]

-- The count of a relation after the loop.
pub foldl-count_edge :
    (relation : String) (counts : Dict String ℕ) (es : List GraphEdge)
    → Dict.get_or relation 0 (foldl count_edge counts es)
      ≡ Dict.get_or relation 0 counts + count_if (λ e. e.relation == relation) es
unfolding count_edge
foldl-count_edge relation counts [] = omega arith
foldl-count_edge relation counts (e ∷ es) = ground (
  arith,
  foldl-count_edge relation (count_edge counts e) es,
  get-set e.relation relation (Dict.get_or e.relation 0 counts + 1) counts,
  string_eq.same_iff e.relation relation,
)
