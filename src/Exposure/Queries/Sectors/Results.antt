-- ===== src/Exposure/Queries/Sectors/Results.antt =====
-- What `sector_exposure` reports.
use coruscant.Prelude.{
  ◌≡◌, ◌↔◌, refl, ap, ◌∙◌, String, true, map, elem, Distinct, Memᴰ, Memᴰ-keep, string_eq,
  string_ord,
}
use coruscant.Prelude.Groups.{set_of-Distinct}
use coruscant.Graph.Types.{GraphEdge}
use coruscant.Graph.Memory.{Store, edges_by_relation}
use coruscant.Exposure.Ownership.{EntityRef, ref}
use coruscant.Exposure.Queries.Props.{Text}
use coruscant.Exposure.Queries.Companies.{companies_iff, companies-Distinct, source_keys_iff}
use coruscant.Exposure.Queries.Network.Pairs.{IsNetwork, network-IsNetwork}
use coruscant.Exposure.Queries.Sectors.{
  sector_exposure, exposed_by_sector, classified, classification_terms,
}

exposed_iff :
    (t : Text) (s : Store) (sector key : String)
    → (elem key (exposed_by_sector t s sector) ≡ true) ↔ (
        (e : GraphEdge) × Memᴰ e (edges_by_relation s "in_sector")
        × (elem (t.lower (t.strip sector)) (classification_terms t s e) ≡ true)
        × (key ≡ e.source_key))
unfolding exposed_by_sector classified
exposed_iff t s sector key =
    let target = t.lower (t.strip sector) in
    let found = source_keys_iff key (classified t s target) in
    let passed = λ (e : GraphEdge).
      Memᴰ-keep (λ (x : GraphEdge). elem target (classification_terms t s x)) e
        (edges_by_relation s "in_sector") in
    (
      λ h.
          let (e, m, same) = found.0 h in
          let (there, term) = (passed e).0 m in (e, there, term, same),
      λ (e, there, term, same). found.1 (e, (passed e).1 (there, term), same),
    )

exposed-Distinct :
    (t : Text) (s : Store) (sector : String) → Distinct (exposed_by_sector t s sector)
unfolding exposed_by_sector
exposed-Distinct t s sector =
    set_of-Distinct
      (map (λ (e : GraphEdge). e.source_key) (classified t s (t.lower (t.strip sector))))

-- The companies that `sector_exposure` reports as direct are those with an `in_sector` edge that has the
-- term among its classification terms, each once; its network is the report on the `references`
-- edges for these companies.
pub sector_exposure_iff :
    (t : Text) (s : Store) (sector : String)
    → let r = sector_exposure t s sector in
      ((c : EntityRef)
        → Memᴰ c r.direct ↔ (
            (e : GraphEdge) × Memᴰ e (edges_by_relation s "in_sector")
            × (elem (t.lower (t.strip sector)) (classification_terms t s e) ≡ true)
            × (c ≡ ref s ("Company", e.source_key))))
      × Distinct (map (λ c. c.key) r.direct)
      × IsNetwork s (exposed_by_sector t s sector) r.network
unfolding sector_exposure
sector_exposure_iff t s sector =
    let exposed = exposed_by_sector t s sector in
    (
      λ c. (
        λ m.
            let (key, listed, is) = (companies_iff s exposed c).0 m in
            let (e, there, term, same) = (exposed_iff t s sector key).0 listed in
            (e, there, term, is ∙ ap (λ k. ref s ("Company", k)) same),
        λ (e, there, term, is).
            (companies_iff s exposed c).1
              (e.source_key, (exposed_iff t s sector e.source_key).1 (e, there, term, refl), is),
      ),
      companies-Distinct s exposed (exposed-Distinct t s sector),
      network-IsNetwork s exposed,
    )
