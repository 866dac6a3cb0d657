-- ===== src/Exposure/Queries/Portfolio/Results.antt =====
-- What `portfolio_exposure` reports.
use coruscant.Prelude.{
  ℕ, ◌+◌, ◌≤◌, ◌≡◌, ◌↔◌, refl, sym, ap, subst, String, true, Option, some, List, [], ◌∷◌, map, elem,
  Distinct, Memᴰ, Memᴰ-map, arith, ok, string_eq, string_ord, pair_ord, descending_ord,
  if◌then◌else◌,
}
use coruscant.Prelude.Dict
use coruscant.Prelude.Dict.{Dict}
use coruscant.Prelude.Sort.{
  sort_by, sum_by-sort_by, Memᴰ-sort_by, IsSortedBy, sort_by-IsSortedBy, Distinct-map-sort_by,
}
use coruscant.Graph.Memory.{Store}
use coruscant.Graph.Substrate.{TierArg}
use coruscant.Exposure.Ownership.{ref}
use coruscant.Exposure.Queries.Props.{Text}
use coruscant.Exposure.Queries.Funds.{FundHoldings, fund_holdings}
use coruscant.Exposure.Queries.Portfolio.{
  PortfolioExposure, PortfolioExposureHit, portfolio_exposure, exposed_company_keys, pathways,
  value_by, touched, exposure_hit, by_hit_value, total, total_hits,
}
use coruscant.Exposure.Queries.Portfolio.Touched.{touched_iff, touched-Distinct, total_of_entries}

-- A pathway that is not known exposes no company.
unknown_pathway :
    (t : Text) (s : Store) (pathway term : String)
    → (if elem pathway pathways then exposed_company_keys t s pathway term else [])
      ≡ exposed_company_keys t s pathway term
unfolding exposed_company_keys
unknown_pathway t s pathway term = ground arith

module _ (s : Store) (values : Dict String ℕ) (keys : List String) where
  hits : List PortfolioExposureHit
  hits = sort_by by_hit_value (map (exposure_hit s) (touched values [] keys))

  hits_iff :
      (h : PortfolioExposureHit)
      → Memᴰ h hits ↔ (
          (key : String) × (value : ℕ) × (elem key keys ≡ true)
          × (Dict.get key values ≡ some value)
          × (h ≡ exposure_hit s (key, value)))
  unfolding hits
  hits_iff h = (
    λ m.
        let (entry, n, same) =
          (Memᴰ-map (exposure_hit s) h (touched values [] keys)).0
            ((Memᴰ-sort_by by_hit_value h (map (exposure_hit s) (touched values [] keys))).0 m) in
        let (listed, _, there) = (touched_iff values entry.0 entry.1 [] keys).0 n in
        (entry.0, entry.1, listed, there, same),
    λ (key, value, listed, there, same).
        (Memᴰ-sort_by by_hit_value h (map (exposure_hit s) (touched values [] keys))).1 (
          (Memᴰ-map (exposure_hit s) h (touched values [] keys)).1
            ((key, value), (touched_iff values key value [] keys).1 (listed, refl, there), same)),
  )

  keys-hits :
      (found : Dict String ℕ)
      → map (λ h. h.company.key) (map (exposure_hit s) found) ≡ Dict.keys found
  unfolding exposure_hit ref
  keys-hits [] = refl
  keys-hits ((k, v) ∷ found) = ap (◌∷◌ k) (keys-hits found)

  value-hits : (found : Dict String ℕ) → total_hits (map (exposure_hit s) found) ≡ total found
  unfolding exposure_hit
  value-hits [] = refl
  value-hits ((k, v) ∷ found) = ap (λ n. v + n) (value-hits found)

  hits-Distinct : Distinct (map (λ h. h.company.key) hits)
  unfolding hits
  hits-Distinct =
      Distinct-map-sort_by by_hit_value (λ h. h.company.key)
        (map (exposure_hit s) (touched values [] keys))
        (subst Distinct (sym (keys-hits (touched values [] keys)))
          (touched-Distinct values [] keys))

  hits-IsSortedBy : IsSortedBy by_hit_value hits
  unfolding hits
  hits-IsSortedBy = sort_by-IsSortedBy by_hit_value (map (exposure_hit s) (touched values [] keys))

  hits_value : total_hits hits ≤ total values
  unfolding hits
  hits_value =
      let found = touched values [] keys in
      omega (
        arith,
        sum_by-sort_by by_hit_value (λ h. h.value) (map (exposure_hit s) found),
        value-hits found,
        total_of_entries found values (touched-Distinct values [] keys)
            (λ k v m. let (_, _, there) = (touched_iff values k v [] keys).0 m in there),
      )

report :
    (t : Text) (s : Store) (fund pathway term : String) (clearance : TierArg) (d : Option String)
    {book : FundHoldings} {r : PortfolioExposure}
    → fund_holdings t s fund clearance d ≡ ok (some book)
    → portfolio_exposure t s fund pathway term clearance d ≡ ok (some r)
    → (r.exposed ≡ hits s (value_by book.holdings) (exposed_company_keys t s pathway term))
      × (r.exposed_value
          ≡ total_hits (hits s (value_by book.holdings) (exposed_company_keys t s pathway term)))
      × (r.total_value ≡ total (value_by book.holdings))
unfolding portfolio_exposure hits
report t s fund pathway term clearance d {book} {r} b h =
    ground (arith, b, h, unknown_pathway t s pathway term)

-- When the fund's holdings are found and `portfolio_exposure` returns a report, the hits are exactly the
-- companies of the book that the pathway exposes to the term, with their values in the book; each
-- company is reported once, in the order of the sort key, and the exposed value is at most the total.
pub portfolio_exposure_iff :
    (t : Text) (s : Store) (fund pathway term : String) (clearance : TierArg) (d : Option String)
    {book : FundHoldings} {r : PortfolioExposure}
    → fund_holdings t s fund clearance d ≡ ok (some book)
    → portfolio_exposure t s fund pathway term clearance d ≡ ok (some r)
    → ((h : PortfolioExposureHit)
        → Memᴰ h r.exposed ↔ (
            (key : String) × (value : ℕ) × (elem key (exposed_company_keys t s pathway term) ≡ true)
            × (Dict.get key (value_by book.holdings) ≡ some value)
            × (h ≡ exposure_hit s (key, value))))
      × Distinct (map (λ h. h.company.key) r.exposed)
      × IsSortedBy by_hit_value r.exposed
      × (r.exposed_value ≤ r.total_value)
portfolio_exposure_iff t s fund pathway term clearance d {book} {r} b h =
    let keys = exposed_company_keys t s pathway term in
    let values = value_by book.holdings in
    let (exposed, value, whole) = report t s fund pathway term clearance d b h in
    rw (exposed, value, whole)
      (
        hits_iff s values keys,
        hits-Distinct s values keys,
        hits-IsSortedBy s values keys,
        hits_value s values keys,
      )
