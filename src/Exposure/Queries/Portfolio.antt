-- ===== src/Exposure/Queries/Portfolio.antt =====
-- `portfolio_exposure` and `portfolio_profile` of exposure/queries.py: a fund's book, and the part of it
-- that an event touches.
pub mod Touched
pub mod Results
use coruscant.Prelude.{
  ℕ, ◌+◌, String, Bool, Option, none, some, List, [], ◌∷◌, map, foldl, keep, length, elem, ◌==◌,
  if◌then◌else◌, string_eq, string_ord, pair_ord, Descending, descending_ord, Result, ok, ◌>>=◌,
}
use coruscant.Prelude.Dict
use coruscant.Prelude.Dict.{Dict}
use coruscant.Prelude.Sort.{sort_by, sum_by}
use coruscant.Prelude.Groups.{put}
use coruscant.Graph.Types.{GraphEdge}
use coruscant.Graph.Memory.{Store, outgoing}
use coruscant.Graph.Substrate.{TierArg}
use coruscant.Exposure.Ownership.{EntityRef, ref}
use coruscant.Exposure.Queries.Props.{Text, first}
use coruscant.Exposure.Queries.Funds.{FundRef, FundHoldingView, FundHoldings, fund_holdings}
use coruscant.Exposure.Queries.Sectors.{sector_exposure, market_tier_exposure, sector_of, tier_code}
use coruscant.Exposure.Queries.Places.{jurisdiction_exposure, exposure_to_country}
use coruscant.Exposure.Queries.Commodities.{commodity_exposure}

pub record PortfolioExposureHit : Type 0 where
  pub company : EntityRef
  pub value : ℕ

pub record PortfolioExposure : Type 0 where
  pub fund : FundRef
  pub pathway : String
  pub event : String
  pub exposed : List PortfolioExposureHit
  pub exposed_value : ℕ
  pub total_value : ℕ
  pub holdings_in_coverage : ℕ

pub record ProfileBucket : Type 0 where
  pub label : String
  pub value : ℕ
  pub companies : ℕ

pub record PortfolioProfile : Type 0 where
  pub fund : FundRef
  pub total_value : ℕ
  pub by_sector : List ProfileBucket
  pub by_market_tier : List ProfileBucket

-- `_exposed_company_keys`; it returns no key for a pathway that is not one of `_EXPOSURE_PATHWAYS`
unfoldable pub exposed_company_keys : Text → Store → String → String → List String
exposed_company_keys t s pathway term =
    if pathway == "sector"
    then map (λ r. r.key) (sector_exposure t s term).direct
    else if pathway == "market_tier"
    then map (λ r. r.key) (market_tier_exposure t s term).direct
    else if pathway == "commodity"
    then map (λ r. r.key) (commodity_exposure t s term).holdings
    else if pathway == "jurisdiction"
    then map (λ f. f.company.key) (jurisdiction_exposure t s term).direct
    else if pathway == "country"
    then map (λ r. r.key) (exposure_to_country s t term).direct
    else []

-- `_EXPOSURE_PATHWAYS`
abbrev pub pathways : List String
pathways = "sector" ∷ "jurisdiction" ∷ "market_tier" ∷ "commodity" ∷ "country" ∷ []

-- `{h.company.key: h.value for h in holdings.holdings}`
unfoldable pub add_value : Dict String ℕ → FundHoldingView → Dict String ℕ
add_value d h = Dict.set h.company.key h.value d

unfoldable pub value_by : List FundHoldingView → Dict String ℕ
unfolding add_value
value_by holdings = foldl add_value [] holdings

-- `sum(value_by.values())`
abbrev pub total : Dict String ℕ → ℕ
total values = sum_by (λ entry. entry.1) values

-- `sum(h.value for h in hits)`
abbrev pub total_hits : List PortfolioExposureHit → ℕ
total_hits hits = sum_by (λ h. h.value) hits

-- The loop over the exposed keys: those of the book, each once, with their values.
unfoldable pub touched : Dict String ℕ → List String → List String → Dict String ℕ
touched values seen [] = []
touched values seen (key ∷ keys) =
    let skipped = touched values seen keys in
    let found = touched values (key ∷ seen) keys in
    elim (Dict.get key values) [
      | none ↦ skipped
      | some value ↦ if elem key seen then skipped else (key, value) ∷ found
    ]

unfoldable pub exposure_hit : Store → String × ℕ → PortfolioExposureHit
exposure_hit s (key, value) = record { company = ref s ("Company", key); value = value }

-- `lambda h: (-h.value, h.company.name)`
abbrev pub by_hit_value : PortfolioExposureHit → Descending × String
by_hit_value h = (record { rank = h.value }, h.company.name)

unfoldable pub portfolio_exposure :
    Text
    → Store
    → String
    → String
    → String
    → TierArg
    → Option String
    → Result (Option PortfolioExposure)
unfolding touched exposure_hit
portfolio_exposure t s fund_key pathway term clearance as_of = do
  found ← fund_holdings t s fund_key clearance as_of
  ok (elim found [
    | none ↦ none
    | some book ↦
        let values = value_by book.holdings in
        let keys = if elem pathway pathways then exposed_company_keys t s pathway term else [] in
        let hits = sort_by by_hit_value (map (exposure_hit s) (touched values [] keys)) in
        some (record {
          fund = book.fund;
          pathway = pathway;
          event = term;
          exposed = hits;
          exposed_value = total_hits hits;
          total_value = total values;
          holdings_in_coverage = length values;
        })
  ])

-- The values and the companies under each label.
abbrev pub ProfileBuckets : Type 0
ProfileBuckets = Dict String ℕ × Dict String (List String)

unfoldable pub add_bucket : String → String × ℕ → ProfileBuckets → ProfileBuckets
add_bucket label (key, value) (values, companies) =
    (Dict.set label (Dict.get_or label 0 values + value) values, put companies (label, key))

-- The loop over the book, where `label_of` gives the label of a company by its first edge of a kind.
unfoldable pub fill : (String → Option String) → ProfileBuckets → Dict String ℕ → ProfileBuckets
unfolding add_bucket
fill label_of b [] = b
fill label_of b (entry ∷ entries) = elim (label_of entry.0) [
  | none ↦ fill label_of b entries
  | some label ↦ fill label_of (add_bucket label entry b) entries
]

-- `_buckets`
abbrev by_bucket_value : ProfileBucket → Descending × String
by_bucket_value b = (record { rank = b.value }, b.label)

unfoldable pub buckets : ProfileBuckets → List ProfileBucket
buckets (values, companies) = sort_by by_bucket_value (
    map
      (λ entry. record {
        label = entry.0;
        value = entry.1;
        companies = length (Dict.get_or entry.0 [] companies);
      })
      values)

module _ (t : Text) (s : Store) where
  -- the sector of the company's first `in_sector` edge
  unfoldable pub sector_label : String → Option String
  sector_label key =
      elim (first (keep (λ e. e.relation == "in_sector") (outgoing s ("Company", key)))) [
        | none ↦ none
        | some e ↦ some (sector_of t s e)
      ]

  unfoldable pub tier_label : String → Option String
  tier_label key =
      elim (first (keep (λ e. e.relation == "in_market_tier") (outgoing s ("Company", key)))) [
        | none ↦ none
        | some e ↦ some (tier_code t s e.target_key)
      ]

  unfoldable pub portfolio_profile :
      String → TierArg → Option String → Result (Option PortfolioProfile)
  unfolding fill buckets
  portfolio_profile fund_key clearance as_of = do
    found ← fund_holdings t s fund_key clearance as_of
    ok (elim found [
      | none ↦ none
      | some book ↦
          let values = value_by book.holdings in
          some (record {
            fund = book.fund;
            total_value = total values;
            by_sector = buckets (fill sector_label ([], []) values);
            by_market_tier = buckets (fill tier_label ([], []) values);
          })
    ])
