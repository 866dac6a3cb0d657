-- ===== src/Exposure/Queries/Tests.antt =====
-- Runs of the queries, and each theorem on them at a concrete graph.
use coruscant.Prelude.{
  ℕ, ◌≤◌, ◌≡◌, refl, ◌↔◌, true, none, some, List, [], ◌∷◌, map, length, count_if, elem, Distinct,
  ok, String, Memᴰ, string_eq, pair_eq, nat_ord, add, str_le, string_ord, pair_ord, descending_ord,
}
use coruscant.Prelude.Dict
use coruscant.Prelude.Sort.{IsSortedBy, sort_by}
use coruscant.Prelude.Groups.{set_of}
use coruscant.Graph.Types.{str, int, EntityId, GraphNode, GraphEdge, Properties}
use coruscant.Graph.Memory.{Store, edges_by_relation, get_node, outgoing, incoming, nodes_of_kind}
use coruscant.Graph.Substrate.{
  public, tier, coerce_tier, visible, visible_at, tier_of, parse_tier, can_see,
}
use coruscant.Exposure.Ownership.{EntityRef, ref, name_of, ownership_relations}
use coruscant.Exposure.Queries.Props.{Text, int_or_zero, as_of_date, edges_of}
use coruscant.Exposure.Queries.Network.Pairs.{IsNetwork}
use coruscant.Exposure.Queries.Sectors.{
  sector_exposure, exposed_by_sector, classification_terms, classified, terms_of,
}
use coruscant.Exposure.Queries.Sectors.Results.{sector_exposure_iff}
use coruscant.Exposure.Queries.Places.{
  jurisdiction_exposure, JurisdictionFootprint, registered, normalize_jurisdiction, jurisdiction_of,
}
use coruscant.Exposure.Queries.Places.Results.{jurisdiction_exposure_iff, footprint_of}
use coruscant.Exposure.Queries.Funds.{
  FundHoldings, FundRef, fund_holdings, fund_ref, fund_holding, holds_edges, FundHoldingView,
}
use coruscant.Exposure.Queries.Portfolio.{
  PortfolioExposure, PortfolioExposureHit, portfolio_exposure, exposed_company_keys, value_by,
  exposure_hit, by_hit_value, add_value, touched,
}
use coruscant.Exposure.Queries.Portfolio.Results.{portfolio_exposure_iff}
use coruscant.Exposure.Queries.Owners.{
  CompanyOwners, OwnershipOverview, OwnerEdge, company_owners, ownership_overview, owner_edge,
  statements, count_edge,
}
use coruscant.Exposure.Queries.Owners.Accounts.{company_owners_iff, IsStatement}
use coruscant.Exposure.Queries.Owners.Totals.{ownership_overview_counts, shown_with}
use coruscant.Exposure.Queries.Panels.{screening_overview, resolution_overview}
use coruscant.Exposure.Queries.Profile.{entity_profile}
use coruscant.Exposure.Queries.Hidden.{hide, panels-hide}
use coruscant.Exposure.Queries.Hidden.Profiles.{entity_profile-hide}

-- Texts that are stripped and in lower case as they stand.
abbrev plain : Text
plain = record {
  strip = λ s. s;
  lower = λ s. s;
  upper = λ s. s;
  int_of = λ s. none;
  show = λ v. "";
  with_commas = λ n. "";
}

abbrev node : String → String → EntityId × GraphNode
node kind key = ((kind, key), record { kind = kind; key = key; properties = [] })

abbrev edge : String → String → String → String → String → Properties → GraphEdge
edge kind key relation other target properties = record {
  source_kind = kind;
  source_key = key;
  relation = relation;
  target_kind = other;
  target_key = target;
  properties = properties;
}

-- A fund with two companies, one of them in a sector and with a subsidiary in Ireland; a third company
-- names the first; an owner that is public and one that is not.
abbrev graph : Store
graph = record {
  nodes =
      node "Fund" "f" ∷ node "Company" "acme" ∷ node "Company" "beta" ∷ node "Company" "gamma" ∷ [];
  edges =
      edge "Fund" "f" "holds" "Company" "acme" (("value", int 10) ∷ [])
      ∷ edge "Fund" "f" "holds" "Company" "beta" (("value", int 5) ∷ [])
      ∷ edge "Company" "acme" "in_sector" "Sector" "energy" []
      ∷ edge "Company" "acme" "has_subsidiary" "Company" "acme-ie"
          (("jurisdiction", str "Ireland") ∷ [])
      ∷ edge "Company" "gamma" "references" "Company" "acme" []
      ∷ edge "Company" "beta" "owns" "Company" "acme" []
      ∷ edge "Person" "bob" "beneficial_owner_of" "Company" "acme"
          (("access_tier", str "legitimate-interest") ∷ [])
      ∷ [];
  edge_ids = [];
}

program : Unit {0}
unfolding get_node outgoing incoming edges_by_relation nodes_of_kind parse_tier coerce_tier tier_of
    visible visible_at can_see name_of ref set_of add sort_by str_le terms_of classification_terms
    classified exposed_by_sector sector_exposure as_of_date edges_of int_or_zero fund_ref
    fund_holding holds_edges fund_holdings exposed_company_keys value_by add_value touched
    exposure_hit portfolio_exposure owner_edge statements company_owners count_edge
    ownership_overview
program = tt

sector_test : map (λ c. c.key) (sector_exposure plain graph "energy").direct ≡ "acme" ∷ []
unfolding program
sector_test = refl

abbrev fund : FundRef
fund = record {
  key = "f";
  name = "f";
  cik = none;
  period = none;
  positions = 0;
  resolved = 0;
  out_of_coverage = 0;
}

abbrev company : String → EntityRef
company key = record { kind = "Company"; key = key; name = key }

abbrev held : String → ℕ → FundHoldingView
held key value = record {
  company = company key;
  value = value;
  shares = none;
  cusip = none;
  score = none;
  valid_from = none;
  source = none;
  access_tier = "public";
}

abbrev book : FundHoldings
book = record { fund = fund; holdings = held "acme" 10 ∷ held "beta" 5 ∷ [] }

book_found : fund_holdings plain graph "f" (tier public) none ≡ ok (some book)
unfolding program
book_found = refl

abbrev hit : PortfolioExposureHit
hit = record { company = company "acme"; value = 10 }

abbrev report : PortfolioExposure
report = record {
  fund = fund;
  pathway = "sector";
  event = "energy";
  exposed = hit ∷ [];
  exposed_value = 10;
  total_value = 15;
  holdings_in_coverage = 2;
}

report_made :
    portfolio_exposure plain graph "f" "sector" "energy" (tier public) none ≡ ok (some report)
unfolding program
report_made = refl

portfolio_exposure_iff_example :
    ((h : PortfolioExposureHit)
      → Memᴰ h (hit ∷ []) ↔ (
          (key : String) × (value : ℕ) × (elem key
              (exposed_company_keys plain graph "sector" "energy")
            ≡ true)
          × (Dict.get key (value_by book.holdings) ≡ some value)
          × (h ≡ exposure_hit graph (key, value))))
    × Distinct {A = String} ("acme" ∷ [])
    × IsSortedBy by_hit_value (hit ∷ [])
    × (10 ≤ 15)
portfolio_exposure_iff_example =
    portfolio_exposure_iff plain graph "f" "sector" "energy" (tier public) none {book = book}
      {r = report} book_found report_made

sector_exposure_iff_example :
    ((c : EntityRef)
      → Memᴰ c (company "acme" ∷ []) ↔ (
          (e : GraphEdge) × Memᴰ e (edges_by_relation graph "in_sector")
          × (elem "energy" (classification_terms plain graph e) ≡ true)
          × (c ≡ ref graph ("Company", e.source_key))))
    × Distinct {A = String} ("acme" ∷ [])
    × IsNetwork graph
        (exposed_by_sector plain graph "energy")
        (sector_exposure plain graph "energy").network
unfolding program
sector_exposure_iff_example = sector_exposure_iff plain graph "energy"

jurisdiction_exposure_iff_example :
    let r = jurisdiction_exposure plain graph "Ireland" in
    let es = registered plain graph (normalize_jurisdiction plain "Ireland") in
    ((f : JurisdictionFootprint)
      → Memᴰ f r.direct ↔ (
          (e : GraphEdge) × Memᴰ e (edges_by_relation graph "has_subsidiary")
          × (jurisdiction_of plain e ≡ normalize_jurisdiction plain "Ireland")
          × (f ≡ footprint_of graph es e.source_key)))
    × Distinct (map (λ f. f.company.key) r.direct)
    × ((exposed : List String) × ((key : String)
          → elem key exposed ≡ elem key (map (λ e. e.source_key) es))
        × IsNetwork graph exposed r.network)
jurisdiction_exposure_iff_example = jurisdiction_exposure_iff plain graph "Ireland"

abbrev beta_owns : OwnerEdge
beta_owns = record {
  holder_kind = "Company";
  holder_key = "beta";
  holder_name = none;
  relation = "owns";
  basis = none;
  percentage = none;
  percentage_band = none;
  interest = none;
  source = none;
  source_url = none;
  access_tier = some "public";
  valid_from = none;
  valid_to = none;
  holder_resolved = none;
}

-- One owner is shown, and one is withheld.
abbrev acme_owners : CompanyOwners
acme_owners = record {
  company_key = "acme";
  connected = true;
  owners = beta_owns ∷ [];
  restricted = 1;
  provider = none;
  observed_at = none;
  market = none;
}

acme_owners_found : company_owners graph "acme" (tier public) none ≡ ok acme_owners
unfolding program
acme_owners_found = refl

company_owners_iff_example :
    (2 ≡ length (statements graph "acme" none))
    × ((o : OwnerEdge)
        → Memᴰ o (beta_owns ∷ []) ↔ (
            (e : GraphEdge) × IsStatement graph "acme" none e
            × (can_see e.properties (tier public) ≡ ok true)
            × (o ≡ owner_edge e)))
company_owners_iff_example =
    company_owners_iff graph "acme" (tier public) none {r = acme_owners} acme_owners_found

abbrev overview : OwnershipOverview
overview = record {
  connected = true;
  owns = 1;
  beneficial_owner_of = 0;
  consolidates = 0;
  restricted = 1;
  subjects_unresolved = 0;
  holders_unresolved = 0;
  provider = none;
  observed_at = none;
  market = none;
}

overview_made : ownership_overview plain graph (tier public) ≡ ok overview
unfolding program
overview_made = refl

coerced : coerce_tier (tier public) ≡ ok public
unfolding program
coerced = refl

ownership_overview_counts_example :
    (1 ≡ shown_with public graph "owns")
    × (0 ≡ shown_with public graph "beneficial_owner_of")
    × (0 ≡ shown_with public graph "consolidates")
    × (2 ≡ count_if (λ e. elem e.relation ownership_relations) graph.edges)
ownership_overview_counts_example =
    ownership_overview_counts plain graph (tier public) public {r = overview} coerced overview_made

panels-hide_example :
    (screening_overview plain (hide public graph) (tier public) none
      ≡ screening_overview plain graph (tier public) none)
    × (resolution_overview plain (hide public graph) (tier public) none
        ≡ resolution_overview plain graph (tier public) none)
    × (fund_holdings plain (hide public graph) "f" (tier public) none
        ≡ fund_holdings plain graph "f" (tier public) none)
panels-hide_example = panels-hide public (tier public) coerced plain graph none "f"

entity_profile-hide_example :
    entity_profile plain (hide public graph) (tier public) "Company" "acme"
    ≡ entity_profile plain graph (tier public) "Company" "acme"
entity_profile-hide_example =
    entity_profile-hide public (tier public) coerced plain graph "Company" "acme"
