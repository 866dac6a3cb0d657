-- ===== src/Exposure/Queries/Sectors.antt =====
-- The queries on sectors and market tiers of exposure/queries.py.
pub mod Results
use coruscant.Prelude.{
  ℕ, String, Bool, not, Option, none, some, List, [], ◌∷◌, ◌++◌, map, foldl, keep, length, elem,
  add, ◌==◌, if◌then◌else◌, string_eq, nat_ord, string_ord, pair_ord, Descending, descending_ord,
  Option,
}
use coruscant.Prelude.Dict
use coruscant.Prelude.Dict.{Dict}
use coruscant.Prelude.Sort.{sort_by}
use coruscant.Prelude.Groups.{group, set_of}
use coruscant.Graph.Types.{GraphEdge, GraphNode}
use coruscant.Graph.Memory.{Store, incoming, edges_by_relation, nodes_of_kind, target_of, get_node}
use coruscant.Graph.Substrate.{get_str}
use coruscant.Exposure.Ownership.{EntityRef, ref, name_of}
use coruscant.Exposure.Queries.Props.{Text, or_text}
use coruscant.Exposure.Queries.Network.{NetworkProximity, network}

pub record SectorCount : Type 0 where
  pub sector : String
  pub companies : ℕ

pub record SectorExposure : Type 0 where
  pub sector : String
  pub matched_level : Option String
  pub direct : List EntityRef
  pub network : List NetworkProximity

pub record MarketTierCount : Type 0 where
  pub tier : String
  pub label : String
  pub companies : ℕ

pub record MarketTierExposure : Type 0 where
  pub tier : String
  pub label : String
  pub direct : List EntityRef

-- `_GICS_LEVELS`
abbrev pub gics_levels : List String
gics_levels = "sector" ∷ "industry_group" ∷ "industry" ∷ "sub_industry" ∷ []

-- `_tier_code`
unfoldable pub tier_code : Text → Store → String → String
tier_code t s key = elim (get_node s ("MarketTier", key)) [
  | none ↦ t.upper key
  | some node ↦ elim (get_str "code" node.properties) [ none ↦ t.upper key | some code ↦ code ]
]

module _ (t : Text) (s : Store) where
  -- `_sector_of`
  unfoldable pub sector_of : GraphEdge → String
  sector_of e =
      let name = t.strip (name_of s (target_of e)) in
      elim (get_str "sector" e.properties) [
        | none ↦ name
        | some sector ↦ if sector == "" then name else t.strip sector
      ]

  -- The terms that the texts of an edge add.
  unfoldable pub terms_of : GraphEdge → List String → List String
  terms_of e [] = []
  terms_of e (key ∷ keys) =
      let rest = terms_of e keys in
      elim (get_str key e.properties) [
        | none ↦ rest
        | some value ↦ if value == "" then rest else t.lower (t.strip value) ∷ rest
      ]

  -- `_classification_terms`
  unfoldable pub classification_terms : GraphEdge → List String
  unfolding terms_of
  classification_terms e =
      let name = name_of s (target_of e) in
      let terms = terms_of e (gics_levels ++ "code" ∷ []) in
      set_of (if name == "" then terms else t.lower (t.strip name) ∷ terms)

  -- the edges of the loop of `sector_exposure` that pass its test
  unfoldable pub classified : String → List GraphEdge
  unfolding classification_terms
  classified target =
      keep (λ e. elem target (classification_terms e)) (edges_by_relation s "in_sector")

  -- The first level of an edge that has the term.
  unfoldable pub level_of : String → GraphEdge → List String → Option String
  level_of target e [] = none
  level_of target e (level ∷ levels) =
      let rest = level_of target e levels in
      elim (get_str level e.properties) [
        | none ↦ rest
        | some value ↦
            if value == ""
            then rest
            else if t.lower (t.strip value) == target
            then some level
            else rest
      ]

  unfoldable pub first_level : String → List GraphEdge → Option String
  unfolding level_of
  first_level target [] = none
  first_level target (e ∷ es) =
      let rest = first_level target es in
      elim (level_of target e gics_levels) [ none ↦ rest | some level ↦ some level ]

  -- `exposed` of `sector_exposure`
  unfoldable pub exposed_by_sector : String → List String
  unfolding classified
  exposed_by_sector sector =
      set_of (map (λ e. e.source_key) (classified (t.lower (t.strip sector))))

  unfoldable pub sector_exposure : String → SectorExposure
  unfolding exposed_by_sector first_level
  sector_exposure sector = record {
    sector = t.strip sector;
    matched_level = first_level (t.lower (t.strip sector)) (classified (t.lower (t.strip sector)));
    direct = map (λ key. ref s ("Company", key)) (sort_by (λ key. key) (exposed_by_sector sector));
    network = network s (exposed_by_sector sector);
  }

-- `lambda c: (-c.companies, c.sector)`
abbrev by_companies : SectorCount → Descending × String
by_companies c = (record { rank = c.companies }, c.sector)

unfoldable pub list_sectors : Text → Store → List SectorCount
unfolding sector_of
list_sectors t s =
    let named = keep (λ e. not (sector_of t s e == "")) (edges_by_relation s "in_sector") in
    let companies = group [] (map (λ e. (sector_of t s e, e.source_key)) named) in
    sort_by by_companies
      (map (λ entry. record { sector = entry.0; companies = length entry.1 }) companies)

-- `_TIER_ORDER.get(code, 9)`
abbrev tier_order : String → ℕ
tier_order code = Dict.get_or code 9 (("DM", 0) ∷ ("EM", 1) ∷ ("FM", 2) ∷ [])

abbrev by_tier : MarketTierCount → ℕ × String
by_tier c = (tier_order c.tier, c.tier)

unfoldable pub list_market_tiers : Text → Store → List MarketTierCount
list_market_tiers t s =
    let companies =
      group [] (map (λ e. (e.target_key, e.source_key)) (edges_by_relation s "in_market_tier")) in
    sort_by by_tier (
      map
        (λ entry. record {
          tier = tier_code t s entry.0;
          label = name_of s ("MarketTier", entry.0);
          companies = length entry.1;
        })
        companies)

-- The first tier that has the key or the code.
unfoldable pub find_tier : Text → String → List GraphNode → Option String
find_tier t target [] = none
find_tier t target (node ∷ nodes) =
    let rest = find_tier t target nodes in
    if node.key == target then some node.key else elim (get_str "code" node.properties) [
      | none ↦ rest
      | some code ↦ if t.lower code == target then some node.key else rest
    ]

-- `{edge.source_key for edge in store.incoming("MarketTier", tier_key) if …}`
unfoldable pub tier_members : Store → String → List String
tier_members s key = set_of (
    map (λ e. e.source_key)
      (keep (λ e. e.relation == "in_market_tier") (incoming s ("MarketTier", key))))

unfoldable pub market_tier_exposure : Text → Store → String → MarketTierExposure
unfolding find_tier tier_members
market_tier_exposure t s tier =
    elim (find_tier t (t.lower (t.strip tier)) (nodes_of_kind s "MarketTier")) [
      | none ↦ record { tier = t.upper (t.strip tier); label = ""; direct = [] }
      | some key ↦ record {
        tier = tier_code t s key;
        label = name_of s ("MarketTier", key);
        direct =
            map (λ member. ref s ("Company", member))
              (sort_by (λ member. member) (tier_members s key));
      }
    ]
