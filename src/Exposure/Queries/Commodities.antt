-- ===== src/Exposure/Queries/Commodities.antt =====
-- The queries on commodities and debt of exposure/queries.py.
use coruscant.Prelude.{
  String, ◌&&◌, Option, none, some, List, [], ◌∷◌, map, foldl, keep, add, ◌==◌, if◌then◌else◌,
  string_eq, string_ord, pair_ord,
}
use coruscant.Prelude.Sort.{sort_by}
use coruscant.Prelude.Groups.{set_of}
use coruscant.Graph.Types.{GraphEdge, GraphNode}
use coruscant.Graph.Memory.{
  Store, get_node, outgoing, incoming, edges_by_relation, nodes_of_kind, target_of,
}
use coruscant.Graph.Substrate.{get_str}
use coruscant.Exposure.Ownership.{EntityRef, ref, name_of}
use coruscant.Exposure.Queries.Props.{Text, text_or, or_text}
use coruscant.Exposure.Queries.Sectors.{sector_of}
use coruscant.Exposure.Queries.Places.{entity_key}

pub record CommodityRef : Type 0 where
  pub slug : String
  pub name : String
  pub category : String
  pub symbol : Option String
  pub affects_sectors : List String

pub record DebtRef : Type 0 where
  pub slug : String
  pub name : String
  pub debt_type : String
  pub issuer_country : String
  pub symbol : Option String

pub record CommodityExposure : Type 0 where
  pub slug : String
  pub commodity : String
  pub category : String
  pub affects_sectors : List String
  pub holdings : List EntityRef

module _ (t : Text) (s : Store) where
  -- `_companies_in_sector`
  unfoldable pub companies_in_sector : String → List String
  companies_in_sector sector = set_of (
      map (λ e. e.source_key)
        (keep (λ e. t.lower (sector_of t s e) == t.lower (t.strip sector))
          (edges_by_relation s "in_sector")))

  -- `_affected_sectors`
  unfoldable pub affected_sectors : String → List String
  affected_sectors key =
      map (λ e. or_text (get_str "sector" e.properties) (name_of s (target_of e)))
        (keep (λ e. e.relation == "affects_sector") (outgoing s ("Commodity", key)))

  unfoldable pub commodity_ref : GraphNode → CommodityRef
  commodity_ref node = record {
    slug = node.key;
    name = text_or t node.properties "name" node.key;
    category = text_or t node.properties "category" "";
    symbol = get_str "symbol" node.properties;
    affects_sectors = affected_sectors node.key;
  }

  -- A debt instrument, with the country to name if the node names none.
  unfoldable pub debt_ref : String → GraphNode → DebtRef
  debt_ref country node = record {
    slug = node.key;
    name = text_or t node.properties "name" node.key;
    debt_type = text_or t node.properties "debt_type" "";
    issuer_country = text_or t node.properties "issuer_country" country;
    symbol = get_str "symbol" node.properties;
  }

  -- The first commodity whose name, stripped and in lower case, is the target.
  unfoldable pub find_commodity : String → List GraphNode → Option GraphNode
  find_commodity target [] = none
  find_commodity target (node ∷ nodes) =
      let rest = find_commodity target nodes in
      if t.lower (t.strip (text_or t node.properties "name" "")) == target then some node else rest

  -- `exposed |= _companies_in_sector(store, sector)`
  unfoldable pub companies_in_sectors : List String → List String
  unfolding companies_in_sector
  companies_in_sectors [] = []
  companies_in_sectors (sector ∷ sectors) =
      foldl (λ found key. add key found) (companies_in_sectors sectors) (companies_in_sector sector)

  unfoldable pub exposed_by_commodity : String → List EntityRef
  exposed_by_commodity key =
      map (λ company. ref s ("Company", company))
        (sort_by (λ company. company) (companies_in_sectors (affected_sectors key)))

  unfoldable pub commodity_node : String → Option GraphNode
  unfolding find_commodity
  commodity_node target = elim (get_node s ("Commodity", target)) [
    | some node ↦ some node
    | none ↦ find_commodity target (nodes_of_kind s "Commodity")
  ]

  unfoldable pub commodity_exposure : String → CommodityExposure
  unfolding exposed_by_commodity commodity_node
  commodity_exposure commodity = elim (commodity_node (t.lower (t.strip commodity))) [
    | none ↦ record {
      slug = commodity;
      commodity = commodity;
      category = "";
      affects_sectors = [];
      holdings = [];
    }
    | some node ↦ record {
      slug = node.key;
      commodity = text_or t node.properties "name" node.key;
      category = text_or t node.properties "category" "";
      affects_sectors = affected_sectors node.key;
      holdings = exposed_by_commodity node.key;
    }
  ]

-- The sort keys.
abbrev by_category : CommodityRef → String × String
by_category r = (r.category, r.name)

abbrev by_country : DebtRef → String × String
by_country r = (r.issuer_country, r.name)

abbrev by_name : DebtRef → String
by_name r = r.name

unfoldable pub list_commodities : Text → Store → List CommodityRef
unfolding commodity_ref
list_commodities t s = sort_by by_category (map (commodity_ref t s) (nodes_of_kind s "Commodity"))

unfoldable pub list_debt_instruments : Text → Store → List DebtRef
unfolding debt_ref
list_debt_instruments t s =
    sort_by by_country (map (debt_ref t s "") (nodes_of_kind s "DebtInstrument"))

-- The body of the loop of `debt_for_country`.
unfoldable pub issued : Text → Store → String → List GraphEdge → List DebtRef
unfolding debt_ref
issued t s country [] = []
issued t s country (e ∷ es) =
    let rest = issued t s country es in
    if e.relation == "issued_by" && e.source_kind == "DebtInstrument"
    then elim (get_node s ("DebtInstrument", e.source_key)) [
      | none ↦ rest
      | some node ↦ debt_ref t s country node ∷ rest
    ]
    else rest

unfoldable pub debt_for_country : Text → Store → String → List DebtRef
unfolding issued
debt_for_country t s country =
    sort_by by_name (issued t s country (incoming s ("Country", entity_key t country)))
