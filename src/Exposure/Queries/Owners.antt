-- ===== src/Exposure/Queries/Owners.antt =====
-- `ownership_overview` and `company_owners` of exposure/queries.py: the statements of ownership that a
-- caller may see, and the number of those that are withheld.
pub mod Accounts
pub mod Totals
use coruscant.Prelude.{
  ℕ, ◌+◌, ◌-◌, String, Bool, not, ◌&&◌, Option, none, some, List, map, keep, foldl, length, elem,
  is_nil, Result, ok, ◌>>=◌, if◌then◌else◌, string_eq, false, true,
}
use coruscant.Prelude.Dict
use coruscant.Prelude.Dict.{Dict}
use coruscant.Graph.Types.{GraphEdge}
use coruscant.Graph.Memory.{Store, nodes_of_kind, incoming}
use coruscant.Graph.Substrate.{TierArg, visible, tier_of, value, get_str}
use coruscant.Exposure.Ownership.{ownership_relations}
use coruscant.Exposure.Queries.Props.{
  Text, int_or_zero, as_float, as_bool, as_of_date, first, properties_of, edges_of,
}

pub record OwnershipOverview : Type 0 where
  pub connected : Bool
  pub owns : ℕ
  pub beneficial_owner_of : ℕ
  pub consolidates : ℕ
  pub restricted : ℕ
  pub subjects_unresolved : ℕ
  pub holders_unresolved : ℕ
  pub provider : Option String
  pub observed_at : Option String
  pub market : Option String

pub record OwnerEdge : Type 0 where
  pub holder_kind : String
  pub holder_key : String
  pub holder_name : Option String
  pub relation : String
  pub basis : Option String
  pub percentage : Option ℕ
  pub percentage_band : Option String
  pub interest : Option String
  pub source : Option String
  pub source_url : Option String
  pub access_tier : Option String
  pub valid_from : Option String
  pub valid_to : Option String
  pub holder_resolved : Option Bool

pub record CompanyOwners : Type 0 where
  pub company_key : String
  pub connected : Bool
  pub owners : List OwnerEdge
  pub restricted : ℕ
  pub provider : Option String
  pub observed_at : Option String
  pub market : Option String

abbrev pub no_ownership : OwnershipOverview
no_ownership = record {
  connected = false;
  owns = 0;
  beneficial_owner_of = 0;
  consolidates = 0;
  restricted = 0;
  subjects_unresolved = 0;
  holders_unresolved = 0;
  provider = none;
  observed_at = none;
  market = none;
}

-- `counts[edge.relation] = counts.get(edge.relation, 0) + 1`
unfoldable pub count_edge : Dict String ℕ → GraphEdge → Dict String ℕ
count_edge counts e = Dict.set e.relation (Dict.get_or e.relation 0 counts + 1) counts

unfoldable pub ownership_overview : Text → Store → TierArg → Result OwnershipOverview
ownership_overview t s clearance =
    let run = first (nodes_of_kind s "OwnershipRun") in
    let all_edges = edges_of s ownership_relations in
    let props = properties_of run in
    if is_nil all_edges && is_nil (nodes_of_kind s "OwnershipRun") then ok no_ownership else do
      shown ← visible all_edges clearance
      let counts = foldl count_edge (map (λ relation. (relation, 0)) ownership_relations) shown
      subjects ← int_or_zero t props "subjects_unresolved"
      holders ← int_or_zero t props "holders_unresolved"
      ok (record {
        connected = true;
        owns = Dict.get_or "owns" 0 counts;
        beneficial_owner_of = Dict.get_or "beneficial_owner_of" 0 counts;
        consolidates = Dict.get_or "consolidates" 0 counts;
        restricted = length all_edges - length shown;
        subjects_unresolved = subjects;
        holders_unresolved = holders;
        provider = get_str "provider" props;
        observed_at = get_str "observed_at" props;
        market = get_str "market" props;
      })

unfoldable pub owner_edge : GraphEdge → OwnerEdge
owner_edge e = record {
  holder_kind = e.source_kind;
  holder_key = e.source_key;
  holder_name = get_str "holder_name" e.properties;
  relation = e.relation;
  basis = get_str "basis" e.properties;
  percentage = as_float (Dict.get "percentage" e.properties);
  percentage_band = get_str "percentage_band" e.properties;
  interest = get_str "interest" e.properties;
  source = get_str "source" e.properties;
  source_url = get_str "source_url" e.properties;
  access_tier = some (value (tier_of e.properties));
  valid_from = get_str "valid_from" e.properties;
  valid_to = get_str "valid_to" e.properties;
  holder_resolved = as_bool (Dict.get "holder_resolved" e.properties);
}

-- the statements that point at the company, at the date
unfoldable pub statements : Store → String → Option String → List GraphEdge
statements s company_key as_of =
    as_of_date as_of
      (keep (λ e. elem e.relation ownership_relations) (incoming s ("Company", company_key)))

unfoldable pub company_owners : Store → String → TierArg → Option String → Result CompanyOwners
unfolding statements
company_owners s company_key clearance as_of = do
  shown ← visible (statements s company_key as_of) clearance
  let props = properties_of (first (nodes_of_kind s "OwnershipRun"))
  ok (record {
    company_key = company_key;
    connected = not (is_nil (statements s company_key as_of));
    owners = map owner_edge shown;
    restricted = length (statements s company_key as_of) - length shown;
    provider = get_str "provider" props;
    observed_at = get_str "observed_at" props;
    market = get_str "market" props;
  })
