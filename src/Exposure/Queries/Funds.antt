-- ===== src/Exposure/Queries/Funds.antt =====
-- `list_funds` and `fund_holdings` of exposure/queries.py.
use coruscant.Prelude.{
  ℕ, String, Option, none, some, List, [], ◌∷◌, map, keep, Result, ok, ◌>>=◌, ◌==◌, string_eq,
  string_ord, pair_ord, Descending, descending_ord,
}
use coruscant.Prelude.Dict
use coruscant.Prelude.Sort.{sort_by}
use coruscant.Graph.Types.{GraphEdge, GraphNode, Value}
use coruscant.Graph.Memory.{Store, get_node, nodes_of_kind, outgoing, target_of}
use coruscant.Graph.Substrate.{TierArg, visible, tier_of, value, get_str}
use coruscant.Exposure.Ownership.{EntityRef, ref, name_of}
use coruscant.Exposure.Queries.Props.{
  Text, int_or_zero, as_int, as_float, as_of_date, provenance, properties_of,
}

pub record FundRef : Type 0 where
  pub key : String
  pub name : String
  pub cik : Option String
  pub period : Option String
  pub positions : ℕ
  pub resolved : ℕ
  pub out_of_coverage : ℕ

pub record FundHoldingView : Type 0 where
  pub company : EntityRef
  pub value : ℕ
  pub shares : Option ℕ
  pub cusip : Option String
  pub score : Option ℕ
  pub valid_from : Option String
  pub source : Option String
  pub access_tier : String

pub record FundHoldings : Type 0 where
  pub fund : FundRef
  pub holdings : List FundHoldingView

-- `_int`
abbrev pub int_value : Option Value → ℕ
int_value v = elim (as_int v) [ none ↦ 0 | some n ↦ n ]

-- `lambda f: (-f.resolved, f.name)`
abbrev by_resolved : FundRef → Descending × String
by_resolved f = (record { rank = f.resolved }, f.name)

module _ (t : Text) (s : Store) where
  -- `_fund_ref`
  unfoldable pub fund_ref : String → Result FundRef
  fund_ref key = do
    let props = properties_of (get_node s ("Fund", key))
    positions ← int_or_zero t props "positions"
    resolved ← int_or_zero t props "resolved"
    outside ← int_or_zero t props "out_of_coverage"
    ok (record {
      key = key;
      name = name_of s ("Fund", key);
      cik = get_str "cik" props;
      period = get_str "period" props;
      positions = positions;
      resolved = resolved;
      out_of_coverage = outside;
    })

  -- `[_fund_ref(store, node.key) for node in nodes]`
  unfoldable pub fund_refs : List GraphNode → Result (List FundRef)
  unfolding fund_ref
  fund_refs [] = ok []
  fund_refs (node ∷ nodes) = do fund ← fund_ref node.key; funds ← fund_refs nodes; ok (fund ∷ funds)

  unfoldable pub list_funds : Result (List FundRef)
  list_funds = do funds ← fund_refs (nodes_of_kind s "Fund"); ok (sort_by by_resolved funds)

-- The body of the loop of `fund_holdings`.
unfoldable pub fund_holding : Store → GraphEdge → FundHoldingView
fund_holding s e = record {
  company = ref s (target_of e);
  value = int_value (Dict.get "value" e.properties);
  shares = as_int (Dict.get "shares" e.properties);
  cusip = get_str "cusip" e.properties;
  score = as_float (Dict.get "score" e.properties);
  valid_from = get_str "valid_from" e.properties;
  source = provenance e.properties;
  access_tier = value (tier_of e.properties);
}

-- `lambda h: (-h.value, h.company.name)`
abbrev pub by_value : FundHoldingView → Descending × String
by_value h = (record { rank = h.value }, h.company.name)

-- the `holds` edges of the fund, at the date
unfoldable pub holds_edges : Store → String → Option String → List GraphEdge
holds_edges s fund_key as_of =
    as_of_date as_of (keep (λ e. e.relation == "holds") (outgoing s ("Fund", fund_key)))

unfoldable pub fund_holdings :
    Text → Store → String → TierArg → Option String → Result (Option FundHoldings)
unfolding holds_edges fund_holding
fund_holdings t s fund_key clearance as_of = elim (get_node s ("Fund", fund_key)) [
  | none ↦ ok none
  | some node ↦ do
    edges ← visible (holds_edges s fund_key as_of) clearance
    fund ← fund_ref t s fund_key
    ok (some (record { fund = fund; holdings = sort_by by_value (map (fund_holding s) edges) }))
]
