-- ===== src/Exposure/Queries/Gics.antt =====
-- `gics_breakdown` of exposure/queries.py.
use coruscant.Prelude.{
  ℕ, String, Option, List, [], ◌∷◌, ◌++◌, map, foldl, length, add, ◌==◌, if◌then◌else◌, string_eq,
  string_ord, pair_ord, Descending, descending_ord,
}
use coruscant.Prelude.Dict
use coruscant.Prelude.Dict.{Dict}
use coruscant.Prelude.Sort.{sort_by}
use coruscant.Prelude.Groups.{set_of}
use coruscant.Graph.Types.{GraphEdge}
use coruscant.Graph.Memory.{Store, edges_by_relation, target_of}
use coruscant.Graph.Substrate.{get_str}
use coruscant.Exposure.Ownership.{EntityRef, ref, name_of}
use coruscant.Exposure.Queries.Props.{Text, or_text}
use coruscant.Exposure.Queries.Sectors.{sector_of}

pub record GicsSubIndustry : Type 0 where
  pub sub_industry : String
  pub industry : String
  pub code : Option String
  pub companies : List EntityRef

pub record GicsSector : Type 0 where
  pub sector : String
  pub companies : ℕ
  pub sub_industries : List GicsSubIndustry

-- (industry, code, company keys)
abbrev pub Branch : Type 0
Branch = String × (Option String × List String)

-- sector -> sub-industry -> branch
abbrev pub Tree : Type 0
Tree = Dict String (Dict String Branch)

module _ (t : Text) (s : Store) where
  -- The body of the first loop.
  unfoldable pub place : Tree → GraphEdge → Tree
  place tree e =
      let sector = sector_of t s e in
      let sub = or_text (get_str "sub_industry" e.properties) (t.strip (name_of s (target_of e))) in
      let industry = or_text (get_str "industry" e.properties) sub in
      let subs = Dict.get_or sector [] tree in
      let branch : Branch = Dict.get_or sub (industry, (get_str "code" e.properties, [])) subs in
      let grown : Branch = (branch.0, (branch.1.0, add e.source_key branch.1.1)) in
      if sector == "" then tree else Dict.set sector (Dict.set sub grown subs) tree

  unfoldable pub sub_industry_of : String × Branch → GicsSubIndustry
  sub_industry_of (sub, (industry, (code, members))) = record {
    sub_industry = sub;
    industry = industry;
    code = code;
    companies = map (λ key. ref s ("Company", key)) (sort_by (λ key. key) members);
  }

-- `{key for _, _, members in subs.values() for key in members}`
unfoldable pub members_of : Dict String Branch → List String
members_of [] = []
members_of ((_, (_, (_, members))) ∷ subs) = members ++ members_of subs

-- `lambda s: (-len(s.companies), s.sub_industry)` and `lambda s: (-s.companies, s.sector)`
abbrev by_size : GicsSubIndustry → Descending × String
by_size sub = (record { rank = length sub.companies }, sub.sub_industry)

abbrev by_count : GicsSector → Descending × String
by_count sector = (record { rank = sector.companies }, sector.sector)

unfoldable pub sector_model : Text → Store → String × Dict String Branch → GicsSector
unfolding sub_industry_of members_of
sector_model t s (sector, subs) = record {
  sector = sector;
  companies = length (set_of (members_of subs));
  sub_industries = sort_by by_size (map (sub_industry_of t s) subs);
}

unfoldable pub gics_breakdown : Text → Store → List GicsSector
unfolding place sector_model
gics_breakdown t s =
    sort_by by_count
      (map (sector_model t s) (foldl (place t s) [] (edges_by_relation s "in_sector")))
