-- ===== src/Exposure/Tests.antt =====
-- Runs of the traversals, and each theorem at a concrete graph.
use coruscant.Prelude.{
  ◌≡◌, refl, ◌↔◌, true, false, none, some, List, [], ◌∷◌, map, All, ok, add, str_le, String,
  string_ord, nat_ord, pair_ord, Memᴰ, Memᴰ, Memᴰ, Memᴰ,
}
use coruscant.Prelude.Sort.{sort_by}
use coruscant.Graph.Types.{str, EntityId, GraphNode, GraphEdge}
use coruscant.Graph.Memory.{Store, get_node, incoming}
use coruscant.Graph.Substrate.{
  public, tier, parse_tier, coerce_tier, tier_of, visible_at, valid_on, as_of,
}
use coruscant.Exposure.Ownership.{EntityRef, name_of, ref, current_ownership, is_unresolved}
use coruscant.Exposure.Chains.{
  ChainLink, OwnershipChain, CompanyOwnershipChains, beneficial_owner, cycle, link, terminal_for,
  last_holder, owner_edges, follow, leaf, visit, walk, budget, tally, ownership_chains, start,
  clamp_depth, is_resolved,
}
use coruscant.Exposure.Chains.Ends.{IsEvidence, IsJoined, HasNewKeys, last_edge}
use coruscant.Exposure.Chains.Routes.Sound.{IsReport}
use coruscant.Exposure.Chains.Results.{ownership_chains-returns, ownership_chains_iff, chain_path}
use coruscant.Exposure.Chains.Terminals.{EndsAs, chain_end, withheld_at_company}

program : Unit {0}
unfolding get_node incoming parse_tier coerce_tier tier_of visible_at valid_on as_of name_of ref
    current_ownership is_unresolved link terminal_for last_holder owner_edges follow leaf visit walk
    budget tally ownership_chains sort_by str_le add
program = tt

abbrev node : String → String → EntityId × GraphNode
node kind key = ((kind, key), record { kind = kind; key = key; properties = [] })

abbrev edge : String → String → String → String → String → GraphEdge
edge kind key relation target access = record {
  source_kind = kind;
  source_key = key;
  relation = relation;
  target_kind = "Company";
  target_key = target;
  properties = ("access_tier", str access) ∷ [];
}

abbrev owns_target : GraphEdge
owns_target = edge "Company" "hold" "owns" "target" "public"

abbrev owns_hold : GraphEdge
owns_hold = edge "Company" "target" "owns" "hold" "public"

-- A person who holds shares: no beneficial-owner edge.
abbrev person_owns : GraphEdge
person_owns = edge "Person" "ann" "owns" "target" "public"

abbrev hidden_owner : GraphEdge
hidden_owner = edge "Person" "bob" "beneficial_owner_of" "solo" "legitimate-interest"

-- `target` and `hold` own one another, and `ann` owns a part of `target`.
abbrev graph : Store
graph = record {
  nodes =
      node "Company" "target"
      ∷ node "Company" "hold"
      ∷ node "Person" "ann"
      ∷ node "Company" "solo"
      ∷ [];
  edges = owns_target ∷ owns_hold ∷ person_owns ∷ hidden_owner ∷ [];
  edge_ids = [];
}

abbrev entity : String → String → EntityRef
entity kind key = record { kind = kind; key = key; name = key }

abbrev hop : EntityRef → EntityRef → ChainLink
hop holder subject = record {
  holder = holder;
  subject = subject;
  relation = "owns";
  basis = none;
  percentage = none;
  percentage_band = none;
  interest = none;
  source = none;
  source_url = none;
  valid_from = none;
  valid_to = none;
  holder_resolved = none;
  access_tier = some "public";
}

abbrev target : EntityRef
target = entity "Company" "target"

abbrev hold : EntityRef
hold = entity "Company" "hold"

abbrev ann : EntityRef
ann = entity "Person" "ann"

-- `ann` holds shares, and is reported as a beneficial owner.
abbrev ann_chain : OwnershipChain
ann_chain = record {
  links = hop ann target ∷ [];
  terminal = beneficial_owner;
  terminal_holder = some ann;
  depth = 1;
  complete = true;
}

abbrev result : CompanyOwnershipChains
result = record {
  company = target;
  chains =
      ann_chain
      ∷ record {
        links = hop hold target ∷ hop target hold ∷ [];
        terminal = cycle;
        terminal_holder = some target;
        depth = 2;
        complete = false;
      }
      ∷ [];
  resolved_chains = 1;
  partial_chains = 0;
  cyclic_chains = 1;
  restricted_chains = 0;
}

target_chains : ownership_chains graph "target" "Company" (tier public) none 8 ≡ ok (some result)
unfolding program
target_chains = refl

target_coerced : coerce_tier (tier public) ≡ ok public
unfolding program
target_coerced = refl

target_present : get_node graph ("Company", "target") ≡ some (node "Company" "target").1
unfolding program
target_present = refl

ownership_chains-returns_example :
    (r : CompanyOwnershipChains) × (ownership_chains graph "target" "Company" (tier public) none 8
      ≡ ok (some r))
ownership_chains-returns_example =
    ownership_chains-returns graph "target" "Company" (tier public) none 8 target_coerced
      target_present

ownership_chains_iff_example :
    Memᴰ ann_chain result.chains
    ↔ IsReport graph public none (clamp_depth 8) (start "Company" "target") ann_chain
ownership_chains_iff_example =
    ownership_chains_iff graph "target" "Company" (tier public) none 8 target_coerced target_present
      target_chains ann_chain

chain_path_example :
    (es : List GraphEdge) × (ann_chain.links ≡ map (link graph) es)
    × All (IsEvidence graph public none) es
    × IsJoined ("Company", "target") es
    × HasNewKeys ("target" ∷ []) es beneficial_owner
chain_path_example =
    chain_path graph "target" "Company" (tier public) none 8 target_coerced target_present
      target_chains (Memᴰ.head refl)

chain_end_example :
    (es : List GraphEdge) × (e : GraphEdge) × (ann_chain.links ≡ map (link graph) es)
    × (last_edge es ≡ some e)
    × EndsAs graph public none e beneficial_owner
    × (true ≡ is_resolved beneficial_owner)
chain_end_example =
    chain_end graph "target" "Company" (tier public) none 8 target_coerced target_present
      {x = ann_chain} target_chains (Memᴰ.head refl) (λ p. cc p) (λ p. cc p)

abbrev solo_result : CompanyOwnershipChains
solo_result = record {
  company = entity "Company" "solo";
  chains = [];
  resolved_chains = 0;
  partial_chains = 0;
  cyclic_chains = 0;
  restricted_chains = 0;
}

-- The one owner of `solo` is withheld from the public.
withheld_at_company_example : (solo_result.chains ≡ []) × (solo_result.restricted_chains ≡ 0)
unfolding program
withheld_at_company_example =
    withheld_at_company graph "solo" "Company" (tier public) none 8 refl refl {r = solo_result} refl
      refl

solo_hidden : owner_edges graph public none ("Company", "solo") ≡ ([], 1)
unfolding program
solo_hidden = refl
