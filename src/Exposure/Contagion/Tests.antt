-- ===== src/Exposure/Contagion/Tests.antt =====
-- Runs of `group_contagion`, and each theorem at a concrete group.
use coruscant.Prelude.{
  ◌≤◌, ◌≡◌, refl, ◌≢◌, ◌↔◌, ◌⊎◌, String, none, some, List, [], ◌∷◌, ◌++◌, Memᴰ, All, ok, add,
  str_le, string_ord, nat_ord, pair_ord, string_eq, pair_eq,
}
use coruscant.Prelude.Sort.{sort_by}
use coruscant.Graph.Types.{str, EntityId, GraphNode, GraphEdge}
use coruscant.Graph.Memory.{Store, get_node, incoming, outgoing}
use coruscant.Graph.Substrate.{
  public, tier, parse_tier, coerce_tier, tier_of, visible_at, valid_on, as_of,
}
use coruscant.Exposure.Ownership.{EntityRef, name_of, ref, current_ownership}
use coruscant.Exposure.Contagion.{
  Direction, go_up, go_down, ContagionHop, ContagionMember, GroupContagion, parent, subsidiary,
  shares_owner, hop, last_up, all_up, all_down, classify_link, reach, adjacent, expand, search,
  gather, group_contagion, clamp_hops,
}
use coruscant.Exposure.Contagion.Steps.{IsDistance}
use coruscant.Exposure.Contagion.Links.{IsUp, IsDown, classify_link-cases}
use coruscant.Exposure.Contagion.Paths.{IsInherited, member_id}
use coruscant.Exposure.Contagion.Results.{
  group_contagion-returns, member_evidence, group_contagion_iff,
}

program : Unit {0}
unfolding get_node incoming outgoing parse_tier coerce_tier tier_of visible_at valid_on as_of
    name_of ref current_ownership hop last_up all_up all_down classify_link reach adjacent expand
    search gather group_contagion sort_by str_le add
program = tt

abbrev company : String → EntityId × GraphNode
company key = (("Company", key), record { kind = "Company"; key = key; properties = [] })

abbrev owns : String → String → GraphEdge
owns owner target = record {
  source_kind = "Company";
  source_key = owner;
  relation = "owns";
  target_kind = "Company";
  target_key = target;
  properties = ("access_tier", str "public") ∷ [];
}

-- `hold` owns `a` and `b`, and `c` owns a part of `b`.
abbrev group_graph : Store
group_graph = record {
  nodes = company "a" ∷ company "b" ∷ company "c" ∷ company "hold" ∷ [];
  edges = owns "hold" "a" ∷ owns "hold" "b" ∷ owns "c" "b" ∷ [];
  edge_ids = [];
}

abbrev entity : String → EntityRef
entity key = record { kind = "Company"; key = key; name = key }

abbrev step : Direction → String → String → ContagionHop
step d from to = record {
  from_entity = entity from;
  to_entity = entity to;
  relation = "owns";
  direction = d;
  basis = none;
  source = none;
  source_url = none;
  access_tier = some "public";
}

abbrev to_hold : ContagionHop
to_hold = step go_up "a" "hold"

abbrev to_b : ContagionHop
to_b = step go_down "hold" "b"

-- Up again, to another owner of `b`: it is named as the owner that it shares with `a`.
abbrev to_c : ContagionHop
to_c = step go_up "b" "c"

abbrev hold_member : ContagionMember
hold_member = record {
  company = entity "hold";
  hops = 1;
  link = parent;
  shared_owner = none;
  path = to_hold ∷ [];
}

abbrev members : List ContagionMember
members =
    hold_member
    ∷ record {
      company = entity "b";
      hops = 2;
      link = shares_owner;
      shared_owner = some (entity "hold");
      path = to_hold ∷ to_b ∷ [];
    }
    ∷ record {
      company = entity "c";
      hops = 3;
      link = shares_owner;
      shared_owner = some (entity "c");
      path = to_hold ∷ to_b ∷ to_c ∷ [];
    }
    ∷ []

abbrev group_of_a : GroupContagion
group_of_a = record {
  seed = entity "a";
  direct = entity "a" ∷ [];
  inherited = members;
  restricted = 0;
}

a_group : group_contagion group_graph "a" "Company" (tier public) none 4 ≡ ok (some group_of_a)
unfolding program
a_group = refl

a_coerced : coerce_tier (tier public) ≡ ok public
unfolding program
a_coerced = refl

a_present : get_node group_graph ("Company", "a") ≡ some (company "a").1
unfolding program
a_present = refl

group_contagion-returns_example :
    (r : GroupContagion) × (group_contagion group_graph "a" "Company" (tier public) none 4
      ≡ ok (some r))
group_contagion-returns_example =
    group_contagion-returns group_graph "a" "Company" (tier public) none 4 a_coerced a_present

member_evidence_example :
    IsInherited group_graph public none (clamp_hops 4) ("Company", "a") hold_member
member_evidence_example =
    member_evidence group_graph "a" "Company" (tier public) none 4 a_coerced a_present a_group
      (Memᴰ.head refl)

group_contagion_iff_example :
    ((m : ContagionMember) × Memᴰ m members × (member_id m ≡ ("Company", "b")) × (m.hops ≡ 2)) ↔ (
      (◌≡◌ {A = String} "Company" "Company")
      × (◌≢◌ {A = EntityId} ("Company", "b") ("Company", "a"))
      × (2 ≤ clamp_hops 4)
      × IsDistance group_graph public none ("Company", "a") ("Company", "b") 2)
group_contagion_iff_example =
    group_contagion_iff group_graph "a" "Company" (tier public) none 4 a_coerced a_present a_group
      ("Company", "b") 2

abbrev to_c_path : List ContagionHop
to_c_path = to_hold ∷ to_b ∷ to_c ∷ []

classify_link-cases_example :
    (All IsUp to_c_path × (classify_link to_c_path ≡ (parent, none)))
    ⊎ ((All IsDown to_c_path × (classify_link to_c_path ≡ (subsidiary, none)))
        ⊎ ((pivot : ContagionHop) × (before : List ContagionHop) × (after : List ContagionHop)
            × (¬ All IsUp to_c_path)
            × (to_c_path ≡ before ++ pivot ∷ after)
            × IsUp pivot
            × All IsDown after
            × (classify_link to_c_path ≡ (shares_owner, some pivot.to_entity))))
classify_link-cases_example = classify_link-cases to_c_path (λ p. cc p)
