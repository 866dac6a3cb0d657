-- ===== src/Exposure/Contagion.antt =====
-- `group_contagion` of exposure/ownership_graph.py: the companies in the ownership group of a seed.
pub mod Links
pub mod Steps
pub mod Loop
pub mod Paths
pub mod Layers
pub mod Nearest
pub mod Results
mod Tests
use coruscant.Prelude.{
  ℕ, zero, suc, ◌+◌, ◌-◌, ◌*◌, min, max, String, Bool, true, false, Option, none, some, List, [],
  ◌∷◌, ◌++◌, map, foldl, length, elem, add, leb, ◌==◌, if◌then◌else◌, string_eq, pair_eq, Result,
  ok, ◌>>=◌, string_ord, nat_ord, pair_ord,
}
use coruscant.Prelude.Sort.{sort_by}
use coruscant.Graph.Types.{EntityId, GraphEdge}
use coruscant.Graph.Memory.{Store, get_node, incoming, outgoing, source_of, target_of}
use coruscant.Graph.Substrate.{
  AccessTier, value, TierArg, coerce_tier, tier_of, visible_at, get_str,
}
use coruscant.Exposure.Ownership.{EntityRef, ref, current_ownership}

-- `"up" | "down"`
pub data Direction : Type 0 where
  go_up go_down : Direction

abbrev pub is_up : Direction → Bool
is_up go_up = true
is_up go_down = false

pub record ContagionHop : Type 0 where
  pub from_entity : EntityRef
  pub to_entity : EntityRef
  pub relation : String
  pub direction : Direction
  pub basis : Option String
  pub source : Option String
  pub source_url : Option String
  pub access_tier : Option String

-- `"parent" | "subsidiary" | "shares-owner" | "group"`
pub data LinkKind : Type 0 where
  parent subsidiary shares_owner group : LinkKind

pub record ContagionMember : Type 0 where
  pub company : EntityRef
  pub hops : ℕ
  pub link : LinkKind
  pub shared_owner : Option EntityRef
  pub path : List ContagionHop

pub record GroupContagion : Type 0 where
  pub seed : EntityRef
  pub direct : List EntityRef
  pub inherited : List ContagionMember
  pub restricted : ℕ

-- The evidence for a step from `i` to `j` along an edge.
unfoldable pub hop : Store → Direction → EntityId → EntityId → GraphEdge → ContagionHop
hop s d i j e = record {
  from_entity = ref s i;
  to_entity = ref s j;
  relation = e.relation;
  direction = d;
  basis = get_str "basis" e.properties;
  source = get_str "source" e.properties;
  source_url = get_str "source_url" e.properties;
  access_tier = some (value (tier_of e.properties));
}

-- The last hop that goes up, and the hops after it.
unfoldable pub last_up : List ContagionHop → Option (ContagionHop × List ContagionHop)
last_up [] = none
last_up (h ∷ hs) = elim (last_up hs) [
  | some found ↦ some found
  | none ↦ if is_up h.direction then some (h, hs) else none
]

unfoldable pub all_up : List ContagionHop → Bool
all_up [] = true
all_up (h ∷ hs) = if is_up h.direction then all_up hs else false

unfoldable pub all_down : List ContagionHop → Bool
all_down [] = true
all_down (h ∷ hs) = if is_up h.direction then false else all_down hs

-- `_classify_link`
unfoldable pub classify_link : List ContagionHop → LinkKind × Option EntityRef
unfolding last_up all_up all_down
classify_link [] = (group, none)
classify_link (h ∷ hs) =
    if all_up (h ∷ hs)
    then (parent, none)
    else (if all_down (h ∷ hs) then (subsidiary, none) else elim (last_up (h ∷ hs)) [
      | none ↦ (group, none)
      | some (pivot, after) ↦
          if all_down after then (shares_owner, some pivot.to_entity) else (group, none)
    ])

-- `seen`, `members` and `total_withheld`
pub record Found : Type 0 where
  pub seen : List EntityId
  pub members : List ContagionMember
  pub total_withheld : ℕ

-- An entry of the queue: a node and the path to it.
abbrev pub Entry : Type 0
Entry = EntityId × List ContagionHop

module _ (s : Store) where
  abbrev pub member : EntityId → List ContagionHop → ContagionMember
  member n path = record {
    company = ref s n;
    hops = length path;
    link = (classify_link path).0;
    shared_owner = (classify_link path).1;
    path = path;
  }

  -- The body of the `for` loop, for the entry's path.
  unfoldable pub reach :
      List ContagionHop → List Entry × Found → EntityId × ContagionHop → List Entry × Found
  reach path (queue, found) (n, h) = if elem n found.seen then (queue, found) else (
    queue ++ (n, path ++ h ∷ []) ∷ [],
    record found {
      seen = add n found.seen;
      members =
          if n.0 == "Company"
          then found.members ++ member n (path ++ h ∷ []) ∷ []
          else found.members;
    },
  )

  module _ (clearance : AccessTier) (on : Option String) where
    -- `_adjacent`: the owners, then the owned entities, and how many edges are withheld
    unfoldable pub adjacent : EntityId → List (EntityId × ContagionHop) × ℕ
    adjacent i =
        let owners = current_ownership on (incoming s i) in
        let owned = current_ownership on (outgoing s i) in
        let owners_seen = visible_at clearance owners in
        let owned_seen = visible_at clearance owned in
        (
          map (λ e. (source_of e, hop s go_up i (source_of e) e)) owners_seen
              ++ map (λ e. (target_of e, hop s go_down i (target_of e) e)) owned_seen,
          (length owners - length owners_seen) + (length owned - length owned_seen),
        )

    module _ (limit : ℕ) where
      -- The body of the `while` loop, after the entry is taken from the queue.
      unfoldable pub expand : Entry → List Entry × Found → List Entry × Found
      expand (i, path) (queue, found) =
          if leb limit (length path)
          then (queue, found)
          else (let (neighbours, hidden) = adjacent i in
              foldl (reach path)
                (queue, record found { total_withheld = found.total_withheld + hidden }) neighbours)

      -- The `while` loop; `none` if the fuel runs out.
      unfoldable pub search : ℕ → List Entry × Found → Option Found
      search fuel ([], found) = some found
      search zero (entry ∷ queue, found) = none
      search (suc fuel) (entry ∷ queue, found) =
          let rest = search fuel (expand entry (queue, found)) in rest

-- `max(1, min(max_hops, 8))`
abbrev pub clamp_hops : ℕ → ℕ
clamp_hops n = max 1 (min n 8)

abbrev pub member_key : ContagionMember → ℕ × String
member_key m = (m.hops, m.company.name)

abbrev pub first_found : EntityId → Found
first_found i = record { seen = i ∷ []; members = []; total_withheld = 0 }

-- Each round takes an entry, and no node has two: the seed and the ends of the edges.
abbrev pub rounds : Store → ℕ
rounds s = 1 + (length s.edges + length s.edges)

-- The result that is filled in after the loop.
unfoldable pub gather : EntityRef → Found → GroupContagion
gather seed found = record {
  seed = seed;
  direct = seed ∷ [];
  inherited = sort_by member_key found.members;
  restricted = found.total_withheld;
}

-- `group_contagion`. A clearance that is no tier raises at the first `_adjacent`.
unfoldable pub group_contagion :
    Store → String → String → TierArg → Option String → ℕ → Result (Option GroupContagion)
group_contagion s key kind clearance on hops = elim (get_node s (kind, key)) [
  | none ↦
      ok (some (record { seed = ref s (kind, key); direct = []; inherited = []; restricted = 0 }))
  | some _ ↦ do
    c ← coerce_tier clearance
    ok
        (elim (search s c on (clamp_hops hops) (rounds s)
          (((kind, key), []) ∷ [], first_found (kind, key))) [
            | none ↦ none
            | some found ↦ some (gather (ref s (kind, key)) found)
          ])
]
