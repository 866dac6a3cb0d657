-- ===== src/Exposure/Chains.antt =====
-- `ownership_chains` of exposure/ownership_graph.py: the chains of owners above a company.
pub mod Steps
pub mod Routes
pub mod Ends
pub mod Results
pub mod Terminals
use coruscant.Prelude.{
  ℕ, zero, suc, ◌+◌, ◌-◌, ◌*◌, min, max, String, Bool, true, false, Option, none, some, List, [],
  ◌∷◌, ◌++◌, foldl, length, is_nil, count_if, elem, add, leb, ◌==◌, ◌||◌, if◌then◌else◌, string_eq,
  Result, ok, ◌>>=◌, string_ord, nat_ord, pair_ord,
}
use coruscant.Prelude.Dict
use coruscant.Prelude.Sort.{sort_by}
use coruscant.Graph.Types.{Value, int, float, bool, Properties, EntityId, GraphEdge}
use coruscant.Graph.Memory.{Store, get_node, incoming, source_of, target_of}
use coruscant.Graph.Substrate.{
  AccessTier, value, TierArg, coerce_tier, tier_of, visible_at, get_str,
}
use coruscant.Exposure.Ownership.{EntityRef, ref, current_ownership, is_unresolved}

pub record ChainLink : Type 0 where
  pub holder : EntityRef
  pub subject : EntityRef
  pub relation : String
  pub basis : Option String
  pub percentage : Option ℕ
  pub percentage_band : Option String
  pub interest : Option String
  pub source : Option String
  pub source_url : Option String
  pub valid_from : Option String
  pub valid_to : Option String
  pub holder_resolved : Option Bool
  pub access_tier : Option String

pub data Terminal : Type 0 where
  beneficial_owner root unresolved cycle max_depth restricted : Terminal

abbrev pub terminal_value : Terminal → String
terminal_value beneficial_owner = "beneficial_owner"
terminal_value root = "root"
terminal_value unresolved = "unresolved"
terminal_value cycle = "cycle"
terminal_value max_depth = "max_depth"
terminal_value restricted = "restricted"

pub record OwnershipChain : Type 0 where
  pub links : List ChainLink
  pub terminal : Terminal
  pub terminal_holder : Option EntityRef
  pub depth : ℕ
  pub complete : Bool

pub record CompanyOwnershipChains : Type 0 where
  pub company : EntityRef
  pub chains : List OwnershipChain
  pub resolved_chains : ℕ
  pub partial_chains : ℕ
  pub cyclic_chains : ℕ
  pub restricted_chains : ℕ

-- `float(pct) if isinstance(pct, (int, float)) else None`; a Python bool is an int
abbrev percentage_of : Option Value → Option ℕ
percentage_of (some (int n)) = some (n * 10_000)
percentage_of (some (float x)) = some x
percentage_of (some (bool true)) = some 10_000
percentage_of (some (bool false)) = some 0
percentage_of _ = none

abbrev bool_of : Option Value → Option Bool
bool_of (some (bool b)) = some b
bool_of _ = none

-- `_link`
unfoldable pub link : Store → GraphEdge → ChainLink
link s e = record {
  holder = ref s (source_of e);
  subject = ref s (target_of e);
  relation = e.relation;
  basis = get_str "basis" e.properties;
  percentage = percentage_of (Dict.get "percentage" e.properties);
  percentage_band = get_str "percentage_band" e.properties;
  interest = get_str "interest" e.properties;
  source = get_str "source" e.properties;
  source_url = get_str "source_url" e.properties;
  valid_from = get_str "valid_from" e.properties;
  valid_to = get_str "valid_to" e.properties;
  holder_resolved = bool_of (Dict.get "holder_resolved" e.properties);
  access_tier = some (value (tier_of e.properties));
}

-- `_terminal_for`
unfoldable pub terminal_for : Store → EntityId → Option String → Terminal
terminal_for s i last_relation =
    if elim last_relation [ none ↦ false | some r ↦ r == "beneficial_owner_of" ] || i.0 == "Person"
    then beneficial_owner
    else (if is_unresolved s i then unresolved else root)

-- `terminal in _RESOLVED_TERMINALS`
abbrev pub is_resolved : Terminal → Bool
is_resolved beneficial_owner = true
is_resolved root = true
is_resolved _ = false

-- An entry of the stack.
pub record Frame : Type 0 where
  pub node : EntityId
  pub prefix : List ChainLink
  pub visited : List String
  pub last_relation : Option String
  pub depth : ℕ

abbrev pub chain : List ChainLink → Terminal → Option EntityRef → OwnershipChain
chain links terminal holder = record {
  links = links;
  terminal = terminal;
  terminal_holder = holder;
  depth = length links;
  complete = is_resolved terminal;
}

-- `prefix[-1].holder`
unfoldable pub last_holder : List ChainLink → Option EntityRef
last_holder [] = none
last_holder (l ∷ []) = some l.holder
last_holder (_ ∷ l ∷ ls) = last_holder (l ∷ ls)

-- How often a frame can be popped below one that has `rounds` hops left, in a store of `size` edges.
unfoldable pub budget : ℕ → ℕ → ℕ
budget size zero = 1
budget size (suc rounds) = 1 + size * budget size rounds

abbrev pub start : String → String → Frame
start kind key = record {
  node = (kind, key);
  prefix = [];
  visited = key ∷ [];
  last_relation = none;
  depth = 0;
}

module _ (s : Store) (clearance : AccessTier) (on : Option String) where
  -- `_owner_edges`: the visible ones, and how many are withheld
  unfoldable pub owner_edges : EntityId → List GraphEdge × ℕ
  owner_edges i =
      let edges = current_ownership on (incoming s i) in
      let shown = visible_at clearance edges in (shown, length edges - length shown)

  module _ (limit : ℕ) where
    -- The body of the `for` loop, on the chains found and the stack with its top first.
    unfoldable pub follow :
        Frame → List OwnershipChain × List Frame → GraphEdge → List OwnershipChain × List Frame
    follow f (chains, stack) e =
        let l = link s e in
        let links = f.prefix ++ l ∷ [] in
        if elem e.source_key f.visited
        then (chains ++ chain links cycle (some l.holder) ∷ [], stack)
        else (if leb limit (f.depth + 1)
            then (chains ++ chain links max_depth (some l.holder) ∷ [], stack)
            else (
              chains,
              record {
                node = source_of e;
                prefix = links;
                visited = add e.source_key f.visited;
                last_relation = some e.relation;
                depth = f.depth + 1;
              }
                  ∷ stack,
            ))

    -- The branch for a frame with no visible owners.
    unfoldable pub leaf : Frame → ℕ → List OwnershipChain
    leaf f withheld =
        if is_nil f.prefix
        then []
        else (let terminal =
              if leb 1 withheld then restricted else terminal_for s f.node f.last_relation in
            chain f.prefix terminal (last_holder f.prefix) ∷ [])

    -- The body of the `while` loop, after `f` is popped, on what `_owner_edges` returns.
    unfoldable pub visit :
        Frame
        → List GraphEdge × ℕ
        → List OwnershipChain × List Frame
        → List OwnershipChain × List Frame
    visit f ([], withheld) (chains, stack) = (chains ++ leaf f withheld, stack)
    visit f (e ∷ es, withheld) st = foldl (follow f) st (e ∷ es)

    abbrev pub step : Frame → List OwnershipChain × List Frame → List OwnershipChain × List Frame
    step f = visit f (owner_edges f.node)

    -- The `while` loop; `none` if the fuel runs out.
    unfoldable pub walk : ℕ → List OwnershipChain × List Frame → Option (List OwnershipChain)
    walk fuel (chains, []) = some chains
    walk zero (chains, f ∷ stack) = none
    walk (suc fuel) (chains, f ∷ stack) = let rest = walk fuel (step f (chains, stack)) in rest

-- `max(1, min(max_depth, 12))`
abbrev pub clamp_depth : ℕ → ℕ
clamp_depth n = max 1 (min n 12)

abbrev pub sort_key : OwnershipChain → ℕ × (String × String)
sort_key c =
    (c.depth, (terminal_value c.terminal, elim c.terminal_holder [ none ↦ "" | some r ↦ r.name ]))

abbrev pub is_cyclic : Terminal → Bool
is_cyclic cycle = true
is_cyclic _ = false

abbrev pub is_restricted : Terminal → Bool
is_restricted restricted = true
is_restricted _ = false

abbrev pub is_partial : Terminal → Bool
is_partial unresolved = true
is_partial max_depth = true
is_partial restricted = true
is_partial _ = false

-- The result that is filled in from the chains.
unfoldable pub tally : EntityRef → List OwnershipChain → CompanyOwnershipChains
tally company found =
    let chains = sort_by sort_key found in
    record {
      company = company;
      chains = chains;
      resolved_chains = count_if (λ c. is_resolved c.terminal) chains;
      partial_chains = count_if (λ c. is_partial c.terminal) chains;
      cyclic_chains = count_if (λ c. is_cyclic c.terminal) chains;
      restricted_chains = count_if (λ c. is_restricted c.terminal) chains;
    }

-- `ownership_chains`. A clearance that is no tier raises at the first `_owner_edges`.
unfoldable pub ownership_chains :
    Store → String → String → TierArg → Option String → ℕ → Result (Option CompanyOwnershipChains)
ownership_chains s key kind clearance on depth = elim (get_node s (kind, key)) [
  | none ↦ ok (some (tally (ref s (kind, key)) []))
  | some _ ↦ do
    c ← coerce_tier clearance
    let limit = clamp_depth depth
    ok (elim (walk s c on limit (budget (length s.edges) limit) ([], start kind key ∷ [])) [
      | none ↦ none
      | some chains ↦ some (tally (ref s (kind, key)) chains)
    ])
]
