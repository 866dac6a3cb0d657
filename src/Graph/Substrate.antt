-- ===== src/Graph/Substrate.antt =====
-- knowledge_graph/substrate.py: who may see an edge, and when it holds.
pub mod Access
pub mod Stamps
use coruscant.Prelude.{
  ℕ, String, Bool, true, false, not, ◌&&◌, Option, none, some, List, keep, Result, ok, raise,
  value_error, ◌>>=◌, leb, ◌==◌, ◌<=◌, if◌then◌else◌, string_eq, string_ord,
}
use coruscant.Prelude.Dict
use coruscant.Graph.Types.{Value, str, Properties, GraphEdge}

pub data AccessTier : Type 0 where
  public legitimate_interest restricted_authority aggregator_licensed : AccessTier

-- `.value`
abbrev pub value : AccessTier → String
value public = "public"
value legitimate_interest = "legitimate-interest"
value restricted_authority = "restricted-authority"
value aggregator_licensed = "aggregator-licensed"

-- `_TIER_RANK`
abbrev pub tier_rank : AccessTier → ℕ
tier_rank public = 0
tier_rank legitimate_interest = 1
tier_rank restricted_authority = 2
tier_rank aggregator_licensed = 3

-- `AccessTier(raw)`; `none` is the ValueError
unfoldable pub parse_tier : String → Option AccessTier
parse_tier raw =
    if raw == "public"
    then some public
    else (if raw == "legitimate-interest"
        then some legitimate_interest
        else (if raw == "restricted-authority"
            then some restricted_authority
            else (if raw == "aggregator-licensed" then some aggregator_licensed else none)))

-- `AccessTier | str`
pub data TierArg : Type 0 where
  tier : AccessTier → TierArg
  label : String → TierArg

unfoldable pub coerce_tier : TierArg → Result AccessTier
unfolding parse_tier
coerce_tier (tier t) = ok t
coerce_tier (label raw) = elim (parse_tier raw) [ none ↦ raise value_error | some t ↦ ok t ]

-- What `properties.get(key)` gives if it is a text.
abbrev pub get_str : String → Properties → Option String
get_str key props = elim (Dict.get key props) [ some (str s) ↦ some s | _ ↦ none ]

unfoldable pub tier_of : Properties → AccessTier
tier_of props = elim (get_str "access_tier" props) [
  | none ↦ public
  | some raw ↦ elim (parse_tier raw) [ none ↦ aggregator_licensed | some t ↦ t ]
]

unfoldable pub can_see : Properties → TierArg → Result Bool
can_see props clearance = do
  t ← coerce_tier clearance
  ok (leb (tier_rank (tier_of props)) (tier_rank t))

-- the comprehension of `visible`, with the clearance coerced
unfoldable pub visible_at : AccessTier → List GraphEdge → List GraphEdge
visible_at clearance = keep (λ e. leb (tier_rank (tier_of e.properties)) (tier_rank clearance))

unfoldable pub visible : List GraphEdge → TierArg → Result (List GraphEdge)
visible edges clearance = do allowed ← coerce_tier clearance; ok (visible_at allowed edges)

-- A moment is its ISO text, which `_iso` makes of a `date`. Texts have `a < b` where `b <= a` fails.
unfoldable pub valid_on : Properties → String → Bool
valid_on props moment =
    let too_early : Bool = elim (get_str "valid_from" props) [
      | none ↦ false
      | some lo ↦ not (lo <= moment)
    ] in
    let too_late : Bool = elim (get_str "valid_to" props) [
      | none ↦ false
      | some hi ↦ not (moment <= hi)
    ] in
    if too_early then false else (if too_late then false else true)

unfoldable pub as_of : List GraphEdge → String → List GraphEdge
as_of edges on = keep (λ e. valid_on e.properties on) edges

abbrev set_bound : String → Option String → Properties → Properties
set_bound key none props = props
set_bound key (some moment) props = Dict.set key (str moment) props

-- `stamp`, with `{}` for properties that are not given
unfoldable pub stamp :
    Properties → String → TierArg → String → Option String → Option String → Result Properties
stamp props source access_tier observed_at valid_from valid_to = do
  t ← coerce_tier access_tier
  ok (
      set_bound "valid_to" valid_to (
        set_bound "valid_from" valid_from (
          Dict.set "observed_at" (str observed_at)
            (Dict.set "access_tier" (str (value t)) (Dict.set "source" (str source) props)))))
