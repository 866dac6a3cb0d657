-- ===== src/Exposure/Queries/Props.antt =====
-- How exposure/queries.py reads the properties of nodes and edges.
use coruscant.Prelude.{
  ℕ, ◌*◌, String, Bool, Option, none, some, List, [], ◌∷◌, ◌++◌, is_nil, Result, ok, raise,
  value_error, type_error, ◌==◌, if◌then◌else◌, string_eq, nat_eq, pair_eq,
}
use coruscant.Prelude.Dict
use coruscant.Graph.Types.{
  Value, str, int, float, bool, items, null, Properties, GraphNode, GraphEdge,
}
use coruscant.Graph.Memory.{Store, edges_by_relation}
use coruscant.Graph.Substrate.{get_str, as_of}
use Prim.Native.Nat.{◌/◌}
use Prim.Native.Char.{code}
use Prim.Native.String.{◌++◌ as ◌<>◌}

-- Python's operations on texts that stand on its tables of characters: `s.strip()`, `s.lower()`,
-- `s.upper()`, `int(s)` for a text (`none` is the ValueError), `str(v)` for a value that is no text,
-- and `f"{n:,}"`.
pub record Text : Type 0 where
  pub strip : String → String
  pub lower : String → String
  pub upper : String → String
  pub int_of : String → Option ℕ
  pub show : Value → String
  pub with_commas : ℕ → String

-- `_str_prop`
abbrev pub str_prop : Properties → String → Option String
str_prop props key = get_str key props

-- `_source_of`
abbrev pub provenance : Properties → Option String
provenance props = get_str "source" props

-- `isinstance(value, int)`: a truth value is an int too
abbrev pub as_int : Option Value → Option ℕ
as_int (some (int n)) = some n
as_int (some (bool b)) = some (if b then 1 else 0)
as_int _ = none

-- `float(raw) if isinstance(raw, (int, float)) else None`
abbrev pub as_float : Option Value → Option ℕ
as_float (some (int n)) = some (n * 10000)
as_float (some (float n)) = some n
as_float (some (bool b)) = some (if b then 10000 else 0)
as_float _ = none

-- `value if isinstance(value, bool) else None`
abbrev pub as_bool : Option Value → Option Bool
as_bool (some (bool b)) = some b
as_bool _ = none

-- `x or y` for texts
abbrev pub or_text : Option String → String → String
or_text none y = y
or_text (some x) y = if x == "" then y else x

-- `", ".join(str(d) for d in datasets) if isinstance(datasets, list) and datasets else None`
join : List String → String
join [] = ""
join (x ∷ []) = x
join (x ∷ y ∷ ys) = x <> ", " <> join (y ∷ ys)

unfoldable pub joined : Option Value → Option String
unfolding join
joined (some (items [])) = none
joined (some (items (x ∷ xs))) = some (join (x ∷ xs))
joined _ = none

module _ (t : Text) where
  -- `str(value)`
  abbrev pub text : Value → String
  text (str s) = s
  text v = t.show v

  -- `int(props.get(key) or 0)`
  unfoldable pub int_or_zero : Properties → String → Result ℕ
  int_or_zero props key = elim (Dict.get key props) [
    | none ↦ ok 0
    | some (str s) ↦
        if s == "" then ok 0 else elim (t.int_of s) [ none ↦ raise value_error | some n ↦ ok n ]
    | some (int n) ↦ ok n
    | some (float n) ↦ ok (n / 10000)
    | some (bool b) ↦ ok (if b then 1 else 0)
    | some (items xs) ↦ if is_nil xs then ok 0 else raise type_error
    | some null ↦ ok 0
  ]

  -- `str(props.get(key) or default)`
  unfoldable pub text_or : Properties → String → String → String
  text_or props key default = elim (Dict.get key props) [
    | none ↦ default
    | some (str s) ↦ if s == "" then default else s
    | some (int n) ↦ if n == 0 then default else t.show (int n)
    | some (float n) ↦ if n == 0 then default else t.show (float n)
    | some (bool b) ↦ if b then t.show (bool b) else default
    | some (items xs) ↦ if is_nil xs then default else t.show (items xs)
    | some null ↦ default
  ]

  -- `_detail_of`
  fact : Properties → List String → Option String
  fact props [] = none
  fact props (key ∷ rest) = elim (get_str key props) [
    | none ↦ fact props rest
    | some value ↦ if t.strip value == "" then fact props rest else some (t.strip value)
  ]

  unfoldable pub detail_of : Properties → Option String
  unfolding fact
  detail_of props = elim (as_int (Dict.get "shares" props)) [
    | none ↦ fact props ("role" ∷ "jurisdiction" ∷ "sector" ∷ [])
    | some shares ↦
        let held = t.with_commas shares <> " shares" in
        elim (get_str "role" props) [
          | none ↦ some held
          | some role ↦ some (if role == "" then held else role <> " · " <> held)
        ]
  ]

-- `value.replace("\xa0", " ")`
unfoldable pub replace_nbsp : String → String
replace_nbsp String.[] = String.[]
replace_nbsp (String.◌∷◌ c s) = String.◌∷◌ (if code c == 160 then " " else c) (replace_nbsp s)

-- `if as_of is not None: edges = substrate.as_of(edges, on=as_of)`
unfoldable pub as_of_date : Option String → List GraphEdge → List GraphEdge
as_of_date none edges = edges
as_of_date (some on) edges = as_of edges on

-- `next(iter(xs), None)`
abbrev pub first : {A : Type 0} → List A → Option A
first [] = none
first (x ∷ xs) = some x

-- `run.properties if run is not None else {}`
abbrev pub properties_of : Option GraphNode → Properties
properties_of none = []
properties_of (some node) = node.properties

-- `[e for rel in relations for e in store.edges_by_relation(rel)]`
unfoldable pub edges_of : Store → List String → List GraphEdge
edges_of s [] = []
edges_of s (relation ∷ rest) = edges_by_relation s relation ++ edges_of s rest
