-- ===== src/Graph/Types.antt =====
-- `GraphNode` and `GraphEdge` of common/types.py.
use coruscant.Prelude.{ℕ, String, Bool, List}
use coruscant.Prelude.Dict.{Dict}

-- The property values that the program reads and writes. Numbers are not negative; a `float` is a
-- count of ten-thousandths.
pub data Value : Type 0 where
  str : String → Value
  int : ℕ → Value
  float : ℕ → Value
  bool : Bool → Value
  items : List String → Value
  null : Value

abbrev pub Properties : Type 0
Properties = Dict String Value

-- (kind, key)
abbrev pub EntityId : Type 0
EntityId = String × String

pub record GraphNode : Type 0 where
  pub kind : String
  pub key : String
  pub properties : Properties

pub record GraphEdge : Type 0 where
  pub source_kind : String
  pub source_key : String
  pub relation : String
  pub target_kind : String
  pub target_key : String
  pub properties : Properties
