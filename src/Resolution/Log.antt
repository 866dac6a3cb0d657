-- ===== src/Resolution/Log.antt =====
-- `Judgement` and `Resolver` of knowledge_graph/resolution.py: a log that is only appended to, and the
-- judgements that are in effect.
pub mod Latest
pub mod Decisions
use coruscant.Prelude.{
  ℕ, String, Bool, Option, none, some, List, [], ◌∷◌, ◌++◌, foldl, ◌==◌, ◌<=◌, if◌then◌else◌,
  Result, ok, raise, value_error, string_eq, pair_eq, string_ord, pair_ord,
}
use coruscant.Prelude.Dict
use coruscant.Prelude.Dict.{Dict}
use coruscant.Graph.Types.{EntityId}

pub data Verdict : Type 0 where
  same different undecided : Verdict

-- A score is a count of ten-thousandths.
pub record Judgement : Type 0 where
  pub left_kind : String
  pub left_key : String
  pub right_kind : String
  pub right_key : String
  pub verdict : Verdict
  pub score : Option ℕ
  pub method : String
  pub decided_by : String
  pub decided_at : String
  pub note : Option String

-- A set of two entities is the pair of them in order; an entity judged against itself gives a pair of
-- equal components.
abbrev pub Pair : Type 0
Pair = EntityId × EntityId

abbrev pub pair_of : EntityId → EntityId → Pair
pair_of a b = if a <= b then (a, b) else (b, a)

abbrev pub endpoints : Judgement → EntityId × EntityId
endpoints j = ((j.left_kind, j.left_key), (j.right_kind, j.right_key))

-- `Judgement.pair`
unfoldable pub pair : Judgement → Pair
pair j = pair_of (endpoints j).0 (endpoints j).1

-- `Resolver`
pub record Resolver : Type 0 where
  pub log : List Judgement

-- `decide`, which returns the new judgement and changes the log
unfoldable pub decide :
    EntityId
    → EntityId
    → Verdict
    → String
    → Option ℕ
    → String
    → String
    → Option String
    → Resolver
    → Result (Judgement × Resolver)
decide left right verdict decided_at score method decided_by note r =
    if left == right
    then raise value_error
    else (let judgement : Judgement = record {
      left_kind = left.0;
      left_key = left.1;
      right_kind = right.0;
      right_key = right.1;
      verdict = verdict;
      score = score;
      method = method;
      decided_by = decided_by;
      decided_at = decided_at;
      note = note;
    } in
        ok (judgement, record { log = r.log ++ judgement ∷ [] }))

unfoldable pub retract :
    EntityId → EntityId → String → String → Option String → Resolver → Result (Judgement × Resolver)
unfolding decide
retract left right decided_at decided_by note =
    decide left right undecided decided_at none "retraction" decided_by note

-- The body of the `for` loop of `current`.
unfoldable pub supersede : Dict Pair Judgement → Judgement → Dict Pair Judgement
supersede effective judgement = elim (Dict.get (pair judgement) effective) [
  | none ↦ Dict.set (pair judgement) judgement effective
  | some prior ↦
      if prior.decided_at <= judgement.decided_at
      then Dict.set (pair judgement) judgement effective
      else effective
]

unfoldable pub current : Resolver → Dict Pair Judgement
unfolding supersede
current r = foldl supersede [] r.log
