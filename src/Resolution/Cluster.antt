-- ===== src/Resolution/Cluster.antt =====
-- `cluster` of knowledge_graph/resolution.py: entities that are judged the same are united in order of
-- their scores, unless a judgement that keeps two entities apart stands in between.
pub mod Parts
pub mod Rounds
pub mod Judgements
pub mod Collect
pub mod Results
pub mod Returns
pub mod Names
pub mod Ids
use coruscant.Prelude.{
  ℕ, zero, suc, ◌+◌, String, Bool, true, false, ◌&&◌, ◌||◌, Option, none, some, List, [], ◌∷◌, ◌++◌,
  foldl, map, elem, add, leb, ◌==◌, ◌<=◌, if◌then◌else◌, Result, ok, raise, value_error, ◌>>=◌,
  string_eq, pair_eq, nat_eq, string_ord, pair_ord, Descending, descending_ord, keep,
}
use coruscant.Prelude.Dict
use coruscant.Prelude.Dict.{Dict}
use coruscant.Prelude.Sort.{sort_by}
use Prim.Native.String.{◌++◌ as str_append, String as Text}
use coruscant.Graph.Types.{EntityId}
use coruscant.Resolution.Sets.{union, meets, is_subset}
use coruscant.Resolution.Log.{Judgement, same, different, undecided, Pair, Resolver, current}

abbrev pub ScoredEdge : Type 0
ScoredEdge = ℕ × (EntityId × EntityId)

-- `same_edges` and `forbidden`
pub record Judged : Type 0 where
  pub same_edges : List ScoredEdge
  pub forbidden : Dict EntityId (List EntityId)

abbrev pub forbidden_of : Dict EntityId (List EntityId) → EntityId → List EntityId
forbidden_of d a = Dict.get_or a [] d

-- `forbidden.setdefault(a, set()).add(b)`
unfoldable pub forbid :
    EntityId → EntityId → Dict EntityId (List EntityId) → Dict EntityId (List EntityId)
forbid a b d = Dict.set a (add b (forbidden_of d a)) d

abbrev pub full_score : Option ℕ → ℕ
full_score none = 10_000
full_score (some x) = x

-- The body of the first `for` loop. `a, b = sorted(pair)` raises for a pair of one entity.
unfoldable pub judge : ℕ → Judged → Pair × Judgement → Result Judged
judge min_score jd ((a, b), j) =
    if a == b
    then raise value_error
    else ok (elim j.verdict [
      | different ↦ record jd { forbidden = forbid b a (forbid a b jd.forbidden) }
      | same ↦
          if leb min_score (full_score j.score)
          then record jd { same_edges = jd.same_edges ++ (full_score j.score, (a, b)) ∷ [] }
          else jd
      | undecided ↦ jd
    ])

unfoldable pub judge_all : ℕ → Judged → Dict Pair Judgement → Result Judged
judge_all min_score jd [] = ok jd
judge_all min_score jd (entry ∷ rest) = do
  jd' ← judge min_score jd entry
  judge_all min_score jd' rest

-- A frozenset, and which object it is.
pub record Object : Type 0 where
  pub ident : ℕ
  pub contents : List EntityId

-- `members`, `barred` and `blocked`, and the number of objects so far
pub record Partition : Type 0 where
  pub members : EntityId → Option Object
  pub barred : EntityId → Option (List EntityId)
  pub blocked : List (EntityId × EntityId)
  pub objects : ℕ

abbrev pub apart : Partition
apart = record { members = λ _. none; barred = λ _. none; blocked = []; objects = 0 }

-- `component(node)[0]`
unfoldable pub component : Partition → EntityId → List EntityId
component u n = elim (u.members n) [ none ↦ n ∷ [] | some o ↦ o.contents ]

-- `component(node)[1]`
unfoldable pub barred_of : Dict EntityId (List EntityId) → Partition → EntityId → List EntityId
barred_of forbidden u n = elim (u.barred n) [ none ↦ forbidden_of forbidden n | some b ↦ b ]

-- `component(a)[0] is component(b)[0]`: a set that is made on the spot is no other object
unfoldable pub is_one_object : Partition → EntityId → EntityId → Bool
is_one_object u a b = elim (u.members a) [
  | none ↦ false
  | some o ↦ elim (u.members b) [ none ↦ false | some o' ↦ o.ident == o'.ident ]
]

-- `for node in merged: members[node] = merged; barred[node] = merged_bar`
unfoldable pub merge : List EntityId → List EntityId → Partition → Partition
merge merged bar u = record {
  members = λ n.
      if elem n merged then some (record { ident = u.objects; contents = merged }) else u.members n;
  barred = λ n. if elem n merged then some bar else u.barred n;
  blocked = u.blocked;
  objects = u.objects + 1;
}

-- The body of the second `for` loop.
unfoldable pub unite : Dict EntityId (List EntityId) → Partition → ScoredEdge → Partition
unite forbidden u (score, (a, b)) =
    let ma = component u a in
    let mb = component u b in
    let ba = barred_of forbidden u a in
    let bb = barred_of forbidden u b in
    if is_one_object u a b && (elem a ma && elem b ma)
    then u
    else (if meets ma bb || meets mb ba
        then record u { blocked = u.blocked ++ (a, b) ∷ [] }
        else merge (union ma mb) (union ba bb) u)

-- `(-score, a, b)`
abbrev pub edge_key : ScoredEdge → Descending × (EntityId × EntityId)
edge_key (score, ends) = (record { rank = score }, ends)

unfoldable pub partition : Judged → Partition
partition jd = foldl (unite jd.forbidden) apart (sort_by edge_key jd.same_edges)

-- `all_nodes`
abbrev pub with_ends : List EntityId → List ScoredEdge → List EntityId
with_ends nodes [] = nodes
with_ends nodes ((score, (a, b)) ∷ edges) = with_ends (add b (add a nodes)) edges

abbrev pub all_nodes : Judged → List EntityId
all_nodes jd = with_ends (Dict.keys jd.forbidden) jd.same_edges

-- `comp in seen`, for sets of sets
abbrev pub any_same : List EntityId → List (List EntityId) → Bool
any_same comp [] = false
any_same comp (c ∷ cs) = is_subset comp c && is_subset c comp || any_same comp cs

pub record ClusterResult : Type 0 where
  pub clusters : List (List EntityId)
  pub canonical_id : Dict EntityId String
  pub blocked : List (EntityId × EntityId)

-- `s[:n]`
abbrev pub take_text : ℕ → String → String
take_text zero s = ""
take_text (suc n) Text.[] = ""
take_text (suc n) (Text.◌∷◌ c s) = Text.◌∷◌ c (take_text n s)

abbrev pub first_of : {A : Type 0} → List A → Option A
first_of [] = none
first_of (x ∷ xs) = some x

-- `{pinned[m] for m in members if m in pinned}`
abbrev pub pinned_ids : Dict EntityId String → List EntityId → List String
pinned_ids pinned [] = []
pinned_ids pinned (m ∷ ms) = elim (Dict.get m pinned) [
  | none ↦ pinned_ids pinned ms
  | some i ↦ add i (pinned_ids pinned ms)
]

abbrev pub itself : {A : Type 0} → A → A
itself x = x

-- The code hashes with SHA-256; `hex_digest` stands for it.
module _ (hex_digest : String → String) where
  -- `_mint`; `min` of nothing raises
  unfoldable pub mint : List EntityId → Dict EntityId String → Result String
  mint members pinned = elim (first_of (sort_by itself (pinned_ids pinned members))) [
    | some existing ↦ ok existing
    | none ↦ elim (first_of (sort_by itself members)) [
      | none ↦ raise value_error
      | some (kind, key) ↦ ok (
          str_append "cid-" (take_text 12 (hex_digest (str_append kind (str_append "\u{1f}" key)))))
    ]
  ]

  module _ (u : Partition) (pinned : Dict EntityId String) where
    -- The body of the last `for` loop, on `seen` and the result.
    unfoldable pub collect :
        List (List EntityId) × ClusterResult
        → EntityId
        → Result (List (List EntityId) × ClusterResult)
    collect (seen, result) node =
        let comp = component u node in
        if any_same comp seen then ok (seen, result) else (do
          cid ← mint comp pinned
          ok (
            comp ∷ seen,
            record result {
              clusters = result.clusters ++ comp ∷ [];
              canonical_id = foldl (λ ids m. Dict.set m cid ids) result.canonical_id comp;
            },
          ))

    unfoldable pub collect_all :
        List (List EntityId) × ClusterResult
        → List EntityId
        → Result (List (List EntityId) × ClusterResult)
    collect_all st [] = ok st
    collect_all st (node ∷ nodes) = do st' ← collect st node; collect_all st' nodes

  -- `cluster`, with `{}` for pinned ids that are not given
  unfoldable pub cluster : Resolver → ℕ → Dict EntityId String → Result ClusterResult
  cluster r min_score pinned = do
    jd ← judge_all min_score (record { same_edges = []; forbidden = [] }) (current r)
    let u = partition jd
    st ←
        collect_all u pinned ([], record { clusters = []; canonical_id = []; blocked = u.blocked })
          (sort_by itself (all_nodes jd))
    ok st.1
