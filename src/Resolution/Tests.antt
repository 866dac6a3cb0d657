-- ===== src/Resolution/Tests.antt =====
-- Runs of the resolver, and each theorem at a concrete log.
use coruscant.Prelude.{
  ℕ, ◌≡◌, refl, ◌⊎◌, ◌≢◌, String, true, Option, none, some, List, [], ◌∷◌, Memᴰ, elem, add, ok,
  str_le, arith, string_eq, pair_eq, string_ord, pair_ord, inl, inr, pair_same_iff,
}
use mathlib.Core.List.Memᴰ
use coruscant.Prelude.Dict
use coruscant.Prelude.Sort.{sort_by}
use coruscant.Graph.Types.{EntityId}
use coruscant.Resolution.Log.{
  Judgement, Verdict, same, different, pair, pair_of, Resolver, decide, retract, supersede, current,
}
use coruscant.Resolution.Log.Latest.{IsLatest, current-IsLatest}
use coruscant.Resolution.Log.Decisions.{IsNow}
use coruscant.Resolution.Cluster.{
  forbid, judge, judge_all, component, barred_of, is_one_object, merge, unite, partition,
  ClusterResult, mint, collect, collect_all, cluster,
}
use coruscant.Resolution.Cluster.Ids.{HasPinned, cluster_keeps_ids}
use coruscant.Resolution.Cluster.Returns.{cluster-returns}
use coruscant.Resolution.Cluster.Results.{cluster_keeps_apart, cluster_settles, clusters_disjoint}

program : Unit {0}
unfolding pair decide retract supersede current forbid judge judge_all component barred_of
    is_one_object merge unite partition mint collect collect_all cluster sort_by str_le add
program = tt

abbrev a : EntityId
a = ("Company", "a")

abbrev b : EntityId
b = ("Company", "b")

abbrev c : EntityId
c = ("Person", "c")

abbrev judged : EntityId → EntityId → Verdict → Option ℕ → Judgement
judged left right verdict score = record {
  left_kind = left.0;
  left_key = left.1;
  right_kind = right.0;
  right_key = right.1;
  verdict = verdict;
  score = score;
  method = "manual";
  decided_by = "system";
  decided_at = "2026-01-02";
  note = none;
}

abbrev same_ab : Judgement
same_ab = judged b a same (some 9_000)

abbrev same_bc : Judgement
same_bc = judged b c same (some 8_000)

-- `b` would bridge `a` and `c`, which are different.
abbrev bridge : Resolver
bridge = record { log = same_ab ∷ same_bc ∷ judged a c different none ∷ [] }

abbrev bridge_result : ClusterResult
bridge_result = record {
  clusters = (a ∷ b ∷ []) ∷ (c ∷ []) ∷ [];
  canonical_id =
      (a, "cid-Company\u{1f}a") ∷ (b, "cid-Company\u{1f}a") ∷ (c, "cid-Person\u{1f}c") ∷ [];
  blocked = (b, c) ∷ [];
}

abbrev plain : String → String
plain s = s

bridge_clusters : cluster plain bridge 5_000 [] ≡ ok bridge_result
unfolding program
bridge_clusters = refl

effect_ab : Dict.get (pair_of a b) (current bridge) ≡ some same_ab
unfolding program
effect_ab = refl

effect_bc : Dict.get (b, c) (current bridge) ≡ some same_bc
unfolding program
effect_bc = refl

current-IsLatest_example :
    ((Dict.get (a, b) (current bridge) ≡ none)
      × ((j : Judgement) → Memᴰ j bridge.log → pair j ≢ (a, b)))
    ⊎ ((j : Judgement) × (Dict.get (a, b) (current bridge) ≡ some j) × IsLatest (a, b) bridge.log j)
current-IsLatest_example = current-IsLatest bridge (a, b)

abbrev single : Resolver
single = record { log = same_ab ∷ [] }

a_not_b : a ≢ b
a_not_b = λ p. cc ((pair_same_iff a b).1 p)

single-IsNow : IsNow (pair_of a b) "2026-01-03" single
unfolding program
single-IsNow k m p = elim (Memᴰ.cases_cons m) [
  | inl q ↦ rw q refl
  | inr t ↦ absurd (Memᴰ.not-nil t)
]

cluster_keeps_apart_example : same ≢ different
cluster_keeps_apart_example =
    cluster_keeps_apart plain bridge 5_000 [] bridge_clusters (a ∷ b ∷ []) a b same_ab
      (Memᴰ.head refl) refl refl effect_ab

cluster_settles_example :
    Memᴰ (b, c) bridge_result.blocked
    ⊎ ((d : List EntityId) × Memᴰ d bridge_result.clusters × (elem b d ≡ true) × (elem c d ≡ true))
cluster_settles_example =
    cluster_settles plain bridge 5_000 [] bridge_clusters (b, c) same_bc effect_bc refl
      (omega arith)

clusters_disjoint_example : (a ∷ b ∷ []) ≡ (a ∷ b ∷ [])
clusters_disjoint_example =
    clusters_disjoint plain bridge 5_000 [] bridge_clusters (a ∷ b ∷ []) (a ∷ b ∷ []) b
      (Memᴰ.head refl) (Memᴰ.head refl) refl refl

b_not_a : b ≢ a
b_not_a = λ p. cc ((pair_same_iff b a).1 p)

b_not_c : b ≢ c
b_not_c = λ p. cc ((pair_same_iff b c).1 p)

a_not_c : a ≢ c
a_not_c = λ p. cc ((pair_same_iff a c).1 p)

cluster-returns_example : (result : ClusterResult) × (cluster plain bridge 5_000 [] ≡ ok result)
cluster-returns_example = cluster-returns plain bridge 5_000 [] (b_not_a, (b_not_c, (a_not_c, tt)))

-- `b` has an id from before.
abbrev before : Dict.Dict EntityId String
before = (b, "cid-old") ∷ []

abbrev pinned_result : ClusterResult
pinned_result = record {
  clusters = (a ∷ b ∷ []) ∷ (c ∷ []) ∷ [];
  canonical_id = (a, "cid-old") ∷ (b, "cid-old") ∷ (c, "cid-Person\u{1f}c") ∷ [];
  blocked = (b, c) ∷ [];
}

pinned_clusters : cluster plain bridge 5_000 before ≡ ok pinned_result
unfolding program
pinned_clusters = refl

cluster_keeps_ids_example :
    (cid : String) × ((x : EntityId)
      → elem x (a ∷ b ∷ []) ≡ true
      → Dict.get x pinned_result.canonical_id ≡ some cid)
    × ((m : EntityId) (i : String)
        → elem m (a ∷ b ∷ []) ≡ true
        → Dict.get m before ≡ some i
        → HasPinned before (a ∷ b ∷ []) cid)
cluster_keeps_ids_example =
    cluster_keeps_ids plain bridge 5_000 before pinned_clusters (a ∷ b ∷ []) (Memᴰ.head refl)
