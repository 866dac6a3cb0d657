-- ===== src/Resolution/Cluster/Results.antt =====
-- What `cluster` returns.
use coruscant.Prelude.{
  ℕ, ◌≡◌, refl, sym, ap, ◌∙◌, subst, ◌⊎◌, inl, inr, ◌≤◌, String, true, some, List, [], ◌∷◌, Memᴰ,
  elem, elem-add, elem_iff, add, arith, Bool-cases, ok, Result-cases, ◌<=◌, string_eq, pair_eq,
  pair_same_iff, string_ord, pair_ord, descending_ord, ◌≢◌,
}
use mathlib.Core.List.Memᴰ
use coruscant.Prelude.Dict
use coruscant.Prelude.Dict.{Dict, mem_of_get}
use coruscant.Prelude.Sort.{sort_by, Memᴰ-sort_by}
use coruscant.Graph.Types.{EntityId}
use coruscant.Resolution.Log.{Judgement, same, different, Pair, pair_of, Resolver, current}
use coruscant.Resolution.Cluster.{
  Judged, ScoredEdge, apart, component, full_score, judge_all, edge_key, partition, with_ends,
  all_nodes, ClusterResult, itself, collect_all, cluster,
}
use coruscant.Resolution.Cluster.Parts.{IsPartition}
use coruscant.Resolution.Cluster.Rounds.{
  apart-IsPartition, rounds-IsPartition, rounds_settle, IsSettled,
}
use coruscant.Resolution.Cluster.Judgements.{
  Forbids, IsIrreflexive, IsTaken, judge_all-IsTaken, ok_inj,
}
use coruscant.Resolution.Cluster.Collect.{LiesIn, collect_all-IsCollected}

with_ends_keeps :
    (n : EntityId) (nodes : List EntityId) (edges : List ScoredEdge)
    → elem n nodes ≡ true
    → elem n (with_ends nodes edges) ≡ true
with_ends_keeps n nodes [] h = h
with_ends_keeps n nodes ((score, (a, b)) ∷ edges) h =
    with_ends_keeps n (add b (add a nodes)) edges
      (ground (arith, h, elem-add n b (add a nodes), elem-add n a nodes))

elem-with_ends :
    (e : ScoredEdge) (nodes : List EntityId) (edges : List ScoredEdge)
    → Memᴰ e edges
    → elem e.1.0 (with_ends nodes edges) ≡ true
elem-with_ends e nodes [] m = absurd (Memᴰ.not-nil m)
elem-with_ends e nodes ((score, (a, b)) ∷ edges) m = elim (Memᴰ.cases_cons m) [
  | inl p ↦ with_ends_keeps e.1.0 (add b (add a nodes)) edges (
      ground (
        arith,
        elem-add e.1.0 b (add a nodes),
        elem-add e.1.0 a nodes,
        pair_same_iff e.1.0 a,
        ap (λ (x : ScoredEdge). x.1.0) p,
      ))
  | inr t ↦ elem-with_ends e (add b (add a nodes)) edges t
]

-- What the three loops have made of the judgements, when they end with the result.
record Run (r : Resolver) (min_score : ℕ) (result : ClusterResult) : Type 0 where
  judged : Judged
  taken : (entry : Pair × Judgement) → Memᴰ entry (current r) → IsTaken min_score judged entry
  parts : IsPartition judged.forbidden (partition judged)
  settled :
      (e : ScoredEdge)
      → Memᴰ e judged.same_edges
      → IsSettled judged.forbidden e.1 (partition judged)
  components :
      (c : List EntityId)
      → Memᴰ c result.clusters
      → (n : EntityId) × (c ≡ component (partition judged) n)
  stopped : result.blocked ≡ (partition judged).blocked
  covered :
      (n : EntityId)
      → elem n (all_nodes judged) ≡ true
      → LiesIn (component (partition judged) n) result.clusters

abbrev pub nothing : Judged
nothing = record { same_edges = []; forbidden = [] }

abbrev pub begin : Judged → List (List EntityId) × ClusterResult
begin jd = ([], record { clusters = []; canonical_id = []; blocked = (partition jd).blocked })

pub partition-IsPartition :
    (jd : Judged) → IsIrreflexive jd → IsPartition jd.forbidden (partition jd)
unfolding partition
partition-IsPartition jd irr =
    rounds-IsPartition jd.forbidden apart (sort_by edge_key jd.same_edges)
      (apart-IsPartition jd.forbidden irr)

partition_settles :
    (jd : Judged) (e : ScoredEdge)
    → IsIrreflexive jd
    → Memᴰ e jd.same_edges
    → IsSettled jd.forbidden e.1 (partition jd)
unfolding partition
partition_settles jd e irr m =
    rounds_settle jd.forbidden apart (sort_by edge_key jd.same_edges) e
      (apart-IsPartition jd.forbidden irr) ((Memᴰ-sort_by edge_key e jd.same_edges).1 m)

module _ (hex_digest : String → String) (r : Resolver) (min_score : ℕ)
    (pinned : Dict EntityId String) {result : ClusterResult}
    (returned : cluster hex_digest r min_score pinned ≡ ok result) where
  run : Run r min_score result
  unfolding cluster
  run = elim (Result-cases (judge_all min_score nothing (current r))) [
    | inr (x, stop) ↦ absurd (ground (arith, stop, returned))
    | inl (jd, e) ↦
        let (_, irr, taken) = judge_all-IsTaken min_score nothing jd (current r) e (λ n. refl) in
        elim (Result-cases (
          collect_all hex_digest (partition jd) pinned (begin jd)
            (sort_by itself (all_nodes jd)))) [
              | inr (x, stop) ↦ absurd (ground (arith, e, stop, returned))
              | inl (st, f) ↦
                  let g : ok st.1 ≡ ok result = ground (arith, e, f, returned) in
                  let ((components, _, stopped), _, all) =
                    collect_all-IsCollected hex_digest (partition jd) pinned (begin jd) st
                      (sort_by itself (all_nodes jd)) f
                      (λ c m. absurd (Memᴰ.not-nil m), λ c m. m, refl) in
                  subst (Run r min_score) (ok_inj g) (record {
                    judged = jd;
                    taken = taken;
                    parts = partition-IsPartition jd irr;
                    settled = λ e m. partition_settles jd e irr m;
                    components = components;
                    stopped = stopped;
                    covered = λ n m. all n (
                        (Memᴰ-sort_by itself n (all_nodes jd)).1 ((elem_iff n (all_nodes jd)).0 m));
                  })
            ]
  ]

  -- When `cluster` returns, no cluster holds two entities, in either order, that the judgement in
  -- effect on them says are different.
  pub cluster_keeps_apart :
      (c : List EntityId) (x y : EntityId) (j : Judgement)
      → Memᴰ c result.clusters
      → elem x c ≡ true
      → elem y c ≡ true
      → Dict.get (pair_of x y) (current r) ≡ some j
      → j.verdict ≢ different
  cluster_keeps_apart c x y j m hx hy effect v =
      let w = run in
      let (n, p) = w.components c m in
      let ix : elem x (component (partition w.judged) n) ≡ true =
        subst (λ l. elem x l ≡ true) p hx in
      let iy : elem y (component (partition w.judged) n) ≡ true =
        subst (λ l. elem y l ≡ true) p hy in
      let (one, other) =
        (w.taken (pair_of x y, j) (mem_of_get (pair_of x y) j (current r) effect)).0 v in
      elim (Bool-cases (x <= y)) [
        | inl le ↦
            let q : pair_of x y ≡ (x, y) = rw le refl in
            absurd (
              cc (
                sym (subst (λ (z : Pair). Forbids w.judged.forbidden z.0 z.1) q one)
                ∙ w.parts.free x n y ix iy))
        | inr gt ↦
            let q : pair_of x y ≡ (y, x) = rw gt refl in
            absurd (
              cc (
                sym (subst (λ (z : Pair). Forbids w.judged.forbidden z.1 z.0) q other)
                ∙ w.parts.free x n y ix iy))
      ]

  -- When `cluster` returns, no `same` judgement in effect with enough score is passed over: its two
  -- entities are in one cluster, or their edge is reported as blocked.
  pub cluster_settles :
      (p : Pair) (j : Judgement)
      → Dict.get p (current r) ≡ some j
      → j.verdict ≡ same
      → min_score ≤ full_score j.score
      → Memᴰ p result.blocked
        ⊎ ((c : List EntityId) × Memᴰ c result.clusters × (elem p.0 c ≡ true) × (elem p.1 c ≡ true))
  cluster_settles p j effect v le =
      let w = run in
      let edge = (w.taken (p, j) (mem_of_get p j (current r) effect)).1 v le in
      elim (w.settled (full_score j.score, p) edge) [
        | inr m ↦ inl (subst (Memᴰ p) (sym w.stopped) m)
        | inl t ↦
            let (c, m, within) = w.covered p.0 (
              elem-with_ends (full_score j.score, p) (Dict.keys w.judged.forbidden)
                w.judged.same_edges edge) in
            inr (c, m, within p.0 (w.parts.self p.0), within p.1 t)
      ]

  -- When `cluster` returns, two clusters with an entity in common are the same cluster.
  pub clusters_disjoint :
      (c d : List EntityId) (x : EntityId)
      → Memᴰ c result.clusters
      → Memᴰ d result.clusters
      → elem x c ≡ true
      → elem x d ≡ true
      → c ≡ d
  clusters_disjoint c d x m k hx hy =
      let w = run in
      let (n, p) = w.components c m in
      let (o, q) = w.components d k in
      p
      ∙ sym (w.parts.shared x n (subst (λ l. elem x l ≡ true) p hx))
      ∙ w.parts.shared x o (subst (λ l. elem x l ≡ true) q hy)
      ∙ sym q
