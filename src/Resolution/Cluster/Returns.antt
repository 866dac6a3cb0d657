-- ===== src/Resolution/Cluster/Returns.antt =====
-- `cluster` returns for every log without a judgement of an entity against itself.
use coruscant.Prelude.{
  ℕ, ◌≡◌, refl, sym, subst, inl, inr, ◌≢◌, String, true, false, List, [], ◌∷◌, foldl, All, elem,
  arith, Bool-cases, Option-cases, ok, Result-cases, elem_iff, ◌==◌, ◌<=◌, string_eq, pair_eq,
  pair_same_iff, string_ord, pair_ord,
}
use coruscant.Prelude.Dict
use coruscant.Prelude.Dict.{Dict, set-All}
use coruscant.Prelude.Sort.{sort_by, Memᴰ-sort_by}
use coruscant.Graph.Types.{EntityId}
use coruscant.Resolution.Log.{Judgement, Pair, pair, endpoints, Resolver, supersede, current}
use coruscant.Resolution.Cluster.{
  Judged, Partition, component, judge, judge_all, partition, all_nodes, first_of, pinned_ids,
  itself, mint, any_same, ClusterResult, collect, collect_all, cluster,
}
use coruscant.Resolution.Cluster.Judgements.{judge_all-IsTaken}
use coruscant.Resolution.Cluster.Ids.{first_of-none}
use coruscant.Resolution.Cluster.Results.{partition-IsPartition, nothing, begin}

-- The judgement is of two entities.
abbrev pub IsProper : Judgement → Type 0
IsProper j = (endpoints j).0 ≢ (endpoints j).1

-- The entry is of two entities.
abbrev HasTwo : Pair × Judgement → Type 0
HasTwo entry = entry.0.0 ≢ entry.0.1

pair-HasTwo : (j : Judgement) → IsProper j → HasTwo (pair j, j)
unfolding pair
pair-HasTwo j h = elim (Bool-cases ((endpoints j).0 <= (endpoints j).1)) [
  | inl le ↦ rw le h
  | inr gt ↦ rw gt (λ p. h (sym p))
]

supersede-HasTwo :
    (eff : Dict Pair Judgement) (j : Judgement)
    → IsProper j
    → All HasTwo eff
    → All HasTwo (supersede eff j)
unfolding supersede
supersede-HasTwo eff j h k =
    let new =
      set-All HasTwo (pair j) j eff k
        (λ (p : Pair) (q : p ≡ pair j). subst (λ x. HasTwo (x, j)) (sym q) (pair-HasTwo j h)) in
    elim (Option-cases (Dict.get (pair j) eff)) [
      | inl e ↦ ground (arith, e, new, k)
      | inr (x, e) ↦ elim (Bool-cases (x.decided_at <= j.decided_at)) [
        | inl le ↦ ground (arith, e, le, new, k)
        | inr gt ↦ ground (arith, e, gt, new, k)
      ]
    ]

foldl-HasTwo :
    (eff : Dict Pair Judgement) (log : List Judgement)
    → All IsProper log
    → All HasTwo eff
    → All HasTwo (foldl supersede eff log)
foldl-HasTwo eff [] h k = k
foldl-HasTwo eff (j ∷ log) h k =
    foldl-HasTwo (supersede eff j) log h.1 (supersede-HasTwo eff j h.0 k)

judge-returns :
    (min_score : ℕ) (jd : Judged) (entry : Pair × Judgement)
    → HasTwo entry
    → (jd' : Judged) × (judge min_score jd entry ≡ ok jd')
unfolding judge
judge-returns min_score jd ((a, b), j) h =
    let ne : (a == b) ≡ false = ground (arith, pair_same_iff a b, h) in
    elim (Result-cases (judge min_score jd ((a, b), j))) [
      | inl r ↦ r
      | inr (x, stop) ↦ absurd (ground (arith, ne, stop))
    ]

judge_all-returns :
    (min_score : ℕ) (jd : Judged) (entries : Dict Pair Judgement)
    → All HasTwo entries
    → (jd' : Judged) × (judge_all min_score jd entries ≡ ok jd')
unfolding judge_all
judge_all-returns min_score jd [] h = (jd, refl)
judge_all-returns min_score jd (entry ∷ rest) h =
    let (next, e) = judge-returns min_score jd entry h.0 in
    let (out, f) = judge_all-returns min_score next rest h.1 in (out, ground (arith, e, f))

module _ (hex_digest : String → String) (pinned : Dict EntityId String) where
  mint-returns :
      (members : List EntityId) (n : EntityId)
      → elem n members ≡ true
      → (cid : String) × (mint hex_digest members pinned ≡ ok cid)
  unfolding mint
  mint-returns members n h = elim (Result-cases (mint hex_digest members pinned)) [
    | inl r ↦ r
    | inr (x, stop) ↦ elim (Option-cases (first_of (sort_by itself (pinned_ids pinned members)))) [
      | inr (cid, e) ↦ absurd (ground (arith, e, stop))
      | inl e ↦ elim (Option-cases (first_of (sort_by itself members))) [
        | inr (m, f) ↦ absurd (ground (arith, e, f, stop))
        | inl f ↦ absurd (
            first_of-none n (sort_by itself members) f
              ((Memᴰ-sort_by itself n members).1 ((elem_iff n members).0 h)))
      ]
    ]
  ]

  collect_all-returns :
      (u : Partition) (st : List (List EntityId) × ClusterResult) (nodes : List EntityId)
      → ((n : EntityId) → elem n (component u n) ≡ true)
      → (st' : List (List EntityId) × ClusterResult) × (collect_all hex_digest u pinned st nodes
          ≡ ok st')
  unfolding collect_all collect
  collect_all-returns u st [] self = (st, refl)
  collect_all-returns u (seen, result) (n ∷ nodes) self =
      let (cid, e) = mint-returns (component u n) n (self n) in
      elim (Result-cases (collect hex_digest u pinned (seen, result) n)) [
        | inr (x, stop) ↦ elim (Bool-cases (any_same (component u n) seen)) [
          | inl old ↦ absurd (ground (arith, old, stop))
          | inr new ↦ absurd (ground (arith, new, e, stop))
        ]
        | inl (next, f) ↦
            let (out, g) = collect_all-returns u next nodes self in (out, ground (arith, f, g))
      ]

-- If no judgement of the log is of an entity against itself, which `decide` refuses, then `cluster`
-- returns and raises nothing.
pub cluster-returns :
    (hex_digest : String → String) (r : Resolver) (min_score : ℕ) (pinned : Dict EntityId String)
    → All IsProper r.log
    → (result : ClusterResult) × (cluster hex_digest r min_score pinned ≡ ok result)
unfolding cluster current
cluster-returns hex_digest r min_score pinned h =
    let (jd, e) = judge_all-returns min_score nothing (current r) (foldl-HasTwo [] r.log h tt) in
    let (_, irr, _) = judge_all-IsTaken min_score nothing jd (current r) e (λ n. refl) in
    let parts = partition-IsPartition jd irr in
    let (st, f) =
      collect_all-returns hex_digest pinned (partition jd) (begin jd)
        (sort_by itself (all_nodes jd)) parts.self in
    (st.1, ground (arith, e, f))
