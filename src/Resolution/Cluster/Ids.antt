-- ===== src/Resolution/Cluster/Ids.antt =====
-- Canonical ids are stable: a cluster with a pinned member keeps a pinned id.
use coruscant.Prelude.{
  ◌≡◌, refl, sym, ap, ◌∙◌, subst, inl, inr, ℕ, String, true, none, some, List, [], ◌∷◌, Memᴰ, elem,
  elem-add, elem_iff, arith, Bool-cases, Option-cases, ◌==◌, ok, Result-cases, string_eq, pair_eq,
  pair_same_iff, string_ord, pair_ord, some_inj, ==_refl,
}
use text.Mathlib.TextEquality.{eq_iff}
use mathlib.Core.List.Memᴰ
use coruscant.Prelude.Dict
use coruscant.Prelude.Dict.{Dict}
use coruscant.Prelude.Sort.{sort_by, Memᴰ-sort_by}
use coruscant.Graph.Types.{EntityId}
use coruscant.Resolution.Log.{Resolver, current}
use coruscant.Resolution.Cluster.{
  ClusterResult, mint, collect_all, judge_all, itself, first_of, pinned_ids, partition, all_nodes,
  cluster,
}
use coruscant.Resolution.Cluster.Judgements.{judge_all-IsTaken, ok_inj}
use coruscant.Resolution.Cluster.Results.{partition-IsPartition, nothing, begin}
use coruscant.Resolution.Cluster.Names.{collect_all-IsSigned}

-- A member has the id pinned.
abbrev pub HasPinned : Dict EntityId String → List EntityId → String → Type 0
HasPinned pinned members cid =
    (m : EntityId) × (elem m members ≡ true) × (Dict.get m pinned ≡ some cid)

first_of-mem : {A : Type 0} (x : A) (xs : List A) → first_of xs ≡ some x → Memᴰ x xs
first_of-mem x [] e = absurd (cc e)
first_of-mem x (y ∷ ys) e = Memᴰ.head (sym (some_inj e))

pub first_of-none : {A : Type 0} (x : A) (xs : List A) → first_of xs ≡ none → ¬ Memᴰ x xs
first_of-none x [] e = λ m. Memᴰ.not-nil m
first_of-none x (y ∷ ys) e = absurd (cc e)

pinned_ids-HasPinned :
    (pinned : Dict EntityId String) (members : List EntityId) (cid : String)
    → elem cid (pinned_ids pinned members) ≡ true
    → HasPinned pinned members cid
pinned_ids-HasPinned pinned [] cid h = absurd (cc h)
pinned_ids-HasPinned pinned (m ∷ ms) cid h = elim (Option-cases (Dict.get m pinned)) [
  | inl e ↦
      let (k, t, g) = pinned_ids-HasPinned pinned ms cid (ground (arith, e, h)) in
      (k, ground (arith, t), g)
  | inr (i, e) ↦ elim (Bool-cases (cid == i)) [
    | inl same ↦ (m, ground (arith, ==_refl m), e ∙ ap some (sym ((eq_iff cid i).0 same)))
    | inr other ↦
        let old : elem cid (pinned_ids pinned ms) ≡ true =
          ground (arith, e, h, other, elem-add cid i (pinned_ids pinned ms)) in
        let (k, t, g) = pinned_ids-HasPinned pinned ms cid old in (k, ground (arith, t), g)
  ]
]

elem-pinned_ids :
    (pinned : Dict EntityId String) (members : List EntityId) (m : EntityId) (i : String)
    → elem m members ≡ true
    → Dict.get m pinned ≡ some i
    → elem i (pinned_ids pinned members) ≡ true
elem-pinned_ids pinned [] m i h e = absurd (cc h)
elem-pinned_ids pinned (n ∷ ns) m i h e = elim (Bool-cases (m == n)) [
  | inl same ↦
      let f : Dict.get n pinned ≡ some i =
        ap (λ x. Dict.get x pinned) (sym ((pair_same_iff m n).0 same)) ∙ e in
      ground (arith, f, elem-add i i (pinned_ids pinned ns), ==_refl i)
  | inr other ↦
      let rest = elem-pinned_ids pinned ns m i (ground (arith, other, h)) e in
      elim (Option-cases (Dict.get n pinned)) [
        | inl f ↦ ground (arith, f, rest)
        | inr (j, f) ↦ ground (arith, f, rest, elem-add i j (pinned_ids pinned ns))
      ]
]

mint-HasPinned :
    (hex_digest : String → String) (pinned : Dict EntityId String) (members : List EntityId)
    (cid : String) (m : EntityId) (i : String)
    → mint hex_digest members pinned ≡ ok cid
    → elem m members ≡ true
    → Dict.get m pinned ≡ some i
    → HasPinned pinned members cid
unfolding mint
mint-HasPinned hex_digest pinned members cid m i h k e =
    let ids = pinned_ids pinned members in
    elim (Option-cases (first_of (sort_by itself ids))) [
      | inl f ↦ absurd (
          first_of-none i (sort_by itself ids) f (
            (Memᴰ-sort_by itself i ids).1
              ((elem_iff i ids).0 (elem-pinned_ids pinned members m i k e))))
      | inr (j, f) ↦
          let p : ok j ≡ ok cid = ground (arith, f, h) in
          let at = (Memᴰ-sort_by itself j ids).0 (first_of-mem j (sort_by itself ids) f) in
          subst (HasPinned pinned members) (ok_inj p)
            (pinned_ids-HasPinned pinned members j ((elem_iff j ids).1 at))
    ]

-- When `cluster` returns, all members of a cluster have one canonical id in the result, and if any
-- of them has a pinned id, it is the pinned id of a member.
pub cluster_keeps_ids :
    (hex_digest : String → String) (r : Resolver) (min_score : ℕ) (pinned : Dict EntityId String)
    {result : ClusterResult}
    → cluster hex_digest r min_score pinned ≡ ok result
    → (c : List EntityId) → Memᴰ c result.clusters
    → (cid : String) × ((x : EntityId)
        → elem x c ≡ true
        → Dict.get x result.canonical_id ≡ some cid)
      × ((m : EntityId) (i : String)
          → elem m c ≡ true
          → Dict.get m pinned ≡ some i
          → HasPinned pinned c cid)
unfolding cluster
cluster_keeps_ids hex_digest r min_score pinned {result} returned c m =
    elim (Result-cases (judge_all min_score nothing (current r))) [
      | inr (x, stop) ↦ absurd (ground (arith, stop, returned))
      | inl (jd, e) ↦
          let (_, irr, _) = judge_all-IsTaken min_score nothing jd (current r) e (λ n. refl) in
          let parts = partition-IsPartition jd irr in
          elim (Result-cases (
            collect_all hex_digest (partition jd) pinned (begin jd)
              (sort_by itself (all_nodes jd)))) [
                | inr (x, stop) ↦ absurd (ground (arith, e, stop, returned))
                | inl (st, f) ↦
                    let g : ok st.1 ≡ ok result = ground (arith, e, f, returned) in
                    let signed =
                      collect_all-IsSigned hex_digest (partition jd) pinned parts.self parts.shared
                        (begin jd) st (sort_by itself (all_nodes jd)) f
                        (λ d n. absurd (Memᴰ.not-nil n)) in
                    let (_, _, (cid, made, all)) =
                      signed c
                        (subst (λ (y : ClusterResult). Memᴰ c y.clusters) (sym (ok_inj g)) m) in
                    (
                      cid,
                      λ x k.
                          subst (λ (y : ClusterResult). Dict.get x y.canonical_id ≡ some cid)
                            (ok_inj g) (all x k),
                      λ n i k p. mint-HasPinned hex_digest pinned c cid n i made k p,
                    )
              ]
    ]
