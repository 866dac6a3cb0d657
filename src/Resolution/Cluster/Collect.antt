-- ===== src/Resolution/Cluster/Collect.antt =====
-- The last loop of `cluster` collects each component once.
use coruscant.Prelude.{
  ◌≡◌, refl, sym, subst, inl, inr, String, true, ◌&&◌, List, [], ◌∷◌, ◌++◌, foldl, Memᴰ,
  Memᴰ-append, elem, arith, Bool-cases, ok, Result-cases, string_eq, pair_eq,
}
use mathlib.Core.List.Memᴰ
use coruscant.Prelude.Dict
use coruscant.Prelude.Dict.{Dict}
use coruscant.Graph.Types.{EntityId}
use coruscant.Resolution.Sets.{is_subset, is_subset_lem}
use coruscant.Resolution.Cluster.{
  Partition, component, ClusterResult, any_same, mint, collect, collect_all,
}
use coruscant.Resolution.Cluster.Judgements.{ok_inj}

-- The set lies in one of the list.
abbrev pub LiesIn : List EntityId → List (List EntityId) → Type 0
LiesIn comp cs =
    (c : List EntityId) × Memᴰ c cs × ((x : EntityId) → elem x comp ≡ true → elem x c ≡ true)

any_same_lem :
    (comp : List EntityId) (cs : List (List EntityId)) → any_same comp cs ≡ true → LiesIn comp cs
any_same_lem comp [] h = absurd (cc h)
any_same_lem comp (c ∷ cs) h = elim (Bool-cases (is_subset comp c && is_subset c comp)) [
  | inl e ↦ (c, Memᴰ.head refl, λ x m. is_subset_lem x comp c (ground (arith, e)) m)
  | inr e ↦ let (d, m, k) = any_same_lem comp cs (ground (arith, e, h)) in (d, Memᴰ.tail m, k)
]

module _ (hex_digest : String → String) (u : Partition) (pinned : Dict EntityId String) where
  -- The clusters are components, what has been seen is a cluster, and the blocked edges are the
  -- partition's.
  abbrev pub IsCollected : List (List EntityId) × ClusterResult → Type 0
  IsCollected (seen, result) =
      ((c : List EntityId) → Memᴰ c result.clusters → (n : EntityId) × (c ≡ component u n))
      × ((c : List EntityId) → Memᴰ c seen → Memᴰ c result.clusters)
      × (result.blocked ≡ u.blocked)

  abbrev Step :
      List (List EntityId) × ClusterResult
      → EntityId
      → List (List EntityId) × ClusterResult
      → Type 0
  Step st node st' =
      IsCollected st'
      × ((c : List EntityId) → Memᴰ c st.1.clusters → Memᴰ c st'.1.clusters)
      × LiesIn (component u node) st'.1.clusters

  collect-Step :
      (st st' : List (List EntityId) × ClusterResult) (node : EntityId)
      → collect hex_digest u pinned st node ≡ ok st'
      → IsCollected st
      → Step st node st'
  unfolding collect
  collect-Step (seen, result) st' node h (parts, kept, b) =
      let comp = component u node in
      elim (Bool-cases (any_same comp seen)) [
        | inl old ↦
            let e : ok (seen, result) ≡ ok st' = ground (arith, old, h) in
            let (c, m, k) = any_same_lem comp seen old in
            subst (Step (seen, result) node) (ok_inj e)
              ((parts, kept, b), λ c m. m, (c, kept c m, k))
        | inr new ↦ elim (Result-cases (mint hex_digest comp pinned)) [
          | inr (x, stop) ↦ absurd (ground (arith, new, stop, h))
          | inl (cid, minted) ↦
              let result' : ClusterResult = record result {
                clusters = result.clusters ++ comp ∷ [];
                canonical_id = foldl (λ ids m. Dict.set m cid ids) result.canonical_id comp;
              } in
              let e : ok (comp ∷ seen, result') ≡ ok st' = ground (arith, new, minted, h) in
              let at = Memᴰ-append comp result.clusters (comp ∷ []) in
              subst (Step (seen, result) node) (ok_inj e) (
                (
                  λ c m. elim ((Memᴰ-append c result.clusters (comp ∷ [])).0 m) [
                    | inl l ↦ parts c l
                    | inr r ↦ elim (Memᴰ.cases_cons r) [
                      | inl p ↦ (node, p)
                      | inr t ↦ absurd (Memᴰ.not-nil t)
                    ]
                  ],
                  λ c m. elim (Memᴰ.cases_cons m) [
                    | inl p ↦ (Memᴰ-append c result.clusters (comp ∷ [])).1 (inr (Memᴰ.head p))
                    | inr t ↦ (Memᴰ-append c result.clusters (comp ∷ [])).1 (inl (kept c t))
                  ],
                  b,
                ),
                λ c m. (Memᴰ-append c result.clusters (comp ∷ [])).1 (inl m),
                (comp, at.1 (inr (Memᴰ.head refl)), λ x m. m),
              )
        ]
      ]

  pub collect_all-IsCollected :
      (st st' : List (List EntityId) × ClusterResult) (nodes : List EntityId)
      → collect_all hex_digest u pinned st nodes ≡ ok st'
      → IsCollected st
      → IsCollected st'
        × ((c : List EntityId) → Memᴰ c st.1.clusters → Memᴰ c st'.1.clusters)
        × ((n : EntityId) → Memᴰ n nodes → LiesIn (component u n) st'.1.clusters)
  unfolding collect_all
  collect_all-IsCollected st st' [] h w =
      subst
        (λ (x : List (List EntityId) × ClusterResult).
          IsCollected x
          × ((c : List EntityId) → Memᴰ c st.1.clusters → Memᴰ c x.1.clusters)
          × ((n : EntityId) → Memᴰ n [] → LiesIn (component u n) x.1.clusters))
        (ok_inj h) (w, λ c m. m, λ n m. absurd (Memᴰ.not-nil m))
  collect_all-IsCollected st st' (node ∷ nodes) h w =
      elim (Result-cases (collect hex_digest u pinned st node)) [
        | inr (x, stop) ↦ absurd (ground (arith, stop, h))
        | inl (next, e) ↦
            let (w1, more1, (c, m, k)) = collect-Step st next node e w in
            let (w2, more2, all) =
              collect_all-IsCollected next st' nodes (ground (arith, e, h)) w1 in
            (
              w2,
              λ d n. more2 d (more1 d n),
              λ n t. elim (Memᴰ.cases_cons t) [
                | inl p ↦
                    subst (λ y. LiesIn (component u y) st'.1.clusters) (sym p) (c, more2 c m, k)
                | inr r ↦ all n r
              ],
            )
      ]
