-- ===== src/Resolution/Cluster/Names.antt =====
-- The canonical ids that `cluster` gives: one for each cluster, and a pinned one where there is one.
use coruscant.Prelude.{
  ◌≡◌, refl, sym, ◌∙◌, subst, inl, inr, String, true, false, some, List, [], ◌∷◌, ◌++◌, foldl, Memᴰ,
  Memᴰ-append, elem, arith, Bool-cases, if◌then◌else◌, ok, Result-cases, string_eq, pair_eq,
  pair_same_iff, string_ord, ==_refl,
}
use mathlib.Core.List.Memᴰ
use coruscant.Prelude.Dict
use coruscant.Prelude.Dict.{Dict, get-set}
use coruscant.Graph.Types.{EntityId}
use coruscant.Resolution.Sets.{is_subset}
use coruscant.Resolution.Cluster.{
  Partition, component, ClusterResult, any_same, mint, collect, collect_all,
}
use coruscant.Resolution.Cluster.Judgements.{ok_inj}

get-foldl :
    (cid : String) (comp : List EntityId) (ids : Dict EntityId String) (x : EntityId)
    → Dict.get x (foldl (λ d m. Dict.set m cid d) ids comp)
      ≡ (if elem x comp then some cid else Dict.get x ids)
get-foldl cid [] ids x = refl
get-foldl cid (m ∷ ms) ids x = ground (
  arith,
  get-foldl cid ms (Dict.set m cid ids) x,
  get-set m x cid ids,
  pair_same_iff m x,
  pair_same_iff x m,
)

is_subset-of :
    (xs ys : List EntityId)
    → ((a : EntityId) → elem a xs ≡ true → elem a ys ≡ true)
    → is_subset xs ys ≡ true
is_subset-of [] ys h = refl
is_subset-of (x ∷ xs) ys h =
    let rest = is_subset-of xs ys (λ a m. h a (ground (arith, m))) in
    ground (arith, rest, h x (ground (arith, ==_refl x)))

any_same-mem :
    (comp : List EntityId) (cs : List (List EntityId)) → Memᴰ comp cs → any_same comp cs ≡ true
any_same-mem comp [] m = absurd (Memᴰ.not-nil m)
any_same-mem comp (c ∷ cs) m = elim (Memᴰ.cases_cons m) [
  | inl p ↦
      let one = is_subset-of comp c (λ a h. subst (λ l. elem a l ≡ true) p h) in
      let two = is_subset-of c comp (λ a h. subst (λ l. elem a l ≡ true) (sym p) h) in
      ground (arith, one, two)
  | inr t ↦ ground (arith, any_same-mem comp cs t)
]

module _ (hex_digest : String → String) (u : Partition) (pinned : Dict EntityId String)
    (self : (n : EntityId) → elem n (component u n) ≡ true)
    (shared : (m n : EntityId)
      → elem m (component u n) ≡ true
      → component u m ≡ component u n) where
  -- Every member of the set has the id that is minted for it.
  abbrev pub IsNamed : List EntityId → Dict EntityId String → Type 0
  IsNamed c ids =
      (cid : String) × (mint hex_digest c pinned ≡ ok cid)
      × ((x : EntityId) → elem x c ≡ true → Dict.get x ids ≡ some cid)

  abbrev pub IsSigned : List (List EntityId) × ClusterResult → Type 0
  IsSigned (seen, result) =
      (c : List EntityId)
      → Memᴰ c result.clusters
      → Memᴰ c seen × ((n : EntityId) × (c ≡ component u n)) × IsNamed c result.canonical_id

  -- A component that has not been seen has no member with an id that is kept.
  fresh :
      (seen : List (List EntityId)) (node n x : EntityId) (c : List EntityId)
      → any_same (component u node) seen ≡ false
      → Memᴰ c seen
      → c ≡ component u n
      → elem x c ≡ true
      → elem x (component u node) ≡ false
  fresh seen node n x c new m p h = elim (Bool-cases (elem x (component u node))) [
    | inr e ↦ e
    | inl e ↦
        let q : c ≡ component u node =
          p ∙ sym (shared x n (subst (λ l. elem x l ≡ true) p h)) ∙ shared x node e in
        absurd
          (cc (sym (any_same-mem (component u node) seen (subst (λ l. Memᴰ l seen) q m)) ∙ new))
  ]

  collect-IsSigned :
      (st st' : List (List EntityId) × ClusterResult) (node : EntityId)
      → collect hex_digest u pinned st node ≡ ok st'
      → IsSigned st
      → IsSigned st'
  unfolding collect
  collect-IsSigned (seen, result) st' node h w =
      let comp = component u node in
      elim (Bool-cases (any_same comp seen)) [
        | inl old ↦
            let e : ok (seen, result) ≡ ok st' = ground (arith, old, h) in
            subst IsSigned (ok_inj e) w
        | inr new ↦ elim (Result-cases (mint hex_digest comp pinned)) [
          | inr (x, stop) ↦ absurd (ground (arith, new, stop, h))
          | inl (cid, minted) ↦
              let ids = foldl (λ d m. Dict.set m cid d) result.canonical_id comp in
              let result' : ClusterResult = record result {
                clusters = result.clusters ++ comp ∷ [];
                canonical_id = ids;
              } in
              let e : ok (comp ∷ seen, result') ≡ ok st' = ground (arith, new, minted, h) in
              subst IsSigned (ok_inj e) (λ c m.
                elim ((Memᴰ-append c result.clusters (comp ∷ [])).0 m) [
                  | inl l ↦
                      let (s, (n, p), (id, made, all)) = w c l in
                      (
                        Memᴰ.tail s,
                        (n, p),
                        (
                          id,
                          made,
                          λ x k. ground (
                            arith,
                            get-foldl cid comp result.canonical_id x,
                            fresh seen node n x c new s p k,
                            all x k,
                          ),
                        ),
                      )
                  | inr r ↦ elim (Memᴰ.cases_cons r) [
                    | inr t ↦ absurd (Memᴰ.not-nil t)
                    | inl p ↦
                        subst
                          (λ d.
                            Memᴰ d (comp ∷ seen)
                            × ((n : EntityId) × (d ≡ component u n))
                            × IsNamed d ids)
                          (sym p)
                          (
                            Memᴰ.head refl,
                            (node, refl),
                            (
                              cid,
                              minted,
                              λ x k. ground (arith, get-foldl cid comp result.canonical_id x, k),
                            ),
                          )
                  ]
                ])
        ]
      ]

  pub collect_all-IsSigned :
      (st st' : List (List EntityId) × ClusterResult) (nodes : List EntityId)
      → collect_all hex_digest u pinned st nodes ≡ ok st'
      → IsSigned st
      → IsSigned st'
  unfolding collect_all
  collect_all-IsSigned st st' [] h w = subst IsSigned (ok_inj h) w
  collect_all-IsSigned st st' (n ∷ nodes) h w =
      elim (Result-cases (collect hex_digest u pinned st n)) [
        | inr (x, stop) ↦ absurd (ground (arith, stop, h))
        | inl (next, e) ↦
            collect_all-IsSigned next st' nodes (ground (arith, e, h))
              (collect-IsSigned st next n e w)
      ]
