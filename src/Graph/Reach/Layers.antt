-- ===== src/Graph/Reach/Layers.antt =====
-- The search of `reachable` goes through the nodes in layers.
use coruscant.Prelude.{
  ℕ, suc, ◌+◌, ◌≤◌, ◌<◌, ◌≡◌, refl, sym, ap, ◌∙◌, subst, ◌⊎◌, inl, inr, String, Bool, true, false,
  none, some, List, [], ◌∷◌, ◌++◌, map, foldl, length, length-append, Memᴰ, Memᴰ-map, Memᴰ-append,
  count_if, count_if-lt, arith, Bool-cases, Option-cases, some_inj, ◌==◌, string_eq, pair_eq,
  pair_same_iff,
}
use mathlib.Core.List.Memᴰ
use coruscant.Prelude.Dict
use coruscant.Prelude.Dict.{get-set}
use coruscant.Graph.Types.{EntityId}
use coruscant.Graph.Memory.{Store, source_of, target_of}
use coruscant.Graph.Reach.{Distances, reach_one}
use coruscant.Graph.Reach.Walks.{IsStep, IsWalk, onward}

-- The node has a distance of at most `n`.
abbrev pub Has : Distances → EntityId → ℕ → Type 0
Has dist v n = (k : ℕ) × (Dict.get v dist ≡ some k) × (k ≤ n)

abbrev pub Extends : Distances → Distances → Type 0
Extends dist later = (v : EntityId) (k : ℕ) → Dict.get v dist ≡ some k → Dict.get v later ≡ some k

-- The distances in the queue do not fall, and lie between the bounds.
abbrev pub IsRising : Distances → ℕ → ℕ → List EntityId → Type 0
IsRising dist low high [] = Unit
IsRising dist low high (v ∷ vs) =
    (k : ℕ) × (Dict.get v dist ≡ some k) × (low ≤ k) × (k ≤ high) × IsRising dist k high vs

pub IsRising-le :
    (dist : Distances) (low high high' : ℕ) (vs : List EntityId)
    → high ≤ high'
    → IsRising dist low high vs
    → IsRising dist low high' vs
IsRising-le dist low high high' [] h k = tt
IsRising-le dist low high high' (v ∷ vs) h (k, e, l, u, r) =
    (k, e, l, omega arith, IsRising-le dist k high high' vs h r)

IsRising-later :
    (dist later : Distances) (low high : ℕ) (vs : List EntityId)
    → Extends dist later
    → IsRising dist low high vs
    → IsRising later low high vs
IsRising-later dist later low high [] x k = tt
IsRising-later dist later low high (v ∷ vs) x (k, e, l, u, r) =
    (k, x v k e, l, u, IsRising-later dist later k high vs x r)

IsRising-concat :
    (dist : Distances) (low high : ℕ) (vs : List EntityId) (w : EntityId)
    → low ≤ high
    → Dict.get w dist ≡ some high
    → IsRising dist low high vs
    → IsRising dist low high (vs ++ w ∷ [])
IsRising-concat dist low high [] w h e k = (high, e, h, omega arith, tt)
IsRising-concat dist low high (v ∷ vs) w h e (k, f, l, u, r) =
    (k, f, l, u, IsRising-concat dist k high vs w u e r)

abbrev pub is_new : Distances → EntityId → Bool
is_new dist v = elim (Dict.get v dist) [ none ↦ true | some _ ↦ false ]

module _ (s : Store) (relation direction : String) (max_hops : ℕ) (start : EntityId) where
  abbrev pub ends : List EntityId
  ends = map source_of s.edges ++ map target_of s.edges

  -- How many nodes the loop can still take.
  abbrev pub weight : List EntityId × Distances → ℕ
  weight (queue, dist) = length queue + count_if (is_new dist) ends

  IsStep-mem-ends : {v w : EntityId} → IsStep s relation direction v w → Memᴰ w ends
  IsStep-mem-ends {w} t =
      (Memᴰ-append w (map source_of s.edges) (map target_of s.edges)).1 (elim t.ends [
        | inl e ↦ inr ((Memᴰ-map target_of w s.edges).1 (t.edge, t.stored, sym e.2))
        | inr e ↦ inl ((Memᴰ-map source_of w s.edges).1 (t.edge, t.stored, sym e.2))
      ])

  -- Each node one step on has a distance of at most one more.
  abbrev pub IsExpanded : Distances → EntityId → ℕ → Type 0
  IsExpanded dist v k =
      k < max_hops → (w : EntityId) → IsStep s relation direction v w → Has dist w (k + 1)

  -- At the depth `d`; the node `current` is the one that is being expanded.
  pub record IsLayered (current : EntityId → Type 0) (d : ℕ) (st : List EntityId × Distances)
      : Type 0 where
    pub rising : IsRising st.1 d (d + 1) st.0
    pub done :
        (v : EntityId) (k : ℕ)
        → Dict.get v st.1 ≡ some k
        → Memᴰ v st.0 ⊎ (IsExpanded st.1 v k ⊎ current v)
    pub known : (v : EntityId) (k : ℕ) → Dict.get v st.1 ≡ some k → k ≤ d + 1
    pub sound :
        (v : EntityId) (k : ℕ)
        → Dict.get v st.1 ≡ some k
        → IsWalk s relation direction start v k × (k ≤ max_hops)
    pub begun : Dict.get start st.1 ≡ some 0

  Extends-new :
      (dist : Distances) (n : EntityId) (k : ℕ)
      → Dict.get n dist ≡ none
      → Extends dist (Dict.set n k dist)
  Extends-new dist n k new v j e = elim (Bool-cases (n == v)) [
    | inl same ↦ absurd (cc (sym new ∙ ap (λ x. Dict.get x dist) ((pair_same_iff n v).0 same) ∙ e))
    | inr other ↦ ground (arith, other, e, get-set n v k dist)
  ]

  is_new-set-lt :
      (dist : Distances) (n : EntityId) (k : ℕ)
      → Dict.get n dist ≡ none
      → Memᴰ n ends
      → count_if (is_new (Dict.set n k dist)) ends < count_if (is_new dist) ends
  is_new-set-lt dist n k new m =
      count_if-lt (is_new dist) (is_new (Dict.set n k dist))
        (λ x h. ground (arith, h, get-set n x k dist)) n ends m (ground (arith, new))
        (ground (arith, get-set n n k dist, pair_same_iff n n))

  abbrev pub Reached :
      (EntityId → Type 0) → ℕ → List EntityId × Distances → List EntityId × Distances → Type 0
  Reached current d st st' = Extends st.1 st'.1 × IsLayered current d st' × (weight st' ≤ weight st)

  IsExpanded-later :
      (dist later : Distances) (v : EntityId) (k : ℕ)
      → Extends dist later
      → IsExpanded dist v k
      → IsExpanded later v k
  IsExpanded-later dist later v k x w near n t = let (j, e, l) = w near n t in (j, x n j e, l)

  -- A node that is new is put at the end of the queue.
  put-IsLayered :
      (current : EntityId → Type 0) (d : ℕ) (queue : List EntityId) (dist : Distances)
      (n : EntityId)
      → IsLayered current d (queue, dist)
      → Dict.get n dist ≡ none
      → IsWalk s relation direction start n (d + 1) × (d + 1 ≤ max_hops)
      → IsLayered current d (queue ++ n ∷ [], Dict.set n (d + 1) dist)
  put-IsLayered current d queue dist n w new walk =
      let later : Distances = Dict.set n (d + 1) dist in
      let x = Extends-new dist n (d + 1) new in
      let at : Dict.get n later ≡ some (d + 1) =
        ground (arith, get-set n n (d + 1) dist, pair_same_iff n n) in
      let split : (v : EntityId) (k : ℕ)
          → Dict.get v later ≡ some k
          → ((v ≡ n) × (k ≡ d + 1)) ⊎ (Dict.get v dist ≡ some k) =
        λ v k e. elim (Bool-cases (n == v)) [
          | inl same ↦
              let p : v ≡ n = sym ((pair_same_iff n v).0 same) in
              inl (p, some_inj (sym e ∙ ap (λ y. Dict.get y later) p ∙ at))
          | inr other ↦ inr (ground (arith, other, e, get-set n v (d + 1) dist))
        ] in
      record {
        rising =
            IsRising-concat later d (d + 1) queue n (omega arith) at
              (IsRising-later dist later d (d + 1) queue x w.rising);
        done = λ v k e. elim (split v k e) [
          | inl (p, q) ↦ inl ((Memᴰ-append v queue (n ∷ [])).1 (inr (Memᴰ.head p)))
          | inr f ↦ elim (w.done v k f) [
            | inl m ↦ inl ((Memᴰ-append v queue (n ∷ [])).1 (inl m))
            | inr (inl t) ↦ inr (inl (IsExpanded-later dist later v k x t))
            | inr (inr c) ↦ inr (inr c)
          ]
        ];
        known =
            λ v k e. elim (split v k e) [ inl (p, q) ↦ omega (arith, q) | inr f ↦ w.known v k f ];
        sound = λ v k e. elim (split v k e) [
          | inl (p, q) ↦
              subst (λ y. IsWalk s relation direction start y k × (k ≤ max_hops)) (sym p)
                (subst (λ j. IsWalk s relation direction start n j × (j ≤ max_hops)) (sym q) walk)
          | inr f ↦ w.sound v k f
        ];
        begun = x start 0 w.begun;
      }

  reach_one-Reached :
      (current : EntityId → Type 0) (d : ℕ) (v n : EntityId) (st : List EntityId × Distances)
      → IsLayered current d st
      → IsWalk s relation direction start v d
      → d < max_hops
      → IsStep s relation direction v n
      → Reached current d st (reach_one s relation direction d st n)
        × Has (reach_one s relation direction d st n).1 n (d + 1)
  unfolding reach_one
  reach_one-Reached current d v n (queue, dist) w walk near t =
      let one_more : suc d ≡ d + 1 = omega arith in
      let goal = λ (st' : List EntityId × Distances).
        Reached current d (queue, dist) st' × Has st'.1 n (d + 1) in
      elim (Option-cases (Dict.get n dist)) [
        | inr (k, e) ↦
            let f : ◌≡◌ {A = List EntityId × Distances}
                (reach_one s relation direction d (queue, dist) n) (queue, dist) =
              ground (arith, e) in
            subst goal (sym f) (((λ v k h. h), w, omega arith), (k, e, w.known n k e))
        | inl new ↦
            let later : Distances = Dict.set n (d + 1) dist in
            let f : ◌≡◌ {A = List EntityId × Distances}
                (reach_one s relation direction d (queue, dist) n) (queue ++ n ∷ [], later) =
              ground (arith, new) in
            subst goal (sym f) (
              (
                Extends-new dist n (d + 1) new,
                put-IsLayered current d queue dist n w new (
                  subst (IsWalk s relation direction start n) one_more (onward walk t),
                  omega arith,
                ),
                omega (
                  arith,
                  is_new-set-lt dist n (d + 1) new (IsStep-mem-ends t),
                  length-append queue (n ∷ []),
                ),
              ),
              (d + 1, ground (arith, get-set n n (d + 1) dist, pair_same_iff n n), omega arith),
            )
      ]

  pub reach_each-Reached :
      (current : EntityId → Type 0) (d : ℕ) (v : EntityId) (ns : List EntityId)
      (st : List EntityId × Distances)
      → IsLayered current d st
      → IsWalk s relation direction start v d
      → d < max_hops
      → ((n : EntityId) → Memᴰ n ns → IsStep s relation direction v n)
      → Reached current d st (foldl (reach_one s relation direction d) st ns)
        × ((n : EntityId)
            → Memᴰ n ns
            → Has (foldl (reach_one s relation direction d) st ns).1 n (d + 1))
  reach_each-Reached current d v [] st w walk near t =
      (((λ v k h. h), w, omega arith), λ n m. absurd (Memᴰ.not-nil m))
  reach_each-Reached current d v (n ∷ ns) st w walk near t =
      let ((x1, w1, l1), (k, e, u)) =
        reach_one-Reached current d v n st w walk near (t n (Memᴰ.head refl)) in
      let ((x2, w2, l2), has) =
        reach_each-Reached current d v ns (reach_one s relation direction d st n) w1 walk near
          (λ m q. t m (Memᴰ.tail q)) in
      (
        ((λ v k h. x2 v k (x1 v k h)), w2, omega arith),
        λ m q. elim (Memᴰ.cases_cons q) [
          | inl p ↦ (
            k,
            ap (λ y. Dict.get y ((foldl (reach_one s relation direction d) st (n ∷ ns)).1)) p
                ∙ x2 n k e,
            u,
          )
          | inr r ↦ has m r
        ],
      )
