-- ===== src/Resolution/Cluster/Rounds.antt =====
-- Every round of the second loop of `cluster` keeps the partition, and settles its pair.
use coruscant.Prelude.{
  ◌≡◌, refl, sym, ap, subst, ◌⊎◌, inl, inr, true, false, ◌||◌, ◌&&◌, List, [], ◌∷◌, ◌++◌, foldl,
  Memᴰ, Memᴰ-append, elem, arith, Bool-cases, ==_refl, string_eq, pair_eq, pair_same_iff,
}
use mathlib.Core.List.Memᴰ
use coruscant.Prelude.Dict.{Dict}
use coruscant.Graph.Types.{EntityId}
use coruscant.Resolution.Sets.{union, meets, elem-union}
use coruscant.Resolution.Cluster.{
  ScoredEdge, Partition, apart, forbidden_of, component, barred_of, is_one_object, merge, unite,
}
use coruscant.Resolution.Cluster.Parts.{
  IsPartition, merge-IsPartition, component-in, component-out, merged_closed,
}

module _ (forbidden : Dict EntityId (List EntityId)) where
  pub apart-IsPartition :
      ((n : EntityId) → elem n (forbidden_of forbidden n) ≡ false) → IsPartition forbidden apart
  unfolding component barred_of
  apart-IsPartition irreflexive = record {
    self = λ n. ground (arith, ==_refl n);
    shared = λ m n h. ground (arith, h, pair_same_iff m n);
    barred = λ m n h. ap (forbidden_of forbidden) ((pair_same_iff m n).0 (ground (arith, h)));
    bars = λ m n k h f.
        subst (λ x. elem k (forbidden_of forbidden x) ≡ true)
          ((pair_same_iff m n).0 (ground (arith, h))) f;
    free = λ m n k h l.
        let p : m ≡ n = (pair_same_iff m n).0 (ground (arith, h)) in
        let q : k ≡ n = (pair_same_iff k n).0 (ground (arith, l)) in rw (p, q) (irreflexive n);
  }

  abbrev block : EntityId → EntityId → Partition → Partition
  block a b u = record u { blocked = u.blocked ++ (a, b) ∷ [] }

  block-IsPartition :
      (u : Partition) (a b : EntityId)
      → IsPartition forbidden u
      → IsPartition forbidden (block a b u)
  unfolding component barred_of
  block-IsPartition u a b w = record {
    self = w.self;
    shared = w.shared;
    barred = w.barred;
    bars = w.bars;
    free = w.free;
  }

  -- What one round does, without its tests.
  abbrev Outcome : Partition → EntityId → EntityId → Partition → Type 0
  Outcome u a b u' =
      ((u' ≡ u) × (elem b (component u a) ≡ true))
      ⊎ ((u' ≡ block a b u)
          ⊎ ((meets (component u a) (barred_of forbidden u b) ≡ false)
              × (meets (component u b) (barred_of forbidden u a) ≡ false)
              × (u'
                  ≡ merge (union (component u a) (component u b))
                      (union (barred_of forbidden u a) (barred_of forbidden u b)) u)))

  unite-cases : (u : Partition) (e : ScoredEdge) → Outcome u e.1.0 e.1.1 (unite forbidden u e)
  unfolding unite
  unite-cases u (score, (a, b)) =
      let one = is_one_object u a b && (elem a (component u a) && elem b (component u a)) in
      let stop =
        meets (component u a) (barred_of forbidden u b)
        || meets (component u b) (barred_of forbidden u a) in
      elim (Bool-cases one) [
        | inl h ↦ inl (rw h refl, ground (arith, h))
        | inr h ↦ elim (Bool-cases stop) [
          | inl k ↦ inr (inl (rw (h, k) refl))
          | inr k ↦ inr (inr (ground (arith, k), ground (arith, k), rw (h, k) refl))
        ]
      ]

  -- The two are in one component, or their edge is blocked.
  abbrev pub IsSettled : EntityId × EntityId → Partition → Type 0
  IsSettled (a, b) u = (elem b (component u a) ≡ true) ⊎ Memᴰ (a, b) u.blocked

  unite-IsPartition :
      (u : Partition) (e : ScoredEdge)
      → IsPartition forbidden u
      → IsPartition forbidden (unite forbidden u e)
  unite-IsPartition u e w = elim (unite-cases u e) [
    | inl (p, _) ↦ subst (IsPartition forbidden) (sym p) w
    | inr (inl p) ↦ subst (IsPartition forbidden) (sym p) (block-IsPartition u e.1.0 e.1.1 w)
    | inr (inr (clear, clear', p)) ↦
        subst (IsPartition forbidden) (sym p)
          (merge-IsPartition forbidden u w e.1.0 e.1.1 clear clear')
  ]

  block-IsSettled :
      (u : Partition) (a b : EntityId) (x : EntityId × EntityId)
      → IsSettled x u
      → IsSettled x (block a b u)
  unfolding component
  block-IsSettled u a b x (inl h) = inl h
  block-IsSettled u a b x (inr m) = inr ((Memᴰ-append x u.blocked ((a, b) ∷ [])).1 (inl m))

  merge-IsSettled :
      (u : Partition) (a b : EntityId) (x : EntityId × EntityId)
      → IsPartition forbidden u
      → meets (component u a) (barred_of forbidden u b) ≡ false
      → meets (component u b) (barred_of forbidden u a) ≡ false
      → IsSettled x u
      → IsSettled x (
          merge
            (union (component u a) (component u b))
            (union (barred_of forbidden u a) (barred_of forbidden u b))
            u)
  unfolding merge
  merge-IsSettled u a b x w clear clear' (inr m) = inr m
  merge-IsSettled u a b x w clear clear' (inl k) =
      elim (Bool-cases (elem x.0 (union (component u a) (component u b)))) [
        | inl h ↦ inl (
            subst (λ c. elem x.1 c ≡ true) (sym (component-in forbidden u w a b clear clear' x.0 h))
              (merged_closed forbidden u w a b clear clear' x.1 x.0 h k))
        | inr h ↦ inl (
            subst (λ c. elem x.1 c ≡ true)
              (sym (component-out forbidden u w a b clear clear' x.0 h)) k)
      ]

  -- What is settled stays settled.
  unite-IsSettled :
      (u : Partition) (e : ScoredEdge) (x : EntityId × EntityId)
      → IsPartition forbidden u
      → IsSettled x u
      → IsSettled x (unite forbidden u e)
  unite-IsSettled u (score, (a, b)) x w h = elim (unite-cases u (score, (a, b))) [
    | inl (p, _) ↦ subst (IsSettled x) (sym p) h
    | inr (inl p) ↦ subst (IsSettled x) (sym p) (block-IsSettled u a b x h)
    | inr (inr (clear, clear', p)) ↦
        subst (IsSettled x) (sym p) (merge-IsSettled u a b x w clear clear' h)
  ]

  -- A round settles its own edge.
  unite_settles :
      (u : Partition) (e : ScoredEdge)
      → IsPartition forbidden u
      → IsSettled e.1 (unite forbidden u e)
  unite_settles u (score, (a, b)) w = elim (unite-cases u (score, (a, b))) [
    | inl (p, h) ↦ subst (IsSettled (a, b)) (sym p) (inl h)
    | inr (inl p) ↦
        subst (IsSettled (a, b)) (sym p)
          (inr ((Memᴰ-append (a, b) u.blocked ((a, b) ∷ [])).1 (inr (Memᴰ.head refl))))
    | inr (inr (clear, clear', p)) ↦
        let both = λ (n : EntityId). elem-union n (component u a) (component u b) in
        subst (IsSettled (a, b)) (sym p) (
          inl (
            subst (λ c. elem b c ≡ true)
              (sym
                (component-in forbidden u w a b clear clear' a (ground (arith, both a, w.self a))))
              (ground (arith, both b, w.self b))))
  ]

  rounds-IsSettled :
      (u : Partition) (edges : List ScoredEdge) (x : EntityId × EntityId)
      → IsPartition forbidden u
      → IsSettled x u
      → IsSettled x (foldl (unite forbidden) u edges)
  rounds-IsSettled u [] x w h = h
  rounds-IsSettled u (e ∷ es) x w h =
      rounds-IsSettled (unite forbidden u e) es x (unite-IsPartition u e w)
        (unite-IsSettled u e x w h)

  pub rounds-IsPartition :
      (u : Partition) (edges : List ScoredEdge)
      → IsPartition forbidden u
      → IsPartition forbidden (foldl (unite forbidden) u edges)
  rounds-IsPartition u [] w = w
  rounds-IsPartition u (e ∷ es) w =
      rounds-IsPartition (unite forbidden u e) es (unite-IsPartition u e w)

  pub rounds_settle :
      (u : Partition) (edges : List ScoredEdge) (e : ScoredEdge)
      → IsPartition forbidden u
      → Memᴰ e edges
      → IsSettled e.1 (foldl (unite forbidden) u edges)
  rounds_settle u [] e w m = absurd (Memᴰ.not-nil m)
  rounds_settle u (x ∷ xs) e w m = elim (Memᴰ.cases_cons m) [
    | inl p ↦
        subst (λ (y : ScoredEdge). IsSettled y.1 (foldl (unite forbidden) u (x ∷ xs))) (sym p)
          (rounds-IsSettled (unite forbidden u x) xs x.1 (unite-IsPartition u x w)
            (unite_settles u x w))
    | inr t ↦ rounds_settle (unite forbidden u x) xs e (unite-IsPartition u x w) t
  ]
