-- ===== src/Resolution/Cluster/Parts.antt =====
-- The components are the parts of a partition that keeps forbidden pairs apart.
use coruscant.Prelude.{
  ◌≡◌, sym, ◌∙◌, subst, ◌⊎◌, inl, inr, true, false, List, elem, arith, Bool-cases, if◌then◌else◌,
  string_eq, pair_eq,
}
use coruscant.Prelude.Dict.{Dict}
use coruscant.Graph.Types.{EntityId}
use coruscant.Resolution.Sets.{union, meets, elem-union, meets_lem}
use coruscant.Resolution.Cluster.{Partition, forbidden_of, component, barred_of, merge}

module _ (forbidden : Dict EntityId (List EntityId)) where
  -- Each entity is in its component, the entities of a component have it in common, what is forbidden
  -- to one of them is barred from it, and none of them is forbidden to another.
  pub record IsPartition (u : Partition) : Type 0 where
    pub self : (n : EntityId) → elem n (component u n) ≡ true
    pub shared : (m n : EntityId) → elem m (component u n) ≡ true → component u m ≡ component u n
    pub barred :
        (m n : EntityId)
        → elem m (component u n) ≡ true
        → barred_of forbidden u m ≡ barred_of forbidden u n
    pub bars :
        (m n k : EntityId)
        → elem m (component u n) ≡ true
        → elem k (forbidden_of forbidden m) ≡ true
        → elem k (barred_of forbidden u n) ≡ true
    pub free :
        (m n k : EntityId)
        → elem m (component u n) ≡ true
        → elem k (component u n) ≡ true
        → elem k (forbidden_of forbidden m) ≡ false

  component-merge :
      (merged bar : List EntityId) (u : Partition) (n : EntityId)
      → component (merge merged bar u) n ≡ (if elem n merged then merged else component u n)
  unfolding component merge
  component-merge merged bar u n = ground arith

  barred_of-merge :
      (merged bar : List EntityId) (u : Partition) (n : EntityId)
      → barred_of forbidden (merge merged bar u) n
        ≡ (if elem n merged then bar else barred_of forbidden u n)
  unfolding barred_of merge
  barred_of-merge merged bar u n = ground arith

  module _ (u : Partition) (w : IsPartition u) (a b : EntityId)
      (clear : meets (component u a) (barred_of forbidden u b) ≡ false)
      (clear' : meets (component u b) (barred_of forbidden u a) ≡ false) where
    abbrev pub merged : List EntityId
    merged = union (component u a) (component u b)

    abbrev pub bar : List EntityId
    bar = union (barred_of forbidden u a) (barred_of forbidden u b)

    abbrev pub after : Partition
    after = merge merged bar u

    merged-cases :
        (n : EntityId)
        → elem n merged ≡ true
        → (elem n (component u a) ≡ true) ⊎ (elem n (component u b) ≡ true)
    merged-cases n h = ground (arith, h, elem-union n (component u a) (component u b))

    pub component-in : (n : EntityId) → elem n merged ≡ true → component after n ≡ merged
    component-in n h = ground (arith, h, component-merge merged bar u n)

    pub component-out : (n : EntityId) → elem n merged ≡ false → component after n ≡ component u n
    component-out n h = ground (arith, h, component-merge merged bar u n)

    barred_of-in : (n : EntityId) → elem n merged ≡ true → barred_of forbidden after n ≡ bar
    barred_of-in n h = ground (arith, h, barred_of-merge merged bar u n)

    barred_of-out :
        (n : EntityId)
        → elem n merged ≡ false
        → barred_of forbidden after n ≡ barred_of forbidden u n
    barred_of-out n h = ground (arith, h, barred_of-merge merged bar u n)

    -- A component that meets the merged one lies in it.
    pub closed_at :
        (m n x : EntityId)
        → elem m (component u n) ≡ true
        → elem m (component u x) ≡ true
        → elem n (component u x) ≡ true
    closed_at m n x h k =
        subst (λ c. elem n c ≡ true) (sym (w.shared m n h) ∙ w.shared m x k) (w.self n)

    outside :
        (m n : EntityId)
        → elem n merged ≡ false
        → elem m (component u n) ≡ true
        → elem m merged ≡ false
    outside m n out h = elim (Bool-cases (elem m merged)) [
      | inr e ↦ e
      | inl e ↦ elim (merged-cases m e) [
        | inl k ↦
            absurd (
              ground
                (arith, out, elem-union n (component u a) (component u b), closed_at m n a h k))
        | inr k ↦
            absurd (
              ground
                (arith, out, elem-union n (component u a) (component u b), closed_at m n b h k))
      ]
    ]

    -- The component of an entity of the merged set lies in it.
    pub merged_closed :
        (m n : EntityId)
        → elem n merged ≡ true
        → elem m (component u n) ≡ true
        → elem m merged ≡ true
    merged_closed m n h k = elim (merged-cases n h) [
      | inl l ↦
          let t : elem m (component u a) ≡ true = subst (λ c. elem m c ≡ true) (w.shared n a l) k in
          ground (arith, t, elem-union m (component u a) (component u b))
      | inr l ↦
          let t : elem m (component u b) ≡ true = subst (λ c. elem m c ≡ true) (w.shared n b l) k in
          ground (arith, t, elem-union m (component u a) (component u b))
    ]

    bar-in :
        (m k : EntityId)
        → elem m merged ≡ true
        → elem k (forbidden_of forbidden m) ≡ true
        → elem k bar ≡ true
    bar-in m k h f = elim (merged-cases m h) [
      | inl l ↦ ground (
        arith,
        elem-union k (barred_of forbidden u a) (barred_of forbidden u b),
        w.bars m a k l f,
      )
      | inr l ↦ ground (
        arith,
        elem-union k (barred_of forbidden u a) (barred_of forbidden u b),
        w.bars m b k l f,
      )
    ]

    merged-free :
        (m k : EntityId)
        → elem m merged ≡ true
        → elem k merged ≡ true
        → elem k (forbidden_of forbidden m) ≡ false
    merged-free m k h l = elim (Bool-cases (elem k (forbidden_of forbidden m))) [
      | inr e ↦ e
      | inl f ↦ elim (merged-cases m h) [
        | inl ma ↦ elim (merged-cases k l) [
          | inl ka ↦ w.free m a k ma ka
          | inr kb ↦ absurd (
              cc (
                sym (w.bars m a k ma f)
                ∙ meets_lem k (component u b) (barred_of forbidden u a) clear' kb))
        ]
        | inr mb ↦ elim (merged-cases k l) [
          | inl ka ↦ absurd (
              cc (
                sym (w.bars m b k mb f)
                ∙ meets_lem k (component u a) (barred_of forbidden u b) clear ka))
          | inr kb ↦ w.free m b k mb kb
        ]
      ]
    ]

    pub merge-IsPartition : IsPartition after
    merge-IsPartition = record {
      self = λ n. elim (Bool-cases (elem n merged)) [
        | inl h ↦ subst (λ c. elem n c ≡ true) (sym (component-in n h)) h
        | inr h ↦ subst (λ c. elem n c ≡ true) (sym (component-out n h)) (w.self n)
      ];
      shared = λ m n h. elim (Bool-cases (elem n merged)) [
        | inl i ↦
            let j : elem m merged ≡ true = subst (λ c. elem m c ≡ true) (component-in n i) h in
            component-in m j ∙ sym (component-in n i)
        | inr i ↦
            let j : elem m (component u n) ≡ true =
              subst (λ c. elem m c ≡ true) (component-out n i) h in
            component-out m (outside m n i j) ∙ w.shared m n j ∙ sym (component-out n i)
      ];
      barred = λ m n h. elim (Bool-cases (elem n merged)) [
        | inl i ↦
            let j : elem m merged ≡ true = subst (λ c. elem m c ≡ true) (component-in n i) h in
            barred_of-in m j ∙ sym (barred_of-in n i)
        | inr i ↦
            let j : elem m (component u n) ≡ true =
              subst (λ c. elem m c ≡ true) (component-out n i) h in
            barred_of-out m (outside m n i j) ∙ w.barred m n j ∙ sym (barred_of-out n i)
      ];
      bars = λ m n k h f. elim (Bool-cases (elem n merged)) [
        | inl i ↦
            let j : elem m merged ≡ true = subst (λ c. elem m c ≡ true) (component-in n i) h in
            subst (λ c. elem k c ≡ true) (sym (barred_of-in n i)) (bar-in m k j f)
        | inr i ↦
            let j : elem m (component u n) ≡ true =
              subst (λ c. elem m c ≡ true) (component-out n i) h in
            subst (λ c. elem k c ≡ true) (sym (barred_of-out n i)) (w.bars m n k j f)
      ];
      free = λ m n k h l. elim (Bool-cases (elem n merged)) [
        | inl i ↦
            merged-free m k (subst (λ c. elem m c ≡ true) (component-in n i) h)
              (subst (λ c. elem k c ≡ true) (component-in n i) l)
        | inr i ↦
            w.free m n k (subst (λ c. elem m c ≡ true) (component-out n i) h)
              (subst (λ c. elem k c ≡ true) (component-out n i) l)
      ];
    }
