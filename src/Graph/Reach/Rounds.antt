-- ===== src/Graph/Reach/Rounds.antt =====
-- Each round of the `while` loop of `reachable` keeps the layers.
use coruscant.Prelude.{
  ℕ, ◌+◌, ◌≤◌, ◌<◌, ◌≡◌, sym, ap, ◌∙◌, subst, inl, inr, String, some, List, ◌∷◌, foldl, arith,
  Bool-cases, some_inj, leb, string_eq, pair_eq,
}
use mathlib.Core.List.Memᴰ
use coruscant.Prelude.Dict
use coruscant.Prelude.Dict.{get-set}
use coruscant.Graph.Types.{EntityId}
use coruscant.Graph.Memory.{Store}
use coruscant.Graph.Reach.{Distances, neighbours, reach_one, reach_all}
use coruscant.Graph.Reach.Walks.{neighbours_iff}
use coruscant.Graph.Reach.Layers.{
  Has, IsRising, IsRising-le, IsExpanded, IsLayered, weight, reach_each-Reached,
}

module _ (s : Store) (relation direction : String) (max_hops : ℕ) (start : EntityId) where
  unfoldable pub Nobody : EntityId → Type 0
  Nobody v = ⊥

  IsLayered-pop :
      (d k : ℕ) (v : EntityId) (queue : List EntityId) (dist : Distances)
      → Dict.get v dist ≡ some k
      → IsLayered s relation direction max_hops start Nobody d (v ∷ queue, dist)
      → IsLayered s relation direction max_hops start (λ u. u ≡ v) k (queue, dist) × (d ≤ k)
  unfolding Nobody
  IsLayered-pop d k v queue dist e w =
      let (j, f, low, high, rest) = w.rising in
      let p : j ≡ k = some_inj (sym f ∙ e) in
      (
        record {
          rising =
              IsRising-le dist k (d + 1) (k + 1) queue (omega (arith, p, low))
                (subst (λ i. IsRising dist i (d + 1) queue) p rest);
          done = λ u i g. elim (w.done u i g) [
            | inl q ↦ elim (Memᴰ.cases_cons q) [ inl r ↦ inr (inr r) | inr t ↦ inl t ]
            | inr (inl t) ↦ inr (inl t)
            | inr (inr c) ↦ absurd c
          ];
          known = λ u i g. omega (arith, w.known u i g, p, low);
          sound = w.sound;
          begun = w.begun;
        },
        omega (arith, p, low),
      )

  IsLayered-close :
      (d : ℕ) (v : EntityId) (st : List EntityId × Distances)
      → ((k : ℕ)
          → Dict.get v st.1 ≡ some k
          → IsExpanded s relation direction max_hops start st.1 v k)
      → IsLayered s relation direction max_hops start (λ u. u ≡ v) d st
      → IsLayered s relation direction max_hops start Nobody d st
  IsLayered-close d v st t w = record {
    rising = w.rising;
    done = λ u k e. elim (w.done u k e) [
      | inl m ↦ inl m
      | inr (inl x) ↦ inr (inl x)
      | inr (inr p) ↦ inr (
          inl (
            subst (λ y. IsExpanded s relation direction max_hops start st.1 y k) (sym p)
              (t k (ap (λ y. Dict.get y st.1) (sym p) ∙ e))))
    ];
    known = w.known;
    sound = w.sound;
    begun = w.begun;
  }

  pub reach_all-Reached :
      (d k : ℕ) (v : EntityId) (queue : List EntityId) (dist : Distances)
      → Dict.get v dist ≡ some k
      → IsLayered s relation direction max_hops start Nobody d (v ∷ queue, dist)
      → let st' = reach_all s relation direction max_hops k v (queue, dist) in
        IsLayered s relation direction max_hops start Nobody k st'
        × (weight s relation direction max_hops start st'
            ≤ weight s relation direction max_hops start (queue, dist))
  unfolding reach_all
  reach_all-Reached d k v queue dist e w =
      let (popped, _) = IsLayered-pop d k v queue dist e w in
      elim (Bool-cases (leb max_hops k)) [
        | inl far ↦ rw far (
          IsLayered-close k v (queue, dist)
              (λ j f near. absurd (ground (arith, far, near, some_inj (sym f ∙ e)))) popped,
          omega arith,
        )
        | inr near ↦
            let small : k < max_hops = ground (arith, near) in
            let ((x, w', l), has) =
              reach_each-Reached s relation direction max_hops start (λ u. u ≡ v) k v
                (neighbours s relation direction v) (queue, dist) popped (w.sound v k e).0 small
                (λ n. (neighbours_iff s relation direction v n).0) in
            rw near (
              IsLayered-close k v _
                  (λ j f _ n t.
                    let p : k ≡ j = some_inj (sym (x v k e) ∙ f) in
                    subst
                      (λ i.
                        Has
                          ((foldl (reach_one s relation direction k) (queue, dist)
                            (neighbours s relation direction v)).1)
                          n (i + 1))
                      p (has n ((neighbours_iff s relation direction v n).1 t)))
                  w',
              l,
            )
      ]
