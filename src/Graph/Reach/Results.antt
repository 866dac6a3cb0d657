-- ===== src/Graph/Reach/Results.antt =====
-- What `reachable` returns.
use coruscant.Prelude.{
  ℕ, zero, suc, ◌+◌, ◌≤◌, ◌≡◌, refl, sym, ap, ◌∙◌, subst, ◌≢◌, ◌↔◌, inl, inr, String, false, none,
  some, List, [], ◌∷◌, map, length, length-append, length-map, length-count_if-le, Memᴰ, arith,
  Bool-cases, some_inj, leb, leb→le, ◌==◌, if◌then◌else◌, string_eq, pair_eq, pair_same_iff, ok,
}
use mathlib.Core.List.Memᴰ
use coruscant.Prelude.Dict
use coruscant.Prelude.Dict.{get-remove}
use coruscant.Graph.Types.{EntityId}
use coruscant.Graph.Memory.{Store, source_of, target_of}
use coruscant.Graph.Reach.{Distances, reach_all, reach_loop, reachable}
use coruscant.Graph.Reach.Walks.{IsWalk, here, onward, IsDistance}
use coruscant.Graph.Reach.Layers.{Has, IsExpanded, IsLayered, weight, is_new, ends}
use coruscant.Graph.Reach.Rounds.{Nobody, reach_all-Reached}

module _ (s : Store) (relation direction : String) (max_hops : ℕ) (start : EntityId) where
  -- What holds when the loop is done: the distances are those of walks, and closed under steps.
  record IsFinal (dist : Distances) : Type 0 where
    expanded :
        (v : EntityId) (k : ℕ)
        → Dict.get v dist ≡ some k
        → IsExpanded s relation direction max_hops start dist v k
    sound :
        (v : EntityId) (k : ℕ)
        → Dict.get v dist ≡ some k
        → IsWalk s relation direction start v k × (k ≤ max_hops)
    begun : Dict.get start dist ≡ some 0

  loop_ends :
      (fuel d : ℕ) (queue : List EntityId) (dist : Distances)
      → IsLayered s relation direction max_hops start
          (Nobody s relation direction max_hops start)
          d
          (queue, dist)
      → weight s relation direction max_hops start (queue, dist) ≤ fuel
      → (out : Distances) × (reach_loop s relation direction max_hops fuel (queue, dist)
          ≡ some (ok out))
        × IsFinal out
  unfolding reach_loop Nobody
  loop_ends fuel d [] dist w h = (
    dist,
    refl,
    record {
      expanded = λ v k e. elim (w.done v k e) [
        | inl m ↦ absurd (Memᴰ.not-nil m)
        | inr (inl x) ↦ x
        | inr (inr c) ↦ absurd c
      ];
      sound = w.sound;
      begun = w.begun;
    },
  )
  loop_ends zero d (v ∷ queue) dist w h = absurd (omega arith)
  loop_ends (suc fuel) d (v ∷ queue) dist w h =
      let (k, e, _, _, _) = w.rising in
      let (w', l) = reach_all-Reached s relation direction max_hops start d k v queue dist e w in
      let st = reach_all s relation direction max_hops k v (queue, dist) in
      let (out, p, final) = loop_ends fuel k st.0 st.1 w' (omega arith) in
      (out, ground (arith, e, p), final)

  first_IsLayered :
      IsLayered s relation direction max_hops start
        (Nobody s relation direction max_hops start)
        0
        (start ∷ [], (start, 0) ∷ [])
  first_IsLayered =
      let only : (v : EntityId) (k : ℕ)
          → Dict.get v ((start, 0) ∷ []) ≡ some k
          → (v ≡ start) × (k ≡ 0) =
        λ v k e. (ground (arith, e, pair_same_iff start v), ground (arith, e)) in
      record {
        rising = (0, ground (arith, pair_same_iff start start), omega arith, omega arith, tt);
        done = λ v k e. inl (Memᴰ.head (only v k e).0);
        known = λ v k e. omega (arith, (only v k e).1);
        sound = λ v k e.
            let (p, q) = only v k e in
            (
              subst (λ y. IsWalk s relation direction start y k) (sym p)
                  (subst (IsWalk s relation direction start start) (sym q) here),
              omega (arith, q),
            );
        begun = ground (arith, pair_same_iff start start);
      }

  -- Along a walk of at most `max_hops` steps, every node has a distance that is no longer.
  Has-IsWalk :
      (dist : Distances) (v : EntityId) (n : ℕ)
      → IsFinal dist
      → IsWalk s relation direction start v n
      → n ≤ max_hops
      → Has dist v n
  Has-IsWalk dist v zero f here h = (0, f.begun, omega arith)
  Has-IsWalk dist v (suc n) f (onward {j = j} w t) h =
      let (k, e, l) = Has-IsWalk dist j n f w (omega arith) in
      let (i, g, u) = f.expanded j k e (omega arith) v t in (i, g, omega arith)

  finished :
      (out : Distances) × IsFinal out
      × (reachable s relation direction max_hops start ≡ some (ok (Dict.remove start out)))
  unfolding reachable
  finished =
      let (out, e, f) =
        loop_ends (1 + (length s.edges + length s.edges)) 0 (start ∷ []) ((start, 0) ∷ [])
          first_IsLayered
          (omega (
            arith,
            length-count_if-le (is_new ((start, 0) ∷ []))
                (ends s relation direction max_hops start),
            length-append (map source_of s.edges) (map target_of s.edges),
            length-map source_of s.edges,
            length-map target_of s.edges,
          )) in
      (out, f, ground (arith, e))

  -- `reachable` always returns, and raises nothing: the loop ends after at most two rounds for each
  -- edge and one for the start, and `dist` has every node that is taken from the queue.
  pub reachable-returns :
      (r : Distances) × (reachable s relation direction max_hops start ≡ some (ok r))
  reachable-returns = let (out, f, e) = finished in (Dict.remove start out, e)

  -- The result has exactly the nodes, but the start, to which some walk of at most `max_hops` steps
  -- leads from the start, along stored edges of the relation in the direction that is asked for, and
  -- for each the length of a shortest walk.
  pub reachable_iff :
      {r : Distances}
      → reachable s relation direction max_hops start ≡ some (ok r)
      → (v : EntityId) (n : ℕ)
      → (Dict.get v r ≡ some n)
        ↔ ((v ≢ start) × (n ≤ max_hops) × IsDistance s relation direction start v n)
  reachable_iff {r} h v n =
      let (out, f, e) = finished in
      let same : r ≡ Dict.remove start out = cc (sym h ∙ e) in
      let got : Dict.get v r ≡ (if start == v then none else Dict.get v out) =
        ap (Dict.get v) same ∙ get-remove start v out in
      (
        λ g.
            let other : v ≢ start = λ p. ground (arith, g, got, pair_same_iff start v, sym p) in
            let held : Dict.get v out ≡ some n = ground (arith, g, got) in
            let (walk, near) = f.sound v n held in
            (
              other,
              near,
              record {
                walk = walk;
                shortest = λ m w. elim (Bool-cases (leb n m)) [
                  | inl le ↦ leb→le n m le
                  | inr gt ↦
                      let (k, g', l) = Has-IsWalk out v m f w (ground (arith, gt, near)) in
                      absurd (ground (arith, gt, l, some_inj (sym g' ∙ held)))
                ];
              },
            ),
        λ (other, near, w).
            let (k, g, l) = Has-IsWalk out v n f w.walk near in
            let p : k ≡ n = omega (arith, l, w.shortest k (f.sound v k g).0) in
            let apart : (start == v) ≡ false =
              ground (arith, pair_same_iff start v, λ (q : start ≡ v). other (sym q)) in
            ground (arith, got, apart, g, p),
      )
