-- ===== src/Exposure/Contagion/Nearest.antt =====
-- The members that the breadth-first loop finds are the nearest ones.
use coruscant.Prelude.{
  ℕ, zero, suc, ◌≤◌, ◌≡◌, refl, sym, ap, ◌∙◌, subst, Option, some, String, List, [], ◌∷◌, length,
  length-append, Memᴰ, arith, inl, inr, pair_eq, string_eq, some_inj, pair_same_iff, ◌≢◌,
}
use mathlib.Core.List.Memᴰ
use text.Mathlib.TextEquality.{eq_iff}
use coruscant.Graph.Types.{EntityId}
use coruscant.Graph.Memory.{Store}
use coruscant.Graph.Substrate.{AccessTier}
use coruscant.Exposure.Contagion.{ContagionHop, Entry, Found, member, expand, search, first_found}
use coruscant.Exposure.Contagion.Steps.{IsHop, IsPath, stay, step}
use coruscant.Exposure.Contagion.Layers.{
  Has, Extends, IsExpanded, IsListed, IsLayered, Nobody, expand-Next,
}

module _ (s : Store) (clearance : AccessTier) (on : Option String) (limit : ℕ)
    (seed : EntityId) where
  search-Next :
      (fuel : ℕ) (d : ℕ) (history : List Entry) (st : List Entry × Found) {found : Found}
      → search s clearance on limit fuel st ≡ some found
      → IsLayered s clearance on limit seed (Nobody s clearance on limit seed) d history st
      → (later : List Entry) × Extends history later
        × ((e : Entry)
            → Memᴰ e later
            → IsExpanded s clearance on limit seed later e
              × IsListed s clearance on limit seed found.members e)
  unfolding search Nobody
  search-Next fuel d history ([], found) p k = (
    history,
    λ e m. m,
    λ e m. (
      elim (k.done e m) [
        | inl q ↦ absurd (Memᴰ.not-nil q)
        | inr (inl w) ↦ w
        | inr (inr c) ↦ absurd c
      ],
      subst (λ (x : Found). IsListed s clearance on limit seed x.members e) (some_inj p)
          (k.listed e m),
    ),
  )
  search-Next zero d history (entry ∷ queue, found) p k = cc
  search-Next (suc fuel) d history (entry ∷ queue, found) p k =
      let (h1, more1, k1) = expand-Next s clearance on limit seed d history entry queue found k in
      let (h2, more2, all) =
        search-Next fuel (length entry.1) h1 (expand s clearance on limit entry (queue, found)) p
          k1 in
      (h2, λ e m. more2 e (more1 e m), all)

  -- Along a path, every node has an entry that is no longer than the path.
  Has-IsPath :
      (history : List Entry) (path : List ContagionHop) (v : EntityId)
      → Memᴰ (seed, []) history
      → ((e : Entry) → Memᴰ e history → IsExpanded s clearance on limit seed history e)
      → IsPath s clearance on seed path v
      → length path ≤ limit
      → Has history v (length path)
  Has-IsPath history path v m all stay l = ((seed, []), m, refl, omega arith)
  Has-IsPath history path v m all (step {path = before} {j = j} {h = h} p w) l =
      let len = length-append before (h ∷ []) in
      let (e, t, q, le) = Has-IsPath history before j m all p (omega (arith, len)) in
      let (e', t', q', le') =
        all e t (omega (arith, len)) v h (subst (λ x. IsHop s clearance on x h v) (sym q) w) in
      (e', t', q', omega (arith, len))

  -- Every company at the end of a path of at most `limit` hops, but the seed, becomes a member, with
  -- a path that is no longer.
  pub search-nearest :
      (fuel : ℕ) {found : Found} (path : List ContagionHop) (v : EntityId)
      → search s clearance on limit fuel ((seed, []) ∷ [], first_found seed) ≡ some found
      → IsPath s clearance on seed path v
      → length path ≤ limit
      → v.0 ≡ "Company"
      → v ≢ seed
      → (way : List ContagionHop) × Memᴰ (member s v way) found.members × (length way ≤ length path)
  unfolding Nobody
  search-nearest fuel {found} path v p w l c other =
      let start : IsLayered s clearance on limit seed (Nobody s clearance on limit seed) 0
          ((seed, []) ∷ []) ((seed, []) ∷ [], first_found seed) =
        record {
          rising = (omega arith, omega arith, tt);
          done = λ e m. inl m;
          known = λ n m. (
            (seed, []),
            Memᴰ.head refl,
            sym ((pair_same_iff n seed).0 (ground arith)),
            omega arith,
          );
          listed = λ e m. elim (Memᴰ.cases_cons m) [
            | inl q ↦ inl (ap (λ (x : Entry). x.0) q)
            | inr t ↦ absurd (Memᴰ.not-nil t)
          ];
        } in
      let (later, extends, all) =
        search-Next fuel 0 ((seed, []) ∷ []) ((seed, []) ∷ [], first_found seed) p start in
      let (e, m, at, le) =
        Has-IsPath later path v (extends (seed, []) (Memᴰ.head refl)) (λ e m. (all e m).0) w l in
      elim (all e m).1 [
        | inl q ↦ absurd (other (sym at ∙ q))
        | inr f ↦ (
          e.1,
          subst (λ x. Memᴰ (member s x e.1) found.members) at
              (f ((eq_iff e.0.0 "Company").1 (ap (λ (x : EntityId). x.0) at ∙ c))),
          le,
        )
      ]
