-- ===== src/Prelude/Groups.antt =====
-- Sets made of lists, and the dict of sets that `d.setdefault(k, set()).add(v)` fills.
use mathlib.Core.Path.{◌≡◌, refl, ap}
use mathlib.Core.Bool.{Bool, true, ◌&&◌, ◌||◌}
use mathlib.Core.List.{List, [], ◌∷◌, map}
use native.Mathlib.Omega.{arith}
use coruscant.Prelude.Lists.{keep}
use coruscant.Prelude.Equality.{Eq, ◌==◌, elem, add, Distinct, elem-add, add-Distinct, pair_eq}
use coruscant.Prelude.Dict.{Dict, set, get_or, keys, get-set, set-Distinct}

module _ {ℓ} {A : Type ℓ} ⦃e : Eq A⦄ where
  -- `set(xs)`
  unfoldable pub set_of : List A → List A
  set_of [] = []
  set_of (x ∷ xs) = add x (set_of xs)

  pub elem-set_of : (a : A) (xs : List A) → elem a (set_of xs) ≡ elem a xs
  unfolding set_of
  elem-set_of a [] = refl
  elem-set_of a (x ∷ xs) = ground (arith, elem-add a x (set_of xs), elem-set_of a xs)

  pub set_of-Distinct : (xs : List A) → Distinct (set_of xs)
  unfolding set_of
  set_of-Distinct [] = tt
  set_of-Distinct (x ∷ xs) = add-Distinct x (set_of xs) (set_of-Distinct xs)

  -- Whether one element is in a list that is filtered.
  pub elem-keep : (p : A → Bool) (a : A) (xs : List A) → elem a (keep p xs) ≡ elem a xs && p a
  elem-keep p a [] = refl
  elem-keep p a (x ∷ xs) = ground (arith, elem-keep p a xs, e.same_iff a x, λ (q : a ≡ x). ap p q)

module _ {ℓ κ} {A : Type ℓ} {K : Type κ} ⦃e : Eq K⦄ (f : A → K) (p : A → Bool) where
  -- Rows that are kept have the keys they had.
  pub elem-map-keep :
      (k : K) (xs : List A) → elem k (map f (keep p xs)) ≡ true → elem k (map f xs) ≡ true
  elem-map-keep k [] h = h
  elem-map-keep k (x ∷ xs) h = ground (arith, elem-map-keep k xs)

  pub keep-Distinct : (xs : List A) → Distinct (map f xs) → Distinct (map f (keep p xs))
  keep-Distinct [] h = tt
  keep-Distinct (x ∷ xs) h = ground (arith, keep-Distinct xs, elem-map-keep (f x) xs)

module _ {ℓ κ} {K : Type ℓ} {V : Type κ} ⦃k : Eq K⦄ ⦃v : Eq V⦄ where
  -- `d.setdefault(k, set()).add(v)`
  unfoldable pub put : Dict K (List V) → K × V → Dict K (List V)
  put d (j, w) = set j (add w (get_or j [] d)) d

  unfoldable pub group : Dict K (List V) → List (K × V) → Dict K (List V)
  unfolding put
  group d [] = d
  group d (p ∷ ps) = group (put d p) ps

  elem-put :
      (i : K) (w : V) (d : Dict K (List V)) (p : K × V)
      → elem w (get_or i [] (put d p)) ≡ elem w (get_or i [] d) || (i, w) == p
  unfolding put
  elem-put i w d (j, u) = ground (
    arith,
    get-set j i (add u (get_or j [] d)) d,
    elem-add w u (get_or j [] d),
    k.same_iff i j,
    k.same_iff j i,
  )

  -- A key's set holds the values that were put under it.
  pub elem-group :
      (i : K) (w : V) (d : Dict K (List V)) (ps : List (K × V))
      → elem w (get_or i [] (group d ps)) ≡ elem w (get_or i [] d) || elem (i, w) ps
  unfolding group
  elem-group i w d [] = ground arith
  elem-group i w d (p ∷ ps) = ground (arith, elem-group i w (put d p) ps, elem-put i w d p)

  pub group-Distinct :
      (d : Dict K (List V)) (ps : List (K × V)) → Distinct (keys d) → Distinct (keys (group d ps))
  unfolding group put
  group-Distinct d [] h = h
  group-Distinct d ((j, w) ∷ ps) h =
      group-Distinct (put d (j, w)) ps (set-Distinct j (add w (get_or j [] d)) d h)
