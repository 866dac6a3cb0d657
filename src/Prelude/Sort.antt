-- ===== src/Prelude/Sort.antt =====
-- `list.sort(key=…)`: Python's sort is stable, and so is insertion from the right.
use Prim.Native.Nat.{ℕ, ◌+◌}
use mathlib.Core.Path.{◌≡◌, refl, ◌∙◌}
use mathlib.Core.Logic.{◌⊎◌, ◌↔◌, inl, inr}
use mathlib.Core.Bool.{Bool, true, ◌||◌}
use mathlib.Core.List.{List, [], ◌∷◌, Perm, Memᴰ, map}
use mathlib.Core.List.Perm
use native.Mathlib.Omega.{arith}
use coruscant.Prelude.Tests.{if◌then◌else◌, Bool-cases}
use coruscant.Prelude.Lists.{All, count_if, All-map_imp, Memᴰ-cons}
use coruscant.Prelude.Equality.{Eq, ◌==◌, elem, Distinct}
use coruscant.Prelude.Order.{Ord, ◌<=◌}

module _ {ℓ κ} {A : Type ℓ} {K : Type κ} ⦃o : Ord K⦄ (key : A → K) where
  pub insert : A → List A → List A
  insert x [] = x ∷ []
  insert x (y ∷ ys) = if key x <= key y then x ∷ y ∷ ys else y ∷ insert x ys

  unfoldable pub sort_by : List A → List A
  unfolding insert
  sort_by [] = []
  sort_by (x ∷ xs) = insert x (sort_by xs)

  abbrev pub IsSortedBy : List A → Type 0
  IsSortedBy [] = Unit
  IsSortedBy (x ∷ xs) = All (λ y. (key x <= key y) ≡ true) xs × IsSortedBy xs

  insert-All {μ} : (P : A → Type μ) (x : A) (xs : List A) → P x → All P xs → All P (insert x xs)
  unfolding insert
  insert-All P x [] p h = (p, tt)
  insert-All P x (y ∷ ys) p h = elim (Bool-cases (key x <= key y)) [
    | inl le ↦ rw le (p, h)
    | inr gt ↦ rw gt (h.0, insert-All P x ys p h.1)
  ]

  pub sort_by-All {μ} : (P : A → Type μ) (xs : List A) → All P xs → All P (sort_by xs)
  unfolding sort_by
  sort_by-All P [] h = tt
  sort_by-All P (x ∷ xs) h = insert-All P x (sort_by xs) h.0 (sort_by-All P xs h.1)

  insert-IsSortedBy : (x : A) (xs : List A) → IsSortedBy xs → IsSortedBy (insert x xs)
  unfolding insert
  insert-IsSortedBy x [] h = (tt, tt)
  insert-IsSortedBy x (y ∷ ys) h = elim (Bool-cases (key x <= key y)) [
    | inl le ↦ rw le (
      (
        le,
        All-map_imp (λ z. (key y <= key z) ≡ true) (λ z. (key x <= key z) ≡ true)
            (λ z k. o.trans (key x) (key y) (key z) le k) ys h.0,
      ),
      h,
    )
    | inr gt ↦ rw gt (
      insert-All (λ z. (key y <= key z) ≡ true) x ys (ground (arith, o.total (key x) (key y))) h.0,
      insert-IsSortedBy x ys h.1,
    )
  ]

  pub sort_by-IsSortedBy : (xs : List A) → IsSortedBy (sort_by xs)
  unfolding sort_by
  sort_by-IsSortedBy [] = tt
  sort_by-IsSortedBy (x ∷ xs) = insert-IsSortedBy x (sort_by xs) (sort_by-IsSortedBy xs)

  count_if-insert :
      (p : A → Bool) (x : A) (xs : List A) → count_if p (insert x xs) ≡ count_if p (x ∷ xs)
  unfolding insert
  count_if-insert p x [] = refl
  count_if-insert p x (y ∷ ys) = ground (arith, count_if-insert p x ys)

  pub count_if-sort_by : (p : A → Bool) (xs : List A) → count_if p (sort_by xs) ≡ count_if p xs
  unfolding sort_by
  count_if-sort_by p [] = refl
  count_if-sort_by p (x ∷ xs) =
      ground (arith, count_if-insert p x (sort_by xs), count_if-sort_by p xs)

  insert-perm : (x : A) (xs : List A) → Perm (insert x xs) (x ∷ xs)
  unfolding insert
  insert-perm x [] = Perm.refl (x ∷ [])
  insert-perm x (y ∷ ys) = elim (Bool-cases (key x <= key y)) [
    | inl le ↦ rw le (Perm.refl (x ∷ y ∷ ys))
    | inr gt ↦ rw gt (Perm.trans (Perm.cons y (insert-perm x ys)) (Perm.swap x y ys))
  ]

  pub sort_by-perm : (xs : List A) → Perm (sort_by xs) xs
  unfolding sort_by
  sort_by-perm [] = Perm.refl []
  sort_by-perm (x ∷ xs) = Perm.trans (insert-perm x (sort_by xs)) (Perm.cons x (sort_by-perm xs))

  Memᴰ-insert : (a x : A) (xs : List A) → Memᴰ a (insert x xs) ↔ ((a ≡ x) ⊎ Memᴰ a xs)
  unfolding insert
  Memᴰ-insert a x [] = Memᴰ-cons a x []
  Memᴰ-insert a x (y ∷ ys) = ground (
    arith,
    Memᴰ-insert a x ys,
    Memᴰ-cons a x (y ∷ ys),
    Memᴰ-cons a y ys,
    Memᴰ-cons a y (insert x ys),
  )

  pub Memᴰ-sort_by : (a : A) (xs : List A) → Memᴰ a (sort_by xs) ↔ Memᴰ a xs
  unfolding sort_by
  Memᴰ-sort_by a [] = (λ m. m, λ m. m)
  Memᴰ-sort_by a (x ∷ xs) =
      ground (arith, Memᴰ-insert a x (sort_by xs), Memᴰ-sort_by a xs, Memᴰ-cons a x xs)

-- `sum(f(x) for x in xs)`
abbrev pub sum_by {ℓ} : {A : Type ℓ} → (A → ℕ) → List A → ℕ
sum_by f [] = 0
sum_by f (x ∷ xs) = f x + sum_by f xs

module _ {ℓ κ} {A : Type ℓ} {K : Type κ} ⦃o : Ord K⦄ (key : A → K) (f : A → ℕ) where
  sum_by-insert : (x : A) (xs : List A) → sum_by f (insert key x xs) ≡ f x + sum_by f xs
  unfolding insert
  sum_by-insert x [] = refl
  sum_by-insert x (y ∷ ys) = ground (arith, sum_by-insert x ys)

  pub sum_by-sort_by : (xs : List A) → sum_by f (sort_by key xs) ≡ sum_by f xs
  unfolding sort_by
  sum_by-sort_by [] = refl
  sum_by-sort_by (x ∷ xs) = ground (arith, sum_by-insert x (sort_by key xs), sum_by-sort_by xs)

module _ {ℓ κ μ} {A : Type ℓ} {K : Type κ} {B : Type μ} ⦃o : Ord K⦄ ⦃e : Eq B⦄ (key : A → K)
    (f : A → B) where
  elem-map-insert :
      (b : B) (x : A) (xs : List A)
      → elem b (map f (insert key x xs)) ≡ b == f x || elem b (map f xs)
  unfolding insert
  elem-map-insert b x [] = refl
  elem-map-insert b x (y ∷ ys) = ground (arith, elem-map-insert b x ys)

  elem-map-sort_by : (b : B) (xs : List A) → elem b (map f (sort_by key xs)) ≡ elem b (map f xs)
  unfolding sort_by
  elem-map-sort_by b [] = refl
  elem-map-sort_by b (x ∷ xs) =
      ground (arith, elem-map-insert b x (sort_by key xs), elem-map-sort_by b xs)

  Distinct-insert :
      (x : A) (xs : List A) → Distinct (f x ∷ map f xs) → Distinct (map f (insert key x xs))
  unfolding insert
  Distinct-insert x [] h = h
  Distinct-insert x (y ∷ ys) h = ground (
    arith,
    Distinct-insert x ys,
    elem-map-insert (f y) x ys,
    e.same_iff (f x) (f y),
    e.same_iff (f y) (f x),
  )

  -- Sorting keeps the elements apart, from each other and from one more.
  pub sort_by-Distinct :
      (xs : List A) (b : B) → Distinct (b ∷ map f xs) → Distinct (b ∷ map f (sort_by key xs))
  unfolding sort_by
  sort_by-Distinct [] b h = h
  sort_by-Distinct (x ∷ xs) b h =
      let (new, d) = sort_by-Distinct xs (f x) h.1 in
      (elem-map-sort_by b (x ∷ xs) ∙ h.0, Distinct-insert x (sort_by key xs) (new, d))

  pub Distinct-map-sort_by : (xs : List A) → Distinct (map f xs) → Distinct (map f (sort_by key xs))
  unfolding sort_by
  Distinct-map-sort_by [] h = h
  Distinct-map-sort_by (x ∷ xs) h = Distinct-insert x (sort_by key xs) (sort_by-Distinct xs (f x) h)
