-- ===== src/Prelude/Equality.antt =====
-- Python's `==` on the keys that the program compares.
use Prim.Native.Nat.{ℕ, compare, Ordering}
use Prim.Native.String.{String}
use mathlib.Core.Path.{◌≡◌, refl, ap}
use mathlib.Core.Logic.{◌↔◌}
use mathlib.Core.Bool.{Bool, true, false, ◌&&◌, ◌||◌}
use mathlib.Core.List.{List, [], ◌∷◌, ◌++◌, Memᴰ}
use mathlib.Core.List.Memᴰ
use native.Mathlib.Omega.{arith}
use coruscant.Prelude.Tests.{if◌then◌else◌}
use text.Mathlib.Text.{◌==◌ as string_same}
use text.Mathlib.TextEquality.{eq_iff}
use coruscant.Prelude.Lists.{Memᴰ-cons}

-- A type whose values the program compares, with the comparison.
pub record Eq {ℓ} (Key : Type ℓ) : Type ℓ where
  pub same : Key → Key → Bool
  pub same_iff : (x y : Key) → (same x y ≡ true) ↔ (x ≡ y)

abbrev pub nat_same : ℕ → ℕ → Bool
nat_same a b = elim (compare a b) [ Ordering.eq ↦ true | _ ↦ false ]

pub nat_same_iff : (a b : ℕ) → (nat_same a b ≡ true) ↔ (a ≡ b)
nat_same_iff a b = ground arith

instance abbrev pub string_eq : Eq String
string_eq = record { same = string_same; same_iff = eq_iff }

instance abbrev pub nat_eq : Eq ℕ
nat_eq = record { same = nat_same; same_iff = nat_same_iff }

module _ {ℓ κ} {A : Type ℓ} {B : Type κ} ⦃a : Eq A⦄ ⦃b : Eq B⦄ where
  abbrev pub pair_same : A × B → A × B → Bool
  pair_same x y = a.same x.0 y.0 && b.same x.1 y.1

  pub pair_same_iff : (x y : A × B) → (pair_same x y ≡ true) ↔ (x ≡ y)
  pair_same_iff x y = ground (arith, a.same_iff x.0 y.0, b.same_iff x.1 y.1)

  instance abbrev pub pair_eq : Eq (A × B)
  pair_eq = record { same = pair_same; same_iff = pair_same_iff }

infix 50 ◌==◌
abbrev pub ◌==◌ {ℓ} : {Key : Type ℓ} ⦃k : Eq Key⦄ → Key → Key → Bool
◌==◌ ⦃k⦄ = k.same

module _ {ℓ} {A : Type ℓ} ⦃e : Eq A⦄ where
  pub ==_refl : (a : A) → (a == a) ≡ true
  ==_refl a = (e.same_iff a a).1 refl

  -- `a in xs`
  abbrev pub elem : A → List A → Bool
  elem a [] = false
  elem a (x ∷ xs) = a == x || elem a xs

  pub elem_iff : (a : A) (xs : List A) → (elem a xs ≡ true) ↔ Memᴰ a xs
  elem_iff a [] = (λ h. absurd (cc h), λ m. absurd (Memᴰ.not-nil m))
  elem_iff a (x ∷ xs) = ground (arith, elem_iff a xs, e.same_iff a x, Memᴰ-cons a x xs)

  pub not_elem : (a : A) (xs : List A) → elem a xs ≡ false → ¬ Memᴰ a xs
  not_elem a xs h = λ m. cc ((elem_iff a xs).1 m)

  pub elem-append : (a : A) (xs ys : List A) → elem a (xs ++ ys) ≡ elem a xs || elem a ys
  elem-append a [] ys = refl
  elem-append a (x ∷ xs) ys = ground (arith, elem-append a xs ys)

  -- No element stands twice.
  abbrev pub Distinct : List A → Type 0
  Distinct [] = Unit
  Distinct (x ∷ xs) = (elem x xs ≡ false) × Distinct xs

  pub Distinct-concat :
      (a : A) (xs : List A) → Distinct xs → elem a xs ≡ false → Distinct (xs ++ a ∷ [])
  Distinct-concat a [] d n = (refl, tt)
  Distinct-concat a (x ∷ xs) d n =
      ground
        (arith, elem-append x xs (a ∷ []), Distinct-concat a xs d.1, e.same_iff a x, e.same_iff x a)

  -- `set.add`: a set is a list with no element twice.
  unfoldable pub add : A → List A → List A
  add a xs = if elem a xs then xs else a ∷ xs

  pub elem-add : (b a : A) (xs : List A) → elem b (add a xs) ≡ b == a || elem b xs
  unfolding add
  elem-add b a xs = ground (arith, λ (p : b ≡ a). ap (λ c. elem c xs) p, e.same_iff b a)

  pub add-Distinct : (a : A) (xs : List A) → Distinct xs → Distinct (add a xs)
  unfolding add
  add-Distinct a xs h = ground arith

  -- In a list with no element twice, no later element stands before.
  pub Distinct-middle :
      (xs : List A) (a : A) (ys : List A) → Distinct (xs ++ a ∷ ys) → elem a xs ≡ false
  Distinct-middle [] a ys d = refl
  Distinct-middle (x ∷ xs) a ys d =
      ground
        (arith, elem-append x xs (a ∷ ys), Distinct-middle xs a ys d.1, e.same_iff a x, ==_refl a)
