-- ===== src/Prelude/Lists.antt =====
-- Lists with native lengths, and predicates on their elements.
use Prim.Native.Nat.{ℕ, suc, ◌+◌, ◌≤◌, ◌<◌}
use mathlib.Core.Path.{◌≡◌, refl, ap, ◌∙◌, sym}
use mathlib.Core.Logic.{◌⊎◌, inl, inr, ◌↔◌, ⊎_elim}
use mathlib.Core.Bool.{Bool, true, false}
use mathlib.Core.List.{List, [], ◌∷◌, ◌++◌, map, Memᴰ}
use mathlib.Core.List.Memᴰ
use native.Mathlib.Omega.{arith}
use coruscant.Prelude.Tests.{if◌then◌else◌}

module _ {ℓ} {A : Type ℓ} where
  abbrev pub length : List A → ℕ
  length [] = 0
  length (x ∷ xs) = suc (length xs)

  -- `not xs`
  abbrev pub is_nil : List A → Bool
  is_nil [] = true
  is_nil (x ∷ xs) = false

  pub eq-nil_of_is_nil : (xs : List A) → is_nil xs ≡ true → xs ≡ []
  eq-nil_of_is_nil [] h = refl
  eq-nil_of_is_nil (x ∷ xs) h = cc

  -- `[x for x in xs if p(x)]`
  abbrev pub keep : (A → Bool) → List A → List A
  keep p [] = []
  keep p (x ∷ xs) = if p x then x ∷ keep p xs else keep p xs

  -- `sum(1 for x in xs if p(x))`
  abbrev pub count_if : (A → Bool) → List A → ℕ
  count_if p [] = 0
  count_if p (x ∷ xs) = (if p x then 1 else 0) + count_if p xs

  pub keep_comm : (p q : A → Bool) (xs : List A) → keep p (keep q xs) ≡ keep q (keep p xs)
  keep_comm p q [] = refl
  keep_comm p q (x ∷ xs) = ground (arith, keep_comm p q xs)

  pub keep_twice : (p : A → Bool) (xs : List A) → keep p (keep p xs) ≡ keep p xs
  keep_twice p [] = refl
  keep_twice p (x ∷ xs) = ground (arith, keep_twice p xs)

  pub keep-append : (p : A → Bool) (xs ys : List A) → keep p (xs ++ ys) ≡ keep p xs ++ keep p ys
  keep-append p [] ys = refl
  keep-append p (x ∷ xs) ys = ground (arith, keep-append p xs ys)

  pub length-append : (xs ys : List A) → length (xs ++ ys) ≡ length xs + length ys
  length-append [] ys = omega arith
  length-append (x ∷ xs) ys = omega (arith, length-append xs ys)

  pub length-keep-le : (p : A → Bool) (xs : List A) → length (keep p xs) ≤ length xs
  length-keep-le p [] = omega arith
  length-keep-le p (x ∷ xs) = ground (arith, length-keep-le p xs)

  pub List-cases : (xs : List A) → (xs ≡ []) ⊎ ((x : A) × (rest : List A) × (xs ≡ x ∷ rest))
  List-cases [] = inl refl
  List-cases (x ∷ xs) = inr (x, xs, refl)

  pub Memᴰ-cons : (a x : A) (xs : List A) → Memᴰ a (x ∷ xs) ↔ ((a ≡ x) ⊎ Memᴰ a xs)
  Memᴰ-cons a x xs = (Memᴰ.cases_cons, ⊎_elim Memᴰ.head Memᴰ.tail)

  pub Memᴰ-append : (a : A) (xs ys : List A) → Memᴰ a (xs ++ ys) ↔ (Memᴰ a xs ⊎ Memᴰ a ys)
  Memᴰ-append a xs ys = (Memᴰ.append_cases xs, ⊎_elim (Memᴰ.append_left _) (Memᴰ.append_right xs))

  pub Memᴰ-keep :
      (p : A → Bool) (a : A) (xs : List A) → Memᴰ a (keep p xs) ↔ (Memᴰ a xs × (p a ≡ true))
  Memᴰ-keep p a [] = (λ m. absurd (Memᴰ.not-nil m), λ m. absurd (Memᴰ.not-nil m.0))
  Memᴰ-keep p a (x ∷ xs) =
      ground (
        arith,
        Memᴰ-keep p a xs,
        Memᴰ-cons a x xs,
        Memᴰ-cons a x (keep p xs),
        λ (e : a ≡ x). ap p e,
      )

  -- A predicate by recursion computes to tuples, which the tactics read and build.
  abbrev pub All {κ} : (A → Type κ) → List A → Type κ
  All P [] = Unit
  All P (x ∷ xs) = P x × All P xs

  pub All-append {κ} : (P : A → Type κ) (xs ys : List A) → All P xs → All P ys → All P (xs ++ ys)
  All-append P [] ys h k = k
  All-append P (x ∷ xs) ys h k = (h.0, All-append P xs ys h.1 k)

  pub All-map_imp {κ μ} :
      (P : A → Type κ) (Q : A → Type μ)
      → ((a : A) → P a → Q a)
      → (xs : List A) → All P xs
      → All Q xs
  All-map_imp P Q f [] h = tt
  All-map_imp P Q f (x ∷ xs) h = (f x h.0, All-map_imp P Q f xs h.1)

  pub All-of_mem {κ} : (P : A → Type κ) (xs : List A) → ((a : A) → Memᴰ a xs → P a) → All P xs
  All-of_mem P [] f = tt
  All-of_mem P (x ∷ xs) f = (f x (Memᴰ.head refl), All-of_mem P xs (λ a m. f a (Memᴰ.tail m)))

  pub All-mem {κ} : (P : A → Type κ) {a : A} {xs : List A} → All P xs → Memᴰ a xs → P a
  All-mem P {a} {xs = []} h m = absurd (Memᴰ.not-nil m)
  All-mem P {a} {xs = x ∷ xs} h m =
      ⊎_elim (λ e. rw e h.0) (λ t. All-mem P {xs = xs} h.1 t) (Memᴰ.cases_cons m)

pub length-map {ℓ κ} :
    {A : Type ℓ} {B : Type κ} (f : A → B) (xs : List A) → length (map f xs) ≡ length xs
length-map f [] = refl
length-map f (x ∷ xs) = ap suc (length-map f xs)

pub map-append {ℓ κ} :
    {A : Type ℓ} {B : Type κ} (f : A → B) (xs ys : List A) → map f (xs ++ ys) ≡ map f xs ++ map f ys
map-append f [] ys = refl
map-append f (x ∷ xs) ys = ap (◌∷◌ (f x)) (map-append f xs ys)

pub Memᴰ-map {ℓ κ} :
    {A : Type ℓ} {B : Type κ} (f : A → B) (b : B) (xs : List A)
    → Memᴰ b (map f xs) ↔ ((a : A) × Memᴰ a xs × (b ≡ f a))
Memᴰ-map f b [] = (λ m. absurd (Memᴰ.not-nil m), λ (a, m, e). absurd (Memᴰ.not-nil m))
Memᴰ-map f b (x ∷ xs) = (
  λ m. elim (Memᴰ.cases_cons m) [
    | inl e ↦ (x, Memᴰ.head refl, e)
    | inr t ↦ let (a, n, e) = (Memᴰ-map f b xs).0 t in (a, Memᴰ.tail n, e)
  ],
  λ (a, m, e). elim (Memᴰ.cases_cons m) [
    | inl p ↦ Memᴰ.head (e ∙ ap f p)
    | inr n ↦ Memᴰ.tail ((Memᴰ-map f b xs).1 (a, n, e))
  ],
)

module _ {ℓ} {A : Type ℓ} (p q : A → Bool) (imp : (x : A) → q x ≡ true → p x ≡ true) where
  pub count_if_mono : (xs : List A) → count_if q xs ≤ count_if p xs
  count_if_mono [] = omega arith
  count_if_mono (x ∷ xs) = ground (arith, imp x, count_if_mono xs)

  -- An element that only the wider test accepts makes the count larger.
  pub count_if-lt :
      (a : A) (xs : List A) → Memᴰ a xs → p a ≡ true → q a ≡ false → count_if q xs < count_if p xs
  count_if-lt a [] m h k = absurd (Memᴰ.not-nil m)
  count_if-lt a (x ∷ xs) m h k = elim (Memᴰ.cases_cons m) [
    | inl e ↦
        let hx : p x ≡ true = ap p (sym e) ∙ h in
        let kx : q x ≡ false = ap q (sym e) ∙ k in ground (arith, hx, kx, count_if_mono xs)
    | inr t ↦ ground (arith, imp x, count_if-lt a xs t h k)
  ]

pub length-count_if-le {ℓ} : {A : Type ℓ} (p : A → Bool) (xs : List A) → count_if p xs ≤ length xs
length-count_if-le p [] = omega arith
length-count_if-le p (x ∷ xs) = ground (arith, length-count_if-le p xs)
