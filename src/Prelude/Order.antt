-- ===== src/Prelude/Order.antt =====
-- Python's `<=` on the values that the program sorts by: texts by their code points, pairs
-- lexicographically.
use Prim.Native.Nat.{ℕ}
use Prim.Native.Char.{code}
use Prim.Native.String.{String}
use mathlib.Core.Path.{◌≡◌, refl, ap}
use text.Mathlib.TextEquality.{Char-path}
use mathlib.Core.Logic.{◌⊎◌}
use mathlib.Core.Bool.{Bool, true, false, not, ◌&&◌, ◌||◌}
use mathlib.Core.List.{List, [], ◌∷◌}
use native.Mathlib.Omega.{arith}
use coruscant.Prelude.Tests.{ltb, leb}

pub record Ord {ℓ} (A : Type ℓ) : Type ℓ where
  pub le : A → A → Bool
  pub total : (a b : A) → (le a b ≡ true) ⊎ (le b a ≡ true)
  pub trans : (a b c : A) → le a b ≡ true → le b c ≡ true → le a c ≡ true
  pub antisym : (a b : A) → le a b ≡ true → le b a ≡ true → a ≡ b

infix 50 ◌<=◌
abbrev pub ◌<=◌ {ℓ} : {A : Type ℓ} ⦃o : Ord A⦄ → A → A → Bool
◌<=◌ ⦃o⦄ = o.le

abbrev pub codes : String → List ℕ
codes String.[] = []
codes (String.◌∷◌ c s) = code c ∷ codes s

codes_le : List ℕ → List ℕ → Bool
codes_le [] ys = true
codes_le (x ∷ xs) [] = false
codes_le (x ∷ xs) (y ∷ ys) = ltb x y || leb x y && codes_le xs ys

codes_le_total : (xs ys : List ℕ) → (codes_le xs ys ≡ true) ⊎ (codes_le ys xs ≡ true)
unfolding codes_le
codes_le_total [] ys = ground arith
codes_le_total (x ∷ xs) [] = ground arith
codes_le_total (x ∷ xs) (y ∷ ys) = ground (arith, codes_le_total xs ys)

codes_le_trans :
    (xs ys zs : List ℕ) → codes_le xs ys ≡ true → codes_le ys zs ≡ true → codes_le xs zs ≡ true
unfolding codes_le
codes_le_trans [] ys zs h k = ground arith
codes_le_trans (x ∷ xs) [] zs h k = ground arith
codes_le_trans (x ∷ xs) (y ∷ ys) [] h k = ground arith
codes_le_trans (x ∷ xs) (y ∷ ys) (z ∷ zs) h k = ground (arith, codes_le_trans xs ys zs)

unfoldable pub str_le : String → String → Bool
unfolding codes_le
str_le a b = codes_le (codes a) (codes b)

pub str_le_total : (a b : String) → (str_le a b ≡ true) ⊎ (str_le b a ≡ true)
unfolding str_le
str_le_total a b = codes_le_total (codes a) (codes b)

pub str_le_trans : (a b c : String) → str_le a b ≡ true → str_le b c ≡ true → str_le a c ≡ true
unfolding str_le
str_le_trans a b c = codes_le_trans (codes a) (codes b) (codes c)

pub str_le_antisym : (a b : String) → str_le a b ≡ true → str_le b a ≡ true → a ≡ b
unfolding str_le codes_le
str_le_antisym String.[] String.[] h k = refl
str_le_antisym String.[] (String.◌∷◌ d t) h k = absurd (cc k)
str_le_antisym (String.◌∷◌ c s) String.[] h k = absurd (cc h)
str_le_antisym (String.◌∷◌ c s) (String.◌∷◌ d t) h k =
    let same : code c ≡ code d = ground (arith, h, k) in
    let rest : s ≡ t = str_le_antisym s t (ground (arith, h, same)) (ground (arith, k, same)) in
    rw (Char-path c d same, rest) refl

pub nat_antisym : (a b : ℕ) → leb a b ≡ true → leb b a ≡ true → a ≡ b
nat_antisym a b h k = ground arith

pub nat_total : (a b : ℕ) → (leb a b ≡ true) ⊎ (leb b a ≡ true)
nat_total a b = ground arith

pub nat_trans : (a b c : ℕ) → leb a b ≡ true → leb b c ≡ true → leb a c ≡ true
nat_trans a b c h k = ground arith

instance abbrev pub nat_ord : Ord ℕ
nat_ord = record { le = leb; total = nat_total; trans = nat_trans; antisym = nat_antisym }

instance abbrev pub string_ord : Ord String
string_ord = record {
  le = str_le;
  total = str_le_total;
  trans = str_le_trans;
  antisym = str_le_antisym;
}

module _ {ℓ κ} {A : Type ℓ} {B : Type κ} ⦃a : Ord A⦄ ⦃b : Ord B⦄ where
  -- Python compares tuples by their first components that differ.
  abbrev pub pair_le : A × B → A × B → Bool
  pair_le x y = a.le x.0 y.0 && (not (a.le y.0 x.0) || b.le x.1 y.1)

  pub pair_total : (x y : A × B) → (pair_le x y ≡ true) ⊎ (pair_le y x ≡ true)
  pair_total x y = ground (arith, a.total x.0 y.0, b.total x.1 y.1)

  pub pair_trans : (x y z : A × B) → pair_le x y ≡ true → pair_le y z ≡ true → pair_le x z ≡ true
  pair_trans x y z h k =
      ground
        (arith, a.trans x.0 y.0 z.0, a.trans y.0 z.0 x.0, a.trans z.0 x.0 y.0, b.trans x.1 y.1 z.1)

  pub pair_antisym : (x y : A × B) → pair_le x y ≡ true → pair_le y x ≡ true → x ≡ y
  pair_antisym x y h k = ground (arith, a.antisym x.0 y.0, b.antisym x.1 y.1)

  instance abbrev pub pair_ord : Ord (A × B)
  pair_ord = record { le = pair_le; total = pair_total; trans = pair_trans; antisym = pair_antisym }

-- `-x` as a sort key: the larger one comes first.
pub record Descending : Type 0 where
  pub rank : ℕ

abbrev pub descending_le : Descending → Descending → Bool
descending_le a b = leb b.rank a.rank

pub descending_total : (a b : Descending) → (descending_le a b ≡ true) ⊎ (descending_le b a ≡ true)
descending_total a b = ground arith

pub descending_trans :
    (a b c : Descending)
    → descending_le a b ≡ true
    → descending_le b c ≡ true
    → descending_le a c ≡ true
descending_trans a b c h k = ground arith

pub descending_antisym :
    (a b : Descending) → descending_le a b ≡ true → descending_le b a ≡ true → a ≡ b
descending_antisym a b h k =
    let p : a.rank ≡ b.rank = ground arith in ap (λ (n : ℕ). record { rank = n }) p

instance abbrev pub descending_ord : Ord Descending
descending_ord = record {
  le = descending_le;
  total = descending_total;
  trans = descending_trans;
  antisym = descending_antisym;
}
