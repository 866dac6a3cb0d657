-- ===== src/Resolution/Sets.antt =====
-- The set operations on entities that `cluster` uses.
use coruscant.Prelude.{
  ◌≡◌, refl, ap, Bool, true, false, ◌&&◌, ◌||◌, List, [], ◌∷◌, elem, elem-add, add, arith,
  string_eq, pair_eq, pair_same_iff,
}
use coruscant.Graph.Types.{EntityId}

-- `xs | ys`
abbrev pub union : List EntityId → List EntityId → List EntityId
union [] ys = ys
union (x ∷ xs) ys = add x (union xs ys)

-- `xs & ys`, as a test
abbrev pub meets : List EntityId → List EntityId → Bool
meets [] ys = false
meets (x ∷ xs) ys = elem x ys || meets xs ys

-- `xs <= ys`
abbrev pub is_subset : List EntityId → List EntityId → Bool
is_subset [] ys = true
is_subset (x ∷ xs) ys = elem x ys && is_subset xs ys

pub elem-union :
    (a : EntityId) (xs ys : List EntityId) → elem a (union xs ys) ≡ elem a xs || elem a ys
elem-union a [] ys = refl
elem-union a (x ∷ xs) ys = ground (arith, elem-add a x (union xs ys), elem-union a xs ys)

-- Sets that do not meet have no element in common.
pub meets_lem :
    (a : EntityId) (xs ys : List EntityId)
    → meets xs ys ≡ false
    → elem a xs ≡ true
    → elem a ys ≡ false
meets_lem a (x ∷ xs) ys h m =
    ground (arith, meets_lem a xs ys, pair_same_iff a x, λ (p : a ≡ x). ap (λ b. elem b ys) p)
meets_lem a [] ys h m = absurd (cc m)

pub is_subset_lem :
    (a : EntityId) (xs ys : List EntityId)
    → is_subset xs ys ≡ true
    → elem a xs ≡ true
    → elem a ys ≡ true
is_subset_lem a (x ∷ xs) ys h m =
    ground (arith, is_subset_lem a xs ys, pair_same_iff a x, λ (p : a ≡ x). ap (λ b. elem b ys) p)
is_subset_lem a [] ys h m = absurd (cc m)
