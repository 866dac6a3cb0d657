-- ===== src/Exposure/Contagion/Links.antt =====
-- What `_classify_link` says of a path.
use coruscant.Prelude.{
  ◌≡◌, refl, ap, ◌⊎◌, inl, inr, ◌≢◌, true, false, none, some, List, [], ◌∷◌, ◌++◌, All, arith,
  Bool-cases,
}
use coruscant.Exposure.Contagion.{
  ContagionHop, Direction, go_up, go_down, parent, subsidiary, shares_owner, all_up, all_down,
  last_up, classify_link,
}

abbrev pub IsUp : ContagionHop → Type 0
IsUp h = h.direction ≡ go_up

abbrev pub IsDown : ContagionHop → Type 0
IsDown h = h.direction ≡ go_down

Direction-cases : (d : Direction) → (d ≡ go_up) ⊎ (d ≡ go_down)
Direction-cases go_up = inl refl
Direction-cases go_down = inr refl

all_up_lem : (path : List ContagionHop) → all_up path ≡ true → All IsUp path
unfolding all_up
all_up_lem [] h = tt
all_up_lem (x ∷ xs) h = elim (Direction-cases x.direction) [
  | inl u ↦ (u, all_up_lem xs (ground (arith, u, h)))
  | inr d ↦ absurd (ground (arith, d, h))
]

not_all_up : (path : List ContagionHop) → all_up path ≡ false → ¬ All IsUp path
unfolding all_up
not_all_up [] h = absurd (cc h)
not_all_up (x ∷ xs) h = λ k. not_all_up xs (ground (arith, k.0, h)) k.1

all_down_lem : (path : List ContagionHop) → all_down path ≡ true → All IsDown path
unfolding all_down
all_down_lem [] h = tt
all_down_lem (x ∷ xs) h = elim (Direction-cases x.direction) [
  | inl u ↦ absurd (ground (arith, u, h))
  | inr d ↦ (d, all_down_lem xs (ground (arith, d, h)))
]

-- The path, split at its last hop that goes up.
abbrev IsSplit : List ContagionHop → ContagionHop → List ContagionHop → Type 0
IsSplit path pivot after =
    (before : List ContagionHop) × (path ≡ before ++ pivot ∷ after)
    × IsUp pivot
    × (all_down after ≡ true)

last_up-cases :
    (path : List ContagionHop)
    → ((last_up path ≡ none) × (all_down path ≡ true))
      ⊎ ((pivot : ContagionHop) × (after : List ContagionHop) × (last_up path ≡ some (pivot, after))
          × IsSplit path pivot after)
unfolding last_up all_down
last_up-cases [] = inl (refl, refl)
last_up-cases (x ∷ xs) = elim (last_up-cases xs) [
  | inr (pivot, after, e, (before, p, up, down)) ↦
      inr (pivot, after, rw e refl, (x ∷ before, ap (◌∷◌ x) p, up, down))
  | inl (e, down) ↦ elim (Direction-cases x.direction) [
    | inl u ↦ inr (x, xs, rw (e, u) refl, ([], refl, u, down))
    | inr d ↦ inl (rw (e, d) refl, rw d down)
  ]
]

-- How the path of one hop or more is named: `parent` if all its hops go up, `subsidiary` if all go
-- down, and in every other case `shares-owner`, with the end of the last hop that goes up as the
-- shared owner, whatever stands before that hop. So `group` is never said of such a path.
pub classify_link-cases :
    (path : List ContagionHop)
    → path ≢ []
    → (All IsUp path × (classify_link path ≡ (parent, none)))
      ⊎ ((All IsDown path × (classify_link path ≡ (subsidiary, none)))
          ⊎ ((pivot : ContagionHop) × (before : List ContagionHop) × (after : List ContagionHop)
              × (¬ All IsUp path)
              × (path ≡ before ++ pivot ∷ after)
              × IsUp pivot
              × All IsDown after
              × (classify_link path ≡ (shares_owner, some pivot.to_entity))))
unfolding classify_link
classify_link-cases [] proper = absurd (proper refl)
classify_link-cases (x ∷ xs) proper = elim (Bool-cases (all_up (x ∷ xs))) [
  | inl up ↦ inl (all_up_lem (x ∷ xs) up, rw up refl)
  | inr mixed ↦ elim (Bool-cases (all_down (x ∷ xs))) [
    | inl down ↦ inr (inl (all_down_lem (x ∷ xs) down, rw (mixed, down) refl))
    | inr mixed' ↦ elim (last_up-cases (x ∷ xs)) [
      | inl (e, down) ↦ absurd (cc)
      | inr (pivot, after, e, (before, p, u, down)) ↦ inr (
          inr (
            pivot,
            before,
            after,
            not_all_up (x ∷ xs) mixed,
            p,
            u,
            all_down_lem after down,
            rw (mixed, mixed', e, down) refl,
          ))
    ]
  ]
]
