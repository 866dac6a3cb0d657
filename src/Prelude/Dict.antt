-- ===== src/Prelude/Dict.antt =====
-- A Python dict, in insertion order: a write to a key that is there keeps its place.
use mathlib.Core.Path.{◌≡◌, refl}
use mathlib.Core.Bool.{false, ◌||◌}
use mathlib.Core.Option.{Option, none, some}
use mathlib.Core.List.{List, [], ◌∷◌, ◌++◌, map, Memᴰ}
use native.Mathlib.Omega.{arith}
use mathlib.Core.Logic.{◌↔◌, inl, inr}
use coruscant.Prelude.Tests.{if◌then◌else◌, Bool-cases}
use coruscant.Prelude.Lists.{All}
use coruscant.Prelude.Equality.{Eq, ◌==◌, elem, Distinct}

abbrev pub Dict {ℓ κ} : Type ℓ → Type κ → Type (ℓ ⊔ κ)
Dict K V = List (K × V)

module _ {ℓ κ} {K : Type ℓ} {V : Type κ} ⦃e : Eq K⦄ where
  -- `d.get(k)`
  abbrev pub get : K → Dict K V → Option V
  get k [] = none
  get k ((j, v) ∷ d) = if j == k then some v else get k d

  -- `d[k] = v`
  abbrev pub set : K → V → Dict K V → Dict K V
  set k v [] = (k, v) ∷ []
  set k v ((j, w) ∷ d) = if j == k then (j, v) ∷ d else (j, w) ∷ set k v d

  -- `d.get(k, v)`
  abbrev pub get_or : K → V → Dict K V → V
  get_or k v d = elim (get k d) [ none ↦ v | some w ↦ w ]

  abbrev pub keys : Dict K V → List K
  keys = map (λ entry. entry.0)

  pub get-set :
      (k j : K) (v : V) (d : Dict K V) → get j (set k v d) ≡ (if k == j then some v else get j d)
  get-set k j v [] = refl
  get-set k j v ((i, w) ∷ d) =
      ground (arith, get-set k j v d, e.same_iff i k, e.same_iff i j, e.same_iff k j)

  pub elem-set :
      (j k : K) (v : V) (d : Dict K V) → elem j (keys (set k v d)) ≡ (j == k || elem j (keys d))
  elem-set j k v [] = refl
  elem-set j k v ((i, w) ∷ d) =
      ground (arith, elem-set j k v d, e.same_iff i k, e.same_iff j i, e.same_iff j k)

  pub set-Distinct :
      (k : K) (v : V) (d : Dict K V) → Distinct (keys d) → Distinct (keys (set k v d))
  set-Distinct k v [] h = (refl, tt)
  set-Distinct k v ((i, w) ∷ d) h =
      ground (arith, set-Distinct k v d h.1, elem-set i k v d, e.same_iff i k)

  -- A write of a new key goes to the end.
  pub set_new :
      (k : K) (v : V) (d : Dict K V) → elem k (keys d) ≡ false → set k v d ≡ d ++ (k, v) ∷ []
  set_new k v [] h = refl
  set_new k v ((i, w) ∷ d) h = ground (arith, set_new k v d, e.same_iff i k, e.same_iff k i)

  pub get-eq-none_iff : (k : K) (d : Dict K V) → (get k d ≡ none) ↔ (elem k (keys d) ≡ false)
  get-eq-none_iff k [] = (λ _. refl, λ _. refl)
  get-eq-none_iff k ((i, w) ∷ d) =
      ground (arith, get-eq-none_iff k d, e.same_iff i k, e.same_iff k i)

  pub set-All {μ} :
      (P : K × V → Type μ) (k : K) (v : V) (d : Dict K V)
      → All P d
      → ((j : K) → j ≡ k → P (j, v))
      → All P (set k v d)
  set-All P k v [] h p = (p k refl, tt)
  set-All P k v ((i, w) ∷ d) h p = elim (Bool-cases (i == k)) [
    | inl eq ↦ rw eq (p i ((e.same_iff i k).0 eq), h.1)
    | inr ne ↦ rw ne (h.0, set-All P k v d h.1 p)
  ]

  pub mem_of_get : (k : K) (v : V) (d : Dict K V) → get k d ≡ some v → Memᴰ {A = K × V} (k, v) d
  mem_of_get k v [] h = absurd (cc h)
  mem_of_get k v ((i, w) ∷ d) h = elim (Bool-cases (i == k)) [
    | inl eq ↦
        let p : i ≡ k = (e.same_iff i k).0 eq in
        let q : w ≡ v = ground (arith, eq, h) in Memᴰ.head (rw (p, q) refl)
    | inr ne ↦ Memᴰ.tail (mem_of_get k v d (ground (arith, ne, h)))
  ]

  -- `d.pop(k, None)`
  abbrev pub remove : K → Dict K V → Dict K V
  remove k [] = []
  remove k ((j, v) ∷ d) = if j == k then remove k d else (j, v) ∷ remove k d

  pub get-remove :
      (k j : K) (d : Dict K V) → get j (remove k d) ≡ (if k == j then none else get j d)
  get-remove k j [] = ground arith
  get-remove k j ((i, w) ∷ d) =
      ground (arith, get-remove k j d, e.same_iff i k, e.same_iff i j, e.same_iff k j)
