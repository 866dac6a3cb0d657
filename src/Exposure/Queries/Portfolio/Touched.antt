-- ===== src/Exposure/Queries/Portfolio/Touched.antt =====
-- The loop of `portfolio_exposure` over the exposed companies.
use mathlib.Core.List.Memᴰ
use coruscant.Prelude.{
  Memᴰ-map, ℕ, ◌+◌, ◌≤◌, ◌≡◌, ◌↔◌, refl, sym, ap, ◌∙◌, subst, String, true, false, some, List, [],
  ◌∷◌, elem, elem_iff, Distinct, Memᴰ, Memᴰ-cons, arith, ◌==◌, string_eq, inl, inr, Option-cases,
  Bool-cases,
}
use coruscant.Prelude.Dict
use coruscant.Prelude.Dict.{Dict, get-remove}
use coruscant.Exposure.Queries.Portfolio.{touched, total}

module _ (values : Dict String ℕ) where
  -- The entries are those of the book whose keys are on the list.
  pub touched_iff :
      (key : String) (value : ℕ) (seen keys : List String)
      → Memᴰ {A = String × ℕ} (key, value) (touched values seen keys)
        ↔ ((elem key keys ≡ true) × (elem key seen ≡ false) × (Dict.get key values ≡ some value))
  unfolding touched
  touched_iff key value seen [] = (λ m. absurd (Memᴰ.not-nil m), λ (h, _, _). absurd (cc h))
  touched_iff key value seen (k ∷ ks) =
      let IsFound = λ (found : Dict String ℕ). Memᴰ {A = String × ℕ} (key, value) found ↔ (
        (elem key (k ∷ ks) ≡ true)
        × (elem key seen ≡ false)
        × (Dict.get key values ≡ some value)) in
      elim (Option-cases (Dict.get k values)) [
        | inl missing ↦
            let same : touched values seen (k ∷ ks) ≡ touched values seen ks =
              ground (arith, missing) in
            subst IsFound (sym same) (
              ground (
                arith,
                touched_iff key value seen ks,
                missing,
                string_eq.same_iff key k,
                λ (p : key ≡ k). ap (λ i. Dict.get i values) p,
              ))
        | inr (v, there) ↦ elim (Bool-cases (elem k seen)) [
          | inl old ↦
              let same : touched values seen (k ∷ ks) ≡ touched values seen ks =
                ground (arith, there, old) in
              subst IsFound (sym same) (
                ground (
                  arith,
                  touched_iff key value seen ks,
                  old,
                  string_eq.same_iff key k,
                  λ (p : key ≡ k). ap (λ i. elem i seen) p,
                ))
          | inr new ↦
              let same : touched values seen (k ∷ ks) ≡ (k, v) ∷ touched values (k ∷ seen) ks =
                ground (arith, there, new) in
              subst IsFound (sym same) (
                ground (
                  arith,
                  touched_iff key value (k ∷ seen) ks,
                  Memᴰ-cons {A = String × ℕ} (key, value) (k, v) (touched values (k ∷ seen) ks),
                  there,
                  new,
                  string_eq.same_iff key k,
                  λ (p : key ≡ k). ap (λ i. elem i seen) p,
                  λ (p : key ≡ k). ap (λ i. Dict.get i values) p,
                ))
        ]
      ]

  elem-touched :
      (key : String) (seen keys : List String)
      → elem key seen ≡ true
      → elem key (Dict.keys (touched values seen keys)) ≡ false
  unfolding touched
  elem-touched key seen [] h = refl
  elem-touched key seen (k ∷ ks) h =
      ground (
        arith,
        elem-touched key seen ks h,
        elem-touched key (k ∷ seen) ks,
        string_eq.same_iff key k,
      )

  -- No company is reported twice.
  pub touched-Distinct : (seen keys : List String) → Distinct (Dict.keys (touched values seen keys))
  unfolding touched
  touched-Distinct seen [] = tt
  touched-Distinct seen (k ∷ ks) = ground (
    arith,
    touched-Distinct seen ks,
    touched-Distinct (k ∷ seen) ks,
    elem-touched k (k ∷ seen) ks,
    string_eq.same_iff k k,
  )

total-remove-le : (key : String) (d : Dict String ℕ) → total (Dict.remove key d) ≤ total d
total-remove-le key [] = omega arith
total-remove-le key ((k, v) ∷ d) = ground (arith, total-remove-le key d)

-- What is taken out of a book is worth no more than the book.
total-remove :
    (key : String) (value : ℕ) (d : Dict String ℕ)
    → Dict.get key d ≡ some value
    → value + total (Dict.remove key d) ≤ total d
total-remove key value [] h = absurd (cc h)
total-remove key value ((k, v) ∷ d) h =
    ground (arith, total-remove-le key d, total-remove key value d)

other_key :
    (k j : String) (w : ℕ) (found : Dict String ℕ)
    → elem k (Dict.keys found) ≡ false
    → Memᴰ {A = String × ℕ} (j, w) found
    → (k == j) ≡ false
other_key k j w found new m =
    let listed : elem j (Dict.keys found) ≡ true =
      (elem_iff j (Dict.keys found)).1
        ((Memᴰ-map (λ (entry : String × ℕ). entry.0) j found).1 ((j, w), m, refl)) in
    ground (
      arith,
      listed,
      new,
      string_eq.same_iff k j,
      λ (p : k ≡ j). ap (λ i. elem i (Dict.keys found)) p,
    )

-- Entries of a book under different keys are worth no more than the book.
pub total_of_entries :
    (found d : Dict String ℕ)
    → Distinct (Dict.keys found)
    → ((k : String) (v : ℕ) → Memᴰ {A = String × ℕ} (k, v) found → Dict.get k d ≡ some v)
    → total found ≤ total d
total_of_entries [] d apart held = omega arith
total_of_entries ((k, v) ∷ found) d apart held =
    let rest : total found ≤ total (Dict.remove k d) =
      total_of_entries found (Dict.remove k d) apart.1 (λ j w m.
        let other : (k == j) ≡ false = other_key k j w found apart.0 m in
        get-remove k j d ∙ rw other (held j w (Memᴰ.tail m))) in
    omega (arith, total-remove k v d (held k v (Memᴰ.head refl)), rest)
