-- ===== src/Exposure/Queries/Companies.antt =====
-- The lists of companies that the queries of exposure/queries.py make of sets of keys.
use coruscant.Prelude.{
  ◌≡◌, ◌↔◌, refl, sym, ap, ◌∙◌, String, true, List, [], ◌∷◌, map, elem, elem_iff, Distinct, Memᴰ,
  Memᴰ-map, string_eq, string_ord, subst,
}
use coruscant.Prelude.Sort.{sort_by, Memᴰ-sort_by, Distinct-map-sort_by}
use coruscant.Prelude.Groups.{set_of, elem-set_of}
use coruscant.Graph.Types.{GraphEdge}
use coruscant.Graph.Memory.{Store}
use coruscant.Exposure.Ownership.{EntityRef, ref}

pub map_id : (keys : List String) → map (λ key. key) keys ≡ keys
map_id [] = refl
map_id (key ∷ keys) = ap (◌∷◌ key) (map_id keys)

module _ (s : Store) where
  -- `[_ref(store, "Company", key) for key in sorted(keys)]`
  abbrev pub companies : List String → List EntityRef
  companies keys = map (λ key. ref s ("Company", key)) (sort_by (λ key. key) keys)

  pub companies_iff :
      (keys : List String) (r : EntityRef)
      → Memᴰ r (companies keys)
        ↔ ((key : String) × (elem key keys ≡ true) × (r ≡ ref s ("Company", key)))
  companies_iff keys r = (
    λ m.
        let (key, n, same) =
          (Memᴰ-map (λ (key : String). ref s ("Company", key)) r (sort_by (λ key. key) keys)).0 m in
        (key, (elem_iff key keys).1 ((Memᴰ-sort_by (λ key. key) key keys).0 n), same),
    λ (key, listed, same).
        (Memᴰ-map (λ (key : String). ref s ("Company", key)) r (sort_by (λ key. key) keys)).1
          (key, (Memᴰ-sort_by (λ key. key) key keys).1 ((elem_iff key keys).0 listed), same),
  )

  keys-of-refs :
      (keys : List String)
      → map (λ r. r.key) (map (λ key. ref s ("Company", key)) keys) ≡ map (λ key. key) keys
  unfolding ref
  keys-of-refs [] = refl
  keys-of-refs (key ∷ keys) = ap (◌∷◌ key) (keys-of-refs keys)

  pub companies-Distinct :
      (keys : List String) → Distinct keys → Distinct (map (λ r. r.key) (companies keys))
  companies-Distinct keys apart = subst Distinct (sym (keys-of-refs (sort_by (λ key. key) keys))) (
      Distinct-map-sort_by (λ key. key) (λ key. key) keys
        (subst Distinct (sym (map_id keys)) apart))

-- `{edge.source_key for edge in edges}`
pub source_keys_iff :
    (key : String) (es : List GraphEdge)
    → (elem key (set_of (map (λ e. e.source_key) es)) ≡ true)
      ↔ ((e : GraphEdge) × Memᴰ e es × (key ≡ e.source_key))
source_keys_iff key es =
    let keys = map (λ (e : GraphEdge). e.source_key) es in
    let listed = Memᴰ-map (λ (e : GraphEdge). e.source_key) key es in
    (
      λ h. listed.0 ((elem_iff key keys).0 (sym (elem-set_of key keys) ∙ h)),
      λ found. elem-set_of key keys ∙ (elem_iff key keys).1 (listed.1 found),
    )
