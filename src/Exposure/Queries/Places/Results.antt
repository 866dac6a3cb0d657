-- ===== src/Exposure/Queries/Places/Results.antt =====
-- What `jurisdiction_exposure` reports.
use mathlib.Core.List.{append_assoc, append-nil}
use coruscant.Prelude.{
  ◌≡◌, ◌↔◌, refl, sym, ap, ◌∙◌, subst, String, ◌||◌, Option, none, some, List, [], ◌∷◌, ◌++◌, map,
  keep, foldl, elem, elem_iff, Distinct, Memᴰ, Memᴰ-map, Memᴰ-keep, arith, ◌==◌, string_eq,
  string_ord, Option-cases, inl, inr,
}
use coruscant.Prelude.Dict
use coruscant.Prelude.Dict.{Dict, elem-set, get-set, set-Distinct}
use coruscant.Prelude.Sort.{sort_by, Memᴰ-sort_by, Distinct-map-sort_by}
use coruscant.Exposure.Queries.Companies.{map_id}
use coruscant.Graph.Types.{GraphEdge}
use coruscant.Graph.Memory.{Store, edges_by_relation, target_of}
use coruscant.Graph.Substrate.{get_str}
use coruscant.Exposure.Ownership.{ref, name_of}
use coruscant.Exposure.Queries.Props.{Text}
use coruscant.Exposure.Queries.Network.Pairs.{IsNetwork, network-IsNetwork}
use coruscant.Exposure.Queries.Places.{
  JurisdictionFootprint, jurisdiction_exposure, registered, jurisdiction_of, normalize_jurisdiction,
  add_subsidiary, add_source, footprint,
}

module _ (s : Store) where
  -- The names under a company are those of its edges, in their order.
  get_or-subsidiaries :
      (key : String) (d : Dict String (List String)) (es : List GraphEdge)
      → Dict.get_or key [] (foldl (add_subsidiary s) d es)
        ≡ Dict.get_or key [] d
          ++ map (λ e. name_of s (target_of e)) (keep (λ e. e.source_key == key) es)
  unfolding add_subsidiary
  get_or-subsidiaries key d [] = sym (append-nil (Dict.get_or key [] d))
  get_or-subsidiaries key d (e ∷ es) =
      let names = map (λ x. name_of s (target_of x)) (keep (λ x. x.source_key == key) es) in
      ground (
        arith,
        get_or-subsidiaries key (add_subsidiary s d e) es,
        get-set e.source_key key (Dict.get_or e.source_key [] d ++ name_of s (target_of e) ∷ []) d,
        string_eq.same_iff e.source_key key,
        append_assoc (Dict.get_or key [] d) (name_of s (target_of e) ∷ []) names,
      )

  elem-subsidiaries :
      (key : String) (d : Dict String (List String)) (es : List GraphEdge)
      → elem key (Dict.keys (foldl (add_subsidiary s) d es))
        ≡ elem key (map (λ e. e.source_key) es) || elem key (Dict.keys d)
  unfolding add_subsidiary
  elem-subsidiaries key d [] = refl
  elem-subsidiaries key d (e ∷ es) = ground (
    arith,
    elem-subsidiaries key (add_subsidiary s d e) es,
    elem-set key e.source_key (Dict.get_or e.source_key [] d ++ name_of s (target_of e) ∷ []) d,
  )

  subsidiaries-Distinct :
      (d : Dict String (List String)) (es : List GraphEdge)
      → Distinct (Dict.keys d)
      → Distinct (Dict.keys (foldl (add_subsidiary s) d es))
  unfolding add_subsidiary
  subsidiaries-Distinct d [] h = h
  subsidiaries-Distinct d (e ∷ es) h = subsidiaries-Distinct (add_subsidiary s d e) es (
      set-Distinct e.source_key (Dict.get_or e.source_key [] d ++ name_of s (target_of e) ∷ []) d h)

-- The provenance of a company is that of its first edge.
abbrev pub first_source : List GraphEdge → Option String
first_source [] = none
first_source (e ∷ es) = get_str "source_uri" e.properties

get_or-sources :
    (key : String) (d : Dict String (Option String)) (es : List GraphEdge)
    → Dict.get_or key none (foldl add_source d es) ≡ elim (Dict.get key d) [
      | some source ↦ source
      | none ↦ first_source (keep (λ e. e.source_key == key) es)
    ]
unfolding add_source
get_or-sources key d [] = ground arith
get_or-sources key d (e ∷ es) = elim (Option-cases (Dict.get e.source_key d)) [
  | inl new ↦ ground (
    arith,
    new,
    get_or-sources key (Dict.set e.source_key (get_str "source_uri" e.properties) d) es,
    get-set e.source_key key (get_str "source_uri" e.properties) d,
    string_eq.same_iff e.source_key key,
  )
  | inr (source, old) ↦
      ground (arith, old, get_or-sources key d es, string_eq.same_iff e.source_key key)
]

module _ (s : Store) (es : List GraphEdge) where
  -- The edges of one company.
  abbrev pub edges_from : String → List GraphEdge
  edges_from key = keep (λ e. e.source_key == key) es

  -- What is reported on a company: its subsidiaries in order, and the provenance of its first edge.
  abbrev pub footprint_of : String → JurisdictionFootprint
  footprint_of key = record {
    company = ref s ("Company", key);
    subsidiaries = sort_by (λ name. name) (map (λ e. name_of s (target_of e)) (edges_from key));
    source = first_source (edges_from key);
  }

  subsidiaries_of : Dict String (List String)
  subsidiaries_of = foldl (add_subsidiary s) [] es

  footprints : List JurisdictionFootprint
  unfolding subsidiaries_of
  footprints =
      map (footprint s subsidiaries_of (foldl add_source [] es))
        (sort_by (λ key. key) (Dict.keys subsidiaries_of))

  footprint-eq :
      (key : String) → footprint s subsidiaries_of (foldl add_source [] es) key ≡ footprint_of key
  unfolding footprint subsidiaries_of
  footprint-eq key = ground (arith, get_or-subsidiaries s key [] es, get_or-sources key [] es)

  listed_iff :
      (key : String)
      → Memᴰ key (sort_by (λ k. k) (Dict.keys subsidiaries_of))
        ↔ ((e : GraphEdge) × Memᴰ e es × (key ≡ e.source_key))
  unfolding subsidiaries_of
  listed_iff key =
      let keys = Dict.keys (foldl (add_subsidiary s) [] es) in
      let sources = map (λ (e : GraphEdge). e.source_key) es in
      let same : elem key keys ≡ elem key sources = ground (arith, elem-subsidiaries s key [] es) in
      (
        λ m. (Memᴰ-map (λ (e : GraphEdge). e.source_key) key es).0 (
            (elem_iff key sources).0
              (sym same ∙ (elem_iff key keys).1 ((Memᴰ-sort_by (λ k. k) key keys).0 m))),
        λ found. (Memᴰ-sort_by (λ k. k) key keys).1 (
            (elem_iff key keys).0 (
              same
              ∙ (elem_iff key sources).1
                  ((Memᴰ-map (λ (e : GraphEdge). e.source_key) key es).1 found))),
      )

  footprints_iff :
      (f : JurisdictionFootprint)
      → Memᴰ f footprints ↔ ((e : GraphEdge) × Memᴰ e es × (f ≡ footprint_of e.source_key))
  unfolding footprints
  footprints_iff f =
      let make = footprint s subsidiaries_of (foldl add_source [] es) in
      let keys = sort_by (λ k. k) (Dict.keys subsidiaries_of) in
      (
        λ m.
            let (key, n, same) = (Memᴰ-map make f keys).0 m in
            let (e, there, is) = (listed_iff key).0 n in
            (e, there, same ∙ footprint-eq key ∙ ap footprint_of is),
        λ (e, there, same). (Memᴰ-map make f keys).1 (
          e.source_key,
          (listed_iff e.source_key).1 (e, there, refl),
          same ∙ sym (footprint-eq e.source_key),
        ),
      )

  keys-of-footprints :
      (keys : List String)
      → map (λ f. f.company.key) (map (footprint s subsidiaries_of (foldl add_source [] es)) keys)
        ≡ map (λ k. k) keys
  unfolding footprint ref
  keys-of-footprints [] = refl
  keys-of-footprints (key ∷ keys) = ap (◌∷◌ key) (keys-of-footprints keys)

  footprints-Distinct : Distinct (map (λ f. f.company.key) footprints)
  unfolding footprints subsidiaries_of
  footprints-Distinct =
      let keys = Dict.keys subsidiaries_of in
      subst Distinct (sym (keys-of-footprints (sort_by (λ k. k) keys))) (
        Distinct-map-sort_by (λ k. k) (λ k. k) keys
          (subst Distinct (sym (map_id keys)) (subsidiaries-Distinct s [] es tt)))

-- The edges of a company that is registered: its `has_subsidiary` edges to the jurisdiction.
pub registered_iff :
    (t : Text) (s : Store) (target : String) (e : GraphEdge)
    → Memᴰ e (registered t s target)
      ↔ (Memᴰ e (edges_by_relation s "has_subsidiary") × (jurisdiction_of t e ≡ target))
unfolding registered
registered_iff t s target e = ground (
  arith,
  Memᴰ-keep (λ (x : GraphEdge). jurisdiction_of t x == target) e
      (edges_by_relation s "has_subsidiary"),
  string_eq.same_iff (jurisdiction_of t e) target,
)

-- The direct part of `jurisdiction_exposure` has one footprint for each company with a `has_subsidiary`
-- edge whose jurisdiction is the one asked for, both normalised; the footprint has the names of all
-- its subsidiaries there in order, and the source of its first edge. The network part is the report
-- on the `references` edges for a set of companies that are these.
pub jurisdiction_exposure_iff :
    (t : Text) (s : Store) (jurisdiction : String)
    → let r = jurisdiction_exposure t s jurisdiction in
      let es = registered t s (normalize_jurisdiction t jurisdiction) in
      ((f : JurisdictionFootprint)
        → Memᴰ f r.direct ↔ (
            (e : GraphEdge) × Memᴰ e (edges_by_relation s "has_subsidiary")
            × (jurisdiction_of t e ≡ normalize_jurisdiction t jurisdiction)
            × (f ≡ footprint_of s es e.source_key)))
      × Distinct (map (λ f. f.company.key) r.direct)
      × ((exposed : List String) × ((key : String)
            → elem key exposed ≡ elem key (map (λ e. e.source_key) es))
          × IsNetwork s exposed r.network)
unfolding jurisdiction_exposure footprints subsidiaries_of
jurisdiction_exposure_iff t s jurisdiction =
    let target = normalize_jurisdiction t jurisdiction in
    let es = registered t s target in
    let exposed = Dict.keys (subsidiaries_of s es) in
    (
      λ f. (
        λ m.
            let (e, there, same) = (footprints_iff s es f).0 m in
            let (is, here) = (registered_iff t s target e).0 there in (e, is, here, same),
        λ (e, is, here, same).
            (footprints_iff s es f).1 (e, (registered_iff t s target e).1 (is, here), same),
      ),
      footprints-Distinct s es,
      (exposed, λ key. ground (arith, elem-subsidiaries s key [] es), network-IsNetwork s exposed),
    )
