-- ===== src/Exposure/Queries/Places.antt =====
-- The queries on countries and jurisdictions of exposure/queries.py, and `entity_key` of
-- exposure/entities.py, which gives the key of a country.
pub mod Results
use coruscant.Prelude.{
  ℕ, String, Bool, false, true, not, ◌&&◌, ◌||◌, Option, none, some, List, [], ◌∷◌, ◌++◌, map,
  foldl, keep, length, elem, leb, ◌==◌, if◌then◌else◌, string_eq, nat_eq, string_ord, pair_ord,
  Descending, descending_ord, pair_eq,
}
use coruscant.Prelude.Dict
use coruscant.Prelude.Dict.{Dict}
use coruscant.Prelude.Sort.{sort_by}
use coruscant.Prelude.Groups.{group}
use coruscant.Graph.Types.{GraphEdge, Properties}
use coruscant.Graph.Memory.{
  Store, incoming, outgoing, edges_by_relation, source_of, target_of, get_node,
}
use coruscant.Graph.Substrate.{get_str}
use coruscant.Exposure.Ownership.{EntityRef, ref, name_of}
use coruscant.Exposure.Queries.Props.{Text, text, text_or, replace_nbsp, provenance, or_text}
use coruscant.Exposure.Queries.Network.{NetworkProximity, network}
use Prim.Native.Char.{Char, code}

pub record ExposurePath : Type 0 where
  pub company : EntityRef
  pub via : EntityRef
  pub relation : String
  pub source : Option String

pub record ExposureResult : Type 0 where
  pub country : String
  pub direct : List EntityRef
  pub exposed : List ExposurePath

pub record JurisdictionCount : Type 0 where
  pub jurisdiction : String
  pub companies : ℕ

pub record JurisdictionFootprint : Type 0 where
  pub company : EntityRef
  pub subsidiaries : List String
  pub source : Option String

pub record JurisdictionExposure : Type 0 where
  pub jurisdiction : String
  pub direct : List JurisdictionFootprint
  pub network : List NetworkProximity

-- `[a-z0-9]`
abbrev in_slug : Char → Bool
in_slug c = leb 97 (code c) && leb (code c) 122 || leb 48 (code c) && leb (code c) 57

-- `re.sub(r"[^a-z0-9]+", "-", s)`; the flag says that the run before is replaced
unfoldable pub slug : Bool → String → String
slug in_run String.[] = String.[]
slug in_run (String.◌∷◌ c s) =
    let rest = slug false s in
    let skipped = slug true s in
    if in_slug c then String.◌∷◌ c rest else if in_run then skipped else String.◌∷◌ "-" skipped

-- `s.strip("-")`, from the left and from the right
unfoldable pub strip_left : String → String
strip_left String.[] = String.[]
strip_left (String.◌∷◌ c s) =
    let rest = strip_left s in if code c == 45 then rest else String.◌∷◌ c s

unfoldable pub strip_right : String → String
strip_right String.[] = String.[]
strip_right (String.◌∷◌ c s) =
    let rest = strip_right s in if code c == 45 && rest == "" then String.[] else String.◌∷◌ c rest

unfoldable pub entity_key : Text → String → String
unfolding slug strip_left strip_right
entity_key t name =
    let key = strip_right (strip_left (slug false (t.lower name))) in
    if key == "" then "entity" else key

module _ (s : Store) where
  -- The body of the inner loop of `exposure_to_country`.
  unfoldable pub exposure_path : EntityRef → GraphEdge → ExposurePath
  exposure_path operator e = record {
    company = ref s (source_of e);
    via = operator;
    relation = "relies_on_supplier";
    source = some (or_text (provenance e.properties) "reference-entities");
  }

  unfoldable pub exposure_paths : List GraphEdge → List ExposurePath
  unfolding exposure_path
  exposure_paths [] = []
  exposure_paths (e ∷ es) =
      map (exposure_path (ref s (source_of e)))
        (keep (λ x. x.relation == "relies_on_supplier") (incoming s (source_of e)))
      ++ exposure_paths es

  unfoldable pub exposure_to_country : Text → String → ExposureResult
  exposure_to_country t country =
      let key = entity_key t country in
      let operators =
        keep (λ (e : GraphEdge). e.relation == "operates_in") (incoming s ("Country", key)) in
      record {
        country = name_of s ("Country", key);
        direct = map (λ e. ref s (source_of e)) operators;
        exposed = exposure_paths operators;
      }

  -- (country, supplier), for the suppliers on a list of edges
  unfoldable pub countries_of : List GraphEdge → List (String × String)
  countries_of [] = []
  countries_of (e ∷ es) =
      let supplier = name_of s (target_of e) in
      map (λ x. (name_of s (target_of x), supplier))
        (keep (λ (x : GraphEdge). x.relation == "operates_in") (outgoing s (target_of e)))
      ++ countries_of es

  unfoldable pub company_country_exposures : String → List (String × String)
  company_country_exposures key =
      countries_of
        (keep (λ (e : GraphEdge). e.relation == "relies_on_supplier") (outgoing s ("Company", key)))

module _ (t : Text) where
  -- `_normalize_jurisdiction`
  unfoldable pub normalize_jurisdiction : String → String
  normalize_jurisdiction value = t.strip (replace_nbsp value)

  -- `_normalize_jurisdiction(str(edge.properties.get("jurisdiction", "")))`
  unfoldable pub jurisdiction_of : GraphEdge → String
  unfolding normalize_jurisdiction
  jurisdiction_of e =
      normalize_jurisdiction
        (elim (Dict.get "jurisdiction" e.properties) [ none ↦ "" | some v ↦ text t v ])

  -- the edges of the loop of `jurisdiction_exposure` that pass its test
  unfoldable pub registered : Store → String → List GraphEdge
  unfolding jurisdiction_of
  registered s target =
      keep (λ e. jurisdiction_of e == target) (edges_by_relation s "has_subsidiary")

-- `lambda c: (-c.companies, c.jurisdiction)`
abbrev by_companies : JurisdictionCount → Descending × String
by_companies c = (record { rank = c.companies }, c.jurisdiction)

unfoldable pub list_jurisdictions : Text → Store → List JurisdictionCount
unfolding jurisdiction_of
list_jurisdictions t s =
    let named =
      keep (λ e. not (jurisdiction_of t e == "")) (edges_by_relation s "has_subsidiary") in
    let companies = group [] (map (λ e. (jurisdiction_of t e, e.source_key)) named) in
    sort_by by_companies
      (map (λ entry. record { jurisdiction = entry.0; companies = length entry.1 }) companies)

-- `d.setdefault(company, []).append(subsidiary)`
unfoldable pub add_subsidiary :
    Store → Dict String (List String) → GraphEdge → Dict String (List String)
add_subsidiary s d e =
    Dict.set e.source_key (Dict.get_or e.source_key [] d ++ name_of s (target_of e) ∷ []) d

-- `d.setdefault(company, source)`
unfoldable pub add_source : Dict String (Option String) → GraphEdge → Dict String (Option String)
add_source d e = elim (Dict.get e.source_key d) [
  | none ↦ Dict.set e.source_key (get_str "source_uri" e.properties) d
  | some source ↦ d
]

unfoldable pub footprint :
    Store → Dict String (List String) → Dict String (Option String) → String → JurisdictionFootprint
footprint s subs sources key = record {
  company = ref s ("Company", key);
  subsidiaries = sort_by (λ name. name) (Dict.get_or key [] subs);
  source = Dict.get_or key none sources;
}

unfoldable pub jurisdiction_exposure : Text → Store → String → JurisdictionExposure
unfolding normalize_jurisdiction registered add_subsidiary add_source footprint
jurisdiction_exposure t s jurisdiction =
    let target = normalize_jurisdiction t jurisdiction in
    let edges = registered t s target in
    let subs = foldl (add_subsidiary s) [] edges in
    let sources = foldl add_source [] edges in
    record {
      jurisdiction = target;
      direct = map (footprint s subs sources) (sort_by (λ key. key) (Dict.keys subs));
      network = network s (Dict.keys subs);
    }
