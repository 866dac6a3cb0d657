-- ===== src/Exposure/Queries/Panels.antt =====
-- `screening_overview` and `resolution_overview` of exposure/queries.py: the panels on watchlists and on
-- legal entity identifiers.
use coruscant.Prelude.{
  ℕ, String, Bool, Option, none, some, List, [], ◌++◌, map, count_if, length, Result, ok, ◌>>=◌,
  ◌==◌, string_eq, false, false, true, true,
}
use coruscant.Prelude.Dict
use coruscant.Graph.Types.{GraphEdge, Properties}
use coruscant.Graph.Memory.{Store, get_node, edges_by_relation, source_of, target_of}
use coruscant.Graph.Substrate.{TierArg, visible, tier_of, value, get_str}
use coruscant.Exposure.Ownership.{EntityRef, ref}
use coruscant.Exposure.Queries.Props.{
  Text, int_or_zero, as_float, as_of_date, joined, or_text, provenance, properties_of,
}

pub record ScreeningHit : Type 0 where
  pub person : EntityRef
  pub listing : EntityRef
  pub relation : String
  pub review_status : String
  pub score : Option ℕ
  pub matched_name : Option String
  pub dataset : Option String
  pub source : Option String
  pub source_url : Option String
  pub valid_from : Option String
  pub access_tier : String

pub record ScreeningOverview : Type 0 where
  pub connected : Bool
  pub provider : Option String
  pub dataset : Option String
  pub screened : ℕ
  pub candidates : ℕ
  pub pep : ℕ
  pub sanctioned : ℕ
  pub confirmed : List ScreeningHit
  pub needs_review : List ScreeningHit

pub record LeiAnchor : Type 0 where
  pub entity : EntityRef
  pub lei : String
  pub legal_name : Option String
  pub country : Option String
  pub review_status : String
  pub score : Option ℕ
  pub matched_name : Option String
  pub source_url : Option String
  pub valid_from : Option String
  pub access_tier : String

pub record ResolutionOverview : Type 0 where
  pub connected : Bool
  pub provider : Option String
  pub considered : ℕ
  pub resolved : ℕ
  pub review : ℕ
  pub unresolved : ℕ
  pub companies_resolved : ℕ
  pub subsidiaries_resolved : ℕ
  pub anchors : List LeiAnchor
  pub review_queue : List LeiAnchor

abbrev pub not_screened : ScreeningOverview
not_screened = record {
  connected = false;
  provider = none;
  dataset = none;
  screened = 0;
  candidates = 0;
  pep = 0;
  sanctioned = 0;
  confirmed = [];
  needs_review = [];
}

abbrev pub not_anchored : ResolutionOverview
not_anchored = record {
  connected = false;
  provider = none;
  considered = 0;
  resolved = 0;
  review = 0;
  unresolved = 0;
  companies_resolved = 0;
  subsidiaries_resolved = 0;
  anchors = [];
  review_queue = [];
}

-- `_str_prop(props, "review_status") or ""`
abbrev pub status_of : Properties → String
status_of props = or_text (get_str "review_status" props) ""

module _ (s : Store) where
  -- `_hit`
  unfoldable pub screening_hit : GraphEdge → ScreeningHit
  screening_hit e = record {
    person = ref s (source_of e);
    listing = ref s (target_of e);
    relation = e.relation;
    review_status = status_of e.properties;
    score = as_float (Dict.get "score" e.properties);
    matched_name = get_str "matched_name" e.properties;
    dataset = joined (Dict.get "datasets" e.properties);
    source = provenance e.properties;
    source_url = get_str "source_url" (properties_of (get_node s (target_of e)));
    valid_from = get_str "valid_from" e.properties;
    access_tier = value (tier_of e.properties);
  }

  -- `_lei_anchor`
  unfoldable pub lei_anchor : GraphEdge → LeiAnchor
  lei_anchor e =
      let legal = properties_of (get_node s (target_of e)) in
      record {
        entity = ref s (source_of e);
        lei = e.target_key;
        legal_name = get_str "name" legal;
        country = get_str "country" legal;
        review_status = status_of e.properties;
        score = as_float (Dict.get "score" e.properties);
        matched_name = get_str "matched_name" e.properties;
        source_url = get_str "source_url" legal;
        valid_from = get_str "valid_from" e.properties;
        access_tier = value (tier_of e.properties);
      }

module _ (t : Text) (s : Store) (clearance : TierArg) (as_of : Option String) where
  unfoldable pub screening_overview : Result ScreeningOverview
  screening_overview = elim (get_node s ("ScreeningRun", "latest")) [
    | none ↦ ok not_screened
    | some run ↦ do
      confirmed ←
          visible (as_of_date as_of (edges_by_relation s "pep" ++ edges_by_relation s "sanctioned"))
            clearance
      review ← visible (as_of_date as_of (edges_by_relation s "screening_candidate")) clearance
      screened ← int_or_zero t run.properties "screened"
      candidates ← int_or_zero t run.properties "candidates"
      ok (record {
        connected = true;
        provider = get_str "provider" run.properties;
        dataset = get_str "dataset" run.properties;
        screened = screened;
        candidates = candidates;
        pep = count_if (λ e. e.relation == "pep") confirmed;
        sanctioned = count_if (λ e. e.relation == "sanctioned") confirmed;
        confirmed = map (screening_hit s) confirmed;
        needs_review = map (screening_hit s) review;
      })
  ]

  unfoldable pub resolution_overview : Result ResolutionOverview
  resolution_overview = elim (get_node s ("AnchorRun", "latest")) [
    | none ↦ ok not_anchored
    | some run ↦ do
      anchors ← visible (as_of_date as_of (edges_by_relation s "has_lei")) clearance
      review ← visible (as_of_date as_of (edges_by_relation s "lei_candidate")) clearance
      considered ← int_or_zero t run.properties "considered"
      unresolved ← int_or_zero t run.properties "unresolved"
      companies ← int_or_zero t run.properties "companies_resolved"
      subsidiaries ← int_or_zero t run.properties "subsidiaries_resolved"
      ok (record {
        connected = true;
        provider = get_str "provider" run.properties;
        considered = considered;
        resolved = length anchors;
        review = length review;
        unresolved = unresolved;
        companies_resolved = companies;
        subsidiaries_resolved = subsidiaries;
        anchors = map (lei_anchor s) anchors;
        review_queue = map (lei_anchor s) review;
      })
  ]
