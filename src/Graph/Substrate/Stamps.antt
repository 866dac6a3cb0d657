-- ===== src/Graph/Substrate/Stamps.antt =====
-- What `stamp` writes, and what is read back of it.
use coruscant.Prelude.{
  String, ◌≡◌, refl, ◌≢◌, Option, none, some, arith, ok, ◌==◌, string_eq, if◌then◌else◌, inl, inr,
  Result-cases,
}
use text.Mathlib.TextEquality.{eq_iff}
use coruscant.Prelude.Dict
use coruscant.Graph.Types.{Value, str, Properties}
use coruscant.Graph.Substrate.{
  AccessTier, value, TierArg, coerce_tier, tier_of, get_str, stamp, set_bound,
}
use coruscant.Graph.Substrate.Access.{parse_tier-value}

abbrev pub or_else : Option String → Option String → Option String
or_else none y = y
or_else (some x) y = some x

abbrev set_value : String → Option Value → String → Option Value → Option Value
set_value key none j old = old
set_value key (some v) j old = if key == j then some v else old

abbrev bound : Option String → Option Value
bound none = none
bound (some s) = some (str s)

get-set_bound :
    (key j : String) (m : Option String) (props : Properties)
    → Dict.get j (set_bound key m props) ≡ set_value key (bound m) j (Dict.get j props)
get-set_bound key j none props = refl
get-set_bound key j (some s) props = Dict.get-set key j (str s) props

module _ (props : Properties) (source : String) (clearance : TierArg) (observed_at : String)
    (valid_from : Option String) (valid_to : Option String) where
  abbrev written : AccessTier → Properties
  written t = set_bound "valid_to" valid_to (
      set_bound "valid_from" valid_from (
        Dict.set "observed_at" (str observed_at)
          (Dict.set "access_tier" (str (value t)) (Dict.set "source" (str source) props))))

  abbrev get_written : AccessTier → String → Option Value
  get_written t j = set_value "valid_to" (bound valid_to) j (
      set_value "valid_from" (bound valid_from) j (
        set_value "observed_at" (some (str observed_at)) j (
          set_value "access_tier" (some (str (value t))) j
            (set_value "source" (some (str source)) j (Dict.get j props)))))

  get-written : (t : AccessTier) (j : String) → Dict.get j (written t) ≡ get_written t j
  get-written t j = simp (get-set_bound, Dict.get-set)

  stamp-written :
      {out : Properties}
      → stamp props source clearance observed_at valid_from valid_to ≡ ok out
      → (t : AccessTier) × (coerce_tier clearance ≡ ok t) × (out ≡ written t)
  unfolding stamp
  stamp-written {out} h = elim (Result-cases (coerce_tier clearance)) [
    | inl (t, known) ↦ (t, known, ground arith)
    | inr (x, unknown) ↦ absurd (ground arith)
  ]

  -- What is read back of a stamp: the source, the time of the observation and the tier that were
  -- given, and each bound that was given, or else the one that stood there before.
  pub stamp_reads :
      {out : Properties}
      → stamp props source clearance observed_at valid_from valid_to ≡ ok out
      → (get_str "source" out ≡ some source)
        × (get_str "observed_at" out ≡ some observed_at)
        × (coerce_tier clearance ≡ ok (tier_of out))
        × (get_str "valid_from" out ≡ or_else valid_from (get_str "valid_from" props))
        × (get_str "valid_to" out ≡ or_else valid_to (get_str "valid_to" props))
  unfolding tier_of
  stamp_reads {out} h =
      let (t, known, e) = stamp-written h in
      ground (
        arith,
        known,
        e,
        get-written t "source",
        get-written t "observed_at",
        get-written t "access_tier",
        get-written t "valid_from",
        get-written t "valid_to",
        parse_tier-value t,
      )

  -- Every other property stays as it was.
  pub stamp_keeps :
      (key : String) {out : Properties}
      → stamp props source clearance observed_at valid_from valid_to ≡ ok out
      → key ≢ "source"
      → key ≢ "observed_at"
      → key ≢ "access_tier"
      → key ≢ "valid_from"
      → key ≢ "valid_to"
      → Dict.get key out ≡ Dict.get key props
  stamp_keeps key {out} h a b c d e =
      let (t, known, p) = stamp-written h in
      ground (
        arith,
        p,
        get-written t key,
        eq_iff "source" key,
        eq_iff "observed_at" key,
        eq_iff "access_tier" key,
        eq_iff "valid_from" key,
        eq_iff "valid_to" key,
      )
