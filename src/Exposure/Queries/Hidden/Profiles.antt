-- ===== src/Exposure/Queries/Hidden/Profiles.antt =====
-- `entity_profile` of exposure/queries.py does not depend on the edges above a clearance.
use coruscant.Prelude.{
  ◌≡◌, refl, Bool, List, [], ◌∷◌, String, arith, Result, ok, raise, ◌>>=◌, ap, ◌∙◌, ◌==◌, true,
  false, string_eq, Bool-cases, inl, inr, if◌then◌else◌,
}
use coruscant.Graph.Types.{GraphEdge, EntityId}
use coruscant.Graph.Memory.{target_of, source_of, Store, outgoing, incoming, get_node}
use coruscant.Graph.Substrate.{AccessTier, TierArg, coerce_tier, visible_at, can_see}
use coruscant.Exposure.Ownership.{ref, name_of}
use coruscant.Exposure.Queries.Props.{Text}
use coruscant.Exposure.Queries.Profile.{outward, inward, entity_profile, relationship}
use coruscant.Exposure.Queries.Hidden.{
  hide, get_node-hide, ref-hide, outgoing-hide, incoming-hide, shown,
}

bind_ok : {A : Type 0} (b : Bool) (r : Result A) → r ≡ (if b then r else (r >>= λ a. ok a))
bind_ok true r = refl
bind_ok false (ok a) = refl
bind_ok false (raise e) = refl

module _ (c : AccessTier) (clearance : TierArg) (known : coerce_tier clearance ≡ ok c) where
  module _ (t : Text) (s : Store) where
    relationship-hide :
        (d : String) (i : EntityId) (e : GraphEdge)
        → relationship t (hide c s) d i e ≡ relationship t s d i e
    unfolding hide get_node ref name_of relationship
    relationship-hide d i e = refl

    can_see-shown : (e : GraphEdge) → can_see e.properties clearance ≡ ok (shown c e)
    unfolding can_see
    can_see-shown e = rw known refl

    outward-hide :
        (es : List GraphEdge)
        → outward t (hide c s) clearance (visible_at c es) ≡ outward t s clearance es
    unfolding outward visible_at
    outward-hide [] = refl
    outward-hide (e ∷ es) = elim (Bool-cases (shown c e)) [
      | inl above ↦
          let seen : can_see e.properties clearance ≡ ok true = can_see-shown e ∙ ap ok above in
          rw (above, seen, relationship-hide "out" (target_of e) e, outward-hide es) refl
      | inr below ↦
          let seen : can_see e.properties clearance ≡ ok false = can_see-shown e ∙ ap ok below in
          rw (below, seen, outward-hide es)
            (bind_ok (e.relation == "mentions") (outward t s clearance es))
    ]

    inward-hide :
        (es : List GraphEdge)
        → inward t (hide c s) clearance (visible_at c es) ≡ inward t s clearance es
    unfolding inward visible_at
    inward-hide [] = refl
    inward-hide (e ∷ es) =
        grind (arith, can_see-shown e, inward-hide es, relationship-hide "in" (source_of e) e)

    -- If the clearance is that of the tier `c`, the profile of an entity is the same with and without
    -- the edges that are above it.
    pub entity_profile-hide :
        (kind key : String)
        → entity_profile t (hide c s) clearance kind key ≡ entity_profile t s clearance kind key
    unfolding entity_profile
    entity_profile-hide kind key = grind (
      arith,
      get_node-hide c s (kind, key),
      ref-hide c s,
      outgoing-hide c s (kind, key),
      incoming-hide c s (kind, key),
      outward-hide (outgoing s (kind, key)),
      inward-hide (incoming s (kind, key)),
    )
