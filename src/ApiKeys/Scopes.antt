-- ===== src/ApiKeys/Scopes.antt =====
-- The scopes of a key, from what is asked for to what is read back.
use coruscant.Prelude.{
  none, some, refl, ap, string_ord, List, Option, String, ◌≡◌, [], elem, elem, some, some, arith,
  ◌&&◌, some, ◌==◌, elem_iff, ap, false, keep, ◌∙◌, string_eq, pair_eq, nat_eq,
}
use coruscant.Prelude.Sort.{sort_by, Memᴰ-sort_by}
use coruscant.Prelude.Groups.{set_of, elem-set_of, elem-keep}
use coruscant.ApiKeys.Store.{Codec, granted, load_scopes, dump_scopes, known_scopes}

-- What JSON promises for a list of texts.
pub record IsJson (c : Codec) : Type 0 where
  pub loads_back : (xs : List String) → c.loads (c.dumps xs) ≡ some xs
  pub not_blank : (xs : List String) → (c.dumps xs == "") ≡ false

-- The scopes that are asked for.
abbrev pub asked : Option (List String) → List String
asked none = []
asked (some scopes) = scopes

elem-sorted : (s : String) (xs : List String) → elem s (sort_by (λ x. x) xs) ≡ elem s xs
elem-sorted s xs =
    ground (
      arith,
      elem_iff s xs,
      elem_iff s (sort_by (λ x. x) xs),
      Memᴰ-sort_by (λ (x : String). x) s xs,
    )

pub elem-granted :
    (s : String) (scopes : Option (List String))
    → elem s (granted scopes) ≡ elem s (asked scopes) && elem s known_scopes
unfolding granted
elem-granted s none = refl
elem-granted s (some scopes) =
    elem-sorted s (keep (λ x. elem x known_scopes) (set_of scopes))
    ∙ elem-keep (λ x. elem x known_scopes) s (set_of scopes)
    ∙ ap (λ b. b && elem s known_scopes) (elem-set_of s scopes)

module _ (c : Codec) (json : IsJson c) where
  pub elem-load_scopes-dump_scopes :
      (s : String) (xs : List String) → elem s (load_scopes c (some (dump_scopes c xs))) ≡ elem s xs
  unfolding load_scopes dump_scopes
  elem-load_scopes-dump_scopes s xs =
      let sorted = sort_by (λ x. x) (set_of xs) in
      let read : load_scopes c (some (dump_scopes c xs)) ≡ set_of sorted =
        ground (arith, json.loads_back sorted, json.not_blank sorted) in
      ap (elem s) read ∙ elem-set_of s sorted ∙ elem-sorted s (set_of xs) ∙ elem-set_of s xs
