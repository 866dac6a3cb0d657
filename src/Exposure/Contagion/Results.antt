-- ===== src/Exposure/Contagion/Results.antt =====
-- What `group_contagion` returns.
use coruscant.Prelude.{
  ℕ, ◌≤◌, ◌≡◌, refl, sym, ap, ◌∙◌, subst, ◌≢◌, ◌↔◌, Option, some, String, List, [], ◌∷◌, map,
  length, Memᴰ, Memᴰ-map, All-mem, arith, Distinct, ok, Bool-cases, inl, inr, not_elem, Eq,
  string_eq, pair_eq, string_ord, nat_ord, pair_ord, leb→le,
}
use mathlib.Core.List.Memᴰ
use coruscant.Prelude.Sort.{sort_by, IsSortedBy, sort_by-IsSortedBy, Memᴰ-sort_by, sort_by-Distinct}
use coruscant.Graph.Types.{EntityId, GraphNode}
use coruscant.Graph.Memory.{Store, get_node}
use coruscant.Graph.Substrate.{AccessTier, TierArg, coerce_tier}
use coruscant.Exposure.Ownership.{ref}
use coruscant.Exposure.Contagion.{
  ContagionMember, GroupContagion, Found, member, search, first_found, rounds, clamp_hops,
  member_key, gather, group_contagion, leb,
}
use coruscant.Exposure.Contagion.Steps.{IsPath, IsDistance}
use coruscant.Exposure.Contagion.Loop.{search_ends_at}
use coruscant.Exposure.Contagion.Paths.{IsInherited, member_id, search-IsSound_at}
use coruscant.Exposure.Contagion.Nearest.{search-nearest}

-- Of two elements of the list with the same image there is one, if no image stands twice.
mem_unique :
    {A B : Type 0} ⦃e : Eq B⦄ (f : A → B) (xs : List A) {a b : A}
    → Distinct (map f xs)
    → Memᴰ a xs
    → Memᴰ b xs
    → f a ≡ f b
    → a ≡ b
mem_unique f [] d m n p = absurd (Memᴰ.not-nil m)
mem_unique f (x ∷ xs) {a} {b} (new, d) m n p =
    let clash = λ (y : _) (t : Memᴰ y xs) (q : f y ≡ f x).
      not_elem (f x) (map f xs) new ((Memᴰ-map f (f x) xs).1 (y, t, sym q)) in
    elim (Memᴰ.cases_cons m) [
      | inl ma ↦ elim (Memᴰ.cases_cons n) [
        | inl nb ↦ ma ∙ sym nb
        | inr nt ↦ absurd (clash b nt (sym p ∙ ap f ma))
      ]
      | inr mt ↦ elim (Memᴰ.cases_cons n) [
        | inl nb ↦ absurd (clash a mt (p ∙ ap f nb))
        | inr nt ↦ mem_unique f xs d mt nt p
      ]
    ]

module _ (s : Store) (key kind : String) (clearance : TierArg) (on : Option String) (hops : ℕ)
    {c : AccessTier} {n : GraphNode} (known : coerce_tier clearance ≡ ok c)
    (present : get_node s (kind, key) ≡ some n) where
  abbrev limit : ℕ
  limit = clamp_hops hops

  -- For a company that is in the store and a clearance that is a tier, `group_contagion` returns: the
  -- loop ends after at most two rounds for each edge and one for the seed.
  pub group_contagion-returns :
      (r : GroupContagion) × (group_contagion s key kind clearance on hops ≡ ok (some r))
  unfolding group_contagion
  group_contagion-returns =
      let (found, e) = search_ends_at s c on limit (kind, key) in
      (gather (ref s (kind, key)) found, ground (arith, present, known, e))

  returned :
      {r : GroupContagion}
      → group_contagion s key kind clearance on hops ≡ ok (some r)
      → (found : Found) × (search s c on limit
            (rounds s)
            (((kind, key), []) ∷ [], first_found (kind, key))
          ≡ some found)
        × (r ≡ gather (ref s (kind, key)) found)
  unfolding group_contagion
  returned {r} h =
      let (found, e) = search_ends_at s c on limit (kind, key) in
      (found, e, ground (arith, present, known, e, h))

  -- The members of the result are those of the loop, sorted.
  among :
      {r : GroupContagion}
      → group_contagion s key kind clearance on hops ≡ ok (some r)
      → (found : Found) × (search s c on limit
            (rounds s)
            (((kind, key), []) ∷ [], first_found (kind, key))
          ≡ some found)
        × (r.inherited ≡ sort_by member_key found.members)
        × ((m : ContagionMember) → Memᴰ m r.inherited ↔ Memᴰ m found.members)
  unfolding gather
  among {r} h =
      let (found, e, p) = returned h in
      let q = ap (λ (t : GroupContagion). t.inherited) p in
      (
        found,
        e,
        q,
        λ m.
            subst (λ l. Memᴰ m l ↔ Memᴰ m found.members) (sym q)
              (Memᴰ-sort_by member_key m found.members),
      )

  -- For a seed that is in the store and a clearance that is a tier: every member is a company
  -- that the graph leads to: its path goes from the seed to it by steps along stored ownership
  -- edges that the clearance shows and that hold on the date, it has between one hop and as many
  -- as the clamped limit, which `hops` counts, and the link and the shared owner are those of the
  -- path.
  pub member_evidence :
      {r : GroupContagion} {m : ContagionMember}
      → group_contagion s key kind clearance on hops ≡ ok (some r)
      → Memᴰ m r.inherited
      → IsInherited s c on (clamp_hops hops) (kind, key) m
  member_evidence {r} {m} h t =
      let (found, e, q, sorted) = among h in
      All-mem (IsInherited s c on limit (kind, key))
        (search-IsSound_at s c on limit (kind, key) (rounds s) e).0 ((sorted m).0 t)

  -- For a seed that is in the store and a clearance that is a tier: no company is a member twice,
  -- the seed is none, and the members are in order of their hops and, for as many hops, of their
  -- names.
  pub members_once :
      {r : GroupContagion}
      → group_contagion s key kind clearance on hops ≡ ok (some r)
      → Distinct ((kind, key) ∷ map member_id r.inherited) × IsSortedBy member_key r.inherited
  members_once {r} h =
      let (found, e, q, sorted) = among h in
      let (new, d) = (search-IsSound_at s c on limit (kind, key) (rounds s) e).1.0 in
      (
        subst (λ l. Distinct ((kind, key) ∷ map member_id l)) (sym q)
            (sort_by-Distinct member_key member_id found.members (kind, key) (new, d)),
        subst (IsSortedBy member_key) (sym q) (sort_by-IsSortedBy member_key found.members),
      )

  -- For a seed that is in the store and a clearance that is a tier: the members are exactly the
  -- companies, but the seed, that some path of steps leads to in at most as many hops as the
  -- clamped limit, and `hops` is the length of a shortest one.
  pub group_contagion_iff :
      {r : GroupContagion}
      → group_contagion s key kind clearance on hops ≡ ok (some r)
      → (v : EntityId) (d : ℕ)
      → ((m : ContagionMember) × Memᴰ m r.inherited × (member_id m ≡ v) × (m.hops ≡ d)) ↔ (
          (v.0 ≡ "Company")
          × (v ≢ (kind, key))
          × (d ≤ clamp_hops hops)
          × IsDistance s c on (kind, key) v d)
  unfolding ref
  group_contagion_iff {r} h v d =
      let (found, e, q, sorted) = among h in
      let (new, once) = (search-IsSound_at s c on limit (kind, key) (rounds s) e).1.0 in
      let nearest = search-nearest s c on limit (kind, key) (rounds s) {found = found} in
      (
        λ (m, t, at, count).
            let w = member_evidence h t in
            let inside = (sorted m).0 t in
            let other : v ≢ (kind, key) = λ p.
              not_elem (kind, key) (map member_id found.members) new
                ((Memᴰ-map member_id (kind, key) found.members).1 (m, inside, sym (at ∙ p))) in
            let company = ap (λ (x : EntityId). x.0) (sym at) ∙ w.company in
            (
              company,
              other,
              omega (arith, count, w.near),
              record {
                path = m.path;
                reaches = subst (IsPath s c on (kind, key) m.path) at w.path;
                counted = sym w.counted ∙ count;
                shortest = λ way u. elim (Bool-cases (leb d (length way))) [
                  | inl le ↦ leb→le d (length way) le
                  | inr gt ↦
                      let (short, t', le) =
                        nearest way v e u (ground (arith, gt, count, w.near)) company other in
                      let same =
                        mem_unique member_id found.members {a = member s v short} {b = m} once t'
                          inside (sym at) in
                      absurd
                        (ground (arith, gt, le, count, ap (λ (x : ContagionMember). x.hops) same))
                ];
              },
            ),
        λ (company, other, near, w).
            let (short, t, le) =
              nearest w.path v e w.reaches (omega (arith, w.counted)) company other in
            let found_here : Memᴰ (member s v short) r.inherited =
              (sorted (member s v short)).1 t in
            let evidence = member_evidence h found_here in
            (
              member s v short,
              found_here,
              refl,
              omega (arith, w.counted, w.shortest short evidence.path),
            ),
      )
